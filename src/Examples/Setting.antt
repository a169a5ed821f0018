-- ===== src/Examples/Setting.antt =====
-- A concrete world: caches that keep all, a key that signs by writing itself before the text.
use proxpulse_judge.Base.{
  ℕ, ◌≡◌, true, false, refl, Option, none, some, [], ◌∷◌, ◌++◌, ok, Text, Bytes, codes, text_eq,
  text_eq_refl,
}
use proxpulse_judge.Float.{fixed_point}
use proxpulse_judge.Cache.{keep_all}
use proxpulse_judge.Addr.Basic.{v4}
use proxpulse_judge.Geo.Pool.{GeoPool}
use proxpulse_judge.Sign.Basic.{Crypto, Signer, from_seed}
use proxpulse_judge.RateLimit.Basic.{RateLimit}
use proxpulse_judge.Metrics.Basic.{zero_metrics}
use proxpulse_judge.Config.Basic.{Config, from_lookup, Env, Var, present, not_present}
use proxpulse_judge.App.State.{World, AppState, Response}
use proxpulse_judge.App.Middleware.{Request, Timing}

abbrev pub toy_crypto : Crypto
toy_crypto = record {
  SigningKey = Bytes;
  from_bytes = λ b. b;
  verifying_key = λ k. k;
  sign_bytes = λ k m. k ++ m;
  verify = λ p m s. text_eq s (p ++ m);
  sha256 = λ b. b;
  encode = λ b. b;
  decode = λ t. some t;
  verify-sign = λ k m. text_eq_refl (k ++ m);
  decode-encode = λ b. refl;
}

abbrev pub toy_world : World
toy_world = record {
  float = fixed_point;
  of_u64 = λ n. n;
  of_negative = λ n. n;
  crypto = toy_crypto;
  limit_cache = keep_all ℕ;
  geo_cache = keep_all _;
  ptr_cache = keep_all (Option Text);
  is_alphanumeric = λ c. false;
  from_utf8_lossy = λ b. b;
  to_json = λ v. [];
  is_header_value = λ t. true;
}

abbrev pub toy_signer : Signer toy_crypto
toy_signer = from_seed toy_crypto (b'k' ∷ []) false

abbrev pub no_pool : GeoPool ℕ
no_pool = record { city = none; country = none; asn = none; sources = [] }

-- One token a minute, and a client, 5.6.7.8, whose bucket is empty.
unfoldable pub spent : RateLimit fixed_point (keep_all ℕ)
unfolding keep_all
spent = record {
  per_minute = 1;
  hits = (codes "5.6.7.8", 0) ∷ [];
  buckets = record { tokens = 0; updated = 0 } ∷ [];
}

unfoldable pub toy_state : AppState toy_world
unfolding keep_all spent
toy_state = record {
  geo = no_pool;
  geo_cache = [];
  ptr_cache = [];
  rdns_sem = 16;
  rate_limit = spent;
  metrics = zero_metrics;
  concurrency = 512;
  trust_proxy = true;
  trust_cf = false;
  rdns_timeout = 1_500_000_000;
  edge_headers = codes "x-edge" ∷ [];
  metrics_token = none;
  signer = toy_signer;
}

abbrev pub request_of : Text → Request
request_of path = record {
  method = codes "GET";
  path = path;
  headers =
      (codes "x-forwarded-for", codes "9.9.9.9, 5.6.7.8")
      ∷ (codes "x-edge", codes "1")
      ∷ (codes "via", codes "1.1 proxy")
      ∷ [];
  conn = some (v4 10 0 0 1);
  direct_ip = none;
  nonce = none;
  refusal = none;
}

abbrev pub in_time : Timing toy_world
in_time = record { made = 0; now = 0; permit = true; cut = none }

abbrev pub plain : AppState toy_world → Response × AppState toy_world
plain s = (record { status = 200; headers = []; body = [] }, s)

-- `TRUST_PROXY=1` and an edge header.
abbrev pub env_var : Text → Var
env_var name = elim (text_eq name (codes "TRUST_PROXY")) [
  | true ↦ present (codes "1")
  | false ↦ elim (text_eq name (codes "EDGE_HEADERS")) [
    | true ↦ present (codes "X-Edge")
    | false ↦ not_present
  ]
]

abbrev pub toy_env : Env toy_crypto
toy_env = record {
  var = env_var;
  debug = λ t. t;
  is_header_name = λ t. true;
  read_float = λ t. none;
  random = ok [];
}

abbrev pub toy_config : Config toy_crypto
toy_config = record {
  port = 8000;
  bind = v4 0 0 0 0;
  geo_dir = codes "/app/geo";
  trust_proxy = true;
  trust_cf = false;
  rdns_timeout = 1_500_000_000;
  rate_per_minute = 6000;
  edge_headers = codes "x-edge" ∷ [];
  metrics_token = none;
  signer = record { key = []; public_key = []; key_id = []; ephemeral = true };
}

-- This environment is accepted.
pub starts : from_lookup toy_crypto toy_env ≡ ok toy_config
unfolding from_lookup
starts = refl
