-- ===== src/UnitTests/Api.antt =====
-- src/app.rs, `mod api_tests`: the helpers of the tests. The crates' text of JSON is a stand-in, a
-- query is what the extractor makes of it, and the clock stands still.
use proxpulse_judge.Base.{
  ℕ, ◌==◌, Bool, true, Option, none, some, List, [], ◌∷◌, ◌>>=◌, String, Text, codes, option_eq,
}
use proxpulse_judge.Float.{fixed_point}
use proxpulse_judge.Cache.{keep_all}
use proxpulse_judge.Str.Basic.{is_ascii_alphanumeric}
use proxpulse_judge.Addr.Basic.{v4}
use proxpulse_judge.Sign.Basic.{Signer, from_seed}
use proxpulse_judge.Config.Basic.{Config}
use proxpulse_judge.Geo.Value.{Value, walk, as_str}
use proxpulse_judge.Geo.Open.{Directory, open_pool}
use proxpulse_judge.App.State.{World, AppState, Response, new_state}
use proxpulse_judge.App.Request.{HeaderMap}
use proxpulse_judge.App.Rdns.{RdnsRun}
use proxpulse_judge.App.Middleware.{Request, Timing, service}
use proxpulse_judge.App.Judge.{route}
use proxpulse_judge.UnitTests.Notation.{texts}
use proxpulse_judge.UnitTests.Signing.{test_crypto}
use proxpulse_judge.UnitTests.Records.{tenths, no_directory}
use proxpulse_judge.UnitTests.Wire.{to_json, from_slice}

abbrev pub test_world : World
test_world = record {
  float = fixed_point;
  of_u64 = tenths;
  of_negative = tenths;
  crypto = test_crypto;
  limit_cache = keep_all ℕ;
  geo_cache = keep_all _;
  ptr_cache = keep_all (Option Text);
  is_alphanumeric = is_ascii_alphanumeric;
  from_utf8_lossy = λ b. b;
  to_json = to_json;
  is_header_value = λ t. true;
}

-- the signer of `Signer::generate`
abbrev pub generated : Signer test_crypto
generated = from_seed test_crypto (1 ∷ []) true

unfoldable pub test_config : ℕ → ℕ → Config test_crypto
test_config per_minute rdns_timeout = record {
  port = 8000;
  bind = v4 127 0 0 1;
  geo_dir = codes "/nonexistent-dir-xyz";
  trust_proxy = true;
  trust_cf = true;
  rdns_timeout = rdns_timeout;
  rate_per_minute = per_minute;
  edge_headers = [];
  metrics_token = none;
  signer = generated;
}

unfoldable pub test_state : Directory ℕ → Config test_crypto → AppState test_world
unfolding new_state open_pool
test_state dir cfg = new_state test_world (open_pool dir) cfg

unfoldable pub test_app_with : Config test_crypto → AppState test_world
unfolding test_state
test_app_with cfg = test_state no_directory cfg

unfoldable pub test_app : AppState test_world
unfolding test_app_with test_config
test_app = test_app_with (test_config 1_000_000 0)

-- The layer in front of the tests gives each request the peer 127.0.0.1.
unfoldable pub add_connect_info : Request → Request
add_connect_info req = record req { conn = some (v4 127 0 0 1) }

abbrev pub lines : List (String × String) → HeaderMap
lines [] = []
lines ((k, v) ∷ l) = (codes k, codes v) ∷ lines l

unfoldable pub get_with : String → List (String × String) → Request
get_with path headers = record {
  method = codes "GET";
  path = codes path;
  headers = lines headers;
  conn = none;
  direct_ip = none;
  nonce = none;
  refusal = none;
}

-- No request waits.
abbrev pub at_once : Timing test_world
at_once = record { made = 0; now = 0; permit = true; cut = none }

unfoldable pub undisturbed : AppState test_world → RdnsRun test_world
undisturbed s = record {
  permit = true;
  meanwhile = record {
    geo_cache = s.geo_cache;
    ptr_cache = s.ptr_cache;
    rdns_sem = s.rdns_sem;
    rate_limit = s.rate_limit;
    metrics = s.metrics;
    concurrency = s.concurrency;
  };
  name = none;
  in_time = true;
}

-- One request of the app: the answer and the app afterwards.
unfoldable pub oneshot : AppState test_world → Request → Response × AppState test_world
unfolding service route add_connect_info undisturbed
oneshot app req =
    let req' = add_connect_info req in
    service test_world at_once req' (route test_world (codes "1.2.3") (undisturbed app) req') app

unfoldable pub json : AppState test_world → Request → Option (Value ℕ)
unfolding oneshot from_slice
json app req = from_slice (oneshot app req).0.body

-- the text at a path of keys
unfoldable pub text_at : Option (Value ℕ) → List String → Option Text
unfolding walk as_str
text_at none path = none
text_at (some v) path = walk v (texts path) >>= as_str

unfoldable pub at_is : Option (Value ℕ) → List String → String → Bool
unfolding text_at
at_is v path t = option_eq (text_at v path) (some (codes t))

unfoldable pub status_is : AppState test_world → Request → ℕ → Bool
unfolding oneshot
status_is app req n = (oneshot app req).0.status == n
