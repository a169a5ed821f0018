-- ===== src/App/State.antt =====
-- src/app.rs: the state that the handlers share, and what the service takes from its crates.
use proxpulse_judge.Base.{ℕ, Bool, Option, List, Text, Bytes}
use proxpulse_judge.Float.{F64}
use proxpulse_judge.Cache.{Cache}
use proxpulse_judge.Dict.{Dict}
use proxpulse_judge.Geo.Value.{Value}
use proxpulse_judge.Geo.Info.{GeoInfo}
use proxpulse_judge.Geo.Pool.{GeoPool}
use proxpulse_judge.RateLimit.Basic.{RateLimit, new_limit}
use proxpulse_judge.Metrics.Basic.{Metrics, zero_metrics}
use proxpulse_judge.Sign.Basic.{Crypto, Signer}
use proxpulse_judge.Config.Basic.{Config}

-- The type `f64` and its conversions, the crates for signatures, caches and JSON, the lossy
-- decoding of UTF-8, the test of a header value, and Unicode's table of alphanumeric characters.
pub record World : Type 1 where
  pub float : F64
  pub of_u64 : ℕ → F64.F float
  pub of_negative : ℕ → F64.F float
  pub crypto : Crypto
  pub limit_cache : Cache ℕ
  pub geo_cache : Cache (GeoInfo (F64.F float))
  pub ptr_cache : Cache (Option Text)
  pub is_alphanumeric : ℕ → Bool
  pub from_utf8_lossy : Bytes → Text
  pub to_json : Value (F64.F float) → Bytes
  pub is_header_value : Text → Bool

abbrev pub max_concurrency : ℕ
max_concurrency = 512

abbrev pub rdns_max_concurrent : ℕ
rdns_max_concurrent = 16

module _ (W : World) where
  -- `rdns_sem` and `concurrency` are the permits that are free.
  pub record AppState : Type 0 where
    pub geo : GeoPool W.float.F
    pub geo_cache : Cache.Store W.geo_cache
    pub ptr_cache : Cache.Store W.ptr_cache
    pub rdns_sem : ℕ
    pub rate_limit : RateLimit W.float W.limit_cache
    pub metrics : Metrics
    pub concurrency : ℕ
    pub trust_proxy : Bool
    pub trust_cf : Bool
    pub rdns_timeout : ℕ
    pub edge_headers : List Text
    pub metrics_token : Option Text
    pub signer : Signer W.crypto

  -- `AppState::new`
  unfoldable pub new_state : GeoPool W.float.F → Config W.crypto → AppState
  unfolding new_limit
  new_state geo cfg = record {
    geo = geo;
    geo_cache = Cache.empty W.geo_cache;
    ptr_cache = Cache.empty W.ptr_cache;
    rdns_sem = rdns_max_concurrent;
    rate_limit = new_limit W.float W.limit_cache cfg.rate_per_minute;
    metrics = zero_metrics;
    concurrency = max_concurrency;
    trust_proxy = cfg.trust_proxy;
    trust_cf = cfg.trust_cf;
    rdns_timeout = cfg.rdns_timeout;
    edge_headers = cfg.edge_headers;
    metrics_token = cfg.metrics_token;
    signer = cfg.signer;
  }

module _ (W : World) where
  -- What other tasks change while a request waits: all that is not fixed at the start.
  pub record Shared : Type 0 where
    pub geo_cache : Cache.Store W.geo_cache
    pub ptr_cache : Cache.Store W.ptr_cache
    pub rdns_sem : ℕ
    pub rate_limit : RateLimit W.float W.limit_cache
    pub metrics : Metrics
    pub concurrency : ℕ

  abbrev pub absorb : AppState W → Shared → AppState W
  absorb s m = record s {
    geo_cache = m.geo_cache;
    ptr_cache = m.ptr_cache;
    rdns_sem = m.rdns_sem;
    rate_limit = m.rate_limit;
    metrics = m.metrics;
    concurrency = m.concurrency;
  }

-- A response as the middleware sees it.
pub record Response : Type 0 where
  pub status : ℕ
  pub headers : Dict Text
  pub body : Bytes
