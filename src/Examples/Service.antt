-- ===== src/Examples/Service.antt =====
-- The theorems on the service, its settings and its databases at concrete inputs.
use proxpulse_judge.Base.{
  ℕ, ◌≡◌, true, false, refl, none, some, [], ◌∷◌, if◌then◌else◌, arith, codes, contains,
}
use proxpulse_judge.Base.{Bytes}
use proxpulse_judge.Str.Basic.{print_u64}
use proxpulse_judge.Dict.{get}
use proxpulse_judge.Cache.{keep_all}
use proxpulse_judge.Host.Basic.{split_xff}
use proxpulse_judge.Anonymity.Basic.{x_forwarded_for}
use proxpulse_judge.Float.{fixed_point}
use proxpulse_judge.RateLimit.Basic.{RateLimit, check}
use proxpulse_judge.Metrics.Basic.{inc}
use proxpulse_judge.Config.Rules.{IsSafe, from_lookup-IsSafe}
use proxpulse_judge.App.Request.{headers_lower, proxy_view, self_ip}
use proxpulse_judge.App.View.{entries_before, proxy_view-get}
use proxpulse_judge.App.Middleware.{Request, is_monitoring, service}
use proxpulse_judge.App.Layers.{service-limited}
use proxpulse_judge.App.Judge.{challenge}
use proxpulse_judge.App.Signed.{direct_of, judge-binds}
use proxpulse_judge.Examples.Setting.{
  toy_crypto, toy_world, toy_state, request_of, in_time, plain, toy_env, toy_config, starts,
}

abbrev geo_request : Request
geo_request = request_of (codes "/geo")

geo_unmonitored : is_monitoring geo_request.path ≡ false
unfolding is_monitoring
geo_unmonitored = refl

out_of_tokens :
    (check fixed_point
      (keep_all ℕ)
      toy_state.rate_limit
      (self_ip toy_world toy_state geo_request.headers geo_request.conn)
      0
      0).1
    ≡ some 60
unfolding toy_state check self_ip keep_all
out_of_tokens = refl

abbrev after_check : RateLimit fixed_point (keep_all ℕ)
after_check =
    (check fixed_point (keep_all ℕ) toy_state.rate_limit
      (self_ip toy_world toy_state geo_request.headers geo_request.conn) 0 0).0

service-limited_example :
    ((service toy_world in_time geo_request plain toy_state).0.status ≡ 429)
    × (get (service toy_world in_time geo_request plain toy_state).0.headers (codes "retry-after")
        ≡ some (print_u64 60))
    × ((service toy_world in_time geo_request plain toy_state).1 ≡ record toy_state {
      rate_limit = after_check;
      metrics = record toy_state.metrics {
        requests = inc toy_state.metrics.requests;
        responses_4xx = inc toy_state.metrics.responses_4xx;
        rate_limited = inc toy_state.metrics.rate_limited;
      };
    })
service-limited_example =
    service-limited toy_world in_time geo_request plain toy_state 60 geo_unmonitored out_of_tokens

trusts : toy_state.trust_proxy ≡ true
unfolding toy_state
trusts = refl

proxy_view-get_example :
    (get (proxy_view toy_world toy_state geo_request.headers (codes "5.6.7.8")).0 (codes "x-edge")
      ≡ (if contains toy_state.edge_headers (codes "x-edge")
          then none
          else get (headers_lower (λ b. b) geo_request.headers) (codes "x-edge")))
    × (split_xff (
          get
            (proxy_view toy_world toy_state geo_request.headers (codes "5.6.7.8")).0
            x_forwarded_for)
        ≡ entries_before toy_world toy_state geo_request.headers (codes "5.6.7.8"))
proxy_view-get_example =
    proxy_view-get toy_world toy_state geo_request.headers (codes "5.6.7.8") (codes "x-edge") trusts
      refl

from_lookup-IsSafe_example : IsSafe toy_crypto (λ t. true) toy_config
from_lookup-IsSafe_example = from_lookup-IsSafe toy_crypto toy_env toy_config starts

abbrev asked : Request
asked = record geo_request { direct_ip = some (codes "9.9"); nonce = some (codes "12345678") }

abbrev answer : Bytes
answer = b'x' ∷ []

judge-binds_example :
    (challenge toy_world asked ≡ challenge toy_world asked)
    × (direct_of toy_world asked ≡ direct_of toy_world asked)
    × (answer ≡ answer)
judge-binds_example =
    judge-binds toy_world asked asked answer answer (omega arith, (omega arith, (omega arith, tt)))
      (omega arith, (omega arith, (omega arith, tt))) refl
