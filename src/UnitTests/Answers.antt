-- ===== src/UnitTests/Answers.antt =====
-- src/app.rs, `mod api_tests`: the status and the headers of answers.
use proxpulse_judge.Base.{
  ℕ, zero, suc, ◌==◌, ltb, Bool, true, ◌&&◌, ◌≡◌, refl, none, some, List, [], ◌∷◌, String, codes,
  text_eq, option_eq, is_some, is_none, all, length,
}
use proxpulse_judge.Dict.{get}
use proxpulse_judge.Cache.{keep_all}
use proxpulse_judge.App.State.{AppState}
use proxpulse_judge.App.Rdns.{maybe_rdns}
use proxpulse_judge.App.Middleware.{Request}
use proxpulse_judge.UnitTests.Records.{no_directory}
use proxpulse_judge.UnitTests.Api.{
  test_world, test_config, test_state, test_app_with, test_app, get_with, oneshot, status_is,
  undisturbed,
}

abbrev header_is : AppState test_world → String → List (String × String) → String → String → Bool
unfolding oneshot get_with get
header_is app path lines name value =
    option_eq (get (oneshot app (get_with path lines)).0.headers (codes name)) (some (codes value))

-- the loop of requests that are all answered
unfoldable all_ok : ℕ → AppState test_world → Request → Bool
unfolding oneshot
all_ok zero app req = true
all_ok (suc n) app req =
    let (res, after) = oneshot app req in res.status == 200 && all_ok n after req

unfoldable rate_limit_blocks_and_healthz_exempt : Bool
unfolding test_app_with test_config oneshot get_with all_ok get
rate_limit_blocks_and_healthz_exempt =
    let app = test_app_with (test_config 2 0) in
    let get_ip = get_with "/ip" (("x-forwarded-for", "9.9.9.9") ∷ []) in
    let (first, app_1) = oneshot app get_ip in
    let (second, app_2) = oneshot app_1 get_ip in
    let (limited, app_3) = oneshot app_2 get_ip in
    first.status == 200
    && second.status == 200
    && limited.status == 429
    && option_eq (get limited.headers (codes "retry-after")) (some (codes "30"))
    && option_eq (get limited.headers (codes "cache-control")) (some (codes "no-store"))
    && all_ok 5 app_3 (get_with "/healthz" [])

unfoldable rate_limit_is_not_bypassed_by_rotating_ipv6_in_a_64 : Bool
unfolding test_app_with test_config oneshot get_with status_is
rate_limit_is_not_bypassed_by_rotating_ipv6_in_a_64 =
    let app = test_app_with (test_config 2 0) in
    let get_from = λ (ip : String). get_with "/ip" (("x-forwarded-for", ip) ∷ []) in
    let (first, app_1) = oneshot app (get_from "2001:db8:1:2::1") in
    let (second, app_2) = oneshot app_1 (get_from "2001:db8:1:2::2") in
    let (third, app_3) = oneshot app_2 (get_from "2001:db8:1:2:ffff::3") in
    first.status == 200
    && second.status == 200
    && third.status == 429
    && status_is app_3 (get_from "2001:db8:1:3::1") 200

unfoldable dynamic_endpoints_are_no_store_and_nosniff : Bool
unfolding test_app status_is header_is oneshot get_with get
dynamic_endpoints_are_no_store_and_nosniff =
    let res = (oneshot test_app (get_with "/content" [])).0 in
    all
      (λ path.
        status_is test_app (get_with path []) 200
        && header_is test_app path [] "cache-control" "no-store"
        && header_is test_app path [] "x-content-type-options" "nosniff")
      ("/ip" ∷ "/headers" ∷ "/geo" ∷ "/type" ∷ "/judge" ∷ "/key" ∷ "/healthz" ∷ "/readyz"
        ∷ "/metrics" ∷ [])
    && is_none (get res.headers (codes "cache-control"))
    && is_some (get res.headers (codes "x-content-type-options"))

unfoldable metrics_token_is_enforced_when_set : Bool
unfolding test_app_with test_config status_is get_with
metrics_token_is_enforced_when_set =
    let cfg = record (test_config 1_000_000 0) { metrics_token = some (codes "s3cret") } in
    let app = test_app_with cfg in
    status_is app (get_with "/metrics" []) 401
    && status_is app (get_with "/metrics" (("authorization", "Bearer wrong") ∷ [])) 401
    && status_is app (get_with "/metrics" (("authorization", "s3cret") ∷ [])) 401
    && status_is app (get_with "/metrics" (("authorization", "Bearer s3cret") ∷ [])) 200

unfoldable generate_204_empty : Bool
unfolding test_app status_is get_with
generate_204_empty = status_is test_app (get_with "/generate_204" []) 204

unfoldable content_stable : Bool
unfolding test_app oneshot get_with
content_stable =
    let a = (oneshot test_app (get_with "/content" [])).0 in
    let b = (oneshot test_app (get_with "/content" [])).0 in
    text_eq a.body b.body && ltb 32 (length a.body)

-- That it is fast is not said.
unfoldable rdns_skipped_when_asn_known : Bool
unfolding test_state test_config maybe_rdns undisturbed
rdns_skipped_when_asn_known =
    let state = test_state no_directory (test_config 1_000_000 50_000_000) in
    let res =
      maybe_rdns test_world (undisturbed state) state (codes "8.8.8.8")
        (some (codes "Google LLC")) in
    is_none res.ptr

unfoldable rdns_skipped_for_private_and_loopback_ips : Bool
unfolding test_state test_config maybe_rdns undisturbed
rdns_skipped_for_private_and_loopback_ips =
    let state = test_state no_directory (test_config 1_000_000 2_000_000_000) in
    let ask = λ (ip : String). maybe_rdns test_world (undisturbed state) state (codes ip) none in
    all (λ ip. is_none (ask ip).ptr && (ask ip).state.metrics.rdns_lookups == 0)
      ("127.0.0.1" ∷ "::1" ∷ "10.0.0.1" ∷ "172.17.0.1" ∷ "192.168.1.1" ∷ "100.64.0.1"
        ∷ "169.254.1.1" ∷ "203.0.113.7" ∷ "2001:db8::1" ∷ "fe80::1" ∷ "fc00::1" ∷ [])

answer_tests :
    (rate_limit_blocks_and_healthz_exempt ≡ true)
    × (rate_limit_is_not_bypassed_by_rotating_ipv6_in_a_64 ≡ true)
    × (dynamic_endpoints_are_no_store_and_nosniff ≡ true)
    × (metrics_token_is_enforced_when_set ≡ true)
    × (generate_204_empty ≡ true)
    × (content_stable ≡ true)
    × (rdns_skipped_when_asn_known ≡ true)
    × (rdns_skipped_for_private_and_loopback_ips ≡ true)
unfolding rate_limit_blocks_and_healthz_exempt rate_limit_is_not_bypassed_by_rotating_ipv6_in_a_64
    dynamic_endpoints_are_no_store_and_nosniff metrics_token_is_enforced_when_set generate_204_empty
    content_stable rdns_skipped_when_asn_known rdns_skipped_for_private_and_loopback_ips header_is
    keep_all
answer_tests = (refl, refl, refl, refl, refl, refl, refl, refl)
