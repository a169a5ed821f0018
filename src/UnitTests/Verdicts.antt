-- ===== src/UnitTests/Verdicts.antt =====
-- src/app.rs, `mod api_tests`: the JSON of answers. The query is what the extractor makes of it.
use proxpulse_judge.Base.{
  ℕ, ◌==◌, Bool, true, false, not, ◌&&◌, ◌≡◌, refl, Option, none, some, List, [], ◌∷◌, ◌++◌, ◌>>=◌,
  String, Text, codes, option_eq, is_none, all, length, map_option, unwrap_or,
}
use proxpulse_judge.Cache.{keep_all}
use proxpulse_judge.Str.Basic.{contains_text}
use proxpulse_judge.Geo.Value.{
  Value, boolean, array, Items, no_items, item, string, get_key, walk, as_u64,
}
use proxpulse_judge.App.Middleware.{Request}
use proxpulse_judge.UnitTests.Notation.{texts, texts_eq}
use proxpulse_judge.UnitTests.Records.{city_and_asn, nat_is}
use proxpulse_judge.UnitTests.Wire.{to_json}
use proxpulse_judge.UnitTests.Api.{
  test_config, test_state, test_app_with, test_app, get_with, oneshot, json, text_at, at_is,
}

-- `/judge` with a `direct_ip`
unfoldable judge_with : String → List (String × String) → Request
unfolding get_with
judge_with direct_ip headers = record (get_with "/judge" headers) {
  direct_ip = some (codes direct_ip);
}

-- one item of text, at an index of an array
abbrev texts_of : Items ℕ → List Text
texts_of no_items = []
texts_of (item (string t) vs) = t ∷ texts_of vs
texts_of (item v vs) = texts_of vs

abbrev array_at : Option (Value ℕ) → String → Option (Items ℕ)
array_at v key = elim (v >>= λ o. get_key o (codes key)) [ some (array vs) ↦ some vs | _ ↦ none ]

abbrev first_text : Option (Items ℕ) → Text
first_text (some (item (string t) vs)) = t
first_text _ = []

abbrev nat_at_is : Option (Value ℕ) → List String → ℕ → Bool
unfolding walk as_u64
nat_at_is v path n = nat_is (v >>= λ o. walk o (texts path) >>= as_u64) n

unfoldable garbage_direct_ip_is_ignored : Bool
unfolding test_app json judge_with at_is
garbage_direct_ip_is_ignored =
    at_is (json test_app (judge_with "not-an-ip" (("user-agent", "not-an-ip") ∷ [])))
      ("anonymity" ∷ []) "elite"

unfoldable judge_transparent : Bool
unfolding test_app json judge_with at_is text_at
judge_transparent =
    let v = json test_app (judge_with "1.1.1.1" (("x-forwarded-for", "1.1.1.1, 5.6.7.8") ∷ [])) in
    at_is v ("ip" ∷ []) "5.6.7.8"
    && at_is v ("anonymity" ∷ []) "transparent"
    && nat_is (map_option length (text_at v ("content_sha256" ∷ []))) 64

unfoldable judge_elite_no_leak : Bool
unfolding test_app json judge_with at_is
judge_elite_no_leak = at_is (json test_app (judge_with "1.1.1.1" [])) ("anonymity" ∷ []) "elite"

abbrev chain_at_is : Option (Value ℕ) → List String → Bool
chain_at_is v ts = elim (array_at v "xff_chain") [
  | some vs ↦ texts_eq (texts_of vs) (texts ts)
  | none ↦ false
]

abbrev bool_at_is : Option (Value ℕ) → String → Bool → Bool
bool_at_is v key b = elim (v >>= λ o. get_key o (codes key)) [
  | some (boolean true) ↦ b
  | some (boolean false) ↦ not b
  | _ ↦ false
]

unfoldable metrics_and_readyz : Bool
unfolding test_app json get_with oneshot contains_text
metrics_and_readyz =
    let v = json test_app (get_with "/readyz" []) in
    let metrics = (oneshot test_app (get_with "/metrics" [])).0 in
    bool_at_is v "ok" true
    && bool_at_is v "geo_ready" false
    && metrics.status == 200
    && contains_text (codes "proxpulse_requests_total") metrics.body
    && contains_text (codes "proxpulse_build_info") metrics.body
    && contains_text (codes "proxpulse_geo_ready 0") metrics.body

unfoldable index_has_licenses : Bool
unfolding test_app json get_with at_is text_at contains_text
index_has_licenses =
    let v = json test_app (get_with "/" []) in
    at_is v ("service" ∷ []) "proxpulse-judge"
    && at_is v ("repository" ∷ []) "https://github.com/nechel12/proxpulse-judge"
    && at_is v ("licenses" ∷ "dbip_lite" ∷ "license" ∷ []) "CC BY 4.0"
    && contains_text (codes "maxmind.com")
        (unwrap_or (text_at v ("licenses" ∷ "geolite2" ∷ "url" ∷ [])) [])

unfoldable duplicate_xff_is_joined_consistently : Bool
unfolding test_app json judge_with at_is
duplicate_xff_is_joined_consistently =
    let v = json test_app (
      judge_with "1.1.1.1"
        (("x-forwarded-for", "1.1.1.1") ∷ ("x-forwarded-for", "9.9.9.9") ∷ [])) in
    at_is v ("ip" ∷ []) "9.9.9.9"
    && chain_at_is v ("1.1.1.1" ∷ [])
    && at_is v ("headers" ∷ "x-forwarded-for" ∷ []) "1.1.1.1"
    && at_is v ("anonymity" ∷ []) "transparent"

unfoldable edge_only_xff_is_not_echoed : Bool
unfolding test_app json get_with at_is text_at
edge_only_xff_is_not_echoed =
    all
      (λ path.
        let v = json test_app (get_with path (("x-forwarded-for", "5.6.7.8") ∷ [])) in
        at_is v ("ip" ∷ []) "5.6.7.8"
        && is_none (v >>= λ o. walk o (texts ("headers" ∷ "x-forwarded-for" ∷ [])))
        && chain_at_is v [])
      ("/judge" ∷ "/headers" ∷ [])

unfoldable line_feed_in_direct_ip_counts_as_absent_for_the_verdict : Bool
unfolding test_app json judge_with get_with at_is text_at
line_feed_in_direct_ip_counts_as_absent_for_the_verdict =
    let leak = ("x-forwarded-for", "1.1.1.1") ∷ ("x-forwarded-for", "9.9.9.9") ∷ [] in
    at_is (json test_app (judge_with "1.1.1.1" leak)) ("anonymity" ∷ []) "transparent"
    && option_eq (text_at (json test_app (judge_with "1.1.1.1\n" leak)) ("anonymity" ∷ []))
        (text_at (json test_app (get_with "/judge" leak)) ("anonymity" ∷ []))

unfoldable edge_headers_are_not_attributed_to_the_proxy : Bool
unfolding test_app test_app_with test_config json judge_with at_is
edge_headers_are_not_attributed_to_the_proxy =
    let req =
      judge_with "1.1.1.1" (("x-real-ip", "5.6.7.8") ∷ ("x-forwarded-for", "5.6.7.8") ∷ []) in
    let cfg = record (test_config 1_000_000 0) { edge_headers = codes "x-real-ip" ∷ [] } in
    let v = json (test_app_with cfg) req in
    at_is (json test_app req) ("anonymity" ∷ []) "anonymous"
    && at_is v ("anonymity" ∷ []) "elite"
    && is_none (v >>= λ o. walk o (texts ("headers" ∷ "x-real-ip" ∷ [])))

unfoldable judge_via_cf_tunnel_transparent : Bool
unfolding test_app json judge_with at_is
judge_via_cf_tunnel_transparent =
    let v = json test_app (
      judge_with "1.1.1.1" (
        ("cf-connecting-ip", "5.6.7.8")
        ∷ ("x-forwarded-for", "1.1.1.1, 5.6.7.8")
        ∷ ("cf-ray", "abc123")
        ∷ [])) in
    at_is v ("ip" ∷ []) "5.6.7.8" && at_is v ("anonymity" ∷ []) "transparent"

unfoldable judge_via_cf_tunnel_direct_is_elite : Bool
unfolding test_app json judge_with at_is
judge_via_cf_tunnel_direct_is_elite =
    let v = json test_app (
      judge_with "1.1.1.1" (
        ("cf-connecting-ip", "1.1.1.1")
        ∷ ("x-forwarded-for", "1.1.1.1")
        ∷ ("cf-ray", "abc123")
        ∷ ("cf-ipcountry", "DE")
        ∷ [])) in
    at_is v ("ip" ∷ []) "1.1.1.1" && at_is v ("anonymity" ∷ []) "elite"

unfoldable judge_reads_real_geo_databases : Bool
unfolding test_state test_config json get_with at_is contains_text nat_at_is
judge_reads_real_geo_databases =
    let state = test_state city_and_asn (test_config 1_000_000 0) in
    let v = json state (get_with "/judge" (("x-forwarded-for", "203.0.113.7") ∷ [])) in
    at_is v ("ip" ∷ []) "203.0.113.7"
    && at_is v ("geo" ∷ "country_code" ∷ []) "DE"
    && nat_at_is v ("geo" ∷ "asn" ∷ []) 64500
    && at_is v ("geo_source" ∷ "city" ∷ []) "GeoLite2-City.mmdb"
    && at_is v ("ip_type" ∷ []) "datacenter"
    && contains_text (codes "MaxMind") (first_text (array_at v "attribution"))

unfoldable judge_unknown_xff_behind_proxy_is_anonymous : Bool
unfolding test_app json judge_with at_is
judge_unknown_xff_behind_proxy_is_anonymous =
    let v = json test_app (judge_with "1.2.3.4" (("x-forwarded-for", "unknown, 5.6.7.8") ∷ [])) in
    at_is v ("ip" ∷ []) "5.6.7.8"
    && chain_at_is v []
    && at_is v ("headers" ∷ "x-forwarded-for" ∷ []) "unknown"
    && at_is v ("anonymity" ∷ []) "anonymous"

-- The value has the two bytes of a letter that is not ASCII.
unfoldable judge_non_ascii_header_still_detects_ip_leak : Bool
unfolding test_app json judge_with at_is
judge_non_ascii_header_still_detects_ip_leak =
    let req = judge_with "1.2.3.4" (("x-forwarded-for", "5.6.7.8") ∷ []) in
    let value = codes "proxy " ++ (0xc3 ∷ 0xa9 ∷ codes " 1.2.3.4") in
    at_is
      (json test_app (record req { headers = req.headers ++ (codes "x-client-info", value) ∷ [] }))
      ("anonymity" ∷ []) "transparent"

verdict_tests :
    (garbage_direct_ip_is_ignored ≡ true)
    × (judge_transparent ≡ true)
    × (judge_elite_no_leak ≡ true)
    × (metrics_and_readyz ≡ true)
    × (index_has_licenses ≡ true)
    × (duplicate_xff_is_joined_consistently ≡ true)
    × (edge_only_xff_is_not_echoed ≡ true)
    × (line_feed_in_direct_ip_counts_as_absent_for_the_verdict ≡ true)
    × (edge_headers_are_not_attributed_to_the_proxy ≡ true)
    × (judge_via_cf_tunnel_transparent ≡ true)
    × (judge_via_cf_tunnel_direct_is_elite ≡ true)
    × (judge_reads_real_geo_databases ≡ true)
    × (judge_unknown_xff_behind_proxy_is_anonymous ≡ true)
    × (judge_non_ascii_header_still_detects_ip_leak ≡ true)
unfolding garbage_direct_ip_is_ignored judge_transparent judge_elite_no_leak metrics_and_readyz
    index_has_licenses duplicate_xff_is_joined_consistently edge_only_xff_is_not_echoed
    line_feed_in_direct_ip_counts_as_absent_for_the_verdict
    edge_headers_are_not_attributed_to_the_proxy judge_via_cf_tunnel_transparent
    judge_via_cf_tunnel_direct_is_elite judge_reads_real_geo_databases
    judge_unknown_xff_behind_proxy_is_anonymous judge_non_ascii_header_still_detects_ip_leak
    keep_all to_json
verdict_tests = (refl, refl, refl, refl, refl, refl, refl, refl, refl, refl, refl, refl, refl, refl)
