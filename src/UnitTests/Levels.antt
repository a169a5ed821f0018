-- ===== src/UnitTests/Levels.antt =====
-- src/logic.rs, `mod tests`: the anonymity level of requests.
use proxpulse_judge.Base.{
  Bool, true, false, ◌&&◌, ◌≡◌, refl, Option, none, some, List, [], ◌∷◌, String, codes, is_empty,
  option_eq,
}
use proxpulse_judge.Str.Basic.{join}
use proxpulse_judge.Dict.{get, insert}
use proxpulse_judge.Host.Basic.{normalize_host}
use proxpulse_judge.Client.Basic.{forwarded_chain}
use proxpulse_judge.Anonymity.Basic.{
  Level, elite, anonymous, transparent, anonymity_level, x_forwarded_for,
}
use proxpulse_judge.UnitTests.Notation.{map, text_opt}

abbrev level_eq : Level → Level → Bool
level_eq elite elite = true
level_eq anonymous anonymous = true
level_eq transparent transparent = true
level_eq _ _ = false

abbrev level_is : List (String × String) → Option String → Bool → Level → Bool
unfolding map anonymity_level
level_is headers direct_ip trust_cf level =
    level_eq (anonymity_level (map headers) (text_opt direct_ip) trust_cf) level

abbrev render_headers : List (String × String)
render_headers =
    ("cf-connecting-ip", "1.1.1.1")
    ∷ ("cf-ray", "abc123")
    ∷ ("x-forwarded-for", "1.1.1.1, 172.71.146.141, 10.29.121.232")
    ∷ []

unfoldable render_direct_check_is_elite_not_transparent : Bool
unfolding get insert map forwarded_chain join anonymity_level
render_direct_check_is_elite_not_transparent =
    let h = map render_headers in
    let chain =
      forwarded_chain (get h x_forwarded_for) (codes "1.1.1.1") true true
        (get h (codes "cf-connecting-ip")) in
    let for_analysis = insert h x_forwarded_for (join (codes ", ") chain) in
    is_empty chain
    && level_eq (anonymity_level for_analysis (some (codes "1.1.1.1")) true) elite
    && level_eq (anonymity_level for_analysis none true) elite

unfoldable render_true_client_ip_is_not_a_leak : Bool
render_true_client_ip_is_not_a_leak =
    level_is
      (("cf-connecting-ip", "1.1.1.1")
        ∷ ("true-client-ip", "1.1.1.1")
        ∷ ("cf-ray", "abc123")
        ∷ ("x-forwarded-for", "")
        ∷ [])
      (some "1.1.1.1") true elite

unfoldable elite_direct_behind_caddy : Bool
elite_direct_behind_caddy =
    level_is (("x-forwarded-for", "") ∷ []) (some "1.1.1.1") true elite
    && level_is (("user-agent", "x") ∷ []) none true elite

unfoldable transparent_leak : Bool
transparent_leak =
    level_is (("x-forwarded-for", "1.1.1.1") ∷ ("user-agent", "x") ∷ []) (some "1.1.1.1") true
      transparent

unfoldable multiple_non_direct_hops_are_anonymous : Bool
multiple_non_direct_hops_are_anonymous =
    level_is (("x-forwarded-for", "9.9.9.9, 8.8.8.8") ∷ []) (some "1.1.1.1") true anonymous
    && level_is (("x-forwarded-for", "9.9.9.9, 8.8.8.8") ∷ []) none true anonymous

unfoldable anonymous_forwarded_no_leak : Bool
anonymous_forwarded_no_leak =
    level_is (("x-forwarded-for", "9.9.9.9") ∷ ("user-agent", "x") ∷ []) (some "1.1.1.1") true
      anonymous

unfoldable anonymous_via : Bool
anonymous_via = level_is (("via", "1.0 proxy") ∷ []) (some "1.1.1.1") true anonymous

unfoldable infra_headers_ignored : Bool
infra_headers_ignored =
    level_is (("x-forwarded-proto", "https") ∷ ("x-forwarded-host", "check.x") ∷ [])
      (some "1.1.1.1") true elite

unfoldable cf_direct_check_is_elite_not_transparent : Bool
cf_direct_check_is_elite_not_transparent =
    level_is
      (("cf-connecting-ip", "1.1.1.1")
        ∷ ("cf-ray", "abc123")
        ∷ ("cf-ipcountry", "DE")
        ∷ ("cdn-loop", "cloudflare")
        ∷ ("x-forwarded-for", "")
        ∷ [])
      (some "1.1.1.1") true elite

unfoldable cf_transparent_still_detected : Bool
cf_transparent_still_detected =
    level_is (("cf-connecting-ip", "5.6.7.8") ∷ ("x-forwarded-for", "1.1.1.1") ∷ [])
      (some "1.1.1.1") true transparent

unfoldable true_client_ip_is_a_leak_without_trust_cf : Bool
true_client_ip_is_a_leak_without_trust_cf =
    let h = ("true-client-ip", "1.1.1.1") ∷ ("x-forwarded-for", "") ∷ [] in
    level_is h (some "1.1.1.1") false transparent && level_is h (some "1.1.1.1") true elite

unfoldable cf_header_is_a_leak_without_trust_cf : Bool
cf_header_is_a_leak_without_trust_cf =
    level_is (("cf-connecting-ip", "1.1.1.1") ∷ ("x-forwarded-for", "") ∷ []) (some "1.1.1.1") false
      transparent

unfoldable unknown_cf_header_is_checked_for_leaks : Bool
unknown_cf_header_is_checked_for_leaks =
    level_is
      (("cf-connecting-ip", "5.6.7.8") ∷ ("cf-custom", "1.1.1.1") ∷ ("x-forwarded-for", "") ∷ [])
      (some "1.1.1.1") true transparent

unfoldable prefix_is_not_a_leak : Bool
prefix_is_not_a_leak =
    level_is (("x-forwarded-for", "1.2.3.40") ∷ []) (some "1.2.3.4") true anonymous
    && level_is (("user-agent", "Mozilla 1.2.3.40") ∷ []) (some "1.2.3.4") true elite

unfoldable header_value_exact_ip_is_a_leak : Bool
header_value_exact_ip_is_a_leak =
    level_is (("referer", "https://x/?ip=1.2.3.4&y=1") ∷ []) (some "1.2.3.4") true transparent

unfoldable ipv6_forms_are_normalized : Bool
ipv6_forms_are_normalized =
    level_is (("x-forwarded-for", "2001:0db8:0:0:0:0:0:1") ∷ []) (some "2001:db8::1") true
      transparent
    && level_is (("x-forwarded-for", "2001:db8::10") ∷ []) (some "2001:db8::1") true anonymous
    && level_is (("x-real-ip", "2001:0db8:0:0:0:0:0:1") ∷ []) (some "2001:db8::1") true transparent
    && level_is (("forwarded", "for=\"[2001:0db8:0:0:0:0:0:1]:8080\";proto=http") ∷ [])
        (some "2001:db8::1") true transparent

unfoldable ipv4_mapped_ipv6_is_canonicalized : Bool
unfolding normalize_host
ipv4_mapped_ipv6_is_canonicalized =
    option_eq (normalize_host (codes "::ffff:1.2.3.4")) (some (codes "1.2.3.4"))
    && option_eq (normalize_host (codes "[::ffff:1.2.3.4]:8080")) (some (codes "1.2.3.4"))
    && level_is (("x-forwarded-for", "::ffff:1.2.3.4") ∷ []) (some "1.2.3.4") true transparent
    && level_is (("x-forwarded-for", "1.2.3.4") ∷ []) (some "::ffff:1.2.3.4") true transparent
    && level_is (("x-client-ip", "::ffff:0102:0304") ∷ []) (some "1.2.3.4") true transparent

unfoldable unknown_xff_is_anonymous_not_elite : Bool
unknown_xff_is_anonymous_not_elite =
    level_is (("x-forwarded-for", "unknown") ∷ []) (some "1.2.3.4") true anonymous
    && level_is (("x-forwarded-for", "unknown") ∷ []) none true anonymous

level_tests :
    (render_direct_check_is_elite_not_transparent ≡ true)
    × (render_true_client_ip_is_not_a_leak ≡ true)
    × (elite_direct_behind_caddy ≡ true)
    × (transparent_leak ≡ true)
    × (multiple_non_direct_hops_are_anonymous ≡ true)
    × (anonymous_forwarded_no_leak ≡ true)
    × (anonymous_via ≡ true)
    × (infra_headers_ignored ≡ true)
    × (cf_direct_check_is_elite_not_transparent ≡ true)
    × (cf_transparent_still_detected ≡ true)
    × (true_client_ip_is_a_leak_without_trust_cf ≡ true)
    × (cf_header_is_a_leak_without_trust_cf ≡ true)
    × (unknown_cf_header_is_checked_for_leaks ≡ true)
    × (prefix_is_not_a_leak ≡ true)
    × (header_value_exact_ip_is_a_leak ≡ true)
    × (ipv6_forms_are_normalized ≡ true)
    × (ipv4_mapped_ipv6_is_canonicalized ≡ true)
    × (unknown_xff_is_anonymous_not_elite ≡ true)
unfolding render_direct_check_is_elite_not_transparent render_true_client_ip_is_not_a_leak
    elite_direct_behind_caddy transparent_leak multiple_non_direct_hops_are_anonymous
    anonymous_forwarded_no_leak anonymous_via infra_headers_ignored
    cf_direct_check_is_elite_not_transparent cf_transparent_still_detected
    true_client_ip_is_a_leak_without_trust_cf cf_header_is_a_leak_without_trust_cf
    unknown_cf_header_is_checked_for_leaks prefix_is_not_a_leak header_value_exact_ip_is_a_leak
    ipv6_forms_are_normalized ipv4_mapped_ipv6_is_canonicalized unknown_xff_is_anonymous_not_elite
level_tests = (
  refl, refl, refl, refl, refl, refl, refl, refl, refl, refl, refl, refl, refl, refl, refl, refl,
  refl, refl,
)
