-- ===== src/UnitTests/Networks.antt =====
-- src/logic.rs, `mod tests`: the kind of network.
use proxpulse_judge.Base.{
  Bool, true, not, ◌&&◌, ◌||◌, ◌≡◌, refl, none, some, codes, is_empty, text_eq, String,
}
use proxpulse_judge.Str.Basic.{is_ascii_alphanumeric}
use proxpulse_judge.Classify.Basic.{IpType, TypeSignals, type_text, classify_ip}

-- The names of the tests are ASCII.
abbrev classify : String → IpType × TypeSignals
unfolding classify_ip is_ascii_alphanumeric
classify org = classify_ip is_ascii_alphanumeric (some (codes org)) none

abbrev type_is : String → String → Bool
unfolding type_text
type_is org t = text_eq (type_text (classify org).0) (codes t)

unfoldable classify_datacenter : Bool
classify_datacenter =
    let s = (classify "Hetzner Online GmbH").1 in
    type_is "Hetzner Online GmbH" "datacenter"
    && (not (is_empty s.hosting_kw) || not (is_empty s.hosting_vendor))

unfoldable classify_mobile : Bool
classify_mobile = type_is "Mobile TeleSystems PJSC" "mobile"

unfoldable vendor_substring_no_false_positive : Bool
vendor_substring_no_false_positive =
    is_empty (classify "Shaw Communications").1.hosting_vendor
    && type_is "Shaw Communications" "residential"

unfoldable classify_keywords_respect_word_boundaries : Bool
classify_keywords_respect_word_boundaries =
    type_is "Ghost Productions" "residential"
    && type_is "Acme Bank" "business"
    && type_is "Ghost Hosting" "datacenter"

unfoldable legal_suffix_does_not_make_residential_ip_business : Bool
legal_suffix_does_not_make_residential_ip_business =
    let s = (classify "Comcast Cable Communications LLC").1 in
    type_is "Comcast Cable Communications LLC" "residential"
    && is_empty s.business_kw
    && not (is_empty s.residential_kw)

unfoldable classify_google_fiber_is_residential : Bool
classify_google_fiber_is_residential = type_is "Google Fiber Inc." "residential"

unfoldable classify_residential_default : Bool
classify_residential_default = type_is "Rostelecom" "residential"

unfoldable classify_unknown : Bool
unfolding classify_ip is_ascii_alphanumeric type_text
classify_unknown =
    text_eq (type_text (classify_ip is_ascii_alphanumeric none none).0) (codes "unknown")

network_tests :
    (classify_datacenter ≡ true)
    × (classify_mobile ≡ true)
    × (vendor_substring_no_false_positive ≡ true)
    × (classify_keywords_respect_word_boundaries ≡ true)
    × (legal_suffix_does_not_make_residential_ip_business ≡ true)
    × (classify_google_fiber_is_residential ≡ true)
    × (classify_residential_default ≡ true)
    × (classify_unknown ≡ true)
unfolding classify_datacenter classify_mobile vendor_substring_no_false_positive
    classify_keywords_respect_word_boundaries legal_suffix_does_not_make_residential_ip_business
    classify_google_fiber_is_residential classify_residential_default classify_unknown
network_tests = (refl, refl, refl, refl, refl, refl, refl, refl)
