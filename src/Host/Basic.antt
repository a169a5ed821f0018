-- ===== src/Host/Basic.antt =====
-- src/logic.rs: the entries of X-Forwarded-For and the addresses in them.
use proxpulse_judge.Base.{
  ℕ, Bool, true, false, not, ◌&&◌, ◌||◌, ◌≡◌, refl, Option, none, some, List, [], ◌∷◌, map,
  if◌then◌else◌, ◌==◌, map_option, Text, codes, text_eq, is_empty, length, all, any, retain,
  filter_map,
}
use proxpulse_judge.Str.Basic.{
  is_ascii_digit, is_ascii_hexdigit, trim, split, split_once, rsplit_once, strip_prefix,
  to_ascii_lowercase,
}
use proxpulse_judge.Str.Find.{find_alone}
use proxpulse_judge.Addr.Basic.{IpAddr, v4, v6, to_canonical}
use proxpulse_judge.Addr.Print.{print_addr}
use proxpulse_judge.Addr.Parse.{parse_addr}

abbrev pub comma : ℕ → Bool
comma c = c == b','

unfoldable pub split_xff : Option Text → List Text
unfolding split trim
split_xff (some v) = retain (λ p. not (is_empty p)) (map trim (split comma v))
split_xff none = []

-- the address of `1.2.3.4:5678`
unfoldable pub bare_v4_port : Text → Text → Bool
unfolding split is_ascii_digit
bare_v4_port ip port =
    not (is_empty port)
    && all is_ascii_digit port
    && length (split (λ c. c == b'.') ip) == 4
    && all (λ c. is_ascii_digit c || c == b'.') ip

-- What `clean_host` does once the text is trimmed.
unfoldable pub clean_trimmed : Text → Text
unfolding strip_prefix split_once rsplit_once bare_v4_port
clean_trimmed t = elim (strip_prefix (b'[' ∷ []) t) [
  | some stripped ↦ elim (split_once b']' stripped) [ some (inner, rest) ↦ inner | none ↦ t ]
  | none ↦ elim (rsplit_once b':' t) [
    | some (ip, port) ↦ if bare_v4_port ip port then ip else t
    | none ↦ t
  ]
]

unfoldable pub clean_host : Text → Text
unfolding trim clean_trimmed
clean_host s = clean_trimmed (trim s)

-- `ip.to_canonical().to_string()`
unfoldable pub canonical_text : IpAddr → Text
unfolding print_addr to_canonical
canonical_text ip = print_addr (to_canonical ip)

unfoldable pub normalize_host : Text → Option Text
unfolding clean_host parse_addr canonical_text
normalize_host s = map_option canonical_text (parse_addr (clean_host s))

unfoldable pub is_ipv4_char : ℕ → Bool
unfolding is_ascii_digit
is_ipv4_char c = is_ascii_digit c || c == b'.'

unfoldable pub is_ipv6_char : ℕ → Bool
unfolding is_ascii_hexdigit
is_ipv6_char c = is_ascii_hexdigit c || c == b':' || c == b'.'

unfoldable pub boundary : IpAddr → ℕ → Bool
unfolding is_ipv4_char is_ipv6_char
boundary (v4 a b c d) = is_ipv4_char
boundary (v6 a b c d e f g h) = is_ipv6_char

-- The runs of address characters in a text.
unfoldable pub address_tokens : Text → List Text
unfolding split is_ipv6_char
address_tokens s = retain (λ t. not (is_empty t)) (split (λ c. not (is_ipv6_char c)) s)

unfoldable pub ip_in_text : Text → IpAddr → Bool
unfolding to_canonical print_addr to_ascii_lowercase boundary find_alone address_tokens
    normalize_host
ip_in_text text addr =
    let ip = to_canonical addr in
    let needle = to_ascii_lowercase (print_addr ip) in
    let haystack = to_ascii_lowercase text in
    if find_alone (boundary ip) needle haystack
    then true
    else any (λ cand. text_eq cand needle) (filter_map normalize_host (address_tokens haystack))

-- the entries that are addresses, normalized
unfoldable pub normalize_chain : List Text → List Text
unfolding normalize_host
normalize_chain entries = filter_map normalize_host entries

clean_tests :
    (clean_host (codes "1.2.3.4:5678") ≡ codes "1.2.3.4")
    × (clean_host (codes "  1.2.3.4  ") ≡ codes "1.2.3.4")
    × (clean_host (codes "[::1]:8080") ≡ codes "::1")
    × (clean_host (codes "2001:db8::1") ≡ codes "2001:db8::1")
    × (normalize_host (codes "[::ffff:1.2.3.4]:8080") ≡ some (codes "1.2.3.4"))
    × (split_xff (some (codes " 9.9.9.9,, unknown ")) ≡ codes "9.9.9.9" ∷ codes "unknown" ∷ [])
unfolding clean_host normalize_host split_xff
clean_tests = (refl, refl, refl, refl, refl, refl)

leak_tests :
    (ip_in_text (codes "https://x/?ip=1.2.3.4&y=1") (v4 1 2 3 4) ≡ true)
    × (ip_in_text (codes "Mozilla 1.2.3.40") (v4 1 2 3 4) ≡ false)
    × (ip_in_text (codes "::ffff:0102:0304") (v4 1 2 3 4) ≡ true)
unfolding ip_in_text
leak_tests = (refl, refl, refl)
