-- ===== src/Anonymity/Levels.antt =====
-- src/logic.rs: what each level of `anonymity_level` says of the headers.
use proxpulse_judge.Base.{
  Bool, true, false, not, ◌&&◌, ◌||◌, ◌≡◌, ◌↔◌, ◌⊎◌, inl, inr, refl, sym, ap, subst, codes, ◌∙◌,
  Option, none, some, List, [], ◌∷◌, arith, if◌then◌else◌, Text, text_eq, contains, any, is_empty,
  filter_map, Option-cases, Any, any-Any, text_eq_iff, ◌≢◌,
}
use mathlib.Core.Bool.{true≢false}
use proxpulse_judge.Str.Basic.{starts_with, to_ascii_lowercase}
use proxpulse_judge.Dict.{Dict, get, keys}
use proxpulse_judge.Addr.Basic.{IpAddr}
use proxpulse_judge.Addr.Print.{print_addr}
use proxpulse_judge.Host.Basic.{split_xff, normalize_host, ip_in_text}
use proxpulse_judge.Anonymity.Basic.{
  x_forwarded_for, is_infra, cf_infra_headers, telltale_headers, is_telltale, Level, elite,
  anonymous, transparent, direct_addr, shows, leaks, anonymity_level,
}

-- The addresses in X-Forwarded-For.
abbrev pub chain_of : Dict Text → List Text
chain_of headers = filter_map normalize_host (split_xff (get headers x_forwarded_for))

-- Whether a header tells that the request came by a proxy.
abbrev pub tells : Dict Text → Bool → Bool
tells headers trust_cf =
    not (is_empty (split_xff (get headers x_forwarded_for)))
    || any (λ k. is_telltale k trust_cf) (keys headers)

filter_map-nil : (l : List Text) → is_empty l ≡ true → is_empty (filter_map normalize_host l) ≡ true
filter_map-nil [] h = refl
filter_map-nil (x ∷ l) h = cc

-- The tests in the order of the code.
abbrev ladder : Bool → Bool → Bool → Bool → Level
ladder leak chained listed telling =
    if leak
    then transparent
    else if chained || listed
    then anonymous
    else if telling
    then anonymous
    else elite

ladder-transparent : (a b c d : Bool) → (ladder a b c d ≡ transparent) ↔ (a ≡ true)
ladder-transparent true b c d = (λ _. refl, λ _. refl)
ladder-transparent false b c d = ground arith

no_leak :
    (headers : Dict Text) (chain : List Text) (trust_cf : Bool)
    → leaks headers chain trust_cf none ≢ true
unfolding leaks
no_leak headers chain trust_cf h = ground arith

ladder-elite :
    (a b c d : Bool)
    → (b ≡ true → c ≡ true)
    → (ladder a b c d ≡ elite) ↔ ((a ≡ false) × ((c || d) ≡ false))
ladder-elite true b c d h = ground arith
ladder-elite false true c d h = ground arith
ladder-elite false false true d h = ground arith
ladder-elite false false false true h = ground arith
ladder-elite false false false false h = (λ _. (refl, refl), λ _. refl)

not_true : {b : Bool} → b ≢ true → b ≡ false
not_true {b = true} h = absurd (h refl)
not_true {b = false} h = refl

filled :
    (l : List Text) → not (is_empty (filter_map normalize_host l)) ≡ true → not (is_empty l) ≡ true
filled [] h = h
filled (x ∷ l) h = refl

leaks_iff :
    (headers : Dict Text) (direct_ip : Option Text) (trust_cf : Bool)
    → (anonymity_level headers direct_ip trust_cf ≡ transparent)
      ↔ (leaks headers (chain_of headers) trust_cf (direct_addr direct_ip) ≡ true)
unfolding anonymity_level
leaks_iff headers direct_ip trust_cf =
    ladder-transparent (leaks headers (chain_of headers) trust_cf (direct_addr direct_ip))
      (not (is_empty (chain_of headers))) (not (is_empty (split_xff (get headers x_forwarded_for))))
      (any (λ k. is_telltale k trust_cf) (keys headers))

ladder_of :
    (headers : Dict Text) (direct_ip : Option Text) (trust_cf : Bool)
    → (anonymity_level headers direct_ip trust_cf ≡ elite) ↔ (
        (leaks headers (chain_of headers) trust_cf (direct_addr direct_ip) ≡ false)
        × (tells headers trust_cf ≡ false))
unfolding anonymity_level
ladder_of headers direct_ip trust_cf =
    ladder-elite (leaks headers (chain_of headers) trust_cf (direct_addr direct_ip))
      (not (is_empty (chain_of headers))) (not (is_empty (split_xff (get headers x_forwarded_for))))
      (any (λ k. is_telltale k trust_cf) (keys headers))
      (filled (split_xff (get headers x_forwarded_for)))

-- Some header but X-Forwarded-For and those of the edge has the address in its value.
abbrev pub ShownBy : IpAddr → Bool → Dict Text → Type 0
ShownBy d trust_cf headers =
    Any
      (λ h.
        (text_eq h.0 x_forwarded_for ≡ false)
        × (is_infra h.0 trust_cf ≡ false)
        × (ip_in_text h.1 d ≡ true))
      headers

and_three :
    (a b c : Bool) → ((not a && not b && c) ≡ true) ↔ ((a ≡ false) × (b ≡ false) × (c ≡ true))
and_three a b c = ground arith

any-ShownBy :
    (d : IpAddr) (trust_cf : Bool) (headers : Dict Text)
    → (any (shows d trust_cf) headers ≡ true) ↔ ShownBy d trust_cf headers
unfolding shows
any-ShownBy d trust_cf headers =
    any-Any (shows d trust_cf) _
      (λ h. and_three (text_eq h.0 x_forwarded_for) (is_infra h.0 trust_cf) (ip_in_text h.1 d))
      headers

leaks-some :
    (headers : Dict Text) (chain : List Text) (trust_cf : Bool) (d : IpAddr)
    → (leaks headers chain trust_cf (some d) ≡ true)
      ↔ (Any (λ c. c ≡ print_addr d) chain ⊎ ShownBy d trust_cf headers)
unfolding leaks
leaks-some headers chain trust_cf d = ground (
  arith,
  any-Any (λ c. text_eq c (print_addr d)) (λ c. c ≡ print_addr d)
      (λ c. text_eq_iff c (print_addr d)) chain,
  any-ShownBy d trust_cf headers,
)

known :
    (headers : Dict Text) (direct_ip : Option Text) (trust_cf : Bool)
    → leaks headers (chain_of headers) trust_cf (direct_addr direct_ip) ≡ true
    → (d : IpAddr) × (direct_addr direct_ip ≡ some d)
      × (Any (λ c. c ≡ print_addr d) (chain_of headers) ⊎ ShownBy d trust_cf headers)
known headers direct_ip trust_cf h = elim (Option-cases (direct_addr direct_ip)) [
  | inl e ↦ absurd (no_leak headers (chain_of headers) trust_cf (rw e at h))
  | inr (d, e) ↦ (d, e, (leaks-some headers (chain_of headers) trust_cf d).0 (rw e at h))
]

-- A name that proxies add, and that is not one of the edge.
abbrev pub IsTold : Text → Bool → Type 0
IsTold name trust_cf =
    (is_infra (to_ascii_lowercase name) trust_cf ≡ false)
    × ((contains telltale_headers (to_ascii_lowercase name) ≡ true)
        ⊎ (starts_with (codes "proxy-") (to_ascii_lowercase name) ≡ true)
        ⊎ (starts_with (codes "x-proxy") (to_ascii_lowercase name) ≡ true))

told_cases :
    (a b c d : Bool)
    → ((if a then false else b || c || d) ≡ true)
      ↔ ((a ≡ false) × ((b ≡ true) ⊎ (c ≡ true) ⊎ (d ≡ true)))
told_cases a b c d = ground arith

is_telltale-IsTold :
    (name : Text) (trust_cf : Bool) → (is_telltale name trust_cf ≡ true) ↔ IsTold name trust_cf
unfolding is_telltale
is_telltale-IsTold name trust_cf =
    told_cases (is_infra (to_ascii_lowercase name) trust_cf)
      (contains telltale_headers (to_ascii_lowercase name))
      (starts_with (codes "proxy-") (to_ascii_lowercase name))
      (starts_with (codes "x-proxy") (to_ascii_lowercase name))

any-IsTold :
    (trust_cf : Bool) (names : List Text)
    → (any (λ k. is_telltale k trust_cf) names ≡ true) ↔ Any (λ k. IsTold k trust_cf) names
any-IsTold trust_cf names =
    any-Any (λ k. is_telltale k trust_cf) _ (λ k. is_telltale-IsTold k trust_cf) names

both_false : (a b : Bool) → ((not a || b) ≡ false) ↔ ((a ≡ true) × (b ≡ false))
both_false a b = ground arith

is_empty-nil : (l : List Text) → is_empty l ≡ true → l ≡ []
is_empty-nil [] h = refl
is_empty-nil (x ∷ l) h = cc

quiet :
    (headers : Dict Text) (direct_ip : Option Text) (trust_cf : Bool)
    → split_xff (get headers x_forwarded_for) ≡ []
    → ¬ ((d : IpAddr) × (direct_addr direct_ip ≡ some d) × ShownBy d trust_cf headers)
    → leaks headers (chain_of headers) trust_cf (direct_addr direct_ip) ≢ true
quiet headers direct_ip trust_cf none_listed none_shown h =
    let (d, e, w) = known headers direct_ip trust_cf h in
    elim w [
      | inl listed ↦
          subst (λ l. Any (λ c. c ≡ print_addr d) (filter_map normalize_host l)) none_listed listed
      | inr shown ↦ none_shown (d, e, shown)
    ]

-- A request is elite exactly when X-Forwarded-For has no entry, be it an address or not, no
-- other header, but those of the edge, shows the checker's own address, where that is known, and
-- no header has a name that proxies add: one of the list, or one that starts with `proxy-` or
-- `x-proxy`, and that is not one of the edge.
pub elite_iff :
    (headers : Dict Text) (direct_ip : Option Text) (trust_cf : Bool)
    → (anonymity_level headers direct_ip trust_cf ≡ elite) ↔ (
        (split_xff (get headers x_forwarded_for) ≡ [])
        × (¬ ((d : IpAddr) × (direct_addr direct_ip ≡ some d) × ShownBy d trust_cf headers))
        × (¬ Any (λ k. IsTold k trust_cf) (keys headers)))
elite_iff headers direct_ip trust_cf =
    let list = split_xff (get headers x_forwarded_for) in
    let scan = any (λ k. is_telltale k trust_cf) (keys headers) in
    let rungs = ladder_of headers direct_ip trust_cf in
    (
      λ h.
          let (leak, telling) = rungs.0 h in
          let (no_entry, no_name) = (both_false (is_empty list) scan).0 telling in
          (
            is_empty-nil list no_entry,
            λ (d, e, shown). true≢false (
                sym (
                  ap (leaks headers (chain_of headers) trust_cf) e
                  ∙ (leaks-some headers (chain_of headers) trust_cf d).1 (inr shown))
                ∙ leak),
            λ told. true≢false (sym ((any-IsTold trust_cf (keys headers)).1 told) ∙ no_name),
          ),
      λ (no_entry, no_shown, no_told). rungs.1 (
        not_true (quiet headers direct_ip trust_cf no_entry no_shown),
        (both_false (is_empty list) scan).1 (
          ap is_empty no_entry,
          not_true (λ e. no_told ((any-IsTold trust_cf (keys headers)).0 e)),
        ),
      ),
    )

-- A request is transparent exactly when the checker's own address is known and stands in
-- X-Forwarded-For, or in a header that is neither that nor one of the edge.
pub transparent_iff :
    (headers : Dict Text) (direct_ip : Option Text) (trust_cf : Bool)
    → (anonymity_level headers direct_ip trust_cf ≡ transparent) ↔ (
        (d : IpAddr) × (direct_addr direct_ip ≡ some d)
        × (Any (λ c. c ≡ print_addr d) (chain_of headers) ⊎ ShownBy d trust_cf headers))
transparent_iff headers direct_ip trust_cf = (
  λ h. known headers direct_ip trust_cf ((leaks_iff headers direct_ip trust_cf).0 h),
  λ w. (leaks_iff headers direct_ip trust_cf).1 (
      ap (leaks headers (chain_of headers) trust_cf) w.1
      ∙ (leaks-some headers (chain_of headers) trust_cf w.0).1 w.2),
)

-- Where the CDN is trusted, fewer headers are read.
or_less : (a b : Bool) → (a || (true && b)) ≡ false → (a || (false && b)) ≡ false
or_less a b h = ground arith

infra-trusted : (name : Text) → is_infra name true ≡ false → is_infra name false ≡ false
unfolding is_infra
infra-trusted name h = or_less _ (contains cf_infra_headers (to_ascii_lowercase name)) h

shown-untrusted :
    (d : IpAddr) (headers : Dict Text) → ShownBy d true headers → ShownBy d false headers
shown-untrusted d [] h = h
shown-untrusted d ((k, v) ∷ headers) (inl (other, infra, here)) =
    inl (other, infra-trusted k infra, here)
shown-untrusted d ((k, v) ∷ headers) (inr later) = inr (shown-untrusted d headers later)

-- A request that is transparent where the CDN is trusted is transparent where it is not.
pub transparent-untrusted :
    (headers : Dict Text) (direct_ip : Option Text)
    → anonymity_level headers direct_ip true ≡ transparent
    → anonymity_level headers direct_ip false ≡ transparent
transparent-untrusted headers direct_ip h =
    let (d, e, w) = (transparent_iff headers direct_ip true).0 h in
    (transparent_iff headers direct_ip false).1
      (d, e, elim w [ inl listed ↦ inl listed | inr shown ↦ inr (shown-untrusted d headers shown) ])
