-- ===== src/Anonymity/Order.antt =====
-- src/logic.rs: `anonymity_level` on a `HashMap`, whose order Rust leaves open.
use proxpulse_judge.Base.{
  Bool, not, ◌||◌, ◌≡◌, refl, ap, ◌∙◌, Option, none, some, List, if◌then◌else◌, Text, text_eq, any,
  is_empty, filter_map,
}
use proxpulse_judge.Dict.{Dict, get, keys, HasUniqueKeys}
use proxpulse_judge.Dict.Same.{SameEntries, any-SameEntries, any-keys-SameEntries}
use proxpulse_judge.Addr.Basic.{IpAddr}
use proxpulse_judge.Addr.Print.{print_addr}
use proxpulse_judge.Host.Basic.{split_xff, normalize_host}
use proxpulse_judge.Anonymity.Basic.{
  Level, elite, anonymous, transparent, x_forwarded_for, direct_addr, shows, leaks, is_telltale,
  anonymity_level,
}

leaks-SameEntries :
    (m n : Dict Text) (chain : List Text) (trust_cf : Bool) (d : Option IpAddr)
    → HasUniqueKeys m
    → HasUniqueKeys n
    → SameEntries m n
    → leaks m chain trust_cf d ≡ leaks n chain trust_cf d
unfolding leaks
leaks-SameEntries m n chain trust_cf none um un e = refl
leaks-SameEntries m n chain trust_cf (some d) um un e =
    ap (λ b. any (λ c. text_eq c (print_addr d)) chain || b)
      (any-SameEntries (shows d trust_cf) m n um un e)

-- What `anonymity_level` makes of the entries of X-Forwarded-For, of the leak found among them and
-- the headers, and of a telltale header.
abbrev level_from : List Text → Bool → Bool → Level
level_from raw_xff leak telltale =
    if leak
    then transparent
    else if not (is_empty (filter_map normalize_host raw_xff)) || not (is_empty raw_xff)
    then anonymous
    else if telltale
    then anonymous
    else elite

-- The level depends on nothing but which value stands at which name: two header maps with the same
-- entries, in whatever order, have the same level.
pub anonymity_level-SameEntries :
    (m n : Dict Text) (direct_ip : Option Text) (trust_cf : Bool)
    → HasUniqueKeys m
    → HasUniqueKeys n
    → SameEntries m n
    → anonymity_level m direct_ip trust_cf ≡ anonymity_level n direct_ip trust_cf
unfolding anonymity_level
anonymity_level-SameEntries m n direct_ip trust_cf um un e =
    let xff = λ (d : Dict Text). split_xff (get d x_forwarded_for) in
    let chain = λ (raw : List Text). filter_map normalize_host raw in
    ap
      (λ (raw : List Text).
        level_from raw (leaks m (chain raw) trust_cf (direct_addr direct_ip))
          (any (λ k. is_telltale k trust_cf) (keys m)))
      (ap split_xff (e x_forwarded_for))
    ∙ ap (λ b. level_from (xff n) b (any (λ k. is_telltale k trust_cf) (keys m)))
        (leaks-SameEntries m n (chain (xff n)) trust_cf (direct_addr direct_ip) um un e)
    ∙ ap (λ b. level_from (xff n) (leaks n (chain (xff n)) trust_cf (direct_addr direct_ip)) b)
        (any-keys-SameEntries (λ k. is_telltale k trust_cf) m n um un e)
