-- ===== src/Config/Rules.antt =====
-- src/config.rs: what holds of every configuration that a start accepts.
use proxpulse_judge.Base.{
  ℕ, ◌+◌, ◌-◌, ◌*◌, ◌^◌, ◌≤◌, ◌<◌, Bool, true, false, ◌||◌, ◌≡◌, ◌⊎◌, inl, inr, refl, sym, subst,
  Option, none, some, List, [], ◌∷◌, ◌++◌, map, if◌then◌else◌, ◌==◌, unwrap_or, ok, arith,
  Bool-cases, Option-cases, any-append, All, Text, codes, text_eq, text_eq_iff, contains, is_empty,
}
use proxpulse_judge.Str.Basic.{to_ascii_lowercase, trim, split}
use proxpulse_judge.Sign.Basic.{Crypto}
use proxpulse_judge.Config.Origin.{from_lookup-Origin, ok_inj, err_ok}
use proxpulse_judge.Config.Basic.{
  Float, nanos, negative, not_finite, parse_digits, parse_unsigned, parse_port, parse_rate,
  add_edge_headers, parse_edge_headers, usable_timeout, parse_rdns_timeout, max_rdns_timeout,
  default_rdns_timeout, Env, Config, from_lookup, trust_cf_of,
}

parse_digits-lt :
    (bound : ℕ) (s : Text) (n m : ℕ) → n < bound → parse_digits bound s n ≡ some m → m < bound
unfolding parse_digits
parse_digits-lt bound [] n m h e = ground arith
parse_digits-lt bound (c ∷ s) n m h e =
    ground (arith, parse_digits-lt bound s (n * 10 + (c - b'0')) m)

parse_unsigned-lt :
    (bound : ℕ) (s : Text) (m : ℕ) → 0 < bound → parse_unsigned bound s ≡ some m → m < bound
unfolding parse_unsigned
parse_unsigned-lt bound [] m h e = ground arith
parse_unsigned-lt bound (c ∷ []) m h e = parse_digits-lt bound (c ∷ []) 0 m h e
parse_unsigned-lt bound (c ∷ d ∷ s) m h e = elim (Bool-cases (c == b'+')) [
  | inl p ↦ parse_digits-lt bound (d ∷ s) 0 m h (rw p at e)
  | inr p ↦ parse_digits-lt bound (c ∷ d ∷ s) 0 m h (rw p at e)
]

parse_port-lt : (raw : Option Text) → parse_port raw < 2 ^ 16
unfolding parse_port
parse_port-lt none = omega arith
parse_port-lt (some v) = elim (Option-cases (parse_unsigned (2 ^ 16) v)) [
  | inl e ↦ rw e (omega arith)
  | inr (m, e) ↦ rw e (parse_unsigned-lt (2 ^ 16) v m (omega arith) e)
]

parse_rate-lt : (raw : Option Text) → parse_rate raw < 2 ^ 32
unfolding parse_rate
parse_rate-lt none = omega arith
parse_rate-lt (some v) = elim (Option-cases (parse_unsigned (2 ^ 32) v)) [
  | inl e ↦ rw e (omega arith)
  | inr (m, e) ↦ rw e (parse_unsigned-lt (2 ^ 32) v m (omega arith) e)
]

usable_timeout-le : (f : Float) (n : ℕ) → usable_timeout f ≡ some n → n ≤ max_rdns_timeout
unfolding usable_timeout
usable_timeout-le (nanos m) n h = ground arith
usable_timeout-le negative n h = ground arith
usable_timeout-le not_finite n h = ground arith

-- In lower case, a name that is given, no X-Forwarded-For and no name twice.
abbrev pub Distinct : List Text → Type 0
Distinct [] = Unit
Distinct (n ∷ ns) = (contains ns n ≡ false) × Distinct ns

or_none : (a b : Bool) → (a || b) ≡ false → (a ≡ false) × (b ≡ false)
or_none a b h = ground arith

contains-append :
    (ns ms : List Text) (t : Text) → contains (ns ++ ms) t ≡ (contains ns t || contains ms t)
contains-append ns ms t = any-append (λ s. text_eq s t) ns ms

text_eq-swap : (s t : Text) → text_eq s t ≡ false → text_eq t s ≡ false
text_eq-swap s t h = elim (Bool-cases (text_eq t s)) [
  | inl e ↦ ground (arith, text_eq_iff s t, text_eq_iff t s, h, e)
  | inr e ↦ e
]

Distinct-append :
    (ns : List Text) (n : Text) → Distinct ns → contains ns n ≡ false → Distinct (ns ++ n ∷ [])
Distinct-append [] n d h = (refl, tt)
Distinct-append (m ∷ ns) n (once, d) h = (
  rw (contains-append ns (n ∷ []) m, once, text_eq-swap m n (or_none _ _ h).0) refl,
  Distinct-append ns n d (or_none _ _ h).1,
)

All-append : (P : Text → Type 0) (ns : List Text) (n : Text) → All P ns → P n → All P (ns ++ n ∷ [])
All-append P [] n h p = (p, tt)
All-append P (m ∷ ns) n (q, h) p = (q, All-append P ns n h p)

lower-filled : (s : Text) → is_empty s ≡ false → is_empty (to_ascii_lowercase s) ≡ false
unfolding to_ascii_lowercase
lower-filled [] h = h
lower-filled (c ∷ s) h = refl

-- What an accepted list of edge headers is like: names that are given and valid, without
-- X-Forwarded-For and with none twice.
pub record IsEdge (is_header_name : Text → Bool) (names : List Text) : Type 0 where
  pub given : All (λ n. is_empty n ≡ false) names
  pub valid : All (λ n. is_header_name n ≡ true) names
  pub other : All (λ n. text_eq n (codes "x-forwarded-for") ≡ false) names
  pub once : Distinct names

module _ (debug : Text → Text) (is_header_name : Text → Bool) where
  no_edge : IsEdge is_header_name []
  no_edge = record { given = tt; valid = tt; other = tt; once = tt }

  add_edge :
      (out : List Text) (name : Text)
      → IsEdge is_header_name out
      → is_empty name ≡ false
      → is_header_name name ≡ true
      → text_eq name (codes "x-forwarded-for") ≡ false
      → contains out name ≡ false
      → IsEdge is_header_name (out ++ name ∷ [])
  add_edge out name h g v o c = record {
    given = All-append _ out name h.given g;
    valid = All-append _ out name h.valid v;
    other = All-append _ out name h.other o;
    once = Distinct-append out name h.once c;
  }

  add_edge_headers-IsEdge :
      (names out res : List Text)
      → IsEdge is_header_name out
      → add_edge_headers debug is_header_name names out ≡ ok res
      → IsEdge is_header_name res
  unfolding add_edge_headers
  add_edge_headers-IsEdge [] out res h e = subst (IsEdge is_header_name) (ok_inj e) h
  add_edge_headers-IsEdge (raw ∷ names) out res h e = elim (Bool-cases (is_empty raw)) [
    | inl blank ↦ add_edge_headers-IsEdge names out res h (rw blank at e)
    | inr some_raw ↦ elim (Bool-cases (is_header_name (to_ascii_lowercase raw))) [
      | inr bad ↦ absurd (err_ok (rw (some_raw, bad) at e))
      | inl good ↦ elim (Bool-cases (text_eq (to_ascii_lowercase raw) (codes "x-forwarded-for"))) [
        | inl xff ↦ absurd (err_ok (rw (some_raw, good, xff) at e))
        | inr other ↦ elim (Bool-cases (contains out (to_ascii_lowercase raw))) [
          | inl old ↦ add_edge_headers-IsEdge names out res h (rw (some_raw, good, other, old) at e)
          | inr new ↦
              add_edge_headers-IsEdge names (out ++ to_ascii_lowercase raw ∷ []) res
                (add_edge out (to_ascii_lowercase raw) h (lower-filled raw some_raw) good other new)
                (rw (some_raw, good, other, new) at e)
        ]
      ]
    ]
  ]

  parse_edge_headers-IsEdge :
      (raw : Option Text) (res : List Text)
      → parse_edge_headers debug is_header_name raw ≡ ok res
      → IsEdge is_header_name res
  unfolding parse_edge_headers
  parse_edge_headers-IsEdge raw res e =
      add_edge_headers-IsEdge (map trim (split (λ c. c == b',') (unwrap_or raw []))) [] res no_edge
        e

  IsEdge-behind :
      (trust_proxy : Bool) (names : List Text)
      → IsEdge is_header_name names
      → IsEdge is_header_name (if trust_proxy then names else [])
  IsEdge-behind true names h = h
  IsEdge-behind false names h = no_edge

no_edge_alone :
    (trust_proxy : Bool) (names : List Text)
    → ((if trust_proxy then names else []) ≡ []) ⊎ (trust_proxy ≡ true)
no_edge_alone true names = inr refl
no_edge_alone false names = inl refl

timeout-le :
    (o : Option ℕ)
    → ((n : ℕ) → o ≡ some n → n ≤ max_rdns_timeout)
    → unwrap_or o default_rdns_timeout ≤ max_rdns_timeout
timeout-le none h = omega arith
timeout-le (some n) h = h n refl

parse_rdns_timeout-le :
    (read_float : Text → Option Float) (raw : Option Text)
    → parse_rdns_timeout read_float raw ≤ max_rdns_timeout
unfolding parse_rdns_timeout
parse_rdns_timeout-le read_float none = omega arith
parse_rdns_timeout-le read_float (some v) = elim (Option-cases (read_float v)) [
  | inl e ↦ rw e (omega arith)
  | inr (f, e) ↦ rw e (timeout-le (usable_timeout f) (usable_timeout-le f))
]

-- What holds of every configuration.
pub record IsSafe (X : Crypto) (is_header_name : Text → Bool) (cfg : Config X) : Type 0 where
  pub port_fits : cfg.port < 2 ^ 16
  pub rate_fits : cfg.rate_per_minute < 2 ^ 32
  pub timeout_fits : cfg.rdns_timeout ≤ max_rdns_timeout
  pub cf_needs_proxy : (cfg.trust_cf ≡ false) ⊎ (cfg.trust_proxy ≡ true)
  pub edge_needs_proxy : (cfg.edge_headers ≡ []) ⊎ (cfg.trust_proxy ≡ true)
  pub edge : IsEdge is_header_name cfg.edge_headers

module _ (X : Crypto) (env : Env X) where
  cf_behind_proxy :
      (trust_proxy trust_cf : Bool)
      → trust_cf_of X env trust_proxy ≡ ok trust_cf
      → (trust_cf ≡ false) ⊎ (trust_proxy ≡ true)
  unfolding trust_cf_of
  cf_behind_proxy true trust_cf e = inr refl
  cf_behind_proxy false trust_cf e = inl (sym (ok_inj e))

  -- Every configuration that a start accepts has a port and a rate in range and a timeout of at most
  -- a minute, trusts a CDN only behind a trusted proxy, and has edge headers only behind one, which
  -- are valid names, without X-Forwarded-For and without repetition.
  pub from_lookup-IsSafe :
      (cfg : Config X) → from_lookup X env ≡ ok cfg → IsSafe X env.is_header_name cfg
  from_lookup-IsSafe cfg e =
      let o = from_lookup-Origin X env cfg e in
      record {
        port_fits = subst (λ (p : ℕ). p < 2 ^ 16) (sym o.port_read) (parse_port-lt o.raw_port);
        rate_fits = subst (λ (p : ℕ). p < 2 ^ 32) (sym o.rate_read) (parse_rate-lt o.raw_rate);
        timeout_fits =
            subst (λ (p : ℕ). p ≤ max_rdns_timeout) (sym o.rdns_read)
              (parse_rdns_timeout-le env.read_float o.raw_rdns);
        cf_needs_proxy = cf_behind_proxy cfg.trust_proxy cfg.trust_cf o.cf_read;
        edge_needs_proxy =
            subst (λ ns. (ns ≡ []) ⊎ (cfg.trust_proxy ≡ true)) (sym o.edge_kept)
              (no_edge_alone cfg.trust_proxy o.edge);
        edge = subst (IsEdge env.is_header_name) (sym o.edge_kept) (
            IsEdge-behind env.debug env.is_header_name cfg.trust_proxy o.edge (
              parse_edge_headers-IsEdge env.debug env.is_header_name o.raw_edge o.edge
                o.edge_read));
      }
