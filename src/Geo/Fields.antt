-- ===== src/Geo/Fields.antt =====
-- src/geo.rs: what a look-up keeps, and when it reports an error.
use proxpulse_judge.Base.{
  ℕ, ◌≤◌, ◌≡◌, inl, inr, refl, sym, none-some, some_inj, subst, none, some, List, [], ◌∷◌, arith,
  ◌>>=◌, is_none, Text, codes, Bool-cases, Option-cases,
}
use proxpulse_judge.Addr.Basic.{IpAddr, to_canonical}
use proxpulse_judge.Addr.Parse.{parse_addr}
use proxpulse_judge.Geo.Value.{Value, walk, u32_of, get_u32, u32_max}
use proxpulse_judge.Geo.Info.{GeoInfo, default_info, has_any_field}
use proxpulse_judge.Geo.Pool.{GeoPool, settle_error, lookup_addr, lookup}

module _ {F : Type 0} where
  u32_of-le : (v : Value F) (n : ℕ) → u32_of v ≡ some n → n ≤ u32_max
  unfolding u32_of
  u32_of-le v n h = ground arith

  first_le :
      (v : Value F) (path : List Text) (n : ℕ) → (walk v path >>= u32_of) ≡ some n → n ≤ u32_max
  first_le v path n h = elim (Option-cases (walk v path)) [
    | inl e ↦ absurd (none-some (rw e at h))
    | inr (w, e) ↦ u32_of-le w n (rw e at h)
  ]

  -- A number that is read as `u32` fits it, on whichever path it is found.
  pub get_u32-le :
      (v : Value F) (paths : List (List Text)) (n : ℕ) → get_u32 v paths ≡ some n → n ≤ u32_max
  unfolding get_u32
  get_u32-le v [] n h = ground arith
  get_u32-le v (path ∷ paths) n h = elim (Option-cases (walk v path >>= u32_of)) [
    | inl e ↦ get_u32-le v paths n (rw e at h)
    | inr (m, e) ↦ subst (λ k. k ≤ u32_max) (some_inj (rw e at h)) (first_le v path m e)
  ]

  settle_error-lem :
      (pool : GeoPool F) (g : GeoInfo F)
      → is_none (settle_error pool g).error ≡ has_any_field (settle_error pool g)
  unfolding settle_error
  settle_error-lem pool g = elim (Bool-cases (has_any_field g)) [
    | inl e ↦ rw e (sym e)
    | inr e ↦ elim (Option-cases g.error) [
      | inl missing ↦ rw (e, missing) (sym e)
      | inr (text, there) ↦ rw (e, there) (sym e)
    ]
  ]

  module _ (of_u64 of_negative : ℕ → F) where
    lookup-unread :
        (pool : GeoPool F) (ip : Text)
        → parse_addr ip ≡ none
        → lookup of_u64 of_negative pool ip
          ≡ record (default_info {F = F} ip) { error = some (codes "invalid ip") }
    unfolding lookup
    lookup-unread pool ip e = rw (lookup, e) refl

    lookup-read :
        (pool : GeoPool F) (ip : Text) (a : IpAddr)
        → parse_addr ip ≡ some a
        → lookup of_u64 of_negative pool ip
          ≡ lookup_addr of_u64 of_negative pool ip (to_canonical a)
    unfolding lookup
    lookup-read pool ip a e = rw (lookup, e) refl

    -- A look-up has no error exactly where it has a field.
    pub lookup-error :
        (pool : GeoPool F) (ip : Text)
        → (is_none (lookup of_u64 of_negative pool ip).error
            ≡ has_any_field (lookup of_u64 of_negative pool ip))
    lookup-error pool ip = elim (Option-cases (parse_addr ip)) [
      | inl e ↦ rw (lookup-unread pool ip e) (unfold default_info has_any_field in refl)
      | inr (a, e) ↦ rw (lookup-read pool ip a e) (unfold lookup_addr in settle_error-lem pool _)
    ]
