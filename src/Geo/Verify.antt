-- ===== src/Geo/Verify.antt =====
-- src/geo.rs: what `verify` accepts.
use proxpulse_judge.Base.{
  Bool, true, false, ◌≡◌, ◌↔◌, ◌⊎◌, inl, inr, refl, sym, ap, ◌||◌, is_some, Option, none, some,
  Result, ok, err, Text, codes, arith,
}
use proxpulse_judge.Geo.Pool.{Reader, GeoPool}
use proxpulse_judge.Geo.Open.{verify_reader, verify, seen_any}
use proxpulse_judge.Config.Origin.{ok_inj, err_ok}

Result-cases : (x : Result (Unit {0}) Text) → (x ≡ ok tt) ⊎ ((e : Text) × (x ≡ err e))
Result-cases (ok u) = inl refl
Result-cases (err e) = inr (e, refl)

seen_any-ok : (x : Result Bool Text) → seen_any x ≡ ok tt → x ≡ ok true
unfolding seen_any
seen_any-ok (ok true) h = refl
seen_any-ok (ok false) h = absurd (err_ok h)
seen_any-ok (err e) h = absurd (err_ok h)

or_all :
    (a b c s₀ s₁ s₂ : Bool)
    → s₀ ≡ false
    → (s₀ || a) ≡ s₁
    → (s₁ || b) ≡ s₂
    → (s₂ || c) ≡ true
    → (a || b || c) ≡ true
or_all a b c s₀ s₁ s₂ h h₀ h₁ h₂ = ground arith

or_back : (a b c : Bool) → (a || b || c) ≡ true → ((a || b) || c) ≡ true
or_back a b c h = ground arith

module _ {F : Type 0} where
  -- A database that is there has a sound structure.
  abbrev pub IsSoundReader : Option (Reader F) → Type 0
  IsSoundReader none = Unit
  IsSoundReader (some r) = r.structure ≡ ok tt

  -- one database's part in `verify`, from the result and to it
  verify_reader_inv :
      (kind : Text) (r : Option (Reader F)) (before : Result Bool Text) (b : Bool)
      → verify_reader kind r before ≡ ok b
      → (seen : Bool) × (before ≡ ok seen) × IsSoundReader r × ((seen || is_some r) ≡ b)
  unfolding verify_reader
  verify_reader_inv kind r (err e) b h = absurd (err_ok h)
  verify_reader_inv kind none (ok seen) b h = (seen, refl, tt, ground (arith, ok_inj h))
  verify_reader_inv kind (some r) (ok seen) b h = elim (Result-cases r.structure) [
    | inl sound ↦ (seen, refl, sound, ground (arith, ok_inj (rw sound at h)))
    | inr (e, bad) ↦ absurd (err_ok (rw bad at h))
  ]

  verify_reader_sound :
      (kind : Text) (r : Option (Reader F)) (seen : Bool)
      → IsSoundReader r
      → verify_reader kind r (ok seen) ≡ ok (seen || is_some r)
  unfolding verify_reader
  verify_reader_sound kind none seen h = ap ok (ground arith)
  verify_reader_sound kind (some r) seen h = rw h (ap ok (ground arith))

  abbrev pub IsSound : GeoPool F → Type 0
  IsSound pool =
      IsSoundReader pool.city
      × IsSoundReader pool.country
      × IsSoundReader pool.asn
      × ((is_some pool.city || is_some pool.country || is_some pool.asn) ≡ true)

  -- The databases pass exactly if one is loaded at least, and each that is loaded has a sound
  -- structure.
  pub verify_iff : (pool : GeoPool F) → (verify pool ≡ ok tt) ↔ IsSound pool
  unfolding verify
  verify_iff pool = (
    λ h.
        let passed = seen_any-ok _ h in
        let (seen₂, e₂, asn, or₂) = verify_reader_inv (codes "asn") pool.asn _ true passed in
        let (seen₁, e₁, country, or₁) =
          verify_reader_inv (codes "country") pool.country _ seen₂ e₂ in
        let (seen₀, e₀, city, or₀) =
          verify_reader_inv (codes "city") pool.city (ok false) seen₁ e₁ in
        (
          city,
          country,
          asn,
          or_all (is_some pool.city) (is_some pool.country) (is_some pool.asn) seen₀ seen₁ seen₂
              (sym (ok_inj e₀)) or₀ or₁ or₂,
        ),
    λ r.
        rw
          (
            verify_reader_sound (codes "city") pool.city false r.0,
            verify_reader_sound (codes "country") pool.country (is_some pool.city) r.1,
            verify_reader_sound (codes "asn") pool.asn (is_some pool.city || is_some pool.country)
                r.2,
          )
          (rw (or_back _ _ _ r.3) (unfold seen_any in refl)),
  )
