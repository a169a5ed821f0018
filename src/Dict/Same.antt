-- ===== src/Dict/Same.antt =====
-- `HashMap` up to the order of its entries, which Rust leaves open.
use proxpulse_judge.Base.{
  Bool, true, false, ◌||◌, ◌≡◌, refl, sym, ◌∙◌, ap, inl, inr, some, [], ◌∷◌, arith, if◌then◌else◌,
  Text, text_eq, text_eq_iff, text_eq_refl, contains, any, Bool-cases, some_inj,
}
use proxpulse_judge.Dict.{Dict, get, keys, HasUniqueKeys}

Bool-eq : {a b : Bool} → (a ≡ true → b ≡ true) → (b ≡ true → a ≡ true) → a ≡ b
Bool-eq {a = a} {b = b} f g = ground (arith, f, g)

module _ {V : Type 0} where
  -- Two maps hold the same values at the same keys.
  abbrev pub SameEntries : Dict V → Dict V → Type 0
  SameEntries m n = (k : Text) → get m k ≡ get n k

  -- An entry of the map that passes the test.
  abbrev Passes : (Text × V → Bool) → Dict V → Type 0
  Passes p m = (k : Text) × (v : V) × (get m k ≡ some v) × (p (k, v) ≡ true)

  contains-get : (m : Dict V) (k : Text) (v : V) → get m k ≡ some v → contains (keys m) k ≡ true
  unfolding get
  contains-get [] k v h = cc
  contains-get ((j, w) ∷ m) k v h = elim (Bool-cases (text_eq j k)) [
    | inl same ↦ rw same refl
    | inr other ↦
        rw other (contains-get m k v (sym (ap (λ b. if b then some w else get m k) other) ∙ h))
  ]

  get-head : (k : Text) (v : V) (m : Dict V) → get ((k, v) ∷ m) k ≡ some v
  unfolding get
  get-head k v m = rw (text_eq_refl k) refl

  get-tail :
      (j k : Text) (w v : V) (m : Dict V)
      → contains (keys m) j ≡ false
      → get m k ≡ some v
      → get ((j, w) ∷ m) k ≡ some v
  unfolding get
  get-tail j k w v m fresh h = elim (Bool-cases (text_eq j k)) [
    | inl same ↦ cc (contains-get m k v h, fresh, ap (contains (keys m)) ((text_eq_iff j k).0 same))
    | inr other ↦ ap (λ b. if b then some w else get m k) other ∙ h
  ]

  any-Passes : (p : Text × V → Bool) (m : Dict V) → HasUniqueKeys m → any p m ≡ true → Passes p m
  any-Passes p [] u h = cc
  any-Passes p ((j, w) ∷ m) (fresh, u) h = elim (Bool-cases (p (j, w))) [
    | inl yes_here ↦ (j, w, get-head j w m, yes_here)
    | inr not_here ↦
        let (k, v, at, good) = any-Passes p m u (sym (ap (λ b. b || any p m) not_here) ∙ h) in
        (k, v, get-tail j k w v m fresh at, good)
  ]

  Passes-any :
      (p : Text × V → Bool) (m : Dict V) (k : Text) (v : V)
      → get m k ≡ some v
      → p (k, v) ≡ true
      → any p m ≡ true
  unfolding get
  Passes-any p [] k v h good = cc
  Passes-any p ((j, w) ∷ m) k v h good = elim (Bool-cases (text_eq j k)) [
    | inl same ↦
        let here = some_inj (sym (ap (λ b. if b then some w else get m k) same) ∙ h) in
        let e = (text_eq_iff j k).0 same in
        ap (λ b. b || any p m)
          (ap (λ (x : Text). p (x, w)) e ∙ ap (λ (x : V). p (k, x)) here ∙ good)
    | inr other ↦
        let rest =
          Passes-any p m k v (sym (ap (λ b. if b then some w else get m k) other) ∙ h) good in
        ground (arith, rest)
  ]

  -- A test on the entries has one outcome for both.
  pub any-SameEntries :
      (p : Text × V → Bool) (m n : Dict V)
      → HasUniqueKeys m
      → HasUniqueKeys n
      → SameEntries m n
      → any p m ≡ any p n
  any-SameEntries p m n um un e =
      Bool-eq
        (λ h.
          let (k, v, at, good) = any-Passes p m um h in Passes-any p n k v (sym (e k) ∙ at) good)
        (λ h. let (k, v, at, good) = any-Passes p n un h in Passes-any p m k v (e k ∙ at) good)

  any-keys : (f : Text → Bool) (m : Dict V) → any f (keys m) ≡ any (λ (e : Text × V). f e.0) m
  any-keys f [] = refl
  any-keys f ((k, v) ∷ m) = ap (λ b. f k || b) (any-keys f m)

  -- A test on the keys alone.
  pub any-keys-SameEntries :
      (f : Text → Bool) (m n : Dict V)
      → HasUniqueKeys m
      → HasUniqueKeys n
      → SameEntries m n
      → any f (keys m) ≡ any f (keys n)
  any-keys-SameEntries f m n um un e =
      any-keys f m ∙ any-SameEntries (λ e. f e.0) m n um un e ∙ sym (any-keys f n)
