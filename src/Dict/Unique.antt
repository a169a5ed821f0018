-- ===== src/Dict/Unique.antt =====
-- The operations of `HashMap` keep each key once.
use proxpulse_judge.Base.{
  Bool, false, not, ◌||◌, ◌≡◌, refl, ◌∙◌, inl, inr, [], ◌∷◌, arith, Text, text_eq, text_eq_iff,
  contains, Bool-cases,
}
use proxpulse_judge.Dict.{Dict, insert, retain_keys, remove, keys, HasUniqueKeys}

module _ {ℓ} {V : Type ℓ} where
  keys-insert :
      (m : Dict V) (k j : Text) (v : V)
      → contains (keys (insert m k v)) j ≡ (text_eq k j || contains (keys m) j)
  unfolding insert
  keys-insert [] k j v = refl
  keys-insert ((i, w) ∷ m) k j v =
      ground (arith, text_eq_iff i k, text_eq_iff i j, text_eq_iff k j, keys-insert m k j v)

  pub insert-HasUniqueKeys :
      (m : Dict V) (k : Text) (v : V) → HasUniqueKeys m → HasUniqueKeys (insert m k v)
  unfolding insert
  insert-HasUniqueKeys [] k v u = (refl, tt)
  insert-HasUniqueKeys ((i, w) ∷ m) k v (fresh, u) = elim (Bool-cases (text_eq i k)) [
    | inl same ↦ rw same (ground (arith, text_eq_iff i k, fresh, same), u)
    | inr other ↦ rw other (
      keys-insert m k i v ∙ ground (arith, text_eq_iff i k, text_eq_iff k i),
      insert-HasUniqueKeys m k v u,
    )
  ]

  keys-retain_keys :
      (p : Text → Bool) (m : Dict V) (j : Text)
      → contains (keys m) j ≡ false
      → contains (keys (retain_keys p m)) j ≡ false
  unfolding retain_keys
  keys-retain_keys p [] j h = refl
  keys-retain_keys p ((i, w) ∷ m) j h = ground (arith, keys-retain_keys p m j)

  pub retain_keys-HasUniqueKeys :
      (p : Text → Bool) (m : Dict V) → HasUniqueKeys m → HasUniqueKeys (retain_keys p m)
  unfolding retain_keys
  retain_keys-HasUniqueKeys p [] u = tt
  retain_keys-HasUniqueKeys p ((i, w) ∷ m) (fresh, u) = elim (Bool-cases (p i)) [
    | inl kept ↦ rw kept (keys-retain_keys p m i fresh, retain_keys-HasUniqueKeys p m u)
    | inr gone ↦ rw gone (retain_keys-HasUniqueKeys p m u)
  ]

  pub remove-HasUniqueKeys : (m : Dict V) (k : Text) → HasUniqueKeys m → HasUniqueKeys (remove m k)
  unfolding remove
  remove-HasUniqueKeys m k u = retain_keys-HasUniqueKeys (λ j. not (text_eq j k)) m u
