-- ===== src/Dict.antt =====
-- `HashMap<String, V>` as an association list: a key that is written again keeps its place, and a
-- well-formed map has each key once.
pub mod Same
pub mod Unique
use proxpulse_judge.Base.{
  Bool, false, not, ◌≡◌, refl, Option, none, some, List, [], ◌∷◌, if◌then◌else◌, arith, Text,
  text_eq, text_eq_iff, contains,
}

abbrev pub Dict {ℓ} : Type ℓ → Type ℓ
Dict V = List (Text × V)

module _ {ℓ} {V : Type ℓ} where
  unfoldable pub get : Dict V → Text → Option V
  get [] k = none
  get ((j, v) ∷ m) k = let rest = get m k in if text_eq j k then some v else rest

  unfoldable pub insert : Dict V → Text → V → Dict V
  insert [] k v = (k, v) ∷ []
  insert ((j, w) ∷ m) k v =
      let rest = insert m k v in if text_eq j k then (k, v) ∷ m else (j, w) ∷ rest

  -- `HashMap::retain` by a test on the key
  unfoldable pub retain_keys : (Text → Bool) → Dict V → Dict V
  retain_keys p [] = []
  retain_keys p ((j, v) ∷ m) = let rest = retain_keys p m in if p j then (j, v) ∷ rest else rest

  unfoldable pub remove : Dict V → Text → Dict V
  unfolding retain_keys
  remove m k = retain_keys (λ j. not (text_eq j k)) m

  abbrev pub keys : Dict V → List Text
  keys [] = []
  keys ((k, v) ∷ m) = k ∷ keys m

  abbrev pub HasUniqueKeys : Dict V → Type 0
  HasUniqueKeys [] = Unit
  HasUniqueKeys ((k, v) ∷ m) = (contains (keys m) k ≡ false) × HasUniqueKeys m

  pub get-nil : (k : Text) → get [] k ≡ none
  unfolding get
  get-nil k = refl

  pub get-insert :
      (m : Dict V) (k j : Text) (v : V)
      → get (insert m k v) j ≡ (if text_eq k j then some v else get m j)
  unfolding get insert
  get-insert [] k j v = refl
  get-insert ((i, w) ∷ m) k j v =
      ground (arith, text_eq_iff k j, text_eq_iff i k, text_eq_iff i j, get-insert m k j v)

  pub get-retain_keys :
      (p : Text → Bool) (m : Dict V) (k : Text)
      → get (retain_keys p m) k ≡ (if p k then get m k else none)
  unfolding get retain_keys
  get-retain_keys p [] k = ground arith
  get-retain_keys p ((j, v) ∷ m) k = ground (arith, text_eq_iff j k, get-retain_keys p m k)

  pub get-remove :
      (m : Dict V) (k j : Text) → get (remove m k) j ≡ (if text_eq j k then none else get m j)
  unfolding remove
  get-remove m k j = ground (arith, get-retain_keys (λ i. not (text_eq i k)) m j)
