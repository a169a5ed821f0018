-- ===== src/UnitTests/Notation.antt =====
-- src/logic.rs, the helper `map` of the tests, and the notation of the assertions.
use proxpulse_judge.Base.{
  Bool, true, false, ◌&&◌, Option, none, some, List, [], ◌∷◌, String, Text, codes, text_eq, Result,
  ok, err,
}
use proxpulse_judge.Dict.{Dict, insert}

unfoldable pub collect : Dict Text → List (String × String) → Dict Text
unfolding insert
collect m [] = m
collect m ((k, v) ∷ pairs) = collect (insert m (codes k) (codes v)) pairs

unfoldable pub map : List (String × String) → Dict Text
unfolding collect
map pairs = collect [] pairs

abbrev pub texts : List String → List Text
texts [] = []
texts (s ∷ l) = codes s ∷ texts l

abbrev pub text_opt : Option String → Option Text
text_opt none = none
text_opt (some s) = some (codes s)

abbrev pub texts_eq : List Text → List Text → Bool
texts_eq [] [] = true
texts_eq [] (d ∷ m) = false
texts_eq (c ∷ l) [] = false
texts_eq (c ∷ l) (d ∷ m) = text_eq c d && texts_eq l m

-- `assert_eq!(_, Ok(_))` and `assert!(_.is_err())`
abbrev pub ok_is {ℓ} : {A : Type ℓ} → (A → A → Bool) → Result A Text → A → Bool
ok_is eq (ok a) b = eq a b
ok_is eq (err e) b = false

abbrev pub is_err {ℓ} : {A : Type ℓ} → Result A Text → Bool
is_err (ok a) = false
is_err (err e) = true

abbrev pub error_is {ℓ} : {A : Type ℓ} → Result A Text → Text → Bool
error_is (ok a) e = false
error_is (err d) e = text_eq d e

abbrev pub pairs {ℓ} : {V : Type ℓ} → List (String × V) → List (Text × V)
pairs [] = []
pairs ((k, v) ∷ l) = (codes k, v) ∷ pairs l
