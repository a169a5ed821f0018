-- ===== src/UnitTests/Wire.antt =====
-- A stand-in for the text of JSON, with which the tests of src/app.rs read what the service wrote:
-- each value is a mark and its parts.
use proxpulse_judge.Base.{
  ℕ, zero, suc, Option, none, some, [], ◌∷◌, ◌++◌, ◌>>=◌, take, drop, length, Bytes,
}
use proxpulse_judge.Geo.Value.{
  Value, null, boolean, number, string, array, object, unsigned, negative, float, Items, no_items,
  item, Fields, no_fields, field,
}
use proxpulse_judge.Base.{true, false, if◌then◌else◌, ◌==◌}

unfoldable mutual
  pub to_json : Value ℕ → Bytes
  to_json null = 0 ∷ []
  to_json (boolean b) = 1 ∷ (if b then 1 else 0) ∷ []
  to_json (number (unsigned n)) = 2 ∷ n ∷ []
  to_json (number (negative n)) = 3 ∷ n ∷ []
  to_json (number (float x)) = 4 ∷ x ∷ []
  to_json (string t) = 5 ∷ length t ∷ t
  to_json (array vs) = 6 ∷ items_json vs
  to_json (object fs) = 7 ∷ fields_json fs

  items_json : Items ℕ → Bytes
  items_json no_items = 0 ∷ []
  items_json (item v vs) = 1 ∷ (to_json v ++ items_json vs)

  fields_json : Fields ℕ → Bytes
  fields_json no_fields = 0 ∷ []
  fields_json (field k v fs) = 1 ∷ length k ∷ (k ++ (to_json v ++ fields_json fs))

-- A value without parts, of which `x` is the number behind the mark.
abbrev simple : ℕ → ℕ → Bytes → Option (Value ℕ × Bytes)
simple mark x b =
    if mark == 1
    then some (boolean (x == 1), b)
    else if mark == 2
    then some (number (unsigned x), b)
    else if mark == 3
    then some (number (negative x), b)
    else if mark == 4
    then some (number (float x), b)
    else if mark == 5
    then some (string (take x b), drop x b)
    else none

abbrev leaf : ℕ → Bytes → Option (Value ℕ × Bytes)
leaf zero b = some (null, b)
leaf (suc m) [] = none
leaf (suc m) (x ∷ b) = simple (suc m) x b

-- On fuel: each step takes a mark.
unfoldable mutual
  read_value : ℕ → Bytes → Option (Value ℕ × Bytes)
  read_value zero b = none
  read_value (suc n) [] = none
  read_value (suc n) (mark ∷ b) = elim (mark == 6) [
    | true ↦ read_items n b >>= λ r. some (array r.0, r.1)
    | false ↦ elim (mark == 7) [
      | true ↦ read_fields n b >>= λ r. some (object r.0, r.1)
      | false ↦ leaf mark b
    ]
  ]

  read_items : ℕ → Bytes → Option (Items ℕ × Bytes)
  read_items zero b = none
  read_items (suc n) [] = none
  read_items (suc n) (mark ∷ b) = elim (mark == 0) [
    | true ↦ some (no_items, b)
    | false ↦ read_value n b >>= λ v. read_items n v.1 >>= λ r. some (item v.0 r.0, r.1)
  ]

  read_fields : ℕ → Bytes → Option (Fields ℕ × Bytes)
  read_fields zero b = none
  read_fields (suc n) [] = none
  read_fields (suc n) (mark ∷ []) = some (no_fields, [])
  read_fields (suc n) (mark ∷ x ∷ b) = elim (mark == 0) [
    | true ↦ some (no_fields, x ∷ b)
    | false ↦ read_value n (drop x b) >>= λ v.
        read_fields n v.1 >>= λ r. some (field (take x b) v.0 r.0, r.1)
  ]

unfoldable pub from_slice : Bytes → Option (Value ℕ)
unfolding read_value
from_slice b = read_value (suc (length b)) b >>= λ r. some r.0
