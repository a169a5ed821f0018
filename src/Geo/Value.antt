-- ===== src/Geo/Value.antt =====
-- src/geo.rs: fields of a decoded record. `F` stands for `f64`, with the conversions from integers
-- that `serde_json` makes.
use proxpulse_judge.Base.{
  ℕ, ◌-◌, ◌^◌, Bool, true, false, not, Option, none, some, List, [], ◌∷◌, if◌then◌else◌, leb, ltb,
  ◌>>=◌, filter_option, Text, text_eq, is_empty,
}
use proxpulse_judge.Client.Basic.{◌or_else◌}

-- A number is at most u64::MAX, at least i64::MIN (`negative n` is -(n + 1)), or an `f64`.
pub data Number (F : Type 0) : Type 0 where
  unsigned : ℕ → Number F
  negative : ℕ → Number F
  float : F → Number F

mutual
  pub data Value (F : Type 0) : Type 0 where
    null : Value F
    boolean : Bool → Value F
    number : Number F → Value F
    string : Text → Value F
    array : Items F → Value F
    object : Fields F → Value F

  pub data Items (F : Type 0) : Type 0 where
    no_items : Items F
    item : Value F → Items F → Items F

  pub data Fields (F : Type 0) : Type 0 where
    no_fields : Fields F
    field : Text → Value F → Fields F → Fields F

module _ {F : Type 0} where
  unfoldable pub get_field : Fields F → Text → Option (Value F)
  get_field no_fields key = none
  get_field (field k v fs) key =
      let rest = get_field fs key in if text_eq k key then some v else rest

  -- `Value::get` with a text: nothing but an object has keys.
  unfoldable pub get_key : Value F → Text → Option (Value F)
  unfolding get_field
  get_key (object fs) key = get_field fs key
  get_key _ key = none

  -- `cur = cur.get(*key)?` along a path
  unfoldable pub walk : Value F → List Text → Option (Value F)
  unfolding get_key
  walk v [] = some v
  walk v (key ∷ path) = get_key v key >>= λ w. walk w path

  unfoldable pub as_str : Value F → Option Text
  as_str (string s) = some s
  as_str _ = none

  unfoldable pub as_u64 : Value F → Option ℕ
  as_u64 (number (unsigned n)) = some n
  as_u64 _ = none

  -- the value of `as_i64`, if it is not negative
  unfoldable pub as_i64_nonneg : Value F → Option ℕ
  as_i64_nonneg (number (unsigned n)) = if ltb n (2 ^ 63) then some n else none
  as_i64_nonneg _ = none

  unfoldable pub is_empty_record : Value F → Bool
  is_empty_record null = true
  is_empty_record (object no_fields) = true
  is_empty_record _ = false

abbrev pub u32_max : ℕ
u32_max = 2 ^ 32 - 1

-- `Iterator::find_map`
abbrev pub find_map {ℓ κ} : {A : Type ℓ} {B : Type κ} → (A → Option B) → List A → Option B
find_map f [] = none
find_map f (x ∷ xs) = f x or_else find_map f xs

module _ {F : Type 0} where
  unfoldable pub str_at : Value F → List Text → Option Text
  unfolding walk as_str
  str_at v path = filter_option (λ s. not (is_empty s)) (walk v path >>= as_str)

  unfoldable pub get_str : Value F → List (List Text) → Option Text
  unfolding str_at
  get_str v paths = find_map (str_at v) paths

  unfoldable pub u32_of : Value F → Option ℕ
  unfolding as_u64 as_i64_nonneg
  u32_of v =
      filter_option (λ n. leb n u32_max) (as_u64 v)
      or_else filter_option (λ n. leb n u32_max) (as_i64_nonneg v)

  unfoldable pub get_u32 : Value F → List (List Text) → Option ℕ
  unfolding walk u32_of
  get_u32 v paths = find_map (λ path. walk v path >>= u32_of) paths

module _ {F : Type 0} (of_u64 of_negative : ℕ → F) where
  -- `as_f64` converts every number, so that the fallback to `as_i64` behind it is never taken.
  unfoldable pub as_f64 : Value F → Option F
  as_f64 (number (unsigned n)) = some (of_u64 n)
  as_f64 (number (negative n)) = some (of_negative n)
  as_f64 (number (float x)) = some x
  as_f64 _ = none

  unfoldable pub as_i64_float : Value F → Option F
  as_i64_float (number (unsigned n)) = if ltb n (2 ^ 63) then some (of_u64 n) else none
  as_i64_float (number (negative n)) = some (of_negative n)
  as_i64_float _ = none

  unfoldable pub get_f64 : Value F → List (List Text) → Option F
  unfolding walk as_f64 as_i64_float
  get_f64 v paths = find_map (λ path. walk v path >>= λ w. as_f64 w or_else as_i64_float w) paths
