-- ===== src/Float.antt =====
-- The type `f64`, a parameter of the model: its operations as src/ratelimit.rs and the databases use
-- them, with laws of IEEE 754 and of Rust's conversions. Nothing else is assumed, so no result is
-- taken to be exact but one on whole numbers of 32 bits, and two with the double next to 1/60.
use proxpulse_judge.Base.{
  ℕ, ◌+◌, ◌-◌, ◌*◌, ◌/◌, ◌≤◌, ◌<◌, ◌^◌, ◌≡◌, refl, Bool, true, false, leb, min, max, arith,
}
use native.Mathlib.Nat.{mul-le-mul, mul-le-mul_left, le-div_iff_mul-le, div-mul-le_self, le_trans}

-- `of_u32` is `f64::from`, which is for numbers of 32 bits (a law on others is met by cutting them off),
-- `as_secs` is `as_secs_f64` of a duration in nanoseconds, `to_u64` the
-- conversion by `as`, which cuts off at both ends, and `le` the comparison, which is false for a NaN.
pub record F64 : Type 1 where
  pub F : Type 0
  pub of_u32 : ℕ → F
  pub as_secs : ℕ → F
  pub add : F → F → F
  pub sub : F → F → F
  pub mul : F → F → F
  pub div : F → F → F
  pub fmin : F → F → F
  pub fmax : F → F → F
  pub ceil : F → F
  pub to_u64 : F → ℕ
  pub le : F → F → Bool
  pub le_trans : (x y z : F) → le x y ≡ true → le y z ≡ true → le x z ≡ true
  -- whole numbers of 32 bits, and a 32-bit number of seconds, are exact
  pub le-of_u32 : (a b : ℕ) → a < 2 ^ 32 → b < 2 ^ 32 → le (of_u32 a) (of_u32 b) ≡ leb a b
  pub add_zero : (a : ℕ) → a < 2 ^ 32 → add (of_u32 a) (of_u32 0) ≡ of_u32 a
  pub sub-of_u32 : (a b : ℕ) → a < 2 ^ 32 → b ≤ a → sub (of_u32 a) (of_u32 b) ≡ of_u32 (a - b)
  pub fmin-of_u32 : (a b : ℕ) → fmin (of_u32 a) (of_u32 b) ≡ of_u32 (min a b)
  pub ceil-of_u32 : (a : ℕ) → ceil (of_u32 a) ≡ of_u32 a
  pub as_secs-whole : (a : ℕ) → a < 2 ^ 32 → as_secs (a * 1_000_000_000) ≡ of_u32 a
  -- signs; a quotient of whole numbers and a number of seconds are finite
  pub as_secs_nonneg : (t : ℕ) → le (of_u32 0) (as_secs t) ≡ true
  pub div_pos : (a : ℕ) → 0 < a → le (div (of_u32 a) (of_u32 60)) (of_u32 0) ≡ false
  pub mul_nonneg : (a t : ℕ) → le (of_u32 0) (mul (as_secs t) (div (of_u32 a) (of_u32 60))) ≡ true
  pub mul_zero : (a : ℕ) → mul (of_u32 0) (div (of_u32 a) (of_u32 60)) ≡ of_u32 0
  pub sub_nonneg :
      (n : ℕ) (x : F) → le (of_u32 n) x ≡ true → le (of_u32 0) (sub x (of_u32 n)) ≡ true
  pub sub_rest :
      (n : ℕ) (x : F)
      → le (of_u32 0) x ≡ true
      → le (of_u32 n) x ≡ false
      → le (of_u32 0) (sub (of_u32 n) x) ≡ true
  -- rounding keeps the order
  pub as_secs_mono : (s t : ℕ) → s ≤ t → le (as_secs s) (as_secs t) ≡ true
  pub add_right :
      (x y z : F)
      → le (of_u32 0) x ≡ true
      → le (of_u32 0) y ≡ true
      → le z y ≡ true
      → le z (add x y) ≡ true
  pub sub_le : (n : ℕ) (x : F) → le (of_u32 n) x ≡ true → le (sub x (of_u32 n)) x ≡ true
  pub sub_upper : (n : ℕ) (x : F) → le (of_u32 0) x ≡ true → le (sub (of_u32 n) x) (of_u32 n) ≡ true
  pub mul_mono :
      (x x' y y' : F)
      → le x (of_u32 0) ≡ false
      → le y (of_u32 0) ≡ false
      → le x x' ≡ true
      → le y y' ≡ true
      → le (mul x y) (mul x' y') ≡ true
  pub div_mono :
      (a b : ℕ) → a ≤ b → le (div (of_u32 a) (of_u32 60)) (div (of_u32 b) (of_u32 60)) ≡ true
  pub div_anti :
      (x y y' : F) (n : ℕ)
      → le (of_u32 0) x ≡ true
      → le x (of_u32 n) ≡ true
      → le y (of_u32 0) ≡ false
      → le y y' ≡ true
      → le (div x y') (div (of_u32 n) y) ≡ true
  pub le-fmin : (x y z : F) → le z x ≡ true → le z y ≡ true → le z (fmin x y) ≡ true
  pub fmin_le : (x : F) (n : ℕ) → le (fmin x (of_u32 n)) (of_u32 n) ≡ true
  pub le-fmax : (x : F) (n : ℕ) → le (of_u32 n) (fmax x (of_u32 n)) ≡ true
  pub fmax_le : (x y z : F) → le x z ≡ true → le y z ≡ true → le (fmax x y) z ≡ true
  pub ceil_mono : (x y : F) → le x y ≡ true → le (ceil x) (ceil y) ≡ true
  pub to_u64_lower : (n : ℕ) (x : F) → n < 2 ^ 32 → le (of_u32 n) x ≡ true → n ≤ to_u64 x
  pub to_u64_upper : (n : ℕ) (x : F) → le x (of_u32 n) ≡ true → to_u64 x ≤ n
  -- the double next to 1/60 times 60 rounds to 1, and 1 by it to 60
  pub sixtieth_mul : mul (of_u32 60) (div (of_u32 1) (of_u32 60)) ≡ of_u32 1
  pub sixtieth_div : div (of_u32 1) (div (of_u32 1) (of_u32 60)) ≡ of_u32 60

-- An instance that computes: numbers that are not negative, in parts of which 60 * 10 ^ 9 are one,
-- rounded down. It shows that the laws hold together, and evaluates the tests.
pub positive : (x : ℕ) → leb x (0 * 60_000_000_000) ≡ false → 0 < x
positive x h = ground arith

pub mul_grows :
    (x x' y y' : ℕ) → x ≤ x' → y ≤ y' → x * y / 60_000_000_000 ≤ x' * y' / 60_000_000_000
mul_grows x x' y y' h k = omega (arith, mul-le-mul h k)

pub div_shrinks : (x y y' n : ℕ) → 0 < y → y ≤ y' → x ≤ n → x / y' ≤ n / y
div_shrinks x y y' n p h k =
    (le-div_iff_mul-le {k = y} {x = x / y'} {y = n} p).1
      (le_trans (mul-le-mul_left (x / y') h) (le_trans (div-mul-le_self x y') k))

abbrev pub fixed_point : F64
fixed_point = record {
  F = ℕ;
  of_u32 = λ n. n * 60_000_000_000;
  as_secs = λ t. t * 60;
  add = λ x y. x + y;
  sub = λ x y. x - y;
  mul = λ x y. x * y / 60_000_000_000;
  div = λ x y. x * 60_000_000_000 / y;
  fmin = min;
  fmax = max;
  ceil = λ x. (x + 59_999_999_999) / 60_000_000_000 * 60_000_000_000;
  to_u64 = λ x. x / 60_000_000_000;
  le = leb;
  le_trans = λ x y z h k. ground arith;
  le-of_u32 = λ a b h k. ground arith;
  add_zero = λ a h. omega arith;
  sub-of_u32 = λ a b h k. omega arith;
  fmin-of_u32 = λ a b. ground arith;
  ceil-of_u32 = λ a. omega arith;
  as_secs-whole = λ a h. omega arith;
  as_secs_nonneg = λ t. ground arith;
  div_pos = λ a h. ground arith;
  mul_nonneg = λ a t. ground arith;
  mul_zero = λ a. omega arith;
  sub_nonneg = λ n x h. ground arith;
  sub_rest = λ n x h k. ground arith;
  as_secs_mono = λ s t h. ground arith;
  add_right = λ x y z h k l. ground arith;
  sub_le = λ n x h. ground arith;
  sub_upper = λ n x h. ground arith;
  mul_mono = λ x x' y y' p q h k. ground (arith, mul_grows x x' y y');
  div_mono = λ a b h. ground arith;
  div_anti = λ x y y' n p h q k. ground (
    arith,
    positive y q,
    div_shrinks (x * 60_000_000_000) y y' (n * 60_000_000_000 * 60_000_000_000),
  );
  le-fmin = λ x y z h k. ground arith;
  fmin_le = λ x n. ground arith;
  le-fmax = λ x n. ground arith;
  fmax_le = λ x y z h k. ground arith;
  ceil_mono = λ x y h. ground arith;
  to_u64_lower = λ n x l h. ground arith;
  to_u64_upper = λ n x h. ground arith;
  sixtieth_mul = refl;
  sixtieth_div = refl;
}
