-- ===== src/App/Token.antt =====
-- src/app.rs: the comparison of the token of `/metrics`, in constant time.
use Prim.Native.Nat.{digits, differ, bit_or, bit_or-bitwise, bit_xor, bit_xor-bitwise}
use proxpulse_judge.Base.{
  ℕ, zero, suc, ◌/◌, ◌%◌, ◌≤◌, max, ◌≡◌, ◌↔◌, refl, sym, ap, ◌∙◌, true, false, ◌&&◌, ◌==◌, ==_iff,
  &&-true, none, some, [], ◌∷◌, arith, length, Text, Bytes, none-some, some_inj, subst,
}
use proxpulse_judge.Str.Basic.{as_bytes}
use proxpulse_judge.App.State.{World}
use proxpulse_judge.App.Request.{HeaderMap}
use proxpulse_judge.App.Handlers.{diff_bits, constant_time_eq, presented_token, may_read_metrics}

differ-zero : (x y : ℕ) → differ x y ≡ 0 → x ≡ y
differ-zero zero y h = sym h
differ-zero (suc x) zero h = h
differ-zero (suc x) (suc y) h = ap suc (differ-zero x y h)

differ_self : (x : ℕ) → differ x x ≡ 0
differ_self zero = refl
differ_self (suc x) = differ_self x

max-zero : (x y : ℕ) → max x y ≡ 0 → (x ≡ 0) × (y ≡ 0)
max-zero x y h = (omega arith, omega arith)

-- The digits of which `bit_xor` and `bit_or` are made, `n` of them at most.
xor_digits-zero : (n a b : ℕ) → a ≤ n → digits (λ c. c) differ n a b ≡ 0 → a ≡ b
xor_digits-zero zero a b le h = omega arith
xor_digits-zero (suc n) zero b le h = sym h
xor_digits-zero (suc n) (suc a) b le h =
    let halves = xor_digits-zero n (suc a / 2) (b / 2) (omega arith) (omega arith) in
    let last = differ-zero (suc a % 2) (b % 2) (omega arith) in omega arith

xor_digits_self : (n a : ℕ) → a ≤ n → digits (λ c. c) differ n a a ≡ 0
xor_digits_self zero a le = omega arith
xor_digits_self (suc n) zero le = refl
xor_digits_self (suc n) (suc a) le =
    let halves = xor_digits_self n (suc a / 2) (omega arith) in
    let last = differ_self (suc a % 2) in omega arith

or_digits-zero : (n a b : ℕ) → a ≤ n → digits (λ c. c) max n a b ≡ 0 → (a ≡ 0) × (b ≡ 0)
or_digits-zero zero a b le h = (omega arith, h)
or_digits-zero (suc n) zero b le h = (refl, h)
or_digits-zero (suc n) (suc a) b le h =
    let halves = or_digits-zero n (suc a / 2) (b / 2) (omega arith) (omega arith) in
    let last = max-zero (suc a % 2) (b % 2) (omega arith) in (omega arith, omega arith)

xor_iff : (a b : ℕ) → (bit_xor a b ≡ 0) ↔ (a ≡ b)
xor_iff a b = (
  λ h. xor_digits-zero a a b (omega arith) (sym (bit_xor-bitwise a b) ∙ h),
  λ e. subst (λ c. bit_xor a c ≡ 0) e (bit_xor-bitwise a a ∙ xor_digits_self a a (omega arith)),
)

or-zero : (a b : ℕ) → bit_or a b ≡ 0 → (a ≡ 0) × (b ≡ 0)
or-zero a b h = or_digits-zero a a b (omega arith) (sym (bit_or-bitwise a b) ∙ h)

diff_bits-zero :
    (xs ys : Bytes) (acc : ℕ)
    → length xs ≡ length ys
    → diff_bits acc xs ys ≡ 0
    → (acc ≡ 0) × (xs ≡ ys)
unfolding diff_bits
diff_bits-zero [] [] acc e h = (h, refl)
diff_bits-zero [] (y ∷ ys) acc e h = absurd (omega arith)
diff_bits-zero (x ∷ xs) [] acc e h = absurd (omega arith)
diff_bits-zero (x ∷ xs) (y ∷ ys) acc e h =
    let (both, tails) = diff_bits-zero xs ys (bit_or acc (bit_xor x y)) (omega arith) h in
    let (kept, same) = or-zero acc (bit_xor x y) both in
    let heads = (xor_iff x y).0 same in (kept, cc)

diff_bits_self : (xs : Bytes) (acc : ℕ) → acc ≡ 0 → diff_bits acc xs xs ≡ 0
unfolding diff_bits
diff_bits_self [] acc h = h
diff_bits_self (x ∷ xs) acc h = diff_bits_self xs (bit_or acc (bit_xor x x)) (
    ap (λ (a : ℕ). bit_or a (bit_xor x x)) h
    ∙ bit_or-bitwise 0 (bit_xor x x)
    ∙ (xor_iff x x).1 refl)

constant_time_eq_iff : (a b : Bytes) → (constant_time_eq a b ≡ true) ↔ (a ≡ b)
unfolding constant_time_eq
constant_time_eq_iff a b = (
  λ h.
      let (long, bits) = &&-true (length a == length b) (diff_bits 0 a b == 0) h in
      (diff_bits-zero a b 0 ((==_iff (length a) (length b)).0 long)
        ((==_iff (diff_bits 0 a b) 0).0 bits)).1,
  λ e.
      subst (λ c. (length a == length c && diff_bits 0 a c == 0) ≡ true) e
        (ground (arith, diff_bits_self a 0 refl)),
)

module _ (W : World) where
  -- Where a token is set, the metrics are shown exactly to a request whose first Authorization header is
  -- a bearer token of the same bytes: the comparison in constant time is equality.
  pub may_read_metrics_iff :
      (token : Text) (headers : HeaderMap)
      → (may_read_metrics W (some token) headers ≡ true)
        ↔ ((p : Text) × (presented_token W headers ≡ some p) × (as_bytes p ≡ as_bytes token))
  unfolding may_read_metrics
  may_read_metrics_iff token headers =
      elim (presented_token W headers)
        as (λ o.
          ((elim o [ none ↦ false | some p ↦ constant_time_eq (as_bytes p) (as_bytes token) ])
            ≡ true)
          ↔ ((p : Text) × (o ≡ some p) × (as_bytes p ≡ as_bytes token))) [
            | none ↦ (λ h. cc, λ h. absurd (none-some h.1))
            | some p ↦ (
              λ h. (p, refl, (constant_time_eq_iff (as_bytes p) (as_bytes token)).0 h),
              λ h.
                  (constant_time_eq_iff (as_bytes p) (as_bytes token)).1
                    (ap as_bytes (some_inj h.1) ∙ h.2),
            )
          ]
