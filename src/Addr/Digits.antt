-- ===== src/Addr/Digits.antt =====
-- Octets and hexadecimal groups are read back from their print.
use proxpulse_judge.Base.{
  ℕ, zero, suc, ◌+◌, ◌*◌, ◌/◌, ◌%◌, ◌≤◌, ◌<◌, ◌≡◌, refl, Bool, true, false, ◌&&◌, Option, none,
  some, [], ◌∷◌, ◌++◌, ◌∙◌, arith, ltb, if◌then◌else◌, Text,
}
use proxpulse_judge.Str.Basic.{digit_char}
use proxpulse_judge.Addr.Print.{print_octet, print_group}
use proxpulse_judge.Addr.Parse.{to_digit, read_digits, read_number, read_octet, zero_first}
use native.Mathlib.Decide.{dec_lt}

-- What follows is no digit.
abbrev pub Stops : ℕ → Text → Type 0
Stops radix [] = Unit
Stops radix (c ∷ s) = to_digit radix c ≡ none

to_digit-decimal : (d : ℕ) → d < 10 → to_digit 10 (b'0' + d) ≡ some d
unfolding to_digit
to_digit-decimal d h = ground arith

to_digit-hex : (d : ℕ) → d < 16 → to_digit 16 (digit_char d) ≡ some d
unfolding to_digit digit_char
to_digit-hex d h = ground arith

octet_text :
    (n : ℕ)
    → (n < 10 → print_octet n ≡ (b'0' + n) ∷ [])
      × (10 ≤ n → n < 100 → print_octet n ≡ (b'0' + n / 10) ∷ (b'0' + n % 10) ∷ [])
      × (100 ≤ n
          → n < 256
          → print_octet n ≡ (b'0' + n / 100) ∷ (b'0' + n / 10 % 10) ∷ (b'0' + n % 10) ∷ [])
unfolding print_octet digit_char
octet_text n = (λ a. ground arith, λ a b. ground arith, λ a b. ground arith)

group_text :
    (n : ℕ)
    → (n < 16 → print_group n ≡ digit_char n ∷ [])
      × (16 ≤ n → n < 256 → print_group n ≡ digit_char (n / 16) ∷ digit_char (n % 16) ∷ [])
      × (256 ≤ n
          → n < 4096
          → print_group n
            ≡ digit_char (n / 256) ∷ digit_char (n / 16 % 16) ∷ digit_char (n % 16) ∷ [])
      × (4096 ≤ n
          → n < 65536
          → print_group n
            ≡ digit_char (n / 4096)
              ∷ digit_char (n / 256 % 16)
              ∷ digit_char (n / 16 % 16)
              ∷ digit_char (n % 16)
              ∷ [])
unfolding print_group
group_text n = (λ a. ground arith, λ a b. ground arith, λ a b. ground arith, λ a b. ground arith)

-- Reading stops where the digits do.
read_stop :
    (radix left n count : ℕ) (rest : Text)
    → Stops radix rest
    → read_digits radix left rest n count ≡ some (n, count, rest)
unfolding read_digits
read_stop radix zero n count [] h = refl
read_stop radix (suc left) n count [] h = refl
read_stop radix zero n count (c ∷ s) h = ground arith
read_stop radix (suc left) n count (c ∷ s) h = ground arith

read_step :
    (radix left n count c d : ℕ) (s : Text)
    → to_digit radix c ≡ some d
    → read_digits radix (suc left) (c ∷ s) n count
      ≡ read_digits radix left s (n * radix + d) (count + 1)
unfolding read_digits
read_step radix left n count c d s h = ground arith

digit_lt : (radix c d : ℕ) → to_digit radix c ≡ some d → d < radix
unfolding to_digit
digit_lt radix c d h = ground arith

read_number_lem :
    (radix most bound n count : ℕ) (allow : Bool) (s rest : Text)
    → read_digits radix most s 0 0 ≡ some (n, count, rest)
    → 0 < count
    → (zero_first s && ltb 1 count && (if allow then false else true)) ≡ false
    → n < bound
    → read_number radix most bound allow s ≡ some (n, rest)
unfolding read_number
read_number_lem radix most bound n count allow s rest h pos lead fits = ground arith

settle :
    (r : Option (ℕ × ℕ × Text)) (n n' count count' : ℕ) (rest : Text)
    → r ≡ some (n', count', rest)
    → n' ≡ n
    → count' ≡ count
    → r ≡ some (n, count, rest)
settle r n n' count count' rest e p q = cc

module _ (radix l : ℕ) (rest : Text) (stops : Stops radix rest) where
  read_one :
      (c d n : ℕ)
      → to_digit radix c ≡ some d
      → d ≡ n
      → read_digits radix (suc l) (c ∷ rest) 0 0 ≡ some (n, 1, rest)
  read_one c d n h e =
      settle _ n _ 1 _ rest (read_step radix l 0 0 c d rest h ∙ read_stop radix l _ _ rest stops)
        (omega arith) (omega arith)

  read_two :
      (c c' d d' n : ℕ)
      → to_digit radix c ≡ some d
      → to_digit radix c' ≡ some d'
      → d * radix + d' ≡ n
      → read_digits radix (suc (suc l)) (c ∷ c' ∷ rest) 0 0 ≡ some (n, 2, rest)
  read_two c c' d d' n h h' e =
      settle _ n _ 2 _ rest
        (read_step radix (suc l) 0 0 c d (c' ∷ rest) h
          ∙ read_step radix l _ _ c' d' rest h'
          ∙ read_stop radix l _ _ rest stops)
        (omega arith) (omega arith)

  read_three :
      (c c' c'' d d' d'' n : ℕ)
      → to_digit radix c ≡ some d
      → to_digit radix c' ≡ some d'
      → to_digit radix c'' ≡ some d''
      → (d * radix + d') * radix + d'' ≡ n
      → read_digits radix (suc (suc (suc l))) (c ∷ c' ∷ c'' ∷ rest) 0 0 ≡ some (n, 3, rest)
  read_three c c' c'' d d' d'' n h h' h'' e =
      settle _ n _ 3 _ rest
        (read_step radix (suc (suc l)) 0 0 c d (c' ∷ c'' ∷ rest) h
          ∙ read_step radix (suc l) _ _ c' d' (c'' ∷ rest) h'
          ∙ read_step radix l _ _ c'' d'' rest h''
          ∙ read_stop radix l _ _ rest stops)
        (omega arith) (omega arith)

  read_four :
      (c c' c'' c''' d d' d'' d''' n : ℕ)
      → to_digit radix c ≡ some d
      → to_digit radix c' ≡ some d'
      → to_digit radix c'' ≡ some d''
      → to_digit radix c''' ≡ some d'''
      → ((d * radix + d') * radix + d'') * radix + d''' ≡ n
      → read_digits radix (suc (suc (suc (suc l)))) (c ∷ c' ∷ c'' ∷ c''' ∷ rest) 0 0
        ≡ some (n, 4, rest)
  read_four c c' c'' c''' d d' d'' d''' n h h' h'' h''' e =
      settle _ n _ 4 _ rest
        (read_step radix (suc (suc (suc l))) 0 0 c d (c' ∷ c'' ∷ c''' ∷ rest) h
          ∙ read_step radix (suc (suc l)) _ _ c' d' (c'' ∷ c''' ∷ rest) h'
          ∙ read_step radix (suc l) _ _ c'' d'' (c''' ∷ rest) h''
          ∙ read_step radix l _ _ c''' d''' rest h'''
          ∙ read_stop radix l _ _ rest stops)
        (omega arith) (omega arith)

pub read_octet-print :
    (n : ℕ) (rest : Text)
    → n < 256
    → Stops 10 rest
    → read_octet (print_octet n ++ rest) ≡ some (n, rest)
unfolding read_octet
read_octet-print n rest h stops = elim (dec_lt n 10) [
  | yes one ↦ rw ((octet_text n).0 one) (
      read_number_lem 10 3 256 n 1 false ((b'0' + n) ∷ rest) rest
        (read_one 10 2 rest stops (b'0' + n) n n (to_digit-decimal n one) refl) (omega arith)
        (ground arith) h)
  | no many ↦ elim (dec_lt n 100) [
    | yes two ↦ rw ((octet_text n).1 (omega arith) two) (
        read_number_lem 10 3 256 n 2 false ((b'0' + n / 10) ∷ (b'0' + n % 10) ∷ rest) rest
          (read_two 10 1 rest stops (b'0' + n / 10) (b'0' + n % 10) (n / 10) (n % 10) n
            (to_digit-decimal (n / 10) (omega arith)) (to_digit-decimal (n % 10) (omega arith))
            (omega arith))
          (omega arith) (ground arith) h)
    | no three ↦ rw ((octet_text n).2 (omega arith) h) (
        read_number_lem 10 3 256 n 3 false
          ((b'0' + n / 100) ∷ (b'0' + n / 10 % 10) ∷ (b'0' + n % 10) ∷ rest) rest
          (read_three 10 0 rest stops (b'0' + n / 100) (b'0' + n / 10 % 10) (b'0' + n % 10)
            (n / 100) (n / 10 % 10) (n % 10) n (to_digit-decimal (n / 100) (omega arith))
            (to_digit-decimal (n / 10 % 10) (omega arith)) (to_digit-decimal (n % 10) (omega arith))
            (omega arith))
          (omega arith) (ground arith) h)
  ]
]

abbrev pub number_after : Text → Option (ℕ × Text)
number_after s = read_number 16 4 65_536 true s

pub read_group-print :
    (n : ℕ) (rest : Text)
    → n < 65536
    → Stops 16 rest
    → number_after (print_group n ++ rest) ≡ some (n, rest)
read_group-print n rest h stops = elim (dec_lt n 16) [
  | yes one ↦ rw ((group_text n).0 one) (
      read_number_lem 16 4 65536 n 1 true (digit_char n ∷ rest) rest
        (read_one 16 3 rest stops (digit_char n) n n (to_digit-hex n one) refl) (omega arith)
        (ground arith) h)
  | no many ↦ elim (dec_lt n 256) [
    | yes two ↦ rw ((group_text n).1 (omega arith) two) (
        read_number_lem 16 4 65536 n 2 true (digit_char (n / 16) ∷ digit_char (n % 16) ∷ rest) rest
          (read_two 16 2 rest stops (digit_char (n / 16)) (digit_char (n % 16)) (n / 16) (n % 16) n
            (to_digit-hex (n / 16) (omega arith)) (to_digit-hex (n % 16) (omega arith))
            (omega arith))
          (omega arith) (ground arith) h)
    | no more ↦ elim (dec_lt n 4096) [
      | yes three ↦ rw ((group_text n).2 (omega arith) three) (
          read_number_lem 16 4 65536 n 3 true
            (digit_char (n / 256) ∷ digit_char (n / 16 % 16) ∷ digit_char (n % 16) ∷ rest) rest
            (read_three 16 1 rest stops (digit_char (n / 256)) (digit_char (n / 16 % 16))
              (digit_char (n % 16)) (n / 256) (n / 16 % 16) (n % 16) n
              (to_digit-hex (n / 256) (omega arith)) (to_digit-hex (n / 16 % 16) (omega arith))
              (to_digit-hex (n % 16) (omega arith)) (omega arith))
            (omega arith) (ground arith) h)
      | no four ↦ rw ((group_text n).3 (omega arith) h) (
          read_number_lem 16 4 65536 n 4 true
            (digit_char (n / 4096)
              ∷ digit_char (n / 256 % 16)
              ∷ digit_char (n / 16 % 16)
              ∷ digit_char (n % 16)
              ∷ rest)
            rest
            (read_four 16 0 rest stops (digit_char (n / 4096)) (digit_char (n / 256 % 16))
              (digit_char (n / 16 % 16)) (digit_char (n % 16)) (n / 4096) (n / 256 % 16)
              (n / 16 % 16) (n % 16) n (to_digit-hex (n / 4096) (omega arith))
              (to_digit-hex (n / 256 % 16) (omega arith)) (to_digit-hex (n / 16 % 16) (omega arith))
              (to_digit-hex (n % 16) (omega arith)) (omega arith))
            (omega arith) (ground arith) h)
    ]
  ]
]
