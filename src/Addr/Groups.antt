-- ===== src/Addr/Groups.antt =====
-- A printed list of groups is read back, and no part of it is taken for an IPv4 address.
use proxpulse_judge.Base.{
  ℕ, zero, suc, ◌+◌, ◌*◌, ◌/◌, ◌%◌, ◌≤◌, ◌<◌, ◌≡◌, ◌≢◌, refl, sym, subst, ap, ◌∙◌, ◌⊎◌, inl, inr,
  Bool, true, false, none, some, List, [], ◌∷◌, ◌++◌, append_assoc, append-nil, arith, ltb, Text,
  All, length, Option-cases, Bool-cases,
}
use proxpulse_judge.Str.Basic.{digit_char, print_digits, join}
use proxpulse_judge.Addr.Print.{print_group, print_groups}
use proxpulse_judge.Addr.Parse.{
  to_digit, read_digits, read_number, read_octet, read_char, read_v4, read_sep, read_group,
  read_embedded, read_groups,
}
use proxpulse_judge.Addr.Digits.{Stops, read_group-print}

-- No dot before the first colon.
abbrev pub NoDot : Text → Type 0
NoDot [] = Unit
NoDot (c ∷ s) = (c ≡ b':') ⊎ ((c ≢ b'.') × NoDot s)

no_digit_colon : (c : ℕ) {d : ℕ} → to_digit 10 c ≡ some d → c ≢ b':'
unfolding to_digit
no_digit_colon c h e = ground arith

read_digits-NoDot :
    (left : ℕ) (s : Text) (n count m k : ℕ) (r : Text)
    → NoDot s
    → read_digits 10 left s n count ≡ some (m, k, r)
    → NoDot r
unfolding read_digits
read_digits-NoDot left [] n count m k r h e = ground arith
read_digits-NoDot zero (c ∷ s) n count m k r h e = ground arith
read_digits-NoDot (suc left) (c ∷ s) n count m k r (inl colon) e = ground (arith, no_digit_colon c)
read_digits-NoDot (suc left) (c ∷ s) n count m k r (inr (x, h)) e =
    elim (Option-cases (to_digit 10 c)) [
      | inl stop ↦ let same : (c ∷ s) ≡ r = ground arith in subst NoDot same (inr (x, h))
      | inr (d, more) ↦
          read_digits-NoDot left s (n * 10 + d) (count + 1) m k r h (rw (more, read_digits) at e)
    ]

NoDot-read_char : (s : Text) → NoDot s → read_char b'.' s ≡ none
unfolding read_char
NoDot-read_char [] h = refl
NoDot-read_char (c ∷ s) h = ground arith

read_octet-NoDot : (s : Text) (a : ℕ) (r : Text) → NoDot s → read_octet s ≡ some (a, r) → NoDot r
unfolding read_octet
read_octet-NoDot s a r h e = elim (Option-cases (read_digits 10 3 s 0 0)) [
  | inl stop ↦ ground arith
  | inr ((m, k, rest), more) ↦
      subst NoDot (ground arith) (read_digits-NoDot 3 s 0 0 m k rest h more)
]

-- A text with no dot before the first colon is no IPv4 address.
pub NoDot-read_v4 : (s : Text) → NoDot s → read_v4 s ≡ none
unfolding read_v4
NoDot-read_v4 s h = elim (Option-cases (read_octet s)) [
  | inl stop ↦ rw stop
  | inr ((a, r), more) ↦ rw more (rw (NoDot-read_char r (read_octet-NoDot s a r h more)))
]

digit_char-no_dot : (d : ℕ) → d < 16 → digit_char d ≢ b'.'
unfolding digit_char
digit_char-no_dot d h e = ground arith

print_digits-NoDot :
    (f n : ℕ) (acc rest : Text) → NoDot (acc ++ rest) → NoDot (print_digits 16 f n acc ++ rest)
unfolding print_digits
print_digits-NoDot zero n acc rest h = inr (digit_char-no_dot (n % 16) (omega arith), h)
print_digits-NoDot (suc f) n acc rest h = elim (Bool-cases (ltb n 16)) [
  | inl last ↦ rw last (inr (digit_char-no_dot n (ground arith), h))
  | inr more ↦ rw more (
      print_digits-NoDot f (n / 16) (digit_char (n % 16) ∷ acc) rest
        (inr (digit_char-no_dot (n % 16) (omega arith), h)))
]

pub print_group-NoDot : (g : ℕ) (rest : Text) → NoDot rest → NoDot (print_group g ++ rest)
unfolding print_group
print_group-NoDot g rest h = print_digits-NoDot 3 g [] rest h

-- The groups behind the first, each behind its colon.
unfoldable pub more_groups : List ℕ → Text
more_groups [] = []
more_groups (g ∷ gs) = b':' ∷ (print_group g ++ more_groups gs)

pub print_groups-cons :
    (g : ℕ) (gs : List ℕ) → print_groups (g ∷ gs) ≡ print_group g ++ more_groups gs
unfolding print_groups join more_groups
print_groups-cons g [] = sym (append-nil (print_group g))
print_groups-cons g (h ∷ gs) =
    append_assoc (print_group g) (b':' ∷ []) _
    ∙ ap (λ t. print_group g ++ (b':' ∷ t)) (print_groups-cons h gs)

-- What follows the groups: nothing, or `::`.
pub data End : Text → Type 0 where
  over : End []
  colons : (s : Text) → End (b':' ∷ b':' ∷ s)

more_groups-NoDot : (gs : List ℕ) (rest : Text) → End rest → NoDot (more_groups gs ++ rest)
unfolding more_groups
more_groups-NoDot [] rest over = tt
more_groups-NoDot [] rest (colons s) = inl refl
more_groups-NoDot (g ∷ gs) rest e = inl refl

more_groups-Stops : (gs : List ℕ) (rest : Text) → End rest → Stops 16 (more_groups gs ++ rest)
unfolding more_groups to_digit
more_groups-Stops [] rest over = tt
more_groups-Stops [] rest (colons s) = refl
more_groups-Stops (g ∷ gs) rest e = refl

-- The number that stands first, and what stands behind it.
group_colon : (s : Text) → read_number 16 4 65_536 true (b':' ∷ s) ≡ none
unfolding read_number to_digit
group_colon s = refl

module _ (k : ℕ) (first : Bool) (s : Text) where
  pub read_embedded-none :
      (s' : Text) → read_sep first s ≡ some s' → NoDot s' → read_embedded k first s ≡ none
  unfolding read_embedded
  read_embedded-none s' e h = ground (arith, NoDot-read_v4 s' h)

  stop_groups :
      read_embedded k first s ≡ none
      → read_group first s ≡ none
      → read_groups (suc k) first s ≡ ([], false, s)
  unfolding read_groups
  stop_groups e f = rw (e, f, read_groups)

  pub step_groups :
      (g : ℕ) (rest : Text) (gs : List ℕ) (b : Bool) (end : Text)
      → read_embedded k first s ≡ none
      → read_group first s ≡ some (g, rest)
      → read_groups k false rest ≡ (gs, b, end)
      → read_groups (suc k) first s ≡ (g ∷ gs, b, end)
  unfolding read_groups
  step_groups g rest gs b end e f h =
      rw (e, f, read_groups) (ap (λ (x : List ℕ × Bool × Text). (g ∷ x.0, x.1, x.2)) h)

read_embedded-nil : (k : ℕ) → read_embedded k false [] ≡ none
unfolding read_embedded read_sep read_char
read_embedded-nil zero = refl
read_embedded-nil (suc k) = refl

read_groups-End :
    (left : ℕ) (rest : Text) → End rest → read_groups left false rest ≡ ([], false, rest)
read_groups-End zero rest e = unfold read_groups in refl
read_groups-End (suc k) rest over =
    stop_groups k false [] (read_embedded-nil k) (unfold read_group read_sep read_char in refl)
read_groups-End (suc k) rest (colons s) =
    stop_groups k false (b':' ∷ b':' ∷ s)
      (read_embedded-none k false (b':' ∷ b':' ∷ s) (b':' ∷ s) (unfold read_sep read_char in refl)
        (inl refl))
      (unfold read_group read_sep read_char in group_colon s)

-- The groups behind the first are read up to the end.
read_more_groups :
    (gs : List ℕ) (left : ℕ) (rest : Text)
    → All (λ g. g < 65536) gs
    → length gs ≤ left
    → End rest
    → read_groups left false (more_groups gs ++ rest) ≡ (gs, false, rest)
unfolding more_groups
read_more_groups [] left rest h le e = read_groups-End left rest e
read_more_groups (g ∷ gs) zero rest h le e = absurd (omega arith)
read_more_groups (g ∷ gs) (suc k) rest (hg, h) le e =
    let s = more_groups gs ++ rest in
    rw (append_assoc (print_group g) (more_groups gs) rest) (
      step_groups k false (b':' ∷ (print_group g ++ s)) g s gs false rest
        (read_embedded-none k false _ (print_group g ++ s) (unfold read_sep read_char in refl)
          (print_group-NoDot g s (more_groups-NoDot gs rest e)))
        (unfold read_group read_sep read_char in
          read_group-print g s hg (more_groups-Stops gs rest e))
        (read_more_groups gs k rest h (omega arith) e))

print_groups-nil : print_groups [] ≡ []
unfolding print_groups
print_groups-nil = refl

pub read_no_groups :
    (left : ℕ) (rest : Text) → End rest → read_groups left true rest ≡ ([], false, rest)
read_no_groups zero rest e = unfold read_groups in refl
read_no_groups (suc k) rest over =
    stop_groups k true [] (read_embedded-none k true [] [] (unfold read_sep in refl) tt)
      (unfold read_group read_sep read_number in refl)
read_no_groups (suc k) rest (colons s) =
    stop_groups k true (b':' ∷ b':' ∷ s)
      (read_embedded-none k true (b':' ∷ b':' ∷ s) (b':' ∷ b':' ∷ s) (unfold read_sep in refl)
        (inl refl))
      (unfold read_group read_sep in group_colon (b':' ∷ s))

-- Printed groups are read back, up to the end.
pub read_groups-print :
    (gs : List ℕ) (left : ℕ) (rest : Text)
    → All (λ g. g < 65536) gs
    → length gs ≤ left
    → End rest
    → read_groups left true (print_groups gs ++ rest) ≡ (gs, false, rest)
read_groups-print [] left rest h le e = rw print_groups-nil (read_no_groups left rest e)
read_groups-print (g ∷ gs) zero rest h le e = absurd (omega arith)
read_groups-print (g ∷ gs) (suc k) rest (hg, h) le e =
    let s = more_groups gs ++ rest in
    rw (print_groups-cons g gs, append_assoc (print_group g) (more_groups gs) rest)
      (step_groups k true (print_group g ++ s) g s gs false rest
        (read_embedded-none k true _ (print_group g ++ s) (unfold read_sep in refl)
          (print_group-NoDot g s (more_groups-NoDot gs rest e)))
        (unfold read_group read_sep in read_group-print g s hg (more_groups-Stops gs rest e))
        (read_more_groups gs k rest h (omega arith) e))

pub print_groups-NoDot : (gs : List ℕ) (rest : Text) → End rest → NoDot (print_groups gs ++ rest)
print_groups-NoDot [] rest over = rw print_groups-nil tt
print_groups-NoDot [] rest (colons s) = rw print_groups-nil (inl refl)
print_groups-NoDot (g ∷ gs) rest e =
    rw (print_groups-cons g gs, append_assoc (print_group g) (more_groups gs) rest)
      (print_group-NoDot g _ (more_groups-NoDot gs rest e))
