-- ===== src/Str/Laws.antt =====
-- Laws of `split`, `trim` and `join`.
use proxpulse_judge.Base.{
  ℕ, Bool, true, false, not, ◌≡◌, ◌≢◌, inl, inr, refl, List, [], ◌∷◌, ◌++◌, arith, Text, any,
  retain, Bool-cases, All,
}
use proxpulse_judge.Str.Basic.{
  trim, trim_start_matches, trim_end_matches, is_whitespace, split, push_char,
}

pub split-ne-nil : (p : ℕ → Bool) (s : Text) → split p s ≢ []
unfolding split push_char
split-ne-nil p [] e = ground arith
split-ne-nil p (c ∷ s) e = ground arith

push_char-append : (c : ℕ) (l m : List Text) → l ≢ [] → push_char c (l ++ m) ≡ push_char c l ++ m
unfolding push_char
push_char-append c [] m h = absurd (h refl)
push_char-append c (t ∷ l) m h = refl

-- A separator cuts a text in two, whose parts are split on their own.
pub split-append :
    (p : ℕ → Bool) (a b : Text) (c : ℕ)
    → p c ≡ true
    → split p (a ++ (c ∷ b)) ≡ split p a ++ split p b
unfolding split
split-append p [] b c h = rw h refl
split-append p (d ∷ a) b c h = elim (Bool-cases (p d)) [
  | inl e ↦ rw (e, split-append p a b c h) refl
  | inr e ↦
      rw (e, split-append p a b c h) (push_char-append d (split p a) (split p b) (split-ne-nil p a))
]

pub split_whole : (p : ℕ → Bool) (s : Text) → any p s ≡ false → split p s ≡ s ∷ []
unfolding split push_char
split_whole p [] h = refl
split_whole p (c ∷ s) h = ground (arith, split_whole p s)

push_char-lacks :
    (p : ℕ → Bool) (c : ℕ) (l : List Text)
    → p c ≡ false
    → All (λ t. any p t ≡ false) l
    → All (λ t. any p t ≡ false) (push_char c l)
unfolding push_char
push_char-lacks p c [] e h = ground arith
push_char-lacks p c (t ∷ l) e (h, hs) = (ground arith, hs)

-- no part holds a separator
pub split-lacks : (p : ℕ → Bool) (s : Text) → All (λ t. any p t ≡ false) (split p s)
unfolding split
split-lacks p [] = (refl, tt)
split-lacks p (c ∷ s) = elim (Bool-cases (p c)) [
  | inl e ↦ rw e (refl, split-lacks p s)
  | inr e ↦ rw e (push_char-lacks p c (split p s) e (split-lacks p s))
]

module _ {A : Type 0} where
  pub retain-append :
      (p : A → Bool) (xs ys : List A) → retain p (xs ++ ys) ≡ retain p xs ++ retain p ys
  retain-append p [] ys = refl
  retain-append p (x ∷ xs) ys = ground (arith, retain-append p xs ys)

trim_start-any :
    (p q : ℕ → Bool) (s : Text) → any p s ≡ false → any p (trim_start_matches q s) ≡ false
unfolding trim_start_matches
trim_start-any p q [] h = refl
trim_start-any p q (c ∷ s) h = ground (arith, trim_start-any p q s)

trim_end-any : (p q : ℕ → Bool) (s : Text) → any p s ≡ false → any p (trim_end_matches q s) ≡ false
unfolding trim_end_matches
trim_end-any p q [] h = refl
trim_end-any p q (c ∷ s) h = ground (arith, trim_end-any p q s)

pub trim-any : (p : ℕ → Bool) (s : Text) → any p s ≡ false → any p (trim s) ≡ false
unfolding trim
trim-any p s h = trim_end-any p is_whitespace _ (trim_start-any p is_whitespace s h)

-- Trimming an end of a text that was trimmed at both changes nothing.
trim_end_idem :
    (q : ℕ → Bool) (s : Text) → trim_end_matches q (trim_end_matches q s) ≡ trim_end_matches q s
unfolding trim_end_matches
trim_end_idem q [] = refl
trim_end_idem q (c ∷ s) = ground (arith, trim_end_idem q s)

abbrev starts_outside : (ℕ → Bool) → Text → Bool
starts_outside q [] = true
starts_outside q (c ∷ s) = not (q c)

trim_start-outside : (q : ℕ → Bool) (s : Text) → starts_outside q (trim_start_matches q s) ≡ true
unfolding trim_start_matches
trim_start-outside q [] = refl
trim_start-outside q (c ∷ s) = ground (arith, trim_start-outside q s)

trim_end-outside :
    (q : ℕ → Bool) (s : Text)
    → starts_outside q s ≡ true
    → starts_outside q (trim_end_matches q s) ≡ true
unfolding trim_end_matches
trim_end-outside q [] h = refl
trim_end-outside q (c ∷ s) h = ground arith

trim_start_fixed :
    (q : ℕ → Bool) (s : Text) → starts_outside q s ≡ true → trim_start_matches q s ≡ s
unfolding trim_start_matches
trim_start_fixed q [] h = refl
trim_start_fixed q (c ∷ s) h = ground arith

pub trim_idem : (s : Text) → trim (trim s) ≡ trim s
unfolding trim
trim_idem s =
    let t = trim_start_matches is_whitespace s in
    rw
      (trim_start_fixed is_whitespace (trim_end_matches is_whitespace t)
        (trim_end-outside is_whitespace t (trim_start-outside is_whitespace s)))
      (trim_end_idem is_whitespace t)

-- White space in front is trimmed.
pub trim-space : (s : Text) → trim (b' ' ∷ s) ≡ trim s
unfolding trim trim_start_matches is_whitespace
trim-space s = refl
