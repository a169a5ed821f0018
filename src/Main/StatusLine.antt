-- ===== src/Main/StatusLine.antt =====
-- src/main.rs: what the health check makes of the first line of a response.
use proxpulse_judge.Base.{
  ℕ, ◌+◌, ◌≤◌, ◌≡◌, refl, sym, ap, ◌∙◌, ◌||◌, not, Bool, true, false, some, [], ◌∷◌, ◌++◌,
  append_assoc, arith, ◌==◌, length, is_empty, any, retain, Text, Bytes,
}
use proxpulse_judge.Str.Basic.{is_whitespace, split_once}
use proxpulse_judge.Str.Laws.{split-append, split_whole}
use proxpulse_judge.Main.Health.{has_crlf, drop_cr, line_of, first_line, words, second_word}

abbrev pub crlf : Bytes → Bytes
crlf rest = 13 ∷ 10 ∷ rest

abbrev pub is_break : ℕ → Bool
is_break c = c == 10 || c == 13

-- `split_once` at the first place where the character stands
split_once-at :
    (c : ℕ) (a b : Text) → any (λ d. d == c) a ≡ false → split_once c (a ++ (c ∷ b)) ≡ some (a, b)
unfolding split_once
split_once-at c [] b h = ground arith
split_once-at c (d ∷ a) b h = ground (arith, split_once-at c a b)

drop_cr-append : (s : Text) → drop_cr (s ++ 13 ∷ []) ≡ s
unfolding drop_cr
drop_cr-append [] = refl
drop_cr-append (c ∷ []) = refl
drop_cr-append (c ∷ d ∷ s) = ap (λ t. c ∷ t) (drop_cr-append (d ∷ s))

no_feed : (s : Text) → any is_break s ≡ false → any (λ d. d == 10) (s ++ 13 ∷ []) ≡ false
no_feed [] h = refl
no_feed (c ∷ s) h = ground (arith, no_feed s)

pub first_line-crlf :
    (line rest : Text) → any is_break line ≡ false → first_line (line ++ crlf rest) ≡ some line
unfolding first_line
first_line-crlf [] rest h = unfold split_once drop_cr in refl
first_line-crlf (c ∷ s) rest h =
    ap (λ o. some (line_of (c ∷ (s ++ crlf rest)) o))
      (ap (split_once 10) (sym (append_assoc (c ∷ s) (13 ∷ []) (10 ∷ rest)))
        ∙ split_once-at 10 ((c ∷ s) ++ 13 ∷ []) rest (no_feed (c ∷ s) h))
    ∙ ap some (unfold line_of in drop_cr-append (c ∷ s))

-- The line of a response, in words: version, code and whatever comes after a space.
abbrev pub status_line : Text → Text → Text → Text
status_line version code reason = version ++ (b' ' ∷ (code ++ (b' ' ∷ reason)))

keep_word : (w : Text) → is_empty w ≡ false → retain (λ w. not (is_empty w)) (w ∷ []) ≡ w ∷ []
keep_word w h = rw h refl

pub second_word-status :
    (version code reason : Text)
    → is_empty version ≡ false
    → is_empty code ≡ false
    → any is_whitespace version ≡ false
    → any is_whitespace code ≡ false
    → second_word (some (status_line version code reason)) ≡ some code
unfolding second_word words
second_word-status version code reason v c sv sc =
    rw
      (
        split-append is_whitespace version (code ++ (b' ' ∷ reason)) b' '
            (unfold is_whitespace in refl),
        split_whole is_whitespace version sv,
        split-append is_whitespace code reason b' ' (unfold is_whitespace in refl),
        split_whole is_whitespace code sc,
      )
      (rw (v, c) refl)

-- A list of the bytes at the start of another holds its first part, if it is long enough.
pub starts : (a b l m : Bytes) → a ++ b ≡ l ++ m → length l ≤ length a → (c : Bytes) × (a ≡ l ++ c)
starts a b [] m e le = (a, refl)
starts [] b (x ∷ l) m e le = absurd (omega arith)
starts (y ∷ a) b (x ∷ l) m e le = let (c, same) = starts a b l m (cc) (omega arith) in (c, cc)

-- A line end is not found before the end of the line.
pub crlf_late :
    (a b line rest : Bytes)
    → any (λ c. c == 13) line ≡ false
    → a ++ b ≡ line ++ crlf rest
    → has_crlf a ≡ true
    → length line + 2 ≤ length a
unfolding has_crlf
crlf_late [] b line rest n e h = absurd (ground arith)
crlf_late (x ∷ []) b line rest n e h = absurd (ground arith)
crlf_late (x ∷ y ∷ a) b [] rest n e h = omega arith
crlf_late (x ∷ y ∷ a) b (c ∷ line) rest n e h =
    let step : y ∷ (a ++ b) ≡ line ++ crlf rest = cc in
    let other = crlf_late (y ∷ a) b line rest (ground arith) step in
    let same : x ≡ c = cc in
    let later : has_crlf (y ∷ a) ≡ true = ground (arith, n, same, h) in omega (arith, other later)
