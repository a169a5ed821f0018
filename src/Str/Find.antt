-- ===== src/Str/Find.antt =====
-- `str::match_indices`, with the text before and after each match, and the search for a word that
-- stands alone. The scan goes on behind each match, so matches do not overlap.
use proxpulse_judge.Base.{
  ℕ, zero, suc, ◌+◌, ◌-◌, ◌≤◌, ◌<◌, Bool, true, false, not, ◌&&◌, ◌||◌, ◌≡◌, refl, sym, ap, ◌∙◌,
  inl, inr, Option, some, List, [], ◌∷◌, ◌++◌, append_assoc, arith, if◌then◌else◌, Text, length,
  drop, is_empty, any, all, head?, last?, Bool-cases, unwrap_or, map_option, ||-true,
}
use mathlib.Core.Bool.{true≢false}
use native.Mathlib.Decide.{dec_le}
use proxpulse_judge.Str.Basic.{starts_with}

-- What was read is kept last character first; `skip` characters belong to the last match.
unfoldable pub match_indices : Text → Text → ℕ → Text → List (Text × Text)
unfolding starts_with
match_indices n pre zero [] = if is_empty n then (pre, []) ∷ [] else []
match_indices n pre (suc k) [] = []
match_indices n pre (suc k) (c ∷ s) = match_indices n (c ∷ pre) k s
match_indices n pre zero (c ∷ s) =
    let found = starts_with n (c ∷ s) in
    let rest = match_indices n (c ∷ pre) (if found then length n - 1 else 0) s in
    if found then (pre, drop (length n) (c ∷ s)) ∷ rest else rest

-- `before.map(f).unwrap_or(false)`
abbrev pub passes : (ℕ → Bool) → Option ℕ → Bool
passes p c = unwrap_or (map_option p c) false

abbrev pub is_alone : (ℕ → Bool) → Text × Text → Bool
is_alone p (pre, post) = not (passes p (head? pre)) && not (passes p (head? post))

unfoldable pub find_alone : (ℕ → Bool) → Text → Text → Bool
unfolding match_indices
find_alone p n s = any (is_alone p) (match_indices n [] 0 s)

-- `n` occurs in `s` with no character of `p` beside it.
pub record Alone (p : ℕ → Bool) (n s : Text) : Type 0 where
  pub before : Text
  pub after : Text
  pub splits : s ≡ before ++ (n ++ after)
  pub left : passes p (last? before) ≡ false
  pub right : passes p (head? after) ≡ false

-- The character before a position, `q` being the text read since `pre`.
abbrev edge : Text → Text → Option ℕ
edge pre [] = head? pre
edge pre (c ∷ q) = edge (c ∷ pre) q

edge-cons : (pre q : Text) (c : ℕ) → edge pre (c ∷ q) ≡ last? (c ∷ q)
edge-cons pre [] c = refl
edge-cons pre (d ∷ q) c = edge-cons (c ∷ pre) q d

edge-nil : (q : Text) → edge [] q ≡ last? q
edge-nil [] = refl
edge-nil (c ∷ q) = edge-cons [] q c

starts_with-append : (n post : Text) → starts_with n (n ++ post) ≡ true
unfolding starts_with
starts_with-append [] post = refl
starts_with-append (c ∷ n) post = ground (arith, starts_with-append n post)

drop-append : (n post : Text) → drop (length n) (n ++ post) ≡ post
drop-append [] post = refl
drop-append (c ∷ n) post = drop-append n post

starts_with-splits : (n s : Text) → starts_with n s ≡ true → s ≡ n ++ drop (length n) s
unfolding starts_with
starts_with-splits [] s h = refl
starts_with-splits (c ∷ n) [] h = ground arith
starts_with-splits (c ∷ n) (d ∷ s) h = ground (arith, starts_with-splits n s)

-- A match that reaches past `q` holds the last character of `q`.
overlap_edge :
    (p : ℕ → Bool) (n q r : Text) (c : ℕ)
    → all p n ≡ true
    → starts_with n (c ∷ (q ++ r)) ≡ true
    → length q < length n - 1 + 0
    → passes p (last? (c ∷ q)) ≡ true
unfolding starts_with
overlap_edge p [] q r c h m lt = absurd (omega arith)
overlap_edge p (d ∷ n) [] r c h m lt = ground arith
overlap_edge p (d ∷ n) (e ∷ q) r c h m lt =
    overlap_edge p n q r e (ground arith) (ground arith) (omega arith)

or_right : (a b : Bool) → b ≡ true → (a || b) ≡ true
or_right a b h = ground arith

skip_fits :
    (p : ℕ → Bool) (n pre q r : Text) (c : ℕ)
    → all p n ≡ true
    → passes p (edge pre (c ∷ q)) ≡ false
    → starts_with n (c ∷ (q ++ r)) ≡ true
    → length n - 1 ≤ length q
skip_fits p n pre q r c h l m = elim (dec_le (length n - 1) (length q)) [
  | yes fits ↦ fits
  | no past ↦ absurd (
      true≢false (
        sym (overlap_edge p n q r c h m (omega arith))
        ∙ ap (passes p) (sym (edge-cons pre q c))
        ∙ l))
]

-- Whatever is alone behind the skipped characters is found.
scan_complete :
    (p : ℕ → Bool) (n pre : Text) (k : ℕ) (q post : Text)
    → all p n ≡ true
    → is_empty n ≡ false
    → k ≤ length q
    → passes p (edge pre q) ≡ false
    → passes p (head? post) ≡ false
    → any (is_alone p) (match_indices n pre k (q ++ (n ++ post))) ≡ true
unfolding match_indices
scan_complete p n pre (suc k) [] post h ne le l r = absurd (omega arith)
scan_complete p n pre (suc k) (c ∷ q) post h ne le l r =
    scan_complete p n (c ∷ pre) k q post h ne (omega arith) l r
scan_complete p [] pre zero q post h ne le l r = ground arith
scan_complete p (d ∷ n) pre zero [] post h ne le l r =
    rw (starts_with-append (d ∷ n) post, drop-append n post) (ground arith)
scan_complete p (d ∷ n) pre zero (c ∷ q) post h ne le l r =
    elim (Bool-cases (starts_with (d ∷ n) (c ∷ (q ++ (d ∷ n ++ post))))) [
      | inl e ↦ rw e (
          or_right _ _ (
            scan_complete p (d ∷ n) (c ∷ pre) (length (d ∷ n) - 1) q post h ne
              (skip_fits p (d ∷ n) pre q (d ∷ n ++ post) c h l e) l r))
      | inr e ↦ rw e (scan_complete p (d ∷ n) (c ∷ pre) 0 q post h ne (omega arith) l r)
    ]

-- A word of `p` characters that stands alone is found.
pub find_alone_complete :
    (p : ℕ → Bool) (n s : Text)
    → all p n ≡ true
    → is_empty n ≡ false
    → Alone p n s
    → find_alone p n s ≡ true
unfolding find_alone
find_alone_complete p n s h ne w = rw w.splits (
    scan_complete p n [] 0 w.before w.after h ne (omega arith)
      (ap (passes p) (edge-nil w.before) ∙ w.left) w.right)

-- The text read so far, put back in front.
abbrev rev_append : Text → Text → Text
rev_append [] s = s
rev_append (c ∷ pre) s = rev_append pre (c ∷ s)

IsMatch : (ℕ → Bool) → Text → Text → Type 0
IsMatch p n s = (m : Text × Text) × (is_alone p m ≡ true) × (rev_append m.0 (n ++ m.1) ≡ s)

scan_sound :
    (p : ℕ → Bool) (n pre : Text) (k : ℕ) (s : Text)
    → is_empty n ≡ false
    → any (is_alone p) (match_indices n pre k s) ≡ true
    → IsMatch p n (rev_append pre s)
unfolding match_indices IsMatch
scan_sound p n pre zero [] ne h = ground arith
scan_sound p n pre (suc k) [] ne h = ground arith
scan_sound p n pre (suc k) (c ∷ s) ne h = scan_sound p n (c ∷ pre) k s ne h
scan_sound p n pre zero (c ∷ s) ne h = elim (Bool-cases (starts_with n (c ∷ s))) [
  | inl e ↦ elim (||-true _ _ (rw e at h)) [
    | inl here ↦ (
      (pre, drop (length n) (c ∷ s)),
      here,
      ap (rev_append pre) (sym (starts_with-splits n (c ∷ s) e)),
    )
    | inr later ↦ scan_sound p n (c ∷ pre) (length n - 1) s ne later
  ]
  | inr e ↦ scan_sound p n (c ∷ pre) 0 s ne (rw e at h)
]

rev_append-eq : (pre s : Text) → rev_append pre s ≡ rev_append pre [] ++ s
rev_append-eq [] s = refl
rev_append-eq (c ∷ pre) s = rw (rev_append-eq pre (c ∷ s), rev_append-eq pre (c ∷ []), append_assoc)

last?-append : (s : Text) (c : ℕ) → last? (s ++ c ∷ []) ≡ some c
last?-append [] c = refl
last?-append (d ∷ []) c = refl
last?-append (d ∷ e ∷ s) c = last?-append (e ∷ s) c

last?-rev_append : (pre : Text) → last? (rev_append pre []) ≡ head? pre
last?-rev_append [] = refl
last?-rev_append (c ∷ pre) = rw (rev_append-eq pre (c ∷ [])) (last?-append (rev_append pre []) c)

not_passes :
    (p : ℕ → Bool) (pre post : Text)
    → is_alone p (pre, post) ≡ true
    → (passes p (head? pre) ≡ false) × (passes p (head? post) ≡ false)
not_passes p pre post h = ground arith

-- What is found stands alone.
pub find_alone_sound :
    (p : ℕ → Bool) (n s : Text) → is_empty n ≡ false → find_alone p n s ≡ true → Alone p n s
unfolding find_alone IsMatch
find_alone_sound p n s ne h =
    let (m, alone, splits) = scan_sound p n [] 0 s ne h in
    record {
      before = rev_append m.0 [];
      after = m.1;
      splits = sym splits ∙ rev_append-eq m.0 (n ++ m.1);
      left = ap (passes p) (last?-rev_append m.0) ∙ (not_passes p m.0 m.1 alone).0;
      right = (not_passes p m.0 m.1 alone).1;
    }
