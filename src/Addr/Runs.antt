-- ===== src/Addr/Runs.antt =====
-- The run of segments that `::` stands for is all zero.
use proxpulse_judge.Base.{
  ℕ, zero, suc, ◌+◌, ◌-◌, ◌≤◌, ◌<◌, ◌≡◌, refl, ap, ◌∙◌, Bool, true, false, ◌&&◌, some, List, [],
  ◌∷◌, ◌++◌, arith, ltb, ◌==◌, if◌then◌else◌, &&-true, length, get_elem?, take, drop, replicate,
}
use native.Mathlib.Decide.{dec_lt}
use proxpulse_judge.Addr.Print.{longest_run}

-- the `len` segments from `start` are zero
abbrev pub ZeroRun : List ℕ → ℕ → ℕ → Type 0
ZeroRun w start len = (j : ℕ) → start ≤ j → j < start + len → get_elem? w j ≡ some 0

grow :
    (w : List ℕ) (start len : ℕ)
    → ZeroRun w start len
    → get_elem? w (start + len) ≡ some 0
    → ZeroRun w start (len + 1)
grow w start len run next j le lt = elim (dec_lt j (start + len)) [
  | yes old ↦ run j le old
  | no new ↦ let e : j ≡ start + len = omega arith in rw e next
]

run_start :
    (w : List ℕ) (i start len : ℕ)
    → (0 < len → start + len ≡ i)
    → ZeroRun w start len
    → ((if len == 0 then i else start) + len ≡ i) × ZeroRun w (if len == 0 then i else start) len
run_start w i start zero here run = (omega arith, λ j le lt. absurd (omega arith))
run_start w i start (suc len) here run =
    let e : (suc len == 0) ≡ false = ground arith in rw e (here (omega arith), run)

grow_here :
    (w : List ℕ) (i now len s : ℕ)
    → now + len ≡ i
    → ZeroRun w now len
    → get_elem? w (i + 0) ≡ some s
    → (s == 0) ≡ true
    → ZeroRun w now (len + 1)
grow_here w i now len s at run next z =
    let e : now + len ≡ i + 0 = omega arith in
    let e' : s ≡ 0 = ground arith in grow w now len run (rw e (next ∙ ap some e'))

choose :
    (w : List ℕ) (b : Bool) (x y n m : ℕ)
    → (b ≡ true → ZeroRun w x n)
    → (b ≡ false → ZeroRun w y m)
    → ZeroRun w (if b then x else y) (if b then n else m)
choose w true x y n m h k = h refl
choose w false x y n m h k = k refl

current :
    (w : List ℕ) (b : Bool) (x n : ℕ)
    → (b ≡ true → ZeroRun w x n)
    → ZeroRun w x (if b then n else 0)
current w true x n h = h refl
current w false x n h = λ j le lt. absurd (omega arith)

ends :
    (b : Bool) (i now len : ℕ)
    → now + len ≡ i
    → 0 < (if b then len + 1 else 0)
    → now + (if b then len + 1 else 0) ≡ i + 1
ends true i now len e p = omega arith
ends false i now len e p = omega arith

-- The run that is found is all zero, if what was known of the segments before is.
pub longest_run-ZeroRun :
    (w segs : List ℕ) (i start len best best_len : ℕ)
    → ((j : ℕ) → get_elem? w (i + j) ≡ get_elem? segs j)
    → (0 < len → start + len ≡ i)
    → ZeroRun w start len
    → ZeroRun w best best_len
    → ZeroRun w
        (longest_run segs i start len best best_len).0
        (longest_run segs i start len best best_len).1
unfolding longest_run
longest_run-ZeroRun w [] i start len best best_len at here run best_run = best_run
longest_run-ZeroRun w (s ∷ segs) i start len best best_len at here run best_run =
    let now : ℕ = (if len == 0 then i else start) in
    let longer : Bool = s == 0 && ltb best_len (len + 1) in
    let (stop, old) = run_start w i start len here run in
    let grown = grow_here w i now len s stop old (at 0) in
    longest_run-ZeroRun w segs (i + 1) now (if s == 0 then len + 1 else 0)
      (if longer then now else best) (if longer then len + 1 else best_len)
      (λ j. ap (get_elem? w) (omega arith) ∙ at (suc j)) (ends (s == 0) i now len stop)
      (current w (s == 0) now (len + 1) grown)
      (choose w longer now best (len + 1) best_len (λ h. grown (&&-true (s == 0) _ h).0)
        (λ _. best_run))

get_elem?-lt : (xs : List ℕ) (i : ℕ) {x : ℕ} → get_elem? xs i ≡ some x → i < length xs
get_elem?-lt [] i h = cc
get_elem?-lt (x ∷ xs) zero h = omega arith
get_elem?-lt (x ∷ xs) (suc i) h = omega (arith, get_elem?-lt xs i h)

-- A run of zeros that is not empty lies inside the list, which is the parts before and behind it
-- and the zeros.
pub ZeroRun-le :
    (w : List ℕ) (start len : ℕ) → ZeroRun w start len → 0 < len → start + len ≤ length w
ZeroRun-le w start len run pos =
    omega
      (arith, get_elem?-lt w (start + len - 1) (run (start + len - 1) (omega arith) (omega arith)))

pub ZeroRun-splits :
    (w : List ℕ) (start len : ℕ)
    → ZeroRun w start len
    → start + len ≤ length w
    → take start w ++ (replicate len 0 ++ drop (start + len) w) ≡ w
ZeroRun-splits w zero zero run le = refl
ZeroRun-splits [] zero (suc len) run le = absurd (omega arith)
ZeroRun-splits (x ∷ w) zero (suc len) run le =
    let e : 0 + suc len ≡ suc (0 + len) = omega arith in
    let first : some x ≡ some 0 = run 0 (omega arith) (omega arith) in
    let rest =
      ZeroRun-splits w zero len (λ j h lt. run (suc j) (omega arith) (omega arith)) (omega arith) in
    rw e (cc (first, rest))
ZeroRun-splits [] (suc start) len run le = absurd (omega arith)
ZeroRun-splits (x ∷ w) (suc start) len run le =
    let e : suc start + len ≡ suc (start + len) = omega arith in
    rw e (
      ap (λ t. x ∷ t)
        (ZeroRun-splits w start len (λ j h lt. run (suc j) (omega arith) (omega arith))
          (omega arith)))
