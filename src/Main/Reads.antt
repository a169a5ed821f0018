-- ===== src/Main/Reads.antt =====
-- src/main.rs: the loop in which the health check reads.
use proxpulse_judge.Base.{
  ℕ, zero, suc, ◌+◌, ◌-◌, ◌≤◌, ◌<◌, ◌≡◌, ◌⊎◌, inl, inr, refl, ap, ◌∙◌, true, false, Option, none,
  some, [], ◌∷◌, ◌++◌, arith, leb, length, length-append, take, is_empty, unwrap_or, Bytes,
  Bool-cases,
}
use proxpulse_judge.Main.Health.{
  buf_size, max_response, has_crlf, read_buf, read_loop, enough_reads,
}

-- What the first `n` reads brought.
unfoldable pub received : (ℕ → Option Bytes) → ℕ → Bytes
unfolding read_buf
received read zero = []
received read (suc n) = received read n ++ read_buf (read n)

-- Why the loop ends with `r`, after its first `n` reads.
pub record Ended (read : ℕ → Option Bytes) (r : Bytes) : Type 0 where
  pub reads : ℕ
  pub is_received : r ≡ received read reads
  pub reason :
      (max_response ≤ length r) ⊎ (is_empty (read_buf (read reads)) ≡ true) ⊎ (has_crlf r ≡ true)

length-take : (n : ℕ) (xs : Bytes) → length (take n xs) ≤ n
length-take zero xs = omega arith
length-take (suc n) [] = omega arith
length-take (suc n) (x ∷ xs) = omega (arith, length-take n xs)

length-read_buf : (r : Option Bytes) → length (read_buf r) ≤ 256
unfolding read_buf
length-read_buf r = length-take 256 (unwrap_or r [])

filled : (xs : Bytes) → is_empty xs ≡ false → 1 ≤ length xs
filled [] h = ground arith
filled (x ∷ xs) h = omega arith

-- What a run of the loop gives.
abbrev pub Ends : (ℕ → Option Bytes) → Option Bytes → Type 0
Ends read none = ⊥
Ends read (some r) = Ended read r × (length r < max_response + buf_size)

one_more : (i : ℕ) → suc i ≡ i + 1
one_more i = omega arith

enough : (a b : ℕ) → leb a b ≡ true → a ≤ b
enough a b h = ground arith

fewer : (a b : ℕ) → leb a b ≡ false → b < a
fewer a b h = ground arith

add_one :
    (read : ℕ → Option Bytes) (i : ℕ) (resp : Bytes)
    → resp ≡ received read i
    → resp ++ read_buf (read i) ≡ received read (i + 1)
unfolding received
add_one read i resp e = ap (λ s. s ++ read_buf (read i)) e ∙ ap (received read) (one_more i)

module _ (read : ℕ → Option Bytes) where
  read_loop-Ends :
      (fuel i : ℕ) (resp : Bytes)
      → resp ≡ received read i
      → max_response - length resp < fuel
      → length resp < max_response + buf_size
      → Ends read (read_loop read fuel i resp)
  unfolding read_loop
  read_loop-Ends zero i resp e more short = absurd (omega arith)
  read_loop-Ends (suc fuel) i resp e more short =
      elim (Bool-cases (leb max_response (length resp))) [
        | inl long ↦
            rw long (record { reads = i; is_received = e; reason = inl (enough _ _ long) }, short)
        | inr few ↦ elim (Bool-cases (is_empty (read_buf (read i)))) [
          | inl gone ↦
              rw (few, gone) (record { reads = i; is_received = e; reason = inr (inl gone) }, short)
          | inr got ↦
              let few_yet = fewer max_response (length resp) few in
              let more_got = filled (read_buf (read i)) got in
              let little = length-read_buf (read i) in
              let long = length-append resp (read_buf (read i)) in
              let next = add_one read i resp e in
              elim (Bool-cases (has_crlf (resp ++ read_buf (read i)))) [
                | inl line ↦
                    rw (few, got, line)
                      (
                        record { reads = i + 1; is_received = next; reason = inr (inr line) },
                        omega arith,
                      )
                | inr no_line ↦
                    rw (few, got, no_line)
                      (read_loop-Ends fuel (i + 1) (resp ++ read_buf (read i)) next (omega arith)
                        (omega arith))
              ]
        ]
      ]

some_of :
    (read : ℕ → Option Bytes) (o : Option Bytes)
    → Ends read o
    → (r : Bytes) × (o ≡ some r) × Ended read r × (length r < max_response + buf_size)
some_of read none h = absurd h
some_of read (some r) h = (r, refl, h.0, h.1)

-- Whatever the peer sends, and however it is cut into reads, the loop ends within 1025 rounds, with
-- what some first reads brought, fewer than 1280 bytes: with 1024 bytes or more, before a read of
-- nothing, or with a line end.
pub read_loop-ends :
    (read : ℕ → Option Bytes)
    → (r : Bytes) × (read_loop read enough_reads 0 [] ≡ some r)
      × Ended read r
      × (length r < max_response + buf_size)
unfolding received
read_loop-ends read =
    some_of read (read_loop read enough_reads 0 [])
      (read_loop-Ends read enough_reads 0 [] refl (omega arith) (omega arith))
