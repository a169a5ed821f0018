-- ===== src/RateLimit/Product.antt =====
-- src/ratelimit.rs: the shared limiter over a list of requests, and one bucket for each key as its
-- specification.
use proxpulse_judge.Base.{
  ℕ, inl, inr, ◌≡◌, ◌≢◌, refl, sym, ap, subst, ◌∙◌, Option, none, some, List, [], ◌∷◌,
  if◌then◌else◌, Text, text_eq, text_eq_iff, Bool-cases,
}
use mathlib.Core.Bool.{true≢false}
use proxpulse_judge.Float.{F64}
use proxpulse_judge.Cache.{Cache, Keeps}
use proxpulse_judge.RateLimit.Basic.{
  TokenBucket, RateLimit, check_limit, new_bucket, new_limit, bucket_key, check,
}
use proxpulse_judge.RateLimit.Clients.{
  bucket_of, IsValid, bucket_or_new, check-IsValid, check-after, after, after_own, after_other,
  after-per_minute, new_limit-IsValid, new_limit-bucket_of,
}

-- A request: the client's address, and the two readings of the clock.
pub record Arrival : Type 0 where
  pub ip : Text
  pub made : ℕ
  pub now : ℕ

-- The requests whose address has the key.
abbrev pub of_key : Text → List Arrival → List Arrival
of_key k [] = []
of_key k (a ∷ reqs) =
    let rest = of_key k reqs in if text_eq (bucket_key a.ip) k then a ∷ rest else rest

module _ (X : F64) where
  -- A client's bucket where it has one, or a full one.
  abbrev pub bucket_at : Option (TokenBucket X) → ℕ → ℕ → TokenBucket X
  bucket_at (some b) limit made = b
  bucket_at none limit made = new_bucket X limit made

  -- What one bucket, made at the first request, answers to a list of requests.
  abbrev pub alone : ℕ → Option (TokenBucket X) → List Arrival → List (Option ℕ)
  alone limit o [] = []
  alone limit o (a ∷ reqs) =
      let (b, answer) = check_limit X (bucket_at o limit a.made) a.now limit in
      answer ∷ alone limit (some b) reqs

module _ (X : F64) (C : Cache ℕ) where
  -- The limiter after a list of requests.
  unfoldable pub run_all : RateLimit X C → List Arrival → RateLimit X C
  run_all r [] = r
  run_all r (a ∷ reqs) = run_all (check X C r a.ip a.made a.now).0 reqs

  -- A run of the limiter over all requests, and its answers to those with the key.
  unfoldable pub answers_to : Text → RateLimit X C → List Arrival → List (Option ℕ)
  answers_to k r [] = []
  answers_to k r (a ∷ reqs) =
      let rest = answers_to k (check X C r a.ip a.made a.now).0 reqs in
      if text_eq (bucket_key a.ip) k then (check X C r a.ip a.made a.now).1 ∷ rest else rest

  bucket_or_new-at :
      (r : RateLimit X C) (k : Text) (made : ℕ)
      → bucket_or_new X C r k made ≡ bucket_at X (bucket_of X C r k) r.per_minute made
  bucket_or_new-at r k made =
      elim (bucket_of X C r k)
        as (λ o.
          (elim o [ some b ↦ b | none ↦ new_bucket X r.per_minute made ])
          ≡ bucket_at X o r.per_minute made) [ none ↦ refl | some b ↦ refl ]

  -- The limiter after a request, with a name of its own.
  abbrev next : RateLimit X C → Arrival → RateLimit X C
  next r a = after X C r (bucket_key a.ip) a.made a.now

  next-IsValid :
      (r : RateLimit X C) (a : Arrival) → IsValid X C r → r.per_minute ≢ 0 → IsValid X C (next r a)
  next-IsValid r a v on =
      subst (λ (p : RateLimit X C × Option ℕ). IsValid X C p.0)
        (check-after X C r a.ip a.made a.now v on) (check-IsValid X C r a.ip a.made a.now v)

  next-on : (r : RateLimit X C) (a : Arrival) → r.per_minute ≢ 0 → (next r a).per_minute ≢ 0
  next-on r a on z = on (sym (after-per_minute X C r (bucket_key a.ip) a.made a.now) ∙ z)

  run_all-IsValid :
      (r : RateLimit X C) (reqs : List Arrival)
      → IsValid X C r
      → r.per_minute ≢ 0
      → IsValid X C (run_all r reqs) × ((run_all r reqs).per_minute ≡ r.per_minute)
  unfolding run_all
  run_all-IsValid r [] v on = (v, refl)
  run_all-IsValid r (a ∷ reqs) v on =
      let (w, same) = run_all-IsValid (next r a) reqs (next-IsValid r a v on) (next-on r a on) in
      subst (λ r'. IsValid X C (run_all r' reqs) × ((run_all r' reqs).per_minute ≡ r.per_minute))
        (sym
          (ap (λ (p : RateLimit X C × Option ℕ). p.0) (check-after X C r a.ip a.made a.now v on)))
        (w, same ∙ after-per_minute X C r (bucket_key a.ip) a.made a.now)

  -- While limits are on and the cache drops nothing, after any earlier requests: the answer is that
  -- of `check_limit` at the bucket of the client's key, or at a full one if it has none, the
  -- client's own bucket is then the one that `check_limit` leaves, and the bucket of another key is
  -- what it was.
  pub check_isolated :
      (limit : ℕ) (earlier : List Arrival) (ip other : Text) (made now : ℕ)
      → Keeps C
      → limit ≢ 0
      → other ≢ bucket_key ip
      → let r = run_all (new_limit X C limit) earlier in
        ((check X C r ip made now).1
          ≡ (check_limit X (bucket_or_new X C r (bucket_key ip) made) now limit).1)
        × (bucket_of X C (check X C r ip made now).0 (bucket_key ip)
            ≡ some (check_limit X (bucket_or_new X C r (bucket_key ip) made) now limit).0)
        × (bucket_of X C (check X C r ip made now).0 other ≡ bucket_of X C r other)
  unfolding new_limit
  check_isolated limit earlier ip other made now keeps on apart =
      let r = run_all (new_limit X C limit) earlier in
      let (v, same) =
        run_all-IsValid (new_limit X C limit) earlier (new_limit-IsValid X C limit) on in
      rw (check-after X C r ip made now v (λ z. on (sym same ∙ z))) (
        ap (λ n. (check_limit X (bucket_or_new X C r (bucket_key ip) made) now n).1) same,
        after_own X C r (bucket_key ip) made now v keeps
            ∙ ap (λ n. some (check_limit X (bucket_or_new X C r (bucket_key ip) made) now n).0)
                same,
        after_other X C r (bucket_key ip) made now v keeps other apart,
      )

  own :
      (r : RateLimit X C) (a : Arrival) (reqs : List Arrival) (xs : List (Option ℕ))
      → Keeps C
      → IsValid X C r
      → xs ≡ alone X (next r a).per_minute (bucket_of X C (next r a) (bucket_key a.ip)) reqs
      → (check_limit X (bucket_or_new X C r (bucket_key a.ip) a.made) a.now r.per_minute).1 ∷ xs
        ≡ alone X r.per_minute (bucket_of X C r (bucket_key a.ip)) (a ∷ reqs)
  own r a reqs xs keeps v h =
      rw
        (
          h,
          after_own X C r (bucket_key a.ip) a.made a.now v keeps,
          after-per_minute X C r (bucket_key a.ip) a.made a.now,
          bucket_or_new-at r (bucket_key a.ip) a.made,
        )
        refl

  step :
      (k : Text) (r : RateLimit X C) (a : Arrival) (reqs : List Arrival) (xs : List (Option ℕ))
      → Keeps C
      → IsValid X C r
      → xs ≡ alone X (next r a).per_minute (bucket_of X C (next r a) k) (of_key k reqs)
      → (if text_eq (bucket_key a.ip) k
          then (check_limit X (bucket_or_new X C r (bucket_key a.ip) a.made) a.now r.per_minute).1
            ∷ xs
          else xs)
        ≡ alone X r.per_minute (bucket_of X C r k) (of_key k (a ∷ reqs))
  step k r a reqs xs keeps v h = elim (Bool-cases (text_eq (bucket_key a.ip) k)) [
    | inl e ↦
        let same = (text_eq_iff (bucket_key a.ip) k).0 e in
        rw e (
          subst
            (λ j.
              (check_limit X (bucket_or_new X C r (bucket_key a.ip) a.made) a.now r.per_minute).1
                ∷ xs
              ≡ alone X r.per_minute (bucket_of X C r j) (a ∷ of_key k reqs))
            same
            (own r a (of_key k reqs) xs keeps v (
              subst
                (λ j.
                  xs ≡ alone X (next r a).per_minute (bucket_of X C (next r a) j) (of_key k reqs))
                (sym same) h)))
    | inr e ↦ rw e (
        h
        ∙ ap (λ n. alone X n (bucket_of X C (next r a) k) (of_key k reqs))
            (after-per_minute X C r (bucket_key a.ip) a.made a.now)
        ∙ ap (λ o. alone X r.per_minute o (of_key k reqs))
            (after_other X C r (bucket_key a.ip) a.made a.now v keeps k
              (λ same. true≢false (sym ((text_eq_iff (bucket_key a.ip) k).1 (sym same)) ∙ e))))
  ]

  answers_to-general :
      (k : Text) (r : RateLimit X C) (reqs : List Arrival)
      → Keeps C
      → IsValid X C r
      → r.per_minute ≢ 0
      → answers_to k r reqs ≡ alone X r.per_minute (bucket_of X C r k) (of_key k reqs)
  unfolding answers_to
  answers_to-general k r [] keeps v on = refl
  answers_to-general k r (a ∷ reqs) keeps v on = rw (check-after X C r a.ip a.made a.now v on) (
      step k r a reqs (answers_to k (next r a) reqs) keeps v
        (answers_to-general k (next r a) reqs keeps (next-IsValid r a v on) (next-on r a on)))

  -- While limits are on and the cache drops nothing, the limiter refines a bucket for each key: in every
  -- run from the start over requests of all clients, the answers to those with one key are those
  -- of one bucket, full when it is made, to these requests alone.
  pub answers_to-alone :
      (limit : ℕ) (k : Text) (reqs : List Arrival)
      → Keeps C
      → limit ≢ 0
      → answers_to k (new_limit X C limit) reqs ≡ alone X limit none (of_key k reqs)
  unfolding new_limit
  answers_to-alone limit k reqs keeps on =
      answers_to-general k (new_limit X C limit) reqs keeps (new_limit-IsValid X C limit) on
      ∙ ap (λ o. alone X limit o (of_key k reqs)) (new_limit-bucket_of X C limit k)
