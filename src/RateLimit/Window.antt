-- ===== src/RateLimit/Window.antt =====
-- src/ratelimit.rs: how many requests one bucket admits at an instant, and what a refusal announces.
use proxpulse_judge.Base.{
  ℕ, zero, suc, ◌+◌, ◌-◌, ◌*◌, ◌^◌, ◌≤◌, ◌<◌, ◌≡◌, refl, inl, inr, ap, ◌∙◌, min, false, Option,
  none, some, List, [], ◌∷◌, ◌++◌, arith, if◌then◌else◌, is_none, Bool-cases,
}
use proxpulse_judge.Float.{F64}
use proxpulse_judge.RateLimit.Basic.{
  TokenBucket, new_bucket, check_limit, refill, refill_rate, wait_secs, second,
}
use proxpulse_judge.RateLimit.Bucket.{
  IsSound, serve_all, serve_all-IsSound, check_limit-IsSound, minute_later, wait_bounds,
  refused_lem, admitted_lem, refill-nonneg,
}

module _ (X : F64) where
  -- Requests at the given instants, one after the other: how many are admitted.
  unfoldable pub admitted : TokenBucket X → ℕ → List ℕ → ℕ
  admitted b limit [] = 0
  admitted b limit (t ∷ ts) =
      let (b', answer) = check_limit X b t limit in
      (if is_none answer then 1 else 0) + admitted b' limit ts

  abbrev pub repeat : ℕ → ℕ → List ℕ
  repeat zero t = []
  repeat (suc k) t = t ∷ repeat k t

  -- a bucket with `m` tokens, read at `now`
  abbrev holding : ℕ → ℕ → TokenBucket X
  holding m now = record { tokens = F64.of_u32 X m; updated = now }

  no_time : (now : ℕ) → now - now ≡ 0 * second
  no_time now = omega arith

  refill-holding :
      (limit m now : ℕ)
      → limit < 2 ^ 32
      → m ≤ limit
      → refill X (holding m now) now limit ≡ F64.of_u32 X m
  unfolding refill refill_rate
  refill-holding limit m now l h =
      rw
        (
          refill,
          refill_rate,
          no_time now,
          F64.as_secs-whole X 0 (omega arith),
          F64.mul_zero X limit,
          F64.add_zero X m (omega arith),
          F64.fmin-of_u32 X m limit,
        )
        (ap (F64.of_u32 X) (omega arith))

  spend :
      (limit m now : ℕ)
      → 0 < limit
      → limit < 2 ^ 32
      → suc m ≤ limit
      → check_limit X (holding (suc m) now) now limit ≡ (holding m now, none)
  spend limit m now on l h =
      let e = refill-holding limit (suc m) now l h in
      admitted_lem X limit now (holding (suc m) now) on (
        ap (F64.le X (F64.of_u32 X 1)) e
        ∙ F64.le-of_u32 X 1 (suc m) (omega arith) (omega arith)
        ∙ ground arith)
      ∙ ap (λ x. (record { tokens = x; updated = now }, none))
          (ap (λ y. F64.sub X y (F64.of_u32 X 1)) e
            ∙ F64.sub-of_u32 X (suc m) 1 (omega arith) (omega arith)
            ∙ ap (F64.of_u32 X) (omega arith))

  refuse :
      (limit now : ℕ)
      → 0 < limit
      → limit < 2 ^ 32
      → check_limit X (holding 0 now) now limit
        ≡ (holding 0 now, some (wait_secs X (F64.of_u32 X 0) limit))
  refuse limit now on l =
      let e = refill-holding limit 0 now l (omega arith) in
      refused_lem X limit now (holding 0 now) on
        (ap (F64.le X (F64.of_u32 X 1)) e ∙ F64.le-of_u32 X 1 0 (omega arith) (omega arith))
      ∙ ap (λ x. (record { tokens = x; updated = now }, some (wait_secs X x limit))) e

  admitted-holding :
      (limit m k now : ℕ)
      → 0 < limit
      → limit < 2 ^ 32
      → m ≤ limit
      → admitted (holding m now) limit (repeat k now) ≡ min k m
  unfolding admitted
  admitted-holding limit m zero now on l h = omega arith
  admitted-holding limit zero (suc k) now on l h =
      rw (refuse limit now on l) (omega (arith, admitted-holding limit zero k now on l h))
  admitted-holding limit (suc m) (suc k) now on l h =
      rw (spend limit m now on l h)
        (omega (arith, admitted-holding limit m k now on l (omega arith)))

  -- Of the requests that come at the instant at which their bucket is made, exactly the first
  -- `limit` are admitted, for a `limit` of 32 bits that is not zero.
  pub admitted-new_bucket :
      (limit k now : ℕ)
      → 0 < limit
      → limit < 2 ^ 32
      → admitted (new_bucket X limit now) limit (repeat k now) ≡ min k limit
  unfolding new_bucket
  admitted-new_bucket limit k now on l = admitted-holding limit limit k now on l (omega arith)

  serve_all-last :
      (limit now : ℕ) (b : TokenBucket X) (ts : List ℕ)
      → serve_all X b limit (ts ++ now ∷ []) ≡ (check_limit X (serve_all X b limit ts) now limit).0
  unfolding serve_all
  serve_all-last limit now b [] = refl
  serve_all-last limit now b (t ∷ ts) = serve_all-last limit now (check_limit X b t limit).0 ts

  check_limit-some :
      (limit now r : ℕ) (b : TokenBucket X)
      → 0 < limit
      → (check_limit X b now limit).1 ≡ some r
      → (F64.le X (F64.of_u32 X 1) (refill X b now limit) ≡ false)
        × (r ≡ wait_secs X (refill X b now limit) limit)
        × ((check_limit X b now limit).0.updated ≡ now)
  check_limit-some limit now r b on h =
      elim (Bool-cases (F64.le X (F64.of_u32 X 1) (refill X b now limit))) [
        | inl paid ↦ absurd (cc (admitted_lem X limit now b on paid))
        | inr short ↦
            let e = refused_lem X limit now b on short in
            (short, cc e, ap (λ (p : TokenBucket X × Option ℕ). p.0.updated) e)
      ]

  -- In every run from a new bucket, at whatever instants the requests come: a refusal names a wait
  -- of one to sixty seconds, and the next request is admitted if it comes a minute or more later.
  -- The limit is one of 32 bits that is not zero.
  pub refusal_ends :
      (limit made : ℕ) (earlier : List ℕ) (now r t : ℕ)
      → 0 < limit
      → limit < 2 ^ 32
      → (check_limit X (serve_all X (new_bucket X limit made) limit earlier) now limit).1 ≡ some r
      → now + 60 * second ≤ t
      → (1 ≤ r)
        × (r ≤ 60)
        × ((check_limit X
              (serve_all X (new_bucket X limit made) limit (earlier ++ now ∷ []))
              t
              limit).1
            ≡ none)
  refusal_ends limit made earlier now r t on l h late =
      let b = serve_all X (new_bucket X limit made) limit earlier in
      let v = serve_all-IsSound X limit made earlier l in
      let (short, wait, stamp) = check_limit-some limit now r b on h in
      let (low, high) =
        wait_bounds X limit (refill X b now limit) on
          (refill-nonneg X limit now b l (IsSound.nonneg v)) short in
      (
        omega arith,
        omega arith,
        ap (λ c. (check_limit X c t limit).1)
              (serve_all-last limit now (new_bucket X limit made) earlier)
            ∙ minute_later X limit (check_limit X b now limit).0 t on l
                (check_limit-IsSound X limit now b l v) (omega arith),
      )
