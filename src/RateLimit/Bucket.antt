-- ===== src/RateLimit/Bucket.antt =====
-- src/ratelimit.rs: what `check_limit` promises, for every `f64` with the laws of Float.antt.
use proxpulse_judge.Base.{
  ℕ, ◌+◌, ◌-◌, ◌*◌, ◌^◌, ◌≤◌, ◌<◌, ◌≡◌, inl, inr, refl, sym, ap, subst, ◌∙◌, true, false, Option,
  none, some, List, [], ◌∷◌, arith, ◌==◌, Bool-cases,
}
use proxpulse_judge.Float.{F64}
use proxpulse_judge.RateLimit.Basic.{
  TokenBucket, new_bucket, check_limit, refill, refill_rate, wait_secs, second,
}

module _ (X : F64) where
  -- From none to `limit` tokens.
  pub record IsSound (limit : ℕ) (b : TokenBucket X) : Type 0 where
    pub nonneg : F64.le X (F64.of_u32 X 0) b.tokens ≡ true
    pub bounded : F64.le X b.tokens (F64.of_u32 X limit) ≡ true

  le_of : (a b : ℕ) → b < 2 ^ 32 → a ≤ b → F64.le X (F64.of_u32 X a) (F64.of_u32 X b) ≡ true
  le_of a b l h = F64.le-of_u32 X a b (omega arith) l ∙ ground arith

  pub new_bucket-IsSound : (limit now : ℕ) → limit < 2 ^ 32 → IsSound limit (new_bucket X limit now)
  unfolding new_bucket
  new_bucket-IsSound limit now l = record {
    nonneg = le_of 0 limit l (omega arith);
    bounded = le_of limit limit l (omega arith);
  }

  -- one request: the refill, and what is left of it
  enabled : (limit : ℕ) → 0 < limit → (limit == 0) ≡ false
  enabled limit h = ground arith

  pub admitted_lem :
      (limit now : ℕ) (b : TokenBucket X)
      → 0 < limit
      → F64.le X (F64.of_u32 X 1) (refill X b now limit) ≡ true
      → check_limit X b now limit ≡ (
        record { tokens = F64.sub X (refill X b now limit) (F64.of_u32 X 1); updated = now },
        none,
      )
  unfolding check_limit
  admitted_lem limit now b on h = rw (enabled limit on, h) refl

  pub refused_lem :
      (limit now : ℕ) (b : TokenBucket X)
      → 0 < limit
      → F64.le X (F64.of_u32 X 1) (refill X b now limit) ≡ false
      → check_limit X b now limit ≡ (
        record { tokens = refill X b now limit; updated = now },
        some (wait_secs X (refill X b now limit) limit),
      )
  unfolding check_limit
  refused_lem limit now b on h = rw (enabled limit on, h) refl

  gained :
      (t limit : ℕ)
      → F64.le X (F64.of_u32 X 0) (F64.mul X (F64.as_secs X t) (refill_rate X limit)) ≡ true
  unfolding refill_rate
  gained t limit = F64.mul_nonneg X limit t

  pub refill-nonneg :
      (limit now : ℕ) (b : TokenBucket X)
      → limit < 2 ^ 32
      → F64.le X (F64.of_u32 X 0) b.tokens ≡ true
      → F64.le X (F64.of_u32 X 0) (refill X b now limit) ≡ true
  unfolding refill
  refill-nonneg limit now b l h =
      let gain = gained (now - b.updated) limit in
      F64.le-fmin X _ (F64.of_u32 X limit) (F64.of_u32 X 0) (F64.add_right X _ _ _ h gain gain)
        (le_of 0 limit l (omega arith))

  refill-bounded :
      (limit now : ℕ) (b : TokenBucket X)
      → F64.le X (refill X b now limit) (F64.of_u32 X limit) ≡ true
  unfolding refill
  refill-bounded limit now b = F64.fmin_le X _ limit

  pub check_limit-IsSound :
      (limit now : ℕ) (b : TokenBucket X)
      → limit < 2 ^ 32
      → IsSound limit b
      → IsSound limit (check_limit X b now limit).0
  check_limit-IsSound limit now b l v = elim (Bool-cases (limit == 0)) [
    | inl off ↦ unfold check_limit in rw off v
    | inr on ↦ elim (Bool-cases (F64.le X (F64.of_u32 X 1) (refill X b now limit))) [
      | inl paid ↦ rw (admitted_lem limit now b (ground arith) paid) (record {
        nonneg = F64.sub_nonneg X 1 _ paid;
        bounded =
            F64.le_trans X _ (refill X b now limit) _ (F64.sub_le X 1 _ paid)
              (refill-bounded limit now b);
      })
      | inr short ↦ rw (refused_lem limit now b (ground arith) short) (record {
        nonneg = refill-nonneg limit now b l v.nonneg;
        bounded = refill-bounded limit now b;
      })
    ]
  ]

  -- Requests at the given instants, one after the other: the bucket they leave.
  unfoldable pub serve_all : TokenBucket X → ℕ → List ℕ → TokenBucket X
  serve_all b limit [] = b
  serve_all b limit (t ∷ ts) = serve_all (check_limit X b t limit).0 limit ts

  serve_keeps :
      (limit : ℕ) (b : TokenBucket X) (ts : List ℕ)
      → limit < 2 ^ 32
      → IsSound limit b
      → IsSound limit (serve_all b limit ts)
  unfolding serve_all
  serve_keeps limit b [] l v = v
  serve_keeps limit b (t ∷ ts) l v =
      serve_keeps limit (check_limit X b t limit).0 ts l (check_limit-IsSound limit t b l v)

  -- In every run from a new bucket, at whatever instants the requests come, the tokens stay between
  -- none and the limit.
  pub serve_all-IsSound :
      (limit now : ℕ) (ts : List ℕ)
      → limit < 2 ^ 32
      → IsSound limit (serve_all (new_bucket X limit now) limit ts)
  serve_all-IsSound limit now ts l =
      serve_keeps limit (new_bucket X limit now) ts l (new_bucket-IsSound limit now l)

  rate-least : (limit : ℕ) → 0 < limit → F64.le X (refill_rate X 1) (refill_rate X limit) ≡ true
  unfolding refill_rate
  rate-least limit h = F64.div_mono X 1 limit (omega arith)

  rate_pos : F64.le X (refill_rate X 1) (F64.of_u32 X 0) ≡ false
  unfolding refill_rate
  rate_pos = F64.div_pos X 1 (omega arith)

  -- a minute brings a token, at any limit
  minute_gain :
      (limit t : ℕ)
      → 0 < limit
      → 60 * second ≤ t
      → F64.le X (F64.of_u32 X 1) (F64.mul X (F64.as_secs X t) (refill_rate X limit)) ≡ true
  unfolding refill_rate
  minute_gain limit t on h =
      let late =
        ap (λ x. F64.le X x (F64.as_secs X t)) (sym (F64.as_secs-whole X 60 (omega arith)))
        ∙ F64.as_secs_mono X (60 * second) t h in
      let most =
        F64.mul_mono X (F64.of_u32 X 60) _ (refill_rate X 1) _
          (F64.le-of_u32 X 60 0 (omega arith) (omega arith)) rate_pos late (rate-least limit on) in
      subst (λ x. F64.le X x (F64.mul X (F64.as_secs X t) (refill_rate X limit)) ≡ true)
        (F64.sixtieth_mul X) most

  pub minute_later :
      (limit : ℕ) (b : TokenBucket X) (t : ℕ)
      → 0 < limit
      → limit < 2 ^ 32
      → IsSound limit b
      → b.updated + 60 * second ≤ t
      → (check_limit X b t limit).1 ≡ none
  unfolding refill
  minute_later limit b t on l v h =
      let gain = minute_gain limit (t - b.updated) on (omega arith) in
      let filled =
        F64.le-fmin X _ (F64.of_u32 X limit) (F64.of_u32 X 1)
          (F64.add_right X _ _ _ v.nonneg (gained (t - b.updated) limit) gain)
          (le_of 1 limit l (omega arith)) in
      ap (λ (p : TokenBucket X × Option ℕ). p.1) (admitted_lem limit t b on filled)

  -- a refusal's wait
  pub wait_bounds :
      (limit : ℕ) (x : F64.F X)
      → 0 < limit
      → F64.le X (F64.of_u32 X 0) x ≡ true
      → F64.le X (F64.of_u32 X 1) x ≡ false
      → (1 ≤ wait_secs X x limit) × (wait_secs X x limit ≤ 60)
  unfolding wait_secs
  wait_bounds limit x on low short =
      let part =
        F64.div_anti X (F64.sub X (F64.of_u32 X 1) x) (refill_rate X 1) (refill_rate X limit) 1
          (F64.sub_rest X 1 x low short) (F64.sub_upper X 1 x low) rate_pos (rate-least limit on) in
      let most =
        subst
          (λ y. F64.le X (F64.div X (F64.sub X (F64.of_u32 X 1) x) (refill_rate X limit)) y ≡ true)
          (unfold refill_rate in F64.sixtieth_div X) part in
      (
        F64.to_u64_lower X 1 _ (omega arith) (F64.le-fmax X _ 1),
        F64.to_u64_upper X 60 _ (
            F64.fmax_le X _ _ _
              (subst
                (λ y.
                  F64.le X
                    (F64.ceil X (F64.div X (F64.sub X (F64.of_u32 X 1) x) (refill_rate X limit))) y
                  ≡ true)
                (F64.ceil-of_u32 X 60) (F64.ceil_mono X _ _ most))
              (le_of 1 60 (omega arith) (omega arith))),
      )
