-- ===== src/RateLimit/Clients.antt =====
-- src/ratelimit.rs: the buckets of the clients in the shared limiter.
use proxpulse_judge.Base.{
  ℕ, ◌≤◌, ◌<◌, ◌⊎◌, inl, inr, ◌≡◌, ◌≢◌, refl, sym, ◌∙◌, Option, none, some, [], ◌∷◌, ◌++◌, arith,
  ◌==◌, if◌then◌else◌, Text, length-append, text_eq_iff, text_eq_refl, length, get_elem?, set,
  Bool-cases, Option-cases,
}
use proxpulse_judge.Base.{
  get_elem?-append, get_elem?-last, get_elem?_total, get_elem?-lt, length-set, get_elem?-set_self,
  get_elem?-set_ne,
}
use proxpulse_judge.Float.{F64}
use proxpulse_judge.Cache.{Cache, Keeps}
use proxpulse_judge.RateLimit.Basic.{
  TokenBucket, RateLimit, check_limit, new_bucket, bucket_key, check, take_token, new_limit,
}

module _ (X : F64) (C : Cache ℕ) where
  -- The bucket of a key, if the cache has one.
  unfoldable pub bucket_of : RateLimit X C → Text → Option (TokenBucket X)
  bucket_of r k = elim (Cache.get C r.hits k) [ none ↦ none | some h ↦ get_elem? r.buckets h ]

  -- Cached handles are places in the list, a different one for each key.
  pub record IsValid (r : RateLimit X C) : Type 0 where
    pub in_range : (k : Text) (h : ℕ) → Cache.get C r.hits k ≡ some h → h < length r.buckets
    pub distinct :
        (k j : Text) (h : ℕ) → Cache.get C r.hits k ≡ some h → Cache.get C r.hits j ≡ some h → k ≡ j

  pub new_limit-IsValid : (per_minute : ℕ) → IsValid (new_limit X C per_minute)
  unfolding new_limit
  new_limit-IsValid n = record {
    in_range = λ k h e. cc (Cache.get-empty C k);
    distinct = λ k j h e f. cc (Cache.get-empty C k);
  }

  pub new_limit-bucket_of : (n : ℕ) (k : Text) → bucket_of (new_limit X C n) k ≡ none
  unfolding new_limit bucket_of
  new_limit-bucket_of n k = rw (Cache.get-empty C k, bucket_of)

  -- The handle that a key gets: its own, or a fresh one with a new bucket behind it.
  located : RateLimit X C → Text → ℕ → RateLimit X C
  located r key made =
      let fresh = length r.buckets in
      let (handle, hits') = Cache.get_with C r.hits key fresh in
      record r {
        hits = hits';
        buckets =
            if handle == fresh then r.buckets ++ new_bucket X r.per_minute made ∷ [] else r.buckets;
      }

  handle_of : RateLimit X C → Text → ℕ
  handle_of r key = (Cache.get_with C r.hits key (length r.buckets)).0

  abbrev pub bucket_or_new : RateLimit X C → Text → ℕ → TokenBucket X
  bucket_or_new r key made = elim (bucket_of r key) [
    | some b ↦ b
    | none ↦ new_bucket X r.per_minute made
  ]

  check_lem :
      (r : RateLimit X C) (ip : Text) (made now : ℕ)
      → r.per_minute ≢ 0
      → check X C r ip made now
        ≡ take_token X C (located r (bucket_key ip) made) (handle_of r (bucket_key ip)) now
  unfolding check located handle_of
  check_lem r ip made now h = ground arith

  module _ (r : RateLimit X C) (key : Text) (made : ℕ) (v : IsValid r) where
    handle-bucket :
        get_elem? (located r key made).buckets (handle_of r key) ≡ some (bucket_or_new r key made)
    unfolding located handle_of bucket_of
    handle-bucket = elim (Option-cases (Cache.get C r.hits key)) [
      | inl miss ↦ ground (
        arith,
        miss,
        Cache.get_with_miss C r.hits key (length r.buckets) miss,
        get_elem?-last r.buckets (new_bucket X r.per_minute made),
      )
      | inr (h, hit) ↦ ground (
        arith,
        hit,
        Cache.get_with_hit C r.hits key h (length r.buckets) hit,
        v.in_range key h hit,
        get_elem?_total r.buckets h,
      )
    ]

    located_get :
        (j : Text) (h : ℕ)
        → Cache.get C (located r key made).hits j ≡ some h
        → ((j ≡ key) × (h ≡ handle_of r key)) ⊎ ((j ≢ key) × (Cache.get C r.hits j ≡ some h))
    unfolding located handle_of
    located_get j h e =
        ground (arith, Cache.get_with_lem C r.hits key j (length r.buckets), text_eq_iff key j)

    -- the handle of a key is no other key's
    handle_own : (j : Text) → Cache.get C r.hits j ≡ some (handle_of r key) → j ≡ key
    unfolding handle_of
    handle_own j e = elim (Option-cases (Cache.get C r.hits key)) [
      | inl miss ↦ absurd (
          omega (arith, v.in_range j _ e, Cache.get_with_miss C r.hits key (length r.buckets) miss))
      | inr (h, hit) ↦
          v.distinct j key h (rw (Cache.get_with_hit C r.hits key h (length r.buckets) hit) at e)
            hit
    ]

    length-located : length r.buckets ≤ length (located r key made).buckets
    unfolding located
    length-located = ground (arith, length-append r.buckets (new_bucket X r.per_minute made ∷ []))

    located-old :
        (h : ℕ)
        → h < length r.buckets
        → get_elem? (located r key made).buckets h ≡ get_elem? r.buckets h
    unfolding located
    located-old h lt =
        ground (arith, get_elem?-append r.buckets (new_bucket X r.per_minute made ∷ []) h)

    handle-lt : handle_of r key < length (located r key made).buckets
    handle-lt = get_elem?-lt (located r key made).buckets (handle_of r key) handle-bucket

    located-IsValid : IsValid (located r key made)
    located-IsValid = record {
      in_range =
          λ j h e. ground (arith, located_get j h e, handle-lt, length-located, v.in_range j h);
      distinct = λ j k h e f. elim (located_get j h e) [
        | inl (jk, hh) ↦ elim (located_get k h f) [
          | inl (kk, _) ↦ jk ∙ sym kk
          | inr (other, old) ↦ absurd (other (handle_own k (rw hh at old)))
        ]
        | inr (other, old) ↦ elim (located_get k h f) [
          | inl (kk, hh) ↦ absurd (other (handle_own j (rw hh at old)))
          | inr (_, old') ↦ v.distinct j k h old old'
        ]
      ];
    }

  take_token_lem :
      (r : RateLimit X C) (h now : ℕ) (b : TokenBucket X)
      → get_elem? r.buckets h ≡ some b
      → take_token X C r h now ≡ (
        record r { buckets = set r.buckets h (check_limit X b now r.per_minute).0 },
        (check_limit X b now r.per_minute).1,
      )
  unfolding take_token
  take_token_lem r h now b e = rw (e, take_token)

  -- What a check does: one bucket is replaced, behind the handle of the client's key.
  pub after : RateLimit X C → Text → ℕ → ℕ → RateLimit X C
  after r key made now = record (located r key made) {
    buckets =
        set (located r key made).buckets (handle_of r key)
          (check_limit X (bucket_or_new r key made) now r.per_minute).0;
  }

  bucket_of-some :
      (r : RateLimit X C) (k : Text) (h : ℕ)
      → Cache.get C r.hits k ≡ some h
      → bucket_of r k ≡ get_elem? r.buckets h
  unfolding bucket_of
  bucket_of-some r k h e = rw (e, bucket_of)

  bucket_of-none :
      (r : RateLimit X C) (k : Text) → Cache.get C r.hits k ≡ none → bucket_of r k ≡ none
  unfolding bucket_of
  bucket_of-none r k e = rw (e, bucket_of)

  module _ (r : RateLimit X C) (key : Text) (made now : ℕ) (v : IsValid r) where
    after_own_get : Keeps C → Cache.get C (located r key made).hits key ≡ some (handle_of r key)
    unfolding located handle_of
    after_own_get keeps = ground (arith, keeps r.hits key key (length r.buckets), text_eq_refl key)

    pub after_own :
        Keeps C
        → bucket_of (after r key made now) key
          ≡ some (check_limit X (bucket_or_new r key made) now r.per_minute).0
    unfolding after
    after_own keeps =
        bucket_of-some (after r key made now) key _ (after_own_get keeps)
        ∙ get_elem?-set_self (located r key made).buckets (handle_of r key) _
            (handle-lt r key made v)

    located_other :
        Keeps C
        → (j : Text) → j ≢ key
        → Cache.get C (located r key made).hits j ≡ Cache.get C r.hits j
    unfolding located
    located_other keeps j ne =
        ground (arith, keeps r.hits key j (length r.buckets), text_eq_iff key j)

    pub after_other :
        Keeps C → (j : Text) → j ≢ key → bucket_of (after r key made now) j ≡ bucket_of r j
    unfolding after
    after_other keeps j ne = elim (Option-cases (Cache.get C r.hits j)) [
      | inl miss ↦
          bucket_of-none (after r key made now) j (located_other keeps j ne ∙ miss)
          ∙ sym (bucket_of-none r j miss)
      | inr (h, old) ↦
          bucket_of-some (after r key made now) j h (located_other keeps j ne ∙ old)
          ∙ get_elem?-set_ne (located r key made).buckets (handle_of r key) h _
              (λ e. ne (handle_own r key made v j (rw (← e) at old)))
          ∙ located-old r key made v h (v.in_range j h old)
          ∙ sym (bucket_of-some r j h old)
    ]

  pub check-after :
      (r : RateLimit X C) (ip : Text) (made now : ℕ)
      → IsValid r
      → r.per_minute ≢ 0
      → check X C r ip made now ≡ (
        after r (bucket_key ip) made now,
        (check_limit X (bucket_or_new r (bucket_key ip) made) now r.per_minute).1,
      )
  unfolding after located
  check-after r ip made now v on =
      check_lem r ip made now on ∙ take_token_lem _ _ now _ (handle-bucket r (bucket_key ip) made v)

  pub after-per_minute :
      (r : RateLimit X C) (key : Text) (made now : ℕ)
      → (after r key made now).per_minute ≡ r.per_minute
  unfolding after located
  after-per_minute r key made now = refl

  -- A check keeps the cache and the buckets well formed.
  pub check-IsValid :
      (r : RateLimit X C) (ip : Text) (made now : ℕ)
      → IsValid r
      → IsValid (check X C r ip made now).0
  unfolding after
  check-IsValid r ip made now v = elim (Bool-cases (r.per_minute == 0)) [
    | inl off ↦ unfold check in rw off v
    | inr on ↦
        let key = bucket_key ip in
        let w = located-IsValid r key made v in
        rw (check-after r ip made now v (λ e. ground arith)) (record {
          in_range = λ j h e. omega (
            arith,
            w.in_range j h e,
            length-set (located r key made).buckets (handle_of r key)
                (check_limit X (bucket_or_new r key made) now r.per_minute).0,
          );
          distinct = w.distinct;
        })
  ]
