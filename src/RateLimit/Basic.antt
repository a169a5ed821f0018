-- ===== src/RateLimit/Basic.antt =====
-- src/ratelimit.rs. The tokens are the `f64` of the model's parameter, and an instant is a number
-- of nanoseconds.
use proxpulse_judge.Base.{
  ℕ, ◌-◌, Option, none, some, List, [], ◌∷◌, ◌++◌, if◌then◌else◌, ◌==◌, Text, codes, length,
  get_elem?, set,
}
use proxpulse_judge.Float.{F64}
use proxpulse_judge.Addr.Basic.{IpAddr, v4, v6, to_canonical}
use proxpulse_judge.Addr.Print.{print_addr}
use proxpulse_judge.Addr.Parse.{parse_addr}
use proxpulse_judge.Cache.{Cache}

abbrev pub second : ℕ
second = 1_000_000_000

module _ (X : F64) where
  open X use {F, of_u32, as_secs, add, sub, mul, div, fmin, fmax, ceil, to_u64, le}

  pub record TokenBucket : Type 0 where
    pub tokens : F
    pub updated : ℕ

  unfoldable pub new_bucket : ℕ → ℕ → TokenBucket
  new_bucket limit now = record { tokens = of_u32 limit; updated = now }

  unfoldable pub refill_rate : ℕ → F
  refill_rate limit = div (of_u32 limit) (of_u32 60)

  -- `duration_since` is zero for an earlier instant, as `-` is.
  unfoldable pub refill : TokenBucket → ℕ → ℕ → F
  unfolding refill_rate
  refill b now limit =
      let elapsed = as_secs (now - b.updated) in
      fmin (add b.tokens (mul elapsed (refill_rate limit))) (of_u32 limit)

  -- whole seconds, rounded up, until a token is there
  unfoldable pub wait_secs : F → ℕ → ℕ
  unfolding refill_rate
  wait_secs tokens limit =
      to_u64 (fmax (ceil (div (sub (of_u32 1) tokens) (refill_rate limit))) (of_u32 1))

  unfoldable pub check_limit : TokenBucket → ℕ → ℕ → TokenBucket × Option ℕ
  unfolding refill wait_secs
  check_limit b now limit =
      if limit == 0
      then (b, none)
      else (let tokens = refill b now limit in
          if le (of_u32 1) tokens
          then (record { tokens = sub tokens (of_u32 1); updated = now }, none)
          else (record { tokens = tokens; updated = now }, some (wait_secs tokens limit)))

-- An IPv6 address stands for its /64.
unfoldable pub addr_key : IpAddr → Text
unfolding print_addr
addr_key (v4 a b c d) = print_addr (v4 a b c d)
addr_key (v6 a b c d e f g h) = print_addr (v6 a b c d 0 0 0 0) ++ codes "/64"

unfoldable pub bucket_key : Text → Text
unfolding parse_addr addr_key to_canonical
bucket_key ip = elim (parse_addr ip) [ some a ↦ addr_key (to_canonical a) | none ↦ ip ]

-- The cache holds handles (`Arc<Mutex<…>>`): places in the list of all buckets.
module _ (X : F64) (C : Cache ℕ) where
  open C use {Store, empty, get_with}

  pub record RateLimit : Type 0 where
    pub per_minute : ℕ
    pub hits : Store
    pub buckets : List (TokenBucket X)

  unfoldable pub new_limit : ℕ → RateLimit
  new_limit per_minute = record { per_minute = per_minute; hits = empty; buckets = [] }

  unfoldable pub take_token : RateLimit → ℕ → ℕ → RateLimit × Option ℕ
  unfolding check_limit
  take_token r handle now = elim (get_elem? r.buckets handle) [
    | none ↦ (r, none)
    | some b ↦
        let (b', answer) = check_limit X b now r.per_minute in
        (record r { buckets = set r.buckets handle b' }, answer)
  ]

  -- `made` is the clock when a missing bucket is made, `now` the clock at the check.
  unfoldable pub check : RateLimit → Text → ℕ → ℕ → RateLimit × Option ℕ
  unfolding bucket_key new_bucket take_token
  check r client_ip made now =
      if r.per_minute == 0
      then (r, none)
      else (let fresh = length r.buckets in
          let (handle, hits') = get_with r.hits (bucket_key client_ip) fresh in
          let buckets' =
            (if handle == fresh
              then r.buckets ++ new_bucket X r.per_minute made ∷ []
              else r.buckets) in
          take_token (record r { hits = hits'; buckets = buckets' }) handle now)
