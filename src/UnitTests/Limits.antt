-- ===== src/UnitTests/Limits.antt =====
-- src/ratelimit.rs, `mod tests`. The clock of a test is its argument.
use proxpulse_judge.Base.{
  ℕ, zero, suc, ◌+◌, ◌*◌, ◌==◌, Bool, true, false, ◌&&◌, ◌≡◌, refl, Option, none, some, String,
  codes, text_eq,
}
use proxpulse_judge.Float.{F64, fixed_point}
use proxpulse_judge.Cache.{Cache}
use proxpulse_judge.RateLimit.Basic.{
  second, new_bucket, check_limit, bucket_key, RateLimit, new_limit, check,
}

abbrev wait_is : Option ℕ → Option ℕ → Bool
wait_is none none = true
wait_is none (some n) = false
wait_is (some m) none = false
wait_is (some m) (some n) = m == n

unfoldable limit_bucket_allows_then_blocks : ℕ → Bool
unfolding new_bucket check_limit
limit_bucket_allows_then_blocks now =
    let bucket = new_bucket fixed_point 2 now in
    let (bucket_1, first) = check_limit fixed_point bucket now 2 in
    let (bucket_2, second_answer) = check_limit fixed_point bucket_1 now 2 in
    let (bucket_3, third) = check_limit fixed_point bucket_2 now 2 in
    let other = new_bucket fixed_point 2 now in
    wait_is first none
    && wait_is second_answer none
    && wait_is third (some 30)
    && wait_is (check_limit fixed_point other now 2).1 none
    && wait_is (check_limit fixed_point (new_bucket fixed_point 0 now) now 0).1 none

unfoldable limit_bucket_refills_and_reports_exact_delay : ℕ → Bool
unfolding new_bucket check_limit
limit_bucket_refills_and_reports_exact_delay now =
    let bucket = new_bucket fixed_point 1 now in
    let (bucket_1, first) = check_limit fixed_point bucket now 1 in
    let (bucket_2, second_answer) = check_limit fixed_point bucket_1 now 1 in
    let (bucket_3, third) = check_limit fixed_point bucket_2 (now + 30 * second) 1 in
    let (bucket_4, fourth) = check_limit fixed_point bucket_3 (now + 60 * second) 1 in
    wait_is first none
    && wait_is second_answer (some 60)
    && wait_is third (some 30)
    && wait_is fourth none

abbrev key_is : String → String → Bool
unfolding bucket_key
key_is ip key = text_eq (bucket_key (codes ip)) (codes key)

unfoldable bucket_key_groups_ipv6_by_64 : Bool
bucket_key_groups_ipv6_by_64 =
    key_is "9.9.9.9" "9.9.9.9"
    && key_is "2001:db8:1:2::1" "2001:db8:1:2::/64"
    && key_is "2001:db8:1:2:ffff:ffff:ffff:ffff" "2001:db8:1:2::/64"
    && key_is "2001:db8:1:3::1" "2001:db8:1:3::/64"
    && key_is "::ffff:9.9.9.9" "9.9.9.9"

module _ (X : F64) (C : Cache ℕ) (now : ℕ) where
  -- the loop of the test
  unfoldable never_blocks : ℕ → RateLimit X C → Bool
  unfolding check
  never_blocks zero limit = true
  never_blocks (suc n) limit =
      let (after, answer) = check X C limit (codes "9.9.9.9") now now in
      wait_is answer none && never_blocks n after

  unfoldable disabled_limit_never_blocks : Bool
  unfolding new_limit never_blocks
  disabled_limit_never_blocks = never_blocks 10 (new_limit X C 0)

limit_tests :
    (X : F64) (C : Cache ℕ)
    → (limit_bucket_allows_then_blocks 7 ≡ true)
      × (limit_bucket_refills_and_reports_exact_delay 7 ≡ true)
      × (bucket_key_groups_ipv6_by_64 ≡ true)
      × (disabled_limit_never_blocks X C 7 ≡ true)
unfolding limit_bucket_allows_then_blocks limit_bucket_refills_and_reports_exact_delay
    bucket_key_groups_ipv6_by_64 disabled_limit_never_blocks key_is
limit_tests X C = (refl, refl, refl, refl)
