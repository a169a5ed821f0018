-- ===== src/Examples/Limits.antt =====
-- The rate limit's theorems at concrete inputs.
use proxpulse_judge.Base.{ℕ, ◌*◌, ◌≤◌, ◌≡◌, ◌≢◌, refl, none, some, List, [], ◌∷◌, arith, codes, min}
use proxpulse_judge.Float.{fixed_point}
use proxpulse_judge.Cache.{keep_all, keep_all-Keeps}
use proxpulse_judge.Addr.Basic.{v6, to_canonical}
use proxpulse_judge.Addr.Parse.{parse_addr}
use proxpulse_judge.RateLimit.Basic.{
  RateLimit, new_bucket, check_limit, check, bucket_key, new_limit, second,
}
use proxpulse_judge.RateLimit.Bucket.{IsSound, serve_all, serve_all-IsSound}
use proxpulse_judge.RateLimit.Window.{admitted, repeat, admitted-new_bucket, refusal_ends}
use proxpulse_judge.RateLimit.Keys.{bucket_key_network}
use proxpulse_judge.RateLimit.Clients.{bucket_of, bucket_or_new}
use proxpulse_judge.RateLimit.Product.{
  Arrival, run_all, check_isolated, of_key, alone, answers_to, answers_to-alone,
}

abbrev instants : List ℕ
instants = 0 ∷ 0 ∷ 10 * second ∷ []

admitted-new_bucket_example :
    admitted fixed_point (new_bucket fixed_point 2 5) 2 (repeat fixed_point 4 5) ≡ min 4 2
admitted-new_bucket_example = admitted-new_bucket fixed_point 2 4 5 (omega arith) (omega arith)

serve_all-IsSound_example :
    IsSound fixed_point 2 (serve_all fixed_point (new_bucket fixed_point 2 0) 2 instants)
serve_all-IsSound_example = serve_all-IsSound fixed_point 2 0 instants (omega arith)

-- a third request ten seconds after two
refused :
    (check_limit fixed_point
      (serve_all fixed_point (new_bucket fixed_point 2 0) 2 (0 ∷ 0 ∷ []))
      (10 * second)
      2).1
    ≡ some 20
unfolding new_bucket serve_all check_limit
refused = refl

refusal_ends_example :
    (1 ≤ 20)
    × (20 ≤ 60)
    × ((check_limit fixed_point
          (serve_all fixed_point (new_bucket fixed_point 2 0) 2 (0 ∷ 0 ∷ 10 * second ∷ []))
          (70 * second)
          2).1
        ≡ none)
refusal_ends_example =
    refusal_ends fixed_point 2 0 (0 ∷ 0 ∷ []) (10 * second) 20 (70 * second) (omega arith)
      (omega arith) refused (omega arith)

-- two clients before the request
abbrev earlier : List Arrival
earlier =
    record { ip = codes "9.9.9.9"; made = 0; now = 0 }
    ∷ record { ip = codes "8.8.8.8"; made = 1; now = 1 }
    ∷ []

abbrev reached : RateLimit fixed_point (keep_all ℕ)
reached = run_all fixed_point (keep_all ℕ) (new_limit fixed_point (keep_all ℕ) 2) earlier

limited : ◌≢◌ {A = ℕ} 2 0
limited h = omega arith

apart : codes "8.8.8.8" ≢ bucket_key (codes "9.9.9.9")
unfolding bucket_key
apart h = cc

check_isolated_example :
    ((check fixed_point (keep_all ℕ) reached (codes "9.9.9.9") 2 2).1
      ≡ (check_limit fixed_point
          (bucket_or_new fixed_point (keep_all ℕ) reached (bucket_key (codes "9.9.9.9")) 2)
          2
          2).1)
    × (bucket_of fixed_point
          (keep_all ℕ)
          (check fixed_point (keep_all ℕ) reached (codes "9.9.9.9") 2 2).0
          (bucket_key (codes "9.9.9.9"))
        ≡ some
            (check_limit fixed_point
              (bucket_or_new fixed_point (keep_all ℕ) reached (bucket_key (codes "9.9.9.9")) 2)
              2
              2).0)
    × (bucket_of fixed_point
          (keep_all ℕ)
          (check fixed_point (keep_all ℕ) reached (codes "9.9.9.9") 2 2).0
          (codes "8.8.8.8")
        ≡ bucket_of fixed_point (keep_all ℕ) reached (codes "8.8.8.8"))
check_isolated_example =
    check_isolated fixed_point (keep_all ℕ) 2 earlier (codes "9.9.9.9") (codes "8.8.8.8") 2 2
      (keep_all-Keeps ℕ) limited apart

answers_to-alone_example :
    answers_to fixed_point
      (keep_all ℕ)
      (codes "9.9.9.9")
      (new_limit fixed_point (keep_all ℕ) 2)
      earlier
    ≡ alone fixed_point 2 none (of_key (codes "9.9.9.9") earlier)
answers_to-alone_example =
    answers_to-alone fixed_point (keep_all ℕ) 2 (codes "9.9.9.9") earlier (keep_all-Keeps ℕ) limited

first_parses : parse_addr (codes "2001:db8:1:2::1") ≡ some (v6 0x2001 0xdb8 1 2 0 0 0 1)
unfolding parse_addr
first_parses = refl

second_parses : parse_addr (codes "2001:db8:1:2:3:4:5:6") ≡ some (v6 0x2001 0xdb8 1 2 3 4 5 6)
unfolding parse_addr
second_parses = refl

first_canonical : to_canonical (v6 0x2001 0xdb8 1 2 0 0 0 1) ≡ v6 0x2001 0xdb8 1 2 0 0 0 1
unfolding to_canonical
first_canonical = refl

second_canonical : to_canonical (v6 0x2001 0xdb8 1 2 3 4 5 6) ≡ v6 0x2001 0xdb8 1 2 3 4 5 6
unfolding to_canonical
second_canonical = refl

bucket_key_network_example :
    bucket_key (codes "2001:db8:1:2::1") ≡ bucket_key (codes "2001:db8:1:2:3:4:5:6")
bucket_key_network_example =
    bucket_key_network (codes "2001:db8:1:2::1") (codes "2001:db8:1:2:3:4:5:6") 0x2001 0xdb8 1 2 0 0
      0 1 3 4 5 6 first_parses second_parses first_canonical second_canonical
