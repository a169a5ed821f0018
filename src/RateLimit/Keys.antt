-- ===== src/RateLimit/Keys.antt =====
-- src/ratelimit.rs: which clients share a bucket.
use proxpulse_judge.Base.{ℕ, ◌≡◌, some, arith, Text}
use proxpulse_judge.Addr.Basic.{v6, to_canonical}
use proxpulse_judge.Addr.Parse.{parse_addr}
use proxpulse_judge.RateLimit.Basic.{bucket_key, addr_key}

-- Two texts that are IPv6 addresses with the same first four segments, and that are their own
-- canonical form, have the same bucket.
pub bucket_key_network :
    (s t : Text) (a b c d e f g h e' f' g' h' : ℕ)
    → parse_addr s ≡ some (v6 a b c d e f g h)
    → parse_addr t ≡ some (v6 a b c d e' f' g' h')
    → to_canonical (v6 a b c d e f g h) ≡ v6 a b c d e f g h
    → to_canonical (v6 a b c d e' f' g' h') ≡ v6 a b c d e' f' g' h'
    → bucket_key s ≡ bucket_key t
unfolding bucket_key addr_key
bucket_key_network s t a b c d e f g h e' f' g' h' ps pt cs ct = ground arith
