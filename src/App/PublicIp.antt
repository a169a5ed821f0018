-- ===== src/App/PublicIp.antt =====
-- src/app.rs: `is_public_ip`, with the classes of `Ipv4Addr` and `Ipv6Addr` that it asks for.
use proxpulse_judge.Base.{ℕ, ◌/◌, ◌%◌, Bool, true, false, not, ◌&&◌, ◌||◌, ◌≡◌, refl, ◌==◌, leb}
use proxpulse_judge.Addr.Basic.{IpAddr, v4, v6, to_canonical}

-- loopback, private, link local, unspecified, broadcast, multicast, documentation
unfoldable pub is_special_v4 : ℕ → ℕ → ℕ → ℕ → Bool
is_special_v4 a b c d =
    a == 127
    || (a == 10 || (a == 172 && leb 16 b && leb b 31) || (a == 192 && b == 168))
    || (a == 169 && b == 254)
    || (a == 0 && b == 0 && c == 0 && d == 0)
    || (a == 255 && b == 255 && c == 255 && d == 255)
    || (leb 224 a && leb a 239)
    || ((a == 192 && b == 0 && c == 2)
        || (a == 198 && b == 51 && c == 100)
        || (a == 203 && b == 0 && c == 113))

-- 100.64.0.0/10: the two high bits of the second octet are 01
unfoldable pub is_cgnat : ℕ → ℕ → Bool
is_cgnat a b = a == 100 && b / 64 % 4 == 1

unfoldable pub is_benchmark : ℕ → ℕ → Bool
is_benchmark a b = a == 198 && (b == 18 || b == 19)

-- loopback, unspecified, multicast, unique local, link local, documentation
unfoldable pub is_special_v6 : ℕ → ℕ → ℕ → ℕ → ℕ → ℕ → ℕ → ℕ → Bool
is_special_v6 a b c d e f g h =
    let low = a == 0 && b == 0 && c == 0 && d == 0 && e == 0 && f == 0 && g == 0 in
    (low && h == 1)
    || (low && h == 0)
    || a / 256 == 0xff
    || a / 512 == 0x7e
    || a / 64 == 0x3fa
    || (a == 0x2001 && b == 0xdb8)

unfoldable pub is_public : IpAddr → Bool
unfolding is_special_v4 is_cgnat is_benchmark is_special_v6
is_public (v4 a b c d) = not (is_special_v4 a b c d || is_cgnat a b || is_benchmark a b)
is_public (v6 a b c d e f g h) = not (is_special_v6 a b c d e f g h)

unfoldable pub is_public_ip : IpAddr → Bool
unfolding is_public to_canonical
is_public_ip addr = is_public (to_canonical addr)

public_tests :
    (is_public_ip (v4 8 8 8 8) ≡ true)
    × (is_public_ip (v4 100 64 0 1) ≡ false)
    × (is_public_ip (v4 100 128 0 1) ≡ true)
    × (is_public_ip (v6 0xfe80 0 0 0 0 0 0 1) ≡ false)
    × (is_public_ip (v6 0 0 0 0 0 0xffff 0x7f00 1) ≡ false)
unfolding is_public_ip
public_tests = (refl, refl, refl, refl, refl)
