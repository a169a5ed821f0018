-- ===== src/Addr/Basic.antt =====
-- `std::net::IpAddr`: the addresses, their canonical form and the tests that the program makes.
use proxpulse_judge.Base.{
  ℕ, arith, ◌/◌, ◌%◌, ◌^◌, ◌<◌, Bool, false, ◌&&◌, ◌≡◌, refl, ◌==◌, if◌then◌else◌,
}

-- Four octets, or eight 16-bit segments.
pub data IpAddr : Type 0 where
  v4 : ℕ → ℕ → ℕ → ℕ → IpAddr
  v6 : ℕ → ℕ → ℕ → ℕ → ℕ → ℕ → ℕ → ℕ → IpAddr

abbrev pub IsAddr : IpAddr → Type 0
IsAddr (v4 a b c d) = (a < 256) × (b < 256) × (c < 256) × (d < 256)
IsAddr (v6 a b c d e f g h) =
    (a < 2 ^ 16)
    × (b < 2 ^ 16)
    × (c < 2 ^ 16)
    × (d < 2 ^ 16)
    × (e < 2 ^ 16)
    × (f < 2 ^ 16)
    × (g < 2 ^ 16)
    × (h < 2 ^ 16)

-- `::ffff:a.b.c.d`
unfoldable pub is_mapped : IpAddr → Bool
is_mapped (v4 a b c d) = false
is_mapped (v6 a b c d e f g h) = a == 0 && b == 0 && c == 0 && d == 0 && e == 0 && f == 0xffff

-- the IPv4 address in the last two segments
unfoldable pub embedded : ℕ → ℕ → IpAddr
embedded g h = v4 (g / 256) (g % 256) (h / 256) (h % 256)

unfoldable pub to_canonical : IpAddr → IpAddr
unfolding is_mapped embedded
to_canonical (v4 a b c d) = v4 a b c d
to_canonical (v6 a b c d e f g h) =
    if is_mapped (v6 a b c d e f g h) then embedded g h else v6 a b c d e f g h

pub to_canonical_idem : (a : IpAddr) → to_canonical (to_canonical a) ≡ to_canonical a
unfolding to_canonical
to_canonical_idem (v4 a b c d) = refl
to_canonical_idem (v6 a b c d e f g h) = ground arith

pub to_canonical-IsAddr : (a : IpAddr) → IsAddr a → IsAddr (to_canonical a)
unfolding to_canonical
to_canonical-IsAddr (v4 a b c d) w = w
to_canonical-IsAddr (v6 a b c d e f g h) w = ground arith

pub is_mapped-to_canonical : (a : IpAddr) → is_mapped (to_canonical a) ≡ false
unfolding to_canonical
is_mapped-to_canonical (v4 a b c d) = refl
is_mapped-to_canonical (v6 a b c d e f g h) = ground arith
