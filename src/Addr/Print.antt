-- ===== src/Addr/Print.antt =====
-- `Display` of `std::net::IpAddr`: dotted decimals, and hexadecimal segments with the longest run
-- of two or more zero segments, the first of these, written `::`.
use proxpulse_judge.Base.{
  ℕ, ◌+◌, ◌/◌, ◌%◌, ◌&&◌, List, [], ◌∷◌, ◌++◌, map, ltb, ◌==◌, if◌then◌else◌, ◌≡◌, refl, Text,
  codes, take, drop,
}
use proxpulse_judge.Str.Basic.{print_digits, join}
use proxpulse_judge.Addr.Basic.{IpAddr, v4, v6, is_mapped}

unfoldable pub print_octet : ℕ → Text
unfolding print_digits
print_octet n = print_digits 10 2 n []

unfoldable pub print_group : ℕ → Text
unfolding print_digits
print_group n = print_digits 16 3 n []

unfoldable pub print_v4 : ℕ → ℕ → ℕ → ℕ → Text
print_v4 a b c d =
    print_octet a ++ (b'.' ∷ (print_octet b ++ (b'.' ∷ (print_octet c ++ (b'.' ∷ print_octet d)))))

-- The longest run of zero segments as its start and length, the first of equal ones: the run that
-- is being read starts at `start` and has length `len`, and `i` is the place of the next segment.
unfoldable pub longest_run : List ℕ → ℕ → ℕ → ℕ → ℕ → ℕ → ℕ × ℕ
longest_run [] i start len best best_len = (best, best_len)
longest_run (s ∷ segs) i start len best best_len =
    let now = (if len == 0 then i else start) in
    let longer = s == 0 && ltb best_len (len + 1) in
    longest_run segs (i + 1) now (if s == 0 then len + 1 else 0) (if longer then now else best)
      (if longer then len + 1 else best_len)

unfoldable pub print_groups : List ℕ → Text
unfolding print_group join
print_groups gs = join (b':' ∷ []) (map print_group gs)

unfoldable pub print_segments : List ℕ → Text
print_segments segs =
    let run = longest_run segs 0 0 0 0 0 in
    if ltb 1 run.1
    then print_groups (take run.0 segs) ++ (b':' ∷ b':' ∷ print_groups (drop (run.0 + run.1) segs))
    else print_groups segs

unfoldable pub print_addr : IpAddr → Text
unfolding print_v4 print_octet print_segments longest_run print_groups is_mapped
print_addr (v4 a b c d) = print_v4 a b c d
print_addr (v6 a b c d e f g h) =
    if is_mapped (v6 a b c d e f g h)
    then codes "::ffff:" ++ print_v4 (g / 256) (g % 256) (h / 256) (h % 256)
    else print_segments (a ∷ b ∷ c ∷ d ∷ e ∷ f ∷ g ∷ h ∷ [])

print_loopback : print_addr (v6 0 0 0 0 0 0 0 1) ≡ codes "::1"
unfolding print_addr
print_loopback = refl

print_doc : print_addr (v6 0x2001 0xdb8 0 1 0 0 0 0x10) ≡ codes "2001:db8:0:1::10"
unfolding print_addr
print_doc = refl
