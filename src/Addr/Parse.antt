-- ===== src/Addr/Parse.antt =====
-- `FromStr` of `std::net::IpAddr`. A reader takes the text that is left, and gives what it read
-- and the rest; `none` leaves the text where it was.
use proxpulse_judge.Base.{
  ℕ, zero, suc, ◌+◌, ◌-◌, ◌*◌, Bool, true, false, ◌&&◌, ◌||◌, Option, none, some, List, [], ◌∷◌,
  ◌++◌, ltb, leb, ◌==◌, if◌then◌else◌, ◌>>=◌, ◌≡◌, refl, Text, codes, length, replicate,
}
use proxpulse_judge.Addr.Basic.{IpAddr, v4, v6}

-- `char::to_digit`
unfoldable pub to_digit : ℕ → ℕ → Option ℕ
to_digit radix c =
    let value =
      (if leb b'0' c && leb c b'9'
        then c - b'0'
        else if leb b'a' c && leb c b'f'
        then c - b'a' + 10
        else if leb b'A' c && leb c b'F'
        then c - b'A' + 10
        else 255) in
    if ltb value radix then some value else none

-- The number so far, how many digits it has, and `left` more digits allowed.
unfoldable pub read_digits : ℕ → ℕ → Text → ℕ → ℕ → Option (ℕ × ℕ × Text)
unfolding to_digit
read_digits radix left [] n count = some (n, count, [])
read_digits radix zero (c ∷ s) n count = elim (to_digit radix c) [
  | none ↦ some (n, count, c ∷ s)
  | some d ↦ none
]
read_digits radix (suc left) (c ∷ s) n count = elim (to_digit radix c) [
  | none ↦ some (n, count, c ∷ s)
  | some d ↦ read_digits radix left s (n * radix + d) (count + 1)
]

unfoldable pub zero_first : Text → Bool
zero_first [] = false
zero_first (c ∷ s) = c == b'0'

-- `read_number`: at most `most` digits, a value below `bound`, and a leading zero on its own only,
-- unless it is allowed.
unfoldable pub read_number : ℕ → ℕ → ℕ → Bool → Text → Option (ℕ × Text)
unfolding read_digits zero_first
read_number radix most bound allow_zero s = do
  (n, count, rest) ← read_digits radix most s 0 0
  if count == 0
        || (zero_first s && ltb 1 count && (if allow_zero then false else true))
        || leb bound n
      then none
      else some (n, rest)

unfoldable pub read_char : ℕ → Text → Option Text
read_char c [] = none
read_char c (d ∷ s) = if d == c then some s else none

unfoldable pub read_octet : Text → Option (ℕ × Text)
unfolding read_number
read_octet s = read_number 10 3 256 false s

unfoldable pub read_v4 : Text → Option (ℕ × ℕ × ℕ × ℕ × Text)
read_v4 s = do
  (a, s₁) ← read_octet s
  s₂ ← read_char b'.' s₁
  (b, s₃) ← read_octet s₂
  s₄ ← read_char b'.' s₃
  (c, s₅) ← read_octet s₄
  s₆ ← read_char b'.' s₅
  (d, s₇) ← read_octet s₆
  some (a, b, c, d, s₇)

-- `read_separator(':', i, …)`: no separator before the first group.
unfoldable pub read_sep : Bool → Text → Option Text
unfolding read_char
read_sep true s = some s
read_sep false s = read_char b':' s

unfoldable pub read_group : Bool → Text → Option (ℕ × Text)
read_group first s = do s' ← read_sep first s; read_number 16 4 65_536 true s'

-- An embedded IPv4 address needs two groups.
unfoldable pub read_embedded : ℕ → Bool → Text → Option (ℕ × ℕ × ℕ × ℕ × Text)
read_embedded zero first s = none
read_embedded (suc k) first s = do s' ← read_sep first s; read_v4 s'

-- At most `left` groups: the groups, whether an IPv4 address ended them, and the rest.
unfoldable pub read_groups : ℕ → Bool → Text → List ℕ × Bool × Text
read_groups zero first s = ([], false, s)
read_groups (suc k) first s = elim (read_embedded k first s) [
  | some (a, b, c, d, rest) ↦ ((a * 256 + b) ∷ (c * 256 + d) ∷ [], true, rest)
  | none ↦ elim (read_group first s) [
    | none ↦ ([], false, s)
    | some (g, rest) ↦ let (gs, v4_last, end) = read_groups k false rest in (g ∷ gs, v4_last, end)
  ]
]

unfoldable pub of_segments : List ℕ → Option IpAddr
of_segments (a ∷ b ∷ c ∷ d ∷ e ∷ f ∷ g ∷ h ∷ []) = some (v6 a b c d e f g h)
of_segments _ = none

-- The part behind `::`: it stands for one group of zeros at least.
unfoldable pub read_tail : List ℕ → Text → Option (IpAddr × Text)
read_tail head s = do
  s₁ ← read_char b':' s
  s₂ ← read_char b':' s₁
  let (gs, v4_last, rest) = read_groups (7 - length head) true s₂
  addr ← of_segments (head ++ (replicate (8 - length head - length gs) 0 ++ gs))
  some (addr, rest)

unfoldable pub read_v6 : Text → Option (IpAddr × Text)
read_v6 s =
    let (head, v4_last, rest) = read_groups 8 true s in
    let tail = read_tail head rest in
    if length head == 8
    then (do addr ← of_segments head; some (addr, rest))
    else if v4_last
    then none
    else tail

unfoldable pub read_addr : Text → Option (IpAddr × Text)
read_addr s = elim (read_v4 s) [
  | some (a, b, c, d, rest) ↦ some (v4 a b c d, rest)
  | none ↦ read_v6 s
]

-- The whole text has to be read.
unfoldable pub all_read : Option (IpAddr × Text) → Option IpAddr
all_read none = none
all_read (some (addr, [])) = some addr
all_read (some (addr, c ∷ rest)) = none

-- `s.parse::<IpAddr>()`
unfoldable pub parse_addr : Text → Option IpAddr
unfolding all_read read_addr read_v4 read_octet read_char read_v6 read_groups read_tail of_segments
    read_embedded read_group read_sep read_number
parse_addr s = all_read (read_addr s)

parse_tests :
    (parse_addr (codes "1.2.3.4") ≡ some (v4 1 2 3 4))
    × (parse_addr (codes "1.2.3.04") ≡ none)
    × (parse_addr (codes "1.2.3.256") ≡ none)
    × (parse_addr (codes "2001:0db8:0:0:0:0:0:1") ≡ some (v6 0x2001 0xdb8 0 0 0 0 0 1))
    × (parse_addr (codes "::ffff:1.2.3.4") ≡ some (v6 0 0 0 0 0 0xffff 0x102 0x304))
    × (parse_addr (codes "::") ≡ some (v6 0 0 0 0 0 0 0 0))
    × (parse_addr (codes "1:2") ≡ none)
unfolding parse_addr
parse_tests = (refl, refl, refl, refl, refl, refl, refl)
