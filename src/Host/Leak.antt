-- ===== src/Host/Leak.antt =====
-- src/logic.rs: which texts `ip_in_text` finds an address in.
use proxpulse_judge.Base.{
  ℕ, zero, suc, ◌+◌, ◌/◌, ◌%◌, ◌<◌, Bool, true, false, ◌&&◌, ◌||◌, ◌≡◌, ◌⊎◌, inl, inr, refl, ap,
  List, [], ◌∷◌, ◌++◌, arith, if◌then◌else◌, ltb, leb, ◌==◌, Text, codes, text_eq, text_eq_iff, all,
  is_empty, take, drop, filter_map, all-append, Bool-cases, &&-true, any-Any, Any, ◌↔◌,
}
use proxpulse_judge.Str.Basic.{
  is_ascii_digit, is_ascii_hexdigit, to_ascii_lowercase, print_digits, digit_char, join, lower_char,
}
use proxpulse_judge.Str.Find.{Alone, find_alone, find_alone_complete, find_alone_sound}
use proxpulse_judge.Addr.Basic.{IpAddr, v4, v6, to_canonical, is_mapped}
use proxpulse_judge.Addr.Print.{
  print_addr, print_v4, print_octet, print_group, print_groups, print_segments, longest_run,
}
use proxpulse_judge.Addr.Groups.{more_groups, print_groups-cons}
use proxpulse_judge.Host.Basic.{
  is_ipv4_char, is_ipv6_char, boundary, address_tokens, ip_in_text, normalize_host,
}

-- The characters of printed addresses: no letter is a capital.
unfoldable pub printed : ℕ → Bool
unfolding is_ascii_digit
printed c = is_ascii_digit c || (leb b'a' c && leb c b'f') || c == b':' || c == b'.'

digits_all :
    (p : ℕ → Bool) (radix f n : ℕ) (acc : Text)
    → ((d : ℕ) → d < radix → p (digit_char d) ≡ true)
    → 0 < radix
    → all p acc ≡ true
    → all p (print_digits radix f n acc) ≡ true
unfolding print_digits
digits_all p radix zero n acc h pos good = rw (h (n % radix) (omega arith)) good
digits_all p radix (suc f) n acc h pos good = elim (Bool-cases (ltb n radix)) [
  | inl e ↦ rw e (rw (h n (ground arith)) good)
  | inr e ↦ rw e (
      digits_all p radix f (n / radix) (digit_char (n % radix) ∷ acc) h pos
        (rw (h (n % radix) (omega arith)) good))
]

decimal-v4 : (d : ℕ) → d < 10 → is_ipv4_char (digit_char d) ≡ true
unfolding is_ipv4_char is_ascii_digit digit_char
decimal-v4 d h = ground arith

hex-printed : (d : ℕ) → d < 16 → printed (digit_char d) ≡ true
unfolding printed digit_char
hex-printed d h = ground arith

all-both : (p : ℕ → Bool) (s t : Text) → all p s ≡ true → all p t ≡ true → all p (s ++ t) ≡ true
all-both p s t h k = rw (all-append p s t, h, k) refl

print_octet-chars : (n : ℕ) → all is_ipv4_char (print_octet n) ≡ true
unfolding print_octet
print_octet-chars n = digits_all is_ipv4_char 10 2 n [] decimal-v4 (omega arith) refl

dotted :
    (n : ℕ) (s : Text)
    → all is_ipv4_char s ≡ true
    → all is_ipv4_char (print_octet n ++ (b'.' ∷ s)) ≡ true
dotted n s h =
    all-both is_ipv4_char (print_octet n) (b'.' ∷ s) (print_octet-chars n)
      (unfold is_ipv4_char is_ascii_digit in h)

pub print_v4-chars : (a b c d : ℕ) → all is_ipv4_char (print_v4 a b c d) ≡ true
unfolding print_v4
print_v4-chars a b c d = dotted a _ (dotted b _ (dotted c (print_octet d) (print_octet-chars d)))

print_group-chars : (g : ℕ) → all printed (print_group g) ≡ true
unfolding print_group
print_group-chars g = digits_all printed 16 3 g [] hex-printed (omega arith) refl

colon : (s : Text) → all printed s ≡ true → all printed (b':' ∷ s) ≡ true
unfolding printed is_ascii_digit
colon s h = h

more_groups-chars : (gs : List ℕ) → all printed (more_groups gs) ≡ true
unfolding more_groups
more_groups-chars [] = refl
more_groups-chars (g ∷ gs) =
    colon (print_group g ++ more_groups gs) (
      all-both printed (print_group g) (more_groups gs) (print_group-chars g)
        (more_groups-chars gs))

print_groups-chars : (gs : List ℕ) → all printed (print_groups gs) ≡ true
print_groups-chars [] = unfold print_groups join in refl
print_groups-chars (g ∷ gs) =
    rw (print_groups-cons g gs) (
      all-both printed (print_group g) (more_groups gs) (print_group-chars g)
        (more_groups-chars gs))

implies-all :
    (p q : ℕ → Bool)
    → ((c : ℕ) → p c ≡ true → q c ≡ true)
    → (s : Text) → all p s ≡ true
    → all q s ≡ true
implies-all p q f [] h = refl
implies-all p q f (c ∷ s) h = ground (arith, f c, implies-all p q f s)

v4-printed : (c : ℕ) → is_ipv4_char c ≡ true → printed c ≡ true
unfolding is_ipv4_char printed
v4-printed c h = ground arith

printed-v6 : (c : ℕ) → printed c ≡ true → is_ipv6_char c ≡ true
unfolding is_ipv6_char printed is_ascii_hexdigit
printed-v6 c h = ground arith

lower_char-printed : (c : ℕ) → printed c ≡ true → lower_char c ≡ c
unfolding lower_char printed is_ascii_digit
lower_char-printed c h = ground arith

lower-printed : (s : Text) → all printed s ≡ true → to_ascii_lowercase s ≡ s
unfolding to_ascii_lowercase
lower-printed [] h = refl
lower-printed (c ∷ s) h =
    rw (lower_char-printed c (&&-true _ _ h).0)
      (ap (λ t. c ∷ t) (lower-printed s (&&-true _ _ h).1))

around : (gs hs : List ℕ) → all printed (print_groups gs ++ (b':' ∷ b':' ∷ print_groups hs)) ≡ true
around gs hs =
    all-both printed (print_groups gs) (b':' ∷ b':' ∷ print_groups hs) (print_groups-chars gs)
      (colon (b':' ∷ print_groups hs) (colon (print_groups hs) (print_groups-chars hs)))

print_segments-chars : (gs : List ℕ) → all printed (print_segments gs) ≡ true
unfolding print_segments
print_segments-chars gs = elim (Bool-cases (ltb 1 (longest_run gs 0 0 0 0 0).1)) [
  | inl e ↦ rw e (
      around (take (longest_run gs 0 0 0 0 0).0 gs)
        (drop ((longest_run gs 0 0 0 0 0).0 + (longest_run gs 0 0 0 0 0).1) gs))
  | inr e ↦ rw e (print_groups-chars gs)
]

pub print_addr-chars : (ip : IpAddr) → all printed (print_addr ip) ≡ true
unfolding print_addr
print_addr-chars (v4 a b c d) =
    implies-all is_ipv4_char printed v4-printed (print_v4 a b c d) (print_v4-chars a b c d)
print_addr-chars (v6 a b c d e f g h) = elim (Bool-cases (is_mapped (v6 a b c d e f g h))) [
  | inl m ↦ rw m (
      all-both printed (codes "::ffff:") (print_v4 (g / 256) (g % 256) (h / 256) (h % 256))
        (unfold printed is_ascii_digit in refl)
        (implies-all is_ipv4_char printed v4-printed _
          (print_v4-chars (g / 256) (g % 256) (h / 256) (h % 256))))
  | inr m ↦ rw m (print_segments-chars (a ∷ b ∷ c ∷ d ∷ e ∷ f ∷ g ∷ h ∷ []))
]

boundary-needle : (ip : IpAddr) → all (boundary ip) (print_addr ip) ≡ true
unfolding boundary
boundary-needle (v4 a b c d) = unfold print_addr in print_v4-chars a b c d
boundary-needle (v6 a b c d e f g h) =
    implies-all printed is_ipv6_char printed-v6 _ (print_addr-chars (v6 a b c d e f g h))

filled_before : (s t : Text) (c : ℕ) → is_empty (s ++ (c ∷ t)) ≡ false
filled_before [] t c = refl
filled_before (d ∷ s) t c = refl

filled-print_segments : (a b : ℕ) (gs : List ℕ) → is_empty (print_segments (a ∷ b ∷ gs)) ≡ false
unfolding print_segments more_groups
filled-print_segments a b gs = elim (Bool-cases (ltb 1 (longest_run (a ∷ b ∷ gs) 0 0 0 0 0).1)) [
  | inl e ↦ rw e (filled_before _ _ b':')
  | inr e ↦ rw (e, print_groups-cons a (b ∷ gs)) (filled_before (print_group a) _ b':')
]

filled-print_addr : (ip : IpAddr) → is_empty (print_addr ip) ≡ false
unfolding print_addr
filled-print_addr (v4 a b c d) = unfold print_v4 in filled_before (print_octet a) _ b'.'
filled-print_addr (v6 a b c d e f g h) = elim (Bool-cases (is_mapped (v6 a b c d e f g h))) [
  | inl m ↦ rw m refl
  | inr m ↦ rw m (filled-print_segments a b (c ∷ d ∷ e ∷ f ∷ g ∷ h ∷ []))
]

pub lower-print_addr : (ip : IpAddr) → to_ascii_lowercase (print_addr ip) ≡ print_addr ip
lower-print_addr ip = lower-printed (print_addr ip) (print_addr-chars ip)

-- The address is in the text, in lower case, with no character of an address beside it.
abbrev pub Apart : Text → IpAddr → Type 0
Apart text addr =
    Alone (boundary (to_canonical addr)) (print_addr (to_canonical addr)) (to_ascii_lowercase text)

-- A run of address characters in the text is, once it is normalized, the address.
abbrev pub Reads : Text → IpAddr → Type 0
Reads text addr =
    Any (λ c. c ≡ print_addr (to_canonical addr))
      (filter_map normalize_host (address_tokens (to_ascii_lowercase text)))

if_iff :
    (a b : Bool) (P Q : Type 0)
    → (a ≡ true) ↔ P
    → (b ≡ true) ↔ Q
    → ((if a then true else b) ≡ true) ↔ (P ⊎ Q)
if_iff a b P Q h k = ground (arith, h, k)

alone_iff :
    (text : Text) (addr : IpAddr)
    → (find_alone
          (boundary (to_canonical addr))
          (print_addr (to_canonical addr))
          (to_ascii_lowercase text)
        ≡ true)
      ↔ Apart text addr
alone_iff text addr = (
  find_alone_sound _ _ _ (filled-print_addr (to_canonical addr)),
  find_alone_complete _ _ _ (boundary-needle (to_canonical addr))
      (filled-print_addr (to_canonical addr)),
)

-- `ip_in_text` finds an address exactly where it stands apart in the text, in the canonical form
-- and in any case of its letters, or where a run of address characters normalizes to it.
pub ip_in_text_iff :
    (text : Text) (addr : IpAddr)
    → (ip_in_text text addr ≡ true) ↔ (Apart text addr ⊎ Reads text addr)
unfolding ip_in_text
ip_in_text_iff text addr = rw (lower-print_addr (to_canonical addr)) (
    if_iff _ _ (Apart text addr) (Reads text addr) (alone_iff text addr) (
      any-Any (λ c. text_eq c (print_addr (to_canonical addr)))
        (λ c. c ≡ print_addr (to_canonical addr))
        (λ c. text_eq_iff c (print_addr (to_canonical addr)))
        (filter_map normalize_host (address_tokens (to_ascii_lowercase text)))))
