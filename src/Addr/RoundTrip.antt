-- ===== src/Addr/RoundTrip.antt =====
-- Every address is read back from its print, but for an IPv4 address mapped into IPv6, which prints
-- in dotted form too and is no canonical address.
use proxpulse_judge.Base.{
  ℕ, zero, suc, ◌+◌, ◌-◌, ◌≤◌, ◌<◌, ◌≡◌, refl, ap, subst, ◌∙◌, Bool, true, false, Option, none,
  some, List, [], ◌∷◌, ◌++◌, append-nil, arith, ltb, ◌==◌, Bool-cases, inl, inr, length, get_elem?,
  take, drop, replicate, All, Text,
}
use proxpulse_judge.Addr.Basic.{
  IpAddr, v4, v6, IsAddr, is_mapped, to_canonical, is_mapped-to_canonical, to_canonical-IsAddr,
}
use proxpulse_judge.Addr.Print.{
  print_octet, print_groups, print_segments, print_addr, print_v4, longest_run,
}
use proxpulse_judge.Addr.Parse.{
  read_octet, read_char, read_v4, read_groups, read_tail, of_segments, read_v6, read_addr,
  parse_addr, to_digit, all_read,
}
use proxpulse_judge.Addr.Digits.{Stops, read_octet-print}
use proxpulse_judge.Addr.Groups.{
  NoDot, NoDot-read_v4, over, colons, read_groups-print, print_groups-NoDot,
}
use proxpulse_judge.Addr.Runs.{ZeroRun, longest_run-ZeroRun, ZeroRun-le, ZeroRun-splits}

dot-Stops : (s : Text) → Stops 10 (b'.' ∷ s)
unfolding to_digit
dot-Stops s = refl

read_dot : (s : Text) → read_char b'.' (b'.' ∷ s) ≡ some s
unfolding read_char
read_dot s = refl

pub read_v4-print :
    (a b c d : ℕ)
    → a < 256
    → b < 256
    → c < 256
    → d < 256
    → read_v4 (print_v4 a b c d) ≡ some (a, b, c, d, [])
unfolding read_v4 print_v4
read_v4-print a b c d ha hb hc hd =
    let td = print_octet d in
    let tc = print_octet c ++ (b'.' ∷ td) in
    let tb = print_octet b ++ (b'.' ∷ tc) in
    rw (read_octet-print a (b'.' ∷ tb) ha (dot-Stops tb), read_dot)
      (rw (read_octet-print b (b'.' ∷ tc) hb (dot-Stops tc), read_dot)
        (rw (read_octet-print c (b'.' ∷ td) hc (dot-Stops td), read_dot)
          (rw (
            subst (λ t. read_octet t ≡ some (d, [])) (append-nil td)
              (read_octet-print d [] hd tt)))))

All-take : (n : ℕ) (w : List ℕ) → All (λ g. g < 65536) w → All (λ g. g < 65536) (take n w)
All-take zero w h = tt
All-take (suc n) [] h = tt
All-take (suc n) (x ∷ w) (hx, h) = (hx, All-take n w h)

All-drop : (n : ℕ) (w : List ℕ) → All (λ g. g < 65536) w → All (λ g. g < 65536) (drop n w)
All-drop zero w h = h
All-drop (suc n) [] h = tt
All-drop (suc n) (x ∷ w) (hx, h) = All-drop n w h

length-take : (n : ℕ) (w : List ℕ) → n ≤ length w → length (take n w) ≡ n
length-take zero w h = refl
length-take (suc n) [] h = absurd (omega arith)
length-take (suc n) (x ∷ w) h = ap suc (length-take n w (omega arith))

length-drop : (n : ℕ) (w : List ℕ) → length (drop n w) ≡ length w - n
length-drop zero w = omega arith
length-drop (suc n) [] = omega arith
length-drop (suc n) (x ∷ w) = omega (arith, length-drop n w)

read_colons : (s : Text) → read_char b':' (b':' ∷ s) ≡ some s
unfolding read_char
read_colons s = refl

full_v6 :
    (s : Text) (w : List ℕ) (a : IpAddr) (b : Bool) (rest : Text)
    → read_groups 8 true s ≡ (w, b, rest)
    → length w ≡ 8
    → of_segments w ≡ some a
    → read_v6 s ≡ some (a, rest)
unfolding read_v6
full_v6 s w a b rest e eight whole = rw (e, eight, whole)

pub short_v6 :
    (s : Text) (head : List ℕ) (rest : Text) (r : Option (IpAddr × Text))
    → read_groups 8 true s ≡ (head, false, rest)
    → length head < 8
    → read_tail head rest ≡ r
    → read_v6 s ≡ r
unfolding read_v6
short_v6 s head rest r e few tail =
    let no : (length head == 8) ≡ false = ground arith in rw (e, no) tail

pub tail_lem :
    (head gs : List ℕ) (t end : Text) (b : Bool) (a : IpAddr)
    → read_groups (7 - length head) true t ≡ (gs, b, end)
    → of_segments (head ++ (replicate (8 - length head - length gs) 0 ++ gs)) ≡ some a
    → read_tail head (b':' ∷ b':' ∷ t) ≡ some (a, end)
unfolding read_tail
tail_lem head gs t end b a e whole = rw (read_colons, read_colons, e, whole)

module _ (w : List ℕ) (fits : All (λ g. g < 65536) w) (eight : length w ≡ 8) (a : IpAddr)
    (whole : of_segments w ≡ some a) where
  -- no run is written `::`
  read_full : read_v6 (print_groups w) ≡ some (a, [])
  read_full =
      full_v6 (print_groups w) w a false []
        (subst (λ t. read_groups 8 true t ≡ (w, false, [])) (append-nil (print_groups w))
          (read_groups-print w 8 [] fits (omega arith) over))
        eight whole

  module _ (start len : ℕ) (run : ZeroRun w start len) (two : 1 < len) where
    read_short :
        read_v6 (print_groups (take start w) ++ (b':' ∷ b':' ∷ print_groups (drop (start + len) w)))
        ≡ some (a, [])
    read_short =
        let head = take start w in
        let gs = drop (start + len) w in
        let inside = ZeroRun-le w start len run (omega arith) in
        let long = length-take start w (omega arith) in
        let behind = length-drop (start + len) w in
        let zeros : 8 - length head - length gs ≡ len = omega arith in
        short_v6 _ head (b':' ∷ b':' ∷ print_groups gs) (some (a, []))
          (read_groups-print head 8 _ (All-take start w fits) (omega arith) (colons _))
          (omega arith)
          (tail_lem head gs (print_groups gs) [] false a
            (subst (λ t. read_groups (7 - length head) true t ≡ (gs, false, []))
              (append-nil (print_groups gs))
              (read_groups-print gs (7 - length head) [] (All-drop (start + len) w fits)
                (omega arith) over))
            (rw zeros (rw (ZeroRun-splits w start len run inside) whole)))

  run_of : ZeroRun w (longest_run w 0 0 0 0 0).0 (longest_run w 0 0 0 0 0).1
  run_of =
      longest_run-ZeroRun w w 0 0 0 0 0 (λ j. ap (get_elem? w) (omega arith))
        (λ p. absurd (omega arith)) (λ j le lt. absurd (omega arith))
        (λ j le lt. absurd (omega arith))

  read_segments : read_v6 (print_segments w) ≡ some (a, [])
  unfolding print_segments
  read_segments = elim (Bool-cases (ltb 1 (longest_run w 0 0 0 0 0).1)) [
    | inl short ↦
        rw short
          (read_short (longest_run w 0 0 0 0 0).0 (longest_run w 0 0 0 0 0).1 run_of (ground arith))
    | inr full ↦ rw full read_full
  ]

  segments-NoDot : NoDot (print_segments w)
  unfolding print_segments
  segments-NoDot = elim (Bool-cases (ltb 1 (longest_run w 0 0 0 0 0).1)) [
    | inl short ↦ rw short (print_groups-NoDot (take (longest_run w 0 0 0 0 0).0 w) _ (colons _))
    | inr full ↦ rw full (subst NoDot (append-nil (print_groups w)) (print_groups-NoDot w [] over))
  ]

read_addr-v4 :
    (s : Text) (a b c d : ℕ) (rest : Text)
    → read_v4 s ≡ some (a, b, c, d, rest)
    → read_addr s ≡ some (v4 a b c d, rest)
unfolding read_addr
read_addr-v4 s a b c d rest e = rw (e, read_addr)

pub read_addr-v6 : (s : Text) → read_v4 s ≡ none → read_addr s ≡ read_v6 s
unfolding read_addr
read_addr-v6 s e = rw (e, read_addr)

pub parse_of : (s : Text) (a : IpAddr) → read_addr s ≡ some (a, []) → parse_addr s ≡ some a
unfolding parse_addr
parse_of s a e = ap all_read e

print_addr-v6 :
    (a b c d e f g k : ℕ)
    → is_mapped (v6 a b c d e f g k) ≡ false
    → print_addr (v6 a b c d e f g k) ≡ print_segments (a ∷ b ∷ c ∷ d ∷ e ∷ f ∷ g ∷ k ∷ [])
unfolding print_addr
print_addr-v6 a b c d e f g k m = rw m

print_addr-v4 : (a b c d : ℕ) → print_addr (v4 a b c d) ≡ print_v4 a b c d
unfolding print_addr
print_addr-v4 a b c d = refl

-- An address whose octets or segments are in range, and which is no mapped IPv4 address, is read
-- back from its print.
pub parse-print : (a : IpAddr) → IsAddr a → is_mapped a ≡ false → parse_addr (print_addr a) ≡ some a
parse-print (v4 a b c d) (ha, hb, hc, hd) m =
    rw (print_addr-v4 a b c d)
      (parse_of _ (v4 a b c d) (read_addr-v4 _ a b c d [] (read_v4-print a b c d ha hb hc hd)))
parse-print (v6 a b c d e f g k) (ha, hb, hc, hd, he, hf, hg, hk) m =
    let w = a ∷ b ∷ c ∷ d ∷ e ∷ f ∷ g ∷ k ∷ [] in
    let fits : All (λ n. n < 65536) w = omega arith in
    let addr = v6 a b c d e f g k in
    let whole : of_segments w ≡ some addr = unfold of_segments in refl in
    rw (print_addr-v6 a b c d e f g k m) (
      parse_of _ addr (
        read_addr-v6 _ (NoDot-read_v4 _ (segments-NoDot w fits refl addr whole))
        ∙ read_segments w fits refl addr whole))

-- The canonical form of an address is read back from its print.
pub parse-print_canonical :
    (a : IpAddr) → IsAddr a → parse_addr (print_addr (to_canonical a)) ≡ some (to_canonical a)
parse-print_canonical a h =
    parse-print (to_canonical a) (to_canonical-IsAddr a h) (is_mapped-to_canonical a)
