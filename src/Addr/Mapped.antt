-- ===== src/Addr/Mapped.antt =====
-- Reading the print of an IPv4 address that is mapped into IPv6, and of every address.
use proxpulse_judge.Base.{
  ℕ, suc, ◌+◌, ◌*◌, ◌/◌, ◌%◌, ◌<◌, ◌≡◌, ◌≢◌, refl, sym, ap, subst, ◌∙◌, inl, inr, Bool, true, false,
  Option, some, [], ◌∷◌, ◌++◌, arith, Text, codes, Bool-cases,
}
use proxpulse_judge.Addr.Basic.{IpAddr, v4, v6, IsAddr, is_mapped}
use proxpulse_judge.Addr.Print.{print_addr, print_v4}
use proxpulse_judge.Addr.Parse.{
  parse_addr, read_v4, read_groups, read_embedded, read_group, read_sep, read_char, read_number,
  of_segments,
}
use proxpulse_judge.Addr.Groups.{
  colons, NoDot-read_v4, read_no_groups, read_embedded-none, step_groups,
}
use proxpulse_judge.Addr.RoundTrip.{
  read_v4-print, short_v6, tail_lem, read_addr-v6, parse_of, parse-print,
}

abbrev quad : ℕ → ℕ → Text
quad g h = print_v4 (g / 256) (g % 256) (h / 256) (h % 256)

quad_read :
    (g h : ℕ)
    → g < 65536
    → h < 65536
    → read_v4 (quad g h) ≡ some (g / 256, g % 256, h / 256, h % 256, [])
quad_read g h gw hw =
    read_v4-print (g / 256) (g % 256) (h / 256) (h % 256) (omega arith) (omega arith) (omega arith)
      (omega arith)

embedded_groups :
    (k : ℕ) (first : Bool) (s : Text) (a b c d : ℕ) (rest : Text)
    → read_embedded k first s ≡ some (a, b, c, d, rest)
    → read_groups (suc k) first s ≡ ((a * 256 + b) ∷ (c * 256 + d) ∷ [], true, rest)
unfolding read_groups
embedded_groups k first s a b c d rest e = rw (e, read_groups) refl

behind_colon :
    (k : ℕ) (q : Text) (r : Option (ℕ × ℕ × ℕ × ℕ × Text))
    → read_v4 q ≡ r
    → read_embedded (suc k) false (b':' ∷ q) ≡ r
unfolding read_embedded read_sep read_char
behind_colon k q r e = e

not_dot : ◌≢◌ {A = ℕ} b'f' b'.'
not_dot e = omega arith

halves : (g : ℕ) → g / 256 * 256 + g % 256 ≡ g
halves g = omega arith

module _ (g h : ℕ) (gw : g < 65536) (hw : h < 65536) where
  last_groups : read_groups 6 false (b':' ∷ quad g h) ≡ (g ∷ h ∷ [], true, [])
  last_groups =
      embedded_groups 5 false (b':' ∷ quad g h) _ _ _ _ []
        (behind_colon 4 (quad g h) _ (quad_read g h gw hw))
      ∙ ap (λ (x : ℕ). (x ∷ (h / 256 * 256 + h % 256) ∷ [], true, [])) (halves g)
      ∙ ap (λ (x : ℕ). (g ∷ x ∷ [], true, [])) (halves h)

  first_group : read_groups 7 true (codes "ffff:" ++ quad g h) ≡ (0xffff ∷ g ∷ h ∷ [], true, [])
  first_group =
      step_groups 6 true (codes "ffff:" ++ quad g h) 0xffff (b':' ∷ quad g h) (g ∷ h ∷ []) true []
        (read_embedded-none 6 true _ (codes "ffff:" ++ quad g h) (unfold read_sep in refl)
          (let f = not_dot in inr (f, inr (f, inr (f, inr (f, inl refl))))))
        (unfold read_group read_sep read_number in refl) last_groups

  read_mapped : parse_addr (codes "::ffff:" ++ quad g h) ≡ some (v6 0 0 0 0 0 0xffff g h)
  read_mapped =
      let s = codes "::ffff:" ++ quad g h in
      parse_of s (v6 0 0 0 0 0 0xffff g h) (
        read_addr-v6 s (NoDot-read_v4 s (inl refl))
        ∙ short_v6 s [] s (some (v6 0 0 0 0 0 0xffff g h, []))
            (read_no_groups 8 s (colons (codes "ffff:" ++ quad g h))) (omega arith)
            (tail_lem [] (0xffff ∷ g ∷ h ∷ []) (codes "ffff:" ++ quad g h) [] true
              (v6 0 0 0 0 0 0xffff g h) first_group (unfold of_segments in refl)))

is_mapped_inv :
    (a b c d e f g h : ℕ)
    → is_mapped (v6 a b c d e f g h) ≡ true
    → v6 a b c d e f g h ≡ v6 0 0 0 0 0 0xffff g h
unfolding is_mapped
is_mapped_inv a b c d e f g h m = ground arith

print_mapped : (g h : ℕ) → print_addr (v6 0 0 0 0 0 0xffff g h) ≡ codes "::ffff:" ++ quad g h
unfolding print_addr
print_mapped g h = refl

parse-print_mapped :
    (a : IpAddr) → IsAddr a → is_mapped a ≡ true → parse_addr (print_addr a) ≡ some a
parse-print_mapped (v4 a b c d) w m = absurd (unfold is_mapped in (cc))
parse-print_mapped (v6 a b c d e f g h) w m =
    subst (λ x. parse_addr (print_addr x) ≡ some x) (sym (is_mapped_inv a b c d e f g h m))
      (ap parse_addr (print_mapped g h) ∙ read_mapped g h w.6 w.7)

-- Every address whose octets or segments are in range is read back from its print.
pub parse-print_all : (a : IpAddr) → IsAddr a → parse_addr (print_addr a) ≡ some a
parse-print_all a w = elim (Bool-cases (is_mapped a)) [
  | inr plain ↦ parse-print a w plain
  | inl mapped ↦ parse-print_mapped a w mapped
]
