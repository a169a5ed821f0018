-- ===== src/Host/Normal.antt =====
-- src/logic.rs: `normalize_host` on printed addresses and on what it gives itself.
use proxpulse_judge.Base.{
  ℕ, ◌+◌, ◌≤◌, ◌≡◌, ◌≢◌, refl, sym, ap, subst, ◌∙◌, inl, inr, Bool, true, false, ◌&&◌, ◌||◌, Option,
  none, some, none-some, some_inj, &&-true, ltb, ◌==◌, if◌then◌else◌, List, [], ◌∷◌, ◌++◌, arith,
  map_option, Text, all, length, Bool-cases, Option-cases, is_empty,
}
use proxpulse_judge.Str.Basic.{
  trim, trim_start_matches, trim_end_matches, is_whitespace, strip_prefix, starts_with, rsplit_once,
  is_ascii_digit,
}
use proxpulse_judge.Addr.Basic.{IpAddr, v4, v6, IsAddr, is_mapped, to_canonical}
use proxpulse_judge.Addr.Print.{print_addr, print_v4, print_segments, longest_run, print_group}
use proxpulse_judge.Addr.Parse.{parse_addr}
use proxpulse_judge.Addr.Range.{parse_addr-IsAddr}
use proxpulse_judge.Addr.Groups.{more_groups, print_groups-cons}
use proxpulse_judge.Host.Basic.{
  clean_host, clean_trimmed, bare_v4_port, canonical_text, normalize_host, is_ipv4_char,
}
use proxpulse_judge.Host.Leak.{printed, print_addr-chars, print_v4-chars}
use proxpulse_judge.Host.Canonical.{normalize_host-canonical}

-- How often a character stands in a text.
count : ℕ → Text → ℕ
count c [] = 0
count c (d ∷ s) = (if d == c then 1 else 0) + count c s

count-append : (c : ℕ) (s t : Text) → count c (s ++ t) ≡ count c s + count c t
unfolding count
count-append c [] t = omega arith
count-append c (d ∷ s) t = omega (arith, count-append c s t)

-- What `rsplit_once` cuts off holds no separator, and the parts make up the text.
rsplit_lacks : (c : ℕ) (s : Text) → rsplit_once c s ≡ none → count c s ≡ 0
unfolding rsplit_once count
rsplit_lacks c [] h = refl
rsplit_lacks c (d ∷ s) h = elim (Option-cases (rsplit_once c s)) [
  | inr (p, e) ↦ absurd (none-some (sym (rw (rsplit_once, e) at h)))
  | inl e ↦ ground (arith, rsplit_lacks c s e)
]

rsplit_count :
    (c : ℕ) (s : Text) (p : Text × Text) → rsplit_once c s ≡ some p → count c s ≡ count c p.0 + 1
unfolding rsplit_once count
rsplit_count c [] p h = absurd (none-some h)
rsplit_count c (d ∷ s) p h = elim (Option-cases (rsplit_once c s)) [
  | inl e ↦ ground (arith, rsplit_lacks c s e)
  | inr (q, e) ↦ ground (arith, rsplit_count c s q e)
]

rsplit_none : (c : ℕ) (s : Text) → count c s ≡ 0 → rsplit_once c s ≡ none
unfolding rsplit_once count
rsplit_none c [] h = refl
rsplit_none c (d ∷ s) h = ground (arith, rsplit_none c s)

-- A text of digits and dots has no colon.
bare_count : (s : Text) → all (λ c. is_ascii_digit c || c == b'.') s ≡ true → count b':' s ≡ 0
unfolding count is_ascii_digit
bare_count [] h = refl
bare_count (c ∷ s) h = ground (arith, bare_count s)

end_keeps : (b : Bool) (c : ℕ) (s : Text) → (if b && false then [] else (c ∷ s)) ≡ c ∷ s
end_keeps true c s = refl
end_keeps false c s = refl

printed-dark : (c : ℕ) → printed c ≡ true → is_whitespace c ≡ false
unfolding printed is_whitespace is_ascii_digit
printed-dark c h = ground arith

printed-tail : (c : ℕ) (s : Text) → all printed (c ∷ s) ≡ true → all printed s ≡ true
printed-tail c s h = (&&-true (printed c) (all printed s) h).1

start-printed : (s : Text) → all printed s ≡ true → trim_start_matches is_whitespace s ≡ s
unfolding trim_start_matches
start-printed [] h = refl
start-printed (c ∷ s) h = rw (printed-dark c (&&-true _ _ h).0) refl

end-printed : (s : Text) → all printed s ≡ true → trim_end_matches is_whitespace s ≡ s
unfolding trim_end_matches
end-printed [] h = refl
end-printed (c ∷ s) h =
    rw (printed-dark c (&&-true _ _ h).0, end-printed s (printed-tail c s h))
      (end_keeps (is_empty s) c s)

printed-trim : (s : Text) → all printed s ≡ true → trim s ≡ s
unfolding trim
printed-trim s h = rw (start-printed s h, end-printed s h) refl

printed-open : (s : Text) → all printed s ≡ true → strip_prefix (b'[' ∷ []) s ≡ none
unfolding strip_prefix starts_with printed is_ascii_digit
printed-open [] h = refl
printed-open (c ∷ s) h = ground arith

bare_digits :
    (ip port : Text)
    → bare_v4_port ip port ≡ true
    → all (λ c. is_ascii_digit c || c == b'.') ip ≡ true
unfolding bare_v4_port
bare_digits ip port h = (&&-true _ _ h).1

-- With no colon, or with two, a printed text is clean.
clean_trimmed-printed : (s : Text) → all printed s ≡ true → count b':' s ≢ 1 → clean_trimmed s ≡ s
unfolding clean_trimmed
clean_trimmed-printed s h n = elim (Option-cases (rsplit_once b':' s)) [
  | inl e ↦ rw (clean_trimmed, printed-open s h, e) refl
  | inr ((ip, port), e) ↦ elim (Bool-cases (bare_v4_port ip port)) [
    | inl bare ↦ absurd (
        n (
          rsplit_count b':' s (ip, port) e
          ∙ ap (λ (k : ℕ). k + 1) (bare_count ip (bare_digits ip port bare))))
    | inr other ↦ rw (clean_trimmed, printed-open s h, e, other) refl
  ]
]

clean-printed : (s : Text) → all printed s ≡ true → count b':' s ≢ 1 → clean_host s ≡ s
unfolding clean_host
clean-printed s h n = ap clean_trimmed (printed-trim s h) ∙ clean_trimmed-printed s h n

count_v4 : (a b c d : ℕ) → count b':' (print_v4 a b c d) ≡ 0
count_v4 a b c d = bare_count (print_v4 a b c d) (unfold is_ipv4_char in print_v4-chars a b c d)

count_more : (gs : List ℕ) → length gs ≤ count b':' (more_groups gs)
unfolding more_groups count
count_more [] = omega arith
count_more (g ∷ gs) =
    omega (arith, count_more gs, count-append b':' (print_group g) (more_groups gs))

two_more : (s t : Text) → 2 ≤ count b':' (s ++ (b':' ∷ b':' ∷ t))
unfolding count
two_more s t = omega (arith, count-append b':' s (b':' ∷ b':' ∷ t))

count_segments : (a b c : ℕ) (gs : List ℕ) → 2 ≤ count b':' (print_segments (a ∷ b ∷ c ∷ gs))
unfolding print_segments
count_segments a b c gs = elim (Bool-cases (ltb 1 (longest_run (a ∷ b ∷ c ∷ gs) 0 0 0 0 0).1)) [
  | inl e ↦ rw e (two_more _ _)
  | inr e ↦
      rw (e, print_groups-cons a (b ∷ c ∷ gs))
        (omega (
          arith,
          count-append b':' (print_group a) (more_groups (b ∷ c ∷ gs)),
          count_more (b ∷ c ∷ gs),
        ))
]

count_addr : (ip : IpAddr) → count b':' (print_addr ip) ≢ 1
unfolding print_addr count
count_addr (v4 a b c d) h = omega (arith, count_v4 a b c d)
count_addr (v6 a b c d e f g h) k = elim (Bool-cases (is_mapped (v6 a b c d e f g h))) [
  | inl m ↦ omega (arith, rw m at k)
  | inr m ↦ omega (arith, rw m at k, count_segments a b c (d ∷ e ∷ f ∷ g ∷ h ∷ []))
]

-- A printed address is clean, so its text is normalized to itself.
pub clean-print_addr : (ip : IpAddr) → clean_host (print_addr ip) ≡ print_addr ip
clean-print_addr ip = clean-printed (print_addr ip) (print_addr-chars ip) (count_addr ip)

canonical_fixed :
    (ip : IpAddr) → IsAddr ip → normalize_host (canonical_text ip) ≡ some (canonical_text ip)
canonical_fixed ip h =
    normalize_host-canonical (canonical_text ip) ip h
      (unfold canonical_text in clean-print_addr (to_canonical ip))

normal_of :
    (o : Option IpAddr) (n : Text)
    → map_option canonical_text o ≡ some n
    → (a : IpAddr) × (o ≡ some a) × (canonical_text a ≡ n)
normal_of none n h = absurd (none-some h)
normal_of (some a) n h = (a, refl, some_inj h)

-- A text that `normalize_host` gives is the canonical text of an address in range.
pub normalize_host_inv :
    (t n : Text) → normalize_host t ≡ some n → (a : IpAddr) × IsAddr a × (canonical_text a ≡ n)
unfolding normalize_host
normalize_host_inv t n h =
    let (a, e, same) = normal_of (parse_addr (clean_host t)) n h in
    (a, parse_addr-IsAddr (clean_host t) a e, same)

-- Normalizing is idempotent: what a text is normalized to is normalized to itself.
pub normalize_host_idem : (t n : Text) → normalize_host t ≡ some n → normalize_host n ≡ some n
normalize_host_idem t n h =
    let (a, w, same) = normalize_host_inv t n h in
    subst (λ m. normalize_host m ≡ some m) same (canonical_fixed a w)
