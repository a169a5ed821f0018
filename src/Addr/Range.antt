-- ===== src/Addr/Range.antt =====
-- What is read of an address has octets and segments in range.
use proxpulse_judge.Base.{
  ℕ, zero, suc, ◌+◌, ◌-◌, ◌*◌, ◌<◌, ◌≡◌, refl, sym, ap, subst, ◌∙◌, inl, inr, Bool, true, false,
  Option, none, some, none-some, some_inj, List, [], ◌∷◌, ◌++◌, arith, ◌==◌, Bool-cases,
  Option-cases, length, replicate, All, Text,
}
use proxpulse_judge.Addr.Basic.{IpAddr, IsAddr}
use proxpulse_judge.Addr.Parse.{
  read_number, read_octet, read_char, read_v4, read_sep, read_group, read_embedded, read_groups,
  read_tail, of_segments, read_v6, read_addr, parse_addr, all_read,
}

-- `>>=` that stays shut, so that a chain is taken apart link by link.
bind {ℓ κ} : {A : Type ℓ} {B : Type κ} → Option A → (A → Option B) → Option B
bind none f = none
bind (some a) f = f a

bind_inv {ℓ κ} :
    {A : Type ℓ} {B : Type κ} (m : Option A) (f : A → Option B) {b : B}
    → bind m f ≡ some b
    → (a : A) × (m ≡ some a) × (f a ≡ some b)
unfolding bind
bind_inv none f h = cc
bind_inv (some a) f h = (a, refl, h)

read_number-lt :
    (radix most bound : ℕ) (allow : Bool) (s : Text) (r : ℕ × Text)
    → read_number radix most bound allow s ≡ some r
    → r.0 < bound
unfolding read_number
read_number-lt radix most bound allow s (n, rest) h = ground arith

read_octet-lt : (s : Text) (r : ℕ × Text) → read_octet s ≡ some r → r.0 < 256
unfolding read_octet
read_octet-lt s r h = read_number-lt 10 3 256 false s r h

v4_chain : Text → Option (ℕ × ℕ × ℕ × ℕ × Text)
unfolding bind
v4_chain s = bind (read_octet s) (λ r₁. bind (read_char b'.' r₁.1) (λ s₁.
    bind (read_octet s₁) (λ r₂. bind (read_char b'.' r₂.1) (λ s₂. bind (read_octet s₂) (λ r₃.
      bind (read_char b'.' r₃.1)
        (λ s₃. bind (read_octet s₃) (λ r₄. some (r₁.0, r₂.0, r₃.0, r₄.0, r₄.1))))))))

read_v4-chain : (s : Text) → read_v4 s ≡ v4_chain s
unfolding read_v4 v4_chain bind
read_v4-chain s = refl

abbrev Octets : ℕ × ℕ × ℕ × ℕ × Text → Type 0
Octets (a, b, c, d, rest) = (a < 256) × (b < 256) × (c < 256) × (d < 256)

v4_chain-lt : (s : Text) (r : ℕ × ℕ × ℕ × ℕ × Text) → v4_chain s ≡ some r → Octets r
unfolding v4_chain
v4_chain-lt s r h =
    let (r₁, e₁, k₁) = bind_inv (read_octet s) _ h in
    let (s₁, _, l₁) = bind_inv (read_char b'.' r₁.1) _ k₁ in
    let (r₂, e₂, k₂) = bind_inv (read_octet s₁) _ l₁ in
    let (s₂, _, l₂) = bind_inv (read_char b'.' r₂.1) _ k₂ in
    let (r₃, e₃, k₃) = bind_inv (read_octet s₂) _ l₂ in
    let (s₃, _, l₃) = bind_inv (read_char b'.' r₃.1) _ k₃ in
    let (r₄, e₄, k₄) = bind_inv (read_octet s₃) _ l₃ in
    subst Octets (some_inj k₄) (
      read_octet-lt s r₁ e₁,
      read_octet-lt s₁ r₂ e₂,
      read_octet-lt s₂ r₃ e₃,
      read_octet-lt s₃ r₄ e₄,
    )

read_v4-lt : (s : Text) (r : ℕ × ℕ × ℕ × ℕ × Text) → read_v4 s ≡ some r → Octets r
read_v4-lt s r h = v4_chain-lt s r (sym (read_v4-chain s) ∙ h)

read_group-lt :
    (first : Bool) (s : Text) (r : ℕ × Text) → read_group first s ≡ some r → r.0 < 65_536
unfolding read_group
read_group-lt first s r h = elim (Option-cases (read_sep first s)) [
  | inl e ↦ absurd (none-some (rw e at h))
  | inr (s', e) ↦ read_number-lt 16 4 65_536 true s' r (rw e at h)
]

read_embedded-lt :
    (k : ℕ) (first : Bool) (s : Text) (r : ℕ × ℕ × ℕ × ℕ × Text)
    → read_embedded k first s ≡ some r
    → Octets r
unfolding read_embedded
read_embedded-lt zero first s r h = absurd (none-some h)
read_embedded-lt (suc k) first s r h = elim (Option-cases (read_sep first s)) [
  | inl e ↦ absurd (none-some (rw e at h))
  | inr (s', e) ↦ read_v4-lt s' r (rw e at h)
]

abbrev Fits : List ℕ → Type 0
Fits = All (λ n. n < 65_536)

pair_fits : (a b : ℕ) → a < 256 → b < 256 → a * 256 + b < 65_536
pair_fits a b h k = omega arith

read_groups-Fits : (k : ℕ) (first : Bool) (s : Text) → Fits (read_groups k first s).0
unfolding read_groups
read_groups-Fits zero first s = tt
read_groups-Fits (suc k) first s = elim (Option-cases (read_embedded k first s)) [
  | inr ((a, b, c, d, rest), e) ↦
      let (ha, hb, hc, hd) = read_embedded-lt k first s (a, b, c, d, rest) e in
      rw (read_groups, e) (pair_fits a b ha hb, (pair_fits c d hc hd, tt))
  | inl e ↦ elim (Option-cases (read_group first s)) [
    | inl f ↦ rw (read_groups, e, f) tt
    | inr ((g, rest), f) ↦
        rw (read_groups, e, f) (read_group-lt first s (g, rest) f, read_groups-Fits k false rest)
  ]
]

of_segments-IsAddr : (gs : List ℕ) (a : IpAddr) → Fits gs → of_segments gs ≡ some a → IsAddr a
unfolding of_segments
of_segments-IsAddr [] a w h = absurd (none-some h)
of_segments-IsAddr (_ ∷ []) a w h = absurd (none-some h)
of_segments-IsAddr (_ ∷ _ ∷ []) a w h = absurd (none-some h)
of_segments-IsAddr (_ ∷ _ ∷ _ ∷ []) a w h = absurd (none-some h)
of_segments-IsAddr (_ ∷ _ ∷ _ ∷ _ ∷ []) a w h = absurd (none-some h)
of_segments-IsAddr (_ ∷ _ ∷ _ ∷ _ ∷ _ ∷ []) a w h = absurd (none-some h)
of_segments-IsAddr (_ ∷ _ ∷ _ ∷ _ ∷ _ ∷ _ ∷ []) a w h = absurd (none-some h)
of_segments-IsAddr (_ ∷ _ ∷ _ ∷ _ ∷ _ ∷ _ ∷ _ ∷ []) a w h = absurd (none-some h)
of_segments-IsAddr (s₁ ∷ s₂ ∷ s₃ ∷ s₄ ∷ s₅ ∷ s₆ ∷ s₇ ∷ s₈ ∷ []) a
      (w₁, (w₂, (w₃, (w₄, (w₅, (w₆, (w₇, (w₈, _)))))))) h =
    subst IsAddr (some_inj h) (w₁, w₂, w₃, w₄, w₅, w₆, w₇, w₈)
of_segments-IsAddr (_ ∷ _ ∷ _ ∷ _ ∷ _ ∷ _ ∷ _ ∷ _ ∷ _ ∷ gs) a w h = absurd (none-some h)

Fits-append : (xs ys : List ℕ) → Fits xs → Fits ys → Fits (xs ++ ys)
Fits-append [] ys h k = k
Fits-append (x ∷ xs) ys (hx, h) k = (hx, Fits-append xs ys h k)

zeros-Fits : (n : ℕ) → Fits (replicate n 0)
zeros-Fits zero = tt
zeros-Fits (suc n) = (omega arith, zeros-Fits n)

tail_chain : List ℕ → Text → Option (IpAddr × Text)
unfolding bind
tail_chain head s = bind (read_char b':' s) (λ s₁. bind (read_char b':' s₁) (λ s₂.
    let r = read_groups (7 - length head) true s₂ in
    bind (of_segments (head ++ (replicate (8 - length head - length r.0) 0 ++ r.0)))
      (λ a. some (a, r.2))))

read_tail-chain : (head : List ℕ) (s : Text) → read_tail head s ≡ tail_chain head s
unfolding read_tail tail_chain bind
read_tail-chain head s = refl

read_tail-IsAddr :
    (head : List ℕ) (s : Text) (r : IpAddr × Text)
    → Fits head
    → read_tail head s ≡ some r
    → IsAddr r.0
unfolding tail_chain
read_tail-IsAddr head s r w h =
    let (s₁, _, k₁) = bind_inv (read_char b':' s) _ (sym (read_tail-chain head s) ∙ h) in
    let (s₂, _, k₂) = bind_inv (read_char b':' s₁) _ k₁ in
    let gs = (read_groups (7 - length head) true s₂).0 in
    let segs = head ++ (replicate (8 - length head - length gs) 0 ++ gs) in
    let (a, e, k₃) = bind_inv (of_segments segs) _ k₂ in
    subst (λ (p : IpAddr × Text). IsAddr p.0) (some_inj k₃)
      (of_segments-IsAddr segs a
        (Fits-append head (replicate (8 - length head - length gs) 0 ++ gs) w (
          Fits-append (replicate (8 - length head - length gs) 0) gs (zeros-Fits _)
            (read_groups-Fits (7 - length head) true s₂)))
        e)

read_v6-IsAddr : (s : Text) (r : IpAddr × Text) → read_v6 s ≡ some r → IsAddr r.0
unfolding read_v6
read_v6-IsAddr s r h =
    let (gs, v4_last, rest) = read_groups 8 true s in
    let w = read_groups-Fits 8 true s in
    elim (Bool-cases (length (read_groups 8 true s).0 == 8)) [
      | inl whole ↦ elim (Option-cases (of_segments (read_groups 8 true s).0)) [
        | inl e ↦ absurd (none-some (rw (whole, e) at h))
        | inr (a, e) ↦
            subst (λ (p : IpAddr × Text). IsAddr p.0) (some_inj (rw (whole, e) at h))
              (of_segments-IsAddr (read_groups 8 true s).0 a w e)
      ]
      | inr part ↦ elim (Bool-cases (read_groups 8 true s).1) [
        | inl e ↦ absurd (none-some (rw (part, e) at h))
        | inr e ↦
            read_tail-IsAddr (read_groups 8 true s).0 (read_groups 8 true s).2 r w
              (rw (part, e) at h)
      ]
    ]

read_addr-IsAddr : (s : Text) (r : IpAddr × Text) → read_addr s ≡ some r → IsAddr r.0
unfolding read_addr
read_addr-IsAddr s r h = elim (Option-cases (read_v4 s)) [
  | inl e ↦ read_v6-IsAddr s r (rw (read_addr, e) at h)
  | inr ((a, b, c, d, rest), e) ↦
      subst (λ (p : IpAddr × Text). IsAddr p.0) (some_inj (rw (read_addr, e) at h))
        (read_v4-lt s (a, b, c, d, rest) e)
]

all_read_inv : (o : Option (IpAddr × Text)) (a : IpAddr) → all_read o ≡ some a → o ≡ some (a, [])
unfolding all_read
all_read_inv none a h = absurd (none-some h)
all_read_inv (some (b, [])) a h = ap (λ c. some (c, [])) (some_inj h)
all_read_inv (some (b, c ∷ rest)) a h = absurd (none-some h)

-- An address that is read from a text has its octets or segments in range.
pub parse_addr-IsAddr : (s : Text) (a : IpAddr) → parse_addr s ≡ some a → IsAddr a
unfolding parse_addr
parse_addr-IsAddr s a h = read_addr-IsAddr s (a, []) (all_read_inv (read_addr s) a h)
