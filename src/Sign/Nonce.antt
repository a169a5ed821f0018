-- ===== src/Sign/Nonce.antt =====
-- src/sign.rs: which nonces are accepted.
use proxpulse_judge.Base.{
  ℕ, ◌≤◌, ◌<◌, true, ◌≡◌, ◌≢◌, ◌↔◌, refl, ap, [], ◌∷◌, ◌++◌, arith, Text, Bytes, length, all, All,
}
use proxpulse_judge.Str.Basic.{utf8_char, as_bytes}
use proxpulse_judge.Sign.Basic.{valid_nonce, is_nonce_byte}
use proxpulse_judge.Sign.Binding.{IsLine, IsText}

-- a letter, a digit, `_` or `-`
abbrev pub IsNonceChar : ℕ → Type 0
IsNonceChar c = is_nonce_byte c ≡ true

utf8_char-nonce : (c : ℕ) → IsNonceChar c → utf8_char c ≡ c ∷ []
unfolding utf8_char is_nonce_byte
utf8_char-nonce c h = ground arith

utf8-nonce :
    (c : ℕ) (rest : Bytes)
    → all is_nonce_byte (utf8_char c ++ rest) ≡ true
    → IsNonceChar c × (all is_nonce_byte rest ≡ true)
unfolding utf8_char is_nonce_byte
utf8-nonce c rest h = ground arith

as_bytes-nonce : (n : Text) → All IsNonceChar n → as_bytes n ≡ n
unfolding as_bytes
as_bytes-nonce [] h = refl
as_bytes-nonce (c ∷ n) (hc, hn) = rw (utf8_char-nonce c hc, as_bytes-nonce n hn)

all→All : (n : Text) → all is_nonce_byte (as_bytes n) ≡ true → All IsNonceChar n
unfolding as_bytes
all→All [] h = tt
all→All (c ∷ n) h = let (one, rest) = utf8-nonce c (as_bytes n) h in (one, all→All n rest)

All→all : (n : Text) → All IsNonceChar n → all is_nonce_byte n ≡ true
All→all [] h = refl
All→all (c ∷ n) (hc, hn) = ground (arith, All→all n hn)

-- A nonce is accepted exactly when it has 8 to 64 characters, each a letter, a digit, `_` or `-`.
pub valid_nonce_iff :
    (n : Text) → (valid_nonce n ≡ true) ↔ ((8 ≤ length n) × (length n ≤ 64) × All IsNonceChar n)
unfolding valid_nonce
valid_nonce_iff n = (
  λ h.
      let chars = all→All n (ground arith) in
      let same = ap length (as_bytes-nonce n chars) in (ground arith, ground arith, chars),
  λ (few, many, chars). rw (as_bytes-nonce n chars) (ground (arith, All→all n chars)),
)

nonce_char_lem : (c : ℕ) → IsNonceChar c → (c ≢ b'\n') × (c < 0x11_0000)
unfolding is_nonce_byte
nonce_char_lem c h = ground arith

pub nonce-IsLine : (n : Text) → All IsNonceChar n → IsLine n × IsText n
nonce-IsLine [] h = (tt, tt)
nonce-IsLine (c ∷ n) (hc, hn) =
    let (line, text) = nonce-IsLine n hn in
    let (l, t) = nonce_char_lem c hc in ((l, line), (t, text))
