-- ===== src/Sign/Binding.antt =====
-- src/sign.rs: the signed message determines its fields.
use proxpulse_judge.Base.{ℕ, ◌<◌, ◌≡◌, ◌≢◌, refl, sym, List, [], ◌∷◌, ◌++◌, arith, Text, Bytes, All}
use proxpulse_judge.Str.Basic.{utf8_char, as_bytes}
use proxpulse_judge.Sign.Basic.{message, signature_context}

-- No byte of the UTF-8 of another character is a line feed.
abbrev pub IsLine : List ℕ → Type 0
IsLine = All (λ c. c ≢ b'\n')

utf8_char-IsLine : (c : ℕ) (rest : Bytes) → c ≢ b'\n' → IsLine rest → IsLine (utf8_char c ++ rest)
unfolding utf8_char
utf8_char-IsLine c rest h r = ground arith

as_bytes-IsLine : (s : Text) → IsLine s → IsLine (as_bytes s)
unfolding as_bytes
as_bytes-IsLine [] h = tt
as_bytes-IsLine (c ∷ s) (hc, hs) = utf8_char-IsLine c (as_bytes s) hc (as_bytes-IsLine s hs)

-- What stands before the first line feed, and what stands behind it.
cut_line :
    (a a' b b' : Bytes)
    → IsLine a
    → IsLine a'
    → a ++ (b'\n' ∷ b) ≡ a' ++ (b'\n' ∷ b')
    → (a ≡ a') × (b ≡ b')
cut_line [] [] b b' h h' e = ground arith
cut_line [] (c ∷ a') b b' h h' e = ground arith
cut_line (c ∷ a) [] b b' h h' e = ground arith
cut_line (c ∷ a) (c' ∷ a') b b' h h' e = ground (arith, cut_line a a' b b')

-- UTF-8 is a prefix code: the first byte tells how many follow.
utf8_char_inj :
    (c d : ℕ) (s t : Bytes)
    → c < 0x11_0000
    → d < 0x11_0000
    → utf8_char c ++ s ≡ utf8_char d ++ t
    → (c ≡ d) × (s ≡ t)
unfolding utf8_char
utf8_char_inj c d s t hc hd e = ground arith

utf8_char-ne-nil : (c : ℕ) (s : Bytes) → utf8_char c ++ s ≢ []
unfolding utf8_char
utf8_char-ne-nil c s e = ground arith

abbrev pub IsText : Text → Type 0
IsText = All (λ c. c < 0x11_0000)

pub as_bytes_inj : (s t : Text) → IsText s → IsText t → as_bytes s ≡ as_bytes t → s ≡ t
unfolding as_bytes
as_bytes_inj [] [] h k e = refl
as_bytes_inj [] (d ∷ t) h k e = absurd (utf8_char-ne-nil d (as_bytes t) (sym e))
as_bytes_inj (c ∷ s) [] h k e = absurd (utf8_char-ne-nil c (as_bytes s) e)
as_bytes_inj (c ∷ s) (d ∷ t) (hc, hs) (kd, kt) e =
    let (same, rest) = utf8_char_inj c d (as_bytes s) (as_bytes t) hc kd e in
    cc (same, as_bytes_inj s t hs kt rest)

drop_context : (s a b : Bytes) → s ++ a ≡ s ++ b → a ≡ b
drop_context [] a b e = e
drop_context (c ∷ s) a b e = drop_context s a b (ground arith)

-- Where the challenges and addresses are Unicode text without a line feed, equal messages have equal challenges,
-- equal addresses and equal bodies.
pub message_inj :
    (ch ch' ip ip' : Text) (body body' : Bytes)
    → IsText ch
    → IsText ch'
    → IsText ip
    → IsText ip'
    → IsLine ch
    → IsLine ch'
    → IsLine ip
    → IsLine ip'
    → message ch ip body ≡ message ch' ip' body'
    → (ch ≡ ch') × (ip ≡ ip') × (body ≡ body')
unfolding message
message_inj ch ch' ip ip' body body' tc tc' ti ti' lc lc' li li' e =
    let (same_ch, rest) =
      cut_line (as_bytes ch) (as_bytes ch') _ _ (as_bytes-IsLine ch lc) (as_bytes-IsLine ch' lc')
        (drop_context signature_context _ _ e) in
    let (same_ip, same_body) =
      cut_line (as_bytes ip) (as_bytes ip') _ _ (as_bytes-IsLine ip li) (as_bytes-IsLine ip' li')
        rest in
    (as_bytes_inj ch ch' tc tc' same_ch, as_bytes_inj ip ip' ti ti' same_ip, same_body)
