-- ===== src/UnitTests/Signing.antt =====
-- src/sign.rs, `mod tests`, and src/logic.rs, `content_hash_stable`. What the crates give is the
-- argument of a test; `test_crypto` has the crates' answers at the keys of the tests, and signs by
-- writing the key before the text.
use proxpulse_judge.Base.{
  ℕ, zero, suc, ◌==◌, ltb, Bool, true, false, not, ◌&&◌, ◌≡◌, refl, Option, none, some, [], ◌∷◌,
  ◌++◌, if◌then◌else◌, take, length, Text, Bytes, codes, text_eq, text_eq_refl, Result, ok, err,
}
use proxpulse_judge.Sign.Basic.{
  Crypto, Signer, message, from_seed_b64, generate, sign, content_sha256, valid_nonce,
}
use proxpulse_judge.Sign.Debug.{fmt}
use proxpulse_judge.App.Handlers.{fixed_content}
use proxpulse_judge.UnitTests.Notation.{is_err}

abbrev pub seed : Text
seed = codes "AAECAwQFBgcICQoLDA0ODxAREhMUFRYXGBkaGxwdHh8="

abbrev upto : ℕ → Bytes
upto zero = []
upto (suc n) = upto n ++ n ∷ []

abbrev repeat : ℕ → ℕ → Text
repeat c zero = []
repeat c (suc n) = c ∷ repeat c n

-- `vk.verify(&message, &sig)` with the decoded signature
module _ (X : Crypto) where
  unfoldable verifies : Signer X → Text → Text → Text → Bytes → Bool
  unfolding message
  verifies s sig challenge direct_ip body = elim (X.decode s.public_key) [
    | none ↦ false
    | some public ↦ elim (X.decode sig) [
      | none ↦ false
      | some sig_bytes ↦ X.verify public (message challenge direct_ip body) sig_bytes
    ]
  ]

  unfoldable signs_body_nonce_and_direct_ip : Bool
  unfolding from_seed_b64 sign verifies
  signs_body_nonce_and_direct_ip = elim (from_seed_b64 X seed) [
    | err e ↦ false
    | ok s ↦
        let sig = sign X s (codes "nonce1234") (codes "1.2.3.4") (codes "{\"a\":1}") in
        verifies s sig (codes "nonce1234") (codes "1.2.3.4") (codes "{\"a\":1}")
        && not (verifies s sig (codes "nonce1234") (codes "5.6.7.8") (codes "{\"a\":1}"))
        && not (verifies s sig (codes "nonce1234") (codes "1.2.3.4") (codes "{\"a\":2}"))
        && length s.key_id == 8
  ]

  -- `random` and `random_b` are what the generator gives to the two keys.
  unfoldable generated_keys_are_fresh_and_sign : Result Bytes Text → Result Bytes Text → Bool
  unfolding generate sign verifies
  generated_keys_are_fresh_and_sign random random_b = elim (generate X random) [
    | err e ↦ false
    | ok a ↦ elim (generate X random_b) [
      | err e ↦ false
      | ok b ↦
          let sig = sign X a (codes "nonce1234") (codes "1.2.3.4") (codes "{}") in
          (a.ephemeral && b.ephemeral)
          && not (text_eq a.public_key b.public_key)
          && not (text_eq a.key_id b.key_id)
          && verifies a sig (codes "nonce1234") (codes "1.2.3.4") (codes "{}")
    ]
  ]

  -- The quotes of `{:?}` and what the generator gives are arguments.
  unfoldable debug_shows_only_the_key_id_and_origin : (Text → Text) → Result Bytes Text → Bool
  unfolding from_seed_b64 generate fmt
  debug_shows_only_the_key_id_and_origin debug random = elim (from_seed_b64 X seed) [
    | err e ↦ false
    | ok fixed ↦ elim (generate X random) [
      | err e ↦ false
      | ok generated ↦
          text_eq (fmt debug X fixed) (codes "Signer { key_id: \"56475aa7\", ephemeral: false }")
          && text_eq (fmt debug X generated)
              (codes "Signer { key_id: \"" ++ (generated.key_id ++ codes "\", ephemeral: true }"))
    ]
  ]

  unfoldable rejects_bad_keys_and_nonces : Bool
  unfolding from_seed_b64 valid_nonce
  rejects_bad_keys_and_nonces =
      is_err (from_seed_b64 X (codes "not base64!"))
      && is_err (from_seed_b64 X (codes "AAEC"))
      && valid_nonce (codes "abcDEF12_-")
      && not (valid_nonce (codes "short"))
      && not (valid_nonce (codes "has space 123"))
      && not (valid_nonce (repeat b'x' 65))

  unfoldable content_hash_stable : Bool
  unfolding content_sha256
  content_hash_stable =
      length (content_sha256 X fixed_content) == 64
      && text_eq (content_sha256 X fixed_content) (content_sha256 X fixed_content)
      && ltb 32 (length fixed_content)

-- The first four bytes are those of the hash of the fixed key's public half.
abbrev hash : Bytes → Bytes
hash [] = repeat 0 32
hash (b ∷ bs) =
    if b == 0 then 0x56 ∷ 0x47 ∷ 0x5a ∷ 0xa7 ∷ repeat 0 28 else take 32 (b ∷ bs ++ repeat 0 32)

abbrev decode_b64 : Text → Option Bytes
decode_b64 [] = some []
decode_b64 (c ∷ t) =
    if c == b'='
    then some t
    else if text_eq (c ∷ t) seed
    then some (upto 32)
    else if text_eq (c ∷ t) (codes "AAEC")
    then some (upto 3)
    else none

abbrev pub test_crypto : Crypto
test_crypto = record {
  SigningKey = Bytes;
  from_bytes = λ b. b;
  verifying_key = λ k. k;
  sign_bytes = λ k m. k ++ m;
  verify = λ p m s. text_eq s (p ++ m);
  sha256 = hash;
  encode = λ b. b'=' ∷ b;
  decode = decode_b64;
  verify-sign = λ k m. text_eq_refl (k ++ m);
  decode-encode = λ b. refl;
}

-- a text without marks that need an escape
abbrev quoted : Text → Text
quoted t = b'"' ∷ (t ++ b'"' ∷ [])

signing_tests :
    (signs_body_nonce_and_direct_ip test_crypto ≡ true)
    × (generated_keys_are_fresh_and_sign test_crypto (ok (1 ∷ [])) (ok (2 ∷ [])) ≡ true)
    × (debug_shows_only_the_key_id_and_origin test_crypto quoted (ok (1 ∷ [])) ≡ true)
    × (rejects_bad_keys_and_nonces test_crypto ≡ true)
    × (content_hash_stable test_crypto ≡ true)
unfolding signs_body_nonce_and_direct_ip generated_keys_are_fresh_and_sign
    debug_shows_only_the_key_id_and_origin rejects_bad_keys_and_nonces content_hash_stable verifies
signing_tests = (refl, refl, refl, refl, refl)
