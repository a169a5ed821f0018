-- ===== src/Sign/Basic.antt =====
-- src/sign.rs. The signature scheme, SHA-256, base64 and the random generator of the system are
-- crates that the program calls: parameters.
use proxpulse_judge.Base.{
  ℕ, Bool, true, false, ◌&&◌, ◌||◌, ◌≡◌, Option, none, some, [], ◌∷◌, ◌++◌, if◌then◌else◌, ◌==◌,
  leb, ◌/◌, ◌%◌, Result, ok, err, Text, Bytes, codes, length, take, all,
}
use proxpulse_judge.Str.Basic.{trim, as_bytes, is_ascii_alphanumeric, digit_char}

abbrev pub signature_context : Bytes
signature_context = codes "proxpulse-judge-v1\n"

unfoldable pub message : Text → Text → Bytes → Bytes
unfolding as_bytes
message challenge direct_ip body =
    signature_context ++ (as_bytes challenge ++ (b'\n' ∷ (as_bytes direct_ip ++ (b'\n' ∷ body))))

unfoldable pub is_nonce_byte : ℕ → Bool
unfolding is_ascii_alphanumeric
is_nonce_byte b = is_ascii_alphanumeric b || b == b'_' || b == b'-'

unfoldable pub valid_nonce : Text → Bool
unfolding as_bytes is_nonce_byte
valid_nonce n =
    leb 8 (length (as_bytes n)) && leb (length (as_bytes n)) 64 && all is_nonce_byte (as_bytes n)

-- `format!("{b:02x}")` of a byte
unfoldable pub hex_byte : ℕ → Text
unfolding digit_char
hex_byte b = digit_char (b / 16) ∷ digit_char (b % 16) ∷ []

unfoldable pub hex_lower : Bytes → Text
unfolding hex_byte
hex_lower [] = []
hex_lower (b ∷ bs) = hex_byte b ++ hex_lower bs

-- What the crates give: keys from seeds, their public halves, signatures, hashes and base64.
pub record Crypto : Type 1 where
  pub SigningKey : Type 0
  pub from_bytes : Bytes → SigningKey
  pub verifying_key : SigningKey → Bytes
  pub sign_bytes : SigningKey → Bytes → Bytes
  pub verify : Bytes → Bytes → Bytes → Bool
  pub sha256 : Bytes → Bytes
  pub encode : Bytes → Text
  pub decode : Text → Option Bytes
  -- A signature is accepted under the public half of its key.
  pub verify-sign :
      (k : SigningKey) (m : Bytes) → verify (verifying_key k) m (sign_bytes k m) ≡ true
  pub decode-encode : (b : Bytes) → decode (encode b) ≡ some b

module _ (X : Crypto) where
  open X use {SigningKey, from_bytes, verifying_key, sign_bytes, sha256, encode, decode}

  pub record Signer : Type 0 where
    pub key : SigningKey
    pub public_key : Text
    pub key_id : Text
    pub ephemeral : Bool

  unfoldable pub from_seed : Bytes → Bool → Signer
  unfolding hex_lower
  from_seed seed ephemeral =
      let key = from_bytes seed in
      let public = verifying_key key in
      record {
        key = key;
        public_key = encode public;
        key_id = hex_lower (take 4 (sha256 public));
        ephemeral = ephemeral;
      }

  unfoldable pub from_seed_b64 : Text → Result Signer Text
  unfolding trim from_seed
  from_seed_b64 seed = elim (decode (trim seed)) [
    | none ↦ err (codes "SIGNING_KEY is not valid base64")
    | some bytes ↦
        if length bytes == 32
        then ok (from_seed bytes false)
        else err (codes "SIGNING_KEY must be 32 bytes (openssl rand -base64 32)")
  ]

  -- `random` is the outcome of `getrandom::fill`.
  unfoldable pub generate : Result Bytes Text → Result Signer Text
  unfolding from_seed
  generate (ok seed) = ok (from_seed seed true)
  generate (err e) = err (codes "cannot generate a signing key: " ++ e)

  unfoldable pub sign : Signer → Text → Text → Bytes → Text
  unfolding message
  sign s challenge direct_ip body = encode (sign_bytes s.key (message challenge direct_ip body))

  -- src/logic.rs: the hash of the fixed answer
  unfoldable pub content_sha256 : Bytes → Text
  unfolding hex_lower
  content_sha256 content = hex_lower (sha256 content)
