-- ===== src/App/Signed.antt =====
-- src/app.rs, src/sign.rs: what the signature of an answer of `judge` covers.
use proxpulse_judge.Base.{
  Bool, true, false, not, ◌≡◌, refl, ap, ◌∙◌, Option, none, some, [], ◌∷◌, inl, inr, arith, any,
  ◌==◌, ◌>>=◌, unwrap_or, filter_option, Text, Bytes, codes, Bool-cases,
}
use proxpulse_judge.Dict.{get}
use proxpulse_judge.Sign.Basic.{Crypto, Signer, from_seed, sign, message, valid_nonce}
use proxpulse_judge.Sign.Binding.{IsLine, IsText, message_inj}
use proxpulse_judge.Sign.Nonce.{valid_nonce_iff, nonce-IsLine}
use proxpulse_judge.App.State.{World, AppState}
use proxpulse_judge.App.Middleware.{Request}
use proxpulse_judge.App.Judge.{direct_raw, challenge, signed_response}

-- A text that is not there, or has no line feed.
no_feed : (d : Text) → any (λ c. c == b'\n') d ≡ false → IsLine d
no_feed [] h = tt
no_feed (c ∷ d) h = (ground arith, no_feed d (ground arith))

-- The key that a signer publishes is the public half of its own.
published :
    (X : Crypto) (g : Signer X) (seed : Bytes) (ephemeral : Bool)
    → g ≡ from_seed X seed ephemeral
    → Crypto.decode X g.public_key ≡ some (Crypto.verifying_key X g.key)
unfolding from_seed
published X g seed ephemeral own =
    rw own (Crypto.decode-encode X (Crypto.verifying_key X (Crypto.from_bytes X seed)))

decoded :
    (X : Crypto) (g : Signer X) (ch ip : Text) (body : Bytes)
    → Crypto.decode X (sign X g ch ip body) ≡ some (Crypto.sign_bytes X g.key (message ch ip body))
unfolding sign
decoded X g ch ip body = Crypto.decode-encode X (Crypto.sign_bytes X g.key (message ch ip body))

module _ (W : World) where
  -- What stands for a missing address in the signed message.
  abbrev pub direct_of : Request → Text
  direct_of req = unwrap_or (direct_raw W req) []

  kept-IsLine :
      (o : Option Text)
      → IsLine (unwrap_or (filter_option (λ d. not (any (λ c. c == b'\n') d)) o) [])
  kept-IsLine none = tt
  kept-IsLine (some d) = elim (Bool-cases (any (λ c. c == b'\n') d)) [
    | inl e ↦ rw e tt
    | inr e ↦ rw e (no_feed d e)
  ]

  kept-IsText :
      (o : Option Text)
      → IsText (unwrap_or o [])
      → IsText (unwrap_or (filter_option (λ d. not (any (λ c. c == b'\n') d)) o) [])
  kept-IsText none t = tt
  kept-IsText (some d) t = elim (Bool-cases (any (λ c. c == b'\n') d)) [
    | inl e ↦ rw e tt
    | inr e ↦ rw e t
  ]

  nonce_lem :
      (o : Option Text)
      → IsLine (unwrap_or (filter_option valid_nonce o) [])
        × IsText (unwrap_or (filter_option valid_nonce o) [])
  nonce_lem none = (tt, tt)
  nonce_lem (some n) = elim (Bool-cases (valid_nonce n)) [
    | inl e ↦ rw e (nonce-IsLine n ((valid_nonce_iff n).0 e).2)
    | inr e ↦ rw e (tt, tt)
  ]

  challenge_lem : (req : Request) → IsLine (challenge W req) × IsText (challenge W req)
  unfolding challenge
  challenge_lem req = nonce_lem req.nonce

  direct-IsLine : (req : Request) → IsLine (direct_of req)
  unfolding direct_raw
  direct-IsLine req = kept-IsLine req.direct_ip

  direct-IsText : (req : Request) → IsText (unwrap_or req.direct_ip []) → IsText (direct_of req)
  unfolding direct_raw
  direct-IsText req t = kept-IsText req.direct_ip t

  -- Two requests whose answers have the same signed message have the same accepted nonce, the same
  -- address without line feeds, and the same body, whatever the requests hold.
  pub judge-binds :
      (req req' : Request) (body body' : Bytes)
      → IsText (unwrap_or req.direct_ip [])
      → IsText (unwrap_or req'.direct_ip [])
      → message (challenge W req) (direct_of req) body
        ≡ message (challenge W req') (direct_of req') body'
      → (challenge W req ≡ challenge W req') × (direct_of req ≡ direct_of req') × (body ≡ body')
  judge-binds req req' body body' t t' e =
      message_inj (challenge W req) (challenge W req') (direct_of req) (direct_of req') body body'
        (challenge_lem req).1 (challenge_lem req').1 (direct-IsText req t) (direct-IsText req' t')
        (challenge_lem req).0 (challenge_lem req').0 (direct-IsLine req) (direct-IsLine req') e

  -- The message that an answer's signature is for.
  abbrev pub signed_message : Request → Bytes → Bytes
  signed_message req body = message (challenge W req) (direct_of req) body

  signed_header :
      (s : AppState W) (req : Request) (body : Bytes)
      → W.is_header_value (sign W.crypto s.signer (challenge W req) (direct_of req) body) ≡ true
      → W.is_header_value s.signer.key_id ≡ true
      → get (signed_response W s req body).headers (codes "x-judge-signature")
        ≡ some (sign W.crypto s.signer (challenge W req) (direct_of req) body)
  unfolding signed_response
  signed_header s req body fits id = rw (fits, id) (unfold get in refl)

  -- An answer made with a key from a seed has a signature that decodes, and that the published key
  -- accepts for the nonce, the address and the body, if both texts can be header values.
  pub judge-verifies :
      (s : AppState W) (req : Request) (body seed : Bytes) (ephemeral : Bool)
      → s.signer ≡ from_seed W.crypto seed ephemeral
      → W.is_header_value (sign W.crypto s.signer (challenge W req) (direct_of req) body) ≡ true
      → W.is_header_value s.signer.key_id ≡ true
      → (sig : Bytes) × (public : Bytes) × ((get
              (signed_response W s req body).headers
              (codes "x-judge-signature")
            >>= Crypto.decode W.crypto)
          ≡ some sig)
        × (Crypto.decode W.crypto s.signer.public_key ≡ some public)
        × (Crypto.verify W.crypto public
              (signed_message req (signed_response W s req body).body)
              sig
            ≡ true)
  judge-verifies s req body seed ephemeral own fits id =
      let X = W.crypto in
      (
        Crypto.sign_bytes X s.signer.key (signed_message req body),
        Crypto.verifying_key X s.signer.key,
        ap (λ o. o >>= Crypto.decode X) (signed_header s req body fits id)
            ∙ decoded X s.signer (challenge W req) (direct_of req) body,
        published X s.signer seed ephemeral own,
        unfold signed_response in Crypto.verify-sign X s.signer.key (signed_message req body),
      )
