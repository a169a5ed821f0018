-- ===== src/Sign/Debug.antt =====
-- src/sign.rs: `Debug` of `Signer`. How a text is quoted is the library's `{:?}`, a parameter.
use proxpulse_judge.Base.{Bool, true, false, ◌≡◌, ap, ◌∙◌, ◌++◌, Text, codes}
use proxpulse_judge.Sign.Basic.{Crypto, Signer}

abbrev pub bool_text : Bool → Text
bool_text true = codes "true"
bool_text false = codes "false"

module _ (debug : Text → Text) where
  abbrev pub debug_text : Text → Bool → Text
  debug_text key_id ephemeral =
      codes "Signer { key_id: "
      ++ (debug key_id ++ (codes ", ephemeral: " ++ (bool_text ephemeral ++ codes " }")))

  unfoldable pub fmt : (X : Crypto) → Signer X → Text
  fmt X s = debug_text s.key_id s.ephemeral

  -- Signers of one id and origin print the same, whatever their private keys.
  fmt-key :
      (X : Crypto) (s t : Signer X)
      → s.key_id ≡ t.key_id
      → s.ephemeral ≡ t.ephemeral
      → fmt X s ≡ fmt X t
  unfolding fmt
  fmt-key X s t id origin =
      ap (λ (k : Text). debug_text k s.ephemeral) id ∙ ap (λ b. debug_text t.key_id b) origin
