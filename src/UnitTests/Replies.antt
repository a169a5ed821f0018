-- ===== src/UnitTests/Replies.antt =====
-- src/app.rs, `mod api_tests`: the signatures of answers.
use proxpulse_judge.Base.{
  ◌==◌, Bool, true, false, not, ◌&&◌, ◌≡◌, refl, Option, none, some, [], ◌∷◌, ◌++◌, ◌>>=◌, Text,
  Bytes, codes, option_eq, all, ok, err, if◌then◌else◌, is_none,
}
use proxpulse_judge.Cache.{keep_all}
use proxpulse_judge.Dict.{get}
use proxpulse_judge.Sign.Basic.{Crypto, message, from_seed_b64}
use proxpulse_judge.Config.Basic.{Config}
use proxpulse_judge.App.Middleware.{Request}
use proxpulse_judge.UnitTests.Signing.{test_crypto, seed}
use proxpulse_judge.UnitTests.Wire.{to_json}
use proxpulse_judge.UnitTests.Api.{
  test_config, test_app_with, get_with, oneshot, json, text_at, at_is,
}

-- A public key, a signature and a body.
record Signed : Type 0 where
  public : Bytes
  sig : Bytes
  body : Bytes

-- `vk.verify(&message(…), &sig).is_ok()`
unfoldable verify_ok : Signed → Text → Text → Bytes → Bool
unfolding message
verify_ok a challenge direct_ip body =
    Crypto.verify test_crypto a.public (message challenge direct_ip body) a.sig

-- A query of `/judge` with what the extractor finds.
unfoldable query : Option Text → Option Text → Request
unfolding get_with
query direct_ip nonce = record (get_with "/judge" []) { direct_ip = direct_ip; nonce = nonce }

-- The key from `cfg`, and the signature and body of the answer.
unfoldable signed_answer : Config test_crypto → Request → Option Signed
unfolding test_app_with oneshot get
signed_answer cfg req =
    let res = (oneshot (test_app_with cfg) req).0 in
    let found =
      (Crypto.decode test_crypto cfg.signer.public_key >>= λ public.
      get res.headers (codes "x-judge-signature") >>= λ text.
      Crypto.decode test_crypto text >>= λ sig.
      some (record { public = public; sig = sig; body = res.body })) in
    if res.status == 200 then found else none

abbrev holds_of : Option Signed → (Signed → Bool) → Bool
holds_of none p = false
holds_of (some a) p = p a

-- One pass of the loop of `judge_answers_are_signed_with_the_published_key`.
unfoldable signed_with_published : Config test_crypto → Bool
unfolding test_app_with json get_with at_is text_at oneshot get signed_answer query verify_ok
signed_with_published cfg =
    let key = json (test_app_with cfg) (get_with "/key" []) in
    let req = query (some (codes "1.1.1.1")) (some (codes "abcdefgh12")) in
    let res = (oneshot (test_app_with cfg) req).0 in
    at_is key ("alg" ∷ []) "ed25519"
    && option_eq (get res.headers (codes "x-judge-key-id")) (text_at key ("key_id" ∷ []))
    && holds_of
        (text_at key ("public_key" ∷ []) >>= λ t. Crypto.decode test_crypto t >>= λ public.
          signed_answer cfg req >>= λ a. some (record a { public = public }))
        (λ a.
          verify_ok a (codes "abcdefgh12") (codes "1.1.1.1") a.body
          && not (verify_ok a (codes "otherNonce1") (codes "1.1.1.1") a.body)
          && not (verify_ok a (codes "abcdefgh12") (codes "2.2.2.2") a.body))

unfoldable judge_answers_are_signed_with_the_published_key : Bool
unfolding test_config from_seed_b64 signed_with_published
judge_answers_are_signed_with_the_published_key =
    let generated = test_config 1_000_000 0 in
    elim (from_seed_b64 test_crypto seed) [
      | err e ↦ false
      | ok signer ↦
          signed_with_published generated
          && signed_with_published (record generated { signer = signer })
    ]

unfoldable line_feed_in_direct_ip_cannot_move_bytes_into_the_body : Bool
unfolding test_config signed_answer query verify_ok
line_feed_in_direct_ip_cannot_move_bytes_into_the_body =
    holds_of
      (signed_answer (test_config 1_000_000 0)
        (query (some (codes "1.1.1.1\nforged")) (some (codes "abcdefgh12"))))
      (λ a.
        let forged = codes "forged\n" ++ a.body in
        not (verify_ok a (codes "abcdefgh12") (codes "1.1.1.1") forged)
        && not (verify_ok a (codes "abcdefgh12") (codes "1.1.1.1") a.body)
        && verify_ok a (codes "abcdefgh12") [] a.body)

unfoldable absent_values_and_invalid_nonce_sign_as_empty : Bool
unfolding test_config signed_answer query verify_ok
absent_values_and_invalid_nonce_sign_as_empty =
    all
      (λ nonce.
        holds_of (signed_answer (test_config 1_000_000 0) (query none nonce))
          (λ a. verify_ok a [] [] a.body))
      (none ∷ some (codes "short") ∷ [])

-- A query that names `direct_ip` twice is one that the extractor refuses.
unfoldable other_direct_ip_forms_stay_bound_to_the_signature : Bool
unfolding oneshot test_app_with test_config signed_answer query verify_ok
other_direct_ip_forms_stay_bound_to_the_signature =
    holds_of
      (signed_answer (test_config 1_000_000 0)
        (query (some (codes "1.1.1.1\r")) (some (codes "abcdefgh12"))))
      (λ a.
        not (verify_ok a (codes "abcdefgh12") (codes "1.1.1.1") a.body)
        && verify_ok a (codes "abcdefgh12") (codes "1.1.1.1\r") a.body)
    && (let res =
          (oneshot (test_app_with (test_config 1_000_000 0)) (record (query none none) {
            refusal = some (codes "duplicate field `direct_ip`");
          })).0 in
        res.status == 400 && is_none (get res.headers (codes "x-judge-signature")))

reply_tests :
    (judge_answers_are_signed_with_the_published_key ≡ true)
    × (line_feed_in_direct_ip_cannot_move_bytes_into_the_body ≡ true)
    × (absent_values_and_invalid_nonce_sign_as_empty ≡ true)
    × (other_direct_ip_forms_stay_bound_to_the_signature ≡ true)
unfolding judge_answers_are_signed_with_the_published_key
    line_feed_in_direct_ip_cannot_move_bytes_into_the_body
    absent_values_and_invalid_nonce_sign_as_empty other_direct_ip_forms_stay_bound_to_the_signature
    keep_all to_json
reply_tests = (refl, refl, refl, refl)
