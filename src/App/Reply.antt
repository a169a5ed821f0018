-- ===== src/App/Reply.antt =====
-- src/app.rs: the answer that a client of `/judge` gets through all layers of the service.
use proxpulse_judge.Base.{
  ◌-◌, Bool, true, false, not, ◌||◌, ◌==◌, ◌≡◌, refl, sym, ap, subst, ◌∙◌, inl, inr, Option, none,
  some, ◌>>=◌, Text, Bytes, codes, text_eq, Bool-cases,
}
use proxpulse_judge.Dict.{Dict, get, insert, get-insert}
use proxpulse_judge.RateLimit.Basic.{check}
use proxpulse_judge.Sign.Basic.{Crypto, Signer, from_seed, sign}
use proxpulse_judge.Classify.Basic.{classify_ip}
use proxpulse_judge.App.State.{World, AppState, Response}
use proxpulse_judge.App.Request.{self_ip}
use proxpulse_judge.App.Rdns.{RdnsRun, RdnsResult, run_lookup, finish_lookup, maybe_rdns}
use proxpulse_judge.App.Endings.{maybe_rdns-ends}
use proxpulse_judge.App.Middleware.{
  Request, Next, is_monitoring, Timing, service, metrics_mw, response_headers_mw, rate_limit_mw,
  take_for, concurrency_mw, timeout_mw,
}
use proxpulse_judge.App.Handlers.{geo_cached}
use proxpulse_judge.App.Judge.{
  judge_body, signed_response, judge, judge_ep, get_only, handler, route, challenge,
}
use proxpulse_judge.App.Layers.{stamp, nosniff, cache_control}
use proxpulse_judge.App.Signed.{direct_of, signed_message, judge-verifies}
use proxpulse_judge.App.Schema.{judge_schema}
use proxpulse_judge.App.Answers.{HasJson, judge_body-HasJson}

-- A header that is none of the two is as it was.
stamp-get :
    (fresh : Bool) (headers : Dict Text) (name : Text)
    → text_eq nosniff name ≡ false
    → text_eq cache_control name ≡ false
    → get (stamp fresh headers) name ≡ get headers name
stamp-get true headers name a b =
    rw
      (
        get-insert (insert headers nosniff (codes "nosniff")) cache_control name (codes "no-store"),
        b,
        get-insert headers nosniff name (codes "nosniff"),
        a,
      )
      refl
stamp-get false headers name a b = rw (get-insert headers nosniff name (codes "nosniff"), a) refl

module _ (W : World) where
  -- the state in which the handler of an admitted request starts
  abbrev pub entered : Timing W → Request → AppState W → AppState W
  entered t req s = record s {
    rate_limit =
        (check W.float W.limit_cache s.rate_limit (self_ip W s req.headers req.conn) t.made
          t.now).0;
    concurrency = s.concurrency - 1;
  }

  stamped : Request → Response → Response
  stamped req h = record h {
    headers = stamp (not (text_eq req.path (codes "/content")) || not (h.status == 200)) h.headers;
  }

  service-admitted :
      (t : Timing W) (req : Request) (handler : Next W) (s : AppState W)
      → is_monitoring req.path ≡ false
      → (check W.float W.limit_cache s.rate_limit (self_ip W s req.headers req.conn) t.made t.now).1
        ≡ none
      → t.permit ≡ true
      → t.cut ≡ none
      → (service W t req handler s).0 ≡ stamped req (handler (entered t req s)).0
  unfolding service metrics_mw response_headers_mw rate_limit_mw take_for concurrency_mw timeout_mw
      stamped
  service-admitted t req handler s dynamic token permit whole =
      rw (dynamic, token) (rw (dynamic, permit, whole) refl)

  route-judge :
      (version : Text) (run : RdnsRun W) (req : Request) (s : AppState W)
      → req.path ≡ codes "/judge"
      → req.method ≡ codes "GET"
      → req.refusal ≡ none
      → route W version run req s ≡ judge W run req s
  unfolding route judge_ep get_only handler
  route-judge version run req s path get readable = rw (path, get, readable) refl

  run_lookup-signer :
      (run : RdnsRun W) (s : AppState W) (key : Text)
      → (run_lookup W run s key).state.signer ≡ s.signer
  unfolding run_lookup finish_lookup
  run_lookup-signer run s key = elim (Bool-cases run.in_time) [
    | inl soon ↦ rw soon refl
    | inr late ↦ rw late refl
  ]

  maybe_rdns-signer :
      (run : RdnsRun W) (s : AppState W) (ip : Text) (aso : Option Text)
      → (maybe_rdns W run s ip aso).state.signer ≡ s.signer
  maybe_rdns-signer run s =
      maybe_rdns-ends W (λ (r : RdnsResult W). r.state.signer ≡ s.signer) run s (λ o. refl) refl
        (λ o. refl) (λ p key. run_lookup-signer run _ key)

  -- An answer 200 whose body is JSON of the shape of `/judge`, with a signature that a published key
  -- accepts for the nonce, the address and the body.
  abbrev pub IsReply : Request → Text → Response → Type 0
  IsReply req public_key h =
      (h.status ≡ 200)
      × HasJson W judge_schema h.body
      × ((sig : Bytes) × (public : Bytes) × ((get h.headers (codes "x-judge-signature")
              >>= Crypto.decode W.crypto)
            ≡ some sig)
          × (Crypto.decode W.crypto public_key ≡ some public)
          × (Crypto.verify W.crypto public (signed_message W req h.body) sig ≡ true))

  stamped-IsReply :
      (req : Request) (public_key : Text) (h : Response)
      → IsReply req public_key h
      → IsReply req public_key (stamped req h)
  unfolding stamped
  stamped-IsReply req public_key h (status, json, (sig, public, found, key, good)) =
      let fresh = not (text_eq req.path (codes "/content")) || not (h.status == 200) in
      (
        status,
        json,
        (
          sig,
          public,
          ap (λ (o : Option Text). o >>= Crypto.decode W.crypto)
                (stamp-get fresh h.headers (codes "x-judge-signature") refl refl)
              ∙ found,
          key,
          good,
        ),
      )

  sign-fits :
      (g : Signer W.crypto) (ch ip : Text) (body : Bytes)
      → ((b : Bytes) → W.is_header_value (Crypto.encode W.crypto b) ≡ true)
      → W.is_header_value (sign W.crypto g ch ip body) ≡ true
  unfolding sign
  sign-fits g ch ip body fits = fits _

  signed_response-status :
      (s : AppState W) (req : Request) (body : Bytes) → (signed_response W s req body).status ≡ 200
  unfolding signed_response
  signed_response-status s req body = refl

  signed_response-body :
      (s : AppState W) (req : Request) (body : Bytes) → (signed_response W s req body).body ≡ body
  unfolding signed_response
  signed_response-body s req body = refl

  signed_response-IsReply :
      (s : AppState W) (req : Request) (body seed : Bytes) (ephemeral : Bool)
      → s.signer ≡ from_seed W.crypto seed ephemeral
      → ((b : Bytes) → W.is_header_value (Crypto.encode W.crypto b) ≡ true)
      → W.is_header_value s.signer.key_id ≡ true
      → HasJson W judge_schema body
      → IsReply req s.signer.public_key (signed_response W s req body)
  signed_response-IsReply s req body seed ephemeral own fits id json = (
    signed_response-status s req body,
    subst (HasJson W judge_schema) (sym (signed_response-body s req body)) json,
    judge-verifies W s req body seed ephemeral own
        (sign-fits s.signer (challenge W req) (direct_of W req) body fits) id,
  )

  judge-IsReply :
      (run : RdnsRun W) (req : Request) (s : AppState W) (seed : Bytes) (ephemeral : Bool)
      → s.signer ≡ from_seed W.crypto seed ephemeral
      → ((b : Bytes) → W.is_header_value (Crypto.encode W.crypto b) ≡ true)
      → W.is_header_value s.signer.key_id ≡ true
      → IsReply req s.signer.public_key (judge W run req s).0
  unfolding judge geo_cached
  judge-IsReply run req s seed ephemeral own fits id =
      let me = self_ip W s req.headers req.conn in
      let r = geo_cached W s me in
      let found = maybe_rdns W run r.1 me r.0.aso in
      let answer = classify_ip W.is_alphanumeric r.0.aso found.ptr in
      let same = maybe_rdns-signer run r.1 me r.0.aso in
      subst (λ (k : Text). IsReply req k (judge W run req s).0)
        (ap (λ (g : Signer W.crypto). g.public_key) same)
        (signed_response-IsReply found.state req (judge_body W found.state req r.0 answer) seed
          ephemeral (same ∙ own) fits
          (ap (λ (g : Signer W.crypto). W.is_header_value g.key_id) same ∙ id)
          (judge_body-HasJson W found.state req r.0 answer))

  -- A GET request for `/judge` whose query can be read, that has a token and a permit and is not cut off is answered, through all
  -- layers of the service, with 200, a body that is JSON of the shape of `/judge`, and a signature
  -- that decodes and that the published key, which was made from a seed, accepts for the nonce, the
  -- address and this very body. Base64 and the id of the key can be header values.
  pub judge-served :
      (t : Timing W) (version : Text) (run : RdnsRun W) (req : Request) (s : AppState W)
      (seed : Bytes) (ephemeral : Bool)
      → req.path ≡ codes "/judge"
      → req.method ≡ codes "GET"
      → req.refusal ≡ none
      → (check W.float W.limit_cache s.rate_limit (self_ip W s req.headers req.conn) t.made t.now).1
        ≡ none
      → t.permit ≡ true
      → t.cut ≡ none
      → s.signer ≡ from_seed W.crypto seed ephemeral
      → ((b : Bytes) → W.is_header_value (Crypto.encode W.crypto b) ≡ true)
      → W.is_header_value s.signer.key_id ≡ true
      → IsReply req s.signer.public_key (service W t req (route W version run req) s).0
  judge-served t version run req s seed ephemeral path get readable token permit whole own fits id =
      let e = entered t req s in
      subst (IsReply req s.signer.public_key)
        (sym (
          service-admitted t req (route W version run req) s
            (ap is_monitoring path ∙ unfold is_monitoring in refl) token permit whole
          ∙ ap (λ (x : Response × AppState W). stamped req x.0)
              (route-judge version run req e path get readable)))
        (stamped-IsReply req s.signer.public_key (judge W run req e).0
          (judge-IsReply run req e seed ephemeral own fits id))
