-- ===== src/App/Judge.antt =====
-- src/app.rs: `judge`, and the routes.
use proxpulse_judge.Base.{
  not, ◌&&◌, Option, none, some, [], ◌∷◌, if◌then◌else◌, ◌==◌, ◌>>=◌, unwrap_or, filter_option,
  Text, Bytes, codes, text_eq, any,
}
use proxpulse_judge.Str.Basic.{as_bytes}
use proxpulse_judge.Dict.{insert}
use proxpulse_judge.Host.Basic.{normalize_host}
use proxpulse_judge.Anonymity.Basic.{Level, anonymity_level, level_text}
use proxpulse_judge.Classify.Basic.{IpType, TypeSignals, classify_ip, type_text}
use proxpulse_judge.Geo.Value.{unsigned, number, string, object}
use proxpulse_judge.Geo.Info.{GeoInfo}
use proxpulse_judge.Geo.Pool.{attributions}
use proxpulse_judge.Sign.Basic.{valid_nonce, sign, content_sha256}
use proxpulse_judge.App.State.{World, AppState, Response}
use proxpulse_judge.App.Request.{self_ip, proxy_view}
use proxpulse_judge.App.Rdns.{RdnsRun, maybe_rdns}
use proxpulse_judge.App.Middleware.{Request, Next}
use proxpulse_judge.App.Json.{fields, texts, text_map, geo_json, signals_json}
use proxpulse_judge.App.Handlers.{
  content_version, fixed_content, content_type, application_json, geo_cached, sources_or_null,
  index, healthz, readyz, metrics_ep, generate_204, ip, headers_echo, geo_ep, ip_type, content, key,
}

module _ (W : World) where
  -- `direct_ip` without line feeds
  unfoldable pub direct_raw : Request → Option Text
  direct_raw req = filter_option (λ d. not (any (λ c. c == b'\n') d)) req.direct_ip

  unfoldable pub challenge : Request → Text
  unfolding valid_nonce
  challenge req = unwrap_or (filter_option valid_nonce req.nonce) []

  unfoldable pub verdict : AppState W → Request → Level
  unfolding self_ip proxy_view direct_raw normalize_host anonymity_level
  verdict s req =
      let me = self_ip W s req.headers req.conn in
      anonymity_level (proxy_view W s req.headers me).0 (direct_raw req >>= normalize_host)
        s.trust_cf

  unfoldable pub judge_body :
      AppState W → Request → GeoInfo W.float.F → IpType × TypeSignals → Bytes
  unfolding self_ip proxy_view verdict level_text geo_json sources_or_null attributions type_text
      signals_json content_sha256
  judge_body s req g (t, signals) =
      let me = self_ip W s req.headers req.conn in
      let (view, chain) = proxy_view W s req.headers me in
      W.to_json (
        object (
          fields (
            (codes "ip", string me)
            ∷ (codes "headers", object (text_map view))
            ∷ (codes "xff_chain", texts chain)
            ∷ (codes "anonymity", string (level_text (verdict s req)))
            ∷ (codes "geo", geo_json g)
            ∷ (codes "geo_source", sources_or_null W s)
            ∷ (codes "attribution", texts (attributions s.geo))
            ∷ (codes "ip_type", string (type_text t))
            ∷ (codes "type_signals", signals_json signals)
            ∷ (codes "content_version", number (unsigned content_version))
            ∷ (codes "content_sha256", string (content_sha256 W.crypto fixed_content))
            ∷ [])))

  -- The answer with its signature, where both texts can be header values.
  unfoldable pub signed_response : AppState W → Request → Bytes → Response
  unfolding sign challenge direct_raw insert
  signed_response s req body =
      let sig = sign W.crypto s.signer (challenge req) (unwrap_or (direct_raw req) []) body in
      let base = (content_type, application_json) ∷ [] in
      record {
        status = 200;
        headers =
            if W.is_header_value sig && W.is_header_value s.signer.key_id
            then insert (insert base (codes "x-judge-signature") sig) (codes "x-judge-key-id")
                s.signer.key_id
            else base;
        body = body;
      }

  unfoldable pub judge : RdnsRun W → Request → Next W
  unfolding self_ip geo_cached maybe_rdns classify_ip judge_body signed_response
  judge run req s =
      let me = self_ip W s req.headers req.conn in
      let (g, s') = geo_cached W s me in
      let r = maybe_rdns W run s' me g.aso in
      let body = judge_body r.state req g (classify_ip W.is_alphanumeric g.aso r.ptr) in
      (signed_response r.state req body, r.state)

-- The routes of `build_app`. The answers to a path without a route, to another method than those of
-- `get`, and to a query that the extractor refuses are those of `axum`.
module _ (W : World) where
  unfoldable pub not_found : Response
  not_found = record { status = 404; headers = []; body = [] }

  unfoldable pub method_not_allowed : Response
  method_not_allowed = record {
    status = 405;
    headers = (codes "allow", codes "GET,HEAD") ∷ [];
    body = [];
  }

  unfoldable pub bad_query : Text → Response
  bad_query text = record {
    status = 400;
    headers = (content_type, codes "text/plain; charset=utf-8") ∷ [];
    body = as_bytes text;
  }

  -- `judge` behind its extractor
  unfoldable pub judge_ep : RdnsRun W → Request → Next W
  unfolding judge bad_query
  judge_ep run req s = elim req.refusal [
    | none ↦ judge W run req s
    | some text ↦ (bad_query text, s)
  ]

  -- `get`, which also answers HEAD, without the body
  unfoldable pub get_only : Text → Next W → Next W
  unfolding method_not_allowed
  get_only method next s =
      let answered = next s in
      if text_eq method (codes "GET")
      then answered
      else if text_eq method (codes "HEAD")
      then (record answered.0 { body = [] }, answered.1)
      else (method_not_allowed, s)

  unfoldable pub handler : Text → RdnsRun W → Request → Option (Next W)
  unfolding index healthz readyz metrics_ep generate_204 ip headers_echo geo_ep ip_type content
      judge_ep key
  handler version run req =
      if text_eq req.path (codes "/")
      then some (index W version)
      else if text_eq req.path (codes "/healthz")
      then some (healthz W)
      else if text_eq req.path (codes "/readyz")
      then some (readyz W)
      else if text_eq req.path (codes "/metrics")
      then some (metrics_ep W version req.headers)
      else if text_eq req.path (codes "/generate_204")
      then some (generate_204 W)
      else if text_eq req.path (codes "/ip")
      then some (ip W req)
      else if text_eq req.path (codes "/headers")
      then some (headers_echo W req)
      else if text_eq req.path (codes "/geo")
      then some (geo_ep W req)
      else if text_eq req.path (codes "/type")
      then some (ip_type W run req)
      else if text_eq req.path (codes "/content")
      then some (content W)
      else if text_eq req.path (codes "/judge")
      then some (judge_ep run req)
      else if text_eq req.path (codes "/key")
      then some (key W)
      else none

  unfoldable pub route : Text → RdnsRun W → Request → Next W
  unfolding not_found get_only handler
  route version run req s = elim (handler version run req) [
    | none ↦ (not_found, s)
    | some next ↦ get_only req.method next s
  ]
