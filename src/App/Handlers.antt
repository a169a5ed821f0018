-- ===== src/App/Handlers.antt =====
-- src/app.rs: the handlers but for `judge`.
use proxpulse_judge.Base.{
  ℕ, Bool, true, false, not, ◌&&◌, Option, none, some, List, [], ◌∷◌, if◌then◌else◌, ◌==◌, ◌>>=◌,
  Text, Bytes, codes, is_empty, length,
}
use Prim.Native.Nat.{bit_or, bit_xor}
use proxpulse_judge.Str.Basic.{strip_prefix, as_bytes}
use proxpulse_judge.Dict.{insert}
use proxpulse_judge.Cache.{Cache}
use proxpulse_judge.Classify.Basic.{classify_ip, type_text}
use proxpulse_judge.Geo.Value.{Value, null, boolean, string, object}
use proxpulse_judge.Geo.Info.{GeoInfo}
use proxpulse_judge.Geo.Pool.{lookup, attributions}
use proxpulse_judge.Metrics.Basic.{render}
use proxpulse_judge.App.State.{World, AppState, Response}
use proxpulse_judge.App.Request.{HeaderMap, get_all, self_ip, proxy_view}
use proxpulse_judge.App.Rdns.{RdnsRun, maybe_rdns}
use proxpulse_judge.App.Middleware.{Request, Next, error_response}
use proxpulse_judge.App.Json.{fields, texts, text_map, geo_json, signals_json}

abbrev pub content_version : ℕ
content_version = 1

abbrev pub fixed_content : Bytes
fixed_content =
    codes
      "{\"proxpulse\":\"judge\",\"v\":1,\"payload\":\"0123456789abcdef0123456789abcdef0123456789abcdef\"}"

-- `zip` and `fold`: the bits in which the bytes differ, put together.
unfoldable pub diff_bits : ℕ → Bytes → Bytes → ℕ
diff_bits acc (x ∷ xs) (y ∷ ys) = diff_bits (bit_or acc (bit_xor x y)) xs ys
diff_bits acc _ _ = acc

unfoldable pub constant_time_eq : Bytes → Bytes → Bool
unfolding diff_bits
constant_time_eq a b = length a == length b && diff_bits 0 a b == 0

abbrev pub content_type : Text
content_type = codes "content-type"

abbrev pub application_json : Text
application_json = codes "application/json"

module _ {F : Type 0} where
  abbrev license : Text → Text → Text → Value F
  license name url attribution = object (
      fields (
        (codes "license", string name)
        ∷ (codes "url", string url)
        ∷ (codes "attribution", string attribution)
        ∷ []))

  abbrev pub licenses : Value F
  licenses = object (
      fields (
        (
          codes "dbip_lite",
          license (codes "CC BY 4.0") (codes "https://db-ip.com/db/lite.php")
              (codes "IP Geolocation by DB-IP (https://db-ip.com)"),
        )
        ∷ (
          codes "geolite2",
          license (codes "GeoLite EULA (CC BY-SA 4.0 aspects)")
              (codes "https://www.maxmind.com/en/geolite/eula")
              (codes
                "This product includes GeoLite2 Data created by MaxMind, available from https://www.maxmind.com"),
        )
        ∷ []))

abbrev pub endpoints : List Text
endpoints =
    codes "GET /generate_204"
    ∷ codes "GET /ip"
    ∷ codes "GET /headers"
    ∷ codes "GET /geo"
    ∷ codes "GET /type"
    ∷ codes "GET /content"
    ∷ codes "GET /judge"
    ∷ codes "GET /key"
    ∷ codes "GET /healthz"
    ∷ codes "GET /readyz"
    ∷ codes "GET /metrics"
    ∷ []

module _ (W : World) where
  unfoldable pub json_response : Value W.float.F → Response
  json_response v = record {
    status = 200;
    headers = (content_type, application_json) ∷ [];
    body = W.to_json v;
  }

  unfoldable pub geo_cached : AppState W → Text → GeoInfo W.float.F × AppState W
  unfolding lookup
  geo_cached s ip =
      let (info, store) =
        Cache.get_with W.geo_cache s.geo_cache ip (lookup W.of_u64 W.of_negative s.geo ip) in
      (info, record s { geo_cache = store })

  unfoldable pub sources_or_null : AppState W → Value W.float.F
  sources_or_null s = if is_empty s.geo.sources then null else object (text_map s.geo.sources)

  unfoldable pub healthz : Next W
  unfolding json_response
  healthz s = (json_response (object (fields ((codes "ok", boolean true) ∷ []))), s)

  unfoldable pub readyz : Next W
  unfolding json_response
  readyz s = (
    json_response (
        object (
          fields (
            (codes "ok", boolean true)
            ∷ (codes "geo_ready", boolean (not (is_empty s.geo.sources)))
            ∷ (codes "geo_sources", object (text_map s.geo.sources))
            ∷ []))),
    s,
  )

  -- `HeaderValue::to_str`: visible ASCII and tabs only
  unfoldable pub to_str : Bytes → Option Text
  to_str v = if W.is_header_value v then some v else none

  unfoldable pub presented_token : HeaderMap → Option Text
  unfolding get_all strip_prefix to_str
  presented_token headers = elim (get_all headers (codes "authorization")) [
    | [] ↦ none
    | v ∷ vs ↦ to_str v >>= λ t. strip_prefix (codes "Bearer ") t
  ]

  -- Whether `/metrics` answers.
  unfoldable pub may_read_metrics : Option Text → HeaderMap → Bool
  unfolding presented_token constant_time_eq as_bytes
  may_read_metrics none headers = true
  may_read_metrics (some token) headers = elim (presented_token headers) [
    | none ↦ false
    | some p ↦ constant_time_eq (as_bytes p) (as_bytes token)
  ]

  unfoldable pub unauthorized : Response
  unfolding error_response insert
  unauthorized =
      let r = error_response 401 (codes "unauthorized") in
      record r { headers = insert r.headers (codes "www-authenticate") (codes "Bearer") }

  unfoldable pub metrics_ep : Text → HeaderMap → Next W
  unfolding may_read_metrics unauthorized render
  metrics_ep version headers s =
      if may_read_metrics s.metrics_token headers
      then (
        record {
          status = 200;
          headers = (content_type, codes "text/plain; version=0.0.4") ∷ [];
          body = as_bytes (render s.metrics (not (is_empty s.geo.sources)) version);
        },
        s,
      )
      else (unauthorized, s)

  unfoldable pub generate_204 : Next W
  generate_204 s = (record { status = 204; headers = []; body = [] }, s)

  unfoldable pub ip : Request → Next W
  unfolding self_ip json_response
  ip req s = (
    json_response (object (fields ((codes "ip", string (self_ip W s req.headers req.conn)) ∷ []))),
    s,
  )

  unfoldable pub headers_echo : Request → Next W
  unfolding self_ip proxy_view json_response
  headers_echo req s =
      let me = self_ip W s req.headers req.conn in
      let (view, chain) = proxy_view W s req.headers me in
      (
        json_response (
            object (
              fields (
                (codes "ip", string me)
                ∷ (codes "headers", object (text_map view))
                ∷ (codes "xff_chain", texts chain)
                ∷ []))),
        s,
      )

  unfoldable pub geo_ep : Request → Next W
  unfolding self_ip geo_cached sources_or_null attributions geo_json json_response
  geo_ep req s =
      let me = self_ip W s req.headers req.conn in
      let (info, s') = geo_cached s me in
      (
        json_response (
            object (
              fields (
                (codes "ip", string me)
                ∷ (codes "geo", geo_json info)
                ∷ (codes "source", sources_or_null s')
                ∷ (codes "attribution", texts (attributions s'.geo))
                ∷ []))),
        s',
      )

  unfoldable pub ip_type : RdnsRun W → Request → Next W
  unfolding self_ip geo_cached maybe_rdns classify_ip signals_json type_text json_response
  ip_type run req s =
      let me = self_ip W s req.headers req.conn in
      let (info, s') = geo_cached s me in
      let r = maybe_rdns W run s' me info.aso in
      let (t, signals) = classify_ip W.is_alphanumeric info.aso r.ptr in
      (
        json_response (
            object (
              fields (
                (codes "ip", string me)
                ∷ (codes "ip_type", string (type_text t))
                ∷ (codes "signals", signals_json signals)
                ∷ []))),
        r.state,
      )

  unfoldable pub content : Next W
  content s = (
    record { status = 200; headers = (content_type, application_json) ∷ []; body = fixed_content },
    s,
  )

  unfoldable pub key : Next W
  unfolding json_response
  key s = (
    json_response (
        object (
          fields (
            (codes "alg", string (codes "ed25519"))
            ∷ (codes "key_id", string s.signer.key_id)
            ∷ (codes "public_key", string s.signer.public_key)
            ∷ []))),
    s,
  )

  unfoldable pub index : Text → Next W
  unfolding json_response
  index version s = (
    json_response (
        object (
          fields (
            (codes "service", string (codes "proxpulse-judge"))
            ∷ (codes "version", string version)
            ∷ (codes "repository", string (codes "https://github.com/nechel12/proxpulse-judge"))
            ∷ (codes "trust_proxy", boolean s.trust_proxy)
            ∷ (codes "trust_cf", boolean s.trust_cf)
            ∷ (codes "geo_sources", object (text_map s.geo.sources))
            ∷ (codes "licenses", licenses)
            ∷ (codes "endpoints", texts endpoints)
            ∷ []))),
    s,
  )
