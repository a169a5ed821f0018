-- ===== src/App/Answers.antt =====
-- src/app.rs: the JSON bodies of the answers.
use proxpulse_judge.Base.{true, ◌≡◌, refl, Bytes, is_empty}
use proxpulse_judge.Classify.Basic.{IpType, TypeSignals, classify_ip}
use proxpulse_judge.Geo.Value.{Value}
use proxpulse_judge.Geo.Info.{GeoInfo}
use proxpulse_judge.Geo.Pool.{attributions}
use proxpulse_judge.Sign.Basic.{content_sha256}
use proxpulse_judge.App.State.{World, AppState}
use proxpulse_judge.App.Request.{self_ip, proxy_view}
use proxpulse_judge.App.Rdns.{RdnsRun, maybe_rdns}
use proxpulse_judge.App.Middleware.{Request}
use proxpulse_judge.App.Handlers.{
  content_version, fixed_content, geo_cached, json_response, sources_or_null, headers_echo, geo_ep,
  ip_type,
}
use proxpulse_judge.App.Judge.{judge_body, signed_response, judge, verdict}
use proxpulse_judge.App.Schema.{
  Schema, conforms, sources_schema, judge_schema, geo_answer_schema, type_answer_schema,
  headers_answer_schema,
}
use proxpulse_judge.App.Shapes.{
  texts-conforms, text_map-conforms, sources-conforms, level_text-conforms, type_text-conforms,
  required-has_shape, no_more-has_shape, shaped-conforms, text-conforms, unsigned-conforms,
  geo_json-conforms, signals_json-conforms,
}

module _ (W : World) where
  -- The body is the text of a JSON value of that shape.
  abbrev pub HasJson : Schema → Bytes → Type 0
  HasJson schema body = (v : Value W.float.F) × (body ≡ W.to_json v) × (conforms schema v ≡ true)

  sources_or_null-conforms : (s : AppState W) → conforms sources_schema (sources_or_null W s) ≡ true
  unfolding sources_or_null
  sources_or_null-conforms s = sources-conforms W.float.F (is_empty s.geo.sources) s.geo.sources

  pub judge_body-HasJson :
      (s : AppState W) (req : Request) (g : GeoInfo W.float.F) (k : IpType × TypeSignals)
      → HasJson judge_schema (judge_body W s req g k)
  unfolding judge_body
  judge_body-HasJson s req g (t, signals) = (
    _,
    refl,
    let me = self_ip W s req.headers req.conn in
        shaped-conforms W.float.F _ _ (
          required-has_shape W.float.F _ _ _ _ _ (text-conforms W.float.F me) (
            required-has_shape W.float.F _ _ _ _ _
              (text_map-conforms W.float.F (proxy_view W s req.headers me).0)
              (required-has_shape W.float.F _ _ _ _ _
                (texts-conforms W.float.F (proxy_view W s req.headers me).1)
                (required-has_shape W.float.F _ _ _ _ _
                  (level_text-conforms W.float.F (verdict W s req))
                  (required-has_shape W.float.F _ _ _ _ _ (geo_json-conforms W.float.F g) (
                    required-has_shape W.float.F _ _ _ _ _ (sources_or_null-conforms s) (
                      required-has_shape W.float.F _ _ _ _ _
                        (texts-conforms W.float.F (attributions s.geo))
                        (required-has_shape W.float.F _ _ _ _ _ (type_text-conforms W.float.F t) (
                          required-has_shape W.float.F _ _ _ _ _
                            (signals_json-conforms W.float.F signals)
                            (required-has_shape W.float.F _ _ _ _ _
                              (unsigned-conforms W.float.F content_version)
                              (required-has_shape W.float.F _ _ _ _ _
                                (text-conforms W.float.F (content_sha256 W.crypto fixed_content))
                                (no_more-has_shape W.float.F)))))))))))),
  )

  signed-HasJson :
      (s : AppState W) (req : Request) (schema : Schema) (body : Bytes)
      → HasJson schema body
      → HasJson schema (signed_response W s req body).body
  unfolding signed_response
  signed-HasJson s req schema body h = h

  pub judge-HasJson :
      (run : RdnsRun W) (req : Request) (s : AppState W)
      → HasJson judge_schema (judge W run req s).0.body
  unfolding judge
  judge-HasJson run req s =
      let me = self_ip W s req.headers req.conn in
      let r = geo_cached W s me in
      let found = maybe_rdns W run r.1 me r.0.aso in
      let answer = classify_ip W.is_alphanumeric r.0.aso found.ptr in
      signed-HasJson found.state req judge_schema (judge_body W found.state req r.0 answer)
        (judge_body-HasJson found.state req r.0 answer)

  geo_ep-HasJson :
      (req : Request) (s : AppState W) → HasJson geo_answer_schema (geo_ep W req s).0.body
  unfolding geo_ep json_response
  geo_ep-HasJson req s = (
    _,
    refl,
    let r = geo_cached W s (self_ip W s req.headers req.conn) in
        shaped-conforms W.float.F _ _ (
          required-has_shape W.float.F _ _ _ _ _
            (text-conforms W.float.F (self_ip W s req.headers req.conn))
            (required-has_shape W.float.F _ _ _ _ _ (geo_json-conforms W.float.F r.0) (
              required-has_shape W.float.F _ _ _ _ _ (sources_or_null-conforms r.1) (
                required-has_shape W.float.F _ _ _ _ _
                  (texts-conforms W.float.F (attributions r.1.geo))
                  (no_more-has_shape W.float.F))))),
  )

  ip_type-HasJson :
      (run : RdnsRun W) (req : Request) (s : AppState W)
      → HasJson type_answer_schema (ip_type W run req s).0.body
  unfolding ip_type json_response
  ip_type-HasJson run req s = (
    _,
    refl,
    let me = self_ip W s req.headers req.conn in
        let r = geo_cached W s me in
        let answer = classify_ip W.is_alphanumeric r.0.aso (maybe_rdns W run r.1 me r.0.aso).ptr in
        shaped-conforms W.float.F _ _ (
          required-has_shape W.float.F _ _ _ _ _ (text-conforms W.float.F me) (
            required-has_shape W.float.F _ _ _ _ _ (type_text-conforms W.float.F answer.0) (
              required-has_shape W.float.F _ _ _ _ _ (signals_json-conforms W.float.F answer.1)
                (no_more-has_shape W.float.F)))),
  )

  headers_echo-HasJson :
      (req : Request) (s : AppState W) → HasJson headers_answer_schema (headers_echo W req s).0.body
  unfolding headers_echo json_response
  headers_echo-HasJson req s = (
    _,
    refl,
    let me = self_ip W s req.headers req.conn in
        shaped-conforms W.float.F _ _ (
          required-has_shape W.float.F _ _ _ _ _ (text-conforms W.float.F me) (
            required-has_shape W.float.F _ _ _ _ _
              (text_map-conforms W.float.F (proxy_view W s req.headers me).0)
              (required-has_shape W.float.F _ _ _ _ _
                (texts-conforms W.float.F (proxy_view W s req.headers me).1)
                (no_more-has_shape W.float.F)))),
  )

  -- In every state and for every request, the bodies of `/judge`, `/geo`, `/type` and `/headers` are
  -- the texts of JSON objects with exactly the fields of their shape, each with a value of its kind:
  -- the anonymity is one of the three levels, the network one of the five kinds, and only fields of
  -- the geo data but its address and the note of the signals may be left out.
  pub answers-HasJson :
      (run : RdnsRun W) (req : Request) (s : AppState W)
      → HasJson judge_schema (judge W run req s).0.body
        × HasJson geo_answer_schema (geo_ep W req s).0.body
        × HasJson type_answer_schema (ip_type W run req s).0.body
        × HasJson headers_answer_schema (headers_echo W req s).0.body
  answers-HasJson run req s = (
    judge-HasJson run req s,
    geo_ep-HasJson req s,
    ip_type-HasJson run req s,
    headers_echo-HasJson req s,
  )
