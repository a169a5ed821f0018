-- ===== src/App/Middleware.antt =====
-- src/app.rs: the middleware. `next` is the rest of the service; what a task waits for and how
-- long is an argument.
use proxpulse_judge.Base.{
  ℕ, ◌+◌, ◌-◌, Bool, not, ◌&&◌, ◌||◌, Option, none, some, List, [], ◌∷◌, ◌++◌, if◌then◌else◌, leb,
  ◌==◌, Text, codes, text_eq, contains,
}
use proxpulse_judge.Str.Basic.{print_u64}
use proxpulse_judge.Dict.{insert}
use proxpulse_judge.Addr.Basic.{IpAddr}
use proxpulse_judge.RateLimit.Basic.{check}
use proxpulse_judge.Metrics.Basic.{Metrics, inc}
use proxpulse_judge.App.State.{World, AppState, Shared, absorb, Response}
use proxpulse_judge.App.Request.{HeaderMap, self_ip}

-- A request as the router takes it. `refusal` is what the extractor `Query<JudgeParams>` answers to a
-- query that it cannot read, such as one that names a parameter twice; `direct_ip` and `nonce` are
-- what it reads of any other.
pub record Request : Type 0 where
  pub method : Text
  pub path : Text
  pub headers : HeaderMap
  pub conn : Option IpAddr
  pub direct_ip : Option Text
  pub nonce : Option Text
  pub refusal : Option Text

abbrev monitoring_paths : List Text
monitoring_paths = codes "/healthz" ∷ codes "/readyz" ∷ codes "/metrics" ∷ []

unfoldable pub is_monitoring : Text → Bool
is_monitoring path = contains monitoring_paths path

-- `(status, Json({"error": …}))`
unfoldable pub error_response : ℕ → Text → Response
error_response status text = record {
  status = status;
  headers = (codes "content-type", codes "application/json") ∷ [];
  body = codes "{\"error\":\"" ++ (text ++ codes "\"}");
}

module _ (W : World) where
  -- The rest of the service, from a state to a response and a state.
  abbrev pub Next : Type 0
  Next = AppState W → Response × AppState W

  abbrev count_limited : AppState W → AppState W
  count_limited s = record s {
    metrics = record s.metrics { rate_limited = inc s.metrics.rate_limited };
  }

  unfoldable pub too_many : ℕ → Response
  unfolding error_response print_u64 insert
  too_many secs =
      let r = error_response 429 (codes "rate limited") in
      record r { headers = insert r.headers (codes "retry-after") (print_u64 secs) }

  abbrev admit : AppState W × Option ℕ → Next → Response × AppState W
  admit (s, some secs) next = (too_many secs, count_limited s)
  admit (s, none) next = next s

  unfoldable pub take_for : AppState W → Text → ℕ → ℕ → AppState W × Option ℕ
  unfolding check
  take_for s client made now =
      let (limit, answer) = check W.float W.limit_cache s.rate_limit client made now in
      (record s { rate_limit = limit }, answer)

  -- `made` and `now` are the two readings of the clock in `RateLimit::check`.
  unfoldable pub rate_limit_mw : ℕ → ℕ → Request → Next → Next
  unfolding is_monitoring self_ip take_for too_many inc
  rate_limit_mw made now req next s =
      if not (is_monitoring req.path)
      then admit (take_for s (self_ip W s req.headers req.conn) made now) next
      else next s

  unfoldable pub concurrency_mw : Bool → Request → Next → Next
  unfolding is_monitoring error_response
  concurrency_mw permit req next s =
      if is_monitoring req.path
      then next s
      else if permit
      then (let (res, s') = next (record s { concurrency = s.concurrency - 1 }) in
          (res, record s' { concurrency = s'.concurrency + 1 }))
      else (error_response 503 (codes "busy"), s)

  -- `cut` is what the handler and the other tasks leave when the handler is dropped, if it does not
  -- end in time.
  unfoldable pub timeout_mw : Option (Shared W) → Next → Next
  unfolding error_response
  timeout_mw none next s = next s
  timeout_mw (some m) next s = (error_response 504 (codes "request timeout"), absorb W s m)

  unfoldable pub response_headers_mw : Request → Next → Next
  unfolding insert
  response_headers_mw req next s =
      let cacheable = text_eq req.path (codes "/content") in
      let (res, s') = next s in
      let sniffed = insert res.headers (codes "x-content-type-options") (codes "nosniff") in
      (
        record res {
          headers =
              if not cacheable || not (res.status == 200)
              then insert sniffed (codes "cache-control") (codes "no-store")
              else sniffed;
        },
        s',
      )

  unfoldable pub count_response : Metrics → ℕ → Metrics
  unfolding inc
  count_response m status = record m {
    requests = inc m.requests;
    responses_4xx =
        if leb 400 status && leb status 499 then inc m.responses_4xx else m.responses_4xx;
    responses_5xx =
        if leb 500 status && leb status 599 then inc m.responses_5xx else m.responses_5xx;
  }

  unfoldable pub metrics_mw : Next → Next
  unfolding count_response
  metrics_mw next s =
      let (res, s') = next s in (res, record s' { metrics = count_response s'.metrics res.status })

  -- What happens while one request is served.
  pub record Timing : Type 0 where
    pub made : ℕ
    pub now : ℕ
    pub permit : Bool
    pub cut : Option (Shared W)

  -- The layers of `build_app`, the outermost first; `access_log_mw` only writes a log line.
  unfoldable pub service : Timing → Request → Next → Next
  unfolding metrics_mw response_headers_mw rate_limit_mw concurrency_mw timeout_mw
  service t req handler = metrics_mw (
      response_headers_mw req
        (rate_limit_mw t.made t.now req (concurrency_mw t.permit req (timeout_mw t.cut handler))))
