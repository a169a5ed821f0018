-- ===== src/App/Layers.antt =====
-- src/app.rs: what the layers of the service do to a request, whatever the handler does.
use proxpulse_judge.Base.{
  ℕ, Bool, true, false, not, ◌||◌, ◌≡◌, ◌≢◌, refl, ◌∙◌, some, ◌⊎◌, inl, inr, if◌then◌else◌, ◌==◌,
  arith, Text, codes, text_eq, Bool-cases, text_eq_iff, ==_iff,
}
use proxpulse_judge.Str.Basic.{print_u64}
use proxpulse_judge.RateLimit.Basic.{check}
use proxpulse_judge.App.Request.{self_ip}
use proxpulse_judge.Dict.{Dict, get, insert, get-insert}
use proxpulse_judge.Metrics.Basic.{inc}
use proxpulse_judge.App.State.{World, AppState}
use proxpulse_judge.App.Middleware.{
  Request, is_monitoring, Next, rate_limit_mw, concurrency_mw, timeout_mw, response_headers_mw,
  count_response, metrics_mw, Timing, service, error_response, take_for, too_many,
}

abbrev pub nosniff : Text
nosniff = codes "x-content-type-options"

abbrev pub cache_control : Text
cache_control = codes "cache-control"

-- The two headers that an answer gets.
abbrev pub stamp : Bool → Dict Text → Dict Text
stamp fresh headers =
    if fresh
    then insert (insert headers nosniff (codes "nosniff")) cache_control (codes "no-store")
    else insert headers nosniff (codes "nosniff")

stamp-nosniff :
    (fresh : Bool) (headers : Dict Text)
    → get (stamp fresh headers) nosniff ≡ some (codes "nosniff")
stamp-nosniff true headers =
    rw
      (
        get-insert (insert headers nosniff (codes "nosniff")) cache_control nosniff
            (codes "no-store"),
        get-insert headers nosniff nosniff (codes "nosniff"),
      )
      refl
stamp-nosniff false headers = rw (get-insert headers nosniff nosniff (codes "nosniff")) refl

stamp-no_store :
    (fresh : Bool) (headers : Dict Text)
    → fresh ≡ true
    → get (stamp fresh headers) cache_control ≡ some (codes "no-store")
stamp-no_store fresh headers h =
    rw
      (
        h,
        get-insert (insert headers nosniff (codes "nosniff")) cache_control cache_control
            (codes "no-store"),
      )
      refl

true_right : (a : Bool) → (a || true) ≡ true
true_right a = ground arith

is_fresh :
    (path : Text) (status : ℕ)
    → (path ≢ codes "/content") ⊎ (status ≢ 200)
    → (not (text_eq path (codes "/content")) || not (status == 200)) ≡ true
is_fresh path status (inl h) = elim (Bool-cases (text_eq path (codes "/content"))) [
  | inl e ↦ absurd (h ((text_eq_iff path (codes "/content")).0 e))
  | inr e ↦ rw e refl
]
is_fresh path status (inr h) = elim (Bool-cases (status == 200)) [
  | inl e ↦ absurd (h ((==_iff status 200).0 e))
  | inr e ↦ rw e (true_right (not (text_eq path (codes "/content"))))
]

abbrev retry_after : Text
retry_after = codes "retry-after"

stamp-other :
    (fresh : Bool) (headers : Dict Text)
    → get (stamp fresh headers) retry_after ≡ get headers retry_after
stamp-other true headers =
    rw
      (
        get-insert (insert headers nosniff (codes "nosniff")) cache_control retry_after
            (codes "no-store"),
        get-insert headers nosniff retry_after (codes "nosniff"),
      )
      refl
stamp-other false headers = rw (get-insert headers nosniff retry_after (codes "nosniff")) refl

too_many-status : (W : World) (secs : ℕ) → (too_many W secs).status ≡ 429
unfolding too_many error_response
too_many-status W secs = refl

too_many-after :
    (W : World) (secs : ℕ) → get (too_many W secs).headers retry_after ≡ some (print_u64 secs)
unfolding too_many
too_many-after W secs =
    get-insert (error_response 429 (codes "rate limited")).headers retry_after retry_after
      (print_u64 secs)

module _ (W : World) where
  -- On a monitoring path neither the rate limit nor the number of requests under way matters: the
  -- answer and the state are those of a service without these two layers.
  pub service-monitoring :
      (t : Timing W) (req : Request) (handler : Next W) (s : AppState W)
      → is_monitoring req.path ≡ true
      → service W t req handler s
        ≡ metrics_mw W (response_headers_mw W req (timeout_mw W t.cut handler)) s
  unfolding service rate_limit_mw concurrency_mw metrics_mw response_headers_mw
  service-monitoring t req handler s h = rw h refl

  -- An answer forbids sniffing, and forbids caching unless it is a successful one for `/content`.
  pub service-headers :
      (t : Timing W) (req : Request) (handler : Next W) (s : AppState W)
      → (req.path ≢ codes "/content") ⊎ ((service W t req handler s).0.status ≢ 200)
      → (get (service W t req handler s).0.headers nosniff ≡ some (codes "nosniff"))
        × (get (service W t req handler s).0.headers cache_control ≡ some (codes "no-store"))
  unfolding service metrics_mw response_headers_mw
  service-headers t req handler s h =
      let below =
        rate_limit_mw W t.made t.now req
          (concurrency_mw W t.permit req (timeout_mw W t.cut handler)) s in
      let fresh = not (text_eq req.path (codes "/content")) || not (below.0.status == 200) in
      (
        stamp-nosniff fresh below.0.headers,
        stamp-no_store fresh below.0.headers (is_fresh req.path below.0.status h),
      )

  -- A client without a token gets 429 with the seconds to wait, the handler does not run, and of the
  -- state only the rate limit and three counters change.
  pub service-limited :
      (t : Timing W) (req : Request) (handler : Next W) (s : AppState W) (secs : ℕ)
      → is_monitoring req.path ≡ false
      → (check W.float W.limit_cache s.rate_limit (self_ip W s req.headers req.conn) t.made t.now).1
        ≡ some secs
      → ((service W t req handler s).0.status ≡ 429)
        × (get (service W t req handler s).0.headers retry_after ≡ some (print_u64 secs))
        × ((service W t req handler s).1 ≡ record s {
          rate_limit =
              (check W.float W.limit_cache s.rate_limit
                (self_ip W s req.headers req.conn)
                t.made
                t.now).0;
          metrics = record s.metrics {
            requests = inc s.metrics.requests;
            responses_4xx = inc s.metrics.responses_4xx;
            rate_limited = inc s.metrics.rate_limited;
          };
        })
  unfolding service metrics_mw response_headers_mw rate_limit_mw take_for count_response
  service-limited t req handler s secs h e =
      rw (h, e)
        (rw (too_many-status W secs) (
          refl,
          stamp-other (not (text_eq req.path (codes "/content")) || true) (too_many W secs).headers
              ∙ too_many-after W secs,
          refl,
        ))
