-- ===== src/App/Leaves.antt =====
-- src/app.rs: what the layers of the service leave as it was.
use proxpulse_judge.Base.{◌-◌, Bool, ◌≡◌, ap, refl, none, inl, inr, Bool-cases, Option-cases}
use proxpulse_judge.RateLimit.Basic.{check}
use proxpulse_judge.App.Request.{self_ip}
use proxpulse_judge.Metrics.Basic.{inc}
use proxpulse_judge.App.State.{World, AppState}
use proxpulse_judge.App.Middleware.{
  Request, is_monitoring, Next, rate_limit_mw, concurrency_mw, timeout_mw, response_headers_mw,
  count_response, metrics_mw, Timing, service, take_for,
}

module _ (W : World) where
  -- What a part of the service leaves as it was.
  abbrev Leaves : {A : Type 0} → (AppState W → A) → Next W → Type 0
  Leaves f next = (s : AppState W) → f (next s).1 ≡ f s

  rate_limit_mw-requests :
      (t : Timing W) (req : Request) (next : Next W)
      → Leaves (λ s. s.metrics.requests) next
      → Leaves (λ s. s.metrics.requests) (rate_limit_mw W t.made t.now req next)
  unfolding rate_limit_mw take_for
  rate_limit_mw-requests t req next keeps s = elim (Bool-cases (is_monitoring req.path)) [
    | inl h ↦ rw h (keeps s)
    | inr h ↦
        elim (Option-cases
          (check W.float W.limit_cache s.rate_limit (self_ip W s req.headers req.conn) t.made
            t.now).1) [ inl e ↦ rw (h, e) (keeps _) | inr (secs, e) ↦ rw (h, e) refl ]
  ]

  concurrency_mw-requests :
      (permit : Bool) (req : Request) (next : Next W)
      → Leaves (λ s. s.metrics.requests) next
      → Leaves (λ s. s.metrics.requests) (concurrency_mw W permit req next)
  unfolding concurrency_mw
  concurrency_mw-requests permit req next keeps s = elim (Bool-cases (is_monitoring req.path)) [
    | inl h ↦ rw h (keeps s)
    | inr h ↦ elim (Bool-cases permit) [
      | inl p ↦ rw (h, p) (keeps (record s { concurrency = s.concurrency - 1 }))
      | inr p ↦ rw (h, p) refl
    ]
  ]

  -- Where the handler leaves the number of requests as it was and ends in time, each request is
  -- counted once, also one that is turned away.
  pub service-counts :
      (t : Timing W) (req : Request) (handler : Next W) (s : AppState W)
      → t.cut ≡ none
      → ((s : AppState W) → (handler s).1.metrics.requests ≡ s.metrics.requests)
      → (service W t req handler s).1.metrics.requests ≡ inc s.metrics.requests
  unfolding service metrics_mw response_headers_mw count_response timeout_mw
  service-counts t req handler s whole keeps = rw whole (
      ap inc (
        rate_limit_mw-requests t req (concurrency_mw W t.permit req handler)
          (concurrency_mw-requests t.permit req handler keeps) s))
