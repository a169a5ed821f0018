-- ===== src/Metrics/Basic.antt =====
-- src/metrics.rs. `AtomicU64::fetch_add` wraps around.
use proxpulse_judge.Base.{
  ℕ, ◌+◌, ◌%◌, ◌^◌, Bool, ◌≡◌, refl, [], ◌∷◌, ◌++◌, if◌then◌else◌, Text, codes,
}
use proxpulse_judge.Str.Basic.{print_u64}

pub record Metrics : Type 0 where
  pub requests : ℕ
  pub responses_4xx : ℕ
  pub responses_5xx : ℕ
  pub rate_limited : ℕ
  pub rdns_lookups : ℕ
  pub rdns_timeouts : ℕ
  pub rdns_skipped : ℕ

-- `Metrics::default`
abbrev pub zero_metrics : Metrics
zero_metrics = record {
  requests = 0;
  responses_4xx = 0;
  responses_5xx = 0;
  rate_limited = 0;
  rdns_lookups = 0;
  rdns_timeouts = 0;
  rdns_skipped = 0;
}

unfoldable pub inc : ℕ → ℕ
inc counter = (counter + 1) % 2 ^ 64

unfoldable pub counter_lines : Text → Text → ℕ → Text
unfolding print_u64
counter_lines name help value =
    codes "# HELP "
    ++ (name
        ++ (b' '
            ∷ (help
                ++ (codes "\n# TYPE "
                    ++ (name
                        ++ (codes " counter\n"
                            ++ (name ++ (b' ' ∷ (print_u64 value ++ b'\n' ∷ [])))))))))

unfoldable pub render : Metrics → Bool → Text → Text
unfolding counter_lines
render m geo_ready version =
    counter_lines (codes "proxpulse_requests_total") (codes "Total HTTP requests handled.")
      m.requests
    ++ (counter_lines (codes "proxpulse_responses_4xx_total") (codes "Responses with 4xx status.")
          m.responses_4xx
        ++ (counter_lines (codes "proxpulse_responses_5xx_total")
              (codes "Responses with 5xx status.") m.responses_5xx
            ++ (counter_lines (codes "proxpulse_rate_limited_total")
                  (codes "Requests rejected by the rate limiter.") m.rate_limited
                ++ (counter_lines (codes "proxpulse_rdns_lookups_total")
                      (codes "Blocking rDNS lookups spawned.") m.rdns_lookups
                    ++ (counter_lines (codes "proxpulse_rdns_timeouts_total")
                          (codes "rDNS lookups that exceeded the request timeout.") m.rdns_timeouts
                        ++ (counter_lines (codes "proxpulse_rdns_skipped_total")
                              (codes "Requests skipped because no rDNS permit was available.")
                              m.rdns_skipped
                            ++ (codes
                                  "# HELP proxpulse_geo_ready 1 when at least one geo database is loaded.\n"
                                ++ (codes "# TYPE proxpulse_geo_ready gauge\nproxpulse_geo_ready "
                                    ++ ((if geo_ready then codes "1\n" else codes "0\n")
                                        ++ (codes
                                              "# HELP proxpulse_build_info Build version information.\n"
                                            ++ (codes
                                                  "# TYPE proxpulse_build_info gauge\nproxpulse_build_info{version=\""
                                                ++ (version ++ codes "\"} 1\n"))))))))))))

render_version : (inc 1 ≡ 2) × (inc (2 ^ 64 + 0) ≡ 1)
unfolding inc
render_version = (refl, refl)
