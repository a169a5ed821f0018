-- ===== src/Main/Exits.antt =====
-- src/main.rs: what the exits of the binary and its service say.
use proxpulse_judge.Base.{
  ℕ, ◌<◌, ◌≡◌, ◌≢◌, ◌↔◌, inl, inr, refl, sym, ap, ◌∙◌, subst, Bool, true, false, some,
  if◌then◌else◌, contains, unwrap_or, ok, err, Result, Text, codes, Bool-cases, arith,
}
use proxpulse_judge.Geo.Open.{open_pool, verify}
use proxpulse_judge.Geo.Verify.{IsSound, verify_iff}
use proxpulse_judge.Config.Basic.{Config, from_lookup}
use proxpulse_judge.Config.Origin.{from_lookup-Origin, err_ok}
use proxpulse_judge.Config.Probe.{probe_addr, probe_ip, probe_addr_lem, setting-ok}
use proxpulse_judge.Config.Rules.{IsSafe, from_lookup-IsSafe}
use proxpulse_judge.RateLimit.Clients.{IsValid, new_limit-IsValid}
use proxpulse_judge.App.State.{World, AppState, new_state}
use proxpulse_judge.Server.Basic.{Limits}
use proxpulse_judge.Main.Health.{healthcheck}
use proxpulse_judge.Main.Run.{
  Host, request_timeout, Outcome, exits, serves, limits, probe_health, check_geo, geo_dir_of,
  start_service, main, by_flag, exit_health,
}

one_zero : ◌≢◌ {A = ℕ} 1 0
one_zero h = omega arith

module _ (W : World) where
  exits_inj : {n m : ℕ} → Path (Outcome W) (exits n) (exits m) → n ≡ m
  exits_inj h = cc

  exits-serves : {n : ℕ} {s : AppState W} {l : Limits} → Path (Outcome W) (exits n) (serves s l) → ⊥
  exits-serves h = cc

  serves_inj :
      {s t : AppState W} {l m : Limits}
      → Path (Outcome W) (serves s l) (serves t m)
      → (s ≡ t) × (l ≡ m)
  serves_inj h = (cc, cc)

  abbrev Exits : Outcome W → Type 0
  Exits x = (n : ℕ) × (x ≡ exits n)

  by_flag-health : (b g : Bool) (x y z : Outcome W) → b ≡ true → by_flag W b g x y z ≡ x
  unfolding by_flag
  by_flag-health b g x y z h = rw h refl

  by_flag-geo : (b g : Bool) (x y z : Outcome W) → b ≡ false → g ≡ true → by_flag W b g x y z ≡ y
  unfolding by_flag
  by_flag-geo b g x y z h k = rw (h, k) refl

  main_eq :
      (host : Host W)
      → main W host
        ≡ by_flag W
            (contains host.args (codes "--healthcheck"))
            (contains host.args (codes "--check-geo"))
            (exit_health W (probe_health W host (probe_addr W.crypto host.env)))
            (check_geo W (verify (open_pool (host.directory (geo_dir_of W host)))))
            (start_service W host (from_lookup W.crypto host.env))
  unfolding main
  main_eq host = refl

  -- The service starts on the last way only.
  by_flag-serves :
      (b g : Bool) (x y z : Outcome W) (s : AppState W) (l : Limits)
      → Exits x
      → Exits y
      → by_flag W b g x y z ≡ serves s l
      → z ≡ serves s l
  unfolding by_flag
  by_flag-serves true g x y z s l (n, ex) ey h = absurd (exits-serves (sym ex ∙ h))
  by_flag-serves false true x y z s l ex (m, ey) h = absurd (exits-serves (sym ey ∙ h))
  by_flag-serves false false x y z s l ex ey h = h

  check_geo-Exits : (x : Result (Unit {0}) Text) → Exits (check_geo W x)
  unfolding check_geo
  check_geo-Exits (ok u) = (0, refl)
  check_geo-Exits (err e) = (1, refl)

  exit_health-Exits : (b : Bool) → Exits (exit_health W b)
  unfolding exit_health
  exit_health-Exits b = (if b then 0 else 1, refl)

  check_geo_iff : (x : Result (Unit {0}) Text) → (check_geo W x ≡ exits 0) ↔ (x ≡ ok tt)
  unfolding check_geo
  check_geo_iff (ok u) = (λ h. refl, λ h. refl)
  check_geo_iff (err e) = (λ h. absurd (one_zero (exits_inj h)), λ h. absurd (err_ok h))

  exit_health_iff : (b : Bool) → (exit_health W b ≡ exits 0) ↔ (b ≡ true)
  unfolding exit_health
  exit_health_iff true = (λ h. refl, λ h. refl)
  exit_health_iff false = (λ h. absurd (one_zero (exits_inj h)), λ h. cc)

  start_service-serves :
      (host : Host W) (x : Result (Config W.crypto) Text) (s : AppState W) (l : Limits)
      → start_service W host x ≡ serves s l
      → (cfg : Config W.crypto) × (x ≡ ok cfg)
        × (host.can_bind (cfg.bind, cfg.port) ≡ true)
        × (s ≡ new_state W (open_pool (host.directory cfg.geo_dir)) cfg)
        × (l ≡ limits)
  unfolding start_service
  start_service-serves host (err e) s l h = absurd (exits-serves h)
  start_service-serves host (ok cfg) s l h =
      elim (Bool-cases (host.can_bind (cfg.bind, cfg.port))) [
        | inl bound ↦
            let same = serves_inj (rw bound at h) in (cfg, refl, bound, sym same.0, sym same.1)
        | inr not_bound ↦ absurd (exits-serves (rw not_bound at h))
      ]

  module _ (host : Host W) (cfg : Config W.crypto)
      (accepted : from_lookup W.crypto host.env ≡ ok cfg) where
    same_dir : geo_dir_of W host ≡ cfg.geo_dir
    same_dir =
        let o = from_lookup-Origin W.crypto host.env cfg accepted in
        unfold geo_dir_of in
        ap (λ raw. unwrap_or raw (codes "/app/geo"))
          (setting-ok W.crypto host.env (codes "GEO_DIR") o.raw_geo o.geo_set)
        ∙ sym o.geo_read

    -- Where a start accepts the environment and `--healthcheck` is not given, `--check-geo` exits with 0
    -- exactly if the databases that the service would load from the same directory are sound and at
    -- least one is there.
    pub main-check_geo :
        contains host.args (codes "--healthcheck") ≡ false
        → contains host.args (codes "--check-geo") ≡ true
        → (main W host ≡ exits 0) ↔ IsSound (open_pool (host.directory cfg.geo_dir))
    main-check_geo h g =
        let pool = open_pool (host.directory cfg.geo_dir) in
        let run : main W host ≡ check_geo W (verify pool) =
          main_eq host
          ∙ by_flag-geo _ _ _ _ _ h g
          ∙ ap (λ dir. check_geo W (verify (open_pool (host.directory dir)))) same_dir in
        (
          λ e. (verify_iff pool).0 ((check_geo_iff (verify pool)).0 (sym run ∙ e)),
          λ e. run ∙ (check_geo_iff (verify pool)).1 ((verify_iff pool).1 e),
        )

    health_at :
        exit_health W (probe_health W host (some (probe_ip cfg.bind, cfg.port)))
        ≡ exit_health W (healthcheck W.from_utf8_lossy (host.probe (probe_ip cfg.bind, cfg.port)))
    unfolding probe_health
    health_at = refl

    -- Where a start accepts the environment, `--healthcheck` exits with 0 exactly if the health check
    -- succeeds at the port that the service listens on.
    pub main-healthcheck :
        contains host.args (codes "--healthcheck") ≡ true
        → (main W host ≡ exits 0)
          ↔ (healthcheck W.from_utf8_lossy (host.probe (probe_ip cfg.bind, cfg.port)) ≡ true)
    main-healthcheck h =
        let run : main W host
            ≡ exit_health W (probe_health W host (some (probe_ip cfg.bind, cfg.port))) =
          main_eq host
          ∙ by_flag-health _ _ _ _ _ h
          ∙ ap (λ a. exit_health W (probe_health W host a))
              (probe_addr_lem W.crypto host.env cfg accepted) in
        let ok_health = healthcheck W.from_utf8_lossy (host.probe (probe_ip cfg.bind, cfg.port)) in
        (
          λ e. (exit_health_iff ok_health).0 (sym (run ∙ health_at) ∙ e),
          λ e. run ∙ health_at ∙ (exit_health_iff ok_health).1 e,
        )

  -- What holds where the accept loop begins.
  pub record Started (host : Host W) (s : AppState W) (l : Limits) : Type 0 where
    pub cfg : Config W.crypto
    pub accepted : from_lookup W.crypto host.env ≡ ok cfg
    pub safe : IsSafe W.crypto host.env.is_header_name cfg
    pub bound : host.can_bind (cfg.bind, cfg.port) ≡ true
    pub loaded : s.geo ≡ open_pool (host.directory cfg.geo_dir)
    pub trusts : (s.trust_proxy ≡ cfg.trust_proxy) × (s.trust_cf ≡ cfg.trust_cf)
    pub fresh : IsValid W.float W.limit_cache s.rate_limit
    pub idle : s.concurrency ≡ 512
    pub patient : request_timeout < l.shutdown_grace

  new-Started :
      (host : Host W) (cfg : Config W.crypto)
      → from_lookup W.crypto host.env ≡ ok cfg
      → host.can_bind (cfg.bind, cfg.port) ≡ true
      → Started host (new_state W (open_pool (host.directory cfg.geo_dir)) cfg) limits
  new-Started host cfg e bound = record {
    cfg = cfg;
    accepted = e;
    safe = from_lookup-IsSafe W.crypto host.env cfg e;
    bound = bound;
    loaded = unfold new_state in refl;
    trusts = unfold new_state in (refl, refl);
    fresh = unfold new_state in new_limit-IsValid W.float W.limit_cache cfg.rate_per_minute;
    idle = unfold new_state in refl;
    patient = omega arith;
  }

  -- The accept loop begins only with a configuration that is accepted and safe, at an address that
  -- can be bound, with the databases of its directory, the trust that it sets, a valid rate limit,
  -- all 512 permits for requests free, and a grace at the end that is longer than the timeout of a
  -- request.
  pub main-Started :
      (host : Host W) (s : AppState W) (l : Limits) → main W host ≡ serves s l → Started host s l
  main-Started host s l h =
      let served =
        by_flag-serves _ _ _ _ _ s l (exit_health-Exits _) (check_geo-Exits _)
          (sym (main_eq host) ∙ h) in
      let (cfg, e, bound, state, lim) =
        start_service-serves host (from_lookup W.crypto host.env) s l served in
      subst (λ (m : Limits). Started host s m) (sym lim)
        (subst (λ t. Started host t limits) (sym state) (new-Started host cfg e bound))
