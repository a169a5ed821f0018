-- ===== src/Main/Run.antt =====
-- src/main.rs: `main`, up to the accept loop. The command line, the file system, the network and the
-- environment are parameters; logging and the Tokio runtime are left out.
use proxpulse_judge.Base.{
  ℕ, ◌+◌, ◌*◌, Bool, false, Option, none, some, List, if◌then◌else◌, contains, unwrap_or, ok, err,
  Result, Text, codes,
}
use proxpulse_judge.Addr.Basic.{IpAddr}
use proxpulse_judge.Geo.Open.{Directory, open_pool, verify}
use proxpulse_judge.Config.Basic.{Env, Config, from_lookup}
use proxpulse_judge.Config.Probe.{probe_addr, var_of}
use proxpulse_judge.App.State.{World, AppState, new_state}
use proxpulse_judge.Server.Basic.{Limits}
use proxpulse_judge.Main.Health.{Probe, healthcheck}

abbrev second : ℕ
second = 1_000_000_000

-- `REQUEST_TIMEOUT` of src/app.rs
abbrev pub request_timeout : ℕ
request_timeout = 20 * second

abbrev pub header_read_timeout : ℕ
header_read_timeout = 10 * second

abbrev pub max_connections : ℕ
max_connections = 4096

abbrev pub limits : Limits
limits = record {
  header_read_timeout = header_read_timeout;
  max_connections = max_connections;
  shutdown_grace = request_timeout + 5 * second;
}

module _ (W : World) where
  -- Where the binary runs.
  pub record Host : Type 0 where
    pub args : List Text
    pub env : Env W.crypto
    pub directory : Text → Directory W.float.F
    pub probe : IpAddr × ℕ → Probe
    pub can_bind : IpAddr × ℕ → Bool

  -- The binary exits with a code, or the accept loop begins.
  pub data Outcome : Type 0 where
    exits : ℕ → Outcome
    serves : AppState W → Limits → Outcome

  unfoldable pub probe_health : Host → Option (IpAddr × ℕ) → Bool
  unfolding healthcheck
  probe_health host none = false
  probe_health host (some addr) = healthcheck W.from_utf8_lossy (host.probe addr)

  unfoldable pub check_geo : Result (Unit {0}) Text → Outcome
  check_geo (ok u) = exits 0
  check_geo (err e) = exits 1

  unfoldable pub geo_dir_of : Host → Text
  unfolding var_of
  geo_dir_of host = unwrap_or (var_of (host.env.var (codes "GEO_DIR"))) (codes "/app/geo")

  unfoldable pub start_service : Host → Result (Config W.crypto) Text → Outcome
  unfolding new_state open_pool
  start_service host (err e) = exits 1
  start_service host (ok cfg) =
      if host.can_bind (cfg.bind, cfg.port)
      then serves (new_state W (open_pool (host.directory cfg.geo_dir)) cfg) limits
      else exits 1

  -- The flags in the order in which they are looked for.
  unfoldable pub by_flag : Bool → Bool → Outcome → Outcome → Outcome → Outcome
  by_flag health geo checked verified served =
      if health then checked else if geo then verified else served

  unfoldable pub exit_health : Bool → Outcome
  exit_health healthy = exits (if healthy then 0 else 1)

  unfoldable pub main : Host → Outcome
  unfolding by_flag exit_health probe_health probe_addr check_geo verify open_pool geo_dir_of
      start_service from_lookup
  main host =
      by_flag (contains host.args (codes "--healthcheck"))
        (contains host.args (codes "--check-geo"))
        (exit_health (probe_health host (probe_addr W.crypto host.env)))
        (check_geo (verify (open_pool (host.directory (geo_dir_of host)))))
        (start_service host (from_lookup W.crypto host.env))
