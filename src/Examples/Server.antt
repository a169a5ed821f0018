-- ===== src/Examples/Server.antt =====
-- The theorems on the accept loop and the binary at concrete inputs.
use mathlib.Core.List.{Sublist}
use proxpulse_judge.Base.{
  ℕ, zero, suc, ◌+◌, ◌≤◌, ◌<◌, ◌≡◌, ◌↔◌, true, false, refl, ap, Option, none, some, List, [], ◌∷◌,
  ◌++◌, arith, Text, Bytes, codes, length, is_empty,
}
use proxpulse_judge.Str.Basic.{print_u64, is_whitespace}
use proxpulse_judge.Dict.{get}
use proxpulse_judge.Cache.{keep_all}
use proxpulse_judge.Addr.Basic.{v4}
use proxpulse_judge.Host.Basic.{canonical_text}
use proxpulse_judge.Float.{fixed_point}
use proxpulse_judge.RateLimit.Basic.{check}
use proxpulse_judge.Geo.Open.{Directory, open_pool}
use proxpulse_judge.Geo.Verify.{IsSound}
use proxpulse_judge.App.State.{AppState, Shared, new_state}
use proxpulse_judge.App.Rdns.{RdnsRun}
use proxpulse_judge.App.Middleware.{is_monitoring}
use proxpulse_judge.Server.Basic.{
  Limits, SocketAddr, draining, returned, Server, granted, accepted, closed, signal, interrupted,
  start, step, serve_request,
}
use proxpulse_judge.Server.Moves.{Reach, begins, goes}
use proxpulse_judge.Server.Permits.{IsBalanced, Reach-IsBalanced}
use proxpulse_judge.Server.Shutdown.{
  Left, waits, run, run-After, exit, end_phase, last_phase, exit_returns, all_close, drain_clean,
}
use proxpulse_judge.Server.Peer.{serve_request-limited}
use proxpulse_judge.Main.Health.{
  Probe, read_loop, enough_reads, healthcheck, read_buf, max_response, buf_size,
}
use proxpulse_judge.Main.Reads.{received, Ended, read_loop-ends}
use proxpulse_judge.Main.Healthy.{IsStatus, healthcheck_iff}
use proxpulse_judge.Main.Run.{Host, exits, serves, main, limits, by_flag, start_service}
use proxpulse_judge.Main.Exits.{Started, main-Started, main-check_geo}
use proxpulse_judge.Examples.Setting.{
  toy_world, toy_state, toy_env, request_of, in_time, toy_config, starts,
}

abbrev two : Limits
two = record { header_read_timeout = 1; max_connections = 2; shutdown_grace = 5 }

abbrev peer : SocketAddr
peer = record { ip = v4 5 6 7 8; port = 40_000 }

-- One client is accepted, then the signal ends the loop.
abbrev served : Server
served = record { phase = draining 15; free = 1; open_conns = peer ∷ []; signalled = true }

-- The steps that lead there.
served-Reach : Reach two served
unfolding start step
served-Reach =
    goes (interrupted 10) (goes signal (goes (accepted peer) (goes granted begins refl) refl) refl)
      refl

Reach-IsBalanced_example : IsBalanced two served
Reach-IsBalanced_example = Reach-IsBalanced two served-Reach

abbrev over : Server
over = record { phase = draining 15; free = 2; open_conns = []; signalled = true }

one_ends : run two served (closed 0 ∷ []) ≡ some over
unfolding run
one_ends = refl

run-After_example : Left over.phase × Sublist over.open_conns served.open_conns
run-After_example = run-After two served over (closed 0 ∷ []) (waits 15) one_ends

exit_returns_example :
    (end_phase (run two served (exit two 3 served.phase)) ≡ some (last_phase served.phase))
    × (length (exit two 3 served.phase) ≤ 3)
exit_returns_example = exit_returns two served 3 refl

drain_clean_example :
    run two served (all_close served.open_conns)
    ≡ some (record served { phase = returned true; free = 2; open_conns = [] })
drain_clean_example = drain_clean two served 15 served-Reach refl

-- A service that trusts no proxy.
abbrev alone : AppState toy_world
alone = record toy_state { trust_proxy = false }

abbrev others : Shared toy_world
others = record {
  geo_cache = alone.geo_cache;
  ptr_cache = alone.ptr_cache;
  rdns_sem = 16;
  rate_limit = alone.rate_limit;
  metrics = alone.metrics;
  concurrency = 512;
}

abbrev no_name : RdnsRun toy_world
no_name = record { permit = false; meanwhile = others; name = none; in_time = true }

plain_path : is_monitoring (codes "/geo") ≡ false
unfolding is_monitoring
plain_path = refl

spent_peer :
    (check fixed_point (keep_all ℕ) alone.rate_limit (canonical_text peer.ip) 0 0).1 ≡ some 60
unfolding toy_state check canonical_text keep_all
spent_peer = refl

no_cdn : alone.trust_cf ≡ false
unfolding toy_state
no_cdn = refl

serve_request-limited_example :
    ((serve_request toy_world in_time [] no_name peer (request_of (codes "/geo")) alone).0.status
      ≡ 429)
    × (get
          (serve_request toy_world in_time [] no_name peer
            (request_of (codes "/geo"))
            alone).0.headers
          (codes "retry-after")
        ≡ some (print_u64 60))
serve_request-limited_example =
    serve_request-limited toy_world in_time [] no_name peer (request_of (codes "/geo")) alone 60
      (omega arith) refl no_cdn plain_path spent_peer

-- A response in two reads.
abbrev status_ok : Bytes
status_ok = codes "HTTP/1.0 200 OK"

abbrev reply : ℕ → Option Bytes
reply zero = some (codes "HTTP/1.0 ")
reply (suc zero) = some (codes "200 OK" ++ (13 ∷ 10 ∷ []))
reply (suc (suc i)) = none

abbrev answering : Probe
answering = record { connects = true; writes = true; read = reply }

steady : (i : ℕ) → i < 2 → is_empty (read_buf (reply i)) ≡ false
unfolding read_buf
steady zero h = refl
steady (suc zero) h = refl
steady (suc (suc i)) h = absurd (omega arith)

replied : received reply 2 ≡ status_ok ++ (13 ∷ 10 ∷ [])
unfolding received
replied = refl

well_formed : IsStatus (codes "HTTP/1.0") (codes "200") (codes "OK")
unfolding is_whitespace
well_formed = record {
  version_given = refl;
  code_given = refl;
  version_whole = refl;
  code_whole = refl;
  one_line = refl;
  ascii = refl;
  short = omega arith;
}

healthcheck_iff_example : (healthcheck (λ b. b) answering ≡ true) ↔ (codes "200" ≡ codes "200")
healthcheck_iff_example =
    healthcheck_iff (λ b. b) (λ a b h. refl) (codes "HTTP/1.0") (codes "200") (codes "OK")
      well_formed answering 2 [] refl refl replied steady

read_loop-ends_example :
    (r : Bytes) × (read_loop reply enough_reads 0 [] ≡ some r)
    × Ended reply r
    × (length r < max_response + buf_size)
read_loop-ends_example = read_loop-ends reply

abbrev no_files : Directory ℕ
no_files = record { exists = λ n. false; entries = none; open_readfile = λ n. none }

-- A host with the given arguments.
abbrev host_of : List Text → Host toy_world
host_of args = record {
  args = args;
  env = toy_env;
  directory = λ d. no_files;
  probe = λ a. answering;
  can_bind = λ a. true;
}

main-check_geo_example :
    (main toy_world (host_of (codes "--check-geo" ∷ [])) ≡ exits 0) ↔ IsSound (open_pool no_files)
main-check_geo_example =
    main-check_geo toy_world (host_of (codes "--check-geo" ∷ [])) toy_config starts refl refl

begins_to_serve :
    main toy_world (host_of [])
    ≡ serves (new_state toy_world (open_pool no_files) toy_config) limits
begins_to_serve =
    unfold main by_flag start_service in ap (start_service toy_world (host_of [])) starts

main-Started_example :
    Started toy_world (host_of []) (new_state toy_world (open_pool no_files) toy_config) limits
main-Started_example =
    main-Started toy_world (host_of []) (new_state toy_world (open_pool no_files) toy_config) limits
      begins_to_serve
