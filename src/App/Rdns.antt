-- ===== src/App/Rdns.antt =====
-- src/app.rs: `maybe_rdns`. What the other tasks, the resolver and the clock do while it waits is
-- an argument.
use proxpulse_judge.Base.{
  ℕ, ◌-◌, ◌+◌, Bool, false, not, ◌||◌, Option, none, some, if◌then◌else◌, ◌==◌, Text, is_empty,
}
use proxpulse_judge.Str.Basic.{trim}
use proxpulse_judge.Cache.{Cache}
use proxpulse_judge.Addr.Basic.{IpAddr, to_canonical}
use proxpulse_judge.Addr.Print.{print_addr}
use proxpulse_judge.Addr.Parse.{parse_addr}
use proxpulse_judge.Metrics.Basic.{inc}
use proxpulse_judge.App.PublicIp.{is_public_ip}
use proxpulse_judge.App.State.{World, AppState, Shared, absorb}

-- `is_some_and(|o| !o.trim().is_empty())`
unfoldable pub has_name : Option Text → Bool
unfolding trim
has_name none = false
has_name (some o) = not (is_empty (trim o))

-- The address whose name is looked up, if the policy asks for one.
unfoldable pub rdns_target : ℕ → Text → Option Text → Option IpAddr
unfolding has_name parse_addr to_canonical is_public_ip
rdns_target rdns_timeout ip aso =
    if rdns_timeout == 0 || has_name aso then none else elim (parse_addr ip) [
      | none ↦ none
      | some a ↦ if is_public_ip (to_canonical a) then some (to_canonical a) else none
    ]

module _ (W : World) where
  open W use {ptr_cache}

  -- While the permit is awaited the other tasks leave `meanwhile`; `permit` tells whether
  -- one came within 100 ms, `name` is the resolver's answer, and `in_time` whether it came before
  -- the timeout.
  pub record RdnsRun : Type 0 where
    pub permit : Bool
    pub meanwhile : Shared W
    pub name : Option Text
    pub in_time : Bool

  -- The result, the state, and the lookup that was started: its task holds the permit, and writes
  -- its answer to the cache when it ends.
  pub record RdnsResult : Type 0 where
    pub ptr : Option Text
    pub state : AppState W
    pub started : Option Text

  abbrev pub done : AppState W → Option Text → RdnsResult
  done s ptr = record { ptr = ptr; state = s; started = none }

  abbrev pub count_skipped : AppState W → AppState W
  count_skipped s = record s {
    metrics = record s.metrics { rdns_skipped = inc s.metrics.rdns_skipped };
  }

  abbrev pub count_lookup : AppState W → AppState W
  count_lookup s = record s {
    metrics = record s.metrics { rdns_lookups = inc s.metrics.rdns_lookups };
  }

  abbrev count_timeout : AppState W → AppState W
  count_timeout s = record s {
    metrics = record s.metrics { rdns_timeouts = inc s.metrics.rdns_timeouts };
  }

  -- The end of the blocking task: the answer is cached and the permit is given back.
  unfoldable pub finish_lookup : AppState W → Text → Option Text → AppState W
  finish_lookup s key name = record s {
    ptr_cache = Cache.insert ptr_cache s.ptr_cache key name;
    rdns_sem = s.rdns_sem + 1;
  }

  unfoldable pub run_lookup : RdnsRun → AppState W → Text → RdnsResult
  unfolding finish_lookup
  run_lookup run s key =
      if run.in_time
      then record {
        ptr = run.name;
        state = finish_lookup (record s { rdns_sem = s.rdns_sem - 1 }) key run.name;
        started = none;
      }
      else record {
        ptr = none;
        state = count_timeout (record s { rdns_sem = s.rdns_sem - 1 });
        started = some key;
      }

  unfoldable pub resolve : RdnsRun → AppState W → IpAddr → RdnsResult
  unfolding print_addr run_lookup inc
  resolve run s addr =
      let key = print_addr addr in
      let s' = absorb W s run.meanwhile in
      elim (Cache.get ptr_cache s.ptr_cache key) [
        | some hit ↦ done s hit
        | none ↦
            if not run.permit
            then done (count_skipped s') none
            else elim (Cache.get ptr_cache s'.ptr_cache key) [
              | some hit ↦ done s' hit
              | none ↦ run_lookup run (count_lookup s') key
            ]
      ]

  unfoldable pub maybe_rdns : RdnsRun → AppState W → Text → Option Text → RdnsResult
  unfolding rdns_target resolve
  maybe_rdns run s ip aso = elim (rdns_target s.rdns_timeout ip aso) [
    | none ↦ done s none
    | some addr ↦ resolve run s addr
  ]
