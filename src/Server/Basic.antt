-- ===== src/Server/Basic.antt =====
-- src/server.rs: the accept loop of `serve` as a machine that the environment drives: the semaphore,
-- the listener, the connections that end, the shutdown signal and the clock. Times are in
-- nanoseconds. What hyper does with the bytes of a connection is not modelled.
use proxpulse_judge.Base.{
  ℕ, ◌+◌, ◌-◌, Bool, true, false, Option, none, some, List, [], ◌∷◌, ◌++◌, if◌then◌else◌, leb,
  is_empty, ◌==◌, Text,
}
use proxpulse_judge.Addr.Basic.{IpAddr}
use proxpulse_judge.App.State.{World}
use proxpulse_judge.App.Rdns.{RdnsRun}
use proxpulse_judge.App.Judge.{route}
use proxpulse_judge.App.Middleware.{Request, Timing, Next, service}

pub record Limits : Type 0 where
  pub header_read_timeout : ℕ
  pub max_connections : ℕ
  pub shutdown_grace : ℕ

pub record SocketAddr : Type 0 where
  pub ip : IpAddr
  pub port : ℕ

-- The kinds of `io::Error` that the loop tells apart.
pub data ErrorKind : Type 0 where
  connection_refused : ErrorKind
  connection_aborted : ErrorKind
  connection_reset : ErrorKind
  other_error : ErrorKind

abbrev pub backoff : ℕ
backoff = 1_000_000_000

unfoldable pub is_routine : ErrorKind → Bool
is_routine connection_refused = true
is_routine connection_aborted = true
is_routine connection_reset = true
is_routine other_error = false

-- Where the loop waits: for a permit, for a client, after an error that is not routine, and, once
-- the loop is left, for the connections; at last it has returned, with all of them drained or not.
pub data Phase : Type 0 where
  acquiring : Phase
  accepting : Phase
  backing_off : ℕ → Phase
  draining : ℕ → Phase
  returned : Bool → Phase

-- The free permits, the peers of the open connections, and whether the signal has come.
pub record Server : Type 0 where
  pub phase : Phase
  pub free : ℕ
  pub open_conns : List SocketAddr
  pub signalled : Bool

pub data Event : Type 0 where
  granted : Event
  accepted : SocketAddr → Event
  failed : ErrorKind → ℕ → Event
  slept : ℕ → Event
  closed : ℕ → Event
  signal : Event
  interrupted : ℕ → Event
  drained : Event
  timed_out : ℕ → Event

unfoldable pub start : Limits → Server
start limits = record {
  phase = acquiring;
  free = limits.max_connections;
  open_conns = [];
  signalled = false;
}

-- The permit that the loop itself holds comes back when its round is over.
unfoldable pub next_round : Server → Server
next_round s = record s { phase = acquiring; free = s.free + 1 }

unfoldable pub accept_error : Server → ErrorKind → ℕ → Server
unfolding is_routine next_round
accept_error s kind now =
    if is_routine kind then next_round s else record s { phase = backing_off (now + backoff) }

-- A spawned connection takes the permit with it.
unfoldable pub spawn : Server → SocketAddr → Server
spawn s peer = record s { phase = acquiring; open_conns = s.open_conns ++ peer ∷ [] }

unfoldable pub remove_at : List SocketAddr → ℕ → List SocketAddr
remove_at [] i = []
remove_at (p ∷ ps) i = let rest = remove_at ps (i - 1) in if i == 0 then ps else p ∷ rest

unfoldable pub is_open : List SocketAddr → ℕ → Bool
is_open [] i = false
is_open (p ∷ ps) i = let rest = is_open ps (i - 1) in if i == 0 then true else rest

-- The end of a connection gives its permit back.
unfoldable pub close : Server → ℕ → Server
unfolding remove_at
close s i = record s { open_conns = remove_at s.open_conns i; free = s.free + 1 }

-- The listener is dropped and the wait for the open connections begins.
unfoldable pub begin_drain : Limits → Server → ℕ → Server
begin_drain limits s now = record s { phase = draining (now + limits.shutdown_grace) }

-- What each event does in the phase in which it can come; `none` where it cannot come.
unfoldable pub on_acquiring : Limits → Server → Event → Option Server
unfolding begin_drain
on_acquiring limits s granted =
    if s.free == 0 then none else some (record s { phase = accepting; free = s.free - 1 })
on_acquiring limits s (interrupted now) =
    if s.signalled then some (begin_drain limits s now) else none
on_acquiring limits s _ = none

unfoldable pub on_accepting : Limits → Server → Event → Option Server
unfolding begin_drain accept_error spawn
on_accepting limits s (accepted peer) = some (spawn s peer)
on_accepting limits s (failed kind now) = some (accept_error s kind now)
on_accepting limits s (interrupted now) =
    if s.signalled then some (begin_drain limits (record s { free = s.free + 1 }) now) else none
on_accepting limits s _ = none

unfoldable pub on_backing_off : ℕ → Server → Event → Option Server
unfolding next_round
on_backing_off until s (slept now) = if leb until now then some (next_round s) else none
on_backing_off until s _ = none

unfoldable pub on_draining : ℕ → Server → Event → Option Server
on_draining deadline s drained =
    if is_empty s.open_conns then some (record s { phase = returned true }) else none
on_draining deadline s (timed_out now) =
    if leb deadline now then some (record s { phase = returned false }) else none
on_draining deadline s _ = none

unfoldable pub on_phase : Limits → Phase → Server → Event → Option Server
unfolding on_acquiring on_accepting on_backing_off on_draining
on_phase limits acquiring s e = on_acquiring limits s e
on_phase limits accepting s e = on_accepting limits s e
on_phase limits (backing_off until) s e = on_backing_off until s e
on_phase limits (draining deadline) s e = on_draining deadline s e
on_phase limits (returned clean) s e = none

-- The end of a connection and the signal come in every phase. Where the signal has come and another
-- branch of `select!` is ready too, either may be taken.
unfoldable pub step : Limits → Server → Event → Option Server
unfolding on_phase close is_open
step limits s (closed i) = if is_open s.open_conns i then some (close s i) else none
step limits s signal = some (record s { signalled = true })
step limits s granted = on_phase limits s.phase s granted
step limits s (accepted peer) = on_phase limits s.phase s (accepted peer)
step limits s (failed kind now) = on_phase limits s.phase s (failed kind now)
step limits s (slept now) = on_phase limits s.phase s (slept now)
step limits s (interrupted now) = on_phase limits s.phase s (interrupted now)
step limits s drained = on_phase limits s.phase s drained
step limits s (timed_out now) = on_phase limits s.phase s (timed_out now)

-- The request gets the peer of the connection it came in by, whatever it held before.
unfoldable pub with_peer : SocketAddr → Request → Request
with_peer peer req = record req { conn = some peer.ip }

-- The service of one connection: each request of it goes through the whole application.
unfoldable pub serve_request :
    (W : World) → Timing W → Text → RdnsRun W → SocketAddr → Request → Next W
unfolding service route with_peer
serve_request W t version run peer req =
    let r = with_peer peer req in service W t r (route W version run r)
