-- ===== src/Server/Moves.antt =====
-- src/server.rs: the steps of the accept loop, one by one, and the states that it can be in.
use proxpulse_judge.Base.{
  ℕ, ◌+◌, ◌-◌, Bool, true, false, ◌≡◌, ◌≢◌, refl, sym, none, some, if◌then◌else◌, leb, is_empty,
  arith, Bool-cases, inl, inr, none-some, some_inj,
}
use proxpulse_judge.Server.Basic.{
  Limits, SocketAddr, ErrorKind, Phase, acquiring, accepting, backing_off, draining, returned,
  Server, Event, granted, accepted, failed, slept, closed, signal, interrupted, drained, timed_out,
  backoff, start, next_round, accept_error, is_routine, spawn, is_open, close, begin_drain,
  on_acquiring, on_accepting, on_backing_off, on_draining, on_phase, step,
}

-- The steps, each with its guard and the state it leads to.
pub data Move (limits : Limits) (s t : Server) : Type 0 where
  grant :
      s.phase ≡ acquiring
      → s.free ≢ 0
      → t ≡ record s { phase = accepting; free = s.free - 1 }
      → Move limits s t
  accept : (peer : SocketAddr) → s.phase ≡ accepting → t ≡ spawn s peer → Move limits s t
  retry : s.phase ≡ accepting → t ≡ next_round s → Move limits s t
  back_off :
      (now : ℕ)
      → s.phase ≡ accepting
      → t ≡ record s { phase = backing_off (now + backoff) }
      → Move limits s t
  wake : (until : ℕ) → s.phase ≡ backing_off until → t ≡ next_round s → Move limits s t
  leave :
      (now : ℕ)
      → s.phase ≡ acquiring
      → s.signalled ≡ true
      → t ≡ begin_drain limits s now
      → Move limits s t
  abandon :
      (now : ℕ)
      → s.phase ≡ accepting
      → s.signalled ≡ true
      → t ≡ begin_drain limits (record s { free = s.free + 1 }) now
      → Move limits s t
  finish :
      (deadline : ℕ)
      → s.phase ≡ draining deadline
      → is_empty s.open_conns ≡ true
      → t ≡ record s { phase = returned true }
      → Move limits s t
  give_up :
      (deadline now : ℕ)
      → s.phase ≡ draining deadline
      → leb deadline now ≡ true
      → t ≡ record s { phase = returned false }
      → Move limits s t
  end : (i : ℕ) → is_open s.open_conns i ≡ true → t ≡ close s i → Move limits s t
  notice : t ≡ record s { signalled = true } → Move limits s t

-- From a test that succeeds to the state it leads to.
if_some {ℓ} :
    {A : Type ℓ} (b : Bool) (a t : A) → (if b then some a else none) ≡ some t → (b ≡ true) × (a ≡ t)
if_some true a t h = (refl, some_inj h)
if_some false a t h = absurd (none-some h)

if_none {ℓ} :
    {A : Type ℓ} (b : Bool) (a t : A)
    → (if b then none else some a) ≡ some t
    → (b ≡ false) × (a ≡ t)
if_none true a t h = absurd (none-some h)
if_none false a t h = (refl, some_inj h)

module _ (limits : Limits) (s t : Server) where
  accept_error-Move :
      (kind : ErrorKind) (now : ℕ)
      → s.phase ≡ accepting
      → t ≡ accept_error s kind now
      → Move limits s t
  unfolding accept_error
  accept_error-Move kind now p h = elim (Bool-cases (is_routine kind)) [
    | inl e ↦ retry p (rw e at h)
    | inr e ↦ back_off now p (rw e at h)
  ]

  on_acquiring-Move :
      (e : Event) → s.phase ≡ acquiring → on_acquiring limits s e ≡ some t → Move limits s t
  unfolding on_acquiring
  on_acquiring-Move granted p h =
      let (free, same) = if_none _ _ t h in grant p (ground (arith, free)) (sym same)
  on_acquiring-Move (interrupted now) p h =
      let (on, same) = if_some _ _ t h in leave now p on (sym same)
  on_acquiring-Move (accepted peer) p h = absurd (none-some h)
  on_acquiring-Move (failed kind now) p h = absurd (none-some h)
  on_acquiring-Move (slept now) p h = absurd (none-some h)
  on_acquiring-Move (closed i) p h = absurd (none-some h)
  on_acquiring-Move signal p h = absurd (none-some h)
  on_acquiring-Move drained p h = absurd (none-some h)
  on_acquiring-Move (timed_out now) p h = absurd (none-some h)

  on_accepting-Move :
      (e : Event) → s.phase ≡ accepting → on_accepting limits s e ≡ some t → Move limits s t
  unfolding on_accepting
  on_accepting-Move (accepted peer) p h = accept peer p (sym (some_inj h))
  on_accepting-Move (failed kind now) p h = accept_error-Move kind now p (sym (some_inj h))
  on_accepting-Move (interrupted now) p h =
      let (on, same) = if_some _ _ t h in abandon now p on (sym same)
  on_accepting-Move granted p h = absurd (none-some h)
  on_accepting-Move (slept now) p h = absurd (none-some h)
  on_accepting-Move (closed i) p h = absurd (none-some h)
  on_accepting-Move signal p h = absurd (none-some h)
  on_accepting-Move drained p h = absurd (none-some h)
  on_accepting-Move (timed_out now) p h = absurd (none-some h)

  on_backing_off-Move :
      (until : ℕ) (e : Event)
      → s.phase ≡ backing_off until
      → on_backing_off until s e ≡ some t
      → Move limits s t
  unfolding on_backing_off
  on_backing_off-Move until (slept now) p h = wake until p (sym (if_some _ _ t h).1)
  on_backing_off-Move until granted p h = absurd (none-some h)
  on_backing_off-Move until (accepted peer) p h = absurd (none-some h)
  on_backing_off-Move until (failed kind now) p h = absurd (none-some h)
  on_backing_off-Move until (closed i) p h = absurd (none-some h)
  on_backing_off-Move until signal p h = absurd (none-some h)
  on_backing_off-Move until (interrupted now) p h = absurd (none-some h)
  on_backing_off-Move until drained p h = absurd (none-some h)
  on_backing_off-Move until (timed_out now) p h = absurd (none-some h)

  on_draining-Move :
      (deadline : ℕ) (e : Event)
      → s.phase ≡ draining deadline
      → on_draining deadline s e ≡ some t
      → Move limits s t
  unfolding on_draining
  on_draining-Move deadline drained p h =
      let (none_open, same) = if_some _ _ t h in finish deadline p none_open (sym same)
  on_draining-Move deadline (timed_out now) p h =
      let (late, same) = if_some _ _ t h in give_up deadline now p late (sym same)
  on_draining-Move deadline granted p h = absurd (none-some h)
  on_draining-Move deadline (accepted peer) p h = absurd (none-some h)
  on_draining-Move deadline (failed kind now) p h = absurd (none-some h)
  on_draining-Move deadline (slept now) p h = absurd (none-some h)
  on_draining-Move deadline (closed i) p h = absurd (none-some h)
  on_draining-Move deadline signal p h = absurd (none-some h)
  on_draining-Move deadline (interrupted now) p h = absurd (none-some h)

  on_phase-Move :
      (ph : Phase) (e : Event) → s.phase ≡ ph → on_phase limits ph s e ≡ some t → Move limits s t
  unfolding on_phase
  on_phase-Move acquiring e p h = on_acquiring-Move e p h
  on_phase-Move accepting e p h = on_accepting-Move e p h
  on_phase-Move (backing_off until) e p h = on_backing_off-Move until e p h
  on_phase-Move (draining deadline) e p h = on_draining-Move deadline e p h
  on_phase-Move (returned clean) e p h = absurd (none-some h)

  -- Whatever event drives the loop, what it does is one of the steps.
  pub step-Move : (e : Event) → step limits s e ≡ some t → Move limits s t
  unfolding step
  step-Move (closed i) h = let (is_there, same) = if_some _ _ t h in end i is_there (sym same)
  step-Move signal h = notice (sym (some_inj h))
  step-Move granted h = on_phase-Move s.phase granted refl h
  step-Move (accepted peer) h = on_phase-Move s.phase (accepted peer) refl h
  step-Move (failed kind now) h = on_phase-Move s.phase (failed kind now) refl h
  step-Move (slept now) h = on_phase-Move s.phase (slept now) refl h
  step-Move (interrupted now) h = on_phase-Move s.phase (interrupted now) refl h
  step-Move drained h = on_phase-Move s.phase drained refl h
  step-Move (timed_out now) h = on_phase-Move s.phase (timed_out now) refl h

-- The states that a run of the loop can be in.
pub data Reach (limits : Limits) : Server → Type 0 where
  begins : Reach limits (start limits)
  goes : {s t : Server} (e : Event) → Reach limits s → step limits s e ≡ some t → Reach limits t
