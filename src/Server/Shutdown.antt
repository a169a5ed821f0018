-- ===== src/Server/Shutdown.antt =====
-- src/server.rs: the end of the accept loop and of `serve`.
use proxpulse_judge.Base.{
  ℕ, ◌+◌, ◌-◌, ◌≤◌, Bool, true, false, ◌≡◌, ◌≢◌, refl, subst, ◌∙◌, Option, none, some, List, [],
  ◌∷◌, ◌==◌, arith, length, ap, leb, ◌>>=◌, inl, inr, none-some, some_inj, Option-cases, Bool-cases,
}
use mathlib.Core.List.{Sublistᴰ, Sublist}
use mathlib.Core.List.Sublist
use proxpulse_judge.Server.Basic.{
  Limits, SocketAddr, Phase, acquiring, accepting, backing_off, draining, returned, Server, Event,
  slept, interrupted, timed_out, closed, drained, next_round, remove_at, is_open, close,
  begin_drain, step, on_phase, on_acquiring, on_accepting, on_backing_off, on_draining,
}
use proxpulse_judge.Server.Moves.{
  Move, grant, accept, retry, back_off, wake, leave, abandon, finish, give_up, end, notice,
  step-Move, Reach,
}
use proxpulse_judge.Server.Permits.{held, Reach-IsBalanced}

-- The loop is left: the listener is dropped.
pub data Left : Phase → Type 0 where
  waits : (deadline : ℕ) → Left (draining deadline)
  ended : (clean : Bool) → Left (returned clean)

-- What events do one after the other, where each can come.
unfoldable pub run : Limits → Server → List Event → Option Server
unfolding step
run limits s [] = some s
run limits s (e ∷ es) = step limits s e >>= λ t. run limits t es

remove_at-Sublist : (ps : List SocketAddr) (i : ℕ) → Sublist (remove_at ps i) ps
unfolding remove_at
remove_at-Sublist [] i = ∣ Sublistᴰ.slnil ∣₁
remove_at-Sublist (p ∷ ps) i = elim (Bool-cases (i == 0)) [
  | inl e ↦ rw e (Sublist.cons p (Sublist.refl ps))
  | inr e ↦ rw e (Sublist.cons-cons p (remove_at-Sublist ps (i - 1)))
]

not_Left :
    {ph : Phase} → Left ph → (ph ≢ acquiring) × (ph ≢ accepting) × ((n : ℕ) → ph ≢ backing_off n)
not_Left (waits d) = (λ e. cc, λ e. cc, λ n e. cc)
not_Left (ended d) = (λ e. cc, λ e. cc, λ n e. cc)

-- What a step leaves of the loop that is left.
abbrev After : Server → Server → Type 0
After s t = Left t.phase × Sublist t.open_conns s.open_conns

Move-After : (limits : Limits) (s t : Server) → Left s.phase → Move limits s t → After s t
unfolding close
Move-After limits s t l (grant p free e) = absurd ((not_Left l).0 p)
Move-After limits s t l (accept peer p e) = absurd ((not_Left l).1 p)
Move-After limits s t l (retry p e) = absurd ((not_Left l).1 p)
Move-After limits s t l (back_off now p e) = absurd ((not_Left l).1 p)
Move-After limits s t l (wake until p e) = absurd ((not_Left l).2 until p)
Move-After limits s t l (leave now p on e) = absurd ((not_Left l).0 p)
Move-After limits s t l (abandon now p on e) = absurd ((not_Left l).1 p)
Move-After limits s t l (finish d p none_open e) = rw e (ended true, Sublist.refl s.open_conns)
Move-After limits s t l (give_up d now p late e) = rw e (ended false, Sublist.refl s.open_conns)
Move-After limits s t l (end i is_there e) = rw e (l, remove_at-Sublist s.open_conns i)
Move-After limits s t l (notice e) = rw e (l, Sublist.refl s.open_conns)

module _ (limits : Limits) where
  -- Once the loop is left, whatever events come, it is not entered again, and the connections that
  -- are open are some of those that were open then: none is accepted.
  pub run-After :
      (s t : Server) (es : List Event)
      → Left s.phase
      → run limits s es ≡ some t
      → Left t.phase × Sublist t.open_conns s.open_conns
  unfolding run
  run-After s t [] l h =
      let same = some_inj h in subst (After s) same (l, Sublist.refl s.open_conns)
  run-After s t (e ∷ es) l h = elim (Option-cases (step limits s e)) [
    | inl gone ↦ absurd (none-some (rw gone at h))
    | inr (u, there) ↦
        let (left, some_open) = Move-After limits s u l (step-Move limits s u e there) in
        let (left', open') = run-After u t es left (rw there at h) in
        (left', Sublist.trans open' some_open)
  ]

-- The events that end `serve` from a phase with the signal there, without any client: the back-off
-- ends, the signal is noticed, the grace is over.
unfoldable pub exit : Limits → ℕ → Phase → List Event
exit limits now acquiring = interrupted now ∷ timed_out (now + limits.shutdown_grace) ∷ []
exit limits now accepting = interrupted now ∷ timed_out (now + limits.shutdown_grace) ∷ []
exit limits now (backing_off until) =
    slept until ∷ interrupted until ∷ timed_out (until + limits.shutdown_grace) ∷ []
exit limits now (draining deadline) = timed_out deadline ∷ []
exit limits now (returned clean) = []

leb_refl : (n : ℕ) → leb n n ≡ true
leb_refl n = ground arith

-- the phase in which a run ends
abbrev pub end_phase : Option Server → Option Phase
end_phase none = none
end_phase (some t) = some t.phase

abbrev pub last_phase : Phase → Phase
last_phase (returned clean) = returned clean
last_phase _ = returned false

exit_of :
    (limits : Limits) (now : ℕ) (ph : Phase) (s : Server)
    → s.signalled ≡ true
    → end_phase (run limits (record s { phase = ph }) (exit limits now ph)) ≡ some (last_phase ph)
unfolding run exit step on_phase on_acquiring on_accepting on_backing_off on_draining begin_drain
    next_round
exit_of limits now acquiring s h = rw (h, leb_refl (now + limits.shutdown_grace)) refl
exit_of limits now accepting s h = rw (h, leb_refl (now + limits.shutdown_grace)) refl
exit_of limits now (backing_off until) s h =
    rw (h, leb_refl until, leb_refl (until + limits.shutdown_grace)) refl
exit_of limits now (draining deadline) s h = rw (leb_refl deadline) refl
exit_of limits now (returned clean) s h = refl

exit-short : (limits : Limits) (now : ℕ) (ph : Phase) → length (exit limits now ph) ≤ 3
unfolding exit
exit-short limits now acquiring = omega arith
exit-short limits now accepting = omega arith
exit-short limits now (backing_off until) = omega arith
exit-short limits now (draining deadline) = omega arith
exit-short limits now (returned clean) = omega arith

-- Once the signal has come, the events of `exit`, of which there are three at most and none is of a
-- client or a connection, bring `serve` from every phase to its return: the back-off ends, the signal
-- is noticed, and the grace is over.
pub exit_returns :
    (limits : Limits) (s : Server) (now : ℕ)
    → s.signalled ≡ true
    → (end_phase (run limits s (exit limits now s.phase)) ≡ some (last_phase s.phase))
      × (length (exit limits now s.phase) ≤ 3)
exit_returns limits s now h = (exit_of limits now s.phase s h, exit-short limits now s.phase)

-- All open connections end, and the loop sees it.
unfoldable pub all_close : List SocketAddr → List Event
all_close [] = drained ∷ []
all_close (p ∷ ps) = closed 0 ∷ all_close ps

drains :
    (limits : Limits) (deadline free : ℕ) (g : Bool) (ps : List SocketAddr)
    → run limits
        (record { phase = draining deadline; free = free; open_conns = ps; signalled = g })
        (all_close ps)
      ≡ some (record {
        phase = returned true;
        free = free + length ps;
        open_conns = [];
        signalled = g;
      })
unfolding run all_close step on_phase on_draining is_open close remove_at
drains limits deadline free g [] =
    ap
      (λ (n : ℕ). some (record { phase = returned true; free = n; open_conns = []; signalled = g }))
      (omega arith)
drains limits deadline free g (p ∷ ps) =
    drains limits deadline (free + 1) g ps
    ∙ ap
        (λ (n : ℕ).
          some (record { phase = returned true; free = n; open_conns = []; signalled = g }))
        (omega arith)

-- In every run, where the loop is left and then all open connections end, `serve` returns with the
-- drain completed, no connection open and every permit free again.
pub drain_clean :
    (limits : Limits) (s : Server) (deadline : ℕ)
    → Reach limits s
    → s.phase ≡ draining deadline
    → run limits s (all_close s.open_conns)
      ≡ some (record s { phase = returned true; free = limits.max_connections; open_conns = [] })
drain_clean limits s deadline r p =
    let all = Reach-IsBalanced limits r in
    let none_held = ap held p in
    ap (λ (ph : Phase). run limits (record s { phase = ph }) (all_close s.open_conns)) p
    ∙ drains limits deadline s.free s.signalled s.open_conns
    ∙ ap (λ (n : ℕ). some (record s { phase = returned true; free = n; open_conns = [] }))
        (omega arith)
