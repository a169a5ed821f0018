-- ===== src/Server/Permits.antt =====
-- src/server.rs: the permits of the semaphore, and who holds them.
use proxpulse_judge.Base.{ℕ, ◌+◌, ◌-◌, ◌≡◌, true, List, [], ◌∷◌, arith, length, length-append, ap}
use proxpulse_judge.Server.Basic.{
  Limits, SocketAddr, Phase, acquiring, accepting, backing_off, draining, returned, Server, start,
  next_round, spawn, remove_at, is_open, close, begin_drain,
}
use proxpulse_judge.Server.Moves.{
  Move, grant, accept, retry, back_off, wake, leave, abandon, finish, give_up, end, notice,
  step-Move, Reach, begins, goes,
}

abbrev pub held : Phase → ℕ
held acquiring = 0
held accepting = 1
held (backing_off until) = 1
held (draining deadline) = 0
held (returned clean) = 0

-- Each permit is free, held by the loop, or with an open connection.
abbrev pub IsBalanced : Limits → Server → Type 0
IsBalanced limits s = s.free + held s.phase + length s.open_conns ≡ limits.max_connections

length-remove_at :
    (ps : List SocketAddr) (i : ℕ) → is_open ps i ≡ true → length (remove_at ps i) + 1 ≡ length ps
unfolding remove_at is_open
length-remove_at [] i h = ground arith
length-remove_at (p ∷ ps) i h = ground (arith, length-remove_at ps (i - 1))

module _ (limits : Limits) where
  Move-IsBalanced : (s t : Server) → Move limits s t → IsBalanced limits s → IsBalanced limits t
  unfolding next_round spawn close begin_drain
  Move-IsBalanced s t (grant p free e) b = rw e (let n = ap held p in omega arith)
  Move-IsBalanced s t (accept peer p e) b =
      rw e (let n = ap held p in omega (arith, length-append {0} s.open_conns (peer ∷ [])))
  Move-IsBalanced s t (retry p e) b = rw e (let n = ap held p in omega arith)
  Move-IsBalanced s t (back_off now p e) b = rw e (let n = ap held p in omega arith)
  Move-IsBalanced s t (wake until p e) b = rw e (let n = ap held p in omega arith)
  Move-IsBalanced s t (leave now p on e) b = rw e (let n = ap held p in omega arith)
  Move-IsBalanced s t (abandon now p on e) b = rw e (let n = ap held p in omega arith)
  Move-IsBalanced s t (finish d p none_open e) b = rw e (let n = ap held p in omega arith)
  Move-IsBalanced s t (give_up d now p late e) b = rw e (let n = ap held p in omega arith)
  Move-IsBalanced s t (end i is_there e) b =
      rw e (omega (arith, length-remove_at s.open_conns i is_there))
  Move-IsBalanced s t (notice e) b = rw e b

  -- In every run the permits that are free, the one that the loop holds, if it does, and one for each
  -- open connection make `max_connections` together: none is lost and none is made.
  pub Reach-IsBalanced : {s : Server} → Reach limits s → IsBalanced limits s
  unfolding start
  Reach-IsBalanced begins = omega arith
  Reach-IsBalanced (goes {s = s} {t = t} e r h) =
      Move-IsBalanced s t (step-Move limits s t e h) (Reach-IsBalanced r)
