-- ===== src/Main/Signal.antt =====
-- src/main.rs: `shutdown_signal`, by the instants at which the signals come. What never comes is
-- `none`.
use proxpulse_judge.Base.{
  ℕ, ◌≤◌, min, ◌≡◌, ◌⊎◌, inl, inr, refl, Option, none, some, some_inj, none-some, arith,
}

-- `select!` ends with the first of its branches.
abbrev select : Option ℕ → Option ℕ → Option ℕ
select none b = b
select (some a) none = some a
select (some a) (some b) = some (min a b)

-- SIGTERM, if its source could be made: without one the branch is pending for ever.
unfoldable terminate : Option (Option ℕ) → Option ℕ
terminate none = none
terminate (some t) = t

unfoldable shutdown_signal : Option ℕ → Option (Option ℕ) → Option ℕ
unfolding terminate
shutdown_signal ctrl_c sigterm = select ctrl_c (terminate sigterm)

-- Without a source of SIGTERM the other signal still ends the service.
shutdown_signal-ctrl_c : (ctrl_c : Option ℕ) → shutdown_signal ctrl_c none ≡ ctrl_c
unfolding shutdown_signal
shutdown_signal-ctrl_c none = refl
shutdown_signal-ctrl_c (some t) = refl

-- A signal ends the service no later than it comes.
shutdown_signal-first :
    (ctrl_c : Option ℕ) (sigterm : Option (Option ℕ)) (t : ℕ)
    → (ctrl_c ≡ some t) ⊎ (sigterm ≡ some (some t))
    → (u : ℕ) × (shutdown_signal ctrl_c sigterm ≡ some u) × (u ≤ t)
unfolding shutdown_signal
shutdown_signal-first none none t (inl h) = absurd (none-some h)
shutdown_signal-first none none t (inr h) = absurd (none-some h)
shutdown_signal-first none (some o) t (inl h) = absurd (none-some h)
shutdown_signal-first none (some o) t (inr h) = (t, some_inj h, omega arith)
shutdown_signal-first (some a) none t (inl h) = (t, h, omega arith)
shutdown_signal-first (some a) none t (inr h) = absurd (none-some h)
shutdown_signal-first (some a) (some none) t (inl h) = (t, h, omega arith)
shutdown_signal-first (some a) (some none) t (inr h) = absurd (none-some (some_inj h))
shutdown_signal-first (some a) (some (some b)) t (inl h) =
    (min a b, refl, (let e = some_inj h in omega (arith, e)))
shutdown_signal-first (some a) (some (some b)) t (inr h) =
    (min a b, refl, (let e = some_inj (some_inj h) in omega (arith, e)))
