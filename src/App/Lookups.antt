-- ===== src/App/Lookups.antt =====
-- src/app.rs: the permits of the reverse look-ups in a run of the service. A look-up whose answer is
-- not awaited any longer goes on in its task, which holds its permit until it ends.
use proxpulse_judge.Base.{
  ℕ, zero, suc, ◌+◌, ◌≤◌, true, ◌≡◌, refl, ◌∙◌, inl, inr, Option, none, some, List, [], ◌∷◌, ◌++◌,
  arith, Text, length, length-append, Bool-cases,
}
use proxpulse_judge.Geo.Pool.{GeoPool}
use proxpulse_judge.Config.Basic.{Config}
use proxpulse_judge.App.State.{World, AppState, new_state, rdns_max_concurrent}
use proxpulse_judge.App.Endings.{maybe_rdns-ends}
use proxpulse_judge.App.Rdns.{RdnsRun, RdnsResult, run_lookup, finish_lookup, maybe_rdns}

-- the look-up that a request leaves behind
abbrev pub left : Option Text → List Text
left none = []
left (some key) = key ∷ []

-- The addresses that are looked up, without the one at position `i`, and that one.
abbrev pub key_at : List Text → ℕ → Option Text
key_at [] i = none
key_at (k ∷ ks) zero = some k
key_at (k ∷ ks) (suc i) = key_at ks i

abbrev pub without : List Text → ℕ → List Text
without [] i = []
without (k ∷ ks) zero = ks
without (k ∷ ks) (suc i) = k ∷ without ks i

length-without :
    (ks : List Text) (i : ℕ) (key : Text)
    → key_at ks i ≡ some key
    → length (without ks i) + 1 ≡ length ks
length-without [] i key h = cc
length-without (k ∷ ks) zero key h = ground arith
length-without (k ∷ ks) (suc i) key h = ground (arith, length-without ks i key h)

module _ (W : World) where
  -- The state of the service, and the addresses whose look-ups run in tasks of their own.
  pub record Tasks : Type 0 where
    pub state : AppState W
    pub running : List Text

  -- A request gets a permit only if one is free; what other requests do to the permits while it
  -- waits are steps before it. A task that ends writes its answer. Whatever else happens leaves the
  -- permits alone.
  pub data Step (s t : Tasks) : Type 0 where
    ask :
        (run : RdnsRun W) (ip : Text) (aso : Option Text)
        → run.meanwhile.rdns_sem ≡ s.state.rdns_sem
        → (run.permit ≡ true → 1 ≤ s.state.rdns_sem)
        → t ≡ record {
          state = (maybe_rdns W run s.state ip aso).state;
          running = s.running ++ left (maybe_rdns W run s.state ip aso).started;
        }
        → Step s t
    end :
        (i : ℕ) (key : Text) (name : Option Text)
        → key_at s.running i ≡ some key
        → t ≡ record { state = finish_lookup W s.state key name; running = without s.running i }
        → Step s t
    other :
        (state : AppState W)
        → state.rdns_sem ≡ s.state.rdns_sem
        → t ≡ record { state = state; running = s.running }
        → Step s t

  pub data Reach : Tasks → Type 0 where
    begins :
        (geo : GeoPool W.float.F) (cfg : Config W.crypto)
        → Reach (record { state = new_state W geo cfg; running = [] })
    goes : {s t : Tasks} → Step s t → Reach s → Reach t

  -- A result that leaves as many permits as there were, less one for the look-up left behind.
  abbrev Keeps : ℕ → RdnsResult W → Type 0
  Keeps free r = r.state.rdns_sem + length (left r.started) ≡ free

  run_lookup-Keeps :
      (run : RdnsRun W) (s : AppState W) (key : Text)
      → 1 ≤ s.rdns_sem
      → Keeps s.rdns_sem (run_lookup W run s key)
  unfolding run_lookup finish_lookup
  run_lookup-Keeps run s key free = elim (Bool-cases run.in_time) [
    | inl soon ↦ rw soon (omega (arith, free))
    | inr late ↦ rw late (omega (arith, free))
  ]

  maybe_rdns-Keeps :
      (run : RdnsRun W) (s : AppState W)
      → run.meanwhile.rdns_sem ≡ s.rdns_sem
      → (run.permit ≡ true → 1 ≤ s.rdns_sem)
      → (ip : Text) (aso : Option Text) → Keeps s.rdns_sem (maybe_rdns W run s ip aso)
  maybe_rdns-Keeps run s same granted ip aso =
      maybe_rdns-ends W (Keeps s.rdns_sem) run s (λ o. omega arith) (omega (arith, same))
        (λ o. omega (arith, same))
        (λ p key. run_lookup-Keeps run _ key (let f = granted p in omega (arith, same, f)) ∙ same)
        ip aso

  abbrev pub IsConserved : Tasks → Type 0
  IsConserved s = s.state.rdns_sem + length s.running ≡ rdns_max_concurrent

  Step-IsConserved : (s t : Tasks) → Step s t → IsConserved s → IsConserved t
  unfolding finish_lookup
  Step-IsConserved s t (ask run ip aso same granted e) b =
      let kept = maybe_rdns-Keeps run s.state same granted ip aso in
      let r = maybe_rdns W run s.state ip aso in
      rw e (omega (arith, kept, length-append {0} s.running (left r.started)))
  Step-IsConserved s t (end i key name is_there e) b =
      rw e (omega (arith, length-without s.running i key is_there))
  Step-IsConserved s t (other state same e) b = rw e (omega (arith, same))

  -- In every run of the service from its start, the free permits and the look-ups that run in tasks
  -- of their own make sixteen together, whether answers come in time, late or never: there are never
  -- more than sixteen such look-ups, and each that ends gives its permit back.
  pub Reach-IsConserved : {s : Tasks} → Reach s → IsConserved s
  unfolding new_state
  Reach-IsConserved (begins geo cfg) = refl
  Reach-IsConserved (goes {s = s} {t = t} step r) = Step-IsConserved s t step (Reach-IsConserved r)
