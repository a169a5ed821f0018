-- ===== src/App/Endings.antt =====
-- src/app.rs: the ways in which `maybe_rdns` ends.
use proxpulse_judge.Base.{
  Bool, true, false, not, ◌≡◌, refl, Option, none, some, if◌then◌else◌, Text,
}
use proxpulse_judge.Cache.{Cache}
use proxpulse_judge.Addr.Basic.{IpAddr}
use proxpulse_judge.Addr.Print.{print_addr}
use proxpulse_judge.App.State.{World, AppState, absorb}
use proxpulse_judge.App.Rdns.{
  RdnsRun, RdnsResult, rdns_target, run_lookup, resolve, maybe_rdns, done, count_skipped,
  count_lookup,
}

module _ (W : World) (P : RdnsResult W → Type 0) where
  -- after the permit was asked for
  with_permit :
      (b : Bool) (skipped : RdnsResult W) (cached : Option Text → RdnsResult W)
      (looked : RdnsResult W) (hit : Option (Option Text))
      → P skipped
      → ((o : Option Text) → P (cached o))
      → (b ≡ true → P looked)
      → P (if not b then skipped else elim hit [ some o ↦ cached o | none ↦ looked ])
  with_permit false skipped cached looked hit h g f = h
  with_permit true skipped cached looked (some o) h g f = g o
  with_permit true skipped cached looked none h g f = f refl

  from_cache :
      (hit : Option (Option Text)) (cached : Option Text → RdnsResult W) (rest : RdnsResult W)
      → ((o : Option Text) → P (cached o))
      → P rest
      → P (elim hit [ some o ↦ cached o | none ↦ rest ])
  from_cache (some o) cached rest g h = g o
  from_cache none cached rest g h = h

  -- What holds of an answer without a look-up, before and after the wait, of one that gets no permit
  -- and of a look-up that has one, holds of every answer.
  module _ (run : RdnsRun W) (s : AppState W) (early : (o : Option Text) → P (done W s o))
      (skipped : P (done W (count_skipped W (absorb W s run.meanwhile)) none))
      (cached : (o : Option Text) → P (done W (absorb W s run.meanwhile) o))
      (looked : run.permit ≡ true
        → (key : Text) → P (run_lookup W run (count_lookup W (absorb W s run.meanwhile)) key)) where
    resolve-ends : (addr : IpAddr) → P (resolve W run s addr)
    unfolding resolve
    resolve-ends addr = from_cache (Cache.get W.ptr_cache s.ptr_cache (print_addr addr)) _ _ early (
        with_permit run.permit _ _ _
          (Cache.get W.ptr_cache run.meanwhile.ptr_cache (print_addr addr)) skipped cached
          (λ p. looked p (print_addr addr)))

    target-ends :
        (o : Option IpAddr) → P (elim o [ none ↦ done W s none | some addr ↦ resolve W run s addr ])
    target-ends none = early none
    target-ends (some addr) = resolve-ends addr

    pub maybe_rdns-ends : (ip : Text) (aso : Option Text) → P (maybe_rdns W run s ip aso)
    unfolding maybe_rdns
    maybe_rdns-ends ip aso = target-ends (rdns_target s.rdns_timeout ip aso)
