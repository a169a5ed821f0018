-- ===== src/App/Names.antt =====
-- src/app.rs: when a name is looked up, and what becomes of the permit.
use proxpulse_judge.Base.{
  ℕ, true, false, ◌||◌, ◌≡◌, inl, inr, none-some, some_inj, ap, sym, ◌∙◌, Option, none, some,
  if◌then◌else◌, ◌==◌, Text, Bool-cases, Option-cases,
}
use proxpulse_judge.Addr.Basic.{IpAddr, to_canonical}
use proxpulse_judge.Addr.Parse.{parse_addr}
use proxpulse_judge.App.PublicIp.{is_public_ip}
use proxpulse_judge.App.Rdns.{has_name, rdns_target}

public_of :
    (a addr : IpAddr)
    → (if is_public_ip (to_canonical a) then some (to_canonical a) else none) ≡ some addr
    → (is_public_ip addr ≡ true) × (to_canonical a ≡ addr)
public_of a addr h = elim (Bool-cases (is_public_ip (to_canonical a))) [
  | inl e ↦ (ap is_public_ip (sym (some_inj (rw e at h))) ∙ e, some_inj (rw e at h))
  | inr e ↦ absurd (none-some (rw e at h))
]

-- A name is looked up only with a timeout that is not zero, for an address of which no organisation
-- is known, in its canonical form, and only if that is public.
pub rdns_target-public :
    (rdns_timeout : ℕ) (ip : Text) (aso : Option Text) (addr : IpAddr)
    → rdns_target rdns_timeout ip aso ≡ some addr
    → ((rdns_timeout == 0 || has_name aso) ≡ false)
      × (is_public_ip addr ≡ true)
      × ((a : IpAddr) × (parse_addr ip ≡ some a) × (to_canonical a ≡ addr))
unfolding rdns_target
rdns_target-public rdns_timeout ip aso addr h =
    elim (Bool-cases (rdns_timeout == 0 || has_name aso)) [
      | inl e ↦ absurd (none-some (rw e at h))
      | inr e ↦ elim (Option-cases (parse_addr ip)) [
        | inl p ↦ absurd (none-some (rw (e, p) at h))
        | inr (a, p) ↦
            let (public, same) = public_of a addr (rw (e, p) at h) in (e, public, (a, p, same))
      ]
    ]
