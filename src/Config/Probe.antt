-- ===== src/Config/Probe.antt =====
-- src/config.rs: `probe_addr`, where the health check of the binary connects.
use proxpulse_judge.Base.{
  ℕ, ◌≡◌, refl, sym, ap, ◌∙◌, ◌&&◌, ◌==◌, if◌then◌else◌, Option, none, some, ok, err, Text, codes,
}
use proxpulse_judge.Addr.Basic.{IpAddr, v4, v6}
use proxpulse_judge.Sign.Basic.{Crypto}
use proxpulse_judge.Config.Basic.{
  Var, present, not_present, not_unicode, parse_var, parse_port, parse_bind, Env, Config, setting,
  from_lookup,
}
use proxpulse_judge.Config.Origin.{from_lookup-Origin, ok_inj, err_ok}

-- `env::var(name).ok()`
unfoldable pub var_of : Var → Option Text
var_of (present value) = some value
var_of not_present = none
var_of not_unicode = none

parse_var-ok :
    (name : Text) (v : Var) (raw : Option Text) → parse_var name v ≡ ok raw → var_of v ≡ raw
unfolding parse_var var_of
parse_var-ok name (present value) raw e = ok_inj e
parse_var-ok name not_present raw e = ok_inj e
parse_var-ok name not_unicode raw e = absurd (err_ok e)

-- Loopback for an address that stands for all, otherwise the address itself.
unfoldable pub probe_ip : IpAddr → IpAddr
probe_ip (v4 a b c d) = if a == 0 && b == 0 && c == 0 && d == 0 then v4 127 0 0 1 else v4 a b c d
probe_ip (v6 a b c d e f g h) =
    if a == 0 && b == 0 && c == 0 && d == 0 && e == 0 && f == 0 && g == 0 && h == 0
    then v6 0 0 0 0 0 0 0 1
    else v6 a b c d e f g h

unfoldable pub probe_of : (Text → Text) → Option Text → Option Text → Option (IpAddr × ℕ)
unfolding parse_bind probe_ip parse_port
probe_of debug raw_bind raw_port = elim (parse_bind debug raw_bind) [
  | err e ↦ none
  | ok a ↦ some (probe_ip a, parse_port raw_port)
]

probe_of-ok :
    (debug : Text → Text) (raw_bind raw_port : Option Text) (bind : IpAddr)
    → parse_bind debug raw_bind ≡ ok bind
    → probe_of debug raw_bind raw_port ≡ some (probe_ip bind, parse_port raw_port)
unfolding probe_of
probe_of-ok debug raw_bind raw_port bind h = rw (probe_of, h) refl

module _ (X : Crypto) (env : Env X) where
  unfoldable pub probe_addr : Option (IpAddr × ℕ)
  unfolding var_of probe_of
  probe_addr =
      probe_of env.debug (var_of (env.var (codes "BIND_ADDR"))) (var_of (env.var (codes "PORT")))

  pub setting-ok :
      (name : Text) (raw : Option Text) → setting X env name ≡ ok raw → var_of (env.var name) ≡ raw
  unfolding setting
  setting-ok name raw e = parse_var-ok name (env.var name) raw e

  probe_addr-bind :
      (raw_bind raw_port : Option Text) (bind : IpAddr)
      → var_of (env.var (codes "BIND_ADDR")) ≡ raw_bind
      → var_of (env.var (codes "PORT")) ≡ raw_port
      → parse_bind env.debug raw_bind ≡ ok bind
      → probe_addr ≡ some (probe_ip bind, parse_port raw_port)
  unfolding probe_addr
  probe_addr-bind raw_bind raw_port bind e p h =
      ap (λ o. probe_of env.debug o (var_of (env.var (codes "PORT")))) e
      ∙ ap (λ o. probe_of env.debug raw_bind o) p
      ∙ probe_of-ok env.debug raw_bind raw_port bind h

  -- Where a start accepts the environment, the health check connects to the port that the service
  -- listens on, at the address that it is bound to, or at loopback if it is bound to all.
  pub probe_addr_lem :
      (cfg : Config X)
      → from_lookup X env ≡ ok cfg
      → probe_addr ≡ some (probe_ip cfg.bind, cfg.port)
  probe_addr_lem cfg e =
      let o = from_lookup-Origin X env cfg e in
      probe_addr-bind o.raw_bind o.raw_port cfg.bind
        (setting-ok (codes "BIND_ADDR") o.raw_bind o.bind_set)
        (setting-ok (codes "PORT") o.raw_port o.port_set) o.bind_read
      ∙ ap (λ (p : ℕ). some (probe_ip cfg.bind, p)) (sym o.port_read)
