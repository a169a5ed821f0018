-- ===== src/Config/Origin.antt =====
-- src/config.rs: the texts and settings that an accepted configuration was read from.
use proxpulse_judge.Base.{
  ◌≡◌, refl, subst, if◌then◌else◌, Option, List, [], Result, ok, err, unwrap_or, Text, codes,
}
use proxpulse_judge.Sign.Basic.{Crypto}
use proxpulse_judge.Config.Basic.{
  parse_port, parse_rate, parse_rdns_timeout, parse_bind, parse_flag, parse_edge_headers,
  parse_signer, Env, Config, setting, trust_cf_of, from_lookup, ◌>>=◌,
}

pub ok_inj {ℓ κ} : {A : Type ℓ} {E : Type κ} {a b : A} → Path (Result A E) (ok a) (ok b) → a ≡ b
ok_inj h = cc

pub err_ok {ℓ κ} : {A : Type ℓ} {E : Type κ} {a : A} {e : E} → Path (Result A E) (err e) (ok a) → ⊥
err_ok h = cc

-- Inversion of a chain of results.
pub bind_inv {ℓ κ} :
    {A : Type ℓ} {B : Type κ} (m : Result A Text) (f : A → Result B Text) {b : B}
    → (m >>= f) ≡ ok b
    → (a : A) × (m ≡ ok a) × (f a ≡ ok b)
unfolding ◌>>=◌
bind_inv (ok a) f e = (a, refl, e)
bind_inv (err x) f e = absurd (err_ok e)

module _ (X : Crypto) (env : Env X) where
  -- Where the fields of a configuration come from.
  pub record Origin (cfg : Config X) : Type 0 where
    pub cf_read : trust_cf_of X env cfg.trust_proxy ≡ ok cfg.trust_cf
    pub raw_edge : Option Text
    pub edge : List Text
    pub edge_read : parse_edge_headers env.debug env.is_header_name raw_edge ≡ ok edge
    pub edge_kept : cfg.edge_headers ≡ (if cfg.trust_proxy then edge else [])
    pub raw_port : Option Text
    pub port_set : setting X env (codes "PORT") ≡ ok raw_port
    pub port_read : cfg.port ≡ parse_port raw_port
    pub raw_bind : Option Text
    pub bind_set : setting X env (codes "BIND_ADDR") ≡ ok raw_bind
    pub bind_read : parse_bind env.debug raw_bind ≡ ok cfg.bind
    pub raw_geo : Option Text
    pub geo_set : setting X env (codes "GEO_DIR") ≡ ok raw_geo
    pub geo_read : cfg.geo_dir ≡ unwrap_or raw_geo (codes "/app/geo")
    pub raw_rdns : Option Text
    pub rdns_read : cfg.rdns_timeout ≡ parse_rdns_timeout env.read_float raw_rdns
    pub raw_rate : Option Text
    pub rate_read : cfg.rate_per_minute ≡ parse_rate raw_rate

  pub from_lookup-Origin : (cfg : Config X) → from_lookup X env ≡ ok cfg → Origin cfg
  unfolding from_lookup
  from_lookup-Origin cfg e =
      let (raw_proxy, _, h₁) = bind_inv (setting X env (codes "TRUST_PROXY")) _ e in
      let (trust_proxy, _, h₂) =
        bind_inv (parse_flag env.debug (codes "TRUST_PROXY") raw_proxy) _ h₁ in
      let (trust_cf, e₃, h₃) = bind_inv (trust_cf_of X env trust_proxy) _ h₂ in
      let (raw_edge, _, h₄) = bind_inv (setting X env (codes "EDGE_HEADERS")) _ h₃ in
      let (edge_headers, e₅, h₅) =
        bind_inv (parse_edge_headers env.debug env.is_header_name raw_edge) _ h₄ in
      let (raw_port, e₆, h₆) = bind_inv (setting X env (codes "PORT")) _ h₅ in
      let (raw_bind, e₇, h₇) = bind_inv (setting X env (codes "BIND_ADDR")) _ h₆ in
      let (bind, e₈, h₈) = bind_inv (parse_bind env.debug raw_bind) _ h₇ in
      let (raw_geo, e₉, h₉) = bind_inv (setting X env (codes "GEO_DIR")) _ h₈ in
      let (raw_rdns, _, h₁₀) = bind_inv (setting X env (codes "RDNS_TIMEOUT")) _ h₉ in
      let (raw_rate, _, h₁₁) = bind_inv (setting X env (codes "RATE_LIMIT_PER_MINUTE")) _ h₁₀ in
      let (raw_token, _, h₁₂) = bind_inv (setting X env (codes "METRICS_TOKEN")) _ h₁₁ in
      let (raw_key, _, h₁₃) = bind_inv (setting X env (codes "SIGNING_KEY")) _ h₁₂ in
      let (signer, _, h₁₄) = bind_inv (parse_signer X env.random raw_key) _ h₁₃ in
      subst Origin (ok_inj h₁₄) (record {
        cf_read = e₃;
        raw_edge = raw_edge;
        edge = edge_headers;
        edge_read = e₅;
        edge_kept = refl;
        raw_port = raw_port;
        port_set = e₆;
        port_read = refl;
        raw_bind = raw_bind;
        bind_set = e₇;
        bind_read = e₈;
        raw_geo = raw_geo;
        geo_set = e₉;
        geo_read = refl;
        raw_rdns = raw_rdns;
        rdns_read = refl;
        raw_rate = raw_rate;
        rate_read = refl;
      })
