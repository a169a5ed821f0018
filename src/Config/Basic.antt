-- ===== src/Config/Basic.antt =====
-- src/config.rs. The text forms of `f64` and of numbers below a bound, and the crate `http`'s test
-- of a header name, are what the program calls: the float reader is a parameter, a duration is a
-- number of nanoseconds.
use proxpulse_judge.Base.{
  ℕ, ◌+◌, ◌-◌, ◌*◌, ◌^◌, min, Bool, true, false, not, ◌&&◌, ◌||◌, Option, none, some, List, [], ◌∷◌,
  ◌++◌, map, if◌then◌else◌, ◌==◌, ltb, unwrap_or, map_option, filter_option, Result, ok, err, Text,
  Bytes, codes, text_eq, contains, is_empty,
}
use proxpulse_judge.Base.{◌>>=◌ as option_bind}
use proxpulse_judge.Str.Basic.{
  is_ascii_digit, trim, trim_start_matches, trim_end_matches, to_ascii_lowercase, split,
}
use proxpulse_judge.Addr.Basic.{IpAddr, v4}
use proxpulse_judge.Addr.Parse.{parse_addr}
use proxpulse_judge.Sign.Basic.{Crypto, Signer, from_seed_b64, generate}

-- `?` on a `Result<_, String>`
infixl 5 ◌>>=◌
unfoldable pub ◌>>=◌ {ℓ κ} :
    {A : Type ℓ} {B : Type κ} → Result A Text → (A → Result B Text) → Result B Text
ok a >>= f = f a
err e >>= f = err e

-- What `env::var` gives.
pub data Var : Type 0 where
  present : Text → Var
  not_present : Var
  not_unicode : Var

unfoldable pub parse_var : Text → Var → Result (Option Text) Text
parse_var name (present value) = ok (some value)
parse_var name not_present = ok none
parse_var name not_unicode = err (name ++ codes " is not valid Unicode")

-- `str::parse` of an unsigned number below `bound`: digits, behind one `+` that may stand there.
unfoldable pub parse_digits : ℕ → Text → ℕ → Option ℕ
unfolding is_ascii_digit
parse_digits bound [] n = some n
parse_digits bound (c ∷ s) n =
    let m = n * 10 + (c - b'0') in
    let rest = parse_digits bound s m in if is_ascii_digit c && ltb m bound then rest else none

unfoldable pub parse_unsigned : ℕ → Text → Option ℕ
unfolding parse_digits
parse_unsigned bound [] = none
parse_unsigned bound (c ∷ []) = parse_digits bound (c ∷ []) 0
parse_unsigned bound (c ∷ d ∷ s) =
    if c == b'+' then parse_digits bound (d ∷ s) 0 else parse_digits bound (c ∷ d ∷ s) 0

unfoldable pub parse_port : Option Text → ℕ
unfolding parse_unsigned
parse_port raw = unwrap_or (option_bind raw (parse_unsigned (2 ^ 16))) 8000

unfoldable pub parse_rate : Option Text → ℕ
unfolding parse_unsigned
parse_rate raw = unwrap_or (option_bind raw (parse_unsigned (2 ^ 32))) 6000

abbrev pub off_words : List Text
off_words = [] ∷ codes "0" ∷ codes "false" ∷ codes "no" ∷ codes "off" ∷ []

abbrev pub on_words : List Text
on_words = codes "1" ∷ codes "true" ∷ codes "yes" ∷ codes "on" ∷ []

-- The messages end in the value as `{:?}` prints it, which `debug` stands for.
module _ (debug : Text → Text) where
  unfoldable pub parse_flag : Text → Option Text → Result Bool Text
  unfolding trim to_ascii_lowercase
  parse_flag name none = ok false
  parse_flag name (some v) =
      let word = to_ascii_lowercase (trim v) in
      if contains off_words word
      then ok false
      else if contains on_words word
      then ok true
      else err (name ++ (codes ": expected 1/0 or true/false, got " ++ debug word))

  unfoldable pub parse_bind : Option Text → Result IpAddr Text
  unfolding trim trim_start_matches trim_end_matches parse_addr
  parse_bind raw = elim (filter_option (λ v. not (is_empty v)) (map_option trim raw)) [
    | none ↦ ok (v4 0 0 0 0)
    | some v ↦
        elim (parse_addr
          (trim_end_matches (λ c. c == b']') (trim_start_matches (λ c. c == b'[') v))) [
            | some a ↦ ok a
            | none ↦ err (codes "BIND_ADDR: not an IP address: " ++ debug v)
          ]
  ]

  module _ (is_header_name : Text → Bool) where
    unfoldable pub add_edge_headers : List Text → List Text → Result (List Text) Text
    unfolding to_ascii_lowercase
    add_edge_headers [] out = ok out
    add_edge_headers (raw ∷ names) out =
        let name = to_ascii_lowercase raw in
        let next =
          add_edge_headers names
            (if is_empty raw || contains out name then out else out ++ name ∷ []) in
        if is_empty raw
        then next
        else if not (is_header_name name)
        then err (codes "EDGE_HEADERS: invalid header name " ++ debug name)
        else if text_eq name (codes "x-forwarded-for")
        then err (codes "EDGE_HEADERS must not contain x-forwarded-for")
        else next

    unfoldable pub parse_edge_headers : Option Text → Result (List Text) Text
    unfolding add_edge_headers split trim
    parse_edge_headers raw =
        add_edge_headers (map trim (split (λ c. c == b',') (unwrap_or raw []))) []

-- What `str::parse::<f64>` gives: a number of nanoseconds for a finite value of seconds from zero
-- on, or a value that is negative, infinite or no number.
pub data Float : Type 0 where
  nanos : ℕ → Float
  negative : Float
  not_finite : Float

abbrev pub default_rdns_timeout : ℕ
default_rdns_timeout = 1_500_000_000

abbrev pub max_rdns_timeout : ℕ
max_rdns_timeout = 60_000_000_000

unfoldable pub usable_timeout : Float → Option ℕ
usable_timeout (nanos n) = some (min n max_rdns_timeout)
usable_timeout negative = none
usable_timeout not_finite = none

unfoldable pub parse_rdns_timeout : (Text → Option Float) → Option Text → ℕ
unfolding usable_timeout
parse_rdns_timeout read_float raw =
    unwrap_or (option_bind (option_bind raw read_float) usable_timeout) default_rdns_timeout

-- What the environment and the crates give to a start.
pub record Env (X : Crypto) : Type 0 where
  pub var : Text → Var
  pub debug : Text → Text
  pub is_header_name : Text → Bool
  pub read_float : Text → Option Float
  pub random : Result Bytes Text

module _ (X : Crypto) where
  unfoldable pub parse_signer : Result Bytes Text → Option Text → Result (Signer X) Text
  unfolding trim from_seed_b64 generate
  parse_signer random none = generate X random
  parse_signer random (some seed) =
      if not (is_empty (trim seed)) then from_seed_b64 X seed else generate X random

  pub record Config : Type 0 where
    pub port : ℕ
    pub bind : IpAddr
    pub geo_dir : Text
    pub trust_proxy : Bool
    pub trust_cf : Bool
    pub rdns_timeout : ℕ
    pub rate_per_minute : ℕ
    pub edge_headers : List Text
    pub metrics_token : Option Text
    pub signer : Signer X

  module _ (env : Env X) where
    unfoldable pub setting : Text → Result (Option Text) Text
    unfolding parse_var
    setting name = parse_var name (env.var name)

    -- `TRUST_CF` is read only behind a proxy.
    unfoldable pub trust_cf_of : Bool → Result Bool Text
    unfolding ◌>>=◌ setting parse_flag
    trust_cf_of false = ok false
    trust_cf_of true = do
      raw ← setting (codes "TRUST_CF")
      parse_flag env.debug (codes "TRUST_CF") raw

    unfoldable pub from_lookup : Result Config Text
    unfolding ◌>>=◌ setting parse_flag trust_cf_of parse_edge_headers parse_port parse_bind
        parse_rdns_timeout parse_rate parse_signer trim
    from_lookup = do
      raw_proxy ← setting (codes "TRUST_PROXY")
      trust_proxy ← parse_flag env.debug (codes "TRUST_PROXY") raw_proxy
      trust_cf ← trust_cf_of trust_proxy
      raw_edge ← setting (codes "EDGE_HEADERS")
      edge_headers ← parse_edge_headers env.debug env.is_header_name raw_edge
      raw_port ← setting (codes "PORT")
      raw_bind ← setting (codes "BIND_ADDR")
      bind ← parse_bind env.debug raw_bind
      raw_geo ← setting (codes "GEO_DIR")
      raw_rdns ← setting (codes "RDNS_TIMEOUT")
      raw_rate ← setting (codes "RATE_LIMIT_PER_MINUTE")
      raw_token ← setting (codes "METRICS_TOKEN")
      raw_key ← setting (codes "SIGNING_KEY")
      signer ← parse_signer env.random raw_key
      ok (record {
        port = parse_port raw_port;
        bind = bind;
        geo_dir = unwrap_or raw_geo (codes "/app/geo");
        trust_proxy = trust_proxy;
        trust_cf = trust_cf;
        rdns_timeout = parse_rdns_timeout env.read_float raw_rdns;
        rate_per_minute = parse_rate raw_rate;
        edge_headers = if trust_proxy then edge_headers else [];
        metrics_token = filter_option (λ t. not (is_empty (trim t))) raw_token;
        signer = signer;
      })
