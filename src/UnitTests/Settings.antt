-- ===== src/UnitTests/Settings.antt =====
-- src/config.rs, `mod tests`. The environment, the generator of keys and the reader of floats are
-- the arguments of the tests.
use proxpulse_judge.Base.{
  ℕ, ◌==◌, Bool, true, false, not, ◌&&◌, ◌||◌, ◌≡◌, refl, Option, none, some, List, [], ◌∷◌, ◌++◌,
  String, if◌then◌else◌, is_some, Text, codes, text_eq, option_eq, all, Result, ok, err, is_empty,
  ◌*◌,
}
use proxpulse_judge.Addr.Basic.{IpAddr, v4, v6}
use proxpulse_judge.Addr.Print.{print_addr}
use proxpulse_judge.Sign.Basic.{Crypto, Signer}
use proxpulse_judge.Config.Basic.{
  Var, present, not_present, not_unicode, parse_var, parse_flag, parse_bind, parse_edge_headers,
  Float, nanos, negative, not_finite, parse_rdns_timeout, default_rdns_timeout, Env, parse_signer,
  from_lookup,
}
use proxpulse_judge.UnitTests.Signing.{test_crypto}
use proxpulse_judge.UnitTests.Notation.{texts, texts_eq, text_opt, ok_is, is_err, error_is}

abbrev bool_eq : Bool → Bool → Bool
bool_eq true b = b
bool_eq false b = not b

abbrev addr_eq : IpAddr → IpAddr → Bool
unfolding print_addr
addr_eq a b = text_eq (print_addr a) (print_addr b)

unfoldable a_variable_that_is_not_unicode_is_an_error : Bool
unfolding parse_var
a_variable_that_is_not_unicode_is_an_error =
    let parse = parse_var (codes "METRICS_TOKEN") in
    ok_is option_eq (parse (present (codes "t"))) (some (codes "t"))
    && ok_is option_eq (parse not_present) none
    && error_is (parse not_unicode) (codes "METRICS_TOKEN is not valid Unicode")

abbrev settings : List String
settings =
    "TRUST_PROXY" ∷ "TRUST_CF" ∷ "EDGE_HEADERS" ∷ "PORT" ∷ "BIND_ADDR" ∷ "GEO_DIR" ∷ "RDNS_TIMEOUT"
    ∷ "RATE_LIMIT_PER_MINUTE" ∷ "METRICS_TOKEN" ∷ "SIGNING_KEY" ∷ []

-- The environment in which only `name` is set, to what is not Unicode, behind a proxy.
unfoldable only_bad : Text → Text → Var
only_bad name var =
    if text_eq var name
    then not_unicode
    else if text_eq var (codes "TRUST_PROXY")
    then present (codes "1")
    else not_present

unfoldable is_ephemeral : (X : Crypto) → Result (Signer X) Text → Bool
is_ephemeral X (ok s) = s.ephemeral
is_ephemeral X (err e) = false

module _ (X : Crypto) (env : Env X) where
  unfoldable no_setting_that_is_not_unicode_passes_as_unset : Bool
  unfolding from_lookup only_bad
  no_setting_that_is_not_unicode_passes_as_unset =
      all
        (λ name.
          error_is (from_lookup X (record env { var = only_bad (codes name) }))
            (codes name ++ codes " is not valid Unicode"))
        settings

  unfoldable unset_settings_take_their_defaults : Bool
  unfolding from_lookup
  unset_settings_take_their_defaults =
      elim (from_lookup X (record env { var = λ _. not_present })) [
        | ok cfg ↦
            cfg.port == 8000
            && (not cfg.trust_proxy && not cfg.trust_cf)
            && not (is_some cfg.metrics_token)
            && cfg.signer.ephemeral
        | err e ↦ false
      ]

  unfoldable signing_key_is_fixed_generated_or_rejected : Bool
  unfolding parse_signer
  signing_key_is_fixed_generated_or_rejected =
      let parse = parse_signer X env.random in
      elim (parse (some (codes "AAECAwQFBgcICQoLDA0ODxAREhMUFRYXGBkaGxwdHh8="))) [
        | ok fixed ↦ not fixed.ephemeral && text_eq fixed.key_id (codes "56475aa7")
        | err e ↦ false
      ]
      && all (λ unset. is_ephemeral X (parse unset)) (none ∷ some [] ∷ some (codes "   ") ∷ [])
      && is_err (parse (some (codes "not base64!")))

module _ (read_float : Text → Option Float) where
  abbrev timeout_is : Option String → ℕ → Bool
  unfolding parse_rdns_timeout
  timeout_is raw n = parse_rdns_timeout read_float (text_opt raw) == n

  unfoldable rdns_timeout_parsing_is_panic_free : Bool
  unfolding parse_rdns_timeout
  rdns_timeout_parsing_is_panic_free =
      timeout_is none default_rdns_timeout
      && timeout_is (some "") default_rdns_timeout
      && timeout_is (some "-1") default_rdns_timeout
      && timeout_is (some "nan") default_rdns_timeout
      && timeout_is (some "inf") default_rdns_timeout
      && timeout_is (some "2.5") 2_500_000_000
      && timeout_is (some "0") 0
      && timeout_is (some "1e9") 60_000_000_000

module _ (debug : Text → Text) where
  abbrev flag_is : Option String → Bool → Bool
  unfolding parse_flag
  flag_is raw b = ok_is bool_eq (parse_flag debug (codes "X") (text_opt raw)) b

  unfoldable flags_accept_common_spellings_and_reject_typos : Bool
  unfolding parse_flag
  flags_accept_common_spellings_and_reject_typos =
      all (λ on. flag_is (some on) true) ("1" ∷ "true" ∷ "TRUE" ∷ "yes" ∷ "On" ∷ " 1 " ∷ [])
      && all (λ off. flag_is (some off) false) ("0" ∷ "false" ∷ "No" ∷ "off" ∷ "" ∷ [])
      && flag_is none false
      && is_err (parse_flag debug (codes "X") (some (codes "ture")))
      && is_err (parse_flag debug (codes "X") (some (codes "2")))

  abbrev bind_is : Option String → IpAddr → Bool
  unfolding parse_bind
  bind_is raw a = ok_is addr_eq (parse_bind debug (text_opt raw)) a

  unfoldable bind_addr_parsing : Bool
  unfolding parse_bind
  bind_addr_parsing =
      bind_is none (v4 0 0 0 0)
      && bind_is (some "  ") (v4 0 0 0 0)
      && bind_is (some "::") (v6 0 0 0 0 0 0 0 0)
      && bind_is (some "[::]") (v6 0 0 0 0 0 0 0 0)
      && bind_is (some "127.0.0.1") (v4 127 0 0 1)
      && is_err (parse_bind debug (some (codes "localhost")))

  unfoldable edge_headers_are_normalized_and_validated : (Text → Bool) → Bool
  unfolding parse_edge_headers
  edge_headers_are_normalized_and_validated is_header_name =
      let parse = parse_edge_headers debug is_header_name in
      ok_is texts_eq (parse none) []
      && ok_is texts_eq (parse (some (codes " X-Real-IP, via,,x-real-ip ")))
          (texts ("x-real-ip" ∷ "via" ∷ []))
      && is_err (parse (some (codes "X-Forwarded-For")))
      && is_err (parse (some (codes "bad header")))

-- The values of `str::parse::<f64>` at the texts of the test.
abbrev float_of : Text → Option Float
float_of t =
    if text_eq t (codes "-1")
    then some negative
    else if text_eq t (codes "nan") || text_eq t (codes "inf")
    then some not_finite
    else if text_eq t (codes "2.5")
    then some (nanos 2_500_000_000)
    else if text_eq t (codes "0")
    then some (nanos 0)
    else if text_eq t (codes "1e9")
    then some (nanos (1_000_000_000 * 1_000_000_000))
    else none

abbrev has_no_space : Text → Bool
has_no_space t = not (is_empty t) && all (λ c. not (c == b' ')) t

abbrev test_env : Env test_crypto
test_env = record {
  var = λ name. not_present;
  debug = λ t. t;
  is_header_name = has_no_space;
  read_float = float_of;
  random = ok (b'r' ∷ []);
}

setting_tests :
    (a_variable_that_is_not_unicode_is_an_error ≡ true)
    × (no_setting_that_is_not_unicode_passes_as_unset test_crypto test_env ≡ true)
    × (unset_settings_take_their_defaults test_crypto test_env ≡ true)
    × (signing_key_is_fixed_generated_or_rejected test_crypto test_env ≡ true)
    × (rdns_timeout_parsing_is_panic_free float_of ≡ true)
    × (flags_accept_common_spellings_and_reject_typos test_env.debug ≡ true)
    × (bind_addr_parsing test_env.debug ≡ true)
    × (edge_headers_are_normalized_and_validated test_env.debug has_no_space ≡ true)
unfolding a_variable_that_is_not_unicode_is_an_error no_setting_that_is_not_unicode_passes_as_unset
    unset_settings_take_their_defaults signing_key_is_fixed_generated_or_rejected is_ephemeral
    rdns_timeout_parsing_is_panic_free flags_accept_common_spellings_and_reject_typos
    bind_addr_parsing edge_headers_are_normalized_and_validated timeout_is flag_is bind_is addr_eq
setting_tests = (refl, refl, refl, refl, refl, refl, refl, refl)
