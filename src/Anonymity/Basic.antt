-- ===== src/Anonymity/Basic.antt =====
-- src/logic.rs: which headers tell of a proxy, and `anonymity_level`.
use proxpulse_judge.Base.{
  Bool, false, not, ◌&&◌, ◌||◌, Option, none, some, List, [], ◌∷◌, if◌then◌else◌, ◌>>=◌, Text,
  codes, text_eq, contains, any, is_empty, filter_map,
}
use proxpulse_judge.Str.Basic.{starts_with, to_ascii_lowercase}
use proxpulse_judge.Dict.{Dict, get, keys}
use proxpulse_judge.Addr.Basic.{IpAddr}
use proxpulse_judge.Addr.Print.{print_addr}
use proxpulse_judge.Addr.Parse.{parse_addr}
use proxpulse_judge.Host.Basic.{split_xff, normalize_host, ip_in_text}

abbrev pub x_forwarded_for : Text
x_forwarded_for = codes "x-forwarded-for"

abbrev pub infra_headers : List Text
infra_headers =
    codes "x-forwarded-proto"
    ∷ codes "x-forwarded-host"
    ∷ codes "x-forwarded-port"
    ∷ codes "x-forwarded-ssl"
    ∷ codes "x-real-port"
    ∷ []

abbrev pub cf_infra_headers : List Text
cf_infra_headers =
    codes "cdn-loop"
    ∷ codes "cf-connecting-ip"
    ∷ codes "cf-ipcountry"
    ∷ codes "cf-ray"
    ∷ codes "cf-visitor"
    ∷ codes "true-client-ip"
    ∷ []

unfoldable pub is_infra : Text → Bool → Bool
unfolding to_ascii_lowercase
is_infra name trust_cf =
    let n = to_ascii_lowercase name in
    contains infra_headers n || (trust_cf && contains cf_infra_headers n)

abbrev pub telltale_headers : List Text
telltale_headers =
    codes "via"
    ∷ codes "forwarded"
    ∷ codes "proxy-connection"
    ∷ codes "proxy-authorization"
    ∷ codes "proxy-authenticate"
    ∷ codes "proxy-agent"
    ∷ codes "x-proxy-id"
    ∷ codes "x-real-ip"
    ∷ []

unfoldable pub is_telltale : Text → Bool → Bool
unfolding to_ascii_lowercase is_infra starts_with
is_telltale name trust_cf =
    let n = to_ascii_lowercase name in
    if is_infra n trust_cf
    then false
    else contains telltale_headers n
      || starts_with (codes "proxy-") n
      || starts_with (codes "x-proxy") n

pub data Level : Type 0 where
  elite anonymous transparent : Level

-- the texts that the answer shows
unfoldable pub level_text : Level → Text
level_text elite = codes "elite"
level_text anonymous = codes "anonymous"
level_text transparent = codes "transparent"

-- The checker's own address, if the text given for it is one.
unfoldable pub direct_addr : Option Text → Option IpAddr
unfolding normalize_host parse_addr
direct_addr direct_ip = (direct_ip >>= normalize_host) >>= parse_addr

-- a header that shows the checker's address
unfoldable pub shows : IpAddr → Bool → Text × Text → Bool
unfolding is_infra ip_in_text
shows d trust_cf (k, v) =
    not (text_eq k x_forwarded_for) && not (is_infra k trust_cf) && ip_in_text v d

unfoldable pub leaks : Dict Text → List Text → Bool → Option IpAddr → Bool
unfolding print_addr shows
leaks headers chain trust_cf none = false
leaks headers chain trust_cf (some d) =
    any (λ c. text_eq c (print_addr d)) chain || any (shows d trust_cf) headers

unfoldable pub anonymity_level : Dict Text → Option Text → Bool → Level
unfolding get split_xff normalize_host direct_addr leaks is_telltale
anonymity_level headers direct_ip trust_cf =
    let raw_xff = split_xff (get headers x_forwarded_for) in
    let chain = filter_map normalize_host raw_xff in
    if leaks headers chain trust_cf (direct_addr direct_ip)
    then transparent
    else if not (is_empty chain) || not (is_empty raw_xff)
    then anonymous
    else if any (λ k. is_telltale k trust_cf) (keys headers)
    then anonymous
    else elite
