-- ===== src/Client/Basic.antt =====
-- src/logic.rs: `client_ip` and `pre_edge_xff`.
use proxpulse_judge.Base.{
  ℕ, zero, suc, Bool, not, Option, none, some, List, [], ◌∷◌, if◌then◌else◌, ◌>>=◌, unwrap_or, Text,
  option_eq, retain, take, last?, pop,
}
use proxpulse_judge.Host.Basic.{split_xff, normalize_host, normalize_chain}

-- The answer of the first source that has one.
infixr 25 ◌or_else◌
abbrev pub ◌or_else◌ {ℓ} : {A : Type ℓ} → Option A → Option A → Option A
none or_else b = b
some a or_else b = some a

unfoldable pub cf_client : Option Text → Bool → Option Text
unfolding normalize_host
cf_client cf_ip trust_cf = if trust_cf then (cf_ip >>= normalize_host) else none

unfoldable pub xff_client : Option Text → Bool → Option Text
unfolding split_xff normalize_host
xff_client xff trust_proxy =
    if trust_proxy then (last? (split_xff xff) >>= normalize_host) else none

unfoldable pub client_ip : Option Text → Option Text → Text → Bool → Bool → Text
unfolding cf_client xff_client normalize_host
client_ip cf_ip xff socket_ip trust_proxy trust_cf =
    unwrap_or (cf_client cf_ip trust_cf or_else xff_client xff trust_proxy)
      (unwrap_or (normalize_host socket_ip) socket_ip)

-- `Iterator::rposition`
abbrev pub rposition {ℓ} : {A : Type ℓ} → (A → Bool) → List A → Option ℕ
rposition p [] = none
rposition p (x ∷ xs) = elim (rposition p xs) [
  | some i ↦ some (suc i)
  | none ↦ if p x then some zero else none
]

-- the test that an entry is the address of the client
unfoldable pub names_client : Text → Text → Bool
unfolding normalize_host
names_client client entry = option_eq (normalize_host entry) (some client)

-- `Vec::truncate` at a position that may not be there
abbrev pub truncate_at : Option ℕ → List Text → List Text
truncate_at none raw = raw
truncate_at (some pos) raw = take pos raw

-- Behind a CDN: cut at the last entry that is the client, and drop the other copies of it.
unfoldable pub strip_cdn : Text → List Text → List Text
unfolding names_client
strip_cdn client raw =
    retain (λ e. not (names_client client e))
      (truncate_at (rposition (names_client client) raw) raw)

-- Behind our own proxy alone: pop the last entry if it is the client.
unfoldable pub strip_edge : Text → List Text → List Text
unfolding normalize_host
strip_edge client raw =
    if option_eq (last? raw >>= normalize_host) (some client) then pop raw else raw

unfoldable pub pre_edge_xff : Option Text → Text → Bool → Bool → Option Text → List Text
unfolding split_xff normalize_host cf_client strip_cdn strip_edge
pre_edge_xff xff client_text trust_proxy trust_cf cf_ip =
    let raw = split_xff xff in
    let client = unwrap_or (normalize_host client_text) client_text in
    if not trust_proxy
    then raw
    else if option_eq (cf_client cf_ip trust_cf) (some client)
    then strip_cdn client raw
    else strip_edge client raw

unfoldable pub forwarded_chain : Option Text → Text → Bool → Bool → Option Text → List Text
unfolding pre_edge_xff normalize_chain
forwarded_chain xff client trust_proxy trust_cf cf_ip =
    normalize_chain (pre_edge_xff xff client trust_proxy trust_cf cf_ip)
