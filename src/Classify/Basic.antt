-- ===== src/Classify/Basic.antt =====
-- src/logic.rs: keywords in the names of networks, and `classify_ip`. Which characters are
-- alphanumeric is Unicode's table, a parameter.
use proxpulse_judge.Base.{
  ℕ, Bool, false, not, ◌&&◌, ◌||◌, Option, none, some, List, [], ◌∷◌, ◌++◌, map, if◌then◌else◌,
  ◌==◌, unwrap_or, Text, codes, text_eq, contains, any, is_empty, retain,
}
use proxpulse_judge.Str.Basic.{trim, split, to_ascii_lowercase}
use proxpulse_judge.Str.Find.{find_alone}

abbrev pub hosting_kw : List Text
hosting_kw =
    codes "hosting"
    ∷ codes "host"
    ∷ codes "cloud"
    ∷ codes "vps"
    ∷ codes "dedicated"
    ∷ codes "datacenter"
    ∷ codes "data center"
    ∷ codes "colocation"
    ∷ codes "servers"
    ∷ codes "cdn"
    ∷ codes "compute"
    ∷ codes "bare metal"
    ∷ codes "virtual"
    ∷ codes "hypervisor"
    ∷ []

abbrev pub hosting_vendors : List Text
hosting_vendors =
    codes "hetzner"
    ∷ codes "ovh"
    ∷ codes "digitalocean"
    ∷ codes "amazon"
    ∷ codes "aws"
    ∷ codes "google"
    ∷ codes "microsoft"
    ∷ codes "azure"
    ∷ codes "cloudflare"
    ∷ codes "contabo"
    ∷ codes "aeza"
    ∷ codes "scaleway"
    ∷ codes "vultr"
    ∷ codes "linode"
    ∷ codes "leaseweb"
    ∷ codes "selectel"
    ∷ codes "timeweb"
    ∷ codes "beget"
    ∷ codes "alibaba"
    ∷ codes "tencent"
    ∷ codes "oracle cloud"
    ∷ codes "ibm cloud"
    ∷ codes "yandex cloud"
    ∷ []

abbrev pub mobile_kw : List Text
mobile_kw =
    codes "mobile"
    ∷ codes "cellular"
    ∷ codes "wireless"
    ∷ codes "mobility"
    ∷ codes "gsm"
    ∷ codes "lte"
    ∷ codes "5g"
    ∷ []

abbrev pub residential_kw : List Text
residential_kw =
    codes "dynamic"
    ∷ codes "residential"
    ∷ codes "broadband"
    ∷ codes "dsl"
    ∷ codes "adsl"
    ∷ codes "vdsl"
    ∷ codes "cable"
    ∷ codes "fiber"
    ∷ codes "ftth"
    ∷ codes "fttb"
    ∷ codes "pool"
    ∷ codes "retail"
    ∷ codes "subscriber"
    ∷ []

abbrev pub business_kw : List Text
business_kw =
    codes "bank"
    ∷ codes "university"
    ∷ codes "government"
    ∷ codes "enterprise"
    ∷ codes "airline"
    ∷ codes "hotel"
    ∷ []

pub record TypeSignals : Type 0 where
  pub org : Option Text
  pub rdns : Option Text
  pub hosting_kw : List Text
  pub hosting_vendor : List Text
  pub mobile_kw : List Text
  pub residential_kw : List Text
  pub business_kw : List Text
  pub note : Option Text

pub data IpType : Type 0 where
  residential mobile datacenter business unknown : IpType

-- the texts that the answer shows
unfoldable pub type_text : IpType → Text
type_text residential = codes "residential"
type_text mobile = codes "mobile"
type_text datacenter = codes "datacenter"
type_text business = codes "business"
type_text unknown = codes "unknown"

module _ (is_alphanumeric : ℕ → Bool) where
  unfoldable pub contains_word : Text → Text → Bool
  unfolding trim find_alone
  contains_word text word =
      let needle = trim word in
      if is_empty needle then false else find_alone is_alphanumeric needle text

  unfoldable pub hits : Text → List Text → List Text
  unfolding to_ascii_lowercase contains_word trim
  hits text keywords =
      let t = to_ascii_lowercase text in map trim (retain (λ k. contains_word t k) keywords)

  -- the words of the organisation's name
  unfoldable pub org_tokens : Text → List Text
  unfolding split
  org_tokens low = retain (λ t. not (is_empty t)) (split (λ c. not (is_alphanumeric c)) low)

  unfoldable pub is_google_fiber : Text → Bool
  unfolding contains_word to_ascii_lowercase
  is_google_fiber org = contains_word (to_ascii_lowercase org) (codes "google fiber")

  -- A vendor of several words is looked for as a phrase, one of a single word as a whole token.
  unfoldable pub vendor_hit : Text → Text → Bool
  unfolding is_google_fiber contains_word org_tokens to_ascii_lowercase
  vendor_hit org v =
      let low = to_ascii_lowercase org in
      if text_eq v (codes "google") && is_google_fiber org
      then false
      else if any (λ c. c == b' ') v
      then contains_word low v
      else contains (org_tokens low) v

  unfoldable pub signals_of : Option Text → Option Text → TypeSignals
  unfolding hits vendor_hit
  signals_of org rdns =
      let hay_org = unwrap_or org [] in
      let hay_all = hay_org ++ (b' ' ∷ unwrap_or rdns []) in
      record {
        org = org;
        rdns = rdns;
        hosting_kw = hits hay_org hosting_kw;
        hosting_vendor = retain (vendor_hit hay_org) hosting_vendors;
        mobile_kw = hits hay_all mobile_kw;
        residential_kw = hits hay_all residential_kw;
        business_kw = hits hay_org business_kw;
        note = none;
      }

  -- The ladder of early returns over the signals.
  unfoldable pub classify_ip : Option Text → Option Text → IpType × TypeSignals
  unfolding signals_of is_google_fiber trim
  classify_ip org rdns =
      let hay_org = unwrap_or org [] in
      let s = signals_of org rdns in
      if is_google_fiber hay_org
      then (residential, record s { note = some (codes "google fiber: residential ISP") })
      else if not (is_empty s.mobile_kw)
      then (mobile, s)
      else if not (is_empty s.hosting_kw) || not (is_empty s.hosting_vendor)
      then (datacenter, s)
      else if not (is_empty s.business_kw)
      then (business, s)
      else if not (is_empty s.residential_kw)
      then (residential, s)
      else if not (is_empty (trim hay_org))
      then (residential, record s { note = some (codes "default: ordinary ISP") })
      else (unknown, s)
