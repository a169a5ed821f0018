-- ===== src/Geo/Info.antt =====
-- src/geo.rs: `GeoInfo` and how a record fills it.
use proxpulse_judge.Base.{ℕ, Bool, ◌||◌, Option, none, List, [], ◌∷◌, is_some, Text, codes}
use proxpulse_judge.Client.Basic.{◌or_else◌}
use proxpulse_judge.Geo.Value.{Value, get_str, get_u32, get_f64}

pub record GeoInfo (F : Type 0) : Type 0 where
  pub ip : Text
  pub error : Option Text
  pub country : Option Text
  pub country_code : Option Text
  pub city : Option Text
  pub latitude : Option F
  pub longitude : Option F
  pub asn : Option ℕ
  pub aso : Option Text

-- a path of keys
abbrev path1 : Text → List Text
path1 a = a ∷ []

abbrev path2 : Text → Text → List Text
path2 a b = a ∷ b ∷ []

abbrev path3 : Text → Text → Text → List Text
path3 a b c = a ∷ b ∷ c ∷ []

abbrev pub country_paths : List (List Text)
country_paths =
    path3 (codes "country") (codes "names") (codes "en")
    ∷ path3 (codes "registered_country") (codes "names") (codes "en")
    ∷ path1 (codes "country")
    ∷ []

abbrev pub country_code_paths : List (List Text)
country_code_paths =
    path2 (codes "country") (codes "iso_code")
    ∷ path2 (codes "registered_country") (codes "iso_code")
    ∷ path1 (codes "country_code")
    ∷ path1 (codes "countryCode")
    ∷ []

abbrev pub city_paths : List (List Text)
city_paths = path3 (codes "city") (codes "names") (codes "en") ∷ path1 (codes "city") ∷ []

abbrev pub latitude_paths : List (List Text)
latitude_paths =
    path2 (codes "location") (codes "latitude")
    ∷ path1 (codes "latitude")
    ∷ path1 (codes "lat")
    ∷ []

abbrev pub longitude_paths : List (List Text)
longitude_paths =
    path2 (codes "location") (codes "longitude")
    ∷ path1 (codes "longitude")
    ∷ path1 (codes "lon")
    ∷ path1 (codes "lng")
    ∷ []

abbrev pub aso_paths : List (List Text)
aso_paths =
    path1 (codes "autonomous_system_organization")
    ∷ path1 (codes "aso")
    ∷ path1 (codes "organization")
    ∷ path1 (codes "org")
    ∷ []

abbrev pub asn_paths : List (List Text)
asn_paths = path1 (codes "autonomous_system_number") ∷ path1 (codes "asn") ∷ []

module _ {F : Type 0} where
  unfoldable pub default_info : Text → GeoInfo F
  default_info ip = record {
    ip = ip;
    error = none;
    country = none;
    country_code = none;
    city = none;
    latitude = none;
    longitude = none;
    asn = none;
    aso = none;
  }

  unfoldable pub has_any_field : GeoInfo F → Bool
  has_any_field g =
      is_some g.country
      || is_some g.country_code
      || is_some g.city
      || is_some g.latitude
      || is_some g.longitude
      || is_some g.asn
      || is_some g.aso

  unfoldable pub apply_asn : Value F → GeoInfo F → GeoInfo F
  unfolding get_u32 get_str
  apply_asn v out = record out {
    asn = out.asn or_else get_u32 v asn_paths;
    aso = out.aso or_else get_str v aso_paths;
  }

module _ {F : Type 0} (of_u64 of_negative : ℕ → F) where
  -- Each field is read only where it is missing.
  unfoldable pub apply_city : Value F → GeoInfo F → GeoInfo F
  unfolding get_str get_f64 get_u32
  apply_city v out = record out {
    country = out.country or_else get_str v country_paths;
    country_code = out.country_code or_else get_str v country_code_paths;
    city = out.city or_else get_str v city_paths;
    latitude = out.latitude or_else get_f64 of_u64 of_negative v latitude_paths;
    longitude = out.longitude or_else get_f64 of_u64 of_negative v longitude_paths;
    aso = out.aso or_else get_str v aso_paths;
    asn = out.asn or_else get_u32 v asn_paths;
  }
