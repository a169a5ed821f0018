-- ===== src/Geo/Pool.antt =====
-- src/geo.rs: the pool of databases and its look-up. A reader is what the crate `maxminddb` gives.
use proxpulse_judge.Base.{
  ℕ, Bool, true, false, not, ◌&&◌, ◌||◌, Option, none, some, List, [], ◌∷◌, ◌++◌, map,
  if◌then◌else◌, ltb, ◌==◌, is_none, Result, ok, err, Text, codes, text_eq, take, is_empty,
  filter_map,
}
use proxpulse_judge.Str.Basic.{contains_text, to_ascii_lowercase}
use proxpulse_judge.Dict.{Dict}
use proxpulse_judge.Addr.Basic.{IpAddr, to_canonical}
use proxpulse_judge.Addr.Parse.{parse_addr}
use proxpulse_judge.Geo.Value.{Value, is_empty_record}
use proxpulse_judge.Geo.Info.{GeoInfo, default_info, has_any_field, apply_city, apply_asn}

-- A look-up fails, finds that the address has no data, or finds data whose decoding may fail.
pub data Found (F : Type 0) : Type 0 where
  no_data : Found F
  decoded : Option (Value F) → Found F
  undecodable : Text → Found F

pub record Reader (F : Type 0) : Type 0 where
  pub database_type : Text
  pub lookup : IpAddr → Result (Found F) Text
  pub structure : Result (Unit {0}) Text

pub record GeoPool (F : Type 0) : Type 0 where
  pub city : Option (Reader F)
  pub country : Option (Reader F)
  pub asn : Option (Reader F)
  pub sources : Dict Text

-- `s.chars().take(80)`
unfoldable pub short_err : Text → Text
short_err e = take 80 e

module _ {F : Type 0} where
  unfoldable pub lookup_value : Reader F → IpAddr → Result (Option (Value F)) Text
  lookup_value r a = elim (r.lookup a) [
    | err e ↦ err e
    | ok no_data ↦ ok none
    | ok (decoded v) ↦ ok v
    | ok (undecodable e) ↦ err e
  ]

  -- One database's part of a look-up: a record that is not empty fills the fields, an error is
  -- noted under the database's name.
  unfoldable pub consult :
      Text
      → (Value F → GeoInfo F → GeoInfo F)
      → Result (Option (Value F)) Text
      → GeoInfo F
      → GeoInfo F
  unfolding is_empty_record short_err
  consult kind apply (ok (some v)) out = if not (is_empty_record v) then apply v out else out
  consult kind apply (ok none) out = out
  consult kind apply (err e) out = record out { error = some (kind ++ (codes ": " ++ short_err e)) }

  unfoldable pub consult_reader :
      Text → (Value F → GeoInfo F → GeoInfo F) → Option (Reader F) → IpAddr → GeoInfo F → GeoInfo F
  unfolding lookup_value consult
  consult_reader kind apply none a out = out
  consult_reader kind apply (some r) a out = consult kind apply (lookup_value r a) out

  -- The error of the answer: none beside data, and one without.
  unfoldable pub settle_error : GeoPool F → GeoInfo F → GeoInfo F
  unfolding has_any_field
  settle_error pool out =
      if has_any_field out
      then record out { error = none }
      else if is_none out.error
      then record out {
        error = some (if is_empty pool.sources then codes "no db" else codes "not found");
      }
      else out

unfoldable pub label_attribution : Text → Option Text
unfolding contains_text
label_attribution name =
    if contains_text (codes "maxmind") name
      || contains_text (codes "geolite") name
      || contains_text (codes "geoip") name
    then some (
        codes
          "This product includes GeoLite2 Data created by MaxMind, available from https://www.maxmind.com")
    else if contains_text (codes "dbip") name || contains_text (codes "db-ip") name
    then some (codes "IP Geolocation by DB-IP (https://db-ip.com)")
    else none

-- The order of texts by their bytes, which is that of their code points.
unfoldable pub text_le : Text → Text → Bool
text_le [] t = true
text_le (c ∷ s) [] = false
text_le (c ∷ s) (d ∷ t) = ltb c d || (c == d && text_le s t)

unfoldable pub insert_sorted : Text → List Text → List Text
unfolding text_le
insert_sorted t [] = t ∷ []
insert_sorted t (u ∷ us) =
    let rest = insert_sorted t us in if text_le t u then t ∷ u ∷ us else u ∷ rest

-- `sort` and `sort_unstable`: equal texts are the same text.
unfoldable pub sort : List Text → List Text
unfolding insert_sorted
sort [] = []
sort (t ∷ ts) = insert_sorted t (sort ts)

-- `Vec::dedup`
unfoldable pub dedup : List Text → List Text
dedup [] = []
dedup (t ∷ []) = t ∷ []
dedup (t ∷ u ∷ us) = let rest = dedup (u ∷ us) in if text_eq t u then rest else t ∷ rest

abbrev pub values : Dict Text → List Text
values [] = []
values ((k, v) ∷ m) = v ∷ values m

module _ {F : Type 0} where
  abbrev pub readers : GeoPool F → List (Reader F)
  readers pool = filter_map (λ r. r) (pool.city ∷ pool.country ∷ pool.asn ∷ [])

  unfoldable pub labels : GeoPool F → List Text
  unfolding to_ascii_lowercase
  labels pool =
      map to_ascii_lowercase (values pool.sources)
      ++ map (λ (r : Reader F). to_ascii_lowercase r.database_type) (readers pool)

  unfoldable pub attributions : GeoPool F → List Text
  unfolding labels sort dedup label_attribution
  attributions pool = dedup (sort (filter_map label_attribution (labels pool)))

module _ {F : Type 0} (of_u64 of_negative : ℕ → F) where
  unfoldable pub lookup_addr : GeoPool F → Text → IpAddr → GeoInfo F
  unfolding consult_reader apply_city apply_asn settle_error default_info
  lookup_addr pool ip a =
      let by_city =
        consult_reader (codes "city") (apply_city of_u64 of_negative) pool.city a
          (default_info ip) in
      let by_country =
        (if is_none by_city.country && is_none by_city.country_code
          then consult_reader (codes "country") (apply_city of_u64 of_negative) pool.country a
              by_city
          else by_city) in
      settle_error pool (consult_reader (codes "asn") apply_asn pool.asn a by_country)

  unfoldable pub lookup : GeoPool F → Text → GeoInfo F
  unfolding parse_addr to_canonical lookup_addr default_info
  lookup pool ip = elim (parse_addr ip) [
    | some a ↦ lookup_addr pool ip (to_canonical a)
    | none ↦ record (default_info {F = F} ip) { error = some (codes "invalid ip") }
  ]
