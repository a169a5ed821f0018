-- ===== src/Geo/Open.antt =====
-- src/geo.rs: `open_first`, `GeoPool::open` and `verify`. What the file system holds and what the
-- crate `maxminddb` makes of a file are parameters; file names are Unicode.
use proxpulse_judge.Base.{
  Bool, true, false, not, ◌&&◌, ◌||◌, Option, none, some, List, [], ◌∷◌, ◌++◌, if◌then◌else◌,
  Result, ok, err, Text, codes, text_eq, is_empty, retain, contains, unwrap_or,
}
use proxpulse_judge.Str.Basic.{contains_text, to_ascii_lowercase, rsplit_once}
use proxpulse_judge.Dict.{Dict, insert}
use proxpulse_judge.Geo.Pool.{Reader, GeoPool, sort, short_err}

abbrev pub city_candidates : List Text
city_candidates = codes "GeoLite2-City.mmdb" ∷ codes "dbip-city-lite.mmdb" ∷ []

abbrev pub country_candidates : List Text
country_candidates = codes "GeoLite2-Country.mmdb" ∷ codes "dbip-country-lite.mmdb" ∷ []

abbrev pub asn_candidates : List Text
asn_candidates = codes "GeoLite2-ASN.mmdb" ∷ codes "dbip-asn-lite.mmdb" ∷ []

-- The directory: which names exist, its entries if it can be read, and the readers of its files.
pub record Directory (F : Type 0) : Type 0 where
  pub exists : Text → Bool
  pub entries : Option (List Text)
  pub open_readfile : Text → Option (Reader F)

-- `Path::extension` is `mmdb`: a name that begins with its only dot has no extension.
unfoldable pub has_mmdb_extension : Text → Bool
unfolding rsplit_once
has_mmdb_extension name = elim (rsplit_once b'.' name) [
  | none ↦ false
  | some (stem, ext) ↦ not (is_empty stem) && text_eq ext (codes "mmdb")
]

unfoldable pub pattern_of : Text → Text
unfolding contains_text
pattern_of name =
    if contains_text (codes "City") name || contains_text (codes "city") name
    then codes "city"
    else if contains_text (codes "ASN") name || contains_text (codes "asn") name
    then codes "asn"
    else codes "country"

unfoldable pub is_hit : Text → List Text → Text → Bool
unfolding has_mmdb_extension contains_text to_ascii_lowercase
is_hit pat candidates name =
    has_mmdb_extension name
    && contains_text pat (to_ascii_lowercase name)
    && not (contains candidates name)

-- The end of `verify`: at least one database was there.
unfoldable pub seen_any : Result Bool Text → Result (Unit {0}) Text
seen_any (ok true) = ok tt
seen_any (ok false) = err (codes "no geo databases loaded")
seen_any (err e) = err e

module _ {F : Type 0} where
  unfoldable pub candidates_in : Directory F → Text → List Text → List Text
  unfolding sort is_hit
  candidates_in dir pat names =
      let known = retain dir.exists names in
      known ++ sort (retain (is_hit pat known) (unwrap_or dir.entries []))

  -- The first file that opens and whose database is of the kind that is looked for.
  unfoldable pub first_reader : Directory F → Text → List Text → Option (Reader F × Text)
  unfolding contains_text to_ascii_lowercase
  first_reader dir pat [] = none
  first_reader dir pat (name ∷ names) =
      let later = first_reader dir pat names in
      elim (dir.open_readfile name) [
        | none ↦ later
        | some r ↦
            if contains_text pat (to_ascii_lowercase r.database_type) then some (r, name) else later
      ]

  unfoldable pub open_first : Directory F → List Text → Option (Reader F × Text)
  unfolding candidates_in first_reader pattern_of
  open_first dir [] = none
  open_first dir (name ∷ names) =
      let pat = pattern_of name in first_reader dir pat (candidates_in dir pat (name ∷ names))

  abbrev pub reader_of : Option (Reader F × Text) → Option (Reader F)
  reader_of none = none
  reader_of (some (r, name)) = some r

  abbrev pub add_source : Text → Option (Reader F × Text) → Dict Text → Dict Text
  add_source kind none m = m
  add_source kind (some (r, name)) m = insert m kind name

  unfoldable pub open_pool : Directory F → GeoPool F
  unfolding open_first insert
  open_pool dir =
      let city = open_first dir city_candidates in
      let country = open_first dir country_candidates in
      let asn = open_first dir asn_candidates in
      record {
        city = reader_of city;
        country = reader_of country;
        asn = reader_of asn;
        sources =
            add_source (codes "asn") asn
              (add_source (codes "country") country (add_source (codes "city") city []));
      }

  -- One database in the loop of `verify`: the first failure is the answer.
  unfoldable pub verify_reader : Text → Option (Reader F) → Result Bool Text → Result Bool Text
  unfolding short_err
  verify_reader kind r (err e) = err e
  verify_reader kind none (ok seen) = ok seen
  verify_reader kind (some r) (ok seen) = elim r.structure [
    | ok _ ↦ ok true
    | err e ↦ err (kind ++ (codes ": " ++ short_err e))
  ]

  unfoldable pub verify : GeoPool F → Result (Unit {0}) Text
  unfolding verify_reader seen_any
  verify pool = seen_any (
      verify_reader (codes "asn") pool.asn (
        verify_reader (codes "country") pool.country
          (verify_reader (codes "city") pool.city (ok false))))
