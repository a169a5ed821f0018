-- ===== src/UnitTests/Records.antt =====
-- src/geo.rs, `mod tests` and `write_city_and_asn` of `test_mmdb`; src/metrics.rs, `mod tests`. What the
-- crate reads from the written files is the argument of a test. A number stands for an `f64` that is
-- as many tenths.
use proxpulse_judge.Base.{
  ℕ, ◌*◌, ◌==◌, Bool, true, false, not, ◌&&◌, ◌≡◌, refl, Option, none, some, List, [], ◌∷◌,
  if◌then◌else◌, is_some, is_none, Text, Bytes, codes, option_eq, is_empty, all, replicate, Result,
  ok, err, String,
}
use proxpulse_judge.Str.Basic.{contains_text}
use proxpulse_judge.Dict.{get, keys}
use proxpulse_judge.Addr.Basic.{IpAddr, v4, v6}
use proxpulse_judge.Metrics.Basic.{zero_metrics, inc, render}
use proxpulse_judge.Geo.Value.{Value, unsigned, float, number, string, object}
use proxpulse_judge.Geo.Info.{GeoInfo, default_info, apply_city, apply_asn}
use proxpulse_judge.Geo.Pool.{Reader, Found, no_data, decoded, GeoPool, lookup, attributions}
use proxpulse_judge.Geo.Open.{Directory, open_pool, verify}
use proxpulse_judge.Geo.Notices.{maxmind_notice, dbip_notice}
use proxpulse_judge.Mmdb.Writer.{write}
use proxpulse_judge.App.Json.{fields}
use proxpulse_judge.UnitTests.Notation.{texts_eq, pairs}

unfoldable render_exposes_counters_and_gauges : Bool
unfolding inc render contains_text
render_exposes_counters_and_gauges =
    let m = record zero_metrics { requests = inc (inc zero_metrics.requests) } in
    let text = render m true (codes "1.2.3") in
    contains_text (codes "# TYPE proxpulse_requests_total counter\nproxpulse_requests_total 2\n")
      text
    && contains_text (codes "proxpulse_rate_limited_total 0\n") text
    && contains_text (codes "proxpulse_geo_ready 1\n") text
    && contains_text (codes "proxpulse_build_info{version=\"1.2.3\"} 1\n") text

-- JSON literals
abbrev obj : List (String × Value ℕ) → Value ℕ
obj kvs = object (fields (pairs kvs))

abbrev str : String → Value ℕ
str s = string (codes s)

abbrev city_record : Value ℕ
city_record = obj (
    ("city", obj (("names", obj (("en", str "Frankfurt") ∷ [])) ∷ []))
    ∷ ("country", obj (("iso_code", str "DE") ∷ ("names", obj (("en", str "Germany") ∷ [])) ∷ []))
    ∷ ("location", obj (("latitude", number (float 501)) ∷ ("longitude", number (float 86)) ∷ []))
    ∷ [])

abbrev asn_record : Value ℕ
asn_record = obj (
    ("autonomous_system_number", number (unsigned 64500))
    ∷ ("autonomous_system_organization", str "Example Hosting GmbH")
    ∷ [])

-- the network 203.0.113.0
abbrev network : ℕ
network = 0xcb00_7100

-- The names and the bytes of the files.
unfoldable write_city_and_asn : (ℕ → Bytes) → List (Text × Option Bytes)
unfolding write
write_city_and_asn f64_bytes =
    (codes "GeoLite2-City.mmdb", write f64_bytes (codes "GeoLite2-City") network city_record)
    ∷ (codes "GeoLite2-ASN.mmdb", write f64_bytes (codes "GeoLite2-ASN") network asn_record)
    ∷ []

abbrev pub tenths : ℕ → ℕ
tenths n = n * 10

abbrev pub nat_is : Option ℕ → ℕ → Bool
nat_is none n = false
nat_is (some m) n = m == n

abbrev text_is : Option Text → String → Bool
text_is o s = option_eq o (some (codes s))

abbrev look : GeoPool ℕ → String → GeoInfo ℕ
unfolding lookup
look pool ip = lookup tenths tenths pool (codes ip)

abbrev is_ok : Result (Unit {0}) Text → Bool
is_ok (ok u) = true
is_ok (err e) = false

module _ (dir : Directory ℕ) where
  unfoldable real_mmdb_files_are_read_and_verified : Bool
  unfolding open_pool verify attributions get look
  real_mmdb_files_are_read_and_verified =
      let pool = open_pool dir in
      let info = look pool "203.0.113.7" in
      text_is (get pool.sources (codes "city")) "GeoLite2-City.mmdb"
      && text_is (get pool.sources (codes "asn")) "GeoLite2-ASN.mmdb"
      && is_ok (verify pool)
      && texts_eq (attributions pool) (maxmind_notice ∷ [])
      && is_none info.error
      && text_is info.country "Germany"
      && text_is info.country_code "DE"
      && text_is info.city "Frankfurt"
      && nat_is info.latitude 501
      && nat_is info.longitude 86
      && nat_is info.asn 64500
      && text_is info.aso "Example Hosting GmbH"
      && text_is (look pool "::ffff:203.0.113.7").country_code "DE"
      && text_is (look pool "198.51.100.1").error "not found"
      && is_some (look pool "2001:db8::1").error

  unfoldable mismatched_database_type_is_ignored : Bool
  unfolding open_pool look
  mismatched_database_type_is_ignored =
      let pool = open_pool dir in
      is_empty pool.sources && text_is (look pool "203.0.113.7").error "no db"

  unfoldable dbip_files_get_dbip_attribution : Bool
  unfolding open_pool attributions look
  dbip_files_get_dbip_attribution =
      let pool = open_pool dir in
      texts_eq (attributions pool) (dbip_notice ∷ [])
      && text_is (look pool "203.0.113.7").country_code "DE"

  unfoldable invalid_ip_without_db : Bool
  unfolding open_pool verify look
  invalid_ip_without_db =
      let pool = open_pool dir in
      text_is (look pool "not-an-ip").error "invalid ip"
      && text_is (look pool "8.8.8.8").error "no db"
      && not (is_ok (verify pool))

unfoldable maxmind_shaped_record : Bool
unfolding apply_city default_info
maxmind_shaped_record =
    let out = apply_city tenths tenths city_record (default_info []) in
    text_is out.city "Frankfurt"
    && text_is out.country_code "DE"
    && text_is out.country "Germany"
    && nat_is out.latitude 501

unfoldable flat_shaped_record : Bool
unfolding apply_city default_info
flat_shaped_record =
    let v = obj (
      ("city", str "Paris")
      ∷ ("country", str "France")
      ∷ ("country_code", str "FR")
      ∷ ("latitude", number (float 488))
      ∷ ("longitude", number (float 23))
      ∷ []) in
    let out = apply_city tenths tenths v (default_info []) in
    text_is out.city "Paris" && text_is out.country_code "FR"

unfoldable asn_record_variants : Bool
unfolding apply_asn default_info
asn_record_variants =
    let v = obj (
      ("autonomous_system_number", number (unsigned 9009))
      ∷ ("autonomous_system_organization", str "M-net")
      ∷ []) in
    let out = apply_asn v (default_info []) in
    let v2 = obj (("asn", number (unsigned 123)) ∷ ("org", str "Example") ∷ []) in
    let out2 = apply_asn v2 (default_info []) in
    nat_is out.asn 9009 && text_is out.aso "M-net" && nat_is out2.asn 123

-- A database of one record for 203.0.113.0/24 and of IPv4 alone.
abbrev one_network : Value ℕ → IpAddr → Result (Found ℕ) Text
one_network v (v4 a b c d) =
    if a == 203 && b == 0 && c == 113 then ok (decoded (some v)) else ok no_data
one_network v (v6 a b c d e f g h) = err (codes "IPv6 address in an IPv4-only database")

abbrev reader : String → Value ℕ → Reader ℕ
reader database_type v = record {
  database_type = codes database_type;
  lookup = one_network v;
  structure = ok tt;
}

-- A directory with these files and no other.
abbrev pub directory : List (String × Reader ℕ) → Directory ℕ
unfolding get
directory files = record {
  exists = λ name. is_some (get (pairs files) name);
  entries = some (keys (pairs files));
  open_readfile = λ name. get (pairs files) name;
}

abbrev pub city_and_asn : Directory ℕ
city_and_asn = directory (
    ("GeoLite2-City.mmdb", reader "GeoLite2-City" city_record)
    ∷ ("GeoLite2-ASN.mmdb", reader "GeoLite2-ASN" asn_record)
    ∷ [])

abbrev misnamed : Directory ℕ
misnamed = directory (("GeoLite2-City.mmdb", reader "GeoLite2-ASN" asn_record) ∷ [])

abbrev dbip : Directory ℕ
dbip = directory (
    (
      "dbip-city-lite.mmdb",
      reader "DBIP-City-Lite" (obj (("country", obj (("iso_code", str "DE") ∷ [])) ∷ [])),
    )
    ∷ [])

abbrev pub no_directory : Directory ℕ
no_directory = record { exists = λ name. false; entries = none; open_readfile = λ name. none }

-- All files of the tests can be written.
written : List (Text × Option Bytes) → Bool
written files = all (λ f. is_some f.1) files

record_tests :
    (render_exposes_counters_and_gauges ≡ true)
    × (written (write_city_and_asn (λ x. replicate 8 0)) ≡ true)
    × (real_mmdb_files_are_read_and_verified city_and_asn ≡ true)
    × (mismatched_database_type_is_ignored misnamed ≡ true)
    × (dbip_files_get_dbip_attribution dbip ≡ true)
    × (invalid_ip_without_db no_directory ≡ true)
    × (maxmind_shaped_record ≡ true)
    × (flat_shaped_record ≡ true)
    × (asn_record_variants ≡ true)
unfolding render_exposes_counters_and_gauges written write_city_and_asn
    real_mmdb_files_are_read_and_verified mismatched_database_type_is_ignored
    dbip_files_get_dbip_attribution invalid_ip_without_db maxmind_shaped_record flat_shaped_record
    asn_record_variants look directory
record_tests = (refl, refl, refl, refl, refl, refl, refl, refl, refl)
