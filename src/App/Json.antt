-- ===== src/App/Json.antt =====
-- src/app.rs, src/geo.rs, src/logic.rs: the JSON values of the answers.
use proxpulse_judge.Base.{Option, none, some, List, [], ◌∷◌, map, Text, codes}
use proxpulse_judge.Dict.{Dict}
use proxpulse_judge.Classify.Basic.{TypeSignals}
use proxpulse_judge.Geo.Value.{
  unsigned, float, Value, null, number, string, array, object, Items, no_items, item, Fields,
  no_fields, field,
}
use proxpulse_judge.Geo.Info.{GeoInfo}

-- JSON values from their parts
module _ {F : Type 0} where
  abbrev pub fields : List (Text × Value F) → Fields F
  fields [] = no_fields
  fields ((k, v) ∷ fs) = field k v (fields fs)

  abbrev pub items : List (Value F) → Items F
  items [] = no_items
  items (v ∷ vs) = item v (items vs)

  abbrev pub texts : List Text → Value F
  texts ts = array (items (map string ts))

  abbrev pub text_map : Dict Text → Fields F
  text_map [] = no_fields
  text_map ((k, v) ∷ m) = field k (string v) (text_map m)

  abbrev pub or_null : Option Text → Value F
  or_null none = null
  or_null (some t) = string t

  -- `skip_serializing_if = "Option::is_none"`
  abbrev pub field_if : {A : Type 0} → Text → (A → Value F) → Option A → Fields F → Fields F
  field_if k f none fs = fs
  field_if k f (some a) fs = field k (f a) fs

  unfoldable pub geo_json : GeoInfo F → Value F
  geo_json g = object (
      field (codes "ip") (string g.ip) (
        field_if (codes "error") string g.error (
          field_if (codes "country") string g.country (
            field_if (codes "country_code") string g.country_code (
              field_if (codes "city") string g.city (
                field_if (codes "latitude") (λ x. number (float x)) g.latitude
                  (field_if (codes "longitude") (λ x. number (float x)) g.longitude
                    (field_if (codes "asn") (λ n. number (unsigned n)) g.asn
                      (field_if (codes "aso") string g.aso no_fields)))))))))

  unfoldable pub signals_json : TypeSignals → Value F
  signals_json t = object (
      field (codes "org") (or_null t.org) (
        field (codes "rdns") (or_null t.rdns) (
          field (codes "hosting_kw") (texts t.hosting_kw) (
            field (codes "hosting_vendor") (texts t.hosting_vendor) (
              field (codes "mobile_kw") (texts t.mobile_kw) (
                field (codes "residential_kw") (texts t.residential_kw) (
                  field (codes "business_kw") (texts t.business_kw)
                    (field_if (codes "note") string t.note no_fields))))))))
