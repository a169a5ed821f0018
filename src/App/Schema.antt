-- ===== src/App/Schema.antt =====
-- src/app.rs: the shapes of the JSON answers, which the clients of the service rely on.
use proxpulse_judge.Base.{
  Bool, true, false, ◌&&◌, ◌||◌, List, [], ◌∷◌, Text, codes, text_eq, contains,
}
use proxpulse_judge.Geo.Value.{
  Value, null, boolean, number, string, array, object, unsigned, float, Items, no_items, item,
  Fields, no_fields, field,
}

mutual
  pub data Schema : Type 0 where
    text_value natural_value float_value boolean_value : Schema
    one_of : List Text → Schema
    nullable : Schema → Schema
    list_of : Schema → Schema
    -- an object with any keys
    dict_of : Schema → Schema
    shaped : Shape → Schema

  -- an object with these fields, in this order
  pub data Shape : Type 0 where
    no_more : Shape
    required : Text → Schema → Shape → Shape
    optional : Text → Schema → Shape → Shape

module _ {F : Type 0} where
  abbrev pub all_items : (Value F → Bool) → Items F → Bool
  all_items p no_items = true
  all_items p (item v vs) = p v && all_items p vs

  abbrev pub all_values : (Value F → Bool) → Fields F → Bool
  all_values p no_fields = true
  all_values p (field k v fs) = p v && all_values p fs

  -- the first field, if it has that key and its value passes, and the fields behind it
  abbrev pub next_field : Text → (Value F → Bool) → (Fields F → Bool) → Fields F → Bool
  next_field key p q no_fields = false
  next_field key p q (field k v fs) = text_eq k key && p v && q fs

  abbrev ends : Fields F → Bool
  ends no_fields = true
  ends (field k v fs) = false

  unfoldable mutual
    pub conforms : Schema → Value F → Bool
    conforms text_value (string t) = true
    conforms natural_value (number (unsigned n)) = true
    conforms float_value (number (float x)) = true
    conforms boolean_value (boolean b) = true
    conforms (one_of ts) (string t) = contains ts t
    conforms (nullable s) null = true
    conforms (nullable s) v = conforms s v
    conforms (list_of s) (array vs) = all_items (λ v. conforms s v) vs
    conforms (dict_of s) (object fs) = all_values (λ v. conforms s v) fs
    conforms (shaped shape) (object fs) = has_shape shape fs
    conforms _ _ = false

    pub has_shape : Shape → Fields F → Bool
    has_shape no_more fs = ends fs
    has_shape (required k s shape) fs =
        next_field k (λ v. conforms s v) (λ rest. has_shape shape rest) fs
    has_shape (optional k s shape) fs =
        has_shape shape fs || next_field k (λ v. conforms s v) (λ rest. has_shape shape rest) fs

abbrev pub texts_schema : Schema
texts_schema = list_of text_value

abbrev pub geo_schema : Schema
geo_schema = shaped (
    required (codes "ip") text_value (
      optional (codes "error") text_value (
        optional (codes "country") text_value (
          optional (codes "country_code") text_value (
            optional (codes "city") text_value (
              optional (codes "latitude") float_value (
                optional (codes "longitude") float_value (
                  optional (codes "asn") natural_value
                    (optional (codes "aso") text_value no_more)))))))))

abbrev pub signals_schema : Schema
signals_schema = shaped (
    required (codes "org") (nullable text_value) (
      required (codes "rdns") (nullable text_value) (
        required (codes "hosting_kw") texts_schema (
          required (codes "hosting_vendor") texts_schema (
            required (codes "mobile_kw") texts_schema (
              required (codes "residential_kw") texts_schema (
                required (codes "business_kw") texts_schema
                  (optional (codes "note") text_value no_more))))))))

abbrev pub level_schema : Schema
level_schema = one_of (codes "elite" ∷ codes "anonymous" ∷ codes "transparent" ∷ [])

abbrev pub kind_schema : Schema
kind_schema = one_of (
    codes "residential"
    ∷ codes "mobile"
    ∷ codes "datacenter"
    ∷ codes "business"
    ∷ codes "unknown"
    ∷ [])

abbrev pub sources_schema : Schema
sources_schema = nullable (dict_of text_value)

-- `/judge`
abbrev pub judge_schema : Schema
judge_schema = shaped (
    required (codes "ip") text_value (
      required (codes "headers") (dict_of text_value) (
        required (codes "xff_chain") texts_schema (
          required (codes "anonymity") level_schema (
            required (codes "geo") geo_schema (
              required (codes "geo_source") sources_schema (
                required (codes "attribution") texts_schema (
                  required (codes "ip_type") kind_schema (
                    required (codes "type_signals") signals_schema (
                      required (codes "content_version") natural_value
                        (required (codes "content_sha256") text_value no_more)))))))))))

-- `/geo`
abbrev pub geo_answer_schema : Schema
geo_answer_schema = shaped (
    required (codes "ip") text_value (
      required (codes "geo") geo_schema (
        required (codes "source") sources_schema
          (required (codes "attribution") texts_schema no_more))))

-- `/type`
abbrev pub type_answer_schema : Schema
type_answer_schema = shaped (
    required (codes "ip") text_value
      (required (codes "ip_type") kind_schema (required (codes "signals") signals_schema no_more)))

-- `/headers`
abbrev pub headers_answer_schema : Schema
headers_answer_schema = shaped (
    required (codes "ip") text_value (
      required (codes "headers") (dict_of text_value)
        (required (codes "xff_chain") texts_schema no_more)))
