-- ===== src/App/Shapes.antt =====
-- src/app.rs: the answers of the handlers and their shapes.
use proxpulse_judge.Base.{
  ℕ, Bool, true, false, ◌||◌, ◌≡◌, refl, Option, none, some, List, [], ◌∷◌, if◌then◌else◌, Text,
  text_eq_refl,
}
use proxpulse_judge.Dict.{Dict}
use proxpulse_judge.Anonymity.Basic.{Level, level_text, elite, anonymous, transparent}
use proxpulse_judge.Classify.Basic.{
  IpType, TypeSignals, type_text, residential, mobile, datacenter, business, unknown,
}
use proxpulse_judge.Geo.Value.{
  unsigned, float, Value, null, number, string, object, Fields, no_fields, field,
}
use proxpulse_judge.Geo.Info.{GeoInfo}
use proxpulse_judge.App.Json.{texts, text_map, or_null, field_if, geo_json, signals_json}
use proxpulse_judge.App.Schema.{
  Schema, text_value, natural_value, float_value, nullable, shaped, no_more, required, dict_of,
  Shape, optional, conforms, has_shape, texts_schema, geo_schema, signals_schema, level_schema,
  kind_schema, sources_schema,
}

or_true : (b : Bool) → (b || true) ≡ true
or_true true = refl
or_true false = refl

module _ (F : Type 0) where
  pub texts-conforms : (ts : List Text) → conforms {F = F} texts_schema (texts ts) ≡ true
  unfolding conforms
  texts-conforms [] = refl
  texts-conforms (t ∷ ts) = texts-conforms ts

  pub text_map-conforms :
      (m : Dict Text) → conforms {F = F} (dict_of text_value) (object (text_map m)) ≡ true
  unfolding conforms
  text_map-conforms [] = refl
  text_map-conforms ((k, v) ∷ m) = text_map-conforms m

  or_null-conforms : (o : Option Text) → conforms {F = F} (nullable text_value) (or_null o) ≡ true
  unfolding conforms
  or_null-conforms none = refl
  or_null-conforms (some t) = refl

  pub sources-conforms :
      (b : Bool) (m : Dict Text)
      → conforms {F = F} sources_schema (if b then null else object (text_map m)) ≡ true
  unfolding conforms
  sources-conforms true m = refl
  sources-conforms false m = text_map-conforms m

  pub level_text-conforms :
      (l : Level) → conforms {F = F} level_schema (string (level_text l)) ≡ true
  unfolding conforms level_text
  level_text-conforms elite = refl
  level_text-conforms anonymous = refl
  level_text-conforms transparent = refl

  pub type_text-conforms : (t : IpType) → conforms {F = F} kind_schema (string (type_text t)) ≡ true
  unfolding conforms type_text
  type_text-conforms residential = refl
  type_text-conforms mobile = refl
  type_text-conforms datacenter = refl
  type_text-conforms business = refl
  type_text-conforms unknown = refl

  -- A field that may be left out is left out or passes.
  field_if-has_shape :
      {A : Type 0} (k : Text) (s : Schema) (shape : Shape) (f : A → Value F) (o : Option A)
      (fs : Fields F)
      → ((a : A) → conforms s (f a) ≡ true)
      → has_shape shape fs ≡ true
      → has_shape (optional k s shape) (field_if k f o fs) ≡ true
  unfolding has_shape
  field_if-has_shape k s shape f none fs g h = rw h refl
  field_if-has_shape k s shape f (some a) fs g h =
      rw (text_eq_refl k, g a, h) (or_true (has_shape shape (field k (f a) fs)))

  pub required-has_shape :
      (k : Text) (s : Schema) (shape : Shape) (v : Value F) (fs : Fields F)
      → conforms s v ≡ true
      → has_shape shape fs ≡ true
      → has_shape (required k s shape) (field k v fs) ≡ true
  unfolding has_shape
  required-has_shape k s shape v fs g h = rw (text_eq_refl k, g, h) refl

  pub no_more-has_shape : has_shape {F = F} no_more no_fields ≡ true
  unfolding has_shape
  no_more-has_shape = refl

  pub shaped-conforms :
      (shape : Shape) (fs : Fields F)
      → has_shape shape fs ≡ true
      → conforms (shaped shape) (object fs) ≡ true
  unfolding conforms
  shaped-conforms shape fs h = h

  pub text-conforms : (t : Text) → conforms {F = F} text_value (string t) ≡ true
  unfolding conforms
  text-conforms t = refl

  pub unsigned-conforms : (n : ℕ) → conforms {F = F} natural_value (number (unsigned n)) ≡ true
  unfolding conforms
  unsigned-conforms n = refl

  float-conforms : (x : F) → conforms float_value (number (float x)) ≡ true
  unfolding conforms
  float-conforms x = refl

  pub geo_json-conforms : (g : GeoInfo F) → conforms geo_schema (geo_json g) ≡ true
  unfolding geo_json
  geo_json-conforms g = shaped-conforms _ _ (
      required-has_shape _ _ _ _ _ (text-conforms g.ip) (
        field_if-has_shape _ _ _ _ g.error _ text-conforms (
          field_if-has_shape _ _ _ _ g.country _ text-conforms (
            field_if-has_shape _ _ _ _ g.country_code _ text-conforms (
              field_if-has_shape _ _ _ _ g.city _ text-conforms (
                field_if-has_shape _ _ _ _ g.latitude _ float-conforms (
                  field_if-has_shape _ _ _ _ g.longitude _ float-conforms (
                    field_if-has_shape _ _ _ _ g.asn _ unsigned-conforms
                      (field_if-has_shape _ _ _ _ g.aso _ text-conforms no_more-has_shape)))))))))

  pub signals_json-conforms :
      (t : TypeSignals) → conforms {F = F} signals_schema (signals_json t) ≡ true
  unfolding signals_json
  signals_json-conforms t = shaped-conforms _ _ (
      required-has_shape _ _ _ _ _ (or_null-conforms t.org) (
        required-has_shape _ _ _ _ _ (or_null-conforms t.rdns) (
          required-has_shape _ _ _ _ _ (texts-conforms t.hosting_kw) (
            required-has_shape _ _ _ _ _ (texts-conforms t.hosting_vendor) (
              required-has_shape _ _ _ _ _ (texts-conforms t.mobile_kw) (
                required-has_shape _ _ _ _ _ (texts-conforms t.residential_kw) (
                  required-has_shape _ _ _ _ _ (texts-conforms t.business_kw)
                    (field_if-has_shape _ _ _ _ t.note _ text-conforms no_more-has_shape))))))))
