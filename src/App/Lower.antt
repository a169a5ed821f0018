-- ===== src/App/Lower.antt =====
-- src/app.rs: what `headers_lower` has under each name.
use proxpulse_judge.Base.{
  true, false, ◌≡◌, ◌⊎◌, refl, sym, ap, ◌∙◌, inl, inr, Option, none, some, List, [], ◌∷◌, arith,
  if◌then◌else◌, Text, Bytes, text_eq, text_eq_iff, contains, All, Bool-cases,
}
use mathlib.Core.Bool.{true≢false}
use proxpulse_judge.Str.Basic.{to_ascii_lowercase}
use proxpulse_judge.Dict.{Dict, get, insert, get-insert, get-nil}
use proxpulse_judge.App.Request.{
  HeaderMap, get_all, drop_name, header_names, join_values, joined_header, put_header,
  collect_headers, headers_lower,
}

-- The names are in lower case, as the crate `http` keeps them.
abbrev pub HasLowerNames : HeaderMap → Type 0
HasLowerNames headers = All (λ h. to_ascii_lowercase h.0 ≡ h.0) headers

put_header-none :
    (view : Dict Text) (name k : Text) → get (put_header view name none) k ≡ get view k
unfolding put_header
put_header-none view name k = refl

put_header-some :
    (view : Dict Text) (name k v : Text)
    → to_ascii_lowercase name ≡ name
    → get (put_header view name (some v)) k ≡ (if text_eq name k then some v else get view k)
unfolding put_header
put_header-some view name k v low = ap (λ n. get (insert view n v) k) low ∙ get-insert view name k v

put_header-other :
    (view : Dict Text) (name k : Text) (o : Option Text)
    → to_ascii_lowercase name ≡ name
    → text_eq name k ≡ false
    → get (put_header view name o) k ≡ get view k
put_header-other view name k none low ne = put_header-none view name k
put_header-other view name k (some v) low ne = put_header-some view name k v low ∙ rw ne refl

put_header-own :
    (view : Dict Text) (name k : Text) (o : Option Text)
    → to_ascii_lowercase name ≡ name
    → text_eq name k ≡ true
    → (o ≡ none → get view k ≡ none)
    → get (put_header view name o) k ≡ o
put_header-own view name k none low e h = put_header-none view name k ∙ h refl
put_header-own view name k (some v) low e h = put_header-some view name k v low ∙ rw e refl

drop_name-any :
    (n k : Text) (names : List Text)
    → text_eq n k ≡ false
    → contains (drop_name n names) k ≡ contains names k
drop_name-any n k [] ne = refl
drop_name-any n k (m ∷ names) ne =
    ground (arith, text_eq_iff m n, text_eq_iff m k, text_eq_iff n k, drop_name-any n k names ne)

drop_name-All :
    (P : Text → Type 0) (n : Text) (names : List Text) → All P names → All P (drop_name n names)
drop_name-All P n [] h = tt
drop_name-All P n (m ∷ names) (p, h) = elim (Bool-cases (text_eq m n)) [
  | inl e ↦ rw e (drop_name-All P n names h)
  | inr e ↦ rw e (p, drop_name-All P n names h)
]

header_names-lower :
    (headers : HeaderMap)
    → HasLowerNames headers
    → All (λ n. to_ascii_lowercase n ≡ n) (header_names headers)
unfolding header_names
header_names-lower [] h = tt
header_names-lower ((n, v) ∷ lines) (low, h) =
    (low, drop_name-All _ n (header_names lines) (header_names-lower lines h))

header_names-all :
    (headers : HeaderMap) (k : Text)
    → contains (header_names headers) k ≡ false
    → get_all headers k ≡ []
unfolding header_names get_all
header_names-all [] k h = refl
header_names-all ((n, v) ∷ lines) k h = elim (Bool-cases (text_eq n k)) [
  | inl e ↦ absurd (true≢false (rw e at h))
  | inr e ↦
      rw e (header_names-all lines k (sym (drop_name-any n k (header_names lines) e) ∙ rw e at h))
]

no_values :
    (lossy : Bytes → Text) (headers : HeaderMap) (k : Text)
    → get_all headers k ≡ []
    → joined_header lossy headers k ≡ none
unfolding joined_header join_values
no_values lossy headers k e = rw e refl

module _ (lossy : Bytes → Text) (headers : HeaderMap) (k : Text) where
  -- The name has its values already, or gets them from one of the names that are left.
  collect-get :
      (names : List Text) (view : Dict Text)
      → All (λ n. to_ascii_lowercase n ≡ n) names
      → (joined_header lossy headers k ≡ none → get view k ≡ none)
      → (contains names k ≡ true) ⊎ (get view k ≡ joined_header lossy headers k)
      → get (collect_headers lossy headers names view) k ≡ joined_header lossy headers k
  unfolding collect_headers
  collect-get [] view low h (inl c) = absurd (true≢false (sym c))
  collect-get [] view low h (inr done) = done
  collect-get (n ∷ names) view (low, lows) h there = elim (Bool-cases (text_eq n k)) [
    | inl e ↦
        let same = (text_eq_iff n k).0 e in
        let own : get (put_header view n (joined_header lossy headers n)) k
            ≡ joined_header lossy headers k =
          put_header-own view n k (joined_header lossy headers n) low e
            (λ z. h (ap (joined_header lossy headers) (sym same) ∙ z))
          ∙ ap (joined_header lossy headers) same in
        collect-get names (put_header view n (joined_header lossy headers n)) lows (λ z. own ∙ z)
          (inr own)
    | inr e ↦
        let other = put_header-other view n k (joined_header lossy headers n) low e in
        collect-get names (put_header view n (joined_header lossy headers n)) lows
          (λ z. other ∙ h z)
          (elim there [ inl c ↦ inl (rw e at c) | inr done ↦ inr (other ∙ done) ])
  ]

-- Under each name stand all values of the header, joined.
pub headers_lower-get :
    (lossy : Bytes → Text) (headers : HeaderMap) (k : Text)
    → HasLowerNames headers
    → get (headers_lower lossy headers) k ≡ joined_header lossy headers k
unfolding headers_lower
headers_lower-get lossy headers k low =
    collect-get lossy headers k (header_names headers) [] (header_names-lower headers low)
      (λ z. get-nil k)
      (elim (Bool-cases (contains (header_names headers) k)) [
        | inl c ↦ inl c
        | inr c ↦ inr (get-nil k ∙ sym (no_values lossy headers k (header_names-all headers k c)))
      ])
