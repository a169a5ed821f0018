-- ===== src/Geo/Notices.antt =====
-- src/geo.rs: the notices that the licences of the databases ask for.
use proxpulse_judge.Base.{
  ℕ, zero, suc, Bool, true, false, ◌||◌, ◌≡◌, refl, sym, ap, ◌∙◌, ◌⊎◌, inl, inr, Option, none, some,
  List, [], ◌∷◌, ◌++◌, if◌then◌else◌, Text, codes, option_eq, any, filter_map,
}
use proxpulse_judge.Geo.Pool.{
  GeoPool, label_attribution, insert_sorted, sort, dedup, labels, attributions,
}

abbrev pub maxmind_notice : Text
maxmind_notice =
    codes
      "This product includes GeoLite2 Data created by MaxMind, available from https://www.maxmind.com"

abbrev pub dbip_notice : Text
dbip_notice = codes "IP Geolocation by DB-IP (https://db-ip.com)"

-- A label asks for the notice.
abbrev pub owes : Text → Text → Bool
owes notice label = option_eq (label_attribution label) (some notice)

-- so many notices of each kind
abbrev runs : ℕ → ℕ → List Text
runs zero zero = []
runs zero (suc m) = maxmind_notice ∷ runs zero m
runs (suc d) m = dbip_notice ∷ runs d m

abbrev some_of : ℕ → Bool
some_of zero = false
some_of (suc n) = true

abbrev once : Bool → Text → List Text
once b notice = if b then notice ∷ [] else []

insert_sorted-dbip : (d m : ℕ) → insert_sorted dbip_notice (runs d m) ≡ runs (suc d) m
unfolding insert_sorted
insert_sorted-dbip zero zero = refl
insert_sorted-dbip zero (suc m) = refl
insert_sorted-dbip (suc d) m = refl

insert_sorted-maxmind : (d m : ℕ) → insert_sorted maxmind_notice (runs d m) ≡ runs d (suc m)
unfolding insert_sorted
insert_sorted-maxmind zero zero = refl
insert_sorted-maxmind zero (suc m) = refl
insert_sorted-maxmind (suc d) m = ap (λ l. dbip_notice ∷ l) (insert_sorted-maxmind d m)

dedup-maxmind : (m : ℕ) → dedup (runs zero m) ≡ once (some_of m) maxmind_notice
unfolding dedup
dedup-maxmind zero = refl
dedup-maxmind (suc zero) = refl
dedup-maxmind (suc (suc m)) = dedup-maxmind (suc m)

dedup-runs :
    (d m : ℕ) → dedup (runs d m) ≡ once (some_of d) dbip_notice ++ once (some_of m) maxmind_notice
unfolding dedup
dedup-runs zero m = dedup-maxmind m
dedup-runs (suc zero) zero = refl
dedup-runs (suc zero) (suc m) = ap (λ l. dbip_notice ∷ l) (dedup-maxmind (suc m))
dedup-runs (suc (suc d)) m = dedup-runs (suc d) m

three_ways :
    (a b : Bool) (x y : Text)
    → let o = (if a then some x else if b then some y else none) in
      (o ≡ none) ⊎ ((o ≡ some x) ⊎ (o ≡ some y))
three_ways true b x y = inr (inl refl)
three_ways false true x y = inr (inr refl)
three_ways false false x y = inl refl

label_attribution-cases :
    (l : Text)
    → (label_attribution l ≡ none)
      ⊎ ((label_attribution l ≡ some maxmind_notice) ⊎ (label_attribution l ≡ some dbip_notice))
unfolding label_attribution
label_attribution-cases l = three_ways _ _ maxmind_notice dbip_notice

-- The sorted notices of some labels are so many of each kind.
abbrev Sorts : List Text → Type 0
Sorts ls =
    (d : ℕ) × (m : ℕ) × (sort (filter_map label_attribution ls) ≡ runs d m)
    × (any (owes dbip_notice) ls ≡ some_of d)
    × (any (owes maxmind_notice) ls ≡ some_of m)

filter_map-none :
    (l : Text) (ls : List Text)
    → label_attribution l ≡ none
    → filter_map label_attribution (l ∷ ls) ≡ filter_map label_attribution ls
filter_map-none l ls h = rw (h, filter_map) refl

filter_map-some :
    (l t : Text) (ls : List Text)
    → label_attribution l ≡ some t
    → filter_map label_attribution (l ∷ ls) ≡ t ∷ filter_map label_attribution ls
filter_map-some l t ls h = rw (h, filter_map) refl

owes-eq :
    (notice l : Text) (o : Option Text)
    → label_attribution l ≡ o
    → owes notice l ≡ option_eq o (some notice)
owes-eq notice l o h = ap (λ x. option_eq x (some notice)) h

sort-Sorts : (ls : List Text) → Sorts ls
unfolding sort
sort-Sorts [] = (zero, zero, refl, refl, refl)
sort-Sorts (l ∷ ls) =
    let (d, m, sorted, by_dbip, by_maxmind) = sort-Sorts ls in
    elim (label_attribution-cases l) [
      | inl nothing ↦ (
        d,
        m,
        ap sort (filter_map-none l ls nothing) ∙ sorted,
        ap (λ b. b || any (owes dbip_notice) ls) (owes-eq dbip_notice l none nothing) ∙ by_dbip,
        ap (λ b. b || any (owes maxmind_notice) ls) (owes-eq maxmind_notice l none nothing)
            ∙ by_maxmind,
      )
      | inr (inl x) ↦ (
        d,
        suc m,
        ap sort (filter_map-some l maxmind_notice ls x)
            ∙ ap (insert_sorted maxmind_notice) sorted
            ∙ insert_sorted-maxmind d m,
        ap (λ b. b || any (owes dbip_notice) ls) (owes-eq dbip_notice l _ x) ∙ by_dbip,
        ap (λ b. b || any (owes maxmind_notice) ls) (owes-eq maxmind_notice l _ x),
      )
      | inr (inr x) ↦ (
        suc d,
        m,
        ap sort (filter_map-some l dbip_notice ls x)
            ∙ ap (insert_sorted dbip_notice) sorted
            ∙ insert_sorted-dbip d m,
        ap (λ b. b || any (owes dbip_notice) ls) (owes-eq dbip_notice l _ x),
        ap (λ b. b || any (owes maxmind_notice) ls) (owes-eq maxmind_notice l _ x) ∙ by_maxmind,
      )
    ]

module _ {F : Type 0} where
  -- The notices are exactly those that some label of the pool asks for, a file name or the own type
  -- of a database: each once, that of DB-IP first.
  pub attributions-owed :
      (pool : GeoPool F)
      → attributions pool
        ≡ (if any (owes dbip_notice) (labels pool) then dbip_notice ∷ [] else [])
          ++ (if any (owes maxmind_notice) (labels pool) then maxmind_notice ∷ [] else [])
  unfolding attributions
  attributions-owed pool =
      let (d, m, sorted, by_dbip, by_maxmind) = sort-Sorts (labels pool) in
      ap dedup sorted
      ∙ dedup-runs d m
      ∙ ap (λ b. once b dbip_notice ++ once (some_of m) maxmind_notice) (sym by_dbip)
      ∙ ap (λ b. once (any (owes dbip_notice) (labels pool)) dbip_notice ++ once b maxmind_notice)
          (sym by_maxmind)
