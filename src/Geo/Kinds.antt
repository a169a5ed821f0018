-- ===== src/Geo/Kinds.antt =====
-- src/geo.rs: the kinds of the databases that `GeoPool::open` takes.
use proxpulse_judge.Base.{
  true, ◌≡◌, refl, inl, inr, Option, none, some, List, [], ◌∷◌, if◌then◌else◌, Text, codes,
  Bool-cases,
}
use proxpulse_judge.Str.Basic.{contains_text, to_ascii_lowercase}
use proxpulse_judge.Geo.Pool.{Reader}
use proxpulse_judge.Geo.Open.{
  Directory, city_candidates, country_candidates, asn_candidates, pattern_of, first_reader,
  candidates_in, open_first, open_pool, reader_of,
}

module _ {F : Type 0} where
  -- A database that was taken is what some file of the directory holds, and its own type, in lower
  -- case, has the word of the kind in it.
  abbrev pub HasKind : Directory F → Text → Option (Reader F) → Type 0
  HasKind dir pat none = Unit
  HasKind dir pat (some r) =
      (name : Text) × (dir.open_readfile name ≡ some r)
      × (contains_text pat (to_ascii_lowercase r.database_type) ≡ true)

  pick :
      (dir : Directory F) (pat name : Text) (o : Option (Reader F))
      (later : Option (Reader F × Text))
      → dir.open_readfile name ≡ o
      → HasKind dir pat (reader_of later)
      → HasKind dir pat (
          reader_of (elim o [
            | none ↦ later
            | some r ↦
                if contains_text pat (to_ascii_lowercase r.database_type)
                then some (r, name)
                else later
          ]))
  pick dir pat name none later e h = h
  pick dir pat name (some r) later e h =
      elim (Bool-cases (contains_text pat (to_ascii_lowercase r.database_type))) [
        | inl has ↦ rw has (name, e, has)
        | inr lacks ↦ rw lacks h
      ]

  first_reader-HasKind :
      (dir : Directory F) (pat : Text) (names : List Text)
      → HasKind dir pat (reader_of (first_reader dir pat names))
  unfolding first_reader
  first_reader-HasKind dir pat [] = tt
  first_reader-HasKind dir pat (name ∷ names) =
      pick dir pat name (dir.open_readfile name) (first_reader dir pat names) refl
        (first_reader-HasKind dir pat names)

  -- Whatever the directory holds and however its files are named, the city database of a pool is one
  -- whose own type says city, the country database one that says country, and that of networks one
  -- that says asn.
  pub open_pool-HasKind :
      (dir : Directory F)
      → HasKind dir (codes "city") (open_pool dir).city
        × HasKind dir (codes "country") (open_pool dir).country
        × HasKind dir (codes "asn") (open_pool dir).asn
  unfolding open_pool open_first pattern_of
  open_pool-HasKind dir = (
    first_reader-HasKind dir (codes "city") (candidates_in dir (codes "city") city_candidates),
    first_reader-HasKind dir (codes "country")
        (candidates_in dir (codes "country") country_candidates),
    first_reader-HasKind dir (codes "asn") (candidates_in dir (codes "asn") asn_candidates),
  )
