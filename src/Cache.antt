-- ===== src/Cache.antt =====
-- `moka::sync::Cache`, which the program only calls: a parameter of the model. An entry may be
-- dropped at any time, by its age or by the capacity, so a look-up after a write finds the value
-- that was written last or nothing.
use proxpulse_judge.Base.{
  ◌≡◌, ◌⊎◌, inr, Option, none, some, [], Text, text_eq, text_eq_iff, if◌then◌else◌, arith,
}
use proxpulse_judge.Dict
use proxpulse_judge.Dict.{Dict, get-nil, get-insert}

pub record Cache (V : Type 0) : Type 1 where
  pub Store : Type 0
  pub empty : Store
  pub get : Store → Text → Option V
  pub insert : Store → Text → V → Store
  -- the cached value, or the given one, which is stored
  pub get_with : Store → Text → V → V × Store
  pub get-empty : (k : Text) → get empty k ≡ none
  pub insert_lem :
      (s : Store) (k j : Text) (v : V)
      → (get (insert s k v) j ≡ none)
        ⊎ (get (insert s k v) j ≡ (if text_eq k j then some v else get s j))
  pub get_with_hit : (s : Store) (k : Text) (v d : V) → get s k ≡ some v → (get_with s k d).0 ≡ v
  pub get_with_miss : (s : Store) (k : Text) (d : V) → get s k ≡ none → (get_with s k d).0 ≡ d
  pub get_with_lem :
      (s : Store) (k j : Text) (d : V)
      → (get (get_with s k d).1 j ≡ none)
        ⊎ (get (get_with s k d).1 j ≡ (if text_eq k j then some (get_with s k d).0 else get s j))

-- A cache that drops nothing.
unfoldable pub get_with_dict : {V : Type 0} → Dict V → Text → V → V × Dict V
unfolding Dict.get Dict.insert
get_with_dict m k d = elim (Dict.get m k) [ some v ↦ (v, m) | none ↦ (d, Dict.insert m k d) ]

module _ {V : Type 0} where
  pub get_with_dict_hit :
      (m : Dict V) (k : Text) (v d : V) → Dict.get m k ≡ some v → (get_with_dict m k d).0 ≡ v
  unfolding get_with_dict
  get_with_dict_hit m k v d h = rw (h, get_with_dict)

  pub get_with_dict_miss :
      (m : Dict V) (k : Text) (d : V) → Dict.get m k ≡ none → (get_with_dict m k d).0 ≡ d
  unfolding get_with_dict
  get_with_dict_miss m k d h = rw (h, get_with_dict)

  pub get_with_dict_after :
      (m : Dict V) (k j : Text) (d : V)
      → Dict.get (get_with_dict m k d).1 j
        ≡ (if text_eq k j then some (get_with_dict m k d).0 else Dict.get m j)
  unfolding get_with_dict
  get_with_dict_after m k j d = ground (arith, get-insert m k j d, text_eq_iff k j)

unfoldable pub keep_all : (V : Type 0) → Cache V
unfolding get_with_dict
keep_all V = record {
  Store = Dict V;
  empty = [];
  get = Dict.get;
  insert = Dict.insert;
  get_with = get_with_dict;
  get-empty = get-nil;
  insert_lem = λ s k j v. inr (get-insert s k j v);
  get_with_hit = get_with_dict_hit;
  get_with_miss = get_with_dict_miss;
  get_with_lem = λ s k j d. inr (get_with_dict_after s k j d);
}

-- The cache below its capacity, before an entry has been idle for too long: `get_with` drops nothing.
abbrev pub Keeps : {V : Type 0} → Cache V → Type 0
Keeps {V = V} C =
    (s : Cache.Store C) (k j : Text) (d : V)
    → Cache.get C (Cache.get_with C s k d).1 j
      ≡ (if text_eq k j then some (Cache.get_with C s k d).0 else Cache.get C s j)

pub keep_all-Keeps : (V : Type 0) → Keeps (keep_all V)
unfolding keep_all
keep_all-Keeps V = get_with_dict_after
