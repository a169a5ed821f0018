-- ===== src/Classify/Ladder.antt =====
-- src/logic.rs: which names make which kind of network.
use proxpulse_judge.Base.{
  ℕ, Bool, true, false, ◌≡◌, ◌↔◌, ◌⊎◌, Option, [], if◌then◌else◌, unwrap_or, Text, is_empty, all,
  any, List, ◌∷◌, ◌++◌,
}
use proxpulse_judge.Str.Basic.{trim, to_ascii_lowercase}
use proxpulse_judge.Str.Find.{Alone, find_alone_complete, find_alone_sound}
use proxpulse_judge.Classify.Basic.{
  IpType, residential, mobile, datacenter, business, unknown, TypeSignals, contains_word,
  vendor_hit,
}

module _ (is_alphanumeric : ℕ → Bool) where
  -- A keyword of alphanumeric characters is found exactly where it stands in the text with no
  -- alphanumeric character beside it.
  pub contains_word_iff :
      (text word : Text)
      → is_empty (trim word) ≡ false
      → all is_alphanumeric (trim word) ≡ true
      → (contains_word is_alphanumeric text word ≡ true) ↔ Alone is_alphanumeric (trim word) text
  unfolding contains_word
  contains_word_iff text word filled letters = rw filled (
    find_alone_sound is_alphanumeric (trim word) text filled,
    find_alone_complete is_alphanumeric (trim word) text letters filled,
  )

-- The tests in the order of the early returns.
abbrev ladder : Bool → Bool → Bool → Bool → Bool → Bool → IpType
ladder fiber phone host firm home named =
    if fiber
    then residential
    else if phone
    then mobile
    else if host
    then datacenter
    else if firm
    then business
    else if home
    then residential
    else if named
    then residential
    else unknown

abbrev answers :
    Bool
    → Bool
    → Bool
    → Bool
    → Bool
    → Bool
    → TypeSignals
    → TypeSignals
    → TypeSignals
    → IpType × TypeSignals
answers a b c d e f s s' s'' =
    if a
    then (residential, s')
    else if b
    then (mobile, s)
    else if c
    then (datacenter, s)
    else if d
    then (business, s)
    else if e
    then (residential, s)
    else if f
    then (residential, s'')
    else (unknown, s)

-- When the tests, in the order of the early returns, make a network one of a kind.
abbrev pub IsOf : Bool → Bool → Bool → Bool → Bool → Bool → IpType → Type 0
IsOf fiber phone host firm home named residential =
    (fiber ≡ true)
    ⊎ ((phone ≡ false) × (host ≡ false) × (firm ≡ false) × ((home ≡ true) ⊎ (named ≡ true)))
IsOf fiber phone host firm home named mobile = (fiber ≡ false) × (phone ≡ true)
IsOf fiber phone host firm home named datacenter = (fiber ≡ false) × (phone ≡ false) × (host ≡ true)
IsOf fiber phone host firm home named business =
    (fiber ≡ false) × (phone ≡ false) × (host ≡ false) × (firm ≡ true)
IsOf fiber phone host firm home named unknown =
    (fiber ≡ false)
    × (phone ≡ false)
    × (host ≡ false)
    × (firm ≡ false)
    × (home ≡ false)
    × (named ≡ false)

module _ (is_alphanumeric : ℕ → Bool) where
  -- Whether one of the words stands in the text, whatever its case.
  unfoldable pub names : Text → List Text → Bool
  names text words = any (contains_word is_alphanumeric (to_ascii_lowercase text)) words

  unfoldable pub names_vendor : Text → List Text → Bool
  names_vendor org vendors = any (vendor_hit is_alphanumeric org) vendors

  abbrev pub both_names : Option Text → Option Text → Text
  both_names org rdns = unwrap_or org [] ++ (b' ' ∷ unwrap_or rdns [])
