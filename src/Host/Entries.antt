-- ===== src/Host/Entries.antt =====
-- src/logic.rs, src/app.rs: the entries that `split_xff` finds, and joining them again.
use proxpulse_judge.Base.{
  false, not, ◌≡◌, ◌≢◌, refl, Option, none, some, List, [], ◌∷◌, ◌++◌, append_assoc, map, Text, any,
  is_empty, retain, Bool-cases, codes, All, inl, inr,
}
use mathlib.Core.List.{map-append}
use proxpulse_judge.Str.Basic.{trim, split, push_char, join}
use proxpulse_judge.Str.Laws.{
  split-ne-nil, split-append, split_whole, split-lacks, retain-append, trim-any, trim_idem,
  trim-space,
}
use proxpulse_judge.Host.Basic.{split_xff, comma}

-- Trimmed, not empty, and with no comma.
pub record IsEntry (e : Text) : Type 0 where
  pub trimmed : trim e ≡ e
  pub filled : is_empty e ≡ false
  pub whole : any comma e ≡ false

entries : List Text → List Text
entries ts = retain (λ p. not (is_empty p)) (map trim ts)

entries-IsEntry : (ts : List Text) → All (λ t. any comma t ≡ false) ts → All IsEntry (entries ts)
unfolding entries
entries-IsEntry [] h = tt
entries-IsEntry (t ∷ ts) (h, hs) = elim (Bool-cases (is_empty (trim t))) [
  | inl e ↦ rw e (entries-IsEntry ts hs)
  | inr e ↦ rw e (
    record { trimmed = trim_idem t; filled = e; whole = trim-any comma t h },
    entries-IsEntry ts hs,
  )
]

-- What `split_xff` finds are entries.
pub split_xff-IsEntry : (v : Option Text) → All IsEntry (split_xff v)
unfolding split_xff entries
split_xff-IsEntry none = tt
split_xff-IsEntry (some v) = entries-IsEntry (split comma v) (split-lacks comma v)

-- Entries that are added behind a comma come last.
pub split_xff-append :
    (a b : Text) → split_xff (some (a ++ (b',' ∷ b))) ≡ split_xff (some a) ++ split_xff (some b)
unfolding split_xff
split_xff-append a b = rw (split-append comma a b b',' refl) (simp (map-append, retain-append))

push_space : (l : List Text) → l ≢ [] → entries (push_char b' ' l) ≡ entries l
unfolding entries push_char
push_space [] h = absurd (h refl)
push_space (t ∷ l) h = rw (trim-space t)

pub split_xff-space : (s : Text) → split_xff (some (b' ' ∷ s)) ≡ split_xff (some s)
unfolding split_xff split
split_xff-space s = unfold entries in push_space (split comma s) (split-ne-nil comma s)

pub split_xff-entry : (e : Text) → IsEntry e → split_xff (some e) ≡ e ∷ []
unfolding split_xff
split_xff-entry e h = rw (split_whole comma e h.whole) (rw h.trimmed (rw h.filled refl))

-- Entries that are joined are found again.
pub split_xff-join :
    (es : List Text) → All IsEntry es → split_xff (some (join (codes ", ") es)) ≡ es
unfolding join
split_xff-join [] h = unfold split_xff split in refl
split_xff-join (e ∷ []) (h, _) = split_xff-entry e h
split_xff-join (e ∷ f ∷ es) (h, hs) =
    rw append_assoc (
      rw (split_xff-append e, split_xff-space, split_xff-entry e h, split_xff-join (f ∷ es) hs)
        refl)
