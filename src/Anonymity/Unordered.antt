-- ===== src/Anonymity/Unordered.antt =====
-- src/logic.rs: the `HashMap` of headers as the program sees it, without an order of its entries.
use mathlib.Core.Quot
use mathlib.Core.Quot.{Quot, Quot-set}
use native.Mathlib.Nat.{ℕ_set}
use proxpulse_judge.Base.{
  Bool, false, ◌≡◌, refl, ap, ◌∙◌, sym, Option, some, arith, if◌then◌else◌, Text, text_eq,
  text_eq_iff,
}
use proxpulse_judge.Dict.{Dict, get, insert, HasUniqueKeys, get-insert}
use proxpulse_judge.Dict.Same.{SameEntries}
use proxpulse_judge.Dict.Unique.{insert-HasUniqueKeys}
use proxpulse_judge.Anonymity.Basic.{Level, anonymity_level}
use proxpulse_judge.Anonymity.Order.{anonymity_level-SameEntries}

-- An association list with each key once.
abbrev Headers : Type 0
Headers = (m : Dict Text) × HasUniqueKeys m

-- Header maps up to the order of their entries.
abbrev HeaderSet : Type 0
HeaderSet = Quot {α = Headers} (λ a b. SameEntries a.0 b.0)

Level-IsSet : IsSet Level
Level-IsSet = hlevel

Value-IsSet : IsSet (Option Text)
Value-IsSet = hlevel ℕ_set

unfoldable find : Text → HeaderSet → Option Text
find k = Quot.lift Value-IsSet (λ a. get a.0 k) (λ a b e. e k)

SameEntries-insert :
    (m n : Dict Text) (k v : Text) → SameEntries m n → SameEntries (insert m k v) (insert n k v)
SameEntries-insert m n k v e j =
    get-insert m k j v
    ∙ ap (λ (o : Option Text). if text_eq k j then some v else o) (e j)
    ∙ sym (get-insert n k j v)

unfoldable put : Text → Text → HeaderSet → HeaderSet
put k v =
    Quot.lift Quot-set (λ a. Quot.mk (insert a.0 k v, insert-HasUniqueKeys a.0 k v a.1))
      (λ a b e. Quot.sound (SameEntries-insert a.0 b.0 k v e))

unfoldable level_of : Option Text → Bool → HeaderSet → Level
level_of direct_ip trust_cf =
    Quot.lift Level-IsSet (λ a. anonymity_level a.0 direct_ip trust_cf)
      (λ a b e. anonymity_level-SameEntries a.0 b.0 direct_ip trust_cf a.1 b.1 e)

find-put :
    (k j v : Text) (h : HeaderSet) → find j (put k v h) ≡ (if text_eq k j then some v else find j h)
unfolding find put
find-put k j v = Quot.ind (λ h. Value-IsSet _ _) (λ a. get-insert a.0 k j v)

swap_get :
    (m : Dict Text) (k j v w i : Text)
    → text_eq k j ≡ false
    → get (insert (insert m j w) k v) i ≡ get (insert (insert m k v) j w) i
swap_get m k j v w i apart =
    get-insert (insert m j w) k i v
    ∙ ap (λ (o : Option Text). if text_eq k i then some v else o) (get-insert m j i w)
    ∙ swap_tests (get m i)
    ∙ ap (λ (o : Option Text). if text_eq j i then some w else o) (sym (get-insert m k i v))
    ∙ sym (get-insert (insert m k v) j i w)
  where
    swap_tests :
        (o : Option Text)
        → (if text_eq k i then some v else (if text_eq j i then some w else o))
          ≡ (if text_eq j i then some w else (if text_eq k i then some v else o))
    swap_tests o = ground (arith, text_eq_iff k i, text_eq_iff j i, text_eq_iff k j, apart)

-- Two headers of different names can be put in either order.
put_comm :
    (k j v w : Text)
    → text_eq k j ≡ false
    → (h : HeaderSet) → put k v (put j w h) ≡ put j w (put k v h)
unfolding put
put_comm k j v w apart =
    Quot.ind (λ h. Quot-set _ _) (λ a. Quot.sound (λ i. swap_get a.0 k j v w i apart))

-- What a request is found to be does not depend on which of its headers was put in first.
level_of-put_comm :
    (direct_ip : Option Text) (trust_cf : Bool) (k j v w : Text) (h : HeaderSet)
    → text_eq k j ≡ false
    → level_of direct_ip trust_cf (put k v (put j w h))
      ≡ level_of direct_ip trust_cf (put j w (put k v h))
level_of-put_comm direct_ip trust_cf k j v w h apart =
    ap (level_of direct_ip trust_cf) (put_comm k j v w apart h)

-- On a map it is the level of the program.
level_of-mk :
    (a : Headers) (direct_ip : Option Text) (trust_cf : Bool)
    → level_of direct_ip trust_cf (Quot.mk a) ≡ anonymity_level a.0 direct_ip trust_cf
unfolding level_of
level_of-mk a direct_ip trust_cf = refl
