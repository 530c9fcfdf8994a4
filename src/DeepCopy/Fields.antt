-- ===== src/DeepCopy/Fields.antt =====
-- Maps and slices are copied entry by entry and element by element.
use mathlib.Core.Logic.{if_pos, if_neg}
use node_updater.Base.{
  ℕ, zero, suc, refl, String, ◌≡◌, List, none, ◌∷◌, insert_at, ap, [], shuffle, string_dec, arith,
  Option, some, ◌∙◌, subst,
}
use node_updater.Base.Dict.{lookup, insert, Dict, lookup-insert}
use node_updater.DeepCopy.{copied, blanks, entered}

pub copied-blanks : (xs : List String) → copied (blanks xs) xs ≡ xs
unfolding copied blanks
copied-blanks [] = refl
copied-blanks (x ∷ xs) = ap (λ ys. x ∷ ys) (copied-blanks xs)

-- No key stands twice.
abbrev pub IsGoMap : Dict String → Type 0
IsGoMap [] = Unit
IsGoMap ((k, v) ∷ m) = (lookup k m ≡ none) × IsGoMap m

lookup-insert_at :
    (i : ℕ) (e : String × String) (m : Dict String) (k : String)
    → lookup e.0 m ≡ none
    → lookup k (insert_at i e m) ≡ lookup k (e ∷ m)
unfolding lookup
lookup-insert_at i e [] k new = refl
lookup-insert_at zero e (x ∷ m) k new = refl
lookup-insert_at (suc i) (j, v) ((k', w) ∷ m) k new =
    let step = lookup-insert_at i (j, v) m k (ground arith) in ground arith

IsGoMap-insert_at :
    (i : ℕ) (e : String × String) (m : Dict String)
    → lookup e.0 m ≡ none
    → IsGoMap m
    → IsGoMap (insert_at i e m)
unfolding lookup
IsGoMap-insert_at i e [] new good = (new, good)
IsGoMap-insert_at zero e (x ∷ m) new good = (new, good)
IsGoMap-insert_at (suc i) (j, v) ((k, w) ∷ m) new good =
    let step = lookup-insert_at i (j, v) m k (ground arith) in
    (ground arith, IsGoMap-insert_at i (j, v) m (ground arith) good.1)

lookup-shuffle :
    (picks : ℕ → ℕ) (m : Dict String)
    → IsGoMap m
    → (k : String) → lookup k (shuffle picks m) ≡ lookup k m
unfolding shuffle lookup
lookup-shuffle picks [] good k = refl
lookup-shuffle picks ((j, v) ∷ m) good k =
    let rest = lookup-shuffle (λ i. picks (suc i)) m good.1 in
    let step =
      lookup-insert_at (picks 0) (j, v) (shuffle (λ i. picks (suc i)) m) k (rest j ∙ good.0) in
    let other = rest k in ground arith

IsGoMap-shuffle : (picks : ℕ → ℕ) (m : Dict String) → IsGoMap m → IsGoMap (shuffle picks m)
unfolding shuffle
IsGoMap-shuffle picks [] good = tt
IsGoMap-shuffle picks ((j, v) ∷ m) good =
    IsGoMap-insert_at (picks 0) (j, v) (shuffle (λ i. picks (suc i)) m)
      (lookup-shuffle (λ i. picks (suc i)) m good.1 j ∙ good.0)
      (IsGoMap-shuffle (λ i. picks (suc i)) m good.1)

abbrev first_of : Option String → Option String → Option String
first_of none b = b
first_of (some a) b = some a

lookup-entered :
    (es out : Dict String) (k : String)
    → IsGoMap es
    → lookup k (entered es out) ≡ first_of (lookup k es) (lookup k out)
unfolding entered lookup
lookup-entered [] out k good = refl
lookup-entered ((j, v) ∷ es) out k good =
    let rest = lookup-entered es (insert j v out) k good.1 in
    let new = lookup-insert j k v out in let alone = good.0 in ground arith

IsGoMap-insert : (k v : String) (m : Dict String) → IsGoMap m → IsGoMap (insert k v m)
unfolding insert lookup
IsGoMap-insert k v [] good = (refl, tt)
IsGoMap-insert k v ((j, w) ∷ m) good = elim (string_dec j k) [
  | yes e ↦ rw (if_pos _ e) (subst (λ x. lookup x m ≡ none) e good.0, good.1)
  | no e ↦
      rw (if_neg _ e)
        (let new = lookup-insert k j v m in (ground arith, IsGoMap-insert k v m good.1))
]

IsGoMap-entered : (es out : Dict String) → IsGoMap out → IsGoMap (entered es out)
unfolding entered
IsGoMap-entered [] out good = good
IsGoMap-entered ((j, v) ∷ es) out good =
    IsGoMap-entered es (insert j v out) (IsGoMap-insert j v out good)

-- The copy of a map has the same entries, whatever the order of the visits.
pub lookup-copy :
    (picks : ℕ → ℕ) (m : Dict String)
    → IsGoMap m
    → (k : String) → lookup k (entered (shuffle picks m) []) ≡ lookup k m
unfolding lookup
lookup-copy picks m good k =
    let visited = lookup-entered (shuffle picks m) [] k (IsGoMap-shuffle picks m good) in
    let same = lookup-shuffle picks m good k in ground arith

pub IsGoMap-copy : (picks : ℕ → ℕ) (m : Dict String) → IsGoMap (entered (shuffle picks m) [])
IsGoMap-copy picks m = IsGoMap-entered (shuffle picks m) [] tt
