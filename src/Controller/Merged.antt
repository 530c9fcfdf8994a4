-- ===== src/Controller/Merged.antt =====
-- internal/controller/safeevict_controller.go: when the merged map of pools is not empty.
use node_updater.Base.{
  [], ◌∷◌, shuffle, String, ℕ, ◌≡◌, List, false, some, insert_at, arith, suc, refl, zero,
}
use node_updater.Base.Dict.{lookup-insert, Dict, lookup, insert}
use node_updater.Controller.Defs.{merge, is_empty}
use node_updater.Cluster.{AgentPool}

pub lookup-nonempty :
    {A : Type 0} (name : String) (m : Dict A) (a : A) → lookup name m ≡ some a → is_empty m ≡ false
unfolding lookup
lookup-nonempty name [] a e = absurd (ground arith)
lookup-nonempty name (x ∷ m) a e = refl

insert-nonempty : {A : Type 0} (k : String) (a : A) (m : Dict A) → is_empty (insert k a m) ≡ false
insert-nonempty k a m =
    lookup-nonempty k (insert k a m) a (let e = lookup-insert k k a m in ground arith)

pub merge-kept : (es m : Dict AgentPool) → is_empty m ≡ false → is_empty (merge es m) ≡ false
unfolding merge
merge-kept [] m e = e
merge-kept ((k, p) ∷ es) m e = merge-kept es (insert k p m) (insert-nonempty k p m)

pub merge-nonempty : (es m : Dict AgentPool) → is_empty es ≡ false → is_empty (merge es m) ≡ false
unfolding merge
merge-nonempty [] m e = absurd (ground arith)
merge-nonempty ((k, p) ∷ es) m e = merge-kept es (insert k p m) (insert-nonempty k p m)

insert_at-nonempty :
    {A : Type 0} (i : ℕ) (x : A) (xs : List A) → is_empty (insert_at i x xs) ≡ false
insert_at-nonempty i x [] = refl
insert_at-nonempty zero x (y ∷ xs) = refl
insert_at-nonempty (suc i) x (y ∷ xs) = refl

pub shuffle-nonempty :
    {A : Type 0} (picks : ℕ → ℕ) (xs : List A)
    → is_empty xs ≡ false
    → is_empty (shuffle picks xs) ≡ false
unfolding shuffle
shuffle-nonempty picks [] e = e
shuffle-nonempty picks (x ∷ xs) e = insert_at-nonempty (picks 0) x _
