-- ===== src/Controller/Total/Parts.antt =====
-- internal/controller/safeevict_controller.go: the helpers of the stages do not panic.
use node_updater.World.{◌>>=◌, deref, pure}
use node_updater.Base.{String, ◌≡◌, refl, Option, none, some, List, [], ◌∷◌, if◌then◌else◌, ◌||◌}
use node_updater.Controller.Defs.{merge, SafeEvictReconciler, Reconciled, range_text, count_text}
use node_updater.Controller.Stages.{found_temporary, scaling_text}
use node_updater.World.{Tried, returned, raised}
use node_updater.Base.Int.{ℤ}
use node_updater.Cluster.{AgentPool}
use node_updater.Nodepool.Total.{HasCounts, IsComplete, IsFound, AllComplete}
use node_updater.Base.Dict.{Dict, insert, All-insert}
use node_updater.World.Total.{
  Safe, Total-bind, Total, Safe-pure, Total-deref, Total-pure, Trivial, Total-throw,
}
use node_updater.Nodepool.Scaling.{is_set}

scaling_text-counts :
    (lo hi n : Option ℤ)
    → HasCounts lo hi n
    → Safe {E = Reconciled} (
        if is_set lo || is_set hi
        then (do min ← deref lo; max ← deref hi; pure (range_text min max))
        else (do count ← deref n; pure (count_text count)))
scaling_text-counts (some lo) (some hi) n c =
    Total-bind {V = Trivial} _ _ (Total-deref lo refl tt)
      (λ min _. Total-bind {V = Trivial} _ _ (Total-deref hi refl tt) (λ max _. Safe-pure _))
scaling_text-counts none none (some n) c =
    Total-bind {V = Trivial} _ _ (Total-deref n refl tt) (λ count _. Safe-pure _)
scaling_text-counts (some lo) none n c = elim c [ ]
scaling_text-counts none (some hi) n c = elim c [ ]
scaling_text-counts none none none c = elim c [ ]

pub scaling_text-Safe : (pool : AgentPool) → IsComplete pool → Safe (scaling_text pool)
unfolding scaling_text
scaling_text-Safe pool c =
    let p = c.properties in
    Total-bind {V = λ q. q ≡ p} _ _ (Total-deref p c.described refl)
      (λ q e. simp e (scaling_text-counts p.min_count p.max_count p.count c.counts))

pub found_temporary-Total :
    (c : SafeEvictReconciler) (t : Tried AgentPool)
    → IsFound t
    → Total IsComplete (found_temporary c t)
unfolding found_temporary
found_temporary-Total c (returned pool) complete = Total-pure pool complete
found_temporary-Total c (raised e) foreign = rw foreign (Total-throw _)

pub merge-AllComplete :
    (pools : List (String × AgentPool)) (m : Dict AgentPool)
    → AllComplete pools
    → AllComplete m
    → AllComplete (merge pools m)
unfolding merge
merge-AllComplete [] m new old = old
merge-AllComplete ((name, pool) ∷ pools) m new old =
    merge-AllComplete pools (insert name pool m) new.1
      (All-insert (λ entry. IsComplete entry.1) name pool m new.0 old)
