-- ===== src/Nodepool/Unready.antt =====
-- internal/nodepool/nodepool_controller.go: which pools `GetNotReadyNodePools` returns.
use node_updater.Cluster.{AgentPool}
use node_updater.Nodepool.{add_unready, provisioning_state, get_not_ready_node_pools, check_ready}
use node_updater.World.{Services, History, answered, ok}
use node_updater.Base.{
  Bool, String, ◌≡◌, if◌then◌else◌, ◌==◌, ◌&&◌, List, contains, some, none, Option, arith, false,
  ◌∷◌, [], ◌!=◌, ap, All-of-In, All, All-map,
}
use node_updater.Base.Dict.{Dict, lookup, lookup-insert}
use node_updater.World.Gives.{fold_left}
use node_updater.Nodepool.Answers.{pool-Finds}
use node_updater.World.Finds.{Finds, Finds-after, Finds-on_error, Finds-pure}
use node_updater.World.Yields.{Yields, Yields-found, Finds-fold_left}
use node_updater.World.Trace.{Reading}

-- The state of the pool is known, and is not the final one.
abbrev pub is_unready : AgentPool → Bool
is_unready pool = elim (provisioning_state pool) [
  | none ↦ false
  | some state ↦ state != "Succeeded"
]

lookup-add_unready :
    (p : String) (pool : AgentPool) (m : Dict AgentPool) (name : String)
    → lookup name (add_unready p pool (provisioning_state pool) m)
      ≡ (if p == name && is_unready pool then some pool else lookup name m)
unfolding add_unready
lookup-add_unready p pool m name = go (provisioning_state pool)
  where
    go :
        (s : Option String)
        → lookup name (add_unready p pool s m) ≡ (
            if p == name && elim s [ none ↦ false | some state ↦ state != "Succeeded" ]
            then some pool
            else lookup name m)
    go none = ground arith
    go (some state) = let inserted = lookup-insert p name pool m in ground (arith, inserted)

-- The map of `GetNotReadyNodePools`, where the answers are these.
module _ (pool_of : String → AgentPool) where
  abbrev round : Dict AgentPool → String → Dict AgentPool
  round m name = add_unready name (pool_of name) (provisioning_state (pool_of name)) m

  lookup-rounds :
      (pools : List String) (m : Dict AgentPool) (name : String)
      → lookup name (fold_left round m pools) ≡ (
          if contains pools name && is_unready (pool_of name)
          then some (pool_of name)
          else lookup name m)
  unfolding fold_left contains
  lookup-rounds [] m name = ground arith
  lookup-rounds (p ∷ pools) m name =
      let ih = lookup-rounds pools (round m p) name in
      let step = lookup-add_unready p (pool_of p) m name in ground (arith, ih, step)

  -- A map that has just the pools of the list that are not ready.
  abbrev pub IsNotReady : List String → Dict AgentPool → Type 0
  IsNotReady pools m =
      (name : String)
      → lookup name m
        ≡ (if contains pools name && is_unready (pool_of name) then some (pool_of name) else none)

module _ (services : Services) (pool_of : String → AgentPool) where
  round-Finds :
      (m : Dict AgentPool) (name : String)
      → ((h : History) → services.get_pool h name ≡ answered (pool_of name))
      → Finds Reading (check_ready services m name) (some (round pool_of m name))
  unfolding check_ready
  round-Finds m name read =
      Finds-after _ (Finds-on_error _ (pool-Finds services name _ read)) (Finds-pure _)

  -- The pools need to be answered for the names of the list only.
  pub get_not_ready_node_pools-Yields :
      (pools : List String)
      → All (λ name. (h : History) → services.get_pool h name ≡ answered (pool_of name)) pools
      → Yields Reading (get_not_ready_node_pools services pools) (IsNotReady pool_of pools)
  unfolding get_not_ready_node_pools lookup
  get_not_ready_node_pools-Yields pools read =
      Yields-found _
        (Finds-fold_left (round pool_of) _ pools
          (All-map _ pools (λ name known m. round-Finds m name known) read) [])
        (lookup-rounds pool_of pools [])

  module _
      (read : (h : History) (name : String)
        → services.get_pool h name ≡ answered (pool_of name)) where
    -- If each pool is answered the same at any time, `GetNotReadyNodePools` returns a map that has, of
    -- the pools that it is asked about, those whose provisioning state is known and not "Succeeded",
    -- each as it was answered, and no other key.
    pub get_not_ready_node_pools_lem :
        (pools : List String) (h : History)
        → (m : Dict AgentPool) × ((get_not_ready_node_pools services pools h).0 ≡ ok m)
          × ((name : String)
              → lookup name m ≡ (
                  if contains pools name && is_unready (pool_of name)
                  then some (pool_of name)
                  else none))
    get_not_ready_node_pools_lem pools h =
        let known = All-of-In _ pools (λ name m h1. read h1 name) in
        let (m, h', e, due, g) = (get_not_ready_node_pools-Yields pools known).at h in
        (m, ap (λ o. o.0) e, due)
