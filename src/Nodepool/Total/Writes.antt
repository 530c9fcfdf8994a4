-- ===== src/Nodepool/Total/Writes.antt =====
-- internal/nodepool/nodepool_controller.go: the operations that change something do not panic on
-- complete pools.
use node_updater.Base.{String, Bool, true, Option, none, some, [], ◌∷◌}
use node_updater.World.{Services, Tried, returned, raised, deref, ◌>>=◌, pure}
use node_updater.Nodepool.Change.{
  cordon_nodes_by_agent_pool, create_temporary_node_pool, remove_temporary_node_pool,
  upgrade_outdated, create_copy, upgrade_node_image_version, cordon_node, start_upgrade,
}
use node_updater.Nodepool.Scaling.{
  send_scaling, set_default_scaling, conflict_ends, disable_pools, conflict_is_done,
  disable_auto_scaling, apply_change, disable_pool, apply_counts, set_ready_scaling,
  disable_properties, disable_ready, restore_scaling, send_disabled, still_updating,
}
use node_updater.Cluster.{AgentPool, PoolProperties, Error}
use node_updater.World.Calls.{get_pool, delete_pool, put_pool_call, update_node, upgrade_pool}
use node_updater.Base.Dict.{Dict}
use node_updater.Base.Int.{ℤ}
use node_updater.Nodepool.Total.{
  IsComplete, AllComplete, get_nodes_by_node_pool-Safe, get_node_image_versions-Safe,
  get_node_pool_upgrade_profile-Safe,
}
use node_updater.World.Total.{
  Safe, safe_rules, Safe-pure, Total-bind, Safe-throw, Total-range, Safe-bind, Trivial, Safe-if,
  Total-deref, Safe-attempt, Safe-on_error, Total-consult, Safe-call,
}

module _ (services : Services) where
  pub cordon_nodes_by_agent_pool-Safe :
      (pool : String) (cordoned : Bool) → Safe (cordon_nodes_by_agent_pool services pool cordoned)
  unfolding cordon_nodes_by_agent_pool cordon_node update_node
  cordon_nodes_by_agent_pool-Safe pool cordoned =
      search (get_nodes_by_node_pool-Safe, safe_rules) depth 16

  pub remove_temporary_node_pool-Safe :
      (name : String) → Safe (remove_temporary_node_pool services name)
  unfolding remove_temporary_node_pool delete_pool
  remove_temporary_node_pool-Safe name = search safe_rules

  create_copy-Safe :
      (new_name source : String) (p : Option PoolProperties)
      → Safe (create_copy services new_name source p)
  unfolding create_copy put_pool_call
  create_copy-Safe new_name source none = Safe-throw _
  create_copy-Safe new_name source (some p) = search safe_rules

  pub create_temporary_node_pool-Safe :
      (new_name source : String) → Safe (create_temporary_node_pool services new_name source)
  unfolding create_temporary_node_pool get_pool
  create_temporary_node_pool-Safe new_name source = search (create_copy-Safe, safe_rules)

  upgrade_outdated-Safe : (name : String) → Safe (upgrade_outdated services name)
  unfolding upgrade_outdated start_upgrade upgrade_pool
  upgrade_outdated-Safe name =
      search (get_node_image_versions-Safe, get_node_pool_upgrade_profile-Safe, safe_rules) depth 16

  pub upgrade_node_image_version-Safe :
      (pool : AgentPool) → IsComplete pool → Safe (upgrade_node_image_version services pool)
  unfolding upgrade_node_image_version
  upgrade_node_image_version-Safe pool c =
      Total-bind {V = Trivial} _ _ (Total-deref c.name c.named tt)
        (λ name _. Safe-if _ _ _ (Safe-pure tt) (upgrade_outdated-Safe name))

  conflict_ends-Safe : (name : String) (t : Tried (Unit {0})) → Safe (conflict_ends name t)
  unfolding conflict_ends
  conflict_ends-Safe name (returned u) = Safe-pure true
  conflict_ends-Safe name (raised e) = search safe_rules

  disable_pool-Safe : (pool : AgentPool) → IsComplete pool → Safe (disable_pool services pool)
  unfolding disable_pool disable_properties disable_ready send_disabled put_pool_call
  disable_pool-Safe pool c =
      let p = c.properties in
      let send : Safe (send_disabled services pool p) =
        Total-bind {V = Trivial} _ _ (Total-deref c.name c.named tt)
          (λ name _. Safe-bind _ _ (Safe-attempt _ (Safe-call _ _)) (conflict_ends-Safe name)) in
      let skip : Safe (deref {E = Error} pool.name >>= λ name. pure true) =
        Total-bind {V = Trivial} _ _ (Total-deref c.name c.named tt) (λ name _. Safe-pure true) in
      simp c.described (
        Safe-if _ _ _ skip (
          Safe-if _ _ _
            (Total-bind {V = Trivial} _ _ (Total-deref c.state c.provisioned tt)
              (λ state _. Safe-if _ _ _ skip send))
            send))

  disable_pools-Safe :
      (pools : Dict AgentPool) → AllComplete pools → Safe (disable_pools services pools)
  unfolding disable_pools
  disable_pools-Safe [] all = Safe-pure tt
  disable_pools-Safe ((key, pool) ∷ pools) all =
      let rest = disable_pools-Safe pools all.1 in
      Safe-bind _ _ (disable_pool-Safe pool all.0) (λ go_on. Safe-if go_on _ _ rest (Safe-pure tt))

  pub disable_auto_scaling-Safe :
      (pools : Dict AgentPool) → AllComplete pools → Safe (disable_auto_scaling services pools)
  unfolding disable_auto_scaling
  disable_auto_scaling-Safe pools all =
      Total-bind _ _ (Total-range (λ entry. IsComplete entry.1) services pools all)
        disable_pools-Safe

  conflict_is_done-Safe : (name : String) (t : Tried (Unit {0})) → Safe (conflict_is_done name t)
  unfolding conflict_is_done
  conflict_is_done-Safe name (returned u) = Safe-pure tt
  conflict_is_done-Safe name (raised e) = search safe_rules

  send_scaling-Safe :
      (pool : AgentPool) (name : String) (p : Option PoolProperties)
      → Safe (send_scaling services pool name p)
  unfolding send_scaling put_pool_call
  send_scaling-Safe pool name p = search (conflict_is_done-Safe, safe_rules)

  apply_change-Safe :
      (pool : AgentPool) (name : String) (p : Option PoolProperties)
      → Safe (apply_change services pool name p)
  unfolding apply_change
  apply_change-Safe pool name none = Safe-pure tt
  apply_change-Safe pool name (some p) = send_scaling-Safe pool name (some p)

  apply_counts-Safe :
      (pool : AgentPool) (name : String) (lo hi n : Option ℤ)
      → IsComplete pool
      → Safe (apply_counts services pool name lo hi n)
  unfolding apply_counts
  apply_counts-Safe pool name (some lo) (some hi) n c =
      Total-bind {V = Trivial} _ _ (Total-deref c.properties c.described tt)
        (λ p _. apply_change-Safe pool name _)
  apply_counts-Safe pool name none hi (some n) c =
      Total-bind {V = Trivial} _ _ (Total-deref c.properties c.described tt)
        (λ p _. apply_change-Safe pool name _)
  apply_counts-Safe pool name (some lo) none (some n) c =
      Total-bind {V = Trivial} _ _ (Total-deref c.properties c.described tt)
        (λ p _. apply_change-Safe pool name _)
  apply_counts-Safe pool name none hi none c = send_scaling-Safe pool name pool.properties
  apply_counts-Safe pool name (some lo) none none c = send_scaling-Safe pool name pool.properties

  pub set_default_scaling-Safe :
      (pool : AgentPool) (text : String)
      → IsComplete pool
      → Safe (set_default_scaling services pool text)
  unfolding set_default_scaling set_ready_scaling restore_scaling still_updating
  set_default_scaling-Safe pool text c =
      let apply : Safe (restore_scaling services pool text) =
        Total-bind {V = Trivial} _ _ (Total-deref c.name c.named tt) (λ name _.
          Safe-bind _ _ (Safe-on_error _ _ (Total-consult _))
            (λ counts. apply_counts-Safe pool name _ _ _ c)) in
      simp c.described (
        Safe-if _ _ _
          (Total-bind {V = Trivial} _ _ (Total-deref c.state c.provisioned tt) (λ state _.
            Safe-if _ _ _
              (Total-bind {V = Trivial} _ _ (Total-deref c.name c.named tt)
                (λ name _. Safe-throw _))
              apply))
          apply)
