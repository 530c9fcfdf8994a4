-- ===== src/Controller/Total.antt =====
-- internal/controller/safeevict_controller.go: a run returns, and does not panic, if Azure describes
-- pools in full.
pub mod Parts
use node_updater.World.{◌>>=◌, deref, pure, Outcome, History, ok, err, panic}
use node_updater.Base.{
  String, ◌≡◌, refl, Bool, true, false, Option, none, some, List, [], ◌∷◌, if◌then◌else◌, ◌||◌,
}
use node_updater.Controller.Defs.{
  merge, SafeEvictReconciler, perform_safe_eviction, evict_from_pool, Reconciled, range_text,
  count_text, settled,
}
use node_updater.Controller.Stages.{
  found_temporary, scaling_text, ensure_temporary_pool, await_temporary_pool, create_scaling,
  saved_scaling, add_scaling_text, saved_or_created, uncordon, clean_up, upgrade_drained,
  restore_pool, restore_up_to_date, empty_and_remove, upgrade_pool_of, remove_resources,
}
use node_updater.World.{Services, Tried, returned, raised}
use node_updater.Base.Int.{ℤ}
use node_updater.Cluster.{AgentPool, SafeEvict}
use node_updater.Nodepool.Total.{
  HasCounts, IsComplete, IsFound, AllComplete, get_node_pool_provisioning_state-Safe,
  get_nodes_by_node_pool-Safe, IsAzure, has_running_stateful_pods-Safe, get_node_pool_by_name-Total,
  get_node_pool_by_name-IsFound, update_needed-Total, get_not_ready_node_pools-Total,
  node_pool_exists-Safe,
}
use node_updater.Base.Dict.{Dict, insert, All-insert}
use node_updater.World.Total.{
  Safe, Total-bind, Total, Safe-pure, Total-deref, Safe-bind, Total-range, Total-fold_each,
  Safe-on_error, Safe-range, Total-pure, Trivial, Safe-for_each, Safe-if, Safe-attempt, Total-throw,
  Safe-throw, Ends, Total-on_error, Safe-call,
}
use node_updater.Nodepool.Scaling.{is_set}
use node_updater.Nodepool.Total.Writes.{
  disable_auto_scaling-Safe, cordon_nodes_by_agent_pool-Safe, create_temporary_node_pool-Safe,
  remove_temporary_node_pool-Safe, set_default_scaling-Safe, upgrade_node_image_version-Safe,
}
use node_updater.Configmap.Safe.{
  delete_config_map-Safe, create_config_map-Safe, get_config_map_data-Safe,
}
use node_updater.Pods.Safe.{get_safe_to_evict_pods-Safe, evict_idle_pods-Safe}
use node_updater.Controller.Loop.{
  update_pools, reconcile_found, reconcile, reconcile_outdated, reconcile_body, ignore_not_found,
}
use node_updater.World.Early.{Early}
use node_updater.World.Calls.{get_safe_evict}
use node_updater.Controller.Returns.{IsScheduled, reconcile-IsScheduled}
use node_updater.Controller.Total.Parts.{
  scaling_text-Safe, merge-AllComplete, found_temporary-Total,
}

module _ (services : Services) (c : SafeEvictReconciler) where
  ensure-Safe :
      (namespace : String) (se : SafeEvict) (exists up_to_date : Bool)
      → Safe (ensure_temporary_pool services c namespace se exists up_to_date)
  unfolding ensure_temporary_pool
  ensure-Safe namespace se true up_to_date = Safe-pure tt
  ensure-Safe namespace se false true =
      Safe-bind _ _ (Safe-on_error _ _ (delete_config_map-Safe services namespace _))
        (λ u. Safe-throw _)
  ensure-Safe namespace se false false =
      Safe-on_error _ _ (create_temporary_node_pool-Safe services _ _)

  await-Safe : (se : SafeEvict) → Safe (await_temporary_pool services c se)
  unfolding await_temporary_pool
  await-Safe se =
      Safe-bind _ _ (Safe-on_error _ _ (get_node_pool_provisioning_state-Safe services _))
        (λ status. Safe-if _ _ _ (Safe-throw _) (Safe-pure tt))

  create_scaling-Safe :
      (namespace : String) (se : SafeEvict) (pools : Dict AgentPool)
      → AllComplete pools
      → Safe (create_scaling services c namespace se pools)
  unfolding create_scaling add_scaling_text
  create_scaling-Safe namespace se pools all =
      Total-bind _ _ (Total-range (λ entry. IsComplete entry.1) services pools all) (λ entries all'.
        Total-bind _ _
          (Total-fold_each (λ entry. IsComplete entry.1) Trivial entries [] add_scaling_text all' tt
            (λ texts (name, pool) _ complete.
              Safe-bind _ _ (scaling_text-Safe pool complete) (λ text. Safe-pure _)))
          (λ texts _.
            Safe-bind _ _ (Safe-on_error _ _ (create_config_map-Safe services namespace _ texts))
              (λ u. Safe-pure [])))

  saved_or_created-Safe :
      (namespace : String) (se : SafeEvict) (pools : Dict AgentPool) (t : Tried (Dict String))
      → AllComplete pools
      → Safe (saved_or_created services c namespace se pools t)
  unfolding saved_or_created
  saved_or_created-Safe namespace se pools (returned texts) all = Safe-pure texts
  saved_or_created-Safe namespace se pools (raised e) all =
      Safe-if _ _ _ (create_scaling-Safe namespace se pools all) (Safe-throw _)

  saved_scaling-Safe :
      (namespace : String) (se : SafeEvict) (pools : Dict AgentPool)
      → AllComplete pools
      → Safe (saved_scaling services c namespace se pools)
  unfolding saved_scaling
  saved_scaling-Safe namespace se pools all =
      Safe-bind _ _ (Safe-attempt _ (get_config_map_data-Safe services namespace _))
        (λ t. saved_or_created-Safe namespace se pools t all)

  perform_safe_eviction-Safe :
      (pools : Dict AgentPool) (se : SafeEvict)
      → AllComplete pools
      → Safe (perform_safe_eviction services c pools se)
  unfolding perform_safe_eviction evict_from_pool
  perform_safe_eviction-Safe pools se all =
      Safe-bind _ _ (disable_auto_scaling-Safe services pools all) (λ u.
        Safe-bind _ _ (Safe-range services pools) (λ entries.
          Safe-for_each entries (evict_from_pool services c se) (λ (name, pool).
            Safe-bind _ _ (cordon_nodes_by_agent_pool-Safe services name true) (λ u'.
              Safe-bind _ _ (get_safe_to_evict_pods-Safe services se.spec) (λ pods.
                Safe-bind _ _ (get_nodes_by_node_pool-Safe services name)
                  (λ nodes. evict_idle_pods-Safe services c.devops _))))))

  uncordon-Safe :
      (name : String) (pool : AgentPool) (t : Tried (Unit {0}))
      → IsComplete pool
      → Safe (uncordon services c name pool t)
  unfolding uncordon
  uncordon-Safe name pool (returned u) complete =
      Safe-bind _ _ (Safe-attempt _ (cordon_nodes_by_agent_pool-Safe services name false))
        (λ result. Safe-pure tt)
  uncordon-Safe name pool (raised e) complete =
      Safe-if _ _ _
        (Total-bind {V = Trivial} _ _ (Total-deref complete.name complete.named tt)
          (λ own _. Safe-throw _))
        (Safe-throw _)

  module _ (azure : IsAzure services) where
    upgrade_drained-Safe :
        (se : SafeEvict) (name : String) → Safe (upgrade_drained services c se name)
    unfolding upgrade_drained upgrade_pool_of
    upgrade_drained-Safe se name =
        Safe-bind _ _ (Safe-on_error _ _ (get_nodes_by_node_pool-Safe services name)) (λ nodes.
          Safe-bind _ _ (Safe-on_error _ _ (has_running_stateful_pods-Safe services nodes _))
            (λ busy. Safe-if busy _ _ (Safe-pure tt) (
              Total-bind _ _ (Total-on_error _ _ (get_node_pool_by_name-Total services azure name))
                (λ pool complete.
                  Safe-if _ _ _
                    (Total-bind {V = Trivial} _ _ (Total-deref complete.name complete.named tt)
                      (λ own _. Safe-throw _))
                    (Safe-on_error _ _ (upgrade_node_image_version-Safe services pool complete))))))

    restore_pool-Safe :
        (outdated : Dict AgentPool) (entry : String × String)
        → Safe (restore_pool services c outdated entry)
    unfolding restore_pool restore_up_to_date
    restore_pool-Safe outdated (name, text) = Safe-if _ _ _ (Safe-pure tt) (
        Total-bind _ _ (Total-on_error _ _ (get_node_pool_by_name-Total services azure name))
          (λ pool complete.
            Safe-bind _ _ (Safe-attempt _ (set_default_scaling-Safe services pool text complete))
              (λ t. uncordon-Safe name pool t complete)))

    clean_up-Safe : (namespace : String) (se : SafeEvict) → Safe (clean_up services c namespace se)
    unfolding clean_up empty_and_remove remove_resources
    clean_up-Safe namespace se =
        Total-bind _ _ (get_node_pool_by_name-IsFound services azure _) (λ t is_found.
          Total-bind _ _ (found_temporary-Total c t is_found) (λ pool complete.
            Total-bind {V = Trivial} _ _ (Total-deref complete.name complete.named tt) (λ name _.
              Safe-bind _ _
                (Safe-on_error _ _
                  (disable_auto_scaling-Safe services ((name, pool) ∷ []) (complete, tt)))
                (λ u.
                  Safe-bind _ _ (Safe-on_error _ _ (get_nodes_by_node_pool-Safe services name))
                    (λ nodes.
                      Safe-bind _ _
                        (Safe-attempt _
                          (perform_safe_eviction-Safe ((name, pool) ∷ []) se (complete, tt)))
                        (λ evicted.
                          Safe-bind _ _
                            (Safe-on_error _ _ (has_running_stateful_pods-Safe services nodes _))
                            (λ busy. Safe-if busy _ _ (Safe-pure tt) (
                              Safe-bind _ _
                                (Safe-on_error _ _ (remove_temporary_node_pool-Safe services _))
                                (λ u'.
                                  Safe-on_error _ _
                                    (delete_config_map-Safe services namespace _))))))))))

    update_pools-Safe :
        (namespace : String) (se : SafeEvict) (outdated : Dict AgentPool) (up_to_date : Bool)
        (texts : Dict String)
        → AllComplete outdated
        → Safe (update_pools services c namespace se outdated up_to_date texts)
    unfolding update_pools
    update_pools-Safe namespace se outdated up_to_date texts all =
        Safe-bind _ _ (Safe-on_error _ _ (perform_safe_eviction-Safe outdated se all)) (λ evicted.
          Safe-bind _ _ (Safe-for_each _ _ (upgrade_drained-Safe se)) (λ upgraded.
            Safe-bind _ _ (Safe-range services texts) (λ entries.
              Safe-bind _ _ (Safe-for_each entries _ (restore_pool-Safe outdated)) (λ restored.
                Safe-bind _ _ (Safe-if up_to_date _ _ (clean_up-Safe namespace se) (Safe-pure tt))
                  (λ cleaned. Safe-pure _)))))

    reconcile_found-Safe :
        (namespace : String) (se : SafeEvict) → Safe (reconcile_found services c namespace se)
    unfolding reconcile_found reconcile_outdated
    reconcile_found-Safe namespace se =
        Total-bind _ _ (Total-on_error _ _ (update_needed-Total services azure se.spec.nodepools))
          (λ (outdated_nodes, outdated_pools) all.
            Total-bind _ _
              (Total-on_error _ _ (get_not_ready_node_pools-Total services azure se.spec.nodepools))
              (λ not_ready all'.
                Total-bind _ _ (Total-range (λ entry. IsComplete entry.1) services not_ready all')
                  (λ entries all''.
                    let complete = merge-AllComplete entries outdated_pools all'' all in
                    Safe-bind _ _ (Safe-on_error _ _ (node_pool_exists-Safe services _)) (λ exists.
                      Safe-bind _ _ (ensure-Safe namespace se exists _) (λ u.
                        Safe-bind _ _ (await-Safe se) (λ u'.
                          Safe-bind _ _ (saved_scaling-Safe namespace se _ complete)
                            (λ texts. update_pools-Safe namespace se _ _ texts complete)))))))

    settled-ok :
        (r : Outcome Reconciled Reconciled)
        → Ends Trivial r
        → Early (IsScheduled c) (λ e. ⊥) (settled r)
        → (a : Reconciled) × (settled r ≡ ok a) × IsScheduled c a
    settled-ok (ok a) ends (Early.value v) = (a, refl, v)
    settled-ok (err a) ends (Early.value v) = (a, refl, v)
    settled-ok panic ends early = elim ends [ ]

    -- If Azure answers for each pool that it has with its name, its state, and a range or a count,
    -- and its errors are not those of Kubernetes, then every run returns: no pointer that is
    -- dereferenced is nil. The run asks for another one at one of the configured times, and an error
    -- comes with the error time.
    pub reconcile-returns :
        (namespace name : String) (h : History)
        → (a : Reconciled) × ((reconcile services c namespace name h).0 ≡ ok a) × IsScheduled c a
    unfolding reconcile reconcile_body get_safe_evict
    reconcile-returns namespace name h =
        let body =
          Safe-bind _ _ (Safe-on_error (ignore_not_found services c) _ (Safe-call _ _))
            (reconcile_found-Safe namespace) in
        settled-ok _ (body.at h) (reconcile-IsScheduled services c namespace name h)
