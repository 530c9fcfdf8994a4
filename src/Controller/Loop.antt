-- ===== src/Controller/Loop.antt =====
-- internal/controller/safeevict_controller.go: `Reconcile`, as the sequence of its stages.
use node_updater.Base.{String, Bool, ◌&&◌, if◌then◌else◌}
use node_updater.Base.Dict.{Dict}
use node_updater.Cluster.{
  Error, is_not_found, SafeEvict, Node, AgentPool, get_temporary_nodepool_name,
}
use node_updater.World.{Services, Exec, pure, on_error, range, for_each, ◌>>=◌, ◌>>◌}
use node_updater.World.Calls.{get_safe_evict}
use node_updater.Nodepool.{update_needed, get_not_ready_node_pools, node_pool_exists}
use node_updater.Controller.Defs.{
  SafeEvictReconciler, Reconciled, is_empty, merge, settled, perform_safe_eviction, done, failing,
  or_fail, or_retry,
}
use node_updater.Controller.Stages.{
  ensure_temporary_pool, await_temporary_pool, saved_scaling, upgrade_drained, restore_pool,
  clean_up,
}

module _ (services : Services) (c : SafeEvictReconciler) where
  -- From the call of `performSafeEviction` on.
  unfoldable pub update_pools :
      String → SafeEvict → Dict AgentPool → Bool → Dict String → Exec Reconciled Reconciled
  update_pools namespace se outdated up_to_date config_map_data = do
    or_fail c (perform_safe_eviction services c outdated se)
    for_each se.spec.nodepools (upgrade_drained services c se)
    entries ← range services config_map_data
    for_each entries (restore_pool services c outdated)
    if up_to_date then clean_up services c namespace se else pure tt
    pure (done c.config.success_reconcile_time)

  -- From the check of the temporary pool on.
  unfoldable pub reconcile_outdated :
      String → SafeEvict → Dict Node → Dict AgentPool → Exec Reconciled Reconciled
  reconcile_outdated namespace se outdated_nodes outdated = do
    let up_to_date = is_empty outdated_nodes && is_empty outdated
    exists ← or_fail c (node_pool_exists services (get_temporary_nodepool_name se))
    ensure_temporary_pool services c namespace se exists up_to_date
    await_temporary_pool services c se
    config_map_data ← saved_scaling services c namespace se outdated
    update_pools namespace se outdated up_to_date config_map_data

  -- From the check for updates on.
  unfoldable pub reconcile_found : String → SafeEvict → Exec Reconciled Reconciled
  reconcile_found namespace se = do
    (outdated_nodes, outdated_pools) ← or_retry c (update_needed services se.spec.nodepools)
    not_ready ← or_fail c (get_not_ready_node_pools services se.spec.nodepools)
    entries ← range services not_ready
    reconcile_outdated namespace se outdated_nodes (merge entries outdated_pools)

  abbrev pub ignore_not_found : Error → Reconciled
  ignore_not_found e = if is_not_found e then done c.config.error_reconcile_time else failing c e

  unfoldable pub reconcile_body : String → String → Exec Reconciled Reconciled
  reconcile_body namespace name = do
    se ← on_error ignore_not_found (get_safe_evict services namespace name)
    reconcile_found namespace se

  -- `Reconcile` returns a result, or panics.
  unfoldable pub reconcile : String → String → Exec ⊥ Reconciled
  reconcile namespace name h = let (r, h') = reconcile_body namespace name h in (settled r, h')
