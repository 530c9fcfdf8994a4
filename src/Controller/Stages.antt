-- ===== src/Controller/Stages.antt =====
-- internal/controller/safeevict_controller.go: the stages of `Reconcile`. A stage that returns early
-- from `Reconcile` raises what it returns.
use node_updater.Base.{String, ◌==◌, Bool, false, true, ◌||◌, none, [], ◌∷◌, if◌then◌else◌}
use node_updater.Base.Dict.{Dict, lookup, insert}
use node_updater.Cluster.{
  is_not_found, SafeEvict, AgentPool, get_configmap_name, get_temporary_nodepool_name,
}
use node_updater.World.{
  Services, Exec, pure, throw, Tried, returned, raised, attempt, deref, range, fold_each, ◌>>=◌,
  ◌>>◌,
}
use node_updater.Configmap.{create_config_map, delete_config_map, get_config_map_data}
use node_updater.Nodepool.{
  in_state, get_node_pool_provisioning_state, get_node_pool_by_name, get_nodes_by_node_pool,
  has_running_stateful_pods,
}
use node_updater.Nodepool.Change.{
  create_temporary_node_pool, upgrade_node_image_version, remove_temporary_node_pool,
  cordon_nodes_by_agent_pool,
}
use node_updater.Nodepool.Scaling.{is_set, disable_auto_scaling, set_default_scaling}
use node_updater.Controller.Defs.{
  SafeEvictReconciler, Reconciled, range_text, count_text, perform_safe_eviction, done, failing,
  or_fail, or_retry,
}

-- The scaling of a pool, as the text of a JSON object.
unfoldable pub scaling_text : AgentPool → Exec Reconciled String
scaling_text pool = do
  p ← deref pool.properties
  if is_set p.min_count || is_set p.max_count
      then (do min ← deref p.min_count; max ← deref p.max_count; pure (range_text min max))
      else (do count ← deref p.count; pure (count_text count))

unfoldable pub add_scaling_text : Dict String → String × AgentPool → Exec Reconciled (Dict String)
add_scaling_text texts (name, pool) = do text ← scaling_text pool; pure (insert name text texts)

-- A missing temporary pool leaves the pointer nil, and it is dereferenced next.
unfoldable pub found_temporary : SafeEvictReconciler → Tried AgentPool → Exec Reconciled AgentPool
found_temporary c (returned pool) = pure pool
found_temporary c (raised e) = if is_not_found e then deref none else throw (failing c e)

module _ (services : Services) (c : SafeEvictReconciler) where
  -- Without a temporary pool, it is created if something is outdated.
  unfoldable pub ensure_temporary_pool :
      String → SafeEvict → Bool → Bool → Exec Reconciled (Unit {0})
  ensure_temporary_pool namespace se true up_to_date = pure tt
  ensure_temporary_pool namespace se false true = do
    or_fail c (delete_config_map services namespace (get_configmap_name se))
    throw (done c.config.upgrade_frequency)
  ensure_temporary_pool namespace se false false = or_retry c (
      create_temporary_node_pool services (get_temporary_nodepool_name se)
        se.spec.base_for_backup_pool)

  unfoldable pub await_temporary_pool : SafeEvict → Exec Reconciled (Unit {0})
  await_temporary_pool se = do
    status ← or_fail c (get_node_pool_provisioning_state services (get_temporary_nodepool_name se))
    if status == "Creating" then throw (done c.config.success_reconcile_time) else pure tt

  unfoldable pub create_scaling :
      String → SafeEvict → Dict AgentPool → Exec Reconciled (Dict String)
  create_scaling namespace se pools = do
    entries ← range services pools
    texts ← fold_each entries [] add_scaling_text
    or_fail c (create_config_map services namespace (get_configmap_name se) texts)
    pure []

  unfoldable pub saved_or_created :
      String → SafeEvict → Dict AgentPool → Tried (Dict String) → Exec Reconciled (Dict String)
  saved_or_created namespace se pools (returned texts) = pure texts
  saved_or_created namespace se pools (raised e) =
      if is_not_found e then create_scaling namespace se pools else throw (failing c e)

  -- `configMapData`: it stays nil where the map is created.
  unfoldable pub saved_scaling : String → SafeEvict → Dict AgentPool → Exec Reconciled (Dict String)
  saved_scaling namespace se pools = do
    texts ← attempt (get_config_map_data services namespace (get_configmap_name se))
    saved_or_created namespace se pools texts

  unfoldable pub upgrade_pool_of : String → Exec Reconciled (Unit {0})
  upgrade_pool_of name = do
    pool ← or_fail c (get_node_pool_by_name services name)
    if in_state "UpgradingNodeImageVersion" pool
        then (do pool_name ← deref pool.name; throw (done c.config.success_reconcile_time))
        else or_fail c (upgrade_node_image_version services pool)

  -- One round of the loop over `Spec.Nodepools`.
  unfoldable pub upgrade_drained : SafeEvict → String → Exec Reconciled (Unit {0})
  upgrade_drained se name = do
    nodes ← or_fail c (get_nodes_by_node_pool services name)
    busy ← or_fail c (has_running_stateful_pods services nodes se.spec.namespaces)
    if busy then pure tt else upgrade_pool_of name

  -- What follows `SetDefaultScaling`; an error of the uncordoning is dropped.
  unfoldable pub uncordon : String → AgentPool → Tried (Unit {0}) → Exec Reconciled (Unit {0})
  uncordon name pool (returned restored) = do
    result ← attempt (cordon_nodes_by_agent_pool services name false)
    pure tt
  uncordon name pool (raised e) =
      if in_state "Updating" pool
      then (do pool_name ← deref pool.name; throw (done c.config.success_reconcile_time))
      else throw (failing c e)

  unfoldable pub restore_up_to_date : String → String → Exec Reconciled (Unit {0})
  restore_up_to_date name text = do
    pool ← or_fail c (get_node_pool_by_name services name)
    result ← attempt (set_default_scaling services pool text)
    uncordon name pool result

  -- One round of the loop over `configMapData`.
  unfoldable pub restore_pool : Dict AgentPool → String × String → Exec Reconciled (Unit {0})
  restore_pool outdated (name, text) =
      if is_set (lookup name outdated) then pure tt else restore_up_to_date name text

  unfoldable pub remove_resources : String → SafeEvict → Exec Reconciled (Unit {0})
  remove_resources namespace se = do
    or_retry c (remove_temporary_node_pool services (get_temporary_nodepool_name se))
    or_fail c (delete_config_map services namespace (get_configmap_name se))

  -- The last part, from `DisableAutoScaling` on, for the temporary pool with its own name.
  unfoldable pub empty_and_remove :
      String → SafeEvict → AgentPool → String → Exec Reconciled (Unit {0})
  empty_and_remove namespace se pool name = do
    or_fail c (disable_auto_scaling services ((name, pool) ∷ []))
    nodes ← or_fail c (get_nodes_by_node_pool services name)
    evicted ← attempt (perform_safe_eviction services c ((name, pool) ∷ []) se)
    busy ← or_fail c (has_running_stateful_pods services nodes se.spec.namespaces)
    if busy then pure tt else remove_resources namespace se

  -- The last part: everything is up to date, and the temporary pool is emptied and removed.
  unfoldable pub clean_up : String → SafeEvict → Exec Reconciled (Unit {0})
  clean_up namespace se = do
    result ← attempt (get_node_pool_by_name services (get_temporary_nodepool_name se))
    pool ← found_temporary c result
    name ← deref pool.name
    empty_and_remove namespace se pool name
