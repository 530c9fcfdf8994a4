-- ===== src/World/Calls.antt =====
-- The calls of the services, as actions.
use node_updater.Base.{String, List}
use node_updater.Cluster.{
  Error, SafeEvict, Node, Pod, ConfigMap, AgentPool, UpgradeProfile, Request, Response,
}
use node_updater.World.{
  Services, Reply, Exec, call, got_safe_evict, listed_nodes, updated_node, listed_pods, got_pod,
  streamed_logs, deleted_pod, deleted_job, got_config_map, created_config_map, deleted_config_map,
  got_pool, put_pool, deleted_pool, got_upgrade_profile, upgraded_pool, sent,
}

module _ (services : Services) where
  unfoldable pub get_safe_evict : String → String → Exec Error SafeEvict
  get_safe_evict ns name = call (λ h. services.get_safe_evict h ns name) (got_safe_evict ns name)

  unfoldable pub list_nodes : Exec Error (List Node)
  list_nodes = call services.list_nodes listed_nodes

  unfoldable pub update_node : Node → Exec Error (Unit {0})
  update_node node = call (λ h. services.update_node h node) (updated_node node)

  -- The namespace "" stands for all.
  unfoldable pub list_pods : String → Exec Error (List Pod)
  list_pods ns = call (λ h. services.list_pods h ns) (listed_pods ns)

  unfoldable pub get_pod : String → String → Exec Error Pod
  get_pod ns name = call (λ h. services.get_pod h ns name) (got_pod ns name)

  unfoldable pub stream_logs : String → String → Exec Error (Reply String)
  stream_logs ns name = call (λ h. services.stream_logs h ns name) (streamed_logs ns name)

  unfoldable pub delete_pod : String → String → Exec Error (Unit {0})
  delete_pod ns name = call (λ h. services.delete_pod h ns name) (deleted_pod ns name)

  unfoldable pub delete_job : String → String → Exec Error (Unit {0})
  delete_job ns name = call (λ h. services.delete_job h ns name) (deleted_job ns name)

  unfoldable pub get_config_map_call : String → String → Exec Error ConfigMap
  get_config_map_call ns name =
      call (λ h. services.get_config_map h ns name) (got_config_map ns name)

  unfoldable pub create_config_map_call : String → ConfigMap → Exec Error (Unit {0})
  create_config_map_call ns m =
      call (λ h. services.create_config_map h ns m) (created_config_map ns m)

  unfoldable pub delete_config_map_call : String → String → Exec Error (Unit {0})
  delete_config_map_call ns name =
      call (λ h. services.delete_config_map h ns name) (deleted_config_map ns name)

  unfoldable pub get_pool : String → Exec Error AgentPool
  get_pool name = call (λ h. services.get_pool h name) (got_pool name)

  unfoldable pub put_pool_call : String → AgentPool → Exec Error (Unit {0})
  put_pool_call name pool = call (λ h. services.put_pool h name pool) (put_pool name pool)

  unfoldable pub delete_pool : String → Exec Error (Unit {0})
  delete_pool name = call (λ h. services.delete_pool h name) (deleted_pool name)

  unfoldable pub get_upgrade_profile : String → Exec Error UpgradeProfile
  get_upgrade_profile name =
      call (λ h. services.get_upgrade_profile h name) (got_upgrade_profile name)

  unfoldable pub upgrade_pool : String → Exec Error (Unit {0})
  upgrade_pool name = call (λ h. services.upgrade_pool h name) (upgraded_pool name)

  unfoldable pub send : Request → Exec Error Response
  send request = call (λ h. services.send h request) (sent request)
