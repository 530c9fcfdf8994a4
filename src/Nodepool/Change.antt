-- ===== src/Nodepool/Change.antt =====
-- internal/nodepool/nodepool_controller.go: `CreateTemporaryNodePool`, `UpgradeNodeImageVersion`,
-- `RemoveTemporaryNodePool` and `CordonNodesByAgentPool`.
use node_updater.Base.{String, ◌<>◌, ◌==◌, Bool, ◌||◌, Option, none, some, [], ◌∷◌, if◌then◌else◌}
use node_updater.Base.Dict.{lookup}
use node_updater.Cluster.{Error, message, Node, AgentPool, PoolProperties}
use node_updater.World.{Services, Exec, pure, throw, on_error, deref, for_each, ◌>>=◌}
use node_updater.World.Calls.{get_pool, put_pool_call, delete_pool, upgrade_pool, update_node}
use node_updater.Pods.{or_empty}
use node_updater.Nodepool.{
  about, in_state, get_node_image_versions, get_node_pool_upgrade_profile, get_nodes_by_node_pool,
}

-- The pool that `CreateTemporaryNodePool` asks for: what it does not copy stays nil.
unfoldable pub copy_of : PoolProperties → AgentPool
copy_of source = record {
  name = none;
  properties = some (record {
    vm_size = source.vm_size;
    count = source.count;
    min_count = source.min_count;
    max_count = source.max_count;
    vnet_subnet_id = none;
    mode = source.mode;
    enable_auto_scaling = source.enable_auto_scaling;
    orchestrator_version = source.orchestrator_version;
    node_labels = source.node_labels;
    node_taints = source.node_taints;
    os_type = source.os_type;
    provisioning_state = none;
    others = [];
  });
}

module _ (services : Services) where
  unfoldable pub create_copy : String → String → Option PoolProperties → Exec Error (Unit {0})
  create_copy new_name source_name none =
      throw (message (("source node pool '" <> source_name) <> "' has no properties"))
  create_copy new_name source_name (some source) =
      on_error (about "failed to create new node pool '" new_name "': ")
        (put_pool_call services new_name (copy_of source))

  unfoldable pub create_temporary_node_pool : String → String → Exec Error (Unit {0})
  create_temporary_node_pool new_name source_name = do
    source ←
        on_error (about "unable to get source node pool '" source_name "': ")
          (get_pool services source_name)
    create_copy new_name source_name source.properties

  unfoldable pub start_upgrade : String → Exec Error (Unit {0})
  start_upgrade name =
      on_error (about "failed to upgrade node image version for node pool '" name "': ")
        (upgrade_pool services name)

  unfoldable pub upgrade_outdated : String → Exec Error (Unit {0})
  upgrade_outdated name = do
    versions ← get_node_image_versions services (name ∷ [])
    latest ← get_node_pool_upgrade_profile services name
    if or_empty (lookup name versions) == latest then pure tt else start_upgrade name

  unfoldable pub upgrade_node_image_version : AgentPool → Exec Error (Unit {0})
  upgrade_node_image_version pool = do
    name ← deref pool.name
    let busy = in_state "UpgradingNodeImageVersion" pool || in_state "Updating" pool
    if busy then pure tt else upgrade_outdated name

  unfoldable pub remove_temporary_node_pool : String → Exec Error (Unit {0})
  remove_temporary_node_pool name =
      on_error (about "failed to delete node pool '" name "': ") (delete_pool services name)

  -- One round of the loop of `CordonNodesByAgentPool`.
  unfoldable pub cordon_node : Bool → Node → Exec Error (Unit {0})
  cordon_node to_cordon node =
      on_error (about "failed to set Unschedulable for node '" node.name "': ")
        (update_node services (record node { unschedulable = to_cordon }))

  unfoldable pub cordon_nodes_by_agent_pool : String → Bool → Exec Error (Unit {0})
  cordon_nodes_by_agent_pool pool to_cordon = do
    nodes ←
        on_error (about "failed to get nodes for agent pool '" pool "': ")
          (get_nodes_by_node_pool services pool)
    for_each nodes (cordon_node to_cordon)
