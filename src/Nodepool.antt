-- ===== src/Nodepool.antt =====
-- internal/nodepool/nodepool_controller.go: the queries. What changes a pool or a node is in the
-- child modules.
pub mod Scaling
pub mod Change
pub mod Evidence
pub mod Standing
pub mod Due
pub mod Queries
pub mod Total
pub mod Conflict
pub mod Settings
pub mod Busy
pub mod Unready
pub mod Copied
pub mod Versions
pub mod Outdated
pub mod Answers
use node_updater.Base.{
  ℕ, String, ◌<>◌, ◌==◌, ◌!=◌, Bool, false, true, ◌&&◌, Option, none, some, List, [], ◌∷◌,
  if◌then◌else◌, contains, ◌=ℕ◌,
}
use node_updater.Base.Dict.{Dict, lookup, insert}
use node_updater.Cluster.{
  Error, message, error_text, is_not_found, response_status, Node, Pod, AgentPool, PoolProperties,
  UpgradeProfile,
}
use node_updater.World.{
  Services, Exec, pure, throw, on_error, Tried, returned, raised, attempt, deref, range, fold_each,
  ◌>>=◌, ◌>>◌,
}
use node_updater.World.Calls.{list_nodes, list_pods, get_pool, get_upgrade_profile}
use node_updater.Pods.{running}

abbrev pub pool_label : String
pool_label = "agentpool"

abbrev pub version_label : String
version_label = "kubernetes.azure.com/node-image-version"

abbrev pub about : String → String → String → Error → Error
about before name after e = message (((before <> name) <> after) <> error_text e)

-- The loop of `GetNodesByNodePool`.
unfoldable pub nodes_of_pool : String → List Node → List Node
nodes_of_pool pool [] = []
nodes_of_pool pool (node ∷ nodes) =
    let rest = nodes_of_pool pool nodes in
    elim (lookup pool_label node.labels) [
      | none ↦ rest
      | some name ↦ if name == pool then node ∷ rest else rest
    ]

-- One round of the loop of `getNodeImageVersions`, on a node of a pool.
unfoldable pub record_version : List String → String → Option String → Dict String → Dict String
record_version pools pool none versions = versions
record_version pools pool (some version) versions =
    if contains pools pool
    then elim (lookup pool versions) [ none ↦ insert pool version versions | some old ↦ versions ]
    else versions

-- The loop of `getNodeImageVersions`: the first node with a version decides for its pool.
unfoldable pub image_versions : List String → List Node → Dict String → Dict String
image_versions pools [] versions = versions
image_versions pools (node ∷ nodes) versions =
    image_versions pools nodes (elim (lookup pool_label node.labels) [
      | none ↦ versions
      | some pool ↦ record_version pools pool (lookup version_label node.labels) versions
    ])

-- The loops of `HasRunningStatefulPods` over the nodes and over the pods.
unfoldable pub on_node : Pod → List Node → Bool
on_node pod [] = false
on_node pod (node ∷ nodes) =
    let rest = on_node pod nodes in if pod.node_name == node.name then true else rest

unfoldable pub any_running : List Node → List Pod → Bool
any_running nodes [] = false
any_running nodes (pod ∷ pods) =
    let rest = any_running nodes pods in
    if pod.phase == running && on_node pod nodes then true else rest

-- `Properties != nil && ProvisioningState != nil`, and the state.
abbrev pub provisioning_state : AgentPool → Option String
provisioning_state pool = elim pool.properties [ none ↦ none | some p ↦ p.provisioning_state ]

abbrev pub in_state : String → AgentPool → Bool
in_state state pool = elim (provisioning_state pool) [ none ↦ false | some s ↦ s == state ]

unfoldable pub latest_version : String → Option (Option String) → Exec Error String
latest_version pool (some (some version)) = pure version
latest_version pool _ =
    throw (message ("latest node image version not available for node pool: " <> pool))

unfoldable pub state_or_error : String → Option String → Exec Error String
state_or_error pool (some state) = pure state
state_or_error pool none =
    throw (message ("provisioning state not available for node pool: " <> pool))

-- The status 404 means that there is no pool, any other error is passed on.
unfoldable pub existence_by : Error → Option ℕ → Exec Error Bool
existence_by other none = throw other
existence_by other (some status) = if status =ℕ 404 then pure false else throw other

unfoldable pub existence : Tried AgentPool → Exec Error Bool
existence (returned pool) = pure true
existence (raised e) =
    existence_by (message ("error checking if node pool exists: " <> error_text e))
      (response_status e)

abbrev pub Outdated : Type 0
Outdated = Dict Node × Dict AgentPool

-- `for _, node := range nodes { outdatedNodes[node.Name] = node }`
unfoldable pub add_nodes : List Node → Dict Node → Dict Node
add_nodes [] m = m
add_nodes (node ∷ nodes) m = add_nodes nodes (insert node.name node m)

-- What a round of the loop of `GetNotReadyNodePools` does with a pool in a given state.
unfoldable pub add_unready : String → AgentPool → Option String → Dict AgentPool → Dict AgentPool
add_unready name pool none not_ready = not_ready
add_unready name pool (some state) not_ready =
    if state != "Succeeded" then insert name pool not_ready else not_ready

module _ (services : Services) where
  unfoldable pub get_nodes_by_node_pool : String → Exec Error (List Node)
  get_nodes_by_node_pool pool = do
    nodes ← on_error (λ e. message ("failed to list nodes: " <> error_text e)) (list_nodes services)
    pure (nodes_of_pool pool nodes)

  unfoldable pub get_node_image_versions : List String → Exec Error (Dict String)
  get_node_image_versions pools = do
    nodes ← on_error (λ e. message ("failed to list nodes: " <> error_text e)) (list_nodes services)
    pure (image_versions pools nodes [])

  unfoldable pub get_node_pool_upgrade_profile : String → Exec Error String
  get_node_pool_upgrade_profile pool = do
    profile ←
        on_error (about "unable to get upgrade profile for node pool '" pool "': ")
          (get_upgrade_profile services pool)
    latest_version pool profile.properties

  unfoldable pub get_node_pool_by_name : String → Exec Error AgentPool
  get_node_pool_by_name pool =
      on_error (λ e. if is_not_found e then e else about "unable to get node pool '" pool "': " e)
        (get_pool services pool)

  unfoldable pub get_node_pool_provisioning_state : String → Exec Error String
  get_node_pool_provisioning_state name = do
    pool ← on_error (about "unable to get node pool '" name "': ") (get_pool services name)
    state_or_error name (provisioning_state pool)

  unfoldable pub node_pool_exists : String → Exec Error Bool
  node_pool_exists name = do pool ← attempt (get_pool services name); existence pool

  -- The loop over the namespaces stops at the first running pod.
  unfoldable pub has_running_stateful_pods : List Node → List String → Exec Error Bool
  has_running_stateful_pods nodes [] = pure false
  has_running_stateful_pods nodes (namespace ∷ namespaces) = do
    pods ← list_pods services namespace
    if any_running nodes pods then pure true else has_running_stateful_pods nodes namespaces

  unfoldable pub add_pool : String → List Node → Outdated → Exec Error Outdated
  add_pool name nodes (outdated_nodes, outdated_pools) = do
    pool ← get_node_pool_by_name name
    pure (add_nodes nodes outdated_nodes, insert name pool outdated_pools)

  -- One round of the loop of `UpdateNeeded`.
  unfoldable pub check_version : Outdated → String × String → Exec Error Outdated
  check_version outdated (name, version) = do
    latest ← get_node_pool_upgrade_profile name
    nodes ← get_nodes_by_node_pool name
    if version != latest then add_pool name nodes outdated else pure outdated

  unfoldable pub update_needed : List String → Exec Error Outdated
  update_needed pools = do
    versions ← get_node_image_versions pools
    entries ← range services versions
    fold_each entries ([], []) check_version

  -- One round of the loop of `GetNotReadyNodePools`.
  unfoldable pub check_ready : Dict AgentPool → String → Exec Error (Dict AgentPool)
  check_ready not_ready name = do
    pool ← on_error (about "failed to retrieve node pool '" name "': ") (get_node_pool_by_name name)
    pure (add_unready name pool (provisioning_state pool) not_ready)

  unfoldable pub get_not_ready_node_pools : List String → Exec Error (Dict AgentPool)
  get_not_ready_node_pools pools = fold_each pools [] check_ready
