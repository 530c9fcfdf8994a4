-- ===== src/Nodepool/Total.antt =====
-- internal/nodepool/nodepool_controller.go: no operation panics if Azure describes pools in full.
pub mod Writes
use node_updater.Base.{
  String, ◌≡◌, refl, Bool, true, false, Option, none, some, List, [], ◌∷◌, if◌then◌else◌, ◌==◌, All,
  Bool-cases, inl, inr, ℕ, ◌<>◌, ◌!=◌, All-of-In, arith,
}
use node_updater.Nodepool.{
  state_or_error, existence, latest_version, existence_by, get_node_pool_upgrade_profile,
  get_node_image_versions, get_node_pool_provisioning_state, get_node_pool_by_name,
  has_running_stateful_pods, node_pool_exists, get_nodes_by_node_pool, update_needed, add_pool,
  get_not_ready_node_pools, add_unready, check_ready, Outdated, check_version, about,
  provisioning_state,
}
use node_updater.World.{
  Services, Tried, returned, History, answered, raised, call, attempt, failed, on_error, Reply,
  as_tried, relabel, outcome,
}
use node_updater.Cluster.{
  AgentPool, PoolProperties, Node, ClientError, is_not_found, message, error_text, response_status,
}
use node_updater.Base.Dict.{Dict, All-insert}
use node_updater.Base.Int.{ℤ}
use node_updater.World.Total.{
  value, Ends, Safe, Safe-pure, safe_rules, Safe-throw, Total, Total-on_error, Safe-bind,
  Total-call, Safe-call, Safe-if, Ends, Total-bind, Total-fold_each, Total-pure, Trivial,
  Safe-range, Total-if,
}
use node_updater.World.Calls.{list_pods, list_nodes, get_pool, get_upgrade_profile}
use node_updater.Controller.Defs.{Reconciled}

-- A range or a count.
abbrev pub HasCounts : Option ℤ → Option ℤ → Option ℤ → Type 0
HasCounts (some lo) (some hi) count = Unit
HasCounts none none (some n) = Unit
HasCounts _ _ _ = ⊥

-- What Azure documents to answer for a pool that exists.
pub record IsComplete (pool : AgentPool) : Type 0 where
  pub name : String
  pub named : pool.name ≡ some name
  pub properties : PoolProperties
  pub described : pool.properties ≡ some properties
  pub state : String
  pub provisioned : properties.provisioning_state ≡ some state
  pub counts : HasCounts properties.min_count properties.max_count properties.count

-- The agent pool client answers with complete pools, and its errors are not those of Kubernetes.
pub record IsAzure (services : Services) : Type 0 where
  pub complete :
      (h : History) (name : String) (pool : AgentPool)
      → services.get_pool h name ≡ answered pool
      → IsComplete pool
  pub foreign :
      (h : History) (name : String) (x : ClientError)
      → services.get_pool h name ≡ failed x
      → x.not_found ≡ false

abbrev pub AllComplete : Dict AgentPool → Type 0
AllComplete m = All (λ entry. IsComplete entry.1) m

-- The pool, or an error that Kubernetes would not know.
abbrev pub IsFound : Tried AgentPool → Type 0
IsFound (returned pool) = IsComplete pool
IsFound (raised e) = is_not_found e ≡ false

latest_version-Safe : (pool : String) (p : Option (Option String)) → Safe (latest_version pool p)
unfolding latest_version
latest_version-Safe pool (some (some v)) = Safe-pure v
latest_version-Safe pool (some none) = Safe-throw _
latest_version-Safe pool none = Safe-throw _

state_or_error-Safe : (pool : String) (s : Option String) → Safe (state_or_error pool s)
unfolding state_or_error
state_or_error-Safe pool (some s) = Safe-pure s
state_or_error-Safe pool none = Safe-throw _

existence-Safe : (t : Tried AgentPool) → Safe (existence t)
unfolding existence existence_by
existence-Safe (returned pool) = Safe-pure true
existence-Safe (raised e) = by_status (response_status e)
  where
    by_status :
        (s : Option ℕ)
        → Safe (existence_by (message ("error checking if node pool exists: " <> error_text e)) s)
    by_status none = Safe-throw _
    by_status (some status) = search safe_rules

module _ (services : Services) where
  pub get_nodes_by_node_pool-Safe : (pool : String) → Safe (get_nodes_by_node_pool services pool)
  unfolding get_nodes_by_node_pool list_nodes
  get_nodes_by_node_pool-Safe pool = search safe_rules

  pub get_node_image_versions-Safe :
      (pools : List String) → Safe (get_node_image_versions services pools)
  unfolding get_node_image_versions list_nodes
  get_node_image_versions-Safe pools = search safe_rules

  pub get_node_pool_upgrade_profile-Safe :
      (pool : String) → Safe (get_node_pool_upgrade_profile services pool)
  unfolding get_node_pool_upgrade_profile get_upgrade_profile
  get_node_pool_upgrade_profile-Safe pool = search (latest_version-Safe, safe_rules)

  pub get_node_pool_provisioning_state-Safe :
      (name : String) → Safe (get_node_pool_provisioning_state services name)
  unfolding get_node_pool_provisioning_state get_pool
  get_node_pool_provisioning_state-Safe name = search (state_or_error-Safe, safe_rules)

  pub node_pool_exists-Safe : (name : String) → Safe (node_pool_exists services name)
  unfolding node_pool_exists get_pool
  node_pool_exists-Safe name = search (existence-Safe, safe_rules)

  pub has_running_stateful_pods-Safe :
      (nodes : List Node) (namespaces : List String)
      → Safe (has_running_stateful_pods services nodes namespaces)
  unfolding has_running_stateful_pods list_pods
  has_running_stateful_pods-Safe nodes [] = Safe-pure false
  has_running_stateful_pods-Safe nodes (ns ∷ namespaces) =
      let rest = has_running_stateful_pods-Safe nodes namespaces in
      Safe-bind _ _ (Safe-call _ _) (λ pods. Safe-if _ _ _ (Safe-pure true) rest)

  module _ (azure : IsAzure services) where
    pub get_node_pool_by_name-Total :
        (name : String) → Total IsComplete (get_node_pool_by_name services name)
    unfolding get_node_pool_by_name get_pool
    get_node_pool_by_name-Total name =
        Total-on_error _ _ (Total-call _ _ (λ h pool e. azure.complete h name pool e))

    found :
        {E : Type 0} (name : String) (r : Reply AgentPool)
        → ((pool : AgentPool) → r ≡ answered pool → IsComplete pool)
        → ((x : ClientError) → r ≡ failed x → x.not_found ≡ false)
        → Ends {E = E} IsFound (
            as_tried (
              relabel
                (λ e. if is_not_found e then e else about "unable to get node pool '" name "': " e)
                (outcome r)))
    unfolding is_not_found
    found name (answered pool) c f = value (c pool refl)
    found name (failed x) c f = let e = f x refl in value (ground arith)

    pub get_node_pool_by_name-IsFound :
        {E : Type 0} (name : String)
        → Total {E = E} IsFound (attempt (get_node_pool_by_name services name))
    unfolding get_node_pool_by_name get_pool call attempt on_error
    get_node_pool_by_name-IsFound name = record {
      at =
          λ h. found name (services.get_pool h name) (azure.complete h name) (azure.foreign h name);
    }

    add_pool-Total :
        (name : String) (nodes : List Node) (o : Outdated)
        → AllComplete o.1
        → Total (λ o'. AllComplete o'.1) (add_pool services name nodes o)
    unfolding add_pool
    add_pool-Total name nodes (outdated_nodes, outdated_pools) all =
        Total-bind _ _ (get_node_pool_by_name-Total name)
          (λ pool c. Total-pure _ (All-insert _ name pool outdated_pools c all))

    pub update_needed-Total :
        (pools : List String) → Total (λ o. AllComplete o.1) (update_needed services pools)
    unfolding update_needed check_version
    update_needed-Total pools = Total-bind _ _ (get_node_image_versions-Safe pools) (λ versions _.
        Total-bind _ _ (Safe-range services versions) (λ entries _.
          Total-fold_each Trivial (λ o. AllComplete o.1) entries ([], []) (check_version services)
            (All-of-In Trivial entries (λ y m. tt)) tt
            (λ o (name, version) all _.
              Total-bind _ _ (get_node_pool_upgrade_profile-Safe name) (λ latest _.
                Total-bind _ _ (get_nodes_by_node_pool-Safe name) (λ nodes _.
                  Total-if _ _ _ (λ e. add_pool-Total name nodes o all) (λ e. Total-pure o all))))))

    add_unready-AllComplete :
        (name : String) (pool : AgentPool) (state : Option String) (m : Dict AgentPool)
        → IsComplete pool
        → AllComplete m
        → AllComplete (add_unready name pool state m)
    unfolding add_unready
    add_unready-AllComplete name pool none m c all = all
    add_unready-AllComplete name pool (some state) m c all =
        elim (Bool-cases (state != "Succeeded")) [
          | inl unready ↦ rw unready (All-insert _ name pool m c all)
          | inr ready ↦ rw ready all
        ]

    pub get_not_ready_node_pools-Total :
        (pools : List String) → Total AllComplete (get_not_ready_node_pools services pools)
    unfolding get_not_ready_node_pools check_ready
    get_not_ready_node_pools-Total pools =
        Total-fold_each Trivial AllComplete pools [] (check_ready services)
          (All-of-In Trivial pools (λ y m. tt)) tt
          (λ m name all _.
            Total-bind _ _ (Total-on_error _ _ (get_node_pool_by_name-Total name)) (λ pool c.
              Total-pure _ (add_unready-AllComplete name pool (provisioning_state pool) m c all)))
