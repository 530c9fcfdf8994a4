-- ===== src/Nodepool/Answers.antt =====
-- internal/nodepool/nodepool_controller.go: the queries, where the services always answer the same.
use node_updater.World.Gives.{Gives, Gives-bind, Gives-on_error, Gives-call, Gives-pure}
use node_updater.World.{Services, History, answered}
use node_updater.Nodepool.{
  get_node_pool_by_name, get_node_pool_upgrade_profile, latest_version, get_nodes_by_node_pool,
  get_node_image_versions, image_versions, nodes_of_pool,
}
use node_updater.World.Calls.{get_upgrade_profile, get_pool, list_nodes}
use node_updater.Base.{List, String, ◌≡◌, some, []}
use node_updater.Cluster.{Node, AgentPool}
use node_updater.World.Finds.{Finds, Finds-after, Finds-on_error, Finds-call, Finds-pure}
use node_updater.World.Trace.{Reading}

module _ (services : Services) (nodes : List Node)
    (lists_nodes : (h : History) → services.list_nodes h ≡ answered nodes) where
  pub nodes_of-Gives :
      (name : String) → Gives (get_nodes_by_node_pool services name) (nodes_of_pool name nodes)
  unfolding get_nodes_by_node_pool list_nodes
  nodes_of-Gives name =
      Gives-bind _ _ nodes _ (Gives-on_error _ _ nodes (Gives-call _ _ nodes lists_nodes))
        (Gives-pure _)

  pub versions-Gives :
      (pools : List String)
      → Gives (get_node_image_versions services pools) (image_versions pools nodes [])
  unfolding get_node_image_versions list_nodes
  versions-Gives pools =
      Gives-bind _ _ nodes _ (Gives-on_error _ _ nodes (Gives-call _ _ nodes lists_nodes))
        (Gives-pure _)

pub profile-Gives :
    (services : Services) (name latest : String)
    → ((h : History)
        → services.get_upgrade_profile h name
          ≡ answered (record { properties = some (some latest) }))
    → Gives (get_node_pool_upgrade_profile services name) latest
unfolding get_node_pool_upgrade_profile get_upgrade_profile latest_version
profile-Gives services name latest profile =
    Gives-bind _ _ _ latest (Gives-on_error _ _ _ (Gives-call _ _ _ profile)) (Gives-pure latest)

pub pool-Gives :
    (services : Services) (name : String) (pool : AgentPool)
    → ((h : History) → services.get_pool h name ≡ answered pool)
    → Gives (get_node_pool_by_name services name) pool
unfolding get_node_pool_by_name get_pool
pool-Gives services name pool read = Gives-on_error _ _ pool (Gives-call _ _ pool read)

-- The same, and nothing is changed.
module _ (services : Services) (nodes : List Node)
    (lists_nodes : (h : History) → services.list_nodes h ≡ answered nodes) where
  pub nodes_of-Finds :
      (name : String)
      → Finds Reading (get_nodes_by_node_pool services name) (some (nodes_of_pool name nodes))
  unfolding get_nodes_by_node_pool list_nodes
  nodes_of-Finds name =
      Finds-after _ (Finds-on_error _ (Finds-call _ lists_nodes (λ h. tt))) (Finds-pure _)

  pub versions-Finds :
      (pools : List String)
      → Finds Reading
          (get_node_image_versions services pools)
          (some (image_versions pools nodes []))
  unfolding get_node_image_versions list_nodes
  versions-Finds pools =
      Finds-after _ (Finds-on_error _ (Finds-call _ lists_nodes (λ h. tt))) (Finds-pure _)

pub profile-Finds :
    (services : Services) (name latest : String)
    → ((h : History)
        → services.get_upgrade_profile h name
          ≡ answered (record { properties = some (some latest) }))
    → Finds Reading (get_node_pool_upgrade_profile services name) (some latest)
unfolding get_node_pool_upgrade_profile get_upgrade_profile latest_version
profile-Finds services name latest profile =
    Finds-after _ (Finds-on_error _ (Finds-call _ profile (λ h. tt))) (Finds-pure _)

pub pool-Finds :
    (services : Services) (name : String) (pool : AgentPool)
    → ((h : History) → services.get_pool h name ≡ answered pool)
    → Finds Reading (get_node_pool_by_name services name) (some pool)
unfolding get_node_pool_by_name get_pool
pool-Finds services name pool read = Finds-on_error _ (Finds-call _ read (λ h. tt))
