-- ===== src/Configmap/Safe.antt =====
-- internal/configmap/configmap_controller.go never dereferences a nil pointer.
use node_updater.Base.{String}
use node_updater.Configmap.{
  deletion_result, create_missing, get_config_map_data, create_config_map, delete_config_map,
  get_config_map,
}
use node_updater.World.{Services, Tried, returned, raised}
use node_updater.World.Calls.{create_config_map_call, delete_config_map_call, get_config_map_call}
use node_updater.World.Total.{Safe, safe_rules, Safe-pure}
use node_updater.Base.Dict.{Dict}
use node_updater.Cluster.{ConfigMap}

deletion_result-Safe : (t : Tried (Unit {0})) → Safe (deletion_result t)
unfolding deletion_result
deletion_result-Safe (returned u) = Safe-pure tt
deletion_result-Safe (raised e) = search safe_rules

module _ (services : Services) (namespace name : String) where
  create_missing-Safe :
      (entries : Dict String) (t : Tried ConfigMap)
      → Safe (create_missing services namespace name entries t)
  unfolding create_missing create_config_map_call
  create_missing-Safe entries (returned found) = Safe-pure tt
  create_missing-Safe entries (raised e) = search safe_rules

  pub create_config_map-Safe :
      (entries : Dict String) → Safe (create_config_map services namespace name entries)
  unfolding create_config_map get_config_map get_config_map_call
  create_config_map-Safe entries = search (create_missing-Safe, safe_rules) depth 16

  pub delete_config_map-Safe : Safe (delete_config_map services namespace name)
  unfolding delete_config_map delete_config_map_call
  delete_config_map-Safe = search (deletion_result-Safe, safe_rules) depth 16

  pub get_config_map_data-Safe : Safe (get_config_map_data services namespace name)
  unfolding get_config_map_data get_config_map get_config_map_call
  get_config_map_data-Safe = search safe_rules depth 16
