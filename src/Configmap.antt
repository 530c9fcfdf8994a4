-- ===== src/Configmap.antt =====
-- internal/configmap/configmap_controller.go
pub mod Results
pub mod Safe
pub mod Store
use node_updater.Base.{String, ◌<>◌, if◌then◌else◌}
use node_updater.Base.Dict.{Dict}
use node_updater.Cluster.{Error, message, error_text, is_not_found, ConfigMap}
use node_updater.World.{
  Services, Exec, pure, throw, on_error, Tried, returned, raised, attempt, ◌>>=◌,
}
use node_updater.World.Calls.{get_config_map_call, create_config_map_call, delete_config_map_call}

-- An error of the API server for a missing map is passed on, any other is only quoted.
abbrev pub unless_not_found : String → Error → Error
unless_not_found text e = if is_not_found e then e else message (text <> error_text e)

unfoldable pub deletion_result : Tried (Unit {0}) → Exec Error (Unit {0})
deletion_result (returned done) = pure tt
deletion_result (raised e) =
    if is_not_found e
    then pure tt
    else throw (message ("failed to delete ConfigMap: " <> error_text e))

module _ (services : Services) where
  unfoldable pub get_config_map : String → String → Exec Error ConfigMap
  get_config_map namespace name =
      on_error (unless_not_found "failed to get ConfigMap: ")
        (get_config_map_call services namespace name)

  unfoldable pub create_missing :
      String → String → Dict String → Tried ConfigMap → Exec Error (Unit {0})
  create_missing namespace name entries (returned found) = pure tt
  create_missing namespace name entries (raised e) =
      on_error (λ e'. message ("failed to create ConfigMap: " <> error_text e'))
        (create_config_map_call services namespace (record { name = name; entries = entries }))

  unfoldable pub create_config_map : String → String → Dict String → Exec Error (Unit {0})
  create_config_map namespace name entries = do
    found ← attempt (get_config_map namespace name)
    create_missing namespace name entries found

  unfoldable pub delete_config_map : String → String → Exec Error (Unit {0})
  delete_config_map namespace name = do
    result ← attempt (delete_config_map_call services namespace name)
    deletion_result result

  unfoldable pub get_config_map_data : String → String → Exec Error (Dict String)
  get_config_map_data namespace name = do
    found ←
        on_error (unless_not_found "failed to get ConfigMap data: ") (get_config_map namespace name)
    pure found.entries
