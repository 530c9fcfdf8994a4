-- ===== src/Configmap/Results.antt =====
-- internal/configmap/configmap_controller.go: what each operation calls and returns, for every
-- answer of the API server.
use node_updater.Base.{String, ◌<>◌, ◌≡◌, arith, if◌then◌else◌, ◌∷◌}
use node_updater.Base.Dict.{Dict}
use node_updater.Cluster.{Error, client, message, ConfigMap, error_text, is_not_found}
use node_updater.World.{
  Services, Reply, answered, failed, got_config_map, created_config_map, deleted_config_map,
  History, Outcome, ok, err, attempt, on_error, call, pure, throw, ◌>>=◌,
}
use node_updater.World.Calls.{get_config_map_call, create_config_map_call, delete_config_map_call}
use node_updater.Configmap.{
  get_config_map, create_missing, create_config_map, deletion_result, delete_config_map,
  get_config_map_data,
}

-- The entries, an error that is still a "not found", or a text that quotes the error twice.
abbrev pub data_result : Reply ConfigMap → Outcome Error (Dict String)
data_result (answered m) = ok m.entries
data_result (failed x) =
    if x.not_found
    then err (client x)
    else err (message ("failed to get ConfigMap data: " <> ("failed to get ConfigMap: " <> x.text)))

-- A deletion succeeds too where there is nothing to delete.
abbrev pub delete_result : Reply (Unit {0}) → Outcome Error (Unit {0})
delete_result (answered u) = ok tt
delete_result (failed x) =
    if x.not_found then ok tt else err (message ("failed to delete ConfigMap: " <> x.text))

abbrev pub create_result : Reply (Unit {0}) → Outcome Error (Unit {0})
create_result (answered u) = ok tt
create_result (failed x) = err (message ("failed to create ConfigMap: " <> x.text))

-- A map that is there is left as it is. After any failure of the reading the creation is tried.
abbrev pub creation :
    Services → String → ConfigMap → History → Reply ConfigMap → Outcome Error (Unit {0}) × History
creation services ns m h (answered old) = (ok tt, got_config_map ns m.name (answered old) ∷ h)
creation services ns m h (failed x) =
    let h' = got_config_map ns m.name (failed x) ∷ h in
    let r = services.create_config_map h' ns m in (create_result r, created_config_map ns m r ∷ h')

module _ (services : Services) (ns name : String) (h : History) where
  abbrev pub asked : Reply ConfigMap
  asked = services.get_config_map h ns name

  -- `GetConfigMapData` makes one call. It returns the map's entries, and of the failures only a "not
  -- found" can still be told from the others.
  pub get_config_map_data_lem :
      get_config_map_data services ns name h ≡ (data_result asked, got_config_map ns name asked ∷ h)
  unfolding get_config_map_data get_config_map get_config_map_call call on_error pure ◌>>=◌
      error_text is_not_found
  get_config_map_data_lem = ground arith

  -- `DeleteConfigMap` makes one call, and succeeds where the map was deleted or was not there.
  pub delete_config_map_lem : delete_config_map services ns name h ≡ (
    delete_result (services.delete_config_map h ns name),
    deleted_config_map ns name (services.delete_config_map h ns name) ∷ h,
  )
  unfolding delete_config_map deletion_result delete_config_map_call call attempt pure throw ◌>>=◌
      error_text is_not_found
  delete_config_map_lem = ground arith

  -- `CreateConfigMap` reads the map first, and leaves one that is there as it is. After any failure
  -- of the reading it creates the map with the given entries, and succeeds if that does.
  pub create_config_map_lem :
      (entries : Dict String)
      → create_config_map services ns name entries h
        ≡ creation services ns (record { name = name; entries = entries }) h asked
  unfolding create_config_map create_missing get_config_map get_config_map_call
      create_config_map_call call on_error attempt pure ◌>>=◌ error_text
  create_config_map_lem entries = ground arith
