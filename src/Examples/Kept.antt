-- ===== src/Examples/Kept.antt =====
-- An API server that keeps config maps as documented, and the results on what it keeps.
use node_updater.Base.{
  refl, String, Option, some, none, [], ◌∷◌, true, ap, List, false, ◌≡◌, arith, Bool, ◌&&◌,
  if◌then◌else◌, ◌==◌, string_dec, ◌⊎◌,
}
use node_updater.Configmap.Store.{
  Store, stored, IsApiServer, all_concretely, Operation, all_abstractly, save,
  all_concretely-Refines, load, forget, store_at,
}
use node_updater.Safety.Loop.{run}
use node_updater.Cluster.{ClientError, ConfigMap}
use node_updater.World.{Services, Reply, failed, answered, Event, History, created_config_map}
use node_updater.Examples.{cluster, missing_map, reconciler, pool_of}
use node_updater.World.Trace.{Obeys}
use node_updater.Safety.Saved.{run_next, started, Accepts, Runs, Forgotten, Runs-kept}

abbrev no_map : ClientError
no_map = record { not_found = true; status_code = some 404; text = "not found" }

abbrev exists : ClientError
exists = record { not_found = false; status_code = some 409; text = "already exists" }

abbrev reading : Option ConfigMap → Reply ConfigMap
reading (some m) = answered m
reading none = failed no_map

abbrev creating : Option ConfigMap → Reply (Unit {0})
creating (some m) = failed exists
creating none = answered tt

abbrev deleting : Option ConfigMap → Reply (Unit {0})
deleting (some m) = answered tt
deleting none = failed no_map

-- The cluster of the examples, with a store behind its config maps.
abbrev keeping : Store → Services
keeping start = record (cluster "v1" missing_map) {
  get_config_map = λ h ns name. reading (stored start h ns name);
  create_config_map = λ h ns m. creating (stored start h ns m.name);
  delete_config_map = λ h ns name. deleting (stored start h ns name);
}

keeping-IsApiServer : (start : Store) → IsApiServer (keeping start) start
keeping-IsApiServer start = record {
  finds = λ h ns name m e. ap reading e;
  misses = λ h ns name e. (no_map, ap reading e, refl);
  creates = λ h ns m e. ap creating e;
  deletes = λ h ns name m e. ap deleting e;
  lacks = λ h ns name e. (no_map, ap deleting e, refl);
}

abbrev empty : Store
empty ns name = none

abbrev saves : List Operation
saves =
    save "ops" "m" (("agent", "1") ∷ [])
    ∷ save "ops" "m" []
    ∷ load "ops" "m"
    ∷ forget "ops" "m"
    ∷ load "ops" "m"
    ∷ []

all_concretely-Refines_example :
    let (answers, h) = all_concretely (keeping empty) saves [] in
    (answers, stored empty h) ≡ all_abstractly saves empty
unfolding stored
all_concretely-Refines_example =
    all_concretely-Refines (keeping empty) empty (keeping-IsApiServer empty) saves []

-- Whether each creation was accepted only where nothing is stored.
abbrev is_none : Option ConfigMap → Bool
is_none none = true
is_none (some m) = false

abbrev is_accepted : Store → Event → History → Bool
is_accepted s (created_config_map ns m (answered u)) h = is_none (stored s h ns m.name)
is_accepted s _ h = true

abbrev all_accepted : Store → History → Bool
all_accepted s [] = true
all_accepted s (e ∷ h) = is_accepted s e h && all_accepted s h

is_none-none : (o : Option ConfigMap) → is_none o ≡ true → o ≡ none
is_none-none o e = ground arith

is_accepted-Accepts :
    (s : Store) (e : Event) (h : History) → is_accepted s e h ≡ true → Accepts s e h
is_accepted-Accepts s (created_config_map ns m (answered u)) h t = is_none-none _ t
is_accepted-Accepts s _ h t = tt

all_accepted-Obeys : (s : Store) (h : History) → all_accepted s h ≡ true → Obeys (Accepts s) h
all_accepted-Obeys s [] t = tt
all_accepted-Obeys s (e ∷ h) t =
    (is_accepted-Accepts s e h (ground arith), all_accepted-Obeys s h (ground arith))

abbrev held_map : ConfigMap
held_map = record { name = "devops"; entries = ("agent", "{\"Count\": 3}") ∷ [] }

abbrev held : Store
held = store_at "ops" "tmpdevops" (some held_map) empty

-- Everything is up to date, and the temporary pool is missing.
abbrev finished : Services
finished = record (cluster "v1" missing_map) {
  get_pool = λ h name. if name == "tmpagent" then failed no_map else answered (pool_of name);
  get_config_map = λ h ns name. reading (stored held h ns name);
  create_config_map = λ h ns m. creating (stored held h ns m.name);
  delete_config_map = λ h ns name. deleting (stored held h ns name);
}

finished_accepted : all_accepted held (run finished reconciler "ops" "devops") ≡ true
unfolding node_updater.Controller.Loop.reconcile node_updater.Controller.Loop.reconcile_body
    node_updater.World.Calls.get_safe_evict node_updater.Controller.Loop.reconcile_found
    node_updater.Nodepool.update_needed node_updater.Nodepool.get_node_image_versions
    node_updater.World.Calls.list_nodes node_updater.World.range node_updater.World.fold_each
    node_updater.Base.shuffle node_updater.Nodepool.image_versions
    node_updater.Nodepool.record_version node_updater.Base.Dict.lookup node_updater.Base.Dict.insert
    node_updater.Base.string_dec node_updater.Nodepool.check_version
    node_updater.Nodepool.get_node_pool_upgrade_profile node_updater.World.Calls.get_upgrade_profile
    node_updater.Nodepool.latest_version node_updater.Nodepool.get_not_ready_node_pools
    node_updater.Nodepool.check_ready node_updater.Nodepool.add_unready
    node_updater.Nodepool.get_node_pool_by_name node_updater.World.Calls.get_pool
    node_updater.Controller.Defs.merge node_updater.Controller.Loop.reconcile_outdated
    node_updater.Nodepool.node_pool_exists node_updater.Nodepool.existence
    node_updater.Nodepool.existence_by node_updater.Controller.Stages.ensure_temporary_pool
    node_updater.Cluster.get_configmap_name node_updater.Cluster.get_temporary_nodepool_name
    node_updater.Configmap.delete_config_map node_updater.Configmap.deletion_result
    node_updater.World.Calls.delete_config_map_call node_updater.World.attempt
    node_updater.World.on_error node_updater.World.pure node_updater.World.throw
    node_updater.World.call node_updater.World.◌>>=◌ node_updater.Configmap.Store.stored
    node_updater.Cluster.response_status node_updater.Base.contains
    node_updater.Nodepool.get_nodes_by_node_pool
finished_accepted = refl

-- A run over that cluster, behind none before it.
abbrev one_run :
    Runs reconciler "ops" "devops" held (stored held (run finished reconciler "ops" "devops"))
one_run = run_next finished started (all_accepted-Obeys held _ finished_accepted)

Runs-kept_example :
    (stored held (run finished reconciler "ops" "devops") "ops" "tmpdevops" ≡ some held_map)
    ⊎ Forgotten reconciler "ops" "devops" "ops" "tmpdevops" one_run
unfolding string_dec
Runs-kept_example = Runs-kept reconciler "ops" "devops" "ops" "tmpdevops" held_map one_run refl
