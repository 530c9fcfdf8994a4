-- ===== src/Examples/Witnesses.antt =====
-- The results of the components at concrete inputs.
use node_updater.Base.{
  ◌<>◌, ◌≡◌, refl, true, false, some, none, List, [], ◌∷◌, length_text, take_text, contains,
  if◌then◌else◌, Bool, ◌≤◌, ◌↔◌, Any, ◌==◌, string_dec, String, subst, arith,
}
use node_updater.Cluster.{get_temporary_nodepool_name, Node, PoolProperties, user, Pod}
use node_updater.Base.Dict.{lookup, Dict, insert}
use node_updater.World.{Services, ok, failed, panic, got_config_map}
use node_updater.Examples.{
  cluster, node_of, resource, stored_map, idle_pod, reconciler, pool_of, missing_map,
}
use node_updater.Base.Int.{pos, to_int32, ℤ}
use node_updater.Nodepool.{has_running_stateful_pods, image_versions}
use node_updater.Nodepool.Queries.{first_version, image_versions_lem}
use node_updater.Cluster.Names.{get_temporary_nodepool_name_lem}
use node_updater.Nodepool.Busy.{IsBusy, has_running_stateful_pods_lem}
use node_updater.Nodepool.Scaling.{disable_pools, count_of, set_default_scaling}
use node_updater.World.Early.{Early}
use node_updater.Controller.Returns.{IsScheduled, reconcile-IsScheduled}
use node_updater.Nodepool.Settings.{
  named, Restored, HasSize, HasRange, of_size, in_range, set_default_scaling-size,
  set_default_scaling-range,
}
use node_updater.Nodepool.Conflict.{after, next, answer, disable_pools-conflict}
use node_updater.Controller.Loop.{reconcile}
use node_updater.Pods.{get_safe_to_evict_pods}
use node_updater.Configmap.{get_config_map_data, create_config_map}
use node_updater.Controller.Stages.{scaling_text}
use node_updater.Configmap.Results.{
  data_result, creation, asked, create_config_map_lem, get_config_map_data_lem,
}
use node_updater.Pods.Chosen.{Selected}
use node_updater.Pods.Selection.{get_safe_to_evict_pods_lem}
use node_updater.Controller.Texts.{scaling_text_lem}
use node_updater.Base.Json.{unmarshal_counts}
use node_updater.Controller.Restore.{scaling_text-restore_range, scaling_text-restore_size}
use node_updater.Controller.Defs.{Reconciled}
use node_updater.Nodepool.Total.{IsAzure, IsComplete}
use node_updater.Controller.Total.{reconcile-returns}
use node_updater.Job.{kill_job_by_pod}
use node_updater.Job.Results.{kill, kill_job_by_pod_lem}

get_temporary_nodepool_name_example :
    (get_temporary_nodepool_name resource ≡ "tmp" <> take_text 9 resource.spec.base_for_backup_pool)
    × (length_text (get_temporary_nodepool_name resource) ≤ 12)
get_temporary_nodepool_name_example = get_temporary_nodepool_name_lem resource

abbrev two_nodes : List Node
two_nodes = node_of "node-2" "tmpagent" ∷ node_of "node-1" "agent" ∷ []

image_versions_example :
    lookup "agent" (image_versions ("agent" ∷ []) two_nodes [])
    ≡ (if contains ("agent" ∷ []) "agent" then first_version "agent" two_nodes else none)
image_versions_example = image_versions_lem ("agent" ∷ []) two_nodes "agent"

abbrev calm : Services
calm = cluster "v1" stored_map

has_running_stateful_pods_example :
    (b : Bool) × ((has_running_stateful_pods calm two_nodes ("" ∷ "agents" ∷ []) []).0 ≡ ok b)
    × ((b ≡ true)
        ↔ Any
            (λ ns. Any (IsBusy two_nodes) (if ns == "" then idle_pod ∷ [] else []))
            ("" ∷ "agents" ∷ []))
has_running_stateful_pods_example =
    has_running_stateful_pods_lem calm (λ ns. if ns == "" then idle_pod ∷ [] else []) (λ h ns. refl)
      two_nodes ("" ∷ "agents" ∷ []) []

abbrev three : PoolProperties
three = record {
  vm_size = some "large";
  count = some (pos 2);
  min_count = none;
  max_count = none;
  vnet_subnet_id = none;
  mode = some user;
  enable_auto_scaling = some true;
  orchestrator_version = none;
  node_labels = [];
  node_taints = [];
  os_type = some "Linux";
  provisioning_state = some "Succeeded";
  others = ("maxPods", "110") ∷ [];
}

abbrev ranged_counts : Dict ℤ
ranged_counts = ("MinCount", pos 1) ∷ ("MaxCount", pos 4) ∷ []

abbrev ranged_text : String
ranged_text = "{\"MinCount\": 1, \"MaxCount\": 4}"

abbrev sized_text : String
sized_text = "{\"Count\": 3}"

set_default_scaling-range_example :
    Restored calm "agent"
      (HasRange three (pos 1) (pos 4))
      (in_range three (pos 1) (pos 4))
      []
      (set_default_scaling calm (named "agent" three) ranged_text [])
    × (set_default_scaling calm (named "agent" (in_range three (pos 1) (pos 4))) ranged_text []
        ≡ (ok tt, []))
unfolding count_of lookup to_int32 string_dec unmarshal_counts insert
set_default_scaling-range_example =
    set_default_scaling-range calm "agent" ranged_text three ranged_counts refl refl (pos 1) (pos 4)
      [] refl refl

abbrev sized_counts : Dict ℤ
sized_counts = ("Count", pos 3) ∷ []

set_default_scaling-size_example :
    Restored calm "agent"
      (HasSize three (pos 3))
      (of_size three (pos 3))
      []
      (set_default_scaling calm (named "agent" three) sized_text [])
    × (set_default_scaling calm (named "agent" (of_size three (pos 3))) sized_text [] ≡ (ok tt, []))
unfolding count_of lookup to_int32 string_dec unmarshal_counts insert
set_default_scaling-size_example =
    set_default_scaling-size calm "agent" sized_text three sized_counts refl refl (pos 3) [] refl
      refl

abbrev busy_azure : Services
busy_azure = record calm {
  put_pool =
      λ h name pool. failed (record { not_found = false; status_code = some 409; text = "" });
}

disable_pools-conflict_example :
    disable_pools busy_azure (("a", named "a" three) ∷ ("b", pool_of "b") ∷ []) []
    ≡ after busy_azure "a" three
        (("b", pool_of "b") ∷ [])
        (next busy_azure "a" three [])
        (answer busy_azure "a" three [])
disable_pools-conflict_example =
    disable_pools-conflict busy_azure "a" three "a" (("b", pool_of "b") ∷ []) [] refl refl

reconcile-IsScheduled_example :
    Early (IsScheduled reconciler) (λ e. ⊥) (reconcile calm reconciler "ops" "devops" []).0
reconcile-IsScheduled_example = reconcile-IsScheduled calm reconciler "ops" "devops" []

get_config_map_data_lem_example : get_config_map_data calm "ops" "tmpdevops" [] ≡ (
  data_result (asked calm "ops" "tmpdevops" []),
  got_config_map "ops" "tmpdevops" (asked calm "ops" "tmpdevops" []) ∷ [],
)
get_config_map_data_lem_example = get_config_map_data_lem calm "ops" "tmpdevops" []

create_config_map_lem_example :
    create_config_map (cluster "v2" missing_map) "ops" "m" (("agent", "{}") ∷ []) []
    ≡ creation
        (cluster "v2" missing_map)
        "ops"
        (record { name = "m"; entries = ("agent", "{}") ∷ [] })
        []
        (asked (cluster "v2" missing_map) "ops" "m" [])
create_config_map_lem_example =
    create_config_map_lem (cluster "v2" missing_map) "ops" "m" [] (("agent", "{}") ∷ [])

scaling_text_lem_example :
    scaling_text
      (record { name = none; properties = some (record three { min_count = some (pos 1) }) })
      []
    ≡ (panic, [])
scaling_text_lem_example = scaling_text_lem none (record three { min_count = some (pos 1) }) []

get_safe_to_evict_pods_lem_example :
    (out : List Pod) × ((get_safe_to_evict_pods calm resource.spec []).0 ≡ ok out)
    × Selected resource.spec
        (λ ns name. "Agent reconnected.\nListening for Jobs\n")
        (idle_pod ∷ [])
        out
unfolding string_dec
get_safe_to_evict_pods_lem_example =
    get_safe_to_evict_pods_lem calm resource.spec
      (λ ns name. "Agent reconnected.\nListening for Jobs\n") (λ h ns name. refl) (idle_pod ∷ []) []
      refl

-- The pools of the example are complete, and no answer about them is an error.
pool_of-IsComplete : (name : String) → IsComplete (pool_of name)
pool_of-IsComplete name = record {
  name = name;
  named = refl;
  properties = record three {
    count = some (pos 3);
    min_count = some (pos 1);
    max_count = some (pos 5);
  };
  described = refl;
  state = "Succeeded";
  provisioned = refl;
  counts = tt;
}

calm-IsAzure : IsAzure calm
calm-IsAzure = record {
  complete = λ h name pool e. subst IsComplete (cc) (pool_of-IsComplete name);
  foreign = λ h name x e. cc;
}

reconcile-returns_example :
    (a : Reconciled) × ((reconcile calm reconciler "ops" "devops" []).0 ≡ ok a)
    × IsScheduled reconciler a
reconcile-returns_example = reconcile-returns calm reconciler calm-IsAzure "ops" "devops" []

scaling_text-restore_range_example :
    (text : String) × (scaling_text (named "agent" (in_range three (pos 1) (pos 4))) []
      ≡ (ok text, []))
    × Restored calm "agent"
        (HasRange three (pos 1) (pos 4))
        (in_range three (pos 1) (pos 4))
        []
        (set_default_scaling calm (named "agent" three) text [])
scaling_text-restore_range_example =
    scaling_text-restore_range calm "agent" (in_range three (pos 1) (pos 4)) three (pos 1) (pos 4)
      [] [] refl refl (omega arith) (omega arith) refl

scaling_text-restore_size_example :
    (text : String) × (scaling_text (named "agent" (of_size three (pos 3))) [] ≡ (ok text, []))
    × Restored calm "agent"
        (HasSize three (pos 3))
        (of_size three (pos 3))
        []
        (set_default_scaling calm (named "agent" three) text [])
scaling_text-restore_size_example =
    scaling_text-restore_size calm "agent" (of_size three (pos 3)) three (pos 3) [] [] refl refl
      refl (omega arith) refl

kill_job_by_pod_lem_example :
    kill_job_by_pod calm idle_pod [] ≡ kill calm idle_pod idle_pod.owner_references []
kill_job_by_pod_lem_example = kill_job_by_pod_lem calm idle_pod []
