-- ===== src/Pods.antt =====
-- internal/pod/pod_controller.go
pub mod Idle
pub mod Safe
pub mod Chosen
pub mod Selection
pub mod Changes
pub mod Evicted
use node_updater.Base.{
  String, ◌<>◌, ◌==◌, ◌!=◌, Bool, false, true, ◌&&◌, Option, none, some, List, [], ◌∷◌, ◌++◌,
  if◌then◌else◌, contains, has_suffix,
}
use node_updater.Base.Dict.{lookup}
use node_updater.Cluster.{Error, message, wrapped, client, SafeEvictSpec, Container, EnvVar, Pod}
use node_updater.World.{
  Services, Reply, answered, failed, Exec, pure, throw, on_error, Tried, returned, raised, attempt,
  range, for_each, fold_each, ◌>>=◌, ◌>>◌,
}
use node_updater.World.Calls.{get_pod, stream_logs, list_pods, delete_pod}
use node_updater.Job.{kill_job_by_pod}
use node_updater.Azuredevops.{AzureDevopsController, disable_agent, remove_agent}

-- `m[key]` of a map of strings: the empty string for a missing key.
abbrev pub or_empty : Option String → String
or_empty none = ""
or_empty (some v) = v

abbrev pub running : String
running = "Running"

-- The loops over the containers and their variables.
unfoldable pub env_value : List EnvVar → Option String
env_value [] = none
env_value (var ∷ vars) =
    let rest = env_value vars in if var.name == "AZP_POOL" then some var.value else rest

unfoldable pub azp_pool : List Container → Option String
azp_pool [] = none
azp_pool (container ∷ containers) =
    let rest = azp_pool containers in
    elim (env_value container.env) [ none ↦ rest | some value ↦ some value ]

-- The loop over the last log lines that mark an idle pod.
unfoldable pub ends_with_any : String → List String → Bool
ends_with_any logs [] = false
ends_with_any logs (line ∷ lines) =
    let rest = ends_with_any logs lines in if has_suffix logs line then true else rest

-- The test of `GetSafeToEvictPods` on one entry of the label selector.
abbrev pub differs : Pod → String → String → Bool
differs pod key value = or_empty (lookup key pod.labels) != value && pod.phase == running

unfoldable pub read_logs : String → Reply String → Exec Error String
read_logs text (answered logs) = pure logs
read_logs text (failed e) = throw (wrapped ("failed to read logs for pod '" <> text) (client e))

unfoldable pub pool_or_error : String → String → Option String → Exec Error String
pool_or_error pod_name namespace (some pool) = pure pool
pool_or_error pod_name namespace none = throw (
    message (
      (("environment variable AZP_POOL not found in pod '" <> pod_name) <> "' in namespace ")
      <> namespace))

-- A pod whose logs cannot be read is passed over.
unfoldable pub judge : SafeEvictSpec → Pod → List Pod → Tried String → Exec Error (List Pod)
judge spec pod filtered (raised e) = pure filtered
judge spec pod filtered (returned logs) =
    pure (if ends_with_any logs spec.last_log_lines then filtered ++ pod ∷ [] else filtered)

module _ (services : Services) where
  unfoldable pub fetch_pod_logs : String → String → Exec Error String
  fetch_pod_logs pod_name namespace = do
    let text = ((pod_name <> "' in namespace ") <> namespace) <> ": "
    stream ←
        on_error (wrapped ("failed to fetch logs for pod '" <> text))
          (stream_logs services namespace pod_name)
    read_logs text stream

  unfoldable pub get_pods_pool : String → String → Exec Error String
  get_pods_pool pod_name namespace = do
    pod ←
        on_error
          (wrapped
            (((("failed to get pod '" <> pod_name) <> "' in namespace ") <> namespace) <> ": "))
          (get_pod services namespace pod_name)
    pool_or_error pod_name namespace (azp_pool pod.containers)

  unfoldable pub kill_pod : Pod → Exec Error (Unit {0})
  kill_pod pod =
      on_error
        (wrapped (
          ((("failed to delete pod '" <> pod.name) <> "' in namespace ") <> pod.namespace) <> ": "))
        (delete_pod services pod.namespace pod.name)

  unfoldable pub inspect : SafeEvictSpec → Pod → List Pod → Exec Error (List Pod)
  inspect spec pod filtered = do
    logs ← attempt (fetch_pod_logs pod.name pod.namespace)
    judge spec pod filtered logs

  -- One round of the loop over the label selector.
  unfoldable pub check_label :
      SafeEvictSpec → Pod → List Pod → String × String → Exec Error (List Pod)
  check_label spec pod filtered (key, value) =
      if differs pod key value then inspect spec pod filtered else pure filtered

  unfoldable pub check_labels : SafeEvictSpec → Pod → List Pod → Exec Error (List Pod)
  check_labels spec pod filtered = do
    entries ← range services spec.label_selector
    fold_each entries filtered (check_label spec pod)

  -- One round of the loop over the pods.
  unfoldable pub check_pod : SafeEvictSpec → List Pod → Pod → Exec Error (List Pod)
  check_pod spec filtered pod =
      if contains spec.namespaces pod.namespace
      then check_labels spec pod filtered
      else pure filtered

  unfoldable pub get_safe_to_evict_pods : SafeEvictSpec → Exec Error (List Pod)
  get_safe_to_evict_pods spec = do
    pods ← on_error (wrapped "failed to list pods: ") (list_pods services "")
    fold_each pods [] (check_pod spec)

module _ (services : Services) (devops : AzureDevopsController) where
  -- One round of the loop of `EvictIdlePods`.
  unfoldable pub evict_idle_pod : Pod → Exec Error (Unit {0})
  evict_idle_pod pod = do
    pool_name ← get_pods_pool services pod.name pod.namespace
    disable_agent services devops pool_name pod.name
    remove_agent services devops pool_name pod.name
    kill_job_by_pod services pod
    kill_pod services pod

  unfoldable pub evict_idle_pods : List Pod → Exec Error (Unit {0})
  evict_idle_pods pods = for_each pods evict_idle_pod
