-- ===== src/Pods/Safe.antt =====
-- internal/pod/pod_controller.go and internal/job/job_controller.go never dereference a nil pointer.
use node_updater.Base.{String, Option, none, some, List, [], ◌∷◌}
use node_updater.Pods.{
  pool_or_error, read_logs, judge, get_safe_to_evict_pods, evict_idle_pods, check_pod,
  evict_idle_pod, check_labels, check_label, get_pods_pool, inspect, kill_pod, fetch_pod_logs,
}
use node_updater.World.{Services, Reply, answered, Tried, raised, failed, returned}
use node_updater.Job.{kill_owned, delete_named, kill_job_by_pod}
use node_updater.World.Total.{
  Safe, Safe-throw, Safe-pure, safe_rules, Safe-if, Safe-bind, Safe-range, Safe-fold_each,
}
use node_updater.Cluster.{SafeEvictSpec, Pod, OwnerReference}
use node_updater.World.Calls.{delete_job, list_pods, get_pod, stream_logs, delete_pod}
use node_updater.Azuredevops.{AzureDevopsController}
use node_updater.Azuredevops.Safe.{disable_agent-Safe, remove_agent-Safe}

kill_owned-Safe :
    (services : Services) (pod : Pod) (owners : List OwnerReference)
    → Safe (kill_owned services pod owners)
unfolding kill_owned delete_named delete_job
kill_owned-Safe services pod [] = Safe-throw _
kill_owned-Safe services pod (owner ∷ owners) = search safe_rules

pool_or_error-Safe : (name ns : String) (o : Option String) → Safe (pool_or_error name ns o)
unfolding pool_or_error
pool_or_error-Safe name ns none = Safe-throw _
pool_or_error-Safe name ns (some pool) = Safe-pure pool

read_logs-Safe : (text : String) (r : Reply String) → Safe (read_logs text r)
unfolding read_logs
read_logs-Safe text (answered logs) = Safe-pure logs
read_logs-Safe text (failed e) = Safe-throw _

judge-Safe :
    (spec : SafeEvictSpec) (pod : Pod) (filtered : List Pod) (t : Tried String)
    → Safe (judge spec pod filtered t)
unfolding judge
judge-Safe spec pod filtered (raised e) = Safe-pure _
judge-Safe spec pod filtered (returned logs) = Safe-pure _

module _ (services : Services) where
  inspect-Safe :
      (spec : SafeEvictSpec) (pod : Pod) (filtered : List Pod)
      → Safe (inspect services spec pod filtered)
  unfolding inspect fetch_pod_logs stream_logs
  inspect-Safe spec pod filtered = search (read_logs-Safe, judge-Safe, safe_rules) depth 16

  check_pod-Safe :
      (spec : SafeEvictSpec) (filtered : List Pod) (pod : Pod)
      → Safe (check_pod services spec filtered pod)
  unfolding check_pod check_labels check_label
  check_pod-Safe spec filtered pod =
      Safe-if _ _ _
        (Safe-bind _ _ (Safe-range services spec.label_selector) (λ entries.
          Safe-fold_each entries filtered (check_label services spec pod)
            (λ acc (key, value). Safe-if _ _ _ (inspect-Safe spec pod acc) (Safe-pure acc))))
        (Safe-pure filtered)

  pub get_safe_to_evict_pods-Safe :
      (spec : SafeEvictSpec) → Safe (get_safe_to_evict_pods services spec)
  unfolding get_safe_to_evict_pods list_pods
  get_safe_to_evict_pods-Safe spec = search (check_pod-Safe, safe_rules)

  pub evict_idle_pods-Safe :
      (devops : AzureDevopsController) (pods : List Pod)
      → Safe (evict_idle_pods services devops pods)
  unfolding evict_idle_pods evict_idle_pod get_pods_pool get_pod kill_pod delete_pod kill_job_by_pod
  evict_idle_pods-Safe devops pods =
      search
        (disable_agent-Safe, remove_agent-Safe, pool_or_error-Safe, kill_owned-Safe, safe_rules)
        depth 16
