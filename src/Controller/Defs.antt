-- ===== src/Controller/Defs.antt =====
-- internal/controller/safeevict_controller.go: the types of the reconciler, with the settings of
-- internal/appconfig/appconfig.go, the eviction, and the forms of a return.
use node_updater.Base.{
  String, ◌<>◌, true, false, Bool, Option, none, some, List, [], ◌∷◌, if◌then◌else◌,
}
use node_updater.Base.Dict.{Dict, insert}
use node_updater.Base.Int.{ℤ}
use node_updater.Base.Decimal.{itoa}
use node_updater.Cluster.{Error, SafeEvict, Node, Pod, AgentPool}
use node_updater.World.{
  Services, Outcome, ok, err, panic, Exec, on_error, range, for_each, ◌>>=◌, ◌>>◌,
}
use node_updater.Azuredevops.{AzureDevopsController}
use node_updater.Pods.{get_safe_to_evict_pods, evict_idle_pods}
use node_updater.Nodepool.{on_node, get_nodes_by_node_pool}
use node_updater.Nodepool.Change.{cordon_nodes_by_agent_pool}
use node_updater.Nodepool.Scaling.{disable_auto_scaling}

-- Durations.
pub record Config : Type 0 where
  pub error_reconcile_time : ℤ
  pub success_reconcile_time : ℤ
  pub upgrade_frequency : ℤ

pub record SafeEvictReconciler : Type 0 where
  pub devops : AzureDevopsController
  pub config : Config

-- `(reconcile.Result{RequeueAfter: …}, err)`
pub record Reconciled : Type 0 where
  pub requeue_after : ℤ
  pub error : Option Error

unfoldable pub filter_pods_on_nodes : List Pod → List Node → List Pod
filter_pods_on_nodes [] nodes = []
filter_pods_on_nodes (pod ∷ pods) nodes =
    let rest = filter_pods_on_nodes pods nodes in if on_node pod nodes then pod ∷ rest else rest

abbrev pub is_empty : {A : Type 0} → List A → Bool
is_empty [] = true
is_empty (x ∷ xs) = false

-- `for poolName, pool := range notReadyPools { outdatedNodePools[poolName] = pool }`
unfoldable pub merge : List (String × AgentPool) → Dict AgentPool → Dict AgentPool
merge [] m = m
merge ((name, pool) ∷ pools) m = merge pools (insert name pool m)

abbrev pub range_text : ℤ → ℤ → String
range_text min max = ((("{\"MinCount\": " <> itoa min) <> ", \"MaxCount\": ") <> itoa max) <> "}"

abbrev pub count_text : ℤ → String
count_text n = ("{\"Count\": " <> itoa n) <> "}"

-- The result of a body, however it was returned.
abbrev pub settled : {E : Type 0} → Outcome E E → Outcome ⊥ E
settled (ok r) = ok r
settled (err r) = ok r
settled panic = panic

abbrev pub done : ℤ → Reconciled
done time = record { requeue_after = time; error = none }

-- `return reconcile.Result{RequeueAfter: c.Config.ErrorReconcileTime}, err`
abbrev pub failing : SafeEvictReconciler → Error → Reconciled
failing c e = record { requeue_after = c.config.error_reconcile_time; error = some e }

abbrev pub or_fail : {A : Type 0} → SafeEvictReconciler → Exec Error A → Exec Reconciled A
or_fail c = on_error (failing c)

-- The same return, with a nil error.
abbrev pub or_retry : {A : Type 0} → SafeEvictReconciler → Exec Error A → Exec Reconciled A
or_retry c = on_error (λ e. done c.config.error_reconcile_time)

module _ (services : Services) (c : SafeEvictReconciler) where
  -- One round of the loop of `performSafeEviction`.
  unfoldable pub evict_from_pool : SafeEvict → String × AgentPool → Exec Error (Unit {0})
  evict_from_pool se (name, pool) = do
    cordon_nodes_by_agent_pool services name true
    pods ← get_safe_to_evict_pods services se.spec
    nodes ← get_nodes_by_node_pool services name
    evict_idle_pods services c.devops (filter_pods_on_nodes pods nodes)

  unfoldable pub perform_safe_eviction : Dict AgentPool → SafeEvict → Exec Error (Unit {0})
  perform_safe_eviction pools se = do
    disable_auto_scaling services pools
    entries ← range services pools
    for_each entries (evict_from_pool se)
