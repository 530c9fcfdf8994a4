-- ===== src/Safety/Evict.antt =====
-- Evicting obeys the policy: a pod goes after its agent and its job, and only if it is idle and on
-- a node of a pool that is emptied.
use node_updater.Base.{
  String, ◌≡◌, refl, Any, Option, List, some, All, All-In, All-map, ◌∷◌, none, Bool-cases, ◌==◌, ap,
  inl, sym, inr, [], first, Any-map,
}
use node_updater.Safety.Policy.{Permitted, Stranded, MayEvict, IsEmptied}
use node_updater.World.{Services, History, deleted_job, answered}
use node_updater.Azuredevops.{AzureDevopsController}
use node_updater.Cluster.{SafeEvict, Pod, OwnerReference, Node}
use node_updater.Pods.{
  kill_pod, evict_idle_pod, get_pods_pool, pool_or_error, azp_pool, evict_idle_pods,
}
use node_updater.Job.{kill_job_by_pod, job_name, kill_owned, delete_named}
use node_updater.World.Trace.{
  Policy, Run, Anything, Reading, Run-bind, Run-on_error, Run-call, Grows-trans, Run-weaken,
  Run-pure, Run-throw, Run-for_each, Run-if,
}
use node_updater.World.Calls.{delete_job, get_pod, delete_pod}
use node_updater.Pods.Idle.{IsIdle, Grows-IsIdle, AllIdle}
use node_updater.Azuredevops.Evidence.{Run-disable_agent, Run-remove_agent, Grows-Disabled}
use node_updater.Safety.Reads.{Grows-Stranded, Grows-MayEvict, reads, sends}
use node_updater.Controller.Defs.{filter_pods_on_nodes}
use node_updater.Nodepool.Evidence.{NodesListed}
use node_updater.Nodepool.{on_node}
use node_updater.Nodepool.Standing.{on_node-In, StandsIn-listed}

module _ (services : Services) (devops : AzureDevopsController) (namespace : String)
    (se : SafeEvict) where
  abbrev K : Policy
  K = Permitted services devops namespace se

  Run-get_pods_pool :
      (name ns : String) {h : History} → Run Reading Anything h (get_pods_pool services name ns h)
  unfolding get_pods_pool get_pod pool_or_error
  Run-get_pods_pool name ns =
      Run-bind {M = Anything} _ _ (Run-on_error _ _ (Run-call _ _ (λ r. tt) (λ a. tt)))
        (λ pod g grown p. pool (azp_pool pod.containers))
    where
      pool : (o : Option String) {g : History} → Run Reading Anything g (pool_or_error name ns o g)
      pool (some v) = Run-pure v tt
      pool none = Run-throw _

  abbrev JobDeleted : Pod → History → Type 0
  JobDeleted pod =
      Any (λ e. e ≡ deleted_job pod.namespace (job_name pod.owner_references) (answered tt))

  Run-kill_owned :
      (pod : Pod) (owners : List OwnerReference) {h : History}
      → pod.owner_references ≡ owners
      → MayEvict services devops se pod h
      → Run K (λ u. JobDeleted pod) h (kill_owned services pod owners h)
  unfolding kill_owned delete_named delete_job
  Run-kill_owned pod [] e may = Run-throw _
  Run-kill_owned pod (owner ∷ owners) e may =
      Run-if (job_name (owner ∷ owners) == "") _ _ (λ nameless. Run-throw _)
        (λ named. Run-on_error _ _ (
          Run-call _ _ (λ r. (pod, refl, ap job_name (sym e), may))
            (λ a.
              first (ap (λ os. deleted_job pod.namespace (job_name os) (answered tt)) (sym e)))))

  Run-kill_job_by_pod :
      (pod : Pod) {h : History}
      → MayEvict services devops se pod h
      → Run K (λ u. JobDeleted pod) h (kill_job_by_pod services pod h)
  unfolding kill_job_by_pod
  Run-kill_job_by_pod pod may = Run-kill_owned pod pod.owner_references refl may

  Run-kill_pod :
      (pod : Pod) {h : History}
      → MayEvict services devops se pod h
      → JobDeleted pod h
      → Run K Anything h (kill_pod services pod h)
  unfolding kill_pod delete_pod
  Run-kill_pod pod may gone =
      Run-on_error _ _ (Run-call _ _ (λ r. (pod, refl, refl, may, gone)) (λ a. tt))

  abbrev pub Target : Pod → History → Type 0
  Target pod h = IsIdle se pod h × Stranded se pod h

  Run-evict_idle_pod :
      (pod : Pod) {h : History}
      → Target pod h
      → Run K Anything h (evict_idle_pod services devops pod h)
  unfolding evict_idle_pod
  Run-evict_idle_pod pod (idle, stranded) =
      Run-bind _ _ (reads services devops namespace se (Run-get_pods_pool pod.name pod.namespace))
        (λ pool g1 grown1 p.
          Run-bind _ _
            (sends services devops namespace se (Run-disable_agent services devops pool pod.name))
            (λ u g2 grown2 disabled.
              Run-bind _ _
                (sends services devops namespace se
                  (Run-remove_agent services devops pool pod.name))
                (λ u' g3 grown3 removed.
                  let grown = Grows-trans grown1 (Grows-trans grown2 grown3) in
                  let may : MayEvict services devops se pod g3 = (
                    Grows-IsIdle grown idle,
                    Grows-Stranded grown se pod stranded,
                    Grows-Disabled services devops pod.name grown3 disabled,
                    removed,
                  ) in
                  Run-bind _ _ (Run-kill_job_by_pod pod may) (λ u'' g4 grown4 gone.
                    Run-kill_pod pod (Grows-MayEvict grown4 services devops se pod may) gone))))

  abbrev pub Targets : List Pod → History → Type 0
  Targets pods h = All (λ pod. Target pod h) pods

  pub Run-evict_idle_pods :
      (pods : List Pod) {h : History}
      → Targets pods h
      → Run K Anything h (evict_idle_pods services devops pods h)
  unfolding evict_idle_pods
  Run-evict_idle_pods pods targets =
      Run-weaken
        (Run-for_each {I = Targets pods} pods _ targets (λ pod g m ts.
          Run-weaken (Run-evict_idle_pod pod (All-In _ pods pod ts m)) (λ u g' grown done.
            All-map _ pods
              (λ x (idle, stranded). (Grows-IsIdle grown idle, Grows-Stranded grown se x stranded))
              ts)))
        (λ u g grown ts. tt)

  -- What passes the filter stands on one of the nodes.
  pub filtered-Targets :
      (pool : String) (nodes : List Node) (pods : List Pod) {h : History}
      → NodesListed pool nodes h
      → IsEmptied se pool h
      → AllIdle se pods h
      → Targets (filter_pods_on_nodes pods nodes) h
  unfolding filter_pods_on_nodes
  filtered-Targets pool nodes [] listed emptied idle = tt
  filtered-Targets pool nodes (pod ∷ pods) listed emptied (i, idle) =
      let rest = filtered-Targets pool nodes pods listed emptied idle in
      elim (Bool-cases (on_node pod nodes)) [
        | inl on ↦
            let (node, m, named) = on_node-In pod nodes on in
            rw on (
              (
                i,
                (
                  pool,
                  node,
                  Any-map (λ e l. StandsIn-listed pool nodes node e m l) listed,
                  named,
                  emptied,
                ),
              ),
              rest,
            )
        | inr off ↦ rw off rest
      ]
