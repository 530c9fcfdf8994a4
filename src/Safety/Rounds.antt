-- ===== src/Safety/Rounds.antt =====
-- The loops of `Reconcile` and its last part obey the policy.
use node_updater.Base.{
  String, ◌≡◌, refl, Bool, List, some, In, false, true, arith, none, inr, All, All-of-In, All-In,
  In-shuffle, All-map,
}
use node_updater.Safety.Policy.{Permitted, ReadEntry, MayDelete, Saved, IsEmptied}
use node_updater.World.{Services, Tried, History, returned, raised}
use node_updater.Controller.Defs.{SafeEvictReconciler, perform_safe_eviction, evict_from_pool}
use node_updater.Cluster.{SafeEvict, get_temporary_nodepool_name, AgentPool, Node, is_not_found}
use node_updater.Controller.Stages.{
  upgrade_drained, clean_up, restore_pool, found_temporary, upgrade_pool_of, remove_resources,
  uncordon, restore_up_to_date, empty_and_remove,
}
use node_updater.World.Trace.{
  Policy, PostTried, Run, Anything, Run-weaken, Run-bind, Run-if, Run-attempt, Run-on_error,
  Run-pure, Run-range, Grows-Any, Grows-trans, Run-for_each, Run-deref, Run-throw, more,
}
use node_updater.Base.Dict.{Dict, lookup}
use node_updater.Safety.Scaling.{Known, Run-disable_auto_scaling}
use node_updater.Safety.Restoring.{Run-set_default_scaling}
use node_updater.Nodepool.Evidence.{
  NodesListed, GotPool, Drained, Run-get_node_pool_by_name, Run-has_running_stateful_pods,
  Run-get_nodes_by_node_pool, Grows-Drained,
}
use node_updater.Nodepool.{has_running_stateful_pods, in_state}
use node_updater.Safety.Reads.{reads, Grows-IsEmptied}
use node_updater.Nodepool.Scaling.{is_set}
use node_updater.Safety.Change.{
  Run-cordon_nodes_by_agent_pool, Run-remove_temporary_node_pool, Run-upgrade_node_image_version,
}
use node_updater.Safety.Stages.{Run-delete_config_map}
use node_updater.Pods.Idle.{Run-get_safe_to_evict_pods, Grows-AllIdle}
use node_updater.Safety.Evict.{Run-evict_idle_pods, filtered-Targets}

module _ (services : Services) (c : SafeEvictReconciler) (namespace : String) (se : SafeEvict) where
  abbrev K : Policy
  K = Permitted services c.devops namespace se

  abbrev temporary : String
  temporary = get_temporary_nodepool_name se

  Run-evict_from_pool :
      (entry : String × AgentPool) {h : History}
      → IsEmptied se entry.0 h
      → Run K Anything h (evict_from_pool services c se entry h)
  unfolding evict_from_pool
  Run-evict_from_pool (name, pool) emptied =
      Run-bind _ _
        (Run-cordon_nodes_by_agent_pool services c.devops namespace se name true
          (λ e. absurd (ground arith)))
        (λ u g grown p.
          Run-bind _ _
            (reads services c.devops namespace se (Run-get_safe_to_evict_pods services se))
            (λ pods g' grown' idle.
              Run-bind _ _
                (reads services c.devops namespace se (Run-get_nodes_by_node_pool services name))
                (λ nodes g'' grown'' listed. Run-evict_idle_pods services c.devops namespace se _ (
                  filtered-Targets services c.devops namespace se name nodes pods listed
                    (Grows-IsEmptied (Grows-trans grown (Grows-trans grown' grown'')) se name
                      emptied)
                    (Grows-AllIdle se pods grown'' idle)))))

  -- Each pool of the map is to be emptied, by its key.
  abbrev pub AllEmptied : List (String × AgentPool) → History → Type 0
  AllEmptied pools h = All (λ entry. IsEmptied se entry.0 h) pools

  pub Run-perform_safe_eviction :
      (pools : Dict AgentPool) {h : History}
      → Known pools h
      → AllEmptied pools h
      → Saved namespace se h
      → Run K Anything h (perform_safe_eviction services c pools se h)
  unfolding perform_safe_eviction
  Run-perform_safe_eviction pools known emptied saved =
      Run-bind _ _ (Run-disable_auto_scaling services c.devops namespace se pools known saved)
        (λ u g grown p.
          Run-bind {M = λ entries g'. AllEmptied entries g'} _ _
            (Run-range services pools tt (λ picks. All-of-In _ _ (λ y m.
              Grows-IsEmptied (more grown tt) se y.0
                (All-In _ pools y emptied (In-shuffle picks y pools m)))))
            (λ entries g' grown' all.
              Run-weaken
                (Run-for_each {I = λ g''. AllEmptied entries g''} entries _ all (λ entry g'' m i.
                  Run-weaken (Run-evict_from_pool entry (All-In _ entries entry i m))
                    (λ u g3 grown3 p3.
                      All-map _ entries (λ y e. Grows-IsEmptied grown3 se y.0 e) i)))
                (λ u g'' grown'' i. tt)))

  -- The answer "not busy" means that the pool is drained.
  abbrev IdleMeans : String → Bool → History → Type 0
  IdleMeans pool busy g = busy ≡ false → Drained pool se.spec.namespaces g

  Run-drained :
      (pool : String) (nodes : List Node) {h : History}
      → NodesListed pool nodes h
      → Run K (IdleMeans pool) h (has_running_stateful_pods services nodes se.spec.namespaces h)
  Run-drained pool nodes listed =
      Run-weaken
        (reads services c.devops namespace se
          (Run-has_running_stateful_pods services nodes se.spec.namespaces))
        (λ busy g grown clear e. (nodes, Grows-Any grown listed, clear e))

  Run-upgrade_pool_of :
      (name : String) {h : History}
      → In name se.spec.nodepools
      → Drained name se.spec.namespaces h
      → Run K Anything h (upgrade_pool_of services c name h)
  unfolding upgrade_pool_of
  Run-upgrade_pool_of name watched drained =
      Run-bind _ _
        (Run-on_error _ _
          (reads services c.devops namespace se (Run-get_node_pool_by_name services name)))
        (λ pool g grown got.
          Run-if (in_state "UpgradingNodeImageVersion" pool) _ _
            (λ busy.
              Run-bind {M = Anything} _ _ (Run-deref pool.name (λ a e. tt))
                (λ n g' grown' u. Run-throw _))
            (λ free. Run-on_error _ _ (
              Run-upgrade_node_image_version services c.devops namespace se name pool watched got
                (Grows-Drained name _ grown drained))))

  pub Run-upgrade_drained :
      (name : String) {h : History}
      → In name se.spec.nodepools
      → Run K Anything h (upgrade_drained services c se name h)
  unfolding upgrade_drained
  Run-upgrade_drained name watched =
      Run-bind _ _
        (Run-on_error _ _
          (reads services c.devops namespace se (Run-get_nodes_by_node_pool services name)))
        (λ nodes g grown listed.
          Run-bind _ _ (Run-on_error _ _ (Run-drained name nodes listed)) (λ busy g' grown' drained.
            Run-if busy _ _ (λ e. Run-pure tt tt)
              (λ e. Run-upgrade_pool_of name watched (drained e))))

  Run-uncordon :
      (name text : String) (pool : AgentPool) (t : Tried (Unit {0})) {h : History}
      → ReadEntry namespace se name text h
      → Run K Anything h (uncordon services c name pool t h)
  unfolding uncordon
  Run-uncordon name text pool (returned u) entry =
      Run-bind {M = Anything} _ _
        (Run-weaken
          (Run-attempt _ (
            Run-cordon_nodes_by_agent_pool services c.devops namespace se name false
              (λ e. (text, entry))))
          (λ a g grown p. tt))
        (λ t g grown p. Run-pure tt tt)
  Run-uncordon name text pool (raised e) entry =
      Run-if (in_state "Updating" pool) _ _
        (λ busy.
          Run-bind {M = Anything} _ _ (Run-deref pool.name (λ a e'. tt))
            (λ n g grown u. Run-throw _))
        (λ free. Run-throw _)

  pub Run-restore_pool :
      (outdated : Dict AgentPool) (entry : String × String) {h : History}
      → ReadEntry namespace se entry.0 entry.1 h
      → Run K Anything h (restore_pool services c outdated entry h)
  unfolding restore_pool restore_up_to_date
  Run-restore_pool outdated (name, text) entry =
      Run-if (is_set (lookup name outdated)) _ _ (λ e. Run-pure tt tt)
        (λ e.
          Run-bind _ _
            (Run-on_error _ _
              (reads services c.devops namespace se (Run-get_node_pool_by_name services name)))
            (λ pool g grown got.
              Run-bind {M = Anything} _ _
                (Run-weaken
                  (Run-attempt _ (
                    Run-set_default_scaling services c.devops namespace se name text pool got
                      (Grows-Any grown entry)))
                  (λ a g' grown' p. tt))
                (λ t g' grown' u.
                  Run-uncordon name text pool t (Grows-Any (Grows-trans grown grown') entry))))

  Run-remove_resources :
      {h : History}
      → MayDelete namespace se temporary h
      → Run K Anything h (remove_resources services c namespace se h)
  unfolding remove_resources
  Run-remove_resources may =
      Run-bind _ _
        (Run-on_error _ _ (Run-remove_temporary_node_pool services c.devops namespace se _ may))
        (λ u g grown gone.
          Run-on_error _ _ (Run-delete_config_map services c namespace se (refl, refl, inr gone)))

  Run-found_temporary :
      (t : Tried AgentPool) {h : History}
      → PostTried (GotPool temporary) t h
      → Run K (GotPool temporary) h (found_temporary c t h)
  unfolding found_temporary
  Run-found_temporary (returned pool) got = Run-pure pool got
  Run-found_temporary (raised e) got =
      Run-if (is_not_found e) _ _ (λ x. Run-deref none (λ a z. absurd (ground arith)))
        (λ x. Run-throw _)

  module _ (pool : AgentPool) (own : String) (has : pool.name ≡ some own) where
    Run-empty_and_remove :
        {h : History}
        → GotPool temporary pool h
        → Saved namespace se h
        → Run K Anything h (empty_and_remove services c namespace se pool own h)
    unfolding empty_and_remove
    Run-empty_and_remove got saved =
        Run-bind _ _
          (Run-on_error _ _ (
            Run-disable_auto_scaling services c.devops namespace se _ ((temporary, got), tt) saved))
          (λ u g1 grown1 p1.
            Run-bind _ _
              (Run-on_error _ _
                (reads services c.devops namespace se (Run-get_nodes_by_node_pool services own)))
              (λ nodes g2 grown2 listed.
                let grown = Grows-trans grown1 grown2 in
                Run-bind {M = Anything} _ _
                  (Run-weaken
                    (Run-attempt _ (
                      Run-perform_safe_eviction _ ((temporary, Grows-Any grown got), tt)
                        (inr (pool, Grows-Any grown got, has), tt) (Grows-Any grown saved)))
                    (λ a g grown' p. tt))
                  (λ t g3 grown3 p3.
                    Run-bind _ _
                      (Run-on_error _ _ (Run-drained own nodes (Grows-Any grown3 listed)))
                      (λ busy g4 grown4 drained.
                        Run-if busy _ _ (λ e. Run-pure tt tt)
                          (λ e. Run-remove_resources (
                            pool,
                            own,
                            refl,
                            Grows-Any (Grows-trans grown (Grows-trans grown3 grown4)) got,
                            has,
                            drained e,
                          ))))))

  pub Run-clean_up :
      {h : History} → Saved namespace se h → Run K Anything h (clean_up services c namespace se h)
  unfolding clean_up
  Run-clean_up saved =
      Run-bind _ _
        (Run-attempt _
          (reads services c.devops namespace se (Run-get_node_pool_by_name services temporary)))
        (λ t g1 grown1 p1. Run-bind _ _ (Run-found_temporary t p1) (λ pool g2 grown2 got.
          Run-bind {M = λ own g. pool.name ≡ some own} _ _ (Run-deref pool.name (λ own e. e))
            (λ own g3 grown3 has.
              Run-empty_and_remove pool own has (Grows-Any grown3 got)
                (Grows-Any (Grows-trans grown1 (Grows-trans grown2 grown3)) saved))))
