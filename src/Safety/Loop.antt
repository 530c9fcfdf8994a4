-- ===== src/Safety/Loop.antt =====
-- Every run of `Reconcile` obeys the policy, whatever the services answer.
use node_updater.Base.{
  ◌∷◌, String, ◌≡◌, refl, Bool, List, false, inl, ◌==◌, true, All-of-In, All-In, In-shuffle,
  All-map, [], first,
}
use node_updater.Safety.Policy.{Permitted, Saved, Fetched}
use node_updater.World.{Services, History, Reply, got_safe_evict, Event}
use node_updater.Controller.Defs.{SafeEvictReconciler, merge}
use node_updater.Cluster.{SafeEvict, get_temporary_nodepool_name, Node, AgentPool}
use node_updater.Controller.Loop.{
  update_pools, reconcile_found, reconcile_outdated, reconcile, reconcile_body,
}
use node_updater.Controller.Stages.{await_temporary_pool, ensure_temporary_pool}
use node_updater.World.Trace.{
  Policy, Run, Anything, Run-pure, Run-bind, Run-on_error, Run-for_each, Run-throw, Run-if,
  Grows-trans, Run-range, Grows-Any, more, Run-weaken, Grows, Obeys, Grows-Obeys, here, Run-call,
}
use node_updater.Base.Dict.{Dict, insert}
use node_updater.Safety.Scaling.{Known}
use node_updater.Nodepool.Evidence.{
  Missing, Run-node_pool_exists, Run-get_node_pool_provisioning_state,
}
use node_updater.Safety.Stages.{Entries, Run-delete_config_map, Run-saved_scaling}
use node_updater.Safety.Reads.{reads}
use node_updater.Safety.Rounds.{
  Run-perform_safe_eviction, Run-upgrade_drained, Run-restore_pool, Run-clean_up, AllEmptied,
}
use node_updater.Safety.Change.{Run-create_temporary_node_pool}
use node_updater.World.Calls.{get_safe_evict}
use node_updater.Nodepool.Due.{
  Run-update_needed, AllDue, AllDue-insert, Grows-AllDue, Run-get_not_ready_node_pools,
}

module _ (services : Services) (c : SafeEvictReconciler) (namespace : String) where
  module _ (se : SafeEvict) where
    abbrev K : Policy
    K = Permitted services c.devops namespace se

    abbrev temporary : String
    temporary = get_temporary_nodepool_name se

    Run-ensure_temporary_pool :
        (exists up_to_date : Bool) {h : History}
        → (exists ≡ false → Missing temporary h)
        → Run K Anything h (ensure_temporary_pool services c namespace se exists up_to_date h)
    unfolding ensure_temporary_pool
    Run-ensure_temporary_pool true up_to_date missing = Run-pure tt tt
    Run-ensure_temporary_pool false true missing =
        Run-bind {M = Anything} _ _
          (Run-on_error _ _
            (Run-delete_config_map services c namespace se (refl, refl, inl (missing refl))))
          (λ u g grown p. Run-throw _)
    Run-ensure_temporary_pool false false missing =
        Run-on_error _ _
          (Run-create_temporary_node_pool services c.devops namespace se (missing refl))

    Run-await_temporary_pool :
        {h : History} → Run K Anything h (await_temporary_pool services c se h)
    unfolding await_temporary_pool
    Run-await_temporary_pool =
        Run-bind _ _
          (Run-on_error _ _ (
            reads services c.devops namespace se
              (Run-get_node_pool_provisioning_state services temporary)))
          (λ status g grown p.
            Run-if (status == "Creating") _ _ (λ e. Run-throw _) (λ e. Run-pure tt tt))

    Run-update_pools :
        (outdated : Dict AgentPool) (up_to_date : Bool) (texts : Dict String) {h : History}
        → Known outdated h
        → AllEmptied services c namespace se outdated h
        → Saved namespace se h
        → Entries services c namespace se texts h
        → Run K Anything h (update_pools services c namespace se outdated up_to_date texts h)
    unfolding update_pools
    Run-update_pools outdated up_to_date texts known emptied saved entries =
        Run-bind _ _
          (Run-on_error _ _
            (Run-perform_safe_eviction services c namespace se outdated known emptied saved))
          (λ u g1 grown1 p1.
            Run-bind {M = Anything} _ _
              (Run-for_each se.spec.nodepools _ tt
                (λ name g m i. Run-upgrade_drained services c namespace se name m))
              (λ u' g2 grown2 p2.
                let grown = Grows-trans grown1 grown2 in
                Run-bind {M = λ es g. Entries services c namespace se es g} _ _
                  (Run-range services texts tt (λ picks. All-of-In _ _ (λ y m.
                    Grows-Any (more grown tt)
                      (All-In _ texts y entries (In-shuffle picks y texts m)))))
                  (λ es g3 grown3 es_read.
                    Run-bind {M = Anything} _ _
                      (Run-weaken
                        (Run-for_each {I = Entries services c namespace se es} es _ es_read
                          (λ entry g m i.
                            Run-weaken
                              (Run-restore_pool services c namespace se outdated entry
                                (All-In _ es entry i m))
                              (λ u g' grown' p. All-map _ es (λ y. Grows-Any grown') i)))
                        (λ u g grown' i. tt))
                      (λ u'' g4 grown4 p4.
                        Run-bind {M = Anything} _ _
                          (Run-if up_to_date _ _
                            (λ e.
                              Run-clean_up services c namespace se
                                (Grows-Any (Grows-trans grown (Grows-trans grown3 grown4)) saved))
                            (λ e. Run-pure tt tt))
                          (λ u3 g5 grown5 p5. Run-pure _ tt)))))

    Run-reconcile_outdated :
        (nodes : Dict Node) (outdated : Dict AgentPool) {h : History}
        → AllDue se.spec.nodepools outdated h
        → Run K Anything h (reconcile_outdated services c namespace se nodes outdated h)
    unfolding reconcile_outdated
    Run-reconcile_outdated nodes outdated due =
        Run-bind _ _
          (Run-on_error _ _
            (reads services c.devops namespace se (Run-node_pool_exists services temporary)))
          (λ exists g1 grown1 missing.
            Run-bind _ _ (Run-ensure_temporary_pool exists _ missing) (λ u g2 grown2 p2.
              Run-bind _ _ Run-await_temporary_pool (λ u' g3 grown3 p3.
                Run-bind _ _ (Run-saved_scaling services c namespace se outdated)
                  (λ texts g4 grown4 (saved, entries).
                    let grown =
                      Grows-trans grown1 (Grows-trans grown2 (Grows-trans grown3 grown4)) in
                    let due' = Grows-AllDue se.spec.nodepools outdated grown due in
                    Run-update_pools outdated _ texts
                      (All-map _ outdated (λ entry (got, d). (entry.0, got)) due')
                      (All-map _ outdated (λ entry (got, d). inl d) due') saved entries))))

    abbrev Due : Dict AgentPool → History → Type 0
    Due m h = AllDue se.spec.nodepools m h

    AllDue-merge :
        (entries : List (String × AgentPool)) (m : Dict AgentPool) (h : History)
        → Due entries h
        → Due m h
        → Due (merge entries m) h
    unfolding merge
    AllDue-merge [] m h es due = due
    AllDue-merge ((name, pool) ∷ entries) m h ((got, d), es) due =
        AllDue-merge entries (insert name pool m) h es
          (AllDue-insert se.spec.nodepools name pool m got d due)

    Run-reconcile_found :
        {h : History} → Run K Anything h (reconcile_found services c namespace se h)
    unfolding reconcile_found
    Run-reconcile_found =
        Run-bind _ _
          (Run-on_error _ _
            (reads services c.devops namespace se (Run-update_needed services se.spec.nodepools)))
          (λ (nodes, pools) g1 grown1 due.
            Run-bind _ _
              (Run-on_error _ _ (
                reads services c.devops namespace se
                  (Run-get_not_ready_node_pools services se.spec.nodepools)))
              (λ not_ready g2 grown2 due'.
                Run-bind {M = λ es g. Due es g} _ _
                  (Run-range services not_ready tt (λ picks.
                    Grows-AllDue {K = K} se.spec.nodepools _ (more here tt) (
                      All-of-In _ _
                        (λ y m. All-In _ not_ready y due' (In-shuffle picks y not_ready m)))))
                  (λ es g3 grown3 es_due. Run-reconcile_outdated nodes (merge es pools) (
                    AllDue-merge es pools _ es_due
                      (Grows-AllDue se.spec.nodepools pools (Grows-trans grown2 grown3) due)))))

-- The calls of one run of `Reconcile` that starts with no call made, newest first.
abbrev pub run : Services → SafeEvictReconciler → String → String → History
run services c namespace name = (reconcile services c namespace name []).1

module _ (services : Services) (c : SafeEvictReconciler) (namespace name : String) (L : Policy)
    (fetching : (r : Reply SafeEvict) (h : History) → L (got_safe_evict namespace name r) h)
    (sub : (se : SafeEvict) (e : Event) (h : History)
      → Fetched namespace name se h
      → Permitted services c.devops namespace se e h
      → L e h) where
  Grows-lift :
      (se : SafeEvict) {h h' : History}
      → Fetched namespace name se h
      → Grows (Permitted services c.devops namespace se) h h'
      → Grows L h h'
  Grows-lift se f here = here
  Grows-lift se f (more {e} {h'} g k) = more (Grows-lift se f g) (sub se e h' (Grows-Any g f) k)

  Run-reconcile_body : {h : History} → Run L Anything h (reconcile_body services c namespace name h)
  unfolding reconcile_body get_safe_evict
  Run-reconcile_body =
      Run-bind _ _ (Run-on_error _ _ (Run-call _ _ (λ r. fetching r _) (λ se. first refl)))
        (λ se g grown f.
          let inner = Run-reconcile_found services c namespace se in
          record { grows = Grows-lift se f inner.grows; post = inner.post })

  pub Obeys-run : Obeys L (run services c namespace name)
  unfolding reconcile
  Obeys-run = Grows-Obeys (Run-reconcile_body {h = []}).grows tt
