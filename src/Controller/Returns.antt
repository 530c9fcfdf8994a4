-- ===== src/Controller/Returns.antt =====
-- internal/controller/safeevict_controller.go: what `Reconcile` returns, for whatever the services
-- answer.
use node_updater.Base.{String, Bool, true, false, none, [], Bool-cases, inl, inr}
use node_updater.World.{
  Services, Exec, Tried, returned, raised, Outcome, on_error, History, ok, err, panic,
}
use node_updater.Controller.Defs.{
  SafeEvictReconciler, Reconciled, done, or_fail, failing, or_retry, settled,
}
use node_updater.Controller.Stages.{
  scaling_text, saved_or_created, add_scaling_text, saved_scaling, ensure_temporary_pool,
  create_scaling, await_temporary_pool, restore_pool, upgrade_pool_of, clean_up, uncordon,
  upgrade_drained, found_temporary, restore_up_to_date, empty_and_remove, remove_resources,
}
use node_updater.Base.Dict.{Dict}
use node_updater.Cluster.{Error, SafeEvict, AgentPool, is_not_found}
use node_updater.World.Early.{
  stop, raise, value, Leaves, Leaves-pure, Leaves-bind, Leaves-deref, Leaves-on_error, Leaves-range,
  Leaves-attempt, Leaves-if, Leaves-throw, Leaves-fold_each, Closes, Early, Leaves-for_each,
  Closes-pure,
}
use node_updater.Controller.Loop.{
  reconcile_found, update_pools, reconcile, reconcile_outdated, reconcile_body, ignore_not_found,
}

-- When the next run is due, and with which error.
pub data IsScheduled (c : SafeEvictReconciler) : Reconciled → Type 0 where
  succeeds : IsScheduled c (done c.config.success_reconcile_time)
  idles : IsScheduled c (done c.config.upgrade_frequency)
  retries : IsScheduled c (done c.config.error_reconcile_time)
  fails : (e : Error) → IsScheduled c (failing c e)

module _ (services : Services) (c : SafeEvictReconciler) where
  abbrev Scheduled : {A : Type 0} → Exec Reconciled A → Type 0
  Scheduled m = Leaves (IsScheduled c) m

  or_fail-Scheduled : {A : Type 0} (m : Exec Error A) → Scheduled (or_fail c m)
  or_fail-Scheduled m = Leaves-on_error (failing c) m fails

  or_retry-Scheduled : {A : Type 0} (m : Exec Error A) → Scheduled (or_retry c m)
  or_retry-Scheduled m = Leaves-on_error _ m (λ e. retries)

  await-Scheduled : (se : SafeEvict) → Scheduled (await_temporary_pool services c se)
  unfolding await_temporary_pool
  await-Scheduled se =
      Leaves-bind _ _ (or_fail-Scheduled _)
        (λ status. Leaves-if _ _ _ (Leaves-throw _ succeeds) (Leaves-pure tt))

  ensure-Scheduled :
      (namespace : String) (se : SafeEvict) (exists up_to_date : Bool)
      → Scheduled (ensure_temporary_pool services c namespace se exists up_to_date)
  unfolding ensure_temporary_pool
  ensure-Scheduled namespace se true up_to_date = Leaves-pure tt
  ensure-Scheduled namespace se false true =
      Leaves-bind _ _ (or_fail-Scheduled _) (λ u. Leaves-throw _ idles)
  ensure-Scheduled namespace se false false = or_retry-Scheduled _

  scaling_text-Scheduled : (pool : AgentPool) → Scheduled (scaling_text pool)
  unfolding scaling_text
  scaling_text-Scheduled pool = Leaves-bind _ _ (Leaves-deref _) (λ p.
      Leaves-if _ _ _
        (Leaves-bind _ _ (Leaves-deref _)
          (λ min. Leaves-bind _ _ (Leaves-deref _) (λ max. Leaves-pure _)))
        (Leaves-bind _ _ (Leaves-deref _) (λ count. Leaves-pure _)))

  add_scaling_text-Scheduled :
      (texts : Dict String) (entry : String × AgentPool) → Scheduled (add_scaling_text texts entry)
  unfolding add_scaling_text
  add_scaling_text-Scheduled texts (name, pool) =
      Leaves-bind _ _ (scaling_text-Scheduled pool) (λ text. Leaves-pure _)

  create_scaling-Scheduled :
      (namespace : String) (se : SafeEvict) (pools : Dict AgentPool)
      → Scheduled (create_scaling services c namespace se pools)
  unfolding create_scaling
  create_scaling-Scheduled namespace se pools =
      Leaves-bind _ _ (Leaves-range services pools) (λ entries.
        Leaves-bind _ _ (Leaves-fold_each entries [] _ add_scaling_text-Scheduled)
          (λ texts. Leaves-bind _ _ (or_fail-Scheduled _) (λ u. Leaves-pure _)))

  saved_or_created-Scheduled :
      (namespace : String) (se : SafeEvict) (pools : Dict AgentPool) (t : Tried (Dict String))
      → Scheduled (saved_or_created services c namespace se pools t)
  unfolding saved_or_created
  saved_or_created-Scheduled namespace se pools (returned texts) = Leaves-pure texts
  saved_or_created-Scheduled namespace se pools (raised e) =
      Leaves-if _ _ _ (create_scaling-Scheduled namespace se pools) (Leaves-throw _ (fails e))

  saved_scaling-Scheduled :
      (namespace : String) (se : SafeEvict) (pools : Dict AgentPool)
      → Scheduled (saved_scaling services c namespace se pools)
  unfolding saved_scaling
  saved_scaling-Scheduled namespace se pools =
      Leaves-bind _ _ (Leaves-attempt _) (saved_or_created-Scheduled namespace se pools)

  upgrade_pool_of-Scheduled : (name : String) → Scheduled (upgrade_pool_of services c name)
  unfolding upgrade_pool_of
  upgrade_pool_of-Scheduled name = Leaves-bind _ _ (or_fail-Scheduled _) (λ pool.
      Leaves-if _ _ _ (Leaves-bind _ _ (Leaves-deref pool.name) (λ own. Leaves-throw _ succeeds))
        (or_fail-Scheduled _))

  upgrade_drained-Scheduled :
      (se : SafeEvict) (name : String) → Scheduled (upgrade_drained services c se name)
  unfolding upgrade_drained
  upgrade_drained-Scheduled se name = Leaves-bind _ _ (or_fail-Scheduled _) (λ nodes.
      Leaves-bind _ _ (or_fail-Scheduled _)
        (λ busy. Leaves-if busy _ _ (Leaves-pure tt) (upgrade_pool_of-Scheduled name)))

  uncordon-Scheduled :
      (name : String) (pool : AgentPool) (t : Tried (Unit {0}))
      → Scheduled (uncordon services c name pool t)
  unfolding uncordon
  uncordon-Scheduled name pool (returned u) =
      Leaves-bind _ _ (Leaves-attempt _) (λ result. Leaves-pure tt)
  uncordon-Scheduled name pool (raised e) =
      Leaves-if _ _ _ (Leaves-bind _ _ (Leaves-deref pool.name) (λ own. Leaves-throw _ succeeds))
        (Leaves-throw _ (fails e))

  restore_pool-Scheduled :
      (outdated : Dict AgentPool) (entry : String × String)
      → Scheduled (restore_pool services c outdated entry)
  unfolding restore_pool restore_up_to_date
  restore_pool-Scheduled outdated (name, text) = Leaves-if _ _ _ (Leaves-pure tt) (
      Leaves-bind _ _ (or_fail-Scheduled _)
        (λ pool. Leaves-bind _ _ (Leaves-attempt _) (uncordon-Scheduled name pool)))

  found_temporary-Scheduled : (t : Tried AgentPool) → Scheduled (found_temporary c t)
  unfolding found_temporary
  found_temporary-Scheduled (returned pool) = Leaves-pure pool
  found_temporary-Scheduled (raised e) =
      Leaves-if _ _ _ (Leaves-deref none) (Leaves-throw _ (fails e))

  clean_up-Scheduled :
      (namespace : String) (se : SafeEvict) → Scheduled (clean_up services c namespace se)
  unfolding clean_up empty_and_remove remove_resources
  clean_up-Scheduled namespace se = Leaves-bind _ _ (Leaves-attempt _) (λ result.
      Leaves-bind _ _ (found_temporary-Scheduled result) (λ pool.
        Leaves-bind _ _ (Leaves-deref pool.name) (λ name.
          Leaves-bind _ _ (or_fail-Scheduled _) (λ disabled.
            Leaves-bind _ _ (or_fail-Scheduled _) (λ nodes.
              Leaves-bind _ _ (Leaves-attempt _) (λ evicted.
                Leaves-bind _ _ (or_fail-Scheduled _) (λ busy.
                  Leaves-if busy _ _ (Leaves-pure tt)
                    (Leaves-bind _ _ (or_retry-Scheduled _) (λ u. or_fail-Scheduled _)))))))))

  abbrev Returns : Exec Reconciled Reconciled → Type 0
  Returns = Closes (IsScheduled c) (IsScheduled c)

  update_pools-Returns :
      (namespace : String) (se : SafeEvict) (outdated : Dict AgentPool) (up_to_date : Bool)
      (texts : Dict String)
      → Returns (update_pools services c namespace se outdated up_to_date texts)
  unfolding update_pools
  update_pools-Returns namespace se outdated up_to_date texts =
      Leaves-bind _ _ (or_fail-Scheduled _) (λ evicted.
        Leaves-bind _ _ (Leaves-for_each _ _ (upgrade_drained-Scheduled se)) (λ upgraded.
          Leaves-bind _ _ (Leaves-range services texts) (λ entries.
            Leaves-bind _ _ (Leaves-for_each _ _ (restore_pool-Scheduled outdated)) (λ restored.
              Leaves-bind _ _
                (Leaves-if up_to_date _ _ (clean_up-Scheduled namespace se) (Leaves-pure tt))
                (λ cleaned. Closes-pure _ succeeds)))))

  reconcile_found-Returns :
      (namespace : String) (se : SafeEvict) → Returns (reconcile_found services c namespace se)
  unfolding reconcile_found reconcile_outdated
  reconcile_found-Returns namespace se = Leaves-bind _ _ (or_retry-Scheduled _) (λ outdated.
      Leaves-bind _ _ (or_fail-Scheduled _) (λ not_ready.
        Leaves-bind _ _ (Leaves-range services not_ready) (λ entries.
          Leaves-bind _ _ (or_fail-Scheduled _) (λ exists.
            Leaves-bind _ _ (ensure-Scheduled namespace se exists _) (λ ensured.
              Leaves-bind _ _ (await-Scheduled se) (λ awaited.
                Leaves-bind _ _ (saved_scaling-Scheduled namespace se _)
                  (update_pools-Returns namespace se _ _)))))))

  read-Scheduled :
      {A : Type 0} (m : Exec Error A) → Scheduled (on_error (ignore_not_found services c) m)
  read-Scheduled m = Leaves-on_error _ m (λ e. elim (Bool-cases (is_not_found e)) [
    | inl missing ↦ rw missing retries
    | inr other ↦ rw other (fails e)
  ])

  settled-IsScheduled :
      (r : Outcome Reconciled Reconciled)
      → Early (IsScheduled c) (IsScheduled c) r
      → Early (IsScheduled c) (λ e. ⊥) (settled r)
  settled-IsScheduled (ok a) (value v) = value v
  settled-IsScheduled (err a) (raise v) = value v
  settled-IsScheduled panic stop = stop

  -- Whatever the services answer, a run that does not panic asks for another run: after the success
  -- time, the upgrade frequency or the error time without an error, or after the error time with an
  -- error. So an error is returned only with the error time.
  pub reconcile-IsScheduled :
      (namespace name : String) (h : History)
      → Early (IsScheduled c) (λ e. ⊥) (reconcile services c namespace name h).0
  unfolding reconcile reconcile_body
  reconcile-IsScheduled namespace name h =
      settled-IsScheduled _
        (Leaves-bind _ _ (read-Scheduled _) (reconcile_found-Returns namespace) h)
