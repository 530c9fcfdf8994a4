-- ===== src/Controller/Creates.antt =====
-- internal/controller/safeevict_controller.go: a run that creates the temporary pool.
use node_updater.Base.{
  ◌∷◌, ℕ, shuffle, String, List, ◌≡◌, false, some, arith, refl, All, contains, true, ◌!=◌, ◌⊎◌,
  string_dec, All-In, contains-In, ◌&&◌, inl, ◌∙◌, inr,
}
use node_updater.World.{
  Services, History, answered, failed, put_pool, Event, attempt, call, on_error, throw, ◌>>=◌, ok,
  pure, got_pool, err, Exec, range, ranged, got_safe_evict,
}
use node_updater.Controller.Defs.{merge, is_empty, SafeEvictReconciler, done, Reconciled, failing}
use node_updater.Base.Dict.{Dict}
use node_updater.Cluster.{
  SafeEvict, AgentPool, Node, PoolProperties, ClientError, get_temporary_nodepool_name,
  response_status,
}
use node_updater.Nodepool.Versions.{passes}
use node_updater.Nodepool.Queries.{first_version}
use node_updater.Nodepool.Unready.{is_unready, get_not_ready_node_pools-Yields, IsNotReady}
use node_updater.World.Trace.{Grows, Reading, more, Grows-trans, here}
use node_updater.Nodepool.Copied.{IsCopy, copy_of-IsCopy}
use node_updater.Nodepool.Change.{copy_of, create_temporary_node_pool, create_copy}
use node_updater.Nodepool.{
  provisioning_state, node_pool_exists, get_node_pool_provisioning_state, state_or_error, existence,
  existence_by, Outdated,
}
use node_updater.Controller.Stages.{await_temporary_pool, ensure_temporary_pool}
use node_updater.World.Calls.{get_pool, put_pool_call, get_safe_evict}
use node_updater.Controller.Loop.{reconcile_outdated, reconcile_found, reconcile, reconcile_body}
use node_updater.Nodepool.Outdated.{update_needed-Yields, IsOutdated}
use node_updater.World.Yields.{Yields-on_error}
use node_updater.Controller.Merged.{merge-kept, lookup-nonempty, merge-nonempty, shuffle-nonempty}

-- Something is to be done for the resource: an image is old, or a pool is not in its final state. The
-- temporary pool is missing as long as the run that starts at `start` only reads, Azure accepts its
-- creation as a copy of the base pool, and says after it that the pool is being created.
pub record IsDue (services : Services) (namespace name : String) (se : SafeEvict)
    (nodes : List Node) (latest : String → String) (pool_of : String → AgentPool)
    (source : PoolProperties) (fresh : AgentPool) (start : History) : Type 0 where
  pub fetched : (h : History) → services.get_safe_evict h namespace name ≡ answered se
  pub lists : (h : History) → services.list_nodes h ≡ answered nodes
  pub profiles :
      (h : History) (pool : String)
      → services.get_upgrade_profile h pool
        ≡ answered (record { properties = some (some (latest pool)) })
  pub read :
      All
        (λ pool. (h : History) → services.get_pool h pool ≡ answered (pool_of pool))
        se.spec.nodepools
  pub due :
      (pool : String) × (contains se.spec.nodepools pool ≡ true)
      × ((passes (λ v. v != latest pool) (first_version pool nodes) ≡ true)
          ⊎ (is_unready (pool_of pool) ≡ true))
  pub base :
      (p : AgentPool) × (p.properties ≡ some source)
      × ((h : History) → services.get_pool h se.spec.base_for_backup_pool ≡ answered p)
  pub gone :
      (x : ClientError) × (x.status_code ≡ some 404)
      × ((h : History)
          → Grows Reading start h
          → services.get_pool h (get_temporary_nodepool_name se) ≡ failed x)
  pub taken :
      (h : History) (copy : AgentPool)
      → IsCopy source copy
      → services.put_pool h (get_temporary_nodepool_name se) copy ≡ answered tt
  pub begun :
      (h : History) (copy : AgentPool)
      → IsCopy source copy
      → services.get_pool
          (put_pool (get_temporary_nodepool_name se) copy (answered tt) ∷ h)
          (get_temporary_nodepool_name se)
        ≡ answered fresh
  pub creating : provisioning_state fresh ≡ some "Creating"

module _ (services : Services) (namespace name : String) (se : SafeEvict) (nodes : List Node)
    (latest : String → String) (pool_of : String → AgentPool) (source : PoolProperties)
    (fresh : AgentPool) (start : History)
    (due : IsDue services namespace name se nodes latest pool_of source fresh start)
    (c : SafeEvictReconciler) where
  -- The creation.
  abbrev created : Event
  created = put_pool (get_temporary_nodepool_name se) (copy_of source) (answered tt)

  exists-missing :
      (h : History)
      → Grows Reading start h
      → node_pool_exists services (get_temporary_nodepool_name se) h
        ≡ (ok false, got_pool (get_temporary_nodepool_name se) (failed due.gone.0) ∷ h)
  unfolding node_pool_exists get_pool attempt call existence existence_by response_status pure ◌>>=◌
  exists-missing h g = simp (due.gone.2 h g, due.gone.1) refl

  create-copies :
      (h : History)
      → create_temporary_node_pool services
          (get_temporary_nodepool_name se)
          se.spec.base_for_backup_pool
          h
        ≡ (ok tt, created ∷ got_pool se.spec.base_for_backup_pool (answered due.base.0) ∷ h)
  unfolding create_temporary_node_pool create_copy get_pool put_pool_call call on_error ◌>>=◌
  create-copies h =
      let accepted =
        due.taken (got_pool se.spec.base_for_backup_pool (answered due.base.0) ∷ h) (copy_of source)
          (copy_of-IsCopy source) in
      simp (due.base.2 h, due.base.1, accepted) refl

  await-returns :
      (h : History)
      → await_temporary_pool services c se (created ∷ h) ≡ (
        err (done c.config.success_reconcile_time),
        got_pool (get_temporary_nodepool_name se) (answered fresh) ∷ created ∷ h,
      )
  unfolding await_temporary_pool get_node_pool_provisioning_state state_or_error get_pool call
      on_error throw pure string_dec ◌>>=◌
  await-returns h = simp (due.begun h (copy_of source) (copy_of-IsCopy source), due.creating) refl

  -- What the run returns and does last, and that it only read before.
  abbrev pub Created : (Exec Reconciled Reconciled) → History → Type 0
  Created m h =
      (h' : History) × Grows Reading start h'
      × (m h ≡ (
        err (done c.config.success_reconcile_time),
        got_pool (get_temporary_nodepool_name se) (answered fresh) ∷ created ∷ h',
      ))

  outdated-Created :
      (old_nodes : Dict Node) (outdated : Dict AgentPool) (h : History)
      → is_empty outdated ≡ false
      → Grows Reading start h
      → Created (reconcile_outdated services c namespace se old_nodes outdated) h
  unfolding reconcile_outdated ensure_temporary_pool on_error ◌>>=◌
  outdated-Created old_nodes outdated h some_pool g =
      let looked = got_pool (get_temporary_nodepool_name se) (failed due.gone.0) ∷ h in
      let base = got_pool se.spec.base_for_backup_pool (answered due.base.0) in
      let something : (is_empty old_nodes && is_empty outdated) ≡ false = ground arith in
      (
        base ∷ looked,
        more (more g tt) tt,
        simp (something, exists-missing h g, create-copies looked, await-returns (base ∷ looked))
            refl,
      )

  merged-nonempty :
      (picks : ℕ → ℕ) (out : Outdated) (m : Dict AgentPool)
      → IsOutdated nodes latest pool_of se.spec.nodepools out
      → IsNotReady pool_of se.spec.nodepools m
      → is_empty (merge (shuffle picks m) out.1) ≡ false
  merged-nonempty picks out m is_old is_not_ready =
      let (pool, watched, why) = due.due in
      elim why [
        | inl old ↦
            merge-kept _ _
              (lookup-nonempty pool out.1 (pool_of pool) (is_old pool ∙ rw (watched, old) refl))
        | inr unready ↦ merge-nonempty _ _ (
            shuffle-nonempty picks m (
              lookup-nonempty pool m (pool_of pool)
                (is_not_ready pool ∙ rw (watched, unready) refl)))
      ]

  found-Created :
      (h : History) → Grows Reading start h → Created (reconcile_found services c namespace se) h
  unfolding reconcile_found range ◌>>=◌
  found-Created h g =
      let pools = se.spec.nodepools in
      let known = due.read in
      let old =
        update_needed-Yields services nodes latest pool_of due.lists due.profiles pools
          (λ h1 pool watched. All-In _ pools pool known (contains-In pools pool watched) h1) in
      let (out, h1, e1, is_old, g1) =
        (Yields-on_error (λ e. done c.config.error_reconcile_time) old).at h in
      let (m, h2, e2, is_not_ready, g2) =
        (Yields-on_error (failing c)
            (get_not_ready_node_pools-Yields services pool_of pools known)).at
          h1 in
      let entries = shuffle (services.order h2) m in
      let (h3, g3, e3) =
        outdated-Created out.0 (merge entries out.1) (ranged ∷ h2)
          (merged-nonempty (services.order h2) out m is_old is_not_ready)
          (more (Grows-trans g (Grows-trans g1 g2)) tt) in
      (h3, g3, simp (e1, e2, e3) refl)

  -- If something is to be done for the resource, the nodes, their images and the watched and the base
  -- pools are answered the same at any time, the temporary pool is missing as long as the run only
  -- reads, and Azure accepts its creation and says then that it is being created, then a run changes
  -- nothing but to create the temporary pool, with the ten settings that are copied from the base
  -- pool and no other field set. It reads the new pool once, as its last call, and asks for the next
  -- run after the success time.
  pub reconcile-creates :
      (h : History) × (copy : AgentPool) × Grows Reading start h
      × IsCopy source copy
      × (reconcile services c namespace name start ≡ (
        ok (done c.config.success_reconcile_time),
        got_pool (get_temporary_nodepool_name se) (answered fresh)
            ∷ put_pool (get_temporary_nodepool_name se) copy (answered tt)
            ∷ h,
      ))
  unfolding reconcile reconcile_body get_safe_evict call on_error ◌>>=◌
  reconcile-creates =
      let read : Event = got_safe_evict namespace name (answered se) in
      let (h, g, e) = found-Created (read ∷ start) (more here tt) in
      (h, copy_of source, g, copy_of-IsCopy source, simp (due.fetched start, e) refl)
