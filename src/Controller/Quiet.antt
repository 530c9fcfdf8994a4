-- ===== src/Controller/Quiet.antt =====
-- internal/controller/safeevict_controller.go: a run with nothing to do.
use node_updater.Base.{
  none, ◌≡◌, refl, String, List, ◌!=◌, some, false, contains, true, [], All, All-of-In, All-In,
  In-shuffle, Option, ◌∷◌, if◌then◌else◌, ◌<>◌, arith, ap,
}
use mathlib.Core.Path.{fun_ext}
use node_updater.World.{
  Services, History, answered, failed, attempt, call, pure, ◌>>=◌, got_pool, Exec, Reply, on_error,
  throw, err, deleted_config_map, ok,
}
use node_updater.Cluster.{
  SafeEvict, Node, AgentPool, ClientError, get_temporary_nodepool_name, response_status,
  get_configmap_name, message,
}
use node_updater.Nodepool.{
  update_needed, check_version, image_versions, get_not_ready_node_pools, check_ready,
  node_pool_exists, existence, existence_by, add_unready, provisioning_state,
}
use node_updater.World.Calls.{get_pool, get_safe_evict}
use node_updater.World.Finds.{
  Finds, Finds-after, Finds-pure, Finds-on_error, Finds-call, Finds-range, Finds-fold_same, Reaches,
  Reaches-after, Reaches-refl, Finds-range_empty,
}
use node_updater.World.Trace.{Reading, more, here, Grows}
use node_updater.Nodepool.Versions.{passes, image_versions-All}
use node_updater.Nodepool.Queries.{first_version}
use node_updater.Nodepool.Unready.{is_unready}
use node_updater.Controller.Stages.{ensure_temporary_pool}
use node_updater.Controller.Defs.{SafeEvictReconciler, Reconciled, done, failing, merge, settled}
use node_updater.Configmap.Results.{delete_config_map_lem}
use node_updater.Controller.Loop.{reconcile_found, reconcile_body, reconcile_outdated, reconcile}
use node_updater.Nodepool.Answers.{versions-Finds, profile-Finds, pool-Finds, nodes_of-Finds}

-- Nothing is to be done for the resource: the first node of each watched pool that has a version has the
-- latest one, each watched pool is in its final state, and the temporary pool is missing.
pub record IsQuiet (services : Services) (namespace name : String) (se : SafeEvict)
    (nodes : List Node) (latest : String → String) : Type 0 where
  pub fetched : (h : History) → services.get_safe_evict h namespace name ≡ answered se
  pub lists : (h : History) → services.list_nodes h ≡ answered nodes
  pub profiles :
      (h : History) (pool : String)
      → services.get_upgrade_profile h pool
        ≡ answered (record { properties = some (some (latest pool)) })
  pub current :
      (pool : String)
      → contains se.spec.nodepools pool ≡ true
      → passes (λ v. v != latest pool) (first_version pool nodes) ≡ false
  pub ready :
      All
        (λ pool.
          (p : AgentPool) × ((h : History) → services.get_pool h pool ≡ answered p)
          × (is_unready p ≡ false))
        se.spec.nodepools
  pub gone :
      (x : ClientError) × ((h : History)
        → services.get_pool h (get_temporary_nodepool_name se) ≡ failed x)
      × (x.status_code ≡ some 404)

module _ (services : Services) (namespace name : String) (se : SafeEvict) (nodes : List Node)
    (latest : String → String) (quiet : IsQuiet services namespace name se nodes latest) where
  round-Finds :
      (entry : String × String)
      → (entry.1 != latest entry.0) ≡ false
      → Finds Reading (check_version services ([], []) entry) (some ([], []))
  unfolding check_version
  round-Finds (pool, version) same =
      Finds-after _ (profile-Finds services pool (latest pool) (λ h. quiet.profiles h pool))
        (Finds-after _ (nodes_of-Finds services nodes quiet.lists pool) (rw same (Finds-pure _)))

  update_needed-Finds : Finds Reading (update_needed services se.spec.nodepools) (some ([], []))
  unfolding update_needed
  update_needed-Finds =
      let versions = image_versions se.spec.nodepools nodes [] in
      let all = image_versions-All se.spec.nodepools nodes latest quiet.current in
      Finds-after _ (versions-Finds services nodes quiet.lists se.spec.nodepools) (
        Finds-range services versions _ _ (λ h. tt)
          (λ picks. Finds-fold_same _ _ _ (
            All-of-In _ _
              (λ e m. round-Finds e (All-In _ versions e all (In-shuffle picks e versions m))))))

  ready-Finds :
      (pool : String) (p : AgentPool)
      → ((h : History) → services.get_pool h pool ≡ answered p)
      → is_unready p ≡ false
      → Finds Reading (check_ready services [] pool) (some [])
  unfolding check_ready add_unready
  ready-Finds pool p read done =
      Finds-after _ (Finds-on_error _ (pool-Finds services pool p read))
        (rw (unchanged (provisioning_state p) done) (Finds-pure _))
    where
      unchanged :
          (s : Option String)
          → elim s [ none ↦ false | some state ↦ state != "Succeeded" ] ≡ false
          → add_unready pool p s [] ≡ []
      unchanged none e = refl
      unchanged (some state) e = rw e refl

  not_ready-Finds : Finds Reading (get_not_ready_node_pools services se.spec.nodepools) (some [])
  unfolding get_not_ready_node_pools
  not_ready-Finds = Finds-fold_same _ _ _ (
      All-of-In _ _ (λ pool m.
        let (p, read, done) = All-In _ se.spec.nodepools pool quiet.ready m in
        ready-Finds pool p read done))

  exists-Finds :
      Finds Reading (node_pool_exists services (get_temporary_nodepool_name se)) (some false)
  unfolding node_pool_exists get_pool attempt call existence existence_by response_status pure ◌>>=◌
  exists-Finds =
      let (x, missing, status) = quiet.gone in
      record {
        at = λ h. (
          got_pool (get_temporary_nodepool_name se) (failed x) ∷ h,
          simp (missing h, status) refl,
          more here tt,
        );
      }

  -- What becomes of the deletion of the config map.
  abbrev pub forgotten : SafeEvictReconciler → Reply (Unit {0}) → Reconciled
  forgotten c (answered u) = done c.config.upgrade_frequency
  forgotten c (failed x) =
      if x.not_found
      then done c.config.upgrade_frequency
      else failing c (message ("failed to delete ConfigMap: " <> x.text))

  -- The deletion, and the return.
  abbrev pub forget : SafeEvictReconciler → Exec Reconciled Reconciled
  forget c h =
      let key = get_configmap_name se in
      let r = services.delete_config_map h namespace key in
      (err (forgotten c r), deleted_config_map namespace key r ∷ h)

  forget_lem :
      (c : SafeEvictReconciler) (k : Unit {0} → Exec Reconciled Reconciled)
      → (ensure_temporary_pool services c namespace se false true >>= k) ≡ forget c
  unfolding ensure_temporary_pool on_error throw ◌>>=◌
  forget_lem c k = fun_ext (λ h.
      let deleted = delete_config_map_lem services namespace (get_configmap_name se) h in
      simp deleted (ground arith))

  module _ (c : SafeEvictReconciler) where
    outdated-Reaches : Reaches Reading (reconcile_outdated services c namespace se [] []) (forget c)
    unfolding reconcile_outdated
    outdated-Reaches =
        Reaches-after _ (Finds-on_error _ exists-Finds) (Reaches-refl (forget_lem c _))

    found-Reaches : Reaches Reading (reconcile_found services c namespace se) (forget c)
    unfolding reconcile_found merge
    found-Reaches = Reaches-after _ (Finds-on_error _ update_needed-Finds) (
        Reaches-after _ (Finds-on_error _ not_ready-Finds)
          (Reaches-after _ (Finds-range_empty services (λ h. tt)) outdated-Reaches))

    body-Reaches : Reaches Reading (reconcile_body services c namespace name) (forget c)
    unfolding reconcile_body get_safe_evict
    body-Reaches =
        Reaches-after _ (Finds-on_error _ (Finds-call _ quiet.fetched (λ h. tt))) found-Reaches

    -- If there is nothing to do for the resource, and the services answer so at any time, then a run
    -- changes nothing but to delete the config map of the resource, as its last call, and returns.
    -- If the map is deleted or was not there, the next run is after the upgrade frequency, and else after
    -- the error time, with an error that quotes the failure.
    pub reconcile-quiet :
        (h : History)
        → let key = get_configmap_name se in
          (h' : History) × Grows Reading h h'
          × (let r = services.delete_config_map h' namespace key in
              reconcile services c namespace name h
              ≡ (ok (forgotten c r), deleted_config_map namespace key r ∷ h'))
    unfolding reconcile
    reconcile-quiet h =
        let (h', g, e) = body-Reaches.from h in (h', g, ap (λ o. (settled o.0, o.1)) e)
