-- ===== src/Controller/Progress.antt =====
-- internal/controller/safeevict_controller.go: what `Reconcile` gets done.
use node_updater.World.{Services, answered, History, Event, upgraded_pool, deref, ok}
use node_updater.Base.{
  refl, List, ◌≡◌, String, some, ◌≢◌, ◌∷◌, [], contains, false, ◌==◌, arith, Any, Bool-cases, inl,
  inr, ap, ◌∙◌,
}
use node_updater.Cluster.{Node, AgentPool, SafeEvict, Pod}
use node_updater.Nodepool.{nodes_of_pool, image_versions, in_state, has_running_stateful_pods}
use node_updater.World.Calls.{upgrade_pool}
use node_updater.Nodepool.Queries.{first_version, image_versions_lem}
use node_updater.World.Gives.{
  Gives, Gives-on_error, EndsWith, EndsWith-bind, EndsWith-on_error, EndsWith-call,
}
use node_updater.Nodepool.Change.{upgrade_outdated, start_upgrade, upgrade_node_image_version}
use node_updater.Pods.{or_empty}
use node_updater.Base.Dict.{lookup}
use node_updater.Controller.Defs.{SafeEvictReconciler}
use node_updater.Controller.Stages.{upgrade_drained, upgrade_pool_of}
use node_updater.Nodepool.Busy.{IsBusy, has_running_stateful_pods_lem}
use node_updater.Nodepool.Answers.{versions-Gives, nodes_of-Gives, pool-Gives, profile-Gives}

module _ (services : Services) (nodes : List Node)
    (lists_nodes : (h : History) → services.list_nodes h ≡ answered nodes) where
  module _ (name latest : String)
      (profile : (h : History)
        → services.get_upgrade_profile h name
          ≡ answered (record { properties = some (some latest) })) where
    module _ (due : first_version name nodes ≢ some latest) (known : latest ≢ "")
        (accepts : (h : History) → services.upgrade_pool h name ≡ answered tt) where
      abbrev begun : Event
      begun = upgraded_pool name (answered tt)

      is_due : (or_empty (lookup name (image_versions (name ∷ []) nodes [])) == latest) ≡ false
      unfolding contains
      is_due = let e = image_versions_lem (name ∷ []) nodes name in ground arith

      upgrade_outdated-EndsWith : EndsWith (upgrade_outdated services name) tt begun
      unfolding upgrade_outdated start_upgrade upgrade_pool
      upgrade_outdated-EndsWith =
          EndsWith-bind _ _ _ tt begun (versions-Gives services nodes lists_nodes (name ∷ [])) (
            EndsWith-bind _ _ _ tt begun (profile-Gives services name latest profile)
              (rw is_due (EndsWith-on_error _ _ tt begun (EndsWith-call _ _ tt accepts))))

      module _ (pool : AgentPool) (named : pool.name ≡ some name)
          (read : (h : History) → services.get_pool h name ≡ answered pool)
          (idle : in_state "UpgradingNodeImageVersion" pool ≡ false)
          (settled : in_state "Updating" pool ≡ false) where
        upgrade-EndsWith : EndsWith (upgrade_node_image_version services pool) tt begun
        unfolding upgrade_node_image_version deref
        upgrade-EndsWith =
            EndsWith-bind _ _ name tt begun (λ h. (h, simp named refl))
              (rw (idle, settled) upgrade_outdated-EndsWith)

        module _ (c : SafeEvictReconciler) where
          upgrade_pool_of-EndsWith : EndsWith (upgrade_pool_of services c name) tt begun
          unfolding upgrade_pool_of
          upgrade_pool_of-EndsWith =
              EndsWith-bind _ _ pool tt begun
                (Gives-on_error _ _ pool (pool-Gives services name pool read))
                (rw idle (EndsWith-on_error _ _ tt begun upgrade-EndsWith))

          free-Gives :
              (namespaces : List String) (pods : String → List Pod)
              → ((h : History) (ns : String) → services.list_pods h ns ≡ answered (pods ns))
              → ¬ Any (λ ns. Any (IsBusy (nodes_of_pool name nodes)) (pods ns)) namespaces
              → Gives
                  (has_running_stateful_pods services (nodes_of_pool name nodes) namespaces)
                  false
          free-Gives namespaces pods lists empty h =
              let (_, h') =
                has_running_stateful_pods services (nodes_of_pool name nodes) namespaces h in
              let (b, e, i) =
                has_running_stateful_pods_lem services pods lists (nodes_of_pool name nodes)
                  namespaces h in
              elim (Bool-cases b) [
                | inl t ↦ absurd (empty (i.0 t))
                | inr f ↦ (h', ap (λ r. (r, h')) (e ∙ ap ok f))
              ]

          -- If the nodes, the pods of each namespace, the pool and its latest image are answered
          -- the same at any time, no pod of a watched namespace runs on a node of the pool, the
          -- first node of the pool with a version has not the latest one, which is not empty, the
          -- pool is named as it is asked for and is not being updated or upgraded, and Azure accepts
          -- the upgrade, then a round of the loop over the pools begins the upgrade of the pool, as
          -- its last call, and goes on.
          pub upgrade_drained-begins :
              (se : SafeEvict) (pods : String → List Pod)
              → ((h : History) (ns : String) → services.list_pods h ns ≡ answered (pods ns))
              → ¬ Any (λ ns. Any (IsBusy (nodes_of_pool name nodes)) (pods ns)) se.spec.namespaces
              → EndsWith (upgrade_drained services c se name) tt begun
          unfolding upgrade_drained
          upgrade_drained-begins se pods lists empty =
              EndsWith-bind _ _ _ tt begun
                (Gives-on_error _ _ _ (nodes_of-Gives services nodes lists_nodes name))
                (EndsWith-bind _ _ false tt begun
                  (Gives-on_error _ _ false (free-Gives se.spec.namespaces pods lists empty))
                  upgrade_pool_of-EndsWith)
