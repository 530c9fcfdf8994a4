-- ===== src/Safety/Change.antt =====
-- Marking nodes, and creating, upgrading and removing pools obey the policy.
use node_updater.Base.{
  String, ◌≡◌, refl, Bool, In, false, Any, some, Option, ◌∷◌, first, ◌||◌, [], ◌==◌, none,
}
use node_updater.Safety.Policy.{creates, Permitted, MayDelete, ReadEntry}
use node_updater.World.{Services, History, deleted_pool, answered}
use node_updater.Azuredevops.{AzureDevopsController}
use node_updater.Cluster.{SafeEvict, AgentPool, get_temporary_nodepool_name, PoolProperties}
use node_updater.Nodepool.Copied.{copy_of-IsCopy}
use node_updater.Nodepool.Change.{
  create_temporary_node_pool, remove_temporary_node_pool, cordon_nodes_by_agent_pool, cordon_node,
  upgrade_node_image_version, upgrade_outdated, start_upgrade, create_copy,
}
use node_updater.World.Trace.{
  Policy, Run, Anything, Run-bind, Grows, Grows-Any, Run-deref, Run-on_error, Run-if, Run-call,
  Run-weaken, Run-pure, Run-for_each, Grows-trans, Run-throw,
}
use node_updater.World.Calls.{delete_pool, update_node, upgrade_pool, put_pool_call}
use node_updater.Nodepool.Evidence.{
  Missing, GotPool, Drained, Run-get_node_image_versions, Run-get_pool, Run-get_nodes_by_node_pool,
  Run-get_node_pool_upgrade_profile, Grows-Drained, NodesListed,
}
use node_updater.Safety.Reads.{reads}
use node_updater.Nodepool.{in_state}
use node_updater.Pods.{or_empty}
use node_updater.Base.Dict.{lookup}

module _ (services : Services) (devops : AzureDevopsController) (namespace : String)
    (se : SafeEvict) where
  abbrev K : Policy
  K = Permitted services devops namespace se

  abbrev Reason : String → Bool → History → Type 0
  Reason pool cordoned h = cordoned ≡ false → (text : String) × ReadEntry namespace se pool text h

  -- Uncordoning wants the entry of the pool in the config map.
  pub Run-cordon_nodes_by_agent_pool :
      (pool : String) (cordoned : Bool) {h : History}
      → Reason pool cordoned h
      → Run K Anything h (cordon_nodes_by_agent_pool services pool cordoned h)
  unfolding cordon_nodes_by_agent_pool cordon_node update_node
  Run-cordon_nodes_by_agent_pool pool cordoned why =
      Run-bind _ _
        (Run-on_error _ _
          (reads services devops namespace se (Run-get_nodes_by_node_pool services pool)))
        (λ nodes g grown listed.
          Run-weaken
            (Run-for_each {I = λ g'. NodesListed pool nodes g' × Reason pool cordoned g'} nodes _
              (listed, Grows-Reason grown why)
              (λ node g' m (l, w).
                Run-weaken {Q = Anything}
                  (Run-on_error _ _
                    (Run-call _ _ (λ r. (pool, node, cordoned, (nodes, l, m), refl, w)) (λ a. tt)))
                  (λ u g'' grown' done. (Grows-Any grown' l, Grows-Reason grown' w))))
            (λ u g' grown' kept. tt))
    where
      Grows-Reason :
          {h h' : History} → Grows K h h' → Reason pool cordoned h → Reason pool cordoned h'
      Grows-Reason g why e = let (text, seen) = why e in (text, Grows-Any g seen)

  Run-create_copy :
      (source : AgentPool) (p : Option PoolProperties) {h : History}
      → source.properties ≡ p
      → Missing (get_temporary_nodepool_name se) h
      → GotPool se.spec.base_for_backup_pool source h
      → Run K Anything h
          (create_copy services (get_temporary_nodepool_name se) se.spec.base_for_backup_pool p h)
  unfolding create_copy put_pool_call
  Run-create_copy source none e missing got = Run-throw _
  Run-create_copy source (some p) e missing got =
      Run-on_error _ _
        (Run-call _ _ (λ r. creates source p refl missing got e (copy_of-IsCopy p)) (λ a. tt))

  -- The temporary pool is created only where Azure said that it is missing.
  pub Run-create_temporary_node_pool :
      {h : History}
      → Missing (get_temporary_nodepool_name se) h
      → Run K Anything h (
          create_temporary_node_pool services
            (get_temporary_nodepool_name se)
            se.spec.base_for_backup_pool
            h)
  unfolding create_temporary_node_pool
  Run-create_temporary_node_pool missing =
      Run-bind _ _
        (Run-on_error _ _
          (reads services devops namespace se (Run-get_pool services se.spec.base_for_backup_pool)))
        (λ source g grown got.
          Run-create_copy source source.properties refl (Grows-Any grown missing) got)

  module _ (key : String) (pool : AgentPool) (watched : In key se.spec.nodepools) where
    Run-upgrade_outdated :
        (name : String) {h : History}
        → pool.name ≡ some name
        → GotPool key pool h
        → Drained key se.spec.namespaces h
        → Run K Anything h (upgrade_outdated services name h)
    unfolding upgrade_outdated start_upgrade upgrade_pool
    Run-upgrade_outdated name e got drained =
        Run-bind _ _
          (reads services devops namespace se (Run-get_node_image_versions services (name ∷ [])))
          (λ versions g grown p.
            Run-bind _ _
              (reads services devops namespace se (Run-get_node_pool_upgrade_profile services name))
              (λ latest g' grown' p'.
                let grown'' = Grows-trans grown grown' in
                Run-if (or_empty (lookup name versions) == latest) _ _ (λ same. Run-pure tt tt)
                  (λ differ. Run-on_error _ _ (
                    Run-call _ _
                      (λ r. (
                        key,
                        pool,
                        watched,
                        Grows-Any grown'' got,
                        e,
                        Grows-Drained key _ grown'' drained,
                      ))
                      (λ a. tt)))))

    -- An upgrade is begun only for a listed pool whose nodes are drained.
    pub Run-upgrade_node_image_version :
        {h : History}
        → GotPool key pool h
        → Drained key se.spec.namespaces h
        → Run K Anything h (upgrade_node_image_version services pool h)
    unfolding upgrade_node_image_version
    Run-upgrade_node_image_version got drained =
        Run-bind {M = λ name g. pool.name ≡ some name} _ _ (Run-deref pool.name (λ name e. e))
          (λ name g grown e.
            Run-if (in_state "UpgradingNodeImageVersion" pool || in_state "Updating" pool) _ _
              (λ busy. Run-pure tt tt)
              (λ free.
                Run-upgrade_outdated name e (Grows-Any grown got)
                  (Grows-Drained key _ grown drained)))

  -- What is left behind is the answer to the deletion.
  pub Run-remove_temporary_node_pool :
      (name : String) {h : History}
      → MayDelete namespace se name h
      → Run K
          (λ u. Any (λ e. e ≡ deleted_pool name (answered tt)))
          h
          (remove_temporary_node_pool services name h)
  unfolding remove_temporary_node_pool delete_pool
  Run-remove_temporary_node_pool name may =
      Run-on_error _ _ (Run-call _ _ (λ r. may) (λ a. first refl))
