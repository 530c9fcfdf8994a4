-- ===== src/Safety/Scaling.antt =====
-- Switching autoscaling off obeys the policy.
use node_updater.Base.{
  [], ◌∷◌, String, ◌≡◌, refl, All, All-map, Option, some, All-of-In, ◌!=◌, All-In, none, In-shuffle,
  ◌≢◌,
}
use node_updater.Safety.Policy.{disables, Permitted, Saved}
use node_updater.World.{Services, History, Tried, returned, raised}
use node_updater.World.Trace.{
  Policy, Grows, Grows-Any, Run, Anything, Run-pure, Run-bind, Run-range, Run-deref, Run-if,
  Run-throw, Run-attempt-call,
}
use node_updater.Base.Dict.{Dict}
use node_updater.Cluster.{AgentPool, SafeEvict, PoolProperties, system}
use node_updater.Azuredevops.{AzureDevopsController}
use node_updater.Nodepool.Evidence.{GotPool}
use node_updater.Nodepool.Scaling.{
  without_auto_scaling, disable_properties, conflict_ends, disable_auto_scaling, disable_pools,
  disable_pool, is_system, send_disabled, disable_ready, is_set, is_conflict,
}
use node_updater.World.Calls.{put_pool_call}
use node_updater.Safety.Settings.{user-mode}

-- Each pool of the map was read, under some name.
abbrev pub Known : Dict AgentPool → History → Type 0
Known pools h = All (λ entry. (key : String) × GotPool key entry.1 h) pools

pub Grows-Known :
    {K : Policy} {h h' : History} (pools : Dict AgentPool)
    → Grows K h h'
    → Known pools h
    → Known pools h'
Grows-Known pools g = All-map _ pools (λ entry (key, got). (key, Grows-Any g got))

module _ (services : Services) (devops : AzureDevopsController) (namespace : String)
    (se : SafeEvict) where
  abbrev K : Policy
  K = Permitted services devops namespace se

  module _ (key : String) (pool : AgentPool) where
    -- What a write of the pool without autoscaling rests on.
    Ready : History → Type 0
    Ready h = GotPool key pool h × Saved namespace se h

    Grows-Ready : {h h' : History} → Grows K h h' → Ready h → Ready h'
    unfolding Ready
    Grows-Ready g (got, saved) = (Grows-Any g got, Grows-Any g saved)

    Run-conflict_ends :
        (name : String) (t : Tried (Unit {0})) {h : History}
        → Run K Anything h (conflict_ends name t h)
    unfolding conflict_ends
    Run-conflict_ends name (returned u) = Run-pure _ tt
    Run-conflict_ends name (raised e) =
        Run-if (is_conflict e) _ _ (λ c. Run-pure _ tt) (λ c. Run-throw _)

    module _ (p : PoolProperties) (has : pool.properties ≡ some p)
        (user_pool : p.mode ≢ some system) where
      Run-send_disabled :
          {h : History} → Ready h → Run K Anything h (send_disabled services pool p h)
      unfolding send_disabled put_pool_call without_auto_scaling Ready
      Run-send_disabled ready =
          Run-bind {M = λ name g. pool.name ≡ some name} _ _ (Run-deref pool.name (λ name e. e))
            (λ name g grown e.
              let (got, saved) = Grows-Ready grown ready in
              Run-bind {M = Anything} _ _
                (Run-attempt-call _ _ (λ r. disables key pool p got e has user_pool refl saved)
                  (λ r. tt))
                (λ t g' grown' u. Run-conflict_ends name t))

      Run-disable_ready :
          {h : History} → Ready h → Run K Anything h (disable_ready services pool p h)
      unfolding disable_ready
      Run-disable_ready ready =
          Run-if (is_set p.mode) _ _
            (λ set.
              Run-bind {M = Anything} _ _ (Run-deref p.provisioning_state (λ a e. tt))
                (λ state g grown u.
                  Run-if (state != "Succeeded") _ _
                    (λ busy.
                      Run-bind {M = Anything} _ _ (Run-deref pool.name (λ a e. tt))
                        (λ name g' grown' u'. Run-pure _ tt))
                    (λ idle. Run-send_disabled (Grows-Ready grown ready))))
            (λ unset. Run-send_disabled ready)

    Run-disable_properties :
        (o : Option PoolProperties) {h : History}
        → pool.properties ≡ o
        → Ready h
        → Run K Anything h (disable_properties services pool o h)
    unfolding disable_properties
    Run-disable_properties none e ready =
        Run-bind {M = Anything} _ _ (Run-deref pool.name (λ a e'. tt))
          (λ name g grown u. Run-throw _)
    Run-disable_properties (some p) e ready =
        Run-if (is_system p.mode) _ _
          (λ system.
            Run-bind {M = Anything} _ _ (Run-deref pool.name (λ a e'. tt))
              (λ name g grown u. Run-pure _ tt))
          (λ user_pool. Run-disable_ready p e (user-mode p.mode user_pool) ready)

  -- The loop goes on only while no conflict was met.
  Run-disable_pools :
      (pools : Dict AgentPool) {h : History}
      → Known pools h
      → Saved namespace se h
      → Run K Anything h (disable_pools services pools h)
  unfolding disable_pools disable_pool Ready
  Run-disable_pools [] known saved = Run-pure tt tt
  Run-disable_pools ((name, pool) ∷ pools) ((key, got), known) saved =
      Run-bind _ _ (Run-disable_properties key pool pool.properties refl (got, saved))
        (λ go_on g grown u.
          Run-if go_on _ _
            (λ more.
              Run-disable_pools pools (Grows-Known pools grown known) (Grows-Any grown saved))
            (λ stop. Run-pure tt tt))

  pub Run-disable_auto_scaling :
      (pools : Dict AgentPool) {h : History}
      → Known pools h
      → Saved namespace se h
      → Run K Anything h (disable_auto_scaling services pools h)
  unfolding disable_auto_scaling
  Run-disable_auto_scaling pools {h} known saved =
      Run-bind {M = λ entries g. Known entries h} _ _
        (Run-range services pools tt
          (λ picks. All-of-In _ _ (λ y m. All-In _ pools y known (In-shuffle picks y pools m))))
        (λ entries g grown k.
          Run-disable_pools entries (Grows-Known entries grown k) (Grows-Any grown saved))
