-- ===== src/Examples/Resting.antt =====
-- A cluster in which nothing is to be done, and the result on its runs.
use node_updater.Base.{
  refl, ◌≡◌, contains, List, string_dec, false, some, String, if◌then◌else◌, ◌∷◌, true, [], ◌==◌,
  ◌!=◌, Bool, none,
}
use node_updater.Controller.Defs.{done}
use node_updater.Cluster.{get_configmap_name, get_temporary_nodepool_name, Node}
use node_updater.World.{Services, History, failed, answered, ok, deleted_config_map}
use node_updater.Base.Dict.{lookup}
use node_updater.Examples.{cluster, node_of, stored_map, resource, pool_of, reconciler, no_pool}
use node_updater.World.Trace.{Grows, Reading}
use node_updater.Controller.Quiet.{IsQuiet, reconcile-quiet}
use node_updater.Nodepool.Versions.{passes}
use node_updater.Controller.Loop.{reconcile}
use node_updater.Nodepool.Queries.{first_version}
use node_updater.Base.Int.{pos}

-- Everything is up to date, and the temporary pool is missing.
abbrev resting : Services
resting = record (cluster "v1" stored_map) {
  get_pool = λ h name. if name == "tmpagent" then failed no_pool else answered (pool_of name);
}

abbrev nodes : List Node
nodes = node_of "node-1" "agent" ∷ node_of "node-2" "tmpagent" ∷ []

resting-current :
    (pool : String)
    → contains resource.spec.nodepools pool ≡ true
    → passes (λ v. v != "v1") (first_version pool nodes) ≡ false
unfolding contains lookup string_dec
resting-current pool watched = go ("agent" == pool) ("tmpagent" == pool)
  where
    go :
        (a b : Bool)
        → passes (λ v. v != "v1") (if a then some "v1" else if b then some "v1" else none) ≡ false
    go true b = refl
    go false true = refl
    go false false = refl

resting-IsQuiet : IsQuiet resting "ops" "devops" resource nodes (λ pool. "v1")
unfolding string_dec get_temporary_nodepool_name
resting-IsQuiet = record {
  fetched = λ h. refl;
  lists = λ h. refl;
  profiles = λ h pool. refl;
  current = resting-current;
  ready = ((pool_of "agent", λ h. refl, refl), tt);
  gone = (no_pool, λ h. refl, refl);
}

reconcile-quiet_example :
    (h : History) × Grows Reading [] h
    × (reconcile resting reconciler "ops" "devops" []
        ≡ (ok (done (pos 3600)), deleted_config_map "ops" "tmpdevops" (answered tt) ∷ h))
unfolding get_configmap_name
reconcile-quiet_example =
    reconcile-quiet resting "ops" "devops" resource nodes (λ pool. "v1") resting-IsQuiet reconciler
      []
