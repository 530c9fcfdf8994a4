-- ===== src/Examples/Quiet.antt =====
-- The results on services that always answer the same, at the example's cluster.
use node_updater.Base.{
  ◌≡◌, refl, true, false, some, none, List, [], ◌∷◌, contains, if◌then◌else◌, Any, ◌==◌, string_dec,
  String, ◌≢◌, first, later, ap, ◌&&◌, ◌!=◌,
}
use node_updater.Cluster.{Node, AgentPool}
use node_updater.Base.Dict.{lookup, Dict}
use node_updater.World.{Services, ok, upgraded_pool, answered}
use node_updater.Examples.{cluster, node_of, resource, stored_map, idle_pod, reconciler, pool_of}
use node_updater.Nodepool.{nodes_of_pool, get_not_ready_node_pools, Outdated, update_needed}
use node_updater.Nodepool.Queries.{first_version}
use node_updater.Nodepool.Busy.{IsBusy}
use node_updater.Controller.Stages.{upgrade_drained}
use node_updater.World.Gives.{EndsWith}
use node_updater.Controller.Progress.{upgrade_drained-begins}
use node_updater.Nodepool.Unready.{is_unready, get_not_ready_node_pools_lem}
use node_updater.Nodepool.Outdated.{update_needed_lem}
use node_updater.Nodepool.Versions.{passes}

abbrev calm : Services
calm = cluster "v1" stored_map

get_not_ready_node_pools_lem_example :
    (m : Dict AgentPool) × ((get_not_ready_node_pools calm ("agent" ∷ "other" ∷ []) []).0 ≡ ok m)
    × ((name : String)
        → lookup name m ≡ (
            if contains ("agent" ∷ "other" ∷ []) name && is_unready (pool_of name)
            then some (pool_of name)
            else none))
get_not_ready_node_pools_lem_example =
    get_not_ready_node_pools_lem calm pool_of (λ h name. refl) ("agent" ∷ "other" ∷ []) []

abbrev two_pools : List Node
two_pools = node_of "node-1" "agent" ∷ node_of "node-2" "tmpagent" ∷ []

update_needed_lem_example :
    (out : Outdated) × ((update_needed (cluster "v2" stored_map) ("agent" ∷ []) []).0 ≡ ok out)
    × ((name : String)
        → lookup name out.1 ≡ (
            if contains ("agent" ∷ []) name
              && passes (λ v. v != "v2") (first_version name two_pools)
            then some (pool_of name)
            else none))
update_needed_lem_example =
    update_needed_lem (cluster "v2" stored_map) two_pools (λ name. "v2") pool_of (λ h. refl)
      (λ h name. refl) (λ h name. refl) ("agent" ∷ []) []

abbrev due_pool : AgentPool
due_pool = pool_of "agent"

old_image : first_version "agent" two_pools ≢ some "v2"
unfolding lookup string_dec
old_image e =
    let same : false ≡ true = ap (λ v. elim v [ some text ↦ text == "v2" | none ↦ false ]) e in cc

named_image : ◌≢◌ {A = String} "v2" ""
unfolding string_dec
named_image e = let same : true ≡ false = ap (λ text. text == "v2") e in cc

empty_namespaces :
    ¬ Any
      (λ ns.
        Any (IsBusy (nodes_of_pool "agent" two_pools)) (if ns == "" then idle_pod ∷ [] else []))
      resource.spec.namespaces
unfolding string_dec
empty_namespaces (first a) = elim a [ ]
empty_namespaces (later a) = elim a [ ]

upgrade_drained-begins_example :
    EndsWith
      (upgrade_drained (cluster "v2" stored_map) reconciler resource "agent")
      tt
      (upgraded_pool "agent" (answered tt))
unfolding string_dec
upgrade_drained-begins_example =
    upgrade_drained-begins (cluster "v2" stored_map) two_pools (λ h. refl) "agent" "v2" (λ h. refl)
      old_image named_image (λ h. refl) due_pool refl (λ h. refl) refl refl reconciler resource
      (λ ns. if ns == "" then idle_pod ∷ [] else []) (λ h ns. refl) empty_namespaces
