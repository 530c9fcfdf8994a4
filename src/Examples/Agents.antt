-- ===== src/Examples/Agents.antt =====
-- The results on the agents of Azure DevOps, at the example's organization.
use node_updater.Azuredevops.Results.{
  Performs, disable_request, remove_request, disable_agent_lem, remove_agent_lem,
}
use node_updater.Azuredevops.Organization.{IsOrganization, located}
use node_updater.World.{Services}
use node_updater.Base.{string_dec, List, ◌∷◌, ◌≡◌, ◌=ℕ◌, [], some, ◌||◌, refl}
use node_updater.Cluster.{Item}
use node_updater.Base.Decimal.{parse_int64}
use node_updater.Examples.{cluster, stored_map, reconciler}
use node_updater.Azuredevops.{status_ok, disable_agent, status_no_content, remove_agent}
use node_updater.Base.Int.{pos}

abbrev calm : Services
calm = cluster "v1" stored_map

abbrev listed : List Item
listed = record { id = "7"; name = "linux" } ∷ record { id = "12"; name = "worker" } ∷ []

calm-IsOrganization : IsOrganization calm reconciler.devops listed (λ z. listed)
calm-IsOrganization = record {
  accepts = λ url. refl;
  lists_pools = (record { status_code = 200; body = "" }, λ h. refl, refl, refl);
  lists_agents = λ z. (record { status_code = 200; body = "" }, λ h. refl, refl, refl);
}

disable_agent_lem_example :
    Performs calm reconciler.devops "failed to disable agent"
      (λ code. code =ℕ status_ok)
      (disable_request calm reconciler.devops)
      (located listed (λ z. listed) "linux" "worker")
      (disable_agent calm reconciler.devops "linux" "worker")
      []
disable_agent_lem_example =
    disable_agent_lem calm reconciler.devops listed (λ z. listed) calm-IsOrganization "linux"
      "worker" []

remove_agent_lem_example :
    Performs calm reconciler.devops "failed to remove agent"
      (λ code. code =ℕ status_ok || code =ℕ status_no_content)
      (remove_request calm reconciler.devops)
      (located listed (λ z. listed) "linux" "worker")
      (remove_agent calm reconciler.devops "linux" "worker")
      []
remove_agent_lem_example =
    remove_agent_lem calm reconciler.devops listed (λ z. listed) calm-IsOrganization "linux"
      "worker" []

located_worker : located listed (λ z. listed) "linux" "worker" ≡ some (pos 7, pos 12)
unfolding string_dec parse_int64
located_worker = refl
