-- ===== src/Azuredevops/Safe.antt =====
-- internal/azuredevops/azuredevops_controller.go never dereferences a nil pointer.
use node_updater.Base.{String, Option, List, [], ◌∷◌}
use node_updater.Azuredevops.{
  unparsed, agent_id_of, pool_id_of, int64_of, AzureDevopsController, listing, request,
  check_status, find_agent, disable_agent, remove_agent, get_pool_id_from_name, present,
}
use node_updater.World.Total.{Safe, Safe-pure, Safe-throw, Safe-if, safe_rules}
use node_updater.World.{Services, Exec, pure, throw}
use node_updater.Cluster.{Item, Error, Method, wrapped}
use node_updater.Base.Decimal.{Parsed, number, parse_int64, invalid, out_of_range}
use node_updater.World.Calls.{send}
use node_updater.Base.Int.{ℤ}

int64_of-Safe : (text id : String) → Safe (int64_of text id)
int64_of-Safe text id = parsed (parse_int64 id)
  where
    parsed :
        (p : Parsed)
        → Safe {E = Error} (elim p as (λ x. Exec Error ℤ) [
          | number z ↦ pure z
          | invalid ↦ throw (wrapped text (unparsed id "invalid syntax"))
          | out_of_range ↦ throw (wrapped text (unparsed id "value out of range"))
        ])
    parsed (number z) = Safe-pure z
    parsed invalid = Safe-throw _
    parsed out_of_range = Safe-throw _

pool_id_of-Safe : (name : String) (items : List Item) → Safe (pool_id_of name items)
unfolding pool_id_of
pool_id_of-Safe name [] = Safe-throw _
pool_id_of-Safe name (item ∷ items) =
    Safe-if _ _ _ (int64_of-Safe _ item.id) (pool_id_of-Safe name items)

agent_id_of-Safe : (name : String) (items : List Item) → Safe (agent_id_of name items)
unfolding agent_id_of
agent_id_of-Safe name [] = Safe-pure _
agent_id_of-Safe name (item ∷ items) =
    Safe-if _ _ _ (int64_of-Safe _ item.id) (agent_id_of-Safe name items)

module _ (services : Services) (c : AzureDevopsController) where
  request-Safe :
      (m : Method) (url : String) (content_type : Option String) (body : String)
      → Safe (request services c m url content_type body)
  unfolding request send
  request-Safe m url content_type body = search safe_rules

  listing-Safe : (text url : String) → Safe (listing services c text url)
  unfolding listing check_status
  listing-Safe text url = search (request-Safe, safe_rules)

  find_agent-Safe : (pool agent : String) → Safe (find_agent services c pool agent)
  unfolding find_agent get_pool_id_from_name present
  find_agent-Safe pool agent =
      search (listing-Safe, pool_id_of-Safe, agent_id_of-Safe, safe_rules) depth 16

  pub disable_agent-Safe : (pool agent : String) → Safe (disable_agent services c pool agent)
  unfolding disable_agent check_status
  disable_agent-Safe pool agent = search (find_agent-Safe, request-Safe, safe_rules)

  pub remove_agent-Safe : (pool agent : String) → Safe (remove_agent services c pool agent)
  unfolding remove_agent check_status
  remove_agent-Safe pool agent = search (find_agent-Safe, request-Safe, safe_rules)
