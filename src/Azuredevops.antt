-- ===== src/Azuredevops.antt =====
-- internal/azuredevops/azuredevops_controller.go
pub mod Evidence
pub mod Safe
pub mod Organization
pub mod Results
use node_updater.Base.{
  ℕ, String, ◌<>◌, ◌=ℕ◌, ◌==◌, Bool, ◌||◌, Option, none, some, List, [], ◌∷◌, if◌then◌else◌,
}
use node_updater.Base.Int.{ℤ, pos, ◌=ℤ◌}
use node_updater.Base.Decimal.{itoa, number, invalid, out_of_range, parse_int64}
use node_updater.Cluster.{Error, message, wrapped, Method, get, patch, delete, Response, Item}
use node_updater.World.{Services, Exec, pure, throw, on_error, consult, ◌>>=◌, ◌>>◌}
use node_updater.World.Calls.{send}

pub record AzureDevopsController : Type 0 where
  pub organization_name : String
  pub access_token : String

abbrev pub status_ok : ℕ
status_ok = 200

abbrev pub status_no_content : ℕ
status_no_content = 204

-- The error of `strconv.ParseInt`; a JSON number has no character that is escaped in quotes.
abbrev pub unparsed : String → String → Error
unparsed id why = message ((("strconv.ParseInt: parsing \"" <> id) <> "\": ") <> why)

-- The `Int64` of a `json.Number`, with its error.
abbrev pub int64_of : String → String → Exec Error ℤ
int64_of text id = elim (parse_int64 id) [
  | number z ↦ pure z
  | invalid ↦ throw (wrapped text (unparsed id "invalid syntax"))
  | out_of_range ↦ throw (wrapped text (unparsed id "value out of range"))
]

abbrev pub api_version : String
api_version = "?api-version=7.1-preview.1"

abbrev pub pools_url : String → String
pools_url organization =
    ("https://dev.azure.com/" <> organization) <> "/_apis/distributedtask/pools"

abbrev pub agents_url : String → ℤ → String
agents_url organization pool_id = ((pools_url organization <> "/") <> itoa pool_id) <> "/agents"

abbrev pub agent_url : String → ℤ → ℤ → String
agent_url organization pool_id agent_id =
    ((agents_url organization pool_id <> "/") <> itoa agent_id) <> api_version

-- The loop over the pools: the first of the name decides.
unfoldable pub pool_id_of : String → List Item → Exec Error ℤ
pool_id_of pool_name [] = throw (message (("pool with name '" <> pool_name) <> "' not found"))
pool_id_of pool_name (pool ∷ pools) =
    let rest = pool_id_of pool_name pools in
    if pool.name == pool_name then int64_of "failed to convert pool ID to int: " pool.id else rest

-- The loop over the agents: 0 if none has the name.
unfoldable pub agent_id_of : String → List Item → Exec Error ℤ
agent_id_of agent_name [] = pure (pos 0)
agent_id_of agent_name (agent ∷ agents) =
    let rest = agent_id_of agent_name agents in
    if agent.name == agent_name
    then int64_of "failed to convert agent ID to int: " agent.id
    else rest

unfoldable pub check_status : String → Bool → ℕ → Exec Error (Unit {0})
check_status text accepted status =
    if accepted then pure tt else throw (message ((text <> ": status code ") <> itoa (pos status)))

unfoldable pub present : String → ℤ → Exec Error (Unit {0})
present agent_name agent_id =
    if agent_id =ℤ pos 0
    then throw (message (("agent with name '" <> agent_name) <> "' not found"))
    else pure tt

module _ (services : Services) (c : AzureDevopsController) where
  -- `http.NewRequest`, the headers and `client.Do`
  unfoldable pub request : Method → String → Option String → String → Exec Error Response
  request method url content_type body = do
    on_error (wrapped "failed to create HTTP request: ") (consult (services.new_request url))
    on_error (wrapped "failed to send HTTP request: ") (
        send services (record {
          method = method;
          url = url;
          password = c.access_token;
          content_type = content_type;
          body = body;
        }))

  -- A listing: its status has to be 200, and its body has to decode.
  unfoldable pub listing : String → String → Exec Error (List Item)
  listing text url = do
    response ← request get url none ""
    check_status text (response.status_code =ℕ status_ok) response.status_code
    on_error (wrapped "failed to decode response body: ")
        (consult (services.decode_items response.body))

  unfoldable pub get_pool_id_from_name : String → Exec Error ℤ
  get_pool_id_from_name pool_name = do
    pools ← listing "failed to list pools" (pools_url c.organization_name <> api_version)
    pool_id_of pool_name pools

  -- What both methods begin with: the pool's number, and the agent's in it.
  unfoldable pub find_agent : String → String → Exec Error (ℤ × ℤ)
  find_agent pool_name agent_name = do
    pool_id ←
        on_error (wrapped "failed to get pool ID from name: ") (get_pool_id_from_name pool_name)
    agents ← listing "failed to list agents" (agents_url c.organization_name pool_id <> api_version)
    agent_id ← agent_id_of agent_name agents
    present agent_name agent_id
    pure (pool_id, agent_id)

  unfoldable pub disable_agent : String → String → Exec Error (Unit {0})
  disable_agent pool_name agent_name = do
    (pool_id, agent_id) ← find_agent pool_name agent_name
    response ←
        request patch (agent_url c.organization_name pool_id agent_id) (some "application/json")
          (("{\"id\":" <> itoa agent_id) <> ",\"enabled\":false}")
    check_status "failed to disable agent" (response.status_code =ℕ status_ok) response.status_code

  unfoldable pub remove_agent : String → String → Exec Error (Unit {0})
  remove_agent pool_name agent_name = do
    (pool_id, agent_id) ← find_agent pool_name agent_name
    response ← request delete (agent_url c.organization_name pool_id agent_id) none ""
    check_status "failed to remove agent"
        (response.status_code =ℕ status_ok || response.status_code =ℕ status_no_content)
        response.status_code
