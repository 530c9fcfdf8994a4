-- ===== src/Azuredevops/Organization.antt =====
-- internal/azuredevops/azuredevops_controller.go: how an agent is found in an organization whose pools
-- and agents are listed.
use node_updater.World.Trace.{Policy}
use node_updater.Base.{
  refl, String, Option, List, ◌≡◌, none, ◌∷◌, some, ◌<>◌, if◌then◌else◌, [], ◌==◌, Bool, ℕ, true,
  false, subst, arith,
}
use node_updater.Base.Decimal.{Parsed, parse_int64, number, invalid, out_of_range}
use node_updater.Azuredevops.{
  unparsed, pool_id_of, AzureDevopsController, int64_of, pools_url, api_version, agents_url,
  agent_id_of, check_status, request, listing, find_agent, get_pool_id_from_name, present,
}
use node_updater.World.{Services, sent, answered, History, Exec, pure, throw, ◌>>◌}
use node_updater.World.Finds.{
  Finds, Finds-throw, Finds-pure, Finds-if, and_then, Finds-bind, Finds-on_error, Finds-consult,
  Finds-call, Finds-after,
}
use node_updater.Base.Int.{ℤ, ◌=ℤ◌, pos}
use node_updater.Cluster.{Request, Item, get, Response, Error, wrapped, message}
use node_updater.World.Calls.{send}

-- The number of the first entry of the name, if it is one.
abbrev number_of : Parsed → Option ℤ
number_of (number z) = some z
number_of invalid = none
number_of out_of_range = none

abbrev pub first_number : String → List Item → Option ℤ
first_number name [] = none
first_number name (item ∷ items) =
    let rest = first_number name items in
    if item.name == name then number_of (parse_int64 item.id) else rest

-- Only GET requests are sent.
abbrev pub Asking : Policy
Asking (sent q r) h = q.method ≡ get
Asking _ h = ⊥

module _ (services : Services) (c : AzureDevopsController) where
  abbrev pub get_request : String → Request
  get_request url = record {
    method = get;
    url = url;
    password = c.access_token;
    content_type = none;
    body = "";
  }

  -- The entries that a GET of the URL lists at any time.
  abbrev pub Lists : String → List Item → Type 0
  Lists url items =
      (r : Response) × ((h : History) → services.send h (get_request url) ≡ answered r)
      × (r.status_code ≡ 200)
      × (services.decode_items r.body ≡ answered items)

  -- The URLs are accepted, and the organization lists these pools and, by the number of a pool,
  -- these agents.
  pub record IsOrganization (pools : List Item) (agents : ℤ → List Item) : Type 0 where
    pub accepts : (url : String) → services.new_request url ≡ answered tt
    pub lists_pools : Lists (pools_url c.organization_name <> api_version) pools
    pub lists_agents : (z : ℤ) → Lists (agents_url c.organization_name z <> api_version) (agents z)

int64_of-Finds : (text id : String) → Finds Asking (int64_of text id) (number_of (parse_int64 id))
int64_of-Finds text id = parsed (parse_int64 id)
  where
    parsed :
        (p : Parsed)
        → Finds {E = Error} Asking
            (elim p as (λ x. Exec Error ℤ) [
              | number z ↦ pure z
              | invalid ↦ throw (wrapped text (unparsed id "invalid syntax"))
              | out_of_range ↦ throw (wrapped text (unparsed id "value out of range"))
            ])
            (number_of p)
    parsed (number z) = Finds-pure z
    parsed invalid = Finds-throw _
    parsed out_of_range = Finds-throw _

pool_id_of-Finds :
    (name : String) (items : List Item)
    → Finds Asking (pool_id_of name items) (first_number name items)
unfolding pool_id_of
pool_id_of-Finds name [] = Finds-throw _
pool_id_of-Finds name (item ∷ items) =
    Finds-if (item.name == name) (int64_of-Finds _ item.id) (pool_id_of-Finds name items)

-- The loop over the agents gives 0 if none has the name.
abbrev agent_choice : String → List Item → Option ℤ
agent_choice name [] = some (pos 0)
agent_choice name (item ∷ items) =
    let rest = agent_choice name items in
    if item.name == name then number_of (parse_int64 item.id) else rest

agent_id_of-Finds :
    (name : String) (items : List Item)
    → Finds Asking (agent_id_of name items) (agent_choice name items)
unfolding agent_id_of
agent_id_of-Finds name [] = Finds-pure _
agent_id_of-Finds name (item ∷ items) =
    Finds-if (item.name == name) (int64_of-Finds _ item.id) (agent_id_of-Finds name items)

abbrev unless_zero : ℤ → ℤ → Option (ℤ × ℤ)
unless_zero z i = if i =ℤ pos 0 then none else some (z, i)

-- The numbers of the pool and of the agent. The number 0 counts as none.
abbrev pub located : List Item → (ℤ → List Item) → String → String → Option (ℤ × ℤ)
located pools agents pool agent =
    and_then (first_number pool pools)
      (λ z. and_then (first_number agent (agents z)) (unless_zero z))

chosen_or_found :
    (z : ℤ) (name : String) (items : List Item)
    → and_then (agent_choice name items) (unless_zero z)
      ≡ and_then (first_number name items) (unless_zero z)
chosen_or_found z name [] = refl
chosen_or_found z name (item ∷ items) =
    let ih = chosen_or_found z name items in go (item.name == name) ih
  where
    go :
        (b : Bool)
        → and_then (agent_choice name items) (unless_zero z)
          ≡ and_then (first_number name items) (unless_zero z)
        → and_then
            (if b then number_of (parse_int64 item.id) else agent_choice name items)
            (unless_zero z)
          ≡ and_then
              (if b then number_of (parse_int64 item.id) else first_number name items)
              (unless_zero z)
    go true ih = refl
    go false ih = ih

check_status-Finds :
    (text : String) (accepted : Bool) (status : ℕ)
    → accepted ≡ true
    → Finds Asking (check_status text accepted status) (some tt)
unfolding check_status
check_status-Finds text accepted status e = rw e (Finds-pure tt)

module _ (services : Services) (c : AzureDevopsController) (pools : List Item)
    (agents : ℤ → List Item) (org : IsOrganization services c pools agents) where
  request-Finds :
      (url : String) (r : Response)
      → ((h : History) → services.send h (get_request services c url) ≡ answered r)
      → Finds Asking (request services c get url none "") (some r)
  unfolding request send
  request-Finds url r replied =
      Finds-after _ (Finds-on_error _ (Finds-consult (org.accepts url)))
        (Finds-on_error _ (Finds-call _ replied (λ h. refl)))

  listing-Finds :
      (text url : String) (items : List Item)
      → Lists services c url items
      → Finds Asking (listing services c text url) (some items)
  unfolding listing
  listing-Finds text url items (r, replied, good, decoded) =
      Finds-after _ (request-Finds url r replied) (
        Finds-after _ (check_status-Finds text _ r.status_code (ground arith))
          (Finds-on_error _ (Finds-consult decoded)))

  present-Finds :
      (name : String) (z i : ℤ) → Finds Asking (present name i >> pure (z, i)) (unless_zero z i)
  unfolding present
  present-Finds name z i = go (i =ℤ pos 0)
    where
      go :
          (b : Bool)
          → Finds {E = Error} {A = ℤ × ℤ} Asking
              ((if b
                  then throw (message (("agent with name '" <> name) <> "' not found"))
                  else pure tt)
                >> pure (z, i))
              (if b then none else some (z, i))
      go true = Finds-bind _ (λ u. some (z, i)) (Finds-throw _) (λ u. Finds-pure _)
      go false = Finds-after _ (Finds-pure tt) (Finds-pure _)

  pub find_agent-Finds :
      (pool agent : String)
      → Finds Asking (find_agent services c pool agent) (located pools agents pool agent)
  unfolding find_agent get_pool_id_from_name
  find_agent-Finds pool agent =
      Finds-bind _ _
        (Finds-on_error _
          (Finds-after _ (listing-Finds _ _ pools org.lists_pools) (pool_id_of-Finds pool pools)))
        (λ z. Finds-after _ (listing-Finds _ _ (agents z) (org.lists_agents z)) (
          subst (Finds Asking _) (chosen_or_found z agent (agents z)) (
            Finds-bind _ (unless_zero z) (agent_id_of-Finds agent (agents z))
              (λ i. present-Finds agent z i))))
