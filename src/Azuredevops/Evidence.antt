-- ===== src/Azuredevops/Evidence.antt =====
-- internal/azuredevops/azuredevops_controller.go: the two methods send HTTP requests and do nothing
-- else, and what they have done when they return without an error.
use node_updater.Base.{
  ℕ, String, ◌≡◌, refl, ◌⊎◌, ◌==◌, Bool, true, false, Option, none, List, [], ◌∷◌, arith, Any,
  Any-map, first, ◌<>◌, inl, inr, later, ◌∙◌, ap,
}
use node_updater.Base.Int.{ℤ, pos, ◌=ℤ◌}
use node_updater.Cluster.{Method, get, patch, delete, Request, Response, Item, Error, wrapped}
use node_updater.World.{answered, sent, History, Services, Exec, pure, throw}
use node_updater.World.Trace.{
  Policy, Run, Anything, Run-pure, Run-bind, Run-throw, Run-weaken, Run-on_error, Run-if, Grows-Any,
  Run-consult, Run-call, Grows, Grows-trans,
}
use node_updater.Azuredevops.{
  unparsed, request, listing, AzureDevopsController, agent_id_of, remove_agent, pool_id_of,
  check_status, agent_url, disable_agent, find_agent, get_pool_id_from_name, int64_of, present,
  agents_url, api_version,
}
use node_updater.Base.Decimal.{Parsed, number, invalid, out_of_range, parse_int64}
use node_updater.World.Calls.{send}

-- Only HTTP requests are sent.
abbrev pub Sending : Policy
Sending (sent q r) h = Unit
Sending _ h = ⊥

-- A request of this method to this URL was answered, with a status that `Good` allows.
abbrev pub Answered : Method → String → (ℕ → Type 0) → History → Type 0
Answered m url Good = Any (λ e.
    (q : Request) × (r : Response) × (e ≡ sent q (answered r))
    × (q.method ≡ m)
    × (q.url ≡ url)
    × Good r.status_code)

-- A request of this method to this URL was answered with the response.
abbrev Responded : Method → String → Response → History → Type 0
Responded m url response = Any (λ e.
    (q : Request) × (r : Response) × (e ≡ sent q (answered r))
    × (q.method ≡ m)
    × (q.url ≡ url)
    × (r ≡ response))

int64_of-sends : (text id : String) {h : History} → Run Sending Anything h (int64_of text id h)
int64_of-sends text id = parsed (parse_int64 id)
  where
    parsed :
        (p : Parsed) {h : History}
        → Run Sending Anything h (
            (elim p as (λ x. Exec Error ℤ) [
              | number z ↦ pure z
              | invalid ↦ throw (wrapped text (unparsed id "invalid syntax"))
              | out_of_range ↦ throw (wrapped text (unparsed id "value out of range"))
            ])
              h)
    parsed (number z) = Run-pure z tt
    parsed invalid = Run-throw _
    parsed out_of_range = Run-throw _

pool_id_of-sends :
    (name : String) (items : List Item) {h : History}
    → Run Sending Anything h (pool_id_of name items h)
unfolding pool_id_of
pool_id_of-sends name [] = Run-throw _
pool_id_of-sends name (item ∷ items) =
    Run-if (item.name == name) _ _ (λ e. int64_of-sends _ item.id)
      (λ e. pool_id_of-sends name items)

-- The number of an entry of the listing that has the name.
abbrev pub Names : String → ℤ → List Item → Type 0
Names name id = Any (λ item. (item.name ≡ name) × (parse_int64 item.id ≡ number id))

int64_of-parses :
    (text id : String) {h : History}
    → Run Sending (λ z g. parse_int64 id ≡ number z) h (int64_of text id h)
int64_of-parses text id = parsed (parse_int64 id)
  where
    parsed :
        (p : Parsed) {h : History}
        → Run Sending
            (λ z g. p ≡ number z)
            h
            ((elim p as (λ x. Exec Error ℤ) [
              | number z ↦ pure z
              | invalid ↦ throw (wrapped text (unparsed id "invalid syntax"))
              | out_of_range ↦ throw (wrapped text (unparsed id "value out of range"))
            ])
              h)
    parsed (number z) = Run-pure z refl
    parsed invalid = Run-throw _
    parsed out_of_range = Run-throw _

agent_id_of-Names :
    (name : String) (items : List Item) {h : History}
    → Run Sending (λ id g. (id ≡ pos 0) ⊎ Names name id items) h (agent_id_of name items h)
unfolding agent_id_of
agent_id_of-Names name [] = Run-pure _ (inl refl)
agent_id_of-Names name (item ∷ items) =
    Run-if (item.name == name) _ _
      (λ e. Run-weaken (int64_of-parses _ item.id) (λ id g grown p. inr (first (ground arith, p))))
      (λ e.
        Run-weaken (agent_id_of-Names name items)
          (λ id g grown p. elim p [ inl z ↦ inl z | inr n ↦ inr (later n) ]))

check_status_passes :
    (text : String) (accepted : Bool) (status : ℕ) {h : History}
    → Run Sending (λ u g. accepted ≡ true) h (check_status text accepted status h)
unfolding check_status
check_status_passes text true status = Run-pure tt refl
check_status_passes text false status = Run-throw _

-- The body of an answer with status 200 to a GET of the URL decodes to the entries.
abbrev pub ListedItems : Services → String → List Item → History → Type 0
ListedItems services url items = Any (λ e.
    (q : Request) × (r : Response) × (e ≡ sent q (answered r))
    × (q.method ≡ get)
    × (q.url ≡ url)
    × (r.status_code ≡ 200)
    × (services.decode_items r.body ≡ answered items))

-- The number belongs to an agent of the name, on a listing of the agents of the pool.
abbrev pub AgentOf : Services → AzureDevopsController → String → ℤ → ℤ → History → Type 0
AgentOf services c name pool_id agent_id h =
    (items : List Item) × ListedItems services
      (agents_url c.organization_name pool_id <> api_version) items h
    × Names name agent_id items

-- The agent of the name was disabled: a PATCH of its URL was answered with 200.
abbrev pub Disabled : Services → AzureDevopsController → String → History → Type 0
Disabled services c name h =
    (pool_id agent_id : ℤ) × AgentOf services c name pool_id agent_id h
    × Answered patch (agent_url c.organization_name pool_id agent_id) (λ code. code ≡ 200) h

-- The agent of the name was removed: a DELETE of its URL was answered with 200 or 204.
abbrev pub Removed : Services → AzureDevopsController → String → History → Type 0
Removed services c name h =
    (pool_id agent_id : ℤ) × AgentOf services c name pool_id agent_id h
    × Answered delete (agent_url c.organization_name pool_id agent_id)
        (λ code. (code ≡ 200) ⊎ (code ≡ 204)) h

module _ {K : Policy} (services : Services) (c : AzureDevopsController) (name : String)
    {h h' : History} (g : Grows K h h') where
  Grows-AgentOf :
      (pool_id agent_id : ℤ)
      → AgentOf services c name pool_id agent_id h
      → AgentOf services c name pool_id agent_id h'
  Grows-AgentOf pool_id agent_id (items, listed, named) = (items, Grows-Any g listed, named)

  pub Grows-Disabled : Disabled services c name h → Disabled services c name h'
  Grows-Disabled (pool_id, agent_id, agent, seen) =
      (pool_id, agent_id, Grows-AgentOf pool_id agent_id agent, Grows-Any g seen)

  pub Grows-Removed : Removed services c name h → Removed services c name h'
  Grows-Removed (pool_id, agent_id, agent, seen) =
      (pool_id, agent_id, Grows-AgentOf pool_id agent_id agent, Grows-Any g seen)

module _ (services : Services) (c : AzureDevopsController) where
  Run-request :
      (m : Method) (url : String) (content_type : Option String) (body : String) {h : History}
      → Run Sending (λ r. Responded m url r) h (request services c m url content_type body h)
  unfolding request send
  Run-request m url content_type body =
      Run-bind {M = Anything} _ _ (Run-on_error _ _ (Run-consult _ (λ a said. tt))) (λ u g grown p.
        Run-on_error _ _ (Run-call _ _ (λ r. tt) (λ r. first (_, r, refl, refl, refl, refl))))

  Run-listing :
      (text url : String) {h : History}
      → Run Sending (ListedItems services url) h (listing services c text url h)
  unfolding listing
  Run-listing text url = Run-bind _ _ (Run-request get url none "") (λ r g grown seen.
      Run-bind _ _ (check_status_passes text _ r.status_code) (λ u g' grown' good.
        Run-on_error _ _ (
          Run-consult _ (λ items said. Grows-Any grown' (
            Any-map
              (λ e (q, r', s, m, url', same).
                (q, r, s ∙ ap (λ x. sent q (answered x)) same, m, url', ground arith, said))
              seen)))))

  Run-find_agent :
      (pool agent : String) {h : History}
      → Run Sending
          (λ ids g. AgentOf services c agent ids.0 ids.1 g)
          h
          (find_agent services c pool agent h)
  unfolding find_agent get_pool_id_from_name present
  Run-find_agent pool agent =
      Run-bind {M = Anything} _ _
        (Run-on_error _ _
          (Run-bind _ _ (Run-listing _ _) (λ pools g grown p. pool_id_of-sends pool pools)))
        (λ pool_id g grown p. Run-bind _ _ (Run-listing _ _) (λ agents g' grown' listed.
          Run-bind _ _ (agent_id_of-Names agent agents) (λ agent_id g'' grown'' found.
            Run-bind {M = λ u g. Names agent agent_id agents} _ _
              (Run-if (agent_id =ℤ pos 0) _ _ (λ e. Run-throw _)
                (λ e.
                  Run-pure tt (elim found [ inl none_found ↦ absurd (ground arith) | inr n ↦ n ])))
              (λ u g3 grown3 named.
                Run-pure _ (agents, Grows-Any grown3 (Grows-Any grown'' listed), named)))))

  pub Run-disable_agent :
      (pool agent : String) {h : History}
      → Run Sending (λ u. Disabled services c agent) h (disable_agent services c pool agent h)
  unfolding disable_agent
  Run-disable_agent pool agent =
      Run-bind _ _ (Run-find_agent pool agent) (λ (pool_id, agent_id) g grown found.
        Run-bind _ _ (Run-request patch _ _ _) (λ r g' grown' seen.
          Run-weaken (check_status_passes _ _ r.status_code) (λ u g'' grown'' good. (
            pool_id,
            agent_id,
            Grows-AgentOf services c agent (Grows-trans grown' grown'') pool_id agent_id found,
            Grows-Any grown'' (
                Any-map
                  (λ e (q, r', s, m, url, same).
                    (q, r, s ∙ ap (λ x. sent q (answered x)) same, m, url, ground arith))
                  seen),
          ))))

  pub Run-remove_agent :
      (pool agent : String) {h : History}
      → Run Sending (λ u. Removed services c agent) h (remove_agent services c pool agent h)
  unfolding remove_agent
  Run-remove_agent pool agent =
      Run-bind _ _ (Run-find_agent pool agent) (λ (pool_id, agent_id) g grown found.
        Run-bind _ _ (Run-request delete _ _ _) (λ r g' grown' seen.
          Run-weaken (check_status_passes _ _ r.status_code) (λ u g'' grown'' good. (
            pool_id,
            agent_id,
            Grows-AgentOf services c agent (Grows-trans grown' grown'') pool_id agent_id found,
            Grows-Any grown'' (
                Any-map
                  (λ e (q, r', s, m, url, same).
                    (q, r, s ∙ ap (λ x. sent q (answered x)) same, m, url, ground arith))
                  seen),
          ))))
