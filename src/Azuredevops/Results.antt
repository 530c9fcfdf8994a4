-- ===== src/Azuredevops/Results.antt =====
-- internal/azuredevops/azuredevops_controller.go: what the two methods do to an organization whose
-- pools and agents are listed.
use node_updater.World.Trace.{Grows}
use node_updater.Base.{
  refl, String, Option, List, ◌≡◌, none, ◌∷◌, some, ◌<>◌, if◌then◌else◌, Bool, ℕ, arith, ◌=ℕ◌, ◌||◌,
}
use node_updater.Base.Decimal.{itoa}
use node_updater.Azuredevops.{
  AzureDevopsController, check_status, request, find_agent, agent_url, disable_agent, remove_agent,
  status_ok, status_no_content,
}
use node_updater.World.{
  Services, sent, answered, History, Exec, pure, throw, ◌>>=◌, Reply, call, err, consult, Outcome,
  failed, on_error, ok,
}
use node_updater.World.Finds.{FindsAt}
use node_updater.Base.Int.{ℤ, pos}
use node_updater.Cluster.{
  Request, Item, Response, Error, wrapped, message, patch, delete, client, Method,
}
use node_updater.World.Calls.{send}
use node_updater.Azuredevops.Organization.{IsOrganization, Asking, located, find_agent-Finds}

-- Where the service keeps the agent of a number in the pool of a number.
abbrev pub address : String → ℤ → ℤ → String
address organization pool_id agent_id =
    ((((((("https://dev.azure.com/" <> organization) <> "/_apis/distributedtask/pools") <> "/")
            <> itoa pool_id)
          <> "/agents")
        <> "/")
      <> itoa agent_id)
    <> "?api-version=7.1-preview.1"

module _ (services : Services) (c : AzureDevopsController) where
  abbrev pub disable_request : ℤ → ℤ → Request
  disable_request z i = record {
    method = patch;
    url = address c.organization_name z i;
    password = c.access_token;
    content_type = some "application/json";
    body = ("{\"id\":" <> itoa i) <> ",\"enabled\":false}";
  }

  abbrev pub remove_request : ℤ → ℤ → Request
  remove_request z i = record {
    method = delete;
    url = address c.organization_name z i;
    password = c.access_token;
    content_type = none;
    body = "";
  }

  -- What the last answer is taken for, by the statuses that count as success.
  abbrev pub verdict : String → (ℕ → Bool) → Reply Response → Outcome Error (Unit {0})
  verdict text good (failed x) = err (wrapped "failed to send HTTP request: " (client x))
  verdict text good (answered r) =
      if good r.status_code
      then ok tt
      else err (message ((text <> ": status code ") <> itoa (pos r.status_code)))

  -- After GET requests only, the request for the agent is sent, and the answer to it decides; or,
  -- without an agent, nothing more is sent, and the result is an error.
  abbrev pub Performs :
      String
      → (ℕ → Bool)
      → (ℤ → ℤ → Request)
      → Option (ℤ × ℤ)
      → Exec Error (Unit {0})
      → History
      → Type 0
  Performs text good q (some (z, i)) m h =
      (h' : History) × Grows Asking h h'
      × (m h ≡ (
        verdict text good (services.send h' (q z i)),
        sent (q z i) (services.send h' (q z i)) ∷ h',
      ))
  Performs text good q none m h =
      (e : Error) × (h' : History) × Grows Asking h h' × (m h ≡ (err e, h'))

module _ (services : Services) (c : AzureDevopsController) (pools : List Item)
    (agents : ℤ → List Item) (org : IsOrganization services c pools agents) where
  last_request :
      (m : Method) (url : String) (content_type : Option String) (body text : String)
      (good : ℕ → Bool) (h : History)
      → let q : Request = record {
        method = m;
        url = url;
        password = c.access_token;
        content_type = content_type;
        body = body;
      } in
        (request services c m url content_type body >>= λ r.
        check_status text (good r.status_code) r.status_code)
          h
        ≡ (verdict services c text good (services.send h q), sent q (services.send h q) ∷ h)
  unfolding request send call consult on_error check_status pure throw ◌>>=◌
  last_request m url content_type body text good h = let accepted = org.accepts url in ground arith

  module _ (pool agent : String) (h : History) where
    performs :
        (text : String) (good : ℕ → Bool) (q : ℤ → ℤ → Request) (o : Option (ℤ × ℤ))
        (m : Exec Error (ℤ × ℤ)) (f : ℤ × ℤ → Exec Error (Unit {0}))
        → FindsAt Asking m o h
        → ((z i : ℤ) (g : History)
            → f (z, i) g ≡ (
              verdict services c text good (services.send g (q z i)),
              sent (q z i) (services.send g (q z i)) ∷ g,
            ))
        → Performs services c text good q o (m >>= f) h
    unfolding ◌>>=◌
    performs text good q (some (z, i)) m f (h', e, g) last = (h', g, simp e (last z i h'))
    performs text good q none m f (x, h', e, g) last = (x, h', g, simp e refl)

    -- In an organization whose pools and agents are listed, `DisableAgent` finds the first pool and
    -- in it the first agent of the names, after GET requests only. Then it sends one PATCH for that
    -- agent, and succeeds just if the answer has status 200. Where either has no entry of its name, the
    -- first entry has no number, or the agent's number is 0, it fails and sends nothing more.
    pub disable_agent_lem :
        Performs services c "failed to disable agent"
          (λ code. code =ℕ 200)
          (disable_request services c)
          (located pools agents pool agent)
          (disable_agent services c pool agent)
          h
    unfolding disable_agent
    disable_agent_lem =
        performs "failed to disable agent" _ _ (located pools agents pool agent)
          (find_agent services c pool agent)
          (λ (z, i).
            request services c patch (agent_url c.organization_name z i) (some "application/json")
              (("{\"id\":" <> itoa i) <> ",\"enabled\":false}")
            >>= λ response.
                check_status "failed to disable agent" (response.status_code =ℕ status_ok)
                  response.status_code)
          ((find_agent-Finds services c pools agents org pool agent).at h)
          (λ z i g. last_request patch _ _ _ "failed to disable agent" _ g)

    -- In an organization whose pools and agents are listed, `RemoveAgent` finds the agent as
    -- `DisableAgent` does, after GET requests only. Then it sends one DELETE for that agent, and
    -- succeeds just if the answer has status 200 or 204. Where no agent is found, it fails and sends
    -- nothing more.
    pub remove_agent_lem :
        Performs services c "failed to remove agent"
          (λ code. code =ℕ 200 || code =ℕ 204)
          (remove_request services c)
          (located pools agents pool agent)
          (remove_agent services c pool agent)
          h
    unfolding remove_agent
    remove_agent_lem =
        performs "failed to remove agent" _ _ (located pools agents pool agent)
          (find_agent services c pool agent)
          (λ (z, i).
            request services c delete (agent_url c.organization_name z i) none "" >>= λ response.
            check_status "failed to remove agent"
              (response.status_code =ℕ status_ok || response.status_code =ℕ status_no_content)
              response.status_code)
          ((find_agent-Finds services c pools agents org pool agent).at h)
          (λ z i g. last_request delete _ _ _ "failed to remove agent" _ g)
