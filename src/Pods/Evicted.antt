-- ===== src/Pods/Evicted.antt =====
-- internal/pod/pod_controller.go: what `EvictIdlePods` does where every call is accepted.
use node_updater.Cluster.{Item, Pod, Error, OwnerReference, Response, Request}
use node_updater.Base.{
  [], ◌∷◌, Bool, List, ◌≡◌, true, false, refl, String, All, ◌++◌, some, arith, ◌=ℕ◌, ◌||◌, ◌∙◌,
  ◌==◌, ℕ, ap, Option, subst,
}
use node_updater.World.{
  History, Event, sent, deleted_pod, deleted_job, Services, Exec, answered, call, ok, on_error,
  pure, ◌>>=◌, got_pod, for_each,
}
use node_updater.Azuredevops.Organization.{IsOrganization, located}
use node_updater.Azuredevops.{AzureDevopsController, disable_agent, remove_agent}
use node_updater.Base.Int.{ℤ}
use node_updater.Pods.{
  kill_pod, get_pods_pool, azp_pool, pool_or_error, evict_idle_pods, evict_idle_pod,
}
use node_updater.Azuredevops.Results.{
  disable_request, remove_request, disable_agent_lem, remove_agent_lem, Performs,
}
use node_updater.Job.{kill_job_by_pod}
use node_updater.World.Calls.{delete_pod, get_pod}
use node_updater.Job.Results.{first_job, kill, kill_job_by_pod_lem}
use node_updater.Pods.Changes.{changes, Changes, Changes-then, is_change, changes-asking}

module _ (services : Services) (devops : AzureDevopsController) (pools : List Item)
    (agents : ℤ → List Item) where
  -- The pod names a pool in which the organization has an agent of the pod's name, a job owns the
  -- pod, and the calls that evict the pod are accepted at any time.
  pub record IsEvictable (pod : Pod) : Type 0 where
    pub pool : String
    pub known :
        (p : Pod) × ((h : History) → services.get_pod h pod.namespace pod.name ≡ answered p)
        × (azp_pool p.containers ≡ some pool)
    pub pool_id : ℤ
    pub agent_id : ℤ
    pub found : located pools agents pool pod.name ≡ some (pool_id, agent_id)
    pub disabled :
        (r : Response) × ((h : History)
          → services.send h (disable_request services devops pool_id agent_id) ≡ answered r)
        × (r.status_code ≡ 200)
    pub removed :
        (r : Response) × ((h : History)
          → services.send h (remove_request services devops pool_id agent_id) ≡ answered r)
        × ((r.status_code =ℕ 200 || r.status_code =ℕ 204) ≡ true)
    pub job : OwnerReference
    pub owned : first_job pod.owner_references ≡ some job
    pub named : (job.name == "") ≡ false
    pub job_deleted : (h : History) → services.delete_job h pod.namespace job.name ≡ answered tt
    pub pod_deleted : (h : History) → services.delete_pod h pod.namespace pod.name ≡ answered tt

  -- The changes that evict a pod, the last one first.
  abbrev pub eviction : (pod : Pod) → IsEvictable pod → List Event
  eviction pod e =
      deleted_pod pod.namespace pod.name (answered tt)
      ∷ deleted_job pod.namespace e.job.name (answered tt)
      ∷ sent (remove_request services devops e.pool_id e.agent_id) (answered e.removed.0)
      ∷ sent (disable_request services devops e.pool_id e.agent_id) (answered e.disabled.0)
      ∷ []

  abbrev pub evictions : (pods : List Pod) → All IsEvictable pods → List Event
  evictions [] all = []
  evictions (pod ∷ pods) (e, all) = evictions pods all ++ eviction pod e

  pool-read :
      (pod : Pod) (e : IsEvictable pod) (h : History)
      → get_pods_pool services pod.name pod.namespace h
        ≡ (ok e.pool, got_pod pod.namespace pod.name (answered e.known.0) ∷ h)
  unfolding get_pods_pool get_pod call on_error pool_or_error pure ◌>>=◌
  pool-read pod e h = simp (e.known.1 h, e.known.2) refl

  -- The request for the agent that was found is the only change.
  performed :
      (text : String) (good : ℕ → Bool) (q : ℤ → ℤ → Request) (o : Option (ℤ × ℤ)) (z i : ℤ)
      (m : Exec Error (Unit {0})) (h : History) (r : Response)
      → Performs services devops text good q o m h
      → o ≡ some (z, i)
      → ((h' : History) → services.send h' (q z i) ≡ answered r)
      → good r.status_code ≡ true
      → is_change (sent (q z i) (answered r)) ≡ true
      → Changes (sent (q z i) (answered r) ∷ []) m h
  unfolding changes
  performed text good q o z i m h r does found sends fine counts =
      let (h', g, e) = subst (λ x. Performs services devops text good q x m h) found does in
      record {
        after = sent (q z i) (answered r) ∷ h';
        runs = e ∙ simp (sends h', fine) refl;
        made = rw counts (ap (λ c. sent (q z i) (answered r) ∷ c) (changes-asking g));
      }

  job-killed :
      (pod : Pod) (e : IsEvictable pod) (h : History)
      → Changes
          (deleted_job pod.namespace e.job.name (answered tt) ∷ [])
          (kill_job_by_pod services pod)
          h
  unfolding changes
  job-killed pod e h = record {
    after = deleted_job pod.namespace e.job.name (answered tt) ∷ h;
    runs = kill_job_by_pod_lem services pod h ∙ go pod.owner_references e.owned;
    made = refl;
  }
    where
      go :
          (owners : List OwnerReference)
          → first_job owners ≡ some e.job
          → kill services pod owners h
            ≡ (ok tt, deleted_job pod.namespace e.job.name (answered tt) ∷ h)
      go [] o = absurd (ground arith)
      go (owner ∷ owners) o = simp (o, e.named, e.job_deleted h) refl

  pod-killed :
      (pod : Pod) (e : IsEvictable pod) (h : History)
      → Changes (deleted_pod pod.namespace pod.name (answered tt) ∷ []) (kill_pod services pod) h
  unfolding kill_pod delete_pod call on_error changes
  pod-killed pod e h = record {
    after = deleted_pod pod.namespace pod.name (answered tt) ∷ h;
    runs = simp (e.pod_deleted h) refl;
    made = refl;
  }

  module _ (org : IsOrganization services devops pools agents) where
    agent-disabled :
        (pod : Pod) (e : IsEvictable pod) (h : History)
        → Changes
            (sent (disable_request services devops e.pool_id e.agent_id) (answered e.disabled.0)
              ∷ [])
            (disable_agent services devops e.pool pod.name)
            h
    agent-disabled pod e h =
        performed "failed to disable agent" (λ code. code =ℕ 200) (disable_request services devops)
          _ e.pool_id e.agent_id _ h e.disabled.0
          (disable_agent_lem services devops pools agents org e.pool pod.name h) e.found
          e.disabled.1 (rw e.disabled.2 refl) refl

    agent-removed :
        (pod : Pod) (e : IsEvictable pod) (h : History)
        → Changes
            (sent (remove_request services devops e.pool_id e.agent_id) (answered e.removed.0) ∷ [])
            (remove_agent services devops e.pool pod.name)
            h
    agent-removed pod e h =
        performed "failed to remove agent" (λ code. code =ℕ 200 || code =ℕ 204)
          (remove_request services devops) _ e.pool_id e.agent_id _ h e.removed.0
          (remove_agent_lem services devops pools agents org e.pool pod.name h) e.found e.removed.1
          e.removed.2 refl

    evict_idle_pod-evicts :
        (pod : Pod) (e : IsEvictable pod) (h : History)
        → Changes (eviction pod e) (evict_idle_pod services devops pod) h
    unfolding evict_idle_pod changes ◌>>=◌
    evict_idle_pod-evicts pod e h =
        let rest =
          Changes-then {h = got_pod pod.namespace pod.name (answered e.known.0) ∷ h}
            (agent-disabled pod e _)
            (λ h1.
              Changes-then (agent-removed pod e h1)
                (λ h2. Changes-then (job-killed pod e h2) (pod-killed pod e))) in
        record { after = rest.after; runs = simp (pool-read pod e h) rest.runs; made = rest.made }

    -- In an organization whose pools and agents are listed, and where each pod of the list names a
    -- pool with an agent of its name, has a job with a name as its first owner that is a job, and
    -- every call for it is accepted at any time, `EvictIdlePods` succeeds. Its changes are, for one
    -- pod after the other, the PATCH and the DELETE of that agent and the deletion of that job and of
    -- the pod.
    pub evict_idle_pods-evicts :
        (pods : List Pod) (all : All IsEvictable pods) (h : History)
        → Changes (evictions pods all) (evict_idle_pods services devops pods) h
    unfolding evict_idle_pods for_each pure
    evict_idle_pods-evicts [] all h = record { after = h; runs = refl; made = refl }
    evict_idle_pods-evicts (pod ∷ pods) (e, all) h =
        Changes-then (evict_idle_pod-evicts pod e h) (evict_idle_pods-evicts pods all)
