-- ===== src/Examples/Evicting.antt =====
-- An organization with agents for two idle pods, and the result on their eviction.
use node_updater.Base.{[], ◌∷◌, string_dec, List, refl, lower_eq}
use node_updater.Azuredevops.Organization.{IsOrganization}
use node_updater.World.{Services, answered}
use node_updater.Cluster.{Pod, Item}
use node_updater.Pods.Evicted.{evictions, evict_idle_pods-evicts, IsEvictable}
use node_updater.Examples.{idle_pod, cluster, stored_map, reconciler}
use node_updater.Base.Decimal.{parse_int64}
use node_updater.Pods.{azp_pool, env_value, evict_idle_pods}
use node_updater.Base.Int.{pos}
use node_updater.Pods.Changes.{Changes}

abbrev listed : List Item
listed =
    record { id = "7"; name = "linux" }
    ∷ record { id = "12"; name = "worker" }
    ∷ record { id = "13"; name = "builder" }
    ∷ []

abbrev calm : Services
calm = record (cluster "v1" stored_map) { decode_items = λ body. answered listed }

calm-IsOrganization : IsOrganization calm reconciler.devops listed (λ z. listed)
calm-IsOrganization = record {
  accepts = λ url. refl;
  lists_pools = (record { status_code = 200; body = "" }, λ h. refl, refl, refl);
  lists_agents = λ z. (record { status_code = 200; body = "" }, λ h. refl, refl, refl);
}

abbrev builder : Pod
builder = record idle_pod { name = "builder" }

worker-IsEvictable : IsEvictable calm reconciler.devops listed (λ z. listed) idle_pod
unfolding string_dec parse_int64 azp_pool env_value lower_eq
worker-IsEvictable = record {
  pool = "linux";
  known = (idle_pod, λ h. refl, refl);
  pool_id = pos 7;
  agent_id = pos 12;
  found = refl;
  disabled = (record { status_code = 200; body = "" }, λ h. refl, refl);
  removed = (record { status_code = 200; body = "" }, λ h. refl, refl);
  job = record { kind = "Job"; name = "worker-job" };
  owned = refl;
  named = refl;
  job_deleted = λ h. refl;
  pod_deleted = λ h. refl;
}

builder-IsEvictable : IsEvictable calm reconciler.devops listed (λ z. listed) builder
unfolding string_dec parse_int64 azp_pool env_value lower_eq
builder-IsEvictable = record {
  pool = "linux";
  known = (idle_pod, λ h. refl, refl);
  pool_id = pos 7;
  agent_id = pos 13;
  found = refl;
  disabled = (record { status_code = 200; body = "" }, λ h. refl, refl);
  removed = (record { status_code = 200; body = "" }, λ h. refl, refl);
  job = record { kind = "Job"; name = "worker-job" };
  owned = refl;
  named = refl;
  job_deleted = λ h. refl;
  pod_deleted = λ h. refl;
}

evict_idle_pods-evicts_example :
    Changes
      (evictions calm reconciler.devops listed
        (λ z. listed)
        (idle_pod ∷ builder ∷ [])
        (worker-IsEvictable, (builder-IsEvictable, tt)))
      (evict_idle_pods calm reconciler.devops (idle_pod ∷ builder ∷ []))
      []
evict_idle_pods-evicts_example =
    evict_idle_pods-evicts calm reconciler.devops listed (λ z. listed) calm-IsOrganization
      (idle_pod ∷ builder ∷ []) (worker-IsEvictable, (builder-IsEvictable, tt)) []
