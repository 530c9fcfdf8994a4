-- ===== src/Examples/Creating.antt =====
-- A cluster with a new image and no temporary pool, and the result on its runs.
use node_updater.Base.{
  [], ◌∷◌, none, false, some, Bool, if◌then◌else◌, ◌≡◌, true, ◌==◌, refl, List, string_dec,
  contains, inl,
}
use node_updater.World.{History, Services, Event, put_pool, answered, failed, ok, got_pool}
use node_updater.Cluster.{AgentPool, PoolProperties, get_temporary_nodepool_name, Node, user}
use node_updater.World.Trace.{Grows, Reading, more, here}
use node_updater.Examples.{cluster, pool_of, missing_map, no_pool, reconciler, node_of, resource}
use node_updater.Base.Int.{pos}
use node_updater.Controller.Loop.{reconcile}
use node_updater.Base.Dict.{lookup}
use node_updater.Controller.Creates.{IsDue, reconcile-creates}
use node_updater.Controller.Defs.{done}
use node_updater.Nodepool.Copied.{IsCopy}

abbrev is_put : Event → Bool
is_put (put_pool name pool r) = true
is_put _ = false

abbrev was_put : History → Bool
was_put [] = false
was_put (e ∷ h) = if is_put e then true else was_put h

Reading-is_put : (e : Event) (h : History) → Reading e h → is_put e ≡ false
Reading-is_put (put_pool name pool r) h k = absurd k
Reading-is_put _ h k = refl

was_put-reading : {h : History} → Grows Reading [] h → was_put h ≡ false
was_put-reading here = refl
was_put-reading (more {e} {h'} g k) = rw (Reading-is_put e h' k) (was_put-reading g)

abbrev fresh : AgentPool
fresh = record {
  name = some "tmpagent";
  properties = elim (pool_of "tmpagent").properties [
    | none ↦ none
    | some p ↦ some (record p { provisioning_state = some "Creating" })
  ];
}

-- The image "v2" is the latest, and the temporary pool is there once a pool was written.
abbrev outdated : Services
outdated = record (cluster "v2" missing_map) {
  get_pool = λ h name.
      if name == "tmpagent"
      then (if was_put h then answered fresh else failed no_pool)
      else answered (pool_of name);
}

abbrev nodes : List Node
nodes = node_of "node-1" "agent" ∷ node_of "node-2" "tmpagent" ∷ []

abbrev source : PoolProperties
source = record {
  vm_size = some "large";
  count = some (pos 3);
  min_count = some (pos 1);
  max_count = some (pos 5);
  vnet_subnet_id = none;
  mode = some user;
  enable_auto_scaling = some true;
  orchestrator_version = none;
  node_labels = [];
  node_taints = [];
  os_type = some "Linux";
  provisioning_state = some "Succeeded";
  others = ("maxPods", "110") ∷ [];
}

outdated-IsDue : IsDue outdated "ops" "devops" resource nodes (λ pool. "v2") pool_of source fresh []
unfolding string_dec get_temporary_nodepool_name contains lookup
outdated-IsDue = record {
  fetched = λ h. refl;
  lists = λ h. refl;
  profiles = λ h pool. refl;
  read = (λ h. refl, tt);
  due = ("agent", refl, inl refl);
  base = (pool_of "agent", refl, λ h. refl);
  gone = (no_pool, refl, λ h g. rw (was_put-reading g) refl);
  taken = λ h copy c. refl;
  begun = λ h copy c. refl;
  creating = refl;
}

reconcile-creates_example :
    (h : History) × (copy : AgentPool) × Grows Reading [] h
    × IsCopy source copy
    × (reconcile outdated reconciler "ops" "devops" [] ≡ (
      ok (done (pos 10)),
      got_pool "tmpagent" (answered fresh) ∷ put_pool "tmpagent" copy (answered tt) ∷ h,
    ))
unfolding get_temporary_nodepool_name
reconcile-creates_example =
    reconcile-creates outdated "ops" "devops" resource nodes (λ pool. "v2") pool_of source fresh []
      outdated-IsDue reconciler
