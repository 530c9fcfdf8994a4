-- ===== src/Safety/Policy.antt =====
-- The policy: for each kind of call that changes something, what has to have been seen before.
-- `namespace` and `se` are the namespace and the resource that `Reconcile` works on.
use node_updater.Base.{String, ◌≡◌, ◌⊎◌, ◌≢◌, none, Bool, true, false, some, List, Any, In}
use node_updater.Cluster.{
  ClientError, SafeEvict, Node, Pod, ConfigMap, AgentPool, PoolProperties, get_configmap_name,
  get_temporary_nodepool_name, system,
}
use node_updater.World.{
  listed_nodes, answered, failed, got_safe_evict, updated_node, deleted_pod, deleted_job,
  got_config_map, created_config_map, deleted_config_map, put_pool, deleted_pool, upgraded_pool,
  History, Services,
}
use node_updater.World.Trace.{Policy}
use node_updater.Job.{job_name}
use node_updater.Pods.Idle.{IsIdle}
use node_updater.Nodepool.Due.{IsDuePool}
use node_updater.Nodepool.Copied.{IsCopy}
use node_updater.Base.Dict.{Dict, lookup}
use node_updater.Base.Int.{ℤ, to_int32}
use node_updater.Base.Json.{unmarshal_counts}
use node_updater.Nodepool.Evidence.{GotPool, NodesListed, Drained, Missing}
use node_updater.Azuredevops.{AzureDevopsController}
use node_updater.Azuredevops.Evidence.{Disabled, Removed}

-- The resource was read.
abbrev pub Fetched : String → String → SafeEvict → History → Type 0
Fetched namespace name se = Any (λ e. e ≡ got_safe_evict namespace name (answered se))

-- The number that is saved at the key, as an int32.
abbrev pub IsSaved : String → Dict ℤ → ℤ → Type 0
IsSaved key counts n = (z : ℤ) × (lookup key counts ≡ some z) × (n ≡ to_int32 z)

-- The pool that is written has the saved scaling, and is else as it was read.
pub data ScaledBy (counts : Dict ℤ) (old pool : AgentPool) : Type 0 where
  to_range :
      (p : PoolProperties) (lo hi : ℤ)
      → old.properties ≡ some p
      → IsSaved "MinCount" counts lo
      → IsSaved "MaxCount" counts hi
      → pool ≡ record old {
        properties = some (record p {
          min_count = some lo;
          max_count = some hi;
          enable_auto_scaling = some true;
        });
      }
      → ScaledBy counts old pool
  to_size :
      (p : PoolProperties) (n : ℤ)
      → old.properties ≡ some p
      → (lookup "MinCount" counts ≡ none) ⊎ (lookup "MaxCount" counts ≡ none)
      → IsSaved "Count" counts n
      → pool ≡ record old {
        properties = some (record p { count = some n; enable_auto_scaling = some false });
      }
      → ScaledBy counts old pool
  -- neither is saved
  as_it_was :
      (lookup "MinCount" counts ≡ none) ⊎ (lookup "MaxCount" counts ≡ none)
      → lookup "Count" counts ≡ none
      → pool ≡ old
      → ScaledBy counts old pool

-- The node stands on a list of the pool's nodes.
abbrev pub NodeOf : String → Node → History → Type 0
NodeOf pool node h = (nodes : List Node) × NodesListed pool nodes h × In node nodes

-- The pool is to be emptied: it is watched and something is to be done of it, or it is the temporary
-- pool, by the name that Azure gave for it.
abbrev pub IsEmptied : SafeEvict → String → History → Type 0
IsEmptied se pool h =
    IsDuePool se.spec.nodepools pool h
    ⊎ ((p : AgentPool) × GotPool (get_temporary_nodepool_name se) p h × (p.name ≡ some pool))

-- The node was listed with the label of the pool.
abbrev pub StandsIn : String → Node → History → Type 0
StandsIn pool node = Any (λ e.
    (all : List Node) × (e ≡ listed_nodes (answered all))
    × In node all
    × (lookup "agentpool" node.labels ≡ some pool))

-- The pod runs on a node of a pool that is to be emptied.
abbrev pub Stranded : SafeEvict → Pod → History → Type 0
Stranded se pod h =
    (pool : String) × (node : Node) × StandsIn pool node h
    × (pod.node_name ≡ node.name)
    × IsEmptied se pool h

-- A pod that may be taken away: the agent of its name was disabled and removed, so that the pod gets
-- no new work.
abbrev pub MayEvict : Services → AzureDevopsController → SafeEvict → Pod → History → Type 0
MayEvict services c se pod h =
    IsIdle se pod h
    × Stranded se pod h
    × Disabled services c pod.name h
    × Removed services c pod.name h

module _ (namespace : String) (se : SafeEvict) where
  -- The entry of the config map, as it was read.
  abbrev pub ReadEntry : String → String → History → Type 0
  ReadEntry key text = Any (λ e.
      (m : ConfigMap) × (e ≡ got_config_map namespace (get_configmap_name se) (answered m))
      × In (key, text) m.entries)

  -- The config map exists: it was read, or has been created in this run.
  abbrev pub Saved : History → Type 0
  Saved = Any (λ e.
      ((m : ConfigMap) × (e ≡ got_config_map namespace (get_configmap_name se) (answered m)))
      ⊎ ((m : ConfigMap) × (e ≡ created_config_map namespace m (answered tt))
          × (m.name ≡ get_configmap_name se)))

  -- Why a pool is written.
  pub data PutReason (name : String) (pool : AgentPool) (h : History) : Type 0 where
    -- the temporary pool, which was missing, is created as a copy of the base pool
    creates :
        (source : AgentPool) (p : PoolProperties)
        → name ≡ get_temporary_nodepool_name se
        → Missing name h
        → GotPool se.spec.base_for_backup_pool source h
        → source.properties ≡ some p
        → IsCopy p pool
        → PutReason name pool h
    -- autoscaling is switched off in a user pool, and nothing else is changed
    disables :
        (key : String) (old : AgentPool) (p : PoolProperties)
        → GotPool key old h
        → old.name ≡ some name
        → old.properties ≡ some p
        → p.mode ≢ some system
        → pool ≡ record old { properties = some (record p { enable_auto_scaling = some false }) }
        → Saved h
        → PutReason name pool h
    -- the scaling of a pool that stands in the config map is restored
    restores :
        (key text : String) (old : AgentPool) (counts : Dict ℤ)
        → GotPool key old h
        → old.name ≡ some name
        → ReadEntry key text h
        → unmarshal_counts text ≡ some counts
        → ScaledBy counts old pool
        → PutReason name pool h

  abbrev pub MayDelete : String → History → Type 0
  MayDelete name h =
      (pool : AgentPool) × (own : String) × (name ≡ get_temporary_nodepool_name se)
      × GotPool name pool h
      × (pool.name ≡ some own)
      × Drained own se.spec.namespaces h

  abbrev pub MayUpgrade : String → History → Type 0
  MayUpgrade name h =
      (key : String) × (pool : AgentPool) × In key se.spec.nodepools
      × GotPool key pool h
      × (pool.name ≡ some name)
      × Drained key se.spec.namespaces h

  -- A node is cordoned, or it is uncordoned in a pool whose scaling stands in the config map.
  abbrev pub MayMark : Node → History → Type 0
  MayMark node h =
      (pool : String) × (old : Node) × (cordoned : Bool) × NodeOf pool old h
      × (node ≡ record old { unschedulable = cordoned })
      × (cordoned ≡ false → (text : String) × ReadEntry pool text h)

  abbrev pub MayForget : String → String → History → Type 0
  MayForget ns name h =
      (ns ≡ namespace)
      × (name ≡ get_configmap_name se)
      × (Missing (get_temporary_nodepool_name se) h
          ⊎ Any (λ e. e ≡ deleted_pool (get_temporary_nodepool_name se) (answered tt)) h)

  abbrev pub MayCreate : String → ConfigMap → History → Type 0
  MayCreate ns m h =
      (ns ≡ namespace)
      × (m.name ≡ get_configmap_name se)
      × Any
          (λ e.
            (x : ClientError) × (e ≡ got_config_map namespace (get_configmap_name se) (failed x))
            × (x.not_found ≡ true))
          h

module _ (services : Services) (c : AzureDevopsController) (se : SafeEvict) where
  abbrev pub MayKillJob : String → String → History → Type 0
  MayKillJob ns name h =
      (pod : Pod) × (ns ≡ pod.namespace)
      × (name ≡ job_name pod.owner_references)
      × MayEvict services c se pod h

  abbrev pub MayKillPod : String → String → History → Type 0
  MayKillPod ns name h =
      (pod : Pod) × (ns ≡ pod.namespace)
      × (name ≡ pod.name)
      × MayEvict services c se pod h
      × Any (λ e. e ≡ deleted_job ns (job_name pod.owner_references) (answered tt)) h

module _ (services : Services) (c : AzureDevopsController) (namespace : String)
    (se : SafeEvict) where
  abbrev pub Permitted : Policy
  Permitted (updated_node node r) h = MayMark namespace se node h
  Permitted (deleted_pod ns name r) h = MayKillPod services c se ns name h
  Permitted (deleted_job ns name r) h = MayKillJob services c se ns name h
  Permitted (created_config_map ns m r) h = MayCreate namespace se ns m h
  Permitted (deleted_config_map ns name r) h = MayForget namespace se ns name h
  Permitted (put_pool name pool r) h = PutReason namespace se name pool h
  Permitted (deleted_pool name r) h = MayDelete namespace se name h
  Permitted (upgraded_pool name r) h = MayUpgrade namespace se name h
  Permitted _ h = Unit
