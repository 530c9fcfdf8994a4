-- ===== src/Safety/Reads.antt =====
-- The policy allows every reading, and the evidence that it asks for only grows.
use node_updater.Cluster.{SafeEvict, Pod}
use node_updater.World.{
  Event, History, updated_node, deleted_pod, deleted_job, created_config_map, deleted_config_map,
  put_pool, deleted_pool, upgraded_pool, sent, Outcome, Services,
}
use node_updater.World.Trace.{Policy, Reading, Run, Grows, Grows-Any, Run-policy}
use node_updater.Safety.Policy.{Permitted, MayEvict, Stranded, IsEmptied}
use node_updater.Base.{String, inl, inr}
use node_updater.Azuredevops.{AzureDevopsController}
use node_updater.Azuredevops.Evidence.{Sending, Grows-Disabled, Grows-Removed}
use node_updater.Pods.Idle.{Grows-IsIdle}
use node_updater.Nodepool.Due.{Grows-IsDuePool}

module _ {K : Policy} {h h' : History} (g : Grows K h h') where
  pub Grows-IsEmptied :
      (se : SafeEvict) (pool : String) → IsEmptied se pool h → IsEmptied se pool h'
  Grows-IsEmptied se pool (inl due) = inl (Grows-IsDuePool se.spec.nodepools pool g due)
  Grows-IsEmptied se pool (inr (p, got, named)) = inr (p, Grows-Any g got, named)

  pub Grows-Stranded : (se : SafeEvict) (pod : Pod) → Stranded se pod h → Stranded se pod h'
  Grows-Stranded se pod (pool, node, stands, on, emptied) =
      (pool, node, Grows-Any g stands, on, Grows-IsEmptied se pool emptied)

  pub Grows-MayEvict :
      (services : Services) (c : AzureDevopsController) (se : SafeEvict) (pod : Pod)
      → MayEvict services c se pod h
      → MayEvict services c se pod h'
  Grows-MayEvict services c se pod (idle, stranded, disabled, removed) = (
    Grows-IsIdle g idle,
    Grows-Stranded se pod stranded,
    Grows-Disabled services c pod.name g disabled,
    Grows-Removed services c pod.name g removed,
  )

module _ (services : Services) (c : AzureDevopsController) (namespace : String)
    (se : SafeEvict) where
  pub Reading-Permitted :
      (e : Event) (h : History) → Reading e h → Permitted services c namespace se e h
  Reading-Permitted (updated_node node r) h k = elim k [ ]
  Reading-Permitted (deleted_pod ns name r) h k = elim k [ ]
  Reading-Permitted (deleted_job ns name r) h k = elim k [ ]
  Reading-Permitted (created_config_map ns m r) h k = elim k [ ]
  Reading-Permitted (deleted_config_map ns name r) h k = elim k [ ]
  Reading-Permitted (put_pool name pool r) h k = elim k [ ]
  Reading-Permitted (deleted_pool name r) h k = elim k [ ]
  Reading-Permitted (upgraded_pool name r) h k = elim k [ ]
  Reading-Permitted (sent q r) h k = elim k [ ]
  Reading-Permitted _ h k = tt

  pub Sending-Permitted :
      (e : Event) (h : History) → Sending e h → Permitted services c namespace se e h
  Sending-Permitted (sent q r) h k = tt
  Sending-Permitted _ h k = elim k [ ]

  pub reads :
      {E A : Type 0} {Q : A → History → Type 0} {h : History} {o : Outcome E A × History}
      → Run Reading Q h o
      → Run (Permitted services c namespace se) Q h o
  reads = Run-policy Reading-Permitted

  pub sends :
      {E A : Type 0} {Q : A → History → Type 0} {h : History} {o : Outcome E A × History}
      → Run Sending Q h o
      → Run (Permitted services c namespace se) Q h o
  sends = Run-policy Sending-Permitted
