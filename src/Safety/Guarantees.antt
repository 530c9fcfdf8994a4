-- ===== src/Safety/Guarantees.antt =====
-- What every run of `Reconcile` guarantees, call by call, whatever the services answer. In each
-- policy `name` and `namespace` are those of the request, and the resource is the one that was read.
use node_updater.Base.{String}
use node_updater.Safety.Policy.{
  Permitted, PutReason, MayKillPod, MayCreate, MayForget, MayDelete, MayUpgrade, Fetched, MayMark,
  MayKillJob,
}
use node_updater.Safety.Loop.{run, Obeys-run}
use node_updater.World.{
  Services, upgraded_pool, deleted_config_map, updated_node, Event, deleted_pool, put_pool,
  deleted_pod, History, created_config_map, deleted_job,
}
use node_updater.World.Trace.{Policy, Obeys}
use node_updater.Azuredevops.{AzureDevopsController}
use node_updater.Cluster.{SafeEvict}
use node_updater.Controller.Defs.{SafeEvictReconciler}

module _ (namespace name : String) where
  -- The policy says something of the resource that the run has read.
  abbrev Read : (SafeEvict → History → Type 0) → History → Type 0
  Read P h = (se : SafeEvict) × Fetched namespace name se h × P se h

  abbrev pub DeletesDrained : Policy
  DeletesDrained (deleted_pool pool r) h = Read (λ se. MayDelete namespace se pool) h
  DeletesDrained _ h = Unit

  abbrev pub UpgradesDrained : Policy
  UpgradesDrained (upgraded_pool pool r) h = Read (λ se. MayUpgrade namespace se pool) h
  UpgradesDrained _ h = Unit

  abbrev pub WritesForReason : Policy
  WritesForReason (put_pool key pool r) h = Read (λ se. PutReason namespace se key pool) h
  WritesForReason _ h = Unit

  abbrev pub EvictsIdle : Services → AzureDevopsController → Policy
  EvictsIdle services c (deleted_pod ns pod r) h = Read (λ se. MayKillPod services c se ns pod) h
  EvictsIdle services c (deleted_job ns job r) h = Read (λ se. MayKillJob services c se ns job) h
  EvictsIdle services c _ h = Unit

  abbrev pub MarksKnown : Policy
  MarksKnown (updated_node node r) h = Read (λ se. MayMark namespace se node) h
  MarksKnown _ h = Unit

  abbrev pub ForgetsLast : Policy
  ForgetsLast (deleted_config_map ns m r) h = Read (λ se. MayForget namespace se ns m) h
  ForgetsLast _ h = Unit

  abbrev pub CreatesMissing : Policy
  CreatesMissing (created_config_map ns m r) h = Read (λ se. MayCreate namespace se ns m) h
  CreatesMissing _ h = Unit

  module _ (services : Services) (c : AzureDevopsController) (se : SafeEvict) where
    of_delete :
        (e : Event) (h : History)
        → Fetched namespace name se h
        → Permitted services c namespace se e h
        → DeletesDrained e h
    of_delete (deleted_pool pool r) h f k = (se, f, k)
    of_delete _ h f k = tt

    of_upgrade :
        (e : Event) (h : History)
        → Fetched namespace name se h
        → Permitted services c namespace se e h
        → UpgradesDrained e h
    of_upgrade (upgraded_pool pool r) h f k = (se, f, k)
    of_upgrade _ h f k = tt

    of_put :
        (e : Event) (h : History)
        → Fetched namespace name se h
        → Permitted services c namespace se e h
        → WritesForReason e h
    of_put (put_pool key pool r) h f k = (se, f, k)
    of_put _ h f k = tt

    of_evict :
        (e : Event) (h : History)
        → Fetched namespace name se h
        → Permitted services c namespace se e h
        → EvictsIdle services c e h
    of_evict (deleted_pod ns pod r) h f k = (se, f, k)
    of_evict (deleted_job ns job r) h f k = (se, f, k)
    of_evict _ h f k = tt

    of_mark :
        (e : Event) (h : History)
        → Fetched namespace name se h
        → Permitted services c namespace se e h
        → MarksKnown e h
    of_mark (updated_node node r) h f k = (se, f, k)
    of_mark _ h f k = tt

    of_forget :
        (e : Event) (h : History)
        → Fetched namespace name se h
        → Permitted services c namespace se e h
        → ForgetsLast e h
    of_forget (deleted_config_map ns m r) h f k = (se, f, k)
    of_forget _ h f k = tt

    of_create :
        (e : Event) (h : History)
        → Fetched namespace name se h
        → Permitted services c namespace se e h
        → CreatesMissing e h
    of_create (created_config_map ns m r) h f k = (se, f, k)
    of_create _ h f k = tt

module _ (services : Services) (c : SafeEvictReconciler) (namespace name : String) where
  -- In every run, a node pool is deleted only if it is the temporary pool, it was read in this run,
  -- and, under the name that Azure gave for it, its nodes were listed in this run and a listing of
  -- the pods in each watched namespace showed none running on them.
  pub run-DeletesDrained : Obeys (DeletesDrained namespace name) (run services c namespace name)
  run-DeletesDrained =
      Obeys-run services c namespace name _ (λ r h. tt) (of_delete namespace name services c.devops)

  -- In every run, an upgrade of the node image is begun only for a pool that was read under one of
  -- the watched names, after the nodes of that name were listed in this run and a listing of the
  -- pods in each watched namespace showed none running on them.
  pub run-UpgradesDrained : Obeys (UpgradesDrained namespace name) (run services c namespace name)
  run-UpgradesDrained =
      Obeys-run services c namespace name _ (λ r h. tt)
        (of_upgrade namespace name services c.devops)

  -- In every run, a pod is deleted only if it was listed in a watched namespace, ran with another
  -- label than an entry of the label selector, had logs that end in the text of one of the last log
  -- lines, stood on a node that was listed with the label of a pool that is to be emptied, and after a
  -- PATCH and a DELETE of an agent of Azure DevOps and the deletion of the pod's job were answered
  -- with success; each agent stood on a listing of its pool in Azure DevOps under the name of the
  -- pod. A pool is to be emptied if it is watched and was seen with an old image or in another state
  -- than the final one, or if it is the temporary pool, by the name that Azure gave for it. A job is
  -- deleted only for such a pod, after the PATCH and the DELETE.
  pub run-EvictsIdle :
      Obeys (EvictsIdle namespace name services c.devops) (run services c namespace name)
  run-EvictsIdle =
      Obeys-run services c namespace name _ (λ r h. tt) (of_evict namespace name services c.devops)

  -- In every run, a node pool is written for one of three reasons only: the temporary pool, which
  -- Azure said is missing, is created with the ten settings that are copied from the base pool as it
  -- was read, and no other field set; a pool that was read and is no system pool gets autoscaling off
  -- and no other change, once the config map exists; or a pool that was read under a key of the config
  -- map that was read gets the scaling that is saved there and no other change: the range with
  -- autoscaling on, else the count with autoscaling off, and where neither is saved it is written as
  -- it was read.
  pub run-WritesForReason : Obeys (WritesForReason namespace name) (run services c namespace name)
  run-WritesForReason =
      Obeys-run services c namespace name _ (λ r h. tt) (of_put namespace name services c.devops)

  -- In every run, a node is updated only as it was listed for some pool and with no other change
  -- than its mark, and it is made schedulable only if the pool is a key of the config map that was
  -- read.
  pub run-MarksKnown : Obeys (MarksKnown namespace name) (run services c namespace name)
  run-MarksKnown =
      Obeys-run services c namespace name _ (λ r h. tt) (of_mark namespace name services c.devops)

  -- In every run, a config map is deleted only if it is that of the resource, in its namespace, and
  -- after Azure said that the temporary pool is missing or accepted its deletion.
  pub run-ForgetsLast : Obeys (ForgetsLast namespace name) (run services c namespace name)
  run-ForgetsLast =
      Obeys-run services c namespace name _ (λ r h. tt) (of_forget namespace name services c.devops)

  -- In every run, a config map is created only if it is that of the resource, in its namespace, and
  -- after the API server said in this run that it is not there.
  pub run-CreatesMissing : Obeys (CreatesMissing namespace name) (run services c namespace name)
  run-CreatesMissing =
      Obeys-run services c namespace name _ (λ r h. tt) (of_create namespace name services c.devops)
