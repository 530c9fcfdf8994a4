-- ===== src/Job/Results.antt =====
-- internal/job/job_controller.go: what `KillJobByPod` calls and returns.
use node_updater.Base.{
  ◌≡◌, refl, arith, List, String, Option, none, ◌∷◌, if◌then◌else◌, [], lower_eq, some, ◌<>◌, ◌==◌,
}
use node_updater.World.{
  Services, History, Outcome, call, on_error, relabel, err, throw, outcome, deleted_job,
}
use node_updater.Job.{delete_named, kill_job_by_pod, job_name, kill_owned}
use node_updater.Cluster.{Pod, OwnerReference, Error, wrapped, message}
use node_updater.World.Calls.{delete_job}

-- The first owner that is a job.
abbrev pub first_job : List OwnerReference → Option OwnerReference
first_job [] = none
first_job (owner ∷ owners) =
    let rest = first_job owners in if lower_eq owner.kind "job" then some owner else rest

abbrev pub deleted : Services → String → String → History → Outcome Error (Unit {0}) × History
deleted services ns name h =
    let r = services.delete_job h ns name in
    (relabel (wrapped "failed to delete job: ") (outcome r), deleted_job ns name r ∷ h)

-- What is to happen: nothing without an owner, or without a job that has a name.
abbrev pub killing :
    Services → Pod → Option OwnerReference → History → Outcome Error (Unit {0}) × History
killing services pod none h = (err (message ("no job owner found for pod " <> pod.name)), h)
killing services pod (some job) h =
    if job.name == ""
    then (err (message ("no job owner found for pod " <> pod.name)), h)
    else deleted services pod.namespace job.name h

abbrev pub kill :
    Services → Pod → List OwnerReference → History → Outcome Error (Unit {0}) × History
kill services pod [] h = (err (message (("pod " <> pod.name) <> " has no owner references")), h)
kill services pod (owner ∷ owners) h = killing services pod (first_job (owner ∷ owners)) h

delete_named_lem :
    (services : Services) (pod : Pod) (owners : List OwnerReference) (h : History)
    → delete_named services pod (job_name owners) h ≡ killing services pod (first_job owners) h
unfolding delete_named job_name delete_job call on_error throw
delete_named_lem services pod [] h = ground arith
delete_named_lem services pod (owner ∷ owners) h =
    let ih = delete_named_lem services pod owners h in ground arith

-- `KillJobByPod` deletes the first owner of the pod that is a job, in the pod's namespace, with one
-- call, whose failure it passes on. Without an owner, without a job among the owners, or where the
-- first job has no name, it makes no call and returns an error.
pub kill_job_by_pod_lem :
    (services : Services) (pod : Pod) (h : History)
    → kill_job_by_pod services pod h ≡ kill services pod pod.owner_references h
unfolding kill_job_by_pod kill_owned throw
kill_job_by_pod_lem services pod h = go pod.owner_references
  where
    go :
        (owners : List OwnerReference)
        → kill_owned services pod owners h ≡ kill services pod owners h
    go [] = refl
    go (owner ∷ owners) = delete_named_lem services pod (owner ∷ owners) h
