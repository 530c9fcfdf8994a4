-- ===== src/Job.antt =====
-- internal/job/job_controller.go
pub mod Results
use node_updater.Base.{String, ◌<>◌, ◌==◌, List, [], ◌∷◌, if◌then◌else◌, lower_eq}
use node_updater.Cluster.{Error, message, wrapped, OwnerReference, Pod}
use node_updater.World.{Services, Exec, throw, on_error}
use node_updater.World.Calls.{delete_job}

-- The name of the first owner of kind `Job`, or the empty name.
unfoldable pub job_name : List OwnerReference → String
job_name [] = ""
job_name (owner ∷ owners) =
    let rest = job_name owners in if lower_eq owner.kind "job" then owner.name else rest

module _ (services : Services) where
  unfoldable pub delete_named : Pod → String → Exec Error (Unit {0})
  delete_named pod name =
      if name == ""
      then throw (message ("no job owner found for pod " <> pod.name))
      else on_error (wrapped "failed to delete job: ") (delete_job services pod.namespace name)

  unfoldable pub kill_owned : Pod → List OwnerReference → Exec Error (Unit {0})
  kill_owned pod [] = throw (message (("pod " <> pod.name) <> " has no owner references"))
  kill_owned pod (owner ∷ owners) = delete_named pod (job_name (owner ∷ owners))

  unfoldable pub kill_job_by_pod : Pod → Exec Error (Unit {0})
  kill_job_by_pod pod = kill_owned pod pod.owner_references
