-- ===== src/Safety/Tests.antt =====
-- Two runs over concrete clusters, and the guarantees at them: one run in which the watched pool is
-- outdated, and one in which it is up to date again and the temporary pool goes.
use node_updater.Base.{String, List, [], ◌∷◌, ◌++◌}
use node_updater.Safety.Guarantees.{
  DeletesDrained, run-DeletesDrained, WritesForReason, EvictsIdle, ForgetsLast, CreatesMissing,
  UpgradesDrained, MarksKnown, run-CreatesMissing, run-EvictsIdle, run-MarksKnown, run-ForgetsLast,
  run-UpgradesDrained, run-WritesForReason,
}
use node_updater.World.{
  History, updated_node, deleted_pod, deleted_job, created_config_map, deleted_config_map, put_pool,
  deleted_pool, upgraded_pool,
}
use node_updater.World.Trace.{Obeys}
use node_updater.Safety.Loop.{run}
use node_updater.Examples.{cluster, reconciler, stored_map, missing_map}

-- What kinds of calls a run made that change something, oldest first.
abbrev kinds : History → List String
kinds [] = []
kinds (updated_node node r ∷ h) = kinds h ++ "node" ∷ []
kinds (deleted_pod ns name r ∷ h) = kinds h ++ "pod" ∷ []
kinds (deleted_job ns name r ∷ h) = kinds h ++ "job" ∷ []
kinds (created_config_map ns m r ∷ h) = kinds h ++ "create" ∷ []
kinds (deleted_config_map ns name r ∷ h) = kinds h ++ "forget" ∷ []
kinds (put_pool name pool r ∷ h) = kinds h ++ "put" ∷ []
kinds (deleted_pool name r ∷ h) = kinds h ++ "delete" ∷ []
kinds (upgraded_pool name r ∷ h) = kinds h ++ "upgrade" ∷ []
kinds (_ ∷ h) = kinds h

outdated_kinds : List String
outdated_kinds = kinds (run (cluster "v2" missing_map) reconciler "ops" "devops")

restored_kinds : List String
restored_kinds = kinds (run (cluster "v1" stored_map) reconciler "ops" "devops")

run-DeletesDrained_example :
    Obeys (DeletesDrained "ops" "devops") (run (cluster "v1" stored_map) reconciler "ops" "devops")
run-DeletesDrained_example = run-DeletesDrained (cluster "v1" stored_map) reconciler "ops" "devops"

run-UpgradesDrained_example :
    Obeys
      (UpgradesDrained "ops" "devops")
      (run (cluster "v2" missing_map) reconciler "ops" "devops")
run-UpgradesDrained_example =
    run-UpgradesDrained (cluster "v2" missing_map) reconciler "ops" "devops"

run-EvictsIdle_example :
    Obeys
      (EvictsIdle "ops" "devops" (cluster "v2" missing_map) reconciler.devops)
      (run (cluster "v2" missing_map) reconciler "ops" "devops")
run-EvictsIdle_example = run-EvictsIdle (cluster "v2" missing_map) reconciler "ops" "devops"

run-WritesForReason_example :
    Obeys (WritesForReason "ops" "devops") (run (cluster "v1" stored_map) reconciler "ops" "devops")
run-WritesForReason_example =
    run-WritesForReason (cluster "v1" stored_map) reconciler "ops" "devops"

run-MarksKnown_example :
    Obeys (MarksKnown "ops" "devops") (run (cluster "v1" stored_map) reconciler "ops" "devops")
run-MarksKnown_example = run-MarksKnown (cluster "v1" stored_map) reconciler "ops" "devops"

run-ForgetsLast_example :
    Obeys (ForgetsLast "ops" "devops") (run (cluster "v1" stored_map) reconciler "ops" "devops")
run-ForgetsLast_example = run-ForgetsLast (cluster "v1" stored_map) reconciler "ops" "devops"

run-CreatesMissing_example :
    Obeys (CreatesMissing "ops" "devops") (run (cluster "v2" missing_map) reconciler "ops" "devops")
run-CreatesMissing_example = run-CreatesMissing (cluster "v2" missing_map) reconciler "ops" "devops"
