-- ===== src/Lib.antt =====
-- node_updater
--
-- The operator of this repository replaces the node image of the node pools of an AKS cluster whose
-- nodes run agents of Azure DevOps. One run of `Reconcile` reads the `SafeEvict` resource, compares
-- node images, creates a temporary pool, saves the scaling of the watched pools in a config map,
-- switches autoscaling off, cordons and drains the old pools, upgrades them, restores their scaling
-- and at last empties and deletes the temporary pool and the config map.
--
-- The parts, with the code that each file models (paths from the repository's root):
--   Base             helpers: bytes, lists, maps, int32 and decimal numerals as Go's strconv has
--                    them; Base/Json reads a map of ints as encoding/json does
--   Cluster          api/v1/safeevict_types.go, and the fields that the code reads or writes of the
--                    Kubernetes and Azure types; the client errors with `apierrors.IsNotFound` and
--                    `respErr.StatusCode`
--   World            how the code calls services; World/Trace has the logic of traces, World/Early
--                    that of early returns, World/Gives that of actions that return a given value,
--                    World/Finds that of those that find one or fail, World/Yields that of those
--                    that return a value of which something is known, World/Total that of actions
--                    that do not panic, with Safe in the parts below
--   Configmap        internal/configmap/configmap_controller.go, with Configmap/Results;
--                    Configmap/Store has the abstract store that it refines
--   Job              internal/job/job_controller.go, with Job/Results
--   Azure            internal/azure/azure_controller.go: `get_cluster_info` is `GetClusterInfo`,
--                    Azure/Info has its results
--   Azuredevops      internal/azuredevops/azuredevops_controller.go; Azuredevops/Organization and
--                    Azuredevops/Results are on an organization whose pools and agents are listed
--   Pods             internal/pod/pod_controller.go; Pods/Selection has the choice of the idle
--                    pods by the description of Pods/Chosen, Pods/Evicted their eviction, with Pods/Changes
--   Nodepool         internal/nodepool/nodepool_controller.go: the queries; Nodepool/Change the
--                    creation, upgrade and removal of a pool and cordoning; Nodepool/Scaling
--                    DisableAutoScaling and SetDefaultScaling. Queries, Versions, Busy, Outdated,
--                    Unready, Copied, Settings and Conflict have the results on these, Answers those for services
--                    that always answer the same, Total says that none panics
--   Controller       internal/controller/safeevict_controller.go: `reconcile` of Controller/Loop is
--                    `Reconcile`, Controller/Stages has its stages, Controller/Defs its helpers and
--                    the fields of internal/appconfig/appconfig.go that it reads,
--                    Controller/Returns what it returns, Controller/Total that it returns,
--                    Controller/Progress that it begins upgrades, Controller/Quiet what it does
--                    when nothing is to be done, Controller/Creates how it creates the
--                    temporary pool, with Controller/Merged, Controller/Texts what it saves,
--                    Controller/Restore that this is restored
--   Main             cmd/main.go: the settings of the flags, with Main/Settings; `main` of
--                    Main/Boot is `main`, as the calls that it makes. Main/Steps has the list of
--                    calls that it is to make, Main/Refined that it follows that list
--   DeepCopy         api/v1/zz_generated.deepcopy.go; DeepCopy/Blocks is the memory that it runs in,
--                    Made the logic of actions that allocate, and Separate has the result
--   Examples         concrete data, at which the results are applied
--   Safety           what every run guarantees: a policy for each kind of changing call
--                    (Safety/Policy), the proof stage by stage, and the results
--                    (Safety/Guarantees); Safety/Saved on sequences of runs; Azuredevops/Evidence,
--                    Nodepool/Evidence, Nodepool/Due, Nodepool/Standing and Pods/Idle say what those parts leave in the history of
--                    calls
--
-- Third-party code is the record `Services`: the Kubernetes clients, the agent pool client of
-- internal/nodepool/agentpoolclient_interface.go, the HTTP client, the decoder of listings, the
-- texts of JSON errors and the order in which Go visits a map. A service is a function of all the
-- calls so far with their answers, so it may answer anything at any time, and errors and changes
-- from outside between two calls are included. An operation is a function from that history to an
-- outcome (a value, an error or a panic) and the longer history: `if err != nil { return }` is
-- the bind, a nil dereference is `deref`, an error that the code inspects is `attempt`, and a
-- `range` over a map asks for an order. A run starts from the empty history; what earlier runs
-- did shows only in the answers, which are arbitrary, and in the store of config maps that
-- Safety/Saved passes from run to run.
--
-- Strings are sequences of bytes, as in Go. The counts and the int32 of a pool are integers, and the
-- conversion of `int` to `int32` wraps around. Loops are over finite lists, so no fuel is needed.
-- Of a pool's properties, the fields that the code names are fields of the model, and all others
-- that are set stand in `others`. A pool that is fetched is a value: the code changes the properties of a pool through a pointer,
-- but only between its fetch and its use by the same function, or sends the changed pool.
--
-- The program's start has parameters of its own: `MetadataService` is the HTTP client and the decoder
-- that `GetClusterInfo` uses, and `Platform` the environment, that service and whether each call of
-- `main` to a library succeeds, in view of the calls before it. What the calls return is passed on
-- by `main` unread, so only the calls and the exits are kept.
--
-- The generated copies run in a memory of blocks at addresses, so that it can be said which of them
-- two values share. The struct values lie in no block: what `DeepCopyInto` writes to `*out` is its
-- result. The copying of `ObjectMeta` and `ListMeta` is the parameter `Copier`, and `IsDeep` says
-- that it copies into new blocks and that what it shows depends on its blocks alone.
--
-- Not modelled: logging, the context, waiting for the deletion of a pool or for the requeue time,
-- the parsing of the command line and the flags of the logging library, which may replace the level
-- that `main` gives it, the registration of the schemes in api/v1/groupversion_info.go and in `init`,
-- and the test utilities.
pub mod Base
pub mod Cluster
pub mod World
pub mod Configmap
pub mod Job
pub mod Azuredevops
pub mod Pods
pub mod Nodepool
pub mod Controller
pub mod Safety
pub mod Azure
pub mod Main
pub mod DeepCopy
pub mod Examples
