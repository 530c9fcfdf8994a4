-- ===== src/Main/Boot.antt =====
-- cmd/main.go: `main`, as the calls that it makes and how it ends.
use node_updater.Base.{String, ◌==◌, Bool, Option, none, some, List, ◌∷◌, if◌then◌else◌}
use node_updater.Azure.{MetadataService, ClusterInfo, get_cluster_info}
use node_updater.Main.{
  ZapLevel, Flags, CertFiles, manager_options, new_config, ManagerOptions, zap_level, default_flags,
  watcher, metrics_files, webhook_files,
}
use node_updater.World.{Outcome, ok, err, panic}
use node_updater.Azuredevops.{AzureDevopsController}
use node_updater.Cluster.{ClientError}
use node_updater.Controller.Defs.{Config}

-- What the reconciler is built with.
pub record Wiring : Type 0 where
  pub devops : AzureDevopsController
  pub cluster : ClusterInfo
  pub config : Config

-- A call that may fail, or the start of the logger.
pub data BootCall : Type 0 where
  new_logger : ZapLevel → BootCall
  watch_certificate : CertFiles → BootCall
  get_config : BootCall
  new_manager : ManagerOptions → BootCall
  build_kube_config : String → BootCall
  default_credential : BootCall
  in_cluster_config : BootCall
  workload_credential : String → String → String → BootCall
  new_kube_client : BootCall
  new_pools_client : String → BootCall
  setup_reconciler : Wiring → BootCall
  add_watcher : CertFiles → BootCall
  add_healthz_check add_readyz_check start_manager : BootCall

-- The machine and the libraries: whether a call succeeds in view of the calls before it, newest
-- first, the environment, the default path of the kubeconfig, and the metadata service.
pub record Platform : Type 0 where
  pub accepts : List BootCall → BootCall → Bool
  pub getenv : String → String
  pub recommended_home_file : String
  pub metadata : MetadataService

pub data Booted (A : Type 0) : Type 0 where
  going : A → Booted A
  -- `os.Exit(1)`
  exited : Booted A
  panicked : Booted A

abbrev pub Boot : Type 0 → Type 0
Boot A = List BootCall → Booted A × List BootCall

abbrev pub go_on : {A B : Type 0} → Booted A → (A → Boot B) → Boot B
go_on (going a) f t = f a t
go_on exited f t = (exited, t)
go_on panicked f t = (panicked, t)

infixl 5 ◌>>=◌ ◌>>◌
unfoldable pub ◌>>=◌ : {A B : Type 0} → Boot A → (A → Boot B) → Boot B
◌>>=◌ m f t = let (r, t') = m t in go_on r f t'

abbrev pub ◌>>◌ : {A B : Type 0} → Boot A → Boot B → Boot B
m >> n = m >>= λ _. n

unfoldable pub return : {A : Type 0} → A → Boot A
return a t = (going a, t)

unfoldable pub exit : {A : Type 0} → Boot A
exit t = (exited, t)

abbrev pub outcome_of : Outcome ClientError ClusterInfo → Booted ClusterInfo
outcome_of (ok info) = going info
outcome_of (err e) = exited
outcome_of panic = panicked

module _ (p : Platform) where
  -- `if err != nil { …; os.Exit(1) }`
  unfoldable pub must : BootCall → Boot (Unit {0})
  must c t = (if p.accepts t c then going tt else exited, c ∷ t)

  unfoldable pub must_watch : Option CertFiles → Boot (Unit {0})
  must_watch none = return tt
  must_watch (some files) = must (watch_certificate files)

  unfoldable pub must_add : Option CertFiles → Boot (Unit {0})
  must_add none = return tt
  must_add (some files) = must (add_watcher files)

  -- `GetClusterInfo` of the metadata service.
  unfoldable pub identify_cluster : Boot ClusterInfo
  identify_cluster t = (outcome_of (get_cluster_info p.metadata), t)

  unfoldable pub local_setup : Boot ClusterInfo
  local_setup = do
    let path = p.getenv "KUBECONFIG"
    must (build_kube_config (if path == "" then p.recommended_home_file else path))
    must default_credential
    return (record {
      subscription_id = p.getenv "AZURE_SUBSCRIPTION_ID";
      resource_group = p.getenv "AZURE_CLUSTER_RESOURCE_GROUP";
      cluster_name = p.getenv "AZURE_CLUSTER_NAME";
    })

  unfoldable pub cluster_setup : Boot ClusterInfo
  cluster_setup = do
    info ← identify_cluster
    must in_cluster_config
    must (
        workload_credential (p.getenv "AZURE_FEDERATED_TOKEN_FILE") (p.getenv "AZURE_CLIENT_ID")
          (p.getenv "AZURE_TENANT_ID"))
    return info

  unfoldable pub wiring : Flags → ClusterInfo → Wiring
  wiring flags info = record {
    devops = record {
      organization_name = p.getenv "AZURE_DEVOPS_ORG";
      access_token = p.getenv "AZURE_DEVOPS_PAT";
    };
    cluster = info;
    config = new_config flags;
  }

  -- From the manager's creation on.
  unfoldable pub run_manager : Flags → Boot (Unit {0})
  run_manager flags = do
    must get_config
    must (new_manager (manager_options flags))
    info ← if flags.run_in_vs_code then local_setup else cluster_setup
    must new_kube_client
    must (new_pools_client info.subscription_id)
    must (setup_reconciler (wiring flags info))
    must_add (watcher (metrics_files flags))
    must_add (watcher (webhook_files flags))
    must add_healthz_check
    must add_readyz_check
    must start_manager

  -- The `switch` on the log level stands in front of `flag.Parse`.
  unfoldable pub main : Flags → Boot (Unit {0})
  main flags = do
    let level = zap_level default_flags.log_level
    λ t. (going tt, new_logger level ∷ t)
    must_watch (watcher (webhook_files flags))
    must_watch (watcher (metrics_files flags))
    run_manager flags
