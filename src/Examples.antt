-- ===== src/Examples.antt =====
-- Concrete data for the examples: a resource, a node, a pod, pools, a cluster and its services.
mod Agents
mod Kept
mod Quiet
mod Resting
mod Evicting
mod Copies
mod Creating
mod Starts
mod Witnesses
use node_updater.Base.{String, List, [], ◌∷◌, some, false, none, true, if◌then◌else◌, ◌==◌}
use node_updater.Cluster.{Pod, SafeEvict, AgentPool, Node, ConfigMap, user, ClientError}
use node_updater.Controller.Defs.{SafeEvictReconciler}
use node_updater.World.{Reply, Services, answered, failed}
use node_updater.Base.Int.{pos}

abbrev pub resource : SafeEvict
resource = record {
  name = "devops";
  spec = record {
    label_selector = ("safe-to-evict", "false") ∷ [];
    last_log_lines = "Listening for Jobs\n" ∷ [];
    nodepools = "agent" ∷ [];
    namespaces = "agents" ∷ [];
    base_for_backup_pool = "agent";
  };
}

abbrev pub node_of : String → String → Node
node_of name pool = record {
  name = name;
  labels = ("agentpool", pool) ∷ ("kubernetes.azure.com/node-image-version", "v1") ∷ [];
  unschedulable = false;
}

abbrev pub idle_pod : Pod
idle_pod = record {
  name = "worker";
  namespace = "agents";
  labels = [];
  owner_references = record { kind = "Job"; name = "worker-job" } ∷ [];
  containers = record { env = record { name = "AZP_POOL"; value = "linux" } ∷ [] } ∷ [];
  node_name = "node-1";
  phase = "Running";
}

abbrev pub pool_of : String → AgentPool
pool_of name = record {
  name = some name;
  properties = some (record {
    vm_size = some "large";
    count = some (pos 3);
    min_count = some (pos 1);
    max_count = some (pos 5);
    vnet_subnet_id = none;
    mode = some user;
    enable_auto_scaling = some true;
    orchestrator_version = none;
    node_labels = [];
    node_taints = [];
    os_type = some "Linux";
    provisioning_state = some "Succeeded";
    others = ("maxPods", "110") ∷ [];
  });
}

-- The cluster, given the latest image version and what is stored in the config map. The idle pod
-- shows only on the list of all pods: by the time of the other lists it is gone.
abbrev pub cluster : String → Reply ConfigMap → Services
cluster latest stored = record {
  get_safe_evict = λ h ns name. answered resource;
  list_nodes = λ h. answered (node_of "node-1" "agent" ∷ node_of "node-2" "tmpagent" ∷ []);
  update_node = λ h node. answered tt;
  list_pods = λ h ns. answered (if ns == "" then idle_pod ∷ [] else []);
  get_pod = λ h ns name. answered idle_pod;
  stream_logs = λ h ns name. answered (answered "Agent reconnected.\nListening for Jobs\n");
  delete_pod = λ h ns name. answered tt;
  delete_job = λ h ns name. answered tt;
  get_config_map = λ h ns name. stored;
  create_config_map = λ h ns m. answered tt;
  delete_config_map = λ h ns name. answered tt;
  get_pool = λ h name. answered (pool_of name);
  put_pool = λ h name pool. answered tt;
  delete_pool = λ h name. answered tt;
  get_upgrade_profile = λ h name. answered (record { properties = some (some latest) });
  upgrade_pool = λ h name. answered tt;
  send = λ h q. answered (record { status_code = 200; body = "" });
  new_request = λ url. answered tt;
  json_error = λ text. "invalid character";
  decode_items = λ body.
      answered (record { id = "7"; name = "linux" } ∷ record { id = "12"; name = "worker" } ∷ []);
  order = λ h n. 0;
}

abbrev pub missing_map : Reply ConfigMap
missing_map = failed (record { not_found = true; status_code = some 404; text = "not found" })

abbrev pub no_pool : ClientError
no_pool = record { not_found = false; status_code = some 404; text = "not found" }

abbrev pub stored_map : Reply ConfigMap
stored_map = answered (record { name = "tmpdevops"; entries = ("agent", "{\"Count\": 3}") ∷ [] })

abbrev pub reconciler : SafeEvictReconciler
reconciler = record {
  devops = record { organization_name = "org"; access_token = "secret" };
  config = record {
    error_reconcile_time = pos 10;
    success_reconcile_time = pos 10;
    upgrade_frequency = pos 3600;
  };
}
