-- ===== src/Nodepool/Copied.antt =====
-- internal/nodepool/nodepool_controller.go: what the temporary pool has of its source.
use node_updater.Base.{◌≡◌, none, some, [], refl}
use node_updater.Cluster.{AgentPool, PoolProperties}
use node_updater.Nodepool.Change.{copy_of}

-- The pool has the ten settings that are copied, and no other field is set.
pub record IsCopy (source : PoolProperties) (pool : AgentPool) : Type 0 where
  pub unnamed : pool.name ≡ none
  pub settings : PoolProperties
  pub has : pool.properties ≡ some settings
  pub vm_size : settings.vm_size ≡ source.vm_size
  pub count : settings.count ≡ source.count
  pub min_count : settings.min_count ≡ source.min_count
  pub max_count : settings.max_count ≡ source.max_count
  pub mode : settings.mode ≡ source.mode
  pub enable_auto_scaling : settings.enable_auto_scaling ≡ source.enable_auto_scaling
  pub orchestrator_version : settings.orchestrator_version ≡ source.orchestrator_version
  pub node_labels : settings.node_labels ≡ source.node_labels
  pub node_taints : settings.node_taints ≡ source.node_taints
  pub os_type : settings.os_type ≡ source.os_type
  pub vnet_subnet_id : settings.vnet_subnet_id ≡ none
  pub provisioning_state : settings.provisioning_state ≡ none
  pub others : settings.others ≡ []

pub copy_of-IsCopy : (source : PoolProperties) → IsCopy source (copy_of source)
unfolding copy_of
copy_of-IsCopy source = record {
  unnamed = refl;
  settings = record {
    vm_size = source.vm_size;
    count = source.count;
    min_count = source.min_count;
    max_count = source.max_count;
    vnet_subnet_id = none;
    mode = source.mode;
    enable_auto_scaling = source.enable_auto_scaling;
    orchestrator_version = source.orchestrator_version;
    node_labels = source.node_labels;
    node_taints = source.node_taints;
    os_type = source.os_type;
    provisioning_state = none;
    others = [];
  };
  has = refl;
  vm_size = refl;
  count = refl;
  min_count = refl;
  max_count = refl;
  mode = refl;
  enable_auto_scaling = refl;
  orchestrator_version = refl;
  node_labels = refl;
  node_taints = refl;
  os_type = refl;
  vnet_subnet_id = refl;
  provisioning_state = refl;
  others = refl;
}
