-- ===== src/Cluster.antt =====
-- What the program reads and writes outside itself: the resource of api/v1/safeevict_types.go,
-- the fields that it uses of the Kubernetes objects and of an Azure agent pool, and errors.
-- A pointer field is an `Option`, with `none` for nil.
pub mod Names
use node_updater.Base.{
  ℕ, String, ◌<>◌, Bool, false, Option, none, List, ltb, length_text, take_text, if◌then◌else◌,
}
use node_updater.Base.Dict.{Dict}
use node_updater.Base.Int.{ℤ}

-- An error that a client library returns, as the program can observe it: what
-- `apierrors.IsNotFound` says of it, the status code if `errors.As` finds an
-- `azcore.ResponseError` in it, and its text.
pub record ClientError : Type 0 where
  pub not_found : Bool
  pub status_code : Option ℕ
  pub text : String

-- A Go error: a client's, one of `fmt.Errorf` that keeps no cause (no verb, or `%v`), or one that
-- wraps its cause with `%w` behind a text.
pub data Error : Type 0 where
  client : ClientError → Error
  message : String → Error
  wrapped : String → Error → Error

-- `err.Error()`
unfoldable pub error_text : Error → String
error_text (client e) = e.text
error_text (message s) = s
error_text (wrapped s e) = s <> error_text e

-- `apierrors.IsNotFound(err)`. It looks through `%w`, and a text that only quotes a cause has none.
unfoldable pub is_not_found : Error → Bool
is_not_found (client e) = e.not_found
is_not_found (message s) = false
is_not_found (wrapped s e) = is_not_found e

-- `errors.As(err, &responseErr)`, and the `StatusCode` of what it finds.
unfoldable pub response_status : Error → Option ℕ
response_status (client e) = e.status_code
response_status (message s) = none
response_status (wrapped s e) = response_status e

pub record SafeEvictSpec : Type 0 where
  pub label_selector : Dict String
  pub last_log_lines : List String
  pub nodepools : List String
  pub namespaces : List String
  pub base_for_backup_pool : String

pub record SafeEvict : Type 0 where
  pub name : String
  pub spec : SafeEvictSpec

pub record Node : Type 0 where
  pub name : String
  pub labels : Dict String
  pub unschedulable : Bool

pub record OwnerReference : Type 0 where
  pub kind : String
  pub name : String

pub record EnvVar : Type 0 where
  pub name : String
  pub value : String

pub record Container : Type 0 where
  pub env : List EnvVar

pub record Pod : Type 0 where
  pub name : String
  pub namespace : String
  pub labels : Dict String
  pub owner_references : List OwnerReference
  pub containers : List Container
  pub node_name : String
  pub phase : String

pub record ConfigMap : Type 0 where
  pub name : String
  pub entries : Dict String

pub data AgentPoolMode : Type 0 where
  system user gateway : AgentPoolMode

pub record PoolProperties : Type 0 where
  pub vm_size : Option String
  pub count : Option ℤ
  pub min_count : Option ℤ
  pub max_count : Option ℤ
  pub vnet_subnet_id : Option String
  pub mode : Option AgentPoolMode
  pub enable_auto_scaling : Option Bool
  pub orchestrator_version : Option String
  pub node_labels : Dict (Option String)
  pub node_taints : List (Option String)
  pub os_type : Option String
  pub provisioning_state : Option String
  -- The other fields that are set, each as the text of its value.
  pub others : Dict String

pub record AgentPool : Type 0 where
  pub name : Option String
  pub properties : Option PoolProperties

-- The response of `GetUpgradeProfile`: its properties may be nil, and the version in them too.
pub record UpgradeProfile : Type 0 where
  pub properties : Option (Option String)

-- HTTP, as the Azure DevOps client uses it: `SetBasicAuth("", password)`, and a `Content-Type`
-- where the request has a body.
pub data Method : Type 0 where
  get patch delete : Method

pub record Request : Type 0 where
  pub method : Method
  pub url : String
  pub password : String
  pub content_type : Option String
  pub body : String

pub record Response : Type 0 where
  pub status_code : ℕ
  pub body : String

-- An entry of the `value` array of a listing: `json.Number` is the text of a number.
pub record Item : Type 0 where
  pub id : String
  pub name : String

-- `GetConfigmapName`
unfoldable pub get_configmap_name : SafeEvict → String
get_configmap_name s = "tmp" <> s.name

-- `GetTemporaryNodepoolName`: the name of the base pool, cut after nine bytes, behind "tmp".
unfoldable pub get_temporary_nodepool_name : SafeEvict → String
get_temporary_nodepool_name s =
    let base = s.spec.base_for_backup_pool in
    if ltb 9 (length_text base) then "tmp" <> take_text 9 base else "tmp" <> base
