-- ===== src/Azure.antt =====
-- internal/azure/azure_controller.go: `GetClusterInfo`, which asks the metadata service of the
-- machine. The HTTP client and the JSON decoder are parameters.
pub mod Parts
pub mod Info
use Prim.Native.Char.{Char, code}
use Prim.Native.String.{[], ◌∷◌}
use node_updater.Base.{String, Option, none, some, List, [], ◌∷◌, if◌then◌else◌, ◌=ℕ◌, ℕ}
use node_updater.World.{Reply, Outcome, ok, failed, panic, err, answered}
use node_updater.Cluster.{ClientError, Response}

-- The parts of the answer that the code reads. A missing one is the empty string.
pub record Metadata : Type 0 where
  pub resource_group_name : String
  pub subscription_id : String

-- A GET with the header `Metadata: true`.
pub record MetadataService : Type 0 where
  pub new_request : String → Reply (Unit {0})
  pub do_request : String → Reply Response
  pub decode : String → Reply Metadata

pub record ClusterInfo : Type 0 where
  pub subscription_id : String
  pub resource_group : String
  pub cluster_name : String

-- `return "", "", "", err` with a nil error.
abbrev pub nothing : ClusterInfo
nothing = record { subscription_id = ""; resource_group = ""; cluster_name = "" }

abbrev pub imds_url : String
imds_url = "http://169.254.169.254/metadata/instance?api-version=2021-02-01"

abbrev pub underscore : ℕ
underscore = 95

abbrev pub cons_first : Char → List String → List String
cons_first c [] = (c ∷ "") ∷ []
cons_first c (part ∷ parts) = (c ∷ part) ∷ parts

-- `strings.Split(s, "_")`
unfoldable pub split : String → List String
split [] = "" ∷ []
split (c ∷ s) = let rest = split s in if code c =ℕ underscore then "" ∷ rest else cons_first c rest

-- `len(parts) < 2`, and then `parts[2]` and `parts[1]`.
unfoldable pub info_of_parts : String → List String → Outcome ClientError ClusterInfo
info_of_parts subscription [] = ok nothing
info_of_parts subscription (a ∷ []) = ok nothing
info_of_parts subscription (a ∷ b ∷ []) = panic
info_of_parts subscription (a ∷ b ∷ c ∷ parts) =
    ok (record { subscription_id = subscription; resource_group = b; cluster_name = c })

unfoldable pub info_of_metadata : Reply Metadata → Outcome ClientError ClusterInfo
info_of_metadata (failed e) = err e
info_of_metadata (answered m) = info_of_parts m.subscription_id (split m.resource_group_name)

module _ (service : MetadataService) where
  -- The error that is returned for another status than 200 is nil.
  unfoldable pub info_of_response : Reply Response → Outcome ClientError ClusterInfo
  info_of_response (failed e) = err e
  info_of_response (answered r) =
      if r.status_code =ℕ 200 then info_of_metadata (service.decode r.body) else ok nothing

  unfoldable pub info_of_request : Reply (Unit {0}) → Outcome ClientError ClusterInfo
  info_of_request (failed e) = err e
  info_of_request (answered u) = info_of_response (service.do_request imds_url)

  unfoldable pub get_cluster_info : Outcome ClientError ClusterInfo
  get_cluster_info = info_of_request (service.new_request imds_url)
