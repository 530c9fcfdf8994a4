-- ===== src/Azure/Info.antt =====
-- What `GetClusterInfo` returns. AKS names the resource group of the nodes MC_group_cluster_location.
use node_updater.Base.{String, ◌<>◌, ◌≡◌, ◌≢◌, refl, List, ◌∷◌, arith, ◌∙◌, ap}
use node_updater.Azure.{
  MetadataService, Metadata, imds_url, get_cluster_info, info_of_request, info_of_response,
  info_of_metadata, nothing, info_of_parts, split,
}
use node_updater.Cluster.{Response}
use node_updater.World.{answered, ok, panic}
use node_updater.Azure.Parts.{IsPlain, split-cons, split-plain-underscore, split-plain}

abbrev pub node_resource_group : String → String → String → String
node_resource_group group cluster location =
    "MC" <> ("_" <> (group <> ("_" <> (cluster <> ("_" <> location)))))

parts_of :
    (group cluster location part : String) (parts : List String)
    → IsPlain group
    → IsPlain cluster
    → split location ≡ part ∷ parts
    → split (node_resource_group group cluster location) ≡ "MC" ∷ group ∷ cluster ∷ part ∷ parts
parts_of group cluster location part parts g c e =
    split-plain-underscore "MC" _ (refl, (refl, tt))
    ∙ ap (λ t. "MC" ∷ t) (split-plain-underscore group _ g)
    ∙ ap (λ t. "MC" ∷ group ∷ t) (split-plain-underscore cluster location c)
    ∙ ap (λ t. "MC" ∷ group ∷ cluster ∷ t) e

module _ (service : MetadataService) (response : Response)
    (accepted : service.new_request imds_url ≡ answered tt)
    (replied : service.do_request imds_url ≡ answered response) where
  -- Another status than 200 is no error: what `GetClusterInfo` returns is empty, and its error nil.
  pub get_cluster_info-status : response.status_code ≢ 200 → get_cluster_info service ≡ ok nothing
  unfolding get_cluster_info info_of_request info_of_response
  get_cluster_info-status bad = simp (accepted, replied) (ground arith)

  module _ (m : Metadata) where
    -- If the metadata service answers with status 200 and the name that AKS gives to the resource group
    -- of the nodes, `GetClusterInfo` returns the subscription, the group and the cluster, provided that
    -- neither of the two names has an underscore. The location may be any text.
    pub get_cluster_info-node_resource_group :
        (group cluster location : String)
        → response.status_code ≡ 200
        → service.decode response.body ≡ answered m
        → m.resource_group_name ≡ node_resource_group group cluster location
        → IsPlain group
        → IsPlain cluster
        → get_cluster_info service
          ≡ ok (record {
            subscription_id = m.subscription_id;
            resource_group = group;
            cluster_name = cluster;
          })
    unfolding get_cluster_info info_of_request info_of_response info_of_metadata info_of_parts
    get_cluster_info-node_resource_group group cluster location good decoded named g c =
        let (part, parts, e) = split-cons location in
        let split_up = parts_of group cluster location part parts g c e in
        simp (accepted, replied, good, decoded, named, split_up) refl

    -- A name with exactly one underscore makes `GetClusterInfo` panic: its test lets two parts pass, and
    -- then it takes the third.
    pub get_cluster_info-panic :
        (first second : String)
        → response.status_code ≡ 200
        → service.decode response.body ≡ answered m
        → m.resource_group_name ≡ first <> ("_" <> second)
        → IsPlain first
        → IsPlain second
        → get_cluster_info service ≡ panic
    unfolding get_cluster_info info_of_request info_of_response info_of_metadata info_of_parts
    get_cluster_info-panic first second good decoded named f s =
        let split_up = split-plain-underscore first second f in
        simp (accepted, replied, good, decoded, named, split_up, split-plain second s) refl
