-- ===== src/Examples/Starts.antt =====
-- The results on the program's start, at concrete machines.
use node_updater.Base.{refl, String, ◌≡◌, ◌≢◌, true, List, ◌∷◌, arith, [], Bool, false, none}
use node_updater.Azure.{
  get_cluster_info, MetadataService, Metadata, nothing, ClusterInfo, info_of_request,
  info_of_response, info_of_metadata, info_of_parts, split,
}
use node_updater.Cluster.{Response}
use node_updater.World.{ok, answered, panic}
use node_updater.Azure.Info.{get_cluster_info-panic, get_cluster_info-node_resource_group}
use node_updater.Main.{
  TlsConfig, new_config, manager_options, Flags, default_flags, configured, info_level,
}
use node_updater.Main.Steps.{by_metadata, Followed, plan, newest_first}
use node_updater.Main.Boot.{Platform, main, BootCall, new_logger, going}
use node_updater.Base.Int.{pos}
use node_updater.Main.Settings.{new_config-exact, wanted_tls, manager_options-tls}
use node_updater.Main.Refined.{main-Followed, main-unidentified}

abbrev good_response : Response
good_response = record { status_code = 200; body = "{}" }

abbrev bad_response : Response
bad_response = record { status_code = 404; body = "" }

abbrev metadata_of : String → Metadata
metadata_of name = record { resource_group_name = name; subscription_id = "sub" }

abbrev service_of : Response → String → MetadataService
service_of response name = record {
  new_request = λ url. answered tt;
  do_request = λ url. answered response;
  decode = λ text. answered (metadata_of name);
}

abbrev aks : String
aks = "MC_agents_build_west_europe"

get_cluster_info-node_resource_group_example :
    get_cluster_info (service_of good_response aks)
    ≡ ok (record { subscription_id = "sub"; resource_group = "agents"; cluster_name = "build" })
get_cluster_info-node_resource_group_example =
    get_cluster_info-node_resource_group (service_of good_response aks) good_response refl refl
      (metadata_of aks) "agents" "build" "west_europe" refl refl refl
      (refl, (refl, (refl, (refl, (refl, (refl, tt)))))) (refl, (refl, (refl, (refl, (refl, tt)))))

get_cluster_info-panic_example : get_cluster_info (service_of good_response "rg_build") ≡ panic
get_cluster_info-panic_example =
    get_cluster_info-panic (service_of good_response "rg_build") good_response refl refl
      (metadata_of "rg_build") "rg" "build" refl refl refl (refl, (refl, tt))
      (refl, (refl, (refl, (refl, (refl, tt)))))

not_200 : bad_response.status_code ≢ 200
not_200 = omega arith

-- The machine of a pod in a cluster, whose metadata service answers so.
abbrev machine : Response → (List BootCall → BootCall → Bool) → Platform
machine response accepts = record {
  accepts = accepts;
  getenv = λ name. name;
  recommended_home_file = "/root/.kube/config";
  metadata = service_of response aks;
}

abbrev flags : Flags
flags = record default_flags { metrics_cert_path = "/certs" }

abbrev found : ClusterInfo
found = record { subscription_id = "sub"; resource_group = "agents"; cluster_name = "build" }

-- A machine whose manager cannot be created.
abbrev no_manager : Platform
no_manager =
    machine good_response (λ t c. elim c [ BootCall.new_manager options ↦ false | _ ↦ true ])

found_there : get_cluster_info (service_of good_response aks) ≡ ok found
unfolding get_cluster_info info_of_request info_of_response info_of_metadata info_of_parts split
found_there = refl

main-Followed_example :
    Followed no_manager
      (plan no_manager flags found)
      (new_logger info_level ∷ [])
      (main no_manager flags [])
main-Followed_example = main-Followed no_manager flags found (by_metadata refl found_there)

main-unidentified_example :
    let lost = machine bad_response (λ t c. true) in
    main lost flags []
    ≡ (going tt, newest_first lost (plan lost flags nothing) (new_logger info_level ∷ []))
main-unidentified_example =
    main-unidentified (machine bad_response (λ t c. true)) flags bad_response refl refl refl not_200
      (λ t c. refl)

new_config-exact_example : new_config flags ≡ record {
  error_reconcile_time = pos 10000000000;
  success_reconcile_time = pos 10000000000;
  upgrade_frequency = pos 3600000000000;
}
new_config-exact_example = new_config-exact flags (omega arith) (omega arith) (omega arith)

abbrev plain_tls : TlsConfig
plain_tls = record { next_protos = "h2" ∷ []; certificate = none }

manager_options-tls_example :
    let options = manager_options flags in
    (configured options.metrics.tls plain_tls
      ≡ wanted_tls flags flags.metrics_cert_path flags.metrics_cert_name flags.metrics_cert_key
          plain_tls)
    × (configured options.webhook_tls plain_tls
        ≡ wanted_tls flags flags.webhook_cert_path flags.webhook_cert_name flags.webhook_cert_key
            plain_tls)
manager_options-tls_example = manager_options-tls flags plain_tls
