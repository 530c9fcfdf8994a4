-- ===== src/Main/Refined.antt =====
-- cmd/main.go: that `main` follows its list of calls.
use mathlib.Core.Path.{fun_ext}
use node_updater.Base.{refl, none, ◌==◌, ◌∷◌, [], subst, true, false, ◌≢◌, arith}
use node_updater.Main.Boot.{
  ◌>>=◌, ◌>>◌, default_credential, panicked, build_kube_config, workload_credential, main,
  identify_cluster, in_cluster_config, new_logger, outcome_of, run_manager, get_config, new_manager,
}
use node_updater.Main.Steps.{
  by_environment, by_metadata, Identified, optional, follow, credentials, connecting, Identified,
  serving, bind_assoc, plan, Followed, completed, failing_at, follow-Followed, newest_first,
}
use node_updater.Main.Boot.{
  Platform, must_add, must_watch, return, Booted, Boot, local_setup, must, BootCall,
  new_kube_client, cluster_setup, watch_certificate, go_on, add_watcher, new_pools_client, going,
  add_healthz_check, setup_reconciler, wiring, exited, add_readyz_check, start_manager,
}
use node_updater.Main.{
  Flags, watcher, CertFiles, metrics_files, webhook_files, info_level, zap_level, manager_options,
}
use node_updater.Azure.{ClusterInfo, get_cluster_info, imds_url, nothing}
use node_updater.Base.{Option, List, ◌≡◌, if◌then◌else◌, ap, some, sym, ◌∙◌}
use node_updater.World.{ok, answered}
use node_updater.Cluster.{Response}
use node_updater.Azure.Info.{get_cluster_info-status}

module _ (p : Platform) where
  go_on-return : (o : Booted (Unit {0}) × List BootCall) → go_on o.0 return o.1 ≡ o
  unfolding return
  go_on-return (going a, t) = refl
  go_on-return (exited, t) = refl
  go_on-return (panicked, t) = refl

  bind_id : (m : Boot (Unit {0})) → (m >>= return) ≡ m
  unfolding ◌>>=◌
  bind_id m = fun_ext (λ t. go_on-return (m t))

  must_add_lem :
      (files : Option CertFiles) (cs : List BootCall)
      → (must_add p files >> follow p cs) ≡ follow p (optional add_watcher files cs)
  unfolding must_add optional follow ◌>>=◌ return
  must_add_lem none cs = refl
  must_add_lem (some files) cs = refl

  must_watch_lem :
      (files : Option CertFiles) (cs : List BootCall)
      → (must_watch p files >> follow p cs) ≡ follow p (optional watch_certificate files cs)
  unfolding must_watch optional follow ◌>>=◌ return
  must_watch_lem none cs = refl
  must_watch_lem (some files) cs = refl

  module _ (flags : Flags) where
    serving_lem :
        (must_add p (watcher (metrics_files flags))
          >> (must_add p (watcher (webhook_files flags))
              >> (must p add_healthz_check >> (must p add_readyz_check >> must p start_manager))))
        ≡ follow p (serving p flags)
    unfolding follow
    serving_lem =
        ap (λ k. must_add p (watcher (metrics_files flags)) >> k)
          (ap
              (λ k.
                must_add p (watcher (webhook_files flags))
                >> (must p add_healthz_check >> (must p add_readyz_check >> k)))
              (sym (bind_id (must p start_manager)))
            ∙ must_add_lem (watcher (webhook_files flags)) _)
        ∙ must_add_lem (watcher (metrics_files flags)) _

    -- What follows once the cluster is known.
    abbrev connect : ClusterInfo → Boot (Unit {0})
    connect info =
        must p new_kube_client
        >> (must p (new_pools_client info.subscription_id)
            >> (must p (setup_reconciler (wiring p flags info))
                >> (must_add p (watcher (metrics_files flags))
                    >> (must_add p (watcher (webhook_files flags))
                        >> (must p add_healthz_check
                            >> (must p add_readyz_check >> must p start_manager))))))

    connect_lem : (info : ClusterInfo) → connect info ≡ follow p (connecting p flags info)
    unfolding follow
    connect_lem info =
        ap
          (λ k.
            must p new_kube_client
            >> (must p (new_pools_client info.subscription_id)
                >> (must p (setup_reconciler (wiring p flags info)) >> k)))
          serving_lem

    environment_info : ClusterInfo
    environment_info = record {
      subscription_id = p.getenv "AZURE_SUBSCRIPTION_ID";
      resource_group = p.getenv "AZURE_CLUSTER_RESOURCE_GROUP";
      cluster_name = p.getenv "AZURE_CLUSTER_NAME";
    }

    abbrev home_config : BootCall
    home_config =
        build_kube_config
          (if p.getenv "KUBECONFIG" == "" then p.recommended_home_file else p.getenv "KUBECONFIG")

    local_lem :
        (k : ClusterInfo → Boot (Unit {0}))
        → (local_setup p >>= k)
          ≡ (must p home_config >> (must p default_credential >> k environment_info))
    unfolding local_setup environment_info ◌>>=◌ return
    local_lem k =
        bind_assoc p (must p home_config)
          (λ _. must p default_credential >> return environment_info) k
        ∙ ap (λ m. must p home_config >> m)
            (bind_assoc p (must p default_credential) (λ _. return environment_info) k)

    identify_lem :
        {B : Type 0} (f : ClusterInfo → Boot B) (info : ClusterInfo)
        → get_cluster_info p.metadata ≡ ok info
        → (identify_cluster p >>= f) ≡ f info
    unfolding identify_cluster ◌>>=◌
    identify_lem f info e = ap (λ o t. go_on (outcome_of o) f t) e

    abbrev workload : BootCall
    workload =
        workload_credential (p.getenv "AZURE_FEDERATED_TOKEN_FILE") (p.getenv "AZURE_CLIENT_ID")
          (p.getenv "AZURE_TENANT_ID")

    cluster_lem :
        (k : ClusterInfo → Boot (Unit {0})) (info : ClusterInfo)
        → get_cluster_info p.metadata ≡ ok info
        → (cluster_setup p >>= k) ≡ (must p in_cluster_config >> (must p workload >> k info))
    unfolding cluster_setup ◌>>=◌ return
    cluster_lem k info e =
        ap (λ m. m >>= k)
          (identify_lem (λ i. must p in_cluster_config >> (must p workload >> return i)) info e)
        ∙ bind_assoc p (must p in_cluster_config) (λ _. must p workload >> return info) k
        ∙ ap (λ m. must p in_cluster_config >> m)
            (bind_assoc p (must p workload) (λ _. return info) k)

    abbrev setup : Boot ClusterInfo
    setup = if flags.run_in_vs_code then local_setup p else cluster_setup p

    setup_lem :
        (info : ClusterInfo)
        → Identified p flags info
        → (setup >>= connect) ≡ follow p (credentials p flags (connecting p flags info))
    unfolding follow credentials environment_info
    setup_lem info (by_environment at_home e) =
        ap (λ b. (if b then local_setup p else cluster_setup p) >>= connect) at_home
        ∙ local_lem connect
        ∙ ap (λ k. must p home_config >> (must p default_credential >> k))
            (ap connect (sym e) ∙ connect_lem info)
        ∙ rw at_home refl
    setup_lem info (by_metadata in_cluster e) =
        ap (λ b. (if b then local_setup p else cluster_setup p) >>= connect) in_cluster
        ∙ cluster_lem connect info e
        ∙ ap (λ k. must p in_cluster_config >> (must p workload >> k)) (connect_lem info)
        ∙ rw in_cluster refl

    abbrev started : List BootCall
    started = new_logger info_level ∷ []

    -- Where the cluster is identified by the environment or by the metadata service, the program
    -- makes exactly the calls of its plan, in order, after the start of the logger: all of them,
    -- where each is accepted, and it returns; or those up to the first that is refused, with
    -- which it exits. It does not panic.
    pub main-Followed :
        (info : ClusterInfo)
        → Identified p flags info
        → Followed p (plan p flags info) started (main p flags [])
    unfolding follow main run_manager plan ◌>>=◌ zap_level
    main-Followed info identified =
        subst (Followed p (plan p flags info) started)
          (ap (λ m. m started)
            (sym (
              ap
                (λ k.
                  must_watch p (watcher (webhook_files flags))
                  >> (must_watch p (watcher (metrics_files flags))
                      >> (must p get_config
                          >> (must p (new_manager (manager_options flags)) >> k))))
                (setup_lem info identified)
              ∙ ap (λ k. must_watch p (watcher (webhook_files flags)) >> k)
                  (must_watch_lem (watcher (metrics_files flags)) _)
              ∙ must_watch_lem (watcher (webhook_files flags)) _)))
          (follow-Followed p (plan p flags info) started)

-- What is refused was not accepted.
Followed-all :
    (p : Platform) (cs t : List BootCall) (o : Booted (Unit {0}) × List BootCall)
    → ((h : List BootCall) (c : BootCall) → p.accepts h c ≡ true)
    → Followed p cs t o
    → o ≡ (going tt, newest_first p cs t)
Followed-all p cs t o all (completed e _) = e
Followed-all p cs t o all (failing_at before c left _ _ refused _) =
    let accepted = all (newest_first p before t) c in ground arith

-- In the cluster, if the metadata service answers with another status than 200 and every call of
-- the setup is accepted, the program does not exit: it makes every call of its plan, with an empty
-- subscription, resource group and cluster name.
pub main-unidentified :
    (p : Platform) (flags : Flags) (response : Response)
    → flags.run_in_vs_code ≡ false
    → p.metadata.new_request imds_url ≡ answered tt
    → p.metadata.do_request imds_url ≡ answered response
    → response.status_code ≢ 200
    → ((h : List BootCall) (c : BootCall) → p.accepts h c ≡ true)
    → main p flags [] ≡ (going tt, newest_first p (plan p flags nothing) (started p flags))
main-unidentified p flags response in_cluster asked replied bad all = Followed-all p _ _ _ all (
    main-Followed p flags nothing
      (by_metadata in_cluster (get_cluster_info-status p.metadata response asked replied bad)))
