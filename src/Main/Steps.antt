-- ===== src/Main/Steps.antt =====
-- cmd/main.go: `main` works off a list of calls, up to the first that fails.
use mathlib.Core.Path.{fun_ext}
use node_updater.Base.{
  ◌==◌, ◌≡◌, refl, sym, ap, ◌∙◌, inl, inr, true, false, Option, none, some, List, [], ◌∷◌, ◌++◌,
  if◌then◌else◌, arith, Bool-cases, subst,
}
use node_updater.Main.Boot.{
  ◌>>=◌, Platform, return, BootCall, Boot, Booted, build_kube_config, must, going,
  default_credential, watch_certificate, in_cluster_config, exited, workload_credential, get_config,
  new_manager, new_kube_client, new_pools_client, setup_reconciler, wiring, add_watcher,
  add_healthz_check, add_readyz_check, start_manager, go_on, panicked,
}
use node_updater.Main.{CertFiles, Flags, watcher, webhook_files, metrics_files, manager_options}
use node_updater.Azure.{ClusterInfo, get_cluster_info}
use node_updater.World.{ok}

unfoldable pub optional : (CertFiles → BootCall) → Option CertFiles → List BootCall → List BootCall
optional f none rest = rest
optional f (some files) rest = f files ∷ rest

module _ (p : Platform) (flags : Flags) where
  -- The cluster, as `main` learns of it.
  pub data Identified (info : ClusterInfo) : Type 0 where
    by_environment :
        flags.run_in_vs_code ≡ true
        → info ≡ record {
          subscription_id = p.getenv "AZURE_SUBSCRIPTION_ID";
          resource_group = p.getenv "AZURE_CLUSTER_RESOURCE_GROUP";
          cluster_name = p.getenv "AZURE_CLUSTER_NAME";
        }
        → Identified info
    by_metadata :
        flags.run_in_vs_code ≡ false → get_cluster_info p.metadata ≡ ok info → Identified info

  unfoldable pub credentials : List BootCall → List BootCall
  credentials rest =
      if flags.run_in_vs_code
      then build_kube_config
          (if p.getenv "KUBECONFIG" == "" then p.recommended_home_file else p.getenv "KUBECONFIG")
        ∷ default_credential
        ∷ rest
      else in_cluster_config
        ∷ workload_credential (p.getenv "AZURE_FEDERATED_TOKEN_FILE") (p.getenv "AZURE_CLIENT_ID")
            (p.getenv "AZURE_TENANT_ID")
        ∷ rest

  -- From the health check on.
  abbrev pub serving : List BootCall
  serving = optional add_watcher (watcher (metrics_files flags)) (
      optional add_watcher (watcher (webhook_files flags))
        (add_healthz_check ∷ add_readyz_check ∷ start_manager ∷ []))

  -- From the clients on.
  abbrev pub connecting : ClusterInfo → List BootCall
  connecting info =
      new_kube_client
      ∷ new_pools_client info.subscription_id
      ∷ setup_reconciler (wiring p flags info)
      ∷ serving

  -- The calls that `main` is to make, in order.
  unfoldable pub plan : ClusterInfo → List BootCall
  plan info = optional watch_certificate (watcher (webhook_files flags)) (
      optional watch_certificate (watcher (metrics_files flags))
        (get_config ∷ new_manager (manager_options flags) ∷ credentials (connecting info)))

module _ (p : Platform) where
  abbrev pub newest_first : List BootCall → List BootCall → List BootCall
  newest_first [] t = t
  newest_first (c ∷ cs) t = newest_first cs (c ∷ t)

  -- Each call succeeded, in view of those before it.
  abbrev AllAccepted : List BootCall → List BootCall → Type 0
  AllAccepted [] t = Unit
  AllAccepted (c ∷ cs) t = (p.accepts t c ≡ true) × AllAccepted cs (c ∷ t)

  -- The calls were made in order, all of them, or up to the first that failed.
  pub data Followed (cs t : List BootCall) (o : Booted (Unit {0}) × List BootCall) : Type 0 where
    completed : o ≡ (going tt, newest_first cs t) → AllAccepted cs t → Followed cs t o
    failing_at :
        (before : List BootCall) (c : BootCall) (left : List BootCall)
        → cs ≡ before ++ c ∷ left
        → AllAccepted before t
        → p.accepts (newest_first before t) c ≡ false
        → o ≡ (exited, c ∷ newest_first before t)
        → Followed cs t o

  unfoldable pub follow : List BootCall → Boot (Unit {0})
  follow [] = return tt
  follow (c ∷ cs) = must p c >>= λ _. follow cs

  -- One call in front of the rest.
  must_lem :
      (c : BootCall) (k : Boot (Unit {0})) (t : List BootCall)
      → (must p c >>= λ _. k) t ≡ (if p.accepts t c then k (c ∷ t) else (exited, c ∷ t))
  unfolding must ◌>>=◌
  must_lem c k t = ground arith

  extended :
      (c : BootCall) (cs t : List BootCall) (o : Booted (Unit {0}) × List BootCall)
      → p.accepts t c ≡ true
      → Followed cs (c ∷ t) o
      → Followed (c ∷ cs) t o
  extended c cs t o accepted (completed e all) = completed e (accepted, all)
  extended c cs t o accepted (failing_at before d left e all fails at) =
      failing_at (c ∷ before) d left (ap (λ l. c ∷ l) e) (accepted, all) fails at

  pub follow-Followed : (cs t : List BootCall) → Followed cs t (follow cs t)
  unfolding follow return
  follow-Followed [] t = completed refl tt
  follow-Followed (c ∷ cs) t =
      let rest = follow-Followed cs (c ∷ t) in
      let first_call = must_lem c (follow cs) t in
      elim (Bool-cases (p.accepts t c)) [
        | inl accepted ↦
            extended c cs t _ accepted
              (subst (Followed cs (c ∷ t)) (sym (first_call ∙ rw accepted refl)) rest)
        | inr refused ↦ failing_at [] c cs refl tt refused (first_call ∙ rw refused refl)
      ]

  pub go_on_assoc :
      {A B C : Type 0} (r : Booted A) (f : A → Boot B) (g : B → Boot C) (t : List BootCall)
      → let (r', t') = go_on r f t in go_on r' g t' ≡ go_on r (λ a. f a >>= g) t
  unfolding ◌>>=◌
  go_on_assoc (going a) f g t = refl
  go_on_assoc exited f g t = refl
  go_on_assoc panicked f g t = refl

  pub bind_assoc :
      {A B C : Type 0} (m : Boot A) (f : A → Boot B) (g : B → Boot C)
      → ((m >>= f) >>= g) ≡ (m >>= λ a. f a >>= g)
  unfolding ◌>>=◌
  bind_assoc m f g = fun_ext (λ t. go_on_assoc (m t).0 f g (m t).1)
