-- ===== src/Safety/Stages.antt =====
-- The stages of `Reconcile` obey the policy.
use node_updater.Base.{
  String, ◌≡◌, refl, All, Any, ◌∷◌, true, first, Bool-cases, inl, inr, arith, Any-map, All-of-In,
  subst, [], In, ◌||◌,
}
use node_updater.Safety.Policy.{Permitted, MayForget, ReadEntry, Saved}
use node_updater.World.{
  Services, attempt, History, Tried, returned, Reply, as_tried, got_config_map, answered, failed,
  raised,
}
use node_updater.Controller.Defs.{SafeEvictReconciler, Reconciled}
use node_updater.Cluster.{
  SafeEvict, is_not_found, get_configmap_name, ConfigMap, ClientError, AgentPool,
}
use node_updater.World.Trace.{
  Policy, Run, Anything, PostTried, Run-bind, Run-attempt-call, more, Run-attempt, here,
  Run-on_error, Run-call, Grows-Any, Run-pure, Run-if, Run-deref, Run-range, Run-throw,
  Run-fold_each,
}
use node_updater.Base.Dict.{Dict}
use node_updater.Configmap.{
  delete_config_map, create_config_map, get_config_map, get_config_map_data, deletion_result,
  create_missing,
}
use node_updater.World.Calls.{delete_config_map_call, get_config_map_call, create_config_map_call}
use node_updater.Configmap.Results.{get_config_map_data_lem, data_result}
use node_updater.Controller.Stages.{
  create_scaling, saved_or_created, add_scaling_text, saved_scaling, scaling_text,
}
use node_updater.Nodepool.Scaling.{is_set}

module _ (services : Services) (c : SafeEvictReconciler) (namespace : String) (se : SafeEvict) where
  abbrev K : Policy
  K = Permitted services c.devops namespace se

  abbrev map_name : String
  map_name = get_configmap_name se

  -- The entries were read from the config map.
  abbrev pub Entries : Dict String → History → Type 0
  Entries texts g = All (λ entry. ReadEntry namespace se entry.0 entry.1 g) texts

  abbrev NotFound : History → Type 0
  NotFound = Any (λ e.
      (x : ClientError) × (e ≡ got_config_map namespace map_name (failed x)) × (x.not_found ≡ true))

  abbrev Tells : Tried (Dict String) → History → Type 0
  Tells (returned texts) g =
      (m : ConfigMap) × Any (λ e. e ≡ got_config_map namespace map_name (answered m)) g
      × (texts ≡ m.entries)
  Tells (raised e) g = is_not_found e ≡ true → NotFound g

  told :
      (r : Reply ConfigMap) {h : History}
      → Run {E = Reconciled} K Tells h
          (as_tried (data_result r), got_config_map namespace map_name r ∷ h)
  unfolding is_not_found
  told (answered m) = record { grows = more here tt; post = (m, first refl, refl) }
  told (failed x) {h} = elim (Bool-cases x.not_found) [
    | inl e ↦ simp e (record { grows = more here tt; post = λ z. first (x, refl, e) })
    | inr e ↦ simp e (record { grows = more here tt; post = λ z. absurd (ground arith) })
  ]

  Run-get_config_map_data :
      {h : History}
      → Run {E = Reconciled} K Tells h (attempt (get_config_map_data services namespace map_name) h)
  unfolding attempt
  Run-get_config_map_data {h} =
      rw get_config_map_data_lem (told (services.get_config_map h namespace map_name))

  Run-create_missing :
      (texts : Dict String) (t : Tried ConfigMap) {h : History}
      → PostTried (λ m. Any (λ e. e ≡ got_config_map namespace map_name (answered m))) t h
      → NotFound h
      → Run K (λ u. Saved namespace se) h (create_missing services namespace map_name texts t h)
  unfolding create_missing create_config_map_call
  Run-create_missing texts (returned m) p missing = Run-pure tt (Any-map (λ e q. inl (m, q)) p)
  Run-create_missing texts (raised e) p missing =
      Run-on_error _ _
        (Run-call _ _ (λ r. (refl, refl, missing)) (λ a. first (inr (_, refl, refl))))

  Run-create_config_map :
      (texts : Dict String) {h : History}
      → NotFound h
      → Run K (λ u. Saved namespace se) h (create_config_map services namespace map_name texts h)
  unfolding create_config_map get_config_map get_config_map_call
  Run-create_config_map texts missing =
      Run-bind _ _
        (Run-attempt _ (
          Run-on_error {Q = λ m. Any (λ e. e ≡ got_config_map namespace map_name (answered m))} _ _
            (Run-call _ _ (λ r. tt) (λ a. first refl))))
        (λ t g grown p. Run-create_missing texts t p (Grows-Any grown missing))

  Run-deletion_result :
      (t : Tried (Unit {0})) {h : History} → Run K Anything h (deletion_result t h)
  unfolding deletion_result
  Run-deletion_result (returned u) = Run-pure tt tt
  Run-deletion_result (raised e) =
      Run-if (is_not_found e) _ _ (λ x. Run-pure tt tt) (λ x. Run-throw _)

  pub Run-delete_config_map :
      {h : History}
      → MayForget namespace se namespace map_name h
      → Run K Anything h (delete_config_map services namespace map_name h)
  unfolding delete_config_map delete_config_map_call
  Run-delete_config_map may =
      Run-bind {M = Anything} _ _ (Run-attempt-call _ _ (λ r. may) (λ r. tt))
        (λ t g grown p. Run-deletion_result t)

  add_scaling_text-reads :
      (texts : Dict String) (entry : String × AgentPool) {h : History}
      → Run K Anything h (add_scaling_text texts entry h)
  unfolding add_scaling_text scaling_text
  add_scaling_text-reads texts (name, pool) =
      Run-bind {M = Anything} _ _
        (Run-bind {M = Anything} _ _ (Run-deref pool.properties (λ a e. tt)) (λ p g grown u.
          Run-if (is_set p.min_count || is_set p.max_count) _ _
            (λ auto.
              Run-bind {M = Anything} _ _ (Run-deref p.min_count (λ a e. tt)) (λ min g' grown' u'.
                Run-bind {M = Anything} _ _ (Run-deref p.max_count (λ a e. tt))
                  (λ max g'' grown'' u''. Run-pure _ tt)))
            (λ manual.
              Run-bind {M = Anything} _ _ (Run-deref p.count (λ a e. tt))
                (λ n g' grown' u'. Run-pure _ tt))))
        (λ text g grown u. Run-pure _ tt)

  abbrev SavedEntries : Dict String → History → Type 0
  SavedEntries texts g = Saved namespace se g × Entries texts g

  Run-create_scaling :
      (pools : Dict AgentPool) {h : History}
      → NotFound h
      → Run K SavedEntries h (create_scaling services c namespace se pools h)
  unfolding create_scaling
  Run-create_scaling pools missing =
      Run-bind {M = Anything} _ _ (Run-range services pools tt (λ picks. tt)) (λ entries g grown u.
        Run-bind {M = Anything} _ _
          (Run-fold_each entries _ _ tt (λ t x g' m j. add_scaling_text-reads t x))
          (λ texts g' grown' u'.
            Run-bind _ _
              (Run-on_error _ _
                (Run-create_config_map texts (Grows-Any grown' (Grows-Any grown missing))))
              (λ u'' g'' grown'' saved. Run-pure [] (saved, tt))))

  Run-saved_or_created :
      (pools : Dict AgentPool) (t : Tried (Dict String)) {h : History}
      → Tells t h
      → Run K SavedEntries h (saved_or_created services c namespace se pools t h)
  unfolding saved_or_created
  Run-saved_or_created pools (returned texts) (m, seen, e) = Run-pure texts (
    Any-map (λ y q. inl (m, q)) seen,
    All-of-In _ texts (λ entry k. Any-map (λ y q. (m, q, subst (λ ts. In entry ts) e k)) seen),
  )
  Run-saved_or_created pools (raised e) told' =
      Run-if (is_not_found e) _ _ (λ missing. Run-create_scaling pools (told' missing))
        (λ other. Run-throw _)

  -- Afterwards the config map exists, and what is returned was read from it.
  pub Run-saved_scaling :
      (pools : Dict AgentPool) {h : History}
      → Run K SavedEntries h (saved_scaling services c namespace se pools h)
  unfolding saved_scaling
  Run-saved_scaling pools =
      Run-bind _ _ Run-get_config_map_data (λ t g grown told'. Run-saved_or_created pools t told')
