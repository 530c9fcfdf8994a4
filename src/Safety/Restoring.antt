-- ===== src/Safety/Restoring.antt =====
-- Restoring the scaling obeys the policy.
use node_updater.Base.{String, ◌≡◌, refl, Option, some, ◌!=◌, none, inl, ap, ◌⊎◌, inr}
use node_updater.Safety.Policy.{
  ScaledBy, to_range, to_size, as_it_was, restores, Permitted, ReadEntry,
}
use node_updater.World.{Services, History, Tried, returned, raised}
use node_updater.World.Trace.{
  Policy, Grows, Grows-Any, Run, Anything, Run-pure, Run-bind, Run-deref, Run-if, Run-throw,
  Run-attempt-call, Run-on_error, Run-consult, Grows-trans,
}
use node_updater.Base.Dict.{Dict, lookup}
use node_updater.Cluster.{AgentPool, SafeEvict, PoolProperties}
use node_updater.Azuredevops.{AzureDevopsController}
use node_updater.Nodepool.Evidence.{GotPool}
use node_updater.Base.Json.{unmarshal_counts}
use node_updater.Nodepool.Scaling.{
  count_of, is_set, is_conflict, apply_change, apply_counts, conflict_is_done, restore_scaling,
  set_ready_scaling, set_default_scaling, send_scaling, still_updating, with_range, with_count,
}
use node_updater.World.Calls.{put_pool_call}
use node_updater.Base.Int.{ℤ}
use node_updater.Safety.Settings.{
  unmarshalled-some, count_of-IsSaved, count_of-none, with_count-some, with_range-some,
}

module _ (services : Services) (devops : AzureDevopsController) (namespace : String)
    (se : SafeEvict) where
  abbrev K : Policy
  K = Permitted services devops namespace se

  Run-conflict_is_done :
      (name : String) (t : Tried (Unit {0})) {h : History}
      → Run K Anything h (conflict_is_done name t h)
  unfolding conflict_is_done
  Run-conflict_is_done name (returned u) = Run-pure tt tt
  Run-conflict_is_done name (raised e) =
      Run-if (is_conflict e) _ _ (λ c. Run-pure tt tt) (λ c. Run-throw _)

  module _ (key text : String) (pool : AgentPool) where
    -- What a restoring write rests on.
    Recorded : History → Type 0
    Recorded h = GotPool key pool h × ReadEntry namespace se key text h

    Grows-Recorded : {h h' : History} → Grows K h h' → Recorded h → Recorded h'
    unfolding Recorded
    Grows-Recorded g (got, entry) = (Grows-Any g got, Grows-Any g entry)

    module _ (name : String) (called : pool.name ≡ some name) (counts : Dict ℤ)
        (decodes : unmarshal_counts text ≡ some counts) where
      Run-send_scaling :
          (q : Option PoolProperties) {h : History}
          → ScaledBy counts pool (record pool { properties = q })
          → Recorded h
          → Run K Anything h (send_scaling services pool name q h)
      unfolding send_scaling put_pool_call Recorded
      Run-send_scaling q scaled (got, entry) =
          Run-bind {M = Anything} _ _
            (Run-attempt-call _ _
              (λ r. restores key text pool counts got called entry decodes scaled) (λ r. tt))
            (λ t g grown u. Run-conflict_is_done name t)

      Run-apply_change :
          (o : Option PoolProperties) {h : History}
          → ((q : PoolProperties)
              → o ≡ some q
              → ScaledBy counts pool (record pool { properties = some q }))
          → Recorded h
          → Run K Anything h (apply_change services pool name o h)
      unfolding apply_change
      Run-apply_change none scaled r = Run-pure tt tt
      Run-apply_change (some p) scaled r = Run-send_scaling (some p) (scaled p refl) r

      sent-range :
          (p : PoolProperties) (lo hi : ℤ)
          → pool.properties ≡ some p
          → count_of "MinCount" counts ≡ some lo
          → count_of "MaxCount" counts ≡ some hi
          → (q : PoolProperties) → with_range p lo hi ≡ some q
          → ScaledBy counts pool (record pool { properties = some q })
      sent-range p lo hi has l u q e =
          to_range p lo hi has (count_of-IsSaved _ counts lo l) (count_of-IsSaved _ counts hi u)
            (ap (λ x. record pool { properties = some x }) (with_range-some p q lo hi e))

      sent-size :
          (p : PoolProperties) (n : ℤ)
          → pool.properties ≡ some p
          → (lookup "MinCount" counts ≡ none) ⊎ (lookup "MaxCount" counts ≡ none)
          → count_of "Count" counts ≡ some n
          → (q : PoolProperties) → with_count p n ≡ some q
          → ScaledBy counts pool (record pool { properties = some q })
      sent-size p n has missing c q e =
          to_size p n has missing (count_of-IsSaved _ counts n c)
            (ap (λ x. record pool { properties = some x }) (with_count-some p q n e))

      Run-apply_counts :
          (min max count : Option ℤ) {h : History}
          → count_of "MinCount" counts ≡ min
          → count_of "MaxCount" counts ≡ max
          → count_of "Count" counts ≡ count
          → Recorded h
          → Run K Anything h (apply_counts services pool name min max count h)
      unfolding apply_counts
      Run-apply_counts (some min) (some max) count l u c r =
          Run-bind {M = λ p g. pool.properties ≡ some p} _ _ (Run-deref pool.properties (λ p e. e))
            (λ p g grown has.
              Run-apply_change (with_range p min max) (sent-range p min max has l u)
                (Grows-Recorded grown r))
      Run-apply_counts none max (some n) l u c r =
          Run-bind {M = λ p g. pool.properties ≡ some p} _ _ (Run-deref pool.properties (λ p e. e))
            (λ p g grown has.
              Run-apply_change (with_count p n)
                (sent-size p n has (inl (count_of-none _ counts l)) c) (Grows-Recorded grown r))
      Run-apply_counts (some min) none (some n) l u c r =
          Run-bind {M = λ p g. pool.properties ≡ some p} _ _ (Run-deref pool.properties (λ p e. e))
            (λ p g grown has.
              Run-apply_change (with_count p n)
                (sent-size p n has (inr (count_of-none _ counts u)) c) (Grows-Recorded grown r))
      Run-apply_counts none max none l u c r =
          Run-send_scaling pool.properties
            (as_it_was (inl (count_of-none _ counts l)) (count_of-none _ counts c) refl) r
      Run-apply_counts (some min) none none l u c r =
          Run-send_scaling pool.properties
            (as_it_was (inr (count_of-none _ counts u)) (count_of-none _ counts c) refl) r

    Run-restore_scaling :
        {h : History} → Recorded h → Run K Anything h (restore_scaling services pool text h)
    unfolding restore_scaling
    Run-restore_scaling r =
        Run-bind {M = λ name g. pool.name ≡ some name} _ _ (Run-deref pool.name (λ name e. e))
          (λ name g grown e.
            Run-bind {M = λ counts g. unmarshal_counts text ≡ some counts} _ _
              (Run-on_error _ _ (
                Run-consult _
                  (λ counts said. unmarshalled-some _ (unmarshal_counts text) counts said)))
              (λ counts g' grown' decodes.
                Run-apply_counts name e counts decodes _ _ _ refl refl refl
                  (Grows-Recorded (Grows-trans grown grown') r)))

    Run-set_ready_scaling :
        (o : Option PoolProperties) {h : History}
        → Recorded h
        → Run K Anything h (set_ready_scaling services pool text o h)
    unfolding set_ready_scaling still_updating
    Run-set_ready_scaling none r = Run-restore_scaling r
    Run-set_ready_scaling (some p) r =
        Run-if (is_set p.mode) _ _
          (λ set.
            Run-bind {M = Anything} _ _ (Run-deref p.provisioning_state (λ a e. tt))
              (λ state g grown u.
                Run-if (state != "Succeeded") _ _
                  (λ busy.
                    Run-bind {M = Anything} _ _ (Run-deref pool.name (λ a e. tt))
                      (λ name g' grown' u'. Run-throw _))
                  (λ ready. Run-restore_scaling (Grows-Recorded grown r))))
          (λ unset. Run-restore_scaling r)

  pub Run-set_default_scaling :
      (key text : String) (pool : AgentPool) {h : History}
      → GotPool key pool h
      → ReadEntry namespace se key text h
      → Run K Anything h (set_default_scaling services pool text h)
  unfolding set_default_scaling Recorded
  Run-set_default_scaling key text pool got entry =
      Run-set_ready_scaling key text pool pool.properties (got, entry)
