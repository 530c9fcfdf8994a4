-- ===== src/Safety/Saved.antt =====
-- What is saved survives the runs: over any number of runs, each of which may meet other answers,
-- the config map of a resource is what it was, until it is deleted at the end of an upgrade.

use node_updater.Configmap.Store.{Store, stored, store_at}
use node_updater.Base.{String, ◌≡◌, ◌∷◌, ◌⊎◌, none, some, [], inl, inr, Option, arith, ◌∙◌, ap, sym}
use node_updater.World.Trace.{Policy, Obeys}
use node_updater.World.{created_config_map, History, answered, deleted_config_map, Services}
use node_updater.Cluster.{ConfigMap}
use node_updater.Safety.Guarantees.{ForgetsLast, run-ForgetsLast}
use node_updater.Controller.Defs.{SafeEvictReconciler}
use node_updater.Safety.Loop.{run}

-- The API server accepts the creation of a map only where none is stored, as documented.
abbrev pub Accepts : Store → Policy
Accepts s (created_config_map ns m (answered u)) h = stored s h ns m.name ≡ none
Accepts s _ h = Unit

-- Some event satisfies the policy, in view of those before it.
abbrev pub Once : Policy → History → Type 0
Once P [] = ⊥
Once P (e ∷ h) = P e h ⊎ Once P h

-- An entry is the one that was set, or as it was.
store_at-cases :
    (ns' key' : String) (o : Option ConfigMap) (s : Store) (ns key : String)
    → ((ns ≡ ns') × (key ≡ key') × (store_at ns' key' o s ns key ≡ o))
      ⊎ (store_at ns' key' o s ns key ≡ s ns key)
store_at-cases ns' key' o s ns key = ground arith

module _ (namespace name : String) where
  -- The map is deleted, for the reason that a run may have.
  abbrev pub Forgets : String → String → Policy
  Forgets ns key e h =
      (e ≡ deleted_config_map ns key (answered tt)) × ForgetsLast namespace name e h

  kept_over :
      (s : Store) (ns key : String) (m : ConfigMap) (h : History)
      → Obeys (Accepts s) h
      → Obeys (ForgetsLast namespace name) h
      → s ns key ≡ some m
      → (stored s h ns key ≡ some m) ⊎ Once (Forgets ns key) h
  unfolding stored
  kept_over s ns key m [] a f e = inl e
  kept_over s ns key m (created_config_map ns' m' (answered u) ∷ h) a f e =
      elim (kept_over s ns key m h a.1 f.1 e) [
        | inl k ↦ elim (store_at-cases ns' m'.name (some m') (stored s h) ns key) [
          | inl (p, q, _) ↦ let free = a.0 in cc
          | inr kept ↦ inl (kept ∙ k)
        ]
        | inr o ↦ inr (inr o)
      ]
  kept_over s ns key m (deleted_config_map ns' key' (answered u) ∷ h) a f e =
      elim (kept_over s ns key m h a.1 f.1 e) [
        | inl k ↦ elim (store_at-cases ns' key' none (stored s h) ns key) [
          | inl (p, q, _) ↦ inr (
              inl (
                ap (λ x. deleted_config_map x key' (answered u)) (sym p)
                    ∙ ap (λ x. deleted_config_map ns x (answered u)) (sym q),
                f.0,
              ))
          | inr kept ↦ inl (kept ∙ k)
        ]
        | inr o ↦ inr (inr o)
      ]
  kept_over s ns key m (_ ∷ h) a f e = elim (kept_over s ns key m h a.1 f.1 e) [
    | inl k ↦ inl k
    | inr o ↦ inr (inr o)
  ]

module _ (c : SafeEvictReconciler) (namespace name : String) where
  -- Runs one after the other, each with services of its own, and what they make of the store.
  pub data Runs (s : Store) : Store → Type 0 where
    started : Runs s s
    run_next :
        {t : Store} (services : Services)
        → Runs s t
        → Obeys (Accepts t) (run services c namespace name)
        → Runs s (stored t (run services c namespace name))

  -- One of the runs deleted the map, after Azure said that the temporary pool is missing, or accepted
  -- its deletion.
  abbrev pub Forgotten : String → String → {s t : Store} → Runs s t → Type 0
  Forgotten ns key started = ⊥
  Forgotten ns key (run_next services before a) =
      Forgotten ns key before ⊎ Once (Forgets namespace name ns key) (run services c namespace name)

  -- Over any sequence of runs, whatever the services answer in each, a config map that is stored at
  -- the beginning is stored unchanged at the end, or one of the runs deleted it after Azure said in
  -- that run that the temporary pool is missing or accepted its deletion. The API server is to
  -- accept the creation of a map only where none is stored.
  pub Runs-kept :
      (ns key : String) (m : ConfigMap) {s t : Store} (runs : Runs s t)
      → s ns key ≡ some m
      → (t ns key ≡ some m) ⊎ Forgotten ns key runs
  Runs-kept ns key m started e = inl e
  Runs-kept ns key m (run_next services before a) e = elim (Runs-kept ns key m before e) [
    | inl k ↦
        elim (kept_over namespace name _ ns key m _ a (run-ForgetsLast services c namespace name)
          k) [ inl k' ↦ inl k' | inr o ↦ inr (inr o) ]
    | inr o ↦ inr (inl o)
  ]
