-- ===== src/Nodepool/Conflict.antt =====
-- internal/nodepool/nodepool_controller.go: the loop of `DisableAutoScaling` and a conflict.
use node_updater.Base.{
  String, ◌≡◌, refl, Bool, true, false, some, ◌∷◌, if◌then◌else◌, arith, ◌!=◌, Bool-cases, inl, inr,
}
use node_updater.World.{
  Services, History, Reply, put_pool, deref, call, ◌>>=◌, attempt, pure, throw, answered, failed,
  ok, continue, Outcome, err,
}
use node_updater.Cluster.{PoolProperties, AgentPool, Error, client}
use node_updater.Nodepool.Scaling.{
  disable_pool, disable_pools, disable_properties, send_disabled, disable_ready,
  without_auto_scaling, conflict_ends, is_system, is_set, is_conflict,
}
use node_updater.World.Calls.{put_pool_call}
use node_updater.Base.Dict.{Dict}
use node_updater.Nodepool.{about}

module _ (services : Services) (name : String) (p : PoolProperties) where
  abbrev pool : AgentPool
  pool = record { name = some name; properties = some p }

  abbrev pub answer : History → Reply (Unit {0})
  answer h = services.put_pool h name (without_auto_scaling pool p)

  abbrev pub next : History → History
  next h = put_pool name (without_auto_scaling pool p) (answer h) ∷ h

  user_pool :
      (h : History)
      → is_system p.mode ≡ false
      → p.provisioning_state ≡ some "Succeeded"
      → disable_pool services pool h ≡ send_disabled services pool p h
  unfolding disable_pool disable_properties disable_ready deref ◌>>=◌ pure
  user_pool h user ready = simp (user, ready) (go (is_set p.mode))
    where
      go :
          (b : Bool)
          → (if b
                then (deref (some "Succeeded") >>= λ state.
                    if state != "Succeeded"
                    then (deref (some name) >>= λ own. pure true)
                    else send_disabled services pool p)
                else send_disabled services pool p)
              h
            ≡ send_disabled services pool p h
      go true = ground arith
      go false = refl

  -- Whether the loop goes on.
  abbrev verdict : Reply (Unit {0}) → Outcome Error Bool
  verdict (answered u) = ok true
  verdict (failed x) =
      if is_conflict (client x)
      then ok false
      else err (about "failed to update autoscaling for agent pool '" name "': " (client x))

  send_disabled_lem : (h : History) → send_disabled services pool p h ≡ (verdict (answer h), next h)
  unfolding send_disabled conflict_ends put_pool_call call attempt deref pure throw ◌>>=◌
  send_disabled_lem h = ground arith

  -- The rest of the loop, given Azure's answer.
  abbrev pub after :
      Dict AgentPool → History → Reply (Unit {0}) → Outcome Error (Unit {0}) × History
  after pools h (answered u) = disable_pools services pools h
  after pools h (failed x) =
      if is_conflict (client x)
      then (ok tt, h)
      else (err (about "failed to update autoscaling for agent pool '" name "': " (client x)), h)

  -- What the loop of `DisableAutoScaling` does at a user pool that is ready: where Azure takes the
  -- pool, it goes on with the others; at the status 409 it is over and reports success, so that the
  -- others are not even tried; at any other failure it ends with an error.
  pub disable_pools-conflict :
      (key : String) (pools : Dict AgentPool) (h : History)
      → is_system p.mode ≡ false
      → p.provisioning_state ≡ some "Succeeded"
      → disable_pools services ((key, pool) ∷ pools) h ≡ after pools (next h) (answer h)
  unfolding disable_pools pure ◌>>=◌
  disable_pools-conflict key pools h user ready =
      simp (user_pool h user ready, send_disabled_lem h) (go (answer h) (next h))
    where
      go :
          (r : Reply (Unit {0})) (g : History)
          → continue
              (verdict r)
              (λ go_on. if go_on then disable_pools services pools else pure tt)
              g
            ≡ after pools g r
      go (answered u) g = refl
      go (failed x) g = elim (Bool-cases (is_conflict (client x))) [
        | inl conflict ↦ rw conflict refl
        | inr other ↦ rw other refl
      ]
