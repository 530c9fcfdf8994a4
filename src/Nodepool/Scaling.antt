-- ===== src/Nodepool/Scaling.antt =====
-- internal/nodepool/nodepool_controller.go: `DisableAutoScaling` and `SetDefaultScaling`.
-- Both write through the pointer to the pool's properties. No caller reads afterwards what they
-- wrote there, so the model hands the new properties to the call alone.
use node_updater.Base.{
  String, ◌<>◌, ◌!=◌, ◌=ℕ◌, Bool, false, true, not, ◌&&◌, Option, none, some, [], ◌∷◌,
  if◌then◌else◌,
}
use node_updater.Base.Dict.{Dict, lookup}
use node_updater.Base.Int.{ℤ, ◌=ℤ◌, to_int32}
use node_updater.Cluster.{
  Error, message, error_text, response_status, AgentPoolMode, system, user, gateway, AgentPool,
  PoolProperties,
}
use node_updater.World.{
  Services, Exec, pure, throw, on_error, Tried, returned, raised, attempt, deref, range, consult,
  ◌>>=◌, Reply, failed, answered,
}
use node_updater.World.Calls.{put_pool_call}
use node_updater.Nodepool.{about}
use node_updater.Base.Json.{unmarshal_counts}

abbrev pub is_conflict : Error → Bool
is_conflict e = elim (response_status e) [ none ↦ false | some status ↦ status =ℕ 409 ]

abbrev pub is_system : Option AgentPoolMode → Bool
is_system (some system) = true
is_system (some user) = false
is_system (some gateway) = false
is_system none = false

abbrev pub is_set : {A : Type 0} → Option A → Bool
is_set none = false
is_set (some a) = true

-- The pool that `DisableAutoScaling` sends.
unfoldable pub without_auto_scaling : AgentPool → PoolProperties → AgentPool
without_auto_scaling pool p = record pool {
  properties = some (record p { enable_auto_scaling = some false });
}

-- `scalingConfig["MinCount"]` and so on, converted to int32.
unfoldable pub count_of : String → Dict ℤ → Option ℤ
count_of key counts = elim (lookup key counts) [ none ↦ none | some n ↦ some (to_int32 n) ]

abbrev pub has_count : Option ℤ → ℤ → Bool
has_count none n = false
has_count (some m) n = m =ℤ n

abbrev pub has_scaling : Option Bool → Bool → Bool
has_scaling none enabled = false
has_scaling (some b) enabled = if enabled then b else not b

-- The properties that are to be sent for given settings, or `none` where the pool has them.
unfoldable pub with_range : PoolProperties → ℤ → ℤ → Option PoolProperties
with_range p min max =
    if has_scaling p.enable_auto_scaling true
      && (has_count p.min_count min && has_count p.max_count max)
    then none
    else some
        (record p { min_count = some min; max_count = some max; enable_auto_scaling = some true })

unfoldable pub with_count : PoolProperties → ℤ → Option PoolProperties
with_count p n =
    if has_scaling p.enable_auto_scaling false && has_count p.count n
    then none
    else some (record p { count = some n; enable_auto_scaling = some false })

-- What a round of the loop of `DisableAutoScaling` says of the loop: go on, or return nil.
unfoldable pub conflict_ends : String → {A : Type 0} → Tried A → Exec Error Bool
conflict_ends name (returned done) = pure true
conflict_ends name (raised e) =
    if is_conflict e
    then pure false
    else throw (about "failed to update autoscaling for agent pool '" name "': " e)

unfoldable pub conflict_is_done : String → {A : Type 0} → Tried A → Exec Error (Unit {0})
conflict_is_done name (returned done) = pure tt
conflict_is_done name (raised e) =
    if is_conflict e
    then pure tt
    else throw (about "failed to update scaling for node pool '" name "': " e)

unfoldable pub still_updating : AgentPool → String → Exec Error (Unit {0})
still_updating pool state = do
  name ← deref pool.name
  throw (
      message (
        ((("node pool '" <> name) <> "' is still updating with provisioning state '") <> state)
        <> "'"))

abbrev pub unmarshalled : String → Option (Dict ℤ) → Reply (Dict ℤ)
unmarshalled text none = failed (record { not_found = false; status_code = none; text = text })
unmarshalled text (some counts) = answered counts

-- `json.Unmarshal([]byte(scalingData), &scalingConfig)`
abbrev pub unmarshal : Services → String → Reply (Dict ℤ)
unmarshal services scaling_data =
    unmarshalled (services.json_error scaling_data) (unmarshal_counts scaling_data)

module _ (services : Services) where
  unfoldable pub send_disabled : AgentPool → PoolProperties → Exec Error Bool
  send_disabled pool p = do
    name ← deref pool.name
    result ← attempt (put_pool_call services name (without_auto_scaling pool p))
    conflict_ends name result

  -- The test on the state dereferences it where the mode is set.
  unfoldable pub disable_ready : AgentPool → PoolProperties → Exec Error Bool
  disable_ready pool p =
      if is_set p.mode
      then (do
        state ← deref p.provisioning_state
        if state != "Succeeded"
            then (do name ← deref pool.name; pure true)
            else send_disabled pool p)
      else send_disabled pool p

  unfoldable pub disable_properties : AgentPool → Option PoolProperties → Exec Error Bool
  disable_properties pool none = do
    name ← deref pool.name
    throw (message (("agent pool '" <> name) <> "' has no properties"))
  disable_properties pool (some p) =
      if is_system p.mode then (do name ← deref pool.name; pure true) else disable_ready pool p

  unfoldable pub disable_pool : AgentPool → Exec Error Bool
  disable_pool pool = disable_properties pool pool.properties

  unfoldable pub disable_pools : Dict AgentPool → Exec Error (Unit {0})
  disable_pools [] = pure tt
  disable_pools ((_, pool) ∷ pools) = do
    go_on ← disable_pool pool
    if go_on then disable_pools pools else pure tt

  unfoldable pub disable_auto_scaling : Dict AgentPool → Exec Error (Unit {0})
  disable_auto_scaling pools = do entries ← range services pools; disable_pools entries

  -- `BeginCreateOrUpdate` with the pool as it was changed.
  unfoldable pub send_scaling : AgentPool → String → Option PoolProperties → Exec Error (Unit {0})
  send_scaling pool name p = do
    result ← attempt (put_pool_call services name (record pool { properties = p }))
    conflict_is_done name result

  unfoldable pub apply_change : AgentPool → String → Option PoolProperties → Exec Error (Unit {0})
  apply_change pool name none = pure tt
  apply_change pool name (some p) = send_scaling pool name (some p)

  -- The ladder over `MinCount` and `MaxCount`, `Count`, or neither. Without either the pool is sent
  -- as it is.
  unfoldable pub apply_counts :
      AgentPool → String → Option ℤ → Option ℤ → Option ℤ → Exec Error (Unit {0})
  apply_counts pool name (some min) (some max) count = do
    p ← deref pool.properties
    apply_change pool name (with_range p min max)
  apply_counts pool name none max (some n) = do
    p ← deref pool.properties
    apply_change pool name (with_count p n)
  apply_counts pool name (some min) none (some n) = do
    p ← deref pool.properties
    apply_change pool name (with_count p n)
  apply_counts pool name none max none = send_scaling pool name pool.properties
  apply_counts pool name (some min) none none = send_scaling pool name pool.properties

  unfoldable pub restore_scaling : AgentPool → String → Exec Error (Unit {0})
  restore_scaling pool scaling_data = do
    name ← deref pool.name
    counts ←
        on_error (λ e. message ("failed to parse scalingData JSON: " <> error_text e))
          (consult (unmarshal services scaling_data))
    apply_counts pool name (count_of "MinCount" counts) (count_of "MaxCount" counts)
        (count_of "Count" counts)

  unfoldable pub set_ready_scaling :
      AgentPool → String → Option PoolProperties → Exec Error (Unit {0})
  set_ready_scaling pool scaling_data none = restore_scaling pool scaling_data
  set_ready_scaling pool scaling_data (some p) =
      if is_set p.mode
      then (do
        state ← deref p.provisioning_state
        if state != "Succeeded"
            then still_updating pool state
            else restore_scaling pool scaling_data)
      else restore_scaling pool scaling_data

  unfoldable pub set_default_scaling : AgentPool → String → Exec Error (Unit {0})
  set_default_scaling pool scaling_data = set_ready_scaling pool scaling_data pool.properties
