-- ===== src/Nodepool/Settings.antt =====
-- internal/nodepool/nodepool_controller.go: what `DisableAutoScaling` and `SetDefaultScaling` send,
-- for pools that are ready.
use node_updater.Base.{
  String, ◌≡◌, refl, Bool, true, false, ◌&&◌, Option, none, some, ◌∷◌, if◌then◌else◌, arith, ◌!=◌,
  ◌⊎◌, inl, inr, ◌∙◌, ap,
}
use node_updater.World.{
  Reply, Services, Outcome, History, answered, ok, put_pool, failed, deref, err, on_error, consult,
  ◌>>=◌, Exec, call, attempt, pure, throw,
}
use node_updater.Cluster.{PoolProperties, AgentPool, Error, client}
use node_updater.Base.Dict.{Dict}
use node_updater.Base.Int.{ℤ, ◌=ℤ◌, pos, negsuc}
use node_updater.Nodepool.Scaling.{
  set_default_scaling, set_ready_scaling, restore_scaling, is_conflict, apply_counts, count_of,
  send_scaling, still_updating, conflict_is_done, is_set, apply_change, with_range, with_count,
  has_count, has_scaling,
}
use node_updater.Nodepool.{about}
use node_updater.World.Calls.{put_pool_call}
use node_updater.Base.Json.{unmarshal_counts}

abbrev pub named : String → PoolProperties → AgentPool
named name p = record { name = some name; properties = some p }

=ℤ-refl : (z : ℤ) → (z =ℤ z) ≡ true
=ℤ-refl (pos n) = ground arith
=ℤ-refl (negsuc n) = ground arith

=ℤ-≡ : (y z : ℤ) → (y =ℤ z) ≡ true → y ≡ z
=ℤ-≡ (pos n) (pos m) e = ground arith
=ℤ-≡ (pos n) (negsuc m) e = ground arith
=ℤ-≡ (negsuc n) (pos m) e = ground arith
=ℤ-≡ (negsuc n) (negsuc m) e = ground arith

has_count-≡ : (o : Option ℤ) (n : ℤ) → has_count o n ≡ true → o ≡ some n
has_count-≡ none n e = ground arith
has_count-≡ (some m) n e = ap some (=ℤ-≡ m n e)

has_scaling-≡ : (o : Option Bool) (b : Bool) → has_scaling o b ≡ true → o ≡ some b
has_scaling-≡ none b e = ground arith
has_scaling-≡ (some c) b e = ground arith

abbrev pub HasRange : PoolProperties → ℤ → ℤ → Type 0
HasRange p lo hi =
    (p.min_count ≡ some lo) × (p.max_count ≡ some hi) × (p.enable_auto_scaling ≡ some true)

abbrev pub HasSize : PoolProperties → ℤ → Type 0
HasSize p n = (p.count ≡ some n) × (p.enable_auto_scaling ≡ some false)

HasRange-test :
    (p : PoolProperties) (lo hi : ℤ)
    → (has_scaling p.enable_auto_scaling true
        && (has_count p.min_count lo && has_count p.max_count hi))
      ≡ true
    → HasRange p lo hi
HasRange-test p lo hi e = (
  has_count-≡ p.min_count lo (ground arith),
  has_count-≡ p.max_count hi (ground arith),
  has_scaling-≡ p.enable_auto_scaling true (ground arith),
)

HasSize-test :
    (p : PoolProperties) (n : ℤ)
    → (has_scaling p.enable_auto_scaling false && has_count p.count n) ≡ true
    → HasSize p n
HasSize-test p n e =
    (has_count-≡ p.count n (ground arith), has_scaling-≡ p.enable_auto_scaling false (ground arith))

-- The answer 409 counts as success; any other failure is quoted.
abbrev pub sent_result : String → Reply (Unit {0}) → Outcome Error (Unit {0})
sent_result name (answered u) = ok tt
sent_result name (failed x) =
    if is_conflict (client x)
    then ok tt
    else err (about "failed to update scaling for node pool '" name "': " (client x))

abbrev pub in_range : PoolProperties → ℤ → ℤ → PoolProperties
in_range p lo hi = record p {
  min_count = some lo;
  max_count = some hi;
  enable_auto_scaling = some true;
}

abbrev pub of_size : PoolProperties → ℤ → PoolProperties
of_size p n = record p { count = some n; enable_auto_scaling = some false }

-- What is done to bring the pool to the target.
abbrev pub Sends :
    Services → String → AgentPool → History → Outcome Error (Unit {0}) × History → Type 0
Sends services name target h o =
    let r = services.put_pool h name target in o ≡ (sent_result name r, put_pool name target r ∷ h)

-- Nothing is sent where the pool has the settings.
abbrev pub Restored :
    Services
    → String
    → Type 0
    → PoolProperties
    → History
    → Outcome Error (Unit {0}) × History
    → Type 0
Restored services name Has q h o = (Has × (o ≡ (ok tt, h))) ⊎ Sends services name (named name q) h o

module _ (services : Services) (name text : String) (p : PoolProperties) (counts : Dict ℤ)
    (ready : p.provisioning_state ≡ some "Succeeded")
    (decodes : unmarshal_counts text ≡ some counts) where
  abbrev applied : PoolProperties → Exec Error (Unit {0})
  applied q =
      apply_counts services (named name q) name (count_of "MinCount" counts)
        (count_of "MaxCount" counts) (count_of "Count" counts)

  decoded :
      (q : PoolProperties) (h : History)
      → restore_scaling services (named name q) text h ≡ applied q h
  unfolding restore_scaling deref on_error consult ◌>>=◌
  decoded q h = rw decodes refl

  restored :
      (q : PoolProperties) (h : History)
      → q.provisioning_state ≡ some "Succeeded"
      → set_default_scaling services (named name q) text h ≡ applied q h
  unfolding set_default_scaling set_ready_scaling deref ◌>>=◌
  restored q h state = simp state (go (is_set q.mode))
    where
      go :
          (b : Bool)
          → (if b
                then (deref (some "Succeeded") >>= λ state.
                    if state != "Succeeded"
                    then still_updating (named name q) state
                    else restore_scaling services (named name q) text)
                else restore_scaling services (named name q) text)
              h
            ≡ applied q h
      go true = let d = decoded q h in ground arith
      go false = decoded q h

  sends :
      (q : PoolProperties) (h : History)
      → Sends services name (named name q) h (send_scaling services (named name p) name (some q) h)
  unfolding send_scaling conflict_is_done put_pool_call call attempt pure throw ◌>>=◌
  sends q h = ground arith

  change :
      {Has : Type 0} (b : Bool) (q : PoolProperties) (h : History)
      → (b ≡ true → Has)
      → Restored services name Has q h
          (apply_change services (named name p) name (if b then none else some q) h)
  unfolding apply_change pure
  change true q h has = inl (has refl, refl)
  change false q h has = inr (sends q h)

  range_applied :
      (lo hi : ℤ) (h : History)
      → count_of "MinCount" counts ≡ some lo
      → count_of "MaxCount" counts ≡ some hi
      → Restored services name (HasRange p lo hi) (in_range p lo hi) h (applied p h)
  unfolding apply_counts with_range deref ◌>>=◌
  range_applied lo hi h low high =
      simp (low, high) (change _ (in_range p lo hi) h (HasRange-test p lo hi))

  range_kept :
      (lo hi : ℤ) (h : History)
      → count_of "MinCount" counts ≡ some lo
      → count_of "MaxCount" counts ≡ some hi
      → applied (in_range p lo hi) h ≡ (ok tt, h)
  unfolding apply_counts apply_change with_range deref pure ◌>>=◌
  range_kept lo hi h low high = simp (low, high, =ℤ-refl lo, =ℤ-refl hi) refl

  size_applied :
      (n : ℤ) (h : History)
      → count_of "MinCount" counts ≡ none
      → count_of "Count" counts ≡ some n
      → Restored services name (HasSize p n) (of_size p n) h (applied p h)
  unfolding apply_counts with_count deref ◌>>=◌
  size_applied n h low size = simp (low, size) (change _ (of_size p n) h (HasSize-test p n))

  size_kept :
      (n : ℤ) (h : History)
      → count_of "MinCount" counts ≡ none
      → count_of "Count" counts ≡ some n
      → applied (of_size p n) h ≡ (ok tt, h)
  unfolding apply_counts apply_change with_count deref pure ◌>>=◌
  size_kept n h low size = simp (low, size, =ℤ-refl n) refl

  -- For a pool that is ready and a saved text that holds a range, `SetDefaultScaling` sends the pool
  -- with that range and autoscaling on and no other change, or it sends nothing, and then the pool
  -- has all of that already. For the pool as it was sent it sends nothing, so that repeated runs
  -- come to rest.
  pub set_default_scaling-range :
      (lo hi : ℤ) (h : History)
      → count_of "MinCount" counts ≡ some lo
      → count_of "MaxCount" counts ≡ some hi
      → Restored services name
          (HasRange p lo hi)
          (in_range p lo hi)
          h
          (set_default_scaling services (named name p) text h)
        × (set_default_scaling services (named name (in_range p lo hi)) text h ≡ (ok tt, h))
  set_default_scaling-range lo hi h low high = (
    simp (restored p h ready) (range_applied lo hi h low high),
    restored (in_range p lo hi) h ready ∙ range_kept lo hi h low high,
  )

  -- For a pool that is ready and a saved text that holds a count and no range, `SetDefaultScaling`
  -- sends the pool with that count and autoscaling off and no other change, or it sends nothing, and
  -- then the pool has all of that already. For the pool as it was sent it sends nothing.
  pub set_default_scaling-size :
      (n : ℤ) (h : History)
      → count_of "MinCount" counts ≡ none
      → count_of "Count" counts ≡ some n
      → Restored services name
          (HasSize p n)
          (of_size p n)
          h
          (set_default_scaling services (named name p) text h)
        × (set_default_scaling services (named name (of_size p n)) text h ≡ (ok tt, h))
  set_default_scaling-size n h low size = (
    simp (restored p h ready) (size_applied n h low size),
    restored (of_size p n) h ready ∙ size_kept n h low size,
  )
