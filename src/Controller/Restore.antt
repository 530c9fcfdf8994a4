-- ===== src/Controller/Restore.antt =====
-- internal/controller/safeevict_controller.go and internal/nodepool/nodepool_controller.go: what
-- `Reconcile` saves of a pool, `SetDefaultScaling` restores.
use node_updater.Base.{String, ◌<>◌, ◌≡◌, refl, ap, some, none, [], ◌∷◌, arith, string_dec}
use node_updater.Base.Int.{ℤ, IsInt32, pos, negsuc, to_int32_lem}
use node_updater.Base.Json.{unmarshal_counts, start, result, run, step}
use node_updater.Controller.Defs.{range_text, count_text}
use node_updater.Base.Json.Printed.{IsInt64, run-entry_end, run-entry_comma}
use node_updater.Base.Decimal.{itoa}
use node_updater.Base.Dict.{insert, lookup}
use node_updater.Nodepool.Scaling.{count_of, set_default_scaling}
use node_updater.World.{Services, History, ok}
use node_updater.Cluster.{PoolProperties}
use node_updater.Controller.Stages.{scaling_text}
use node_updater.Nodepool.Settings.{
  named, Restored, HasSize, HasRange, of_size, in_range, set_default_scaling-range,
  set_default_scaling-size,
}
use node_updater.Controller.Texts.{scaling_text_lem}

IsInt32-IsInt64 : (z : ℤ) → IsInt32 z → IsInt64 z
IsInt32-IsInt64 (pos n) h = omega arith
IsInt32-IsInt64 (negsuc n) h = omega arith

unmarshal-count_text :
    (n : ℤ) → IsInt32 n → unmarshal_counts (count_text n) ≡ some (("Count", n) ∷ [])
unfolding unmarshal_counts result run step insert
unmarshal-count_text n small =
    ap result (run-entry_end start "{\"Count\": " [] "Count" n refl (IsInt32-IsInt64 n small))

unmarshal-range_text :
    (lo hi : ℤ)
    → IsInt32 lo
    → IsInt32 hi
    → unmarshal_counts (range_text lo hi) ≡ some (("MinCount", lo) ∷ ("MaxCount", hi) ∷ [])
unfolding unmarshal_counts result run step insert string_dec
unmarshal-range_text lo hi l h =
    let leads =
      run-entry_comma start "{\"MinCount\": " [] "MinCount" lo refl (IsInt32-IsInt64 lo l)
        " \"MaxCount\": " in
    ap result (
      run-entry_end start (("{\"MinCount\": " <> itoa lo) <> ", \"MaxCount\": ")
        (("MinCount", lo) ∷ []) "MaxCount" hi leads (IsInt32-IsInt64 hi h))

-- What `Reconcile` saves of a pool with a range, `SetDefaultScaling` restores in the pool of that
-- name, whatever has become of its scaling: it sends the range with autoscaling on and changes
-- nothing else, or the pool has all of that already.
pub scaling_text-restore_range :
    (services : Services) (name : String) (saved p : PoolProperties) (lo hi : ℤ) (g h : History)
    → saved.min_count ≡ some lo
    → saved.max_count ≡ some hi
    → IsInt32 lo
    → IsInt32 hi
    → p.provisioning_state ≡ some "Succeeded"
    → (text : String) × (scaling_text (named name saved) g ≡ (ok text, g))
      × Restored services name
          (HasRange p lo hi)
          (in_range p lo hi)
          h
          (set_default_scaling services (named name p) text h)
unfolding count_of lookup string_dec
scaling_text-restore_range services name saved p lo hi g h low high l u ready = (
  range_text lo hi,
  simp (scaling_text_lem (some name) saved g, low, high) refl,
  (set_default_scaling-range services name (range_text lo hi) p
      (("MinCount", lo) ∷ ("MaxCount", hi) ∷ []) ready (unmarshal-range_text lo hi l u) lo hi h
      (ap some (to_int32_lem lo l)) (ap some (to_int32_lem hi u))).0,
)

-- What `Reconcile` saves of a pool with a count and no range, `SetDefaultScaling` restores in the
-- pool of that name, whatever has become of its scaling: it sends the count with autoscaling off
-- and changes nothing else, or the pool has all of that already.
pub scaling_text-restore_size :
    (services : Services) (name : String) (saved p : PoolProperties) (n : ℤ) (g h : History)
    → saved.min_count ≡ none
    → saved.max_count ≡ none
    → saved.count ≡ some n
    → IsInt32 n
    → p.provisioning_state ≡ some "Succeeded"
    → (text : String) × (scaling_text (named name saved) g ≡ (ok text, g))
      × Restored services name
          (HasSize p n)
          (of_size p n)
          h
          (set_default_scaling services (named name p) text h)
unfolding count_of lookup string_dec
scaling_text-restore_size services name saved p n g h low high size small ready = (
  count_text n,
  simp (scaling_text_lem (some name) saved g, low, high, size) refl,
  (set_default_scaling-size services name (count_text n) p (("Count", n) ∷ []) ready
      (unmarshal-count_text n small) n h refl (ap some (to_int32_lem n small))).0,
)
