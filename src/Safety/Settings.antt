-- ===== src/Safety/Settings.antt =====
-- The settings that are restored, as the config map and the pool that was read give them.
use node_updater.Base.{none, some, arith, refl, String, Option, ◌≡◌, false, true, ◌≢◌}
use node_updater.Base.Dict.{lookup, Dict}
use node_updater.Base.Int.{to_int32, ℤ}
use node_updater.Safety.Policy.{IsSaved}
use node_updater.Nodepool.Scaling.{unmarshalled, with_count, with_range, count_of, is_system}
use node_updater.World.{answered}
use node_updater.Cluster.{system, AgentPoolMode, PoolProperties}

pub user-mode : (m : Option AgentPoolMode) → is_system m ≡ false → m ≢ some system
user-mode m e is = ground arith

-- What is saved at a key.
pub count_of-IsSaved :
    (key : String) (counts : Dict ℤ) (n : ℤ) → count_of key counts ≡ some n → IsSaved key counts n
unfolding count_of
count_of-IsSaved key counts n = go (lookup key counts)
  where
    go :
        (o : Option ℤ)
        → elim o [ none ↦ none | some z ↦ some (to_int32 z) ] ≡ some n
        → (z : ℤ) × (o ≡ some z) × (n ≡ to_int32 z)
    go none e = absurd (ground arith)
    go (some z) e = (z, refl, ground arith)

pub unmarshalled-some :
    (text : String) (o : Option (Dict ℤ)) (counts : Dict ℤ)
    → unmarshalled text o ≡ answered counts
    → o ≡ some counts
unmarshalled-some text o counts e = ground arith

pub count_of-none :
    (key : String) (counts : Dict ℤ) → count_of key counts ≡ none → lookup key counts ≡ none
unfolding count_of
count_of-none key counts e = ground arith

pub with_range-some :
    (p q : PoolProperties) (lo hi : ℤ)
    → with_range p lo hi ≡ some q
    → q ≡ record p { min_count = some lo; max_count = some hi; enable_auto_scaling = some true }
unfolding with_range
with_range-some p q lo hi e = ground arith

pub with_count-some :
    (p q : PoolProperties) (n : ℤ)
    → with_count p n ≡ some q
    → q ≡ record p { count = some n; enable_auto_scaling = some false }
unfolding with_count
with_count-some p q n e = ground arith
