-- ===== src/Controller/Texts.antt =====
-- internal/controller/safeevict_controller.go: the text that `Reconcile` saves for a pool.
use node_updater.Base.{String, ◌≡◌, Option, none, some, arith}
use node_updater.Base.Int.{ℤ}
use node_updater.Controller.Stages.{scaling_text}
use node_updater.World.{deref, Outcome, pure, ok, ◌>>=◌, panic, History}
use node_updater.Controller.Defs.{Reconciled, range_text, count_text}
use node_updater.Cluster.{PoolProperties}

-- A range needs both bounds; where there is just one, or neither and no count, a nil pointer is
-- dereferenced.
abbrev pub saved_text : Option ℤ → Option ℤ → Option ℤ → Outcome Reconciled String
saved_text (some lo) (some hi) count = ok (range_text lo hi)
saved_text (some lo) none count = panic
saved_text none (some hi) count = panic
saved_text none none (some n) = ok (count_text n)
saved_text none none none = panic

-- The text saved for a pool with properties is its range if both bounds are set, and its count if
-- neither is. With just one bound, or with nothing set, the run panics.
pub scaling_text_lem :
    (name : Option String) (p : PoolProperties) (h : History)
    → scaling_text (record { name = name; properties = some p }) h
      ≡ (saved_text p.min_count p.max_count p.count, h)
unfolding scaling_text deref pure ◌>>=◌
scaling_text_lem name p h = ground arith
