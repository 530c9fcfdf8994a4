-- ===== src/DeepCopy/Parts.antt =====
-- The slices and the maps of a spec: what they show, and that their copies show it too.
use node_updater.Base.{
  refl, none, some, Option, ℕ, ◌<◌, String, List, ◌≡◌, arith, ap, ◌∙◌, ◌+◌, shuffle, [],
}
use node_updater.DeepCopy.Fields.{IsGoMap, lookup-copy, IsGoMap-copy, copied-blanks}
use node_updater.DeepCopy.Blocks.{
  Memory, alloc, Block, store, written, as_strings, as_labels, pure, load, ◌>>=◌, ◌>>◌, labels, Mem,
}
use node_updater.DeepCopy.Made.{IsMemory, Makes, Makes-pure}
use node_updater.Base.Dict.{Dict, lookup}
use node_updater.DeepCopy.{copy_strings, copy_labels, entered}

module _ {Meta : Type 0} where
  -- The slice is nil, or has these strings.
  abbrev pub ShowsStrings : Memory Meta → Option ℕ → Option (List String) → Type 0
  ShowsStrings h none none = Unit
  ShowsStrings h (some p) (some xs) = as_strings (h.cell p) ≡ some xs
  ShowsStrings h none (some xs) = ⊥
  ShowsStrings h (some p) none = ⊥

  -- The map is nil, or has these values at its keys.
  abbrev pub ShowsLabels : Memory Meta → Option ℕ → Option (String → Option String) → Type 0
  ShowsLabels h none none = Unit
  ShowsLabels h (some p) (some f) =
      (m : Dict String) × (as_labels (h.cell p) ≡ some m)
      × IsGoMap m
      × ((k : String) → lookup k m ≡ f k)
  ShowsLabels h none (some f) = ⊥
  ShowsLabels h (some p) none = ⊥

  filled-free :
      (h : Memory Meta) (b c : Block Meta) (p : ℕ)
      → p < h.next
      → written (written h.cell h.next b) h.next c p ≡ h.cell p
  filled-free h b c p lt = ground arith

  Makes-filled :
      {h : Memory Meta} {Q : Option ℕ → Memory Meta → Type 0} (b : Block Meta) (c : ℕ → Block Meta)
      → IsMemory h
      → ((g : Memory Meta) → g.cell h.next ≡ some (c h.next) → Q (some h.next) g)
      → Makes h.next (alloc b >>= λ q. store q (c q) >> pure (some q)) h Q
  unfolding alloc store pure ◌>>=◌
  Makes-filled {h} b c good q = record {
    result = some h.next;
    after = record {
      next = h.next + 1;
      cell = written (written h.cell h.next b) h.next (c h.next);
    };
    runs = refl;
    sound = record { free = λ p lt. let old = good.free p (omega arith) in ground arith };
    grows = omega arith;
    keeps = λ p lt. filled-free h b (c h.next) p (omega arith);
    owns = λ g same. q g (same h.next (omega arith) (omega arith) ∙ ground arith);
  }

  pub Makes-alloc :
      {h : Memory Meta} {Q : ℕ → Memory Meta → Type 0} (b : Block Meta)
      → IsMemory h
      → ((g : Memory Meta) → g.cell h.next ≡ some b → Q h.next g)
      → Makes h.next (alloc b) h Q
  unfolding alloc
  Makes-alloc {h} b good q = record {
    result = h.next;
    after = record { next = h.next + 1; cell = written h.cell h.next b };
    runs = refl;
    sound = record { free = λ p lt. let old = good.free p (omega arith) in ground arith };
    grows = omega arith;
    keeps = λ p lt. ground arith;
    owns = λ g same. q g (same h.next (omega arith) (omega arith) ∙ ground arith);
  }

  -- After a load of what is there.
  pub Makes-load :
      {A B : Type 0} {h : Memory Meta} {Q : B → Memory Meta → Type 0}
      (view : Option (Block Meta) → Option A) (p : ℕ) (f : A → Mem Meta B) (a : A)
      → view (h.cell p) ≡ some a
      → Makes h.next (f a) h Q
      → Makes h.next (load view p >>= f) h Q
  unfolding load ◌>>=◌
  Makes-load view p f a e made = record {
    result = made.result;
    after = made.after;
    runs = simp e made.runs;
    sound = made.sound;
    grows = made.grows;
    keeps = made.keeps;
    owns = made.owns;
  }

  pub Makes-copy_strings :
      (order : ℕ → ℕ → ℕ) {h : Memory Meta} (a : Option ℕ) (v : Option (List String))
      → IsMemory h
      → ShowsStrings h a v
      → Makes h.next (copy_strings order a) h (λ b g. ShowsStrings g b v)
  unfolding copy_strings
  Makes-copy_strings order none none good s = Makes-pure none good (λ g. tt)
  Makes-copy_strings order (some p) (some xs) good s =
      Makes-load as_strings p _ xs s
        (Makes-filled _ _ good (λ g e. ap as_strings e ∙ ap some (copied-blanks xs)))
  Makes-copy_strings order none (some xs) good s = elim s [ ]
  Makes-copy_strings order (some p) none good s = elim s [ ]

  pub Makes-copy_labels :
      (order : ℕ → ℕ → ℕ) {h : Memory Meta} (a : Option ℕ) (v : Option (String → Option String))
      → IsMemory h
      → ShowsLabels h a v
      → Makes h.next (copy_labels order a) h (λ b g. ShowsLabels g b v)
  unfolding copy_labels
  Makes-copy_labels order none none good s = Makes-pure none good (λ g. tt)
  Makes-copy_labels order {h} (some p) (some f) good (m, at, distinct, looks) =
      Makes-load as_labels p _ m at (
        Makes-filled _ (λ q. labels (entered (shuffle (order q) m) [])) good
          (λ g e. (
            entered (shuffle (order h.next) m) [],
            ap as_labels e,
            IsGoMap-copy (order h.next) m,
            λ k. lookup-copy (order h.next) m distinct k ∙ looks k,
          )))
  Makes-copy_labels order none (some f) good s = elim s [ ]
  Makes-copy_labels order (some p) none good s = elim s [ ]
