-- ===== src/DeepCopy/Items.antt =====
-- The loop over the elements of a list: each copy lies in blocks behind those of the elements
-- before it, and the block of the elements has them all in the end.
use mathlib.Core.List.{append-nil, append_assoc}
use node_updater.Base.{
  ℕ, List, ◌<◌, ◌≡◌, some, ◌+◌, ◌≤◌, ◌++◌, ◌∷◌, [], ◌∙◌, arith, ap, subst, sym, refl,
}
use node_updater.DeepCopy.{Copier, copy_elements, zeroes, copy_evict}
use node_updater.DeepCopy.Shows.{IsDeep, EvictView, ShowsEach, ShowsEvict, ShowsEvict-stays}
use node_updater.DeepCopy.Blocks.{
  Memory, Mem, Block, written, StoredEvict, pure, elements, store, ◌>>=◌,
}
use node_updater.DeepCopy.Made.{SameWithin, Makes, IsMemory, Extends, SameBelow}
use node_updater.DeepCopy.Spec.{Makes-copy_evict}

module _ {Meta V : Type 0} (order : ℕ → ℕ → ℕ) (object_meta : Copier Meta Meta V) where
  -- The loop returns without a fault, writes to the block `q` and to free ones only, and the elements
  -- it leaves at `q` show `vs` in any memory with the same blocks behind `q`.
  pub record Fills (q : ℕ) (m : Mem Meta (Unit {0})) (h : Memory Meta) (vs : List (EvictView V))
      : Type 0 where
    pub outs : List (StoredEvict Meta)
    pub after : Memory Meta
    pub runs : m h ≡ some (tt, after)
    pub sound : IsMemory after
    pub grows : h.next ≤ after.next
    pub keeps : SameBelow q h after
    pub holds : after.cell q ≡ some (elements outs)
    pub owns :
        (g : Memory Meta) → SameWithin (q + 1) after.next after g → ShowsEach object_meta g outs vs

  -- What the elements before show, in any memory with the same blocks behind `q`.
  abbrev Behind : ℕ → Memory Meta → List (StoredEvict Meta) → List (EvictView V) → Type 0
  Behind q h before us =
      (g : Memory Meta) → SameWithin (q + 1) h.next h g → ShowsEach object_meta g before us

  ShowsEach-snoc :
      (g : Memory Meta) (es : List (StoredEvict Meta)) (us : List (EvictView V))
      (e : StoredEvict Meta) (u : EvictView V)
      → ShowsEach object_meta g es us
      → ShowsEvict object_meta g e u
      → ShowsEach object_meta g (es ++ e ∷ []) (us ++ u ∷ [])
  ShowsEach-snoc g [] [] e u each last = (last, tt)
  ShowsEach-snoc g (x ∷ es) (v ∷ us) e u each last =
      (each.0, ShowsEach-snoc g es us e u each.1 last)
  ShowsEach-snoc g [] (v ∷ us) e u each last = elim each [ ]
  ShowsEach-snoc g (x ∷ es) [] e u each last = elim each [ ]

  -- The memory once an element has been written.
  abbrev with_block : ℕ → Block Meta → Memory Meta → Memory Meta
  with_block q b h = record h { cell = written h.cell q b }

  IsMemory-with_block :
      {q : ℕ} {h : Memory Meta} (b : Block Meta)
      → q < h.next
      → IsMemory h
      → IsMemory (with_block q b h)
  IsMemory-with_block b lt good = record { free = λ p le. let old = good.free p le in ground arith }

  Behind-snoc :
      {q : ℕ} {h : Memory Meta} (before : List (StoredEvict Meta)) (us : List (EvictView V))
      (e : StoredEvict Meta) (v : EvictView V) (b : Block Meta)
      → q < h.next
      → Behind q h before us
      → (made : Makes h.next
          (copy_evict order object_meta e)
          h
          (λ o g. ShowsEvict object_meta g o v))
      → Behind q (with_block q b made.after) (before ++ made.result ∷ []) (us ++ v ∷ [])
  Behind-snoc {q} before us e v b lt behind made g same =
      let moved : SameWithin (q + 1) made.after.next made.after g =
        λ p lo hi. same p lo hi ∙ ground arith in
      ShowsEach-snoc g before us made.result v
        (behind g (λ p lo hi. moved p lo (omega (arith, made.grows)) ∙ made.keeps p hi))
        (made.owns g (λ p lo hi. moved p (omega arith) hi))

  module _ (deep : IsDeep object_meta) where
    pub Fills-copy_elements :
        {q : ℕ} {h0 : Memory Meta} (es before : List (StoredEvict Meta))
        (us vs : List (EvictView V)) {h : Memory Meta}
        → h0.next ≡ q
        → q < h.next
        → IsMemory h
        → Extends h0 h
        → h.cell q ≡ some (elements (before ++ zeroes object_meta.zero_value es))
        → Behind q h before us
        → ShowsEach object_meta h0 es vs
        → Fills q (copy_elements order object_meta q before es) h (us ++ vs)
    unfolding copy_elements zeroes pure store ◌>>=◌
    Fills-copy_elements {q} [] before us [] {h} at lt good more holds behind each = record {
      outs = before;
      after = h;
      runs = refl;
      sound = good;
      grows = omega arith;
      keeps = λ p below. refl;
      holds = holds ∙ ap (λ es. some (elements es)) (append-nil before);
      owns = λ g same. subst (ShowsEach object_meta g before) (sym (append-nil us)) (behind g same);
    }
    Fills-copy_elements {q} (e ∷ es) before us (v ∷ vs) {h} at lt good more holds behind each =
        let made =
          Makes-copy_evict order object_meta deep {e = e} {v = v} good
            (ShowsEvict-stays object_meta deep more each.0) in
        let new = made.result in
        let b = elements (before ++ new ∷ zeroes object_meta.zero_value es) in
        let kept : SameBelow q h (with_block q b made.after) =
          λ p below. let old = made.keeps p (omega arith) in ground arith in
        let rest =
          Fills-copy_elements es (before ++ new ∷ []) (us ++ v ∷ []) vs at
            (omega (arith, made.grows))
            (IsMemory-with_block b (omega (arith, made.grows)) made.sound)
            (record {
              good = more.good;
              same = λ p below. kept p (omega arith) ∙ more.same p below;
            })
            (ground arith
              ∙ ap (λ xs. some (elements xs))
                  (sym (append_assoc before (new ∷ []) (zeroes object_meta.zero_value es))))
            (Behind-snoc before us e v b lt behind made) each.1 in
        record {
          outs = rest.outs;
          after = rest.after;
          runs = simp made.runs rest.runs;
          sound = rest.sound;
          grows = omega (arith, made.grows, rest.grows);
          keeps = λ p below. rest.keeps p below ∙ kept p below;
          holds = rest.holds;
          owns = λ g same.
              subst (ShowsEach object_meta g rest.outs) (append_assoc us (v ∷ []) vs)
                (rest.owns g same);
        }
    Fills-copy_elements [] before us (v ∷ vs) at lt good more holds behind each = elim each [ ]
    Fills-copy_elements (e ∷ es) before us [] at lt good more holds behind each = elim each [ ]
