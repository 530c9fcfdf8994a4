-- ===== src/DeepCopy/Separate.antt =====
-- `DeepCopyObject` of a list: the original and the copy have no block in common.
use node_updater.Base.{none, Option, [], ℕ, ◌+◌, arith, List, some, ◌≡◌, subst, sym, refl, ◌∙◌, ap}
use node_updater.DeepCopy.{
  Copier, copy_list, deep_copy_list, deep_copy_list_object, object_of, evict_list, copy_items,
  zeroes,
}
use node_updater.DeepCopy.Shows.{
  IsDeep, ListView, ShowsList, EvictView, ShowsItems, ShowsItems-stays, ShowsList-stays,
}
use node_updater.DeepCopy.Blocks.{
  Memory, Block, StoredList, alloc, pure, written, ◌>>=◌, elements, as_elements,
}
use node_updater.DeepCopy.Made.{IsMemory, Makes, Makes-bind, SameBelow, SameWithin, Makes-pure}
use node_updater.DeepCopy.Items.{Fills-copy_elements}
use node_updater.DeepCopy.Parts.{Makes-load}

module _ {Meta V : Type 0} (order : ℕ → ℕ → ℕ) (object_meta : Copier Meta Meta V)
    (deep : IsDeep object_meta) where
  abbrev allocated : Block Meta → Memory Meta → Memory Meta
  allocated b h = record { next = h.next + 1; cell = written h.cell h.next b }

  IsMemory-allocated : {h : Memory Meta} (b : Block Meta) → IsMemory h → IsMemory (allocated b h)
  IsMemory-allocated b good = record {
    free = λ p le. let old = good.free p (omega arith) in ground arith;
  }

  Makes-copy_items :
      {h : Memory Meta} (a : Option ℕ) (v : Option (List (EvictView V)))
      → IsMemory h
      → ShowsItems object_meta h a v
      → Makes h.next (copy_items order object_meta a) h (λ b g. ShowsItems object_meta g b v)
  unfolding copy_items alloc pure ◌>>=◌
  Makes-copy_items none none good s = Makes-pure none good (λ g. tt)
  Makes-copy_items {h} (some p) (some vs) good (es, at, each) =
      let b = elements (zeroes object_meta.zero_value es) in
      let fresh : SameBelow h.next h (allocated b h) = λ p lt. ground arith in
      let fills =
        Fills-copy_elements order object_meta deep es [] [] vs {h = allocated b h} refl
          (omega arith) (IsMemory-allocated b good) (record { good = good; same = fresh })
          (ground arith) (λ g same. tt) each in
      Makes-load as_elements p _ es at (record {
        result = some h.next;
        after = fills.after;
        runs = simp fills.runs;
        sound = fills.sound;
        grows = omega (arith, fills.grows);
        keeps = λ p lt. fills.keeps p lt ∙ fresh p lt;
        owns = λ g same. (
          fills.outs,
          ap as_elements (same h.next (omega arith) (omega (arith, fills.grows)) ∙ fills.holds),
          fills.owns g (λ p lo hi. same p (omega arith) hi),
        );
      })
  Makes-copy_items none (some vs) good s = elim s [ ]
  Makes-copy_items (some p) none good s = elim s [ ]

  module _ {ListMeta W : Type 0} (list_meta : Copier Meta ListMeta W)
      (list_deep : IsDeep list_meta) where
    Makes-copy_list :
        {h : Memory Meta} {l : StoredList ListMeta} {v : ListView V W}
        → IsMemory h
        → ShowsList object_meta list_meta h l v
        → Makes h.next
            (copy_list order object_meta list_meta l)
            h
            (λ b g. ShowsList object_meta list_meta g b v)
    unfolding copy_list
    Makes-copy_list {h} {l} {v} good s =
        Makes-bind _
          (λ meta out g.
            (items : Option ℕ) × ShowsItems object_meta g items v.items
            × (out ≡ record l { list_meta = meta; items = items }))
          _ good (list_deep.copies good s.meta)
          (λ meta h1 good1 more1.
            Makes-bind _ (λ items out g. out ≡ record l { list_meta = meta; items = items }) _ good1
              (Makes-copy_items l.items v.items good1
                (ShowsItems-stays object_meta deep l.items v.items more1 s.items))
              (λ items h2 good2 more2. Makes-pure _ good2 (λ g. refl))
              (λ items out g n r. (items, n, r)))
          (λ meta out g first (items, n, r).
            subst (λ o. ShowsList object_meta list_meta g o v) (sym r)
              (record { kinds = s.kinds; meta = first; items = n }))

    -- When the copying of the two kinds of metadata is deep and nothing lies at free addresses,
    -- `DeepCopyObject` of a list that shows `v` returns a list without a fault, and leaves all old
    -- blocks as they are. The original shows `v` in any memory with the same old blocks, and its copy
    -- shows `v` in any memory with the same new blocks, so that neither sees what is written to the
    -- blocks of the other.
    pub deep_copy_list_object_lem :
        (h : Memory Meta) (l : StoredList ListMeta) (v : ListView V W)
        → IsMemory h
        → ShowsList object_meta list_meta h l v
        → (out : StoredList ListMeta) × (after : Memory Meta) × (deep_copy_list_object order
              object_meta list_meta
              (some l)
              h
            ≡ some (some (evict_list out), after))
          × SameBelow h.next h after
          × ((g : Memory Meta) → SameBelow h.next h g → ShowsList object_meta list_meta g l v)
          × ((g : Memory Meta)
              → SameWithin h.next after.next after g
              → ShowsList object_meta list_meta g out v)
    unfolding deep_copy_list_object deep_copy_list object_of pure ◌>>=◌
    deep_copy_list_object_lem h l v good s =
        let made = Makes-copy_list good s in
        (
          made.result,
          made.after,
          simp made.runs,
          made.keeps,
          λ g same.
              ShowsList-stays object_meta deep list_meta list_deep
                (record { good = good; same = same }) s,
          made.owns,
        )
