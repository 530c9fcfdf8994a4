-- ===== src/DeepCopy/Spec.antt =====
-- `DeepCopyInto` of a spec and of a resource: the copy shows what the original shows, in new blocks.
use node_updater.Base.{Option, ℕ, ◌≡◌, subst, sym, refl}
use node_updater.DeepCopy.Blocks.{StoredSpec, Memory, StoredEvict}
use node_updater.DeepCopy.{Copier, copy_spec, copy_evict}
use node_updater.DeepCopy.Shows.{
  SpecView, IsDeep, ShowsSpec, EvictView, ShowsEvict, ShowsSpec-stays,
}
use node_updater.DeepCopy.Parts.{ShowsStrings, ShowsLabels, Makes-copy_labels, Makes-copy_strings}
use node_updater.DeepCopy.Made.{IsMemory, Makes, Makes-bind, Makes-pure}

-- The spec with the copied fields.
abbrev built : StoredSpec → Option ℕ → Option ℕ → Option ℕ → Option ℕ → StoredSpec
built spec selector lines pools spaces = record spec {
  label_selector = selector;
  last_log_lines = lines;
  nodepools = pools;
  namespaces = spaces;
}

module _ {Meta : Type 0} (order : ℕ → ℕ → ℕ) where
  abbrev SpacesCopied :
      StoredSpec → SpecView → Option ℕ → Option ℕ → Option ℕ → StoredSpec → Memory Meta → Type 0
  SpacesCopied spec v selector lines pools out g =
      (spaces : Option ℕ) × ShowsStrings g spaces v.namespaces
      × (out ≡ built spec selector lines pools spaces)

  abbrev PoolsCopied :
      StoredSpec → SpecView → Option ℕ → Option ℕ → StoredSpec → Memory Meta → Type 0
  PoolsCopied spec v selector lines out g =
      (pools : Option ℕ) × ShowsStrings g pools v.nodepools
      × SpacesCopied spec v selector lines pools out g

  abbrev LinesCopied : StoredSpec → SpecView → Option ℕ → StoredSpec → Memory Meta → Type 0
  LinesCopied spec v selector out g =
      (lines : Option ℕ) × ShowsStrings g lines v.last_log_lines
      × PoolsCopied spec v selector lines out g

  copied-ShowsSpec :
      (spec : StoredSpec) (v : SpecView) (selector : Option ℕ) (out : StoredSpec) (g : Memory Meta)
      → spec.base_for_backup_pool ≡ v.base_for_backup_pool
      → ShowsLabels g selector v.label_selector
      → LinesCopied spec v selector out g
      → ShowsSpec g out v
  copied-ShowsSpec spec v selector out g base s (lines, l, (pools, p, (spaces, n, e))) =
      subst (λ o. ShowsSpec g o v) (sym e)
        (record { selector = s; lines = l; pools = p; spaces = n; base = base })

  pub Makes-copy_spec :
      {h : Memory Meta} {spec : StoredSpec} {v : SpecView}
      → IsMemory h
      → ShowsSpec h spec v
      → Makes h.next (copy_spec order spec) h (λ b g. ShowsSpec g b v)
  unfolding copy_spec
  Makes-copy_spec {h} {spec} {v} good s =
      Makes-bind _ (λ selector out g. LinesCopied spec v selector out g) _ good
        (Makes-copy_labels order spec.label_selector v.label_selector good s.selector)
        (λ selector h1 good1 more1.
          let s1 = ShowsSpec-stays more1 s in
          Makes-bind _ (λ lines out g. PoolsCopied spec v selector lines out g) _ good1
            (Makes-copy_strings order spec.last_log_lines v.last_log_lines good1 s1.lines)
            (λ lines h2 good2 more2.
              let s2 = ShowsSpec-stays more2 s1 in
              Makes-bind _ (λ pools out g. SpacesCopied spec v selector lines pools out g) _ good2
                (Makes-copy_strings order spec.nodepools v.nodepools good2 s2.pools)
                (λ pools h3 good3 more3.
                  let s3 = ShowsSpec-stays more3 s2 in
                  Makes-bind _ (λ spaces out g. out ≡ built spec selector lines pools spaces) _
                    good3 (Makes-copy_strings order spec.namespaces v.namespaces good3 s3.spaces)
                    (λ spaces h4 good4 more4. Makes-pure _ good4 (λ g. refl))
                    (λ spaces out g n e. (spaces, n, e)))
                (λ pools out g p rest. (pools, p, rest)))
            (λ lines out g l rest. (lines, l, rest)))
        (λ selector out g first rest. copied-ShowsSpec spec v selector out g s.base first rest)

  module _ {V : Type 0} (object_meta : Copier Meta Meta V) (deep : IsDeep object_meta) where
    pub Makes-copy_evict :
        {h : Memory Meta} {e : StoredEvict Meta} {v : EvictView V}
        → IsMemory h
        → ShowsEvict object_meta h e v
        → Makes h.next (copy_evict order object_meta e) h (λ b g. ShowsEvict object_meta g b v)
    unfolding copy_evict
    Makes-copy_evict {h} {e} {v} good s =
        Makes-bind _
          (λ meta out g.
            (spec : StoredSpec) × ShowsSpec g spec v.spec
            × (out ≡ record e { object_meta = meta; spec = spec }))
          _ good (deep.copies good s.meta)
          (λ meta h1 good1 more1.
            let s1 = ShowsSpec-stays more1 s.spec in
            Makes-bind _ (λ spec out g. out ≡ record e { object_meta = meta; spec = spec }) _ good1
              (Makes-copy_spec good1 s1) (λ spec h2 good2 more2. Makes-pure _ good2 (λ g. refl))
              (λ spec out g n r. (spec, n, r)))
          (λ meta out g first (spec, n, r).
            subst (λ o. ShowsEvict object_meta g o v) (sym r)
              (record { kinds = s.kinds; meta = first; spec = n }))
