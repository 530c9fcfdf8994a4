-- ===== src/DeepCopy/Shows.antt =====
-- What a spec, a resource and a list of resources show, and that it depends on the old blocks only.
use native.Mathlib.Decide.{dec_lt}
use node_updater.Base.{[], ◌∷◌, Option, ℕ, List, String, none, ◌≡◌, some, refl, ap, ◌∙◌, arith}
use node_updater.DeepCopy.Blocks.{
  Memory, TypeMeta, StoredEvict, StoredSpec, Block, StoredList, as_elements, as_labels, as_strings,
}
use node_updater.DeepCopy.{Copier}
use node_updater.DeepCopy.Made.{Extends, Makes, IsMemory}
use node_updater.DeepCopy.Parts.{ShowsLabels, ShowsStrings}

-- A spec without addresses.
pub record SpecView : Type 0 where
  pub label_selector : Option (String → Option String)
  pub last_log_lines : Option (List String)
  pub nodepools : Option (List String)
  pub namespaces : Option (List String)
  pub base_for_backup_pool : String

pub record EvictView (V : Type 0) : Type 0 where
  pub type_meta : TypeMeta
  pub object_meta : V
  pub spec : SpecView

pub record ListView (V W : Type 0) : Type 0 where
  pub type_meta : TypeMeta
  pub list_meta : W
  pub items : Option (List (EvictView V))

module _ {Meta : Type 0} where
  pub record ShowsSpec (h : Memory Meta) (s : StoredSpec) (v : SpecView) : Type 0 where
    pub selector : ShowsLabels h s.label_selector v.label_selector
    pub lines : ShowsStrings h s.last_log_lines v.last_log_lines
    pub pools : ShowsStrings h s.nodepools v.nodepools
    pub spaces : ShowsStrings h s.namespaces v.namespaces
    pub base : s.base_for_backup_pool ≡ v.base_for_backup_pool

  -- A block that is there is an old one.
  pub same_block :
      {A : Type 0} {h g : Memory Meta} (view : Option (Block Meta) → Option A) (p : ℕ) (a : A)
      → view none ≡ none
      → Extends h g
      → view (h.cell p) ≡ some a
      → view (g.cell p) ≡ some a
  same_block {h} {g} view p a nothing more at = elim (dec_lt p h.next) [
    | yes lt ↦ ap view (more.same p lt) ∙ at
    | no out ↦ let free = more.good.free p (omega arith) in ground arith
  ]

  ShowsStrings-stays :
      {h g : Memory Meta} (a : Option ℕ) (v : Option (List String))
      → Extends h g
      → ShowsStrings h a v
      → ShowsStrings g a v
  ShowsStrings-stays none none more s = tt
  ShowsStrings-stays (some p) (some xs) more s = same_block as_strings p xs refl more s
  ShowsStrings-stays none (some xs) more s = s
  ShowsStrings-stays (some p) none more s = s

  ShowsLabels-stays :
      {h g : Memory Meta} (a : Option ℕ) (v : Option (String → Option String))
      → Extends h g
      → ShowsLabels h a v
      → ShowsLabels g a v
  ShowsLabels-stays none none more s = tt
  ShowsLabels-stays (some p) (some f) more (m, at, distinct, looks) =
      (m, same_block as_labels p m refl more at, distinct, looks)
  ShowsLabels-stays none (some f) more s = s
  ShowsLabels-stays (some p) none more s = s

  pub ShowsSpec-stays :
      {h g : Memory Meta} {s : StoredSpec} {v : SpecView}
      → Extends h g
      → ShowsSpec h s v
      → ShowsSpec g s v
  ShowsSpec-stays {s} {v} more shows = record {
    selector = ShowsLabels-stays s.label_selector v.label_selector more shows.selector;
    lines = ShowsStrings-stays s.last_log_lines v.last_log_lines more shows.lines;
    pools = ShowsStrings-stays s.nodepools v.nodepools more shows.pools;
    spaces = ShowsStrings-stays s.namespaces v.namespaces more shows.spaces;
    base = shows.base;
  }

  -- The code that copies a part returns without a fault, and its copy lies in new blocks.
  pub record IsDeep {A V : Type 0} (c : Copier Meta A V) : Type 0 where
    pub stays : {h g : Memory Meta} {a : A} {v : V} → Extends h g → c.Shows h a v → c.Shows g a v
    pub copies :
        {h : Memory Meta} {a : A} {v : V}
        → IsMemory h
        → c.Shows h a v
        → Makes h.next (c.copy a) h (λ b g. c.Shows g b v)

  module _ {V : Type 0} (object_meta : Copier Meta Meta V) where
    pub record ShowsEvict (h : Memory Meta) (e : StoredEvict Meta) (v : EvictView V) : Type 0 where
      pub kinds : e.type_meta ≡ v.type_meta
      pub meta : object_meta.Shows h e.object_meta v.object_meta
      pub spec : ShowsSpec h e.spec v.spec

    abbrev pub ShowsEach : Memory Meta → List (StoredEvict Meta) → List (EvictView V) → Type 0
    ShowsEach h [] [] = Unit
    ShowsEach h (e ∷ es) (v ∷ vs) = ShowsEvict h e v × ShowsEach h es vs
    ShowsEach h [] (v ∷ vs) = ⊥
    ShowsEach h (e ∷ es) [] = ⊥

    abbrev pub ShowsItems : Memory Meta → Option ℕ → Option (List (EvictView V)) → Type 0
    ShowsItems h none none = Unit
    ShowsItems h (some p) (some vs) =
        (es : List (StoredEvict Meta)) × (as_elements (h.cell p) ≡ some es) × ShowsEach h es vs
    ShowsItems h none (some vs) = ⊥
    ShowsItems h (some p) none = ⊥

    module _ {ListMeta W : Type 0} (list_meta : Copier Meta ListMeta W) where
      pub record ShowsList (h : Memory Meta) (l : StoredList ListMeta) (v : ListView V W)
          : Type 0 where
        pub kinds : l.type_meta ≡ v.type_meta
        pub meta : list_meta.Shows h l.list_meta v.list_meta
        pub items : ShowsItems h l.items v.items

    module _ (deep : IsDeep object_meta) where
      pub ShowsEvict-stays :
          {h g : Memory Meta} {e : StoredEvict Meta} {v : EvictView V}
          → Extends h g
          → ShowsEvict h e v
          → ShowsEvict g e v
      ShowsEvict-stays more shows = record {
        kinds = shows.kinds;
        meta = deep.stays more shows.meta;
        spec = ShowsSpec-stays more shows.spec;
      }

      pub ShowsEach-stays :
          {h g : Memory Meta} (es : List (StoredEvict Meta)) (vs : List (EvictView V))
          → Extends h g
          → ShowsEach h es vs
          → ShowsEach g es vs
      ShowsEach-stays [] [] more s = tt
      ShowsEach-stays (e ∷ es) (v ∷ vs) more (first, others) =
          (ShowsEvict-stays more first, ShowsEach-stays es vs more others)
      ShowsEach-stays [] (v ∷ vs) more s = s
      ShowsEach-stays (e ∷ es) [] more s = s

      pub ShowsItems-stays :
          {h g : Memory Meta} (a : Option ℕ) (v : Option (List (EvictView V)))
          → Extends h g
          → ShowsItems h a v
          → ShowsItems g a v
      ShowsItems-stays none none more s = tt
      ShowsItems-stays (some p) (some vs) more (es, at, each) =
          (es, same_block as_elements p es refl more at, ShowsEach-stays es vs more each)
      ShowsItems-stays none (some vs) more s = s
      ShowsItems-stays (some p) none more s = s

      module _ {ListMeta W : Type 0} (list_meta : Copier Meta ListMeta W)
          (list_deep : IsDeep list_meta) where
        pub ShowsList-stays :
            {h g : Memory Meta} {l : StoredList ListMeta} {v : ListView V W}
            → Extends h g
            → ShowsList list_meta h l v
            → ShowsList list_meta g l v
        ShowsList-stays {l} {v} more shows = record {
          kinds = shows.kinds;
          meta = list_deep.stays more shows.meta;
          items = ShowsItems-stays l.items v.items more shows.items;
        }
