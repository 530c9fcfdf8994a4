-- ===== src/DeepCopy.antt =====
-- api/v1/zz_generated.deepcopy.go: copies of resources, in a memory with addresses. A struct is a
-- value, and what a function writes to `*out` is its result; a slice or a map that is not nil is
-- the address of its contents. The copying of `metav1.ObjectMeta` and `metav1.ListMeta` is not of
-- this repository: `Copier` stands for it.
pub mod Blocks
pub mod Made
pub mod Fields
pub mod Parts
pub mod Shows
pub mod Spec
pub mod Items
pub mod Separate
use node_updater.Base.{ℕ, String, Option, none, some, List, [], ◌∷◌, shuffle, ◌++◌}
use node_updater.Base.Dict.{Dict, insert}
use node_updater.DeepCopy.Blocks.{
  Mem, strings, labels, elements, pure, ◌>>=◌, ◌>>◌, load, alloc, store, as_strings, as_labels,
  as_elements, StoredSpec, StoredStatus, StoredEvict, StoredList, Memory,
}

-- `make([]string, len(in))`
unfoldable pub blanks : List String → List String
blanks [] = []
blanks (x ∷ xs) = "" ∷ blanks xs

-- `copy(out, in)`, as far as both reach.
unfoldable pub copied : List String → List String → List String
copied [] ys = []
copied (x ∷ xs) [] = x ∷ xs
copied (x ∷ xs) (y ∷ ys) = y ∷ copied xs ys

-- `for key, val := range in { out[key] = val }`
unfoldable pub entered : Dict String → Dict String → Dict String
entered [] out = out
entered ((key, val) ∷ entries) out = entered entries (insert key val out)

-- The elements of `make([]SafeEvict, len(in))`, each the zero value.
unfoldable pub zeroes : {Meta : Type 0} → Meta → List (StoredEvict Meta) → List (StoredEvict Meta)
zeroes meta [] = []
zeroes meta (e ∷ es) =
    record {
      type_meta = record { kind = ""; api_version = "" };
      object_meta = meta;
      spec = record {
        label_selector = none;
        last_log_lines = none;
        nodepools = none;
        namespaces = none;
        base_for_backup_pool = "";
      };
      status = record {};
    }
    ∷ zeroes meta es

-- How other code copies a part of a struct, what that part stands for, and its zero value.
pub record Copier (Meta A V : Type 0) : Type 1 where
  pub Shows : Memory Meta → A → V → Type 0
  pub copy : A → Mem Meta A
  pub zero_value : A

-- What a `runtime.Object` of this package points to.
pub data Object (Meta ListMeta : Type 0) : Type 0 where
  evict : StoredEvict Meta → Object Meta ListMeta
  evict_list : StoredList ListMeta → Object Meta ListMeta

-- The result of `DeepCopyObject`: a nil pointer becomes a nil interface.
unfoldable pub object_of :
    {A Meta ListMeta : Type 0}
    → (A → Object Meta ListMeta)
    → Option A
    → Option (Object Meta ListMeta)
object_of f none = none
object_of f (some a) = some (f a)

-- `order` says in which order a `range` visits the map that is copied to an address.
module _ {Meta : Type 0} (order : ℕ → ℕ → ℕ) where
  unfoldable pub copy_strings : Option ℕ → Mem Meta (Option ℕ)
  copy_strings none = pure none
  copy_strings (some p) = do
    xs ← load as_strings p
    q ← alloc (strings (blanks xs))
    store q (strings (copied (blanks xs) xs))
    pure (some q)

  unfoldable pub copy_labels : Option ℕ → Mem Meta (Option ℕ)
  copy_labels none = pure none
  copy_labels (some p) = do
    m ← load as_labels p
    q ← alloc (labels [])
    store q (labels (entered (shuffle (order q) m) []))
    pure (some q)

  -- `DeepCopyInto` of the spec: the nil fields and the plain one stay as they are.
  unfoldable pub copy_spec : StoredSpec → Mem Meta StoredSpec
  copy_spec spec = do
    selector ← copy_labels spec.label_selector
    lines ← copy_strings spec.last_log_lines
    pools ← copy_strings spec.nodepools
    spaces ← copy_strings spec.namespaces
    pure (record spec {
      label_selector = selector;
      last_log_lines = lines;
      nodepools = pools;
      namespaces = spaces;
    })

  -- `DeepCopy` of the spec and of the status, where a nil pointer stays nil.
  unfoldable pub deep_copy_spec : Option StoredSpec → Mem Meta (Option StoredSpec)
  deep_copy_spec none = pure none
  deep_copy_spec (some spec) = do out ← copy_spec spec; pure (some out)

  unfoldable pub deep_copy_status : Option StoredStatus → Mem Meta (Option StoredStatus)
  deep_copy_status none = pure none
  deep_copy_status (some status) = pure (some status)

  module _ {V : Type 0} (object_meta : Copier Meta Meta V) where
    -- `DeepCopyInto`, `DeepCopy` and `DeepCopyObject` of a resource.
    unfoldable pub copy_evict : StoredEvict Meta → Mem Meta (StoredEvict Meta)
    copy_evict e = do
      meta ← object_meta.copy e.object_meta
      spec ← copy_spec e.spec
      pure (record e { object_meta = meta; spec = spec })

    unfoldable pub deep_copy : Option (StoredEvict Meta) → Mem Meta (Option (StoredEvict Meta))
    deep_copy none = pure none
    deep_copy (some e) = do out ← copy_evict e; pure (some out)

    unfoldable pub deep_copy_object :
        {ListMeta : Type 0} → Option (StoredEvict Meta) → Mem Meta (Option (Object Meta ListMeta))
    deep_copy_object e = do c ← deep_copy e; pure (object_of evict c)

    -- The loop over the elements: each is copied, and written behind those before it.
    unfoldable pub copy_elements :
        ℕ → List (StoredEvict Meta) → List (StoredEvict Meta) → Mem Meta (Unit {0})
    copy_elements q before [] = pure tt
    copy_elements q before (e ∷ es) = do
      out ← copy_evict e
      store q (elements (before ++ out ∷ zeroes object_meta.zero_value es))
      copy_elements q (before ++ out ∷ []) es

    unfoldable pub copy_items : Option ℕ → Mem Meta (Option ℕ)
    copy_items none = pure none
    copy_items (some p) = do
      es ← load as_elements p
      q ← alloc (elements (zeroes object_meta.zero_value es))
      copy_elements q [] es
      pure (some q)

    module _ {ListMeta W : Type 0} (list_meta : Copier Meta ListMeta W) where
      unfoldable pub copy_list : StoredList ListMeta → Mem Meta (StoredList ListMeta)
      copy_list l = do
        meta ← list_meta.copy l.list_meta
        all ← copy_items l.items
        pure (record l { list_meta = meta; items = all })

      unfoldable pub deep_copy_list :
          Option (StoredList ListMeta) → Mem Meta (Option (StoredList ListMeta))
      deep_copy_list none = pure none
      deep_copy_list (some l) = do out ← copy_list l; pure (some out)

      unfoldable pub deep_copy_list_object :
          Option (StoredList ListMeta) → Mem Meta (Option (Object Meta ListMeta))
      deep_copy_list_object l = do c ← deep_copy_list l; pure (object_of evict_list c)
