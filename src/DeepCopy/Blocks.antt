-- ===== src/DeepCopy/Blocks.antt =====
-- Memory as the generated copies use it: blocks at addresses, allocated one after the other.
use node_updater.Base.{ℕ, ◌+◌, ◌=ℕ◌, String, Option, none, some, List, if◌then◌else◌}
use node_updater.Base.Dict.{Dict}

-- `SafeEvictSpec` as it lies in memory: a slice or a map is nil, or an address.
pub record StoredSpec : Type 0 where
  pub label_selector : Option ℕ
  pub last_log_lines : Option ℕ
  pub nodepools : Option ℕ
  pub namespaces : Option ℕ
  pub base_for_backup_pool : String

-- `SafeEvictStatus` has no fields.
pub record StoredStatus : Type 0 where

pub record TypeMeta : Type 0 where
  pub kind : String
  pub api_version : String

pub record StoredEvict (Meta : Type 0) : Type 0 where
  pub type_meta : TypeMeta
  pub object_meta : Meta
  pub spec : StoredSpec
  pub status : StoredStatus

pub record StoredList (ListMeta : Type 0) : Type 0 where
  pub type_meta : TypeMeta
  pub list_meta : ListMeta
  pub items : Option ℕ

-- What lies at an address: the strings of a slice, the entries of a map, the elements of a slice of
-- resources, or a block of some other code.
pub data Block (Meta : Type 0) : Type 0 where
  strings : List String → Block Meta
  labels : Dict String → Block Meta
  elements : List (StoredEvict Meta) → Block Meta
  foreign : List String → Block Meta

-- The addresses from `next` on are free.
pub record Memory (Meta : Type 0) : Type 0 where
  pub next : ℕ
  pub cell : ℕ → Option (Block Meta)

-- `none` is a fault: a read at an address with nothing or something else.
abbrev pub Mem : Type 0 → Type 0 → Type 0
Mem Meta A = Memory Meta → Option (A × Memory Meta)

module _ {Meta : Type 0} where
  abbrev pub pass :
      {A B : Type 0} → Option (A × Memory Meta) → (A → Mem Meta B) → Option (B × Memory Meta)
  pass none f = none
  pass (some (a, h)) f = f a h

  infixl 5 ◌>>=◌ ◌>>◌
  unfoldable pub ◌>>=◌ : {A B : Type 0} → Mem Meta A → (A → Mem Meta B) → Mem Meta B
  ◌>>=◌ m f h = pass (m h) f

  abbrev pub ◌>>◌ : {A B : Type 0} → Mem Meta A → Mem Meta B → Mem Meta B
  m >> n = m >>= λ _. n

  unfoldable pub pure : {A : Type 0} → A → Mem Meta A
  pure a h = some (a, h)

  abbrev pub written : (ℕ → Option (Block Meta)) → ℕ → Block Meta → ℕ → Option (Block Meta)
  written cell p b q = if p =ℕ q then some b else cell q

  unfoldable pub alloc : Block Meta → Mem Meta ℕ
  alloc b h = some (h.next, record { next = h.next + 1; cell = written h.cell h.next b })

  unfoldable pub store : ℕ → Block Meta → Mem Meta (Unit {0})
  store p b h = some (tt, record h { cell = written h.cell p b })

  abbrev pub as_strings : Option (Block Meta) → Option (List String)
  as_strings (some (strings xs)) = some xs
  as_strings _ = none

  abbrev pub as_labels : Option (Block Meta) → Option (Dict String)
  as_labels (some (labels m)) = some m
  as_labels _ = none

  abbrev pub as_elements : Option (Block Meta) → Option (List (StoredEvict Meta))
  as_elements (some (elements xs)) = some xs
  as_elements _ = none

  abbrev pub with_memory : {A : Type 0} → Memory Meta → Option A → Option (A × Memory Meta)
  with_memory h none = none
  with_memory h (some a) = some (a, h)

  -- What an address holds, seen as the program expects it.
  unfoldable pub load : {A : Type 0} → (Option (Block Meta) → Option A) → ℕ → Mem Meta A
  load view p h = with_memory h (view (h.cell p))
