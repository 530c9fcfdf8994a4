-- ===== src/Examples/Copies.antt =====
-- Copies of a list with one resource, whose metadata is the address of its owner's name.
use node_updater.Base.Dict.{lookup}
use node_updater.Base.{
  string_dec, none, ◌∷◌, Option, [], ℕ, List, String, some, arith, ◌≡◌, refl, ap,
}
use node_updater.DeepCopy.Shows.{IsDeep, EvictView, ShowsList, ListView, same_block}
use node_updater.DeepCopy.Blocks.{
  StoredEvict, TypeMeta, Memory, Block, StoredList, written, foreign, labels, pure, load, strings,
  ◌>>=◌, elements, alloc,
}
use node_updater.DeepCopy.Made.{IsMemory, Makes-pure, SameBelow, SameWithin}
use node_updater.DeepCopy.{Copier, deep_copy_list_object, evict_list}
use node_updater.DeepCopy.Parts.{Makes-load, Makes-alloc}
use node_updater.DeepCopy.Separate.{deep_copy_list_object_lem}

abbrev owner_of : Option (Block ℕ) → Option (List String)
owner_of (some (foreign xs)) = some xs
owner_of _ = none

abbrev owner_meta : Copier ℕ ℕ (List String)
owner_meta = record {
  Shows = λ h p xs. owner_of (h.cell p) ≡ some xs;
  copy = λ p. load owner_of p >>= λ xs. alloc (foreign xs);
  zero_value = 0;
}

owner_meta-IsDeep : IsDeep owner_meta
owner_meta-IsDeep = record {
  stays = λ {a = p} {v = xs} more at. same_block owner_of p xs refl more at;
  copies = λ {a = p} {v = xs} good at.
      Makes-load owner_of p _ xs at (Makes-alloc (foreign xs) good (λ g e. ap owner_of e));
}

-- The resource version of a list has no address.
abbrev version_meta : Copier ℕ String String
version_meta = record { Shows = λ h a v. a ≡ v; copy = pure; zero_value = "" }

version_meta-IsDeep : IsDeep version_meta
version_meta-IsDeep = record {
  stays = λ more at. at;
  copies = λ {a} good at. Makes-pure a good (λ g. at);
}

abbrev runner_kind : TypeMeta
runner_kind = record { kind = "SafeEvict"; api_version = "update.norbinto/v1" }

abbrev runner : StoredEvict ℕ
runner = record {
  type_meta = runner_kind;
  object_meta = 0;
  spec = record {
    label_selector = some 1;
    last_log_lines = some 2;
    nodepools = some 2;
    namespaces = none;
    base_for_backup_pool = "builds";
  };
  status = record {};
}

abbrev stored : Memory ℕ
stored = record {
  next = 4;
  cell =
      written
        (written
          (written (written (λ p. none) 0 (foreign ("ops" ∷ []))) 1
            (labels (("app", "runner") ∷ ("tier", "ci") ∷ [])))
          2 (strings ("done" ∷ [])))
        3 (elements (runner ∷ []));
}

stored-IsMemory : IsMemory stored
stored-IsMemory = record { free = λ p le. ground arith }

abbrev runners : StoredList String
runners = record { type_meta = runner_kind; list_meta = "17"; items = some 3 }

abbrev runner_view : EvictView (List String)
runner_view = record {
  type_meta = runner_kind;
  object_meta = "ops" ∷ [];
  spec = record {
    label_selector = some (λ k. lookup k (("app", "runner") ∷ ("tier", "ci") ∷ []));
    last_log_lines = some ("done" ∷ []);
    nodepools = some ("done" ∷ []);
    namespaces = none;
    base_for_backup_pool = "builds";
  };
}

abbrev runners_view : ListView (List String) String
runners_view = record { type_meta = runner_kind; list_meta = "17"; items = some (runner_view ∷ []) }

runners-shown : ShowsList owner_meta version_meta stored runners runners_view
unfolding lookup string_dec
runners-shown = record {
  kinds = refl;
  meta = refl;
  items = (
    runner ∷ [],
    refl,
    (
      record {
        kinds = refl;
        meta = refl;
        spec = record {
          selector = (("app", "runner") ∷ ("tier", "ci") ∷ [], refl, (refl, (refl, tt)), λ k. refl);
          lines = refl;
          pools = refl;
          spaces = tt;
          base = refl;
        };
      },
      tt,
    ),
  );
}

abbrev reversed : ℕ → ℕ → ℕ
reversed q i = 1

deep_copy_list_object_lem_example :
    (out : StoredList String) × (after : Memory ℕ) × (deep_copy_list_object reversed owner_meta
        version_meta
        (some runners)
        stored
      ≡ some (some (evict_list out), after))
    × SameBelow 4 stored after
    × ((g : Memory ℕ)
        → SameBelow 4 stored g
        → ShowsList owner_meta version_meta g runners runners_view)
    × ((g : Memory ℕ)
        → SameWithin 4 after.next after g
        → ShowsList owner_meta version_meta g out runners_view)
deep_copy_list_object_lem_example =
    deep_copy_list_object_lem reversed owner_meta owner_meta-IsDeep version_meta version_meta-IsDeep
      stored runners runners_view stored-IsMemory runners-shown
