-- ===== src/Pods/Chosen.antt =====
-- internal/pod/pod_controller.go: which pods are to be selected, independently of the code.
use node_updater.Base.{
  [], ◌∷◌, none, some, String, Option, has_suffix, ◌<>◌, List, ◌≡◌, ◌≢◌, In, Any, true, first, ◌++◌,
  arith, ap, ◌!=◌, Bool-cases, later, inl, ◌&&◌, inr, ◌==◌, contains,
}
use node_updater.Base.Suffix.{has_suffix-split, has_suffix-append}
use node_updater.Base.Dict.{Dict, lookup}
use node_updater.Cluster.{SafeEvictSpec, Pod}
use node_updater.Pods.{ends_with_any, differs, or_empty}

-- The logs end in the text of one of the lines, whatever stands before it.
abbrev pub IsMarked : String → List String → Type 0
IsMarked logs lines = Any (λ line. (before : String) × (logs ≡ before <> line)) lines

-- The label is missing and another value than the empty text is wanted, or it is there and is not
-- the value that is wanted.
abbrev pub HasOther : Option String → String → Type 0
HasOther none value = value ≢ ""
HasOther (some label) value = label ≢ value

-- The pod is to be selected for the entry of the label selector.
abbrev pub IsChosen : SafeEvictSpec → String → Pod → String × String → Type 0
IsChosen spec logs pod (key, value) =
    (pod.phase ≡ "Running")
    × HasOther (lookup key pod.labels) value
    × IsMarked logs spec.last_log_lines

-- One copy of the pod for each entry for which it is to be selected.
pub data Copies (spec : SafeEvictSpec) (logs : String) (pod : Pod)
    : Dict String → List Pod → Type 0 where
  no_entry : Copies spec logs pod [] []
  chosen :
      {entry : String × String} {entries : Dict String} {out : List Pod}
      → IsChosen spec logs pod entry
      → Copies spec logs pod entries out
      → Copies spec logs pod (entry ∷ entries) (pod ∷ out)
  passed_over :
      {entry : String × String} {entries : Dict String} {out : List Pod}
      → ¬ IsChosen spec logs pod entry
      → Copies spec logs pod entries out
      → Copies spec logs pod (entry ∷ entries) out

-- The copies of the pods of the watched namespaces, in the order of the pods.
pub data Selected (spec : SafeEvictSpec) (logs : String → String → String)
    : List Pod → List Pod → Type 0 where
  no_pod : Selected spec logs [] []
  watched :
      {pod : Pod} {pods copies out : List Pod}
      → In pod.namespace spec.namespaces
      → Copies spec (logs pod.namespace pod.name) pod spec.label_selector copies
      → Selected spec logs pods out
      → Selected spec logs (pod ∷ pods) (copies ++ out)
  elsewhere :
      {pod : Pod} {pods out : List Pod}
      → ¬ In pod.namespace spec.namespaces
      → Selected spec logs pods out
      → Selected spec logs (pod ∷ pods) out

pub ends_with_any-IsMarked :
    (logs : String) (lines : List String) → ends_with_any logs lines ≡ true → IsMarked logs lines
unfolding ends_with_any
ends_with_any-IsMarked logs [] e = absurd (ground arith)
ends_with_any-IsMarked logs (line ∷ lines) e = elim (Bool-cases (has_suffix logs line)) [
  | inl ends ↦ first (has_suffix-split logs line ends)
  | inr other ↦ later (ends_with_any-IsMarked logs lines (ground arith))
]

IsMarked-ends_with_any :
    (logs : String) (lines : List String) → IsMarked logs lines → ends_with_any logs lines ≡ true
unfolding ends_with_any
IsMarked-ends_with_any logs [] m = elim m [ ]
IsMarked-ends_with_any logs (line ∷ lines) (first (before, e)) =
    let ends = has_suffix-append before line in
    let same = ap (λ t. has_suffix t line) e in ground arith
IsMarked-ends_with_any logs (line ∷ lines) (later m) =
    let rest = IsMarked-ends_with_any logs lines m in ground arith

pub differs-HasOther :
    (pod : Pod) (key value : String)
    → differs pod key value ≡ true
    → (pod.phase ≡ "Running") × HasOther (lookup key pod.labels) value
differs-HasOther pod key value = go (lookup key pod.labels)
  where
    go :
        (o : Option String)
        → (or_empty o != value && pod.phase == "Running") ≡ true
        → (pod.phase ≡ "Running") × HasOther o value
    go none e = (ground arith, λ same. ground arith)
    go (some label) e = (ground arith, λ same. ground arith)

HasOther-differs :
    (pod : Pod) (key value : String)
    → (pod.phase ≡ "Running") × HasOther (lookup key pod.labels) value
    → differs pod key value ≡ true
HasOther-differs pod key value = go (lookup key pod.labels)
  where
    go :
        (o : Option String)
        → (pod.phase ≡ "Running") × HasOther o value
        → (or_empty o != value && pod.phase == "Running") ≡ true
    go none (runs, other) = ground arith
    go (some label) (runs, other) = ground arith

pub IsChosen-of_tests :
    (spec : SafeEvictSpec) (logs : String) (pod : Pod) (key value : String)
    → (differs pod key value && ends_with_any logs spec.last_log_lines) ≡ true
    → IsChosen spec logs pod (key, value)
IsChosen-of_tests spec logs pod key value e =
    let (runs, other) = differs-HasOther pod key value (ground arith) in
    (runs, other, ends_with_any-IsMarked logs spec.last_log_lines (ground arith))

pub tests_of_chosen :
    (spec : SafeEvictSpec) (logs : String) (pod : Pod) (key value : String)
    → IsChosen spec logs pod (key, value)
    → (differs pod key value && ends_with_any logs spec.last_log_lines) ≡ true
tests_of_chosen spec logs pod key value (runs, other, marked) =
    let one = HasOther-differs pod key value (runs, other) in
    let two = IsMarked-ends_with_any logs spec.last_log_lines marked in ground arith

pub In-contains : (xs : List String) (s : String) → In s xs → contains xs s ≡ true
unfolding contains
In-contains [] s m = elim m [ ]
In-contains (x ∷ xs) s (first e) = ground arith
In-contains (x ∷ xs) s (later m) = let rest = In-contains xs s m in ground arith
