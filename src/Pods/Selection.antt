-- ===== src/Pods/Selection.antt =====
-- internal/pod/pod_controller.go: which pods `GetSafeToEvictPods` selects.
use node_updater.Base.{
  String, ◌≡◌, refl, ap, ◌∙◌, Bool, true, false, ◌&&◌, List, [], ◌∷◌, ◌++◌, if◌then◌else◌, contains,
  shuffle, zero, suc, ℕ, insert_at, Bool-cases, inl, contains-In, inr, arith,
}
use mathlib.Core.List.{append_assoc, append-nil}
use node_updater.World.{
  Services, History, answered, ok, call, attempt, on_error, pure, ◌>>=◌, streamed_logs, fold_each,
  range, listed_pods, ranged,
}
use node_updater.Cluster.{Pod, SafeEvictSpec}
use node_updater.Base.Dict.{Dict}
use node_updater.Pods.{
  differs, check_label, ends_with_any, inspect, fetch_pod_logs, read_logs, judge, check_pod,
  get_safe_to_evict_pods, check_labels,
}
use node_updater.World.Calls.{stream_logs, list_pods}
use node_updater.World.Gives.{Gives, Gives-bind}
use node_updater.Pods.Chosen.{
  watched, Copies, Selected, no_pod, no_entry, chosen, watched, IsChosen-of_tests, elsewhere,
  passed_over, tests_of_chosen, In-contains,
}

-- What an entry of the label selector adds for a pod, given the test on its logs.
abbrev pub copy : Bool → Pod → String × String → List Pod
copy marked pod (key, value) = if differs pod key value && marked then pod ∷ [] else []

abbrev pub copies : Bool → Pod → Dict String → List Pod
copies marked pod [] = []
copies marked pod (entry ∷ entries) = copy marked pod entry ++ copies marked pod entries

copy-swap :
    (b c : Bool) (pod : Pod) (rest : List Pod)
    → (if b then pod ∷ [] else []) ++ ((if c then pod ∷ [] else []) ++ rest)
      ≡ (if c then pod ∷ [] else []) ++ ((if b then pod ∷ [] else []) ++ rest)
copy-swap true true pod rest = refl
copy-swap true false pod rest = refl
copy-swap false true pod rest = refl
copy-swap false false pod rest = refl

copies-insert_at :
    (marked : Bool) (pod : Pod) (n : ℕ) (entry : String × String) (entries : Dict String)
    → copies marked pod (insert_at n entry entries) ≡ copies marked pod (entry ∷ entries)
copies-insert_at marked pod n entry [] = refl
copies-insert_at marked pod zero entry (e ∷ es) = refl
copies-insert_at marked pod (suc n) entry (e ∷ es) =
    ap (λ r. copy marked pod e ++ r) (copies-insert_at marked pod n entry es)
    ∙ copy-swap (differs pod e.0 e.1 && marked) (differs pod entry.0 entry.1 && marked) pod
        (copies marked pod es)

copies-shuffle :
    (marked : Bool) (pod : Pod) (picks : ℕ → ℕ) (entries : Dict String)
    → copies marked pod (shuffle picks entries) ≡ copies marked pod entries
unfolding shuffle
copies-shuffle marked pod picks [] = refl
copies-shuffle marked pod picks (e ∷ es) =
    copies-insert_at marked pod (picks 0) e _
    ∙ ap (λ r. copy marked pod e ++ r) (copies-shuffle marked pod (λ n. picks (suc n)) es)

module _ (spec : SafeEvictSpec) (logs : String → String → String) where
  abbrev marked_idle : Pod → Bool
  marked_idle pod = ends_with_any (logs pod.namespace pod.name) spec.last_log_lines

  -- What the loop over the pods adds for one of them.
  abbrev pub pick : Pod → List Pod
  pick pod =
      if contains spec.namespaces pod.namespace
      then copies (marked_idle pod) pod spec.label_selector
      else []

  abbrev pub picks : List Pod → List Pod
  picks [] = []
  picks (pod ∷ pods) = pick pod ++ picks pods

copies-Copies :
    (spec : SafeEvictSpec) (text : String) (pod : Pod) (entries : Dict String)
    → Copies spec text pod entries (copies (ends_with_any text spec.last_log_lines) pod entries)
copies-Copies spec text pod [] = no_entry
copies-Copies spec text pod ((key, value) ∷ entries) =
    let rest = copies-Copies spec text pod entries in
    elim (Bool-cases (differs pod key value && ends_with_any text spec.last_log_lines)) [
      | inl taken ↦ rw taken (chosen (IsChosen-of_tests spec text pod key value taken) rest)
      | inr left ↦ rw left (
          passed_over
            (λ is. let taken = tests_of_chosen spec text pod key value is in absurd (ground arith))
            rest)
    ]

picks-Selected :
    (spec : SafeEvictSpec) (logs : String → String → String) (pods : List Pod)
    → Selected spec logs pods (picks spec logs pods)
picks-Selected spec logs [] = no_pod
picks-Selected spec logs (pod ∷ pods) =
    let rest = picks-Selected spec logs pods in
    elim (Bool-cases (contains spec.namespaces pod.namespace)) [
      | inl here ↦ rw here (
          watched (contains-In spec.namespaces pod.namespace here)
            (copies-Copies spec (logs pod.namespace pod.name) pod spec.label_selector) rest)
      | inr there ↦ rw there (
          elsewhere
            (λ is. let here = In-contains spec.namespaces pod.namespace is in absurd (ground arith))
            rest)
    ]

module _ (services : Services) (spec : SafeEvictSpec) (logs : String → String → String)
    (streams : (h : History) (ns name : String)
      → services.stream_logs h ns name ≡ answered (answered (logs ns name))) where
  abbrev kept : Bool → Pod → List Pod → List Pod
  kept b pod acc = if b then acc ++ pod ∷ [] else acc

  inspect-Gives :
      (pod : Pod) (acc : List Pod)
      → Gives (inspect services spec pod acc) (kept (marked_idle spec logs pod) pod acc)
  unfolding inspect fetch_pod_logs read_logs judge stream_logs call attempt on_error pure ◌>>=◌
  inspect-Gives pod acc h = (
    streamed_logs pod.namespace pod.name (answered (answered (logs pod.namespace pod.name))) ∷ h,
    simp (streams h pod.namespace pod.name) refl,
  )

  label-Gives :
      (pod : Pod) (acc : List Pod) (entry : String × String)
      → Gives
          (check_label services spec pod acc entry)
          (acc ++ copy (marked_idle spec logs pod) pod entry)
  unfolding check_label pure
  label-Gives pod acc (key, value) = go (differs pod key value) (marked_idle spec logs pod) refl
    where
      go :
          (b c : Bool)
          → marked_idle spec logs pod ≡ c
          → Gives
              (if b then inspect services spec pod acc else pure acc)
              (acc ++ (if b && c then pod ∷ [] else []))
      go true true e h = let i = inspect-Gives pod acc h in (i.0, i.1 ∙ rw e refl)
      go true false e h =
          let i = inspect-Gives pod acc h in (i.0, i.1 ∙ rw (e, append-nil acc) refl)
      go false c e h = (h, rw (append-nil acc) refl)

  labels-Gives :
      (pod : Pod) (entries : Dict String) (acc : List Pod)
      → Gives
          (fold_each entries acc (check_label services spec pod))
          (acc ++ copies (marked_idle spec logs pod) pod entries)
  unfolding fold_each pure
  labels-Gives pod [] acc = λ h. (h, rw (append-nil acc) refl)
  labels-Gives pod (entry ∷ entries) acc =
      rw⁻¹
        (append_assoc acc (copy (marked_idle spec logs pod) pod entry)
          (copies (marked_idle spec logs pod) pod entries))
        (Gives-bind _ _ _ _ (label-Gives pod acc entry)
          (labels-Gives pod entries (acc ++ copy (marked_idle spec logs pod) pod entry)))

  pod-Gives :
      (pod : Pod) (acc : List Pod)
      → Gives (check_pod services spec acc pod) (acc ++ pick spec logs pod)
  unfolding check_pod check_labels range pure ◌>>=◌
  pod-Gives pod acc = go (contains spec.namespaces pod.namespace)
    where
      go :
          (b : Bool)
          → Gives (if b then check_labels services spec pod acc else pure acc) (
              acc ++ (if b then copies (marked_idle spec logs pod) pod spec.label_selector else []))
      go true h =
          let i =
            labels-Gives pod (shuffle (services.order h) spec.label_selector) acc (ranged ∷ h) in
          (
            i.0,
            i.1
                ∙ rw
                    (copies-shuffle (marked_idle spec logs pod) pod (services.order h)
                      spec.label_selector)
                    refl,
          )
      go false h = (h, rw (append-nil acc) refl)

  pods-Gives :
      (pods acc : List Pod)
      → Gives (fold_each pods acc (check_pod services spec)) (acc ++ picks spec logs pods)
  unfolding fold_each pure
  pods-Gives [] acc = λ h. (h, rw (append-nil acc) refl)
  pods-Gives (pod ∷ pods) acc =
      rw⁻¹ (append_assoc acc (pick spec logs pod) (picks spec logs pods))
        (Gives-bind _ _ _ _ (pod-Gives pod acc) (pods-Gives pods (acc ++ pick spec logs pod)))

  -- If all pods are listed and the logs of each pod can be read, `GetSafeToEvictPods` returns the
  -- pods in the order of the list: a pod of a watched namespace that is running and whose logs end in
  -- the text of a last log line once for each entry of the label selector whose value is not that of
  -- its label, and any other pod not at all. A missing label counts as the empty text.
  pub get_safe_to_evict_pods_lem :
      (pods : List Pod) (h : History)
      → services.list_pods h "" ≡ answered pods
      → (out : List Pod) × ((get_safe_to_evict_pods services spec h).0 ≡ ok out)
        × Selected spec logs pods out
  unfolding get_safe_to_evict_pods list_pods call on_error ◌>>=◌
  get_safe_to_evict_pods_lem pods h listed = (
    picks spec logs pods,
    simp listed (ap (λ o. o.0) (pods-Gives pods [] (listed_pods "" (answered pods) ∷ h)).1),
    picks-Selected spec logs pods,
  )
