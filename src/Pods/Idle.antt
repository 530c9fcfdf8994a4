-- ===== src/Pods/Idle.antt =====
-- internal/pod/pod_controller.go: what `GetSafeToEvictPods` has seen of each pod that it returns.
use node_updater.Base.{
  String, ◌≡◌, refl, true, List, [], ◌∷◌, contains, All, All-append, All-map, Any, Any-map, first,
  In, In-shuffle, Bool-cases, inl, inr, contains-In,
}
use node_updater.Cluster.{SafeEvict, Pod}
use node_updater.World.{
  Services, Reply, answered, failed, listed_pods, streamed_logs, History, Tried, returned, raised,
}
use node_updater.World.Calls.{list_pods, stream_logs}
use node_updater.World.Trace.{
  Policy, Reading, Run, Grows, Grows-Any, Run-bind, Run-pure, Run-throw, Run-on_error, Run-call,
  Run-attempt, Run-range, Run-fold_each, Run-if, Run-weaken, PostTried,
}
use node_updater.Pods.{
  differs, ends_with_any, read_logs, fetch_pod_logs, judge, inspect, check_label, check_labels,
  check_pod, get_safe_to_evict_pods,
}
use node_updater.Pods.Chosen.{HasOther, differs-HasOther, ends_with_any-IsMarked, IsMarked}
use node_updater.Base.Dict.{lookup}

-- An idle pod: it was listed, lies in a watched namespace, runs, has another label than an entry of
-- the selector, and its logs end in the text of a last log line.
pub record IsIdle (se : SafeEvict) (pod : Pod) (h : History) : Type 0 where
  pub listed : Any (λ e. (pods : List Pod) × (e ≡ listed_pods "" (answered pods)) × In pod pods) h
  pub watched : In pod.namespace se.spec.namespaces
  pub selected :
      (key value : String) × In (key, value) se.spec.label_selector
      × (pod.phase ≡ "Running")
      × HasOther (lookup key pod.labels) value
  pub quiet :
      (logs : String) × Any
        (λ e. e ≡ streamed_logs pod.namespace pod.name (answered (answered logs)))
        h
      × IsMarked logs se.spec.last_log_lines

pub Grows-IsIdle :
    {K : Policy} {h h' : History} {se : SafeEvict} {pod : Pod}
    → Grows K h h'
    → IsIdle se pod h
    → IsIdle se pod h'
Grows-IsIdle g i = record {
  listed = Grows-Any g i.listed;
  watched = i.watched;
  selected = i.selected;
  quiet = (i.quiet.0, Grows-Any g i.quiet.1, i.quiet.2);
}

abbrev pub AllIdle : SafeEvict → List Pod → History → Type 0
AllIdle se pods h = All (λ pod. IsIdle se pod h) pods

pub Grows-AllIdle :
    {K : Policy} {h h' : History} (se : SafeEvict) (pods : List Pod)
    → Grows K h h'
    → AllIdle se pods h
    → AllIdle se pods h'
Grows-AllIdle se pods g = All-map _ pods (λ pod. Grows-IsIdle g)

abbrev Listed : Pod → History → Type 0
Listed pod = Any (λ e. (pods : List Pod) × (e ≡ listed_pods "" (answered pods)) × In pod pods)

abbrev PodsListed : List Pod → History → Type 0
PodsListed pods = Any (λ e. e ≡ listed_pods "" (answered pods))

module _ (services : Services) where
  Run-fetch_pod_logs :
      (name ns : String) {h : History}
      → Run Reading
          (λ logs. Any (λ e. e ≡ streamed_logs ns name (answered (answered logs))))
          h
          (fetch_pod_logs services name ns h)
  unfolding fetch_pod_logs stream_logs read_logs
  Run-fetch_pod_logs name ns =
      Run-bind {M = λ s. Any (λ e. e ≡ streamed_logs ns name (answered s))} _ _
        (Run-on_error _ _ (Run-call _ _ (λ r. tt) (λ a. first refl)))
        (λ stream g grown seen. opened _ stream seen)
    where
      opened :
          (text : String) (s : Reply String) {g : History}
          → Any (λ e. e ≡ streamed_logs ns name (answered s)) g
          → Run Reading
              (λ logs. Any (λ e. e ≡ streamed_logs ns name (answered (answered logs))))
              g
              (read_logs text s g)
      opened text (answered logs) seen = Run-pure logs seen
      opened text (failed e) seen = Run-throw _

  module _ (se : SafeEvict) (pod : Pod)
      (watched : contains se.spec.namespaces pod.namespace ≡ true) where
    Run-check_label :
        (filtered : List Pod) (entry : String × String) {h : History}
        → In entry se.spec.label_selector
        → Listed pod h
        → AllIdle se filtered h
        → Run Reading
            (λ out g. Listed pod g × AllIdle se out g)
            h
            (check_label services se.spec pod filtered entry h)
    unfolding check_label inspect judge
    Run-check_label filtered (key, value) m listed idle =
        Run-if (differs pod key value) _ _
          (λ selected.
            Run-bind _ _ (Run-attempt _ (Run-fetch_pod_logs pod.name pod.namespace))
              (λ t g grown seen.
                judged selected t seen (Grows-Any grown listed)
                  (Grows-AllIdle se filtered grown idle)))
          (λ skipped. Run-pure filtered (listed, idle))
      where
        judged :
            differs pod key value ≡ true
            → (t : Tried String) {g : History}
            → PostTried
                (λ logs.
                  Any (λ e. e ≡ streamed_logs pod.namespace pod.name (answered (answered logs))))
                t
                g
            → Listed pod g
            → AllIdle se filtered g
            → Run Reading
                (λ out g. Listed pod g × AllIdle se out g)
                g
                (judge se.spec pod filtered t g)
        judged selected (raised e) seen l i = Run-pure filtered (l, i)
        judged selected (returned logs) {g} seen l i = Run-pure _ (
          l,
          elim (Bool-cases (ends_with_any logs se.spec.last_log_lines)) [
            | inl quiet ↦ rw quiet (
                let (runs, other) = differs-HasOther pod key value selected in
                All-append _ filtered (pod ∷ []) i (
                  record {
                    listed = l;
                    watched = contains-In se.spec.namespaces pod.namespace watched;
                    selected = (key, value, m, runs, other);
                    quiet = (logs, seen, ends_with_any-IsMarked logs se.spec.last_log_lines quiet);
                  },
                  tt,
                ))
            | inr other ↦ rw other i
          ],
        )

    Run-check_labels :
        (filtered : List Pod) {h : History}
        → Listed pod h
        → AllIdle se filtered h
        → Run Reading (λ out g. AllIdle se out g) h (check_labels services se.spec pod filtered h)
    unfolding check_labels
    Run-check_labels filtered listed idle =
        Run-bind
          {M = λ entries g. (x : String × String) → In x entries → In x se.spec.label_selector} _ _
          (Run-range services _ tt (λ picks x. In-shuffle picks x _))
          (λ entries g grown sub.
            Run-weaken
              (Run-fold_each {J = λ out g. Listed pod g × AllIdle se out g} entries filtered _
                (Grows-Any grown listed, Grows-AllIdle se filtered grown idle)
                (λ out x g' m j. Run-check_label out x (sub x m) j.0 j.1))
              (λ out g' grown' j. j.1))

  Run-check_pod :
      (se : SafeEvict) (pods filtered : List Pod) (pod : Pod) {h : History}
      → In pod pods
      → PodsListed pods h
      → AllIdle se filtered h
      → Run Reading
          (λ out g. PodsListed pods g × AllIdle se out g)
          h
          (check_pod services se.spec filtered pod h)
  unfolding check_pod
  Run-check_pod se pods filtered pod m seen idle =
      Run-if (contains se.spec.namespaces pod.namespace) _ _
        (λ watched.
          Run-weaken
            (Run-check_labels se pod watched filtered (Any-map (λ e p. (pods, p, m)) seen) idle)
            (λ out g grown i. (Grows-Any grown seen, i)))
        (λ skipped. Run-pure filtered (seen, idle))

  -- Every pod that is returned is idle.
  pub Run-get_safe_to_evict_pods :
      (se : SafeEvict) {h : History}
      → Run Reading (AllIdle se) h (get_safe_to_evict_pods services se.spec h)
  unfolding get_safe_to_evict_pods list_pods
  Run-get_safe_to_evict_pods se =
      Run-bind {M = PodsListed} _ _ (Run-on_error _ _ (Run-call _ _ (λ r. tt) (λ a. first refl)))
        (λ pods g grown seen.
          Run-weaken
            (Run-fold_each {J = λ out g. PodsListed pods g × AllIdle se out g} pods [] _ (seen, tt)
              (λ out pod g' m j. Run-check_pod se pods out pod m j.0 j.1))
            (λ out g' grown' j. j.1))
