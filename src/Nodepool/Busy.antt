-- ===== src/Nodepool/Busy.antt =====
-- internal/nodepool/nodepool_controller.go: `HasRunningStatefulPods` answers what its name asks.
use node_updater.Base.{
  String, ◌≡◌, ◌↔◌, Bool, true, false, List, [], ◌∷◌, arith, Any, first, later, string_dec, refl,
  sym, Bool-cases, inl, inr, if◌then◌else◌,
}
use node_updater.Nodepool.{on_node, any_running, has_running_stateful_pods}
use node_updater.Cluster.{Node, Pod}
use node_updater.World.{pure, Services, History, answered, ok, listed_pods, call, ◌>>=◌}
use node_updater.Pods.{running}
use node_updater.World.Calls.{list_pods}

-- The pod runs, on one of the nodes.
abbrev pub IsBusy : List Node → Pod → Type 0
IsBusy nodes pod = (pod.phase ≡ running) × Any (λ node. node.name ≡ pod.node_name) nodes

on_node-Any :
    (pod : Pod) (nodes : List Node)
    → on_node pod nodes ≡ true
    → Any (λ node. node.name ≡ pod.node_name) nodes
unfolding on_node
on_node-Any pod [] e = absurd (ground arith)
on_node-Any pod (node ∷ nodes) t = elim (string_dec pod.node_name node.name) [
  | yes e ↦ first (sym e)
  | no e ↦ later (on_node-Any pod nodes (ground arith))
]

Any-on_node :
    (pod : Pod) (nodes : List Node)
    → Any (λ node. node.name ≡ pod.node_name) nodes
    → on_node pod nodes ≡ true
unfolding on_node
Any-on_node pod [] a = elim a [ ]
Any-on_node pod (node ∷ nodes) (first p) = ground arith
Any-on_node pod (node ∷ nodes) (later a) = let ih = Any-on_node pod nodes a in ground arith

any_running-Any :
    (nodes : List Node) (pods : List Pod) → any_running nodes pods ≡ true → Any (IsBusy nodes) pods
unfolding any_running
any_running-Any nodes [] e = absurd (ground arith)
any_running-Any nodes (pod ∷ pods) e = elim (string_dec pod.phase running) [
  | yes r ↦ elim (Bool-cases (on_node pod nodes)) [
    | inl t ↦ first (r, on_node-Any pod nodes t)
    | inr f ↦ later (any_running-Any nodes pods (ground arith))
  ]
  | no r ↦ later (any_running-Any nodes pods (ground arith))
]

Any-any_running :
    (nodes : List Node) (pods : List Pod) → Any (IsBusy nodes) pods → any_running nodes pods ≡ true
unfolding any_running
Any-any_running nodes [] a = elim a [ ]
Any-any_running nodes (pod ∷ pods) (first b) =
    let phase = b.0 in let t = Any-on_node pod nodes b.1 in ground arith
Any-any_running nodes (pod ∷ pods) (later a) = let ih = Any-any_running nodes pods a in ground arith

module _ (services : Services) (pods : String → List Pod)
    (lists : (h : History) (ns : String) → services.list_pods h ns ≡ answered (pods ns))
    (nodes : List Node) where
  abbrev Busy : List String → Type 0
  Busy = Any (λ ns. Any (IsBusy nodes) (pods ns))

  namespace_step :
      (ns : String) (namespaces : List String) (h : History)
      → (has_running_stateful_pods services nodes (ns ∷ namespaces) h).0 ≡ (
          if any_running nodes (pods ns)
          then ok true
          else (has_running_stateful_pods services nodes namespaces
              (listed_pods ns (answered (pods ns)) ∷ h)).0)
  unfolding has_running_stateful_pods pure list_pods call ◌>>=◌
  namespace_step ns namespaces h = rw (lists h ns) (go (any_running nodes (pods ns)))
    where
      go :
          (b : Bool)
          → ((if b then pure true else has_running_stateful_pods services nodes namespaces)
              (listed_pods ns (answered (pods ns)) ∷ h)).0
            ≡ (if b
                then ok true
                else (has_running_stateful_pods services nodes namespaces
                    (listed_pods ns (answered (pods ns)) ∷ h)).0)
      go true = refl
      go false = refl

  -- If the listing of the pods of each namespace is answered, `HasRunningStatefulPods` returns, and
  -- says yes just if a pod of one of the namespaces runs on one of the nodes.
  pub has_running_stateful_pods_lem :
      (namespaces : List String) (h : History)
      → (b : Bool) × ((has_running_stateful_pods services nodes namespaces h).0 ≡ ok b)
        × ((b ≡ true) ↔ Any (λ ns. Any (IsBusy nodes) (pods ns)) namespaces)
  unfolding has_running_stateful_pods pure
  has_running_stateful_pods_lem [] h = (false, refl, (λ e. absurd (ground arith), λ a. elim a [ ]))
  has_running_stateful_pods_lem (ns ∷ namespaces) h =
      let ih = has_running_stateful_pods_lem namespaces (listed_pods ns (answered (pods ns)) ∷ h) in
      let step = namespace_step ns namespaces h in
      elim (Bool-cases (any_running nodes (pods ns))) [
        | inl t ↦ (true, ground arith, (λ e. first (any_running-Any nodes (pods ns) t), λ a. refl))
        | inr f ↦ (ih.0, ground (arith, ih.1), (λ e. later (ih.2.0 e), λ a. back f ih.2.1 a))
      ]
    where
      back :
          {b : Bool} {ns : String} {namespaces : List String}
          → any_running nodes (pods ns) ≡ false
          → (Busy namespaces → b ≡ true)
          → Busy (ns ∷ namespaces)
          → b ≡ true
      back {ns} f k (first a) = let t = Any-any_running nodes (pods ns) a in absurd (ground arith)
      back f k (later a) = k a
