-- ===== src/Nodepool/Standing.antt =====
-- internal/nodepool/nodepool_controller.go: the nodes that `GetNodesByNodePool` keeps, and the node that a
-- pod runs on.
use node_updater.Base.{
  [], ◌∷◌, none, some, String, List, In, Bool, ◌≡◌, Option, ◌==◌, if◌then◌else◌, true, later, arith,
  first, refl, string_dec, subst, ◌∙◌, ap, false,
}
use node_updater.Base.Dict.{lookup}
use node_updater.Nodepool.{nodes_of_pool, on_node}
use node_updater.Cluster.{Node, Pod}
use node_updater.World.{Event, listed_nodes, answered}
use node_updater.Nodepool.Evidence.{ListsNodes}

pub on_node-In :
    (pod : Pod) (nodes : List Node)
    → on_node pod nodes ≡ true
    → (node : Node) × In node nodes × (pod.node_name ≡ node.name)
unfolding on_node
on_node-In pod [] e = absurd (ground arith)
on_node-In pod (node ∷ nodes) e = elim (string_dec pod.node_name node.name) [
  | yes same ↦ (node, first refl, same)
  | no other ↦ let (found, m, same) = on_node-In pod nodes (ground arith) in (found, later m, same)
]

abbrev Labelled : String → Node → Type 0
Labelled pool node = lookup "agentpool" node.labels ≡ some pool

-- A node that is kept carries the label, or was kept before.
kept-Labelled :
    (pool name : String) (x node : Node) (rest all : List Node) (b : Bool)
    → (In node rest → In node all × Labelled pool node)
    → lookup "agentpool" x.labels ≡ some name
    → (name == pool) ≡ b
    → In node (if b then x ∷ rest else rest)
    → In node (x ∷ all) × Labelled pool node
kept-Labelled pool name x node rest all true ih label same (first e) =
    (first e, subst (Labelled pool) e (label ∙ ap some (ground arith)))
kept-Labelled pool name x node rest all true ih label same (later i) =
    let (j, l) = ih i in (later j, l)
kept-Labelled pool name x node rest all false ih label same i = let (j, l) = ih i in (later j, l)

visited-Labelled :
    (pool : String) (x node : Node) (rest all : List Node) (o : Option String)
    → (In node rest → In node all × Labelled pool node)
    → lookup "agentpool" x.labels ≡ o
    → In node (elim o [ none ↦ rest | some name ↦ if name == pool then x ∷ rest else rest ])
    → In node (x ∷ all) × Labelled pool node
visited-Labelled pool x node rest all none ih label i = let (j, l) = ih i in (later j, l)
visited-Labelled pool x node rest all (some name) ih label i =
    kept-Labelled pool name x node rest all (name == pool) ih label refl i

-- The nodes of a pool are those of the listing with its label.
nodes_of_pool-In :
    (pool : String) (all : List Node) (node : Node)
    → In node (nodes_of_pool pool all)
    → In node all × Labelled pool node
unfolding nodes_of_pool
nodes_of_pool-In pool [] node m = elim m [ ]
nodes_of_pool-In pool (x ∷ all) node m =
    visited-Labelled pool x node (nodes_of_pool pool all) all (lookup "agentpool" x.labels)
      (nodes_of_pool-In pool all node) refl m

pub StandsIn-listed :
    (pool : String) (nodes : List Node) (node : Node) (e : Event)
    → In node nodes
    → ListsNodes pool nodes e
    → (all : List Node) × (e ≡ listed_nodes (answered all))
      × In node all
      × (lookup "agentpool" node.labels ≡ some pool)
StandsIn-listed pool nodes node e m (all, seen, are) =
    let (i, l) = nodes_of_pool-In pool all node (subst (λ ns. In node ns) are m) in
    (all, seen, i, l)
