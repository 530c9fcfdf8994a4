-- ===== src/Nodepool/Evidence.antt =====
-- What the queries of the node pool controller have seen when they return: each only reads, and
-- its result is backed by answers that stand in the history.
use node_updater.Base.{
  String, ◌≡◌, refl, true, false, Option, none, some, List, [], ◌∷◌, arith, All, Any, Any-map,
  first, ℕ, ◌<>◌, ◌=ℕ◌,
}
use node_updater.Cluster.{Node, Pod, AgentPool, response_status, ClientError, message, error_text}
use node_updater.World.{
  got_upgrade_profile, Services, answered, Event, listed_nodes, listed_pods, got_pool, History,
  Tried, Reply, failed,
}
use node_updater.World.Calls.{list_nodes, list_pods, get_pool, get_upgrade_profile}
use node_updater.World.Trace.{
  Policy, Reading, Run, Grows, Grows-Any, Run-bind, Run-pure, Run-throw, Run-on_error, Run-call,
  Run-if, Run-weaken, Anything, Run-attempt-call, tried,
}
use node_updater.Nodepool
use node_updater.Nodepool.{
  provisioning_state, nodes_of_pool, image_versions, any_running, get_nodes_by_node_pool,
  get_node_image_versions, get_node_pool_upgrade_profile, get_node_pool_by_name,
  get_node_pool_provisioning_state, node_pool_exists, has_running_stateful_pods, add_pool,
  check_version, update_needed, check_ready, get_not_ready_node_pools, Outdated, latest_version,
  state_or_error, existence, existence_by, add_unready,
}

-- The pool was read, with this answer.
abbrev pub GotPool : String → AgentPool → History → Type 0
GotPool name pool = Any (λ e. e ≡ got_pool name (answered pool))

-- The upgrade profile of the pool was read, with this latest version.
abbrev pub LatestRead : String → String → History → Type 0
LatestRead pool latest =
    Any (λ e. e ≡ got_upgrade_profile pool (answered (record { properties = some (some latest) })))

-- The nodes are those that carry the pool's label in some listing.
abbrev pub ListsNodes : String → List Node → Event → Type 0
ListsNodes pool nodes e =
    (all : List Node) × (e ≡ listed_nodes (answered all)) × (nodes ≡ nodes_of_pool pool all)

abbrev pub NodesListed : String → List Node → History → Type 0
NodesListed pool nodes = Any (ListsNodes pool nodes)

-- A listing of the namespace shows no running pod on the nodes.
abbrev pub ShowsClear : List Node → String → Event → Type 0
ShowsClear nodes namespace e =
    (pods : List Pod) × (e ≡ listed_pods namespace (answered pods))
    × (any_running nodes pods ≡ false)

abbrev pub IsClear : List Node → List String → History → Type 0
IsClear nodes namespaces h = All (λ ns. Any (ShowsClear nodes ns) h) namespaces

-- The pool's nodes were listed, and then no namespace showed a running pod on them.
abbrev pub Drained : String → List String → History → Type 0
Drained pool namespaces h =
    (nodes : List Node) × NodesListed pool nodes h × IsClear nodes namespaces h

pub Grows-IsClear :
    {K : Policy} {h h' : History} (nodes : List Node) (namespaces : List String)
    → Grows K h h'
    → IsClear nodes namespaces h
    → IsClear nodes namespaces h'
Grows-IsClear nodes [] g c = tt
Grows-IsClear nodes (ns ∷ namespaces) g c = (Grows-Any g c.0, Grows-IsClear nodes namespaces g c.1)

pub Grows-Drained :
    {K : Policy} {h h' : History} (pool : String) (namespaces : List String)
    → Grows K h h'
    → Drained pool namespaces h
    → Drained pool namespaces h'
Grows-Drained pool namespaces g (nodes, listed, c) =
    (nodes, Grows-Any g listed, Grows-IsClear nodes namespaces g c)

module _ (services : Services) where
  pub Run-get_pool :
      (name : String) {h : History} → Run Reading (GotPool name) h (get_pool services name h)
  unfolding get_pool
  Run-get_pool name = Run-call _ _ (λ r. tt) (λ a. first refl)

  pub Run-get_node_pool_by_name :
      (name : String) {h : History}
      → Run Reading (GotPool name) h (get_node_pool_by_name services name h)
  unfolding get_node_pool_by_name
  Run-get_node_pool_by_name name = Run-on_error _ _ (Run-get_pool name)

  pub Run-get_nodes_by_node_pool :
      (pool : String) {h : History}
      → Run Reading (NodesListed pool) h (get_nodes_by_node_pool services pool h)
  unfolding get_nodes_by_node_pool list_nodes
  Run-get_nodes_by_node_pool pool =
      Run-bind {M = λ all. Any (λ e. e ≡ listed_nodes (answered all))} _ _
        (Run-on_error _ _ (Run-call _ _ (λ r. tt) (λ a. first refl)))
        (λ all g grown seen. Run-pure _ (Any-map (λ e p. (all, p, refl)) seen))

  -- The answer `false` means that every namespace was listed, and was clear.
  pub Run-has_running_stateful_pods :
      (nodes : List Node) (namespaces : List String) {h : History}
      → Run Reading
          (λ busy g. busy ≡ false → IsClear nodes namespaces g)
          h
          (has_running_stateful_pods services nodes namespaces h)
  unfolding has_running_stateful_pods list_pods
  Run-has_running_stateful_pods nodes [] = Run-pure false (λ e. tt)
  Run-has_running_stateful_pods nodes (ns ∷ namespaces) =
      Run-bind {M = λ pods. Any (λ e. e ≡ listed_pods ns (answered pods))} _ _
        (Run-call _ _ (λ r. tt) (λ a. first refl))
        (λ pods g grown seen.
          Run-if (any_running nodes pods) _ _ (λ busy. Run-pure true (λ e. absurd (ground arith)))
            (λ clear.
              Run-weaken (Run-has_running_stateful_pods nodes namespaces) (λ busy g' grown' rest e.
                (Grows-Any grown' (Any-map (λ e p. (pods, p, clear)) seen), rest e))))

  -- The versions are those of a listing.
  pub Run-get_node_image_versions :
      (pools : List String) {h : History}
      → Run Reading
          (λ versions g.
            (all : List Node) × Any (λ e. e ≡ listed_nodes (answered all)) g
            × (versions ≡ image_versions pools all []))
          h
          (get_node_image_versions services pools h)
  unfolding get_node_image_versions list_nodes
  Run-get_node_image_versions pools =
      Run-bind {M = λ all. Any (λ e. e ≡ listed_nodes (answered all))} _ _
        (Run-on_error _ _ (Run-call _ _ (λ r. tt) (λ a. first refl)))
        (λ all g grown seen. Run-pure _ (all, seen, refl))

  pub Run-get_node_pool_upgrade_profile :
      (pool : String) {h : History}
      → Run Reading (LatestRead pool) h (get_node_pool_upgrade_profile services pool h)
  unfolding get_node_pool_upgrade_profile get_upgrade_profile latest_version
  Run-get_node_pool_upgrade_profile pool =
      Run-bind {M = λ profile. Any (λ e. e ≡ got_upgrade_profile pool (answered profile))} _ _
        (Run-on_error _ _ (Run-call _ _ (λ r. tt) (λ a. first refl)))
        (λ profile g grown seen. latest profile.properties seen)
    where
      latest :
          (p : Option (Option String)) {g : History}
          → Any (λ e. e ≡ got_upgrade_profile pool (answered (record { properties = p }))) g
          → Run Reading (LatestRead pool) g (Nodepool.latest_version pool p g)
      latest (some (some v)) seen = Run-pure v seen
      latest (some none) seen = Run-throw _
      latest none seen = Run-throw _

  -- Of this nothing more is used.
  pub Run-get_node_pool_provisioning_state :
      (pool : String) {h : History}
      → Run Reading Anything h (get_node_pool_provisioning_state services pool h)
  unfolding get_node_pool_provisioning_state state_or_error
  Run-get_node_pool_provisioning_state name =
      Run-bind _ _ (Run-on_error _ _ (Run-get_pool name))
        (λ pool g grown seen. state (provisioning_state pool))
    where
      state : (s : Option String) {g : History} → Run Reading Anything g (state_or_error name s g)
      state (some s) = Run-pure s tt
      state none = Run-throw _

-- Azure said that there is no such pool.
abbrev pub Missing : String → History → Type 0
Missing name =
    Any (λ e. (x : ClientError) × (e ≡ got_pool name (failed x)) × (x.status_code ≡ some 404))

abbrev PoolAsked : String → Tried AgentPool → History → Type 0
PoolAsked name t h = (r : Reply AgentPool) × (t ≡ tried r) × Any (λ e. e ≡ got_pool name r) h

Run-existence_of :
    (name : String) (r : Reply AgentPool) {h : History}
    → Any (λ e. e ≡ got_pool name r) h
    → Run Reading (λ exists g. exists ≡ false → Missing name g) h (existence (tried r) h)
unfolding existence existence_by response_status error_text
Run-existence_of name (answered pool) asked = Run-pure true (λ e. absurd (ground arith))
Run-existence_of name (failed x) {h} asked = status x.status_code refl
  where
    status :
        (o : Option ℕ)
        → x.status_code ≡ o
        → Run Reading
            (λ exists g. exists ≡ false → Missing name g)
            h
            (existence_by (message ("error checking if node pool exists: " <> x.text)) o h)
    status none e = Run-throw _
    status (some code) e =
        Run-if (code =ℕ 404) _ _
          (λ found. Run-pure false (λ z. Any-map (λ y p. (x, p, ground arith)) asked))
          (λ other. Run-throw _)

module _ (services : Services) where
  -- The answer `false` means that Azure said so.
  pub Run-node_pool_exists :
      (name : String) {h : History}
      → Run Reading
          (λ exists g. exists ≡ false → Missing name g)
          h
          (node_pool_exists services name h)
  unfolding node_pool_exists get_pool
  Run-node_pool_exists name =
      Run-bind {M = PoolAsked name} _ _
        (Run-attempt-call _ _ (λ r. tt) (λ r. (r, refl, first refl)))
        (λ t g grown (r, e, asked). rw e (Run-existence_of name r asked))
