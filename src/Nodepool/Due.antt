-- ===== src/Nodepool/Due.antt =====
-- internal/nodepool/nodepool_controller.go: what `UpdateNeeded` and `GetNotReadyNodePools` have seen
-- of each pool that they return.
use node_updater.Base.{
  [], none, some, List, String, In, Option, All-map, ◌⊎◌, inl, Any, All, ◌≡◌, ◌!=◌, inr, ◌≢◌, true,
  arith, refl, subst, In-shuffle, contains-In, false, string_dec,
}
use node_updater.World.{Services, History, listed_nodes, answered}
use node_updater.World.Trace.{
  Policy, Grows, Run, Reading, Grows-Any, Run-bind, Run-range, Grows-trans, Run-if, Run-weaken,
  Run-fold_each, Run-pure, Run-on_error,
}
use node_updater.Cluster.{AgentPool, Node, PoolProperties}
use node_updater.Nodepool.{
  update_needed, get_not_ready_node_pools, check_ready, check_version, add_unready, add_pool,
  Outdated, image_versions, provisioning_state,
}
use node_updater.Base.Dict.{Dict, insert, All-insert}
use node_updater.Nodepool.Versions.{passes, image_versions-old}
use node_updater.Nodepool.Evidence.{
  GotPool, Run-get_node_image_versions, Run-get_node_pool_upgrade_profile, LatestRead,
  Run-get_nodes_by_node_pool, Run-get_node_pool_by_name,
}
use node_updater.Nodepool.Queries.{first_version}

-- The pool's first node with an image version has another one than the latest, by a listing and an
-- upgrade profile that were read.
abbrev pub HasOldImage : String → History → Type 0
HasOldImage name h =
    (all : List Node) × (latest : String) × Any (λ e. e ≡ listed_nodes (answered all)) h
    × LatestRead name latest h
    × ((v : String) × (first_version name all ≡ some v) × (v ≢ latest))

-- The pool was read in another state than the final one.
abbrev pub IsUnsettled : String → History → Type 0
IsUnsettled name h =
    (pool : AgentPool) × (p : PoolProperties) × (state : String) × GotPool name pool h
    × (pool.properties ≡ some p)
    × (p.provisioning_state ≡ some state)
    × (state ≢ "Succeeded")

-- A watched pool of which something is to be done.
abbrev pub IsDuePool : List String → String → History → Type 0
IsDuePool pools name h = In name pools × (HasOldImage name h ⊎ IsUnsettled name h)

pub Grows-IsDuePool :
    {K : Policy} {h h' : History} (pools : List String) (name : String)
    → Grows K h h'
    → IsDuePool pools name h
    → IsDuePool pools name h'
Grows-IsDuePool pools name g (watched, inl (all, latest, listed, read, old)) =
    (watched, inl (all, latest, Grows-Any g listed, Grows-Any g read, old))
Grows-IsDuePool pools name g (watched, inr (pool, p, state, got, has, at, other)) =
    (watched, inr (pool, p, state, Grows-Any g got, has, at, other))

-- Each pool of the map was read under its key, and something is to be done of it.
abbrev pub AllDue : List String → Dict AgentPool → History → Type 0
AllDue pools m h = All (λ entry. GotPool entry.0 entry.1 h × IsDuePool pools entry.0 h) m

pub Grows-AllDue :
    {K : Policy} {h h' : History} (pools : List String) (m : Dict AgentPool)
    → Grows K h h'
    → AllDue pools m h
    → AllDue pools m h'
Grows-AllDue pools m g =
    All-map _ m (λ entry (got, due). (Grows-Any g got, Grows-IsDuePool pools entry.0 g due))

pub AllDue-insert :
    {h : History} (pools : List String) (name : String) (pool : AgentPool) (m : Dict AgentPool)
    → GotPool name pool h
    → IsDuePool pools name h
    → AllDue pools m h
    → AllDue pools (insert name pool m) h
AllDue-insert {h} pools name pool m got due =
    All-insert (λ entry. GotPool entry.0 entry.1 h × IsDuePool pools entry.0 h) name pool m
      (got, due)

passes-some :
    (latest : String) (o : Option String)
    → passes (λ v. v != latest) o ≡ true
    → (v : String) × (o ≡ some v) × (v ≢ latest)
passes-some latest none e = absurd (ground arith)
passes-some latest (some v) e = (v, refl, λ same. ground arith)

settled_ne : (s t : String) → s ≡ t → (s != t) ≡ false
settled_ne s t e = ground arith

unsettled_ne : (s t : String) → s ≢ t → (s != t) ≡ true
unsettled_ne s t e = ground arith

state_of :
    (pool : AgentPool) (s : String)
    → provisioning_state pool ≡ some s
    → (p : PoolProperties) × (pool.properties ≡ some p) × (p.provisioning_state ≡ some s)
state_of pool s = go pool.properties
  where
    go :
        (o : Option PoolProperties)
        → elim o [ none ↦ none | some p ↦ p.provisioning_state ] ≡ some s
        → (p : PoolProperties) × (o ≡ some p) × (p.provisioning_state ≡ some s)
    go none e = absurd (ground arith)
    go (some p) e = (p, refl, e)

module _ (services : Services) (pools : List String) where
  module _ (all : List Node) where
    abbrev Seen : History → Type 0
    Seen = Any (λ e. e ≡ listed_nodes (answered all))

    Run-check_version :
        (m : Outdated) (entry : String × String) {h : History}
        → In entry (image_versions pools all [])
        → Seen h
        → AllDue pools m.1 h
        → Run Reading (λ out g. Seen g × AllDue pools out.1 g) h (check_version services m entry h)
    unfolding check_version add_pool
    Run-check_version m (name, version) known seen due =
        Run-bind _ _ (Run-get_node_pool_upgrade_profile services name) (λ latest g grown read.
          Run-bind _ _ (Run-get_nodes_by_node_pool services name) (λ nodes g' grown' listed.
            let grown'' = Grows-trans grown grown' in
            let due' = Grows-AllDue pools m.1 grown'' due in
            let seen' = Grows-Any grown'' seen in
            Run-if (version != latest) _ _
              (λ old.
                let (watched, is_old) =
                  image_versions-old pools all (λ v. v != latest) name version known old in
                let is_due : IsDuePool pools name g' = (
                  contains-In pools name watched,
                  inl (all, latest, seen', Grows-Any grown' read, passes-some latest _ is_old),
                ) in
                Run-bind _ _ (Run-get_node_pool_by_name services name) (λ pool g'' grown3 got.
                  Run-pure _ (
                    Grows-Any grown3 seen',
                    AllDue-insert pools name pool m.1 got (Grows-IsDuePool pools name grown3 is_due)
                        (Grows-AllDue pools m.1 grown3 due'),
                  )))
              (λ same. Run-pure _ (seen', due'))))

  pub Run-update_needed :
      {h : History} → Run Reading (λ out. AllDue pools out.1) h (update_needed services pools h)
  unfolding update_needed
  Run-update_needed =
      Run-bind _ _ (Run-get_node_image_versions services pools) (λ versions g grown (all, seen, e).
        Run-bind
          {M = λ entries g'.
            (x : String × String) → In x entries → In x (image_versions pools all [])}
          _ _
          (Run-range services versions tt
            (λ picks x m. subst (λ vs. In x vs) e (In-shuffle picks x versions m)))
          (λ entries g' grown' sub.
            Run-weaken
              (Run-fold_each {J = λ out g''. Seen all g'' × AllDue pools out.1 g''} entries _ _
                (Grows-Any grown' seen, tt)
                (λ m x g'' member j. Run-check_version all m x (sub x member) j.0 j.1))
              (λ out g'' grown'' j. j.1)))

  pub Run-get_not_ready_node_pools :
      {h : History} → Run Reading (AllDue pools) h (get_not_ready_node_pools services pools h)
  unfolding get_not_ready_node_pools check_ready add_unready
  Run-get_not_ready_node_pools = Run-fold_each pools _ _ tt (λ m name g member due.
      Run-bind _ _ (Run-on_error _ _ (Run-get_node_pool_by_name services name))
        (λ pool g' grown got. Run-pure _ (
          added m name member pool (provisioning_state pool) refl got
            (Grows-AllDue pools m grown due))))
    where
      added :
          (m : Dict AgentPool) (name : String)
          → In name pools
          → (pool : AgentPool) (s : Option String) {g : History} → provisioning_state pool ≡ s
          → GotPool name pool g
          → AllDue pools m g
          → AllDue pools (add_unready name pool s m) g
      added m name member pool none e got due = due
      added m name member pool (some s) e got due = elim (string_dec s "Succeeded") [
        | yes final ↦ rw (settled_ne s "Succeeded" final) due
        | no other ↦ rw (unsettled_ne s "Succeeded" other) (
            let (p, has, at) = state_of pool s e in
            AllDue-insert pools name pool m got (member, inr (pool, p, s, got, has, at, other)) due)
      ]
