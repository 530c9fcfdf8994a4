-- ===== src/Nodepool/Outdated.antt =====
-- internal/nodepool/nodepool_controller.go: which pools `UpdateNeeded` returns.
use node_updater.World.Gives.{fold_left}
use node_updater.Nodepool.{
  image_versions, Outdated, add_nodes, nodes_of_pool, update_needed, check_version, add_pool,
}
use node_updater.Base.Dict.{Dict, lookup, insert, lookup-insert}
use node_updater.Base.{
  refl, String, shuffle, List, Bool, ◌≡◌, false, ℕ, some, ◌∷◌, none, ◌&&◌, arith, ap, [],
  if◌then◌else◌, contains, ◌!=◌, true, All-of-In, All-In, In-shuffle,
}
use node_updater.World.{Services, History, answered, pure, ok}
use node_updater.Cluster.{Node, AgentPool}
use node_updater.Nodepool.Queries.{first_version, image_versions_lem}
use node_updater.Nodepool.Answers.{pool-Finds, versions-Finds, profile-Finds, nodes_of-Finds}
use node_updater.Nodepool.Versions.{
  passes, has, has-shuffle, image_versions-IsMap, image_versions-watched,
}
use node_updater.World.Yields.{Yields, Yields-after, Yields-range, Yields-found, Finds-fold_left}
use node_updater.World.Finds.{Finds, Finds-after, Finds-pure}
use node_updater.World.Trace.{Reading}

-- What `UpdateNeeded` finds, where the answers are these.
module _ (nodes : List Node) (latest : String → String) (pool_of : String → AgentPool) where
  abbrev round : Outdated → String × String → Outdated
  round (old_nodes, old_pools) (name, version) =
      if version != latest name
      then (add_nodes (nodes_of_pool name nodes) old_nodes, insert name (pool_of name) old_pools)
      else (old_nodes, old_pools)

  lookup-rounds :
      (entries : Dict String) (acc : Outdated) (n : String)
      → lookup n (fold_left round acc entries).1
        ≡ (if has n (λ v. v != latest n) entries then some (pool_of n) else lookup n acc.1)
  unfolding fold_left
  lookup-rounds [] acc n = refl
  lookup-rounds ((name, version) ∷ entries) acc n =
      let ih = lookup-rounds entries (round acc (name, version)) n in
      let step = lookup-insert name n (pool_of name) acc.1 in ground arith

  due_lem :
      (pools : List String) (picks : ℕ → ℕ) (name : String)
      → lookup name (fold_left round ([], []) (shuffle picks (image_versions pools nodes []))).1 ≡ (
          if contains pools name && passes (λ v. v != latest name) (first_version name nodes)
          then some (pool_of name)
          else none)
  unfolding lookup
  due_lem pools picks name =
      let f : String → Bool = λ v. v != latest name in
      let m : Dict String = image_versions pools nodes [] in
      let result = lookup-rounds (shuffle picks m) ([], []) name in
      let same = has-shuffle name f picks m in
      let found = image_versions-IsMap pools nodes [] (λ n g. refl) name f in
      let version = image_versions_lem pools nodes name in ground arith

  -- A map that has just the watched pools with an old image.
  abbrev pub IsOutdated : List String → Outdated → Type 0
  IsOutdated pools out =
      (name : String)
      → lookup name out.1 ≡ (
          if contains pools name && passes (λ v. v != latest name) (first_version name nodes)
          then some (pool_of name)
          else none)

module _ (services : Services) (nodes : List Node) (latest : String → String)
    (pool_of : String → AgentPool) (lists : (h : History) → services.list_nodes h ≡ answered nodes)
    (profiles : (h : History) (name : String)
      → services.get_upgrade_profile h name
        ≡ answered (record { properties = some (some (latest name)) })) where
  round-Finds :
      (name version : String) (acc : Outdated)
      → ((h : History) → services.get_pool h name ≡ answered (pool_of name))
      → Finds Reading
          (check_version services acc (name, version))
          (some (round nodes latest pool_of acc (name, version)))
  unfolding check_version add_pool
  round-Finds name version acc read =
      Finds-after _ (profile-Finds services name (latest name) (λ h. profiles h name))
        (Finds-after _ (nodes_of-Finds services nodes lists name) (go (version != latest name)))
    where
      go :
          (b : Bool)
          → Finds Reading
              (if b then add_pool services name (nodes_of_pool name nodes) acc else pure acc)
              (some (
                if b
                then (add_nodes (nodes_of_pool name nodes) acc.0, insert name (pool_of name) acc.1)
                else (acc.0, acc.1)))
      go true = Finds-after _ (pool-Finds services name _ read) (Finds-pure _)
      go false = Finds-pure acc

  -- The pools need to be answered for the watched names only.
  pub update_needed-Yields :
      (pools : List String)
      → ((h : History) (name : String)
          → contains pools name ≡ true
          → services.get_pool h name ≡ answered (pool_of name))
      → Yields Reading (update_needed services pools) (IsOutdated nodes latest pool_of pools)
  unfolding update_needed
  update_needed-Yields pools read =
      let versions = image_versions pools nodes [] in
      let watched = image_versions-watched pools nodes in
      Yields-after _ (versions-Finds services nodes lists pools) (
        Yields-range services versions _ _ (λ h. tt)
          (λ picks.
            Yields-found _
              (Finds-fold_left (round nodes latest pool_of) _ _
                (All-of-In _ _ (λ e m acc.
                  let known = All-In _ versions e watched (In-shuffle picks e versions m) in
                  round-Finds e.0 e.1 acc (λ h. read h e.0 known)))
                ([], []))
              (due_lem nodes latest pool_of pools picks)))

  module _
      (read : (h : History) (name : String)
        → services.get_pool h name ≡ answered (pool_of name)) where
    -- If the nodes, the latest image of each pool and each pool are answered the same at any time,
    -- `UpdateNeeded` returns, and its map of pools has just those watched pools whose first node with
    -- an image version has another one than the latest, each as it was answered, in whatever order
    -- the versions are visited.
    pub update_needed_lem :
        (pools : List String) (h : History)
        → (out : Outdated) × ((update_needed services pools h).0 ≡ ok out)
          × ((name : String)
              → lookup name out.1 ≡ (
                  if contains pools name
                    && passes (λ v. v != latest name) (first_version name nodes)
                  then some (pool_of name)
                  else none))
    update_needed_lem pools h =
        let (out, h', e, due, g) =
          (update_needed-Yields pools (λ h1 name known. read h1 name)).at h in
        (out, ap (λ o. o.0) e, due)
