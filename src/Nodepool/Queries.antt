-- ===== src/Nodepool/Queries.antt =====
-- internal/nodepool/nodepool_controller.go: what the loops of the queries compute, by independent
-- descriptions.
use node_updater.Base.{
  String, ◌≡◌, Bool, false, Option, none, some, List, [], ◌∷◌, if◌then◌else◌, arith, ◌==◌, contains,
  ◌&&◌,
}
use node_updater.Nodepool.{image_versions, record_version, pool_label, version_label}
use node_updater.Base.Dict.{lookup, Dict, lookup-insert}
use node_updater.Cluster.{Node}

abbrev pub or_else : {A : Type 0} → Option A → Option A → Option A
or_else none b = b
or_else (some a) b = some a

abbrev pub in_pool : String → Node → Bool
in_pool pool node = elim (lookup pool_label node.labels) [ none ↦ false | some name ↦ name == pool ]

-- The image version of the first node of the pool that has one.
abbrev pub first_version : String → List Node → Option String
first_version pool [] = none
first_version pool (node ∷ nodes) =
    let rest = first_version pool nodes in
    if in_pool pool node then or_else (lookup version_label node.labels) rest else rest

abbrev visit : List String → Node → Dict String → Dict String
visit pools node versions = elim (lookup pool_label node.labels) [
  | none ↦ versions
  | some pool ↦ record_version pools pool (lookup version_label node.labels) versions
]

lookup-record_version :
    (pools : List String) (p : String) (v : Option String) (versions : Dict String) (pool : String)
    → lookup pool (record_version pools p v versions)
      ≡ or_else (lookup pool versions) (if contains pools pool && p == pool then v else none)
unfolding record_version
lookup-record_version pools p none versions pool = ground arith
lookup-record_version pools p (some v) versions pool =
    let inserted = lookup-insert p pool v versions in ground (arith, inserted)

lookup-visit :
    (pools : List String) (node : Node) (versions : Dict String) (pool : String)
    → lookup pool (visit pools node versions)
      ≡ or_else (lookup pool versions) (
          if contains pools pool && in_pool pool node
          then lookup version_label node.labels
          else none)
lookup-visit pools node versions pool = go (lookup pool_label node.labels)
  where
    go :
        (label : Option String)
        → lookup pool (elim label [
          | none ↦ versions
          | some p ↦ record_version pools p (lookup version_label node.labels) versions
        ])
          ≡ or_else (lookup pool versions) (
              if contains pools pool && elim label [ none ↦ false | some name ↦ name == pool ]
              then lookup version_label node.labels
              else none)
    go none = ground arith
    go (some p) = lookup-record_version pools p (lookup version_label node.labels) versions pool

lookup-image_versions :
    (pools : List String) (nodes : List Node) (versions : Dict String) (pool : String)
    → lookup pool (image_versions pools nodes versions)
      ≡ or_else
          (lookup pool versions)
          (if contains pools pool then first_version pool nodes else none)
unfolding image_versions
lookup-image_versions pools [] versions pool = ground arith
lookup-image_versions pools (node ∷ nodes) versions pool =
    let ih = lookup-image_versions pools nodes (visit pools node versions) pool in
    let step = lookup-visit pools node versions pool in ground (arith, ih, step)

-- `getNodeImageVersions` finds, for a watched pool, the version of the pool's first node that has
-- one, and nothing for any other pool. The other nodes of the pool do not count.
pub image_versions_lem :
    (pools : List String) (nodes : List Node) (pool : String)
    → lookup pool (image_versions pools nodes [])
      ≡ (if contains pools pool then first_version pool nodes else none)
unfolding lookup
image_versions_lem pools nodes pool = lookup-image_versions pools nodes [] pool
