-- ===== src/Nodepool/Versions.antt =====
-- internal/nodepool/nodepool_controller.go: the map of image versions, and its entries.
use node_updater.Base.{
  [], List, shuffle, String, Option, Bool, true, ◌!=◌, ℕ, some, All, ◌∷◌, false, ◌≡◌, contains,
  ◌==◌, ◌∙◌, if◌then◌else◌, none, insert_at, arith, ap, ◌&&◌, Bool-cases, refl, suc, zero, inl,
  ◌||◌, string_dec, inr, In, first, later,
}
use node_updater.Base.Dict.{Dict, lookup, insert, lookup-insert}
use node_updater.Nodepool.{record_version, image_versions, version_label, pool_label}
use node_updater.Cluster.{Node}
use node_updater.Nodepool.Queries.{first_version, image_versions_lem}

-- An entry of the key has a value that passes the test.
abbrev pub has : String → (String → Bool) → Dict String → Bool
has n f [] = false
has n f ((k, v) ∷ m) = let rest = has n f m in k == n && f v || rest

has-insert :
    (n : String) (f : String → Bool) (k v : String) (m : Dict String)
    → lookup k m ≡ none
    → has n f (insert k v m) ≡ (k == n && f v || has n f m)
unfolding lookup insert
has-insert n f k v [] e = refl
has-insert n f k v ((j, w) ∷ m) e = elim (string_dec j k) [
  | yes same ↦ absurd (ground arith)
  | no differ ↦ let ih = has-insert n f k v m (ground arith) in ground arith
]

has-insert_at :
    (n : String) (f : String → Bool) (i : ℕ) (e : String × String) (m : Dict String)
    → has n f (insert_at i e m) ≡ has n f (e ∷ m)
has-insert_at n f i e [] = refl
has-insert_at n f zero e (x ∷ m) = refl
has-insert_at n f (suc i) e (x ∷ m) = let ih = has-insert_at n f i e m in ground arith

pub has-shuffle :
    (n : String) (f : String → Bool) (picks : ℕ → ℕ) (m : Dict String)
    → has n f (shuffle picks m) ≡ has n f m
unfolding shuffle
has-shuffle n f picks [] = refl
has-shuffle n f picks (e ∷ m) =
    has-insert_at n f (picks 0) e _
    ∙ ap (λ b. e.0 == n && f e.1 || b) (has-shuffle n f (λ i. picks (suc i)) m)

abbrev pub passes : (String → Bool) → Option String → Bool
passes f none = false
passes f (some v) = f v

-- The entries of a key are what a lookup of it finds.
abbrev pub IsMap : Dict String → Type 0
IsMap m = (n : String) (f : String → Bool) → has n f m ≡ passes f (lookup n m)

record_version-IsMap :
    (pools : List String) (p : String) (v : Option String) (m : Dict String)
    → IsMap m
    → IsMap (record_version pools p v m)
unfolding record_version
record_version-IsMap pools p none m i = i
record_version-IsMap pools p (some v) m i = go (contains pools p) (lookup p m) refl
  where
    go :
        (b : Bool) (o : Option String)
        → lookup p m ≡ o
        → IsMap (if b then elim o [ none ↦ insert p v m | some old ↦ m ] else m)
    go false o e n f = i n f
    go true (some old) e n f = i n f
    go true none e n f =
        let entries = has-insert n f p v m e in
        let found = lookup-insert p n v m in let before = i n f in ground arith

pub image_versions-IsMap :
    (pools : List String) (nodes : List Node) (m : Dict String)
    → IsMap m
    → IsMap (image_versions pools nodes m)
unfolding image_versions
image_versions-IsMap pools [] m i = i
image_versions-IsMap pools (node ∷ nodes) m i =
    image_versions-IsMap pools nodes _ (visit-IsMap (lookup pool_label node.labels))
  where
    visit-IsMap :
        (label : Option String)
        → IsMap (elim label [
          | none ↦ m
          | some pool ↦ record_version pools pool (lookup version_label node.labels) m
        ])
    visit-IsMap none = i
    visit-IsMap (some pool) = record_version-IsMap pools pool (lookup version_label node.labels) m i

none-has :
    (latest : String → String) (m : Dict String)
    → ((n : String) → has n (λ v. v != latest n) m ≡ false)
    → All (λ e. (e.1 != latest e.0) ≡ false) m
none-has latest [] h = tt
none-has latest ((k, v) ∷ m) h =
    (let mine = h k in ground arith, none-has latest m (λ n. let other = h n in ground arith))

-- If the first version in each watched pool is the latest, so are all that are found.
pub image_versions-All :
    (pools : List String) (nodes : List Node) (latest : String → String)
    → ((n : String)
        → contains pools n ≡ true
        → passes (λ v. v != latest n) (first_version n nodes) ≡ false)
    → All (λ e. (e.1 != latest e.0) ≡ false) (image_versions pools nodes [])
unfolding lookup
image_versions-All pools nodes latest current = none-has latest _ (λ n.
    let found = image_versions-IsMap pools nodes [] (λ n' g. refl) n (λ v. v != latest n) in
    let version = image_versions_lem pools nodes n in
    elim (Bool-cases (contains pools n)) [
      | inl watched ↦ let same = current n watched in ground arith
      | inr other ↦ ground arith
    ])

has-All :
    (pools : List String) (m : Dict String)
    → ((n : String) → has n (λ v. true) m ≡ true → contains pools n ≡ true)
    → All (λ e. contains pools e.0 ≡ true) m
has-All pools [] h = tt
has-All pools ((k, v) ∷ m) h = (h k (ground arith), has-All pools m (λ n e. h n (ground arith)))

-- Versions are found for watched pools only.
pub image_versions-watched :
    (pools : List String) (nodes : List Node)
    → All (λ e. contains pools e.0 ≡ true) (image_versions pools nodes [])
unfolding lookup
image_versions-watched pools nodes = has-All pools _ (λ n e.
    let found = image_versions-IsMap pools nodes [] (λ n' g. refl) n (λ v. true) in
    let version = image_versions_lem pools nodes n in ground arith)

In-has :
    (n v : String) (f : String → Bool) (m : Dict String)
    → In (n, v) m
    → f v ≡ true
    → has n f m ≡ true
In-has n v f [] i t = elim i [ ]
In-has n v f ((k, w) ∷ m) (first e) t =
    let key = ap (λ x. x.0) e in let value = ap (λ x. f x.1) e in ground arith
In-has n v f ((k, w) ∷ m) (later i) t = let rest = In-has n v f m i t in ground arith

-- An entry that passes the test is that of a watched pool, whose first version passes it.
pub image_versions-old :
    (pools : List String) (nodes : List Node) (f : String → Bool) (n v : String)
    → In (n, v) (image_versions pools nodes [])
    → f v ≡ true
    → (contains pools n ≡ true) × (passes f (first_version n nodes) ≡ true)
unfolding lookup
image_versions-old pools nodes f n v i t =
    let found = image_versions-IsMap pools nodes [] (λ n' g. refl) n f in
    let version = image_versions_lem pools nodes n in
    let stands = In-has n v f _ i t in (ground arith, ground arith)
