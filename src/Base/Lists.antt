-- ===== src/Base/Lists.antt =====
-- Lists: searches, predicates on the elements, and the order of a Go `range` over a map.
use Prim.Native.Nat.{ℕ, zero, suc}
use Prim.Native.String.{String}
use mathlib.Core.Path.{◌≡◌, refl, subst}
use mathlib.Core.Bool.{Bool, true, false}
use mathlib.Core.List.{List, [], ◌∷◌, ◌++◌, Perm}
use mathlib.Core.List.Perm
use native.Mathlib.Omega.{arith}
use node_updater.Base.Tests.{◌==◌, string_dec, if◌then◌else◌}

-- `slices.Contains`, and the program's own loops that search a slice of strings.
unfoldable pub contains : List String → String → Bool
contains [] s = false
contains (x ∷ xs) s = let rest = contains xs s in if x == s then true else rest

-- Some element satisfies the predicate.
pub data Any {ℓ κ} {A : Type ℓ} (P : A → Type κ) : List A → Type (ℓ ⊔ κ) where
  first : {x : A} {xs : List A} → P x → Any P (x ∷ xs)
  later : {x : A} {xs : List A} → Any P xs → Any P (x ∷ xs)

pub Any-map {ℓ κ μ} :
    {A : Type ℓ} {P : A → Type κ} {Q : A → Type μ} {xs : List A}
    → ((x : A) → P x → Q x)
    → Any P xs
    → Any Q xs
Any-map sub (first {x} p) = first (sub x p)
Any-map sub (later a) = later (Any-map sub a)

-- The element stands in the list.
abbrev pub In {ℓ} : {A : Type ℓ} → A → List A → Type ℓ
In a = Any (λ b. b ≡ a)

pub contains-In : (xs : List String) (s : String) → contains xs s ≡ true → In s xs
unfolding contains
contains-In [] s h = absurd (ground arith)
contains-In (x ∷ xs) s h = elim (string_dec x s) [
  | yes e ↦ first e
  | no differ ↦ later (contains-In xs s (ground arith))
]

module _ {ℓ κ} {A : Type ℓ} where
  -- Every element satisfies the predicate.
  abbrev pub All : (A → Type κ) → List A → Type κ
  All P [] = Unit
  All P (x ∷ xs) = P x × All P xs

  pub All-append : (P : A → Type κ) (xs ys : List A) → All P xs → All P ys → All P (xs ++ ys)
  All-append P [] ys hx hy = hy
  All-append P (x ∷ xs) ys hx hy = (hx.0, All-append P xs ys hx.1 hy)

-- A `range` over a map visits its entries in an order that the runtime picks anew each time. The
-- picks say where each entry goes among the later ones.
module _ {ℓ} {A : Type ℓ} where
  abbrev pub insert_at : ℕ → A → List A → List A
  insert_at n x [] = x ∷ []
  insert_at zero x (y ∷ ys) = x ∷ y ∷ ys
  insert_at (suc n) x (y ∷ ys) = y ∷ insert_at n x ys

  unfoldable pub shuffle : (ℕ → ℕ) → List A → List A
  shuffle picks [] = []
  shuffle picks (x ∷ xs) = insert_at (picks 0) x (shuffle (λ n. picks (suc n)) xs)

  insert_at-perm : (n : ℕ) (x : A) (xs : List A) → Perm (insert_at n x xs) (x ∷ xs)
  insert_at-perm n x [] = Perm.refl (x ∷ [])
  insert_at-perm zero x (y ∷ ys) = Perm.refl (x ∷ y ∷ ys)
  insert_at-perm (suc n) x (y ∷ ys) =
      Perm.trans (Perm.cons y (insert_at-perm n x ys)) (Perm.swap x y ys)

  -- Whatever the picks, every entry is visited, and once.
  pub shuffle-perm : (picks : ℕ → ℕ) (xs : List A) → Perm (shuffle picks xs) xs
  unfolding shuffle
  shuffle-perm picks [] = Perm.refl []
  shuffle-perm picks (x ∷ xs) =
      Perm.trans (insert_at-perm (picks 0) x (shuffle (λ n. picks (suc n)) xs))
        (Perm.cons x (shuffle-perm (λ n. picks (suc n)) xs))

module _ {ℓ} {A : Type ℓ} where
  In-insert_at : (n : ℕ) (x y : A) (xs : List A) → In y (insert_at n x xs) → In y (x ∷ xs)
  In-insert_at n x y [] m = m
  In-insert_at zero x y (z ∷ zs) m = m
  In-insert_at (suc n) x y (z ∷ zs) (first e) = later (first e)
  In-insert_at (suc n) x y (z ∷ zs) (later m) = step (In-insert_at n x y zs m)
    where
      step : In y (x ∷ zs) → In y (x ∷ z ∷ zs)
      step (first e) = first e
      step (later k) = later (later k)

  -- What a `range` visits stands in the map.
  pub In-shuffle : (picks : ℕ → ℕ) (y : A) (xs : List A) → In y (shuffle picks xs) → In y xs
  unfolding shuffle
  In-shuffle picks y [] m = elim m [ ]
  In-shuffle picks y (x ∷ xs) m =
      step (In-insert_at (picks 0) x y (shuffle (λ n. picks (suc n)) xs) m)
        (In-shuffle (λ n. picks (suc n)) y xs)
    where
      step :
          In y (x ∷ shuffle (λ n. picks (suc n)) xs)
          → (In y (shuffle (λ n. picks (suc n)) xs) → In y xs)
          → In y (x ∷ xs)
      step (first e) ih = first e
      step (later k) ih = later (ih k)

module _ {ℓ κ} {A : Type ℓ} (P : A → Type κ) where
  pub All-In : (xs : List A) (y : A) → All P xs → In y xs → P y
  All-In [] y a m = elim m [ ]
  All-In (x ∷ xs) y a (first e) = subst P e a.0
  All-In (x ∷ xs) y a (later m) = All-In xs y a.1 m

  pub All-of-In : (xs : List A) → ((y : A) → In y xs → P y) → All P xs
  All-of-In [] h = tt
  All-of-In (x ∷ xs) h = (h x (first refl), All-of-In xs (λ y m. h y (later m)))

  pub All-map {μ} : {Q : A → Type μ} (xs : List A) → ((x : A) → P x → Q x) → All P xs → All Q xs
  All-map [] sub a = tt
  All-map (x ∷ xs) sub a = (sub x a.0, All-map xs sub a.1)
