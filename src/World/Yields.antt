-- ===== src/World/Yields.antt =====
-- Actions that return a value of which something is known, after calls that a policy allows.
use node_updater.World.Gives.{fold_left}
use node_updater.World.Trace.{Policy, Grows-trans, Grows, more, here}
use node_updater.World.{Exec, ◌>>=◌, fold_each, on_error, range, History, Services, ranged, ok}
use node_updater.Base.{List, ◌≡◌, some, All, ℕ, shuffle, ◌∷◌, refl, []}
use node_updater.World.Finds.{Finds, Finds-pure, Finds-after}

-- The action returns a value that satisfies `P`, after calls that the policy allows.
pub record Yields {E A : Type 0} (K : Policy) (m : Exec E A) (P : A → Type 0) : Type 0 where
  pub at : (h : History) → (a : A) × (h' : History) × (m h ≡ (ok a, h')) × P a × Grows K h h'

module _ {K : Policy} where
  -- A loop whose rounds give the values of a function.
  pub Finds-fold_left :
      {E A S : Type 0} (f : S → A → S) (body : S → A → Exec E S) (xs : List A)
      → All (λ x. (s : S) → Finds K (body s x) (some (f s x))) xs
      → (s : S) → Finds K (fold_each xs s body) (some (fold_left f s xs))
  unfolding fold_each fold_left
  Finds-fold_left f body [] a s = Finds-pure s
  Finds-fold_left f body (x ∷ xs) a s =
      Finds-after _ (a.0 s) (Finds-fold_left f body xs a.1 (f s x))

  pub Yields-found :
      {E A : Type 0} {m : Exec E A} {P : A → Type 0} (a : A)
      → Finds K m (some a)
      → P a
      → Yields K m P
  Yields-found a found p = record { at = λ h. let (h', e, g) = found.at h in (a, h', e, p, g) }

  pub Yields-after :
      {E A B : Type 0} {m : Exec E A} (f : A → Exec E B) {a : A} {P : B → Type 0}
      → Finds K m (some a)
      → Yields K (f a) P
      → Yields K (m >>= f) P
  unfolding ◌>>=◌
  Yields-after f found next = record {
    at = λ h.
        let (h', e, g) = found.at h in
        let (b, h'', e', p, g') = next.at h' in (b, h'', simp e e', p, Grows-trans g g');
  }

  -- The entries of a map, in any order.
  pub Yields-range :
      {E A B : Type 0} (s : Services) (m : List A) (f : List A → Exec E B) (P : B → Type 0)
      → ((h : History) → K ranged h)
      → ((picks : ℕ → ℕ) → Yields K (f (shuffle picks m)) P)
      → Yields K (range s m >>= f) P
  unfolding range ◌>>=◌
  Yields-range s m f P k next = record {
    at = λ h.
        let (b, h', e, p, g) = (next (s.order h)).at (ranged ∷ h) in
        (b, h', e, p, Grows-trans (more here (k h)) g);
  }

  pub Yields-on_error :
      {E F A : Type 0} (f : E → F) {m : Exec E A} {P : A → Type 0}
      → Yields K m P
      → Yields K (on_error f m) P
  unfolding on_error
  Yields-on_error f yields = record {
    at = λ h. let (a, h', e, p, g) = yields.at h in (a, h', simp e refl, p, g);
  }
