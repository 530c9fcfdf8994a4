-- ===== src/World/Finds.antt =====
-- Actions that return the value of an option, or an error where there is none, after calls that a
-- policy allows.
use node_updater.Base.{
  ◌≡◌, refl, Bool, true, false, Option, some, none, ◌∷◌, if◌then◌else◌, ap, List, All, [], ℕ,
  shuffle,
}
use node_updater.World.{
  Exec, Event, History, ok, err, Reply, answered, ◌>>=◌, on_error, call, pure, throw, consult,
  fold_each, range, Services, ranged,
}
use node_updater.World.Trace.{Policy, Grows, Grows-trans, here, more}

abbrev pub FindsAt : {E A : Type 0} → Policy → Exec E A → Option A → History → Type 0
FindsAt K m (some a) h = (h' : History) × (m h ≡ (ok a, h')) × Grows K h h'
FindsAt {E} K m none h = (e : E) × (h' : History) × (m h ≡ (err e, h')) × Grows K h h'

pub record Finds {E A : Type 0} (K : Policy) (m : Exec E A) (o : Option A) : Type 0 where
  pub at : (h : History) → FindsAt K m o h

abbrev pub and_then : {A B : Type 0} → Option A → (A → Option B) → Option B
and_then none k = none
and_then (some a) k = k a

module _ {K : Policy} where
  extends :
      {E A B : Type 0} (m : Exec E A) (f : A → Exec E B) (a : A) (o : Option B) (h h' : History)
      → m h ≡ (ok a, h')
      → Grows K h h'
      → FindsAt K (f a) o h'
      → FindsAt K (m >>= f) o h
  unfolding ◌>>=◌
  extends m f a (some b) h h' e g (h'', e', g') = (h'', simp e e', Grows-trans g g')
  extends m f a none h h' e g (x, h'', e', g') = (x, h'', simp e e', Grows-trans g g')

  pub Finds-bind :
      {E A B : Type 0} {m : Exec E A} (f : A → Exec E B) {o : Option A} (k : A → Option B)
      → Finds K m o
      → ((a : A) → Finds K (f a) (k a))
      → Finds K (m >>= f) (and_then o k)
  unfolding ◌>>=◌
  Finds-bind {E} {A} {B} {m} f {o} k found next = record { at = λ h. go o h (found.at h) next }
    where
      go :
          (o' : Option A) (h : History)
          → FindsAt K m o' h
          → ((a : A) → Finds K (f a) (k a))
          → FindsAt K (m >>= f) (and_then o' k) h
      go (some a) h (h', e, g) next' = extends m f a (k a) h h' e g ((next' a).at h')
      go none h (x, h', e, g) next' = (x, h', simp e refl, g)

  -- After an action that is known to return a value.
  pub Finds-after :
      {E A B : Type 0} {m : Exec E A} (f : A → Exec E B) {a : A} {o : Option B}
      → Finds K m (some a)
      → Finds K (f a) o
      → Finds K (m >>= f) o
  Finds-after {E} {A} {B} {m} f {a} {o} found next = record {
    at = λ h. let (h', e, g) = found.at h in extends m f a o h h' e g (next.at h');
  }

  pub Finds-pure : {E A : Type 0} (a : A) → Finds {E = E} K (pure a) (some a)
  unfolding pure
  Finds-pure a = record { at = λ h. (h, refl, here) }

  pub Finds-throw : {E A : Type 0} (e : E) → Finds {A = A} K (throw e) none
  unfolding throw
  Finds-throw e = record { at = λ h. (e, h, refl, here) }

  pub Finds-on_error :
      {E F A : Type 0} (f : E → F) {m : Exec E A} {o : Option A}
      → Finds K m o
      → Finds K (on_error f m) o
  unfolding on_error
  Finds-on_error {E} {F} {A} f {m} {o} found = record { at = λ h. go o h (found.at h) }
    where
      go : (o' : Option A) (h : History) → FindsAt K m o' h → FindsAt K (on_error f m) o' h
      go (some a) h (h', e, g) = (h', simp e refl, g)
      go none h (x, h', e, g) = (f x, h', simp e refl, g)

  pub Finds-consult :
      {A : Type 0} {r : Reply A} {a : A} → r ≡ answered a → Finds K (consult r) (some a)
  unfolding consult
  Finds-consult e = record { at = λ h. (h, simp e refl, here) }

  pub Finds-call :
      {A : Type 0} {ask : History → Reply A} (event : Reply A → Event) {a : A}
      → ((h : History) → ask h ≡ answered a)
      → ((h : History) → K (event (answered a)) h)
      → Finds K (call ask event) (some a)
  unfolding call
  Finds-call {A} {ask} event {a} e k = record {
    at = λ h. (event (answered a) ∷ h, simp (e h) refl, more here (k h));
  }

  pub Finds-if :
      {E A : Type 0} (b : Bool) {m n : Exec E A} {o p : Option A}
      → Finds K m o
      → Finds K n p
      → Finds K (if b then m else n) (if b then o else p)
  Finds-if true found other = found
  Finds-if false found other = other

  -- The entries of a map, in any order.
  pub Finds-range :
      {E A B : Type 0} (s : Services) (m : List A) (f : List A → Exec E B) (o : Option B)
      → ((h : History) → K ranged h)
      → ((picks : ℕ → ℕ) → Finds K (f (shuffle picks m)) o)
      → Finds K (range s m >>= f) o
  unfolding range
  Finds-range s m f o k found = record {
    at = λ h.
        extends _ f (shuffle (s.order h) m) o h (ranged ∷ h) refl (more here (k h))
          ((found (s.order h)).at (ranged ∷ h));
  }

  pub Finds-range_empty :
      {E A : Type 0} (s : Services)
      → ((h : History) → K ranged h)
      → Finds {E = E} {A = List A} K (range s []) (some [])
  unfolding range shuffle
  Finds-range_empty s k = record { at = λ h. (ranged ∷ h, refl, more here (k h)) }

  -- A loop whose rounds leave its variable as it is.
  pub Finds-fold_same :
      {E A S : Type 0} (s : S) (body : S → A → Exec E S) (xs : List A)
      → All (λ x. Finds K (body s x) (some s)) xs
      → Finds K (fold_each xs s body) (some s)
  unfolding fold_each
  Finds-fold_same s body [] a = Finds-pure s
  Finds-fold_same s body (x ∷ xs) a = Finds-after _ a.0 (Finds-fold_same s body xs a.1)

-- The action comes, after calls that the policy allows, to what the other one does.
pub record Reaches {E A : Type 0} (K : Policy) (m n : Exec E A) : Type 0 where
  pub from : (h : History) → (h' : History) × Grows K h h' × (m h ≡ n h')

module _ {K : Policy} where
  pub Reaches-refl : {E A : Type 0} {m n : Exec E A} → m ≡ n → Reaches K m n
  Reaches-refl e = record { from = λ h. (h, here, ap (λ m. m h) e) }

  pub Reaches-after :
      {E A B : Type 0} {m : Exec E A} (f : A → Exec E B) {a : A} {n : Exec E B}
      → Finds K m (some a)
      → Reaches K (f a) n
      → Reaches K (m >>= f) n
  unfolding ◌>>=◌
  Reaches-after f found next = record {
    from = λ h.
        let (h', e, g) = found.at h in
        let (h'', g', e') = next.from h' in (h'', Grows-trans g g', simp e e');
  }
