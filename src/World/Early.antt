-- ===== src/World/Early.antt =====
-- What an action raises: rules for each way to build an action.
use node_updater.Base.{Bool, true, false, Option, none, some, List, [], ◌∷◌, if◌then◌else◌}
use node_updater.World.{
  attempt, throw, Outcome, deref, pure, range, fold_each, ◌>>=◌, for_each, Exec, on_error, relabel,
  ok, History, Services, continue, err, as_tried, panic,
}
use node_updater.Cluster.{Error}

-- What is returned satisfies the first predicate, and what is raised the second.
pub data Early {E A : Type 0} (V : A → Type 0) (T : E → Type 0) : Outcome E A → Type 0 where
  value : {a : A} → V a → Early V T (ok a)
  raise : {e : E} → T e → Early V T (err e)
  stop : Early V T panic

abbrev pub Closes : {E A : Type 0} → (A → Type 0) → (E → Type 0) → Exec E A → Type 0
Closes V T m = (h : History) → Early V T (m h).0

abbrev pub Leaves : {E A : Type 0} → (E → Type 0) → Exec E A → Type 0
Leaves T = Closes (λ a. Unit {0}) T

module _ {E : Type 0} {T : E → Type 0} where
  Early-continue :
      {A B : Type 0} {V : B → Type 0} (f : A → Exec E B) (r : Outcome E A) (h : History)
      → Early (λ a. Unit {0}) T r
      → ((a : A) → Closes V T (f a))
      → Early V T (continue r f h).0
  Early-continue f (ok a) h (value u) k = k a h
  Early-continue f (err e) h (raise t) k = raise t
  Early-continue f panic h stop k = stop

  pub Leaves-bind :
      {A B : Type 0} {V : B → Type 0} (m : Exec E A) (f : A → Exec E B)
      → Leaves T m
      → ((a : A) → Closes V T (f a))
      → Closes V T (m >>= f)
  unfolding ◌>>=◌
  Leaves-bind m f t k h = Early-continue f (m h).0 (m h).1 (t h) k

  pub Closes-pure : {A : Type 0} {V : A → Type 0} (a : A) → V a → Closes V T (pure a)
  unfolding pure
  Closes-pure a v h = value v

  pub Leaves-pure : {A : Type 0} (a : A) → Leaves T (pure a)
  Leaves-pure a = Closes-pure a tt

  pub Leaves-throw : {A : Type 0} (e : E) → T e → Leaves {A = A} T (throw e)
  unfolding throw
  Leaves-throw e t h = raise t

  pub Leaves-deref : {A : Type 0} (o : Option A) → Leaves T (deref o)
  unfolding deref
  Leaves-deref none h = stop
  Leaves-deref (some a) h = value tt

  pub Leaves-range : {A : Type 0} (s : Services) (xs : List A) → Leaves T (range s xs)
  unfolding range
  Leaves-range s xs h = value tt

  Early-as_tried : {A : Type 0} (r : Outcome Error A) → Early (λ a. Unit {0}) T (as_tried r)
  Early-as_tried (ok a) = value tt
  Early-as_tried (err e) = value tt
  Early-as_tried panic = stop

  pub Leaves-attempt : {A : Type 0} (m : Exec Error A) → Leaves T (attempt m)
  unfolding attempt
  Leaves-attempt m h = Early-as_tried (m h).0

  Early-relabel :
      {F A : Type 0} (f : F → E) (r : Outcome F A)
      → ((e : F) → T (f e))
      → Early (λ a. Unit {0}) T (relabel f r)
  Early-relabel f (ok a) k = value tt
  Early-relabel f (err e) k = raise (k e)
  Early-relabel f panic k = stop

  pub Leaves-on_error :
      {F A : Type 0} (f : F → E) (m : Exec F A) → ((e : F) → T (f e)) → Leaves T (on_error f m)
  unfolding on_error
  Leaves-on_error f m k h = Early-relabel f (m h).0 k

  pub Leaves-if :
      {A : Type 0} (b : Bool) (m n : Exec E A)
      → Leaves T m
      → Leaves T n
      → Leaves T (if b then m else n)
  Leaves-if true m n s t = s
  Leaves-if false m n s t = t

  pub Leaves-for_each :
      {A : Type 0} (xs : List A) (body : A → Exec E (Unit {0}))
      → ((a : A) → Leaves T (body a))
      → Leaves T (for_each xs body)
  unfolding for_each
  Leaves-for_each [] body k = Leaves-pure tt
  Leaves-for_each (x ∷ xs) body k = Leaves-bind (body x) _ (k x) (λ u. Leaves-for_each xs body k)

  pub Leaves-fold_each :
      {A S : Type 0} (xs : List A) (s : S) (body : S → A → Exec E S)
      → ((s : S) (a : A) → Leaves T (body s a))
      → Leaves T (fold_each xs s body)
  unfolding fold_each
  Leaves-fold_each [] s body k = Leaves-pure s
  Leaves-fold_each (x ∷ xs) s body k =
      Leaves-bind (body s x) _ (k s x) (λ s'. Leaves-fold_each xs s' body k)
