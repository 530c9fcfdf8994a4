-- ===== src/World/Total.antt =====
-- Actions that do not panic: rules for each way to build an action.
use node_updater.Base.{
  ◌≡◌, refl, Bool, true, false, Option, some, List, [], ◌∷◌, if◌then◌else◌, All, All-of-In, All-In,
  In-shuffle,
}
use node_updater.World.{
  raised, panic, consult, range, Tried, Reply, History, pure, on_error, for_each, call, attempt,
  ◌>>=◌, throw, Outcome, Exec, fold_each, deref, ok, Services, relabel, answered, Event, continue,
  returned, err, outcome, failed, as_tried,
}
use node_updater.Cluster.{Error, client}

-- A value that satisfies the predicate, or an error, and no panic.
pub data Ends {E A : Type 0} (V : A → Type 0) : Outcome E A → Type 0 where
  value : {a : A} → V a → Ends V (ok a)
  stopped : (e : E) → Ends V (err e)

pub record Total {E A : Type 0} (V : A → Type 0) (m : Exec E A) : Type 0 where
  pub at : (h : History) → Ends V (m h).0

abbrev pub Trivial : {A : Type 0} → A → Type 0
Trivial a = Unit

-- Nothing is said of the value.
abbrev pub Safe : {E A : Type 0} → Exec E A → Type 0
Safe m = Total Trivial m

module _ {E : Type 0} where
  Ends-continue :
      {A B : Type 0} {V : A → Type 0} {W : B → Type 0} (f : A → Exec E B) (r : Outcome E A)
      (h : History)
      → Ends V r
      → ((a : A) → V a → Total W (f a))
      → Ends W (continue r f h).0
  Ends-continue f (ok a) h (value v) k = (k a v).at h
  Ends-continue f (err e) h (stopped _) k = stopped e
  Ends-continue f panic h ends k = elim ends [ ]

  pub Total-bind :
      {A B : Type 0} {V : A → Type 0} {W : B → Type 0} (m : Exec E A) (f : A → Exec E B)
      → Total V m
      → ((a : A) → V a → Total W (f a))
      → Total W (m >>= f)
  unfolding ◌>>=◌
  Total-bind m f t k = record { at = λ h. Ends-continue f (m h).0 (m h).1 (t.at h) k }

  pub Total-pure : {A : Type 0} {V : A → Type 0} (a : A) → V a → Total {E = E} V (pure a)
  unfolding pure
  Total-pure a v = record { at = λ h. value v }

  pub Total-throw : {A : Type 0} {V : A → Type 0} (e : E) → Total {A = A} V (throw e)
  unfolding throw
  Total-throw e = record { at = λ h. stopped e }

  pub Total-deref :
      {A : Type 0} {V : A → Type 0} {o : Option A} (a : A)
      → o ≡ some a
      → V a
      → Total {E = E} V (deref o)
  unfolding deref
  Total-deref a e v = record { at = λ h. rw e (value v) }

  pub Total-range :
      {A : Type 0} (P : A → Type 0) (s : Services) (xs : List A)
      → All P xs
      → Total {E = E} (All P) (range s xs)
  unfolding range
  Total-range P s xs all = record {
    at = λ h. value (All-of-In P _ (λ y m. All-In P xs y all (In-shuffle (s.order h) y xs m)));
  }

  Ends-as_tried :
      {A : Type 0} {V : A → Type 0} {W : Tried A → Type 0} (r : Outcome Error A)
      → Ends V r
      → ((a : A) → V a → W (returned a))
      → ((e : Error) → W (raised e))
      → Ends {E = E} W (as_tried r)
  Ends-as_tried (ok a) (value v) f g = value (f a v)
  Ends-as_tried (err e) (stopped _) f g = value (g e)
  Ends-as_tried panic ends f g = elim ends [ ]

  pub Total-attempt :
      {A : Type 0} {V : A → Type 0} {W : Tried A → Type 0} (m : Exec Error A)
      → Total V m
      → ((a : A) → V a → W (returned a))
      → ((e : Error) → W (raised e))
      → Total {E = E} W (attempt m)
  unfolding attempt
  Total-attempt m t f g = record { at = λ h. Ends-as_tried (m h).0 (t.at h) f g }

  Ends-relabel :
      {F A : Type 0} {V : A → Type 0} (f : F → E) (r : Outcome F A)
      → Ends V r
      → Ends V (relabel f r)
  Ends-relabel f (ok a) (value v) = value v
  Ends-relabel f (err e) (stopped _) = stopped (f e)
  Ends-relabel f panic ends = elim ends [ ]

  pub Total-on_error :
      {F A : Type 0} {V : A → Type 0} (f : F → E) (m : Exec F A)
      → Total V m
      → Total V (on_error f m)
  unfolding on_error
  Total-on_error f m t = record { at = λ h. Ends-relabel f (m h).0 (t.at h) }

  pub Total-if :
      {A : Type 0} {V : A → Type 0} (b : Bool) (m n : Exec E A)
      → (b ≡ true → Total V m)
      → (b ≡ false → Total V n)
      → Total V (if b then m else n)
  Total-if true m n s t = s refl
  Total-if false m n s t = t refl

  pub Total-for_each :
      {A : Type 0} (P : A → Type 0) (xs : List A) (body : A → Exec E (Unit {0}))
      → All P xs
      → ((a : A) → P a → Safe (body a))
      → Safe (for_each xs body)
  unfolding for_each
  Total-for_each P [] body all k = Total-pure tt tt
  Total-for_each P (x ∷ xs) body all k =
      Total-bind (body x) _ (k x all.0) (λ u _. Total-for_each P xs body all.1 k)

  pub Total-fold_each :
      {A S : Type 0} (P : A → Type 0) (V : S → Type 0) (xs : List A) (s : S)
      (body : S → A → Exec E S)
      → All P xs
      → V s
      → ((s : S) (a : A) → V s → P a → Total V (body s a))
      → Total V (fold_each xs s body)
  unfolding fold_each
  Total-fold_each P V [] s body all v k = Total-pure s v
  Total-fold_each P V (x ∷ xs) s body all v k =
      Total-bind (body s x) _ (k s x v all.0) (λ s' v'. Total-fold_each P V xs s' body all.1 v' k)

Ends-outcome :
    {A : Type 0} {V : A → Type 0} (r : Reply A)
    → ((a : A) → r ≡ answered a → V a)
    → Ends V (outcome r)
Ends-outcome (answered a) k = value (k a refl)
Ends-outcome (failed e) k = stopped (client e)

pub Total-call :
    {A : Type 0} {V : A → Type 0} (ask : History → Reply A) (event : Reply A → Event)
    → ((h : History) (a : A) → ask h ≡ answered a → V a)
    → Total V (call ask event)
unfolding call
Total-call ask event k = record { at = λ h. Ends-outcome (ask h) (k h) }

pub Total-consult : {A : Type 0} (r : Reply A) → Safe (consult r)
unfolding consult
Total-consult r = record { at = λ h. Ends-outcome r (λ a e. tt) }

-- Rules for actions of whose values nothing is said.
module _ {E : Type 0} where
  pub Safe-bind :
      {A B : Type 0} (m : Exec E A) (f : A → Exec E B)
      → Safe m
      → ((a : A) → Safe (f a))
      → Safe (m >>= f)
  Safe-bind m f t k = Total-bind m f t (λ a u. k a)

  pub Safe-pure : {A : Type 0} (a : A) → Safe {E = E} (pure a)
  Safe-pure a = Total-pure a tt

  pub Safe-throw : {A : Type 0} (e : E) → Safe {A = A} (throw e)
  Safe-throw e = Total-throw e

  pub Safe-attempt : {A : Type 0} (m : Exec Error A) → Safe m → Safe {E = E} (attempt m)
  Safe-attempt m t = Total-attempt m t (λ a u. tt) (λ e. tt)

  pub Safe-on_error : {F A : Type 0} (f : F → E) (m : Exec F A) → Safe m → Safe (on_error f m)
  Safe-on_error f m t = Total-on_error f m t

  pub Safe-if :
      {A : Type 0} (b : Bool) (m n : Exec E A) → Safe m → Safe n → Safe (if b then m else n)
  Safe-if b m n s t = Total-if b m n (λ e. s) (λ e. t)

  pub Safe-range : {A : Type 0} (s : Services) (xs : List A) → Safe {E = E} (range s xs)
  unfolding range
  Safe-range s xs = record { at = λ h. value tt }

  pub Safe-for_each :
      {A : Type 0} (xs : List A) (body : A → Exec E (Unit {0}))
      → ((a : A) → Safe (body a))
      → Safe (for_each xs body)
  Safe-for_each xs body k =
      Total-for_each Trivial xs body (All-of-In Trivial xs (λ y m. tt)) (λ a u. k a)

  pub Safe-fold_each :
      {A S : Type 0} (xs : List A) (s : S) (body : S → A → Exec E S)
      → ((s : S) (a : A) → Safe (body s a))
      → Safe (fold_each xs s body)
  Safe-fold_each xs s body k =
      Total-fold_each Trivial Trivial xs s body (All-of-In Trivial xs (λ y m. tt)) tt
        (λ s a u v. k s a)

pub Safe-call :
    {A : Type 0} (ask : History → Reply A) (event : Reply A → Event) → Safe (call ask event)
Safe-call ask event = Total-call ask event (λ h a e. tt)

pub ruleset safe_rules = (
  Safe-bind, Safe-pure, Safe-throw, Safe-attempt, Safe-on_error, Safe-if, Safe-range, Safe-for_each,
  Safe-fold_each, Safe-call, Total-consult,
)
