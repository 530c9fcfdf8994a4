-- ===== src/World/Trace.antt =====
-- Which calls an action makes: rules for each way to build an action. A policy says of an event
-- whether it may follow the events before it.
use node_updater.Base.{
  ℕ, ◌≡◌, refl, sym, subst, Bool, true, false, Option, none, some, List, [], ◌∷◌, if◌then◌else◌,
  Any, first, later, In, shuffle,
}
use node_updater.Cluster.{Error, client}
use node_updater.World
use node_updater.World.{
  Services, Reply, answered, failed, Event, updated_node, deleted_pod, deleted_job,
  created_config_map, deleted_config_map, put_pool, deleted_pool, upgraded_pool, sent, ranged,
  History, Outcome, ok, err, panic, Exec, continue, ◌>>=◌, pure, throw, deref, range, on_error,
  Tried, returned, raised, attempt, call, for_each, fold_each, consult,
}

abbrev pub Policy : Type 1
Policy = Event → History → Type 0

-- Every event of a history obeys the policy.
abbrev pub Obeys : Policy → History → Type 0
Obeys K [] = Unit
Obeys K (e ∷ h) = K e h × Obeys K h

-- The second history is the first with further events on top, each of which obeys the policy.
pub data Grows (K : Policy) (h : History) : History → Type 0 where
  here : Grows K h h
  more : {e : Event} {h' : History} → Grows K h h' → K e h' → Grows K h (e ∷ h')

module _ {K : Policy} where
  pub Grows-trans : {h h' h'' : History} → Grows K h h' → Grows K h' h'' → Grows K h h''
  Grows-trans g here = g
  Grows-trans g (more g' k) = more (Grows-trans g g') k

  pub Grows-Any : {P : Event → Type 0} {h h' : History} → Grows K h h' → Any P h → Any P h'
  Grows-Any here a = a
  Grows-Any (more g k) a = later (Grows-Any g a)

  pub Grows-Obeys : {h h' : History} → Grows K h h' → Obeys K h → Obeys K h'
  Grows-Obeys here o = o
  Grows-Obeys (more g k) o = (k, Grows-Obeys g o)

pub Grows-weaken :
    {K L : Policy} {h h' : History}
    → ((e : Event) (h : History) → K e h → L e h)
    → Grows K h h'
    → Grows L h h'
Grows-weaken sub here = here
Grows-weaken sub (more {e} {h'} g k) = more (Grows-weaken sub g) (sub e h' k)

pub Obeys-weaken :
    {K L : Policy}
    → ((e : Event) (h : History) → K e h → L e h)
    → (h : History) → Obeys K h
    → Obeys L h
Obeys-weaken sub [] o = o
Obeys-weaken sub (e ∷ h) o = (sub e h o.0, Obeys-weaken sub h o.1)

-- The postcondition holds if the action returned a value.
abbrev pub Post : {E A : Type 0} → (A → History → Type 0) → Outcome E A → History → Type 0
Post Q (ok a) h = Q a h
Post Q (err e) h = Unit
Post Q panic h = Unit

-- What a run from a history did: its events obey the policy, and what it returns satisfies `Q`.
pub record Run {E A : Type 0} (K : Policy) (Q : A → History → Type 0) (h : History)
    (o : Outcome E A × History) : Type 0 where
  pub grows : Grows K h o.1
  pub post : Post Q o.0 o.1

abbrev pub Anything : {A : Type 0} → A → History → Type 0
Anything a h = Unit

-- What `attempt` makes of the answer to a call.
abbrev pub tried : {A : Type 0} → Reply A → Tried A
tried (answered a) = returned a
tried (failed e) = raised (client e)

abbrev pub PostTried : {A : Type 0} → (A → History → Type 0) → Tried A → History → Type 0
PostTried Q (returned a) h = Q a h
PostTried Q (raised e) h = Unit

module _ {K : Policy} where
  Run-continue :
      {E A B : Type 0} {M : A → History → Type 0} {Q : B → History → Type 0} {h : History}
      (f : A → Exec E B) (r : Outcome E A) (h' : History)
      → Grows K h h'
      → Post M r h'
      → ((a : A) (g : History) → Grows K h g → M a g → Run K Q g (f a g))
      → Run K Q h (continue r f h')
  Run-continue f (ok a) h' g p k =
      let next = k a h' g p in record { grows = Grows-trans g next.grows; post = next.post }
  Run-continue f (err e) h' g p k = record { grows = g; post = tt }
  Run-continue f panic h' g p k = record { grows = g; post = tt }

  pub Run-bind :
      {E A B : Type 0} {M : A → History → Type 0} {Q : B → History → Type 0} {h : History}
      (m : Exec E A) (f : A → Exec E B)
      → Run K M h (m h)
      → ((a : A) (g : History) → Grows K h g → M a g → Run K Q g (f a g))
      → Run K Q h ((m >>= f) h)
  unfolding ◌>>=◌
  Run-bind {h} m f run k = Run-continue f (m h).0 (m h).1 run.grows run.post k

  pub Run-pure :
      {E A : Type 0} {Q : A → History → Type 0} {h : History} (a : A)
      → Q a h
      → Run {E = E} K Q h (pure a h)
  unfolding pure
  Run-pure a q = record { grows = here; post = q }

  pub Run-throw :
      {E A : Type 0} {Q : A → History → Type 0} {h : History} (e : E)
      → Run {A = A} K Q h (throw e h)
  unfolding throw
  Run-throw e = record { grows = here; post = tt }

  pub Run-deref :
      {E A : Type 0} {Q : A → History → Type 0} {h : History} (o : Option A)
      → ((a : A) → o ≡ some a → Q a h)
      → Run {E = E} K Q h (deref o h)
  unfolding deref
  Run-deref none q = record { grows = here; post = tt }
  Run-deref (some a) q = record { grows = here; post = q a refl }

  pub Run-range :
      {E A : Type 0} {Q : List A → History → Type 0} {h : History} (s : Services) (m : List A)
      → K ranged h
      → ((picks : ℕ → ℕ) → Q (shuffle picks m) (ranged ∷ h))
      → Run {E = E} K Q h (range s m h)
  unfolding range
  Run-range {h} s m k q = record { grows = more here k; post = q (s.order h) }

  Run-relabel :
      {E F A : Type 0} {Q : A → History → Type 0} {h : History} (f : E → F) (r : Outcome E A)
      (h' : History)
      → Grows K h h'
      → Post Q r h'
      → Run K Q h (World.relabel f r, h')
  Run-relabel f (ok a) h' g p = record { grows = g; post = p }
  Run-relabel f (err e) h' g p = record { grows = g; post = tt }
  Run-relabel f panic h' g p = record { grows = g; post = tt }

  pub Run-on_error :
      {E F A : Type 0} {Q : A → History → Type 0} {h : History} (f : E → F) (m : Exec E A)
      → Run K Q h (m h)
      → Run K Q h (on_error f m h)
  unfolding on_error
  Run-on_error {h} f m run = Run-relabel f (m h).0 (m h).1 run.grows run.post

  Run-as_tried :
      {E A : Type 0} {Q : A → History → Type 0} {h : History} (r : Outcome Error A) (h' : History)
      → Grows K h h'
      → Post Q r h'
      → Run {E = E} K (PostTried Q) h (World.as_tried r, h')
  Run-as_tried (ok a) h' g p = record { grows = g; post = p }
  Run-as_tried (err e) h' g p = record { grows = g; post = tt }
  Run-as_tried panic h' g p = record { grows = g; post = tt }

  pub Run-attempt :
      {E A : Type 0} {Q : A → History → Type 0} {h : History} (m : Exec Error A)
      → Run K Q h (m h)
      → Run {E = E} K (PostTried Q) h (attempt m h)
  unfolding attempt
  Run-attempt {h} m run = Run-as_tried (m h).0 (m h).1 run.grows run.post

  Run-outcome :
      {A : Type 0} {Q : A → History → Type 0} {h : History} (r : Reply A) (h' : History)
      → Grows K h h'
      → ((a : A) → r ≡ answered a → Q a h')
      → Run K Q h (World.outcome r, h')
  Run-outcome (answered a) h' g q = record { grows = g; post = q a refl }
  Run-outcome (failed e) h' g q = record { grows = g; post = tt }

  pub Run-call :
      {A : Type 0} {Q : A → History → Type 0} {h : History} (ask : History → Reply A)
      (event : Reply A → Event)
      → ((r : Reply A) → K (event r) h)
      → ((a : A) → Q a (event (answered a) ∷ h))
      → Run K Q h (call ask event h)
  unfolding call
  Run-call {Q} {h} ask event k q =
      Run-outcome (ask h) (event (ask h) ∷ h) (more here (k (ask h)))
        (λ a e. subst (λ r. Q a (event r ∷ h)) (sym e) (q a))

  -- A call whose failure the caller looks at.
  pub Run-attempt-call :
      {E A : Type 0} {Q : Tried A → History → Type 0} {h : History} (ask : History → Reply A)
      (event : Reply A → Event)
      → ((r : Reply A) → K (event r) h)
      → ((r : Reply A) → Q (tried r) (event r ∷ h))
      → Run {E = E} K Q h (attempt (call ask event) h)
  unfolding attempt call
  Run-attempt-call {E} {A} {Q} {h} ask event k q = go (ask h)
    where
      go : (r : Reply A) → Run {E = E} K Q h (World.as_tried (World.outcome r), event r ∷ h)
      go (answered a) = record { grows = more here (k (answered a)); post = q (answered a) }
      go (failed e) = record { grows = more here (k (failed e)); post = q (failed e) }

  pub Run-consult :
      {A : Type 0} {Q : A → History → Type 0} {h : History} (r : Reply A)
      → ((a : A) → r ≡ answered a → Q a h)
      → Run K Q h (consult r h)
  unfolding consult
  Run-consult {h} r q = Run-outcome r h here q

  pub Run-if :
      {E A : Type 0} {Q : A → History → Type 0} {h : History} (b : Bool) (m n : Exec E A)
      → (b ≡ true → Run K Q h (m h))
      → (b ≡ false → Run K Q h (n h))
      → Run K Q h ((if b then m else n) h)
  Run-if true m n km kn = km refl
  Run-if false m n km kn = kn refl

  pub Run-weaken :
      {E A : Type 0} {Q R : A → History → Type 0} {h : History} {o : Outcome E A × History}
      → Run K Q h o
      → ((a : A) (g : History) → Grows K h g → Q a g → R a g)
      → Run K R h o
  Run-weaken {E} {A} {Q} {R} {o} run sub = record { grows = run.grows; post = go o.0 run.post }
    where
      go : (r : Outcome E A) → Post Q r o.1 → Post R r o.1
      go (ok a) q = sub a o.1 run.grows q
      go (err e) q = tt
      go panic q = tt

  -- A loop keeps what each of its rounds keeps.
  pub Run-for_each :
      {E A : Type 0} {I : History → Type 0} {h : History} (xs : List A)
      (body : A → Exec E (Unit {0}))
      → I h
      → ((x : A) (g : History) → In x xs → I g → Run K (λ u g'. I g') g (body x g))
      → Run K (λ u g. I g) h (for_each xs body h)
  unfolding for_each
  Run-for_each [] body i k = Run-pure tt i
  Run-for_each (x ∷ xs) body i k =
      Run-bind (body x) (λ u. for_each xs body) (k x _ (first refl) i)
        (λ u g grown i'. Run-for_each xs body i' (λ y g' m. k y g' (later m)))

  pub Run-fold_each :
      {E A S : Type 0} {J : S → History → Type 0} {h : History} (xs : List A) (s : S)
      (body : S → A → Exec E S)
      → J s h
      → ((t : S) (x : A) (g : History) → In x xs → J t g → Run K J g (body t x g))
      → Run K J h (fold_each xs s body h)
  unfolding fold_each
  Run-fold_each [] s body j k = Run-pure s j
  Run-fold_each (x ∷ xs) s body j k =
      Run-bind (body s x) (λ t. fold_each xs t body) (k s x _ (first refl) j)
        (λ t g grown j'. Run-fold_each xs t body j' (λ t' y g' m. k t' y g' (later m)))

pub Run-policy :
    {E A : Type 0} {K L : Policy} {Q : A → History → Type 0} {h : History}
    {o : Outcome E A × History}
    → ((e : Event) (h : History) → K e h → L e h)
    → Run K Q h o
    → Run L Q h o
Run-policy sub run = record { grows = Grows-weaken sub run.grows; post = run.post }

-- The events that change nothing outside the program, HTTP requests not among them.
abbrev pub Reading : Policy
Reading (updated_node node r) h = ⊥
Reading (deleted_pod ns name r) h = ⊥
Reading (deleted_job ns name r) h = ⊥
Reading (created_config_map ns m r) h = ⊥
Reading (deleted_config_map ns name r) h = ⊥
Reading (put_pool name pool r) h = ⊥
Reading (deleted_pool name r) h = ⊥
Reading (upgraded_pool name r) h = ⊥
Reading (sent q r) h = ⊥
Reading _ h = Unit
