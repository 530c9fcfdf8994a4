-- ===== src/World/Gives.antt =====
-- Actions that return a given value, whatever was called before them.
use node_updater.Base.{◌≡◌, refl, List, [], ◌∷◌}
use node_updater.World.{
  Exec, Event, History, ok, Reply, answered, ◌>>=◌, on_error, call, pure, fold_each,
}

abbrev pub Gives : {E A : Type 0} → Exec E A → A → Type 0
Gives m a = (h : History) → (h' : History) × (m h ≡ (ok a, h'))

pub Gives-bind :
    {E A B : Type 0} (m : Exec E A) (f : A → Exec E B) (a : A) (b : B)
    → Gives m a
    → Gives (f a) b
    → Gives (m >>= f) b
unfolding ◌>>=◌
Gives-bind m f a b gm gf h =
    let first_part = gm h in let rest = gf first_part.0 in (rest.0, simp first_part.1 rest.1)

pub Gives-pure : {E A : Type 0} (a : A) → Gives {E = E} (pure a) a
unfolding pure
Gives-pure a h = (h, refl)

pub Gives-on_error :
    {E F A : Type 0} (f : E → F) (m : Exec E A) (a : A) → Gives m a → Gives (on_error f m) a
unfolding on_error
Gives-on_error f m a g h = let given = g h in (given.0, simp given.1 refl)

pub Gives-call :
    {A : Type 0} (ask : History → Reply A) (event : Reply A → Event) (a : A)
    → ((h : History) → ask h ≡ answered a)
    → Gives (call ask event) a
unfolding call
Gives-call ask event a e h = (event (answered a) ∷ h, simp (e h) refl)

unfoldable pub fold_left : {S A : Type 0} → (S → A → S) → S → List A → S
fold_left f s [] = s
fold_left f s (x ∷ xs) = fold_left f (f s x) xs

-- A loop whose rounds give the values of a function.
pub Gives-fold_each :
    {E A S : Type 0} (f : S → A → S) (body : S → A → Exec E S)
    → ((s : S) (x : A) → Gives (body s x) (f s x))
    → (xs : List A) (s : S) → Gives (fold_each xs s body) (fold_left f s xs)
unfolding fold_each fold_left
Gives-fold_each f body g [] s = Gives-pure s
Gives-fold_each f body g (x ∷ xs) s =
    Gives-bind _ _ _ _ (g s x) (Gives-fold_each f body g xs (f s x))

-- Actions that return a given value after a given call, the last that they make.
abbrev pub EndsWith : {E A : Type 0} → Exec E A → A → Event → Type 0
EndsWith m a event = (h : History) → (h' : History) × (m h ≡ (ok a, event ∷ h'))

pub EndsWith-bind :
    {E A B : Type 0} (m : Exec E A) (f : A → Exec E B) (a : A) (b : B) (event : Event)
    → Gives m a
    → EndsWith (f a) b event
    → EndsWith (m >>= f) b event
unfolding ◌>>=◌
EndsWith-bind m f a b event gm gf h =
    let first_part = gm h in let rest = gf first_part.0 in (rest.0, simp first_part.1 rest.1)

pub EndsWith-on_error :
    {E F A : Type 0} (f : E → F) (m : Exec E A) (a : A) (event : Event)
    → EndsWith m a event
    → EndsWith (on_error f m) a event
unfolding on_error
EndsWith-on_error f m a event g h = let given = g h in (given.0, simp given.1 refl)

pub EndsWith-call :
    {A : Type 0} (ask : History → Reply A) (event : Reply A → Event) (a : A)
    → ((h : History) → ask h ≡ answered a)
    → EndsWith (call ask event) a (event (answered a))
unfolding call
EndsWith-call ask event a e h = (h, simp (e h) refl)
