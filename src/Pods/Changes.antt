-- ===== src/Pods/Changes.antt =====
-- The calls of an action that change something, in the order in which they are made.
use mathlib.Core.List.{append_assoc}
use node_updater.Cluster.{get, patch, delete, Error}
use node_updater.World.{
  ◌>>◌, ◌>>=◌, History, Event, Exec, updated_node, ok, sent, deleted_pod, deleted_job,
  created_config_map, deleted_config_map, put_pool, deleted_pool, upgraded_pool,
}
use node_updater.Base.{
  [], ◌∷◌, List, Bool, if◌then◌else◌, ◌≡◌, true, false, ◌++◌, ◌∙◌, ap, refl, sym,
}
use node_updater.World.Trace.{Grows, more, here}
use node_updater.Azuredevops.Organization.{Asking}

-- The events that change something outside the program; a GET request is none.
abbrev pub is_change : Event → Bool
is_change (updated_node node r) = true
is_change (deleted_pod ns name r) = true
is_change (deleted_job ns name r) = true
is_change (created_config_map ns m r) = true
is_change (deleted_config_map ns name r) = true
is_change (put_pool name pool r) = true
is_change (deleted_pool name r) = true
is_change (upgraded_pool name r) = true
is_change (sent q r) = elim q.method [ get ↦ false | patch ↦ true | delete ↦ true ]
is_change _ = false

-- The changes in a history, the last one first.
unfoldable pub changes : History → List Event
changes [] = []
changes (e ∷ h) = let rest = changes h in if is_change e then e ∷ rest else rest

Asking-is_change : (e : Event) (h : History) → Asking e h → is_change e ≡ false
Asking-is_change (sent q r) h k = rw k refl
Asking-is_change _ h k = absurd k

pub changes-asking : {h h' : History} → Grows Asking h h' → changes h' ≡ changes h
unfolding changes
changes-asking here = refl
changes-asking (more {e} {h'} g k) = rw (Asking-is_change e h' k) (changes-asking g)

-- The action succeeds, and these are its changes.
pub record Changes (es : List Event) (m : Exec Error (Unit {0})) (h : History) : Type 0 where
  pub after : History
  pub runs : m h ≡ (ok tt, after)
  pub made : changes after ≡ es ++ changes h

pub Changes-then :
    {es es' : List Event} {m n : Exec Error (Unit {0})} {h : History}
    → Changes es m h
    → ((h' : History) → Changes es' n h')
    → Changes (es' ++ es) (m >> n) h
unfolding ◌>>=◌
Changes-then {es} {es'} {h} one next =
    let other = next one.after in
    record {
      after = other.after;
      runs = simp (one.runs, other.runs) refl;
      made = other.made ∙ ap (λ c. es' ++ c) one.made ∙ sym (append_assoc es' es (changes h));
    }
