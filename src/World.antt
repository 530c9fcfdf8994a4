-- ===== src/World.antt =====
-- The services that the program calls, and actions that call them.
-- The state of an action is the list of the calls made so far with their answers, newest first.
-- A service answers as it likes, in view of all those calls: it may change between two calls.
pub mod Calls
pub mod Trace
pub mod Early
pub mod Total
pub mod Gives
pub mod Finds
pub mod Yields
use node_updater.Base.{ℕ, String, Bool, Option, none, some, List, [], ◌∷◌, if◌then◌else◌, shuffle}
use node_updater.Base.Dict.{Dict}
use node_updater.Base.Int.{ℤ}
use node_updater.Cluster.{
  ClientError, Error, client, SafeEvict, Node, Pod, ConfigMap, AgentPool, UpgradeProfile, Request,
  Response, Item,
}

pub data Reply {ℓ} (A : Type ℓ) : Type ℓ where
  answered : A → Reply A
  failed : ClientError → Reply A

-- A call to a service, with its answer; or the start of a `range` over a map.
pub data Event : Type 0 where
  got_safe_evict : String → String → Reply SafeEvict → Event
  listed_nodes : Reply (List Node) → Event
  updated_node : Node → Reply (Unit {0}) → Event
  listed_pods : String → Reply (List Pod) → Event
  got_pod : String → String → Reply Pod → Event
  streamed_logs : String → String → Reply (Reply String) → Event
  deleted_pod : String → String → Reply (Unit {0}) → Event
  deleted_job : String → String → Reply (Unit {0}) → Event
  got_config_map : String → String → Reply ConfigMap → Event
  created_config_map : String → ConfigMap → Reply (Unit {0}) → Event
  deleted_config_map : String → String → Reply (Unit {0}) → Event
  got_pool : String → Reply AgentPool → Event
  put_pool : String → AgentPool → Reply (Unit {0}) → Event
  deleted_pool : String → Reply (Unit {0}) → Event
  got_upgrade_profile : String → Reply UpgradeProfile → Event
  upgraded_pool : String → Reply (Unit {0}) → Event
  sent : Request → Reply Response → Event
  ranged : Event

abbrev pub History : Type 0
History = List Event

-- The Kubernetes clients, the agent pool client, the HTTP client, what JSON listings and errors read
-- as, and the iteration order of maps. A stream of logs is opened, and its reading may fail too.
pub record Services : Type 0 where
  pub get_safe_evict : History → String → String → Reply SafeEvict
  pub list_nodes : History → Reply (List Node)
  pub update_node : History → Node → Reply (Unit {0})
  pub list_pods : History → String → Reply (List Pod)
  pub get_pod : History → String → String → Reply Pod
  pub stream_logs : History → String → String → Reply (Reply String)
  pub delete_pod : History → String → String → Reply (Unit {0})
  pub delete_job : History → String → String → Reply (Unit {0})
  pub get_config_map : History → String → String → Reply ConfigMap
  pub create_config_map : History → String → ConfigMap → Reply (Unit {0})
  pub delete_config_map : History → String → String → Reply (Unit {0})
  pub get_pool : History → String → Reply AgentPool
  pub put_pool : History → String → AgentPool → Reply (Unit {0})
  pub delete_pool : History → String → Reply (Unit {0})
  pub get_upgrade_profile : History → String → Reply UpgradeProfile
  pub upgrade_pool : History → String → Reply (Unit {0})
  pub send : History → Request → Reply Response
  -- whether `http.NewRequest` accepts a URL
  pub new_request : String → Reply (Unit {0})
  -- the text of an error of `json.Unmarshal`, and the `value` array of a decoded listing
  pub json_error : String → String
  pub decode_items : String → Reply (List Item)
  pub order : History → ℕ → ℕ

-- A call returns a value or an error, or panics, as by a nil pointer.
pub data Outcome (E A : Type 0) : Type 0 where
  ok : A → Outcome E A
  err : E → Outcome E A
  panic : Outcome E A

abbrev pub Exec : Type 0 → Type 0 → Type 0
Exec E A = History → Outcome E A × History

abbrev pub continue : {E A B : Type 0} → Outcome E A → (A → Exec E B) → Exec E B
continue (ok a) f h = f a h
continue (err e) f h = (err e, h)
continue panic f h = (panic, h)

module _ {E A B : Type 0} where
  infixl 5 ◌>>=◌ ◌>>◌
  unfoldable pub ◌>>=◌ : Exec E A → (A → Exec E B) → Exec E B
  ◌>>=◌ m f h = let (r, h') = m h in continue r f h'

  abbrev pub ◌>>◌ : Exec E A → Exec E B → Exec E B
  m >> n = m >>= λ _. n

module _ {E A : Type 0} where
  unfoldable pub pure : A → Exec E A
  pure a h = (ok a, h)

  -- `return …, err`
  unfoldable pub throw : E → Exec E A
  throw e h = (err e, h)

  -- `*p`
  unfoldable pub deref : Option A → Exec E A
  deref none h = (panic, h)
  deref (some a) h = (ok a, h)

  -- The entries of a map, in the order in which a `range` visits them.
  unfoldable pub range : Services → List A → Exec E (List A)
  range s m h = (ok (shuffle (s.order h) m), ranged ∷ h)

abbrev pub relabel : {E F A : Type 0} → (E → F) → Outcome E A → Outcome F A
relabel f (ok a) = ok a
relabel f (err e) = err (f e)
relabel f panic = panic

-- `if err != nil { return …, f(err) }`
unfoldable pub on_error : {E F A : Type 0} → (E → F) → Exec E A → Exec F A
on_error f m h = let (r, h') = m h in (relabel f r, h')

-- An error that the caller looks at, as a value.
pub data Tried (A : Type 0) : Type 0 where
  returned : A → Tried A
  raised : Error → Tried A

abbrev pub as_tried : {E A : Type 0} → Outcome Error A → Outcome E (Tried A)
as_tried (ok a) = ok (returned a)
as_tried (err e) = ok (raised e)
as_tried panic = panic

unfoldable pub attempt : {E A : Type 0} → Exec Error A → Exec E (Tried A)
attempt m h = let (r, h') = m h in (as_tried r, h')

-- One call: the answer is recorded, and a failure is an error.
abbrev pub outcome : {A : Type 0} → Reply A → Outcome Error A
outcome (answered a) = ok a
outcome (failed e) = err (client e)

unfoldable pub call : {A : Type 0} → (History → Reply A) → (Reply A → Event) → Exec Error A
call ask event h = let r = ask h in (outcome r, event r ∷ h)

-- A loop over a slice whose body may return early from the whole function.
unfoldable pub for_each : {E A : Type 0} → List A → (A → Exec E (Unit {0})) → Exec E (Unit {0})
for_each [] body = pure tt
for_each (x ∷ xs) body = do body x; for_each xs body

-- A loop that carries a variable.
unfoldable pub fold_each : {E A S : Type 0} → List A → S → (S → A → Exec E S) → Exec E S
fold_each [] s body = pure s
fold_each (x ∷ xs) s body = do s' ← body s x; fold_each xs s' body

-- An answer that is no call, as that of a JSON decoder.
unfoldable pub consult : {A : Type 0} → Reply A → Exec Error A
consult r h = (outcome r, h)
