-- ===== src/Configmap/Store.antt =====
-- internal/configmap/configmap_controller.go over an API server that keeps its documented promises:
-- the operations are those of an abstract store.
use mathlib.Core.Path.{fun_ext}
use node_updater.Base.{
  String, Option, some, none, List, [], ◌∷◌, ◌≡◌, refl, arith, if◌then◌else◌, ◌==◌, ◌&&◌, true, ◌⊎◌,
  inl, inr, ap, ◌∙◌,
}
use node_updater.Base.Dict.{Dict}
use node_updater.Cluster.{ConfigMap, ClientError, Error, is_not_found}
use node_updater.World.{
  Services, History, answered, failed, created_config_map, deleted_config_map, Outcome, ok, err,
  panic, got_config_map,
}
use node_updater.Configmap.{create_config_map, delete_config_map, get_config_map_data}
use node_updater.Configmap.Results.{
  create_config_map_lem, get_config_map_data_lem, delete_config_map_lem,
}

-- The config map of a namespace and a name.
abbrev pub Store : Type 0
Store = String → String → Option ConfigMap

abbrev pub store_at : String → String → Option ConfigMap → Store → Store
store_at ns name m s ns' name' = if ns' == ns && name' == name then m else s ns' name'

-- The store, after the changes that were accepted.
unfoldable pub stored : Store → History → Store
stored start [] = start
stored start (created_config_map ns m (answered u) ∷ h) =
    store_at ns m.name (some m) (stored start h)
stored start (deleted_config_map ns name (answered u) ∷ h) = store_at ns name none (stored start h)
stored start (_ ∷ h) = stored start h

-- What Kubernetes documents of config maps: a read and a deletion find what is stored and else say
-- that it is not there, and a map that is not there can be created.
pub record IsApiServer (services : Services) (start : Store) : Type 0 where
  pub finds :
      (h : History) (ns name : String) (m : ConfigMap)
      → stored start h ns name ≡ some m
      → services.get_config_map h ns name ≡ answered m
  pub misses :
      (h : History) (ns name : String)
      → stored start h ns name ≡ none
      → (x : ClientError) × (services.get_config_map h ns name ≡ failed x) × (x.not_found ≡ true)
  pub creates :
      (h : History) (ns : String) (m : ConfigMap)
      → stored start h ns m.name ≡ none
      → services.create_config_map h ns m ≡ answered tt
  pub deletes :
      (h : History) (ns name : String) (m : ConfigMap)
      → stored start h ns name ≡ some m
      → services.delete_config_map h ns name ≡ answered tt
  pub lacks :
      (h : History) (ns name : String)
      → stored start h ns name ≡ none
      → (x : ClientError) × (services.delete_config_map h ns name ≡ failed x) × (x.not_found ≡ true)

pub data Operation : Type 0 where
  save : String → String → Dict String → Operation
  load forget : String → String → Operation

pub data Answer : Type 0 where
  done missing broken : Answer
  loaded : Dict String → Answer

abbrev pub saved : String → String → Dict String → Store → Option ConfigMap → Answer × Store
saved ns name entries s (some m) = (done, s)
saved ns name entries s none =
    (done, store_at ns name (some (record { name = name; entries = entries })) s)

abbrev pub load_answer : Option ConfigMap → Answer
load_answer (some m) = loaded m.entries
load_answer none = missing

-- What the store is to answer, and what becomes of it.
unfoldable pub abstractly : Operation → Store → Answer × Store
abstractly (save ns name entries) s = saved ns name entries s (s ns name)
abstractly (load ns name) s = (load_answer (s ns name), s)
abstractly (forget ns name) s = (done, store_at ns name none s)

unfoldable pub all_abstractly : List Operation → Store → List Answer × Store
all_abstractly [] s = ([], s)
all_abstractly (op ∷ ops) s =
    let (a, s') = abstractly op s in
    let (answers, s'') = all_abstractly ops s' in (a ∷ answers, s'')

abbrev answer_of : {A : Type 0} → (A → Answer) → Outcome Error A → Answer
answer_of f (ok a) = f a
answer_of f (err e) = if is_not_found e then missing else broken
answer_of f panic = broken

module _ (services : Services) where
  -- The operation of the controller, and whether the error says that nothing is there.
  unfoldable pub concretely : Operation → History → Answer × History
  concretely (save ns name entries) h =
      let (r, h') = create_config_map services ns name entries h in (answer_of (λ u. done) r, h')
  concretely (load ns name) h =
      let (r, h') = get_config_map_data services ns name h in (answer_of loaded r, h')
  concretely (forget ns name) h =
      let (r, h') = delete_config_map services ns name h in (answer_of (λ u. done) r, h')

  unfoldable pub all_concretely : List Operation → History → List Answer × History
  all_concretely [] h = ([], h)
  all_concretely (op ∷ ops) h =
      let (a, h') = concretely op h in
      let (answers, h'') = all_concretely ops h' in (a ∷ answers, h'')

-- To remove what is not there changes nothing.
remove-missing : (s : Store) (ns name : String) → s ns name ≡ none → store_at ns name none s ≡ s
remove-missing s ns name e = fun_ext (λ ns'. fun_ext (λ name'. at ns' name'))
  where
    at : (ns' name' : String) → store_at ns name none s ns' name' ≡ s ns' name'
    at ns' name' = ground arith

Option-cases : {A : Type 0} (o : Option A) → ((a : A) × (o ≡ some a)) ⊎ (o ≡ none)
Option-cases (some a) = inl (a, refl)
Option-cases none = inr refl

module _ (services : Services) (start : Store) (api : IsApiServer services start) where
  -- What an operation is to do to the store behind the history.
  abbrev Refines : Operation → History → Type 0
  Refines op h =
      let (a, h') = concretely services op h in
      (a, stored start h') ≡ abstractly op (stored start h)

  save-Refines :
      (ns name : String) (entries : Dict String) (h : History) → Refines (save ns name entries) h
  unfolding concretely abstractly stored
  save-Refines ns name entries h =
      let m : ConfigMap = record { name = name; entries = entries } in
      elim (Option-cases (stored start h ns name)) [
        | inl (old, e) ↦
            simp (create_config_map_lem services ns name h entries, api.finds h ns name old e, e)
              refl
        | inr e ↦
            let (x, fails, unknown) = api.misses h ns name e in
            let h' = got_config_map ns name (failed x) ∷ h in
            simp (create_config_map_lem services ns name h entries, fails, api.creates h' ns m e, e)
              refl
      ]

  load-Refines : (ns name : String) (h : History) → Refines (load ns name) h
  unfolding concretely abstractly stored is_not_found
  load-Refines ns name h = elim (Option-cases (stored start h ns name)) [
    | inl (old, e) ↦
        simp (get_config_map_data_lem services ns name h, api.finds h ns name old e, e) refl
    | inr e ↦
        let (x, fails, unknown) = api.misses h ns name e in
        simp (get_config_map_data_lem services ns name h, fails, unknown, e) refl
  ]

  forget-Refines : (ns name : String) (h : History) → Refines (forget ns name) h
  unfolding concretely abstractly stored
  forget-Refines ns name h = elim (Option-cases (stored start h ns name)) [
    | inl (old, e) ↦
        simp (delete_config_map_lem services ns name h, api.deletes h ns name old e) refl
    | inr e ↦
        let (x, fails, unknown) = api.lacks h ns name e in
        simp
          (
            delete_config_map_lem services ns name h,
            fails,
            unknown,
            remove-missing (stored start h) ns name e,
          )
          refl
  ]

  one-Refines : (op : Operation) (h : History) → Refines op h
  one-Refines (save ns name entries) h = save-Refines ns name entries h
  one-Refines (load ns name) h = load-Refines ns name h
  one-Refines (forget ns name) h = forget-Refines ns name h

  -- Over an API server as documented, every sequence of saves, loads and deletions by the
  -- controller answers as the abstract store does, and leaves what that leaves: a save keeps a map
  -- that is there, a load returns the entries or says that nothing is there, and a deletion
  -- succeeds in any case.
  pub all_concretely-Refines :
      (ops : List Operation) (h : History)
      → let (answers, h') = all_concretely services ops h in
        (answers, stored start h') ≡ all_abstractly ops (stored start h)
  unfolding all_concretely all_abstractly
  all_concretely-Refines [] h = refl
  all_concretely-Refines (op ∷ ops) h =
      let (a, h') = concretely services op h in
      ap (λ o. (a ∷ o.0, o.1)) (all_concretely-Refines ops h')
      ∙ ap (λ o. (o.0 ∷ (all_abstractly ops o.1).0, (all_abstractly ops o.1).1)) (one-Refines op h)
