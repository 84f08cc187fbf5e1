-- ===== src/System/Consistency.antt =====
-- Whether what the master records at the managers is what their media store, over whole runs of the
-- storage service.
pub mod Reach
pub mod Stored
use programmable_caching.Base.{
  String, Bool, true, false, Option, none, some, List, [], ◌∷◌, ◌++◌, ◌≡◌, ◌≢◌, ◌∙◌, ◌==◌, ◌&&◌,
  ◌||◌, refl, ap, sym, All, inl, inr, Bool-cases, if◌then◌else◌, arith, eq_iff,
}
use programmable_caching.Base.Dict.{Dict, lookup, insert, lookup-insert}
use programmable_caching.Base.Exec.{returns}
use programmable_caching.Proto.Common.{
  Action, get_action, copy_from_action, remove_action, put_action, action_type_not_set,
}
use programmable_caching.Proto.Storage.{PutRequest}
use programmable_caching.Storage.{StorageInterface}
use programmable_caching.Storage.Laws.{IsLawful}
use programmable_caching.Manager.{StorageManager}
use programmable_caching.Master.Files.{
  StorageFileView, add_file_to_manager, remove_file_from_manager,
}
use programmable_caching.Master.Files.Tracks.{
  tracks, same_pair, tracks-add_file_to_manager, tracks-remove_file_from_manager,
}
use programmable_caching.Master.Service.{apply_change, apply_changes}
use programmable_caching.System.{World}
use programmable_caching.System.Stores.{
  stored, read_value, Runs, put_at, remove_at, Runs-put_at, Runs-remove_at, stored-put_at,
  stored-remove_at,
}
use programmable_caching.System.Writes.{targets, names}
use programmable_caching.System.Moves.{
  IsRunnable, prepare, prepare_all, reports, Runs-prepare, IsRunnable-mono,
}

module _ (home : String → String) where
  -- The managers of the action stand at the homes of their names.
  abbrev pub IsHomed : Action → Type 0
  IsHomed (get_action a) = Unit
  IsHomed (copy_from_action a) = a.src_mgr.uri ≡ home a.src_mgr.name
  IsHomed (remove_action a) = a.mgr.uri ≡ home a.mgr.name
  IsHomed (put_action a) = a.mgr.uri ≡ home a.mgr.name
  IsHomed action_type_not_set = Unit

  pub names-targets :
      (actions : List Action) (name : String)
      → All IsHomed actions
      → names actions name ≡ true
      → targets actions (home name) ≡ true
  unfolding names targets
  names-targets [] name homed named = named
  names-targets (put_action a ∷ rest) name homed named = ground (
    arith,
    named,
    homed.0,
    names-targets rest name homed.1,
    eq_iff a.mgr.name name,
    eq_iff a.mgr.uri (home name),
  )
  names-targets (_ ∷ rest) name homed named = names-targets rest name homed.1 named

  -- Each file that the view records at a name is stored at the home of the name.
  abbrev pub IsStored :
      {D : Type 0}
      → (D → String → Option String)
      → StorageFileView
      → Dict (StorageManager D)
      → Type 0
  IsStored contents v managers =
      (m k : String) → tracks v m k ≡ true → stored contents managers (home m) k ≢ none

module _ {D : Type 0} (media : String → StorageInterface D) (contents : D → String → Option String)
    (lawful : (uri : String) → IsLawful (media uri) contents) (home : String → String)
    (apart : (m n : String) → home m ≡ home n → m ≡ n) where
  add-IsStored :
      (v : StorageFileView) (managers : Dict (StorageManager D)) (name uri key : String)
      (request : PutRequest)
      → uri ≡ home name
      → key ≡ request.key
      → Runs uri managers
      → IsStored home contents v managers
      → IsStored home contents (add_file_to_manager v name key) (put_at media uri request managers)
  add-IsStored v managers name uri key request homed same runs h m k recorded = ground (
    arith,
    homed,
    same,
    recorded,
    h m k,
    tracks-add_file_to_manager v name m k key,
    stored-put_at media contents lawful uri request managers (home m) k runs,
    eq_iff name m,
    eq_iff uri (home m),
    eq_iff key k,
    eq_iff request.key k,
  )

  drop-IsStored :
      (v : StorageFileView) (managers : Dict (StorageManager D)) (name key : String)
      → IsStored home contents v managers
      → IsStored home contents (remove_file_from_manager v name key) managers
  drop-IsStored v managers name key h m k recorded =
      ground (arith, recorded, h m k, tracks-remove_file_from_manager v name m k key)

  remove-IsStored :
      (v : StorageFileView) (managers : Dict (StorageManager D)) (name uri key : String)
      → uri ≡ home name
      → Runs uri managers
      → IsStored home contents v managers
      → IsStored home contents
          (remove_file_from_manager v name key)
          (remove_at media uri (record { key = key }) managers)
  remove-IsStored v managers name uri key homed runs h m k recorded = ground (
    arith,
    homed,
    recorded,
    h m k,
    apart name m,
    tracks-remove_file_from_manager v name m k key,
    stored-remove_at media contents lawful uri (record { key = key }) managers (home m) k runs,
    eq_iff name m,
    eq_iff uri (home m),
    eq_iff key k,
  )

  -- A preparation of Get, and its report.
  prepare-IsStored :
      (a : Action) (v : StorageFileView) (managers : Dict (StorageManager D))
      → IsHomed home a
      → IsRunnable managers a
      → IsStored home contents v managers
      → IsStored home contents (apply_change v a) (prepare media contents lawful a managers)
  unfolding apply_change prepare
  prepare-IsStored (copy_from_action a) v managers homed runs h =
      drop-IsStored (add_file_to_manager v a.src_mgr.name a.key) _ a.dst_mgr.name a.key
        (add-IsStored v managers a.src_mgr.name a.src_mgr.uri a.key _ homed refl runs h)
  prepare-IsStored (remove_action a) v managers homed runs h =
      remove-IsStored v managers a.mgr.name a.mgr.uri a.key homed runs h
  prepare-IsStored (get_action a) v managers homed runs h = absurd runs
  prepare-IsStored (put_action a) v managers homed runs h = absurd runs
  prepare-IsStored action_type_not_set v managers homed runs h = h

  IsRunnable-after :
      (a : Action) (rest : List Action) (managers : Dict (StorageManager D))
      → All (IsRunnable managers) rest
      → All (IsRunnable (prepare media contents lawful a managers)) rest
  IsRunnable-after a rest managers =
      IsRunnable-mono managers (prepare media contents lawful a managers) rest
        (Runs-prepare media contents lawful a managers)

  pub prepare_all-IsStored :
      (actions : List Action) (v : StorageFileView) (managers : Dict (StorageManager D))
      → All (IsHomed home) actions
      → All (IsRunnable managers) actions
      → IsStored home contents v managers
      → IsStored home contents
          (apply_changes v (reports actions))
          (prepare_all media contents lawful actions managers)
  unfolding apply_changes prepare_all reports apply_change
  prepare_all-IsStored [] v managers homed runs h = h
  prepare_all-IsStored (copy_from_action a ∷ rest) v managers homed runs h =
      prepare_all-IsStored rest _ _ homed.1
        (IsRunnable-after (copy_from_action a) rest managers runs.1)
        (prepare-IsStored (copy_from_action a) v managers homed.0 runs.0 h)
  prepare_all-IsStored (remove_action a ∷ rest) v managers homed runs h =
      prepare_all-IsStored rest _ _ homed.1
        (IsRunnable-after (remove_action a) rest managers runs.1)
        (prepare-IsStored (remove_action a) v managers homed.0 runs.0 h)
  prepare_all-IsStored (action_type_not_set ∷ rest) v managers homed runs h =
      prepare_all-IsStored rest _ _ homed.1
        (IsRunnable-after action_type_not_set rest managers runs.1)
        (prepare-IsStored action_type_not_set v managers homed.0 runs.0 h)
  prepare_all-IsStored (_ ∷ rest) v managers homed runs h = absurd runs.0
