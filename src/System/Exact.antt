-- ===== src/System/Exact.antt =====
-- Runs without copies: whether the master records exactly the files that are stored.
pub mod Peers
pub mod Invariant
pub mod Steps
pub mod Views
use programmable_caching.Base.{
  String, Bool, true, false, Option, none, some, List, [], ◌∷◌, ◌≡◌, ◌≢◌, ◌↔◌, ◌∙◌, ◌==◌, ◌&&◌,
  ◌||◌, refl, ap, sym, All, if◌then◌else◌, arith, eq_iff,
}
use programmable_caching.Base.Dict.{Dict, lookup}
use programmable_caching.Proto.Storage.{PutRequest}
use programmable_caching.Client.Service.{StorageClient}
use programmable_caching.System.Stores.Absence.{put_at-absent}
use programmable_caching.Proto.Common.{
  Action, get_action, copy_from_action, remove_action, put_action, action_type_not_set,
}
use programmable_caching.Storage.{StorageInterface}
use programmable_caching.Storage.Laws.{IsLawful}
use programmable_caching.Manager.{StorageManager}
use programmable_caching.Master.Files.{StorageFileView, remove_file_from_manager}
use programmable_caching.Master.Files.Tracks.{tracks, tracks-remove_file_from_manager}
use programmable_caching.Master.Recorded.{Names}
use programmable_caching.Master.Service.{apply_change, apply_changes}
use programmable_caching.System.Stores.{
  put_at, Runs-put_at, stored, Runs, remove_at, stored-remove_at,
}
use programmable_caching.System.Writes.{targets, names, IsServed, IsServed-put_at, write_all}
use programmable_caching.System.Moves.{
  IsRunnable, prepare, prepare_all, reports, Runs-prepare, IsRunnable-mono,
}
use programmable_caching.System.Consistency.{IsHomed}

abbrev pub IsNoCopy : Action → Type 0
IsNoCopy (copy_from_action a) = ⊥
IsNoCopy _ = Unit

module _ (home : String → String) where
  -- A file is recorded at a name exactly if it is stored at the home of the name.
  abbrev pub IsExact :
      {D : Type 0}
      → (D → String → Option String)
      → StorageFileView
      → Dict (StorageManager D)
      → Type 0
  IsExact contents v managers =
      (m k : String) → (tracks v m k ≡ true) ↔ (stored contents managers (home m) k ≢ none)

  -- A manager runs at the home of the name.
  abbrev pub IsAtHome : {D : Type 0} → Dict (StorageManager D) → String → Type 0
  IsAtHome managers n = Runs (home n) managers

  pub targets-names :
      ((m n : String) → home m ≡ home n → m ≡ n)
      → (actions : List Action) (name : String) → All (IsHomed home) actions
      → targets actions (home name) ≡ true
      → names actions name ≡ true
  unfolding names targets
  targets-names apart [] name homed h = h
  targets-names apart (put_action a ∷ rest) name homed h = ground (
    arith,
    h,
    homed.0,
    apart a.mgr.name name,
    targets-names apart rest name homed.1,
    eq_iff a.mgr.name name,
    eq_iff a.mgr.uri (home name),
  )
  targets-names apart (_ ∷ rest) name homed h = targets-names apart rest name homed.1 h

  -- The names in the report of a Put are at home, and so are those in the report of a Get.
  pub served-Names :
      {D : Type 0} (media : String → StorageInterface D) (managers : Dict (StorageManager D))
      (key : String) (actions : List Action)
      → All (IsServed media managers key) actions
      → All (IsHomed home) actions
      → All (Names (IsAtHome managers)) actions
  served-Names media managers key [] h homed = tt
  served-Names media managers key (put_action a ∷ rest) h homed = (
    (λ absent. h.0.1 (ap (λ u. lookup u managers) homed.0 ∙ absent)),
    served-Names media managers key rest h.1 homed.1,
  )
  served-Names media managers key (_ ∷ rest) h homed = absurd h.0

  pub reports-Names :
      {D : Type 0} (managers : Dict (StorageManager D)) (actions : List Action)
      → All IsNoCopy actions
      → All (IsRunnable managers) actions
      → All (IsHomed home) actions
      → All (Names (IsAtHome managers)) (reports actions)
  unfolding reports
  reports-Names managers [] plain h homed = tt
  reports-Names managers (remove_action a ∷ rest) plain h homed = (
    (λ absent. h.0 (ap (λ u. lookup u managers) homed.0 ∙ absent)),
    reports-Names managers rest plain.1 h.1 homed.1,
  )
  reports-Names managers (action_type_not_set ∷ rest) plain h homed =
      reports-Names managers rest plain.1 h.1 homed.1
  reports-Names managers (copy_from_action _ ∷ rest) plain h homed = absurd plain.0
  reports-Names managers (get_action _ ∷ rest) plain h homed = absurd h.0
  reports-Names managers (put_action _ ∷ rest) plain h homed = absurd h.0

module _ {D : Type 0} (media : String → StorageInterface D) (peer : String) (c : StorageClient)
    (request : PutRequest) where
  pub write_all-Runs :
      (actions : List Action) (managers : Dict (StorageManager D)) (j : String)
      → Runs j managers
      → Runs j (write_all media peer c request actions managers)
  unfolding write_all
  write_all-Runs [] managers j h = h
  write_all-Runs (put_action a ∷ rest) managers j h =
      write_all-Runs rest (put_at media a.mgr.uri request managers) j
        (Runs-put_at media a.mgr.uri j request managers h)
  write_all-Runs (_ ∷ rest) managers j h = write_all-Runs rest managers j h

  -- No manager comes to an address by the writes.
  pub write_all-absent :
      (actions : List Action) (managers : Dict (StorageManager D)) (j : String)
      → All (IsServed media managers request.key) actions
      → lookup j managers ≡ none
      → lookup j (write_all media peer c request actions managers) ≡ none
  unfolding write_all
  write_all-absent [] managers j h absent = absent
  write_all-absent (put_action a ∷ rest) managers j h absent =
      write_all-absent rest (put_at media a.mgr.uri request managers) j
        (IsServed-put_at media peer c request a.mgr.uri managers rest h.1)
        (put_at-absent media a.mgr.uri j request managers h.0.1 absent)
  write_all-absent (_ ∷ rest) managers j h absent = absurd h.0

module _ {D : Type 0} (media : String → StorageInterface D) (contents : D → String → Option String)
    (lawful : (uri : String) → IsLawful (media uri) contents) (home : String → String)
    (apart : (m n : String) → home m ≡ home n → m ≡ n) where
  remove-IsExact :
      (v : StorageFileView) (managers : Dict (StorageManager D)) (name uri key : String)
      → uri ≡ home name
      → Runs uri managers
      → IsExact home contents v managers
      → IsExact home contents
          (remove_file_from_manager v name key)
          (remove_at media uri (record { key = key }) managers)
  remove-IsExact v managers name uri key homed runs h m k =
      let recorded = tracks-remove_file_from_manager v name m k key in
      let there =
        stored-remove_at media contents lawful uri (record { key = key }) managers (home m) k
          runs in
      ground (
        arith,
        homed,
        h m k,
        apart name m,
        recorded,
        there,
        eq_iff name m,
        eq_iff uri (home m),
        eq_iff key k,
      )

  pub prepare_all-IsExact :
      (actions : List Action) (v : StorageFileView) (managers : Dict (StorageManager D))
      → All IsNoCopy actions
      → All (IsHomed home) actions
      → All (IsRunnable managers) actions
      → IsExact home contents v managers
      → IsExact home contents
          (apply_changes v (reports actions))
          (prepare_all media contents lawful actions managers)
  unfolding apply_changes prepare_all prepare reports apply_change
  prepare_all-IsExact [] v managers plain homed runs h = h
  prepare_all-IsExact (remove_action a ∷ rest) v managers plain homed runs h =
      prepare_all-IsExact rest _ _ plain.1 homed.1
        (IsRunnable-mono managers (prepare media contents lawful (remove_action a) managers) rest
          (Runs-prepare media contents lawful (remove_action a) managers) runs.1)
        (remove-IsExact v managers a.mgr.name a.mgr.uri a.key homed.0 runs.0 h)
  prepare_all-IsExact (action_type_not_set ∷ rest) v managers plain homed runs h =
      prepare_all-IsExact rest v managers plain.1 homed.1 runs.1 h
  prepare_all-IsExact (copy_from_action _ ∷ rest) v managers plain homed runs h = absurd plain.0
  prepare_all-IsExact (get_action _ ∷ rest) v managers plain homed runs h = absurd runs.0
  prepare_all-IsExact (put_action _ ∷ rest) v managers plain homed runs h = absurd runs.0
