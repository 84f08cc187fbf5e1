-- ===== src/Master/Changes.antt =====
-- What Introduce and StorageChange do to the record of the files at the managers.
use programmable_caching.Base.{
  String, Bool, true, false, Option, none, some, List, [], ◌∷◌, ◌≡◌, refl, ◌&&◌, ◌||◌, ◌==◌, arith,
  if◌then◌else◌,
}
use programmable_caching.Proto.Common.{
  Action, get_action, copy_from_action, remove_action, put_action, action_type_not_set,
}
use programmable_caching.Proto.Storage.{
  FileId, IntroduceRequest, storage_manager, storage_client, introduce_not_set,
  StorageChangeRequest,
}
use programmable_caching.Master.Files.{StorageFileView, add_manager, add_file_to_manager}
use programmable_caching.Master.Files.Tracks.{
  tracks, same_pair, tracks-add_manager, tracks-add_file_to_manager,
  tracks-remove_file_from_manager,
}
use programmable_caching.Master.Naming.{generate_name}
use programmable_caching.Master.Service.{
  StorageMaster, introduce, storage_change, apply_change, apply_changes, add_files,
}

-- What one reported action says of a file at a manager, if it says anything.
abbrev pub effect : Action → String → String → Option Bool
effect (get_action a) manager key = none
effect (copy_from_action a) manager key =
    if same_pair a.dst_mgr.name a.key manager key
    then some false
    else if same_pair a.src_mgr.name a.key manager key
    then some true
    else none
effect (remove_action a) manager key =
    if same_pair a.mgr.name a.key manager key then some false else none
effect (put_action a) manager key =
    if same_pair a.mgr.name a.key manager key then some true else none
effect action_type_not_set manager key = none

abbrev pub or_else : Option Bool → Bool → Bool
or_else none b = b
or_else (some c) b = c

abbrev later : Option Bool → Option Bool → Option Bool
later none o = o
later (some b) o = some b

-- The last action of a report that says anything of a file at a manager.
unfoldable pub last_effect : List Action → String → String → Option Bool
last_effect [] manager key = none
last_effect (a ∷ rest) manager key = later (last_effect rest manager key) (effect a manager key)

tracks-apply_change :
    (v : StorageFileView) (a : Action) (manager key : String)
    → tracks (apply_change v a) manager key ≡ or_else (effect a manager key) (tracks v manager key)
unfolding apply_change
tracks-apply_change v (get_action a) manager key = refl
tracks-apply_change v (copy_from_action a) manager key = ground (
  arith,
  tracks-remove_file_from_manager (add_file_to_manager v a.src_mgr.name a.key) a.dst_mgr.name
      manager key a.key,
  tracks-add_file_to_manager v a.src_mgr.name manager key a.key,
)
tracks-apply_change v (remove_action a) manager key =
    ground (arith, tracks-remove_file_from_manager v a.mgr.name manager key a.key)
tracks-apply_change v (put_action a) manager key =
    ground (arith, tracks-add_file_to_manager v a.mgr.name manager key a.key)
tracks-apply_change v action_type_not_set manager key = refl

tracks-apply_changes :
    (v : StorageFileView) (changes : List Action) (manager key : String)
    → tracks (apply_changes v changes) manager key
      ≡ or_else (last_effect changes manager key) (tracks v manager key)
unfolding apply_changes last_effect
tracks-apply_changes v [] manager key = refl
tracks-apply_changes v (a ∷ rest) manager key = ground (
  arith,
  tracks-apply_changes (apply_change v a) rest manager key,
  tracks-apply_change v a manager key,
)

-- After StorageChange the master records a file at a manager as the last reported action that
-- speaks of the two says, and as before where none does.
pub tracks-storage_change :
    (request : StorageChangeRequest) (m : StorageMaster) (manager key : String)
    → tracks (storage_change request m).file_view manager key
      ≡ or_else (last_effect request.storage_change manager key) (tracks m.file_view manager key)
unfolding storage_change
tracks-storage_change request m manager key =
    tracks-apply_changes m.file_view request.storage_change manager key

-- The files that an introduction names.
unfoldable pub lists : List FileId → String → Bool
lists [] key = false
lists (f ∷ rest) key = f.key == key || lists rest key

tracks-add_files :
    (v : StorageFileView) (name : String) (files : List FileId) (manager key : String)
    → tracks (add_files v name files) manager key
      ≡ ((name == manager && lists files key) || tracks v manager key)
unfolding add_files lists
tracks-add_files v name [] manager key = ground arith
tracks-add_files v name (f ∷ rest) manager key = ground (
  arith,
  tracks-add_files (add_file_to_manager v name f.key) name rest manager key,
  tracks-add_file_to_manager v name manager key f.key,
)

-- What the record says of a file at a manager behind an introduction.
abbrev pub introduced : IntroduceRequest → String → String → Bool → Bool
introduced (storage_manager i) manager key before =
    if generate_name (storage_manager i) == manager then lists i.file key else before
introduced (storage_client i) manager key before = before
introduced introduce_not_set manager key before = before

-- An introduction of a manager replaces the record of the files under its name by the files that
-- it lists, and leaves the other managers alone; any other introduction leaves the record alone.
pub tracks-introduce :
    (peer : String) (request : IntroduceRequest) (m : StorageMaster) (manager key : String)
    → tracks (introduce peer request m).1.file_view manager key
      ≡ introduced request manager key (tracks m.file_view manager key)
unfolding introduce
tracks-introduce peer (storage_manager i) m manager key = ground (
  arith,
  tracks-add_files (add_manager m.file_view (generate_name (storage_manager i)))
      (generate_name (storage_manager i)) i.file manager key,
  tracks-add_manager m.file_view (generate_name (storage_manager i)) manager key,
)
tracks-introduce peer (storage_client i) m manager key = refl
tracks-introduce peer introduce_not_set m manager key = refl
