-- ===== src/Master/Atoms.antt =====
-- The handlers of the storage master as the critical sections that they pass, in their order. Each
-- method of PeerTracker and StorageFileView that takes a mutex is one section; between two sections
-- of a handler those of others may come.
use programmable_caching.Base.{String, List, [], ◌∷◌, ◌++◌, ◌≡◌, refl}
use programmable_caching.Base.Text.{◌⧺◌}
use programmable_caching.Base.Exec.{Outcome}
use programmable_caching.Proto.Common.{
  Action, get_action, copy_from_action, remove_action, put_action, action_type_not_set,
}
use programmable_caching.Proto.Storage.{
  IntroduceRequest, FileId, StorageChangeRequest, GetViewReply, storage_manager, storage_client,
  introduce_not_set, empty_view_reply,
}
use programmable_caching.Master.Peers.{add_peer, populate_uris}
use programmable_caching.Master.Files.{
  add_manager, add_file_to_manager, remove_file_from_manager, populate_views,
}
use programmable_caching.Master.Naming.{generate_name}
use programmable_caching.Master.Service.{
  StorageMaster, introduce, add_files, storage_change, apply_change, apply_changes, get_view,
}

-- The sections that write: AddPeer, AddManager, AddFileToManager, RemoveFileFromManager.
pub data Section : Type 0 where
  adds_peer : (name rpc_uri connection_uri : String) → Section
  adds_manager : (name : String) → Section
  adds_file : (name key : String) → Section
  removes_file : (name key : String) → Section

unfoldable pub pass : Section → StorageMaster → StorageMaster
pass (adds_peer name rpc_uri connection_uri) m = record m {
  peer_tracker = add_peer m.peer_tracker name rpc_uri connection_uri;
}
pass (adds_manager name) m = record m { file_view = add_manager m.file_view name }
pass (adds_file name key) m = record m { file_view = add_file_to_manager m.file_view name key }
pass (removes_file name key) m = record m {
  file_view = remove_file_from_manager m.file_view name key;
}

unfoldable pub pass_all : List Section → StorageMaster → StorageMaster
unfolding pass
pass_all [] m = m
pass_all (s ∷ rest) m = pass_all rest (pass s m)

unfoldable pub file_sections : String → List FileId → List Section
file_sections name [] = []
file_sections name (f ∷ rest) = adds_file name f.key ∷ file_sections name rest

-- Introduce: the peer first, then the manager, then its files.
unfoldable pub introduce_sections : String → IntroduceRequest → List Section
unfolding file_sections
introduce_sections peer (storage_manager i) =
    adds_peer (generate_name (storage_manager i)) (i.rpc_hostname ⧺ ":" ⧺ i.rpc_port) peer
    ∷ adds_manager (generate_name (storage_manager i))
    ∷ file_sections (generate_name (storage_manager i)) i.file
introduce_sections peer (storage_client i) =
    adds_peer (generate_name (storage_client i)) (i.rpc_hostname ⧺ ":" ⧺ i.rpc_port) peer ∷ []
introduce_sections peer introduce_not_set = []

-- StorageChange: a copy passes two sections.
unfoldable pub change_section : Action → List Section
change_section (copy_from_action a) =
    adds_file a.src_mgr.name a.key ∷ removes_file a.dst_mgr.name a.key ∷ []
change_section (remove_action a) = removes_file a.mgr.name a.key ∷ []
change_section (put_action a) = adds_file a.mgr.name a.key ∷ []
change_section (get_action a) = []
change_section action_type_not_set = []

unfoldable pub change_sections : List Action → List Section
unfolding change_section
change_sections [] = []
change_sections (a ∷ rest) = change_section a ++ change_sections rest

-- The two sections of GetView: the files of the managers, then their addresses.
unfoldable pub view_files : StorageMaster → GetViewReply
view_files m = populate_views m.file_view empty_view_reply

unfoldable pub view_addresses : GetViewReply → StorageMaster → Outcome GetViewReply
view_addresses reply m = populate_uris m.peer_tracker reply

pass_all-append :
    (xs ys : List Section) (m : StorageMaster) → pass_all (xs ++ ys) m ≡ pass_all ys (pass_all xs m)
unfolding pass_all
pass_all-append [] ys m = refl
pass_all-append (x ∷ xs) ys m = pass_all-append xs ys (pass x m)

pass_all-file_sections :
    (name : String) (files : List FileId) (m : StorageMaster)
    → pass_all (file_sections name files) m
      ≡ record m { file_view = add_files m.file_view name files }
unfolding pass_all file_sections add_files pass
pass_all-file_sections name [] m = refl
pass_all-file_sections name (f ∷ rest) m =
    pass_all-file_sections name rest (pass (adds_file name f.key) m)

pass_all-introduce :
    (peer : String) (request : IntroduceRequest) (m : StorageMaster)
    → pass_all (introduce_sections peer request) m ≡ (introduce peer request m).1
unfolding pass_all introduce_sections introduce pass
pass_all-introduce peer (storage_manager i) m =
    pass_all-file_sections (generate_name (storage_manager i)) i.file (
      pass (adds_manager (generate_name (storage_manager i))) (
        pass
          (adds_peer (generate_name (storage_manager i)) (i.rpc_hostname ⧺ ":" ⧺ i.rpc_port) peer)
          m))
pass_all-introduce peer (storage_client i) m = refl
pass_all-introduce peer introduce_not_set m = refl

pass_all-change_section :
    (a : Action) (m : StorageMaster)
    → pass_all (change_section a) m ≡ record m { file_view = apply_change m.file_view a }
unfolding pass_all change_section apply_change pass
pass_all-change_section (copy_from_action a) m = refl
pass_all-change_section (remove_action a) m = refl
pass_all-change_section (put_action a) m = refl
pass_all-change_section (get_action a) m = refl
pass_all-change_section action_type_not_set m = refl

pass_all-changes :
    (changes : List Action) (m : StorageMaster)
    → pass_all (change_sections changes) m
      ≡ record m { file_view = apply_changes m.file_view changes }
unfolding pass_all change_sections apply_changes
pass_all-changes [] m = refl
pass_all-changes (a ∷ rest) m = rw (
  pass_all-append (change_section a) (change_sections rest) m,
  pass_all-change_section a m,
  pass_all-changes rest (record m { file_view = apply_change m.file_view a }),
)

-- With no other handler in between, the sections of Introduce, of StorageChange and of GetView, in
-- their order, do what the handlers do.
pub pass_all-handlers :
    (peer : String) (request : IntroduceRequest) (report : StorageChangeRequest) (m : StorageMaster)
    → (pass_all (introduce_sections peer request) m ≡ (introduce peer request m).1)
      × (pass_all (change_sections report.storage_change) m ≡ storage_change report m)
      × (view_addresses (view_files m) m ≡ get_view m)
unfolding storage_change get_view view_files view_addresses
pass_all-handlers peer request report m =
    (pass_all-introduce peer request m, pass_all-changes report.storage_change m, refl)
