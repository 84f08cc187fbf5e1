-- ===== src/Master/Recorded.antt =====
-- The names of the managers that the master records, by any property of names.
use mathlib.Core.Path.{subst}
use programmable_caching.Base.{
  String, none, List, [], ◌∷◌, ◌≡◌, ◌≢◌, ◌∙◌, inl, inr, Bool-cases, All, ◌==◌, eq_iff,
}
use programmable_caching.Base.Dict.{lookup, insert, lookup-insert}
use programmable_caching.Base.Exec.{and_then-returns, returns-injective, returns, traverse, at}
use programmable_caching.Proto.Common.{
  Action, get_action, copy_from_action, remove_action, put_action, action_type_not_set,
}
use programmable_caching.Proto.Storage.{
  FileId, IntroduceRequest, ManagerView, GetViewReply, storage_manager, storage_client,
  introduce_not_set,
}
use programmable_caching.Master.Peers.{PeerTracker, set_view_uri, populate_uris}
use programmable_caching.Master.Files.{
  populate_views, ManagerFileView, StorageFileView, add_manager, add_file_to_manager,
  remove_file_from_manager,
}
use programmable_caching.Master.Naming.{generate_name}
use programmable_caching.Master.Service.{
  StorageMaster, introduce, add_files, apply_change, apply_changes, get_view,
}
use programmable_caching.Master.Views.{view_messages-names}

module _ (P : String → Type 0) where
  -- Every recorded manager has a name with the property.
  abbrev pub Records : StorageFileView → Type 0
  Records v = (n : String) → lookup n v.manager_views ≢ none → P n

  -- The managers that a reported action names.
  abbrev pub Names : Action → Type 0
  Names (get_action a) = Unit
  Names (copy_from_action a) = P a.src_mgr.name × P a.dst_mgr.name
  Names (remove_action a) = P a.mgr.name
  Names (put_action a) = P a.mgr.name
  Names action_type_not_set = Unit

  insert-Records :
      (v : StorageFileView) (name : String) (f : ManagerFileView)
      → P name
      → Records v
      → Records (record { manager_views = insert name f v.manager_views })
  insert-Records v name f named h n present = elim (Bool-cases (name == n)) [
    | inl e ↦ subst P ((eq_iff name n).0 e) named
    | inr e ↦ h n (λ absent. present (lookup-insert n name f v.manager_views ∙ rw e absent))
  ]

  add_files-Records :
      (v : StorageFileView) (name : String) (files : List FileId)
      → P name
      → Records v
      → Records (add_files v name files)
  unfolding add_files add_file_to_manager
  add_files-Records v name [] named h = h
  add_files-Records v name (f ∷ rest) named h =
      add_files-Records (add_file_to_manager v name f.key) name rest named
        (insert-Records v name _ named h)

  pub apply_changes-Records :
      (v : StorageFileView) (changes : List Action)
      → All Names changes
      → Records v
      → Records (apply_changes v changes)
  unfolding apply_changes apply_change add_file_to_manager remove_file_from_manager
  apply_changes-Records v [] named h = h
  apply_changes-Records v (get_action a ∷ rest) named h = apply_changes-Records v rest named.1 h
  apply_changes-Records v (copy_from_action a ∷ rest) named h =
      apply_changes-Records (apply_change v (copy_from_action a)) rest named.1 (
        insert-Records (add_file_to_manager v a.src_mgr.name a.key) _ _ named.0.1
          (insert-Records v _ _ named.0.0 h))
  apply_changes-Records v (remove_action a ∷ rest) named h =
      apply_changes-Records (apply_change v (remove_action a)) rest named.1
        (insert-Records v _ _ named.0 h)
  apply_changes-Records v (put_action a ∷ rest) named h =
      apply_changes-Records (apply_change v (put_action a)) rest named.1
        (insert-Records v _ _ named.0 h)
  apply_changes-Records v (action_type_not_set ∷ rest) named h =
      apply_changes-Records v rest named.1 h

  -- The name of an introduction that the master records.
  abbrev pub NamesManager : IntroduceRequest → Type 0
  NamesManager (storage_manager i) = P (generate_name (storage_manager i))
  NamesManager _ = Unit

  pub introduce-Records :
      (peer : String) (request : IntroduceRequest) (m : StorageMaster)
      → NamesManager request
      → Records m.file_view
      → Records (introduce peer request m).1.file_view
  unfolding introduce add_manager
  introduce-Records peer (storage_manager i) m named h =
      add_files-Records (add_manager m.file_view (generate_name (storage_manager i))) _ i.file named
        (insert-Records m.file_view _ _ named h)
  introduce-Records peer (storage_client i) m named h = h
  introduce-Records peer introduce_not_set m named h = h

traverse-names :
    (P : String → Type 0) (t : PeerTracker) (messages views : List ManagerView)
    → All (λ view. P view.name) messages
    → traverse (set_view_uri t) messages ≡ returns views
    → All (λ view. P view.name) views
unfolding traverse set_view_uri
traverse-names P t [] views h e = subst (All (λ view. P view.name)) (returns-injective e) tt
traverse-names P t (message ∷ rest) views h e =
    let first = and_then-returns (set_view_uri t message) _ e in
    let others = and_then-returns (traverse (set_view_uri t) rest) _ first.2 in
    let peer = and_then-returns (at (lookup message.name t.name_to_peer)) _ first.1 in
    subst (All (λ view. P view.name)) (returns-injective others.2) (
      subst (λ view. P view.name) (returns-injective peer.2) h.0,
      traverse-names P t rest others.0 h.1 others.1,
    )

pub get_view-names :
    (P : String → Type 0) (m : StorageMaster) (reply : GetViewReply)
    → ((n : String) → lookup n m.file_view.manager_views ≢ none → P n)
    → get_view m ≡ returns reply
    → All (λ view. P view.name) reply.view
unfolding get_view populate_uris populate_views
get_view-names P m reply h e =
    let filled = and_then-returns (traverse (set_view_uri m.peer_tracker) _) _ e in
    subst (λ r. All (λ view. P view.name) r.view) (returns-injective filled.2)
      (traverse-names P m.peer_tracker _ filled.0
        (view_messages-names P m.file_view.manager_views h) filled.1)
