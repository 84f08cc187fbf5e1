-- ===== src/Master/Known.antt =====
-- Every manager with a record of files is a peer: what GetView relies on.
use programmable_caching.Base.{String, none, List, [], ◌∷◌, ◌≢◌, refl, All, arith, eq_iff}
use programmable_caching.Base.Dict.{lookup, insert, UniqueKeys, lookup-insert, insert-UniqueKeys}
use programmable_caching.Proto.Common.{
  Action, get_action, copy_from_action, remove_action, put_action, action_type_not_set,
}
use programmable_caching.Proto.Storage.{
  FileId, IntroduceRequest, storage_manager, storage_client, introduce_not_set,
  StorageChangeRequest,
}
use programmable_caching.Master.Peers.{PeerTracker, add_peer}
use programmable_caching.Master.Files.{
  ManagerFileView, StorageFileView, add_manager, add_file_to_manager, remove_file_from_manager,
}
use programmable_caching.Master.Naming.{generate_name}
use programmable_caching.Master.Service.{
  StorageMaster, init, introduce, storage_change, apply_change, apply_changes, add_files,
}

abbrev pub IsPeer : PeerTracker → String → Type 0
IsPeer t name = lookup name t.name_to_peer ≢ none

pub record AreKnown (v : StorageFileView) (t : PeerTracker) : Type 0 where
  pub unique : UniqueKeys v.manager_views
  pub peers : (n : String) → lookup n v.manager_views ≢ none → IsPeer t n

abbrev pub IsServable : StorageMaster → Type 0
IsServable m = AreKnown m.file_view m.peer_tracker

-- The master as it is made is servable.
pub init-IsServable : (hostname port : String) → IsServable (init hostname port)
unfolding lookup
init-IsServable hostname port = record { unique = tt; peers = λ n h. absurd (h refl) }

insert-AreKnown :
    (v : StorageFileView) (t : PeerTracker) (name : String) (f : ManagerFileView)
    → IsPeer t name
    → AreKnown v t
    → AreKnown (record { manager_views = insert name f v.manager_views }) t
insert-AreKnown v t name f p h = record {
  unique = insert-UniqueKeys name f v.manager_views h.unique;
  peers =
      λ n present. ground (arith, eq_iff name n, h.peers n, lookup-insert n name f v.manager_views);
}

add_peer-AreKnown :
    (v : StorageFileView) (t : PeerTracker) (name uri connection : String)
    → AreKnown v t
    → AreKnown v (add_peer t name uri connection)
unfolding add_peer
add_peer-AreKnown v t name uri connection h = record {
  unique = h.unique;
  peers = λ n present. ground (
    arith,
    h.peers n present,
    lookup-insert n name (record { name = name; rpc_uri = uri; connection_uri = connection })
        t.name_to_peer,
  );
}

IsPeer-add_peer :
    (t : PeerTracker) (name uri connection : String) → IsPeer (add_peer t name uri connection) name
unfolding add_peer
IsPeer-add_peer t name uri connection = ground (
  arith,
  eq_iff name name,
  lookup-insert name name (record { name = name; rpc_uri = uri; connection_uri = connection })
      t.name_to_peer,
)

module _ (t : PeerTracker) where
  add_files-AreKnown :
      (v : StorageFileView) (name : String) (files : List FileId)
      → IsPeer t name
      → AreKnown v t
      → AreKnown (add_files v name files) t
  unfolding add_files add_file_to_manager
  add_files-AreKnown v name [] p h = h
  add_files-AreKnown v name (f ∷ rest) p h =
      add_files-AreKnown (add_file_to_manager v name f.key) name rest p
        (insert-AreKnown v t name _ p h)

  -- The managers that a reported action names.
  abbrev pub NamesPeers : Action → Type 0
  NamesPeers (get_action a) = Unit
  NamesPeers (copy_from_action a) = IsPeer t a.src_mgr.name × IsPeer t a.dst_mgr.name
  NamesPeers (remove_action a) = IsPeer t a.mgr.name
  NamesPeers (put_action a) = IsPeer t a.mgr.name
  NamesPeers action_type_not_set = Unit

  apply_change-AreKnown :
      (v : StorageFileView) (a : Action)
      → NamesPeers a
      → AreKnown v t
      → AreKnown (apply_change v a) t
  unfolding apply_change add_file_to_manager remove_file_from_manager
  apply_change-AreKnown v (get_action a) p h = h
  apply_change-AreKnown v (copy_from_action a) p h =
      insert-AreKnown (add_file_to_manager v a.src_mgr.name a.key) t _ _ p.1
        (insert-AreKnown v t _ _ p.0 h)
  apply_change-AreKnown v (remove_action a) p h = insert-AreKnown v t _ _ p h
  apply_change-AreKnown v (put_action a) p h = insert-AreKnown v t _ _ p h
  apply_change-AreKnown v action_type_not_set p h = h

  apply_changes-AreKnown :
      (v : StorageFileView) (changes : List Action)
      → All NamesPeers changes
      → AreKnown v t
      → AreKnown (apply_changes v changes) t
  unfolding apply_changes
  apply_changes-AreKnown v [] p h = h
  apply_changes-AreKnown v (a ∷ rest) p h =
      apply_changes-AreKnown (apply_change v a) rest p.1 (apply_change-AreKnown v a p.0 h)

-- Introduce keeps every recorded manager a peer, whatever it introduces.
pub introduce-IsServable :
    (peer : String) (request : IntroduceRequest) (m : StorageMaster)
    → IsServable m
    → IsServable (introduce peer request m).1
unfolding introduce add_manager
introduce-IsServable peer (storage_manager i) m h =
    let t = add_peer m.peer_tracker (generate_name (storage_manager i)) _ peer in
    add_files-AreKnown t _ _ i.file (IsPeer-add_peer _ _ _ _) (
      insert-AreKnown m.file_view t _ _ (IsPeer-add_peer _ _ _ _)
        (add_peer-AreKnown m.file_view m.peer_tracker _ _ _ h))
introduce-IsServable peer (storage_client i) m h =
    add_peer-AreKnown m.file_view m.peer_tracker _ _ _ h
introduce-IsServable peer introduce_not_set m h = h

-- StorageChange keeps every recorded manager a peer, if the managers that the report names are.
pub storage_change-IsServable :
    (request : StorageChangeRequest) (m : StorageMaster)
    → All (NamesPeers m.peer_tracker) request.storage_change
    → IsServable m
    → IsServable (storage_change request m)
unfolding storage_change
storage_change-IsServable request m p h =
    apply_changes-AreKnown m.peer_tracker m.file_view request.storage_change p h
