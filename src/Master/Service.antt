-- ===== src/Master/Service.antt =====
-- The handlers of StorageMaster in storage_master.cc. A handler takes the address of the caller,
-- context->peer(), where the source reads it. The storage clients are reached through a transport.
use programmable_caching.Base.{String, List, [], ◌∷◌}
use programmable_caching.Base.Text.{◌⧺◌}
use programmable_caching.Base.Exec.{Outcome, returns, Exec, lift, ◌>>=◌, and_then, traverse}
use programmable_caching.Proto.Common.{
  Action, Rule, Manager, get_action, copy_from_action, remove_action, put_action,
  action_type_not_set,
}
use programmable_caching.Proto.Storage.{
  FileId, IntroduceRequest, storage_manager, storage_client, introduce_not_set, IntroduceReply,
  InstallRuleRequest, RemoveRuleRequest, StorageChangeRequest, GetViewReply, empty_view_reply,
}
use programmable_caching.Rpc.{Status, RuleTransport, of_uri}
use programmable_caching.Rpc.ClientStub
use programmable_caching.Master.Peers.{PeerTracker, get_peer_from_name, add_peer, populate_uris}
use programmable_caching.Master.Files.{
  StorageFileView, add_manager, add_file_to_manager, remove_file_from_manager, populate_views,
}
use programmable_caching.Master.Naming.{generate_name}

pub record StorageMaster : Type 0 where
  pub file_view : StorageFileView
  pub peer_tracker : PeerTracker
  pub master_hostname : String
  pub master_port : String

-- The constructor.
abbrev pub init : String → String → StorageMaster
init hostname port = record {
  file_view = record { manager_views = [] };
  peer_tracker = record { name_to_peer = []; connection_to_peer = [] };
  master_hostname = hostname;
  master_port = port;
}

-- The address that Start listens on.
abbrev pub server_address : StorageMaster → String
server_address m = m.master_hostname ⧺ ":" ⧺ m.master_port

-- for (const auto& file_id : introduce.file())
unfoldable pub add_files : StorageFileView → String → List FileId → StorageFileView
add_files v name [] = v
add_files v name (file_id ∷ rest) = add_files (add_file_to_manager v name file_id.key) name rest

-- The switch of Introduce, under the name that GenerateName gave.
abbrev introduce_as : String → String → IntroduceRequest → StorageMaster → StorageMaster
introduce_as name peer (storage_manager introduce) m = record m {
  peer_tracker =
      add_peer m.peer_tracker name (introduce.rpc_hostname ⧺ ":" ⧺ introduce.rpc_port) peer;
  file_view = add_files (add_manager m.file_view name) name introduce.file;
}
introduce_as name peer (storage_client introduce) m = record m {
  peer_tracker =
      add_peer m.peer_tracker name (introduce.rpc_hostname ⧺ ":" ⧺ introduce.rpc_port) peer;
}
introduce_as name peer introduce_not_set m = m

unfoldable pub introduce :
    String → IntroduceRequest → StorageMaster → IntroduceReply × StorageMaster
introduce peer request m =
    let name = generate_name request in (record { name = name }, introduce_as name peer request m)

-- Heartbeat only logs.
unfoldable pub heartbeat : StorageMaster → StorageMaster
heartbeat m = m

-- mutable_mgr()->set_uri(GetPeerFromName(mgr().name()).rpc_uri)
unfoldable pub resolve : PeerTracker → Manager → Outcome Manager
resolve t mgr =
    and_then (get_peer_from_name t mgr.name) λ p. returns (record mgr { uri = p.rpc_uri })

-- One round of the loop in FillInRule.
unfoldable pub fill_in_action : PeerTracker → Action → Outcome Action
fill_in_action t (get_action a) =
    and_then (resolve t a.mgr) λ mgr. returns (get_action (record a { mgr = mgr }))
fill_in_action t (copy_from_action a) = and_then (resolve t a.src_mgr) λ src.
    and_then (resolve t a.dst_mgr)
      λ dst. returns (copy_from_action (record a { src_mgr = src; dst_mgr = dst }))
fill_in_action t (remove_action a) =
    and_then (resolve t a.mgr) λ mgr. returns (remove_action (record a { mgr = mgr }))
fill_in_action t (put_action a) =
    and_then (resolve t a.mgr) λ mgr. returns (put_action (record a { mgr = mgr }))
fill_in_action t action_type_not_set = returns action_type_not_set

unfoldable pub fill_in_rule : PeerTracker → Rule → Outcome Rule
fill_in_rule t rule =
    and_then (traverse (fill_in_action t) rule.action)
      λ actions. returns (record rule { action = actions })

module _ {S : Type 0} (t : RuleTransport S) where
  unfoldable pub install_rule : StorageMaster → InstallRuleRequest → Exec S Status
  unfolding ClientStub.install_rule
  install_rule m request = do
    p ← lift (get_peer_from_name m.peer_tracker request.client)
    rule ← lift (fill_in_rule m.peer_tracker request.rule)
    ClientStub.install_rule t (of_uri p.rpc_uri) (record request { rule = rule })

  -- The rule goes to the client as it is: no uri is filled in.
  unfoldable pub remove_rule : StorageMaster → RemoveRuleRequest → Exec S Status
  unfolding ClientStub.remove_rule
  remove_rule m request = do
    p ← lift (get_peer_from_name m.peer_tracker request.client)
    ClientStub.remove_rule t (of_uri p.rpc_uri) request

-- One round of the loop in StorageChange. A copy adds the file to the source manager and takes it
-- from the destination.
unfoldable pub apply_change : StorageFileView → Action → StorageFileView
apply_change v (copy_from_action a) =
    remove_file_from_manager (add_file_to_manager v a.src_mgr.name a.key) a.dst_mgr.name a.key
apply_change v (remove_action a) = remove_file_from_manager v a.mgr.name a.key
apply_change v (put_action a) = add_file_to_manager v a.mgr.name a.key
apply_change v (get_action a) = v
apply_change v action_type_not_set = v

unfoldable pub apply_changes : StorageFileView → List Action → StorageFileView
apply_changes v [] = v
apply_changes v (change ∷ rest) = apply_changes (apply_change v change) rest

unfoldable pub storage_change : StorageChangeRequest → StorageMaster → StorageMaster
unfolding apply_changes
storage_change request m = record m { file_view = apply_changes m.file_view request.storage_change }

unfoldable pub get_view : StorageMaster → Outcome GetViewReply
get_view m = populate_uris m.peer_tracker (populate_views m.file_view empty_view_reply)
