-- ===== src/Master/Tests.antt =====
-- The storage master on one manager and one client, both introduced.
use programmable_caching.Base.{String, none, [], ◌∷◌, ◌≡◌, ◌≢◌, ◌⊎◌, ◌↔◌, refl, All}
use programmable_caching.Base.Dict.{lookup, insert}
use programmable_caching.Base.Exec.{returns, faults, out_of_range}
use programmable_caching.Proto.Common.{
  Rule, StorageName, OperationType, copy_from_action, put_action,
}
use programmable_caching.Proto.Storage.{
  IntroduceRequest, StorageType, StorageChangeRequest, InstallRuleRequest, GetViewReply,
  storage_manager, storage_client,
}
use programmable_caching.Rpc.{ok, RuleTransport, of_uri}
use programmable_caching.Rpc.ClientStub
use programmable_caching.Master.Peers.{Peer, get_peer_from_name, add_peer}
use programmable_caching.Master.Files.{add_file_to_manager, remove_file_from_manager}
use programmable_caching.Master.Files.Tracks.{tracks}
use programmable_caching.Master.Naming.{generate_name, SameIdentity, generate_name-eq_iff}
use programmable_caching.Master.Service.{
  StorageMaster, init, introduce, storage_change, apply_change, apply_changes, get_view,
  install_rule,
}
use programmable_caching.Master.Changes.{
  last_effect, or_else, introduced, tracks-storage_change, tracks-introduce,
}
use programmable_caching.Master.Known.{IsPeer, IsServable, init-IsServable, introduce-IsServable}
use programmable_caching.Master.Views.{shows, IsAddressed, get_view-shows, get_view-unknown}
use programmable_caching.Master.Runs.{Reach, Step, Reach-get_view}
use programmable_caching.Master.Rules.{CanInstall, forwarded, install_rule_cases}

abbrev manager_request : String → IntroduceRequest
manager_request port = storage_manager (record {
  storage_type = StorageType.managed;
  storage_name = StorageName.ephemeral;
  rpc_hostname = "a";
  rpc_port = port;
  file = record { key = "in" } ∷ record { key = "in" } ∷ [];
})

abbrev client_request : IntroduceRequest
client_request = storage_client (record { rpc_hostname = "c"; rpc_port = "1" })

abbrev started : StorageMaster
started = init "master" "1"

abbrev with_manager : StorageMaster
with_manager = (introduce "ipv4:1" (manager_request "1") started).1

abbrev with_client : StorageMaster
with_client = (introduce "ipv4:2" client_request with_manager).1

abbrev cache : String
cache = "manager:EPHEMERAL:MANAGED:a"

abbrev moved : StorageChangeRequest
moved = record {
  storage_change =
      copy_from_action (record {
        key = "in";
        src_mgr = record { name = "disk"; uri = "b:1" };
        dst_mgr = record { name = cache; uri = "a:1" };
      })
      ∷ [];
}

abbrev stored_again : StorageChangeRequest
stored_again = record {
  storage_change =
      put_action (record { key = "out"; mgr = record { name = cache; uri = "" } }) ∷ [];
}

cache_named : generate_name (manager_request "1") ≡ cache
unfolding generate_name
cache_named = refl

tracks-storage_change_example :
    tracks (storage_change moved with_manager).file_view cache "in"
    ≡ or_else
        (last_effect moved.storage_change cache "in")
        (tracks with_manager.file_view cache "in")
tracks-storage_change_example = tracks-storage_change moved with_manager cache "in"

tracks-introduce_example :
    tracks (introduce "ipv4:1" (manager_request "1") started).1.file_view cache "in"
    ≡ introduced (manager_request "1") cache "in" (tracks started.file_view cache "in")
tracks-introduce_example = tracks-introduce "ipv4:1" (manager_request "1") started cache "in"

with_manager-IsServable : IsServable with_manager
with_manager-IsServable =
    introduce-IsServable "ipv4:1" (manager_request "1") started (init-IsServable "master" "1")

cache-IsPeer : IsPeer with_manager.peer_tracker cache
unfolding introduce add_peer insert lookup generate_name
cache-IsPeer e = cc

get_view-shows_example :
    (reply : GetViewReply) × (get_view with_manager ≡ returns reply)
    × ((manager key : String)
        → shows reply.view manager key ≡ tracks with_manager.file_view manager key)
    × All (IsAddressed with_manager.peer_tracker) reply.view
    × (reply.client ≡ [])
get_view-shows_example = get_view-shows with_manager with_manager-IsServable

-- A report that names a manager that never introduced itself.
disk-known : lookup "disk" (storage_change moved started).file_view.manager_views ≢ none
unfolding storage_change apply_changes apply_change add_file_to_manager remove_file_from_manager
    lookup insert
disk-known e = cc

disk-unknown : lookup "disk" (storage_change moved started).peer_tracker.name_to_peer ≡ none
unfolding storage_change lookup
disk-unknown = refl

get_view-unknown_example : get_view (storage_change moved started) ≡ faults out_of_range
get_view-unknown_example =
    get_view-unknown (storage_change moved started) "disk" disk-known disk-unknown

abbrev out_rule : Rule
out_rule = record {
  op_type = OperationType.put;
  key = "out";
  action = put_action (record { key = "out"; mgr = record { name = cache; uri = "" } }) ∷ [];
}

-- A network that keeps the address of the last call.
abbrev recording : RuleTransport String
recording = record {
  send_install_rule = λ uri wait request s. (returns ok, uri);
  send_remove_rule = λ uri wait request s. (returns ok, uri);
}

abbrev install_out : InstallRuleRequest
install_out = record { client = "client:c"; rule = out_rule }

install_rule_cases_example :
    ((p : Peer) × CanInstall recording with_client install_out
      × (get_peer_from_name with_client.peer_tracker install_out.client ≡ returns p)
      × (install_rule recording with_client install_out ""
          ≡ ClientStub.install_rule recording
              (of_uri p.rpc_uri)
              (forwarded recording with_client install_out)
              ""))
    ⊎ ((¬ CanInstall recording with_client install_out)
        × (install_rule recording with_client install_out "" ≡ (faults out_of_range, "")))
install_rule_cases_example = install_rule_cases recording with_client install_out ""

generate_name-eq_iff_example :
    (generate_name (manager_request "1") ≡ generate_name (manager_request "2"))
    ↔ SameIdentity (manager_request "1") (manager_request "2")
generate_name-eq_iff_example = generate_name-eq_iff (manager_request "1") (manager_request "2")

with_manager-Reach : Reach started with_manager
with_manager-Reach = Reach.next Reach.here (Step.introduces "ipv4:1" (manager_request "1") refl)

reported-Reach : Reach started (storage_change stored_again with_manager)
reported-Reach = Reach.next with_manager-Reach (Step.reports stored_again (cache-IsPeer, tt) refl)

Reach-get_view_example :
    (reply : GetViewReply) × (get_view (storage_change stored_again with_manager) ≡ returns reply)
    × ((manager key : String)
        → shows reply.view manager key
          ≡ tracks (storage_change stored_again with_manager).file_view manager key)
    × All (IsAddressed (storage_change stored_again with_manager).peer_tracker) reply.view
Reach-get_view_example =
    Reach-get_view "master" "1" (storage_change stored_again with_manager) reported-Reach
