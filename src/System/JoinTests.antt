-- ===== src/System/JoinTests.antt =====
-- A manager and a client that join a small system, and a rule that is sent to the client.
use programmable_caching.Base.{
  String, true, some, none, [], ◌∷◌, ◌≡◌, ◌≢◌, ◌↔◌, ◌==◌, ◌&&◌, refl, if◌then◌else◌,
}
use programmable_caching.Base.Dict.{Dict, lookup}
use programmable_caching.Base.Exec.{returns}
use programmable_caching.Proto.Common.{Rule, OperationType, get_action}
use programmable_caching.Proto.Storage.{InstallRuleRequest}
use programmable_caching.Rpc.{ok, of_uri}
use programmable_caching.Rpc.MasterStub
use programmable_caching.Storage.{StorageInterface}
use programmable_caching.Storage.Rocks.{rocksdb_storage_interface}
use programmable_caching.Storage.Laws.{
  IsLawful, rocks-IsLawful, memory_db, memory_contents, memory_db-IsSound,
}
use programmable_caching.Manager
use programmable_caching.Manager.{StorageManager, introduction}
use programmable_caching.Master.Peers.{Peer, get_peer_from_name}
use programmable_caching.Master.Files.Tracks.{tracks}
use programmable_caching.Master.Naming.{generate_name}
use programmable_caching.Master.Rules.{Resolves, all_with_addresses}
use programmable_caching.Master.Service as Master
use programmable_caching.Master.Service.{StorageMaster}
use programmable_caching.Client.RuleDb.{get_matching_rule}
use programmable_caching.Client.RuleDb.Refines.{same_op}
use programmable_caching.Client.Service as Client
use programmable_caching.Client.Service.{StorageClient}
use programmable_caching.System.{World, master_transport}
use programmable_caching.System.Starts.{start-tracks}
use programmable_caching.System.Installs.{addressed_rule, install_rule-arrives}

abbrev media : String → StorageInterface (Dict String)
media uri = rocksdb_storage_interface memory_db

abbrev rocks-Lawful : IsLawful (rocksdb_storage_interface memory_db) memory_contents
rocks-Lawful = (rocks-IsLawful memory_db memory_contents memory_db-IsSound).0

abbrev disk : StorageManager (Dict String)
disk = Manager.init "b" "1" "master" "1" (("in", "data") ∷ [])

abbrev client : StorageClient
client = Client.init "c" "1" "master" "1"

abbrev client_peer : Peer
client_peer = record { name = "client:c"; rpc_uri = "c:1"; connection_uri = "ipv4:2" }

abbrev disk_peer : Peer
disk_peer = record { name = "disk"; rpc_uri = "b:1"; connection_uri = "ipv4:1" }

abbrev master : StorageMaster
master = record (Master.init "master" "1") {
  peer_tracker = record {
    name_to_peer = ("client:c", client_peer) ∷ ("disk", disk_peer) ∷ [];
    connection_to_peer = ("ipv4:2", client_peer) ∷ ("ipv4:1", disk_peer) ∷ [];
  };
}

abbrev system : World (Dict String)
system = record { master = master; managers = ("b:1", disk) ∷ []; clients = ("c:1", client) ∷ [] }

abbrev disk_name : String
disk_name = generate_name (introduction (rocksdb_storage_interface memory_db) disk)

start-tracks_example :
    (v : World (Dict String)) × (Manager.start
        (rocksdb_storage_interface memory_db)
        (master_transport media "ipv4:1")
        disk
        system
      ≡ (returns (record disk { name = disk_name }), v))
    × ((key : String)
        → (tracks v.master.file_view disk_name key ≡ true)
          ↔ (memory_contents disk.storage key ≢ none))
    × ((name key : String)
        → disk_name ≢ name
        → tracks v.master.file_view name key ≡ tracks system.master.file_view name key)
    × (v ≡ record system { master = v.master })
start-tracks_example =
    start-tracks media memory_contents (rocksdb_storage_interface memory_db) rocks-Lawful "ipv4:1"
      disk system

abbrev read_in : Rule
read_in = record {
  op_type = OperationType.get;
  key = "in";
  action = get_action (record { key = "in"; mgr = record { name = "disk"; uri = "" } }) ∷ [];
}

abbrev install_in : InstallRuleRequest
install_in = record { client = "client:c"; rule = read_in }

client-known : get_peer_from_name system.master.peer_tracker "client:c" ≡ returns client_peer
unfolding get_peer_from_name lookup
client-known = refl

client-listens : lookup "c:1" system.clients ≡ some client
unfolding lookup
client-listens = refl

disk-Resolves :
    Resolves system.master.peer_tracker
      (get_action (record { key = "in"; mgr = record { name = "disk"; uri = "" } }))
unfolding lookup
disk-Resolves e = cc

install_rule-arrives_example :
    (v : World (Dict String)) × (d : StorageClient) × (MasterStub.install_rule
        (master_transport media "ipv4:3")
        (of_uri "master:1")
        install_in
        system
      ≡ (returns ok, v))
    × (lookup "c:1" v.clients ≡ some d)
    × ((key : String) (op : OperationType)
        → get_matching_rule d.rule_db key op ≡ (
            if same_op OperationType.get op && "in" == key
            then returns (addressed_rule system read_in)
            else get_matching_rule client.rule_db key op))
    × (v.managers ≡ system.managers)
    × (v.master ≡ system.master)
    × (d ≡ record client { rule_db = d.rule_db })
    × ((uri : String)
        → lookup uri v.clients ≡ (if "c:1" == uri then some d else lookup uri system.clients))
install_rule-arrives_example =
    install_rule-arrives media "ipv4:3" (of_uri "master:1") install_in system client_peer client
      client-known client-listens (disk-Resolves, tt)

-- The rule as the client keeps it has the address of the manager.
addressed_read_in :
    (addressed_rule system read_in).action
    ≡ get_action (record { key = "in"; mgr = record { name = "disk"; uri = "b:1" } }) ∷ []
unfolding all_with_addresses lookup
addressed_read_in = refl
