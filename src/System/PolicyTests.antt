-- ===== src/System/PolicyTests.antt =====
-- Rules that are installed through the master of a small system and used at its client.
use programmable_caching.Base.{
  String, true, false, none, some, List, [], ◌∷◌, ◌≡◌, ◌≢◌, ◌==◌, ◌&&◌, ◌||◌, refl, if◌then◌else◌,
  arith, eq_iff,
}
use programmable_caching.Base.Dict.{Dict, lookup}
use programmable_caching.Base.Exec.{returns}
use programmable_caching.Proto.Common.{Action, Manager, OperationType, put_action}
use programmable_caching.Rpc.{Stub, ok, of_uri}
use programmable_caching.Rpc.MasterStub
use programmable_caching.Storage.{StorageInterface}
use programmable_caching.Storage.Rocks.{rocksdb_storage_interface}
use programmable_caching.Storage.Laws.{
  IsLawful, rocks-IsLawful, memory_db, memory_contents, memory_db-IsSound,
}
use programmable_caching.Manager
use programmable_caching.Master.Peers.{Peer, get_peer_from_name}
use programmable_caching.Master.Files.Tracks.{tracks}
use programmable_caching.Master.Rules.{all_with_addresses}
use programmable_caching.Master.Service as Master
use programmable_caching.Master.Service.{StorageMaster}
use programmable_caching.Client.Service as Client
use programmable_caching.Client.Service.{StorageClient}
use programmable_caching.System.{World, master_transport, client_put, client_get}
use programmable_caching.System.Stores.{stored}
use programmable_caching.System.Writes.{targets, names}
use programmable_caching.System.Relocations.{copy_to, remove_at_manager, read_at}
use programmable_caching.System.Policies.{IsManagerPeer, rule_for, install-put, install-get}

abbrev media : String → StorageInterface (Dict String)
media uri = rocksdb_storage_interface memory_db

abbrev media-IsLawful : (uri : String) → IsLawful (media uri) memory_contents
media-IsLawful uri = (rocks-IsLawful memory_db memory_contents memory_db-IsSound).0

abbrev cache : Manager
cache = record { name = "cache"; uri = "" }

abbrev disk : Manager
disk = record { name = "disk"; uri = "" }

abbrev client_peer : Peer
client_peer = record { name = "client:c"; rpc_uri = "c:1"; connection_uri = "ipv4:2" }

abbrev cache_peer : Peer
cache_peer = record { name = "cache"; rpc_uri = "a:1"; connection_uri = "ipv4:3" }

abbrev disk_peer : Peer
disk_peer = record { name = "disk"; rpc_uri = "b:1"; connection_uri = "ipv4:1" }

abbrev master : StorageMaster
master = record (Master.init "master" "1") {
  peer_tracker = record {
    name_to_peer = ("client:c", client_peer) ∷ ("cache", cache_peer) ∷ ("disk", disk_peer) ∷ [];
    connection_to_peer = [];
  };
}

abbrev client : StorageClient
client = Client.init "c" "1" "master" "1"

abbrev system : World (Dict String)
system = record {
  master = master;
  managers =
      ("a:1", Manager.init "a" "1" "master" "1" [])
      ∷ ("b:1", Manager.init "b" "1" "master" "1" (("in", "data") ∷ []))
      ∷ [];
  clients = ("c:1", client) ∷ [];
}

client-known : get_peer_from_name system.master.peer_tracker "client:c" ≡ returns client_peer
unfolding get_peer_from_name lookup
client-known = refl

client-listens : lookup client_peer.rpc_uri system.clients ≡ some client
unfolding lookup
client-listens = refl

cache-IsManagerPeer : IsManagerPeer system "cache" cache_peer
unfolding lookup
cache-IsManagerPeer = (refl, λ e. cc)

disk-IsManagerPeer : IsManagerPeer system "disk" disk_peer
unfolding lookup
disk-IsManagerPeer = (refl, λ e. cc)

data-at-disk : stored memory_contents system.managers "b:1" "in" ≡ some "data"
unfolding stored lookup
data-at-disk = refl

addresses-differ : cache_peer.rpc_uri ≢ disk_peer.rpc_uri
addresses-differ e = ground (arith, (eq_iff "a:1" "b:1").1 e)

names-differ : cache.name ≢ disk.name
names-differ e = ground (arith, (eq_iff "cache" "disk").1 e)

abbrev stub : Stub
stub = of_uri "master:1"

abbrev both : List Action
both =
    put_action (record { key = "out"; mgr = cache })
    ∷ put_action (record { key = "out"; mgr = disk })
    ∷ []

install-put_example :
    (v : World (Dict String)) × (u : World (Dict String)) × (MasterStub.install_rule
        (master_transport media "ipv4:4")
        stub
        (rule_for "client:c" OperationType.put "out" both)
        system
      ≡ (returns ok, v))
    × (client_put media "c:1" true (record { key = "out"; value = "result" }) v ≡ (returns ok, u))
    × ((j k : String)
        → stored memory_contents u.managers j k ≡ (
            if "out" == k && targets (all_with_addresses system.master.peer_tracker both) j
            then some "result"
            else stored memory_contents system.managers j k))
    × ((m k : String)
        → tracks u.master.file_view m k
          ≡ (("out" == k && names both m) || tracks system.master.file_view m k))
install-put_example =
    install-put media memory_contents media-IsLawful "ipv4:4" stub "client:c" "out" system
      client_peer client true "result" both client-known client-listens
      ((refl, cache_peer, cache-IsManagerPeer), ((refl, disk_peer, disk-IsManagerPeer), tt))

install-get_example :
    (v : World (Dict String)) × (u : World (Dict String)) × (MasterStub.install_rule
        (master_transport media "ipv4:4")
        stub
        (rule_for "client:c" OperationType.get "in"
          (copy_to "in" cache disk ∷ remove_at_manager "in" disk ∷ read_at "in" cache ∷ []))
        system
      ≡ (returns ok, v))
    × (client_get media "c:1" true (record { key = "in" }) v
        ≡ (returns (ok, record { value = "data" }), u))
    × (stored memory_contents u.managers "a:1" "in" ≡ some "data")
    × (stored memory_contents u.managers "b:1" "in" ≡ none)
    × (tracks u.master.file_view "cache" "in" ≡ true)
    × (tracks u.master.file_view "disk" "in" ≡ false)
install-get_example =
    install-get media memory_contents media-IsLawful "ipv4:4" stub "client:c" "in" system
      client_peer client true "data" cache disk cache_peer disk_peer client-known client-listens
      cache-IsManagerPeer disk-IsManagerPeer addresses-differ names-differ data-at-disk
