-- ===== src/System/RoundTripTests.antt =====
-- A put at one client and a get at another of a small system.
use programmable_caching.Base.{String, some, true, [], ◌∷◌, ◌≡◌, refl}
use programmable_caching.Base.Dict.{Dict, lookup, insert}
use programmable_caching.Base.Exec.{returns}
use programmable_caching.Proto.Common.{
  Manager, OperationType, Rule, GetAction, put_action, get_action,
}
use programmable_caching.Rpc.{ok}
use programmable_caching.Storage.{StorageInterface}
use programmable_caching.Storage.Rocks.{rocksdb_storage_interface}
use programmable_caching.Storage.Laws.{
  IsLawful, rocks-IsLawful, memory_db, memory_contents, memory_db-IsSound,
}
use programmable_caching.Manager
use programmable_caching.Master.Service as Master
use programmable_caching.Client.RuleDb.{add_rule, get_rule_key, get_matching_rule}
use programmable_caching.Client.Service as Client
use programmable_caching.Client.Service.{StorageClient}
use programmable_caching.System.{World, client_put, client_get}
use programmable_caching.System.Stores.{Runs}
use programmable_caching.System.Writes.{targets}
use programmable_caching.System.RoundTrips.{client_get-client_put}

abbrev media : String → StorageInterface (Dict String)
media uri = rocksdb_storage_interface memory_db

abbrev media-IsLawful : (uri : String) → IsLawful (media uri) memory_contents
media-IsLawful uri = (rocks-IsLawful memory_db memory_contents memory_db-IsSound).0

abbrev cache : Manager
cache = record { name = "cache"; uri = "a:1" }

abbrev disk : Manager
disk = record { name = "disk"; uri = "b:1" }

-- One client writes to two managers, the other reads from the second.
abbrev write_rule : Rule
write_rule = record {
  op_type = OperationType.put;
  key = "out";
  action =
      put_action (record { key = "out"; mgr = cache })
      ∷ put_action (record { key = "out"; mgr = disk })
      ∷ [];
}

abbrev from_disk : GetAction
from_disk = record { key = "out"; mgr = disk }

abbrev read_rule : Rule
read_rule = record { op_type = OperationType.get; key = "out"; action = get_action from_disk ∷ [] }

abbrev writer : StorageClient
writer = record (Client.init "c" "1" "master" "1") {
  rule_db = add_rule (record { rules = [] }) write_rule;
}

abbrev reader : StorageClient
reader = record (Client.init "d" "1" "master" "1") {
  rule_db = add_rule (record { rules = [] }) read_rule;
}

abbrev system : World (Dict String)
system = record {
  master = Master.init "master" "1";
  managers =
      ("a:1", Manager.init "a" "1" "master" "1" [])
      ∷ ("b:1", Manager.init "b" "1" "master" "1" (("out", "old") ∷ []))
      ∷ [];
  clients = ("c:1", writer) ∷ ("d:1", reader) ∷ [];
}

cache-Runs : Runs "a:1" system.managers
unfolding lookup
cache-Runs e = cc

disk-Runs : Runs "b:1" system.managers
unfolding lookup
disk-Runs e = cc

writer_listens : lookup "c:1" system.clients ≡ some writer
unfolding lookup
writer_listens = refl

reader_listens : lookup "d:1" system.clients ≡ some reader
unfolding lookup
reader_listens = refl

write_rule_found : get_matching_rule writer.rule_db "out" OperationType.put ≡ returns write_rule
unfolding lookup add_rule get_rule_key get_matching_rule insert
write_rule_found = refl

read_rule_found : get_matching_rule reader.rule_db "out" OperationType.get ≡ returns read_rule
unfolding lookup add_rule get_rule_key get_matching_rule insert
read_rule_found = refl

disk_written : targets write_rule.action "b:1" ≡ true
unfolding targets
disk_written = refl

client_get-client_put_example :
    (v : World (Dict String)) × (client_put media "c:1" true
        (record { key = "out"; value = "result" })
        system
      ≡ (returns ok, v))
    × (client_get media "d:1" true (record { key = "out" }) v
        ≡ (returns (ok, record { value = "result" }), v))
client_get-client_put_example =
    client_get-client_put media memory_contents media-IsLawful "c:1" "d:1" true true "out" "result"
      system writer reader write_rule read_rule from_disk writer_listens write_rule_found
      ((refl, cache-Runs), ((refl, disk-Runs), tt)) reader_listens read_rule_found refl refl
      disk_written
