-- ===== src/System/Tests.antt =====
-- The storage service on a small system: two managers, one client, and one rule of each kind.
use programmable_caching.Base.{
  String, some, [], ◌∷◌, ◌||◌, ◌&&◌, ◌==◌, ◌≡◌, ◌≢◌, refl, true, false, arith, eq_iff,
}
use programmable_caching.Base.{none, List, if◌then◌else◌}
use programmable_caching.Base.Dict.{Dict, insert, lookup}
use programmable_caching.Base.Exec.{returns}
use programmable_caching.Proto.Common.{Manager, OperationType, Rule, put_action}
use programmable_caching.Proto.Storage.{GetRequest, PutRequest, CopyFromRequest}
use programmable_caching.Rpc.{ok}
use programmable_caching.Storage.{StorageInterface}
use programmable_caching.Storage.Rocks.{rocksdb_storage_interface}
use programmable_caching.Storage.Laws.{
  IsLawful, rocks-IsLawful, memory_db, memory_contents, memory_db-IsSound,
}
use programmable_caching.Manager
use programmable_caching.Manager.{StorageManager}
use programmable_caching.Master.Service as Master
use programmable_caching.Master.Files.Tracks.{tracks, same_pair}
use programmable_caching.Client.RuleDb.{add_rule, get_rule_key, get_matching_rule}
use programmable_caching.Client.Service as Client
use programmable_caching.Client.Service.{StorageClient}
use programmable_caching.System.{World, manager_copy_from, client_get, client_put}
use programmable_caching.System.Stores.{stored, read_value, Runs}
use programmable_caching.System.Copies.{copy_from-stored}
use programmable_caching.System.Writes.{client_put-writes, targets, names}
use programmable_caching.System.Moves.{client_get-reads, prepare_all, reports}
use programmable_caching.System.Relocations.{
  copy_to, remove_at_manager, read_at, get-moves, get-copies,
}

abbrev media : String → StorageInterface (Dict String)
media uri = rocksdb_storage_interface memory_db

abbrev media-IsLawful : (uri : String) → IsLawful (media uri) memory_contents
media-IsLawful uri = (rocks-IsLawful memory_db memory_contents memory_db-IsSound).0

abbrev cache : Manager
cache = record { name = "cache"; uri = "a:1" }

abbrev disk : Manager
disk = record { name = "disk"; uri = "b:1" }

abbrev put_rule : Rule
put_rule = record {
  op_type = OperationType.put;
  key = "out";
  action = put_action (record { key = "out"; mgr = cache }) ∷ [];
}

abbrev move_rule : Rule
move_rule = record {
  op_type = OperationType.get;
  key = "in";
  action = copy_to "in" cache disk ∷ remove_at_manager "in" disk ∷ read_at "in" cache ∷ [];
}

abbrev copy_rule : Rule
copy_rule = record {
  op_type = OperationType.get;
  key = "in";
  action = copy_to "in" cache disk ∷ read_at "in" cache ∷ [];
}

abbrev with_rules : List Rule → StorageClient
with_rules [] = Client.init "c" "1" "master" "1"
with_rules (r ∷ rest) = let c = with_rules rest in record c { rule_db = add_rule c.rule_db r }

abbrev system : List Rule → World (Dict String)
system rules = record {
  master = Master.init "master" "1";
  managers =
      ("a:1", Manager.init "a" "1" "master" "1" [])
      ∷ ("b:1", Manager.init "b" "1" "master" "1" (("in", "data") ∷ []))
      ∷ [];
  clients = ("c:1", with_rules rules) ∷ [];
}

cache-Runs : (rules : List Rule) → Runs "a:1" (system rules).managers
unfolding lookup
cache-Runs rules e = cc

disk-Runs : (rules : List Rule) → Runs "b:1" (system rules).managers
unfolding lookup
disk-Runs rules e = cc

client_found : (rules : List Rule) → lookup "c:1" (system rules).clients ≡ some (with_rules rules)
unfolding lookup
client_found rules = refl

put_rule_found :
    get_matching_rule (with_rules (put_rule ∷ [])).rule_db "out" OperationType.put
    ≡ returns put_rule
unfolding lookup add_rule get_rule_key get_matching_rule insert
put_rule_found = refl

move_rule_found :
    get_matching_rule (with_rules (move_rule ∷ [])).rule_db "in" OperationType.get
    ≡ returns move_rule
unfolding lookup add_rule get_rule_key get_matching_rule insert
move_rule_found = refl

copy_rule_found :
    get_matching_rule (with_rules (copy_rule ∷ [])).rule_db "in" OperationType.get
    ≡ returns copy_rule
unfolding lookup add_rule get_rule_key get_matching_rule insert
copy_rule_found = refl

disk_stores :
    (rules : List Rule) → stored memory_contents (system rules).managers "b:1" "in" ≡ some "data"
unfolding lookup stored
disk_stores rules = refl

abbrev put_out : PutRequest
put_out = record { key = "out"; value = "result" }

client_put-writes_example :
    (v : World (Dict String)) × (client_put media "c:1" true put_out (system (put_rule ∷ []))
      ≡ (returns ok, v))
    × ((j k : String)
        → stored memory_contents v.managers j k ≡ (
            if "out" == k && targets put_rule.action j
            then some "result"
            else stored memory_contents (system (put_rule ∷ [])).managers j k))
    × ((m k : String)
        → tracks v.master.file_view m k ≡ (
            ("out" == k && names put_rule.action m)
            || tracks (system (put_rule ∷ [])).master.file_view m k))
client_put-writes_example =
    client_put-writes media memory_contents media-IsLawful "c:1" true put_out
      (system (put_rule ∷ [])) (with_rules (put_rule ∷ [])) put_rule (client_found (put_rule ∷ []))
      put_rule_found ((refl, cache-Runs (put_rule ∷ [])), tt)

abbrev ask_in : GetRequest
ask_in = record { key = "in" }

client_get-reads_example : client_get media "c:1" true ask_in (system (move_rule ∷ [])) ≡ (
  returns (
    ok,
    record {
      value = read_value (
          stored memory_contents
            (prepare_all media memory_contents media-IsLawful
              (copy_to "in" cache disk ∷ remove_at_manager "in" disk ∷ [])
              (system (move_rule ∷ [])).managers)
            "a:1"
            "in");
    },
  ),
  record (system (move_rule ∷ [])) {
    managers =
        prepare_all media memory_contents media-IsLawful
          (copy_to "in" cache disk ∷ remove_at_manager "in" disk ∷ [])
          (system (move_rule ∷ [])).managers;
    master =
        Master.storage_change
          (record {
            storage_change = reports (copy_to "in" cache disk ∷ remove_at_manager "in" disk ∷ []);
          })
          (system (move_rule ∷ [])).master;
  },
)
client_get-reads_example =
    client_get-reads media memory_contents media-IsLawful "c:1" true ask_in
      (system (move_rule ∷ [])) (with_rules (move_rule ∷ [])) move_rule
      (copy_to "in" cache disk ∷ remove_at_manager "in" disk ∷ [])
      (record { key = "in"; mgr = cache }) (client_found (move_rule ∷ [])) move_rule_found refl refl
      (cache-Runs (move_rule ∷ []), (disk-Runs (move_rule ∷ []), tt)) (cache-Runs (move_rule ∷ []))

addresses_differ : cache.uri ≢ disk.uri
addresses_differ e = ground (arith, (eq_iff "a:1" "b:1").1 e)

names_differ : cache.name ≢ disk.name
names_differ e = ground (arith, (eq_iff "cache" "disk").1 e)

get-moves_example :
    (v : World (Dict String)) × (client_get media "c:1" true ask_in (system (move_rule ∷ []))
      ≡ (returns (ok, record { value = "data" }), v))
    × (stored memory_contents v.managers "a:1" "in" ≡ some "data")
    × (stored memory_contents v.managers "b:1" "in" ≡ none)
    × (tracks v.master.file_view "cache" "in" ≡ true)
    × (tracks v.master.file_view "disk" "in" ≡ false)
get-moves_example =
    get-moves media memory_contents media-IsLawful "in" (system (move_rule ∷ [])) cache disk "data"
      "c:1" true (with_rules (move_rule ∷ [])) move_rule (client_found (move_rule ∷ []))
      move_rule_found refl (cache-Runs (move_rule ∷ [])) (disk-Runs (move_rule ∷ []))
      addresses_differ names_differ (disk_stores (move_rule ∷ []))

get-copies_example :
    (v : World (Dict String)) × (client_get media "c:1" true ask_in (system (copy_rule ∷ []))
      ≡ (returns (ok, record { value = "data" }), v))
    × (stored memory_contents v.managers "a:1" "in" ≡ some "data")
    × (stored memory_contents v.managers "b:1" "in" ≡ some "data")
    × (tracks v.master.file_view "disk" "in" ≡ false)
get-copies_example =
    get-copies media memory_contents media-IsLawful "in" (system (copy_rule ∷ [])) cache disk "data"
      "c:1" true (with_rules (copy_rule ∷ [])) copy_rule (client_found (copy_rule ∷ []))
      copy_rule_found refl (cache-Runs (copy_rule ∷ [])) (disk_stores (copy_rule ∷ []))

abbrev copy_in : CopyFromRequest
copy_in = record { key = "in"; dst_uri = "b:1" }

copy_from-stored_example :
    (v : World (Dict String)) × (manager_copy_from media "a:1" true copy_in (system [])
      ≡ (returns ok, v))
    × ((j k : String)
        → stored memory_contents v.managers j k ≡ (
            if same_pair "a:1" "in" j k
            then some (read_value (stored memory_contents (system []).managers "b:1" "in"))
            else stored memory_contents (system []).managers j k))
    × (v.master ≡ (system []).master)
    × (v.clients ≡ (system []).clients)
copy_from-stored_example =
    copy_from-stored media memory_contents media-IsLawful "a:1" true copy_in (system [])
      (cache-Runs [])
