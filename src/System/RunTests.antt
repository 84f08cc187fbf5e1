-- ===== src/System/RunTests.antt =====
-- A run of a small system: a manager starts, and a file is put on it by a rule.
use programmable_caching.Base.{
  ◌++◌, ◌↔◌, All, if◌then◌else◌, ◌&&◌, String, true, none, some, [], ◌∷◌, ◌≡◌, ◌≢◌, ◌==◌, refl,
  if◌then◌else◌, arith, eq_iff,
}
use programmable_caching.Base.Dict.{Dict, lookup, insert}
use programmable_caching.Base.Exec.{faults, blocked, returns}
use programmable_caching.Proto.Common.{PutAction, Rule, OperationType, put_action}
use programmable_caching.Proto.Storage.{PutRequest, GetViewReply}
use programmable_caching.Rpc.{ok}
use programmable_caching.Storage.{StorageInterface}
use programmable_caching.Storage.Rocks.{rocksdb_storage_interface}
use programmable_caching.Storage.Laws.{
  IsLawful, rocks-IsLawful, memory_db, memory_contents, memory_db-IsSound,
}
use programmable_caching.Manager
use programmable_caching.Manager.{StorageManager, introduction}
use programmable_caching.Master.Files.Tracks.{tracks}
use programmable_caching.Master.Naming.{generate_name}
use programmable_caching.Master.Service as Master
use programmable_caching.Client.RuleDb.{add_rule, get_rule_key, get_matching_rule}
use programmable_caching.Client.Service as Client
use programmable_caching.Client.Service.{StorageClient}
use programmable_caching.System.{World, master_transport, client_put}
use programmable_caching.System.Stores.{stored, Runs}
use programmable_caching.System.Stalls.{client_put-stalls}
use programmable_caching.System.Writes.{targets, client_put-writes, names}
use programmable_caching.System.Exact.Views as Exact
use programmable_caching.Master.Views.{shows}
use programmable_caching.System.Consistency.Reach.{Reach, here, next, manager_starts, puts}
use programmable_caching.System.Consistency.Stored.{Reach-IsStored}

abbrev media : String → StorageInterface (Dict String)
media uri = rocksdb_storage_interface memory_db

abbrev media-IsLawful : (uri : String) → IsLawful (media uri) memory_contents
media-IsLawful uri = (rocks-IsLawful memory_db memory_contents memory_db-IsSound).0

abbrev disk : StorageManager (Dict String)
disk = Manager.init "b" "1" "master" "1" (("in", "data") ∷ [])

abbrev disk_name : String
disk_name = generate_name (introduction (rocksdb_storage_interface memory_db) disk)

-- The manager is at home at its address.
abbrev home : String → String
home name = if name == disk_name then "b:1" else if name == "b:1" then disk_name else name

home-apart : (m n : String) → home m ≡ home n → m ≡ n
home-apart m n e =
    ground
      (arith, e, eq_iff m disk_name, eq_iff n disk_name, eq_iff m "b:1", eq_iff n "b:1", eq_iff m n)

abbrev put_rule : Rule
put_rule = record {
  op_type = OperationType.put;
  key = "out";
  action = put_action (record { key = "out"; mgr = record { name = disk_name; uri = "b:1" } }) ∷ [];
}

abbrev client : StorageClient
client =
    let c = Client.init "c" "1" "master" "1" in record c { rule_db = add_rule c.rule_db put_rule }

abbrev empty_system : World (Dict String)
empty_system = record {
  master = Master.init "master" "1";
  managers = [];
  clients = ("c:1", client) ∷ [];
}

abbrev started : World (Dict String)
started = record {
  master =
      (Master.introduce "ipv4:1" (introduction (rocksdb_storage_interface memory_db) disk)
        empty_system.master).1;
  managers = ("b:1", record disk { name = disk_name }) ∷ [];
  clients = ("c:1", client) ∷ [];
}

at_home : "b:1" ≡ home disk_name
at_home = ground (arith, eq_iff disk_name disk_name)

it_starts :
    Manager.start (media "b:1") (master_transport media "ipv4:1") disk empty_system
    ≡ (returns (record disk { name = disk_name }), record started { managers = [] })
unfolding Manager.start Master.introduce introduction
it_starts = refl

abbrev put_out : PutRequest
put_out = record { key = "out"; value = "result" }

client-listens : lookup "c:1" started.clients ≡ some client
unfolding lookup
client-listens = refl

rule-found : get_matching_rule client.rule_db "out" OperationType.put ≡ returns put_rule
unfolding lookup add_rule get_rule_key get_matching_rule insert
rule-found = refl

disk-Runs : Runs "b:1" started.managers
unfolding lookup
disk-Runs e = cc

written :
    (v : World (Dict String)) × (client_put media "c:1" true put_out started ≡ (returns ok, v))
    × (tracks v.master.file_view disk_name "out" ≡ true)
unfolding names
written =
    let (v, done, stores, records) =
      client_put-writes media memory_contents media-IsLawful "c:1" true put_out started client
        put_rule client-listens rule-found ((refl, disk-Runs), tt) in
    (
      v,
      done,
      ground (arith, records disk_name "out", eq_iff disk_name disk_name, eq_iff "out" "out"),
    )

the_run : Reach media home empty_system written.0
unfolding insert
the_run =
    next
      (next here (
        manager_starts "ipv4:1" disk (record disk { name = disk_name })
          (record started { managers = [] }) at_home it_starts refl))
      (puts "c:1" true put_out client put_rule ok client-listens rule-found ((refl, disk-Runs), tt)
        (at_home, tt) written.1)

Reach-IsStored_example : stored memory_contents written.0.managers (home disk_name) "out" ≢ none
Reach-IsStored_example =
    Reach-IsStored media memory_contents media-IsLawful home home-apart empty_system written.0 refl
      the_run disk_name "out" written.2

exact_run : Exact.Reach media home empty_system written.0
unfolding insert
exact_run =
    Exact.next
      (Exact.next Exact.here
        (manager_starts "ipv4:1" disk (record disk { name = disk_name })
          (record started { managers = [] }) at_home it_starts refl)
        tt)
      (puts "c:1" true put_out client put_rule ok client-listens rule-found ((refl, disk-Runs), tt)
        (at_home, tt) written.1)
      tt

Reach-shows-stored_example :
    (reply : GetViewReply) × (Master.get_view written.0.master ≡ returns reply)
    × ((m k : String)
        → (shows reply.view m k ≡ true)
          ↔ (stored memory_contents written.0.managers (home m) k ≢ none))
    × All (λ view. view.uri ≡ home view.name) reply.view
Reach-shows-stored_example =
    Exact.Reach-shows-stored media memory_contents media-IsLawful home home-apart "master" "1"
      (("c:1", client) ∷ []) written.0 exact_run

-- A rule that goes to the manager first, and then to an address where nothing listens.
abbrev far : PutAction
far = record { key = "out"; mgr = record { name = "far"; uri = "x:1" } }

abbrev far_rule : Rule
far_rule = record put_rule { action = put_rule.action ++ put_action far ∷ [] }

abbrev far_client : StorageClient
far_client =
    let c = Client.init "c" "1" "master" "1" in record c { rule_db = add_rule c.rule_db far_rule }

abbrev far_system : World (Dict String)
far_system = record started { clients = ("c:1", far_client) ∷ [] }

far_client-listens : lookup "c:1" far_system.clients ≡ some far_client
unfolding lookup
far_client-listens = refl

far_rule-found : get_matching_rule far_client.rule_db "out" OperationType.put ≡ returns far_rule
unfolding lookup add_rule get_rule_key get_matching_rule insert
far_rule-found = refl

nothing_far : lookup "x:1" far_system.managers ≡ none
unfolding lookup
nothing_far = refl

client_put-stalls_example :
    (v : World (Dict String)) × (client_put media "c:1" true put_out far_system
      ≡ (faults blocked, v))
    × ((j k : String)
        → stored memory_contents v.managers j k ≡ (
            if "out" == k && targets put_rule.action j
            then some "result"
            else stored memory_contents far_system.managers j k))
    × (v.master ≡ far_system.master)
client_put-stalls_example =
    client_put-stalls media memory_contents media-IsLawful "c:1" true put_out far_system far_client
      far_rule put_rule.action [] far far_client-listens far_rule-found refl ((refl, disk-Runs), tt)
      refl nothing_far
