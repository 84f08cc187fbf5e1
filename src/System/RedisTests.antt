-- ===== src/System/RedisTests.antt =====
-- A manager over Redis beside one over RocksDB.
use programmable_caching.Base.{String, true, some, [], ◌≡◌, ◌==◌, if◌then◌else◌, refl}
use programmable_caching.Base.Dict.{Dict, lookup, insert, erase, keys}
use programmable_caching.Base.Exec.{returns}
use programmable_caching.Proto.Storage.{PutRequest}
use programmable_caching.Rpc.{ok}
use programmable_caching.Storage.{StorageInterface}
use programmable_caching.Storage.Rocks.{rocksdb_storage_interface}
use programmable_caching.Storage.Redis.{RedisServer, redis_interface}
use programmable_caching.Storage.Laws.{
  memory_db, memory_contents, memory_db-IsSound, rocks-IsLawful,
}
use programmable_caching.Manager.{StorageManager, init}
use programmable_caching.Master.Service as Master
use programmable_caching.System.{World, manager_get, manager_put, manager_copy_from}
use programmable_caching.System.Stores.{stored, Runs}
use programmable_caching.System.RedisCopies.{redis-empty_copies}

abbrev memory_server : RedisServer (Dict String)
memory_server = record {
  command_set = λ d k v. insert k v d;
  command_del = λ d k. erase k d;
  command_keys = keys;
}

abbrev media : String → StorageInterface (Dict String)
media uri =
    if uri == "r:1" then redis_interface memory_server else rocksdb_storage_interface memory_db

abbrev redis_manager : StorageManager (Dict String)
redis_manager = init "r" "1" "master" "1" []

abbrev world : World (Dict String)
world = record {
  master = Master.init "master" "1";
  managers = insert "r:1" redis_manager (insert "b:1" (init "b" "1" "master" "1" []) []);
  clients = [];
}

abbrev put_in : PutRequest
put_in = record { key = "in"; value = "data" }

redis_there : lookup "r:1" world.managers ≡ some redis_manager
unfolding lookup insert
redis_there = refl

rocks-Runs : Runs "b:1" world.managers
unfolding lookup insert
rocks-Runs e = cc

redis-empty_copies_example :
    (u v : World (Dict String)) × (n : StorageManager (Dict String)) × (manager_put media "r:1" true
        put_in world
      ≡ (returns ok, u))
    × (lookup "r:1" u.managers ≡ some n)
    × (n.storage ≡ insert "in" "data" [])
    × (manager_get media "r:1" true (record { key = "in" }) u
        ≡ (returns (ok, record { value = "" }), u))
    × (manager_copy_from media "b:1" true (record { key = "in"; dst_uri = "r:1" }) u
        ≡ (returns ok, v))
    × (stored memory_contents v.managers "b:1" "in" ≡ some "")
redis-empty_copies_example =
    redis-empty_copies media memory_server "r:1" refl memory_contents "b:1" put_in world
      redis_manager (rocks-IsLawful memory_db memory_contents memory_db-IsSound).0 redis_there
      rocks-Runs
