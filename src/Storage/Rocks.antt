-- ===== src/Storage/Rocks.antt =====
-- rocksdb_storage_interface.cc and fake_persistant_interface.cc. The database is a parameter:
-- each of its operations tells whether its status is ok().
use programmable_caching.Base.{String, Bool, List, ◌++◌, if◌then◌else◌}
use programmable_caching.Proto.Common.{StorageName}
use programmable_caching.Proto.Storage.{StorageType}
use programmable_caching.Storage.{StorageInterface, Status, generic_error, ok}

-- What the source calls of rocksdb::DB. `db_get` is given what the output argument holds; the keys
-- are those that an iterator meets from SeekToFirst on, with its status at the end.
pub record RocksDb (D : Type 0) : Type 0 where
  pub db_get : D → String → String → Bool × String
  pub db_put : D → String → String → Bool × D
  pub db_delete : D → String → Bool × D
  pub db_keys : D → Bool × List String

abbrev to_status : Bool → Status
to_status b = if b then ok else generic_error

module _ {D : Type 0} (db : RocksDb D) where
  unfoldable pub get : D → String → String → Status × String
  get d key value = let (is_ok, read) = db.db_get d key value in (to_status is_ok, read)

  unfoldable pub put : D → String → String → Status × D
  put d key value = let (is_ok, d') = db.db_put d key value in (to_status is_ok, d')

  unfoldable pub remove : D → String → Status × D
  remove d key = let (is_ok, d') = db.db_delete d key in (to_status is_ok, d')

  unfoldable pub get_all_keys : D → List String → Status × List String
  get_all_keys d keys = let (is_ok, found) = db.db_keys d in (to_status is_ok, keys ++ found)

  -- RocksDbStorageInterface
  abbrev pub rocksdb_storage_interface : StorageInterface D
  rocksdb_storage_interface = record {
    get = get;
    put = put;
    remove = remove;
    get_all_keys = get_all_keys;
    storage_type = StorageType.managed;
    storage_name = StorageName.ephemeral;
  }

  -- FakePersistantInterface: the same methods, under another storage name.
  abbrev pub fake_persistant_interface : StorageInterface D
  fake_persistant_interface = record {
    get = get;
    put = put;
    remove = remove;
    get_all_keys = get_all_keys;
    storage_type = StorageType.managed;
    storage_name = StorageName.fake_persistant;
  }
