-- ===== src/Storage/Opening.antt =====
-- The constructors and destructors of rocksdb_storage_interface.cc and fake_persistant_interface.cc.
-- RocksDB is a parameter. The field db_ is an Option: none is a pointer that was never set.
use programmable_caching.Base.{String, Bool, true, Option, none, some}
use programmable_caching.Base.Exec.{Exec, returns, faults, undefined}

-- rocksdb::DB::Open with the option create_if_missing, which sets the pointer where its status is
-- ok(), and the destructor of rocksdb::DB.
pub record Disk (S D : Type 0) : Type 0 where
  pub db_open : Bool → String → S → Option D × S
  pub db_close : D → S → S

module _ {S D : Type 0} (disk : Disk S D) where
  -- A database that does not open is logged only.
  unfoldable pub open_rocksdb : String → Exec S (Option D)
  open_rocksdb db_path s = let (db_, t) = disk.db_open true db_path s in (returns db_, t)

  unfoldable pub close_rocksdb : Option D → Exec S (Unit {0})
  close_rocksdb none s = (faults undefined, s)
  close_rocksdb (some db_) s = (returns tt, disk.db_close db_ s)

  -- FakePersistantInterface does the same.
  unfoldable pub open_fake_persistant : String → Exec S (Option D)
  open_fake_persistant db_path s = let (db_, t) = disk.db_open true db_path s in (returns db_, t)

  unfoldable pub close_fake_persistant : Option D → Exec S (Unit {0})
  close_fake_persistant none s = (faults undefined, s)
  close_fake_persistant (some db_) s = (returns tt, disk.db_close db_ s)
