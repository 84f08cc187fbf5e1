-- ===== src/Storage/Laws.antt =====
-- What a storage medium promises, for the two RocksDB interfaces.
use programmable_caching.Base.{
  String, Bool, true, false, Option, none, some, [], ◌≡◌, ◌≢◌, ◌↔◌, ◌==◌, Has, if◌then◌else◌,
}
use programmable_caching.Base.Dict.{
  Dict, lookup, insert, erase, keys, lookup-insert, lookup-erase, Has-keys,
}
use programmable_caching.Storage.{StorageInterface, generic_error, ok}
use programmable_caching.Storage.Rocks.{
  RocksDb, rocksdb_storage_interface, fake_persistant_interface, get, put, remove, get_all_keys,
}

-- The interface stores what `contents` tells of the medium.
pub record IsLawful {D : Type 0} (I : StorageInterface D) (contents : D → String → Option String)
    : Type 0 where
  pub get-some : (d : D) (k old v : String) → contents d k ≡ some v → I.get d k old ≡ (ok, v)
  pub get-none :
      (d : D) (k old : String) → contents d k ≡ none → I.get d k old ≡ (generic_error, old)
  pub contents-put :
      (d : D) (k v j : String)
      → contents (I.put d k v).1 j ≡ (if k == j then some v else contents d j)
  pub contents-remove :
      (d : D) (k j : String) → contents (I.remove d k).1 j ≡ (if k == j then none else contents d j)
  pub has-keys : (d : D) (k : String) → Has k (I.get_all_keys d []).1 ↔ (contents d k ≢ none)

-- What RocksDB documents of a database that meets no error: a read gives the value written last,
-- or leaves its argument alone and reports NotFound; an iterator meets the keys in the database.
pub record IsSound {D : Type 0} (db : RocksDb D) (contents : D → String → Option String)
    : Type 0 where
  pub db_get-some :
      (d : D) (k old v : String) → contents d k ≡ some v → db.db_get d k old ≡ (true, v)
  pub db_get-none :
      (d : D) (k old : String) → contents d k ≡ none → db.db_get d k old ≡ (false, old)
  pub contents-db_put :
      (d : D) (k v j : String)
      → contents (db.db_put d k v).1 j ≡ (if k == j then some v else contents d j)
  pub contents-db_delete :
      (d : D) (k j : String)
      → contents (db.db_delete d k).1 j ≡ (if k == j then none else contents d j)
  pub has-db_keys : (d : D) (k : String) → Has k (db.db_keys d).1 ↔ (contents d k ≢ none)

module _ {D : Type 0} (db : RocksDb D) (contents : D → String → Option String) where
  -- Over a sound database both RocksDB interfaces are lawful storage media.
  pub rocks-IsLawful :
      IsSound db contents
      → IsLawful (rocksdb_storage_interface db) contents
        × IsLawful (fake_persistant_interface db) contents
  unfolding get put remove get_all_keys
  rocks-IsLawful h = (
    record {
      get-some = λ d k old v e. rw (h.db_get-some d k old v e);
      get-none = λ d k old e. rw (h.db_get-none d k old e);
      contents-put = h.contents-db_put;
      contents-remove = h.contents-db_delete;
      has-keys = h.has-db_keys;
    },
    record {
      get-some = λ d k old v e. rw (h.db_get-some d k old v e);
      get-none = λ d k old e. rw (h.db_get-none d k old e);
      contents-put = h.contents-db_put;
      contents-remove = h.contents-db_delete;
      has-keys = h.has-db_keys;
    },
  )

-- A database in memory, for the examples.
abbrev read_or : Option String → String → Bool × String
read_or none old = (false, old)
read_or (some v) old = (true, v)

abbrev pub memory_db : RocksDb (Dict String)
memory_db = record {
  db_get = λ d k old. read_or (lookup k d) old;
  db_put = λ d k v. (true, insert k v d);
  db_delete = λ d k. (true, erase k d);
  db_keys = λ d. (true, keys d);
}

abbrev pub memory_contents : Dict String → String → Option String
memory_contents d k = lookup k d

pub memory_db-IsSound : IsSound memory_db memory_contents
memory_db-IsSound = record {
  db_get-some = λ d k old v e. rw e;
  db_get-none = λ d k old e. rw e;
  contents-db_put = λ d k v j. lookup-insert j k v d;
  contents-db_delete = λ d k j. lookup-erase j k d;
  has-db_keys = λ d k. Has-keys k d;
}
