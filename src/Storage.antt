-- ===== src/Storage.antt =====
-- storage_service/storage_interfaces: the interface to a storage medium, and its implementations
-- over RocksDB and Redis. The two libraries are parameters.
pub mod Rocks
pub mod Redis
pub mod Laws
pub mod Opening
use programmable_caching.Base.{String, List}
use programmable_caching.Proto.Common.{StorageName}
use programmable_caching.Proto.Storage.{StorageType}

-- StorageInterface::Status
pub data Status : Type 0 where
  generic_error ok : Status

-- The virtual methods of StorageInterface, over a medium of type `D`. Get is given what its
-- output argument holds, and gives what it holds afterwards; GetAllKeys appends to its argument.
pub record StorageInterface (D : Type 0) : Type 0 where
  pub get : D → String → String → Status × String
  pub put : D → String → String → Status × D
  pub remove : D → String → Status × D
  pub get_all_keys : D → List String → Status × List String
  pub storage_type : StorageType
  pub storage_name : StorageName
