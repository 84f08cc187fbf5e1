-- ===== src/Storage/Redis.antt =====
-- redis_storage_interface.cc. A command is sent to the server, and its reply freed unread but for
-- KEYS. The server is a parameter.
use programmable_caching.Base.{String, List, ◌++◌}
use programmable_caching.Proto.Common.{StorageName}
use programmable_caching.Proto.Storage.{StorageType}
use programmable_caching.Storage.{StorageInterface, Status, ok}

-- redisCommand: the server after SET and DEL, and the elements of the
-- reply to KEYS.
pub record RedisServer (D : Type 0) : Type 0 where
  pub command_set : D → String → String → D
  pub command_del : D → String → D
  pub command_keys : D → List String

module _ {D : Type 0} (server : RedisServer D) where
  -- The reply is not copied to the output argument.
  unfoldable pub get : D → String → String → Status × String
  get d key value = (ok, value)

  unfoldable pub put : D → String → String → Status × D
  put d key value = (ok, server.command_set d key value)

  unfoldable pub remove : D → String → Status × D
  remove d key = (ok, server.command_del d key)

  unfoldable pub get_all_keys : D → List String → Status × List String
  get_all_keys d keys = (ok, keys ++ server.command_keys d)

  -- RedisInterface
  abbrev pub redis_interface : StorageInterface D
  redis_interface = record {
    get = get;
    put = put;
    remove = remove;
    get_all_keys = get_all_keys;
    storage_type = StorageType.managed;
    storage_name = StorageName.ephemeral;
  }
