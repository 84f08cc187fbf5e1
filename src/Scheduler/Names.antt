-- ===== src/Scheduler/Names.antt =====
-- What the scheduler reads from the names and addresses that the storage master gives.
use programmable_caching.Base.{String, ◌≡◌, refl}
use programmable_caching.Base.Text.{
  ◌⧺◌, IsPlain, until_colon, until_colon-colon_join, after_colon-colon_join,
}
use programmable_caching.Base.Exec.{returns, and_then}
use programmable_caching.Proto.Common.{
  declared, storage_name_name, storage_name_parse, storage_name_name-IsPlain,
  storage_name_parse-storage_name_name,
}
use programmable_caching.Proto.Storage.{StorageManagerIntroduce, storage_manager}
use programmable_caching.Master.Naming.{generate_name, manager_name_parts, manager_tail}
use programmable_caching.Scheduler.Uri.{uri_to_hostname, name_to_storage_name}
use programmable_caching.Scheduler.View.{parsed}

-- The host of an address that a server with a plain hostname listens on.
pub uri_to_hostname-host_port :
    (hostname port : String)
    → IsPlain hostname
    → uri_to_hostname (hostname ⧺ ":" ⧺ port) ≡ returns hostname
unfolding uri_to_hostname
uri_to_hostname-host_port hostname port plain = rw (until_colon-colon_join hostname port plain)

name_to_storage_name-generate_name :
    (i : StorageManagerIntroduce)
    → name_to_storage_name (generate_name (storage_manager i))
      ≡ returns (storage_name_name i.storage_name)
unfolding name_to_storage_name until_colon
name_to_storage_name-generate_name i = rw (
  manager_name_parts i,
  after_colon-colon_join "manager" (manager_tail i) refl,
  until_colon-colon_join (storage_name_name i.storage_name) _
      (storage_name_name-IsPlain i.storage_name),
)

-- The storage name that ParseGetViewReply takes from the name of a manager, by name_to_storage_name,
-- StorageName_Parse and the assertion, is the one with which the manager introduced itself, if the
-- enumeration declares it; otherwise the assertion fails.
pub parsed-generate_name :
    (i : StorageManagerIntroduce)
    → and_then
        (name_to_storage_name (generate_name (storage_manager i)))
        (λ text. parsed (storage_name_parse text))
      ≡ parsed (declared i.storage_name)
parsed-generate_name i =
    rw (name_to_storage_name-generate_name i, storage_name_parse-storage_name_name i.storage_name)
