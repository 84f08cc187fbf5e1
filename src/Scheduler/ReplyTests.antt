-- ===== src/Scheduler/ReplyTests.antt =====
-- The scheduler reads the reply of a master to which one manager introduced itself.
use programmable_caching.Base.{String, [], ◌∷◌, ◌≡◌, refl}
use programmable_caching.Base.Dict.{lookup}
use programmable_caching.Base.Exec.{returns, at}
use programmable_caching.Proto.Common.{StorageName}
use programmable_caching.Proto.Storage.{
  IntroduceRequest, StorageType, GetViewReply, storage_manager,
}
use programmable_caching.Master.Service.{StorageMaster, introduce, get_view}
use programmable_caching.Master.Service as Master
use programmable_caching.Scheduler.View.{
  SystemView, parse_get_view_reply, get_persistent_mgr_for_file,
}
use programmable_caching.Scheduler.View as View
use programmable_caching.Scheduler.Parsing.{keeper}
use programmable_caching.Scheduler.Replies.{Step, Reach, parse-get_view}

abbrev disk_request : IntroduceRequest
disk_request = storage_manager (record {
  storage_type = StorageType.managed;
  storage_name = StorageName.fake_persistant;
  rpc_hostname = "b";
  rpc_port = "1";
  file = record { key = "in" } ∷ [];
})

abbrev made : StorageMaster
made = Master.init "master" "1"

abbrev with_disk : StorageMaster
with_disk = (introduce "ipv4:1" disk_request made).1

with_disk-Reach : Reach made with_disk
with_disk-Reach = Reach.next Reach.here (Step.introduces "ipv4:1" disk_request refl refl)

abbrev view : SystemView
view = View.init StorageName.ephemeral StorageName.fake_persistant

parse-get_view_example :
    (reply : GetViewReply) × (w : SystemView) × (get_view with_disk ≡ returns reply)
    × (parse_get_view_reply view reply ≡ returns w)
    × ((key : String)
        → get_persistent_mgr_for_file w key
          ≡ at
              (keeper StorageName.ephemeral reply.view key (lookup key view.persistant_key_to_mgr)))
parse-get_view_example = parse-get_view "master" "1" with_disk view with_disk-Reach
