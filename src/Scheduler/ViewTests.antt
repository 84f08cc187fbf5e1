-- ===== src/Scheduler/ViewTests.antt =====
-- The view of the system on one engine, a reply of the master, and two decisions.
use Prim.Native.Nat.{◌+◌, ◌≤◌}
use programmable_caching.Base.{true, String, some, none, [], ◌∷◌, ◌≡◌, refl, arith, All}
use programmable_caching.Base.Dict.{lookup, get_or}
use programmable_caching.Base.Text.{until_colon, after_colon}
use programmable_caching.Base.Exec.{returns, at}
use programmable_caching.Base.Int.{pos, int_max}
use programmable_caching.Proto.Common.{StorageName, storage_name_parse}
use programmable_caching.Proto.Storage.{GetViewReply}
use programmable_caching.Master.Views.{mentions}
use programmable_caching.Scheduler.Common.{
  Decision, EngineState, new_engine_state, empty_decision, available_to_schedule,
}
use programmable_caching.Scheduler.Uri.{uri_to_hostname, name_to_storage_name}
use programmable_caching.Scheduler.View.{
  SystemView, init, tasks_scheduled, parse_get_view_reply, get_persistent_mgr_for_file,
  get_engine_state,
}
use programmable_caching.Scheduler.Engines.{last_cache, last_client, parse_get_view_reply-names}
use programmable_caching.Scheduler.Counts.{running, decided_for, tasks_scheduled-running}
use programmable_caching.Scheduler.Parsing.{
  IsReadable, HasHost, keeper, parse_get_view_reply-keeper,
}

abbrev one_engine : SystemView
one_engine = record (init StorageName.ephemeral StorageName.fake_persistant) {
  hostname_to_engine = ("hostname", "hostname:1312") ∷ [];
  engine_to_state = ("hostname:1312", new_engine_state "hostname:1312" (pos 8)) ∷ [];
}

abbrev decision : Decision
decision = record empty_decision { engine = "hostname:1312" }

two_fit :
    (engine : String)
    → running one_engine engine + decided_for engine (decision ∷ decision ∷ []) ≤ int_max
unfolding decided_for lookup
two_fit engine = ground arith

tasks_scheduled-running_example :
    (w : SystemView) × (tasks_scheduled one_engine (decision ∷ decision ∷ []) ≡ returns w)
    × ((engine : String)
        → running w engine
          ≡ running one_engine engine + decided_for engine (decision ∷ decision ∷ []))
tasks_scheduled-running_example =
    tasks_scheduled-running one_engine (decision ∷ decision ∷ []) two_fit

abbrev reply : GetViewReply
reply = record {
  view =
      record { name = "managed:FAKE_PERSISTANT:abc:abc"; uri = "other:2"; key = "key" ∷ [] }
      ∷ record { name = "managed:EPHEMERAL:abc:abc"; uri = "hostname:4012"; key = "key" ∷ [] }
      ∷ [];
  client = record { name = "client:abcdef"; uri = "hostname:4021" } ∷ [];
}

reply-IsReadable : All IsReadable reply.view
unfolding uri_to_hostname name_to_storage_name until_colon after_colon storage_name_parse
reply-IsReadable = (
  ("other", StorageName.fake_persistant, refl, refl),
  (("hostname", StorageName.ephemeral, refl, refl), tt),
)

reply-HasHost : All HasHost reply.client
unfolding uri_to_hostname until_colon
reply-HasHost = (("hostname", refl), tt)

parse_get_view_reply-keeper_example :
    (w : SystemView) × (parse_get_view_reply one_engine reply ≡ returns w)
    × ((key : String)
        → get_persistent_mgr_for_file w key
          ≡ at (
              keeper StorageName.ephemeral reply.view key
                (lookup key one_engine.persistant_key_to_mgr)))
parse_get_view_reply-keeper_example =
    parse_get_view_reply-keeper one_engine reply reply-IsReadable reply-HasHost

-- The manager that is not ephemeral keeps the key.
key_kept :
    keeper StorageName.ephemeral reply.view "key" none ≡ some "managed:FAKE_PERSISTANT:abc:abc"
unfolding keeper mentions name_to_storage_name until_colon after_colon storage_name_parse
key_kept = refl

abbrev introduced_engine : EngineState
introduced_engine = new_engine_state "hostname:1312" (pos 8)

engine-known : get_engine_state one_engine "hostname:1312" ≡ returns introduced_engine
unfolding get_engine_state lookup
engine-known = refl

parse_get_view_reply-names_example :
    (w : SystemView) × (parse_get_view_reply one_engine reply ≡ returns w)
    × (get_engine_state w "hostname:1312"
        ≡ returns (record introduced_engine {
          ephemeral_name =
              last_cache StorageName.ephemeral one_engine.hostname_to_engine "hostname:1312"
                reply.view "";
          client_name = last_client one_engine.hostname_to_engine "hostname:1312" reply.client "";
        }))
parse_get_view_reply-names_example =
    parse_get_view_reply-names one_engine reply "hostname:1312" introduced_engine reply-IsReadable
      reply-HasHost engine-known

-- With these names the engine is available.
now_available :
    available_to_schedule (record introduced_engine {
      ephemeral_name =
          last_cache StorageName.ephemeral one_engine.hostname_to_engine "hostname:1312" reply.view
            "";
      client_name = last_client one_engine.hostname_to_engine "hostname:1312" reply.client "";
    })
    ≡ true
unfolding available_to_schedule last_cache last_client lookup get_or uri_to_hostname
    name_to_storage_name until_colon after_colon storage_name_parse
now_available = refl
