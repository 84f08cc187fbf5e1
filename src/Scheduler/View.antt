-- ===== src/Scheduler/View.antt =====
-- ServerlessSystemView of serverless_system_view.cc. All methods but
-- GetEphemeralStorageView run under the mutex of the view.
use programmable_caching.Base.{suc, String, Option, none, some, List, [], ◌∷◌, ltb, if◌then◌else◌}
use programmable_caching.Base.Dict.{Dict, lookup, insert, get_or}
use programmable_caching.Base.Exec.{Outcome, returns, faults, undefined, assertion, and_then, at}
use programmable_caching.Base.Int.{ℤ, int_max}
use programmable_caching.Proto.Common.{StorageName, same_storage_name, storage_name_parse}
use programmable_caching.Proto.Storage.{ManagerView, ClientView, GetViewReply}
use programmable_caching.Scheduler.Common.{
  Decision, EngineState, default_engine_state, new_engine_state, available_to_schedule,
}
use programmable_caching.Scheduler.Uri.{uri_to_hostname, name_to_storage_name}

pub record SystemView : Type 0 where
  pub ephemeral : StorageName
  pub persistant : StorageName
  pub client_uri_to_engine : Dict String
  pub engine_to_state : Dict EngineState
  pub hostname_to_engine : Dict String
  pub mgr_to_keys : Dict (List String)
  pub persistant_key_to_mgr : Dict String

-- The constructor.
abbrev pub init : StorageName → StorageName → SystemView
init cached stored = record {
  ephemeral = cached;
  persistant = stored;
  client_uri_to_engine = [];
  engine_to_state = [];
  hostname_to_engine = [];
  mgr_to_keys = [];
  persistant_key_to_mgr = [];
}

-- The copy constructor, which nothing calls.
abbrev snapshot : SystemView → SystemView
snapshot view = record {
  ephemeral = view.ephemeral;
  persistant = view.persistant;
  client_uri_to_engine = view.client_uri_to_engine;
  engine_to_state = view.engine_to_state;
  hostname_to_engine = view.hostname_to_engine;
  mgr_to_keys = view.mgr_to_keys;
  persistant_key_to_mgr = view.persistant_key_to_mgr;
}

unfoldable pub add_execution_engine : SystemView → String → String → ℤ → Outcome SystemView
add_execution_engine v exec_uri client_uri maximum_tasks =
    and_then (uri_to_hostname exec_uri) λ hostname. returns (record v {
      hostname_to_engine = insert hostname exec_uri v.hostname_to_engine;
      engine_to_state = insert exec_uri (new_engine_state exec_uri maximum_tasks) v.engine_to_state;
      client_uri_to_engine = insert client_uri exec_uri v.client_uri_to_engine;
    })

unfoldable pub get_ephemeral_storage_view : SystemView → String → Outcome (List String)
get_ephemeral_storage_view v engine_name =
    and_then (at (lookup engine_name v.engine_to_state))
      λ s. at (lookup s.ephemeral_name v.mgr_to_keys)

-- StorageName_Parse, and assert(success).
abbrev pub parsed : Option StorageName → Outcome StorageName
parsed none = faults assertion
parsed (some n) = returns n

-- engine_to_state[engine_name].ephemeral_name = name, and the same for the client's name.
unfoldable pub set_ephemeral_name : String → String → Dict EngineState → Dict EngineState
set_ephemeral_name engine_name name d =
    insert engine_name
      (record (get_or engine_name default_engine_state d) { ephemeral_name = name }) d

unfoldable pub set_client_name : String → String → Dict EngineState → Dict EngineState
set_client_name engine_name name d =
    insert engine_name (record (get_or engine_name default_engine_state d) { client_name = name }) d

-- for (const auto& key : view.key()) persistant_key_to_mgr[key] = view.name()
unfoldable pub set_persistant_keys : String → List String → Dict String → Dict String
set_persistant_keys name [] d = d
set_persistant_keys name (key ∷ keys) d = set_persistant_keys name keys (insert key name d)

-- hostname_to_engine[hostname] enters the hostname where it is missing, with no engine.
unfoldable pub note_hostname : String → SystemView → SystemView
note_hostname hostname v = record v {
  hostname_to_engine =
      insert hostname (get_or hostname "" v.hostname_to_engine) v.hostname_to_engine;
}

-- One round of the first loop of ParseGetViewReply, its storage name known.
unfoldable pub enter_manager : SystemView → String → ManagerView → StorageName → SystemView
enter_manager v engine_name view s_name =
    if same_storage_name s_name v.ephemeral
    then record v {
      engine_to_state = set_ephemeral_name engine_name view.name v.engine_to_state;
      mgr_to_keys = insert view.name view.key v.mgr_to_keys;
    }
    else record v {
      persistant_key_to_mgr = set_persistant_keys view.name view.key v.persistant_key_to_mgr;
      mgr_to_keys = insert view.name view.key v.mgr_to_keys;
    }

unfoldable pub parse_manager : SystemView → ManagerView → Outcome SystemView
parse_manager v view = and_then (uri_to_hostname view.uri) λ hostname.
    and_then (name_to_storage_name view.name) λ text.
      and_then (parsed (storage_name_parse text)) λ s_name. returns (
        enter_manager (note_hostname hostname v) (get_or hostname "" v.hostname_to_engine) view
          s_name)

unfoldable pub parse_managers : SystemView → List ManagerView → Outcome SystemView
parse_managers v [] = returns v
parse_managers v (view ∷ views) = and_then (parse_manager v view) λ w. parse_managers w views

unfoldable pub parse_client : SystemView → ClientView → Outcome SystemView
parse_client v client = and_then (uri_to_hostname client.uri) λ hostname.
    returns (record (note_hostname hostname v) {
      engine_to_state =
          set_client_name (get_or hostname "" v.hostname_to_engine) client.name v.engine_to_state;
    })

unfoldable pub parse_clients : SystemView → List ClientView → Outcome SystemView
parse_clients v [] = returns v
parse_clients v (client ∷ clients) = and_then (parse_client v client) λ w. parse_clients w clients

unfoldable pub parse_get_view_reply : SystemView → GetViewReply → Outcome SystemView
parse_get_view_reply v master_view =
    and_then (parse_managers v master_view.view) λ w. parse_clients w master_view.client

-- e.running_tasks++ on engine_to_state[engine]; an int does not go past its maximum.
unfoldable pub start_task : SystemView → String → Outcome SystemView
start_task v engine =
    let e : EngineState = get_or engine default_engine_state v.engine_to_state in
    if ltb e.running_tasks int_max
    then returns (record v {
      engine_to_state =
          insert engine (record e { running_tasks = suc e.running_tasks }) v.engine_to_state;
    })
    else faults undefined

unfoldable pub tasks_scheduled : SystemView → List Decision → Outcome SystemView
tasks_scheduled v [] = returns v
tasks_scheduled v (decision ∷ rest) =
    and_then (start_task v decision.engine) λ w. tasks_scheduled w rest

unfoldable pub schedulable : Dict EngineState → List String
schedulable [] = []
schedulable ((name, state) ∷ rest) =
    let names = schedulable rest in if available_to_schedule state then name ∷ names else names

unfoldable pub get_schedulable_engines : SystemView → List String
unfolding schedulable
get_schedulable_engines v = schedulable v.engine_to_state

unfoldable pub get_engine_state : SystemView → String → Outcome EngineState
get_engine_state v engine_name = at (lookup engine_name v.engine_to_state)

unfoldable pub get_persistent_mgr_for_file : SystemView → String → Outcome String
get_persistent_mgr_for_file v file_name = at (lookup file_name v.persistant_key_to_mgr)

-- The manager of the first key; the first entry of an empty map is undefined.
abbrev pub first_mgr : Dict String → Dict String → Outcome String
first_mgr d [] = faults undefined
first_mgr d ((key, _) ∷ _) = at (lookup key d)

unfoldable pub get_persistent_mgr_for_put : SystemView → String → Outcome String
get_persistent_mgr_for_put v file_name = first_mgr v.persistant_key_to_mgr v.persistant_key_to_mgr
