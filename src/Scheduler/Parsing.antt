-- ===== src/Scheduler/Parsing.antt =====
-- What ParseGetViewReply makes of a reply of the storage master.
use programmable_caching.Base.{
  String, Bool, false, not, Option, some, List, [], ◌∷◌, ◌≡◌, ◌∙◌, refl, ◌&&◌, All, if◌then◌else◌,
  arith,
}
use programmable_caching.Base.Dict.{Dict, lookup, insert, get_or, lookup-insert}
use programmable_caching.Base.Exec.{and_then-returns, Outcome, returns, faults, and_then, at}
use programmable_caching.Proto.Common.{StorageName, same_storage_name, storage_name_parse}
use programmable_caching.Proto.Storage.{ManagerView, ClientView, GetViewReply}
use programmable_caching.Master.Views.{mentions}
use programmable_caching.Scheduler.Uri.{uri_to_hostname, name_to_storage_name}
use programmable_caching.Scheduler.View.{
  SystemView, parsed, set_persistant_keys, enter_manager, parse_manager, parse_managers,
  parse_client, parse_clients, parse_get_view_reply, note_hostname, set_client_name,
  get_persistent_mgr_for_file,
}

-- The storage name in the name of a manager.
abbrev pub storage_name_of : String → Outcome StorageName
storage_name_of name = and_then (name_to_storage_name name) λ text. parsed (storage_name_parse text)

-- A view whose address has a host and whose name has a storage name.
abbrev pub IsReadable : ManagerView → Type 0
IsReadable view =
    (hostname : String) × (n : StorageName) × (uri_to_hostname view.uri ≡ returns hostname)
    × (storage_name_of view.name ≡ returns n)

abbrev pub HasHost : ClientView → Type 0
HasHost client = (hostname : String) × (uri_to_hostname client.uri ≡ returns hostname)

-- The view is one of a manager of another storage name, and lists the key.
abbrev is_other : StorageName → Outcome StorageName → Bool
is_other cached (returns n) = not (same_storage_name n cached)
is_other cached (faults f) = false

abbrev pub keeps : StorageName → ManagerView → String → Bool
keeps cached view key = is_other cached (storage_name_of view.name) && mentions view.key key

-- The last manager of the reply that keeps the key, or the one that was known.
unfoldable pub keeper : StorageName → List ManagerView → String → Option String → Option String
keeper cached [] key known = known
keeper cached (view ∷ views) key known =
    keeper cached views key (if keeps cached view key then some view.name else known)

lookup-set_persistant_keys :
    (name : String) (keys : List String) (d : Dict String) (key : String)
    → lookup key (set_persistant_keys name keys d)
      ≡ (if mentions keys key then some name else lookup key d)
unfolding set_persistant_keys mentions
lookup-set_persistant_keys name [] d key = refl
lookup-set_persistant_keys name (k ∷ keys) d key =
    ground (
      arith,
      lookup-set_persistant_keys name keys (insert k name d) key,
      lookup-insert key k name d,
    )

module _ (v : SystemView) (view : ManagerView) (hostname : String) (n : StorageName) where
  abbrev pub entered : SystemView
  entered =
      enter_manager (note_hostname hostname v) (get_or hostname "" v.hostname_to_engine) view n

  pub parse_manager-entered :
      uri_to_hostname view.uri ≡ returns hostname
      → storage_name_of view.name ≡ returns n
      → parse_manager v view ≡ returns entered
  unfolding parse_manager
  parse_manager-entered host name =
      let text = and_then-returns (name_to_storage_name view.name) _ name in
      rw (host, text.1, text.2)

  pub entered-ephemeral : entered.ephemeral ≡ v.ephemeral
  unfolding enter_manager note_hostname
  entered-ephemeral = ground arith

  entered-keeps :
      (key : String)
      → storage_name_of view.name ≡ returns n
      → lookup key entered.persistant_key_to_mgr ≡ (
          if keeps v.ephemeral view key then some view.name else lookup key v.persistant_key_to_mgr)
  unfolding enter_manager note_hostname
  entered-keeps key name =
      rw name
        (ground (arith, lookup-set_persistant_keys view.name view.key v.persistant_key_to_mgr key))

-- The outcome of a loop of the parser.
record Parsed (v w : SystemView) (views : List ManagerView) : Type 0 where
  same_ephemeral : w.ephemeral ≡ v.ephemeral
  kept :
      (key : String)
      → lookup key w.persistant_key_to_mgr
        ≡ keeper v.ephemeral views key (lookup key v.persistant_key_to_mgr)

parse_managers-Parsed :
    (v : SystemView) (views : List ManagerView)
    → All IsReadable views
    → (w : SystemView) × (parse_managers v views ≡ returns w) × Parsed v w views
unfolding parse_managers keeper
parse_managers-Parsed v [] h = (v, refl, record { same_ephemeral = refl; kept = λ key. refl })
parse_managers-Parsed v (view ∷ views) ((hostname, n, host, name), hs) =
    let (w, ran, p) = parse_managers-Parsed (entered v view hostname n) views hs in
    (
      w,
      rw (parse_manager-entered v view hostname n host name) ran,
      record {
        same_ephemeral = p.same_ephemeral ∙ entered-ephemeral v view hostname n;
        kept = λ key.
            p.kept key
            ∙ rw (entered-ephemeral v view hostname n, entered-keeps v view hostname n key name);
      },
    )

abbrev pub named : SystemView → ClientView → String → SystemView
named v client hostname = record (note_hostname hostname v) {
  engine_to_state =
      set_client_name (get_or hostname "" v.hostname_to_engine) client.name v.engine_to_state;
}

pub parse_client-named :
    (v : SystemView) (client : ClientView) (hostname : String)
    → uri_to_hostname client.uri ≡ returns hostname
    → parse_client v client ≡ returns (named v client hostname)
unfolding parse_client
parse_client-named v client hostname host = rw host

parse_clients-same :
    (v : SystemView) (clients : List ClientView)
    → All HasHost clients
    → (w : SystemView) × (parse_clients v clients ≡ returns w)
      × (w.persistant_key_to_mgr ≡ v.persistant_key_to_mgr)
unfolding parse_clients note_hostname
parse_clients-same v [] h = (v, refl, refl)
parse_clients-same v (client ∷ clients) ((hostname, host), hs) =
    let (w, ran, same) = parse_clients-same (named v client hostname) clients hs in
    (w, rw (parse_client-named v client hostname host) ran, same)

-- ParseGetViewReply of a reply in which every address has a host and every manager a name with a
-- storage name succeeds; then GetPersistentMgrForFile finds for each file the last manager of the
-- reply that is not ephemeral and lists the file, or else the manager that it found before.
pub parse_get_view_reply-keeper :
    (v : SystemView) (reply : GetViewReply)
    → All IsReadable reply.view
    → All HasHost reply.client
    → (w : SystemView) × (parse_get_view_reply v reply ≡ returns w)
      × ((key : String)
          → get_persistent_mgr_for_file w key
            ≡ at (keeper v.ephemeral reply.view key (lookup key v.persistant_key_to_mgr)))
unfolding parse_get_view_reply get_persistent_mgr_for_file
parse_get_view_reply-keeper v reply views clients =
    let (u, ran, p) = parse_managers-Parsed v reply.view views in
    let (w, ran', same) = parse_clients-same u reply.client clients in
    (w, rw ran ran', λ key. rw (same, p.kept key))
