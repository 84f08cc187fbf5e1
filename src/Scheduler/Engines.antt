-- ===== src/Scheduler/Engines.antt =====
-- The names that ParseGetViewReply gives the execution engines that are known.
use programmable_caching.Base.{
  String, Bool, false, some, List, [], ◌∷◌, ◌≡◌, ◌∙◌, refl, sym, Bool-cases, inl, inr, ◌==◌, ◌&&◌,
  All, if◌then◌else◌, arith, eq_iff,
}
use programmable_caching.Base.Dict.{Dict, lookup, get_or, lookup-insert, get_or-insert}
use programmable_caching.Base.Exec.{Outcome, returns, faults}
use programmable_caching.Proto.Common.{StorageName, same_storage_name}
use programmable_caching.Proto.Storage.{ManagerView, ClientView, GetViewReply}
use programmable_caching.Scheduler.Common.{EngineState, default_engine_state}
use programmable_caching.Scheduler.Uri.{uri_to_hostname}
use programmable_caching.Scheduler.View.{
  SystemView, enter_manager, parse_managers, parse_clients, parse_get_view_reply, get_engine_state,
  note_hostname, set_client_name, set_ephemeral_name,
}
use programmable_caching.Scheduler.Parsing.{
  IsReadable, HasHost, storage_name_of, entered, entered-ephemeral, parse_manager-entered, named,
  parse_client-named,
}

-- The engine on the host of an address, by the hosts of the engines.
abbrev engine_on : Dict String → Outcome String → String
engine_on hosts (returns hostname) = get_or hostname "" hosts
engine_on hosts (faults f) = ""

abbrev is_cached : StorageName → Outcome StorageName → Bool
is_cached cached (returns n) = same_storage_name n cached
is_cached cached (faults f) = false

-- The last ephemeral manager of the reply on the host of the engine, or the name that it had.
unfoldable pub last_cache : StorageName → Dict String → String → List ManagerView → String → String
last_cache cached hosts engine [] known = known
last_cache cached hosts engine (view ∷ views) known = last_cache cached hosts engine views (
    if is_cached cached (storage_name_of view.name)
      && engine_on hosts (uri_to_hostname view.uri) == engine
    then view.name
    else known)

-- The last client of the reply on the host of the engine, or the name that it had.
unfoldable pub last_client : Dict String → String → List ClientView → String → String
last_client hosts engine [] known = known
last_client hosts engine (client ∷ clients) known =
    last_client hosts engine clients
      (if engine_on hosts (uri_to_hostname client.uri) == engine then client.name else known)

-- The engine is known, with this state, beside these hosts.
record Knows (v : SystemView) (hosts : Dict String) (engine : String) (s : EngineState)
    : Type 0 where
  state : lookup engine v.engine_to_state ≡ some s
  same_hosts :
      (hostname : String) → get_or hostname "" v.hostname_to_engine ≡ get_or hostname "" hosts

get_or-note_hostname :
    (hostname j : String) (v : SystemView)
    → get_or j "" (note_hostname hostname v).hostname_to_engine ≡ get_or j "" v.hostname_to_engine
unfolding note_hostname
get_or-note_hostname hostname j v = ground (
  arith,
  get_or-insert j hostname "" (get_or hostname "" v.hostname_to_engine) v.hostname_to_engine,
  eq_iff hostname j,
)

get_or-lookup :
    (engine : String) (d : Dict EngineState) (s : EngineState)
    → lookup engine d ≡ some s
    → get_or engine default_engine_state d ≡ s
unfolding get_or
get_or-lookup engine d s e = ground (arith, e)

module _ (target engine name : String) (d : Dict EngineState) (s : EngineState) where
  lookup-set_ephemeral_name :
      lookup engine d ≡ some s
      → lookup engine (set_ephemeral_name target name d)
        ≡ some (record s { ephemeral_name = if target == engine then name else s.ephemeral_name })
  unfolding set_ephemeral_name
  lookup-set_ephemeral_name e = elim (Bool-cases (target == engine)) [
    | inl t ↦ rw (
      (eq_iff target engine).0 t,
      lookup-insert engine engine
          (record (get_or engine default_engine_state d) { ephemeral_name = name }) d,
      get_or-lookup engine d s e,
      (eq_iff engine engine).1 refl,
    )
    | inr f ↦ rw (
      lookup-insert engine target
          (record (get_or target default_engine_state d) { ephemeral_name = name }) d,
      f,
      e,
    )
  ]

  lookup-set_client_name :
      lookup engine d ≡ some s
      → lookup engine (set_client_name target name d)
        ≡ some (record s { client_name = if target == engine then name else s.client_name })
  unfolding set_client_name
  lookup-set_client_name e = elim (Bool-cases (target == engine)) [
    | inl t ↦ rw (
      (eq_iff target engine).0 t,
      lookup-insert engine engine
          (record (get_or engine default_engine_state d) { client_name = name }) d,
      get_or-lookup engine d s e,
      (eq_iff engine engine).1 refl,
    )
    | inr f ↦ rw (
      lookup-insert engine target
          (record (get_or target default_engine_state d) { client_name = name }) d,
      f,
      e,
    )
  ]

module _ (v : SystemView) (hosts : Dict String) (engine : String) (s : EngineState) where
  Knows-entered :
      (view : ManagerView) (hostname : String) (n : StorageName)
      → Knows v hosts engine s
      → Knows (entered v view hostname n) hosts engine (record s {
        ephemeral_name =
            if same_storage_name n v.ephemeral && get_or hostname "" hosts == engine
            then view.name
            else s.ephemeral_name;
      })
  unfolding enter_manager note_hostname
  Knows-entered view hostname n k = elim (Bool-cases (same_storage_name n v.ephemeral)) [
    | inl t ↦ record {
      state =
          rw (t, sym (k.same_hosts hostname))
            (lookup-set_ephemeral_name (get_or hostname "" v.hostname_to_engine) engine view.name
              v.engine_to_state s k.state);
      same_hosts = λ j. rw t (get_or-note_hostname hostname j v ∙ k.same_hosts j);
    }
    | inr f ↦ record {
      state = rw f k.state;
      same_hosts = λ j. rw f (get_or-note_hostname hostname j v ∙ k.same_hosts j);
    }
  ]

  Knows-named :
      (client : ClientView) (hostname : String)
      → Knows v hosts engine s
      → Knows (named v client hostname) hosts engine (record s {
        client_name = if get_or hostname "" hosts == engine then client.name else s.client_name;
      })
  unfolding set_client_name
  Knows-named client hostname k = record {
    state = rw (sym (k.same_hosts hostname)) (
        lookup-set_client_name (get_or hostname "" v.hostname_to_engine) engine client.name
          v.engine_to_state s k.state);
    same_hosts = λ j. get_or-note_hostname hostname j v ∙ k.same_hosts j;
  }

parse_managers-Knows :
    (v : SystemView) (hosts : Dict String) (engine : String) (s : EngineState)
    (views : List ManagerView)
    → All IsReadable views
    → Knows v hosts engine s
    → (w : SystemView) × (parse_managers v views ≡ returns w)
      × Knows w hosts engine
          (record s { ephemeral_name = last_cache v.ephemeral hosts engine views s.ephemeral_name })
unfolding parse_managers last_cache
parse_managers-Knows v hosts engine s [] h k = (v, refl, k)
parse_managers-Knows v hosts engine s (view ∷ views) ((hostname, n, host, name), hs) k =
    let (w, ran, known) =
      parse_managers-Knows (entered v view hostname n) hosts engine _ views hs
        (Knows-entered v hosts engine s view hostname n k) in
    (
      w,
      rw (parse_manager-entered v view hostname n host name) ran,
      rw (host, name) (rw (entered-ephemeral v view hostname n) at known),
    )

parse_clients-Knows :
    (v : SystemView) (hosts : Dict String) (engine : String) (s : EngineState)
    (clients : List ClientView)
    → All HasHost clients
    → Knows v hosts engine s
    → (w : SystemView) × (parse_clients v clients ≡ returns w)
      × Knows w hosts engine
          (record s { client_name = last_client hosts engine clients s.client_name })
unfolding parse_clients last_client
parse_clients-Knows v hosts engine s [] h k = (v, refl, k)
parse_clients-Knows v hosts engine s (client ∷ clients) ((hostname, host), hs) k =
    let (w, ran, known) =
      parse_clients-Knows (named v client hostname) hosts engine _ clients hs
        (Knows-named v hosts engine s client hostname k) in
    (w, rw (parse_client-named v client hostname host) ran, rw host known)

-- ParseGetViewReply of a reply in which every address has a host and every manager a name with a
-- storage name succeeds; an engine that was known keeps its state, but for its ephemeral name,
-- which is then that of the last ephemeral manager of the reply on the host of the engine, and its
-- client name, that of the last client on that host; where there is none the name stays.
pub parse_get_view_reply-names :
    (v : SystemView) (reply : GetViewReply) (engine : String) (s : EngineState)
    → All IsReadable reply.view
    → All HasHost reply.client
    → get_engine_state v engine ≡ returns s
    → (w : SystemView) × (parse_get_view_reply v reply ≡ returns w)
      × (get_engine_state w engine
          ≡ returns (record s {
            ephemeral_name =
                last_cache v.ephemeral v.hostname_to_engine engine reply.view s.ephemeral_name;
            client_name = last_client v.hostname_to_engine engine reply.client s.client_name;
          }))
unfolding parse_get_view_reply get_engine_state
parse_get_view_reply-names v reply engine s views clients known =
    let (u, ran, k) =
      parse_managers-Knows v v.hostname_to_engine engine s reply.view views
        (record { state = ground (arith, known); same_hosts = λ hostname. refl }) in
    let (w, ran', k') =
      parse_clients-Knows u v.hostname_to_engine engine _ reply.client clients k in
    (w, rw ran ran', rw k'.state)
