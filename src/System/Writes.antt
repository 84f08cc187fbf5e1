-- ===== src/System/Writes.antt =====
-- Put at a storage client whose rule for the key lists put actions.
use programmable_caching.Base.{
  String, Bool, true, false, Option, none, some, List, [], ◌∷◌, ◌≡◌, ◌&&◌, ◌||◌, ◌==◌, refl, All,
  if◌then◌else◌, arith, eq_iff,
}
use programmable_caching.Base.Dict.{Dict, lookup}
use programmable_caching.Base.Exec.{returns}
use programmable_caching.Proto.Common.{
  Action, Rule, OperationType, get_action, copy_from_action, remove_action, put_action,
  action_type_not_set,
}
use programmable_caching.Proto.Storage.{PutRequest}
use programmable_caching.Rpc.{ok}
use programmable_caching.Storage.{StorageInterface}
use programmable_caching.Storage.Laws.{IsLawful}
use programmable_caching.Manager.{StorageManager}
use programmable_caching.Master.Files.Tracks.{tracks}
use programmable_caching.Master.Changes.{last_effect, tracks-storage_change}
use programmable_caching.Master.Service as Master
use programmable_caching.Client.RuleDb.{get_matching_rule, has_matching_rule-get_matching_rule}
use programmable_caching.Client.Service as Client
use programmable_caching.Client.Service.{StorageClient, put_case, put_round, put_rounds}
use programmable_caching.System.{World, manager_transport, master_transport, client_put}
use programmable_caching.System.Stores.{
  stored, Runs, put_at, manager_put-put_at, Runs-put_at, stored-put_at,
}

-- Some put action of the list goes to the manager at the address, or of the name.
unfoldable pub targets : List Action → String → Bool
targets [] uri = false
targets (put_action a ∷ rest) uri = a.mgr.uri == uri || targets rest uri
targets (_ ∷ rest) uri = targets rest uri

unfoldable pub names : List Action → String → Bool
names [] name = false
names (put_action a ∷ rest) name = a.mgr.name == name || names rest name
names (_ ∷ rest) name = names rest name

module _ {D : Type 0} (media : String → StorageInterface D) where
  -- A put action of the key, at a manager that runs.
  abbrev pub IsServed : Dict (StorageManager D) → String → Action → Type 0
  IsServed managers key (put_action a) = (a.key ≡ key) × Runs a.mgr.uri managers
  IsServed managers key _ = ⊥

  module _ (peer : String) (c : StorageClient) (request : PutRequest) where
    -- The managers after the actions.
    unfoldable pub write_all : List Action → Dict (StorageManager D) → Dict (StorageManager D)
    write_all [] managers = managers
    write_all (put_action a ∷ rest) managers =
        write_all rest (put_at media a.mgr.uri request managers)
    write_all (_ ∷ rest) managers = write_all rest managers

    pub IsServed-put_at :
        (uri : String) (managers : Dict (StorageManager D)) (actions : List Action)
        → All (IsServed managers request.key) actions
        → All (IsServed (put_at media uri request managers) request.key) actions
    IsServed-put_at uri managers [] h = tt
    IsServed-put_at uri managers (put_action a ∷ rest) h = (
      (h.0.0, Runs-put_at media uri a.mgr.uri request managers h.0.1),
      IsServed-put_at uri managers rest h.1,
    )
    IsServed-put_at uri managers (_ ∷ rest) h = absurd h.0

    pub put_round-served :
        (a : Action) (w : World D)
        → IsServed w.managers request.key a
        → put_round (manager_transport media) (master_transport media peer) c request a w
          ≡ (returns (a ∷ []), record w { managers = write_all (a ∷ []) w.managers })
    unfolding put_round put_case Client.execute_put_action write_all Master.storage_change
    put_round-served (put_action a) w h = rw (
      (eq_iff a.key request.key).1 h.0,
      put_case,
      manager_put-put_at media a.mgr.uri true request w h.1,
    )
    put_round-served (get_action a) w h = absurd h
    put_round-served (copy_from_action a) w h = absurd h
    put_round-served (remove_action a) w h = absurd h
    put_round-served action_type_not_set w h = absurd h

    put_rounds-served :
        (actions : List Action) (w : World D)
        → All (IsServed w.managers request.key) actions
        → put_rounds (manager_transport media) (master_transport media peer) c request actions w
          ≡ (returns actions, record w { managers = write_all actions w.managers })
    unfolding put_rounds write_all
    put_rounds-served [] w h = refl
    put_rounds-served (put_action a ∷ rest) w h = rw (
      put_round-served (put_action a) w h.0,
      put_rounds-served rest (record w { managers = put_at media a.mgr.uri request w.managers })
          (IsServed-put_at a.mgr.uri w.managers rest h.1),
    )
    put_rounds-served (_ ∷ rest) w h = absurd h.0

    last_effect-served :
        (managers : Dict (StorageManager D)) (actions : List Action) (m k : String)
        → All (IsServed managers request.key) actions
        → last_effect actions m k
          ≡ (if request.key == k && names actions m then some true else none)
    unfolding last_effect names
    last_effect-served managers [] m k h = ground arith
    last_effect-served managers (put_action a ∷ rest) m k h = ground (
      arith,
      h.0.0,
      eq_iff a.key k,
      eq_iff request.key k,
      last_effect-served managers rest m k h.1,
    )
    last_effect-served managers (_ ∷ rest) m k h = absurd h.0

    -- What the master records after the report.
    pub tracks-served :
        (managers : Dict (StorageManager D)) (actions : List Action) (master : Master.StorageMaster)
        (m k : String)
        → All (IsServed managers request.key) actions
        → tracks (Master.storage_change (record { storage_change = actions }) master).file_view m k
          ≡ ((request.key == k && names actions m) || tracks master.file_view m k)
    tracks-served managers actions master m k h = ground (
      arith,
      tracks-storage_change (record { storage_change = actions }) master m k,
      last_effect-served managers actions m k h,
    )

    module _ (contents : D → String → Option String)
        (lawful : (uri : String) → IsLawful (media uri) contents) where
      pub stored-write_all :
          (actions : List Action) (managers : Dict (StorageManager D)) (j k : String)
          → All (IsServed managers request.key) actions
          → stored contents (write_all actions managers) j k ≡ (
              if request.key == k && targets actions j
              then some request.value
              else stored contents managers j k)
      unfolding write_all targets
      stored-write_all [] managers j k h = ground arith
      stored-write_all (put_action a ∷ rest) managers j k h = ground (
        arith,
        stored-write_all rest (put_at media a.mgr.uri request managers) j k
            (IsServed-put_at a.mgr.uri managers rest h.1),
        stored-put_at media contents lawful a.mgr.uri request managers j k h.0.1,
      )
      stored-write_all (_ ∷ rest) managers j k h = absurd h.0

  -- A Put that runs to its end: the managers written, and the actions reported.
  pub client_put-runs :
      (uri : String) (wait : Bool) (request : PutRequest) (w : World D) (c : StorageClient)
      (r : Rule)
      → lookup uri w.clients ≡ some c
      → get_matching_rule c.rule_db request.key OperationType.put ≡ returns r
      → All (IsServed w.managers request.key) r.action
      → client_put media uri wait request w ≡ (
        returns ok,
        record w {
          managers = write_all uri c request r.action w.managers;
          master = Master.storage_change (record { storage_change = r.action }) w.master;
        },
      )
  unfolding client_put Client.put
  client_put-runs uri wait request w c r e f h = rw (
    e,
    client_put,
    has_matching_rule-get_matching_rule c.rule_db request.key OperationType.put r f,
    f,
    put_rounds-served uri c request r.action w h,
  )

  module _ (contents : D → String → Option String)
      (lawful : (uri : String) → IsLawful (media uri) contents) where
    -- Put at a client that runs, with a rule for the key of put actions of the key at managers that
    -- run: it answers OK; every manager that the rule names by its address stores the value, and no
    -- other value changes; the master records the key at every manager that the rule names, and
    -- no other record changes.
    pub client_put-writes :
        (uri : String) (wait : Bool) (request : PutRequest) (w : World D) (c : StorageClient)
        (r : Rule)
        → lookup uri w.clients ≡ some c
        → get_matching_rule c.rule_db request.key OperationType.put ≡ returns r
        → All (IsServed w.managers request.key) r.action
        → (v : World D) × (client_put media uri wait request w ≡ (returns ok, v))
          × ((j k : String)
              → stored contents v.managers j k ≡ (
                  if request.key == k && targets r.action j
                  then some request.value
                  else stored contents w.managers j k))
          × ((m k : String)
              → tracks v.master.file_view m k
                ≡ ((request.key == k && names r.action m) || tracks w.master.file_view m k))
    client_put-writes uri wait request w c r e f h = (
      record w {
        managers = write_all uri c request r.action w.managers;
        master = Master.storage_change (record { storage_change = r.action }) w.master;
      },
      client_put-runs uri wait request w c r e f h,
      λ j k. stored-write_all uri c request contents lawful r.action w.managers j k h,
      λ m k. tracks-served uri c request w.managers r.action w.master m k h,
    )
