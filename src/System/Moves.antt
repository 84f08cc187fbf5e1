-- ===== src/System/Moves.antt =====
-- Get at a storage client, by a rule of preparations with a get action behind them.
use programmable_caching.Base.{
  String, Bool, true, Option, none, some, List, [], ◌∷◌, ◌++◌, ◌≡◌, refl, All, eq_iff,
}
use programmable_caching.Base.Dict.{Dict, lookup}
use programmable_caching.Base.Exec.{returns}
use programmable_caching.Proto.Common.{
  Action, Rule, OperationType, GetAction, get_action, copy_from_action, remove_action, put_action,
  action_type_not_set,
}
use programmable_caching.Proto.Storage.{GetRequest}
use programmable_caching.Rpc.{ok}
use programmable_caching.Storage.{StorageInterface}
use programmable_caching.Storage.Laws.{IsLawful}
use programmable_caching.Manager.{StorageManager}
use programmable_caching.Master.Service as Master
use programmable_caching.Client.RuleDb.{get_matching_rule, has_matching_rule-get_matching_rule}
use programmable_caching.Client.Faults.{split_last-append_one}
use programmable_caching.Client.Service as Client
use programmable_caching.Client.Service.{StorageClient, split_last, get_round, get_rounds}
use programmable_caching.System.{World, manager_transport, master_transport, client_get}
use programmable_caching.System.Stores.{
  stored, read_value, Runs, put_at, remove_at, manager_remove-remove_at, manager_get-stored,
  Runs-put_at, Runs-remove_at,
}
use programmable_caching.System.Stores.Absence.{put_at-absent, remove_at-absent}
use programmable_caching.System.Copies.{manager_copy_from-put_at}

-- The actions that are reported to the master.
unfoldable pub reports : List Action → List Action
reports [] = []
reports (copy_from_action a ∷ rest) = copy_from_action a ∷ reports rest
reports (remove_action a ∷ rest) = remove_action a ∷ reports rest
reports (_ ∷ rest) = reports rest

module _ {D : Type 0} where
  -- A copy to a manager that runs, a removal at one, or an action that is not set.
  abbrev pub IsRunnable : Dict (StorageManager D) → Action → Type 0
  IsRunnable managers (copy_from_action a) = Runs a.src_mgr.uri managers
  IsRunnable managers (remove_action a) = Runs a.mgr.uri managers
  IsRunnable managers action_type_not_set = Unit
  IsRunnable managers _ = ⊥

  -- A step that keeps the managers running keeps actions runnable.
  pub IsRunnable-mono :
      (before after : Dict (StorageManager D)) (actions : List Action)
      → ((j : String) → Runs j before → Runs j after)
      → All (IsRunnable before) actions
      → All (IsRunnable after) actions
  IsRunnable-mono before after [] keep h = tt
  IsRunnable-mono before after (copy_from_action a ∷ rest) keep h =
      (keep a.src_mgr.uri h.0, IsRunnable-mono before after rest keep h.1)
  IsRunnable-mono before after (remove_action a ∷ rest) keep h =
      (keep a.mgr.uri h.0, IsRunnable-mono before after rest keep h.1)
  IsRunnable-mono before after (action_type_not_set ∷ rest) keep h =
      (tt, IsRunnable-mono before after rest keep h.1)
  IsRunnable-mono before after (_ ∷ rest) keep h = absurd h.0

module _ {D : Type 0} (media : String → StorageInterface D) (contents : D → String → Option String)
    (lawful : (uri : String) → IsLawful (media uri) contents) where
  -- What one preparation does to the managers.
  unfoldable pub prepare : Action → Dict (StorageManager D) → Dict (StorageManager D)
  prepare (copy_from_action a) managers =
      put_at media a.src_mgr.uri
        (record { key = a.key; value = read_value (stored contents managers a.dst_mgr.uri a.key) })
        managers
  prepare (remove_action a) managers = remove_at media a.mgr.uri (record { key = a.key }) managers
  prepare _ managers = managers

  unfoldable pub prepare_all : List Action → Dict (StorageManager D) → Dict (StorageManager D)
  unfolding prepare
  prepare_all [] managers = managers
  prepare_all (a ∷ rest) managers = prepare_all rest (prepare a managers)

  pub Runs-prepare :
      (a : Action) (managers : Dict (StorageManager D)) (j : String)
      → Runs j managers
      → Runs j (prepare a managers)
  unfolding prepare
  Runs-prepare (copy_from_action a) managers j h = Runs-put_at media a.src_mgr.uri j _ managers h
  Runs-prepare (remove_action a) managers j h = Runs-remove_at media a.mgr.uri j _ managers h
  Runs-prepare _ managers j h = h

  pub Runs-prepare_all :
      (actions : List Action) (managers : Dict (StorageManager D)) (j : String)
      → Runs j managers
      → Runs j (prepare_all actions managers)
  unfolding prepare_all
  Runs-prepare_all [] managers j h = h
  Runs-prepare_all (a ∷ rest) managers j h =
      Runs-prepare_all rest (prepare a managers) j (Runs-prepare a managers j h)

  -- No manager comes to an address by the preparations.
  prepare-absent :
      (a : Action) (managers : Dict (StorageManager D)) (j : String)
      → IsRunnable managers a
      → lookup j managers ≡ none
      → lookup j (prepare a managers) ≡ none
  unfolding prepare
  prepare-absent (copy_from_action a) managers j h absent =
      put_at-absent media a.src_mgr.uri j _ managers h absent
  prepare-absent (remove_action a) managers j h absent =
      remove_at-absent media a.mgr.uri j _ managers h absent
  prepare-absent _ managers j h absent = absent

  pub prepare_all-absent :
      (actions : List Action) (managers : Dict (StorageManager D)) (j : String)
      → All (IsRunnable managers) actions
      → lookup j managers ≡ none
      → lookup j (prepare_all actions managers) ≡ none
  unfolding prepare_all
  prepare_all-absent [] managers j h absent = absent
  prepare_all-absent (a ∷ rest) managers j h absent =
      prepare_all-absent rest (prepare a managers) j
        (IsRunnable-mono managers (prepare a managers) rest (Runs-prepare a managers) h.1)
        (prepare-absent a managers j h.0 absent)

  module _ (peer : String) where
    get_round-runs :
        (a : Action) (w : World D)
        → IsRunnable w.managers a
        → get_round (manager_transport media) (master_transport media peer) a w
          ≡ (returns (reports (a ∷ [])), record w { managers = prepare a w.managers })
    unfolding get_round prepare reports Client.execute_copy_action Client.execute_remove_action
    get_round-runs (copy_from_action a) w h =
        rw (manager_copy_from-put_at media contents lawful a.src_mgr.uri true _ w h)
    get_round-runs (remove_action a) w h = rw (manager_remove-remove_at media a.mgr.uri true _ w h)
    get_round-runs action_type_not_set w h = refl
    get_round-runs (get_action a) w h = absurd h
    get_round-runs (put_action a) w h = absurd h

    reports-cons :
        (a : Action) (rest : List Action) → reports (a ∷ []) ++ reports rest ≡ reports (a ∷ rest)
    unfolding reports
    reports-cons (copy_from_action a) rest = refl
    reports-cons _ rest = refl

    reports-nil : reports [] ≡ []
    unfolding reports
    reports-nil = refl

    get_rounds-runs :
        (actions : List Action) (w : World D)
        → All (IsRunnable w.managers) actions
        → get_rounds (manager_transport media) (master_transport media peer) actions w
          ≡ (returns (reports actions), record w { managers = prepare_all actions w.managers })
    unfolding get_rounds prepare_all
    get_rounds-runs [] w h = rw reports-nil
    get_rounds-runs (a ∷ rest) w h = rw (
      get_round-runs a w h.0,
      get_rounds-runs rest (record w { managers = prepare a w.managers })
          (IsRunnable-mono w.managers (prepare a w.managers) rest (Runs-prepare a w.managers) h.1),
      reports-cons a rest,
    )

  -- Get at a client that runs, with a rule for the key that ends in a get action of the key at a
  -- manager that runs, behind copies to managers that run, removals at such, and actions that are
  -- not set: it answers OK with the value that the last manager stores once the preparations are
  -- done in their order (the empty text if there is none), and reports the copies and removals to
  -- the master.
  pub client_get-reads :
      (uri : String) (wait : Bool) (request : GetRequest) (w : World D) (c : StorageClient)
      (r : Rule) (actions : List Action) (a : GetAction)
      → lookup uri w.clients ≡ some c
      → get_matching_rule c.rule_db request.key OperationType.get ≡ returns r
      → r.action ≡ actions ++ get_action a ∷ []
      → a.key ≡ request.key
      → All (IsRunnable w.managers) actions
      → Runs a.mgr.uri w.managers
      → client_get media uri wait request w ≡ (
        returns (
          ok,
          record {
            value = read_value (stored contents (prepare_all actions w.managers) a.mgr.uri a.key);
          },
        ),
        record w {
          managers = prepare_all actions w.managers;
          master = Master.storage_change (record { storage_change = reports actions }) w.master;
        },
      )
  unfolding client_get Client.get Client.execute_get_action
  client_get-reads uri wait request w c r actions a e f shape same runnable runs = rw (
    e,
    client_get,
    has_matching_rule-get_matching_rule c.rule_db request.key OperationType.get r f,
    f,
    shape,
    split_last-append_one actions (get_action a),
    get_rounds-runs uri actions w runnable,
    (eq_iff a.key request.key).1 same,
    manager_get-stored media contents lawful a.mgr.uri true (record { key = a.key })
        (record w {
          managers = prepare_all actions w.managers;
          master = Master.storage_change (record { storage_change = reports actions }) w.master;
        })
        (Runs-prepare_all actions w.managers a.mgr.uri runs),
  )
