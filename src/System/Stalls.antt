-- ===== src/System/Stalls.antt =====
-- Put at a storage client whose rule names a manager that does not run.
use programmable_caching.Base.{
  String, Bool, Option, none, some, List, [], ◌∷◌, ◌++◌, ◌≡◌, ◌&&◌, ◌==◌, refl, All, if◌then◌else◌,
  eq_iff,
}
use programmable_caching.Base.Dict.{lookup}
use programmable_caching.Base.Exec.{returns, faults, blocked}
use programmable_caching.Proto.Common.{Action, PutAction, Rule, OperationType, put_action}
use programmable_caching.Proto.Storage.{PutRequest}
use programmable_caching.Storage.{StorageInterface}
use programmable_caching.Storage.Laws.{IsLawful}
use programmable_caching.Client.RuleDb.{get_matching_rule, has_matching_rule-get_matching_rule}
use programmable_caching.Client.Service as Client
use programmable_caching.Client.Service.{StorageClient, put_case, put_round, put_rounds}
use programmable_caching.System.{World, manager_transport, master_transport, client_put}
use programmable_caching.System.Stores.{stored, put_at, manager_put-blocks}
use programmable_caching.System.Stores.Absence.{put_at-absent}
use programmable_caching.System.Writes.{
  targets, IsServed, write_all, IsServed-put_at, put_round-served, stored-write_all,
}

module _ {D : Type 0} (media : String → StorageInterface D) where
  module _ (peer : String) (c : StorageClient) (request : PutRequest) where
    put_round-stalls :
        (a : PutAction) (w : World D)
        → a.key ≡ request.key
        → lookup a.mgr.uri w.managers ≡ none
        → put_round
            (manager_transport media)
            (master_transport media peer)
            c
            request
            (put_action a)
            w
          ≡ (faults blocked, w)
    unfolding put_round put_case Client.execute_put_action
    put_round-stalls a w same absent = rw (
      (eq_iff a.key request.key).1 same,
      put_case,
      manager_put-blocks media a.mgr.uri request w absent,
    )

    put_rounds-stalls :
        (served : List Action) (a : PutAction) (rest : List Action) (w : World D)
        → All (IsServed media w.managers request.key) served
        → a.key ≡ request.key
        → lookup a.mgr.uri w.managers ≡ none
        → put_rounds
            (manager_transport media)
            (master_transport media peer)
            c
            request
            (served ++ put_action a ∷ rest)
            w
          ≡ (
            faults blocked,
            record w { managers = write_all media peer c request served w.managers },
          )
    unfolding put_rounds write_all
    put_rounds-stalls [] a rest w h same absent = rw (put_round-stalls a w same absent) refl
    put_rounds-stalls (put_action b ∷ served) a rest w h same absent = rw (
      put_round-served media peer c request (put_action b) w h.0,
      put_rounds-stalls served a rest
          (record w { managers = put_at media b.mgr.uri request w.managers })
          (IsServed-put_at media peer c request b.mgr.uri w.managers served h.1) same
          (put_at-absent media b.mgr.uri a.mgr.uri request w.managers h.0.1 absent),
    )
    put_rounds-stalls (_ ∷ served) a rest w h same absent = absurd h.0

  module _ (contents : D → String → Option String)
      (lawful : (uri : String) → IsLawful (media uri) contents) where
    -- Put at a client that runs, with a rule for the key whose put actions of the key go to managers
    -- that run, up to one of the key that goes to an address where no manager listens: the call waits
    -- for ever. By then the managers that the rule names before store the value, and no other value
    -- has changed; but the master has learned of nothing.
    pub client_put-stalls :
        (uri : String) (wait : Bool) (request : PutRequest) (w : World D) (c : StorageClient)
        (r : Rule) (served rest : List Action) (a : PutAction)
        → lookup uri w.clients ≡ some c
        → get_matching_rule c.rule_db request.key OperationType.put ≡ returns r
        → r.action ≡ served ++ put_action a ∷ rest
        → All (IsServed media w.managers request.key) served
        → a.key ≡ request.key
        → lookup a.mgr.uri w.managers ≡ none
        → (v : World D) × (client_put media uri wait request w ≡ (faults blocked, v))
          × ((j k : String)
              → stored contents v.managers j k ≡ (
                  if request.key == k && targets served j
                  then some request.value
                  else stored contents w.managers j k))
          × (v.master ≡ w.master)
    unfolding client_put Client.put
    client_put-stalls uri wait request w c r served rest a e f shape h same absent = (
      record w { managers = write_all media uri c request served w.managers },
      rw (
        e,
        client_put,
        has_matching_rule-get_matching_rule c.rule_db request.key OperationType.put r f,
        f,
        shape,
        put_rounds-stalls uri c request served a rest w h same absent,
      ),
      λ j k. stored-write_all media uri c request contents lawful served w.managers j k h,
      refl,
    )
