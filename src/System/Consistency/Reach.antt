-- ===== src/System/Consistency/Reach.antt =====
-- Runs of the storage service: managers that start, clients that start and get rules, and calls of
-- Put and Get at the clients.
use programmable_caching.Base.{String, Bool, some, List, [], ◌∷◌, ◌++◌, ◌≡◌, All}
use programmable_caching.Base.Dict.{lookup, insert}
use programmable_caching.Base.Exec.{returns}
use programmable_caching.Proto.Common.{Rule, OperationType, Action, GetAction, get_action}
use programmable_caching.Proto.Storage.{
  GetRequest, GetReply, PutRequest, InstallRuleRequest, RemoveRuleRequest,
}
use programmable_caching.Rpc.{Status}
use programmable_caching.Storage.{StorageInterface}
use programmable_caching.Manager
use programmable_caching.Manager.{StorageManager, introduction}
use programmable_caching.Master.Naming.{generate_name}
use programmable_caching.Client.RuleDb.{get_matching_rule}
use programmable_caching.Client.Service as Client
use programmable_caching.Client.Service.{StorageClient}
use programmable_caching.System.{
  World, master_transport, client_put, client_get, client_install_rule, client_remove_rule,
}
use programmable_caching.System.Stores.{Runs}
use programmable_caching.System.Writes.{IsServed}
use programmable_caching.System.Moves.{IsRunnable}
use programmable_caching.System.Consistency.{IsHomed}

module _ {D : Type 0} (media : String → StorageInterface D) (home : String → String) where
  pub data Step (w v : World D) : Type 0 where
    -- A manager starts, over any medium, and listens at its address, the home of its name.
    manager_starts :
        (peer : String) (m n : StorageManager D) (u : World D)
        → Manager.server_address m
          ≡ home (generate_name (introduction (media (Manager.server_address m)) m))
        → Manager.start (media (Manager.server_address m)) (master_transport media peer) m w
          ≡ (returns n, u)
        → v ≡ record u { managers = insert (Manager.server_address m) n u.managers }
        → Step w v
    -- A client starts, with any rules, and listens at its address.
    client_starts :
        (peer : String) (c : StorageClient) (u : World D)
        → Client.start (master_transport media peer) c w ≡ (returns tt, u)
        → v ≡ record u { clients = insert (Client.server_address c) c u.clients }
        → Step w v
    rule_arrives :
        (uri : String) (wait : Bool) (request : InstallRuleRequest) (s : Status)
        → client_install_rule media uri wait request w ≡ (returns s, v)
        → Step w v
    rule_leaves :
        (uri : String) (wait : Bool) (request : RemoveRuleRequest) (s : Status)
        → client_remove_rule media uri wait request w ≡ (returns s, v)
        → Step w v
    -- Put at a client with a rule for the key of put actions of the key, at managers that run and
    -- stand at the homes of their names.
    puts :
        (uri : String) (wait : Bool) (request : PutRequest) (c : StorageClient) (r : Rule)
        (s : Status)
        → lookup uri w.clients ≡ some c
        → get_matching_rule c.rule_db request.key OperationType.put ≡ returns r
        → All (IsServed media w.managers request.key) r.action
        → All (IsHomed home) r.action
        → client_put media uri wait request w ≡ (returns s, v)
        → Step w v
    -- Get at a client with a rule for the key of copies and removals, at managers that run and
    -- stand at the homes of their names, with a get action of the key behind them.
    gets :
        (uri : String) (wait : Bool) (request : GetRequest) (c : StorageClient) (r : Rule)
        (actions : List Action) (a : GetAction) (reply : Status × GetReply)
        → lookup uri w.clients ≡ some c
        → get_matching_rule c.rule_db request.key OperationType.get ≡ returns r
        → r.action ≡ actions ++ get_action a ∷ []
        → a.key ≡ request.key
        → All (IsRunnable w.managers) actions
        → All (IsHomed home) actions
        → Runs a.mgr.uri w.managers
        → client_get media uri wait request w ≡ (returns reply, v)
        → Step w v

  pub data Reach (w : World D) : World D → Type 0 where
    here : Reach w w
    next : {u v : World D} → Reach w u → Step u v → Reach w v
