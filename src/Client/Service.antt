-- ===== src/Client/Service.antt =====
-- storage_client.cc: the handlers of StorageClient, with assert enabled. `M` and `T` reach the
-- storage managers and the storage master. The statuses of the calls to managers are not read.
use programmable_caching.Base.{String, Option, none, some, List, [], ◌∷◌, ◌++◌, ◌==◌}
use programmable_caching.Base.Text.{◌⧺◌}
use programmable_caching.Base.Exec.{
  Exec, pure, fail, lift, assert, undefined, assertion, ◌>>=◌, ◌>>◌,
}
use programmable_caching.Proto.Common.{
  Action, OperationType, GetAction, CopyFromAction, RemoveAction, PutAction, get_action,
  copy_from_action, remove_action, put_action, action_type_not_set, put_action_of,
}
use programmable_caching.Proto.Storage.{
  storage_client, GetRequest, GetReply, PutRequest, RemoveRequest, InstallRuleRequest,
  RemoveRuleRequest,
}
use programmable_caching.Rpc.{
  Status, ok, is_ok, Stub, of_uri, of_host_port, ManagerTransport, MasterTransport,
}
use programmable_caching.Rpc.ManagerStub
use programmable_caching.Rpc.MasterStub
use programmable_caching.Client.RuleDb
use programmable_caching.Client.RuleDb.{RuleDb}

pub record StorageClient : Type 0 where
  pub rule_db : RuleDb
  pub client_hostname : String
  pub client_port : String
  pub master_interface : Stub

-- The constructor.
abbrev pub init : String → String → String → String → StorageClient
init client_hostname client_port master_hostname master_port = record {
  rule_db = RuleDb.empty;
  client_hostname = client_hostname;
  client_port = client_port;
  master_interface = of_host_port master_hostname master_port;
}

abbrev pub server_address : StorageClient → String
server_address c = c.client_hostname ⧺ ":" ⧺ c.client_port

-- All actions but the last, and the last: r.action(r.action_size() - 1).
unfoldable pub split_last : List Action → List Action × Option Action
split_last [] = ([], none)
split_last (a ∷ []) = ([], some a)
split_last (a ∷ b ∷ rest) = let (init, last) = split_last (b ∷ rest) in (a ∷ init, last)

-- r.action(-1) on a rule without actions reads out of bounds.
abbrev pub last_of : {S : Type 0} → Option Action → Exec S Action
last_of none = fail undefined
last_of (some a) = pure a

abbrev pub get_action_of : {S : Type 0} → Action → Exec S GetAction
get_action_of (get_action a) = pure a
get_action_of _ = fail assertion

module _ {S : Type 0} (M : ManagerTransport S) (T : MasterTransport S) where
  unfoldable pub execute_get_action : GetAction → Exec S (Status × GetReply)
  unfolding ManagerStub.get
  execute_get_action a = ManagerStub.get M (of_uri a.mgr.uri) (record { key = a.key })

  unfoldable pub execute_copy_action : CopyFromAction → Exec S Status
  unfolding ManagerStub.copy_from
  execute_copy_action a =
      ManagerStub.copy_from M (of_uri a.src_mgr.uri)
        (record { key = a.key; dst_uri = a.dst_mgr.uri })

  unfoldable pub execute_remove_action : RemoveAction → Exec S Status
  unfolding ManagerStub.remove
  execute_remove_action a = ManagerStub.remove M (of_uri a.mgr.uri) (record { key = a.key })

  -- The put, then a StorageChange in which nothing is set.
  unfoldable pub execute_put_action : StorageClient → PutAction → PutRequest → Exec S Status
  unfolding ManagerStub.put MasterStub.storage_change
  execute_put_action c a request = do
    ManagerStub.put M (of_uri a.mgr.uri) request
    MasterStub.storage_change T c.master_interface (record { storage_change = [] })

  -- One round of the loop in Get, with the changes that it adds to the report.
  unfoldable pub get_round : Action → Exec S (List Action)
  get_round (get_action a) = fail assertion
  get_round (copy_from_action a) = do execute_copy_action a; pure (copy_from_action a ∷ [])
  get_round (remove_action a) = do execute_remove_action a; pure (remove_action a ∷ [])
  get_round (put_action a) = fail assertion
  get_round action_type_not_set = pure []

  unfoldable pub get_rounds : List Action → Exec S (List Action)
  get_rounds [] = pure []
  get_rounds (a ∷ rest) = do
    changes ← get_round a
    others ← get_rounds rest
    pure (changes ++ others)

  unfoldable pub get : StorageClient → GetRequest → Exec S (Status × GetReply)
  unfolding get_rounds split_last MasterStub.storage_change
  get c request = do
    assert (RuleDb.has_matching_rule c.rule_db request.key OperationType.get)
    r ← lift (RuleDb.get_matching_rule c.rule_db request.key OperationType.get)
    changes ← get_rounds (split_last r.action).0
    s ← MasterStub.storage_change T c.master_interface (record { storage_change = changes })
    assert (is_ok s)
    last ← last_of (split_last r.action).1
    a ← get_action_of last
    assert (a.key == request.key)
    result ← execute_get_action a
    pure (ok, result.1)

  -- The case of a put action, to which the case of a remove action falls through.
  unfoldable pub put_case : StorageClient → PutRequest → Action → Exec S (List Action)
  put_case c request action = do
    assert ((put_action_of action).key == request.key)
    execute_put_action c (put_action_of action) request
    pure (action ∷ [])

  -- One round of the loop in Put. The case of a remove action has no break.
  unfoldable pub put_round : StorageClient → PutRequest → Action → Exec S (List Action)
  put_round c request (get_action a) = fail assertion
  put_round c request (copy_from_action a) = do
    execute_copy_action a
    pure (copy_from_action a ∷ [])
  put_round c request (remove_action a) = do
    execute_remove_action a
    changes ← put_case c request (remove_action a)
    pure (remove_action a ∷ changes)
  put_round c request (put_action a) = put_case c request (put_action a)
  put_round c request action_type_not_set = pure []

  unfoldable pub put_rounds : StorageClient → PutRequest → List Action → Exec S (List Action)
  put_rounds c request [] = pure []
  put_rounds c request (a ∷ rest) = do
    changes ← put_round c request a
    others ← put_rounds c request rest
    pure (changes ++ others)

  unfoldable pub put : StorageClient → PutRequest → Exec S Status
  unfolding put_rounds MasterStub.storage_change
  put c request = do
    assert (RuleDb.has_matching_rule c.rule_db request.key OperationType.put)
    r ← lift (RuleDb.get_matching_rule c.rule_db request.key OperationType.put)
    changes ← put_rounds c request r.action
    s ← MasterStub.storage_change T c.master_interface (record { storage_change = changes })
    assert (is_ok s)
    pure ok

module _ {S : Type 0} (T : MasterTransport S) where
  -- The introduction that Start sends before it listens; its status is not read.
  unfoldable pub start : StorageClient → Exec S (Unit {0})
  unfolding MasterStub.introduce
  start c = do
    MasterStub.introduce T c.master_interface
        (storage_client (record { rpc_hostname = c.client_hostname; rpc_port = c.client_port }))
    pure tt

-- Remove has no implementation.
unfoldable pub remove : StorageClient → RemoveRequest → Status × StorageClient
remove c request = (ok, c)

unfoldable pub install_rule : StorageClient → InstallRuleRequest → Status × StorageClient
install_rule c request = (ok, record c { rule_db = RuleDb.add_rule c.rule_db request.rule })

unfoldable pub remove_rule : StorageClient → RemoveRuleRequest → Status × StorageClient
remove_rule c request = (ok, record c { rule_db = RuleDb.remove_rule c.rule_db request.rule })
