-- ===== src/System/Exact/Steps.antt =====
-- The steps of the storage service other than a Get that copies.
use mathlib.Core.Path.{subst}
use programmable_caching.Base.{
  String, Bool, Option, some, List, [], ◌∷◌, ◌++◌, ◌≡◌, ap, sym, All, arith,
}
use programmable_caching.Base.Dict.{lookup, insert}
use programmable_caching.Base.Exec.{returns, returns-pair}
use programmable_caching.Proto.Common.{Rule, OperationType, Action, GetAction, get_action}
use programmable_caching.Proto.Storage.{GetRequest, PutRequest, storage_client}
use programmable_caching.Storage.{StorageInterface}
use programmable_caching.Storage.Laws.{IsLawful}
use programmable_caching.Manager
use programmable_caching.Manager.{StorageManager, introduction}
use programmable_caching.Master.Naming.{generate_name}
use programmable_caching.Master.Known.{introduce-IsServable}
use programmable_caching.Master.Service as Master
use programmable_caching.Client.RuleDb.{get_matching_rule}
use programmable_caching.Client.Service as Client
use programmable_caching.Client.Service.{StorageClient}
use programmable_caching.System.{World, master_transport, client_put, client_get}
use programmable_caching.System.Stores.{Runs}
use programmable_caching.System.Writes.{
  IsServed, write_all, stored-write_all, tracks-served, client_put-runs,
}
use programmable_caching.System.Moves.{
  IsRunnable, reports, prepare_all, prepare_all-absent, Runs-prepare_all, client_get-reads,
}
use programmable_caching.System.Consistency.{IsHomed, names-targets}
use programmable_caching.System.Consistency.Reach.{
  Step, manager_starts, client_starts, rule_arrives, rule_leaves, puts, gets,
}
use programmable_caching.System.Consistency.Stored.{
  client_install_rule-keeps, client_remove_rule-keeps,
}
use programmable_caching.System.Exact.{
  write_all-absent, write_all-Runs, IsNoCopy, IsExact, targets-names, served-Names, reports-Names,
  prepare_all-IsExact,
}
use programmable_caching.System.Exact.Peers.{add_client-IsKnown}
use programmable_caching.System.Exact.Invariant.{IsRight, changed-IsRight, joined-IsRight}

module _ {D : Type 0} (media : String → StorageInterface D) (home : String → String) where
  -- The step is no Get by a rule that copies.
  abbrev pub IsWithoutCopies : {w v : World D} → Step media home w v → Type 0
  IsWithoutCopies (gets uri wait request c r actions a reply _ _ _ _ _ _ _ _) = All IsNoCopy actions
  IsWithoutCopies _ = Unit

module _ {D : Type 0} (media : String → StorageInterface D) (contents : D → String → Option String)
    (lawful : (uri : String) → IsLawful (media uri) contents) (home : String → String)
    (apart : (m n : String) → home m ≡ home n → m ≡ n) where
  same-IsRight :
      (w v : World D)
      → v.managers ≡ w.managers
      → v.master ≡ w.master
      → IsRight contents home w
      → IsRight contents home v
  same-IsRight w v managers master h = record {
    exact = rw (managers, master) h.exact;
    recorded = rw (managers, master) h.recorded;
    known = rw (managers, master) h.known;
    servable = rw master h.servable;
  }

  puts-IsExact :
      (uri : String) (wait : Bool) (request : PutRequest) (c : StorageClient) (r : Rule)
      (w : World D)
      → lookup uri w.clients ≡ some c
      → get_matching_rule c.rule_db request.key OperationType.put ≡ returns r
      → All (IsServed media w.managers request.key) r.action
      → All (IsHomed home) r.action
      → IsExact home contents w.master.file_view w.managers
      → IsExact home contents
          (Master.storage_change (record { storage_change = r.action }) w.master).file_view
          (write_all media uri c request r.action w.managers)
  puts-IsExact uri wait request c r w listens found served homed h m k = ground (
    arith,
    tracks-served media uri c request w.managers r.action w.master m k served,
    stored-write_all media uri c request contents lawful r.action w.managers (home m) k served,
    h m k,
    names-targets home r.action m homed,
    targets-names home apart r.action m homed,
  )

  puts-IsRight :
      (uri : String) (wait : Bool) (request : PutRequest) (c : StorageClient) (r : Rule)
      (w : World D)
      → lookup uri w.clients ≡ some c
      → get_matching_rule c.rule_db request.key OperationType.put ≡ returns r
      → All (IsServed media w.managers request.key) r.action
      → All (IsHomed home) r.action
      → IsRight contents home w
      → IsRight contents home (client_put media uri wait request w).1
  unfolding Master.storage_change
  puts-IsRight uri wait request c r w listens found served homed h =
      rw (client_put-runs media uri wait request w c r listens found served) (
        changed-IsRight contents home w (write_all media uri c request r.action w.managers) r.action
          h (served-Names home media w.managers request.key r.action served homed)
          (write_all-Runs media uri c request r.action w.managers)
          (λ j runs absent.
            runs (write_all-absent media uri c request r.action w.managers j served absent))
          (puts-IsExact uri wait request c r w listens found served homed h.exact))

  gets-IsRight :
      (uri : String) (wait : Bool) (request : GetRequest) (c : StorageClient) (r : Rule)
      (actions : List Action) (a : GetAction) (w : World D)
      → lookup uri w.clients ≡ some c
      → get_matching_rule c.rule_db request.key OperationType.get ≡ returns r
      → r.action ≡ actions ++ get_action a ∷ []
      → a.key ≡ request.key
      → All (IsRunnable w.managers) actions
      → All (IsHomed home) actions
      → Runs a.mgr.uri w.managers
      → All IsNoCopy actions
      → IsRight contents home w
      → IsRight contents home (client_get media uri wait request w).1
  gets-IsRight uri wait request c r actions a w listens found shape same runnable homed runs plain
        h =
      rw
        (client_get-reads media contents lawful uri wait request w c r actions a listens found shape
          same runnable runs)
        (changed-IsRight contents home w (prepare_all media contents lawful actions w.managers)
          (reports actions) h (reports-Names home w.managers actions plain runnable homed)
          (Runs-prepare_all media contents lawful actions w.managers)
          (λ j ran absent.
            ran (prepare_all-absent media contents lawful actions w.managers j runnable absent))
          (prepare_all-IsExact media contents lawful home apart actions w.master.file_view
            w.managers plain homed runnable h.exact))

  -- A client that has introduced itself.
  client-IsRight :
      (peer : String) (c : StorageClient) (w : World D)
      → IsRight contents home w
      → IsRight contents home (Client.start (master_transport media peer) c w).1
  unfolding Client.start Master.introduce
  client-IsRight peer c w h = record {
    exact = h.exact;
    recorded = h.recorded;
    known = λ n runs. add_client-IsKnown home w.master.peer_tracker _ _ peer n (h.known n runs);
    servable =
        introduce-IsServable peer
          (storage_client (record { rpc_hostname = c.client_hostname; rpc_port = c.client_port }))
          w.master h.servable;
  }

  manager-IsRight :
      (peer : String) (m n : StorageManager D) (w u : World D)
      → Manager.server_address m
        ≡ home (generate_name (introduction (media (Manager.server_address m)) m))
      → Manager.start (media (Manager.server_address m)) (master_transport media peer) m w
        ≡ (returns n, u)
      → IsRight contents home w
      → IsRight contents home
          (record u { managers = insert (Manager.server_address m) n u.managers })
  unfolding Manager.start Master.introduce
  manager-IsRight peer m n w u homed e h =
      let same = returns-pair e in
      let address = Manager.server_address m in
      let named : StorageManager D = record m {
        name = generate_name (introduction (media address) m);
      } in
      subst (λ x. IsRight contents home (record u { managers = insert address x u.managers }))
        same.0
        (subst
          (λ (x : World D).
            IsRight contents home (record x { managers = insert address named x.managers }))
          same.1 (joined-IsRight contents home media lawful apart peer m w homed h))

  pub Step-IsRight :
      (w v : World D) (s : Step media home w v)
      → IsWithoutCopies media home s
      → IsRight contents home w
      → IsRight contents home v
  Step-IsRight w v (manager_starts peer m n u homed e same) plain h =
      subst (IsRight contents home) (sym same) (manager-IsRight peer m n w u homed e h)
  Step-IsRight w v (client_starts peer c u e same) plain h =
      same-IsRight u v (ap (λ x. x.managers) same) (ap (λ x. x.master) same)
        (subst (IsRight contents home) (ap (λ p. p.1) e) (client-IsRight peer c w h))
  Step-IsRight w v (rule_arrives uri wait request s e) plain h =
      let (managers, master) =
        client_install_rule-keeps media contents lawful home uri wait request w in
      subst (IsRight contents home) (ap (λ p. p.1) e) (same-IsRight w _ managers master h)
  Step-IsRight w v (rule_leaves uri wait request s e) plain h =
      let (managers, master) =
        client_remove_rule-keeps media contents lawful home uri wait request w in
      subst (IsRight contents home) (ap (λ p. p.1) e) (same-IsRight w _ managers master h)
  Step-IsRight w v (puts uri wait request c r s listens found served homed e) plain h =
      subst (IsRight contents home) (ap (λ p. p.1) e)
        (puts-IsRight uri wait request c r w listens found served homed h)
  Step-IsRight w v
        (gets uri wait request c r actions a reply listens found shape same runnable homed runs e)
        plain h =
      subst (IsRight contents home) (ap (λ p. p.1) e) (
        gets-IsRight uri wait request c r actions a w listens found shape same runnable homed runs
          plain h)
