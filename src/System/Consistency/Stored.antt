-- ===== src/System/Consistency/Stored.antt =====
-- What the master records over a run of the storage service.
use programmable_caching.Base.{
  String, Bool, true, false, Option, none, some, inl, inr, List, [], ◌∷◌, ◌++◌, ◌≡◌, ◌≢◌, ◌∙◌, ◌==◌,
  ap, sym, All, Option-cases, if◌then◌else◌, arith, eq_iff,
}
use programmable_caching.Base.Dict.{Dict, lookup, insert, lookup-insert}
use programmable_caching.Base.Exec.{returns, returns-injective}
use programmable_caching.Proto.Common.{Rule, OperationType, Action, GetAction, get_action}
use programmable_caching.Proto.Storage.{
  GetRequest, GetReply, PutRequest, InstallRuleRequest, RemoveRuleRequest,
}
use programmable_caching.Rpc.{Status}
use programmable_caching.Storage.{StorageInterface}
use programmable_caching.Storage.Laws.{IsLawful}
use programmable_caching.Manager
use programmable_caching.Manager.{StorageManager, introduction}
use programmable_caching.Master.Files.Tracks.{tracks, tracks-empty}
use programmable_caching.Master.Naming.{generate_name}
use programmable_caching.Master.Service as Master
use programmable_caching.Client.RuleDb.{get_matching_rule}
use programmable_caching.Client.Service as Client
use programmable_caching.Client.Service.{StorageClient}
use programmable_caching.System.{
  World, master_transport, client_put, client_get, client_install_rule, client_remove_rule,
}
use programmable_caching.System.Stores.{stored, Runs}
use programmable_caching.System.Starts.{start-tracks}
use programmable_caching.System.Writes.{IsServed, client_put-writes}
use programmable_caching.System.Moves.{IsRunnable, client_get-reads}
use programmable_caching.System.Consistency.{IsStored, IsHomed, prepare_all-IsStored, names-targets}
use programmable_caching.System.Consistency.Reach.{
  Step, Reach, manager_starts, client_starts, rule_arrives, rule_leaves, puts, gets, here, next,
}

module _ {D : Type 0} (media : String → StorageInterface D) (contents : D → String → Option String)
    (lawful : (uri : String) → IsLawful (media uri) contents) (home : String → String) where
  pub stored-insert :
      (uri : String) (m : StorageManager D) (managers : Dict (StorageManager D)) (j k : String)
      → stored contents (insert uri m managers) j k
        ≡ (if uri == j then contents m.storage k else stored contents managers j k)
  unfolding stored
  stored-insert uri m managers j k = ground (arith, lookup-insert j uri m managers)

  pub client_install_rule-keeps :
      (uri : String) (wait : Bool) (request : InstallRuleRequest) (w : World D)
      → ((client_install_rule media uri wait request w).1.managers ≡ w.managers)
        × ((client_install_rule media uri wait request w).1.master ≡ w.master)
  unfolding client_install_rule
  client_install_rule-keeps uri true request w = elim (Option-cases (lookup uri w.clients)) [
    | inl e ↦ (rw (e, client_install_rule), rw (e, client_install_rule))
    | inr (c, e) ↦ (rw (e, client_install_rule), rw (e, client_install_rule))
  ]
  client_install_rule-keeps uri false request w = elim (Option-cases (lookup uri w.clients)) [
    | inl e ↦ (rw (e, client_install_rule), rw (e, client_install_rule))
    | inr (c, e) ↦ (rw (e, client_install_rule), rw (e, client_install_rule))
  ]

  pub client_remove_rule-keeps :
      (uri : String) (wait : Bool) (request : RemoveRuleRequest) (w : World D)
      → ((client_remove_rule media uri wait request w).1.managers ≡ w.managers)
        × ((client_remove_rule media uri wait request w).1.master ≡ w.master)
  unfolding client_remove_rule
  client_remove_rule-keeps uri true request w = elim (Option-cases (lookup uri w.clients)) [
    | inl e ↦ (rw (e, client_remove_rule), rw (e, client_remove_rule))
    | inr (c, e) ↦ (rw (e, client_remove_rule), rw (e, client_remove_rule))
  ]
  client_remove_rule-keeps uri false request w = elim (Option-cases (lookup uri w.clients)) [
    | inl e ↦ (rw (e, client_remove_rule), rw (e, client_remove_rule))
    | inr (c, e) ↦ (rw (e, client_remove_rule), rw (e, client_remove_rule))
  ]

  module _ (apart : (m n : String) → home m ≡ home n → m ≡ n) where
    manager_starts-IsStored :
        (peer uri : String) (m n : StorageManager D) (w u : World D)
        → uri ≡ home (generate_name (introduction (media uri) m))
        → Manager.start (media uri) (master_transport media peer) m w ≡ (returns n, u)
        → IsStored home contents w.master.file_view w.managers
        → IsStored home contents u.master.file_view (insert uri n u.managers)
    manager_starts-IsStored peer uri m n w u homed e h =
        let (v, started, own, others, kept) =
          start-tracks media contents (media uri) (lawful uri) peer m w in
        let same : u ≡ v = ap (λ p. p.1) (sym e ∙ started) in
        let named : n ≡ record m { name = generate_name (introduction (media uri) m) } =
          returns-injective (ap (λ p. p.0) (sym e ∙ started)) in
        rw (same, named)
          λ name key recorded. ground (
            arith,
            recorded,
            own key,
            others name key,
            stored-insert uri (record m { name = generate_name (introduction (media uri) m) })
                v.managers (home name) key,
            ap (λ u. u.managers) kept,
            h name key,
            apart (generate_name (introduction (media uri) m)) name,
            homed,
            eq_iff (generate_name (introduction (media uri) m)) name,
            eq_iff uri (home name),
          )

    puts-IsStored :
        (uri : String) (wait : Bool) (request : PutRequest) (c : StorageClient) (r : Rule)
        (s : Status) (w v : World D)
        → lookup uri w.clients ≡ some c
        → get_matching_rule c.rule_db request.key OperationType.put ≡ returns r
        → All (IsServed media w.managers request.key) r.action
        → All (IsHomed home) r.action
        → client_put media uri wait request w ≡ (returns s, v)
        → IsStored home contents w.master.file_view w.managers
        → IsStored home contents v.master.file_view v.managers
    puts-IsStored uri wait request c r s w v listens found served homed e h =
        let (u, done, stores, records) =
          client_put-writes media contents lawful uri wait request w c r listens found served in
        let same : v ≡ u = ap (λ p. p.1) (sym e ∙ done) in
        rw same λ m k recorded. ground (
          arith,
          recorded,
          records m k,
          stores (home m) k,
          h m k,
          names-targets home r.action m homed,
        )

    gets-IsStored :
        (uri : String) (wait : Bool) (request : GetRequest) (c : StorageClient) (r : Rule)
        (actions : List Action) (a : GetAction) (reply : Status × GetReply) (w v : World D)
        → lookup uri w.clients ≡ some c
        → get_matching_rule c.rule_db request.key OperationType.get ≡ returns r
        → r.action ≡ actions ++ get_action a ∷ []
        → a.key ≡ request.key
        → All (IsRunnable w.managers) actions
        → All (IsHomed home) actions
        → Runs a.mgr.uri w.managers
        → client_get media uri wait request w ≡ (returns reply, v)
        → IsStored home contents w.master.file_view w.managers
        → IsStored home contents v.master.file_view v.managers
    unfolding Master.storage_change
    gets-IsStored uri wait request c r actions a reply w v listens found shape same runnable homed
          runs e h =
        let ran =
          client_get-reads media contents lawful uri wait request w c r actions a listens found
            shape same runnable runs in
        let kept =
          prepare_all-IsStored media contents lawful home apart actions w.master.file_view
            w.managers homed runnable h in
        rw (ap (λ p. p.1) (sym e ∙ ran)) kept

    Step-IsStored :
        (w v : World D)
        → Step media home w v
        → IsStored home contents w.master.file_view w.managers
        → IsStored home contents v.master.file_view v.managers
    unfolding Master.introduce Client.start
    Step-IsStored w v (manager_starts peer m n u homed e same) h =
        rw same (manager_starts-IsStored peer (Manager.server_address m) m n w u homed e h)
    Step-IsStored w v (client_starts peer c u e same) h = rw (same, ap (λ p. p.1) (sym e)) h
    Step-IsStored w v (rule_arrives uri wait request s e) h =
        let (managers, master) = client_install_rule-keeps uri wait request w in
        rw (ap (λ p. p.1) (sym e), managers, master) h
    Step-IsStored w v (rule_leaves uri wait request s e) h =
        let (managers, master) = client_remove_rule-keeps uri wait request w in
        rw (ap (λ p. p.1) (sym e), managers, master) h
    Step-IsStored w v (puts uri wait request c r s listens found served homed e) h =
        puts-IsStored uri wait request c r s w v listens found served homed e h
    Step-IsStored w v
          (gets uri wait request c r actions a reply listens found shape same runnable homed runs e)
          h =
        gets-IsStored uri wait request c r actions a reply w v listens found shape same runnable
          homed runs e h

    nothing-IsStored :
        (w : World D)
        → w.master.file_view.manager_views ≡ []
        → IsStored home contents w.master.file_view w.managers
    nothing-IsStored w e m k recorded =
        ground (arith, recorded, tracks-empty w.master.file_view m k e)

    -- Let each name have a home, an address of its own, and let the media be lawful. From a system
    -- whose master records no manager, in every state that is reached by the steps here, what the
    -- master records at a name is stored at the home of the name. A step starts a manager over any
    -- medium, which then listens at its address, the home of the name that the master generates for
    -- it; starts a client, which then listens; brings a rule to a client or removes one there; is a
    -- Put by a rule of put actions of the key; or is a Get by a rule of copies and removals with a
    -- get action of the key behind them. Every call of a step returns; no manager stops; the managers
    -- of the two rules run, and those that are written to stand at the homes of their names.
    pub Reach-IsStored :
        (w v : World D)
        → w.master.file_view.manager_views ≡ []
        → Reach media home w v
        → (m k : String) → tracks v.master.file_view m k ≡ true
        → stored contents v.managers (home m) k ≢ none
    Reach-IsStored w v empty here = nothing-IsStored w empty
    Reach-IsStored w v empty (next {u = u} r step) =
        Step-IsStored u v step (Reach-IsStored w u empty r)
