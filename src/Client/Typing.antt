-- ===== src/Client/Typing.antt =====
-- The rules that a storage client can run: a rule for reading or for writing with the actions that
-- Get and Put carry out without an assertion.
use mathlib.Core.Path.{subst}
use programmable_caching.Base.{
  String, Bool, true, false, Option, none, some, List, [], ◌∷◌, ◌≡◌, ◌∙◌, refl, sym, ap, ◌⊎◌, inl,
  inr, ◌&&◌, ◌==◌, if◌then◌else◌, All, arith, eq_iff,
}
use programmable_caching.Base.Exec.{Exec, pure, ◌>>=◌, returns, lift, assert, at, bind-step}
use programmable_caching.Proto.Common.{Rule, OperationType, get_action}
use programmable_caching.Proto.Storage.{GetRequest, GetReply, PutRequest}
use programmable_caching.Rpc.{Status, ok, ManagerTransport, MasterTransport}
use programmable_caching.Rpc.ManagerStub
use programmable_caching.Rpc.MasterStub
use programmable_caching.Client.RuleDb.{
  RuleDb, found, empty, has_matching_rule, get_matching_rule, has_matching_rule-get_matching_rule,
}
use programmable_caching.Client.RuleDb.Refines.{RuleMap, no_rules, empty-Refines, same_op}
use programmable_caching.Client.Service.{
  StorageClient, init, split_last, last_of, execute_get_action, get_rounds, get, put_rounds, put,
  install_rule, remove_rule,
}
use programmable_caching.Client.Races.{
  Change, installs, removes, change, change_all, change_map, change_all_map, change_all-Refines,
}
use programmable_caching.Client.Faults.{IsPreparation, IsReading, IsWriting, split_last-append_one}
use programmable_caching.Client.Answers.{
  Responds, assert-holds, same-holds, get_rounds-Answers, put_rounds-Answers,
}

-- A rule whose actions are those of an operation on a key.
abbrev pub Fits : OperationType → String → Rule → Type 0
Fits OperationType.get key r = IsReading key r.action
Fits OperationType.put key r = All (IsWriting key) r.action
Fits OperationType.remove key r = Unit
Fits (OperationType.unrecognized _) key r = Unit

-- A handler that installs no rule but one whose actions are those of its operation on its key.
abbrev pub IsTyped : Change → Type 0
IsTyped (installs r) = Fits r.op_type r.key r
IsTyped (removes r) = Unit

abbrev FitMap : RuleMap → Type 0
FitMap f = (key : String) (op : OperationType) (r : Rule) → f key op ≡ some r → Fits op key r

chosen :
    (b : Bool) (o p : Option Rule) {r : Rule}
    → (if b then o else p) ≡ some r
    → ((b ≡ true) × (o ≡ some r)) ⊎ (p ≡ some r)
chosen true o p e = inl (refl, e)
chosen false o p e = inr e

Fits-op :
    (o op : OperationType) (key : String) (r : Rule)
    → same_op o op ≡ true
    → Fits o key r
    → Fits op key r
Fits-op OperationType.get OperationType.get key r e h = h
Fits-op OperationType.put OperationType.put key r e h = h
Fits-op o OperationType.remove key r e h = tt
Fits-op o (OperationType.unrecognized _) key r e h = tt
Fits-op o op key r e h = cc

Fits-same :
    (r : Rule) (key : String) (op : OperationType)
    → (same_op r.op_type op && r.key == key) ≡ true
    → Fits r.op_type r.key r
    → Fits op key r
Fits-same r key op e h =
    let key_eq : r.key ≡ key = ground (arith, e, eq_iff r.key key) in
    subst (λ k. Fits op k r) key_eq (Fits-op r.op_type op r.key r (ground (arith, e)) h)

some-injective : {a b : Rule} → some a ≡ some b → a ≡ b
some-injective e = cc

change_map-FitMap : (c : Change) (f : RuleMap) → IsTyped c → FitMap f → FitMap (change_map c f)
change_map-FitMap (installs q) f t h key op r e =
    elim (chosen (same_op q.op_type op && q.key == key) (some q) (f key op) e) [
      | inl p ↦ subst (Fits op key) (some-injective p.1) (Fits-same q key op p.0 t)
      | inr p ↦ h key op r p
    ]
change_map-FitMap (removes q) f t h key op r e =
    elim (chosen (same_op q.op_type op && q.key == key) none (f key op) e) [
      | inl p ↦ cc
      | inr p ↦ h key op r p
    ]

change_all_map-FitMap :
    (changes : List Change) (f : RuleMap)
    → All IsTyped changes
    → FitMap f
    → FitMap (change_all_map changes f)
change_all_map-FitMap [] f t h = h
change_all_map-FitMap (c ∷ rest) f t h =
    change_all_map-FitMap rest (change_map c f) t.1 (change_map-FitMap c f t.0 h)

found-some : (o : Option Rule) → found o ≡ true → (r : Rule) × (o ≡ some r)
found-some none h = cc
found-some (some r) h = (r, refl)

-- The rule that is found in a database of typed rules.
typed_rule :
    (changes : List Change) (key : String) (op : OperationType)
    → All IsTyped changes
    → has_matching_rule (change_all changes empty) key op ≡ true
    → (r : Rule) × (get_matching_rule (change_all changes empty) key op ≡ returns r) × Fits op key r
typed_rule changes key op t h =
    let as_map = change_all-Refines changes empty no_rules empty-Refines in
    let there = found-some (change_all_map changes no_rules key op) (sym (as_map.has key op) ∙ h) in
    (
      there.0,
      as_map.finds key op ∙ ap at there.1,
      change_all_map-FitMap changes no_rules t (λ k o r e. cc) key op there.0 there.1,
    )

-- A client after a sequence of its handlers InstallRule and RemoveRule.
unfoldable pub serve_all : List Change → StorageClient → StorageClient
unfolding install_rule remove_rule
serve_all [] c = c
serve_all (installs r ∷ rest) c =
    serve_all rest (install_rule c (record { client = ""; rule = r })).1
serve_all (removes r ∷ rest) c = serve_all rest (remove_rule c (record { client = ""; rule = r })).1

rule_db-serve_all :
    (changes : List Change) (c : StorageClient)
    → (serve_all changes c).rule_db ≡ change_all changes c.rule_db
unfolding serve_all install_rule remove_rule change_all change
rule_db-serve_all [] c = refl
rule_db-serve_all (installs r ∷ rest) c = rule_db-serve_all rest _
rule_db-serve_all (removes r ∷ rest) c = rule_db-serve_all rest _

module _ {S : Type 0} (M : ManagerTransport S) (T : MasterTransport S) (live : Responds M T) where
  put-Fits :
      (c : StorageClient) (request : PutRequest) (s : S) (r : Rule)
      → get_matching_rule c.rule_db request.key OperationType.put ≡ returns r
      → All (IsWriting request.key) r.action
      → (s' : S) × (put M T c request s ≡ (returns ok, s'))
  unfolding put MasterStub.storage_change
  put-Fits c request s r e fits =
      let ran = put_rounds-Answers M T live c request r.action fits s in
      let told =
        live.reports c.master_interface.target false (record { storage_change = ran.0 }) ran.1 in
      let there = has_matching_rule-get_matching_rule c.rule_db request.key _ r e in
      (
        told.0,
        bind-step (assert (has_matching_rule c.rule_db request.key OperationType.put)) _ s
              (assert-holds _ s there)
            ∙ bind-step (lift (get_matching_rule c.rule_db request.key OperationType.put)) _ s
                (ap (λ o. (o, s)) e)
            ∙ bind-step (put_rounds M T c request r.action) _ s ran.2
            ∙ bind-step (MasterStub.storage_change T c.master_interface _) _ ran.1 told.1,
      )

  get-Fits :
      (c : StorageClient) (request : GetRequest) (s : S) (r : Rule)
      → get_matching_rule c.rule_db request.key OperationType.get ≡ returns r
      → IsReading request.key r.action
      → (reply : GetReply) × (s' : S) × (get M T c request s ≡ (returns (ok, reply), s'))
  unfolding get MasterStub.storage_change execute_get_action ManagerStub.get
  get-Fits c request s r e fits =
      let sl : split_last r.action ≡ (fits.preparations, some (get_action fits.last)) =
        ap split_last fits.in_order ∙ split_last-append_one fits.preparations _ in
      let ran =
        get_rounds-Answers M T live (split_last r.action).0
          (subst (λ p. All IsPreparation p.0) (sym sl) fits.prepared) s in
      let told =
        live.reports c.master_interface.target false (record { storage_change = ran.0 }) ran.1 in
      let read = live.gets fits.last.mgr.uri true (record { key = fits.last.key }) told.0 in
      let there = has_matching_rule-get_matching_rule c.rule_db request.key _ r e in
      (
        read.0.1,
        read.1,
        bind-step (assert (has_matching_rule c.rule_db request.key OperationType.get)) _ s
              (assert-holds _ s there)
            ∙ bind-step (lift (get_matching_rule c.rule_db request.key OperationType.get)) _ s
                (ap (λ o. (o, s)) e)
            ∙ bind-step (get_rounds M T (split_last r.action).0) _ s ran.2
            ∙ bind-step (MasterStub.storage_change T c.master_interface _) _ ran.1 told.1
            ∙ bind-step (last_of (split_last r.action).1) _ told.0 (ap (λ p. last_of p.1 told.0) sl)
            ∙ bind-step (assert (fits.last.key == request.key)) _ told.0
                (assert-holds _ told.0 (same-holds fits.last.key request.key fits.of_key))
            ∙ bind-step (execute_get_action M T fits.last) _ told.0 read.2,
      )

-- A call of Get or Put.
pub data Call : Type 0 where
  reads : GetRequest → Call
  writes : PutRequest → Call

-- The test that the handler of a call asserts first.
abbrev pub has_rule : RuleDb → Call → Bool
has_rule db (reads q) = has_matching_rule db q.key OperationType.get
has_rule db (writes q) = has_matching_rule db q.key OperationType.put

module _ {S : Type 0} (M : ManagerTransport S) (T : MasterTransport S) where
  -- The handler of a call, and the status that it answers.
  unfoldable pub serve : StorageClient → Call → Exec S Status
  unfolding get put
  serve c (reads q) = do answer ← get M T c q; pure answer.0
  serve c (writes q) = put M T c q

  -- A storage client, constructed and then given and taken rules by handlers of InstallRule and
  -- RemoveRule of which those that install a rule install one for reading a key that ends with
  -- reading that key and prepares it by copies and removals, one for writing a key that copies and
  -- puts that key, or one for another operation, answers OK to every Get and Put for whose key and operation
  -- it has a rule, if every call of a manager comes back and the master answers OK to reports.
  pub typed_client-answers :
      Responds M T
      → (changes : List Change) (hostname port master_hostname master_port : String)
      → All IsTyped changes
      → (call : Call) (s : S)
      → has_rule (serve_all changes (init hostname port master_hostname master_port)).rule_db call
        ≡ true
      → (s' : S) × (serve
            (serve_all changes (init hostname port master_hostname master_port))
            call
            s
          ≡ (returns ok, s'))
  unfolding serve
  typed_client-answers live changes hostname port master_hostname master_port typed (reads q) s h =
      let c = serve_all changes (init hostname port master_hostname master_port) in
      let db_eq : c.rule_db ≡ change_all changes empty = rule_db-serve_all changes _ in
      let there =
        typed_rule changes q.key OperationType.get typed
          (subst (λ db. has_matching_rule db q.key OperationType.get ≡ true) db_eq h) in
      let done =
        get-Fits M T live c q s there.0
          (ap (λ db. get_matching_rule db q.key OperationType.get) db_eq ∙ there.1) there.2 in
      (done.1, bind-step (get M T c q) _ s done.2)
  typed_client-answers live changes hostname port master_hostname master_port typed (writes q) s h =
      let c = serve_all changes (init hostname port master_hostname master_port) in
      let db_eq : c.rule_db ≡ change_all changes empty = rule_db-serve_all changes _ in
      let there =
        typed_rule changes q.key OperationType.put typed
          (subst (λ db. has_matching_rule db q.key OperationType.put ≡ true) db_eq h) in
      put-Fits M T live c q s there.0
        (ap (λ db. get_matching_rule db q.key OperationType.put) db_eq ∙ there.1) there.2
