-- ===== src/Client/Answers.antt =====
-- The rounds of Get and Put over servers of which every call comes back.
use programmable_caching.Base.{
  String, Bool, true, false, List, [], ◌∷◌, ◌≡◌, ◌∙◌, refl, ap, ◌==◌, All, arith, eq_iff,
}
use programmable_caching.Base.Exec.{Exec, returns, assert, bind-step}
use programmable_caching.Proto.Common.{
  Action, get_action, copy_from_action, remove_action, put_action, action_type_not_set,
}
use programmable_caching.Proto.Storage.{
  GetRequest, PutRequest, RemoveRequest, CopyFromRequest, StorageChangeRequest,
}
use programmable_caching.Rpc.{ok, of_uri, ManagerTransport, MasterTransport}
use programmable_caching.Rpc.ManagerStub
use programmable_caching.Rpc.MasterStub
use programmable_caching.Client.Service.{
  StorageClient, execute_copy_action, execute_remove_action, execute_put_action, get_round,
  get_rounds, put_case, put_round, put_rounds,
}
use programmable_caching.Client.Faults.{IsPreparation, IsWriting}

-- A call that comes back, with some answer.
abbrev pub Answers : {S A : Type 0} → Exec S A → Type 0
Answers {S} {A} m = (s : S) → (a : A) × (s' : S) × (m s ≡ (returns a, s'))

-- Servers of which every call comes back, and a master that answers OK to every report.
pub record Responds {S : Type 0} (M : ManagerTransport S) (T : MasterTransport S) : Type 0 where
  pub puts : (uri : String) (wait : Bool) (q : PutRequest) → Answers (M.send_put uri wait q)
  pub gets : (uri : String) (wait : Bool) (q : GetRequest) → Answers (M.send_get uri wait q)
  pub removes :
      (uri : String) (wait : Bool) (q : RemoveRequest) → Answers (M.send_remove uri wait q)
  pub copies :
      (uri : String) (wait : Bool) (q : CopyFromRequest) → Answers (M.send_copy_from uri wait q)
  pub reports :
      (uri : String) (wait : Bool) (q : StorageChangeRequest) (s : S)
      → (s' : S) × (T.send_storage_change uri wait q s ≡ (returns ok, s'))

pub assert-holds : {S : Type 0} (b : Bool) (s : S) → b ≡ true → assert b s ≡ (returns tt, s)
assert-holds b s e = ap (λ x. assert x s) e

pub same-holds : (key k : String) → key ≡ k → (key == k) ≡ true
same-holds key k e = ground (arith, eq_iff key k)

module _ {S : Type 0} (M : ManagerTransport S) (T : MasterTransport S) (live : Responds M T) where
  get_round-Answers : (a : Action) → IsPreparation a → Answers (get_round M T a)
  unfolding get_round execute_copy_action execute_remove_action ManagerStub.copy_from
      ManagerStub.remove
  get_round-Answers (copy_from_action a) h s =
      let sent =
        live.copies a.src_mgr.uri true (record { key = a.key; dst_uri = a.dst_mgr.uri }) s in
      (_, sent.1, bind-step (execute_copy_action M T a) _ s sent.2)
  get_round-Answers (remove_action a) h s =
      let sent = live.removes a.mgr.uri true (record { key = a.key }) s in
      (_, sent.1, bind-step (execute_remove_action M T a) _ s sent.2)
  get_round-Answers (get_action _) h s = elim h [ ]
  get_round-Answers (put_action _) h s = elim h [ ]
  get_round-Answers action_type_not_set h s = (_, s, refl)

  pub get_rounds-Answers :
      (actions : List Action) → All IsPreparation actions → Answers (get_rounds M T actions)
  unfolding get_rounds
  get_rounds-Answers [] h s = (_, s, refl)
  get_rounds-Answers (a ∷ rest) h s =
      let head = get_round-Answers a h.0 s in
      let tail = get_rounds-Answers rest h.1 head.1 in
      (
        _,
        tail.1,
        bind-step (get_round M T a) _ s head.2 ∙ bind-step (get_rounds M T rest) _ head.1 tail.2,
      )

  put_round-Answers :
      (c : StorageClient) (request : PutRequest) (a : Action)
      → IsWriting request.key a
      → Answers (put_round M T c request a)
  unfolding put_round put_case execute_copy_action execute_put_action ManagerStub.copy_from
      ManagerStub.put MasterStub.storage_change
  put_round-Answers c request (copy_from_action a) h s =
      let sent =
        live.copies a.src_mgr.uri true (record { key = a.key; dst_uri = a.dst_mgr.uri }) s in
      (_, sent.1, bind-step (execute_copy_action M T a) _ s sent.2)
  put_round-Answers c request (put_action a) h s =
      let sent = live.puts a.mgr.uri true request s in
      let told =
        live.reports c.master_interface.target false (record { storage_change = [] }) sent.1 in
      (
        _,
        told.0,
        bind-step (assert (a.key == request.key)) _ s
              (assert-holds _ s (same-holds a.key request.key h))
            ∙ bind-step (execute_put_action M T c a request) _ s
                (bind-step (ManagerStub.put M (of_uri a.mgr.uri) request) _ s sent.2 ∙ told.1),
      )
  put_round-Answers c request (get_action _) h s = elim h [ ]
  put_round-Answers c request (remove_action _) h s = elim h [ ]
  put_round-Answers c request action_type_not_set h s = (_, s, refl)

  pub put_rounds-Answers :
      (c : StorageClient) (request : PutRequest) (actions : List Action)
      → All (IsWriting request.key) actions
      → Answers (put_rounds M T c request actions)
  unfolding put_rounds
  put_rounds-Answers c request [] h s = (_, s, refl)
  put_rounds-Answers c request (a ∷ rest) h s =
      let head = put_round-Answers c request a h.0 s in
      let tail = put_rounds-Answers c request rest h.1 head.1 in
      (
        _,
        tail.1,
        bind-step (put_round M T c request a) _ s head.2
            ∙ bind-step (put_rounds M T c request rest) _ head.1 tail.2,
      )
