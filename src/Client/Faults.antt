-- ===== src/Client/Faults.antt =====
-- When Get and Put of a storage client return, and when an assertion stops them.
use programmable_caching.Base.{
  String, true, Option, none, some, List, [], ◌∷◌, ◌++◌, ◌≡◌, ◌≢◌, refl, ap, ◌∙◌, ◌==◌, All, arith,
  eq_iff,
}
use programmable_caching.Base.Exec.{returns, lift, assert, returned, bind-returned}
use programmable_caching.Proto.Common.{
  Action, Rule, OperationType, GetAction, get_action, copy_from_action, remove_action, put_action,
  action_type_not_set,
}
use programmable_caching.Proto.Storage.{GetRequest, PutRequest}
use programmable_caching.Rpc.{is_ok, ManagerTransport, MasterTransport}
use programmable_caching.Rpc.MasterStub
use programmable_caching.Client.RuleDb.{has_matching_rule, get_matching_rule}
use programmable_caching.Client.Service.{
  StorageClient, split_last, last_of, get_action_of, get_round, get_rounds, get,
  execute_remove_action, put_case, put_round, put_rounds, put,
}

-- An action that Get runs before the last one.
abbrev pub IsPreparation : Action → Type 0
IsPreparation (copy_from_action a) = Unit
IsPreparation (remove_action a) = Unit
IsPreparation action_type_not_set = Unit
IsPreparation _ = ⊥

-- The actions of a rule for reading a key: preparations, and last the reading of the key.
pub record IsReading (key : String) (actions : List Action) : Type 0 where
  pub preparations : List Action
  pub last : GetAction
  pub in_order : actions ≡ preparations ++ get_action last ∷ []
  pub prepared : All IsPreparation preparations
  pub of_key : last.key ≡ key

-- An action of a rule for writing a key.
abbrev pub IsWriting : String → Action → Type 0
IsWriting key (copy_from_action a) = Unit
IsWriting key (put_action a) = a.key ≡ key
IsWriting key action_type_not_set = Unit
IsWriting key _ = ⊥

pub split_last-append_one :
    (actions : List Action) (last : Action)
    → split_last (actions ++ last ∷ []) ≡ (actions, some last)
unfolding split_last
split_last-append_one [] last = refl
split_last-append_one (a ∷ []) last = refl
split_last-append_one (a ∷ b ∷ rest) last = rw (split_last-append_one (b ∷ rest) last)

split_last-append :
    (actions : List Action) (last : Action)
    → (split_last actions).1 ≡ some last
    → actions ≡ (split_last actions).0 ++ last ∷ []
unfolding split_last
split_last-append [] last e = cc
split_last-append (a ∷ []) last e = cc
split_last-append (a ∷ b ∷ rest) last e = ap (◌∷◌ a) (split_last-append (b ∷ rest) last e)

module _ {S : Type 0} where
  last_of-some :
      (o : Option Action) (last : Action) (s : S) {s' : S}
      → last_of o s ≡ (returns last, s')
      → o ≡ some last
  last_of-some none last s e = cc
  last_of-some (some a) last s e = cc

  get_action_of-eq :
      (a : Action) (g : GetAction) (s : S) {s' : S}
      → get_action_of a s ≡ (returns g, s')
      → a ≡ get_action g
  get_action_of-eq (get_action a) g s e = cc
  get_action_of-eq (copy_from_action a) g s e = cc
  get_action_of-eq (remove_action a) g s e = cc
  get_action_of-eq (put_action a) g s e = cc
  get_action_of-eq action_type_not_set g s e = cc

  assert-eq :
      (k key : String) (s : S) (u : Unit {0}) {s' : S}
      → assert (k == key) s ≡ (returns u, s')
      → k ≡ key
  assert-eq k key s u e = ground (arith, eq_iff k key)

module _ {S : Type 0} (M : ManagerTransport S) (T : MasterTransport S) where
  put_round-IsWriting :
      (c : StorageClient) (request : PutRequest) (a : Action) (s : S)
      → request.key ≢ ""
      → returned (put_round M T c request a s).0 ≡ true
      → IsWriting request.key a
  unfolding put_round put_case
  put_round-IsWriting c request (get_action a) s ne h = cc
  put_round-IsWriting c request (copy_from_action a) s ne h = tt
  put_round-IsWriting c request (remove_action a) s ne h =
      let rest = bind-returned (execute_remove_action M T a) _ s h in
      ground (arith, rest.3, eq_iff "" request.key)
  put_round-IsWriting c request (put_action a) s ne h = ground (arith, eq_iff a.key request.key)
  put_round-IsWriting c request action_type_not_set s ne h = tt

  put_rounds-IsWriting :
      (c : StorageClient) (request : PutRequest) (actions : List Action) (s : S)
      → request.key ≢ ""
      → returned (put_rounds M T c request actions s).0 ≡ true
      → All (IsWriting request.key) actions
  unfolding put_rounds
  put_rounds-IsWriting c request [] s ne h = tt
  put_rounds-IsWriting c request (a ∷ rest) s ne h =
      let head = bind-returned (put_round M T c request a) _ s h in
      let tail = bind-returned (put_rounds M T c request rest) _ head.1 head.3 in
      (
        put_round-IsWriting c request a s ne (ground (arith, head.2)),
        put_rounds-IsWriting c request rest head.1 ne (ground (arith, tail.2)),
      )

  -- Put of a text with a key returns only if there is a rule for writing the key, each action of
  -- which copies a file, puts that key, or is not set: not if the rule has a remove action.
  pub put-returned :
      (c : StorageClient) (request : PutRequest) (s : S)
      → request.key ≢ ""
      → returned (put M T c request s).0 ≡ true
      → (r : Rule) × (get_matching_rule c.rule_db request.key OperationType.put ≡ returns r)
        × All (IsWriting request.key) r.action
  unfolding put
  put-returned c request s ne h =
      let checked = bind-returned (assert (has_matching_rule c.rule_db request.key _)) _ s h in
      let found = bind-returned (lift (get_matching_rule c.rule_db request.key _)) _ _ checked.3 in
      let ran = bind-returned (put_rounds M T c request found.0.action) _ _ found.3 in
      (
        found.0,
        ap (λ p. p.0) found.2,
        put_rounds-IsWriting c request found.0.action found.1 ne (ground (arith, ran.2)),
      )

  get_round-IsPreparation :
      (a : Action) (s : S) → returned (get_round M T a s).0 ≡ true → IsPreparation a
  unfolding get_round
  get_round-IsPreparation (get_action a) s h = cc
  get_round-IsPreparation (put_action a) s h = cc
  get_round-IsPreparation (copy_from_action a) s h = tt
  get_round-IsPreparation (remove_action a) s h = tt
  get_round-IsPreparation action_type_not_set s h = tt

  get_rounds-IsPreparation :
      (actions : List Action) (s : S)
      → returned (get_rounds M T actions s).0 ≡ true
      → All IsPreparation actions
  unfolding get_rounds
  get_rounds-IsPreparation [] s h = tt
  get_rounds-IsPreparation (a ∷ rest) s h =
      let head = bind-returned (get_round M T a) _ s h in
      let tail = bind-returned (get_rounds M T rest) _ head.1 head.3 in
      (
        get_round-IsPreparation a s (ground (arith, head.2)),
        get_rounds-IsPreparation rest head.1 (ground (arith, tail.2)),
      )

  -- Get returns only if there is a rule for reading the key, whose last action is a get action of
  -- the key, behind copy actions, remove actions and actions that are not set.
  pub get-returned :
      (c : StorageClient) (request : GetRequest) (s : S)
      → returned (get M T c request s).0 ≡ true
      → (r : Rule) × (get_matching_rule c.rule_db request.key OperationType.get ≡ returns r)
        × IsReading request.key r.action
  unfolding get
  get-returned c request s h =
      let checked = bind-returned (assert (has_matching_rule c.rule_db request.key _)) _ s h in
      let found = bind-returned (lift (get_matching_rule c.rule_db request.key _)) _ _ checked.3 in
      let actions : List Action = found.0.action in
      let ran = bind-returned (get_rounds M T (split_last actions).0) _ _ found.3 in
      let told = bind-returned (MasterStub.storage_change T c.master_interface _) _ _ ran.3 in
      let answered = bind-returned (assert (is_ok told.0)) _ _ told.3 in
      let at_end = bind-returned (last_of (split_last actions).1) _ _ answered.3 in
      let reading = bind-returned (get_action_of at_end.0) _ _ at_end.3 in
      let same = bind-returned (assert (reading.0.key == request.key)) _ _ reading.3 in
      (
        found.0,
        ap (λ p. p.0) found.2,
        record {
          preparations = (split_last actions).0;
          last = reading.0;
          in_order = split_last-append actions (get_action reading.0) (
              last_of-some (split_last actions).1 _ _ at_end.2
              ∙ ap some (get_action_of-eq at_end.0 _ _ reading.2));
          prepared =
              get_rounds-IsPreparation (split_last actions).0 found.1 (ground (arith, ran.2));
          of_key = assert-eq _ _ _ _ same.2;
        },
      )
