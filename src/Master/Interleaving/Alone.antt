-- ===== src/Master/Interleaving/Alone.antt =====
-- One handler of the storage master with no other in between, and the loop of FillInRule.
use mathlib.Core.Path.{subst}
use mathlib.Core.List.{append_assoc, append-nil}
use programmable_caching.Base.{String, List, [], ◌∷◌, ◌++◌, ◌≡◌, refl, sym, ap}
use programmable_caching.Base.Exec.{Outcome, returns, faults, and_then, traverse}
use programmable_caching.Proto.Common.{
  Action, Manager, CopyFromAction, get_action, copy_from_action, remove_action, put_action,
  action_type_not_set,
}
use programmable_caching.Proto.Storage.{InstallRuleRequest}
use programmable_caching.Master.Peers.{Peer}
use programmable_caching.Master.Service.{StorageMaster, resolve, fill_in_action, fill_in_rule}
use programmable_caching.Master.Atoms.{
  Section, adds_peer, adds_manager, adds_file, removes_file, pass, pass_all,
}
use programmable_caching.Master.Interleaving.{
  Handler, writes, filling, installed, client_found, action_filled, source_filled,
  destination_filled, fill_next, is_adding, Move, enters, leaves, passes, fills_in,
  fills_destination,
}

-- Moves of one handler, one after the other.
pub data Alone : StorageMaster → Handler → StorageMaster → Handler → Type 0 where
  stops : {m : StorageMaster} {h : Handler} → Alone m h m h
  moves :
      {m m' m'' : StorageMaster} {h h' h'' : Handler}
      → Move m (is_adding h) h m' h'
      → Alone m' h' m'' h''
      → Alone m h m'' h''

pub writes-Alone :
    (sections : List Section) (m : StorageMaster)
    → Alone m (writes sections) (pass_all sections m) (writes [])
unfolding pass_all
writes-Alone [] m = stops
writes-Alone (adds_peer name rpc_uri connection_uri ∷ rest) m =
    moves (enters name rpc_uri connection_uri rest) (
      moves (leaves name rpc_uri connection_uri rest)
        (writes-Alone rest (pass (adds_peer name rpc_uri connection_uri) m)))
writes-Alone (adds_manager name ∷ rest) m =
    moves (passes (adds_manager name) rest refl) (writes-Alone rest (pass (adds_manager name) m))
writes-Alone (adds_file name key ∷ rest) m =
    moves (passes (adds_file name key) rest refl) (writes-Alone rest (pass (adds_file name key) m))
writes-Alone (removes_file name key ∷ rest) m =
    moves (passes (removes_file name key) rest refl)
      (writes-Alone rest (pass (removes_file name key) m))

module _ (m : StorageMaster) (client_uri : String) (request : InstallRuleRequest) where
  -- The outcome of the loop of FillInRule behind some actions that are done.
  abbrev finished : List Action → Outcome (List Action) → Outcome (String × InstallRuleRequest)
  finished done (faults f) = faults f
  finished done (returns rest) =
      returns (client_uri, record request { rule = record request.rule { action = done ++ rest } })

  finished-cons :
      (done : List Action) (a : Action) (o : Outcome (List Action))
      → finished (done ++ a ∷ []) o ≡ finished done (and_then o (λ rest. returns (a ∷ rest)))
  finished-cons done a (faults f) = refl
  finished-cons done a (returns rest) =
      ap
        (λ actions.
          returns (client_uri, record request { rule = record request.rule { action = actions } }))
        (append_assoc done (a ∷ []) rest)

  -- The rule as traverse puts it together.
  abbrev with_first : Outcome Action → Outcome (List Action) → Outcome (List Action)
  with_first o others = and_then o (λ a. and_then others (λ rest. returns (a ∷ rest)))

  module _ (rest : List Action) (others : Outcome (List Action)) where
    -- The rounds behind an action end as the loop does.
    abbrev Ends : List Action → Type 0
    Ends done =
        (a : Action)
        → Alone m (filling client_uri request (done ++ a ∷ []) rest) m
            (installed (finished (done ++ a ∷ []) others))

    action_filled-Alone :
        (done : List Action) (o : Outcome Action)
        → Ends done
        → Alone m
            (action_filled client_uri request done rest o)
            m
            (installed (finished done (with_first o others)))
    unfolding action_filled
    action_filled-Alone done (returns a) ends =
        subst
          (λ call. Alone m (filling client_uri request (done ++ a ∷ []) rest) m (installed call))
          (finished-cons done a others) (ends a)
    action_filled-Alone done (faults f) ends = stops

    destination_filled-Alone :
        (done : List Action) (copy : CopyFromAction) (o : Outcome Manager)
        → Ends done
        → Alone m (destination_filled client_uri request done copy rest o) m (
            installed (
              finished done (
                with_first
                  (and_then o (λ dst. returns (copy_from_action (record copy { dst_mgr = dst }))))
                  others)))
    unfolding destination_filled action_filled
    destination_filled-Alone done copy (returns dst) ends =
        action_filled-Alone done (returns (copy_from_action (record copy { dst_mgr = dst }))) ends
    destination_filled-Alone done copy (faults f) ends = stops

    source_filled-Alone :
        (done : List Action) (copy : CopyFromAction) (o : Outcome Manager)
        → Ends done
        → Alone m (source_filled client_uri request done copy rest o) m (
            installed (
              finished done (
                with_first
                  (and_then o λ src. and_then (resolve m.peer_tracker copy.dst_mgr) λ dst.
                    returns (copy_from_action (record copy { src_mgr = src; dst_mgr = dst })))
                  others)))
    unfolding source_filled
    source_filled-Alone done copy (returns src) ends =
        let half : CopyFromAction = record copy { src_mgr = src } in
        moves (fills_destination client_uri request done half rest)
          (destination_filled-Alone done half (resolve m.peer_tracker copy.dst_mgr) ends)
    source_filled-Alone done copy (faults f) ends = stops

  filling-Alone :
      (rest done : List Action)
      → Alone m
          (filling client_uri request done rest)
          m
          (installed (finished done (traverse (fill_in_action m.peer_tracker) rest)))
  unfolding traverse fill_next fill_in_action
  filling-Alone [] done =
      subst
        (λ actions. Alone m (filling client_uri request done []) m (
          installed (
            returns
              (client_uri, record request { rule = record request.rule { action = actions } }))))
        (sym (append-nil done)) (moves (fills_in client_uri request done [] refl) stops)
  filling-Alone (get_action a ∷ rest) done =
      moves (fills_in client_uri request done (get_action a ∷ rest) refl) (
        action_filled-Alone rest _ done (fill_in_action m.peer_tracker (get_action a))
          (λ b. filling-Alone rest (done ++ b ∷ [])))
  filling-Alone (copy_from_action a ∷ rest) done =
      moves (fills_in client_uri request done (copy_from_action a ∷ rest) refl) (
        source_filled-Alone rest _ done a (resolve m.peer_tracker a.src_mgr)
          (λ b. filling-Alone rest (done ++ b ∷ [])))
  filling-Alone (remove_action a ∷ rest) done =
      moves (fills_in client_uri request done (remove_action a ∷ rest) refl) (
        action_filled-Alone rest _ done (fill_in_action m.peer_tracker (remove_action a))
          (λ b. filling-Alone rest (done ++ b ∷ [])))
  filling-Alone (put_action a ∷ rest) done =
      moves (fills_in client_uri request done (put_action a ∷ rest) refl) (
        action_filled-Alone rest _ done (fill_in_action m.peer_tracker (put_action a))
          (λ b. filling-Alone rest (done ++ b ∷ [])))
  filling-Alone (action_type_not_set ∷ rest) done =
      moves (fills_in client_uri request done (action_type_not_set ∷ rest) refl) (
        action_filled-Alone rest _ done (fill_in_action m.peer_tracker action_type_not_set)
          (λ b. filling-Alone rest (done ++ b ∷ [])))

finished-fill_in_rule :
    (m : StorageMaster) (client_uri : String) (request : InstallRuleRequest)
    (o : Outcome (List Action))
    → finished m client_uri request [] o
      ≡ and_then
          (and_then o λ actions. returns (record request.rule { action = actions }))
          λ rule. returns (client_uri, record request { rule = rule })
finished-fill_in_rule m client_uri request (returns actions) = refl
finished-fill_in_rule m client_uri request (faults f) = refl

pub installs-Alone :
    (m : StorageMaster) (request : InstallRuleRequest) (o : Outcome Peer)
    → Alone m (client_found request o) m (
        installed (
          and_then o λ p.
            and_then
              (fill_in_rule m.peer_tracker request.rule)
              λ rule. returns (p.rpc_uri, record request { rule = rule })))
unfolding client_found fill_in_rule
installs-Alone m request (returns p) =
    subst (λ call. Alone m (filling p.rpc_uri request [] request.rule.action) m (installed call))
      (finished-fill_in_rule m p.rpc_uri request _)
      (filling-Alone m p.rpc_uri request request.rule.action [])
installs-Alone m request (faults f) = stops
