-- ===== src/Master/Interleaving/Handlers.antt =====
-- Each handler of the storage master alone, and what it does as one step.
use mathlib.Core.Path.{subst}
use programmable_caching.Base.{String, [], ◌≡◌, refl}
use programmable_caching.Base.Exec.{Outcome, returns, faults, and_then, lift, ◌>>=◌, Exec}
use programmable_caching.Proto.Common.{Rule}
use programmable_caching.Proto.Storage.{
  IntroduceRequest, StorageChangeRequest, InstallRuleRequest, RemoveRuleRequest,
}
use programmable_caching.Rpc.{Status, RuleTransport, of_uri}
use programmable_caching.Rpc.ClientStub
use programmable_caching.Master.Peers.{Peer, get_peer_from_name}
use programmable_caching.Master.Service.{
  StorageMaster, fill_in_rule, introduce, storage_change, get_view, install_rule, remove_rule,
}
use programmable_caching.Master.Atoms.{
  introduce_sections, change_sections, view_files, view_addresses, pass_all-handlers,
}
use programmable_caching.Master.Interleaving.{
  writes, views, answered, installs, installed, uninstalls, uninstalled, removal, fills, addresses,
  finds_client, finds_owner,
}
use programmable_caching.Master.Interleaving.Alone.{
  Alone, stops, moves, writes-Alone, installs-Alone,
}

module _ {S : Type 0} (T : RuleTransport S) where
  -- The call that a handler of rules makes at its end, or the exception that it throws.
  abbrev pub calls :
      {A : Type 0} → (String → A → Exec S Status) → Outcome (String × A) → Exec S Status
  calls send call = do c ← lift call; send c.0 c.1

  install_call :
      (request : InstallRuleRequest) (o : Outcome Peer) (rule : Outcome Rule) (s : S)
      → calls
          (λ uri q. ClientStub.install_rule T (of_uri uri) q)
          (and_then o λ p. and_then rule λ r. returns (p.rpc_uri, record request { rule = r }))
          s
        ≡ (do
          p ← lift o
          r ← lift rule
          ClientStub.install_rule T (of_uri p.rpc_uri) (record request { rule = r }))
            s
  install_call request (returns p) (returns r) s = refl
  install_call request (returns p) (faults f) s = refl
  install_call request (faults f) rule s = refl

  removal_call :
      (request : RemoveRuleRequest) (o : Outcome Peer) (s : S)
      → calls (λ uri q. ClientStub.remove_rule T (of_uri uri) q) (removal request o) s
        ≡ (do p ← lift o; ClientStub.remove_rule T (of_uri p.rpc_uri) request) s
  unfolding removal
  removal_call request (returns p) s = refl
  removal_call request (faults f) s = refl

  -- With no other handler in between, the moves of Introduce, StorageChange and GetView lead to
  -- the state and the reply of the handler as one step, and those of InstallRule and RemoveRule to
  -- the call that the handler makes, or to the exception that it throws.
  pub handlers-Alone :
      (m : StorageMaster) (peer : String) (request : IntroduceRequest)
      (report : StorageChangeRequest) (wanted : InstallRuleRequest) (gone : RemoveRuleRequest)
      → Alone m (writes (introduce_sections peer request)) (introduce peer request m).1 (writes [])
        × Alone m
            (writes (change_sections report.storage_change))
            (storage_change report m)
            (writes [])
        × Alone m views m (answered (get_view m))
        × ((call : Outcome (String × InstallRuleRequest)) × Alone m
              (installs wanted)
              m
              (installed call)
            × ((s : S)
                → calls (λ uri q. ClientStub.install_rule T (of_uri uri) q) call s
                  ≡ install_rule T m wanted s))
        × ((call : Outcome (String × RemoveRuleRequest)) × Alone m
              (uninstalls gone)
              m
              (uninstalled call)
            × ((s : S)
                → calls (λ uri q. ClientStub.remove_rule T (of_uri uri) q) call s
                  ≡ remove_rule T m gone s))
  unfolding storage_change get_view view_files view_addresses install_rule remove_rule
  handlers-Alone m peer request report wanted gone =
      let handled = pass_all-handlers peer request report m in
      (
        subst (λ n. Alone m (writes (introduce_sections peer request)) n (writes [])) (handled.0)
            (writes-Alone (introduce_sections peer request) m),
        subst (λ n. Alone m (writes (change_sections report.storage_change)) n (writes []))
            (handled.1) (writes-Alone (change_sections report.storage_change) m),
        moves fills (moves (addresses (view_files m)) stops),
        (
          _,
          moves (finds_client wanted)
              (installs-Alone m wanted (get_peer_from_name m.peer_tracker wanted.client)),
          install_call wanted (get_peer_from_name m.peer_tracker wanted.client)
              (fill_in_rule m.peer_tracker wanted.rule),
        ),
        (
          _,
          moves (finds_owner gone) stops,
          removal_call gone (get_peer_from_name m.peer_tracker gone.client),
        ),
      )
