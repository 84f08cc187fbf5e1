-- ===== src/Master/Rules.antt =====
-- FillInRule and InstallRule: what reaches a storage client.
use programmable_caching.Base.{
  String, Option, none, some, List, [], ◌∷◌, ◌≡◌, refl, ◌⊎◌, inl, inr, Option-cases, All, arith,
}
use programmable_caching.Base.Dict.{lookup}
use programmable_caching.Base.Exec.{returns, faults, out_of_range, traverse}
use programmable_caching.Proto.Common.{
  Action, Rule, Manager, get_action, copy_from_action, remove_action, put_action,
  action_type_not_set,
}
use programmable_caching.Proto.Storage.{InstallRuleRequest}
use programmable_caching.Rpc.{RuleTransport, of_uri}
use programmable_caching.Rpc.ClientStub
use programmable_caching.Master.Peers.{Peer, PeerTracker, get_peer_from_name}
use programmable_caching.Master.Known.{IsPeer, NamesPeers}
use programmable_caching.Master.Service.{
  StorageMaster, resolve, fill_in_action, fill_in_rule, install_rule,
}

-- The address that the tracker has for a manager, or the one it came with.
abbrev address : Option Peer → String → String
address none uri = uri
address (some p) uri = p.rpc_uri

abbrev pub addressed : PeerTracker → Manager → Manager
addressed t mgr = record mgr { uri = address (lookup mgr.name t.name_to_peer) mgr.uri }

-- The action with the addresses of its managers, and all else as it was.
abbrev pub with_addresses : PeerTracker → Action → Action
with_addresses t (get_action a) = get_action (record a { mgr = addressed t a.mgr })
with_addresses t (copy_from_action a) =
    copy_from_action (record a { src_mgr = addressed t a.src_mgr; dst_mgr = addressed t a.dst_mgr })
with_addresses t (remove_action a) = remove_action (record a { mgr = addressed t a.mgr })
with_addresses t (put_action a) = put_action (record a { mgr = addressed t a.mgr })
with_addresses t action_type_not_set = action_type_not_set

unfoldable pub all_with_addresses : PeerTracker → List Action → List Action
all_with_addresses t [] = []
all_with_addresses t (a ∷ rest) = with_addresses t a ∷ all_with_addresses t rest

-- The managers that FillInRule looks up; it looks up that of a get action too.
abbrev pub Resolves : PeerTracker → Action → Type 0
Resolves t (get_action a) = IsPeer t a.mgr.name
Resolves t a = NamesPeers t a

abbrev pub FillsIn : PeerTracker → Action → Type 0
FillsIn t a =
    (Resolves t a × (fill_in_action t a ≡ returns (with_addresses t a)))
    ⊎ ((¬ Resolves t a) × (fill_in_action t a ≡ faults out_of_range))

pub resolve_cases :
    (t : PeerTracker) (mgr : Manager)
    → (IsPeer t mgr.name × (resolve t mgr ≡ returns (addressed t mgr)))
      ⊎ ((¬ IsPeer t mgr.name) × (resolve t mgr ≡ faults out_of_range))
unfolding resolve get_peer_from_name
resolve_cases t mgr = elim (Option-cases (lookup mgr.name t.name_to_peer)) [
  | inl e ↦ inr (λ h. h e, rw e)
  | inr (p, e) ↦ inl (λ n. ground (arith, e, n), rw e)
]

pub fill_in_action_cases : (t : PeerTracker) (a : Action) → FillsIn t a
unfolding fill_in_action
fill_in_action_cases t (get_action a) = elim (resolve_cases t a.mgr) [
  | inl (h, e) ↦ inl (h, rw e)
  | inr (h, e) ↦ inr (h, rw e)
]
fill_in_action_cases t (copy_from_action a) = elim (resolve_cases t a.src_mgr) [
  | inl (h, e) ↦ elim (resolve_cases t a.dst_mgr) [
    | inl (k, d) ↦ inl ((h, k), rw (e, d))
    | inr (k, d) ↦ inr (λ both. k both.1, rw (e, d))
  ]
  | inr (h, e) ↦ inr (λ both. h both.0, rw e)
]
fill_in_action_cases t (remove_action a) = elim (resolve_cases t a.mgr) [
  | inl (h, e) ↦ inl (h, rw e)
  | inr (h, e) ↦ inr (h, rw e)
]
fill_in_action_cases t (put_action a) = elim (resolve_cases t a.mgr) [
  | inl (h, e) ↦ inl (h, rw e)
  | inr (h, e) ↦ inr (h, rw e)
]
fill_in_action_cases t action_type_not_set = inl (tt, refl)

abbrev FillsInAll : PeerTracker → List Action → Type 0
FillsInAll t actions =
    (All (Resolves t) actions
      × (traverse (fill_in_action t) actions ≡ returns (all_with_addresses t actions)))
    ⊎ ((¬ All (Resolves t) actions) × (traverse (fill_in_action t) actions ≡ faults out_of_range))

fill_in_all_cases : (t : PeerTracker) (actions : List Action) → FillsInAll t actions
unfolding traverse all_with_addresses
fill_in_all_cases t [] = inl (tt, refl)
fill_in_all_cases t (a ∷ rest) = combine (fill_in_action_cases t a) (fill_in_all_cases t rest)
  where
    combine : FillsIn t a → FillsInAll t rest → FillsInAll t (a ∷ rest)
    combine (inl (h, e)) (inl (k, d)) = inl ((h, k), rw (e, d))
    combine (inl (h, e)) (inr (k, d)) = inr (λ all. k all.1, rw (e, d))
    combine (inr (h, e)) _ = inr (λ all. h all.0, rw e)

-- FillInRule gives every manager of every action the address of its peer and changes nothing else,
-- if all of them are peers; otherwise it throws std::out_of_range.
pub fill_in_rule_cases :
    (t : PeerTracker) (rule : Rule)
    → (All (Resolves t) rule.action
        × (fill_in_rule t rule
            ≡ returns (record rule { action = all_with_addresses t rule.action })))
      ⊎ ((¬ All (Resolves t) rule.action) × (fill_in_rule t rule ≡ faults out_of_range))
unfolding fill_in_rule
fill_in_rule_cases t rule = elim (fill_in_all_cases t rule.action) [
  | inl (h, e) ↦ inl (h, rw e)
  | inr (h, e) ↦ inr (h, rw e)
]

module _ {S : Type 0} (T : RuleTransport S) (m : StorageMaster) (request : InstallRuleRequest) where
  abbrev pub CanInstall : Type 0
  CanInstall =
      IsPeer m.peer_tracker request.client × All (Resolves m.peer_tracker) request.rule.action

  -- The request that goes on to the client.
  abbrev pub forwarded : InstallRuleRequest
  forwarded = record request {
    rule = record request.rule { action = all_with_addresses m.peer_tracker request.rule.action };
  }

  -- InstallRule sends the rule, with the addresses filled in, to the address at which the client
  -- introduced itself, and answers what that call answers, if the client and all managers of the
  -- rule are peers; otherwise it throws std::out_of_range, and no process sees a call.
  pub install_rule_cases :
      (s : S)
      → ((p : Peer) × CanInstall
          × (get_peer_from_name m.peer_tracker request.client ≡ returns p)
          × (install_rule T m request s ≡ ClientStub.install_rule T (of_uri p.rpc_uri) forwarded s))
        ⊎ ((¬ CanInstall) × (install_rule T m request s ≡ (faults out_of_range, s)))
  unfolding install_rule get_peer_from_name
  install_rule_cases s = elim (Option-cases (lookup request.client m.peer_tracker.name_to_peer)) [
    | inl e ↦ inr (λ h. h.0 e, rw e)
    | inr (p, e) ↦ elim (fill_in_rule_cases m.peer_tracker request.rule) [
      | inl (h, d) ↦ inl (p, (λ n. ground (arith, e, n), h), rw e, rw (e, d))
      | inr (h, d) ↦ inr (λ k. h k.1, rw (e, d))
    ]
  ]
