-- ===== src/Master/Interleaving/Fills.antt =====
-- The lookups of InstallRule and RemoveRule, one by one, at a master that knows the names.
use programmable_caching.Base.{String, List, [], ◌∷◌, inl, inr, refl, All, Option-cases}
use programmable_caching.Base.Dict.{lookup}
use programmable_caching.Proto.Common.{
  Action, CopyFromAction, get_action, copy_from_action, remove_action, put_action,
  action_type_not_set,
}
use programmable_caching.Proto.Storage.{InstallRuleRequest, RemoveRuleRequest}
use programmable_caching.Master.Peers.{PeerTracker, get_peer_from_name}
use programmable_caching.Master.Service.{resolve, fill_in_action}
use programmable_caching.Master.Known.{IsPeer}
use programmable_caching.Master.Rules.{Resolves, resolve_cases, fill_in_action_cases}
use programmable_caching.Master.Interleaving.{
  uninstalled, client_found, action_filled, source_filled, destination_filled, fill_next, removal,
}
use programmable_caching.Master.Interleaving.Allowed.{IsFine}

pub client_found-IsFine :
    (t : PeerTracker) (request : InstallRuleRequest)
    → IsPeer t request.client
    → All (Resolves t) request.rule.action
    → IsFine t (client_found request (get_peer_from_name t request.client))
unfolding client_found get_peer_from_name
client_found-IsFine t request known h = elim (Option-cases (lookup request.client t.name_to_peer)) [
  | inl e ↦ absurd (known e)
  | inr (p, e) ↦ rw e h
]

pub removal-IsFine :
    (t : PeerTracker) (request : RemoveRuleRequest)
    → IsPeer t request.client
    → IsFine t (uninstalled (removal request (get_peer_from_name t request.client)))
unfolding removal get_peer_from_name
removal-IsFine t request known = elim (Option-cases (lookup request.client t.name_to_peer)) [
  | inl e ↦ absurd (known e)
  | inr (p, e) ↦ rw e refl
]

module _ (t : PeerTracker) (client_uri : String) (request : InstallRuleRequest)
    (done : List Action) where
  action_filled-IsFine :
      (a : Action) (rest : List Action)
      → Resolves t a
      → All (Resolves t) rest
      → IsFine t (action_filled client_uri request done rest (fill_in_action t a))
  unfolding action_filled
  action_filled-IsFine a rest known h = elim (fill_in_action_cases t a) [
    | inl (k, e) ↦ rw e h
    | inr (n, e) ↦ absurd (n known)
  ]

  pub destination_filled-IsFine :
      (copy : CopyFromAction) (rest : List Action)
      → IsPeer t copy.dst_mgr.name
      → All (Resolves t) rest
      → IsFine t (destination_filled client_uri request done copy rest (resolve t copy.dst_mgr))
  unfolding destination_filled
  destination_filled-IsFine copy rest known h = elim (resolve_cases t copy.dst_mgr) [
    | inl (k, e) ↦ rw e h
    | inr (n, e) ↦ absurd (n known)
  ]

  source_filled-IsFine :
      (copy : CopyFromAction) (rest : List Action)
      → Resolves t (copy_from_action copy)
      → All (Resolves t) rest
      → IsFine t (source_filled client_uri request done copy rest (resolve t copy.src_mgr))
  unfolding source_filled
  source_filled-IsFine copy rest known h = elim (resolve_cases t copy.src_mgr) [
    | inl (k, e) ↦ rw e (known.1, h)
    | inr (n, e) ↦ absurd (n known.0)
  ]

  pub fill_next-IsFine :
      (rest : List Action)
      → All (Resolves t) rest
      → IsFine t (fill_next client_uri request done t rest)
  unfolding fill_next
  fill_next-IsFine [] h = refl
  fill_next-IsFine (copy_from_action copy ∷ rest) h = source_filled-IsFine copy rest h.0 h.1
  fill_next-IsFine (get_action a ∷ rest) h = action_filled-IsFine (get_action a) rest h.0 h.1
  fill_next-IsFine (remove_action a ∷ rest) h = action_filled-IsFine (remove_action a) rest h.0 h.1
  fill_next-IsFine (put_action a ∷ rest) h = action_filled-IsFine (put_action a) rest h.0 h.1
  fill_next-IsFine (action_type_not_set ∷ rest) h =
      action_filled-IsFine action_type_not_set rest h.0 h.1
