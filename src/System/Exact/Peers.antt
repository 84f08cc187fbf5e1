-- ===== src/System/Exact/Peers.antt =====
-- The addresses that the master has for the managers that run.
use programmable_caching.Base.{
  String, none, some, ◌≡◌, ◌≢◌, ◌∙◌, ◌==◌, ◌⊎◌, inl, inr, refl, sym, ap, Bool-cases, List, [], ◌∷◌,
  All, arith, eq_iff,
}
use programmable_caching.Base.Dict.{lookup, lookup-insert}
use programmable_caching.Proto.Common.{
  Action, get_action, copy_from_action, remove_action, put_action, action_type_not_set,
}
use programmable_caching.Proto.Storage.{
  StorageManagerIntroduce, StorageClientIntroduce, ManagerView, storage_manager, storage_client,
}
use programmable_caching.Master.Peers.{Peer, PeerTracker, add_peer}
use programmable_caching.Master.Naming.{generate_name, generate_name-eq_iff}
use programmable_caching.Master.Known.{IsPeer, NamesPeers}
use programmable_caching.Master.Views.{IsAddressed}
use programmable_caching.Master.Recorded.{Names}

-- Names of peers in a report.
pub Names-NamesPeers :
    (P : String → Type 0) (t : PeerTracker) (changes : List Action)
    → ((n : String) → P n → IsPeer t n)
    → All (Names P) changes
    → All (NamesPeers t) changes
Names-NamesPeers P t [] f h = tt
Names-NamesPeers P t (get_action a ∷ rest) f h = (tt, Names-NamesPeers P t rest f h.1)
Names-NamesPeers P t (copy_from_action a ∷ rest) f h =
    ((f a.src_mgr.name h.0.0, f a.dst_mgr.name h.0.1), Names-NamesPeers P t rest f h.1)
Names-NamesPeers P t (remove_action a ∷ rest) f h =
    (f a.mgr.name h.0, Names-NamesPeers P t rest f h.1)
Names-NamesPeers P t (put_action a ∷ rest) f h = (f a.mgr.name h.0, Names-NamesPeers P t rest f h.1)
Names-NamesPeers P t (action_type_not_set ∷ rest) f h = (tt, Names-NamesPeers P t rest f h.1)

module _ (home : String → String) where
  -- The name is that of a manager, and its peer has the home of the name for an address.
  pub record IsKnown (t : PeerTracker) (n : String) : Type 0 where
    pub introduce : StorageManagerIntroduce
    pub named : n ≡ generate_name (storage_manager introduce)
    pub entry : Peer
    pub found : lookup n t.name_to_peer ≡ some entry
    pub at_home : entry.rpc_uri ≡ home n

  pub IsKnown-IsPeer : (t : PeerTracker) (n : String) → IsKnown t n → IsPeer t n
  IsKnown-IsPeer t n known absent = some-not-none (sym known.found ∙ absent)
    where
      some-not-none : {p : Peer} → some p ≢ none
      some-not-none e = cc

  add_peer-IsKnown_other :
      (t : PeerTracker) (name uri connection n : String)
      → name ≢ n
      → IsKnown t n
      → IsKnown (add_peer t name uri connection) n
  unfolding add_peer
  add_peer-IsKnown_other t name uri connection n differ known = record {
    introduce = known.introduce;
    named = known.named;
    entry = known.entry;
    found = ground (
      arith,
      known.found,
      differ,
      eq_iff name n,
      lookup-insert n name (record { name = name; rpc_uri = uri; connection_uri = connection })
          t.name_to_peer,
    );
    at_home = known.at_home;
  }

  -- A manager introduces itself with its home for an address.
  pub add_peer-IsKnown :
      (t : PeerTracker) (i : StorageManagerIntroduce) (uri connection n : String)
      → uri ≡ home (generate_name (storage_manager i))
      → ((generate_name (storage_manager i) ≡ n) ⊎ IsKnown t n)
      → IsKnown (add_peer t (generate_name (storage_manager i)) uri connection) n
  unfolding add_peer
  add_peer-IsKnown t i uri connection n homed h =
      let name = generate_name (storage_manager i) in
      elim (Bool-cases (name == n)) [
        | inl e ↦
            let same : name ≡ n = (eq_iff name n).0 e in
            let p : Peer = record { name = name; rpc_uri = uri; connection_uri = connection } in
            record {
              introduce = i;
              named = sym same;
              entry = p;
              found = lookup-insert n name p t.name_to_peer ∙ rw e refl;
              at_home = homed ∙ ap home same;
            }
        | inr e ↦
            let differ : name ≢ n = λ same. ground (arith, e, same, eq_iff name n) in
            elim h [
              | inl same ↦ absurd (differ same)
              | inr known ↦ add_peer-IsKnown_other t name uri connection n differ known
            ]
      ]

  -- A client introduces itself.
  pub add_client-IsKnown :
      (t : PeerTracker) (i : StorageClientIntroduce) (uri connection n : String)
      → IsKnown t n
      → IsKnown (add_peer t (generate_name (storage_client i)) uri connection) n
  add_client-IsKnown t i uri connection n known =
      add_peer-IsKnown_other t (generate_name (storage_client i)) uri connection n
        (λ same.
          (generate_name-eq_iff (storage_client i) (storage_manager known.introduce)).0
            (same ∙ known.named))
        known

  -- The addresses in a reply of GetView.
  pub at_home :
      (t : PeerTracker) (views : List ManagerView)
      → All (IsAddressed t) views
      → All (λ view. IsKnown t view.name) views
      → All (λ view. view.uri ≡ home view.name) views
  at_home t [] addressed known = tt
  at_home t (view ∷ rest) ((p, found, uri), addressed) (known, others) =
      (uri ∙ cc (found, known.found) ∙ known.at_home, at_home t rest addressed others)
