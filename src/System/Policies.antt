-- ===== src/System/Policies.antt =====
-- Rules that are installed through the storage master and then used at the storage client.
use programmable_caching.Base.{
  String, Bool, true, false, Option, none, some, List, [], ◌∷◌, ◌≡◌, ◌≢◌, ◌∙◌, ◌==◌, ◌&&◌, ◌||◌,
  refl, All, if◌then◌else◌, arith, eq_iff,
}
use programmable_caching.Base.Dict.{lookup}
use programmable_caching.Base.Exec.{returns}
use programmable_caching.Proto.Common.{Action, Manager, OperationType, put_action}
use programmable_caching.Proto.Storage.{InstallRuleRequest}
use programmable_caching.Rpc.{Stub, ok}
use programmable_caching.Rpc.MasterStub
use programmable_caching.Storage.{StorageInterface}
use programmable_caching.Storage.Laws.{IsLawful}
use programmable_caching.Master.Peers.{Peer, get_peer_from_name}
use programmable_caching.Master.Files.Tracks.{tracks}
use programmable_caching.Master.Rules.{Resolves, addressed, all_with_addresses}
use programmable_caching.Client.RuleDb.{get_matching_rule}
use programmable_caching.Client.Service.{StorageClient}
use programmable_caching.System.{World, master_transport, client_put, client_get}
use programmable_caching.System.Stores.{stored, Runs}
use programmable_caching.System.Writes.{IsServed, targets, names, client_put-writes}
use programmable_caching.System.Relocations.{copy_to, remove_at_manager, read_at, get-moves}
use programmable_caching.System.Installs.{addressed_rule, install_rule-arrives}

module _ {D : Type 0} (w : World D) where
  -- The peer of a name, whose manager runs.
  abbrev pub IsManagerPeer : String → Peer → Type 0
  IsManagerPeer name q =
      (lookup name w.master.peer_tracker.name_to_peer ≡ some q) × Runs q.rpc_uri w.managers

  -- A put action of the key, at a manager that is a peer and runs.
  abbrev pub PutsAt : String → Action → Type 0
  PutsAt key (put_action a) = (a.key ≡ key) × (q : Peer) × IsManagerPeer a.mgr.name q
  PutsAt key _ = ⊥

  PutsAt-Resolves :
      (key : String) (actions : List Action)
      → All (PutsAt key) actions
      → All (Resolves w.master.peer_tracker) actions
  PutsAt-Resolves key [] h = tt
  PutsAt-Resolves key (put_action a ∷ rest) ((same, q, (found, runs)), hs) =
      (λ e. cc, PutsAt-Resolves key rest hs)
  PutsAt-Resolves key (_ ∷ rest) h = absurd h.0

  PutsAt-IsServed :
      (media : String → StorageInterface D) (key : String) (actions : List Action)
      → All (PutsAt key) actions
      → All (IsServed media w.managers key) (all_with_addresses w.master.peer_tracker actions)
  unfolding all_with_addresses
  PutsAt-IsServed media key [] h = tt
  PutsAt-IsServed media key (put_action a ∷ rest) ((same, q, (found, runs)), hs) =
      ((same, rw found runs), PutsAt-IsServed media key rest hs)
  PutsAt-IsServed media key (_ ∷ rest) h = absurd h.0

  names-all_with_addresses :
      (key : String) (actions : List Action) (m : String)
      → All (PutsAt key) actions
      → names (all_with_addresses w.master.peer_tracker actions) m ≡ names actions m
  unfolding names all_with_addresses
  names-all_with_addresses key [] m h = refl
  names-all_with_addresses key (put_action a ∷ rest) m h =
      rw (names-all_with_addresses key rest m h.1)
  names-all_with_addresses key (_ ∷ rest) m h = absurd h.0

-- The request of the scheduler for a rule.
abbrev pub rule_for : String → OperationType → String → List Action → InstallRuleRequest
rule_for client op key actions = record {
  client = client;
  rule = record { op_type = op; key = key; action = actions };
}

module _ {D : Type 0} (media : String → StorageInterface D) (contents : D → String → Option String)
    (lawful : (uri : String) → IsLawful (media uri) contents) (peer : String) (stub : Stub)
    (client key : String) (w : World D) (p : Peer) (c : StorageClient) (wait : Bool) where
  -- InstallRule at the master of a rule for writing a key, of put actions of the key at managers that
  -- are peers and run, for a client that is a peer and listens, and then Put of the key at that
  -- client: both answer OK; the value is stored at the address of the peer of every manager that the
  -- rule names, and no other value changes; the master records the key at every manager that the
  -- rule names, and no other record changes.
  pub install-put :
      (value : String) (actions : List Action)
      → get_peer_from_name w.master.peer_tracker client ≡ returns p
      → lookup p.rpc_uri w.clients ≡ some c
      → All (PutsAt w key) actions
      → (v : World D) × (u : World D) × (MasterStub.install_rule
            (master_transport media peer)
            stub
            (rule_for client OperationType.put key actions)
            w
          ≡ (returns ok, v))
        × (client_put media p.rpc_uri wait (record { key = key; value = value }) v
            ≡ (returns ok, u))
        × ((j k : String)
            → stored contents u.managers j k ≡ (
                if key == k && targets (all_with_addresses w.master.peer_tracker actions) j
                then some value
                else stored contents w.managers j k))
        × ((m k : String)
            → tracks u.master.file_view m k
              ≡ ((key == k && names actions m) || tracks w.master.file_view m k))
  install-put value actions known listens puts =
      let (v, d, installed, now, rules, managers, master, same, others) =
        install_rule-arrives media peer stub (rule_for client OperationType.put key actions) w p c
          known listens (PutsAt-Resolves w key actions puts) in
      let rule =
        addressed_rule w (record { op_type = OperationType.put; key = key; action = actions }) in
      let found : get_matching_rule d.rule_db key OperationType.put ≡ returns rule =
        ground (arith, rules key OperationType.put, eq_iff key key) in
      let (u, done, stores, records) =
        client_put-writes media contents lawful p.rpc_uri wait (record { key = key; value = value })
          v d rule now found (rw managers (PutsAt-IsServed w media key actions puts)) in
      (
        v,
        u,
        installed,
        done,
        λ j k. stores j k ∙ rw managers refl,
        λ m k. records m k ∙ rw (master, names-all_with_addresses w key actions m puts) refl,
      )

  -- InstallRule at the master of a rule for reading a key that moves the file from one manager to
  -- another and reads it there, both peers at addresses that differ, where they run, for a client
  -- that is a peer and listens, and then Get of the key at that client: both answer OK, Get with the
  -- value that the first manager stored; afterwards the other manager stores the value and the first
  -- does not, and the master records the key at the other and not at the first.
  pub install-get :
      (value : String) (receiver giver : Manager) (q_receiver q_giver : Peer)
      → get_peer_from_name w.master.peer_tracker client ≡ returns p
      → lookup p.rpc_uri w.clients ≡ some c
      → IsManagerPeer w receiver.name q_receiver
      → IsManagerPeer w giver.name q_giver
      → q_receiver.rpc_uri ≢ q_giver.rpc_uri
      → receiver.name ≢ giver.name
      → stored contents w.managers q_giver.rpc_uri key ≡ some value
      → (v : World D) × (u : World D) × (MasterStub.install_rule
            (master_transport media peer)
            stub
            (rule_for client OperationType.get key (
              copy_to key receiver giver ∷ remove_at_manager key giver ∷ read_at key receiver ∷ []))
            w
          ≡ (returns ok, v))
        × (client_get media p.rpc_uri wait (record { key = key }) v
            ≡ (returns (ok, record { value = value }), u))
        × (stored contents u.managers q_receiver.rpc_uri key ≡ some value)
        × (stored contents u.managers q_giver.rpc_uri key ≡ none)
        × (tracks u.master.file_view receiver.name key ≡ true)
        × (tracks u.master.file_view giver.name key ≡ false)
  unfolding all_with_addresses
  install-get value receiver giver q_receiver q_giver known listens (at_r, run_r) (at_g, run_g)
        apart differ has =
      let actions : List Action =
        copy_to key receiver giver ∷ remove_at_manager key giver ∷ read_at key receiver ∷ [] in
      let t = w.master.peer_tracker in
      let (v, d, installed, now, rules, managers, master, same, others) =
        install_rule-arrives media peer stub (rule_for client OperationType.get key actions) w p c
          known listens ((λ e. cc, λ e. cc), (λ e. cc, (λ e. cc, tt))) in
      let found : get_matching_rule d.rule_db key OperationType.get
          ≡ returns (
              addressed_rule w
                (record { op_type = OperationType.get; key = key; action = actions })) =
        ground (arith, rules key OperationType.get, eq_iff key key) in
      let to_r : (addressed t receiver).uri ≡ q_receiver.rpc_uri = rw at_r in
      let to_g : (addressed t giver).uri ≡ q_giver.rpc_uri = rw at_g in
      let (u, done, here, gone, recorded, forgotten) =
        get-moves media contents lawful key v (addressed t receiver) (addressed t giver) value
          p.rpc_uri wait d _ now found refl (rw (managers, to_r) run_r) (rw (managers, to_g) run_g)
          (rw (to_r, to_g) apart) differ (rw (managers, to_g) has) in
      (v, u, installed, done, rw to_r at here, rw to_g at gone, recorded, forgotten)
