-- ===== src/System/Installs.antt =====
-- A rule on its way from the scheduler through the storage master to the storage client.
use programmable_caching.Base.{
  String, some, inl, inr, ◌≡◌, ◌&&◌, ◌==◌, refl, All, arith, eq_iff, if◌then◌else◌,
}
use programmable_caching.Base.Dict.{lookup, insert, lookup-insert}
use programmable_caching.Base.Exec.{returns}
use programmable_caching.Proto.Common.{Rule, OperationType}
use programmable_caching.Proto.Storage.{InstallRuleRequest}
use programmable_caching.Rpc.{Stub, ok}
use programmable_caching.Rpc.MasterStub
use programmable_caching.Rpc.ClientStub
use programmable_caching.Storage.{StorageInterface}
use programmable_caching.Master.Peers.{Peer, get_peer_from_name}
use programmable_caching.Master.Rules.{Resolves, all_with_addresses, fill_in_rule_cases}
use programmable_caching.Master.Service as Master
use programmable_caching.Client.RuleDb.{
  RuleDb, add_rule, get_rule_key, get_matching_rule, has_matching_rule,
}
use programmable_caching.Client.RuleDb.Refines.{same_op, Refines, RuleMap, add_rule-Refines}
use programmable_caching.Client.Service as Client
use programmable_caching.Client.Service.{StorageClient}
use programmable_caching.System.{World, master_transport, client_install_rule}

-- Every database answers as the map of its lookups.
abbrev rules_of : RuleDb → RuleMap
rules_of db key op = lookup (get_rule_key key op) db.rules

rules_of-Refines : (db : RuleDb) → Refines db (rules_of db)
unfolding get_matching_rule has_matching_rule
rules_of-Refines db = record { finds = λ key op. refl; has = λ key op. refl }

get_matching_rule-add_rule :
    (db : RuleDb) (r : Rule) (key : String) (op : OperationType)
    → get_matching_rule (add_rule db r) key op
      ≡ (if same_op r.op_type op && r.key == key then returns r else get_matching_rule db key op)
unfolding get_matching_rule
get_matching_rule-add_rule db r key op =
    ground (arith, (add_rule-Refines db r (rules_of db) (rules_of-Refines db)).finds key op)

-- The rule with the addresses that the master fills in.
abbrev pub addressed_rule : {D : Type 0} → World D → Rule → Rule
addressed_rule w rule = record rule {
  action = all_with_addresses w.master.peer_tracker rule.action;
}

abbrev with_rule_at : {D : Type 0} → World D → StorageClient → Rule → StorageClient
with_rule_at w c rule = record c { rule_db = add_rule c.rule_db (addressed_rule w rule) }

module _ {D : Type 0} (media : String → StorageInterface D) where
  -- InstallRule at the master, for a client that is a peer and listens at the address at which it
  -- introduced itself, with a rule whose managers are all peers: it answers OK; afterwards the
  -- client finds the rule, with the addresses filled in, under the key and the operation of the
  -- rule, and under all others what it found before; the rest of the client, the other clients, the
  -- managers and the master stay as they were.
  pub install_rule-arrives :
      (peer : String) (stub : Stub) (request : InstallRuleRequest) (w : World D) (p : Peer)
      (c : StorageClient)
      → get_peer_from_name w.master.peer_tracker request.client ≡ returns p
      → lookup p.rpc_uri w.clients ≡ some c
      → All (Resolves w.master.peer_tracker) request.rule.action
      → (v : World D) × (d : StorageClient) × (MasterStub.install_rule
            (master_transport media peer)
            stub
            request
            w
          ≡ (returns ok, v))
        × (lookup p.rpc_uri v.clients ≡ some d)
        × ((key : String) (op : OperationType)
            → get_matching_rule d.rule_db key op ≡ (
                if same_op request.rule.op_type op && request.rule.key == key
                then returns (addressed_rule w request.rule)
                else get_matching_rule c.rule_db key op))
        × (v.managers ≡ w.managers)
        × (v.master ≡ w.master)
        × (d ≡ record c { rule_db = d.rule_db })
        × ((uri : String)
            → lookup uri v.clients ≡ (if p.rpc_uri == uri then some d else lookup uri w.clients))
  unfolding MasterStub.install_rule Master.install_rule client_install_rule Client.install_rule
      ClientStub.install_rule
  install_rule-arrives peer stub request w p c known listens resolves =
      elim (fill_in_rule_cases w.master.peer_tracker request.rule) [
        | inr (unknown, e) ↦ absurd (unknown resolves)
        | inl (h, filled) ↦ (
          record w { clients = insert p.rpc_uri (with_rule_at w c request.rule) w.clients },
          with_rule_at w c request.rule,
          rw (known, filled, listens, client_install_rule),
          ground (
            arith,
            lookup-insert p.rpc_uri p.rpc_uri (with_rule_at w c request.rule) w.clients,
            eq_iff p.rpc_uri p.rpc_uri,
          ),
          get_matching_rule-add_rule c.rule_db (addressed_rule w request.rule),
          refl,
          refl,
          refl,
          λ uri.
              ground (arith, lookup-insert uri p.rpc_uri (with_rule_at w c request.rule) w.clients),
        )
      ]
