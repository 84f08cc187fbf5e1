-- ===== src/System.antt =====
-- The storage service as a whole: one master, and the managers and clients by the address on which
-- each listens. gRPC is taken to bring a call to the server at the address; where none listens, a
-- call with wait_for_ready waits for ever and any other fails; an exception that leaves a handler
-- becomes a failed status. `media` gives the storage interface of the manager at each address.
pub mod Stores
pub mod Copies
pub mod RedisCopies
pub mod Writes
pub mod Stalls
pub mod Moves
pub mod RoundTrips
pub mod Relocations
pub mod Starts
pub mod Installs
pub mod Policies
pub mod Consistency
pub mod Exact
mod Tests
mod JoinTests
mod RunTests
mod PolicyTests
mod RoundTripTests
mod RedisTests
use programmable_caching.Base.{String, Bool, true, false, none, some}
use programmable_caching.Base.Dict.{Dict, lookup, insert}
use programmable_caching.Base.Exec.{Outcome, returns, faults, Exec, blocked, out_of_range, ◌>>=◌}
use programmable_caching.Proto.Storage.{
  GetRequest, GetReply, PutRequest, RemoveRequest, CopyFromRequest, InstallRuleRequest,
  RemoveRuleRequest, empty_view_reply,
}
use programmable_caching.Rpc.{
  Status, ok, failed, ManagerTransport, MasterTransport, RuleTransport, ClientTransport,
}
use programmable_caching.Storage.{StorageInterface}
use programmable_caching.Manager
use programmable_caching.Manager.{StorageManager}
use programmable_caching.Master.Service as Master
use programmable_caching.Master.Service.{StorageMaster}
use programmable_caching.Client.Service as Client
use programmable_caching.Client.Service.{StorageClient}

pub record World (D : Type 0) : Type 0 where
  pub master : StorageMaster
  pub managers : Dict (StorageManager D)
  pub clients : Dict StorageClient

-- A call to an address where no server listens.
abbrev pub unreachable : {S A : Type 0} → Bool → A → Exec S A
unreachable true a s = (faults blocked, s)
unreachable false a s = (returns a, s)

-- What the caller sees of a handler that throws.
abbrev pub caught : {S A : Type 0} → A → Outcome A × S → Outcome A × S
caught a (faults out_of_range, s) = (returns a, s)
caught a r = r

module _ {D : Type 0} (media : String → StorageInterface D) where
  abbrev keep_manager : {A : Type 0} → String → A × StorageManager D → World D → Outcome A × World D
  keep_manager uri (a, m) w = (returns a, record w { managers = insert uri m w.managers })

  unfoldable pub manager_get : String → Bool → GetRequest → Exec (World D) (Status × GetReply)
  unfolding Manager.get
  manager_get uri wait request w = elim (lookup uri w.managers) [
    | none ↦ unreachable wait (failed, record { value = "" }) w
    | some m ↦ (returns (Manager.get (media uri) m request), w)
  ]

  unfoldable pub manager_put : String → Bool → PutRequest → Exec (World D) Status
  unfolding Manager.put
  manager_put uri wait request w = elim (lookup uri w.managers) [
    | none ↦ unreachable wait failed w
    | some m ↦ keep_manager uri (Manager.put (media uri) m request) w
  ]

  unfoldable pub manager_remove : String → Bool → RemoveRequest → Exec (World D) Status
  unfolding Manager.remove
  manager_remove uri wait request w = elim (lookup uri w.managers) [
    | none ↦ unreachable wait failed w
    | some m ↦ keep_manager uri (Manager.remove (media uri) m request) w
  ]

  unfoldable pub manager_copy_from : String → Bool → CopyFromRequest → Exec (World D) Status
  unfolding Manager.copy_from
  manager_copy_from uri wait request w = elim (lookup uri w.managers) [
    | none ↦ unreachable wait failed w
    | some m ↦ (do r ← Manager.copy_from (media uri) manager_get m request; keep_manager uri r) w
  ]

  abbrev pub manager_transport : ManagerTransport (World D)
  manager_transport = record {
    send_put = manager_put;
    send_get = manager_get;
    send_remove = manager_remove;
    send_copy_from = manager_copy_from;
  }

  abbrev keep_client : String → Status × StorageClient → World D → Outcome Status × World D
  keep_client uri (s, c) w = (returns s, record w { clients = insert uri c w.clients })

  unfoldable pub client_install_rule : String → Bool → InstallRuleRequest → Exec (World D) Status
  unfolding Client.install_rule
  client_install_rule uri wait request w = elim (lookup uri w.clients) [
    | none ↦ unreachable wait failed w
    | some c ↦ keep_client uri (Client.install_rule c request) w
  ]

  unfoldable pub client_remove_rule : String → Bool → RemoveRuleRequest → Exec (World D) Status
  unfolding Client.remove_rule
  client_remove_rule uri wait request w = elim (lookup uri w.clients) [
    | none ↦ unreachable wait failed w
    | some c ↦ keep_client uri (Client.remove_rule c request) w
  ]

  abbrev pub rule_transport : RuleTransport (World D)
  rule_transport = record {
    send_install_rule = client_install_rule;
    send_remove_rule = client_remove_rule;
  }

  -- Calls to the one master, from the process at the address `peer`.
  abbrev pub master_transport : String → MasterTransport (World D)
  master_transport peer = record {
    send_introduce = λ uri wait request w.
        let (reply, m) = Master.introduce peer request w.master in
        (returns (ok, reply), record w { master = m });
    send_heartbeat = λ uri wait w. (returns ok, record w { master = Master.heartbeat w.master });
    send_storage_change = λ uri wait request w.
        (returns ok, record w { master = Master.storage_change request w.master });
    send_install_rule =
        λ uri wait request w. caught failed (Master.install_rule rule_transport w.master request w);
    send_remove_rule =
        λ uri wait request w. caught failed (Master.remove_rule rule_transport w.master request w);
    send_get_view = λ uri wait w. elim (Master.get_view w.master) [
      | returns reply ↦ (returns (ok, reply), w)
      | faults f ↦ caught (failed, empty_view_reply) (faults f, w)
    ];
  }

  unfoldable pub client_get : String → Bool → GetRequest → Exec (World D) (Status × GetReply)
  client_get uri wait request w = elim (lookup uri w.clients) [
    | none ↦ unreachable wait (failed, record { value = "" }) w
    | some c ↦ Client.get manager_transport (master_transport uri) c request w
  ]

  unfoldable pub client_put : String → Bool → PutRequest → Exec (World D) Status
  client_put uri wait request w = elim (lookup uri w.clients) [
    | none ↦ unreachable wait failed w
    | some c ↦ Client.put manager_transport (master_transport uri) c request w
  ]

  unfoldable pub client_remove : String → Bool → RemoveRequest → Exec (World D) Status
  client_remove uri wait request w = elim (lookup uri w.clients) [
    | none ↦ unreachable wait failed w
    | some c ↦ keep_client uri (Client.remove c request) w
  ]

  abbrev pub client_transport : ClientTransport (World D)
  client_transport = record {
    send_put = client_put;
    send_get = client_get;
    send_remove = client_remove;
  }
