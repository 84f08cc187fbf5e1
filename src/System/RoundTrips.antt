-- ===== src/System/RoundTrips.antt =====
-- A file that is put at one storage client and got at another.
use programmable_caching.Base.{String, Bool, true, Option, some, [], ◌∷◌, ◌≡◌, All, arith, eq_iff}
use programmable_caching.Base.Dict.{Dict, lookup}
use programmable_caching.Base.Exec.{returns}
use programmable_caching.Proto.Common.{Rule, OperationType, GetAction, get_action}
use programmable_caching.Proto.Storage.{GetRequest, PutRequest}
use programmable_caching.Rpc.{ok}
use programmable_caching.Storage.{StorageInterface}
use programmable_caching.Storage.Laws.{IsLawful}
use programmable_caching.Manager.{StorageManager}
use programmable_caching.Master.Service as Master
use programmable_caching.Client.RuleDb.{get_matching_rule}
use programmable_caching.Client.Service.{StorageClient}
use programmable_caching.System.{World, client_put, client_get}
use programmable_caching.System.Stores.{stored, Runs}
use programmable_caching.System.Writes.{
  IsServed, targets, write_all, client_put-runs, stored-write_all,
}
use programmable_caching.System.Moves.{client_get-reads, prepare_all, reports}

module _ {D : Type 0} (media : String → StorageInterface D) (contents : D → String → Option String)
    (lawful : (uri : String) → IsLawful (media uri) contents) where
  stored-Runs :
      (managers : Dict (StorageManager D)) (uri key value : String)
      → stored contents managers uri key ≡ some value
      → Runs uri managers
  unfolding stored
  stored-Runs managers uri key value e absent = ground (arith, e, absent)

  -- Get at a client that runs, with a rule for the key whose only action gets the key at a manager
  -- that stores it: it answers OK with the value stored, and nothing changes.
  client_get-stored :
      (uri : String) (wait : Bool) (request : GetRequest) (w : World D) (c : StorageClient)
      (r : Rule) (a : GetAction) (value : String)
      → lookup uri w.clients ≡ some c
      → get_matching_rule c.rule_db request.key OperationType.get ≡ returns r
      → r.action ≡ get_action a ∷ []
      → a.key ≡ request.key
      → stored contents w.managers a.mgr.uri request.key ≡ some value
      → client_get media uri wait request w ≡ (returns (ok, record { value = value }), w)
  unfolding prepare_all reports Master.storage_change Master.apply_changes
  client_get-stored uri wait request w c r a value listens found shape same there = rw (
    client_get-reads media contents lawful uri wait request w c r [] a listens found shape same tt
        (stored-Runs w.managers a.mgr.uri request.key value there),
    same,
    there,
  )

  -- Put at a client that runs, with a rule for the key of put actions of the key at managers that
  -- run, and then Get at a client, the same or another, with a rule for the key whose only action
  -- gets the key at an address to which the first rule puts it: both answer OK, Get with the value
  -- that was put, and Get leaves the whole service as Put left it.
  pub client_get-client_put :
      (putter getter : String) (wait waits : Bool) (key value : String) (w : World D)
      (c d : StorageClient) (r q : Rule) (a : GetAction)
      → lookup putter w.clients ≡ some c
      → get_matching_rule c.rule_db key OperationType.put ≡ returns r
      → All (IsServed media w.managers key) r.action
      → lookup getter w.clients ≡ some d
      → get_matching_rule d.rule_db key OperationType.get ≡ returns q
      → q.action ≡ get_action a ∷ []
      → a.key ≡ key
      → targets r.action a.mgr.uri ≡ true
      → (v : World D) × (client_put media putter wait (record { key = key; value = value }) w
          ≡ (returns ok, v))
        × (client_get media getter waits (record { key = key }) v
            ≡ (returns (ok, record { value = value }), v))
  client_get-client_put putter getter wait waits key value w c d r q a puts found served gets wanted
        shape same meets =
      let request : PutRequest = record { key = key; value = value } in
      let managers = write_all media putter c request r.action w.managers in
      let v : World D = record w {
        managers = managers;
        master = Master.storage_change (record { storage_change = r.action }) w.master;
      } in
      let there : stored contents managers a.mgr.uri key ≡ some value = ground (
        arith,
        stored-write_all media putter c request contents lawful r.action w.managers a.mgr.uri key
            served,
        meets,
        eq_iff key key,
      ) in
      (
        v,
        client_put-runs media putter wait request w c r puts found served,
        client_get-stored getter waits (record { key = key }) v d q a value gets wanted shape same
            there,
      )
