-- ===== src/System/Stores.antt =====
-- What the managers of the system hold, seen through the contents of their media.
pub mod Absence
use programmable_caching.Base.{
  String, Bool, true, Option, none, some, inl, inr, ◌≡◌, ◌≢◌, Option-cases, if◌then◌else◌, arith,
  eq_iff,
}
use programmable_caching.Base.Dict.{Dict, lookup, insert, lookup-insert}
use programmable_caching.Base.Exec.{returns, faults, blocked}
use programmable_caching.Master.Files.Tracks.{same_pair}
use programmable_caching.Proto.Storage.{GetRequest, PutRequest, RemoveRequest}
use programmable_caching.Rpc.{ok}
use programmable_caching.Storage.{StorageInterface}
use programmable_caching.Storage.Laws.{IsLawful}
use programmable_caching.Manager
use programmable_caching.Manager.{StorageManager}
use programmable_caching.System.{World, manager_get, manager_put, manager_remove}

module _ {D : Type 0} (contents : D → String → Option String) where
  -- The value of a key at the manager that listens on an address.
  abbrev at_manager : Option (StorageManager D) → String → Option String
  at_manager none key = none
  at_manager (some m) key = contents m.storage key

  unfoldable pub stored : Dict (StorageManager D) → String → String → Option String
  stored managers uri key = at_manager (lookup uri managers) key

-- What a read brings back: the empty text where there is no value.
abbrev pub read_value : Option String → String
read_value none = ""
read_value (some v) = v

module _ {D : Type 0} where
  abbrev pub Runs : String → Dict (StorageManager D) → Type 0
  Runs uri managers = lookup uri managers ≢ none

  pub Runs-insert :
      (uri j : String) (m : StorageManager D) (managers : Dict (StorageManager D))
      → Runs j managers
      → Runs j (insert uri m managers)
  Runs-insert uri j m managers h = ground (arith, lookup-insert j uri m managers)

module _ {D : Type 0} (media : String → StorageInterface D) where
  put_in :
      String
      → PutRequest
      → Option (StorageManager D)
      → Dict (StorageManager D)
      → Dict (StorageManager D)
  put_in uri request none managers = managers
  put_in uri request (some m) managers = insert uri (Manager.put (media uri) m request).1 managers

  -- The managers after a put at an address.
  unfoldable pub put_at : String → PutRequest → Dict (StorageManager D) → Dict (StorageManager D)
  unfolding put_in
  put_at uri request managers = put_in uri request (lookup uri managers) managers

  remove_in :
      String
      → RemoveRequest
      → Option (StorageManager D)
      → Dict (StorageManager D)
      → Dict (StorageManager D)
  remove_in uri request none managers = managers
  remove_in uri request (some m) managers =
      insert uri (Manager.remove (media uri) m request).1 managers

  -- The managers after a removal at an address.
  unfoldable pub remove_at :
      String → RemoveRequest → Dict (StorageManager D) → Dict (StorageManager D)
  unfolding remove_in
  remove_at uri request managers = remove_in uri request (lookup uri managers) managers

  pub manager_put-put_at :
      (uri : String) (wait : Bool) (request : PutRequest) (w : World D)
      → Runs uri w.managers
      → manager_put media uri wait request w
        ≡ (returns ok, record w { managers = put_at uri request w.managers })
  unfolding manager_put put_at
  manager_put-put_at uri wait request w h = elim (Option-cases (lookup uri w.managers)) [
    | inl e ↦ absurd (h e)
    | inr (m, e) ↦ rw (e, manager_put, put_at)
  ]

  -- A put at an address where no manager listens waits for ever, if it is told to wait.
  pub manager_put-blocks :
      (uri : String) (request : PutRequest) (w : World D)
      → lookup uri w.managers ≡ none
      → manager_put media uri true request w ≡ (faults blocked, w)
  unfolding manager_put
  manager_put-blocks uri request w e = rw (e, manager_put)

  pub manager_remove-remove_at :
      (uri : String) (wait : Bool) (request : RemoveRequest) (w : World D)
      → Runs uri w.managers
      → manager_remove media uri wait request w
        ≡ (returns ok, record w { managers = remove_at uri request w.managers })
  unfolding manager_remove remove_at
  manager_remove-remove_at uri wait request w h = elim (Option-cases (lookup uri w.managers)) [
    | inl e ↦ absurd (h e)
    | inr (m, e) ↦ rw (e, manager_remove, remove_at)
  ]

  pub Runs-put_at :
      (uri j : String) (request : PutRequest) (managers : Dict (StorageManager D))
      → Runs j managers
      → Runs j (put_at uri request managers)
  unfolding put_at
  Runs-put_at uri j request managers h = elim (Option-cases (lookup uri managers)) [
    | inl e ↦ rw e h
    | inr (m, e) ↦ rw e (Runs-insert uri j (Manager.put (media uri) m request).1 managers h)
  ]

  pub Runs-remove_at :
      (uri j : String) (request : RemoveRequest) (managers : Dict (StorageManager D))
      → Runs j managers
      → Runs j (remove_at uri request managers)
  unfolding remove_at
  Runs-remove_at uri j request managers h = elim (Option-cases (lookup uri managers)) [
    | inl e ↦ rw e h
    | inr (m, e) ↦ rw e (Runs-insert uri j (Manager.remove (media uri) m request).1 managers h)
  ]

  module _ (contents : D → String → Option String) where
    pub stored-put_at_lawful :
        (uri : String) (request : PutRequest) (managers : Dict (StorageManager D)) (j k : String)
        → IsLawful (media uri) contents
        → Runs uri managers
        → stored contents (put_at uri request managers) j k ≡ (
            if same_pair uri request.key j k
            then some request.value
            else stored contents managers j k)
    unfolding put_at stored Manager.put
    stored-put_at_lawful uri request managers j k lawful h =
        elim (Option-cases (lookup uri managers)) [
          | inl e ↦ absurd (h e)
          | inr (m, e) ↦ rw e (
              ground (
                arith,
                e,
                eq_iff uri j,
                lookup-insert j uri (Manager.put (media uri) m request).1 managers,
                lawful.contents-put m.storage request.key request.value k,
              ))
        ]

  module _ (contents : D → String → Option String)
      (lawful : (uri : String) → IsLawful (media uri) contents) where
    pub stored-put_at :
        (uri : String) (request : PutRequest) (managers : Dict (StorageManager D)) (j k : String)
        → Runs uri managers
        → stored contents (put_at uri request managers) j k ≡ (
            if same_pair uri request.key j k
            then some request.value
            else stored contents managers j k)
    stored-put_at uri request managers j k h =
        stored-put_at_lawful contents uri request managers j k (lawful uri) h

    pub stored-remove_at :
        (uri : String) (request : RemoveRequest) (managers : Dict (StorageManager D)) (j k : String)
        → Runs uri managers
        → stored contents (remove_at uri request managers) j k
          ≡ (if same_pair uri request.key j k then none else stored contents managers j k)
    unfolding remove_at stored Manager.remove
    stored-remove_at uri request managers j k h = elim (Option-cases (lookup uri managers)) [
      | inl e ↦ absurd (h e)
      | inr (m, e) ↦ rw e (
          ground (
            arith,
            e,
            eq_iff uri j,
            lookup-insert j uri (Manager.remove (media uri) m request).1 managers,
            (lawful uri).contents-remove m.storage request.key k,
          ))
    ]

    read_lem :
        (uri : String) (m : StorageManager D) (key : String)
        → ((media uri).get m.storage key "").1 ≡ read_value (contents m.storage key)
    read_lem uri m key = elim (Option-cases (contents m.storage key)) [
      | inl e ↦ rw (e, (lawful uri).get-none m.storage key "" e)
      | inr (v, e) ↦ rw (e, (lawful uri).get-some m.storage key "" v e)
    ]

    -- Get at a manager that runs reads what it stores, and the empty text for a missing key.
    pub manager_get-stored :
        (uri : String) (wait : Bool) (request : GetRequest) (w : World D)
        → Runs uri w.managers
        → manager_get media uri wait request w ≡ (
          returns (ok, record { value = read_value (stored contents w.managers uri request.key) }),
          w,
        )
    unfolding manager_get Manager.get stored
    manager_get-stored uri wait request w h = elim (Option-cases (lookup uri w.managers)) [
      | inl e ↦ absurd (h e)
      | inr (m, e) ↦ rw (e, manager_get, read_lem uri m request.key)
    ]
