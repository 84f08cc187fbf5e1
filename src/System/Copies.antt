-- ===== src/System/Copies.antt =====
-- CopyFrom between two managers of the system, and what it does when there is nothing to copy.
use programmable_caching.Base.{
  String, Bool, false, Option, some, inl, inr, ◌≡◌, refl, Option-cases, if◌then◌else◌, arith,
}
use programmable_caching.Base.Dict.{lookup}
use programmable_caching.Base.Exec.{returns}
use programmable_caching.Master.Files.Tracks.{same_pair}
use programmable_caching.Proto.Storage.{GetReply, PutRequest, CopyFromRequest}
use programmable_caching.Rpc.{Status, ok}
use programmable_caching.Storage.{StorageInterface}
use programmable_caching.Storage.Laws.{IsLawful}
use programmable_caching.Manager
use programmable_caching.Manager.{StorageManager}
use programmable_caching.System.{World, manager_get, manager_copy_from}
use programmable_caching.System.Stores.{
  stored, read_value, Runs, put_at, stored-put_at, manager_get-stored,
}

module _ {D : Type 0} (media : String → StorageInterface D) (contents : D → String → Option String)
    (lawful : (uri : String) → IsLawful (media uri) contents) where
  abbrev fetched : World D → CopyFromRequest → GetReply
  fetched w request = record {
    value = read_value (stored contents w.managers request.dst_uri request.key);
  }

  -- The call to the other manager changes nothing and reads the empty text where it finds nothing.
  fetch :
      (request : CopyFromRequest) (w : World D)
      → (s : Status) × (manager_get media request.dst_uri false (record { key = request.key }) w
          ≡ (returns (s, fetched w request), w))
  unfolding manager_get stored
  fetch request w = elim (Option-cases (lookup request.dst_uri w.managers)) [
    | inl e ↦ (Status.failed, rw (e, manager_get))
    | inr (m, e) ↦ (
      ok,
      manager_get-stored media contents lawful request.dst_uri false (record { key = request.key })
          w (λ n. ground (arith, e, n)),
    )
  ]

  -- The put to which a copy amounts.
  abbrev pub copied : World D → CopyFromRequest → PutRequest
  copied w request = record {
    key = request.key;
    value = read_value (stored contents w.managers request.dst_uri request.key);
  }

  pub manager_copy_from-put_at :
      (uri : String) (wait : Bool) (request : CopyFromRequest) (w : World D)
      → Runs uri w.managers
      → manager_copy_from media uri wait request w
        ≡ (returns ok, record w { managers = put_at media uri (copied w request) w.managers })
  unfolding manager_copy_from Manager.copy_from put_at Manager.put
  manager_copy_from-put_at uri wait request w h = elim (Option-cases (lookup uri w.managers)) [
    | inl e ↦ absurd (h e)
    | inr (m, e) ↦ rw (e, manager_copy_from, (fetch request w).1, put_at)
  ]

  -- CopyFrom at a manager that runs answers OK, stores there what a read of the file at the other
  -- manager gives, and changes no other stored value, and neither the master nor the clients. A file
  -- that the other manager does not have, or a manager that does not run, is copied as the empty
  -- text.
  pub copy_from-stored :
      (uri : String) (wait : Bool) (request : CopyFromRequest) (w : World D)
      → Runs uri w.managers
      → (v : World D) × (manager_copy_from media uri wait request w ≡ (returns ok, v))
        × ((j k : String)
            → stored contents v.managers j k ≡ (
                if same_pair uri request.key j k
                then some (read_value (stored contents w.managers request.dst_uri request.key))
                else stored contents w.managers j k))
        × (v.master ≡ w.master)
        × (v.clients ≡ w.clients)
  copy_from-stored uri wait request w h = (
    record w { managers = put_at media uri (copied w request) w.managers },
    manager_copy_from-put_at uri wait request w h,
    λ j k. stored-put_at media contents lawful uri (copied w request) w.managers j k h,
    refl,
    refl,
  )
