-- ===== src/System/RedisCopies.antt =====
-- Managers over Redis: what is put there, read there and copied from there.
use programmable_caching.Base.{
  String, Bool, true, false, Option, some, inl, inr, ◌≡◌, ◌∙◌, refl, Option-cases, if◌then◌else◌,
  arith, eq_iff,
}
use programmable_caching.Base.Dict.{lookup, lookup-insert}
use programmable_caching.Base.Exec.{returns}
use programmable_caching.Master.Files.Tracks.{same_pair}
use programmable_caching.Proto.Storage.{PutRequest}
use programmable_caching.Rpc.{ok}
use programmable_caching.Storage.{StorageInterface}
use programmable_caching.Storage.Redis.{RedisServer, redis_interface, get, put}
use programmable_caching.Storage.Laws.{IsLawful}
use programmable_caching.Manager
use programmable_caching.Manager.{StorageManager}
use programmable_caching.System.{World, manager_get, manager_put, manager_copy_from}
use programmable_caching.System.Stores.{
  stored, Runs, put_at, Runs-put_at, manager_put-put_at, stored-put_at_lawful,
}

same_here :
    (uri key : String) (o : Option String)
    → (if same_pair uri key uri key then some "" else o) ≡ some ""
same_here uri key o = ground (arith, eq_iff uri uri, eq_iff key key)

module _ {D : Type 0} (media : String → StorageInterface D) (server : RedisServer D) (src : String)
    (redis : media src ≡ redis_interface server) where
  -- A read at a manager over Redis.
  manager_get-redis :
      (wait : Bool) (key : String) (w : World D)
      → Runs src w.managers
      → manager_get media src wait (record { key = key }) w
        ≡ (returns (ok, record { value = "" }), w)
  unfolding manager_get Manager.get get
  manager_get-redis wait key w h = elim (Option-cases (lookup src w.managers)) [
    | inl e ↦ absurd (h e)
    | inr (m, e) ↦ rw (e, manager_get, redis, get)
  ]

  manager_copy_from-redis :
      (uri : String) (wait : Bool) (key : String) (w : World D)
      → Runs src w.managers
      → Runs uri w.managers
      → manager_copy_from media uri wait (record { key = key; dst_uri = src }) w ≡ (
        returns ok,
        record w { managers = put_at media uri (record { key = key; value = "" }) w.managers },
      )
  unfolding manager_copy_from Manager.copy_from put_at Manager.put
  manager_copy_from-redis uri wait key w hs h = elim (Option-cases (lookup uri w.managers)) [
    | inl e ↦ absurd (h e)
    | inr (m, e) ↦ rw (e, manager_copy_from, manager_get-redis false key w hs, put_at)
  ]

  lookup-put_at :
      (request : PutRequest) (w : World D) (m : StorageManager D)
      → lookup src w.managers ≡ some m
      → (n : StorageManager D) × (lookup src (put_at media src request w.managers) ≡ some n)
        × (n.storage ≡ server.command_set m.storage request.key request.value)
  unfolding put_at Manager.put put
  lookup-put_at request w m e = (
    (Manager.put (media src) m request).1,
    rw e (
        ground (
          arith,
          eq_iff src src,
          lookup-insert src src (Manager.put (media src) m request).1 w.managers,
        )),
    rw redis refl,
  )

  -- The manager over Redis sends the value to its server with SET, and answers OK; CopyFrom at
  -- another manager, with a lawful medium, then answers OK and stores the empty text in its place,
  -- whatever value was put. A Get at the manager over Redis answers OK with the empty text.
  pub redis-empty_copies :
      (contents : D → String → Option String) (uri : String) (request : PutRequest) (w : World D)
      (m : StorageManager D)
      → IsLawful (media uri) contents
      → lookup src w.managers ≡ some m
      → Runs uri w.managers
      → (u v : World D) × (n : StorageManager D) × (manager_put media src true request w
          ≡ (returns ok, u))
        × (lookup src u.managers ≡ some n)
        × (n.storage ≡ server.command_set m.storage request.key request.value)
        × (manager_get media src true (record { key = request.key }) u
            ≡ (returns (ok, record { value = "" }), u))
        × (manager_copy_from media uri true (record { key = request.key; dst_uri = src }) u
            ≡ (returns ok, v))
        × (stored contents v.managers uri request.key ≡ some "")
  redis-empty_copies contents uri request w m lawful e h =
      let runs : Runs src w.managers = λ none_e. cc in
      let managers = put_at media src request w.managers in
      let runs_after = Runs-put_at media src src request w.managers runs in
      let uri_after = Runs-put_at media src uri request w.managers h in
      let put_there = lookup-put_at request w m e in
      (
        record w { managers = managers },
        record w {
          managers = put_at media uri (record { key = request.key; value = "" }) managers;
        },
        put_there.0,
        manager_put-put_at media src true request w runs,
        put_there.1,
        put_there.2,
        manager_get-redis true request.key (record w { managers = managers }) runs_after,
        manager_copy_from-redis uri true request.key (record w { managers = managers }) runs_after
            uri_after,
        stored-put_at_lawful media contents uri (record { key = request.key; value = "" }) managers
              uri request.key lawful uri_after
            ∙ same_here uri request.key _,
      )
