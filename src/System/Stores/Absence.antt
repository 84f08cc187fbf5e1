-- ===== src/System/Stores/Absence.antt =====
-- Addresses at which no manager listens.
use programmable_caching.Base.{String, none, inl, inr, ◌≡◌, Option-cases, arith, eq_iff}
use programmable_caching.Base.Dict.{Dict, lookup, lookup-insert}
use programmable_caching.Proto.Storage.{PutRequest, RemoveRequest}
use programmable_caching.Storage.{StorageInterface}
use programmable_caching.Manager
use programmable_caching.Manager.{StorageManager}
use programmable_caching.System.Stores.{Runs, put_at, remove_at}

module _ {D : Type 0} (media : String → StorageInterface D) where
  -- No manager comes to an address by a put at another.
  pub put_at-absent :
      (uri j : String) (request : PutRequest) (managers : Dict (StorageManager D))
      → Runs uri managers
      → lookup j managers ≡ none
      → lookup j (put_at media uri request managers) ≡ none
  unfolding put_at
  put_at-absent uri j request managers h absent = elim (Option-cases (lookup uri managers)) [
    | inl e ↦ absurd (h e)
    | inr (m, e) ↦ rw e (
        ground (
          arith,
          e,
          absent,
          lookup-insert j uri (Manager.put (media uri) m request).1 managers,
          eq_iff uri j,
        ))
  ]

  -- Nor by a removal.
  pub remove_at-absent :
      (uri j : String) (request : RemoveRequest) (managers : Dict (StorageManager D))
      → Runs uri managers
      → lookup j managers ≡ none
      → lookup j (remove_at media uri request managers) ≡ none
  unfolding remove_at
  remove_at-absent uri j request managers h absent = elim (Option-cases (lookup uri managers)) [
    | inl e ↦ absurd (h e)
    | inr (m, e) ↦ rw e (
        ground (
          arith,
          e,
          absent,
          lookup-insert j uri (Manager.remove (media uri) m request).1 managers,
          eq_iff uri j,
        ))
  ]
