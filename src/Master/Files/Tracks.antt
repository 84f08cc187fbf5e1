-- ===== src/Master/Files/Tracks.antt =====
-- The file view as the set of pairs of a manager and a file that it records.
use programmable_caching.Base.{
  ℕ, String, Bool, true, false, not, Option, none, some, [], refl, ◌≡◌, ◌&&◌, ◌||◌, ◌==◌, arith,
  eq_iff,
}
use programmable_caching.Base.Dict.{lookup, get_or, lookup-insert, lookup-erase, get_or-insert}
use programmable_caching.Master.Files.{
  ManagerFileView, StorageFileView, empty_files, add_file, remove_file, add_manager,
  add_file_to_manager, remove_file_from_manager,
}

abbrev found : Option ℕ → Bool
found none = false
found (some _) = true

unfoldable pub holds : ManagerFileView → String → Bool
holds f key = found (lookup key f.file_keys)

holds-add_file :
    (f : ManagerFileView) (k key : String) → holds (add_file f k) key ≡ (k == key || holds f key)
unfolding holds add_file
holds-add_file f k key = ground (arith, lookup-insert key k 0 f.file_keys)

holds-remove_file :
    (f : ManagerFileView) (k key : String)
    → holds (remove_file f k) key ≡ (not (k == key) && holds f key)
unfolding holds remove_file
holds-remove_file f k key = ground (arith, lookup-erase key k f.file_keys)

-- The master records the file at the manager.
unfoldable pub tracks : StorageFileView → String → String → Bool
unfolding holds
tracks v manager key = holds (get_or manager empty_files v.manager_views) key

pub tracks-empty :
    (v : StorageFileView) (manager key : String)
    → v.manager_views ≡ []
    → tracks v manager key ≡ false
unfolding tracks holds get_or lookup
tracks-empty v manager key e = rw e refl

abbrev pub same_pair : String → String → String → String → Bool
same_pair m k manager key = m == manager && k == key

module _ (v : StorageFileView) (m manager key : String) where
  abbrev now : ManagerFileView
  now = get_or m empty_files v.manager_views

  pub tracks-add_manager :
      tracks (add_manager v m) manager key ≡ (not (m == manager) && tracks v manager key)
  unfolding tracks add_manager lookup
  tracks-add_manager =
      ground (arith, get_or-insert manager m empty_files empty_files v.manager_views)

  pub tracks-add_file_to_manager :
      (k : String)
      → tracks (add_file_to_manager v m k) manager key
        ≡ (same_pair m k manager key || tracks v manager key)
  unfolding tracks add_file_to_manager
  tracks-add_file_to_manager k = ground (
    arith,
    eq_iff m manager,
    get_or-insert manager m empty_files (add_file now k) v.manager_views,
    holds-add_file now k key,
  )

  pub tracks-remove_file_from_manager :
      (k : String)
      → tracks (remove_file_from_manager v m k) manager key
        ≡ (not (same_pair m k manager key) && tracks v manager key)
  unfolding tracks remove_file_from_manager
  tracks-remove_file_from_manager k = ground (
    arith,
    eq_iff m manager,
    get_or-insert manager m empty_files (remove_file now k) v.manager_views,
    holds-remove_file now k key,
  )
