-- ===== src/System/Starts.antt =====
-- The introduction that Start of a storage manager sends, and what the master makes of it.
use programmable_caching.Base.{
  String, true, Option, none, List, [], ◌∷◌, ◌≡◌, ◌≢◌, ◌↔◌, ◌==◌, refl, Has, arith, eq_iff,
  if◌then◌else◌,
}
use programmable_caching.Base.Exec.{returns}
use programmable_caching.Storage.{StorageInterface}
use programmable_caching.Storage.Laws.{IsLawful}
use programmable_caching.Manager.{StorageManager, file_ids, introduction, start}
use programmable_caching.Master.Files.Tracks.{tracks}
use programmable_caching.Master.Naming.{generate_name}
use programmable_caching.Master.Changes.{lists, tracks-introduce}
use programmable_caching.Master.Service as Master
use programmable_caching.System.{World, master_transport}

lists-file_ids :
    (keys : List String) (key : String) → (lists (file_ids keys) key ≡ true) ↔ Has key keys
unfolding lists file_ids
lists-file_ids [] key = (λ e. cc, λ h. absurd h)
lists-file_ids (k ∷ keys) key = ground (arith, eq_iff k key, lists-file_ids keys key)

module _ {D : Type 0} (media : String → StorageInterface D) (contents : D → String → Option String)
    (I : StorageInterface D) (lawful : IsLawful I contents) where
  tracks-started :
      (peer : String) (m : StorageManager D) (master : Master.StorageMaster) (name key : String)
      → tracks (Master.introduce peer (introduction I m) master).1.file_view name key ≡ (
          if generate_name (introduction I m) == name
          then lists (file_ids (I.get_all_keys m.storage []).1) key
          else tracks master.file_view name key)
  unfolding introduction
  tracks-started peer m master name key = tracks-introduce peer (introduction I m) master name key

  pub own_record :
      (peer : String) (m : StorageManager D) (master : Master.StorageMaster) (key : String)
      → (tracks
            (Master.introduce peer (introduction I m) master).1.file_view
            (generate_name (introduction I m))
            key
          ≡ true)
        ↔ (contents m.storage key ≢ none)
  own_record peer m master key =
      let name = generate_name (introduction I m) in
      let same = tracks-started peer m master name key in
      let listed = lists-file_ids (I.get_all_keys m.storage []).1 key in
      let present = lawful.has-keys m.storage key in
      (
        λ e. present.0 (listed.0 (ground (arith, e, same, eq_iff name name))),
        λ n. ground (arith, listed.1 (present.1 n), same, eq_iff name name),
      )

  pub other_record :
      (peer : String) (m : StorageManager D) (master : Master.StorageMaster) (name key : String)
      → generate_name (introduction I m) ≢ name
      → tracks (Master.introduce peer (introduction I m) master).1.file_view name key
        ≡ tracks master.file_view name key
  other_record peer m master name key differ =
      ground (
        arith,
        tracks-started peer m master name key,
        eq_iff (generate_name (introduction I m)) name,
      )

  -- Start of a manager over a lawful medium, up to the moment where it listens, succeeds; the
  -- manager takes the name that the master generates; afterwards the master records under that
  -- name exactly the keys of the medium, and under every other name what it recorded before;
  -- nothing changes in the system but the master.
  pub start-tracks :
      (peer : String) (m : StorageManager D) (w : World D)
      → (v : World D) × (start I (master_transport media peer) m w
          ≡ (returns (record m { name = generate_name (introduction I m) }), v))
        × ((key : String)
            → (tracks v.master.file_view (generate_name (introduction I m)) key ≡ true)
              ↔ (contents m.storage key ≢ none))
        × ((name key : String)
            → generate_name (introduction I m) ≢ name
            → tracks v.master.file_view name key ≡ tracks w.master.file_view name key)
        × (v ≡ record w { master = v.master })
  unfolding start introduction Master.introduce
  start-tracks peer m w = (
    record w { master = (Master.introduce peer (introduction I m) w.master).1 },
    refl,
    own_record peer m w.master,
    other_record peer m w.master,
    refl,
  )
