-- ===== src/System/Relocations.antt =====
-- Two rules for reading a file: one moves it from a manager to another first, one copies it.
use programmable_caching.Base.{
  String, Bool, true, false, Option, none, some, List, [], ◌∷◌, ◌++◌, ◌≡◌, ◌≢◌, refl, ap, ◌∙◌, ◌==◌,
  All, if◌then◌else◌, arith, eq_iff,
}
use programmable_caching.Base.Dict.{lookup}
use programmable_caching.Base.Exec.{returns}
use programmable_caching.Proto.Common.{
  Action, Rule, Manager, OperationType, get_action, copy_from_action, remove_action,
}
use programmable_caching.Rpc.{ok}
use programmable_caching.Storage.{StorageInterface}
use programmable_caching.Storage.Laws.{IsLawful}
use programmable_caching.Master.Files.Tracks.{tracks}
use programmable_caching.Master.Changes.{last_effect, tracks-storage_change}
use programmable_caching.Master.Service.{storage_change}
use programmable_caching.Client.RuleDb.{get_matching_rule}
use programmable_caching.Client.Service.{StorageClient}
use programmable_caching.System.{World, client_get}
use programmable_caching.System.Stores.{
  stored, read_value, Runs, Runs-put_at, stored-put_at, stored-remove_at,
}
use programmable_caching.System.Moves.{reports, prepare_all, IsRunnable, client_get-reads}

-- In a copy action the source manager is the one that receives the file.
abbrev pub copy_to : String → Manager → Manager → Action
copy_to key receiver giver =
    copy_from_action (record { key = key; src_mgr = receiver; dst_mgr = giver })

abbrev pub remove_at_manager : String → Manager → Action
remove_at_manager key mgr = remove_action (record { key = key; mgr = mgr })

abbrev pub read_at : String → Manager → Action
read_at key mgr = get_action (record { key = key; mgr = mgr })

module _ {D : Type 0} (media : String → StorageInterface D) (contents : D → String → Option String)
    (lawful : (uri : String) → IsLawful (media uri) contents) (key : String) (w : World D)
    (receiver giver : Manager) (value : String) where
  abbrev pub copying : List Action
  copying = copy_to key receiver giver ∷ []

  abbrev pub moving : List Action
  moving = copy_to key receiver giver ∷ remove_at_manager key giver ∷ []

  -- The system after the preparations of a Get and its report.
  abbrev after : List Action → World D
  after actions = record w {
    managers = prepare_all media contents lawful actions w.managers;
    master = storage_change (record { storage_change = reports actions }) w.master;
  }

  stored-copying :
      (j : String)
      → Runs receiver.uri w.managers
      → stored contents w.managers giver.uri key ≡ some value
      → stored contents (after copying).managers j key
        ≡ (if receiver.uri == j then some value else stored contents w.managers j key)
  unfolding prepare_all
  stored-copying j runs has = ground (
    arith,
    has,
    eq_iff key key,
    stored-put_at media contents lawful receiver.uri
        (record { key = key; value = read_value (stored contents w.managers giver.uri key) })
        w.managers j key runs,
  )

  stored-moving :
      (j : String)
      → Runs receiver.uri w.managers
      → Runs giver.uri w.managers
      → stored contents w.managers giver.uri key ≡ some value
      → stored contents (after moving).managers j key
        ≡ (if giver.uri == j then none else stored contents (after copying).managers j key)
  unfolding prepare_all
  stored-moving j runs gives has = ground (
    arith,
    eq_iff key key,
    stored-remove_at media contents lawful giver.uri (record { key = key }) (after copying).managers
        j key (Runs-put_at media receiver.uri giver.uri _ w.managers gives),
  )

  tracks-copying :
      (m : String)
      → tracks (after copying).master.file_view m key ≡ (
          if giver.name == m
          then false
          else if receiver.name == m
          then true
          else tracks w.master.file_view m key)
  unfolding reports last_effect
  tracks-copying m = ground (
    arith,
    eq_iff key key,
    tracks-storage_change (record { storage_change = copying }) w.master m key,
  )

  tracks-moving :
      (m : String)
      → tracks (after moving).master.file_view m key ≡ (
          if giver.name == m
          then false
          else if receiver.name == m
          then true
          else tracks w.master.file_view m key)
  unfolding reports last_effect
  tracks-moving m = ground (
    arith,
    eq_iff key key,
    tracks-storage_change (record { storage_change = moving }) w.master m key,
  )

  module _ (uri : String) (wait : Bool) (c : StorageClient) (r : Rule) where
    read_after :
        (actions : List Action)
        → lookup uri w.clients ≡ some c
        → get_matching_rule c.rule_db key OperationType.get ≡ returns r
        → r.action ≡ actions ++ read_at key receiver ∷ []
        → All (IsRunnable w.managers) actions
        → Runs receiver.uri w.managers
        → stored contents (after actions).managers receiver.uri key ≡ some value
        → client_get media uri wait (record { key = key }) w
          ≡ (returns (ok, record { value = value }), after actions)
    read_after actions e f shape runnable runs has =
        client_get-reads media contents lawful uri wait (record { key = key }) w c r actions
          (record { key = key; mgr = receiver }) e f shape refl runnable runs
        ∙ ap (λ o. (returns (ok, record { value = read_value o }), after actions)) has

    -- Get by a rule that copies the file from one manager to another, removes it at the first and
    -- reads it at the other, both running, with addresses and names that differ: it answers OK
    -- with the value; afterwards the other manager stores it and the first does not, and the
    -- master records it at the other manager and not at the first.
    pub get-moves :
        lookup uri w.clients ≡ some c
        → get_matching_rule c.rule_db key OperationType.get ≡ returns r
        → r.action ≡ moving ++ read_at key receiver ∷ []
        → Runs receiver.uri w.managers
        → Runs giver.uri w.managers
        → receiver.uri ≢ giver.uri
        → receiver.name ≢ giver.name
        → stored contents w.managers giver.uri key ≡ some value
        → (v : World D) × (client_get media uri wait (record { key = key }) w
            ≡ (returns (ok, record { value = value }), v))
          × (stored contents v.managers receiver.uri key ≡ some value)
          × (stored contents v.managers giver.uri key ≡ none)
          × (tracks v.master.file_view receiver.name key ≡ true)
          × (tracks v.master.file_view giver.name key ≡ false)
    get-moves e f shape runs gives apart distinct has =
        let received : stored contents (after moving).managers receiver.uri key ≡ some value =
          ground (
            arith,
            stored-moving receiver.uri runs gives has,
            stored-copying receiver.uri runs has,
            eq_iff giver.uri receiver.uri,
            eq_iff receiver.uri receiver.uri,
          ) in
        (
          after moving,
          read_after moving e f shape (runs, (gives, tt)) runs received,
          received,
          ground (arith, stored-moving giver.uri runs gives has, eq_iff giver.uri giver.uri),
          ground (
            arith,
            tracks-moving receiver.name,
            eq_iff giver.name receiver.name,
            eq_iff receiver.name receiver.name,
          ),
          ground (arith, tracks-moving giver.name, eq_iff giver.name giver.name),
        )

    -- Get by a rule that only copies the file and reads the copy, the receiver running: it answers
    -- OK with the value, and both managers store it; but the master no longer records it at the
    -- manager that it was copied from.
    pub get-copies :
        lookup uri w.clients ≡ some c
        → get_matching_rule c.rule_db key OperationType.get ≡ returns r
        → r.action ≡ copying ++ read_at key receiver ∷ []
        → Runs receiver.uri w.managers
        → stored contents w.managers giver.uri key ≡ some value
        → (v : World D) × (client_get media uri wait (record { key = key }) w
            ≡ (returns (ok, record { value = value }), v))
          × (stored contents v.managers receiver.uri key ≡ some value)
          × (stored contents v.managers giver.uri key ≡ some value)
          × (tracks v.master.file_view giver.name key ≡ false)
    get-copies e f shape runs has =
        let received : stored contents (after copying).managers receiver.uri key ≡ some value =
          ground (arith, stored-copying receiver.uri runs has, eq_iff receiver.uri receiver.uri) in
        (
          after copying,
          read_after copying e f shape (runs, tt) runs received,
          received,
          ground (arith, stored-copying giver.uri runs has),
          ground (arith, tracks-copying giver.name, eq_iff giver.name giver.name),
        )
