-- ===== src/System/Exact/Invariant.antt =====
-- The runs of the storage service in which no Get copies, and what holds in all their states.
use programmable_caching.Base.{
  String, Option, inl, inr, List, ◌≡◌, ◌∙◌, ◌==◌, ◌⊎◌, sym, All, Bool-cases, arith, eq_iff,
}
use programmable_caching.Base.Dict.{Dict, insert, lookup-insert}
use programmable_caching.Proto.Common.{Action}
use programmable_caching.Storage.{StorageInterface}
use programmable_caching.Storage.Laws.{IsLawful}
use programmable_caching.Manager
use programmable_caching.Manager.{StorageManager, introduction}
use programmable_caching.Master.Naming.{generate_name}
use programmable_caching.Master.Known.{IsServable, introduce-IsServable, storage_change-IsServable}
use programmable_caching.Master.Recorded.{Records, Names, apply_changes-Records, introduce-Records}
use programmable_caching.Master.Service as Master
use programmable_caching.System.{World}
use programmable_caching.System.Stores.{Runs, Runs-insert}
use programmable_caching.System.Starts.{own_record, other_record}
use programmable_caching.System.Consistency.Stored.{stored-insert}
use programmable_caching.System.Exact.{IsExact, IsAtHome}
use programmable_caching.System.Exact.Peers.{
  IsKnown, IsKnown-IsPeer, add_peer-IsKnown, Names-NamesPeers,
}

module _ {D : Type 0} (contents : D → String → Option String) (home : String → String) where
  -- Records and stores agree, and the master can tell where each running manager is.
  pub record IsRight (w : World D) : Type 0 where
    pub exact : IsExact home contents w.master.file_view w.managers
    pub recorded : Records (IsAtHome home w.managers) w.master.file_view
    pub known : (n : String) → IsAtHome home w.managers n → IsKnown home w.master.peer_tracker n
    pub servable : IsServable w.master

  -- A world in which managers may have other files, and the master has been sent a report.
  abbrev pub changed : World D → Dict (StorageManager D) → List Action → World D
  changed w managers changes = record w {
    managers = managers;
    master = Master.storage_change (record { storage_change = changes }) w.master;
  }

  pub changed-IsRight :
      (w : World D) (managers : Dict (StorageManager D)) (changes : List Action)
      → IsRight w
      → All (Names (IsAtHome home w.managers)) changes
      → ((j : String) → Runs j w.managers → Runs j managers)
      → ((j : String) → Runs j managers → Runs j w.managers)
      → IsExact home contents (Master.apply_changes w.master.file_view changes) managers
      → IsRight (changed w managers changes)
  unfolding Master.storage_change
  changed-IsRight w managers changes h named keep back exact = record {
    exact = exact;
    recorded = λ n present. keep (home n) (
        apply_changes-Records (IsAtHome home w.managers) w.master.file_view changes named h.recorded
          n present);
    known = λ n runs. h.known n (back (home n) runs);
    servable =
        storage_change-IsServable (record { storage_change = changes }) w.master
          (Names-NamesPeers (IsAtHome home w.managers) w.master.peer_tracker changes
            (λ n runs. IsKnown-IsPeer home w.master.peer_tracker n (h.known n runs)) named)
          h.servable;
  }

  module _ (media : String → StorageInterface D)
      (lawful : (uri : String) → IsLawful (media uri) contents)
      (apart : (m n : String) → home m ≡ home n → m ≡ n) where
    -- A manager that has introduced itself and listens.
    abbrev pub joined : String → StorageManager D → World D → World D
    joined peer m w = record w {
      master =
          (Master.introduce peer (introduction (media (Manager.server_address m)) m) w.master).1;
      managers =
          insert (Manager.server_address m)
            (record m { name = generate_name (introduction (media (Manager.server_address m)) m) })
            w.managers;
    }

    module _ (peer : String) (m : StorageManager D) (w : World D)
        (homed : Manager.server_address m
          ≡ home (generate_name (introduction (media (Manager.server_address m)) m)))
        (h : IsRight w) where
      abbrev name : String
      name = generate_name (introduction (media (Manager.server_address m)) m)

      joined-IsExact :
          IsExact home contents (joined peer m w).master.file_view (joined peer m w).managers
      joined-IsExact n k =
          let address = Manager.server_address m in
          let n_file =
            own_record media contents (media address) (lawful address) peer m w.master k in
          let others =
            other_record media contents (media address) (lawful address) peer m w.master n k in
          let there =
            stored-insert media contents lawful home address (record m { name = name }) w.managers
              (home n) k in
          ground (
            arith,
            n_file,
            others,
            there,
            h.exact n k,
            apart name n,
            homed,
            eq_iff name n,
            eq_iff address (home n),
          )

      -- The manager runs that has joined, or ran before.
      ran :
          (n : String)
          → Runs (home n) (joined peer m w).managers
          → (name ≡ n) ⊎ Runs (home n) w.managers
      ran n runs = elim (Bool-cases (Manager.server_address m == home n)) [
        | inl e ↦ inl (apart name n (sym homed ∙ (eq_iff (Manager.server_address m) (home n)).0 e))
        | inr e ↦ inr (λ absent.
            runs (lookup-insert (home n) (Manager.server_address m) _ w.managers ∙ rw e absent))
      ]

      joined-Runs : Runs (home name) (joined peer m w).managers
      joined-Runs absent = ground (
        arith,
        absent,
        homed,
        eq_iff (Manager.server_address m) (home name),
        lookup-insert (home name) (Manager.server_address m) (record m { name = name }) w.managers,
      )

      Runs-joined :
          (n : String) → Runs (home n) w.managers → Runs (home n) (joined peer m w).managers
      Runs-joined n = Runs-insert (Manager.server_address m) (home n) _ w.managers

      pub joined-IsRight : IsRight (joined peer m w)
      unfolding Master.introduce introduction
      joined-IsRight = record {
        exact = joined-IsExact;
        recorded =
            introduce-Records (IsAtHome home (joined peer m w).managers) peer
              (introduction (media (Manager.server_address m)) m) w.master joined-Runs
              (λ n present. Runs-joined n (h.recorded n present));
        known = λ n runs.
            add_peer-IsKnown home w.master.peer_tracker _ _ peer n homed
              (elim (ran n runs) [ inl same ↦ inl same | inr before ↦ inr (h.known n before) ]);
        servable =
            introduce-IsServable peer (introduction (media (Manager.server_address m)) m) w.master
              h.servable;
      }
