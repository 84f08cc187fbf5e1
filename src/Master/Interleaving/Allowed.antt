-- ===== src/Master/Interleaving/Allowed.antt =====
-- Sections of the storage master that record files only under names of peers.
use programmable_caching.Base.{
  String, true, none, List, [], ◌∷◌, ◌≡◌, ◌≢◌, ◌⊎◌, inl, inr, refl, All, All-mono, arith, eq_iff,
}
use programmable_caching.Base.Dict.{lookup, insert, lookup-insert}
use programmable_caching.Base.Exec.{returned}
use programmable_caching.Proto.Common.{
  Action, get_action, copy_from_action, remove_action, put_action, action_type_not_set,
}
use programmable_caching.Proto.Storage.{
  IntroduceRequest, FileId, storage_manager, storage_client, introduce_not_set,
}
use programmable_caching.Master.Peers.{PeerTracker, add_peer}
use programmable_caching.Master.Files.{ManagerFileView}
use programmable_caching.Master.Service.{StorageMaster}
use programmable_caching.Master.Known.{IsPeer, NamesPeers}
use programmable_caching.Master.Rules.{Resolves}
use programmable_caching.Master.Atoms.{
  Section, adds_peer, adds_manager, adds_file, removes_file, introduce_sections, file_sections,
  change_sections, change_section,
}
use programmable_caching.Master.Interleaving.{
  Handler, writes, adding, undefined_read, views, viewed, answered, installs, filling, half_filled,
  installed, uninstalls, uninstalled,
}

-- Sections that record files only under known names, or names that they make known before.
abbrev pub Allowed : (String → Type 0) → List Section → Type 0
Allowed K [] = Unit
Allowed K (adds_peer name rpc_uri connection_uri ∷ rest) = Allowed (λ n. K n ⊎ (name ≡ n)) rest
Allowed K (adds_manager name ∷ rest) = K name × Allowed K rest
Allowed K (adds_file name key ∷ rest) = K name × Allowed K rest
Allowed K (removes_file name key ∷ rest) = K name × Allowed K rest

pub Allowed-mono :
    (K L : String → Type 0) (sections : List Section)
    → ((n : String) → K n → L n)
    → Allowed K sections
    → Allowed L sections
Allowed-mono K L [] f h = tt
Allowed-mono K L (adds_peer name rpc_uri connection_uri ∷ rest) f h =
    Allowed-mono (λ n. K n ⊎ (name ≡ n)) (λ n. L n ⊎ (name ≡ n)) rest
      (λ n k. elim k [ inl a ↦ inl (f n a) | inr e ↦ inr e ]) h
Allowed-mono K L (adds_manager name ∷ rest) f h = (f name h.0, Allowed-mono K L rest f h.1)
Allowed-mono K L (adds_file name key ∷ rest) f h = (f name h.0, Allowed-mono K L rest f h.1)
Allowed-mono K L (removes_file name key ∷ rest) f h = (f name h.0, Allowed-mono K L rest f h.1)

-- What holds of each handler at work.
abbrev pub IsFine : PeerTracker → Handler → Type 0
IsFine t (writes rest) = Allowed (IsPeer t) rest
IsFine t (adding name rpc_uri connection_uri rest) =
    Allowed (IsPeer t) (adds_peer name rpc_uri connection_uri ∷ rest)
IsFine t undefined_read = Unit
IsFine t views = Unit
IsFine t (viewed reply) = All (λ view. IsPeer t view.name) reply.view
IsFine t (answered outcome) = returned outcome ≡ true
IsFine t (installs request) = IsPeer t request.client × All (Resolves t) request.rule.action
IsFine t (filling client_uri request done rest) = All (Resolves t) rest
IsFine t (half_filled client_uri request done copy rest) =
    IsPeer t copy.dst_mgr.name × All (Resolves t) rest
IsFine t (installed call) = returned call ≡ true
IsFine t (uninstalls request) = IsPeer t request.client
IsFine t (uninstalled call) = returned call ≡ true

abbrev pub AllPeers : StorageMaster → Type 0
AllPeers m = (n : String) → lookup n m.file_view.manager_views ≢ none → IsPeer m.peer_tracker n

abbrev pub Grows : PeerTracker → PeerTracker → Type 0
Grows t t' = (n : String) → IsPeer t n → IsPeer t' n

Resolves-mono : (t t' : PeerTracker) (a : Action) → Grows t t' → Resolves t a → Resolves t' a
Resolves-mono t t' (get_action a) g h = g a.mgr.name h
Resolves-mono t t' (copy_from_action a) g h = (g a.src_mgr.name h.0, g a.dst_mgr.name h.1)
Resolves-mono t t' (remove_action a) g h = g a.mgr.name h
Resolves-mono t t' (put_action a) g h = g a.mgr.name h
Resolves-mono t t' action_type_not_set g h = tt

AllResolves-mono :
    (t t' : PeerTracker) (actions : List Action)
    → Grows t t'
    → All (Resolves t) actions
    → All (Resolves t') actions
AllResolves-mono t t' actions g =
    All-mono (Resolves t) (Resolves t') actions (λ a. Resolves-mono t t' a g)

pub IsFine-mono : (t t' : PeerTracker) (h : Handler) → Grows t t' → IsFine t h → IsFine t' h
IsFine-mono t t' (writes rest) g h = Allowed-mono (IsPeer t) (IsPeer t') rest g h
IsFine-mono t t' (adding name rpc_uri connection_uri rest) g h =
    Allowed-mono (IsPeer t) (IsPeer t') (adds_peer name rpc_uri connection_uri ∷ rest) g h
IsFine-mono t t' undefined_read g h = tt
IsFine-mono t t' views g h = tt
IsFine-mono t t' (viewed reply) g h =
    All-mono (λ view. IsPeer t view.name) (λ view. IsPeer t' view.name) reply.view
      (λ view. g view.name) h
IsFine-mono t t' (answered outcome) g h = h
IsFine-mono t t' (installs request) g h =
    (g request.client h.0, AllResolves-mono t t' request.rule.action g h.1)
IsFine-mono t t' (filling client_uri request done rest) g h = AllResolves-mono t t' rest g h
IsFine-mono t t' (half_filled client_uri request done copy rest) g h =
    (g copy.dst_mgr.name h.0, AllResolves-mono t t' rest g h.1)
IsFine-mono t t' (installed call) g h = h
IsFine-mono t t' (uninstalls request) g h = g request.client h
IsFine-mono t t' (uninstalled call) g h = h

pub AllFine-mono :
    (t t' : PeerTracker) (hs : List Handler) → Grows t t' → All (IsFine t) hs → All (IsFine t') hs
AllFine-mono t t' [] g h = tt
AllFine-mono t t' (x ∷ hs) g h = (IsFine-mono t t' x g h.0, AllFine-mono t t' hs g h.1)

pub add_peer-Grows :
    (t : PeerTracker) (name rpc_uri connection_uri n : String)
    → (IsPeer t n ⊎ (name ≡ n))
    → IsPeer (add_peer t name rpc_uri connection_uri) n
unfolding add_peer
add_peer-Grows t name rpc_uri connection_uri n h = ground (
  arith,
  h,
  eq_iff name n,
  lookup-insert n name (record { name = name; rpc_uri = rpc_uri; connection_uri = connection_uri })
      t.name_to_peer,
)

pub insert-AllPeers :
    (m : StorageMaster) (name : String) (f : ManagerFileView)
    → IsPeer m.peer_tracker name
    → AllPeers m
    → AllPeers (record m {
      file_view = record { manager_views = insert name f m.file_view.manager_views };
    })
insert-AllPeers m name f p h n present =
    ground (arith, p, h n, present, eq_iff name n, lookup-insert n name f m.file_view.manager_views)

file_sections-Allowed :
    (K : String → Type 0) (name : String) (files : List FileId)
    → K name
    → Allowed K (file_sections name files)
unfolding file_sections
file_sections-Allowed K name [] known = tt
file_sections-Allowed K name (f ∷ rest) known = (known, file_sections-Allowed K name rest known)

pub introduce_sections-Allowed :
    (K : String → Type 0) (peer : String) (request : IntroduceRequest)
    → Allowed K (introduce_sections peer request)
unfolding introduce_sections
introduce_sections-Allowed K peer (storage_manager i) =
    (inr refl, file_sections-Allowed _ _ i.file (inr refl))
introduce_sections-Allowed K peer (storage_client i) = tt
introduce_sections-Allowed K peer introduce_not_set = tt

pub change_sections-Allowed :
    (t : PeerTracker) (changes : List Action)
    → All (NamesPeers t) changes
    → Allowed (IsPeer t) (change_sections changes)
unfolding change_sections change_section
change_sections-Allowed t [] h = tt
change_sections-Allowed t (copy_from_action a ∷ rest) h =
    (h.0.0, (h.0.1, change_sections-Allowed t rest h.1))
change_sections-Allowed t (remove_action a ∷ rest) h = (h.0, change_sections-Allowed t rest h.1)
change_sections-Allowed t (put_action a ∷ rest) h = (h.0, change_sections-Allowed t rest h.1)
change_sections-Allowed t (get_action a ∷ rest) h = change_sections-Allowed t rest h.1
change_sections-Allowed t (action_type_not_set ∷ rest) h = change_sections-Allowed t rest h.1
