-- ===== src/Master/Views.antt =====
-- GetView: how its reply relates to the record of files and to the peers.
use programmable_caching.Base.{
  ℕ, String, Bool, false, none, some, List, [], ◌∷◌, ◌≡◌, ◌≢◌, refl, ◌||◌, ◌&&◌, ◌==◌, inl, inr,
  Option-cases, arith, eq_iff, All,
}
use programmable_caching.Base.Dict.{Dict, lookup, keys, get_or, UniqueKeys}
use programmable_caching.Base.Exec.{returns, faults, out_of_range, traverse}
use programmable_caching.Proto.Storage.{ManagerView, GetViewReply}
use programmable_caching.Master.Peers.{Peer, PeerTracker, set_view_uri, populate_uris}
use programmable_caching.Master.Files.{
  ManagerFileView, empty_files, view_messages, populate_views, populate_manager_view_reply,
}
use programmable_caching.Master.Files.Tracks.{tracks, holds}
use programmable_caching.Master.Known.{IsPeer, IsServable}
use programmable_caching.Master.Service.{StorageMaster, get_view}

-- The reply names the file at the manager.
unfoldable pub mentions : List String → String → Bool
mentions [] key = false
mentions (k ∷ rest) key = k == key || mentions rest key

unfoldable pub shows : List ManagerView → String → String → Bool
unfolding mentions
shows [] manager key = false
shows (view ∷ rest) manager key =
    (view.name == manager && mentions view.key key) || shows rest manager key

-- The view of a manager carries the address of the peer of its name.
abbrev pub IsAddressed : PeerTracker → ManagerView → Type 0
IsAddressed t view =
    (p : Peer) × (lookup view.name t.name_to_peer ≡ some p) × (view.uri ≡ p.rpc_uri)

-- A property of all recorded names holds of the names in the reply.
pub view_messages-names :
    (P : String → Type 0) (d : Dict ManagerFileView)
    → ((n : String) → lookup n d ≢ none → P n)
    → All (λ view. P view.name) (view_messages d)
unfolding view_messages populate_manager_view_reply lookup
view_messages-names P [] h = tt
view_messages-names P ((name, f) ∷ d) h = (
  h name (ground (arith, eq_iff name name)),
  view_messages-names P d (λ n present. h n (ground (arith, present, eq_iff name n))),
)

mentions-lookup :
    (d : Dict ℕ) (key : String) → mentions (keys d) key ≡ holds (record { file_keys = d }) key
unfolding mentions holds lookup
mentions-lookup [] key = refl
mentions-lookup ((k, n) ∷ d) key = ground (arith, mentions-lookup d key)

-- The reply that GetView gives, entry by entry.
abbrev Answer : PeerTracker → Dict ManagerFileView → Type 0
Answer t d =
    (views : List ManagerView) × (traverse (set_view_uri t) (view_messages d) ≡ returns views)
    × ((manager key : String) → shows views manager key ≡ holds (get_or manager empty_files d) key)
    × All (IsAddressed t) views

entry : String → ManagerFileView → Peer → ManagerView
entry name f p = record { name = name; uri = p.rpc_uri; key = keys f.file_keys }

holds-cons :
    (name : String) (f : ManagerFileView) (d : Dict ManagerFileView) (p : Peer)
    (views : List ManagerView) (manager key : String)
    → lookup name d ≡ none
    → shows views manager key ≡ holds (get_or manager empty_files d) key
    → shows (entry name f p ∷ views) manager key
      ≡ holds (get_or manager empty_files ((name, f) ∷ d)) key
unfolding shows holds get_or lookup entry
holds-cons name f d p views manager key fresh ih =
    ground (arith, eq_iff name manager, mentions-lookup f.file_keys key)

set_view_uri-entry :
    (t : PeerTracker) (name : String) (f : ManagerFileView) (p : Peer)
    → lookup name t.name_to_peer ≡ some p
    → set_view_uri t (populate_manager_view_reply f (record { name = name; uri = ""; key = [] }))
      ≡ returns (entry name f p)
unfolding set_view_uri populate_manager_view_reply entry
set_view_uri-entry t name f p e = rw e

peer_of :
    (t : PeerTracker) (name : String)
    → IsPeer t name
    → (p : Peer) × (lookup name t.name_to_peer ≡ some p)
peer_of t name h = elim (Option-cases (lookup name t.name_to_peer)) [
  | inl e ↦ absurd (h e)
  | inr (p, e) ↦ (p, e)
]

answer :
    (t : PeerTracker) (d : Dict ManagerFileView)
    → UniqueKeys d
    → ((n : String) → lookup n d ≢ none → IsPeer t n)
    → Answer t d
unfolding traverse view_messages shows get_or lookup holds entry
answer t [] u h = ([], refl, λ manager key. refl, tt)
answer t ((name, f) ∷ d) (fresh, u) h =
    let ih : Answer t d = answer t d u (λ n present. h n (ground (arith, present))) in
    let known : (p : Peer) × (lookup name t.name_to_peer ≡ some p) =
      peer_of t name (h name (ground (arith, eq_iff name name))) in
    (
      entry name f known.0 ∷ ih.0,
      rw (set_view_uri-entry t name f known.0 known.1, ih.1),
      λ manager key. holds-cons name f d known.0 ih.0 manager key fresh (ih.2 manager key),
      ((known.0, known.1, refl), ih.3),
    )

-- Where every recorded manager is a peer, GetView answers, its reply names a file at a manager
-- exactly if the master records it there, and gives each manager the address of its peer. The
-- reply names no client.
pub get_view-shows :
    (m : StorageMaster)
    → IsServable m
    → (reply : GetViewReply) × (get_view m ≡ returns reply)
      × ((manager key : String) → shows reply.view manager key ≡ tracks m.file_view manager key)
      × All (IsAddressed m.peer_tracker) reply.view
      × (reply.client ≡ [])
unfolding get_view populate_uris populate_views tracks
get_view-shows m h =
    let a = answer m.peer_tracker m.file_view.manager_views h.unique h.peers in
    (record { view = a.0; client = [] }, rw a.1, a.2, a.3, refl)

traverse-unknown :
    (t : PeerTracker) (d : Dict ManagerFileView) (n : String)
    → lookup n d ≢ none
    → lookup n t.name_to_peer ≡ none
    → traverse (set_view_uri t) (view_messages d) ≡ faults out_of_range
unfolding traverse view_messages lookup set_view_uri populate_manager_view_reply
traverse-unknown t [] n present missing = absurd (present refl)
traverse-unknown t ((name, f) ∷ d) n present missing =
    ground (arith, eq_iff name n, traverse-unknown t d n)

-- Where some recorded manager is no peer, GetView throws std::out_of_range.
pub get_view-unknown :
    (m : StorageMaster) (n : String)
    → lookup n m.file_view.manager_views ≢ none
    → lookup n m.peer_tracker.name_to_peer ≡ none
    → get_view m ≡ faults out_of_range
unfolding get_view populate_uris populate_views
get_view-unknown m n present missing =
    rw (traverse-unknown m.peer_tracker m.file_view.manager_views n present missing)
