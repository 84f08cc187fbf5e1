-- ===== src/Master/Interleaving/Safety.antt =====
-- What holds of every handler at work in the storage master, in every interleaving.
use programmable_caching.Base.{
  String, Bool, true, false, ◌⊎◌, List, [], ◌∷◌, ◌≡◌, inl, inr, refl, All, Option-cases, Has,
}
use programmable_caching.Base.Dict.{lookup}
use programmable_caching.Base.Exec.{returns, returned, traverse}
use programmable_caching.Proto.Storage.{GetViewReply, ManagerView}
use programmable_caching.Master.Peers.{PeerTracker, set_view_uri, populate_uris}
use programmable_caching.Master.Files.{
  add_manager, add_file_to_manager, remove_file_from_manager, populate_views,
}
use programmable_caching.Master.Service.{StorageMaster}
use programmable_caching.Master.Known.{IsPeer}
use programmable_caching.Master.Atoms.{
  Section, adds_peer, adds_manager, adds_file, removes_file, pass, view_files, view_addresses,
}
use mathlib.Core.Path.{subst}
use programmable_caching.Master.Views.{view_messages-names}
use programmable_caching.Master.Interleaving.{
  Handler, undefined_read, viewed, answered, Move, enters, leaves, races, passes, fills, addresses,
  Moves, here, there, Reach, starts, introduces, reports, asks, moves, finds_client, fills_in,
  fills_destination, finds_owner, asks_install, asks_removal, installed, uninstalled,
}
use programmable_caching.Master.Interleaving.Allowed.{
  Allowed, Allowed-mono, IsFine, AllPeers, Grows, IsFine-mono, AllFine-mono, add_peer-Grows,
  insert-AllPeers, introduce_sections-Allowed, change_sections-Allowed,
}
use programmable_caching.Master.Interleaving.Fills.{
  client_found-IsFine, fill_next-IsFine, destination_filled-IsFine, removal-IsFine,
}

-- What a section does to the invariant.
record Passed (s : Section) (rest : List Section) (m : StorageMaster) : Type 0 where
  grows : Grows m.peer_tracker (pass s m).peer_tracker
  peers : AllPeers (pass s m)
  allowed : Allowed (IsPeer (pass s m).peer_tracker) rest

pass-Passed :
    (s : Section) (rest : List Section) (m : StorageMaster)
    → Allowed (IsPeer m.peer_tracker) (s ∷ rest)
    → AllPeers m
    → Passed s rest m
unfolding pass add_manager add_file_to_manager remove_file_from_manager
pass-Passed (adds_peer name rpc_uri connection_uri) rest m a h = record {
  grows = λ n p. add_peer-Grows m.peer_tracker name rpc_uri connection_uri n (inl p);
  peers =
      λ n present. add_peer-Grows m.peer_tracker name rpc_uri connection_uri n (inl (h n present));
  allowed = Allowed-mono _ _ rest (add_peer-Grows m.peer_tracker name rpc_uri connection_uri) a;
}
pass-Passed (adds_manager name) rest m a h = record {
  grows = λ n p. p;
  peers = insert-AllPeers m name _ a.0 h;
  allowed = a.1;
}
pass-Passed (adds_file name key) rest m a h = record {
  grows = λ n p. p;
  peers = insert-AllPeers m name _ a.0 h;
  allowed = a.1;
}
pass-Passed (removes_file name key) rest m a h = record {
  grows = λ n p. p;
  peers = insert-AllPeers m name _ a.0 h;
  allowed = a.1;
}

view_files-IsFine : (m : StorageMaster) → AllPeers m → IsFine m.peer_tracker (viewed (view_files m))
unfolding view_files populate_views
view_files-IsFine m h = view_messages-names (IsPeer m.peer_tracker) m.file_view.manager_views h

traverse-returned :
    (t : PeerTracker) (views : List ManagerView)
    → All (λ view. IsPeer t view.name) views
    → (vs : List ManagerView) × (traverse (set_view_uri t) views ≡ returns vs)
unfolding traverse set_view_uri
traverse-returned t [] h = ([], refl)
traverse-returned t (view ∷ rest) h = elim (Option-cases (lookup view.name t.name_to_peer)) [
  | inl e ↦ absurd (h.0 e)
  | inr (p, e) ↦
      let (vs, done) = traverse-returned t rest h.1 in
      (record view { uri = p.rpc_uri } ∷ vs, rw (e, done))
]

view_addresses-returned :
    (m : StorageMaster) (reply : GetViewReply)
    → IsFine m.peer_tracker (viewed reply)
    → returned (view_addresses reply m) ≡ true
unfolding view_addresses populate_uris
view_addresses-returned m reply h =
    let (vs, done) = traverse-returned m.peer_tracker reply.view h in rw done

-- The invariant of a master with handlers at work.
record Inv (m : StorageMaster) (hs : List Handler) : Type 0 where
  peers : AllPeers m
  fine : All (IsFine m.peer_tracker) hs

record Moved (m m' : StorageMaster) : Type 0 where
  grows : Grows m.peer_tracker m'.peer_tracker
  peers : AllPeers m'

Move-IsFine :
    {m m' : StorageMaster} {busy : Bool} {h h' : Handler}
    → Move m busy h m' h'
    → AllPeers m
    → IsFine m.peer_tracker h
    → Moved m m' × IsFine m'.peer_tracker h'
Move-IsFine (enters name rpc_uri connection_uri rest) peers fine =
    (record { grows = λ n p. p; peers = peers }, fine)
Move-IsFine {m = m} (leaves name rpc_uri connection_uri rest) peers fine =
    let p = pass-Passed (adds_peer name rpc_uri connection_uri) rest m fine peers in
    (record { grows = p.grows; peers = p.peers }, p.allowed)
Move-IsFine {m = m} (passes s rest files) peers fine =
    let p = pass-Passed s rest m fine peers in
    (record { grows = p.grows; peers = p.peers }, p.allowed)
Move-IsFine (races h reads) peers fine = (record { grows = λ n p. p; peers = peers }, tt)
Move-IsFine {m = m} fills peers fine =
    (record { grows = λ n p. p; peers = peers }, view_files-IsFine m peers)
Move-IsFine {m = m} (addresses reply) peers fine =
    (record { grows = λ n p. p; peers = peers }, view_addresses-returned m reply fine)
Move-IsFine {m = m} (finds_client request) peers fine = (
  record { grows = λ n p. p; peers = peers },
  client_found-IsFine m.peer_tracker request fine.0 fine.1,
)
Move-IsFine {m = m} (fills_in client_uri request done rest free) peers fine = (
  record { grows = λ n p. p; peers = peers },
  fill_next-IsFine m.peer_tracker client_uri request done rest fine,
)
Move-IsFine {m = m} (fills_destination client_uri request done copy rest) peers fine = (
  record { grows = λ n p. p; peers = peers },
  destination_filled-IsFine m.peer_tracker client_uri request done copy rest fine.0 fine.1,
)
Move-IsFine {m = m} (finds_owner request) peers fine =
    (record { grows = λ n p. p; peers = peers }, removal-IsFine m.peer_tracker request fine)

Moves-IsFine :
    {m : StorageMaster} {busy : Bool} {m' : StorageMaster} {hs hs' : List Handler}
    → Moves m busy hs m' hs'
    → AllPeers m
    → All (IsFine m.peer_tracker) hs
    → Moved m m' × All (IsFine m'.peer_tracker) hs'
Moves-IsFine {m = m} {m' = m'} (here rest move) peers fine =
    let (moved, h) = Move-IsFine move peers fine.0 in
    (moved, (h, AllFine-mono m.peer_tracker m'.peer_tracker rest moved.grows fine.1))
Moves-IsFine {m = m} {m' = m'} (there h move) peers fine =
    let (moved, hs) = Moves-IsFine move peers fine.1 in
    (moved, (IsFine-mono m.peer_tracker m'.peer_tracker h moved.grows fine.0, hs))

Reach-Inv :
    {hostname port : String} {m : StorageMaster} {hs : List Handler}
    → Reach hostname port m hs
    → Inv m hs
unfolding lookup
Reach-Inv starts = record { peers = λ n h. absurd (h refl); fine = tt }
Reach-Inv (introduces {m = m} peer request reach) =
    let inv = Reach-Inv reach in
    record {
      peers = inv.peers;
      fine = (introduce_sections-Allowed (IsPeer m.peer_tracker) peer request, inv.fine);
    }
Reach-Inv (reports {m = m} request named reach) =
    let inv = Reach-Inv reach in
    record {
      peers = inv.peers;
      fine = (change_sections-Allowed m.peer_tracker request.storage_change named, inv.fine);
    }
Reach-Inv (asks reach) =
    let inv = Reach-Inv reach in record { peers = inv.peers; fine = (tt, inv.fine) }
Reach-Inv (asks_install request client named reach) =
    let inv = Reach-Inv reach in record { peers = inv.peers; fine = ((client, named), inv.fine) }
Reach-Inv (asks_removal request client reach) =
    let inv = Reach-Inv reach in record { peers = inv.peers; fine = (client, inv.fine) }
Reach-Inv (moves move reach) =
    let inv = Reach-Inv reach in
    let (moved, fine) = Moves-IsFine move inv.peers inv.fine in
    record { peers = moved.peers; fine = fine }

-- The handler has not ended with an exception, or with an undefined read.
abbrev pub unfaulted : Handler → Bool
unfaulted (answered outcome) = returned outcome
unfaulted (installed call) = returned call
unfaulted (uninstalled call) = returned call
unfaulted undefined_read = false
unfaulted _ = true

IsFine-unfaulted :
    (t : PeerTracker) (h : Handler) → IsFine t h → (unfaulted h ≡ true) ⊎ (h ≡ undefined_read)
IsFine-unfaulted t (answered outcome) fine = inl fine
IsFine-unfaulted t (installed call) fine = inl fine
IsFine-unfaulted t (uninstalled call) fine = inl fine
IsFine-unfaulted t undefined_read fine = inr refl
IsFine-unfaulted t h fine = inl refl

-- Every handler of a list satisfies what all satisfy.
IsFine-of :
    (t : PeerTracker) (hs : List Handler) (h : Handler) → All (IsFine t) hs → Has h hs → IsFine t h
IsFine-of t [] h fine has = absurd has
IsFine-of t (x ∷ hs) h fine (inl e) = subst (IsFine t) e fine.0
IsFine-of t (x ∷ hs) h fine (inr later) = IsFine-of t hs h fine.1 later

-- However introductions, reports that name only peers when they come in, calls of GetView, and
-- calls of InstallRule and RemoveRule whose client, and whose rule's managers, are peers when they
-- come in, are interleaved between the critical sections of the storage master and the lookups of
-- peers, no handler ends with an exception: GetView answers, and InstallRule and RemoveRule come to
-- the call of the client, unless one of their lookups came in the middle of an AddPeer, whose mutex
-- it does not take, and was an undefined read.
pub Reach-unfaulted :
    {hostname port : String} {m : StorageMaster} {hs : List Handler}
    → Reach hostname port m hs
    → (h : Handler) → Has h hs
    → (unfaulted h ≡ true) ⊎ (h ≡ undefined_read)
Reach-unfaulted {m = m} {hs = hs} reach h has =
    IsFine-unfaulted m.peer_tracker h (IsFine-of m.peer_tracker hs h (Reach-Inv reach).fine has)
