-- ===== src/Master/Runs.antt =====
-- The states that a storage master reaches by the calls that its handlers answer.
use programmable_caching.Base.{String, ◌≡◌, All}
use programmable_caching.Base.Exec.{returns}
use programmable_caching.Proto.Storage.{IntroduceRequest, StorageChangeRequest, GetViewReply}
use programmable_caching.Master.Files.Tracks.{tracks}
use programmable_caching.Master.Service.{
  StorageMaster, init, introduce, heartbeat, storage_change, get_view,
}
use programmable_caching.Master.Known.{
  IsServable, NamesPeers, init-IsServable, introduce-IsServable, storage_change-IsServable,
}
use programmable_caching.Master.Views.{shows, IsAddressed, get_view-shows}

-- A call that changes the state: an introduction from a connection, a report that names peers, or
-- a heartbeat. The other handlers leave the state as it is.
pub data Step (s t : StorageMaster) : Type 0 where
  introduces :
      (peer : String) (request : IntroduceRequest) → t ≡ (introduce peer request s).1 → Step s t
  reports :
      (request : StorageChangeRequest)
      → All (NamesPeers s.peer_tracker) request.storage_change
      → t ≡ storage_change request s
      → Step s t
  beats : t ≡ heartbeat s → Step s t

pub data Reach (s : StorageMaster) : StorageMaster → Type 0 where
  here : Reach s s
  next : {t u : StorageMaster} → Reach s t → Step t u → Reach s u

-- A master whose recorded managers are all peers, so that GetView answers, is again such a master
-- after an introduction from any connection, a report that names only peers, or a heartbeat.
Step-IsServable : (s t : StorageMaster) → Step s t → IsServable s → IsServable t
unfolding heartbeat
Step-IsServable s t (introduces peer request e) h = rw e (introduce-IsServable peer request s h)
Step-IsServable s t (reports request named e) h = rw e (storage_change-IsServable request s named h)
Step-IsServable s t (beats e) h = rw e h

Reach-IsServable : {s t : StorageMaster} → Reach s t → IsServable s → IsServable t
Reach-IsServable here h = h
Reach-IsServable (next {t = t} {u = u} reach step) h =
    Step-IsServable t u step (Reach-IsServable reach h)

-- In every state that a master reaches from its construction, by introductions, by reports that
-- name only peers and by heartbeats in any order, GetView answers, and its reply names a file at a
-- manager exactly if the master records it there, with the address of the peer of that name.
pub Reach-get_view :
    (hostname port : String) (s : StorageMaster)
    → Reach (init hostname port) s
    → (reply : GetViewReply) × (get_view s ≡ returns reply)
      × ((manager key : String) → shows reply.view manager key ≡ tracks s.file_view manager key)
      × All (IsAddressed s.peer_tracker) reply.view
Reach-get_view hostname port s reach =
    let shown = get_view-shows s (Reach-IsServable reach (init-IsServable hostname port)) in
    (shown.0, shown.1, shown.2, shown.3)
