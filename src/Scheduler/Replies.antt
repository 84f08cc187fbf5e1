-- ===== src/Scheduler/Replies.antt =====
-- The replies that the storage master gives to GetView, as ParseGetViewReply reads them.
use programmable_caching.Base.{String, List, [], ◌∷◌, ◌≡◌, ◌∙◌, refl, ap, All}
use programmable_caching.Base.Dict.{lookup}
use programmable_caching.Base.Exec.{returns, at}
use programmable_caching.Proto.Storage.{
  IntroduceRequest, StorageChangeRequest, ManagerView, GetViewReply,
}
use programmable_caching.Master.Peers.{PeerTracker}
use programmable_caching.Master.Service.{
  StorageMaster, init, introduce, storage_change, heartbeat, get_view,
}
use programmable_caching.Scheduler.Uri.{uri_to_hostname}
use programmable_caching.Scheduler.Names.{parsed-generate_name}
use programmable_caching.Scheduler.Parsing.{
  IsReadable, storage_name_of, keeper, parse_get_view_reply-keeper,
}
use programmable_caching.Scheduler.View.{
  SystemView, parsed, parse_get_view_reply, get_persistent_mgr_for_file,
}
use programmable_caching.Master.Known.{
  IsServable, NamesPeers, init-IsServable, introduce-IsServable, storage_change-IsServable,
}
use programmable_caching.Master.Recorded.{apply_changes-Records, get_view-names}
use programmable_caching.Master.Views.{IsAddressed, get_view-shows}
use programmable_caching.Scheduler.Reported.{
  IsDeclared, IsManagerName, Addresses, OfManagers, IsReported, introduce-IsReported,
}

readable :
    (t : PeerTracker) (views : List ManagerView)
    → Addresses t
    → All (λ view. IsManagerName view.name) views
    → All (IsAddressed t) views
    → All IsReadable views
readable t [] h names peers = tt
readable t (view ∷ views) h (named, names) ((p, found, same), peers) =
    let host = h view.name p found in
    (
      (
        host.0,
        named.0.storage_name,
        ap uri_to_hostname same ∙ host.1,
        ap storage_name_of named.2 ∙ parsed-generate_name named.0 ∙ ap parsed named.1,
      ),
      readable t views h names peers,
    )

-- A call that changes the state of a master: an introduction, of a manager with a storage name that
-- the enumeration declares or of another process, a report of actions at managers that
-- have introduced themselves, or a heartbeat.
pub data Step (s t : StorageMaster) : Type 0 where
  introduces :
      (peer : String) (request : IntroduceRequest)
      → IsDeclared request
      → t ≡ (introduce peer request s).1
      → Step s t
  reports :
      (request : StorageChangeRequest)
      → All (NamesPeers s.peer_tracker) request.storage_change
      → All OfManagers request.storage_change
      → t ≡ storage_change request s
      → Step s t
  beats : t ≡ heartbeat s → Step s t

pub data Reach (s : StorageMaster) : StorageMaster → Type 0 where
  here : Reach s s
  next : {t u : StorageMaster} → Reach s t → Step t u → Reach s u

Step-IsReported : (s t : StorageMaster) → Step s t → IsReported s → IsReported t
unfolding heartbeat storage_change
Step-IsReported s t (introduces peer request known e) h =
    rw e (introduce-IsReported peer request s known h)
Step-IsReported s t (reports request peers named e) h = rw e (record {
  managers =
      apply_changes-Records IsManagerName s.file_view request.storage_change named h.managers;
  addresses = h.addresses;
})
Step-IsReported s t (beats e) h = rw e h

Reach-IsReported : {s t : StorageMaster} → Reach s t → IsReported s → IsReported t
Reach-IsReported here h = h
Reach-IsReported (next {t = t} {u = u} reach step) h =
    Step-IsReported t u step (Reach-IsReported reach h)

Reach-IsServable : {s t : StorageMaster} → Reach s t → IsServable s → IsServable t
unfolding heartbeat
Reach-IsServable here h = h
Reach-IsServable (next {t = t} {u = u} reach (introduces peer request known e)) h =
    rw e (introduce-IsServable peer request t (Reach-IsServable reach h))
Reach-IsServable (next {t = t} {u = u} reach (reports request peers named e)) h =
    rw e (storage_change-IsServable request t peers (Reach-IsServable reach h))
Reach-IsServable (next {t = t} {u = u} reach (beats e)) h = rw e (Reach-IsServable reach h)

init-IsReported : (hostname port : String) → IsReported (init hostname port)
unfolding lookup
init-IsReported hostname port = record {
  managers = λ n h. absurd (h refl);
  addresses = λ n p e. cc;
}

-- In every state that a master reaches by introductions, those of managers with storage names that
-- the enumeration declares, by reports of actions at managers that
-- have introduced themselves and by heartbeats, GetView answers a reply that ParseGetViewReply of
-- any view takes without a fault; then the view finds for each file the last manager of the reply
-- that is not ephemeral and lists the file, or else the manager that it found before.
pub parse-get_view :
    (hostname port : String) (s : StorageMaster) (v : SystemView)
    → Reach (init hostname port) s
    → (reply : GetViewReply) × (w : SystemView) × (get_view s ≡ returns reply)
      × (parse_get_view_reply v reply ≡ returns w)
      × ((key : String)
          → get_persistent_mgr_for_file w key
            ≡ at (keeper v.ephemeral reply.view key (lookup key v.persistant_key_to_mgr)))
parse-get_view hostname port s v reach =
    let h = Reach-IsReported reach (init-IsReported hostname port) in
    let (reply, given, shown, addressed, none_named) =
      get_view-shows s (Reach-IsServable reach (init-IsServable hostname port)) in
    let names = get_view-names IsManagerName s reply h.managers given in
    let (w, ran, kept) =
      parse_get_view_reply-keeper v reply
        (readable s.peer_tracker reply.view h.addresses names addressed) (rw none_named tt) in
    (reply, w, given, ran, kept)
