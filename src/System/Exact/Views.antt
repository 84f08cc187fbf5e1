-- ===== src/System/Exact/Views.antt =====
-- What GetView answers in a storage service whose rules for reading do not copy.
use programmable_caching.Base.{String, true, Option, none, [], ◌≡◌, ◌≢◌, ◌↔◌, refl, All, arith}
use programmable_caching.Base.Dict.{Dict, lookup}
use programmable_caching.Base.Exec.{returns}
use programmable_caching.Proto.Storage.{GetViewReply}
use programmable_caching.Storage.{StorageInterface}
use programmable_caching.Storage.Laws.{IsLawful}
use programmable_caching.Master.Files.Tracks.{tracks-empty}
use programmable_caching.Master.Known.{init-IsServable}
use programmable_caching.Master.Recorded.{get_view-names}
use programmable_caching.Master.Views.{shows, get_view-shows}
use programmable_caching.Master.Service as Master
use programmable_caching.Client.Service.{StorageClient}
use programmable_caching.System.{World}
use programmable_caching.System.Stores.{stored}
use programmable_caching.System.Consistency.Reach.{Step}
use programmable_caching.System.Exact.Peers.{IsKnown, at_home}
use programmable_caching.System.Exact.Invariant.{IsRight}
use programmable_caching.System.Exact.Steps.{IsWithoutCopies, Step-IsRight}

module _ {D : Type 0} (media : String → StorageInterface D) (home : String → String) where
  -- The runs that are made of such steps.
  pub data Reach (w : World D) : World D → Type 0 where
    here : Reach w w
    next :
        {u v : World D}
        → Reach w u
        → (s : Step media home u v) → IsWithoutCopies media home s
        → Reach w v

module _ {D : Type 0} (media : String → StorageInterface D) (contents : D → String → Option String)
    (lawful : (uri : String) → IsLawful (media uri) contents) (home : String → String)
    (apart : (m n : String) → home m ≡ home n → m ≡ n) where
  start-IsRight :
      (hostname port : String) (clients : Dict StorageClient)
      → IsRight contents home
          (record { master = Master.init hostname port; managers = []; clients = clients })
  unfolding lookup stored
  start-IsRight hostname port clients = record {
    exact =
        λ m k. (λ recorded. cc (recorded, tracks-empty _ m k refl), λ there. absurd (there refl));
    recorded = λ n present. absurd (present refl);
    known = λ n runs. absurd (runs refl);
    servable = init-IsServable hostname port;
  }

  Reach-IsRight :
      (w v : World D) → Reach media home w v → IsRight contents home w → IsRight contents home v
  Reach-IsRight w v here h = h
  Reach-IsRight w v (next {u = u} reach s plain) h =
      Step-IsRight media contents lawful home apart u v s plain (Reach-IsRight w u reach h)

  -- Let each name have a home, an address of its own, and let the media be lawful. From a storage
  -- master as it is made, with clients and no managers, in every state that is reached by the
  -- steps here, GetView answers; its reply names a file at a manager exactly if the file is stored
  -- at the home of the name, and gives that home for the address of the manager. A step starts a
  -- manager over any medium, which then listens at its address, the home of the name that the master
  -- generates for it; starts a client, which then listens; brings a rule to a client or removes one
  -- there; is a Put by a rule of put actions of the key; or is a Get by a rule of removals with a get
  -- action of the key behind them. Every call of a step returns; no manager stops; the managers of
  -- the two rules run, and those that are written to stand at the homes of their names.
  pub Reach-shows-stored :
      (hostname port : String) (clients : Dict StorageClient) (v : World D)
      → Reach media home
          (record { master = Master.init hostname port; managers = []; clients = clients })
          v
      → (reply : GetViewReply) × (Master.get_view v.master ≡ returns reply)
        × ((m k : String)
            → (shows reply.view m k ≡ true) ↔ (stored contents v.managers (home m) k ≢ none))
        × All (λ view. view.uri ≡ home view.name) reply.view
  Reach-shows-stored hostname port clients v reach =
      let h = Reach-IsRight _ v reach (start-IsRight hostname port clients) in
      let (reply, given, shown, addressed, none_named) = get_view-shows v.master h.servable in
      (
        reply,
        given,
        (λ m k. ground (arith, shown m k, h.exact m k)),
        at_home home v.master.peer_tracker reply.view addressed (
            get_view-names (IsKnown home v.master.peer_tracker) v.master reply
              (λ n present. h.known n (h.recorded n present)) given),
      )
