-- ===== src/Master/Peers.antt =====
-- StorageMaster::PeerTracker of storage_master.cc. The two maps share a peer through a
-- shared_ptr; no peer is changed after it is made, so the sharing is not seen.
use programmable_caching.Base.{String}
use programmable_caching.Base.Dict.{Dict, lookup, insert}
use programmable_caching.Base.Exec.{Outcome, returns, and_then, at, traverse}
use programmable_caching.Proto.Storage.{ManagerView, GetViewReply}

pub record Peer : Type 0 where
  pub name : String
  pub rpc_uri : String
  pub connection_uri : String

pub record PeerTracker : Type 0 where
  pub name_to_peer : Dict Peer
  pub connection_to_peer : Dict Peer

unfoldable pub get_peer_from_name : PeerTracker → String → Outcome Peer
get_peer_from_name t name = at (lookup name t.name_to_peer)

unfoldable pub get_peer_from_connection : PeerTracker → String → Outcome Peer
get_peer_from_connection t conn = at (lookup conn t.connection_to_peer)

unfoldable pub add_peer : PeerTracker → String → String → String → PeerTracker
add_peer t name rpc_uri connection_uri =
    let peer : Peer = record { name = name; rpc_uri = rpc_uri; connection_uri = connection_uri } in
    record {
      name_to_peer = insert name peer t.name_to_peer;
      connection_to_peer = insert connection_uri peer t.connection_to_peer;
    }

-- view.set_uri(name_to_peer_.at(view.name())->rpc_uri)
unfoldable pub set_view_uri : PeerTracker → ManagerView → Outcome ManagerView
set_view_uri t view =
    and_then (at (lookup view.name t.name_to_peer))
      λ peer. returns (record view { uri = peer.rpc_uri })

unfoldable pub populate_uris : PeerTracker → GetViewReply → Outcome GetViewReply
populate_uris t reply =
    and_then (traverse (set_view_uri t) reply.view) λ view. returns (record reply { view = view })
