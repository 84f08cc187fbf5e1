-- ===== src/Master/Interleaving.antt =====
-- Any number of handlers at work at once in the storage master, interleaved between the critical
-- sections that they pass.
pub mod Allowed
pub mod Fills
pub mod Safety
pub mod Alone
pub mod Handlers
use programmable_caching.Base.{String, Bool, true, false, List, [], ◌∷◌, ◌≡◌, ◌++◌, ◌&&◌, ◌||◌, All}
use programmable_caching.Base.Exec.{Outcome, returns, faults, and_then}
use programmable_caching.Proto.Common.{
  Action, Manager, CopyFromAction, get_action, copy_from_action, remove_action, put_action,
  action_type_not_set,
}
use programmable_caching.Proto.Storage.{
  IntroduceRequest, StorageChangeRequest, GetViewReply, InstallRuleRequest, RemoveRuleRequest,
}
use programmable_caching.Master.Peers.{Peer, PeerTracker, get_peer_from_name}
use programmable_caching.Master.Service.{StorageMaster, init, resolve, fill_in_action}
use programmable_caching.Master.Known.{IsPeer, NamesPeers}
use programmable_caching.Master.Rules.{Resolves}
use programmable_caching.Master.Atoms.{
  Section, adds_peer, pass, introduce_sections, change_sections, view_files, view_addresses,
}

-- A handler at work, by what it has left to do: sections of Introduce or StorageChange; GetView
-- before its first section, before its second with the reply so far, and with its outcome;
-- InstallRule before it looks up the client, in the loop of FillInRule with the client's address
-- and the actions done and left, in the middle of a copy, and with the call to the client that it
-- makes at the end; RemoveRule before it looks up the client, and with its call. AddPeer takes two
-- moves, between which a handler is adding: it holds the mutex of the peers and changes the maps.
-- GetPeerFromName takes no mutex, and a lookup in that time is a data race, whose outcome the
-- language leaves undefined: an undefined read, behind which the handler does nothing more. The
-- language then promises nothing of the other handlers either; here they go on.
pub data Handler : Type 0 where
  writes : (rest : List Section) → Handler
  adding : (name rpc_uri connection_uri : String) (rest : List Section) → Handler
  undefined_read : Handler
  views : Handler
  viewed : (reply : GetViewReply) → Handler
  answered : (outcome : Outcome GetViewReply) → Handler
  installs : (request : InstallRuleRequest) → Handler
  filling : (client_uri : String) (request : InstallRuleRequest) (done rest : List Action) → Handler
  half_filled :
      (client_uri : String) (request : InstallRuleRequest) (done : List Action)
      (copy : CopyFromAction) (rest : List Action)
      → Handler
  installed : (call : Outcome (String × InstallRuleRequest)) → Handler
  uninstalls : (request : RemoveRuleRequest) → Handler
  uninstalled : (call : Outcome (String × RemoveRuleRequest)) → Handler

-- InstallRule behind its GetPeerFromName(request->client()).
unfoldable pub client_found : InstallRuleRequest → Outcome Peer → Handler
client_found request (returns p) = filling p.rpc_uri request [] request.rule.action
client_found request (faults f) = installed (faults f)

module _ (client_uri : String) (request : InstallRuleRequest) (done : List Action) where
  -- An action behind the lookup of its manager.
  unfoldable pub action_filled : List Action → Outcome Action → Handler
  action_filled rest (returns a) = filling client_uri request (done ++ a ∷ []) rest
  action_filled rest (faults f) = installed (faults f)

  -- A copy behind the lookup of its source manager.
  unfoldable pub source_filled : CopyFromAction → List Action → Outcome Manager → Handler
  source_filled copy rest (returns src) =
      half_filled client_uri request done (record copy { src_mgr = src }) rest
  source_filled copy rest (faults f) = installed (faults f)

  -- A copy behind the lookup of its destination manager.
  unfoldable pub destination_filled : CopyFromAction → List Action → Outcome Manager → Handler
  destination_filled copy rest (returns dst) =
      filling client_uri request (done ++ copy_from_action (record copy { dst_mgr = dst }) ∷ [])
        rest
  destination_filled copy rest (faults f) = installed (faults f)

  -- The next lookup of the loop, or the call behind the loop.
  unfoldable pub fill_next : PeerTracker → List Action → Handler
  unfolding action_filled source_filled
  fill_next t [] =
      installed
        (returns (client_uri, record request { rule = record request.rule { action = done } }))
  fill_next t (copy_from_action copy ∷ rest) = source_filled copy rest (resolve t copy.src_mgr)
  fill_next t (get_action a ∷ rest) = action_filled rest (fill_in_action t (get_action a))
  fill_next t (remove_action a ∷ rest) = action_filled rest (fill_in_action t (remove_action a))
  fill_next t (put_action a ∷ rest) = action_filled rest (fill_in_action t (put_action a))
  fill_next t (action_type_not_set ∷ rest) =
      action_filled rest (fill_in_action t action_type_not_set)

-- The address that RemoveRule sends its request to.
unfoldable pub removal : RemoveRuleRequest → Outcome Peer → Outcome (String × RemoveRuleRequest)
removal request p = and_then p λ peer. returns (peer.rpc_uri, request)

-- The handler is in AddPeer.
abbrev pub is_adding : Handler → Bool
is_adding (adding _ _ _ _) = true
is_adding _ = false

abbrev pub any_adding : List Handler → Bool
any_adding [] = false
any_adding (h ∷ hs) = is_adding h || any_adding hs

-- The section is one of the file view, which has a mutex of its own.
abbrev pub changes_files : Section → Bool
changes_files (adds_peer _ _ _) = false
changes_files _ = true

-- The next move of the handler calls GetPeerFromName.
abbrev pub reads_peers : Handler → Bool
reads_peers (installs _) = true
reads_peers (filling _ _ _ []) = false
reads_peers (filling _ _ _ (action_type_not_set ∷ _)) = false
reads_peers (filling _ _ _ (_ ∷ _)) = true
reads_peers (half_filled _ _ _ _ _) = true
reads_peers (uninstalls _) = true
reads_peers _ = false

-- One handler moves on, where `busy` says whether some handler is in AddPeer.
pub data Move (m : StorageMaster) : Bool → Handler → StorageMaster → Handler → Type 0 where
  enters :
      (name rpc_uri connection_uri : String) (rest : List Section)
      → Move m false
          (writes (adds_peer name rpc_uri connection_uri ∷ rest))
          m
          (adding name rpc_uri connection_uri rest)
  leaves :
      {busy : Bool} (name rpc_uri connection_uri : String) (rest : List Section)
      → Move m busy
          (adding name rpc_uri connection_uri rest)
          (pass (adds_peer name rpc_uri connection_uri) m)
          (writes rest)
  passes :
      {busy : Bool} (s : Section) (rest : List Section)
      → changes_files s ≡ true
      → Move m busy (writes (s ∷ rest)) (pass s m) (writes rest)
  fills : {busy : Bool} → Move m busy views m (viewed (view_files m))
  addresses :
      (reply : GetViewReply) → Move m false (viewed reply) m (answered (view_addresses reply m))
  races : (h : Handler) → reads_peers h ≡ true → Move m true h m undefined_read
  finds_client :
      (request : InstallRuleRequest)
      → Move m false
          (installs request)
          m
          (client_found request (get_peer_from_name m.peer_tracker request.client))
  fills_in :
      {busy : Bool} (client_uri : String) (request : InstallRuleRequest) (done rest : List Action)
      → (busy && reads_peers (filling client_uri request done rest)) ≡ false
      → Move m busy
          (filling client_uri request done rest)
          m
          (fill_next client_uri request done m.peer_tracker rest)
  fills_destination :
      (client_uri : String) (request : InstallRuleRequest) (done : List Action)
      (copy : CopyFromAction) (rest : List Action)
      → Move m false (half_filled client_uri request done copy rest) m (
          destination_filled client_uri request done copy rest
            (resolve m.peer_tracker copy.dst_mgr))
  finds_owner :
      (request : RemoveRuleRequest)
      → Move m false
          (uninstalls request)
          m
          (uninstalled (removal request (get_peer_from_name m.peer_tracker request.client)))

-- Some handler of the list moves.
pub data Moves (m : StorageMaster) (busy : Bool)
    : List Handler → StorageMaster → List Handler → Type 0 where
  here :
      {h h' : Handler} {m' : StorageMaster} (rest : List Handler)
      → Move m busy h m' h'
      → Moves m busy (h ∷ rest) m' (h' ∷ rest)
  there :
      {hs hs' : List Handler} {m' : StorageMaster} (h : Handler)
      → Moves m busy hs m' hs'
      → Moves m busy (h ∷ hs) m' (h ∷ hs')

-- The master as it is made, calls that come in at any time, and moves of the handlers at work. A
-- report, and a rule, names only managers that are peers when it comes in, and the client of a rule
-- is a peer then.
pub data Reach (hostname port : String) : StorageMaster → List Handler → Type 0 where
  starts : Reach hostname port (init hostname port) []
  introduces :
      {m : StorageMaster} {hs : List Handler} (peer : String) (request : IntroduceRequest)
      → Reach hostname port m hs
      → Reach hostname port m (writes (introduce_sections peer request) ∷ hs)
  reports :
      {m : StorageMaster} {hs : List Handler} (request : StorageChangeRequest)
      → All (NamesPeers m.peer_tracker) request.storage_change
      → Reach hostname port m hs
      → Reach hostname port m (writes (change_sections request.storage_change) ∷ hs)
  asks :
      {m : StorageMaster} {hs : List Handler}
      → Reach hostname port m hs
      → Reach hostname port m (views ∷ hs)
  asks_install :
      {m : StorageMaster} {hs : List Handler} (request : InstallRuleRequest)
      → IsPeer m.peer_tracker request.client
      → All (Resolves m.peer_tracker) request.rule.action
      → Reach hostname port m hs
      → Reach hostname port m (installs request ∷ hs)
  asks_removal :
      {m : StorageMaster} {hs : List Handler} (request : RemoveRuleRequest)
      → IsPeer m.peer_tracker request.client
      → Reach hostname port m hs
      → Reach hostname port m (uninstalls request ∷ hs)
  moves :
      {m m' : StorageMaster} {hs hs' : List Handler}
      → Moves m (any_adding hs) hs m' hs'
      → Reach hostname port m hs
      → Reach hostname port m' hs'
