-- ===== src/Scheduler/Reported.antt =====
-- What a storage master records and whom it knows, for the texts that a scheduler takes apart.
use programmable_caching.Base.{
  String, Option, none, some, ◌≡◌, ◌∙◌, refl, sym, ap, inl, inr, Bool-cases, ◌==◌, if◌then◌else◌,
}
use programmable_caching.Base.Dict.{lookup, lookup-insert}
use programmable_caching.Base.Text.{◌⧺◌, until_colon-some}
use programmable_caching.Base.Exec.{returns}
use programmable_caching.Proto.Common.{declared, Action}
use programmable_caching.Proto.Storage.{
  IntroduceRequest, StorageManagerIntroduce, storage_manager, storage_client, introduce_not_set,
}
use programmable_caching.Master.Peers.{Peer, PeerTracker, add_peer}
use programmable_caching.Master.Files.{StorageFileView}
use programmable_caching.Master.Naming.{generate_name}
use programmable_caching.Master.Service.{StorageMaster, introduce}
use programmable_caching.Master.Recorded.{Records, Names, NamesManager, introduce-Records}
use programmable_caching.Scheduler.Uri.{uri_to_hostname}

-- An introduction with a storage name that the enumeration declares, if it is one of a manager.
abbrev pub IsDeclared : IntroduceRequest → Type 0
IsDeclared (storage_manager i) = declared i.storage_name ≡ some i.storage_name
IsDeclared _ = Unit

-- The name that some manager gets by such an introduction.
abbrev pub IsManagerName : String → Type 0
IsManagerName name =
    (i : StorageManagerIntroduce) × IsDeclared (storage_manager i)
    × (name ≡ generate_name (storage_manager i))

-- An address with a host.
abbrev pub IsAddress : String → Type 0
IsAddress uri = (hostname : String) × (uri_to_hostname uri ≡ returns hostname)

abbrev pub NamesManagers : StorageFileView → Type 0
NamesManagers = Records IsManagerName

abbrev pub Addresses : PeerTracker → Type 0
Addresses t = (n : String) (p : Peer) → lookup n t.name_to_peer ≡ some p → IsAddress p.rpc_uri

host_port-IsAddress : (hostname port : String) → IsAddress (hostname ⧺ ":" ⧺ port)
unfolding uri_to_hostname
host_port-IsAddress hostname port = let (h, e) = until_colon-some hostname port in (h, rw e)

abbrev address_of : String → Option Peer → String
address_of uri none = uri
address_of uri (some p) = p.rpc_uri

add_peer-Addresses :
    (t : PeerTracker) (name hostname port connection : String)
    → Addresses t
    → Addresses (add_peer t name (hostname ⧺ ":" ⧺ port) connection)
unfolding add_peer
add_peer-Addresses t name hostname port connection h n p found =
    let uri = hostname ⧺ ":" ⧺ port in
    let q : Peer = record { name = name; rpc_uri = uri; connection_uri = connection } in
    let seen : (if name == n then some q else lookup n t.name_to_peer) ≡ some p =
      sym (lookup-insert n name q t.name_to_peer) ∙ found in
    elim (Bool-cases (name == n)) [
      | inl e ↦
          let same : uri ≡ p.rpc_uri = ap (address_of uri) (rw e at seen) in
          let known = host_port-IsAddress hostname port in
          (known.0, ap uri_to_hostname (sym same) ∙ known.1)
      | inr e ↦ h n p (rw e at seen)
    ]

-- The managers that a reported action names.
abbrev pub OfManagers : Action → Type 0
OfManagers = Names IsManagerName

-- A master that records only managers, and whose peers have addresses with a host.
pub record IsReported (m : StorageMaster) : Type 0 where
  pub managers : NamesManagers m.file_view
  pub addresses : Addresses m.peer_tracker

names_manager :
    (request : IntroduceRequest) → IsDeclared request → NamesManager IsManagerName request
names_manager (storage_manager i) known = (i, known, refl)
names_manager (storage_client i) known = tt
names_manager introduce_not_set known = tt

introduce-Addresses :
    (peer : String) (request : IntroduceRequest) (m : StorageMaster)
    → Addresses m.peer_tracker
    → Addresses (introduce peer request m).1.peer_tracker
unfolding introduce
introduce-Addresses peer (storage_manager i) m h =
    add_peer-Addresses m.peer_tracker _ i.rpc_hostname i.rpc_port peer h
introduce-Addresses peer (storage_client i) m h =
    add_peer-Addresses m.peer_tracker _ i.rpc_hostname i.rpc_port peer h
introduce-Addresses peer introduce_not_set m h = h

pub introduce-IsReported :
    (peer : String) (request : IntroduceRequest) (m : StorageMaster)
    → IsDeclared request
    → IsReported m
    → IsReported (introduce peer request m).1
introduce-IsReported peer request m known h = record {
  managers =
      introduce-Records IsManagerName peer request m (names_manager request known) h.managers;
  addresses = introduce-Addresses peer request m h.addresses;
}
