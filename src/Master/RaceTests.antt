-- ===== src/Master/RaceTests.antt =====
-- A GetView and an InstallRule that run while a manager is being introduced, and a RemoveRule that
-- looks up its client in the middle of an AddPeer.
use programmable_caching.Base.{String, true, List, [], ◌∷◌, ◌≡◌, ◌⊎◌, refl, inl}
use programmable_caching.Base.Dict.{lookup, insert}
use programmable_caching.Proto.Common.{StorageName, OperationType, put_action}
use programmable_caching.Proto.Storage.{
  IntroduceRequest, InstallRuleRequest, RemoveRuleRequest, StorageType, storage_manager,
  storage_client,
}
use programmable_caching.Master.Peers.{add_peer, get_peer_from_name}
use programmable_caching.Master.Known.{IsPeer}
use programmable_caching.Master.Service.{StorageMaster, init, fill_in_action, resolve}
use programmable_caching.Master.Atoms.{
  Section, adds_peer, adds_manager, adds_file, pass, introduce_sections, file_sections, view_files,
  view_addresses,
}
use programmable_caching.Master.Naming.{generate_name}
use programmable_caching.Master.Interleaving.{
  Handler, writes, adding, undefined_read, views, viewed, answered, installs, filling, uninstalls,
  client_found, fill_next, Move, Moves, Reach,
}
use programmable_caching.Master.Interleaving.Safety.{unfaulted, Reach-unfaulted}

abbrev request : IntroduceRequest
request = storage_manager (record {
  storage_type = StorageType.managed;
  storage_name = StorageName.ephemeral;
  rpc_hostname = "a";
  rpc_port = "1";
  file = record { key = "in" } ∷ [];
})

abbrev client_request : IntroduceRequest
client_request = storage_client (record { rpc_hostname = "c"; rpc_port = "1" })

abbrev cache : String
cache = generate_name request

abbrev made : StorageMaster
made = init "master" "1"

abbrev wanted : InstallRuleRequest
wanted = record {
  client = "client:c";
  rule = record {
    op_type = OperationType.put;
    key = "out";
    action = put_action (record { key = "out"; mgr = record { name = cache; uri = "" } }) ∷ [];
  };
}

abbrev gone : RemoveRuleRequest
gone = record { client = "client:c"; rule = wanted.rule }

abbrev known : StorageMaster
known = pass (adds_peer cache "a:1" "ipv4:1") made

abbrev with_client : StorageMaster
with_client = pass (adds_peer "client:c" "c:1" "ipv4:2") known

abbrev files : List Section
files = adds_manager cache ∷ adds_file cache "in" ∷ []

abbrev files_left : Handler
files_left = writes files

-- The peers are there, the manager is not recorded yet.
peers_known : Reach "master" "1" with_client (writes [] ∷ files_left ∷ [])
unfolding introduce_sections file_sections generate_name
peers_known =
    Reach.moves (Moves.here (files_left ∷ []) (Move.leaves "client:c" "c:1" "ipv4:2" [])) (
      Reach.moves (Moves.here (files_left ∷ []) (Move.enters "client:c" "c:1" "ipv4:2" [])) (
        Reach.introduces "ipv4:2" client_request (
          Reach.moves (Moves.here [] (Move.leaves cache "a:1" "ipv4:1" files)) (
            Reach.moves (Moves.here [] (Move.enters cache "a:1" "ipv4:1" files))
              (Reach.introduces "ipv4:1" request Reach.starts)))))

client-IsPeer : IsPeer with_client.peer_tracker "client:c"
unfolding add_peer lookup insert pass generate_name
client-IsPeer e = cc

cache-IsPeer : IsPeer with_client.peer_tracker cache
unfolding add_peer lookup insert pass generate_name
cache-IsPeer e = cc

called : Reach "master" "1" with_client (views ∷ installs wanted ∷ writes [] ∷ files_left ∷ [])
called = Reach.asks (Reach.asks_install wanted client-IsPeer (cache-IsPeer, tt) peers_known)

-- The client introduces itself again, and RemoveRule looks it up in the middle of the AddPeer.
raced :
    Reach "master" "1" with_client
      (undefined_read ∷ adding "client:c" "c:1" "ipv4:2" [] ∷ writes [] ∷ files_left ∷ [])
unfolding introduce_sections generate_name
raced = Reach.moves (Moves.here _ (Move.races (uninstalls gone) refl)) (
    Reach.asks_removal gone client-IsPeer (
      Reach.moves (Moves.here _ (Move.enters "client:c" "c:1" "ipv4:2" []))
        (Reach.introduces "ipv4:2" client_request peers_known)))

abbrev recorded : StorageMaster
recorded = pass (adds_manager cache) with_client

-- The manager is recorded between the two lookups of the rule, and the view is taken then.
halfway : Reach "master" "1" recorded (
    viewed (view_files recorded)
    ∷ filling "c:1" wanted [] wanted.rule.action
    ∷ writes []
    ∷ writes (adds_file cache "in" ∷ [])
    ∷ [])
unfolding client_found get_peer_from_name pass add_peer lookup insert generate_name
halfway = Reach.moves (Moves.here _ Move.fills) (
    Reach.moves
      (Moves.there views (
        Moves.there (filling "c:1" wanted [] wanted.rule.action) (
          Moves.there (writes [])
            (Moves.here [] (Move.passes (adds_manager cache) (adds_file cache "in" ∷ []) refl)))))
      (Reach.moves (Moves.there views (Moves.here _ (Move.finds_client wanted))) called))

abbrev behind_lookup : Handler
behind_lookup = fill_next "c:1" wanted [] recorded.peer_tracker wanted.rule.action

finished : Reach "master" "1" recorded (
    answered (view_addresses (view_files recorded) recorded)
    ∷ behind_lookup
    ∷ writes []
    ∷ writes (adds_file cache "in" ∷ [])
    ∷ [])
unfolding fill_next fill_in_action resolve get_peer_from_name lookup pass add_peer insert
    generate_name
finished = Reach.moves (Moves.here _ (Move.addresses (view_files recorded))) (
    Reach.moves
      (Moves.there (viewed (view_files recorded))
        (Moves.here _ (Move.fills_in "c:1" wanted [] wanted.rule.action refl)))
      halfway)

Reach-unfaulted_example :
    (unfaulted (answered (view_addresses (view_files recorded) recorded)) ≡ true)
    ⊎ (answered (view_addresses (view_files recorded) recorded) ≡ undefined_read)
Reach-unfaulted_example =
    Reach-unfaulted finished (answered (view_addresses (view_files recorded) recorded)) (inl refl)
