-- ===== src/Lib.antt =====
-- A model of programmable caching: a storage service whose clients read and write files by
-- installed rules, and a scheduler that is to place tasks and install the rules for them.
--
-- The parts and how they work together. The storage master (src/storage_service/storage_master)
-- keeps the peers that introduced themselves and, for each storage manager, the keys of the files
-- that it stores. A storage manager (src/storage_service/storage_manager) serves Get, Put, Remove
-- and CopyFrom over one storage medium (src/storage_service/storage_interfaces). A storage client
-- (src/storage_service/storage_client) keeps rules; Get and Put run the actions of the matching rule
-- at the managers and report them to the master by StorageChange. The scheduler
-- (src/scheduler/scheduler) knows execution engines (src/execution_engine), asks the master for its
-- view, decides which task runs where, has the master install rules at the client of the engine,
-- and sends the task. All calls go through small classes around gRPC stubs (*/rpc_interfaces).
--
-- Which file models what:
--   Base        Boolean tests, association lists (Dict), texts, int, and Exec, the computations that
--               the code is translated to
--   Proto       src/proto/common.proto (Common), storage_service.proto (Storage) and
--               scheduler.proto (Sched): messages are records, a oneof is a data type with a
--               constructor for each member and one for none; an enumeration has a constructor
--               unrecognized for the numbers that it does not declare
--   Rpc         the stub classes: StorageManagerInterface is Rpc.ManagerStub, StorageMasterInterface
--               Rpc.MasterStub, and so on; gRPC is a record of operations that they take
--   Master      storage_master.cc: Peers is PeerTracker, Files is StorageFileView, Naming is
--               GenerateName, Service the handlers (Introduce is introduce, FillInRule fill_in_rule,
--               StorageChange storage_change, GetView get_view); Atoms cuts them into the
--               critical sections that they pass, and Interleaving lets those of many handlers
--               alternate; Changes, Known, Views, Rules, Runs, and the modules of Interleaving prove
--   Storage     storage_interface.h, Rocks and Opening the two RocksDB implementations, Redis the
--               third; Laws states what a medium promises
--   Manager     storage_manager.cc
--   Client      RuleDb is rule_db.cc, Service is storage_client.cc (get_round and put_round are one
--               round of the loops of Get and Put); RuleDb.Refines, Faults, Races, Answers
--               and Typing prove
--   System      the storage service as a whole: a master, and managers and clients by address, with
--               transports that run the handler of the server at the address; Stores, Copies,
--               RedisCopies, Writes, Moves, RoundTrips, Relocations, Stalls, Starts, Installs, Policies,
--               Consistency and Exact prove
--   Scheduler   Common is scheduler_common.h, Uri and View are serverless_system_view.cc, Jobs is
--               job_view.cc, Schedule and Service are scheduler.cc (control_round is one round of
--               SchedulerControlThread, Thread is its loop); Names, Decisions, Decided, Reach, Counts,
--               Parsing, Orders, Engines, Reported, Replies and Turns prove
--   Engine      execution_engine.cc
--   Servers     Start and Stop of the five components with their gRPC server, each in the module of
--               its name; Hosts states what gRPC documents of servers; Life and Stops prove
--   Programs    the main functions of the *_binary.cc files; Exits and Records prove
-- The modules whose names end in Tests apply the theorems to small examples; Scheduler.Surroundings
-- and Servers.OneServer hold what several of them share.
--
-- How code is translated. A method that changes fields takes the record and gives the new one. A
-- method that calls other processes is a function on their state that gives an outcome and the state
-- afterwards. An outcome is a value, or a fault that says how the code ends without one: an exception
-- std::out_of_range, a failed assertion (assertions are taken to be compiled in), behaviour that the
-- language leaves undefined, an exception std::system_error, a call of std::terminate, or a wait that
-- never ends. A handler that only answers Status::OK is given without its status where nothing depends
-- on it. Logging is left out.
--
-- Bounds. Loops run over lists, or over the count of free places at an engine, so no fuel is needed
-- but for join, which counts the turns of the control thread that Stop waits for; two are enough. An
-- int is a whole number; the one place where it can leave its range, the count of running tasks, is a
-- fault there. An unordered_map is an association list, and its unspecified order the order of that
-- list; std::sort is an insertion sort.
--
-- Two kinds of step. In most files a handler is one step. In Master.Interleaving each method of
-- PeerTracker and StorageFileView that takes a mutex is one step, except AddPeer, which is entered and left; so is
-- each GetPeerFromName of InstallRule and RemoveRule, which takes none and is undefined between the
-- two steps of an AddPeer; any number of handlers alternate. In Client.Races the check for a rule and
-- the read of it are two steps. A round of the scheduler's control thread is one step with respect to
-- the scheduler's handlers.
--
-- Not modelled: connecting to Redis, sleeping, and the interleaving of a handler of the scheduler, a
-- manager or a client with another in any other place, or with the control thread within one round;
-- errors of the network (a server that listens is reached);
-- an address is a text, compared as it is written; the command line flags are given by their values.
-- Taken as parameters: gRPC with its servers, RocksDB, Redis. What is asked of a storage medium, and
-- of a database that meets no error, is stated in Storage.Laws; what is asked of servers, in
-- Servers.Hosts and, next to a storage service, in Servers.Life. storage_manager_binary.cc does not
-- compile, and the tests are not modelled.
mod Base
pub mod Proto
pub mod Rpc
pub mod Master
pub mod Storage
pub mod Manager
pub mod Client
pub mod Scheduler
pub mod Engine
pub mod System
pub mod Servers
pub mod Programs
