-- ===== src/Servers.antt =====
-- The gRPC server that each component holds by the pointer server_. gRPC is a parameter: a server is
-- known by the address of its object.
pub mod Master
pub mod Client
pub mod Manager
pub mod Engine
pub mod Scheduler
pub mod Hosts
pub mod Life
pub mod Stops
pub mod OneServer
mod Tests
use programmable_caching.Base.{ℕ, String, Option, none, some}
use programmable_caching.Base.Exec.{Exec, returns, fail, undefined}

pub record Hosting (S : Type 0) : Type 0 where
  -- A ServerBuilder with one listening port and one service: AddListeningPort, RegisterService and
  -- BuildAndStart, which gives a null pointer when the server does not start.
  pub build_and_start : String → S → Option ℕ × S
  -- Server::Shutdown, and the destructor of Server.
  pub shutdown : ℕ → S → S
  pub destroy : ℕ → S → S

-- A component with its server_.
pub record Hosted (A : Type 0) : Type 0 where
  pub part : A
  pub server : Option ℕ

-- The constructors leave server_ null.
abbrev pub hosted : {A : Type 0} → A → Hosted A
hosted a = record { part = a; server = none }

module _ {S : Type 0} (G : Hosting S) where
  -- The destructor of std::unique_ptr<Server>.
  unfoldable pub release : Option ℕ → S → S
  release none s = s
  release (some h) s = G.destroy h s

  -- server_ = builder.BuildAndStart(), which then destroys the server that was held.
  unfoldable pub listen : String → Option ℕ → Exec S (Option ℕ)
  unfolding release
  listen server_address held s =
      let (server, t) = G.build_and_start server_address s in (returns server, release held t)

  -- server_->Shutdown(), undefined on a null pointer.
  unfoldable pub shut : Option ℕ → Exec S (Unit {0})
  shut none s = fail undefined s
  shut (some h) s = (returns tt, G.shutdown h s)
