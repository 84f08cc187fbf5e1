-- ===== src/Servers/OneServer/OfWorld.antt =====
-- The host with room for one server next to a storage service: the server listens while a client
-- stands at its address.
use programmable_caching.Base.{
  ℕ, Bool, true, false, Option, none, some, ◌≡◌, refl, inl, inr, leb, Bool-cases,
}
use programmable_caching.Base.Dict.{lookup, insert, erase, lookup-insert, lookup-erase}
use programmable_caching.Client.Service as Client
use programmable_caching.Client.Service.{StorageClient}
use programmable_caching.System.{World}
use programmable_caching.Servers.{Hosting}
use programmable_caching.Servers.Hosts.{IsHosting}
use programmable_caching.Servers.Life.{IsApart}
use programmable_caching.Servers.OneServer.{one_server, it_listens, one_server-IsHosting}

abbrev is_some : Option StorageClient → Bool
is_some none = false
is_some (some c) = true

module _ {D : Type 0} where
  abbrev up : World D → Bool
  up w = is_some (lookup "server" w.clients)

  abbrev set : Bool → World D → World D
  set true w = record w { clients = insert "server" (Client.init "" "" "" "") w.clients }
  set false w = record w { clients = erase "server" w.clients }

  up-set : (b : Bool) (w : World D) → up (set b w) ≡ b
  up-set true w = rw (lookup-insert "server" "server" (Client.init "" "" "" "") w.clients) refl
  up-set false w = rw (lookup-erase "server" "server" w.clients) refl

  abbrev pub host : Hosting (World D)
  host = one_server up set

  abbrev pub host_listens : ℕ → World D → Bool
  host_listens = it_listens up set

  pub host-IsHosting : IsHosting host host_listens
  host-IsHosting = one_server-IsHosting up set up-set

  set-master : (b : Bool) (w : World D) → (set b w).master ≡ w.master
  set-master true w = refl
  set-master false w = refl

  pub host-IsApart : IsApart host host_listens
  host-IsApart = record {
    listens-master = λ j w m. refl;
    build_and_start-master =
        λ address w. elim (Bool-cases (up w)) [ inl e ↦ rw e refl | inr e ↦ rw e refl ];
    shutdown-master = λ h w. elim (Bool-cases (leb h 0)) [ inl e ↦ rw e refl | inr e ↦ rw e refl ];
    destroy-master = λ h w. elim (Bool-cases (leb h 0)) [ inl e ↦ rw e refl | inr e ↦ rw e refl ];
  }
