-- ===== src/Programs/Exits.antt =====
-- The programs on any host.
use programmable_caching.Base.{ℕ, String, Bool, ◌≡◌, refl}
use programmable_caching.Base.Exec.{returns}
use programmable_caching.Base.Int.{ℤ}
use programmable_caching.Scheduler.Jobs.{JobView}
use programmable_caching.Master.Service as MasterService
use programmable_caching.Servers.{Hosting, listen, release}
use programmable_caching.Servers.Master as Master
use programmable_caching.Servers.Scheduler as Scheduler
use programmable_caching.Servers.Hosts.{IsHosting, release-started}
use programmable_caching.Programs.{
  storage_master, storage_client, execution_engine, basic_scheduler,
}

module _ {S : Type 0} (G : Hosting S) (listens : ℕ → S → Bool) (hosting : IsHosting G listens) where
  pub exits :
      {J : Type 0} (jobs : JobView J) (j : J)
      (hostname port other_hostname other_port last_hostname last_port : String) (interval : ℤ)
      (s : S)
      → (t : S) × (storage_master G hostname port s ≡ (returns 0, t))
        × ((h : ℕ) → listens h t ≡ listens h s)
        × (storage_client G hostname port other_hostname other_port s ≡ (returns 0, s))
        × (execution_engine G hostname port other_hostname other_port last_hostname last_port s
            ≡ (returns 0, s))
        × (basic_scheduler G jobs j hostname port other_hostname other_port interval s
            ≡ (returns 0, s))
  unfolding storage_master Master.start listen storage_client execution_engine basic_scheduler
      Scheduler.release_all release
  exits jobs j hostname port other_hostname other_port last_hostname last_port interval s =
      let m = MasterService.init hostname port in
      let address = MasterService.server_address m in
      (
        release G (G.build_and_start address s).0 (G.build_and_start address s).1,
        refl,
        λ h. release-started G listens hosting address s _ _ refl h,
        refl,
        refl,
        refl,
      )
