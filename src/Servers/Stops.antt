-- ===== src/Servers/Stops.antt =====
-- Stop of a scheduler, which joins the control thread.
use programmable_caching.Base.{
  ℕ, zero, suc, ◌≤◌, false, Option, none, some, ◌≡◌, refl, Option-cases, inl, inr, arith,
}
use programmable_caching.Base.Exec.{
  Exec, Outcome, returns, faults, pure, fail, system_error, ◌>>=◌, ◌>>◌,
}
use programmable_caching.Rpc.{MasterTransport, EngineTransport}
use programmable_caching.Scheduler.Jobs.{JobView}
use programmable_caching.Scheduler.Service as Service
use programmable_caching.Scheduler.Service.{control_round}
use programmable_caching.Scheduler.Thread.{Place, reading, rounding, ended, turn, join}
use programmable_caching.Scheduler.Turns.{control_round-running}
use programmable_caching.Servers.{Hosting, shut}
use programmable_caching.Servers.Scheduler.{Scheduler, stop}

module _ {J S : Type 0} (jobs : JobView J) (T : MasterTransport S) (E : EngineTransport S) where
  -- What is left to the thread once running_ is false: a round if it is before one.
  abbrev pub last_round : Place → Service.Scheduler J → Exec S (Service.Scheduler J)
  last_round rounding s = control_round jobs T E s
  last_round _ s = pure s

  join-rounding :
      (fuel : ℕ) (s : Service.Scheduler J) (w : S) (r : Outcome (Service.Scheduler J) × S)
      → s.running ≡ false
      → control_round jobs T E s w ≡ r
      → join jobs T E (suc (suc fuel)) rounding s w ≡ r
  unfolding join turn
  join-rounding fuel s w (returns t, u) off e =
      rw (e, control_round-running jobs T E s t w u e, off) refl
  join-rounding fuel s w (faults f, u) off e = rw e refl

  join-stopped :
      (fuel : ℕ) (place : Place) (s : Service.Scheduler J) (w : S)
      → s.running ≡ false
      → join jobs T E (suc (suc fuel)) place s w ≡ last_round place s w
  unfolding join turn
  join-stopped fuel ended s w off = refl
  join-stopped fuel reading s w off = rw off refl
  join-stopped fuel rounding s w off = join-rounding fuel s w (control_round jobs T E s w) off refl

  module _ (G : Hosting S) where
    -- Stop, told by where the thread is.
    abbrev pub stop_at : Option Place → Scheduler J → Exec S (Scheduler J)
    stop_at none p = fail system_error
    stop_at (some place) p = do
      s ← last_round place (Service.stop jobs p.hosted.part)
      shut G p.hosted.server
      pure (record { hosted = record p.hosted { part = s }; thread = none })

    -- Stop of a scheduler that holds no thread throws std::system_error. Of one that holds a thread it
    -- waits for one round of the control thread if the thread is before one, and for none otherwise;
    -- two turns of the thread are enough for it. Then it shuts the server down, which is undefined
    -- where there is none; it does not return if the round does not.
    pub stop-joins :
        (fuel : ℕ) (p : Scheduler J) (w : S)
        → 2 ≤ fuel
        → stop G jobs T E fuel p w ≡ stop_at p.thread p w
    unfolding stop Service.stop
    stop-joins zero p w enough = absurd (omega (arith, enough))
    stop-joins (suc zero) p w enough = absurd (omega (arith, enough))
    stop-joins (suc (suc fuel)) p w enough = elim (Option-cases p.thread) [
      | inl e ↦ rw e refl
      | inr (place, e) ↦
          rw (e, join-stopped fuel place (Service.stop jobs p.hosted.part) w refl) refl
    ]
