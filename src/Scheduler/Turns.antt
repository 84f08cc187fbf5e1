-- ===== src/Scheduler/Turns.antt =====
-- Turns of the control thread, with handlers at work between them.
use programmable_caching.Base.{
  ℕ, suc, ◌-◌, ◌≤◌, false, String, List, [], ◌∷◌, ◌≡◌, ◌∙◌, refl, sym, ap, arith,
}
use programmable_caching.Base.Exec.{
  returns, lift, bind-eq, and_then-returns, returns-injective, returns-pair,
}
use programmable_caching.Proto.Common.{Task, Job}
use programmable_caching.Proto.Sched.{SchedulerIntroduceRequest}
use programmable_caching.Rpc.{Status, MasterTransport, EngineTransport}
use programmable_caching.Rpc.MasterStub
use programmable_caching.Scheduler.Jobs.{JobView}
use programmable_caching.Scheduler.View
use programmable_caching.Scheduler.Schedule.{schedule}
use programmable_caching.Scheduler.Service.{
  Scheduler, submit_job, done, introduce, control_round, schedule_pending, execute,
}
use programmable_caching.Scheduler.Thread.{Place, reading, rounding, ended, turn}

module _ {J : Type 0} (jobs : JobView J) where
  -- A handler of the scheduler at work.
  pub data Handles (s t : Scheduler J) : Type 0 where
    submits : (request : Job) → t ≡ (submit_job jobs s request).1 → Handles s t
    finishes : (request : Task) → t ≡ (done jobs s request).1 → Handles s t
    introduces :
        (request : SchedulerIntroduceRequest) (status : Status)
        → introduce jobs s request ≡ returns (status, t)
        → Handles s t

  Handles-running : (s t : Scheduler J) → Handles s t → t.running ≡ s.running
  unfolding submit_job done introduce
  Handles-running s t (submits request e) = ap (λ u. u.running) e
  Handles-running s t (finishes request e) = ap (λ u. u.running) e
  Handles-running s t (introduces request status e) =
      let (v, added, rest) = and_then-returns (View.add_execution_engine s.system_view _ _ _) _ e in
      sym (ap (λ p. p.1.running) (returns-injective rest))

  module _ {S : Type 0} (T : MasterTransport S) (E : EngineTransport S) where
    schedule_pending-running :
        (s t : Scheduler J) (tasks : List String) (w w' : S)
        → schedule_pending jobs T E s tasks w ≡ (returns t, w')
        → t.running ≡ s.running
    unfolding schedule_pending
    schedule_pending-running s t [] w w' e = ap (λ u. u.running) (sym (returns-pair e).0)
    schedule_pending-running s t (task ∷ tasks) w w' e =
        let (ds, w1, decided, r1) =
          bind-eq (lift (schedule jobs s.job_state s.system_view (task ∷ tasks))) _ w e in
        let (v, w2, viewed, r2) = bind-eq (lift (View.tasks_scheduled s.system_view ds)) _ w1 r1 in
        let (done, w3, sent, r3) = bind-eq (execute jobs T E _ ds) _ w2 r2 in
        ap (λ u. u.running) (sym (returns-pair r3).0)

    -- A round that returns leaves running_ alone.
    pub control_round-running :
        (s t : Scheduler J) (w w' : S)
        → control_round jobs T E s w ≡ (returns t, w')
        → t.running ≡ s.running
    unfolding control_round
    control_round-running s t w w' e =
        let (a, u, first, rest) = bind-eq (MasterStub.get_view T s.storage_interface) _ w e in
        schedule_pending-running s t _ u w' rest

    -- `n` turns of the thread that return, and any number of handlers, from one place and
    -- scheduler to another. A turn may see the other processes in any state.
    pub data Turns (p : Place) (s : Scheduler J) : ℕ → Place → Scheduler J → Type 0 where
      here : Turns p s 0 p s
      handles :
          {n : ℕ} {q : Place} {t u : Scheduler J} → Turns p s n q t → Handles t u → Turns p s n q u
      turns :
          {n : ℕ} {q r : Place} {t u : Scheduler J} (w w' : S)
          → Turns p s n q t
          → turn jobs T E q t w ≡ (returns (r, u), w')
          → Turns p s (suc n) r u

    turn-running :
        (q r : Place) (t u : Scheduler J) (w w' : S)
        → turn jobs T E q t w ≡ (returns (r, u), w')
        → u.running ≡ t.running
    unfolding turn
    turn-running reading r t u w w' e = ap (λ x. x.1.running) (sym (returns-pair e).0)
    turn-running rounding r t u w w' e =
        let (v, w1, ran, rest) = bind-eq (control_round jobs T E t) _ w e in
        ap (λ x. x.1.running) (sym (returns-pair rest).0) ∙ control_round-running t v w w1 ran
    turn-running ended r t u w w' e = ap (λ x. x.1.running) (sym (returns-pair e).0)

    Turns-running :
        (p : Place) (s : Scheduler J) {n : ℕ} (q : Place) (t : Scheduler J)
        → Turns p s n q t
        → t.running ≡ s.running
    Turns-running p s q t here = refl
    Turns-running p s q t (handles {t = a} r h) = Handles-running a t h ∙ Turns-running p s q a r
    Turns-running p s q t (turns {q = b} {t = a} w w' r e) =
        turn-running b q a t w w' e ∙ Turns-running p s b a r

    -- The turns to the end of the thread once running_ is false.
    abbrev turns_left : Place → ℕ
    turns_left reading = 1
    turns_left rounding = 2
    turns_left ended = 0

    turn-turns_left :
        (q r : Place) (t u : Scheduler J) (w w' : S)
        → turn jobs T E q t w ≡ (returns (r, u), w')
        → t.running ≡ false
        → turns_left r ≤ turns_left q - 1
    unfolding turn
    turn-turns_left reading r t u w w' e off =
        let to : r ≡ ended = ap (λ x. x.0) (sym (returns-pair e).0) ∙ rw off refl in
        rw to (omega arith)
    turn-turns_left rounding r t u w w' e off =
        let (v, w1, ran, rest) = bind-eq (control_round jobs T E t) _ w e in
        rw (ap (λ x. x.0) (sym (returns-pair rest).0)) (omega arith)
    turn-turns_left ended r t u w w' e off =
        rw (ap (λ x. x.0) (sym (returns-pair e).0)) (omega arith)

    Turns-turns_left :
        (p : Place) (s : Scheduler J) {n : ℕ} (q : Place) (t : Scheduler J)
        → Turns p s n q t
        → s.running ≡ false
        → turns_left q ≤ turns_left p - n
    Turns-turns_left p s q t here off = omega arith
    Turns-turns_left p s q t (handles {t = a} r h) off = Turns-turns_left p s q a r off
    Turns-turns_left p s q t (turns {q = b} {t = a} w w' r e) off = omega (
      arith,
      Turns-turns_left p s b a r off,
      turn-turns_left b q a t w w' e (Turns-running p s b a r ∙ off),
    )

    none_left : (q : Place) → turns_left q ≤ 0 → q ≡ ended
    none_left reading h = absurd (omega (arith, h))
    none_left rounding h = absurd (omega (arith, h))
    none_left ended h = refl

    at_most_two : (p : Place) → turns_left p ≤ 2
    at_most_two reading = omega arith
    at_most_two rounding = omega arith
    at_most_two ended = omega arith

    -- Once running_ is false, the control thread is at its end after two or more turns that return,
    -- wherever it was, and whatever the handlers do between the turns, as long as nothing starts the
    -- scheduler again.
    pub Turns-ends :
        (p : Place) (s : Scheduler J) (n : ℕ) (q : Place) (t : Scheduler J)
        → s.running ≡ false
        → Turns p s n q t
        → 2 ≤ n
        → q ≡ ended
    Turns-ends p s n q t off run enough =
        none_left q (omega (arith, Turns-turns_left p s q t run off, at_most_two p, enough))
