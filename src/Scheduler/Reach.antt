-- ===== src/Scheduler/Reach.antt =====
-- The states that a running scheduler reaches, in which the control thread discards the view that
-- it asks for: only ParseGetViewReply would read it, and nothing calls that.
use mathlib.Core.Path.{subst}
use programmable_caching.Base.{String, List, [], ◌∷◌, ◌≡◌, refl, sym, ap, ◌∙◌, arith, eq_iff}
use programmable_caching.Base.Dict.{Dict, insert}
use programmable_caching.Base.Exec.{
  and_then-returns, returns-injective, returns-pair, returns, bind-eq, lift, traverse,
}
use programmable_caching.Base.Int.{ℤ}
use programmable_caching.Proto.Common.{Task, Job}
use programmable_caching.Proto.Sched.{SchedulerIntroduceRequest}
use programmable_caching.Proto.Storage.{GetViewReply}
use programmable_caching.Rpc.{Status, MasterTransport, EngineTransport}
use programmable_caching.Rpc.MasterStub
use programmable_caching.Scheduler.Common.{Decision, EngineState, available_to_schedule}
use programmable_caching.Scheduler.Jobs.{JobView}
use programmable_caching.Scheduler.Uri.{uri_to_hostname}
use programmable_caching.Scheduler.View.{
  SystemView, add_execution_engine, get_schedulable_engines, schedulable, tasks_scheduled,
}
use programmable_caching.Scheduler.Schedule.{schedule, schedule_engines, sort_pairs, task_size}
use programmable_caching.Scheduler.Service.{
  Scheduler, init, start, stop, submit_job, done, introduce, control_round, schedule_pending,
  execute,
}

-- No engine has the name of a storage client.
abbrev pub Unclaimed : Dict EngineState → Type 0
Unclaimed [] = Unit
Unclaimed ((name, state) ∷ rest) = (state.client_name ≡ "") × Unclaimed rest

schedulable-Unclaimed : (d : Dict EngineState) → Unclaimed d → schedulable d ≡ []
unfolding schedulable available_to_schedule
schedulable-Unclaimed [] h = refl
schedulable-Unclaimed ((name, state) ∷ rest) (h, hs) =
    ground (arith, schedulable-Unclaimed rest hs, eq_iff state.client_name "")

insert-Unclaimed :
    (k : String) (s : EngineState) (d : Dict EngineState)
    → s.client_name ≡ ""
    → Unclaimed d
    → Unclaimed (insert k s d)
unfolding insert
insert-Unclaimed k s [] h hs = (h, tt)
insert-Unclaimed k s ((j, t) ∷ d) h hs = ground (arith, insert-Unclaimed k s d)

module _ {J : Type 0} (jobs : JobView J) where
  -- With no schedulable engine nothing is decided.
  schedule-idle :
      (j : J) (v : SystemView) (pending : List String) (ds : List Decision)
      → get_schedulable_engines v ≡ []
      → schedule jobs j v pending ≡ returns ds
      → ds ≡ []
  unfolding schedule schedule_engines
  schedule-idle j v pending ds idle e =
      let sized = and_then-returns (traverse (task_size jobs j v) pending) _ e in
      cc (sized.2, ap (λ es. schedule_engines jobs j v es (sort_pairs sized.0) []) idle)

  module _ {S : Type 0} (T : MasterTransport S) (E : EngineTransport S) where
    schedule_pending-idle :
        (s : Scheduler J) (tasks : List String) (w : S) {t : Scheduler J} {w' : S}
        → get_schedulable_engines s.system_view ≡ []
        → schedule_pending jobs T E s tasks w ≡ (returns t, w')
        → (t.system_view ≡ s.system_view) × (w' ≡ w)
    unfolding schedule_pending execute tasks_scheduled
    schedule_pending-idle s [] w idle e =
        let same = returns-pair e in (sym (ap (λ t. t.system_view) same.0), sym same.1)
    schedule_pending-idle s (task ∷ tasks) w idle e =
        let decided =
          bind-eq (lift (schedule jobs s.job_state s.system_view (task ∷ tasks))) _ w e in
        let none_decided : decided.0 ≡ [] =
          schedule-idle s.job_state s.system_view (task ∷ tasks) decided.0 idle
            (ap (λ p. p.0) decided.2) in
        let same = returns-pair (rw none_decided at decided.3) in
        (sym (ap (λ t. t.system_view) same.0), sym same.1 ∙ sym (ap (λ p. p.1) decided.2))

    -- The events of a scheduler: Start, Stop, its handlers, and a round of the control thread that
    -- returns, with the other processes in any state.
    pub data Step (s t : Scheduler J) : Type 0 where
      starts : t ≡ start jobs s → Step s t
      stops : t ≡ stop jobs s → Step s t
      submits : (request : Job) → t ≡ (submit_job jobs s request).1 → Step s t
      finishes : (request : Task) → t ≡ (done jobs s request).1 → Step s t
      introduces :
          (request : SchedulerIntroduceRequest) (status : Status)
          → introduce jobs s request ≡ returns (status, t)
          → Step s t
      rounds : (w w' : S) → control_round jobs T E s w ≡ (returns t, w') → Step s t

    pub data Reach (s : Scheduler J) : Scheduler J → Type 0 where
      here : Reach s s
      next : {t u : Scheduler J} → Reach s t → Step t u → Reach s u

    abbrev IsIdle : Scheduler J → Type 0
    IsIdle s = Unclaimed s.system_view.engine_to_state

    introduce-IsIdle :
        (s t : Scheduler J) (request : SchedulerIntroduceRequest) (status : Status)
        → introduce jobs s request ≡ returns (status, t)
        → IsIdle s
        → IsIdle t
    unfolding introduce add_execution_engine
    introduce-IsIdle s t request status e h =
        let added = and_then-returns (add_execution_engine s.system_view _ _ _) _ e in
        let host = and_then-returns (uri_to_hostname request.rpc_uri) _ added.1 in
        subst Unclaimed
          (ap (λ v. v.engine_to_state) (returns-injective host.2)
            ∙ ap (λ p. p.1.system_view.engine_to_state) (returns-injective added.2))
          (insert-Unclaimed request.rpc_uri _ s.system_view.engine_to_state refl h)

    control_round-idle :
        (s t : Scheduler J) (w w' : S)
        → control_round jobs T E s w ≡ (returns t, w')
        → IsIdle s
        → (t.system_view ≡ s.system_view)
          × ((r : Status × GetViewReply) × (MasterStub.get_view T s.storage_interface w
                ≡ (returns r, w')))
    unfolding control_round get_schedulable_engines
    control_round-idle s t w w' e h =
        let asked = bind-eq (MasterStub.get_view T s.storage_interface) _ w e in
        let rest =
          schedule_pending-idle s (jobs.get_pending_tasks s.job_state []) asked.1
            (schedulable-Unclaimed s.system_view.engine_to_state h) asked.3 in
        (rest.0, (asked.0, asked.2 ∙ ap (λ x. (returns asked.0, x)) (sym rest.1)))

    Step-IsIdle : (s t : Scheduler J) → Step s t → IsIdle s → IsIdle t
    unfolding start stop submit_job done
    Step-IsIdle s t (starts e) h = rw e h
    Step-IsIdle s t (stops e) h = rw e h
    Step-IsIdle s t (submits request e) h = rw e h
    Step-IsIdle s t (finishes request e) h = rw e h
    Step-IsIdle s t (introduces request status e) h = introduce-IsIdle s t request status e h
    Step-IsIdle s t (rounds w w' e) h = rw (control_round-idle s t w w' e h).0 h

    Reach-IsIdle : {s t : Scheduler J} → Reach s t → IsIdle s → IsIdle t
    Reach-IsIdle here h = h
    Reach-IsIdle (next {t = t} {u = u} r step) h = Step-IsIdle t u step (Reach-IsIdle r h)

    module _ (j : J) (hostname port storage_hostname storage_port : String) (interval : ℤ) where
      -- In every state that a scheduler reaches from its construction, whatever its job view does,
      -- no engine is schedulable.
      pub Reach-unschedulable :
          (s : Scheduler J)
          → Reach (init j hostname port storage_hostname storage_port interval) s
          → get_schedulable_engines s.system_view ≡ []
      unfolding get_schedulable_engines
      Reach-unschedulable s reach =
          schedulable-Unclaimed s.system_view.engine_to_state (Reach-IsIdle reach tt)

      -- In every state that a scheduler reaches, a round of the control thread that returns leaves
      -- the other processes as its call of GetView left them: it installs no rule and sends no task.
      pub Reach-sends_nothing :
          (s t : Scheduler J) (w w' : S)
          → Reach (init j hostname port storage_hostname storage_port interval) s
          → control_round jobs T E s w ≡ (returns t, w')
          → (r : Status × GetViewReply) × (MasterStub.get_view T s.storage_interface w
              ≡ (returns r, w'))
      Reach-sends_nothing s t w w' reach e =
          (control_round-idle s t w w' e (Reach-IsIdle reach tt)).1
