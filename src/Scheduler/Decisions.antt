-- ===== src/Scheduler/Decisions.antt =====
-- What Schedule decides: how many decisions, and what they hold.
use Prim.Native.Nat.{min}
use mathlib.Core.Path.{subst}
use programmable_caching.Base.{
  ℕ, zero, suc, ◌+◌, ◌-◌, String, List, [], ◌∷◌, ◌++◌, none, some, Option, ◌≡◌, refl, length,
  length-append, All, All-append, arith,
}
use programmable_caching.Base.Dict.{lookup}
use programmable_caching.Base.Exec.{Outcome, returns, and_then-returns, returns-injective, traverse}
use programmable_caching.Base.Int.{ℤ, room}
use programmable_caching.Scheduler.Common.{Decision, EngineState, empty_decision}
use programmable_caching.Scheduler.Jobs.{JobView}
use programmable_caching.Scheduler.View.{SystemView, get_schedulable_engines, get_engine_state}
use programmable_caching.Scheduler.Schedule.{
  insert_sorted, sort_pairs, fill_decision, schedule_engine, schedule_engines, task_size, schedule,
}

abbrev pub IsEmpty : Decision → Type 0
IsEmpty d = d ≡ empty_decision

-- The room for tasks at an engine, and at several.
abbrev room_of : Option EngineState → ℕ
room_of none = 0
room_of (some s) = room s.maximum_tasks s.running_tasks

unfoldable pub total_room : SystemView → List String → ℕ
total_room v [] = 0
total_room v (engine ∷ rest) = room_of (lookup engine v.engine_to_state) + total_room v rest

room_of-state :
    (v : SystemView) (engine : String) (s : EngineState)
    → get_engine_state v engine ≡ returns s
    → room_of (lookup engine v.engine_to_state) ≡ room s.maximum_tasks s.running_tasks
unfolding get_engine_state
room_of-state v engine s e = ground (arith, e)

module _ {J : Type 0} (jobs : JobView J) (j : J) (v : SystemView) where
  record Fills (engine : String) (n : ℕ) (tasks : List (String × ℤ)) (ds : List Decision)
      (r : List Decision × List (String × ℤ)) : Type 0 where
    empty : All IsEmpty ds → All IsEmpty r.0
    count : length r.0 ≡ length ds + min n (length tasks)
    left : length r.1 ≡ length tasks - n

  schedule_engine-Fills :
      (engine : String) (n : ℕ) (tasks : List (String × ℤ)) (ds : List Decision)
      (r : List Decision × List (String × ℤ))
      → schedule_engine jobs j v engine n tasks ds ≡ returns r
      → Fills engine n tasks ds r
  unfolding schedule_engine
  schedule_engine-Fills engine zero tasks ds r e =
      subst (Fills engine zero tasks ds) (returns-injective e)
        (record { empty = λ h. h; count = omega arith; left = omega arith })
  schedule_engine-Fills engine (suc n) [] ds r e =
      subst (Fills engine (suc n) [] ds) (returns-injective e)
        (record { empty = λ h. h; count = omega arith; left = omega arith })
  schedule_engine-Fills engine (suc n) (task ∷ rest) ds r e =
      let filled = and_then-returns (fill_decision jobs j v engine task.0) _ e in
      let more = schedule_engine-Fills engine n rest (ds ++ empty_decision ∷ []) r filled.2 in
      record {
        empty = λ h. more.empty (All-append IsEmpty ds (empty_decision ∷ []) h (refl, tt));
        count = omega (arith, more.count, length-append ds (empty_decision ∷ []));
        left = omega (arith, more.left);
      }

  schedule_engines-Fills :
      (engines : List String) (tasks : List (String × ℤ)) (ds es : List Decision)
      → schedule_engines jobs j v engines tasks ds ≡ returns es
      → (All IsEmpty ds → All IsEmpty es)
        × (length es ≡ length ds + min (total_room v engines) (length tasks))
  unfolding schedule_engines total_room get_engine_state
  schedule_engines-Fills [] tasks ds es e =
      subst
        (λ es. (All IsEmpty ds → All IsEmpty es) × (length es ≡ length ds + min 0 (length tasks)))
        (returns-injective e) (λ h. h, omega arith)
  schedule_engines-Fills (engine ∷ engines) tasks ds es e =
      let known = and_then-returns (get_engine_state v engine) _ e in
      let ran = and_then-returns (schedule_engine jobs j v engine _ tasks ds) _ known.2 in
      let here = schedule_engine-Fills engine _ tasks ds ran.0 ran.1 in
      let later = schedule_engines-Fills engines ran.0.1 ran.0.0 es ran.2 in
      (
        λ h. later.0 (here.empty h),
        omega (arith, room_of-state v engine known.0 known.1, later.1, here.count, here.left),
      )

length-insert_sorted :
    (p : String × ℤ) (l : List (String × ℤ)) → length (insert_sorted p l) ≡ suc (length l)
unfolding insert_sorted
length-insert_sorted p [] = refl
length-insert_sorted p (q ∷ rest) = ground (arith, length-insert_sorted p rest)

length-sort_pairs : (l : List (String × ℤ)) → length (sort_pairs l) ≡ length l
unfolding sort_pairs
length-sort_pairs [] = refl
length-sort_pairs (p ∷ rest) =
    omega (arith, length-insert_sorted p (sort_pairs rest), length-sort_pairs rest)

length-traverse :
    {A B : Type 0} (f : A → Outcome B) (l : List A) (r : List B)
    → traverse f l ≡ returns r
    → length r ≡ length l
unfolding traverse
length-traverse f [] r e = subst (λ r. length r ≡ 0) (returns-injective e) refl
length-traverse f (a ∷ rest) r e =
    let first = and_then-returns (f a) _ e in
    let others = and_then-returns (traverse f rest) _ first.2 in
    subst (λ r. length r ≡ suc (length rest)) (returns-injective others.2)
      (omega (arith, length-traverse f rest others.0 others.1))

module _ {J : Type 0} (jobs : JobView J) (j : J) (v : SystemView) where
  pub schedule-Fills :
      (pending : List String) (ds : List Decision)
      → schedule jobs j v pending ≡ returns ds
      → All IsEmpty ds
        × (length ds ≡ min (total_room v (get_schedulable_engines v)) (length pending))
  unfolding schedule
  schedule-Fills pending ds e =
      let sized = and_then-returns (traverse (task_size jobs j v) pending) _ e in
      let filled =
        schedule_engines-Fills jobs j v (get_schedulable_engines v) (sort_pairs sized.0) [] ds
          sized.2 in
      (
        filled.0 tt,
        omega
            (arith, filled.1, length-sort_pairs sized.0, length-traverse _ pending sized.0 sized.1),
      )
