-- ===== src/Tests/Scheduling.antt =====
-- The models of src/task.cpp on a wheel with two tasks.
use mathlib.Core.Bool.{false≢true}
use sipp.Base.{ℕ, zero, suc, ◌<◌, ◌≡◌, refl, false, List, [], ◌∷◌, arith, length}
use sipp.Base.Int.{pos}
use sipp.Task.{
  wheel_one, Scheduler, ok, push_slot, expire_paused_tasks, forever_list, new_task, wheel_at,
}
use sipp.Task.Invariant.{push_slot-has_ne, push_slot-IsSorted}
use sipp.Task.Held.{Held, unqueued}
use sipp.Task.Reachable.{Reachable}
use sipp.Task.Rounds.{Stands}
use sipp.Task.Expire.{Expired, expire_paused_tasks-Expired}

-- Task 0 wakes at 5, task 1 at 3, the others never.
abbrev wake : ℕ → ℕ
wake zero = 5
wake (suc zero) = 3
wake (suc (suc t)) = 0

abbrev no_tasks : Scheduler
no_tasks = record {
  all_tasks = 0 ∷ 1 ∷ [];
  resumed = [];
  fresh = [];
  running = λ _. false;
  pauselist = λ _. forever_list;
  lists = λ _. [];
  count = pos 2;
  wheel_base = 0;
  clock_tick = 4;
}

abbrev two_tasks : Scheduler
two_tasks = push_slot (wheel_one 3) 1 (push_slot (wheel_one 5) 0 no_tasks)

two_tasks-Stands : Stands wake two_tasks.wheel_base two_tasks
unfolding push_slot
two_tasks-Stands =
    push_slot-IsSorted (wheel_one 3) 1 (push_slot (wheel_one 5) 0 no_tasks)
      (push_slot-IsSorted (wheel_one 5) 0 no_tasks
        (record { standing = λ l u h. absurd (false≢true h); once = λ l. tt }) (ground arith) refl
        (λ j. refl))
      (ground arith) refl (λ j. push_slot-has_ne (wheel_one 5) 0 1 no_tasks j (λ e. ground arith))

wake_small : (t : ℕ) → wake t < 4294967296
wake_small zero = ground arith
wake_small (suc zero) = ground arith
wake_small (suc (suc t)) = ground arith

expire_paused_tasks-Expired_example :
    (s' : Scheduler) × (woken : List ℕ) × (expire_paused_tasks wake two_tasks
      ≡ ok (s', length woken))
    × Expired wake two_tasks s' woken
unfolding push_slot
expire_paused_tasks-Expired_example =
    expire_paused_tasks-Expired wake two_tasks wake_small two_tasks-Stands (ground arith)

-- From the start at clock 0: task 0 is created and pauses, and the clock comes to 6.
abbrev created_task : Scheduler
created_task = new_task 0 (wheel_at 0)

abbrev paused_task : Scheduler
paused_task = record (push_slot (wheel_one 5) 0 (unqueued 0 created_task)) { count = pos 1 }

abbrev due_task : Scheduler
due_task = record paused_task { clock_tick = 6 }
