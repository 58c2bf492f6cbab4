-- ===== src/Task/Reachable.antt =====
-- The runs of the scheduler of src/task.cpp from the program's start on, in any order of its operations.
use sipp.Base.{ℕ, ◌≤◌, ◌≡◌, true, false, has}
use sipp.Task.{
  Scheduler, Result, ok, err, new_task, set_running, delete_task, set_paused, expire_paused_tasks,
  wheel_at,
}
use sipp.Task.Held.{Held}

-- What an operation comes to, `d` where it fails.
abbrev value_or : {A : Type 0} → A → Result A → A
value_or d (ok a) = a
value_or d (err _) = d

module _ (wake : ℕ → ℕ) where
  -- What may happen: a task is created, woken, paused or deleted, the clock ticks, the wheels are run.
  pub data Step : Scheduler → Scheduler → Type 0 where
    created : (t : ℕ) (s : Scheduler) → has t s.all_tasks ≡ false → Step s (new_task t s)
    woken : (t : ℕ) (s : Scheduler) → has t s.all_tasks ≡ true → Step s (set_running t s)
    paused :
        (t : ℕ) (s s' : Scheduler)
        → has t s.all_tasks ≡ true
        → set_paused wake t s ≡ ok s'
        → Step s s'
    deleted : (t : ℕ) (s : Scheduler) → has t s.all_tasks ≡ true → Step s (delete_task t s)
    ticked : (c : ℕ) (s : Scheduler) → s.clock_tick ≤ c → Step s (record s { clock_tick = c })
    expired : (n : ℕ) (s s' : Scheduler) → expire_paused_tasks wake s ≡ ok (s', n) → Step s s'

  pub data Reachable : Scheduler → Type 0 where
    started : (c : ℕ) → Reachable (wheel_at c)
    next : {s s' : Scheduler} → Reachable s → Step s s' → Reachable s'
