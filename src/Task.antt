-- ===== src/Task.antt =====
-- src/task.cpp, include/task.hpp: the scheduler's task lists and the timing wheels.
-- A task is a number. `wake` is its virtual method, a parameter that is read where the code calls
-- it; a run is over one such function, so a paused task's wake time does not change.
pub mod Slots
pub mod Invariant
pub mod Move
pub mod Fire
pub mod Rounds
pub mod Expire
pub mod Held
pub mod Operations
pub mod Reachable
use sipp.Base.{
  ℕ, zero, suc, ◌+◌, ◌-◌, ◌*◌, ◌/◌, ◌%◌, Bool, true, false, not, ◌&&◌, List, [], ◌∷◌, ◌++◌, ltb,
  ◌==◌, if◌then◌else◌, length, erase,
}
use sipp.Base.Int.{ℤ, pos, ◌+ℤ◌, ◌-ℤ◌}
use sipp.Base.Update.{update}

abbrev pub level_one_slots : ℕ
level_one_slots = 4096

abbrev pub level_two_slots : ℕ
level_two_slots = 1024

abbrev pub level_three_slots : ℕ
level_three_slots = 1024

-- The lists of a time wheel: `forever_list` and the slots of the three wheels.
pub data Slot : Type 0 where
  forever_list : Slot
  wheel_one wheel_two wheel_three : ℕ → Slot

abbrev pub slot_eq : Slot → Slot → Bool
slot_eq forever_list forever_list = true
slot_eq (wheel_one a) (wheel_one b) = a == b
slot_eq (wheel_two a) (wheel_two b) = a == b
slot_eq (wheel_three a) (wheel_three b) = a == b
slot_eq _ _ = false

abbrev pub set_list : (Slot → List ℕ) → Slot → List ℕ → Slot → List ℕ
set_list f k v j = if slot_eq j k then v else f j

-- The globals of task.cpp and the fields of its tasks. `running_tasks` is split where the iterator
-- `first_new` points: `resumed` stands before it, `fresh` from it on.
pub record Scheduler : Type 0 where
  pub all_tasks : List ℕ
  pub resumed : List ℕ
  pub fresh : List ℕ
  pub running : ℕ → Bool
  pub pauselist : ℕ → Slot
  pub lists : Slot → List ℕ
  pub count : ℤ
  pub wheel_base : ℕ
  pub clock_tick : ℕ

-- What stops the program: an `ERROR`, a failed `assert`, the front of an empty list.
pub data Fault : Type 0 where
  base_after_clock : Fault
  too_far : Fault
  assert_failed : Fault
  empty_front : Fault

pub data Result {ℓ} (A : Type ℓ) : Type ℓ where
  ok : A → Result A
  err : Fault → Result A

infixl 5 ◌>>=◌
abbrev pub ◌>>=◌ {ℓ κ} : {A : Type ℓ} {B : Type κ} → Result A → (A → Result B) → Result B
ok a >>= f = f a
err e >>= f = err e

abbrev pub running_tasks : Scheduler → List ℕ
running_tasks s = s.resumed ++ s.fresh

-- `timewheel::timewheel`, at the clock of the program's start, when there are no tasks
unfoldable pub wheel_at : ℕ → Scheduler
wheel_at clock = record {
  all_tasks = [];
  resumed = [];
  fresh = [];
  running = λ _. false;
  pauselist = λ _. forever_list;
  lists = λ _. [];
  count = pos 0;
  wheel_base = clock;
  clock_tick = clock;
}

-- `task::task`
unfoldable pub new_task : ℕ → Scheduler → Scheduler
new_task t s = record s {
  all_tasks = s.all_tasks ++ t ∷ [];
  fresh = s.fresh ++ t ∷ [];
  running = update s.running t true;
}

-- `task::add_to_runqueue`
unfoldable pub add_to_runqueue : ℕ → Scheduler → Scheduler
add_to_runqueue t s = record s { resumed = s.resumed ++ t ∷ []; running = update s.running t true }

-- `task::remove_from_runqueue`
unfoldable pub remove_from_runqueue : ℕ → Scheduler → Scheduler × Bool
remove_from_runqueue t s = if not (s.running t) then (s, false) else (
  record s {
    resumed = erase t s.resumed;
    fresh = erase t s.fresh;
    running = update s.running t false;
  },
  true,
)

-- `list->insert(list->end(), task)`, with the task's `pauseit` and `pauselist`
unfoldable pub push_slot : Slot → ℕ → Scheduler → Scheduler
push_slot l t s = record s {
  lists = set_list s.lists l (s.lists l ++ t ∷ []);
  pauselist = update s.pauselist t l;
}

-- `list->erase(task->pauseit)` from the task's `pauselist`
unfoldable pub take_slot : ℕ → Scheduler → Scheduler
take_slot t s = record s {
  lists = set_list s.lists (s.pauselist t) (erase t (s.lists (s.pauselist t)));
}

-- `timewheel::remove_paused_task`
unfoldable pub remove_paused_task : ℕ → Scheduler → Scheduler
unfolding take_slot
remove_paused_task t s = record (take_slot t s) { count = s.count -ℤ pos 1 }

-- `timewheel::task2list`, on the wheel's base and the clock
unfoldable pub task2list : ℕ → ℕ → ℕ → Result Slot
task2list base clock w =
    if w == 0
    then ok forever_list
    else if ltb w base
    then err assert_failed
    else if ltb clock base
    then err base_after_clock
    else if w / level_one_slots == base / level_one_slots
    then ok (wheel_one (w % (2 * level_one_slots)))
    else if w / level_one_slots / level_two_slots == (base / level_one_slots + 1) / level_two_slots
    then ok (wheel_two (w / level_one_slots % level_two_slots))
    else if ltb (w / level_one_slots / level_two_slots) level_three_slots
    then ok (wheel_three (w / level_one_slots / level_two_slots))
    else err too_far

-- The ms of the window still to go, this one included.
abbrev pub ms_left : ℕ → ℕ
ms_left base = level_one_slots - base % level_one_slots

-- The loop over `due`.
unfoldable pub run_due : List ℕ → Scheduler → Scheduler
run_due [] s = s
run_due (t ∷ ts) s = run_due ts (record (add_to_runqueue t s) { count = s.count -ℤ pos 1 })

-- The tasks of the current slot of the first wheel run, and the base moves on.
unfoldable pub fire : Scheduler → Scheduler × ℕ
unfolding run_due
fire s =
    let due = wheel_one (s.wheel_base % (2 * level_one_slots)) in
    let s' = run_due (s.lists due) s in
    (
      record s' { lists = set_list s'.lists due []; wheel_base = s'.wheel_base + 1 },
      length (s.lists due),
    )

-- `task::setRunning`
unfoldable pub set_running : ℕ → Scheduler → Scheduler
set_running t s = if s.running t then s else add_to_runqueue t (remove_paused_task t s)

-- `task::~task`
unfoldable pub delete_task : ℕ → Scheduler → Scheduler
delete_task t s =
    let s' = if s.running t then (remove_from_runqueue t s).0 else remove_paused_task t s in
    record s' { all_tasks = erase t s'.all_tasks }

module _ (wake : ℕ → ℕ) where
  -- `timewheel::add_paused_task`
  unfoldable pub add_paused_task : ℕ → Scheduler → Result Scheduler
  add_paused_task t s =
      if not (wake t == 0) && ltb (wake t) s.wheel_base then ok (add_to_runqueue t s) else do
        l ← task2list s.wheel_base s.clock_tick (wake t)
        ok (record (push_slot l t s) { count = s.count +ℤ pos 1 })

  -- The list that `timewheel::relocate` moves a task to.
  unfoldable pub relocate_list : ℕ → Scheduler → Result Slot
  relocate_list t s =
      if wake t / level_one_slots == s.wheel_base / level_one_slots + 1
      then ok (wheel_one (wake t % (2 * level_one_slots)))
      else task2list s.wheel_base s.clock_tick (wake t)

  -- `timewheel::relocate`
  unfoldable pub relocate : ℕ → Scheduler → Result Scheduler
  relocate t s =
      if not (wake t == 0) && ltb (wake t) s.wheel_base
      then ok (add_to_runqueue t (remove_paused_task t s))
      else do l ← relocate_list t s; ok (push_slot l t (take_slot t s))

  -- The loops `for (n = …; n; n--) relocate(list.front())`.
  unfoldable pub relocate_front : Slot → Scheduler → List ℕ → Result Scheduler
  relocate_front l s [] = err empty_front
  relocate_front l s (t ∷ _) = relocate t s

  unfoldable pub relocate_n : Slot → ℕ → Scheduler → Result Scheduler
  relocate_n l zero s = ok s
  relocate_n l (suc n) s = do s' ← relocate_front l s (s.lists l); relocate_n l n s'

  -- The slot of the third wheel for the next 2^22ms moves into the second wheel.
  unfoldable pub move_third : Scheduler → Result Scheduler
  unfolding relocate_n
  move_third s =
      let window = s.wheel_base / level_one_slots in
      let later = wheel_three ((window + 1) / level_two_slots % level_three_slots) in
      if (ms_left s.wheel_base == level_one_slots) && ((window + 1) % level_two_slots == 0)
      then relocate_n later (length (s.lists later)) s
      else ok s

  -- A share of the tasks of the next window moves into the first wheel.
  unfoldable pub move_next : Scheduler → Result Scheduler
  unfolding relocate_n
  move_next s =
      let next = wheel_two ((s.wheel_base / level_one_slots + 1) % level_two_slots) in
      let left = ms_left s.wheel_base in
      relocate_n next ((length (s.lists next) + left - 1) / left) s

  -- One round of the loop in `timewheel::expire_paused_tasks`.
  unfoldable pub expire_ms : Scheduler → Result (Scheduler × ℕ)
  expire_ms s = do s1 ← move_third s; s2 ← move_next s1; ok (fire s2)

  -- The loop, over the number of rounds left: the clock stands still while it runs.
  unfoldable pub expire_loop : ℕ → ℕ → Scheduler → Result (Scheduler × ℕ)
  expire_loop zero found s = ok (s, found)
  expire_loop (suc n) found s = do r ← expire_ms s; expire_loop n (found + r.1) r.0

  -- `timewheel::expire_paused_tasks`
  unfoldable pub expire_paused_tasks : Scheduler → Result (Scheduler × ℕ)
  unfolding expire_loop
  expire_paused_tasks s = expire_loop (s.clock_tick - s.wheel_base) 0 s

  -- `task::setPaused`
  unfoldable pub set_paused : ℕ → Scheduler → Result Scheduler
  set_paused t s =
      let (s', removed) = remove_from_runqueue t s in
      if s.running t
      then (if removed then add_paused_task t s' else err assert_failed)
      else add_paused_task t (remove_paused_task t s)

-- `timewheel::size`
unfoldable pub size : Scheduler → ℤ
size s = s.count
