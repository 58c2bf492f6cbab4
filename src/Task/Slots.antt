-- ===== src/Task/Slots.antt =====
-- Slots of the wheels (src/task.cpp): their equality, and where `task2list` puts a task.
use sipp.Base.{
  ℕ, ◌+◌, ◌-◌, ◌/◌, ◌%◌, ◌≤◌, ◌<◌, ◌≡◌, ◌≢◌, ◌↔◌, ◌⊎◌, inl, inr, true, false, ◌&&◌, ◌==◌, arith,
  if◌then◌else◌,
}
use sipp.Task.{Slot, forever_list, wheel_one, wheel_two, wheel_three, slot_eq, ok, task2list}

pub slot_eq_iff : (a b : Slot) → (slot_eq a b ≡ true) ↔ (a ≡ b)
slot_eq_iff forever_list forever_list = ground arith
slot_eq_iff (wheel_one a) (wheel_one b) = ground arith
slot_eq_iff (wheel_two a) (wheel_two b) = ground arith
slot_eq_iff (wheel_three a) (wheel_three b) = ground arith
slot_eq_iff _ _ = ground arith

-- The last window that the move from the third wheel has been done for, at a base.
abbrev pub moved_block : ℕ → ℕ
moved_block b = ((b - 1) / 4096 + 1) / 1024

-- A task with wake time `w` stands where the header of task.hpp says, at base `b`.
-- The third wheel starts after block `k`.
abbrev pub PlacedFrom : ℕ → ℕ → Slot → ℕ → Type 0
PlacedFrom k b forever_list w = w ≡ 0
PlacedFrom k b (wheel_one i) w = (0 < w) × (b ≤ w) × (w / 4096 ≤ b / 4096 + 1) × (i ≡ w % 8192)
PlacedFrom k b (wheel_two i) w =
    (b / 4096 < w / 4096) × (w / 4096 / 1024 ≡ (b / 4096 + 1) / 1024) × (i ≡ w / 4096 % 1024)
PlacedFrom k b (wheel_three i) w = (k < i) × (i ≡ w / 4096 / 1024)

abbrev pub Placed : ℕ → Slot → ℕ → Type 0
Placed b = PlacedFrom (moved_block b) b

-- Where the third wheel stands once the round of this ms has moved its slot.
abbrev pub PlacedInRound : ℕ → Slot → ℕ → Type 0
PlacedInRound b = PlacedFrom ((b / 4096 + 1) / 1024) b

-- The list of a wake time that is not past, with no test for errors.
abbrev pub place : ℕ → ℕ → Slot
place b w =
    if w == 0
    then forever_list
    else if w / 4096 == b / 4096
    then wheel_one (w % 8192)
    else if w / 4096 / 1024 == (b / 4096 + 1) / 1024
    then wheel_two (w / 4096 % 1024)
    else wheel_three (w / 4096 / 1024)

pub task2list-place :
    (b c w : ℕ) → b ≤ c → w < 4294967296 → (w ≢ 0 → b ≤ w) → task2list b c w ≡ ok (place b w)
unfolding task2list
task2list-place b c w h k p = ground arith

pub place-PlacedInRound : (b w : ℕ) → (w ≢ 0 → b ≤ w) → PlacedInRound b (place b w) w
place-PlacedInRound b w p = ground arith

pub PlacedInRound-Placed : (b : ℕ) (l : Slot) (w : ℕ) → PlacedInRound b l w → Placed b l w
PlacedInRound-Placed b (wheel_three i) w h = omega arith
PlacedInRound-Placed b forever_list w h = h
PlacedInRound-Placed b (wheel_one i) w h = h
PlacedInRound-Placed b (wheel_two i) w h = h

-- A round that moves nothing from the third wheel needs to move nothing.
pub Placed-PlacedInRound :
    (b : ℕ) (l : Slot) (w : ℕ)
    → Placed b l w
    → (wheel_three ((b / 4096 + 1) / 1024 % 1024) ≢ l
        ⊎ ((4096 - b % 4096) == 4096 && (b / 4096 + 1) % 1024 == 0) ≡ false)
    → w < 4294967296
    → PlacedInRound b l w
Placed-PlacedInRound b (wheel_three i) w h (inl n) k = ground arith
Placed-PlacedInRound b (wheel_three i) w h (inr n) k = ground arith
Placed-PlacedInRound b forever_list w h n k = h
Placed-PlacedInRound b (wheel_one i) w h n k = h
Placed-PlacedInRound b (wheel_two i) w h n k = h

-- After the round the base moves on: the slot that ran and the moved windows are behind.
pub PlacedInRound-next :
    (b : ℕ) (l : Slot) (w : ℕ)
    → PlacedInRound b l w
    → wheel_one (b % 8192) ≢ l
    → (4096 - b % 4096 ≡ 1 → wheel_two ((b / 4096 + 1) % 1024) ≢ l)
    → Placed (b + 1) l w
PlacedInRound-next b forever_list w h n k = h
PlacedInRound-next b (wheel_one i) w h n k = ground arith
PlacedInRound-next b (wheel_two i) w h n k = ground arith
PlacedInRound-next b (wheel_three i) w h n k = omega arith

-- A task that waits has not been passed by.
pub Placed-le : (b : ℕ) (l : Slot) (w : ℕ) → Placed b l w → w ≢ 0 → b ≤ w
Placed-le b forever_list w h n = absurd (n h)
Placed-le b (wheel_one i) w h n = h.1
Placed-le b (wheel_two i) w h n = omega arith
Placed-le b (wheel_three i) w h n = omega arith

-- The current slot of the first wheel holds the tasks of this ms.
pub PlacedInRound-due : (b w : ℕ) → PlacedInRound b (wheel_one (b % 8192)) w → w ≡ b
PlacedInRound-due b w h = omega arith
