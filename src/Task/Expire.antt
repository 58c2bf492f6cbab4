-- ===== src/Task/Expire.antt =====
-- `timewheel::expire_paused_tasks` of src/task.cpp: no round fails, and the tasks that wake are those
-- whose time is past, in its order.
use sipp.Base.{
  ℕ, ◌-◌, ◌≤◌, ◌<◌, ◌≡◌, inl, inr, ap, ◌∙◌, Bool, not, ◌&&◌, List, ◌==◌, arith, Bool-cases, length,
  has, ltb,
}
use sipp.Task.{Scheduler, ok, expire_paused_tasks}
use sipp.Task.Slots.{Placed-le}
use sipp.Task.Invariant.{waits}
use sipp.Task.Fire.{Woken}
use sipp.Task.Rounds.{Stands, expire_loop_lem}

module _ (wake : ℕ → ℕ) where
  -- The wheel of a clock that has reached `c`: what waits and is due before `c`.
  abbrev pub is_due : ℕ → ℕ → Bool
  is_due c u = not (wake u == 0) && ltb (wake u) c

  -- What a call of `expire_paused_tasks` does to the scheduler: `woken` is the list of the tasks that it
  -- moves to the run queue, before those that have not run yet.
  pub record Expired (s s' : Scheduler) (woken : List ℕ) : Type 0 where
    pub stands : Stands wake s'.wheel_base s'
    pub caught_up : s'.wheel_base ≡ s.clock_tick
    pub moves : Woken wake s s' woken
    pub exactly : (u : ℕ) → has u woken ≡ (waits s u && is_due s.clock_tick u)

  Woken-exactly :
      (s s' : Scheduler) (woken : List ℕ)
      → Stands wake s'.wheel_base s'
      → s'.wheel_base ≡ s.clock_tick
      → Woken wake s s' woken
      → (u : ℕ) → has u woken ≡ (waits s u && is_due s.clock_tick u)
  Woken-exactly s s' woken v b w u = elim (Bool-cases (has u woken)) [
    | inl y ↦ let (n, l, m) = w.times u y in ground (arith, w.waited u y)
    | inr z ↦ elim (Bool-cases (waits s' u)) [
      | inl still ↦ ground (
        arith,
        Placed-le s'.wheel_base (s'.pauselist u) (wake u) (v.standing (s'.pauselist u) u still).0,
      )
      | inr gone ↦ ground (arith, w.waiting u)
    ]
  ]

  -- From a wheel whose tasks stand where their wake times (of 32 bits) say, with a base that is not
  -- past the clock, `expire_paused_tasks` stops at no error. It wakes the waiting tasks whose time is set
  -- and before the clock, each once, in the order of their times, at the end of the tasks that resume;
  -- it returns their number, takes it from the count, and leaves the others waiting at their places.
  pub expire_paused_tasks-Expired :
      (s : Scheduler)
      → ((t : ℕ) → wake t < 4294967296)
      → Stands wake s.wheel_base s
      → s.wheel_base ≤ s.clock_tick
      → (s' : Scheduler) × (woken : List ℕ) × (expire_paused_tasks wake s ≡ ok (s', length woken))
        × Expired s s' woken
  unfolding expire_paused_tasks
  expire_paused_tasks-Expired s small v c =
      let (s', woken, r, v', b, w) =
        expire_loop_lem wake small (s.clock_tick - s.wheel_base) 0 s v (omega arith) in
      (
        s',
        woken,
        r ∙ ap (λ (k : ℕ). ok (s', k)) (omega arith),
        record {
          stands = v';
          caught_up = b;
          moves = w;
          exactly = λ u. Woken-exactly s s' woken v' b w u;
        },
      )
