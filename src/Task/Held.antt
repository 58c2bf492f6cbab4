-- ===== src/Task/Held.antt =====
-- What the globals of src/task.cpp keep: each task runs, or waits in a wheel, and the counts fit.
use mathlib.Core.Bool.{false≢true}
use sipp.Base.{
  ℕ, suc, ◌≤◌, ◌≡◌, refl, sym, ap, ◌∙◌, inl, inr, Bool, true, false, not, ◌&&◌, ◌||◌, List, [], ◌∷◌,
  Option, none, some, ◌==◌, ==_refl, ==_iff, arith, Bool-cases, has, erase, Nodup, has-append,
  has-erase_ne, has-erase_self, Nodup-erase, Nodup-snoc,
}
use sipp.Base.Count.{count_of, count_of-drop}
use sipp.Base.Update.{update}
use sipp.Base.Int.{pos, ◌+ℤ◌, ◌-ℤ◌}
use sipp.Task.{
  Slot, Scheduler, add_to_runqueue, remove_from_runqueue, push_slot, take_slot, remove_paused_task,
}
use sipp.Task.Slots.{Placed}
use sipp.Task.Invariant.{
  waits, take_slot-has_self, take_slot-has_ne, take_slot-IsSorted, push_slot-IsSorted,
  push_slot-waits_self, push_slot-waits_ne, standing-waits,
}
use sipp.Task.Rounds.{Stands}

-- The task that an operation has taken from where it was, if any.
abbrev pub is_loose : Option ℕ → ℕ → Bool
is_loose none u = false
is_loose (some t) u = t == u

pub has-erase : (t u : ℕ) (xs : List ℕ) → Nodup xs → has u (erase t xs) ≡ (has u xs && not (t == u))
has-erase t u xs n = elim (Bool-cases (t == u)) [
  | inl y ↦ ground (arith, (==_iff t u).0 y, has-erase_self t xs n)
  | inr z ↦ ground (arith, z, has-erase_ne t u xs (λ e. ground (arith, ==_refl t)))
]

minus_one : (n : ℕ) → (pos (suc n) -ℤ pos 1) ≡ pos n
minus_one n = ground arith

plus_one : (n : ℕ) → (pos n +ℤ pos 1) ≡ pos (suc n)
plus_one n = ground arith

-- All but the lists stays.
take_slot-same :
    (t : ℕ) (s : Scheduler) → take_slot t s ≡ record s { lists = (take_slot t s).lists }
unfolding take_slot
take_slot-same t s = refl

-- The state behind the guard of `remove_from_runqueue`.
abbrev pub unqueued : ℕ → Scheduler → Scheduler
unqueued t s = record s {
  resumed = erase t s.resumed;
  fresh = erase t s.fresh;
  running = update s.running t false;
}

pub remove_from_runqueue_running :
    (t : ℕ) (s : Scheduler) → s.running t ≡ true → remove_from_runqueue t s ≡ (unqueued t s, true)
unfolding remove_from_runqueue
remove_from_runqueue_running t s r = rw r refl

push_slot-waits :
    (l : Slot) (t u : ℕ) (s : Scheduler) → waits (push_slot l t s) u ≡ ((t == u) || waits s u)
push_slot-waits l t u s = elim (Bool-cases (t == u)) [
  | inl y ↦ ground (arith, y, push_slot-waits_self l t s, (==_iff t u).0 y)
  | inr z ↦ ground (arith, z, push_slot-waits_ne l t u s (λ e. ground (arith, ==_refl t)))
]

module _ (wake : ℕ → ℕ) where
  -- Each task of `all_tasks` runs, and stands once in the run queue, or waits, and stands once in the
  -- wheels at the place of its wake time, but a loose one, which does neither; `count` is the number
  -- of those that wait.
  pub record Held (o : Option ℕ) (s : Scheduler) : Type 0 where
    pub stands : Stands wake s.wheel_base s
    pub base : s.wheel_base ≤ s.clock_tick
    pub once : Nodup s.all_tasks
    pub alive : (u : ℕ) → has u s.all_tasks ≡ (s.running u || (waits s u || is_loose o u))
    pub free : (u : ℕ) → is_loose o u ≡ true → (s.running u ≡ false) × (waits s u ≡ false)
    pub queued : (u : ℕ) → (has u s.resumed || has u s.fresh) ≡ s.running u
    pub apart : (u : ℕ) → (has u s.resumed && has u s.fresh) ≡ false
    pub resumed_once : Nodup s.resumed
    pub fresh_once : Nodup s.fresh
    pub counted : s.count ≡ pos (count_of (waits s) s.all_tasks)

module _ {wake : ℕ → ℕ} where
  -- A task that waits does not run.
  pub waits-running :
      {o : Option ℕ} (s : Scheduler)
      → Held wake o s
      → (u : ℕ) → waits s u ≡ true
      → s.running u ≡ false
  waits-running s v u h = (v.stands.standing (s.pauselist u) u h).2

  pub add_to_runqueue-Held :
      (t : ℕ) (s : Scheduler) → Held wake (some t) s → Held wake none (add_to_runqueue t s)
  unfolding add_to_runqueue
  add_to_runqueue-Held t s v = record {
    stands = record {
      standing = λ l u h.
          let (p, q, r) = v.stands.standing l u h in
          (p, q, ground (arith, v.free u, standing-waits s v.stands l u h));
      once = v.stands.once;
    };
    base = v.base;
    once = v.once;
    alive = λ u. ground (arith, v.alive u);
    free = λ u h. ground arith;
    queued = λ u. ground (arith, v.queued u, has-append u s.resumed (t ∷ []));
    apart = λ u. ground (arith, v.apart u, v.queued u, v.free u, has-append u s.resumed (t ∷ []));
    resumed_once =
        Nodup-snoc t s.resumed v.resumed_once (ground (arith, v.queued t, v.free t, ==_refl t));
    fresh_once = v.fresh_once;
    counted = v.counted;
  }

  pub unqueued-Held :
      (t : ℕ) (s : Scheduler)
      → Held wake none s
      → s.running t ≡ true
      → Held wake (some t) (unqueued t s)
  unqueued-Held t s v r = record {
    stands = record {
      standing = λ l u h. let (p, q, e) = v.stands.standing l u h in (p, q, ground (arith, e));
      once = v.stands.once;
    };
    base = v.base;
    once = v.once;
    alive = λ u. ground (arith, v.alive u, r);
    free = λ u h. (ground arith, ground (arith, v.stands.standing (s.pauselist u) u, r));
    queued = λ u. ground (
      arith,
      v.queued u,
      has-erase t u s.resumed v.resumed_once,
      has-erase t u s.fresh v.fresh_once,
    );
    apart = λ u. ground (
      arith,
      v.apart u,
      has-erase t u s.resumed v.resumed_once,
      has-erase t u s.fresh v.fresh_once,
    );
    resumed_once = Nodup-erase t s.resumed v.resumed_once;
    fresh_once = Nodup-erase t s.fresh v.fresh_once;
    counted = v.counted;
  }

  pub take_slot-waits :
      (t : ℕ) (s : Scheduler)
      → Held wake none s
      → (u : ℕ) → waits (take_slot t s) u ≡ (waits s u && not (t == u))
  take_slot-waits t s v u = elim (Bool-cases (t == u)) [
    | inl y ↦
        ground
          (arith, take_slot-has_self s v.stands u ((take_slot t s).pauselist u), (==_iff t u).0 y)
    | inr z ↦ ground (
      arith,
      z,
      take_slot-has_ne s v.stands t u ((take_slot t s).pauselist u)
          (λ e. ground (arith, ==_refl t)),
      take_slot-same t s,
    )
  ]

  pub remove_paused_task-Held :
      (t : ℕ) (s : Scheduler)
      → Held wake none s
      → waits s t ≡ true
      → Held wake (some t) (remove_paused_task t s)
  unfolding remove_paused_task
  remove_paused_task-Held t s v w = record {
    stands =
        (let a = take_slot-IsSorted s v.stands t in
          record { standing = a.standing; once = a.once });
    base = v.base;
    once = v.once;
    alive = λ u. ground (arith, v.alive u, take_slot-waits t s v u, w, (==_iff t u).0);
    free = λ u h. (
      ground (arith, waits-running s v t w, (==_iff t u).0 h),
      ground (arith, take_slot-waits t s v u, h),
    );
    queued = v.queued;
    apart = v.apart;
    resumed_once = v.resumed_once;
    fresh_once = v.fresh_once;
    counted =
        (let fewer =
            count_of-drop t (waits s) (waits (take_slot t s)) s.all_tasks v.once
              (ground (arith, v.alive t, w)) w (ground (arith, take_slot-waits t s v t, ==_refl t))
              (λ u z. ground (arith, take_slot-waits t s v u, z)) in
          ap (λ c. c -ℤ pos 1) (v.counted ∙ ap pos fewer)
          ∙ minus_one (count_of (waits (take_slot t s)) s.all_tasks));
  }

  -- A loose task is in no list.
  nowhere : (t : ℕ) (s : Scheduler) → Held wake (some t) s → (l : Slot) → has t (s.lists l) ≡ false
  nowhere t s v l = elim (Bool-cases (has t (s.lists l))) [
    | inl y ↦ absurd (false≢true (sym (v.free t (==_refl t)).1 ∙ standing-waits s v.stands l t y))
    | inr z ↦ z
  ]

  -- A loose task that goes to its place in the wheels waits.
  pub push_slot-Held :
      (l : Slot) (t : ℕ) (s : Scheduler)
      → Held wake (some t) s
      → Placed s.wheel_base l (wake t)
      → Held wake none (record (push_slot l t s) { count = s.count +ℤ pos 1 })
  unfolding push_slot
  push_slot-Held l t s v p = record {
    stands =
        (let a = push_slot-IsSorted l t s v.stands p (v.free t (==_refl t)).0 (nowhere t s v) in
          record { standing = a.standing; once = a.once });
    base = v.base;
    once = v.once;
    alive = λ u. ground (arith, v.alive u, push_slot-waits l t u s, v.free u);
    free = λ u h. ground arith;
    queued = v.queued;
    apart = v.apart;
    resumed_once = v.resumed_once;
    fresh_once = v.fresh_once;
    counted =
        (let more =
            count_of-drop t (waits (push_slot l t s)) (waits s) s.all_tasks v.once
              (ground (arith, v.alive t, ==_refl t)) (push_slot-waits_self l t s)
              (v.free t (==_refl t)).1 (λ u z. ground (arith, push_slot-waits l t u s, z)) in
          ap (λ c. c +ℤ pos 1) v.counted
          ∙ plus_one (count_of (waits s) s.all_tasks)
          ∙ ap pos (sym more));
  }
