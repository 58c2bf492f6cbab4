-- ===== src/Task/Operations.antt =====
-- The operations of src/task.cpp on the globals and the wheels: none fails, and each keeps the tasks
-- running or waiting at their places.
use mathlib.Core.Bool.{false≢true}
use sipp.Base.{
  ℕ, ◌+◌, ◌≤◌, ◌<◌, ◌≡◌, ◌≢◌, refl, sym, ap, subst, ◌∙◌, inl, inr, true, false, not, ◌&&◌, List, [],
  ◌∷◌, none, some, ◌==◌, ltb, ==_refl, arith, Bool-cases, has, erase, length, Nodup, has-append,
  Nodup-erase, Nodup-snoc, Nodup-append,
}
use sipp.Base.Count.{count_of, count_of-same, count_of-snoc, count_of-erase, count_of-remove}
use sipp.Base.Int.{ℤ, pos, ◌+ℤ◌}
use sipp.Task.{
  Scheduler, ok, new_task, add_to_runqueue, push_slot, remove_paused_task, set_running, delete_task,
  add_paused_task, set_paused, expire_paused_tasks, wheel_at,
}
use sipp.Task.Slots.{place, task2list-place, place-PlacedInRound, PlacedInRound-Placed}
use sipp.Task.Invariant.{waits}
use sipp.Task.Held.{
  Held, add_to_runqueue-Held, remove_from_runqueue_running, unqueued, unqueued-Held,
  remove_paused_task-Held, push_slot-Held, waits-running, has-erase,
}
use sipp.Task.Fire.{Woken}
use sipp.Task.Expire.{Expired, expire_paused_tasks-Expired}

cancel_right : (z : ℤ) (m n : ℕ) → (z +ℤ pos n) ≡ pos (m + n) → z ≡ pos m
cancel_right z m n h = ground arith

module _ {wake : ℕ → ℕ} where
  -- A task that does not run waits.
  Held-waits :
      (t : ℕ) (s : Scheduler)
      → Held wake none s
      → has t s.all_tasks ≡ true
      → s.running t ≡ false
      → waits s t ≡ true
  Held-waits t s v a r = ground (arith, v.alive t, a, r)

  pub new_task-Held :
      (t : ℕ) (s : Scheduler)
      → Held wake none s
      → has t s.all_tasks ≡ false
      → Held wake none (new_task t s)
  unfolding new_task
  new_task-Held t s v a = record {
    stands = record {
      standing = λ l u h.
          let (p, q, r) = v.stands.standing l u h in (p, q, ground (arith, v.alive t, a, r, q, h));
      once = v.stands.once;
    };
    base = v.base;
    once = Nodup-snoc t s.all_tasks v.once a;
    alive = λ u. ground (arith, v.alive u, has-append u s.all_tasks (t ∷ []));
    free = λ u h. ground arith;
    queued = λ u. ground (arith, v.queued u, has-append u s.fresh (t ∷ []));
    apart = λ u. ground (arith, v.apart u, v.queued u, v.alive u, has-append u s.fresh (t ∷ []));
    resumed_once = v.resumed_once;
    fresh_once = Nodup-snoc t s.fresh v.fresh_once (ground (arith, v.queued t, v.alive t));
    counted =
        v.counted
        ∙ ap pos (sym (count_of-snoc (waits s) t s.all_tasks (ground (arith, v.alive t, a))));
  }

  pub set_running-Held :
      (t : ℕ) (s : Scheduler)
      → Held wake none s
      → has t s.all_tasks ≡ true
      → Held wake none (set_running t s)
  unfolding set_running
  set_running-Held t s v a = elim (Bool-cases (s.running t)) [
    | inl y ↦ rw y v
    | inr z ↦ rw z (
        add_to_runqueue-Held t (remove_paused_task t s)
          (remove_paused_task-Held t s v (Held-waits t s v a z)))
  ]

  -- The end of `~task`: a loose task leaves the list of all tasks.
  erase-Held :
      (t : ℕ) (s : Scheduler)
      → Held wake (some t) s
      → Held wake none (record s { all_tasks = erase t s.all_tasks })
  erase-Held t s v = record {
    stands = record { standing = v.stands.standing; once = v.stands.once };
    base = v.base;
    once = Nodup-erase t s.all_tasks v.once;
    alive = λ u. ground (arith, v.alive u, has-erase t u s.all_tasks v.once, v.free u);
    free = λ u h. ground arith;
    queued = v.queued;
    apart = v.apart;
    resumed_once = v.resumed_once;
    fresh_once = v.fresh_once;
    counted =
        v.counted ∙ ap pos (sym (count_of-erase (waits s) t s.all_tasks (v.free t (==_refl t)).1));
  }

  pub delete_task-Held :
      (t : ℕ) (s : Scheduler)
      → Held wake none s
      → has t s.all_tasks ≡ true
      → Held wake none (delete_task t s)
  unfolding delete_task
  delete_task-Held t s v a = elim (Bool-cases (s.running t)) [
    | inl y ↦
        rw (y, remove_from_runqueue_running t s y)
          (erase-Held t (unqueued t s) (unqueued-Held t s v y))
    | inr z ↦ rw z (
        erase-Held t (remove_paused_task t s)
          (remove_paused_task-Held t s v (Held-waits t s v a z)))
  ]

  add_paused_task-Held :
      (t : ℕ) (s : Scheduler)
      → wake t < 4294967296
      → Held wake (some t) s
      → (s' : Scheduler) × (add_paused_task wake t s ≡ ok s') × Held wake none s'
  unfolding add_paused_task
  add_paused_task-Held t s small v =
      elim (Bool-cases (not (wake t == 0) && ltb (wake t) s.wheel_base)) [
        | inl y ↦ (add_to_runqueue t s, rw y refl, add_to_runqueue-Held t s v)
        | inr z ↦
            let ahead : wake t ≢ 0 → s.wheel_base ≤ wake t = (λ n. ground (arith, z, n)) in
            (
              record (push_slot (place s.wheel_base (wake t)) t s) { count = s.count +ℤ pos 1 },
              rw (z, task2list-place s.wheel_base s.clock_tick (wake t) v.base small ahead) refl,
              push_slot-Held (place s.wheel_base (wake t)) t s v (
                  PlacedInRound-Placed s.wheel_base (place s.wheel_base (wake t)) (wake t)
                    (place-PlacedInRound s.wheel_base (wake t) ahead)),
            )
      ]

  pub set_paused-Held :
      (t : ℕ) (s : Scheduler)
      → wake t < 4294967296
      → Held wake none s
      → has t s.all_tasks ≡ true
      → (s' : Scheduler) × (set_paused wake t s ≡ ok s') × Held wake none s'
  unfolding set_paused
  set_paused-Held t s small v a = elim (Bool-cases (s.running t)) [
    | inl y ↦
        let (s', e, v') = add_paused_task-Held t (unqueued t s) small (unqueued-Held t s v y) in
        (s', rw (y, remove_from_runqueue_running t s y) e, v')
    | inr z ↦
        let w = Held-waits t s v a z in
        let (s', e, v') =
          add_paused_task-Held t (remove_paused_task t s) small (remove_paused_task-Held t s v w) in
        (s', rw z e, v')
  ]

  -- A woken task waited, so it did not run.
  Woken-ran_not :
      (s s' : Scheduler) (woken : List ℕ)
      → Held wake none s
      → Woken wake s s' woken
      → (u : ℕ) → has u woken ≡ true
      → (s.running u ≡ false) × (has u s.resumed ≡ false) × (has u s.fresh ≡ false)
  Woken-ran_not s s' woken v w u h =
      let r = waits-running s v u (w.waited u h) in
      (r, ground (arith, v.queued u, r), ground (arith, v.queued u, r))

  fewer_waiting :
      (s s' : Scheduler) (woken : List ℕ)
      → Held wake none s
      → Woken wake s s' woken
      → count_of (waits s) s.all_tasks ≡ count_of (waits s') s'.all_tasks + length woken
  fewer_waiting s s' woken v w =
      count_of-remove (waits s) woken s.all_tasks w.once v.once
        (λ u h. (w.waited u h, ground (arith, v.alive u, w.waited u h)))
      ∙ ap (λ k. k + length woken)
          (count_of-same (λ u. waits s u && not (has u woken)) (waits s') s.all_tasks
              (λ u h. sym (w.waiting u))
            ∙ ap (count_of (waits s')) (sym w.all_tasks))

  pub Expired-Held :
      (s s' : Scheduler) (woken : List ℕ)
      → Held wake none s
      → Expired wake s s' woken
      → Held wake none s'
  Expired-Held s s' woken v x =
      let w = x.moves in
      record {
        stands = x.stands;
        base = omega (arith, x.caught_up, w.clock_tick);
        once = subst Nodup (sym w.all_tasks) v.once;
        alive = λ u.
            ground (arith, ap (has u) w.all_tasks, v.alive u, w.running u, w.waiting u, w.waited u);
        free = λ u h. ground arith;
        queued = λ u. ground (
          arith,
          ap (has u) w.resumed,
          ap (has u) w.fresh,
          has-append u s.resumed woken,
          v.queued u,
          w.running u,
        );
        apart = λ u. ground (
          arith,
          ap (has u) w.resumed,
          ap (has u) w.fresh,
          has-append u s.resumed woken,
          v.apart u,
          Woken-ran_not s s' woken v w u,
        );
        resumed_once = subst Nodup (sym w.resumed) (
            Nodup-append s.resumed woken v.resumed_once w.once
              (λ u h. (Woken-ran_not s s' woken v w u h).1));
        fresh_once = subst Nodup (sym w.fresh) v.fresh_once;
        counted =
            cancel_right s'.count (count_of (waits s') s'.all_tasks) (length woken)
              (sym w.count ∙ v.counted ∙ ap pos (fewer_waiting s s' woken v w));
      }

  pub expire_paused_tasks-Held :
      (s : Scheduler)
      → ((t : ℕ) → wake t < 4294967296)
      → Held wake none s
      → (s' : Scheduler) × (n : ℕ) × (expire_paused_tasks wake s ≡ ok (s', n)) × Held wake none s'
  expire_paused_tasks-Held s small v =
      let (s', woken, e, x) = expire_paused_tasks-Expired wake s small v.stands v.base in
      (s', length woken, e, Expired-Held s s' woken v x)

  pub clock-Held :
      (c : ℕ) (s : Scheduler)
      → s.clock_tick ≤ c
      → Held wake none s
      → Held wake none (record s { clock_tick = c })
  clock-Held c s le v = record {
    stands = record { standing = v.stands.standing; once = v.stands.once };
    base = omega (arith, v.base);
    once = v.once;
    alive = v.alive;
    free = v.free;
    queued = v.queued;
    apart = v.apart;
    resumed_once = v.resumed_once;
    fresh_once = v.fresh_once;
    counted = v.counted;
  }

  pub wheel_at-Held : (c : ℕ) → Held wake none (wheel_at c)
  unfolding wheel_at
  wheel_at-Held c = record {
    stands = record { standing = λ l u h. absurd (false≢true h); once = λ l. tt };
    base = omega arith;
    once = tt;
    alive = λ u. refl;
    free = λ u h. ground arith;
    queued = λ u. refl;
    apart = λ u. refl;
    resumed_once = tt;
    fresh_once = tt;
    counted = refl;
  }
