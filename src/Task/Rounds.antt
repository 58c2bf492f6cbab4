-- ===== src/Task/Rounds.antt =====
-- The rounds of `timewheel::expire_paused_tasks` of src/task.cpp: none fails, and each wakes the tasks of
-- its ms.
use mathlib.Core.Bool.{false≢true}
use sipp.Base.{
  ℕ, zero, suc, ◌+◌, ◌-◌, ◌/◌, ◌%◌, ◌≤◌, ◌<◌, ◌≡◌, ◌≢◌, inl, inr, refl, sym, ap, ◌∙◌, subst, false,
  not, ◌&&◌, ◌||◌, List, [], ◌∷◌, ◌++◌, ◌==◌, arith, Bool-cases, length, length-append, has,
}
use sipp.Task.{
  wheel_two, wheel_three, Scheduler, ok, fire, move_third, move_next, expire_ms, expire_loop,
}
use sipp.Task.Slots.{Placed, PlacedInRound, Placed-PlacedInRound, PlacedInRound-Placed}
use sipp.Task.Invariant.{IsSorted}
use sipp.Task.Move.{
  Moved, Moved-refl, Moved-trans, CanMove, relocate_n_lem, replace, replace-PlacedInRound,
}
use sipp.Task.Fire.{
  Woken, Woken-refl, Woken-trans, fire-Woken, fire-IsSorted, fire-wheel_base, due_slot,
}

nil_of_length : (xs : List ℕ) → length xs ≡ 0 → xs ≡ []
nil_of_length [] h = refl
nil_of_length (x ∷ xs) h = absurd (omega arith)

-- The share of a ms is no more than what is left, and all of it in the last ms.
share_le : (n d : ℕ) → 0 < d → (n + d - 1) / d ≤ n
share_le n d h = grind arith

share_one : (n d : ℕ) → d ≡ 1 → (n + d - 1) / d ≡ n
share_one n d h = rw h (omega arith)

module _ (wake : ℕ → ℕ) where
  -- Each waiting task stands where its wake time says at base `b`.
  abbrev pub Stands : ℕ → Scheduler → Type 0
  Stands b s = IsSorted (λ l u. Placed b l (wake u)) s

  -- The same, once the round has moved the slot of the third wheel.
  abbrev pub StandsInRound : ℕ → Scheduler → Type 0
  StandsInRound b s = IsSorted (λ l u. PlacedInRound b l (wake u)) s

  module _ (small : (t : ℕ) → wake t < 4294967296) where
    third_can :
        (b : ℕ)
        → (b / 4096 + 1) % 1024 ≡ 0
        → CanMove wake (λ l u. Placed b l (wake u)) b (wheel_three ((b / 4096 + 1) / 1024 % 1024))
    third_can b e = record {
      target = λ t p.
          PlacedInRound-Placed b (replace b (wake t)) (wake t)
            (replace-PlacedInRound b (wake t) (λ z. omega arith) (omega arith));
      leaves = λ t p. (let k = small t in ground arith);
      wakes = λ t p z. omega arith;
      ahead = λ t p. omega arith;
    }

    next_can :
        (b : ℕ)
        → CanMove wake (λ l u. PlacedInRound b l (wake u)) b (wheel_two ((b / 4096 + 1) % 1024))
    next_can b = record {
      target = λ t p. replace-PlacedInRound b (wake t) (λ z. omega arith) (omega arith);
      leaves = λ t p. ground arith;
      wakes = λ t p z. omega arith;
      ahead = λ t p. omega arith;
    }

    in_round_of_moved :
        (b : ℕ) (s : Scheduler)
        → Stands b s
        → length (s.lists (wheel_three ((b / 4096 + 1) / 1024 % 1024))) ≡ 0
        → StandsInRound b s
    in_round_of_moved b s v e = record {
      standing = λ l u h.
          let (p, q, r) = v.standing l u h in
          (
            Placed-PlacedInRound b l (wake u) p
                (inl (λ d. absurd (
                  false≢true
                    (ap (has u) (sym (nil_of_length _ e)) ∙ ap (λ k. has u (s.lists k)) d ∙ h))))
                (small u),
            q,
            r,
          );
      once = v.once;
    }

    in_round_of_still :
        (b : ℕ) (s : Scheduler)
        → Stands b s
        → (((4096 - b % 4096) == 4096) && ((b / 4096 + 1) % 1024 == 0)) ≡ false
        → StandsInRound b s
    in_round_of_still b s v e = record {
      standing = λ l u h.
          let (p, q, r) = v.standing l u h in
          (Placed-PlacedInRound b l (wake u) p (inr e) (small u), q, r);
      once = v.once;
    }

    move_third_lem :
        (s : Scheduler)
        → Stands s.wheel_base s
        → s.wheel_base ≤ s.clock_tick
        → (s' : Scheduler) × (move_third wake s ≡ ok s')
          × StandsInRound s.wheel_base s'
          × Moved s s'
    unfolding move_third
    move_third_lem s v c =
        let b = s.wheel_base in
        elim (Bool-cases (((4096 - b % 4096) == 4096) && ((b / 4096 + 1) % 1024 == 0))) [
          | inl e ↦
              let block : (b / 4096 + 1) % 1024 ≡ 0 = ground arith in
              let (s', r, v', m, k) =
                relocate_n_lem wake small b s.clock_tick c _ (third_can b block)
                  (length (s.lists (wheel_three ((b / 4096 + 1) / 1024 % 1024)))) s v refl refl
                  (omega arith) in
              (s', rw e r, in_round_of_moved b s' v' (omega arith), m)
          | inr e ↦ (s, rw e, in_round_of_still b s v e, Moved-refl s)
        ]

    move_next_lem :
        (s : Scheduler)
        → StandsInRound s.wheel_base s
        → s.wheel_base ≤ s.clock_tick
        → (s' : Scheduler) × (move_next wake s ≡ ok s')
          × StandsInRound s.wheel_base s'
          × Moved s s'
          × (4096 - s.wheel_base % 4096 ≡ 1
              → s'.lists (wheel_two ((s.wheel_base / 4096 + 1) % 1024)) ≡ [])
    unfolding move_next
    move_next_lem s v c =
        let b = s.wheel_base in
        let next = wheel_two ((b / 4096 + 1) % 1024) in
        let left = 4096 - b % 4096 in
        let (s', r, v', m, k) =
          relocate_n_lem wake small b s.clock_tick c next (next_can b)
            ((length (s.lists next) + left - 1) / left) s v refl refl
            (share_le (length (s.lists next)) left (omega arith)) in
        (
          s',
          r,
          v',
          m,
          λ one.
              nil_of_length (s'.lists next)
                (omega (arith, share_one (length (s.lists next)) left one)),
        )

    Woken-after-Moved :
        {a b c : Scheduler} {xs : List ℕ} → Moved a b → Woken wake b c xs → Woken wake a c xs
    Woken-after-Moved {a} {b} {c} {xs} m w = record {
      resumed = w.resumed ∙ ap (λ l. l ++ xs) m.resumed;
      waiting = λ u. w.waiting u ∙ ap (λ k. k && not (has u xs)) (m.waiting u);
      running = λ u. w.running u ∙ ap (λ f. f u || has u xs) m.running;
      waited = λ u h. sym (m.waiting u) ∙ w.waited u h;
      times = λ u h.
          subst (λ (k : ℕ). (wake u ≢ 0) × (k ≤ wake u) × (wake u < c.wheel_base)) m.wheel_base
            (w.times u h);
      ordered = w.ordered;
      once = w.once;
      fresh = w.fresh ∙ m.fresh;
      all_tasks = w.all_tasks ∙ m.all_tasks;
      clock_tick = w.clock_tick ∙ m.clock_tick;
      count = sym m.count ∙ w.count;
    }

    expire_ms_steps :
        (s s1 s2 : Scheduler)
        → move_third wake s ≡ ok s1
        → move_next wake s1 ≡ ok s2
        → expire_ms wake s ≡ ok ((fire s2).0, length (s2.lists (due_slot s2.wheel_base)))
    unfolding expire_ms fire
    expire_ms_steps s s1 s2 p q = rw p (rw q)

    -- One round runs, and wakes what is due at its ms.
    expire_ms_lem :
        (s : Scheduler)
        → Stands s.wheel_base s
        → s.wheel_base ≤ s.clock_tick
        → (s' : Scheduler) × (woken : List ℕ) × (expire_ms wake s ≡ ok (s', length woken))
          × Stands s'.wheel_base s'
          × (s'.wheel_base ≡ s.wheel_base + 1)
          × Woken wake s s' woken
    expire_ms_lem s v c =
        let (s1, r1, v1, m1) = move_third_lem s v c in
        let (s2, r2, v2, m2, k2) =
          move_next_lem s1 (subst (λ b. StandsInRound b s1) (sym m1.wheel_base) v1)
            (omega (arith, m1.wheel_base, m1.clock_tick)) in
        let m = Moved-trans m1 m2 in
        let v3 = subst (λ b. StandsInRound b s2) (sym m2.wheel_base) v2 in
        let k3 : 4096 - s2.wheel_base % 4096 ≡ 1
            → s2.lists (wheel_two ((s2.wheel_base / 4096 + 1) % 1024)) ≡ [] =
          subst (λ (b : ℕ). 4096 - b % 4096 ≡ 1 → s2.lists (wheel_two ((b / 4096 + 1) % 1024)) ≡ [])
            (sym m2.wheel_base) k2 in
        (
          (fire s2).0,
          s2.lists (due_slot s2.wheel_base),
          expire_ms_steps s s1 s2 r1 r2,
          subst (λ b. Stands b (fire s2).0) (sym (fire-wheel_base s2))
              (fire-IsSorted wake s2 v3 k3),
          fire-wheel_base s2 ∙ ap (λ (b : ℕ). b + 1) m.wheel_base,
          Woken-after-Moved m (fire-Woken wake s2 v3 k3),
        )

    pub expire_loop_lem :
        (n found : ℕ) (s : Scheduler)
        → Stands s.wheel_base s
        → s.wheel_base + n ≡ s.clock_tick
        → (s' : Scheduler) × (woken : List ℕ) × (expire_loop wake n found s
            ≡ ok (s', found + length woken))
          × Stands s'.wheel_base s'
          × (s'.wheel_base ≡ s.clock_tick)
          × Woken wake s s' woken
    unfolding expire_loop
    expire_loop_lem zero found s v e =
        (s, [], ap (λ (k : ℕ). ok (s, k)) (omega arith), v, omega arith, Woken-refl s)
    expire_loop_lem (suc n) found s v e =
        let (s1, xs, r1, v1, b1, w1) = expire_ms_lem s v (omega arith) in
        let (s2, ys, r2, v2, b2, w2) =
          expire_loop_lem n (found + length xs) s1 v1 (omega (arith, w1.clock_tick)) in
        (
          s2,
          xs ++ ys,
          rw r1 (r2 ∙ ap (λ (k : ℕ). ok (s2, k)) (omega (arith, length-append {0} xs ys))),
          v2,
          b2 ∙ w1.clock_tick,
          Woken-trans xs ys (omega arith) (omega (arith, w1.clock_tick)) w1 w2,
        )
