-- ===== src/Task/Fire.antt =====
-- The tasks that leave the wheels (`fire` of the loop in src/task.cpp): which, in which order, and
-- what is left of the rest.
use sipp.Base.{
  ℕ, ◌+◌, ◌-◌, ◌/◌, ◌%◌, ◌≤◌, ◌<◌, ◌≡◌, ◌≢◌, inl, inr, refl, sym, ap, ◌∙◌, subst, true, false, not,
  ◌&&◌, ◌||◌, List, [], ◌∷◌, ◌++◌, ==_refl, arith, Bool-cases, length, length-append, has,
  has-append, Nodup, Nodup-append,
}
use mathlib.Core.Bool.{false≢true}
use mathlib.Core.List.{append_assoc, append-nil}
use sipp.Base.Int.{pos, ◌+ℤ◌, ◌-ℤ◌}
use sipp.Task.{Slot, wheel_one, wheel_two, set_list, Scheduler, run_due, fire, add_to_runqueue}
use sipp.Task.Slots.{Placed, PlacedInRound, PlacedInRound-next, PlacedInRound-due}
use sipp.Task.Invariant.{waits, IsSorted, set_list_lem, standing-waits}

module _ (wake : ℕ → ℕ) where
  -- In the order of the wake times.
  abbrev pub Ordered : List ℕ → Type 0
  Ordered [] = Unit
  Ordered (t ∷ ts) = ((u : ℕ) → has u ts ≡ true → wake t ≤ wake u) × Ordered ts

  pub Ordered-append :
      (xs ys : List ℕ)
      → Ordered xs
      → Ordered ys
      → ((t u : ℕ) → has t xs ≡ true → has u ys ≡ true → wake t ≤ wake u)
      → Ordered (xs ++ ys)
  Ordered-append [] ys p q r = q
  Ordered-append (x ∷ xs) ys p q r = (
    (λ u h. elim (Bool-cases (has u xs)) [
      | inl y ↦ p.0 u y
      | inr n ↦ r x u (ground (arith, ==_refl x)) (ground (arith, has-append u xs ys))
    ]),
    Ordered-append xs ys p.1 q (λ t u h k. r t u (ground arith) k),
  )

  pub Ordered-const : (b : ℕ) (xs : List ℕ) → ((u : ℕ) → has u xs ≡ true → wake u ≡ b) → Ordered xs
  Ordered-const b [] h = tt
  Ordered-const b (x ∷ xs) h = (
    (λ u k. omega (arith, h u (ground arith), h x (ground (arith, ==_refl x)))),
    Ordered-const b xs (λ u k. h u (ground arith)),
  )

  -- From `s` to `s'` the tasks of `woken`, and no others, went into the run queue.
  pub record Woken (s s' : Scheduler) (woken : List ℕ) : Type 0 where
    pub resumed : s'.resumed ≡ s.resumed ++ woken
    pub waiting : (u : ℕ) → waits s' u ≡ (waits s u && not (has u woken))
    pub running : (u : ℕ) → s'.running u ≡ (s.running u || has u woken)
    pub waited : (u : ℕ) → has u woken ≡ true → waits s u ≡ true
    pub times :
        (u : ℕ)
        → has u woken ≡ true
        → (wake u ≢ 0) × (s.wheel_base ≤ wake u) × (wake u < s'.wheel_base)
    pub ordered : Ordered woken
    pub once : Nodup woken
    pub fresh : s'.fresh ≡ s.fresh
    pub all_tasks : s'.all_tasks ≡ s.all_tasks
    pub clock_tick : s'.clock_tick ≡ s.clock_tick
    pub count : s.count ≡ s'.count +ℤ pos (length woken)

module _ {wake : ℕ → ℕ} where
  pub Woken-refl : (s : Scheduler) → Woken wake s s []
  Woken-refl s = record {
    resumed = sym (append-nil s.resumed);
    waiting = λ u. ground arith;
    running = λ u. ground arith;
    waited = λ u h. absurd (false≢true h);
    times = λ u h. absurd (false≢true h);
    ordered = tt;
    once = tt;
    fresh = refl;
    all_tasks = refl;
    clock_tick = refl;
    count = ground arith;
  }

  pub Woken-trans :
      {a b c : Scheduler} (xs ys : List ℕ)
      → a.wheel_base ≤ b.wheel_base
      → b.wheel_base ≤ c.wheel_base
      → Woken wake a b xs
      → Woken wake b c ys
      → Woken wake a c (xs ++ ys)
  Woken-trans {a} {b} {c} xs ys le le' p q = record {
    resumed = q.resumed ∙ ap (λ l. l ++ ys) p.resumed ∙ append_assoc a.resumed xs ys;
    waiting = λ u. ground (arith, has-append u xs ys, p.waiting u, q.waiting u);
    running = λ u. ground (arith, has-append u xs ys, p.running u, q.running u);
    waited = λ u h. ground (arith, has-append u xs ys, p.waited u, q.waited u, p.waiting u);
    times = λ u h. elim (Bool-cases (has u xs)) [
      | inl y ↦ let (n, l, m) = p.times u y in (n, l, omega arith)
      | inr z ↦
          let (n, l, m) = q.times u (ground (arith, has-append u xs ys)) in (n, omega arith, m)
    ];
    ordered =
        Ordered-append wake xs ys p.ordered q.ordered
          (λ t u h k. omega (arith, (p.times t h).2, (q.times u k).1));
    once = Nodup-append xs ys p.once q.once (λ u h. ground (arith, q.waited u h, p.waiting u));
    fresh = q.fresh ∙ p.fresh;
    all_tasks = q.all_tasks ∙ p.all_tasks;
    clock_tick = q.clock_tick ∙ p.clock_tick;
    count = ground (arith, p.count, q.count, length-append xs ys);
  }

pub record RanDue (ts : List ℕ) (s s' : Scheduler) : Type 0 where
  pub resumed : s'.resumed ≡ s.resumed ++ ts
  pub running : (u : ℕ) → s'.running u ≡ (s.running u || has u ts)
  pub lists : s'.lists ≡ s.lists
  pub pauselist : s'.pauselist ≡ s.pauselist
  pub fresh : s'.fresh ≡ s.fresh
  pub all_tasks : s'.all_tasks ≡ s.all_tasks
  pub wheel_base : s'.wheel_base ≡ s.wheel_base
  pub clock_tick : s'.clock_tick ≡ s.clock_tick
  pub count : s.count ≡ s'.count +ℤ pos (length ts)

pub run_due_lem : (ts : List ℕ) (s : Scheduler) → RanDue ts s (run_due ts s)
unfolding run_due add_to_runqueue
run_due_lem [] s = record {
  resumed = sym (append-nil s.resumed);
  running = λ u. ground arith;
  lists = refl;
  pauselist = refl;
  fresh = refl;
  all_tasks = refl;
  wheel_base = refl;
  clock_tick = refl;
  count = ground arith;
}
run_due_lem (t ∷ ts) s =
    let r = run_due_lem ts (record (add_to_runqueue t s) { count = s.count -ℤ pos 1 }) in
    record {
      resumed = r.resumed ∙ append_assoc s.resumed (t ∷ []) ts;
      running = λ u. ground (arith, r.running u);
      lists = r.lists;
      pauselist = r.pauselist;
      fresh = r.fresh;
      all_tasks = r.all_tasks;
      wheel_base = r.wheel_base;
      clock_tick = r.clock_tick;
      count = ground (arith, r.count);
    }

-- The list of this ms.
abbrev pub due_slot : ℕ → Slot
due_slot b = wheel_one (b % 8192)

fire-lists : (s : Scheduler) → (fire s).0.lists ≡ set_list s.lists (due_slot s.wheel_base) []
unfolding fire
fire-lists s =
    ap (λ f. set_list f (due_slot s.wheel_base) [])
      (run_due_lem (s.lists (due_slot s.wheel_base)) s).lists

fire-pauselist : (s : Scheduler) → (fire s).0.pauselist ≡ s.pauselist
unfolding fire
fire-pauselist s = (run_due_lem (s.lists (due_slot s.wheel_base)) s).pauselist

pub fire-wheel_base : (s : Scheduler) → (fire s).0.wheel_base ≡ s.wheel_base + 1
unfolding fire
fire-wheel_base s =
    ap (λ (n : ℕ). n + 1) (run_due_lem (s.lists (due_slot s.wheel_base)) s).wheel_base

module _ (wake : ℕ → ℕ) (s : Scheduler) where
  abbrev pub InRound : Slot → ℕ → Type 0
  InRound l u = PlacedInRound s.wheel_base l (wake u)

  -- The round has moved all that it must from the second wheel.
  abbrev pub LastMoved : Type 0
  LastMoved =
      4096 - s.wheel_base % 4096 ≡ 1 → s.lists (wheel_two ((s.wheel_base / 4096 + 1) % 1024)) ≡ []

  module _ (v : IsSorted InRound s) (last : LastMoved) where
    fire-running :
        (u : ℕ) → (fire s).0.running u ≡ (s.running u || has u (s.lists (due_slot s.wheel_base)))
    unfolding fire
    fire-running u = (run_due_lem (s.lists (due_slot s.wheel_base)) s).running u

    -- A task of another list is not in that of this ms.
    not_due :
        (l : Slot) (u : ℕ)
        → due_slot s.wheel_base ≢ l
        → has u (s.lists l) ≡ true
        → has u (s.lists (due_slot s.wheel_base)) ≡ false
    not_due l u n h = elim (Bool-cases (has u (s.lists (due_slot s.wheel_base)))) [
      | inl y ↦ absurd (n (sym (v.standing _ u y).1 ∙ (v.standing l u h).1))
      | inr z ↦ z
    ]

    fire-standing :
        (l : Slot) (u : ℕ)
        → has u ((fire s).0.lists l) ≡ true
        → Placed (s.wheel_base + 1) l (wake u)
          × ((fire s).0.pauselist u ≡ l)
          × ((fire s).0.running u ≡ false)
    fire-standing l u h = elim (set_list_lem s.lists (due_slot s.wheel_base) l []) [
      | inl (e, q) ↦
          absurd (false≢true (sym (ap (has u) q) ∙ ap (λ f. has u (f l)) (sym (fire-lists s)) ∙ h))
      | inr (n, q) ↦
          let there : has u (s.lists l) ≡ true =
            sym (ap (has u) q) ∙ ap (λ f. has u (f l)) (sym (fire-lists s)) ∙ h in
          let (a, b, c) = v.standing l u there in
          (
            PlacedInRound-next s.wheel_base l (wake u) a n (λ m e.
                absurd
                  (false≢true (ap (has u) (sym (last m)) ∙ ap (λ k. has u (s.lists k)) e ∙ there))),
            ap (λ f. f u) (fire-pauselist s) ∙ b,
            fire-running u ∙ ground (arith, not_due l u n there),
          )
    ]

    pub fire-IsSorted : IsSorted (λ l u. Placed (s.wheel_base + 1) l (wake u)) (fire s).0
    fire-IsSorted = record {
      standing = fire-standing;
      once = λ l.
          subst (λ f. Nodup (f l)) (sym (fire-lists s))
            (elim (set_list_lem s.lists (due_slot s.wheel_base) l []) [
              | inl (e, q) ↦ rw q tt
              | inr (n, q) ↦ rw q (v.once l)
            ]);
    }

    due_wake :
        (u : ℕ)
        → has u (s.lists (due_slot s.wheel_base)) ≡ true
        → (wake u ≢ 0) × (wake u ≡ s.wheel_base)
    due_wake u h =
        let p = (v.standing _ u h).0 in
        ((λ e. omega arith), PlacedInRound-due s.wheel_base (wake u) p)

    fire-waits :
        (u : ℕ) → waits (fire s).0 u ≡ (waits s u && not (has u (s.lists (due_slot s.wheel_base))))
    fire-waits u =
        ap (λ f. has u (f ((fire s).0.pauselist u))) (fire-lists s)
        ∙ ap (λ f. has u (set_list s.lists (due_slot s.wheel_base) [] (f u))) (fire-pauselist s)
        ∙ elim (set_list_lem s.lists (due_slot s.wheel_base) (s.pauselist u) []) [
          | inl (e, q) ↦ rw q (rw e (ground arith))
          | inr (n, q) ↦ rw q (elim (Bool-cases (has u (s.lists (due_slot s.wheel_base)))) [
            | inl y ↦ absurd (n (sym (v.standing _ u y).1))
            | inr z ↦ rw z (ground arith)
          ])
        ]

    pub fire-Woken : Woken wake s (fire s).0 (s.lists (due_slot s.wheel_base))
    unfolding fire
    fire-Woken =
        let due = s.lists (due_slot s.wheel_base) in
        let r = run_due_lem due s in
        record {
          resumed = r.resumed;
          waiting = λ u. fire-waits u;
          running = r.running;
          waited = λ u h. standing-waits s v (due_slot s.wheel_base) u h;
          times = λ u h. (
            (due_wake u h).0,
            omega (arith, (due_wake u h).1),
            omega (arith, (due_wake u h).1, r.wheel_base),
          );
          ordered = Ordered-const wake s.wheel_base due (λ u h. (due_wake u h).1);
          once = v.once (due_slot s.wheel_base);
          fresh = r.fresh;
          all_tasks = r.all_tasks;
          clock_tick = r.clock_tick;
          count = r.count;
        }
