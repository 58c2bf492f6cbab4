-- ===== src/Task/Move.antt =====
-- The moves of src/task.cpp between the wheels (`relocate` and its loops) lose no task, start
-- none, and put each where its wake time says.
use sipp.Base.{
  ℕ, zero, suc, ◌+◌, ◌/◌, ◌%◌, ◌≤◌, ◌<◌, ◌≡◌, ◌≢◌, inl, inr, refl, sym, ap, ◌∙◌, subst, true, false,
  not, ◌&&◌, List, [], ◌∷◌, ◌==◌, ==_refl, ==_iff, arith, if◌then◌else◌, Bool-cases, ltb, length,
  length-erase, has, erase,
}
use sipp.Task.{
  Slot, wheel_one, Scheduler, ok, push_slot, take_slot, relocate_list, relocate, relocate_front,
  relocate_n,
}
use sipp.Task.Slots.{slot_eq_iff, PlacedInRound, place, task2list-place, place-PlacedInRound}
use sipp.Task.Invariant.{
  waits, IsSorted, take_slot-has_self, take_slot-has_ne, take_slot-IsSorted, push_slot-IsSorted,
  push_slot-waits_self, push_slot-waits_ne, push_slot-lists_ne,
}

-- Only the places of the waiting tasks differ.
pub record Moved (s s' : Scheduler) : Type 0 where
  pub waiting : (u : ℕ) → waits s' u ≡ waits s u
  pub running : s'.running ≡ s.running
  pub resumed : s'.resumed ≡ s.resumed
  pub fresh : s'.fresh ≡ s.fresh
  pub all_tasks : s'.all_tasks ≡ s.all_tasks
  pub count : s'.count ≡ s.count
  pub wheel_base : s'.wheel_base ≡ s.wheel_base
  pub clock_tick : s'.clock_tick ≡ s.clock_tick

pub Moved-refl : (s : Scheduler) → Moved s s
Moved-refl s = record {
  waiting = λ u. refl;
  running = refl;
  resumed = refl;
  fresh = refl;
  all_tasks = refl;
  count = refl;
  wheel_base = refl;
  clock_tick = refl;
}

pub Moved-trans : {a b c : Scheduler} → Moved a b → Moved b c → Moved a c
Moved-trans p q = record {
  waiting = λ u. q.waiting u ∙ p.waiting u;
  running = q.running ∙ p.running;
  resumed = q.resumed ∙ p.resumed;
  fresh = q.fresh ∙ p.fresh;
  all_tasks = q.all_tasks ∙ p.all_tasks;
  count = q.count ∙ p.count;
  wheel_base = q.wheel_base ∙ p.wheel_base;
  clock_tick = q.clock_tick ∙ p.clock_tick;
}

take_slot-lists_self :
    (t : ℕ) (s : Scheduler)
    → (take_slot t s).lists (s.pauselist t) ≡ erase t (s.lists (s.pauselist t))
unfolding take_slot
take_slot-lists_self t s = rw ((slot_eq_iff (s.pauselist t) (s.pauselist t)).1 refl)

module _ {P : Slot → ℕ → Type 0} (s : Scheduler) (v : IsSorted P s) (t : ℕ) (l q : Slot) where
  -- A task that stands in `l` moves to `q`.
  move-IsSorted : has t (s.lists l) ≡ true → P q t → IsSorted P (push_slot q t (take_slot t s))
  move-IsSorted h p =
      push_slot-IsSorted q t (take_slot t s) (take_slot-IsSorted s v t) p
        (unfold take_slot in (v.standing l t h).2) (λ j. take_slot-has_self s v t j)

  move-waits :
      (u : ℕ) → has t (s.lists l) ≡ true → waits (push_slot q t (take_slot t s)) u ≡ waits s u
  move-waits u h = elim (Bool-cases (t == u)) [
    | inl e ↦
        subst (λ (k : ℕ). waits (push_slot q t (take_slot t s)) k ≡ waits s k) ((==_iff t u).0 e)
          (push_slot-waits_self q t (take_slot t s)
            ∙ sym (ap (λ k. has t (s.lists k)) (v.standing l t h).1 ∙ h))
    | inr n ↦
        push_slot-waits_ne q t u (take_slot t s) (λ p. ground arith)
        ∙ unfold take_slot in take_slot-has_ne s v t u (s.pauselist u) (λ p. ground arith)
  ]

  move-Moved : has t (s.lists l) ≡ true → Moved s (push_slot q t (take_slot t s))
  unfolding push_slot take_slot
  move-Moved h = record {
    waiting = λ u. move-waits u h;
    running = refl;
    resumed = refl;
    fresh = refl;
    all_tasks = refl;
    count = refl;
    wheel_base = refl;
    clock_tick = refl;
  }

  length-move :
      has t (s.lists l) ≡ true
      → q ≢ l
      → suc (length ((push_slot q t (take_slot t s)).lists l)) ≡ length (s.lists l)
  length-move h n = rw (push_slot-lists_ne q l t (take_slot t s) n) (
      subst (λ k. suc (length ((take_slot t s).lists k)) ≡ length (s.lists k)) (v.standing l t h).1
        (rw (take_slot-lists_self t s)
          (length-erase t _ (ap (λ k. has t (s.lists k)) (v.standing l t h).1 ∙ h))))

-- Where `relocate` puts a waiting task.
abbrev pub replace : ℕ → ℕ → Slot
replace b w = if w / 4096 == b / 4096 + 1 then wheel_one (w % 8192) else place b w

pub replace-PlacedInRound : (b w : ℕ) → w ≢ 0 → b ≤ w → PlacedInRound b (replace b w) w
replace-PlacedInRound b w n h = elim (Bool-cases (w / 4096 == b / 4096 + 1)) [
  | inl e ↦ rw e (omega (arith, (==_iff (w / 4096) (b / 4096 + 1)).0 e))
  | inr e ↦ rw e (place-PlacedInRound b w (λ _. h))
]

module _ (wake : ℕ → ℕ) where
  pub relocate_list-replace :
      (t : ℕ) (s : Scheduler)
      → wake t ≢ 0
      → s.wheel_base ≤ wake t
      → wake t < 4294967296
      → s.wheel_base ≤ s.clock_tick
      → relocate_list wake t s ≡ ok (replace s.wheel_base (wake t))
  unfolding relocate_list
  relocate_list-replace t s n h k c = elim (Bool-cases (wake t / 4096 == s.wheel_base / 4096 + 1)) [
    | inl e ↦ rw e
    | inr e ↦ rw e (task2list-place s.wheel_base s.clock_tick (wake t) c k (λ _. h))
  ]

  pub relocate-replace :
      (t : ℕ) (s : Scheduler)
      → wake t ≢ 0
      → s.wheel_base ≤ wake t
      → wake t < 4294967296
      → s.wheel_base ≤ s.clock_tick
      → relocate wake t s ≡ ok (push_slot (replace s.wheel_base (wake t)) t (take_slot t s))
  unfolding relocate
  relocate-replace t s n h k c =
      let past : (not (wake t == 0) && ltb (wake t) s.wheel_base) ≡ false = ground arith in
      rw (past, relocate_list-replace t s n h k c)

  -- What a loop over the front of list `l` needs of the tasks there.
  pub record CanMove (P : Slot → ℕ → Type 0) (b : ℕ) (l : Slot) : Type 0 where
    pub target : (t : ℕ) → P l t → P (replace b (wake t)) t
    pub leaves : (t : ℕ) → P l t → replace b (wake t) ≢ l
    pub wakes : (t : ℕ) → P l t → wake t ≢ 0
    pub ahead : (t : ℕ) → P l t → b ≤ wake t

  module _ {P : Slot → ℕ → Type 0} (small : (t : ℕ) → wake t < 4294967296) (b c : ℕ) (bc : b ≤ c)
      (l : Slot) (can : CanMove P b l) where
    relocate_front_lem :
        (s : Scheduler) (xs : List ℕ)
        → s.lists l ≡ xs
        → IsSorted P s
        → s.wheel_base ≡ b
        → s.clock_tick ≡ c
        → 0 < length xs
        → (s' : Scheduler) × (relocate_front wake l s xs ≡ ok s')
          × IsSorted P s'
          × Moved s s'
          × (suc (length (s'.lists l)) ≡ length (s.lists l))
    unfolding relocate_front
    relocate_front_lem s [] q v e f h = absurd (omega arith)
    relocate_front_lem s (t ∷ ts) q v e f h =
        let there : has t (s.lists l) ≡ true = rw (q, ==_refl t) in
        let p : P l t = (v.standing l t there).0 in
        (
          push_slot (replace b (wake t)) t (take_slot t s),
          subst
              (λ (k : ℕ). relocate wake t s ≡ ok (push_slot (replace k (wake t)) t (take_slot t s)))
              e
              (relocate-replace t s (can.wakes t p) (omega (arith, can.ahead t p)) (small t)
                (omega arith)),
          move-IsSorted s v t l (replace b (wake t)) there (can.target t p),
          move-Moved s v t l (replace b (wake t)) there,
          length-move s v t l (replace b (wake t)) there (can.leaves t p),
        )

    -- The loop moves `n` tasks and finds no empty list.
    pub relocate_n_lem :
        (n : ℕ) (s : Scheduler)
        → IsSorted P s
        → s.wheel_base ≡ b
        → s.clock_tick ≡ c
        → n ≤ length (s.lists l)
        → (s' : Scheduler) × (relocate_n wake l n s ≡ ok s')
          × IsSorted P s'
          × Moved s s'
          × (length (s'.lists l) + n ≡ length (s.lists l))
    unfolding relocate_n
    relocate_n_lem zero s v e f h = (s, refl, v, Moved-refl s, omega arith)
    relocate_n_lem (suc n) s v e f h =
        let (s1, r1, v1, m1, k1) = relocate_front_lem s (s.lists l) refl v e f (omega arith) in
        let (s2, r2, v2, m2, k2) =
          relocate_n_lem n s1 v1 (m1.wheel_base ∙ e) (m1.clock_tick ∙ f) (omega arith) in
        (s2, rw r1 r2, v2, Moved-trans m1 m2, omega arith)
