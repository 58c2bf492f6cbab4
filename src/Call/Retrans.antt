-- ===== src/Call/Retrans.antt =====
-- The retransmissions of a call of src/call.cpp are those of RFC 3261, 17.1.
use sipp.Base.{
  ℕ, zero, suc, ◌+◌, ◌*◌, ◌^◌, ◌≤◌, ◌<◌, min, ◌≡◌, refl, sym, ap, subst, ◌∙◌, Bool, true, false,
  not, ◌&&◌, List, [], ◌∷◌, ◌++◌, Option, none, some, ltb, ◌==◌, if◌then◌else◌, length,
  get_elem?-lt, arith, Bool-cases, Option-cases, ◌⊎◌, inl, inr,
}
use native.Mathlib.Nat.{mul_assoc, add-zero}
use sipp.Call.{
  Settings, Scenario, Call, Event, timed_out, sent_retrans, sends, counts, Outcome, uint, is_invite,
  rt_allowed, next_delay, e_retransmission, set_retrans, retransmit, retrans_timeout,
}

abbrev pub sendings : List Event → ℕ
sendings [] = 0
sendings (sends _ ∷ es) = suc (sendings es)
sendings (timed_out _ ∷ es) = sendings es
sendings (sent_retrans _ ∷ es) = sendings es
sendings (counts _ ∷ es) = sendings es

-- The delay behind the `k`-th retransmission: doubled each time, at most T2 but for an INVITE.
abbrev pub backoff : Bool → ℕ → ℕ → ℕ → ℕ
backoff invite t2 delay zero = delay
backoff invite t2 delay (suc k) = if invite then delay * 2 ^ suc k else min (delay * 2 ^ suc k) t2

-- Clock ticks that are each later than the delay after the one before.
abbrev pub due : (ℕ → ℕ) → ℕ → ℕ → List ℕ → Bool
due delays k last [] = true
due delays k last (t ∷ ts) = ltb (last + delays k) t && ltb t (2 ^ 32) && due delays (suc k) t ts

abbrev pub final : ℕ → List ℕ → ℕ
final last [] = last
final last (t ∷ ts) = final t ts

due-append :
    (delays : ℕ → ℕ) (k last : ℕ) (ts : List ℕ) (t : ℕ)
    → due delays k last (ts ++ (t ∷ [])) ≡ true
    → (due delays k last ts ≡ true)
      × (final last ts + delays (k + length ts) < t)
      × (t < 2 ^ 32)
      × (last ≤ final last ts)
due-append delays k last [] t h =
    let now : last + delays k < t = ground arith in
    (refl, subst (λ n. last + delays n < t) (sym (add-zero k)) now, ground arith, omega arith)
due-append delays k last (x ∷ xs) t h =
    let up : suc k + length xs ≡ k + suc (length xs) = omega arith in
    let (before, late, soon, after) = due-append delays (suc k) x xs t (ground arith) in
    let less : last + delays k < x = ground arith in
    (ground arith, subst (λ n. final x xs + delays n < t) up late, soon, omega arith)

doubled : (k d : ℕ) → d * 2 ^ suc k ≡ d * 2 ^ k * 2
doubled k d =
    let e : 2 ^ suc k ≡ 2 ^ k * 2 = omega arith in ap (λ x. d * x) e ∙ sym (mul_assoc d (2 ^ k) 2)

doubled-le : (j k d : ℕ) → d * 2 ^ k ≤ d * 2 ^ (k + j)
doubled-le zero k d = subst (λ n. d * 2 ^ k ≤ d * 2 ^ n) (sym (add-zero k)) (omega arith)
doubled-le (suc j) k d =
    let up : suc (k + j) ≡ k + suc j = omega arith in
    subst (λ n. d * 2 ^ k ≤ d * 2 ^ n) up (omega (arith, doubled-le j k d, doubled (k + j) d))

module _ (settings : Settings) (scenario : Scenario) where
  next_delay_invite : (x : ℕ) → x * 2 < 2 ^ 32 → next_delay settings scenario true x ≡ x * 2
  next_delay_invite x h = ground arith

  next_delay_other :
      (x : ℕ)
      → x * 2 < 2 ^ 32
      → next_delay settings scenario false x ≡ min (x * 2) settings.global_t2
  next_delay_other x h = ground arith

  next_delay_least :
      (x : ℕ)
      → x * 2 < 2 ^ 32
      → settings.global_t2 < 2 ^ 31
      → next_delay settings scenario false (min x settings.global_t2)
        ≡ min (x * 2) settings.global_t2
  next_delay_least x h l = ground arith

  next_delay-backoff :
      (invite : Bool) (d k : ℕ)
      → d * 2 ^ suc k < 2 ^ 32
      → settings.global_t2 < 2 ^ 31
      → next_delay settings scenario invite (backoff invite settings.global_t2 d k)
        ≡ backoff invite settings.global_t2 d (suc k)
  next_delay-backoff true d zero h l = next_delay_invite d h
  next_delay-backoff true d (suc k) h l =
      rw (doubled (suc k) d) (next_delay_invite (d * 2 ^ suc k) (omega (arith, doubled (suc k) d)))
  next_delay-backoff false d zero h l = next_delay_other d h
  next_delay-backoff false d (suc k) h l =
      rw (doubled (suc k) d) (next_delay_least (d * 2 ^ suc k) (omega (arith, doubled (suc k) d)) l)

  -- The retransmissions at clock ticks, each of which `run` goes on from.
  abbrev pub firings : List ℕ → Call → Option (List Event × Call)
  firings [] c = some ([], c)
  firings (t ∷ ts) c = elim (retransmit settings scenario t true c) [
    | none ↦ none
    | some (inl _) ↦ none
    | some (inr (es, c')) ↦ elim (firings ts c') [
      | none ↦ none
      | some (more, c'') ↦ some (es ++ more, c'')
    ]
  ]

  -- How often one step sends the message.
  abbrev pub sends_now : Option ((List Event × Outcome) ⊎ (List Event × Call)) → Option ℕ
  sends_now none = none
  sends_now (some (inl (es, o))) = some (sendings es)
  sends_now (some (inr (es, c))) = some (sendings es)

  module _ (c : Call) (d : ℕ) (sent : c.last_send_index < length scenario.messages)
      (small : settings.global_t2 < 2 ^ 31) where
    abbrev delays : ℕ → ℕ
    delays = backoff (is_invite c) settings.global_t2 d

    -- The call after `k` retransmissions, the last at a clock tick.
    abbrev retried : ℕ → ℕ → Call
    retried k last = record c {
      next_retrans = uint (last + delays k);
      nb_retrans = k;
      nb_last_delay = delays k;
    }

    abbrev again : List Event
    again = sends c.last_send_msg ∷ sent_retrans c.last_send_index ∷ counts e_retransmission ∷ []

    retransmit-retried :
        (k last t : ℕ)
        → 0 < last
        → last + delays k < t
        → t < 2 ^ 32
        → d * 2 ^ suc k < 2 ^ 32
        → suc k ≤ rt_allowed settings scenario (is_invite c)
        → retransmit settings scenario t true (retried k last)
          ≡ some (inr (again, retried (suc k) t))
    unfolding retransmit
    retransmit-retried k last t p q r h a =
        let whole : uint (last + delays k) ≡ last + delays k = ground arith in
        let set : (not (uint (last + delays k) == 0) && ltb (uint (last + delays k)) t) ≡ true =
          rw whole (ground arith) in
        let more : ltb (rt_allowed settings scenario (is_invite c)) (k + 1) ≡ false =
          ground arith in
        let there : ltb c.last_send_index (length scenario.messages) ≡ true = ground arith in
        let up : k + 1 ≡ suc k = omega arith in
        rw (retransmit, set, more, there, next_delay-backoff (is_invite c) d k h small, up) refl

    retransmit-used_up :
        (k last t : ℕ)
        → 0 < last
        → last + delays k < t
        → t < 2 ^ 32
        → k ≡ rt_allowed settings scenario (is_invite c)
        → sends_now (retransmit settings scenario t true (retried k last)) ≡ some 0
    unfolding retransmit retrans_timeout
    retransmit-used_up k last t p q r a =
        let whole : uint (last + delays k) ≡ last + delays k = ground arith in
        let set : (not (uint (last + delays k) == 0) && ltb (uint (last + delays k)) t) ≡ true =
          rw whole (ground arith) in
        let more : ltb (rt_allowed settings scenario (is_invite c)) (k + 1) ≡ true = ground arith in
        let (m, there) = get_elem?-lt scenario.messages c.last_send_index sent in
        elim (Option-cases m.on_timeout) [
          | inl e ↦ rw (retransmit, set, more, there, e) refl
          | inr (label, e) ↦ elim (Bool-cases (ltb label (length scenario.messages))) [
            | inl f ↦ rw (retransmit, set, more, there, e, f) refl
            | inr f ↦ rw (retransmit, set, more, there, e, f) refl
          ]
        ]

    set_retrans-retried : (t0 : ℕ) → 0 < d → set_retrans t0 true d c ≡ retried 0 t0
    unfolding set_retrans
    set_retrans-retried t0 p = let given : (d == 0) ≡ false = ground arith in rw given refl

    firings-retried :
        (ts : List ℕ) (k last : ℕ)
        → 0 < last
        → due delays k last ts ≡ true
        → d * 2 ^ (k + length ts) < 2 ^ 32
        → k + length ts ≤ rt_allowed settings scenario (is_invite c)
        → (es : List Event) × (firings ts (retried k last)
            ≡ some (es, retried (k + length ts) (final last ts)))
          × (sendings es ≡ length ts)
    firings-retried [] k last p q h a = ([], rw (add-zero k) refl, refl)
    firings-retried (t ∷ ts) k last p q h a =
        let up : k + suc (length ts) ≡ suc k + length ts = omega arith in
        let h' : d * 2 ^ (suc k + length ts) < 2 ^ 32 = subst (λ n. d * 2 ^ n < 2 ^ 32) up h in
        let (es, f, n) =
          firings-retried ts (suc k) t (ground arith) (ground arith) h' (omega arith) in
        let now : retransmit settings scenario t true (retried k last)
            ≡ some (inr (again, retried (suc k) t)) =
          retransmit-retried k last t p (ground arith) (ground arith)
            (omega (arith, doubled-le (length ts) (suc k) d)) (omega arith) in
        (again ++ es, rw (firings, now, f, up) refl, ap suc n)

-- A message is sent at a clock tick `t0` by UDP with retransmissions, `d` ms after it the first, and run then
-- fires at clock ticks, each later than the delay after the one before: `d` doubled each time, and but for an
-- INVITE at most T2. As long as there are no more of them than may be, each sends the message again, the timer
-- is set to the next delay, and the next firing sends it again if it may and never after that.
pub firings-backoff :
    (settings : Settings) (scenario : Scenario) (c : Call) (d t0 : ℕ) (ts : List ℕ) (t : ℕ)
    → c.last_send_index < length scenario.messages
    → settings.global_t2 < 2 ^ 31
    → 0 < t0
    → 0 < d
    → due (backoff (is_invite c) settings.global_t2 d) 0 t0 (ts ++ (t ∷ [])) ≡ true
    → d * 2 ^ (length ts + 1) < 2 ^ 32
    → length ts ≤ rt_allowed settings scenario (is_invite c)
    → (es : List Event) × (c' : Call) × (firings settings scenario ts (set_retrans t0 true d c)
        ≡ some (es, c'))
      × (sendings es ≡ length ts)
      × (c'.next_retrans ≡ final t0 ts + backoff (is_invite c) settings.global_t2 d (length ts))
      × (sends_now settings scenario (retransmit settings scenario t true c')
          ≡ some (if ltb (length ts) (rt_allowed settings scenario (is_invite c)) then 1 else 0))
firings-backoff settings scenario c d t0 ts t sent small p q h b a =
    let delays = backoff (is_invite c) settings.global_t2 d in
    let none_yet : 0 + length ts ≡ length ts = omega arith in
    let (before, late, soon, after) = due-append delays 0 t0 ts t h in
    let late' : final t0 ts + delays (length ts) < t =
      subst (λ n. final t0 ts + delays n < t) none_yet late in
    let one : d * 2 ^ suc (length ts) < 2 ^ 32 = subst (λ n. d * 2 ^ n < 2 ^ 32) (omega arith) b in
    let small_yet : d * 2 ^ (0 + length ts) < 2 ^ 32 =
      subst (λ n. d * 2 ^ n < 2 ^ 32) (sym none_yet) (omega (arith, doubled (length ts) d)) in
    let (es, f, n) =
      firings-retried settings scenario c d sent small ts 0 t0 p before small_yet (omega arith) in
    let starts : set_retrans t0 true d c ≡ retried settings scenario c d sent small 0 t0 =
      set_retrans-retried settings scenario c d sent small t0 q in
    (
      es,
      retried settings scenario c d sent small (length ts) (final t0 ts),
      ap (firings settings scenario ts) starts
          ∙ subst
              (λ m.
                firings settings scenario ts (retried settings scenario c d sent small 0 t0)
                ≡ some (es, retried settings scenario c d sent small m (final t0 ts)))
              none_yet f,
      n,
      ground arith,
      elim (Bool-cases (ltb (length ts) (rt_allowed settings scenario (is_invite c)))) [
        | inl more ↦ rw more (
            ap (sends_now settings scenario) (
              retransmit-retried settings scenario c d sent small (length ts) (final t0 ts) t
                (omega arith) late' soon one (ground arith)))
        | inr last ↦ rw last (
            retransmit-used_up settings scenario c d sent small (length ts) (final t0 ts) t
              (omega arith) late' soon (ground arith))
      ],
    )
