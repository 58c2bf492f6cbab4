-- ===== src/Call/Within.antt =====
-- A call of src/call.cpp stays within the messages of its scenario.
use sipp.Base.{
  ℕ, ◌<◌, ◌≤◌, ◌≡◌, refl, ap, ◌∙◌, Bool, true, false, not, ◌&&◌, List, [], some, ltb, leb, ◌==◌,
  length, get_elem?, arith, Bool-cases, Option-cases, ◌⊎◌, inl, inr,
}
use sipp.Call.{
  msgs_of, past_last_message, Settings, Message, Scenario, Call, Event, Outcome, goes_on, executes,
  aborts, deleted, ends, set_paused, given_up, rtpstream_wait_next_check, rtpstream_wait_timeout,
}
use sipp.Call.Run.{next, waits, waits_verify, new_msg_index}

module _ (settings : Settings) (scenario : Scenario) where
  -- A call of the main scenario is at one of its messages, or waits for its commands past the last.
  pub record IsWithin (c : Call) : Type 0 where
    pub main : c.init_call ≡ false
    pub at_message : (c.msg_index < length scenario.messages) ⊎ (0 < c.verify_pending)
    pub sent : (c.next_retrans ≡ 0) ⊎ (c.last_send_index < length scenario.messages)

  -- It is so if the call goes on; the message it executes is its own, with no command to wait for; it ends past
  -- the last message only; and it is aborted only where the options ask for a message.
  abbrev pub Kept : Outcome → Type 0
  Kept (goes_on c) = IsWithin c
  Kept (executes m c) =
      IsWithin c × (get_elem? scenario.messages c.msg_index ≡ some m) × (c.verify_pending ≡ 0)
  Kept (aborts c) = settings.sends_bye ≡ true
  Kept deleted = Unit
  Kept (ends c) = (length scenario.messages ≤ c.msg_index) × (c.verify_pending ≡ 0)

  pub given_up-Kept : (c : Call) → Kept (given_up settings scenario c)
  given_up-Kept c = elim (Bool-cases settings.sends_bye) [
    | inl e ↦ rw e refl
    | inr e ↦ rw e (record {})
  ]

  module _ (is_set : ℕ → Bool) where
    pub msgs_of_main :
        (c : Call) → c.init_call ≡ false → msgs_of settings scenario c ≡ scenario.messages
    msgs_of_main c main = rw main refl

    pub next-Kept :
        (rand : ℕ) (c : Call) (m : Message)
        → c.init_call ≡ false
        → get_elem? (msgs_of settings scenario c) c.msg_index ≡ some m
        → (c.next_retrans ≡ 0) ⊎ (c.last_send_index < length scenario.messages)
        → (o : Outcome) × (next settings scenario is_set rand c ≡ some o) × Kept o
    unfolding next
    next-Kept rand c m main e sent =
        let i = new_msg_index settings scenario is_set rand m c.msg_index in
        let c' = record c { msg_index = i; recv_timeout = 0 } in
        let size = ap length (msgs_of_main c main) in
        elim (Bool-cases (past_last_message settings scenario c')) [
          | inl past ↦ elim (Bool-cases (c.verify_pending == 0)) [
            | inl t ↦ (ends c', rw (next, e, past, t) refl, (ground arith, ground arith))
            | inr t ↦ (
              goes_on (set_paused (record c' { next_retrans = 0; rtpstream_wait_check = 0 })),
              rw (next, e, past, t) refl,
              record { main = main; at_message = inr (ground arith); sent = inl refl },
            )
          ]
          | inr on ↦ (
            goes_on c',
            rw (next, e, on) refl,
            record { main = main; at_message = inl (ground arith); sent = sent },
          )
        ]

    waits_verify-Kept :
        (m : Message) (c : Call)
        → IsWithin c
        → get_elem? scenario.messages c.msg_index ≡ some m
        → Kept (waits_verify settings scenario is_set m c)
    waits_verify-Kept m c s e = elim (Bool-cases (c.verify_pending == 0)) [
      | inl t ↦ rw t (s, e, ground arith)
      | inr t ↦ rw t (record { main = s.main; at_message = s.at_message; sent = s.sent })
    ]

    rtpstream_wait_timeout-Kept :
        (c : Call) → IsWithin c → Kept (rtpstream_wait_timeout settings scenario c).1
    unfolding rtpstream_wait_timeout
    rtpstream_wait_timeout-Kept c s = elim (Option-cases c.rtpstream_wait_msg.on_timeout) [
      | inl e ↦ rw (rtpstream_wait_timeout, e) (given_up-Kept _)
      | inr (label, e) ↦ elim (Bool-cases (ltb label (length scenario.messages))) [
        | inl t ↦
            rw (rtpstream_wait_timeout, e, t)
              (record { main = s.main; at_message = inl (ground arith); sent = s.sent })
        | inr t ↦ rw (rtpstream_wait_timeout, e, t) (given_up-Kept _)
      ]
    ]

    next_check-IsWithin :
        (clock play_end : ℕ) (c : Call)
        → IsWithin c
        → IsWithin (set_paused (rtpstream_wait_next_check settings scenario clock play_end c))
    unfolding rtpstream_wait_next_check
    next_check-IsWithin clock play_end c s = record {
      main = s.main;
      at_message = s.at_message;
      sent = s.sent;
    }

    pub waits-Kept :
        (clock play_end rand : ℕ) (m : Message) (c : Call)
        → IsWithin c
        → get_elem? scenario.messages c.msg_index ≡ some m
        → (es : List Event) × (o : Outcome) × (waits settings scenario is_set clock play_end rand m
              c
            ≡ some (es, o))
          × Kept o
    unfolding waits
    waits-Kept clock play_end rand m c s e = elim (Bool-cases (c.paused_until == 0)) [
      | inr t ↦ elim (Bool-cases (ltb clock c.paused_until)) [
        | inl p ↦ (
          [],
          goes_on (set_paused c),
          rw (waits, t, p) refl,
          record { main = s.main; at_message = s.at_message; sent = s.sent },
        )
        | inr p ↦
            let at = ap (λ ms. get_elem? ms c.msg_index) (msgs_of_main c s.main) ∙ e in
            let (o, f, kept) = next-Kept rand (record c { paused_until = 0 }) m s.main at s.sent in
            ([], o, rw (waits, t, p, f) refl, kept)
      ]
      | inl t ↦ elim (Bool-cases (c.rtpstream_wait_check == 0)) [
        | inl p ↦ (
          [],
          waits_verify settings scenario is_set m c,
          rw (waits, t, p) refl,
          waits_verify-Kept m c s e,
        )
        | inr p ↦ elim (Bool-cases (play_end == 0)) [
          | inl q ↦
              let over = record c { rtpstream_wait_check = 0 } in
              (
                [],
                waits_verify settings scenario is_set m over,
                rw (waits, t, p, q) refl,
                waits_verify-Kept m over
                    (record { main = s.main; at_message = s.at_message; sent = s.sent }) e,
              )
          | inr q ↦
              elim (Bool-cases
                (not (c.rtpstream_wait_until == 0) && leb c.rtpstream_wait_until clock)) [
                  | inl r ↦ (
                    (rtpstream_wait_timeout settings scenario c).0,
                    (rtpstream_wait_timeout settings scenario c).1,
                    rw (waits, t, p, q, r) refl,
                    rtpstream_wait_timeout-Kept c s,
                  )
                  | inr r ↦ (
                    [],
                    goes_on
                        (set_paused (rtpstream_wait_next_check settings scenario clock play_end c)),
                    rw (waits, t, p, q, r) refl,
                    next_check-IsWithin clock play_end c s,
                  )
                ]
        ]
      ]
    ]
