-- ===== src/Call/Steps.antt =====
-- `run` of src/call.cpp keeps a call within its scenario.
use sipp.Base.{
  ℕ, ◌+◌, ◌<◌, ◌≡◌, refl, sym, ap, ◌∙◌, Bool, true, false, not, ◌&&◌, List, [], ◌∷◌, ◌++◌, Option,
  none, some, ltb, ◌==◌, if◌then◌else◌, length, get_elem?, get_elem?-lt, arith, Bool-cases,
  Option-cases, ◌⊎◌, inl, inr,
}
use sipp.Call.{
  msgs_of, past_last_message, Settings, Message, Scenario, Call, Event, Outcome, goes_on, deleted,
  set_paused, given_up, retrans_timeout, retransmit, execute_recv, rt_allowed, is_invite, sends,
  timed_out, sent_retrans, counts, e_retransmission, no_answer, next_delay, uint,
}
use sipp.Call.Run.{run, run_message, skips}
use sipp.Call.Within.{IsWithin, Kept, given_up-Kept, msgs_of_main, next-Kept, waits-Kept}

past_guards :
    {R : Type 0} (running zombie waiting : Bool) (found : Option Message) (m : Message)
    (dead held : Option R) (go : Message → Option R)
    → running ≡ true
    → zombie ≡ false
    → waiting ≡ false
    → found ≡ some m
    → (if not running
        then none
        else if zombie
        then dead
        else if waiting
        then held
        else elim found [ none ↦ none | some x ↦ go x ])
      ≡ go m
past_guards running zombie waiting found m dead held go on z w at = rw (on, z, w, at) refl

module _ (settings : Settings) (scenario : Scenario) (is_set : ℕ → Bool) where
  retrans_timeout-Kept :
      (c : Call)
      → c.init_call ≡ false
      → c.last_send_index < length scenario.messages
      → (es : List Event) × (o : Outcome) × (retrans_timeout settings scenario c ≡ some (es, o))
        × Kept settings scenario o
  unfolding retrans_timeout
  retrans_timeout-Kept c main sent =
      let (m, there) = get_elem?-lt scenario.messages c.last_send_index sent in
      elim (Option-cases m.on_timeout) [
        | inl e ↦ (
          timed_out c.last_send_index ∷ no_answer settings scenario,
          given_up settings scenario c,
          rw (retrans_timeout, there, e) refl,
          given_up-Kept settings scenario c,
        )
        | inr (label, e) ↦
            let c' = record c { msg_index = label; next_retrans = 0; recv_timeout = 0 } in
            elim (Bool-cases (ltb label (length scenario.messages))) [
              | inl t ↦ (
                timed_out c.last_send_index ∷ [],
                goes_on c',
                rw (retrans_timeout, there, e, t) refl,
                record { main = main; at_message = inl (ground arith); sent = inl refl },
              )
              | inr t ↦ (
                timed_out c.last_send_index ∷ no_answer settings scenario,
                given_up settings scenario c',
                rw (retrans_timeout, there, e, t) refl,
                given_up-Kept settings scenario c',
              )
            ]
      ]

  retransmit-Kept :
      (clock : ℕ) (sent : Bool) (c : Call)
      → IsWithin settings scenario c
      → ((es : List Event) × (o : Outcome) × (retransmit settings scenario clock sent c
            ≡ some (inl (es, o)))
          × Kept settings scenario o)
        ⊎ ((es : List Event) × (c' : Call) × (retransmit settings scenario clock sent c
              ≡ some (inr (es, c')))
            × IsWithin settings scenario c'
            × (c'.msg_index ≡ c.msg_index))
  unfolding retransmit
  retransmit-Kept clock sent c s =
      elim (Bool-cases (not (c.next_retrans == 0) && ltb c.next_retrans clock)) [
        | inr t ↦ inr ([], c, rw (retransmit, t) refl, s, refl)
        | inl t ↦
            let there : c.last_send_index < length scenario.messages = elim s.sent [
              | inl e ↦ absurd (ground arith)
              | inr l ↦ l
            ] in
            elim (Bool-cases
              (ltb (rt_allowed settings scenario (is_invite c)) (c.nb_retrans + 1))) [
                | inl u ↦
                    let (es, o, e, kept) =
                      retrans_timeout-Kept (record c { nb_retrans = c.nb_retrans + 1 }) s.main
                        there in
                    inl (es, o, rw (retransmit, t, u, e) refl, kept)
                | inr u ↦ elim (Bool-cases sent) [
                  | inr f ↦ inl (
                    sends c.last_send_msg ∷ [],
                    deleted,
                    rw (retransmit, t, u, f) refl,
                    record {},
                  )
                  | inl f ↦
                      let range : ltb c.last_send_index (length scenario.messages) ≡ true =
                        ground arith in
                      let delay = next_delay settings scenario (is_invite c) c.nb_last_delay in
                      inr (
                        sends c.last_send_msg
                            ∷ sent_retrans c.last_send_index
                            ∷ counts e_retransmission
                            ∷ [],
                        record c {
                          nb_retrans = c.nb_retrans + 1;
                          nb_last_delay = delay;
                          next_retrans = uint (clock + delay);
                        },
                        rw (retransmit, t, u, f, range) refl,
                        record { main = s.main; at_message = s.at_message; sent = inr there },
                        refl,
                      )
                ]
              ]
      ]

  run_message-Kept :
      (clock : ℕ) (sent : Bool) (play_end rand : ℕ) (m : Message) (c : Call)
      → IsWithin settings scenario c
      → get_elem? scenario.messages c.msg_index ≡ some m
      → (es : List Event) × (o : Outcome) × (run_message settings scenario is_set clock sent
            play_end rand m c
          ≡ some (es, o))
        × Kept settings scenario o
  unfolding run_message
  run_message-Kept clock sent play_end rand m c s at =
      elim (Bool-cases (skips settings scenario is_set m)) [
        | inl t ↦
            let there =
              ap (λ ms. get_elem? ms c.msg_index) (msgs_of_main settings scenario is_set c s.main)
              ∙ at in
            let (o, e, kept) = next-Kept settings scenario is_set rand c m s.main there s.sent in
            ([], o, rw (run_message, t, e) refl, kept)
        | inr t ↦ elim (retransmit-Kept clock sent c s) [
          | inl (es, o, e, kept) ↦ (es, o, rw (run_message, t, e) refl, kept)
          | inr (es, c', e, s', same) ↦
              let (more, o, f, kept) =
                waits-Kept settings scenario is_set clock play_end rand m c' s'
                  (ap (get_elem? scenario.messages) same ∙ at) in
              (es ++ more, o, rw (run_message, t, e, f) refl, kept)
        ]
      ]

  run-run_message :
      (clock : ℕ) (sent : Bool) (play_end rand : ℕ) (m : Message) (c : Call)
      → c.running ≡ true
      → c.zombie ≡ false
      → (not (c.verify_pending == 0) && past_last_message settings scenario c) ≡ false
      → get_elem? (msgs_of settings scenario c) c.msg_index ≡ some m
      → run settings scenario is_set clock sent play_end rand c
        ≡ run_message settings scenario is_set clock sent play_end rand m c
  unfolding run
  run-run_message clock sent play_end rand m c on z v at =
      past_guards c.running c.zombie
        (not (c.verify_pending == 0) && past_last_message settings scenario c)
        (get_elem? (msgs_of settings scenario c) c.msg_index) m (some ([], deleted))
        (some ([], goes_on (set_paused c)))
        (λ curmsg. run_message settings scenario is_set clock sent play_end rand curmsg c) on z v at

  -- A call that runs within its scenario never comes to an index out of range or an error, whatever the time,
  -- the outcome of a retransmission, the playback and the variables are: run goes on with a call that is
  -- within it, executes the message the call is at, or leaves the call, by the success only past the last
  -- message with no command pending.
  pub run-Kept :
      (clock : ℕ) (sent : Bool) (play_end rand : ℕ) (c : Call)
      → IsWithin settings scenario c
      → c.running ≡ true
      → (es : List Event) × (o : Outcome) × (run settings scenario is_set clock sent play_end rand c
          ≡ some (es, o))
        × Kept settings scenario o
  unfolding run
  run-Kept clock sent play_end rand c s on = elim (Bool-cases c.zombie) [
    | inl z ↦ ([], deleted, rw (run, on, z) refl, record {})
    | inr z ↦
        elim (Bool-cases (not (c.verify_pending == 0) && past_last_message settings scenario c)) [
          | inl v ↦ (
            [],
            goes_on (set_paused c),
            rw (run, on, z, v) refl,
            record { main = s.main; at_message = s.at_message; sent = s.sent },
          )
          | inr v ↦
              let size = ap length (msgs_of_main settings scenario is_set c s.main) in
              let inside : c.msg_index < length (msgs_of settings scenario c) = elim s.at_message [
                | inl l ↦ omega (arith, size)
                | inr pending ↦ ground arith
              ] in
              let (m, at) = get_elem?-lt (msgs_of settings scenario c) c.msg_index inside in
              let there =
                sym (
                  ap (λ ms. get_elem? ms c.msg_index)
                    (msgs_of_main settings scenario is_set c s.main))
                ∙ at in
              let (es, o, e, kept) = run_message-Kept clock sent play_end rand m c s there in
              (es, o, run-run_message clock sent play_end rand m c on z v at ∙ e, kept)
        ]
  ]

  -- So does the wait for a message.
  execute_recv-Kept :
      (millis timeout defl_recv_timeout : ℕ) (m : Message) (c : Call)
      → IsWithin settings scenario c
      → Kept settings scenario
          (execute_recv settings scenario millis timeout defl_recv_timeout m c).1
  unfolding execute_recv
  execute_recv-Kept millis timeout defl_recv_timeout m c s =
      elim (Bool-cases (c.recv_timeout == 0)) [
        | inr t ↦ elim (Bool-cases (ltb millis c.recv_timeout)) [
          | inl u ↦
              rw (execute_recv, t, u)
                (record { main = s.main; at_message = s.at_message; sent = s.sent })
          | inr u ↦ elim (Option-cases m.on_timeout) [
            | inl e ↦ rw (execute_recv, t, u, e) (given_up-Kept settings scenario _)
            | inr (label, e) ↦ elim (Bool-cases (ltb label (length scenario.messages))) [
              | inl v ↦
                  rw (execute_recv, t, u, e, v)
                    (record { main = s.main; at_message = inl (ground arith); sent = s.sent })
              | inr v ↦ rw (execute_recv, t, u, e, v) (given_up-Kept settings scenario _)
            ]
          ]
        ]
        | inl t ↦ elim (Bool-cases (timeout == 0)) [
          | inr u ↦
              rw (execute_recv, t, u)
                (record { main = s.main; at_message = s.at_message; sent = s.sent })
          | inl u ↦ elim (Bool-cases (defl_recv_timeout == 0)) [
            | inl v ↦
                rw (execute_recv, t, u, v)
                  (record { main = s.main; at_message = s.at_message; sent = s.sent })
            | inr v ↦
                rw (execute_recv, t, u, v)
                  (record { main = s.main; at_message = s.at_message; sent = s.sent })
          ]
        ]
      ]
