-- ===== src/Call.antt =====
-- src/call.cpp, include/call.hpp, include/scenario.hpp: the steps of a call and its timers. A number that the
-- code has as -1 when it is not given is an `Option`; a call refers to a message by its index. `none` as a
-- result is an assertion, an index out of range or ERROR.
pub mod Run
pub mod Wake
pub mod Retrans
pub mod Within
pub mod Steps
pub mod Match
pub mod Search
use sipp.Base.{
  ℕ, ◌+◌, ◌-◌, ◌*◌, ◌%◌, ◌^◌, min, Bool, true, false, not, ◌&&◌, ◌||◌, List, [], ◌∷◌, Option, none,
  some, ltb, leb, ◌==◌, if◌then◌else◌, length, take, get_elem?, ◌⊎◌, inl, inr,
}
use sipp.Base.Bytes.{bytes_eq, codes}

-- The options that the timers read; `sends_bye` is the bit DEFAULT_BEHAVIOR_BYE of `default_behaviors`.
pub record Settings : Type 0 where
  pub max_udp_retrans : ℕ
  pub max_invite_retrans : ℕ
  pub max_non_invite_retrans : ℕ
  pub global_t2 : ℕ
  pub sends_bye : Bool

-- `message`: where a call goes from it
pub record Message : Type 0 where
  pub next : Option ℕ
  pub test : Option ℕ
  pub chance : ℕ
  pub condexec : Option ℕ
  pub condexec_inverse : Bool
  pub on_timeout : Option ℕ
  pub index : ℕ

-- `scenario`
pub record Scenario : Type 0 where
  pub messages : List Message
  pub initmessages : List Message

-- `call` with the `running` of its task
pub record Call : Type 0 where
  pub running : Bool
  pub zombie : Bool
  pub init_call : Bool
  pub msg_index : ℕ
  pub last_send_index : ℕ
  pub last_send_msg : List ℕ
  pub next_retrans : ℕ
  pub nb_retrans : ℕ
  pub nb_last_delay : ℕ
  pub paused_until : ℕ
  pub recv_timeout : ℕ
  pub rtpstream_wait_check : ℕ
  pub rtpstream_wait_until : ℕ
  pub rtpstream_wait_msg : Message
  pub verify_pending : ℕ

-- The counters that `computeStat` adds to.
pub data Stat : Type 0 where
  e_call_failed : Stat
  e_failed_max_udp_retrans : Stat
  e_failed_timeout_on_recv : Stat
  e_retransmission : Stat

-- What a step does besides: `nb_timeout++` and `nb_sent_retrans++` of a message, `send_raw`, `computeStat`.
pub data Event : Type 0 where
  timed_out : ℕ → Event
  sent_retrans : ℕ → Event
  sends : List ℕ → Event
  counts : Stat → Event

-- How a step ends: the call goes on later, executes a message now, is aborted by `abortCall(true)`, is
-- deleted, or ends by `terminate(E_CALL_SUCCESSFULLY_ENDED)`.
pub data Outcome : Type 0 where
  goes_on : Call → Outcome
  executes : Message → Call → Outcome
  aborts : Call → Outcome
  deleted : Outcome
  ends : Call → Outcome

abbrev pub set_paused : Call → Call
set_paused c = record c { running = false }

-- `clock_tick` and sums with it are cut to an `unsigned int`.
abbrev pub uint : ℕ → ℕ
uint n = n % 2 ^ 32

-- The earlier of two times, 0 for one that is not set.
abbrev pub earlier : ℕ → ℕ → ℕ
earlier time wake = if not (time == 0) && ((wake == 0) || ltb time wake) then time else wake

-- `call::wake`
unfoldable pub wake : Call → ℕ
wake c =
    if c.zombie
    then 0
    else earlier c.rtpstream_wait_check
        (earlier c.recv_timeout (earlier c.next_retrans c.paused_until))

-- The end of `executeMessage` for a message that is sent, `udp` if it goes by UDP with retransmissions.
unfoldable pub set_retrans : ℕ → Bool → ℕ → Call → Call
set_retrans clock udp retrans_delay c =
    if retrans_delay == 0
    then record c { next_retrans = 0 }
    else if udp
    then record c {
      next_retrans = uint (clock + retrans_delay);
      nb_retrans = 0;
      nb_last_delay = retrans_delay;
    }
    else c

abbrev pub is_invite : Call → Bool
is_invite c = bytes_eq (take 6 c.last_send_msg) (codes "INVITE")

module _ (settings : Settings) (scenario : Scenario) where
  abbrev pub msgs_of : Call → List Message
  msgs_of c = if c.init_call then scenario.initmessages else scenario.messages

  -- `call::pastLastMessage`
  abbrev pub past_last_message : Call → Bool
  past_last_message c = leb (length (msgs_of c)) c.msg_index

  abbrev pub rt_allowed : Bool → ℕ
  rt_allowed invite =
      min (if invite then settings.max_invite_retrans else settings.max_non_invite_retrans)
        settings.max_udp_retrans

  -- `nb_last_delay` after one more retransmission
  abbrev pub next_delay : Bool → ℕ → ℕ
  next_delay invite delay =
      if ltb settings.global_t2 (uint (delay * 2)) && not invite
      then settings.global_t2
      else uint (delay * 2)

  -- Abort the call by a message, or just delete it.
  abbrev pub given_up : Call → Outcome
  given_up c = if settings.sends_bye then aborts c else deleted

  -- `computeStat` for a call without an answer.
  abbrev pub no_answer : List Event
  no_answer = counts e_call_failed ∷ counts e_failed_max_udp_retrans ∷ []

  -- `run` once the retransmissions are used up.
  unfoldable pub retrans_timeout : Call → Option (List Event × Outcome)
  retrans_timeout c = elim (get_elem? scenario.messages c.last_send_index) [
    | none ↦ none
    | some sent ↦ elim sent.on_timeout [
      | none ↦ some (timed_out c.last_send_index ∷ no_answer, given_up c)
      | some label ↦
          let c' = record c { msg_index = label; next_retrans = 0; recv_timeout = 0 } in
          some (
            if ltb label (length scenario.messages)
            then (timed_out c.last_send_index ∷ [], goes_on c')
            else (timed_out c.last_send_index ∷ no_answer, given_up c'))
    ]
  ]

  -- The retransmissions of `run`, where `sent` tells whether `send_raw` succeeds: `inl` if `run` returns and
  -- `inr` if it goes on.
  unfoldable pub retransmit :
      ℕ → Bool → Call → Option ((List Event × Outcome) ⊎ (List Event × Call))
  unfolding retrans_timeout
  retransmit clock sent c =
      let tried = record c { nb_retrans = c.nb_retrans + 1 } in
      let delay = next_delay (is_invite c) c.nb_last_delay in
      if not (not (c.next_retrans == 0) && ltb c.next_retrans clock)
      then some (inr ([], c))
      else if ltb (rt_allowed (is_invite c)) (c.nb_retrans + 1)
      then elim (retrans_timeout tried) [ none ↦ none | some r ↦ some (inl r) ]
      else if not sent
      then some (inl (sends c.last_send_msg ∷ [], deleted))
      else if ltb c.last_send_index (length scenario.messages)
      then some (
          inr (
            sends c.last_send_msg ∷ sent_retrans c.last_send_index ∷ counts e_retransmission ∷ [],
            record tried { nb_last_delay = delay; next_retrans = uint (clock + delay) },
          ))
      else none

  -- `call::rtpstreamWaitNextCheck`
  unfoldable pub rtpstream_wait_next_check : ℕ → ℕ → Call → Call
  rtpstream_wait_next_check clock play_end c =
      let check =
        uint
          (if ltb clock play_end && not (play_end == 2 ^ 64 - 1) then play_end else clock + 20) in
      record c {
        rtpstream_wait_check =
            if not (c.rtpstream_wait_until == 0) && ltb c.rtpstream_wait_until check
            then c.rtpstream_wait_until
            else check;
      }

  -- `call::rtpstreamWaitTimeout`
  unfoldable pub rtpstream_wait_timeout : Call → List Event × Outcome
  rtpstream_wait_timeout c =
      let c' = record c { rtpstream_wait_check = 0 } in
      let waited = c.rtpstream_wait_msg.index in
      elim c.rtpstream_wait_msg.on_timeout [
        | none ↦ (timed_out waited ∷ counts e_call_failed ∷ [], given_up c')
        | some label ↦
            if ltb label (length scenario.messages)
            then (timed_out waited ∷ [], goes_on (record c' { msg_index = label }))
            else (
              timed_out waited ∷ counts e_call_failed ∷ [],
              given_up (record c' { msg_index = label }),
            )
      ]

  -- `executeMessage` for a message to receive, when none is queued. `timeout` is that of the message, by
  -- `recvTimeout`.
  unfoldable pub execute_recv : ℕ → ℕ → ℕ → Message → Call → List Event × Outcome
  execute_recv millis timeout defl_recv_timeout curmsg c =
      let late = record c { recv_timeout = 0 } in
      let fails =
        timed_out curmsg.index ∷ counts e_call_failed ∷ counts e_failed_timeout_on_recv ∷ [] in
      if not (c.recv_timeout == 0)
      then if ltb millis c.recv_timeout
        then ([], goes_on (set_paused c))
        else elim curmsg.on_timeout [
          | none ↦ (fails, given_up late)
          | some label ↦
              if ltb label (length scenario.messages)
              then (timed_out curmsg.index ∷ [], goes_on (record late { msg_index = label }))
              else (fails, given_up (record late { msg_index = label }))
        ]
      else if not (timeout == 0)
      then ([], goes_on (record c { recv_timeout = uint (millis + timeout) }))
      else if not (defl_recv_timeout == 0)
      then ([], goes_on (record c { recv_timeout = uint (millis + defl_recv_timeout) }))
      else ([], goes_on (set_paused c))
