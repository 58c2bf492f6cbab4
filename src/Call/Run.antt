-- ===== src/Call/Run.antt =====
-- `next` and `run` of src/call.cpp: the next message of a call. `is_set` tells whether a variable is set.
use sipp.Base.{
  ℕ, ◌+◌, Bool, true, false, not, ◌&&◌, ◌||◌, List, [], ◌++◌, Option, none, some, ltb, leb, ◌==◌,
  if◌then◌else◌, get_elem?, inl, inr,
}
use sipp.Call.{
  Settings, Message, Scenario, Call, Event, Outcome, goes_on, executes, deleted, ends, set_paused,
  msgs_of, past_last_message, retransmit, rtpstream_wait_next_check, rtpstream_wait_timeout,
}

module _ (settings : Settings) (scenario : Scenario) (is_set : ℕ → Bool) where
  -- Whether `next` branches at a message, by the number that `rand` gives.
  abbrev pub branches : ℕ → Message → Bool
  branches rand curmsg =
      elim curmsg.test [ none ↦ true | some test ↦ is_set test ]
      && ((curmsg.chance == 0) || ltb curmsg.chance rand)

  abbrev pub new_msg_index : ℕ → Message → ℕ → ℕ
  new_msg_index rand curmsg i = elim curmsg.next [
    | none ↦ i + 1
    | some label ↦ if branches rand curmsg then label else i + 1
  ]

  -- `call::next`
  unfoldable pub next : ℕ → Call → Option Outcome
  next rand c = elim (get_elem? (msgs_of settings scenario c) c.msg_index) [
    | none ↦ none
    | some curmsg ↦
        let c' = record c { msg_index = new_msg_index rand curmsg c.msg_index; recv_timeout = 0 } in
        some (
          if past_last_message settings scenario c'
          then if c.verify_pending == 0
            then ends c'
            else goes_on (set_paused (record c' { next_retrans = 0; rtpstream_wait_check = 0 }))
          else goes_on c')
  ]

  -- Whether `run` passes over a message.
  abbrev pub skips : Message → Bool
  skips curmsg = elim curmsg.condexec [
    | none ↦ false
    | some variable ↦ if curmsg.condexec_inverse then is_set variable else not (is_set variable)
  ]

  -- The end of `run`, which waits for commands or executes the message.
  abbrev pub waits_verify : Message → Call → Outcome
  waits_verify curmsg c =
      if c.verify_pending == 0 then executes curmsg c else goes_on (set_paused c)

  -- `run` from the pauses on, with the end of the playback.
  unfoldable pub waits : ℕ → ℕ → ℕ → Message → Call → Option (List Event × Outcome)
  unfolding next rtpstream_wait_next_check rtpstream_wait_timeout
  waits clock play_end rand curmsg c =
      if not (c.paused_until == 0)
      then if ltb clock c.paused_until
        then some ([], goes_on (set_paused c))
        else elim (next rand (record c { paused_until = 0 })) [
          | none ↦ none
          | some o ↦ some ([], o)
        ]
      else if c.rtpstream_wait_check == 0
      then some ([], waits_verify curmsg c)
      else if play_end == 0
      then some ([], waits_verify curmsg (record c { rtpstream_wait_check = 0 }))
      else if not (c.rtpstream_wait_until == 0) && leb c.rtpstream_wait_until clock
      then some (rtpstream_wait_timeout settings scenario c)
      else some
          ([], goes_on (set_paused (rtpstream_wait_next_check settings scenario clock play_end c)))

  abbrev pub add_events : List Event → Option (List Event × Outcome) → Option (List Event × Outcome)
  add_events events none = none
  add_events events (some (more, o)) = some (events ++ more, o)

  -- `run` from the message of the call on
  unfoldable pub run_message : ℕ → Bool → ℕ → ℕ → Message → Call → Option (List Event × Outcome)
  unfolding next retransmit waits
  run_message clock sent play_end rand curmsg c =
      if skips curmsg
      then elim (next rand c) [ none ↦ none | some o ↦ some ([], o) ]
      else elim (retransmit settings scenario clock sent c) [
        | none ↦ none
        | some (inl returned) ↦ some returned
        | some (inr (events, c')) ↦ add_events events (waits clock play_end rand curmsg c')
      ]

  -- `call::run` up to `executeMessage`
  unfoldable pub run : ℕ → Bool → ℕ → ℕ → Call → Option (List Event × Outcome)
  unfolding run_message
  run clock sent play_end rand c =
      if not c.running
      then none
      else if c.zombie
      then some ([], deleted)
      else if not (c.verify_pending == 0) && past_last_message settings scenario c
      then some ([], goes_on (set_paused c))
      else elim (get_elem? (msgs_of settings scenario c) c.msg_index) [
        | none ↦ none
        | some curmsg ↦ run_message clock sent play_end rand curmsg c
      ]
