-- ===== src/Tests/Calls.antt =====
-- Runs of the calls of src/call.cpp with the default timers, T1 of 500 ms and T2 of 4000 ms.
use sipp.Base.{ℕ, ◌+◌, ◌≡◌, refl, Bool, true, false, List, [], ◌∷◌, none, some, inl, inr, arith}
use sipp.Base.Bytes.{codes}
use sipp.Call.{Settings, Message, Scenario, Call, Event, Outcome, set_retrans, retransmit, wake}
use sipp.Call.Run.{run}
use sipp.Call.Wake.{Timer, Follows, time, wake-Follows}
use sipp.Call.Retrans.{backoff, firings, sends_now, sendings, firings-backoff}
use sipp.Call.Match.{Expected, Received, optional_false, optional_true, find_expected, search}
use sipp.Call.Search.{taken}
use sipp.Call.Within.{Kept}
use sipp.Call.Steps.{run-Kept}

abbrev settings : Settings
settings = record {
  max_udp_retrans = 5;
  max_invite_retrans = 5;
  max_non_invite_retrans = 4;
  global_t2 = 4000;
  sends_bye = true;
}

abbrev step : ℕ → Message
step i = record {
  next = none;
  test = none;
  chance = 0;
  condexec = none;
  condexec_inverse = false;
  on_timeout = none;
  index = i;
}

abbrev scenario : Scenario
scenario = record { messages = step 0 ∷ step 1 ∷ step 2 ∷ []; initmessages = [] }

-- A BYE is sent and its answer waited for.
abbrev call : Call
call = record {
  running = true;
  zombie = false;
  init_call = false;
  msg_index = 1;
  last_send_index = 0;
  last_send_msg = codes "BYE sip:a";
  next_retrans = 1500;
  nb_retrans = 0;
  nb_last_delay = 500;
  paused_until = 0;
  recv_timeout = 9000;
  rtpstream_wait_check = 0;
  rtpstream_wait_until = 0;
  rtpstream_wait_msg = step 0;
  verify_pending = 0;
}

abbrev no_variables : ℕ → Bool
no_variables v = false

abbrev intervals : List ℕ
intervals =
    backoff false 4000 500 0
    ∷ backoff false 4000 500 2
    ∷ backoff false 4000 500 3
    ∷ backoff false 4000 500 4
    ∷ []

doubled_to_t2 : intervals ≡ 500 ∷ 2000 ∷ 4000 ∷ 4000 ∷ []
doubled_to_t2 = refl

wake-Follows_example :
    ((x : Timer) → Follows (wake call) (time x call)) × ((x : Timer) × (wake call ≡ time x call))
wake-Follows_example = wake-Follows call refl

firings-backoff_example :
    (es : List Event) × (c' : Call) × (firings settings scenario
        (1501 ∷ 2600 ∷ 4700 ∷ 8800 ∷ [])
        (set_retrans 1000 true 500 call)
      ≡ some (es, c'))
    × (sendings es ≡ 4)
    × (c'.next_retrans ≡ 8800 + 4000)
    × (sends_now settings scenario (retransmit settings scenario 13000 true c') ≡ some 0)
firings-backoff_example =
    firings-backoff settings scenario call 500 1000 (1501 ∷ 2600 ∷ 4700 ∷ 8800 ∷ []) 13000
      (omega arith) (omega arith) (omega arith) (omega arith) refl (omega arith) (omega arith)

run-Kept_example :
    (es : List Event) × (o : Outcome) × (run settings scenario no_variables 1600 true 0 0 call
      ≡ some (es, o))
    × Kept settings scenario o
run-Kept_example =
    run-Kept settings scenario no_variables 1600 true 0 0 call
      (record { main = refl; at_message = inl (omega arith); sent = inr (omega arith) }) refl

abbrev response : Expected
response = record {
  optional = optional_true;
  recv_request = none;
  recv_response = some (codes "180");
  recv_response_code = 180;
  regexp_match = false;
  recv_response_for_cseq_method_list = codes "INVITE";
  response_txn = 0;
  ack_txn = 0;
  dialog = 0;
  sends_ack = false;
}

-- An INVITE, an optional 180 and a 200.
abbrev invite : List Expected
invite =
    record response { recv_response = none }
    ∷ response
    ∷ record response {
      optional = optional_false;
      recv_response = some (codes "200");
      recv_response_code = 200;
    }
    ∷ []

abbrev ok_200 : Received
ok_200 = record {
  reply_code = 200;
  request = [];
  responsecseqmethod = codes "INVITE";
  txn = [];
  hash = 7;
}

abbrev no_regexp : List ℕ → List ℕ → Bool
no_regexp pattern text = false

-- The 180 does not come.
skips_optional :
    taken no_regexp invite [] none ok_200 (search no_regexp invite [] none ok_200 1) ≡ some 2
unfolding search find_expected
skips_optional = refl
