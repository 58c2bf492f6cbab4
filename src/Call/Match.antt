-- ===== src/Call/Match.antt =====
-- Which message of its scenario a call of src/call.cpp takes a received SIP message for: `matches_scenario` and
-- the two searches of `process_incoming`. An index that is 0 when it is not given is a number as in the code.
use sipp.Base.{
  ℕ, zero, suc, ◌+◌, ◌-◌, Bool, true, false, not, ◌&&◌, ◌||◌, List, [], ◌∷◌, Option, none, some,
  leb, ◌==◌, if◌then◌else◌, get_elem?, drop,
}
use sipp.Base.Bytes.{bytes_eq, codes, starts, strstr}
use sipp.InFile.Printf.{decimal_onto}

-- `optional` of a message
pub data Optional : Type 0 where
  optional_false : Optional
  optional_true : Optional
  optional_global : Optional

abbrev pub is_optional : Optional → Bool
is_optional optional_false = false
is_optional optional_true = true
is_optional optional_global = true

abbrev pub is_global : Optional → Bool
is_global optional_global = true
is_global optional_true = false
is_global optional_false = false

-- `message`: what it is and what it expects
pub record Expected : Type 0 where
  pub optional : Optional
  pub recv_request : Option (List ℕ)
  pub recv_response : Option (List ℕ)
  pub recv_response_code : ℕ
  pub regexp_match : Bool
  pub recv_response_for_cseq_method_list : List ℕ
  pub response_txn : ℕ
  pub ack_txn : ℕ
  pub dialog : ℕ
  pub sends_ack : Bool

-- `txnInstanceInfo`, with `isInvite` of its `txnControlInfo`
pub record Transaction : Type 0 where
  pub txn_id : Option (List ℕ)
  pub txn_resp : ℕ
  pub ack_index : ℕ
  pub dialog : ℕ
  pub is_invite : Bool

-- What `process_incoming` reads from a message: `reply_code` is 0 for a request.
pub record Received : Type 0 where
  pub reply_code : ℕ
  pub request : List ℕ
  pub responsecseqmethod : List ℕ
  pub txn : List ℕ
  pub hash : ℕ

-- How the searches end: with a message of the scenario, with a message that is ignored or answered by the ACK
-- of an index, without one, or by an assertion.
pub data Found : Type 0 where
  found : ℕ → Found
  ignores : Found
  sends_ack_again : ℕ → Found
  unexpected : Found
  fails : Found

abbrev pub code_text : ℕ → List ℕ
code_text code = if code == 0 then codes "0" else decimal_onto 20 code []

module _ (regexec : List ℕ → List ℕ → Bool) where
  -- `message::matchesRequest`
  unfoldable pub matches_request : Expected → List ℕ → Bool
  matches_request m method = elim m.recv_request [
    | none ↦ false
    | some request ↦ if m.regexp_match then regexec request method else bytes_eq request method
  ]

  -- `message::matchesResponse`
  unfoldable pub matches_response : Expected → ℕ → Bool
  unfolding decimal_onto
  matches_response m code = elim m.recv_response [
    | none ↦ false
    | some response ↦
        if m.regexp_match then regexec response (code_text code) else m.recv_response_code == code
  ]

  module _ (messages : List Expected) (transactions : List Transaction) (incoming : Option ℕ)
      (msg : Received) where
    -- The transaction of a number from 1 on.
    abbrev pub txn_of : ℕ → Option Transaction
    txn_of n = get_elem? transactions (n - 1)

    -- `call::msgDialog`
    abbrev pub msg_dialog : Expected → ℕ
    msg_dialog m =
        if not (m.dialog == 0)
        then m.dialog
        else elim (txn_of (if m.response_txn == 0 then m.ack_txn else m.response_txn)) [
          | none ↦ 1
          | some t ↦
              if ((m.response_txn == 0) && (m.ack_txn == 0)) || (t.dialog == 0) then 1 else t.dialog
        ]

    abbrev pub same_txn : ℕ → Bool
    same_txn n = elim (txn_of n) [
      | none ↦ false
      | some t ↦ elim t.txn_id [ none ↦ false | some id ↦ bytes_eq id msg.txn ]
    ]

    abbrev pub in_cseq_list : List ℕ → Bool
    in_cseq_list [] = false
    in_cseq_list (c ∷ cs) = elim (strstr msg.responsecseqmethod (c ∷ cs)) [
      | none ↦ false
      | some _ ↦ true
    ]

    -- `call::matches_scenario` of a message with its index
    unfoldable pub matches_scenario : ℕ → Expected → Bool
    unfolding matches_request matches_response
    matches_scenario index m =
        if elim incoming [ none ↦ false | some dialog ↦ not (msg_dialog m == dialog) ]
        then false
        else elim m.recv_request [
          | some _ ↦ matches_request m msg.request
          | none ↦ elim m.recv_response [
            | none ↦ false
            | some _ ↦
                if not (matches_response m msg.reply_code)
                then false
                else if not (m.response_txn == 0)
                then same_txn m.response_txn
                else (index == 0) || in_cseq_list m.recv_response_for_cseq_method_list
          ]
        ]

    -- The first search, from the message of the call on, with the messages from an index on.
    unfoldable pub find_expected : ℕ → List Expected → Option ℕ
    unfolding matches_scenario
    find_expected i [] = none
    find_expected i (m ∷ ms) =
        let rest = find_expected (i + 1) ms in
        if matches_scenario i m then some i else if is_optional m.optional then rest else none

    abbrev pub is_provisional : Bool
    is_provisional = leb 100 msg.reply_code && leb msg.reply_code 199

    -- A message that matches one of the scenario that is past: `none` if the search goes on.
    unfoldable pub late : ℕ → Expected → Option Found
    late i m =
        if not (m.response_txn == 0)
        then elim (txn_of m.response_txn) [
          | none ↦ some fails
          | some t ↦ elim t.txn_id [
            | none ↦ some fails
            | some id ↦
                if not (bytes_eq id msg.txn)
                then none
                else if is_provisional
                then some ignores
                else if not (t.ack_index == 0)
                then some (if t.is_invite then sends_ack_again t.ack_index else fails)
                else if t.txn_resp == msg.hash
                then some ignores
                else none
          ]
        ]
        else if is_provisional
        then some ignores
        else if not (msg.reply_code == 0)
            && starts msg.responsecseqmethod (codes "INVITE")
            && elim (get_elem? messages (i + 1)) [ none ↦ false | some next ↦ next.sends_ack ]
        then some (sends_ack_again (i + 1))
        else if (msg.reply_code == 0) && bytes_eq msg.request (codes "ACK")
        then some ignores
        else none

    -- The second search, in the messages below an index, downward; `contig` tells whether all since were optional.
    unfoldable pub find_old : Bool → ℕ → Found
    unfolding matches_scenario late
    find_old contig zero = unexpected
    find_old contig (suc i) = elim (get_elem? messages i) [
      | none ↦ fails
      | some m ↦
          let rest = find_old (contig && is_optional m.optional) i in
          if not (matches_scenario i m)
          then rest
          else if (contig && is_optional m.optional) || is_global m.optional
          then found i
          else elim (late i m) [ none ↦ rest | some r ↦ r ]
    ]

    -- The searches of `process_incoming` for a call at a message.
    unfoldable pub search : ℕ → Found
    unfolding find_expected find_old
    search msg_index = elim (find_expected msg_index (drop msg_index messages)) [
      | none ↦ find_old true msg_index
      | some i ↦ found i
    ]
