-- ===== src/WebSocket/Next.antt =====
-- `WebSocket::next` of src/websocket.cpp. A `size_t` and a length have 64 bits. The bits of a byte are
-- read by `/` and `%`: `p[0] & 0x80` is `128 ≤ p[0]`, and `p[0] & 0x70` is `p[0] / 16 % 8`.
use sipp.Base.{
  ℕ, zero, suc, ◌+◌, ◌-◌, ◌*◌, ◌/◌, ◌%◌, ◌^◌, Bool, true, false, ◌&&◌, ◌||◌, not, List, [], ◌++◌,
  Option, none, some, ltb, leb, ◌==◌, if◌then◌else◌, length, take, drop,
}
use sipp.Base.Bytes.{at, codes}
use sipp.WebSocket.Event.{Event}
use sipp.WebSocket.Utf8.{is_utf8}
use sipp.WebSocket.Frame.{masked_from}
use sipp.WebSocket.State.{
  WebSocket, Found, op_text, op_binary, op_continuation, op_close, op_ping, op_pong, to_string,
  make_frame, fail, whole_message,
}
use sipp.WebSocket.Handshake.{handshake}

-- What the bytes not parsed yet begin with: no whole frame, one that fails the connection with a code and a
-- reason, or a frame with its FIN bit, its opcode, its payload, unmasked, and its size.
pub data Read : Type 0 where
  more : Read
  broken : ℕ → List ℕ → Read
  whole : Bool → ℕ → List ℕ → ℕ → Read

-- The length and the size of the header, without the mask: `none` if they are not all in.
unfoldable pub extended_length : ℕ → List ℕ → Option (ℕ × ℕ)
extended_length len p =
    if len == 126
    then (if ltb (length p) 4 then none else some (at p 2 * 256 + at p 3, 4))
    else if len == 127
    then (if ltb (length p) 10
        then none
        else some (
          ((((((at p 2 * 256 + at p 3) * 256 + at p 4) * 256 + at p 5) * 256 + at p 6) * 256
                      + at p 7)
                    * 256
                  + at p 8)
                * 256
              + at p 9,
          10,
        ))
    else some (len, 2)

-- The payload, from a header of `hlen` bytes and the length `len`.
unfoldable pub read_payload : Bool → Bool → ℕ → ℕ → ℕ → List ℕ → Read
read_payload masked fin opcode hlen len p =
    if ltb (length p) ((hlen + len) % 2 ^ 64)
    then more
    else whole fin opcode
        (if masked
          then masked_from (take 4 (drop (hlen - 4) p)) 0 (take len (drop hlen p))
          else take len (drop hlen p))
        (hlen + len)

-- The checks on the length, then the payload.
unfoldable pub read_checked : WebSocket → Bool → Bool → ℕ → ℕ → ℕ → List ℕ → Read
unfolding read_payload
read_checked ws masked fin opcode len hlen p =
    if leb op_close opcode && (not fin || ltb 125 len)
    then broken 1002 (codes "a fragmented or long control frame")
    else if not (leb op_close opcode)
        && ltb ((ws.max_message + 2 ^ 64 - length ws.fragments) % 2 ^ 64) len
    then broken 1009
        (codes "a message longer than " ++ (to_string ws.max_message ++ codes " bytes"))
    else read_payload masked fin opcode (if masked then hlen + 4 else hlen) len p

abbrev pub same_bool : Bool → Bool → Bool
same_bool true b = b
same_bool false b = not b

unfoldable pub read_frame : WebSocket → List ℕ → Read
unfolding extended_length read_checked
read_frame ws p =
    if ltb (length p) 2
    then more
    else if not (at p 0 / 16 % 8 == 0)
    then broken 1002 (codes "a frame with reserved bits set")
    else if not (same_bool (leb 128 (at p 1 % 256)) ws.server)
    then broken 1002 (
        if ws.server
        then codes "an unmasked frame from the client"
        else codes "a masked frame from the server")
    else elim (extended_length (at p 1 % 128) p) [
      | none ↦ more
      | some (len, hlen) ↦
          read_checked ws (leb 128 (at p 1 % 256)) (leb 128 (at p 0 % 256)) (at p 0 % 16) len hlen p
    ]

-- A frame that needs nothing sent, or what `next` returns.
pub data Round : Type 0 where
  again : WebSocket → Round
  return : Found → Round

abbrev pub valid_close_code : ℕ → Bool
valid_close_code code =
    (leb 1000 code && leb code 1003)
    || (leb 1007 code && leb code 1014)
    || (leb 3000 code && leb code 4999)

-- A close frame
unfoldable pub take_close : List ℕ → List ℕ → List ℕ → List ℕ → WebSocket → Found
take_close mask content payload reply ws =
    let code = at content 0 * 256 + at content 1 in
    if length content == 1
    then fail mask 1002 (codes "a close frame with a one-byte payload") payload reply ws
    else if leb 2 (length content) && not (valid_close_code code)
    then fail mask 1002 (codes "a close frame with status code " ++ to_string code) payload reply ws
    else if leb 2 (length content) && not (is_utf8 (drop 2 content))
    then fail mask 1007 (codes "a close reason that is not UTF-8") payload reply ws
    else record {
      event = Event.closed;
      payload = payload;
      reply =
          make_frame mask op_close (if ltb (length content) 2 then [] else take 2 content)
            (record ws { closed = true });
      state = record ws { closed = true };
    }

-- The first frame of a message, by `fragmented`
unfoldable pub take_message :
    Option ℕ → List ℕ → Bool → ℕ → List ℕ → List ℕ → List ℕ → WebSocket → Round
take_message (some _) mask fin opcode content payload reply ws =
    return (fail mask 1002 (codes "a new message inside a fragmented one") payload reply ws)
take_message none mask fin opcode content payload reply ws =
    if fin
    then return (whole_message mask opcode content reply ws)
    else again (record ws { fragmented = some opcode; fragments = content })

-- A further frame of one
unfoldable pub take_continuation :
    Option ℕ → List ℕ → Bool → List ℕ → List ℕ → List ℕ → WebSocket → Round
take_continuation none mask fin content payload reply ws =
    return (fail mask 1002 (codes "a continuation frame without a message") payload reply ws)
take_continuation (some opcode) mask fin content payload reply ws =
    if fin
    then return (
        whole_message mask opcode (ws.fragments ++ content) reply
          (record ws { fragmented = none; fragments = [] }))
    else again (record ws { fragments = ws.fragments ++ content })

-- The switch on the opcode, the frame being behind `pos`
unfoldable pub take_frame : List ℕ → Bool → ℕ → List ℕ → List ℕ → List ℕ → WebSocket → Round
unfolding take_close take_message take_continuation
take_frame mask fin opcode content payload reply ws =
    if (opcode == op_text) || (opcode == op_binary)
    then take_message ws.fragmented mask fin opcode content payload reply ws
    else if opcode == op_continuation
    then take_continuation ws.fragmented mask fin content payload reply ws
    else if opcode == op_ping
    then return (record {
      event = Event.reply;
      payload = payload;
      reply = make_frame mask op_pong content ws;
      state = ws;
    })
    else if opcode == op_pong
    then again ws
    else if opcode == op_close
    then return (take_close mask content payload reply ws)
    else return
        (fail mask 1002 (codes "a frame of unknown opcode " ++ to_string opcode) payload reply ws)

unfoldable pub read_round : List ℕ → List ℕ → WebSocket → Round
unfolding read_frame take_frame
read_round mask payload ws = elim (read_frame ws (drop ws.pos ws.in_bytes)) [
  | more ↦ return (record { event = Event.need_more; payload = payload; reply = []; state = ws })
  | broken code why ↦ return (fail mask code why payload [] ws)
  | whole fin opcode content size ↦
      take_frame mask fin opcode content payload [] (record ws { pos = ws.pos + size })
]

-- The loop, with a number of rounds: `none` if they are not enough.
unfoldable pub rounds : ℕ → List ℕ → List ℕ → WebSocket → Option Found
unfolding read_round
rounds zero mask payload ws = none
rounds (suc n) mask payload ws = elim (read_round mask payload ws) [
  | again ws' ↦ rounds n mask payload ws'
  | return found ↦ some found
]

-- `next`: a frame has two bytes at least
unfoldable pub next : (List ℕ → List ℕ) → List ℕ → List ℕ → WebSocket → Option Found
unfolding rounds
next sha1 mask payload ws =
    if ws.closed
    then some (record { event = Event.need_more; payload = payload; reply = []; state = ws })
    else if not ws.is_open
    then some (handshake sha1 mask payload [] ws)
    else rounds (length (drop ws.pos ws.in_bytes) + 1) mask payload ws
