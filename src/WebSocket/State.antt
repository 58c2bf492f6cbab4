-- ===== src/WebSocket/State.antt =====
-- The state of a `WebSocket` of src/websocket.cpp and src/include/websocket.hpp, and the operations that
-- make frames or end the connection. The bytes that `random_bytes` gives for a mask are an argument.
use sipp.Base.{
  ℕ, zero, suc, ◌+◌, ◌/◌, ◌%◌, Bool, true, false, ◌&&◌, not, List, [], ◌∷◌, ◌++◌, Option, none,
  some, ◌==◌, if◌then◌else◌, drop,
}
use sipp.Base.Bytes.{codes, at}
use sipp.WebSocket.Event.{Event}
use sipp.WebSocket.Utf8.{is_utf8}
use sipp.WebSocket.Base64.{base64}
use sipp.WebSocket.Frame.{encode}

abbrev pub op_continuation : ℕ
op_continuation = 0

abbrev pub op_text : ℕ
op_text = 1

abbrev pub op_binary : ℕ
op_binary = 2

abbrev pub op_close : ℕ
op_close = 8

abbrev pub op_ping : ℕ
op_ping = 9

abbrev pub op_pong : ℕ
op_pong = 10

-- `in` is `in_bytes`, `open` is `is_open`, and a `fragmented` of -1 is `none`. `held` and `held_full`
-- belong to the socket.
pub record WebSocket : Type 0 where
  pub server : Bool
  pub max_message : ℕ
  pub is_open : Bool
  pub closed : Bool
  pub key : List ℕ
  pub in_bytes : List ℕ
  pub pos : ℕ
  pub fragmented : Option ℕ
  pub fragments : List ℕ
  pub err : List ℕ

-- What `next` returns: the event, its two texts, and the state.
pub record Found : Type 0 where
  pub event : Event
  pub payload : List ℕ
  pub reply : List ℕ
  pub state : WebSocket

abbrev pub new_web_socket : Bool → ℕ → WebSocket
new_web_socket server max_message = record {
  server = server;
  max_message = max_message;
  is_open = false;
  closed = false;
  key = [];
  in_bytes = [];
  pos = 0;
  fragmented = none;
  fragments = [];
  err = [];
}

abbrev decimal_digits : ℕ → ℕ → List ℕ → List ℕ
decimal_digits zero n acc = acc
decimal_digits (suc k) n acc =
    let rest = decimal_digits k (n / 10) ((b'0' + n % 10) ∷ acc) in
    if n / 10 == 0 then (b'0' + n % 10) ∷ acc else rest

-- `std::to_string`, for a number of 64 bits
unfoldable pub to_string : ℕ → List ℕ
to_string n = decimal_digits 20 n []

unfoldable pub feed : List ℕ → WebSocket → WebSocket
feed bytes ws =
    if ws.closed then ws else record ws { in_bytes = drop ws.pos ws.in_bytes ++ bytes; pos = 0 }

unfoldable pub make_frame : List ℕ → ℕ → List ℕ → WebSocket → List ℕ
make_frame mask opcode payload ws =
    if ws.server then encode opcode payload none true else encode opcode payload (some mask) true

unfoldable pub frame : List ℕ → List ℕ → WebSocket → List ℕ
unfolding make_frame
frame mask payload ws = make_frame mask (if is_utf8 payload then op_text else op_binary) payload ws

unfoldable pub close_frame : List ℕ → ℕ → WebSocket → List ℕ
unfolding make_frame
close_frame mask code ws = make_frame mask op_close ((code / 256 % 256) ∷ (code % 256) ∷ []) ws

-- `request`, with the bytes of its nonce
unfoldable pub request : List ℕ → List ℕ → List ℕ → WebSocket → List ℕ × WebSocket
request nonce host path ws =
    let key = base64 nonce in
    (
      codes "GET "
          ++ ((if at path 0 == b'/' then [] else b'/' ∷ [])
              ++ (path
                  ++ (codes " HTTP/1.1\r\nHost: "
                      ++ (host
                          ++ (codes
                                "\r\nUpgrade: websocket\r\nConnection: Upgrade\r\nSec-WebSocket-Key: "
                              ++ (key
                                  ++ codes
                                      "\r\nSec-WebSocket-Version: 13\r\nSec-WebSocket-Protocol: sip\r\n\r\n")))))),
      record ws { key = key },
    )

-- The text that a failed connection is answered with.
unfoldable pub fail_reply : List ℕ → ℕ → List ℕ → WebSocket → List ℕ
unfolding close_frame
fail_reply mask code reply ws =
    if ws.is_open
    then close_frame mask code ws
    else if ws.server
    then (if code == 426
        then codes
            "HTTP/1.1 426 Upgrade Required\r\nSec-WebSocket-Version: 13\r\nContent-Length: 0\r\n\r\n"
        else codes "HTTP/1.1 400 Bad Request\r\nContent-Length: 0\r\n\r\n")
    else reply

unfoldable pub fail : List ℕ → ℕ → List ℕ → List ℕ → List ℕ → WebSocket → Found
unfolding fail_reply
fail mask code why payload reply ws = record {
  event = Event.failed;
  payload = payload;
  reply = fail_reply mask code reply ws;
  state = record ws { closed = true; err = why };
}

-- `message`: a whole message
unfoldable pub whole_message : List ℕ → ℕ → List ℕ → List ℕ → WebSocket → Found
unfolding fail
whole_message mask opcode payload reply ws =
    if (opcode == op_text) && not (is_utf8 payload)
    then fail mask 1007 (codes "a text message that is not UTF-8") payload reply ws
    else record { event = Event.message; payload = payload; reply = reply; state = ws }
