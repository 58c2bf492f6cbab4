-- ===== src/WebSocket/Handshake.antt =====
-- `WebSocket::handshake` and `accept_key` of src/websocket.cpp. SHA-1 of the TLS library is a parameter.
use sipp.Base.{
  ℕ, ◌+◌, ◌-◌, Bool, true, ◌&&◌, ◌||◌, not, List, [], ◌++◌, none, some, ltb, ◌==◌, if◌then◌else◌,
  length, take, drop,
}
use sipp.Base.Bytes.{at, codes, bytes_eq, starts}
use sipp.WebSocket.Event.{Event}
use sipp.WebSocket.Base64.{base64}
use sipp.WebSocket.Http.{crlf, position, has_token, header, line_of, same_word}
use sipp.WebSocket.State.{WebSocket, Found, to_string, fail}

module _ (sha1 : List ℕ → List ℕ) where
  unfoldable pub accept_key : List ℕ → List ℕ
  accept_key key = base64 (sha1 (key ++ codes "258EAFA5-E914-47DA-95CA-C5AB0DC85B11"))

  abbrev pub opened_with : List ℕ → List ℕ → WebSocket → Found
  opened_with payload reply ws = record {
    event = Event.opened;
    payload = payload;
    reply = reply;
    state = record ws { is_open = true };
  }

  abbrev pub is_upgrade : List ℕ → Bool
  is_upgrade head =
      has_token (header head (codes "Upgrade")) (codes "websocket")
      && has_token (header head (codes "Connection")) (codes "Upgrade")

  -- The reply of a server that takes the handshake.
  abbrev pub switching : List ℕ → List ℕ
  switching client_key =
      codes
        "HTTP/1.1 101 Switching Protocols\r\nUpgrade: websocket\r\nConnection: Upgrade\r\nSec-WebSocket-Accept: "
      ++ (accept_key client_key ++ codes "\r\nSec-WebSocket-Protocol: sip\r\n\r\n")

  -- The tests of a server on the first line and the head.
  unfoldable pub server_handshake : List ℕ → List ℕ → List ℕ → List ℕ → List ℕ → WebSocket → Found
  server_handshake mask first head payload reply ws =
      if not (starts (codes "GET ") first)
        || ltb (length first) 13
        || not (bytes_eq (drop (length first - 9) first) (codes " HTTP/1.1"))
      then fail mask 400 (codes "not a GET request: '" ++ (first ++ codes "'")) payload reply ws
      else if not (is_upgrade head)
      then fail mask 400 (codes "not a WebSocket upgrade") payload reply ws
      else if not (has_token (header head (codes "Sec-WebSocket-Version")) (codes "13"))
      then fail mask 426 (codes "not WebSocket version 13") payload reply ws
      else if bytes_eq (header head (codes "Sec-WebSocket-Key")) []
      then fail mask 400 (codes "no Sec-WebSocket-Key") payload reply ws
      else if not (has_token (header head (codes "Sec-WebSocket-Protocol")) (codes "sip"))
      then fail mask 400 (codes "the client does not offer the sip subprotocol") payload reply ws
      else opened_with payload (switching (header head (codes "Sec-WebSocket-Key"))) ws

  -- The tests of a client.
  unfoldable pub client_handshake : List ℕ → List ℕ → List ℕ → List ℕ → List ℕ → WebSocket → Found
  client_handshake mask first head payload reply ws =
      if not (starts (codes "HTTP/1.1 101") first)
        || (ltb 12 (length first) && not (at first 12 == b' '))
      then fail mask 0 (codes "the server answered '" ++ (first ++ codes "'")) payload reply ws
      else if not (is_upgrade head)
      then fail mask 0 (codes "not a WebSocket upgrade") payload reply ws
      else if not (bytes_eq (header head (codes "Sec-WebSocket-Accept")) (accept_key ws.key))
      then fail mask 0 (codes "a wrong Sec-WebSocket-Accept") payload reply ws
      else if not (same_word (codes "sip") (header head (codes "Sec-WebSocket-Protocol")))
      then fail mask 0 (codes "the server does not take the sip subprotocol") payload reply ws
      else opened_with payload reply ws

  unfoldable pub handshake : List ℕ → List ℕ → List ℕ → WebSocket → Found
  unfolding server_handshake client_handshake
  handshake mask payload reply ws =
      let rest = drop ws.pos ws.in_bytes in
      elim (position (crlf ++ crlf) rest) [
        | none ↦
            if ltb ws.max_message (length rest)
            then fail mask 400
                (codes "a handshake longer than " ++ (to_string ws.max_message ++ codes " bytes"))
                payload reply ws
            else record { event = Event.need_more; payload = payload; reply = reply; state = ws }
        | some end ↦
            let head = take (end + 2) rest in
            let ws' = record ws { pos = ws.pos + end + 4 } in
            if ws.server
            then server_handshake mask (line_of head) head payload reply ws'
            else client_handshake mask (line_of head) head payload reply ws'
      ]
