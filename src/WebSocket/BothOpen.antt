-- ===== src/WebSocket/BothOpen.antt =====
-- The handshake of src/websocket.cpp from the client's request to both ends being open.
use mathlib.Core.List.{append_assoc}
use sipp.Base.{
  ℕ, ◌<◌, ◌≡◌, refl, ap, ◌∙◌, true, false, List, [], ◌∷◌, ◌++◌, some, if◌then◌else◌, ◌==◌, length,
  drop, arith, Bool-cases, inl, inr,
}
use sipp.Base.Bytes.{at, codes}
use sipp.WebSocket.Event.{Event}
use sipp.WebSocket.Base64.{base64}
use sipp.WebSocket.State.{WebSocket, feed, request}
use sipp.WebSocket.Handshake.{accept_key, switching, server_handshake, client_handshake, handshake}
use sipp.WebSocket.Next.{next}
use sipp.WebSocket.Delivered.{feed-open}
use sipp.WebSocket.Lines.{HasNoCr, lines_onto}
use sipp.WebSocket.Opening.{IsSolid, base64-IsSolid, handshake-lines}
use sipp.WebSocket.Agreed.{
  request_first, request_lines, request-AreLines, server_handshake-request, reply_first,
  reply_lines, reply-AreLines, client_handshake-reply,
}

length-base64 : (s : List ℕ) → 0 < length s → 0 < length (base64 s)
unfolding base64
length-base64 [] h = absurd (omega arith)
length-base64 (a ∷ []) h = omega arith
length-base64 (a ∷ b ∷ []) h = omega arith
length-base64 (a ∷ b ∷ c ∷ s) h = omega arith

-- The path as the request has it, with its first slash.
abbrev target : List ℕ → List ℕ
target path = (if at path 0 == b'/' then [] else b'/' ∷ []) ++ path

target-HasNoCr : (path : List ℕ) → HasNoCr path → HasNoCr (target path)
target-HasNoCr path h = elim (Bool-cases (at path 0 == b'/')) [
  | inl e ↦ rw e h
  | inr e ↦ rw e (refl, h)
]

-- An end that waits for the handshake.
pub record IsWaiting (ws : WebSocket) : Type 0 where
  pub not_open : ws.is_open ≡ false
  pub not_closed : ws.closed ≡ false
  pub nothing_left : drop ws.pos ws.in_bytes ≡ []

-- What `next` has made of a handshake: it is open, and `rest` is left to parse.
abbrev pub Opens : (List ℕ → List ℕ) → List ℕ → List ℕ → WebSocket → List ℕ → List ℕ → Type 0
Opens sha1 mask payload ws reply rest =
    (after : WebSocket) × (next sha1 mask payload ws
      ≡ some (record { event = Event.opened; payload = payload; reply = reply; state = after }))
    × (after.is_open ≡ true)
    × (drop after.pos after.in_bytes ≡ rest)

next-waiting :
    (sha1 : List ℕ → List ℕ) (mask payload : List ℕ) (ws : WebSocket)
    → ws.is_open ≡ false
    → ws.closed ≡ false
    → next sha1 mask payload ws ≡ some (handshake sha1 mask payload [] ws)
unfolding next
next-waiting sha1 mask payload ws o c = simp (c, o) refl

fed : List ℕ → WebSocket → WebSocket
fed bytes ws = record ws { in_bytes = bytes; pos = 0 }

feed-waiting : (bytes : List ℕ) (ws : WebSocket) → IsWaiting ws → feed bytes ws ≡ fed bytes ws
unfolding fed
feed-waiting bytes ws w =
    feed-open bytes ws w.not_closed
    ∙ ap (λ b. record ws { in_bytes = b ++ bytes; pos = 0 }) w.nothing_left

module _ (sha1 : List ℕ → List ℕ) (nonce host path : List ℕ) (h : HasNoCr host)
    (p : HasNoCr path) where
  server-Opens :
      (mask payload rest : List ℕ) (server client : WebSocket)
      → server.server ≡ true
      → IsWaiting server
      → 0 < length nonce
      → Opens sha1 mask payload
          (feed ((request nonce host path client).0 ++ rest) server)
          (switching sha1 (base64 nonce))
          rest
  unfolding request fed
  server-Opens mask payload rest server client s w n =
      let key = base64 nonce in
      let text = (request nonce host path client).0 ++ rest in
      let solid = base64-IsSolid nonce in
      let clean = target-HasNoCr path p in
      let written : text
          ≡ lines_onto (request_first host key (target path) ∷ request_lines host key (target path))
              (13 ∷ 10 ∷ rest) =
        simp append_assoc in
      let (pos, done, left) =
        handshake-lines sha1 mask payload (fed text server) (request_first host key (target path))
          (request_lines host key (target path)) rest
          (request-AreLines host key (target path) h solid clean) written in
      let after : WebSocket = record (fed text server) { pos = pos } in
      (
        record after { is_open = true },
        ap (next sha1 mask payload) (feed-waiting text server w)
            ∙ next-waiting sha1 mask payload (fed text server) w.not_open w.not_closed
            ∙ ap some (
                done
                ∙ ap
                    (λ b.
                      if b
                      then server_handshake sha1 mask (request_first host key (target path))
                          (lines_onto
                            (request_first host key (target path)
                              ∷ request_lines host key (target path))
                            [])
                          payload [] after
                      else client_handshake sha1 mask (request_first host key (target path))
                          (lines_onto
                            (request_first host key (target path)
                              ∷ request_lines host key (target path))
                            [])
                          payload [] after)
                    s
                ∙ server_handshake-request host key (target path) h solid clean sha1 mask payload
                    after (length-base64 nonce n)),
        refl,
        left,
      )

  client-Opens :
      (mask payload rest : List ℕ) (client : WebSocket)
      → client.server ≡ false
      → IsWaiting client
      → Opens sha1 mask payload
          (feed (switching sha1 (base64 nonce) ++ rest) (request nonce host path client).1)
          []
          rest
  unfolding request fed accept_key
  client-Opens mask payload rest client s w =
      let key = base64 nonce in
      let asking : WebSocket = record client { key = key } in
      let text = switching sha1 key ++ rest in
      let accept = accept_key sha1 key in
      let solid : IsSolid accept =
        base64-IsSolid (sha1 (key ++ codes "258EAFA5-E914-47DA-95CA-C5AB0DC85B11")) in
      let written : text
          ≡ lines_onto (reply_first accept solid ∷ reply_lines accept solid) (13 ∷ 10 ∷ rest) =
        simp append_assoc in
      let waiting : IsWaiting asking = record {
        not_open = w.not_open;
        not_closed = w.not_closed;
        nothing_left = w.nothing_left;
      } in
      let (pos, done, left) =
        handshake-lines sha1 mask payload (fed text asking) (reply_first accept solid)
          (reply_lines accept solid) rest (reply-AreLines accept solid) written in
      let after : WebSocket = record (fed text asking) { pos = pos } in
      let head = lines_onto (reply_first accept solid ∷ reply_lines accept solid) [] in
      (
        record after { is_open = true },
        ap (next sha1 mask payload) (feed-waiting text asking waiting)
            ∙ next-waiting sha1 mask payload (fed text asking) w.not_open w.not_closed
            ∙ ap some (
                done
                ∙ ap
                    (λ b.
                      if b
                      then server_handshake sha1 mask (reply_first accept solid) head payload []
                          after
                      else client_handshake sha1 mask (reply_first accept solid) head payload []
                          after)
                    s
                ∙ client_handshake-reply accept solid sha1 mask payload after refl),
        refl,
        left,
      )

  -- The request of a client that waits, fed to a server that waits, opens the server, and the server's reply
  -- opens the client, for every host and path with no CR and every nonce that is not empty, whatever
  -- SHA-1 gives; bytes that come behind the request or the reply are left for the frames.
  pub request-Opens :
      (mask mask' payload payload' rest rest' : List ℕ) (client server : WebSocket)
      → client.server ≡ false
      → server.server ≡ true
      → IsWaiting client
      → IsWaiting server
      → 0 < length nonce
      → (reply : List ℕ) × Opens sha1 mask payload
          (feed ((request nonce host path client).0 ++ rest) server)
          reply
          rest
        × Opens sha1 mask' payload'
            (feed (reply ++ rest') (request nonce host path client).1)
            []
            rest'
  request-Opens mask mask' payload payload' rest rest' client server c s w w' n = (
    switching sha1 (base64 nonce),
    server-Opens mask payload rest server client s w' n,
    client-Opens mask' payload' rest' client c w,
  )
