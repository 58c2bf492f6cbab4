-- ===== src/WebSocket/Ends.antt =====
-- `next` of src/websocket.cpp always comes to an event.
use sipp.Base.{
  ℕ, zero, suc, ◌+◌, ◌^◌, ◌≤◌, ◌<◌, ◌≡◌, refl, ap, subst, Bool, true, false, List, [], ◌++◌, some,
  if◌then◌else◌, length, take, drop, arith, Bool-cases, Option-cases, ◌⊎◌, inl, inr, length-drop,
}
use sipp.Base.Bytes.{codes}
use sipp.WebSocket.Event.{Event}
use sipp.WebSocket.Http.{crlf, position, header, line_of}
use sipp.WebSocket.State.{WebSocket, Found, fail, to_string}
use sipp.WebSocket.Handshake.{switching, opened_with, server_handshake, client_handshake, handshake}
use sipp.WebSocket.Next.{
  Read, more, broken, whole, Round, again, return, read_frame, take_frame, read_round, rounds, next,
}
use sipp.WebSocket.Bounds.{
  IsWithin, Readable, read_frame-Readable, Finished, Kept, fail-Finished, take_frame-Kept,
}

-- A read_round leaves fewer bytes, or is the last.
abbrev Progress : WebSocket → Round → Type 0
Progress ws (again ws') =
    IsWithin ws'
    × (ws'.max_message ≡ ws.max_message)
    × (length (drop ws'.pos ws'.in_bytes) < length (drop ws.pos ws.in_bytes))
Progress ws (return found) = Finished ws.max_message found

Kept-Progress :
    (ws : WebSocket) (size : ℕ) (r : Round)
    → 2 ≤ size
    → size ≤ length (drop ws.pos ws.in_bytes)
    → Kept (record ws { pos = ws.pos + size }) r
    → Progress ws r
Kept-Progress ws size (return found) two l k = k
Kept-Progress ws size (again ws') two l (w, m, i, p) = (
  w,
  m,
  omega (arith, length-drop ws'.pos ws'.in_bytes, length-drop ws.pos ws.in_bytes, ap length i),
)

-- `read_round`, by what was read.
abbrev acted : List ℕ → List ℕ → WebSocket → Read → Round
acted mask payload ws r = elim r [
  | more ↦ return (record { event = Event.need_more; payload = payload; reply = []; state = ws })
  | broken code why ↦ return (fail mask code why payload [] ws)
  | whole fin opcode content size ↦
      take_frame mask fin opcode content payload [] (record ws { pos = ws.pos + size })
]

acted-Progress :
    (mask payload : List ℕ) (ws : WebSocket) (r : Read)
    → IsWithin ws
    → Readable ws (drop ws.pos ws.in_bytes) r
    → Progress ws (acted mask payload ws r)
acted-Progress mask payload ws more w h = (w, refl, λ e. ground arith)
acted-Progress mask payload ws (broken code why) w h = fail-Finished mask code why payload [] ws w
acted-Progress mask payload ws (whole fin opcode content size) w (two, l, fits) =
    Kept-Progress ws size
      (take_frame mask fin opcode content payload [] (record ws { pos = ws.pos + size })) two l
      (take_frame-Kept mask fin opcode content payload (record ws { pos = ws.pos + size }) w fits)

read_round-Progress :
    (mask payload : List ℕ) (ws : WebSocket)
    → IsWithin ws
    → ws.max_message + 14 < 2 ^ 64
    → Progress ws (read_round mask payload ws)
unfolding read_round
read_round-Progress mask payload ws w h =
    acted-Progress mask payload ws (read_frame ws (drop ws.pos ws.in_bytes)) w
      (read_frame-Readable ws (drop ws.pos ws.in_bytes) w h)

Round-cases :
    (r : Round) → ((ws : WebSocket) × (r ≡ again ws)) ⊎ ((found : Found) × (r ≡ return found))
Round-cases (again ws) = inl (ws, refl)
Round-cases (return found) = inr (found, refl)

rounds-Finished :
    (n : ℕ) (mask payload : List ℕ) (ws : WebSocket)
    → length (drop ws.pos ws.in_bytes) < n
    → IsWithin ws
    → ws.max_message + 14 < 2 ^ 64
    → (found : Found) × (rounds n mask payload ws ≡ some found) × Finished ws.max_message found
unfolding rounds
rounds-Finished zero mask payload ws l w h = absurd (omega arith)
rounds-Finished (suc n) mask payload ws l w h =
    let progress = read_round-Progress mask payload ws w h in
    elim (Round-cases (read_round mask payload ws)) [
      | inl (ws', e) ↦
          let (w', m, less) = subst (Progress ws) e progress in
          let (found, r, f) = rounds-Finished n mask payload ws' (omega arith) w' (omega arith) in
          (found, rw (rounds, e) r, subst (λ most. Finished most found) m f)
      | inr (found, e) ↦ (found, rw (rounds, e) refl, subst (Progress ws) e progress)
    ]

if-Finished :
    (b : Bool) (most : ℕ) (f g : Found)
    → Finished most f
    → Finished most g
    → Finished most (if b then f else g)
if-Finished true most f g p q = p
if-Finished false most f g p q = q

module _ (sha1 : List ℕ → List ℕ) where
  opened-Finished :
      (payload reply : List ℕ) (ws : WebSocket)
      → IsWithin ws
      → Finished ws.max_message (opened_with sha1 payload reply ws)
  opened-Finished payload reply ws w = (w, refl, λ e. ground arith)

  server_handshake-Finished :
      (mask first head payload reply : List ℕ) (ws : WebSocket)
      → IsWithin ws
      → Finished ws.max_message (server_handshake sha1 mask first head payload reply ws)
  unfolding server_handshake
  server_handshake-Finished mask first head payload reply ws w =
      let no = λ (code : ℕ) (why : List ℕ). fail-Finished mask code why payload reply ws w in
      if-Finished _ ws.max_message _ _
        (no 400 (codes "not a GET request: '" ++ (first ++ codes "'")))
        (if-Finished _ ws.max_message _ _ (no 400 (codes "not a WebSocket upgrade")) (
          if-Finished _ ws.max_message _ _ (no 426 (codes "not WebSocket version 13")) (
            if-Finished _ ws.max_message _ _ (no 400 (codes "no Sec-WebSocket-Key")) (
              if-Finished _ ws.max_message _ _
                (no 400 (codes "the client does not offer the sip subprotocol"))
                (opened-Finished payload (switching sha1 (header head (codes "Sec-WebSocket-Key")))
                  ws w)))))

  client_handshake-Finished :
      (mask first head payload reply : List ℕ) (ws : WebSocket)
      → IsWithin ws
      → Finished ws.max_message (client_handshake sha1 mask first head payload reply ws)
  unfolding client_handshake
  client_handshake-Finished mask first head payload reply ws w =
      let no = λ (why : List ℕ). fail-Finished mask 0 why payload reply ws w in
      if-Finished _ ws.max_message _ _ (no (codes "the server answered '" ++ (first ++ codes "'")))
        (if-Finished _ ws.max_message _ _ (no (codes "not a WebSocket upgrade")) (
          if-Finished _ ws.max_message _ _ (no (codes "a wrong Sec-WebSocket-Accept")) (
            if-Finished _ ws.max_message _ _
              (no (codes "the server does not take the sip subprotocol"))
              (opened-Finished payload reply ws w))))

  handshake-Finished :
      (mask payload : List ℕ) (ws : WebSocket)
      → IsWithin ws
      → Finished ws.max_message (handshake sha1 mask payload [] ws)
  unfolding handshake
  handshake-Finished mask payload ws w =
      elim (Option-cases (position (crlf ++ crlf) (drop ws.pos ws.in_bytes))) [
        | inl e ↦
            rw (handshake, e)
              (if-Finished _ ws.max_message _ _
                (fail-Finished mask 400
                  (codes "a handshake longer than " ++ (to_string ws.max_message ++ codes " bytes"))
                  payload [] ws w)
                (w, refl, λ e. ground arith))
        | inr (end, e) ↦
            let head = take (end + 2) (drop ws.pos ws.in_bytes) in
            let ws' : WebSocket = record ws { pos = ws.pos + end + 4 } in
            rw (handshake, e)
              (if-Finished ws.server ws.max_message _ _
                (server_handshake-Finished mask (line_of head) head payload [] ws' w)
                (client_handshake-Finished mask (line_of head) head payload [] ws' w))
      ]

  -- `next` always comes to an event, in the handshake and in frames of any bytes, within one read_round more than
  -- there are bytes. What it keeps of a message in fragments stays within `max_message`, and so is each message
  -- that it returns.
  pub next-Finished :
      (mask payload : List ℕ) (ws : WebSocket)
      → IsWithin ws
      → ws.max_message + 14 < 2 ^ 64
      → (found : Found) × (next sha1 mask payload ws ≡ some found) × Finished ws.max_message found
  unfolding next
  next-Finished mask payload ws w h = elim (Bool-cases ws.closed) [
    | inl c ↦ (
      record { event = Event.need_more; payload = payload; reply = []; state = ws },
      simp c refl,
      (w, refl, λ e. ground arith),
    )
    | inr c ↦ elim (Bool-cases ws.is_open) [
      | inl o ↦
          let (found, r, f) =
            rounds-Finished (length (drop ws.pos ws.in_bytes) + 1) mask payload ws (omega arith) w
              h in
          (found, simp (c, o) r, f)
      | inr o ↦ (
        handshake sha1 mask payload [] ws,
        simp (c, o) refl,
        handshake-Finished mask payload ws w,
      )
    ]
  ]
