-- ===== src/WebSocket/Delivered.antt =====
-- What one end of a `WebSocket` of src/websocket.cpp sends, the other end gets.
use sipp.Base.{
  ℕ, zero, suc, ◌+◌, ◌^◌, ◌≤◌, ◌<◌, ◌≡◌, refl, ap, ◌∙◌, Bool, true, false, not, List, [], ◌++◌,
  Option, none, some, if◌then◌else◌, length, drop, arith, Bool-cases, inl, inr, drop-append,
}
use sipp.WebSocket.Event.{Event}
use sipp.WebSocket.Utf8.{is_utf8}
use sipp.WebSocket.Frame.{encode}
use sipp.WebSocket.State.{
  WebSocket, Found, op_text, op_binary, feed, frame, make_frame, whole_message,
}
use sipp.WebSocket.Next.{
  whole, return, read_frame, take_message, take_frame, read_round, rounds, next,
}
use sipp.WebSocket.Parsed.{Masked, read_frame-encode}

pub rounds-return :
    (n : ℕ) (mask payload : List ℕ) (ws : WebSocket) (found : Found)
    → 0 < n
    → read_round mask payload ws ≡ return found
    → rounds n mask payload ws ≡ some found
unfolding rounds
rounds-return zero mask payload ws found h e = absurd (omega arith)
rounds-return (suc n) mask payload ws found h e = rw (rounds, e) refl

-- A read_round on a whole frame.
pub read_round-whole :
    (mask payload : List ℕ) (ws : WebSocket) (fin : Bool) (opcode : ℕ) (content : List ℕ) (size : ℕ)
    → read_frame ws (drop ws.pos ws.in_bytes) ≡ whole fin opcode content size
    → read_round mask payload ws
      ≡ take_frame mask fin opcode content payload [] (record ws { pos = ws.pos + size })
unfolding read_round
read_round-whole mask payload ws fin opcode content size e = rw (read_round, e) refl

-- The frame of a message that is not in fragments.
abbrev message_opcode : List ℕ → ℕ
message_opcode content = if is_utf8 content then op_text else op_binary

take_frame-message :
    (mask payload content : List ℕ) (ws : WebSocket)
    → ws.fragmented ≡ none
    → take_frame mask true (message_opcode content) content payload [] ws
      ≡ return (record { event = Event.message; payload = content; reply = []; state = ws })
unfolding take_frame take_message whole_message
take_frame-message mask payload content ws e = elim (Bool-cases (is_utf8 content)) [
  | inl u ↦ rw u (
      ap (λ o. take_message o mask true op_text content payload [] ws) e
      ∙ rw (whole_message, u) refl)
  | inr u ↦ rw u (ap (λ o. take_message o mask true op_binary content payload [] ws) e)
]

-- `next` of an open end.
pub next-open :
    (sha1 : List ℕ → List ℕ) (mask payload : List ℕ) (ws : WebSocket)
    → ws.is_open ≡ true
    → ws.closed ≡ false
    → next sha1 mask payload ws ≡ rounds (length (drop ws.pos ws.in_bytes) + 1) mask payload ws
unfolding next
next-open sha1 mask payload ws o c = simp (c, o) refl

pub feed-open :
    (bytes : List ℕ) (ws : WebSocket)
    → ws.closed ≡ false
    → feed bytes ws ≡ record ws { in_bytes = drop ws.pos ws.in_bytes ++ bytes; pos = 0 }
unfolding feed
feed-open bytes ws c = simp c refl

-- A frame of a message for this end is the next event.
next-encode :
    (sha1 : List ℕ → List ℕ) (mask payload content rest : List ℕ) (key : Option (List ℕ)) (m : Bool)
    (ws : WebSocket)
    → ws.server ≡ m
    → Masked m key
    → ws.is_open ≡ true
    → ws.closed ≡ false
    → ws.fragmented ≡ none
    → length content + length ws.fragments ≤ ws.max_message
    → ws.max_message + 14 < 2 ^ 64
    → drop ws.pos ws.in_bytes ≡ encode (message_opcode content) content key true ++ rest
    → next sha1 mask payload ws
      ≡ some (record {
        event = Event.message;
        payload = content;
        reply = [];
        state = record ws {
          pos = ws.pos + length (encode (message_opcode content) content key true);
        };
      })
next-encode sha1 mask payload content rest key m ws e k o c f l h d =
    let op = message_opcode content in
    let size = length (encode op content key true) in
    let small : op < 8 = ground arith in
    let found : Found = record {
      event = Event.message;
      payload = content;
      reply = [];
      state = record ws { pos = ws.pos + size };
    } in
    next-open sha1 mask payload ws o c
    ∙ rounds-return (length (drop ws.pos ws.in_bytes) + 1) mask payload ws found (omega arith) (
        read_round-whole mask payload ws true op content size (
          ap (read_frame ws) d
          ∙ read_frame-encode ws true op content rest key m e k (omega arith) (inr (small, l)) h)
        ∙ take_frame-message mask payload content (record ws { pos = ws.pos + size }) f)

-- The key that `make_frame` masks with.
abbrev key_of : Bool → List ℕ → Option (List ℕ)
key_of true mask = none
key_of false mask = some mask

frame-encode :
    (mask content : List ℕ) (ws : WebSocket) (m : Bool)
    → ws.server ≡ m
    → frame mask content ws ≡ encode (message_opcode content) content (key_of m mask) true
unfolding frame make_frame
frame-encode mask content ws true e = rw e refl
frame-encode mask content ws false e = rw e refl

Masked-key_of : (mask : List ℕ) (m : Bool) → length mask ≡ 4 → Masked (not m) (key_of m mask)
Masked-key_of mask true h = tt
Masked-key_of mask false h = h

-- A message that one end sends in a frame, fed to the other end when that is open, has no bytes left to
-- parse and is in no fragmented message, is what `next` of the other end returns, whichever of the two is the
-- server, and the bytes fed behind the frame are left for the next call; the message is within the other
-- end's limit.
pub next-frame :
    (sha1 : List ℕ → List ℕ) (mask mask' payload content rest : List ℕ)
    (sender receiver : WebSocket)
    → receiver.server ≡ not sender.server
    → length mask ≡ 4
    → receiver.is_open ≡ true
    → receiver.closed ≡ false
    → receiver.fragmented ≡ none
    → length content + length receiver.fragments ≤ receiver.max_message
    → receiver.max_message + 14 < 2 ^ 64
    → drop receiver.pos receiver.in_bytes ≡ []
    → (ws : WebSocket) × (next sha1 mask' payload
          (feed (frame mask content sender ++ rest) receiver)
        ≡ some (record { event = Event.message; payload = content; reply = []; state = ws }))
      × (drop ws.pos ws.in_bytes ≡ rest)
      × (ws.fragmented ≡ none)
      × (ws.fragments ≡ receiver.fragments)
next-frame sha1 mask mask' payload content rest sender receiver role k o c f l h d =
    let sent = frame mask content sender in
    let fed : WebSocket = record receiver { in_bytes = sent ++ rest; pos = 0 } in
    let code = frame-encode mask content sender sender.server refl in
    let key = key_of sender.server mask in
    let size = length (encode (message_opcode content) content key true) in
    let behind : drop (0 + size) (sent ++ rest) ≡ rest =
      let e : 0 + size ≡ length sent = omega (arith, ap length code) in
      ap (λ n. drop n (sent ++ rest)) e ∙ drop-append sent rest in
    (
      record fed { pos = 0 + size },
      ap (next sha1 mask' payload) (
            feed-open (sent ++ rest) receiver c
            ∙ ap (λ b. record receiver { in_bytes = b ++ (sent ++ rest); pos = 0 }) d)
          ∙ (next-encode sha1 mask' payload content rest key (not sender.server) fed role
              (Masked-key_of mask sender.server k) o c f l h (ap (λ s. s ++ rest) code)),
      behind,
      f,
      refl,
    )
