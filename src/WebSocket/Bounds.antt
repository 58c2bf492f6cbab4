-- ===== src/WebSocket/Bounds.antt =====
-- `next` of src/websocket.cpp comes to an end, and keeps to the limit of a message.
use sipp.Base.{
  ℕ, ◌+◌, ◌-◌, ◌*◌, ◌/◌, ◌%◌, ◌^◌, ◌≤◌, ◌<◌, ◌≡◌, refl, Bool, true, false, ◌&&◌, not, List, [],
  ◌++◌, Option, none, some, ltb, leb, ◌==◌, if◌then◌else◌, length, take, drop, arith, Bool-cases,
  Option-cases, ◌||◌, inl, inr, length-append, length-take_le,
}
use sipp.Base.Bytes.{at, codes}
use sipp.WebSocket.Utf8.{is_utf8}
use sipp.WebSocket.Event.{Event}
use sipp.WebSocket.Frame.{masked_from}
use sipp.WebSocket.Xor.{length-masked_from}
use sipp.WebSocket.State.{
  op_text, op_binary, op_continuation, op_ping, op_pong, op_close, to_string, WebSocket, Found,
  fail, whole_message,
}
use sipp.WebSocket.Next.{
  Read, more, broken, whole, Round, again, return, extended_length, read_payload, read_checked,
  read_frame, same_bool, valid_close_code, take_close, take_message, take_continuation, take_frame,
}

-- What there is of a message is within the limit.
abbrev pub IsWithin : WebSocket → Type 0
IsWithin ws = length ws.fragments ≤ ws.max_message

-- A frame is in the bytes, and makes no message too long.
abbrev pub Readable : WebSocket → List ℕ → Read → Type 0
Readable ws p more = Unit
Readable ws p (broken _ _) = Unit
Readable ws p (whole fin opcode content size) =
    (2 ≤ size)
    × (size ≤ length p)
    × (opcode < 8 → length content + length ws.fragments ≤ ws.max_message)

length-content :
    (m : Bool) (hlen len : ℕ) (p : List ℕ)
    → length (
        if m
        then masked_from (take 4 (drop (hlen - 4) p)) 0 (take len (drop hlen p))
        else take len (drop hlen p))
      ≤ len
length-content true hlen len p = omega (
  arith,
  length-masked_from (take 4 (drop (hlen - 4) p)) 0 (take len (drop hlen p)),
  length-take_le len (drop hlen p),
)
length-content false hlen len p = omega (arith, length-take_le len (drop hlen p))

read_payload-Readable :
    (ws : WebSocket) (m fin : Bool) (opcode hlen len : ℕ) (p : List ℕ)
    → 2 ≤ hlen
    → hlen + len < 2 ^ 64
    → (opcode < 8 → len + length ws.fragments ≤ ws.max_message)
    → Readable ws p (read_payload m fin opcode hlen len p)
unfolding read_payload
read_payload-Readable ws m fin opcode hlen len p two small l =
    elim (Bool-cases (ltb (length p) ((hlen + len) % 2 ^ 64))) [
      | inl t ↦ rw t tt
      | inr t ↦
          rw t (omega arith, ground arith, λ c. omega (arith, l c, length-content m hlen len p))
    ]

limits :
    (fin : Bool) (opcode len most there : ℕ)
    → (leb 8 opcode && (not fin || ltb 125 len)) ≡ false
    → (not (leb 8 opcode) && ltb (most - there) len) ≡ false
    → there ≤ most
    → most + 14 < 2 ^ 64
    → (len + 14 < 2 ^ 64) × (opcode < 8 → len + there ≤ most)
limits true opcode len most there a b w h = (ground arith, λ c. ground arith)
limits false opcode len most there a b w h = (ground arith, λ c. ground arith)

read_checked-Readable :
    (ws : WebSocket) (m fin : Bool) (opcode len hlen : ℕ) (p : List ℕ)
    → IsWithin ws
    → ws.max_message + 14 < 2 ^ 64
    → 2 ≤ hlen
    → hlen ≤ 10
    → Readable ws p (read_checked ws m fin opcode len hlen p)
unfolding read_checked
read_checked-Readable ws m fin opcode len hlen p w h two ten =
    let room : (ws.max_message + 2 ^ 64 - length ws.fragments) % 2 ^ 64
        ≡ ws.max_message - length ws.fragments =
      omega arith in
    elim (Bool-cases (leb 8 opcode && (not fin || ltb 125 len))) [
      | inl a ↦ rw a tt
      | inr a ↦
          elim (Bool-cases (not (leb 8 opcode) && ltb (ws.max_message - length ws.fragments) len)) [
            | inl b ↦ rw (a, room, b) tt
            | inr b ↦
                let (small, l) =
                  limits fin opcode len ws.max_message (length ws.fragments) a b w h in
                rw (read_checked, a, room, b)
                  (read_payload-Readable ws m fin opcode (if m then hlen + 4 else hlen) len p
                    (ground arith) (ground arith) l)
          ]
    ]

extended_length-bounds :
    (len n hlen : ℕ) (p : List ℕ)
    → extended_length len p ≡ some (n, hlen)
    → (2 ≤ hlen) × (hlen ≤ 10)
unfolding extended_length
extended_length-bounds len n hlen p e = elim (Bool-cases (len == 126)) [
  | inl s ↦ ground arith
  | inr s ↦ elim (Bool-cases (len == 127)) [ inl t ↦ ground arith | inr t ↦ ground arith ]
]

pub read_frame-Readable :
    (ws : WebSocket) (p : List ℕ)
    → IsWithin ws
    → ws.max_message + 14 < 2 ^ 64
    → Readable ws p (read_frame ws p)
unfolding read_frame
read_frame-Readable ws p w h = elim (Bool-cases (ltb (length p) 2)) [
  | inl a ↦ rw a tt
  | inr a ↦ elim (Bool-cases (at p 0 / 16 % 8 == 0)) [
    | inr b ↦ rw (a, b) tt
    | inl b ↦ elim (Bool-cases (same_bool (leb 128 (at p 1 % 256)) ws.server)) [
      | inr c ↦ rw (a, b, c) tt
      | inl c ↦ elim (Option-cases (extended_length (at p 1 % 128) p)) [
        | inl d ↦ rw (read_frame, a, b, c, d) tt
        | inr ((len, hlen), d) ↦
            let (two, ten) = extended_length-bounds (at p 1 % 128) len hlen p d in
            rw (read_frame, a, b, c, d)
              (read_checked-Readable ws (leb 128 (at p 1 % 256)) (leb 128 (at p 0 % 256))
                (at p 0 % 16) len hlen p w h two ten)
      ]
    ]
  ]
]

-- What `next` returns: the same limit, what there is of a message within it, and a message within it.
abbrev pub Finished : ℕ → Found → Type 0
Finished most found =
    (length found.state.fragments ≤ most)
    × (found.state.max_message ≡ most)
    × (found.event ≡ Event.message → length found.payload ≤ most)

abbrev pub Kept : WebSocket → Round → Type 0
Kept ws (again ws') =
    IsWithin ws'
    × (ws'.max_message ≡ ws.max_message)
    × (ws'.in_bytes ≡ ws.in_bytes)
    × (ws'.pos ≡ ws.pos)
Kept ws (return found) = Finished ws.max_message found

pub fail-Finished :
    (mask : List ℕ) (code : ℕ) (why payload reply : List ℕ) (ws : WebSocket)
    → IsWithin ws
    → Finished ws.max_message (fail mask code why payload reply ws)
unfolding fail
fail-Finished mask code why payload reply ws w = (w, refl, λ e. ground arith)

whole_message-Finished :
    (mask payload reply : List ℕ) (opcode : ℕ) (ws : WebSocket)
    → IsWithin ws
    → length payload ≤ ws.max_message
    → Finished ws.max_message (whole_message mask opcode payload reply ws)
unfolding whole_message
whole_message-Finished mask payload reply opcode ws w l =
    elim (Bool-cases ((opcode == op_text) && not (is_utf8 payload))) [
      | inl a ↦ rw a (w, refl, λ e. ground arith)
      | inr a ↦ rw a (w, refl, λ e. l)
    ]

take_close-Finished :
    (mask content payload reply : List ℕ) (ws : WebSocket)
    → IsWithin ws
    → Finished ws.max_message (take_close mask content payload reply ws)
unfolding take_close fail
take_close-Finished mask content payload reply ws w = elim (Bool-cases (length content == 1)) [
  | inl a ↦ rw a (w, refl, λ e. ground arith)
  | inr a ↦
      elim (Bool-cases
        (leb 2 (length content) && not (valid_close_code (at content 0 * 256 + at content 1)))) [
          | inl b ↦ rw (a, b) (w, refl, λ e. ground arith)
          | inr b ↦ elim (Bool-cases (leb 2 (length content) && not (is_utf8 (drop 2 content)))) [
            | inl c ↦ rw (a, b, c) (w, refl, λ e. ground arith)
            | inr c ↦ rw (a, b, c) (w, refl, λ e. ground arith)
          ]
        ]
]

take_message-Kept :
    (there : Option ℕ) (mask : List ℕ) (fin : Bool) (opcode : ℕ) (content payload reply : List ℕ)
    (ws : WebSocket)
    → IsWithin ws
    → length content ≤ ws.max_message
    → Kept ws (take_message there mask fin opcode content payload reply ws)
unfolding take_message
take_message-Kept (some _) mask fin opcode content payload reply ws w l =
    fail-Finished mask 1002 (codes "a new message inside a fragmented one") payload reply ws w
take_message-Kept none mask true opcode content payload reply ws w l =
    whole_message-Finished mask content reply opcode ws w l
take_message-Kept none mask false opcode content payload reply ws w l = (l, refl, refl, refl)

take_continuation-Kept :
    (there : Option ℕ) (mask : List ℕ) (fin : Bool) (content payload reply : List ℕ)
    (ws : WebSocket)
    → IsWithin ws
    → length content + length ws.fragments ≤ ws.max_message
    → Kept ws (take_continuation there mask fin content payload reply ws)
unfolding take_continuation
take_continuation-Kept none mask fin content payload reply ws w l =
    fail-Finished mask 1002 (codes "a continuation frame without a message") payload reply ws w
take_continuation-Kept (some opcode) mask true content payload reply ws w l =
    whole_message-Finished mask (ws.fragments ++ content) reply opcode
      (record ws { fragmented = none; fragments = [] }) (omega arith)
      (omega (arith, length-append ws.fragments content))
take_continuation-Kept (some opcode) mask false content payload reply ws w l =
    (omega (arith, length-append ws.fragments content), refl, refl, refl)

pub take_frame-Kept :
    (mask : List ℕ) (fin : Bool) (opcode : ℕ) (content payload : List ℕ) (ws : WebSocket)
    → IsWithin ws
    → (opcode < 8 → length content + length ws.fragments ≤ ws.max_message)
    → Kept ws (take_frame mask fin opcode content payload [] ws)
unfolding take_frame
take_frame-Kept mask fin opcode content payload ws w l =
    elim (Bool-cases ((opcode == op_text) || (opcode == op_binary))) [
      | inl a ↦
          rw (take_frame, a)
            (take_message-Kept ws.fragmented mask fin opcode content payload [] ws w
              (omega (arith, l (ground arith))))
      | inr a ↦ elim (Bool-cases (opcode == op_continuation)) [
        | inl b ↦
            rw (take_frame, a, b)
              (take_continuation-Kept ws.fragmented mask fin content payload [] ws w
                (l (ground arith)))
        | inr b ↦ elim (Bool-cases (opcode == op_ping)) [
          | inl c ↦ rw (take_frame, a, b, c) (w, refl, λ e. ground arith)
          | inr c ↦ elim (Bool-cases (opcode == op_pong)) [
            | inl d ↦ rw (take_frame, a, b, c, d) (w, refl, refl, refl)
            | inr d ↦ elim (Bool-cases (opcode == op_close)) [
              | inl e ↦
                  rw (take_frame, a, b, c, d, e) (take_close-Finished mask content payload [] ws w)
              | inr e ↦
                  rw (take_frame, a, b, c, d, e)
                    (fail-Finished mask 1002
                      (codes "a frame of unknown opcode " ++ to_string opcode) payload [] ws w)
            ]
          ]
        ]
      ]
    ]
