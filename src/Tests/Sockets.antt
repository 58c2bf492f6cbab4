-- ===== src/Tests/Sockets.antt =====
-- The model of src/websocket.cpp on a client and a server.
use sipp.Base.{
  ℕ, ◌≡◌, ◌↔◌, refl, true, false, List, [], ◌∷◌, ◌++◌, some, none, arith, length, drop, Bool,
}
use sipp.Base.Bytes.{codes}
use sipp.WebSocket.Event.{Event}
use sipp.WebSocket.Utf8.{is_utf8}
use sipp.WebSocket.Utf8.Encoded.{AreScalars, all_encoded, is_utf8_iff}
use sipp.WebSocket.Frame.{encode}
use sipp.WebSocket.State.{WebSocket, Found, new_web_socket, feed, frame, request}
use sipp.WebSocket.Next.{next}
use sipp.WebSocket.Delivered.{next-frame}
use sipp.WebSocket.Bounds.{Finished}
use sipp.WebSocket.Ends.{next-Finished}
use sipp.WebSocket.BothOpen.{Opens, request-Opens}

-- U+00E9 and U+20AC.
is_utf8_iff_example :
    (is_utf8 (0xc3 ∷ 0xa9 ∷ 0xe2 ∷ 0x82 ∷ 0xac ∷ []) ≡ true)
    ↔ ((cs : List ℕ) × AreScalars cs × (0xc3 ∷ 0xa9 ∷ 0xe2 ∷ 0x82 ∷ 0xac ∷ [] ≡ all_encoded cs))
is_utf8_iff_example = is_utf8_iff (0xc3 ∷ 0xa9 ∷ 0xe2 ∷ 0x82 ∷ 0xac ∷ [])

-- No surrogate.
surrogate : is_utf8 (0xed ∷ 0xa0 ∷ 0x80 ∷ []) ≡ false
unfolding is_utf8
surrogate = refl

-- A digest, for the tests.
abbrev reversed : List ℕ → List ℕ
reversed s = length s ∷ s

abbrev open_end : Bool → WebSocket
open_end server = record (new_web_socket server 100) { is_open = true }

abbrev mask : List ℕ
mask = 0x37 ∷ 0xfa ∷ 0x21 ∷ 0x3d ∷ []

-- The frame of section 5.7 of RFC 6455.
hello :
    frame mask (codes "Hello") (open_end false)
    ≡ 0x81 ∷ 0x85 ∷ 0x37 ∷ 0xfa ∷ 0x21 ∷ 0x3d ∷ 0x7f ∷ 0x9f ∷ 0x4d ∷ 0x51 ∷ 0x58 ∷ []
unfolding frame encode is_utf8
hello = refl

next-frame_example :
    (ws : WebSocket) × (next reversed [] []
        (feed (frame mask (codes "BYE") (open_end false) ++ codes "x") (open_end true))
      ≡ some (record { event = Event.message; payload = codes "BYE"; reply = []; state = ws }))
    × (drop ws.pos ws.in_bytes ≡ codes "x")
    × (ws.fragmented ≡ none)
    × (ws.fragments ≡ [])
next-frame_example =
    next-frame reversed mask [] [] (codes "BYE") (codes "x") (open_end false) (open_end true) refl
      refl refl refl refl (omega arith) (omega arith) refl

next-Finished_example :
    (found : Found) × (next reversed mask [] (feed (0x89 ∷ 0 ∷ 0xc1 ∷ []) (open_end false))
      ≡ some found)
    × Finished 100 found
unfolding feed
next-Finished_example =
    next-Finished reversed mask [] (feed (0x89 ∷ 0 ∷ 0xc1 ∷ []) (open_end false)) (omega arith)
      (omega arith)

abbrev nonce : List ℕ
nonce = 1 ∷ 2 ∷ 3 ∷ []

request-Opens_example :
    (reply : List ℕ) × Opens reversed [] []
      (feed
        ((request nonce (codes "h:5060") (codes "sip") (new_web_socket false 100)).0 ++ codes "f")
        (new_web_socket true 100))
      reply
      (codes "f")
    × Opens reversed [] []
        (feed
          (reply ++ [])
          (request nonce (codes "h:5060") (codes "sip") (new_web_socket false 100)).1)
        []
        []
request-Opens_example =
    request-Opens reversed nonce (codes "h:5060") (codes "sip") (ground arith) (ground arith) [] []
      [] [] (codes "f") [] (new_web_socket false 100) (new_web_socket true 100) refl refl
      (record { not_open = refl; not_closed = refl; nothing_left = refl })
      (record { not_open = refl; not_closed = refl; nothing_left = refl }) (omega arith)
