-- ===== src/WebSocket/Agreed.antt =====
-- A client's `request` and a server's answer of src/websocket.cpp open both ends.
use mathlib.Core.List.{append_assoc}
use sipp.Base.{
  ℕ, ◌-◌, ◌<◌, ◌≡◌, refl, ap, ◌∙◌, true, false, List, [], ◌∷◌, ◌++◌, ltb, length, drop, arith,
  length-append, drop-append,
}
use sipp.Base.Bytes.{bytes_eq, codes, starts_icase}
use sipp.WebSocket.Http.{has_token, header, same_word, add_value}
use sipp.WebSocket.State.{WebSocket}
use sipp.WebSocket.Handshake.{
  accept_key, opened_with, switching, server_handshake, client_handshake,
}
use sipp.WebSocket.Lines.{
  HasNoCr, AreLines, HasNoCr-append, lines_onto, values_in, header-lines, add_value-other,
}
use sipp.WebSocket.Opening.{IsSolid, IsSolid-HasNoCr, trim-IsSolid, bytes_eq_self}

bytes_eq_nil : (v : List ℕ) → 0 < length v → bytes_eq v [] ≡ false
bytes_eq_nil [] h = absurd (omega arith)
bytes_eq_nil (c ∷ v) h = refl

-- Lines of other names.
abbrev Others : List ℕ → List (List ℕ) → Type 0
Others name [] = Unit
Others name (l ∷ ls) = (starts_icase name l ≡ false) × Others name ls

values_in-Others :
    (name : List ℕ) (ls : List (List ℕ)) (values : List ℕ)
    → Others name ls
    → values_in name ls values ≡ values
values_in-Others name [] values h = refl
values_in-Others name (l ∷ ls) values h =
    ap (values_in name ls) (add_value-other name l values h.0) ∙ values_in-Others name ls values h.1

-- The value of a name that one line has.
header-one :
    (name first : List ℕ) (before : List (List ℕ)) (line : List ℕ) (after : List (List ℕ))
    → AreLines (first ∷ (before ++ line ∷ after))
    → Others name before
    → Others name after
    → header (lines_onto (first ∷ (before ++ line ∷ after)) []) name ≡ add_value name line []
header-one name first before line after a b c =
    header-lines name first (before ++ line ∷ after) a ∙ through before b
  where
    through :
        (before : List (List ℕ))
        → Others name before
        → values_in name (before ++ line ∷ after) [] ≡ add_value name line []
    through [] h = values_in-Others name after (add_value name line []) c
    through (l ∷ ls) h =
        ap (values_in name (ls ++ line ∷ after)) (add_value-other name l [] h.0) ∙ through ls h.1

-- The request that `request` makes for a target, the path with its slash.
module _ (host key target : List ℕ) where
  abbrev pub request_first : List ℕ
  request_first = codes "GET " ++ (target ++ codes " HTTP/1.1")

  abbrev pub host_line : List ℕ
  host_line = codes "Host: " ++ host

  abbrev pub key_line : List ℕ
  key_line = codes "Sec-WebSocket-Key: " ++ key

  abbrev pub request_lines : List (List ℕ)
  request_lines =
      host_line
      ∷ codes "Upgrade: websocket"
      ∷ codes "Connection: Upgrade"
      ∷ key_line
      ∷ codes "Sec-WebSocket-Version: 13"
      ∷ codes "Sec-WebSocket-Protocol: sip"
      ∷ []

  pub request_text :
      (rest : List ℕ)
      → (codes "GET "
            ++ (target
                ++ (codes " HTTP/1.1\r\nHost: "
                    ++ (host
                        ++ (codes
                              "\r\nUpgrade: websocket\r\nConnection: Upgrade\r\nSec-WebSocket-Key: "
                            ++ (key
                                ++ codes
                                    "\r\nSec-WebSocket-Version: 13\r\nSec-WebSocket-Protocol: sip\r\n\r\n"))))))
          ++ rest
        ≡ lines_onto (request_first ∷ request_lines) (13 ∷ 10 ∷ rest)
  request_text rest = simp append_assoc

  pub request-AreLines :
      HasNoCr host → IsSolid key → HasNoCr target → AreLines (request_first ∷ request_lines)
  request-AreLines h k t = (
    HasNoCr-append (codes "GET ") (target ++ codes " HTTP/1.1") (ground arith)
        (HasNoCr-append target (codes " HTTP/1.1") t (ground arith)),
    omega arith,
    (
      HasNoCr-append (codes "Host: ") host (ground arith) h,
      omega arith,
      (
        ground arith,
        omega arith,
        (
          ground arith,
          omega arith,
          (
            HasNoCr-append (codes "Sec-WebSocket-Key: ") key (ground arith) (IsSolid-HasNoCr key k),
            omega arith,
            (ground arith, omega arith, (ground arith, omega arith, tt)),
          ),
        ),
      ),
    ),
  )

  module _ (h : HasNoCr host) (k : IsSolid key) (t : HasNoCr target) where
    abbrev pub request_head : List ℕ
    request_head = lines_onto (request_first ∷ request_lines) []

    request-upgrade : header request_head (codes "Upgrade") ≡ codes "websocket"
    unfolding add_value
    request-upgrade =
        header-one (codes "Upgrade") request_first (host_line ∷ []) (codes "Upgrade: websocket")
          (codes "Connection: Upgrade"
            ∷ key_line
            ∷ codes "Sec-WebSocket-Version: 13"
            ∷ codes "Sec-WebSocket-Protocol: sip"
            ∷ [])
          (request-AreLines h k t) (refl, tt) (refl, (refl, (refl, (refl, tt))))

    request-connection : header request_head (codes "Connection") ≡ codes "Upgrade"
    unfolding add_value
    request-connection =
        header-one (codes "Connection") request_first (host_line ∷ codes "Upgrade: websocket" ∷ [])
          (codes "Connection: Upgrade")
          (key_line ∷ codes "Sec-WebSocket-Version: 13" ∷ codes "Sec-WebSocket-Protocol: sip" ∷ [])
          (request-AreLines h k t) (refl, (refl, tt)) (refl, (refl, (refl, tt)))

    request-version : header request_head (codes "Sec-WebSocket-Version") ≡ codes "13"
    unfolding add_value
    request-version =
        header-one (codes "Sec-WebSocket-Version") request_first
          (host_line ∷ codes "Upgrade: websocket" ∷ codes "Connection: Upgrade" ∷ key_line ∷ [])
          (codes "Sec-WebSocket-Version: 13") (codes "Sec-WebSocket-Protocol: sip" ∷ [])
          (request-AreLines h k t) (refl, (refl, (refl, (refl, tt)))) (refl, tt)

    request-protocol : header request_head (codes "Sec-WebSocket-Protocol") ≡ codes "sip"
    unfolding add_value
    request-protocol =
        header-one (codes "Sec-WebSocket-Protocol") request_first
          (host_line
            ∷ codes "Upgrade: websocket"
            ∷ codes "Connection: Upgrade"
            ∷ key_line
            ∷ codes "Sec-WebSocket-Version: 13"
            ∷ [])
          (codes "Sec-WebSocket-Protocol: sip") [] (request-AreLines h k t)
          (refl, (refl, (refl, (refl, (refl, tt))))) tt

    add_value-key : add_value (codes "Sec-WebSocket-Key") key_line [] ≡ key
    unfolding add_value
    add_value-key =
        let longer : ltb 17 (length key_line) ≡ true = ground arith in
        rw longer (trim-IsSolid key k)

    request-key : header request_head (codes "Sec-WebSocket-Key") ≡ key
    request-key =
        header-one (codes "Sec-WebSocket-Key") request_first
          (host_line ∷ codes "Upgrade: websocket" ∷ codes "Connection: Upgrade" ∷ []) key_line
          (codes "Sec-WebSocket-Version: 13" ∷ codes "Sec-WebSocket-Protocol: sip" ∷ [])
          (request-AreLines h k t) (refl, (refl, (refl, tt))) (refl, (refl, tt))
        ∙ add_value-key

    -- The request line.
    request_first-ends :
        bytes_eq (drop (length request_first - 9) request_first) (codes " HTTP/1.1") ≡ true
    request_first-ends =
        let whole : request_first ≡ (codes "GET " ++ target) ++ codes " HTTP/1.1" =
          simp append_assoc in
        let size : length request_first - 9 ≡ length (codes "GET " ++ target) =
          omega (arith, length-append target (codes " HTTP/1.1")) in
        ap (λ n. bytes_eq (drop n request_first) (codes " HTTP/1.1")) size
        ∙ ap (λ l. bytes_eq (drop (length (codes "GET " ++ target)) l) (codes " HTTP/1.1")) whole
        ∙ ap (λ l. bytes_eq l (codes " HTTP/1.1"))
            (drop-append (codes "GET " ++ target) (codes " HTTP/1.1"))

    pub server_handshake-request :
        (sha1 : List ℕ → List ℕ) (mask payload : List ℕ) (ws : WebSocket)
        → 0 < length key
        → server_handshake sha1 mask request_first request_head payload [] ws
          ≡ opened_with sha1 payload (switching sha1 key) ws
    unfolding server_handshake has_token
    server_handshake-request sha1 mask payload ws some_key =
        let long : ltb (length request_first) 13 ≡ false =
          ground (arith, length-append target (codes " HTTP/1.1")) in
        let keyed : bytes_eq key [] ≡ false = bytes_eq_nil key some_key in
        rw
          (
            server_handshake, long, request_first-ends, request-upgrade, request-connection,
            request-version, request-key, keyed, request-protocol,
          )
          refl

-- The answer of a server.
module _ (accept : List ℕ) (k : IsSolid accept) where
  abbrev pub reply_first : List ℕ
  reply_first = codes "HTTP/1.1 101 Switching Protocols"

  abbrev pub accept_line : List ℕ
  accept_line = codes "Sec-WebSocket-Accept: " ++ accept

  abbrev pub reply_lines : List (List ℕ)
  reply_lines =
      codes "Upgrade: websocket"
      ∷ codes "Connection: Upgrade"
      ∷ accept_line
      ∷ codes "Sec-WebSocket-Protocol: sip"
      ∷ []

  abbrev pub reply_head : List ℕ
  reply_head = lines_onto (reply_first ∷ reply_lines) []

  pub reply-AreLines : AreLines (reply_first ∷ reply_lines)
  reply-AreLines = (
    ground arith,
    omega arith,
    (
      ground arith,
      omega arith,
      (
        ground arith,
        omega arith,
        (
          HasNoCr-append (codes "Sec-WebSocket-Accept: ") accept (ground arith)
              (IsSolid-HasNoCr accept k),
          omega arith,
          (ground arith, omega arith, tt),
        ),
      ),
    ),
  )

  reply-upgrade : header reply_head (codes "Upgrade") ≡ codes "websocket"
  unfolding add_value
  reply-upgrade =
      header-one (codes "Upgrade") reply_first [] (codes "Upgrade: websocket")
        (codes "Connection: Upgrade" ∷ accept_line ∷ codes "Sec-WebSocket-Protocol: sip" ∷ [])
        reply-AreLines tt (refl, (refl, (refl, tt)))

  reply-connection : header reply_head (codes "Connection") ≡ codes "Upgrade"
  unfolding add_value
  reply-connection =
      header-one (codes "Connection") reply_first (codes "Upgrade: websocket" ∷ [])
        (codes "Connection: Upgrade") (accept_line ∷ codes "Sec-WebSocket-Protocol: sip" ∷ [])
        reply-AreLines (refl, tt) (refl, (refl, tt))

  reply-protocol : header reply_head (codes "Sec-WebSocket-Protocol") ≡ codes "sip"
  unfolding add_value
  reply-protocol =
      header-one (codes "Sec-WebSocket-Protocol") reply_first
        (codes "Upgrade: websocket" ∷ codes "Connection: Upgrade" ∷ accept_line ∷ [])
        (codes "Sec-WebSocket-Protocol: sip") [] reply-AreLines (refl, (refl, (refl, tt))) tt

  add_value-accept : add_value (codes "Sec-WebSocket-Accept") accept_line [] ≡ accept
  unfolding add_value
  add_value-accept =
      let longer : ltb 20 (length accept_line) ≡ true = ground arith in
      rw longer (trim-IsSolid accept k)

  reply-accept : header reply_head (codes "Sec-WebSocket-Accept") ≡ accept
  reply-accept =
      header-one (codes "Sec-WebSocket-Accept") reply_first
        (codes "Upgrade: websocket" ∷ codes "Connection: Upgrade" ∷ []) accept_line
        (codes "Sec-WebSocket-Protocol: sip" ∷ []) reply-AreLines (refl, (refl, tt)) (refl, tt)
      ∙ add_value-accept

  pub client_handshake-reply :
      (sha1 : List ℕ → List ℕ) (mask payload : List ℕ) (ws : WebSocket)
      → accept_key sha1 ws.key ≡ accept
      → client_handshake sha1 mask reply_first reply_head payload [] ws
        ≡ opened_with sha1 payload [] ws
  unfolding client_handshake has_token same_word
  client_handshake-reply sha1 mask payload ws e =
      let agree : bytes_eq (header reply_head (codes "Sec-WebSocket-Accept"))
            (accept_key sha1 ws.key)
          ≡ true =
        ap (λ v. bytes_eq v (accept_key sha1 ws.key)) reply-accept
        ∙ ap (bytes_eq accept) e
        ∙ bytes_eq_self accept in
      rw (client_handshake, reply-upgrade, reply-connection, agree, reply-protocol) refl
