-- ===== src/WebSocket/Opening.antt =====
-- The two ends of a handshake of src/websocket.cpp open each other.
use mathlib.Core.List.{append_assoc}
use sipp.Base.{
  ℕ, zero, suc, ◌+◌, ◌*◌, ◌/◌, ◌%◌, ◌≡◌, refl, sym, ap, ◌∙◌, true, false, List, [], ◌∷◌, ◌++◌, some,
  ◌==◌, if◌then◌else◌, length, take, drop, arith, get_or, length-append, drop-append, take-append,
  drop-drop,
}
use native.Mathlib.Nat.{add_assoc}
use sipp.Base.Bytes.{bytes_eq_iff, bytes_eq, is_blank}
use sipp.WebSocket.Base64.{digits, base64_digit, base64}
use sipp.WebSocket.Http.{crlf, position, trim, without_end}
use sipp.WebSocket.State.{WebSocket}
use sipp.WebSocket.Handshake.{server_handshake, client_handshake, handshake}
use sipp.WebSocket.Lines.{
  HasNoCr, AreLines, lines_onto, lines_onto-append, position-lines, line_of-line, trim-blank,
}

-- No blank and no CR.
abbrev pub IsSolid : List ℕ → Type 0
IsSolid [] = Unit
IsSolid (c ∷ v) = (is_blank c ≡ false) × ((13 == c) ≡ false) × IsSolid v

get_or-IsSolid : (xs : List ℕ) (i : ℕ) → IsSolid xs → IsSolid (get_or xs i 0 ∷ [])
get_or-IsSolid [] i h = (refl, refl, tt)
get_or-IsSolid (x ∷ xs) zero h = (h.0, h.1, tt)
get_or-IsSolid (x ∷ xs) (suc i) h = get_or-IsSolid xs i h.2

digits-IsSolid : IsSolid digits
digits-IsSolid = ground arith

base64_digit-IsSolid : (n d : ℕ) → IsSolid (base64_digit n d ∷ [])
base64_digit-IsSolid n d = get_or-IsSolid digits (n / d % 64) digits-IsSolid

pub base64-IsSolid : (s : List ℕ) → IsSolid (base64 s)
unfolding base64
base64-IsSolid [] = tt
base64-IsSolid (a ∷ []) =
    let n = a * 65536 in
    let (p, q, _) = base64_digit-IsSolid n 262144 in
    let (r, t, _) = base64_digit-IsSolid n 4096 in (p, q, (r, t, (refl, refl, (refl, refl, tt))))
base64-IsSolid (a ∷ b ∷ []) =
    let n = a * 65536 + b * 256 in
    let (p, q, _) = base64_digit-IsSolid n 262144 in
    let (r, t, _) = base64_digit-IsSolid n 4096 in
    let (u, v, _) = base64_digit-IsSolid n 64 in (p, q, (r, t, (u, v, (refl, refl, tt))))
base64-IsSolid (a ∷ b ∷ c ∷ s) =
    let n = a * 65536 + b * 256 + c in
    let (p, q, _) = base64_digit-IsSolid n 262144 in
    let (r, t, _) = base64_digit-IsSolid n 4096 in
    let (u, v, _) = base64_digit-IsSolid n 64 in
    let (w, x, _) = base64_digit-IsSolid n 1 in (p, q, (r, t, (u, v, (w, x, base64-IsSolid s))))

pub IsSolid-HasNoCr : (v : List ℕ) → IsSolid v → HasNoCr v
IsSolid-HasNoCr [] h = tt
IsSolid-HasNoCr (c ∷ v) h = (h.1, IsSolid-HasNoCr v h.2)

without_end-IsSolid : (v : List ℕ) → IsSolid v → without_end v ≡ v
unfolding without_end
without_end-IsSolid [] h = refl
without_end-IsSolid (c ∷ []) h = rw h.0 refl
without_end-IsSolid (c ∷ d ∷ v) h =
    ap
      (λ r. elim r as (λ _. List ℕ) [
        | [] ↦ (if is_blank c then [] else c ∷ [])
        | e ∷ w ↦ c ∷ e ∷ w
      ])
      (without_end-IsSolid (d ∷ v) h.2)

pub trim-IsSolid : (v : List ℕ) → IsSolid v → trim (b' ' ∷ v) ≡ v
unfolding without_end
trim-IsSolid [] h = trim-blank [] refl refl
trim-IsSolid (c ∷ v) h = trim-blank (c ∷ v) (without_end-IsSolid (c ∷ v) h) h.0

pub bytes_eq_self : (v : List ℕ) → bytes_eq v v ≡ true
bytes_eq_self v = (bytes_eq_iff v v).1 refl

module _ (sha1 : List ℕ → List ℕ) where
  -- A handshake on a head that was written in lines.
  pub handshake-lines :
      (mask payload : List ℕ) (ws : WebSocket) (l : List ℕ) (ls : List (List ℕ)) (rest : List ℕ)
      → AreLines (l ∷ ls)
      → drop ws.pos ws.in_bytes ≡ lines_onto (l ∷ ls) (13 ∷ 10 ∷ rest)
      → (pos : ℕ) × (handshake sha1 mask payload [] ws ≡ (
          if ws.server
          then server_handshake sha1 mask l
              (lines_onto (l ∷ ls) [])
              payload
              []
              (record ws { pos = pos })
          else client_handshake sha1 mask l
              (lines_onto (l ∷ ls) [])
              payload
              []
              (record ws { pos = pos })))
        × (drop pos ws.in_bytes ≡ rest)
  unfolding handshake
  handshake-lines mask payload ws l ls rest a d =
      let text = lines_onto (l ∷ ls) (13 ∷ 10 ∷ rest) in
      let head = lines_onto (l ∷ ls) [] in
      let split : text ≡ head ++ 13 ∷ 10 ∷ rest = lines_onto-append (l ∷ ls) (13 ∷ 10 ∷ rest) in
      let (k, e, n) = position-lines l ls rest a in
      let found : position (crlf ++ crlf) (drop ws.pos ws.in_bytes) ≡ some k =
        ap (position (crlf ++ crlf)) d ∙ e in
      let to_head : take (k + 2) (drop ws.pos ws.in_bytes) ≡ head =
        ap (λ s. take (k + 2) s) (d ∙ split)
        ∙ ap (λ m. take m (head ++ 13 ∷ 10 ∷ rest)) n
        ∙ take-append head (13 ∷ 10 ∷ rest) in
      let past : k + 4 ≡ length (head ++ 13 ∷ 10 ∷ []) =
        omega (arith, length-append head (13 ∷ 10 ∷ [])) in
      let behind : drop (k + 4) text ≡ rest =
        ap (λ s. drop (k + 4) s) split
        ∙ ap (λ s. drop (k + 4) s) (sym (append_assoc head (13 ∷ 10 ∷ []) rest))
        ∙ ap (λ m. drop m ((head ++ 13 ∷ 10 ∷ []) ++ rest)) past
        ∙ drop-append (head ++ 13 ∷ 10 ∷ []) rest in
      (
        ws.pos + k + 4,
        rw (handshake, found, to_head, line_of-line l (lines_onto ls []) a.0) refl,
        ap (λ m. drop m ws.in_bytes) (add_assoc ws.pos k 4)
            ∙ sym (drop-drop ws.pos (k + 4) ws.in_bytes)
            ∙ ap (drop (k + 4)) d
            ∙ behind,
      )
