-- ===== src/WebSocket/Parsed.antt =====
-- What `next` of src/websocket.cpp reads in the bytes that `encode` has made.
use mathlib.Core.List.{append_assoc}
use sipp.Base.{
  ℕ, suc, ◌+◌, ◌-◌, ◌*◌, ◌/◌, ◌%◌, ◌^◌, ◌≤◌, ◌<◌, ◌≡◌, refl, sym, ap, subst, ◌∙◌, Bool, true, false,
  List, ◌∷◌, ◌++◌, Option, none, some, ltb, leb, ◌==◌, if◌then◌else◌, length, take, drop, arith,
  Bool-cases, ◌⊎◌, inl, inr, length-append, drop-append, take-append, drop-drop,
}
use sipp.Base.Bytes.{at}
use sipp.WebSocket.Frame.{encode, length_bytes, masked_from}
use sipp.WebSocket.State.{WebSocket}
use sipp.WebSocket.Next.{whole, extended_length, read_payload, read_checked, read_frame, same_bool}
use sipp.WebSocket.Xor.{masked_from_twice, length-masked_from}

-- The bit that says whether a frame is masked.
abbrev pub mask_bit : Bool → ℕ
mask_bit m = if m then 128 else 0

eight_bytes :
    (n : ℕ)
    → n < 2 ^ 64
    → ((((((n / 2 ^ 56 % 256 * 256 + n / 2 ^ 48 % 256) * 256 + n / 2 ^ 40 % 256) * 256
                        + n / 2 ^ 32 % 256)
                      * 256
                    + n / 2 ^ 24 % 256)
                  * 256
                + n / 2 ^ 16 % 256)
              * 256
            + n / 2 ^ 8 % 256)
          * 256
        + n % 256
      ≡ n
eight_bytes n h =
    let a : n / 2 ^ 56 % 256 ≡ n / 2 ^ 56 = omega arith in
    let b : n / 2 ^ 56 * 256 + n / 2 ^ 48 % 256 ≡ n / 2 ^ 48 = omega arith in
    let c : n / 2 ^ 48 * 256 + n / 2 ^ 40 % 256 ≡ n / 2 ^ 40 = omega arith in
    let d : n / 2 ^ 40 * 256 + n / 2 ^ 32 % 256 ≡ n / 2 ^ 32 = omega arith in
    let e : n / 2 ^ 32 * 256 + n / 2 ^ 24 % 256 ≡ n / 2 ^ 24 = omega arith in
    let f : n / 2 ^ 24 * 256 + n / 2 ^ 16 % 256 ≡ n / 2 ^ 16 = omega arith in
    let g : n / 2 ^ 16 * 256 + n / 2 ^ 8 % 256 ≡ n / 2 ^ 8 = omega arith in
    rw (a, b, c, d, e, f, g) (omega arith)

pub extended_length-length_bytes :
    (m : Bool) (b len : ℕ) (q : List ℕ)
    → len < 2 ^ 64
    → (extended_length
          (at (b ∷ (length_bytes (mask_bit m) len ++ q)) 1 % 128)
          (b ∷ (length_bytes (mask_bit m) len ++ q))
        ≡ some (len, suc (length (length_bytes (mask_bit m) len))))
      × (leb 128 (at (b ∷ (length_bytes (mask_bit m) len ++ q)) 1 % 256) ≡ m)
unfolding extended_length length_bytes
extended_length-length_bytes true b len q h = elim (Bool-cases (ltb len 126)) [
  | inl x ↦ rw x (ground arith, ground arith)
  | inr x ↦ elim (Bool-cases (ltb len 65536)) [
    | inl y ↦ rw (x, y) (ground arith, refl)
    | inr y ↦ rw (x, y) (ground (arith, eight_bytes len h), refl)
  ]
]
extended_length-length_bytes false b len q h = elim (Bool-cases (ltb len 126)) [
  | inl x ↦ rw x (ground arith, ground arith)
  | inr x ↦ elim (Bool-cases (ltb len 65536)) [
    | inl y ↦ rw (x, y) (ground arith, refl)
    | inr y ↦ rw (x, y) (ground (arith, eight_bytes len h), refl)
  ]
]

-- The size of the header, with the mask.
abbrev header_size : Bool → ℕ → ℕ
header_size m len = suc (length (length_bytes (mask_bit m) len)) + (if m then 4 else 0)

pub length-length_bytes_le :
    (m : ℕ) (len : ℕ) → (1 ≤ length (length_bytes m len)) × (length (length_bytes m len) ≤ 9)
unfolding length_bytes
length-length_bytes_le m len = ground arith

-- The payload of a frame whose bytes are all in.
read_payload-none :
    (fin : Bool) (opcode : ℕ) (b : ℕ) (lb content rest : List ℕ)
    → length lb + length content + 1 < 2 ^ 64
    → read_payload false fin opcode
        (suc (length lb))
        (length content)
        (b ∷ (lb ++ (content ++ rest)))
      ≡ whole fin opcode content (suc (length lb) + length content)
unfolding read_payload
read_payload-none fin opcode b lb content rest h =
    let fits : ltb (length (b ∷ (lb ++ (content ++ rest))))
          ((suc (length lb) + length content) % 2 ^ 64)
        ≡ false =
      ground (arith, length-append lb (content ++ rest), length-append content rest) in
    rw (fits, drop-append lb (content ++ rest), take-append content rest) refl

read_payload-some :
    (fin : Bool) (opcode : ℕ) (b : ℕ) (lb mask content rest : List ℕ)
    → length mask ≡ 4
    → length lb + length content + 5 < 2 ^ 64
    → read_payload true fin opcode
        (suc (length lb) + 4)
        (length content)
        (b ∷ (lb ++ (mask ++ (masked_from mask 0 content ++ rest))))
      ≡ whole fin opcode content (suc (length lb) + 4 + length content)
unfolding read_payload
read_payload-some fin opcode b lb mask content rest m h =
    let hidden = masked_from mask 0 content in
    let p = b ∷ (lb ++ (mask ++ (hidden ++ rest))) in
    let fits : ltb (length p) ((suc (length lb) + 4 + length content) % 2 ^ 64) ≡ false = ground (
      arith,
      length-append lb (mask ++ (hidden ++ rest)),
      length-append mask (hidden ++ rest),
      length-append hidden rest,
      length-masked_from mask 0 content,
    ) in
    let back : suc (length lb) + 4 - 4 ≡ suc (length lb) = omega arith in
    let to_mask : drop (suc (length lb) + 4 - 4) p ≡ mask ++ (hidden ++ rest) =
      ap (λ k. drop k p) back ∙ drop-append lb (mask ++ (hidden ++ rest)) in
    let the_mask : take 4 (mask ++ (hidden ++ rest)) ≡ mask =
      subst (λ k. take k (mask ++ (hidden ++ rest)) ≡ mask) m (take-append mask (hidden ++ rest)) in
    let to_content : drop (suc (length lb) + 4) p ≡ hidden ++ rest =
      sym (drop-drop (suc (length lb)) 4 p)
      ∙ ap (drop 4) (drop-append lb (mask ++ (hidden ++ rest)))
      ∙ subst (λ k. drop k (mask ++ (hidden ++ rest)) ≡ hidden ++ rest) m
          (drop-append mask (hidden ++ rest)) in
    let the_content : take (length content) (hidden ++ rest) ≡ hidden =
      subst (λ k. take k (hidden ++ rest) ≡ hidden) (length-masked_from mask 0 content)
        (take-append hidden rest) in
    rw (fits, to_mask, the_mask, to_content, the_content, masked_from_twice mask 0 content) refl

-- A control frame is whole and short, and a message within the limit, with what there is of it.
abbrev pub Fits : WebSocket → Bool → ℕ → ℕ → Type 0
Fits ws fin opcode len =
    ((8 ≤ opcode) × (fin ≡ true) × (len ≤ 125))
    ⊎ ((opcode < 8) × (len + length ws.fragments ≤ ws.max_message))

-- A client masks its frames and a server does not: by the end that reads.
abbrev pub Masked : Bool → Option (List ℕ) → Type 0
Masked true none = ⊥
Masked true (some mask) = length mask ≡ 4
Masked false none = Unit
Masked false (some mask) = ⊥

pub read_checked-Fits :
    (ws : WebSocket) (m fin : Bool) (opcode len hlen : ℕ) (p : List ℕ)
    → Fits ws fin opcode len
    → ws.max_message < 2 ^ 64
    → read_checked ws m fin opcode len hlen p
      ≡ read_payload m fin opcode (if m then hlen + 4 else hlen) len p
unfolding read_checked
read_checked-Fits ws m fin opcode len hlen p (inl (c, f, l)) h =
    let control : leb 8 opcode ≡ true = ground arith in
    let short : ltb 125 len ≡ false = ground arith in rw (read_checked, control, f, short) refl
read_checked-Fits ws m fin opcode len hlen p (inr (c, l)) h =
    let control : leb 8 opcode ≡ false = ground arith in
    let room : (ws.max_message + 2 ^ 64 - length ws.fragments) % 2 ^ 64
        ≡ ws.max_message - length ws.fragments =
      omega arith in
    let short : ltb (ws.max_message - length ws.fragments) len ≡ false = ground arith in
    rw (read_checked, control, room, short) refl

pub first_byte :
    (fin : Bool) (opcode : ℕ)
    → opcode < 16
    → (((if fin then 128 else 0) + opcode) / 16 % 8 ≡ 0)
      × (leb 128 (((if fin then 128 else 0) + opcode) % 256) ≡ fin)
      × (((if fin then 128 else 0) + opcode) % 16 ≡ opcode)
first_byte true opcode h = (omega arith, ground arith, omega arith)
first_byte false opcode h = (omega arith, ground arith, omega arith)

pub same_bool_self : (b : Bool) → same_bool b b ≡ true
same_bool_self true = refl
same_bool_self false = refl

-- The tests of `next` on a header.
pub read_frame-tests :
    (ws : WebSocket) (p : List ℕ) (fin : Bool) (opcode len hlen : ℕ)
    → ltb (length p) 2 ≡ false
    → (at p 0 / 16 % 8 == 0) ≡ true
    → leb 128 (at p 1 % 256) ≡ ws.server
    → extended_length (at p 1 % 128) p ≡ some (len, hlen)
    → leb 128 (at p 0 % 256) ≡ fin
    → at p 0 % 16 ≡ opcode
    → read_frame ws p ≡ read_checked ws ws.server fin opcode len hlen p
unfolding read_frame
read_frame-tests ws p fin opcode len hlen two reserved masked ext fin_bit low =
    rw (read_frame, two, reserved, masked, same_bool_self ws.server, ext, fin_bit, low)
      (ap (λ s. read_checked ws s fin opcode len hlen p) masked)

-- A header that was written for this end, and what comes behind it.
read_frame-header :
    (ws : WebSocket) (m fin : Bool) (opcode len : ℕ) (q : List ℕ)
    → ws.server ≡ m
    → opcode < 16
    → len < 2 ^ 64
    → Fits ws fin opcode len
    → ws.max_message < 2 ^ 64
    → read_frame ws (((if fin then 128 else 0) + opcode) ∷ (length_bytes (mask_bit m) len ++ q))
      ≡ read_payload m fin opcode
          (if m
            then suc (length (length_bytes (mask_bit m) len)) + 4
            else suc (length (length_bytes (mask_bit m) len)))
          len
          (((if fin then 128 else 0) + opcode) ∷ (length_bytes (mask_bit m) len ++ q))
read_frame-header ws m fin opcode len q e o l f h =
    let b = (if fin then 128 else 0) + opcode in
    let lb = length_bytes (mask_bit m) len in
    let p = b ∷ (lb ++ q) in
    let (zero_bits, fin_bit, low) = first_byte fin opcode o in
    let (ext, mask) = extended_length-length_bytes m b len q l in
    let two : ltb (length p) 2 ≡ false =
      ground (arith, length-append lb q, length-length_bytes_le (mask_bit m) len) in
    let reserved : (b / 16 % 8 == 0) ≡ true = ground arith in
    read_frame-tests ws p fin opcode len (suc (length lb)) two reserved (mask ∙ sym e) ext fin_bit
      low
    ∙ ap (λ s. read_checked ws s fin opcode len (suc (length lb)) p) e
    ∙ read_checked-Fits ws m fin opcode len (suc (length lb)) p f h

-- What is in a frame for either end.
pub Fits-short :
    (ws : WebSocket) (fin : Bool) (opcode len : ℕ)
    → Fits ws fin opcode len
    → ws.max_message + 14 < 2 ^ 64
    → len + 14 < 2 ^ 64
Fits-short ws fin opcode len (inl f) h = omega arith
Fits-short ws fin opcode len (inr f) h = omega arith

-- A frame for this end, and what comes behind it.
pub read_frame-encode :
    (ws : WebSocket) (fin : Bool) (opcode : ℕ) (content rest : List ℕ) (mask : Option (List ℕ))
    (m : Bool)
    → ws.server ≡ m
    → Masked m mask
    → opcode < 16
    → Fits ws fin opcode (length content)
    → ws.max_message + 14 < 2 ^ 64
    → read_frame ws (encode opcode content mask fin ++ rest)
      ≡ whole fin opcode content (length (encode opcode content mask fin))
unfolding encode
read_frame-encode ws fin opcode content rest none true e m o f h = absurd m
read_frame-encode ws fin opcode content rest (some mask) false e m o f h = absurd m
read_frame-encode ws fin opcode content rest none false e m o f h =
    let b = (if fin then 128 else 0) + opcode in
    let lb = length_bytes 0 (length content) in
    let short = Fits-short ws fin opcode (length content) f h in
    let size : suc (length lb) + length content ≡ suc (length (lb ++ content)) =
      omega (arith, length-append lb content) in
    ap (λ q. read_frame ws (b ∷ q)) (append_assoc lb content rest)
    ∙ read_frame-header ws false fin opcode (length content) (content ++ rest) e o (omega arith) f
        (omega arith)
    ∙ read_payload-none fin opcode b lb content rest
        (omega (arith, length-length_bytes_le 0 (length content)))
    ∙ ap (λ n. whole fin opcode content n) size
read_frame-encode ws fin opcode content rest (some mask) true e m o f h =
    let b = (if fin then 128 else 0) + opcode in
    let lb = length_bytes 128 (length content) in
    let hidden = masked_from mask 0 content in
    let short = Fits-short ws fin opcode (length content) f h in
    let size : suc (length lb) + 4 + length content ≡ suc (length (lb ++ (mask ++ hidden))) =
      omega (
        arith,
        length-append lb (mask ++ hidden),
        length-append mask hidden,
        length-masked_from mask 0 content,
      ) in
    ap (λ q. read_frame ws (b ∷ q))
      (append_assoc lb (mask ++ hidden) rest ∙ ap (λ q. lb ++ q) (append_assoc mask hidden rest))
    ∙ read_frame-header ws true fin opcode (length content) (mask ++ (hidden ++ rest)) e o
        (omega arith) f (omega arith)
    ∙ read_payload-some fin opcode b lb mask content rest m
        (omega (arith, length-length_bytes_le 128 (length content)))
    ∙ ap (λ n. whole fin opcode content n) size
