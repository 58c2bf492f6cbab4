-- ===== src/WebSocket/Frame.antt =====
-- `WebSocket::encode` of src/websocket.cpp: a frame of RFC 6455.
use Prim.Native.Nat.{bit_xor}
use sipp.Base.{
  ℕ, ◌+◌, ◌/◌, ◌%◌, ◌^◌, Bool, List, [], ◌∷◌, ◌++◌, Option, none, some, ltb, if◌then◌else◌, length,
  get_or,
}

-- The loop that masks or unmasks a payload, from index `i` on.
unfoldable pub masked_from : List ℕ → ℕ → List ℕ → List ℕ
masked_from mask i [] = []
masked_from mask i (x ∷ xs) = bit_xor x (get_or mask (i % 4) 0) ∷ masked_from mask (i + 1) xs

-- The length, in one, three or nine bytes, with `masked` on the first
unfoldable pub length_bytes : ℕ → ℕ → List ℕ
length_bytes masked len =
    if ltb len 126
    then (masked + len) ∷ []
    else if ltb len 65536
    then (masked + 126) ∷ (len / 256 % 256) ∷ (len % 256) ∷ []
    else (masked + 127)
      ∷ (len / 2 ^ 56 % 256)
      ∷ (len / 2 ^ 48 % 256)
      ∷ (len / 2 ^ 40 % 256)
      ∷ (len / 2 ^ 32 % 256)
      ∷ (len / 2 ^ 24 % 256)
      ∷ (len / 2 ^ 16 % 256)
      ∷ (len / 2 ^ 8 % 256)
      ∷ (len % 256)
      ∷ []

-- `encode`: the opcodes have four bits, so that each `|` is a sum
unfoldable pub encode : ℕ → List ℕ → Option (List ℕ) → Bool → List ℕ
unfolding length_bytes masked_from
encode opcode payload none fin =
    ((if fin then 128 else 0) + opcode) ∷ (length_bytes 0 (length payload) ++ payload)
encode opcode payload (some mask) fin =
    ((if fin then 128 else 0) + opcode)
    ∷ (length_bytes 128 (length payload) ++ (mask ++ masked_from mask 0 payload))
