-- ===== src/WebSocket/Base64.antt =====
-- `base64` of src/websocket.cpp.
use sipp.Base.{ℕ, ◌+◌, ◌*◌, ◌/◌, ◌%◌, List, [], ◌∷◌, get_or}
use sipp.Base.Bytes.{codes}

abbrev pub digits : List ℕ
digits = codes "ABCDEFGHIJKLMNOPQRSTUVWXYZabcdefghijklmnopqrstuvwxyz0123456789+/"

-- `digits[n >> k & 63]`, for `2 ^ k` as `d`
abbrev pub base64_digit : ℕ → ℕ → ℕ
base64_digit n d = get_or digits (n / d % 64) 0

-- Each round takes three bytes, the last one what is left.
unfoldable pub base64 : List ℕ → List ℕ
base64 [] = []
base64 (a ∷ []) =
    let n = a * 65536 in base64_digit n 262144 ∷ base64_digit n 4096 ∷ b'=' ∷ b'=' ∷ []
base64 (a ∷ b ∷ []) =
    let n = a * 65536 + b * 256 in
    base64_digit n 262144 ∷ base64_digit n 4096 ∷ base64_digit n 64 ∷ b'=' ∷ []
base64 (a ∷ b ∷ c ∷ s) =
    let n = a * 65536 + b * 256 + c in
    base64_digit n 262144 ∷ base64_digit n 4096 ∷ base64_digit n 64 ∷ base64_digit n 1 ∷ base64 s
