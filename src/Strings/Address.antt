-- ===== src/Strings/Address.antt =====
-- `get_host_and_port` of src/strings.cpp reads each form that an address is written in.
use sipp.Base.{ℕ, ◌≡◌, false, List, [], ◌∷◌, ◌++◌, has}
use sipp.Base.Int.{ℤ, pos}
use sipp.Base.Bytes.{strtol}

-- The forms of an address: a host, a host with the text of its port, an IPv6 address as it is, and
-- one in brackets, with or without the text of a port.
pub data Form : Type 0 where
  host : List ℕ → Form
  host_port : List ℕ → List ℕ → Form
  ipv6 : List ℕ → List ℕ → List ℕ → Form
  bracketed : List ℕ → Form
  bracketed_port : List ℕ → List ℕ → Form

-- How a form is written.
abbrev pub written : Form → List ℕ
written (host h) = h
written (host_port h p) = h ++ b':' ∷ p
written (ipv6 a b c) = a ++ b':' ∷ (b ++ b':' ∷ c)
written (bracketed h) = b'[' ∷ (h ++ b']' ∷ [])
written (bracketed_port h p) = b'[' ∷ (h ++ b']' ∷ (b':' ∷ p))

-- The host and the port that a form stands for.
abbrev pub meaning : Form → List ℕ × ℤ
meaning (host h) = (h, pos 0)
meaning (host_port h p) = (h, strtol p)
meaning (ipv6 a b c) = (a ++ b':' ∷ (b ++ b':' ∷ c), pos 0)
meaning (bracketed h) = (h, pos 0)
meaning (bracketed_port h p) = (h, strtol p)

-- Outside of brackets no bracket opens, and the parts between colons hold none.
abbrev pub IsPlain : Form → Type 0
IsPlain (host h) = (has b'[' h ≡ false) × (has b':' h ≡ false)
IsPlain (host_port h p) =
    (has b'[' (h ++ b':' ∷ p) ≡ false) × ((has b':' h ≡ false) × (has b':' p ≡ false))
IsPlain (ipv6 a b c) =
    (has b'[' (a ++ b':' ∷ (b ++ b':' ∷ c)) ≡ false) × ((has b':' a ≡ false) × (has b':' b ≡ false))
IsPlain (bracketed h) = has b']' h ≡ false
IsPlain (bracketed_port h p) = has b']' h ≡ false
