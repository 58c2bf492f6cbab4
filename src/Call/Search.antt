-- ===== src/Call/Search.antt =====
-- The searches of `process_incoming` in src/call.cpp skip optional messages only.
use sipp.Base.{ℕ, ◌+◌, ◌≤◌, ◌<◌, ◌≡◌, Bool, true, false, List, Option, none, some, get_elem?, ◌⊎◌}
use sipp.Call.Match.{
  Expected, Transaction, Received, Found, found, ignores, sends_ack_again, unexpected, fails,
  is_optional, is_global, matches_scenario,
}

module _ (regexec : List ℕ → List ℕ → Bool) (messages : List Expected)
    (transactions : List Transaction) (incoming : Option ℕ) (msg : Received) where
  abbrev pub matches : ℕ → Expected → Bool
  matches = matches_scenario regexec messages transactions incoming msg

  -- The `d`-th message of a list with indices from `i` on matches, and those before it do not but are optional.
  abbrev pub IsFirst : ℕ → List Expected → ℕ → Type 0
  IsFirst i ms d =
      ((m : Expected) × (get_elem? ms d ≡ some m) × (matches (i + d) m ≡ true))
      × ((k : ℕ) (m : Expected)
          → k < d
          → get_elem? ms k ≡ some m
          → (matches (i + k) m ≡ false) × (is_optional m.optional ≡ true))

  abbrev pub taken : Found → Option ℕ
  taken (found i) = some i
  taken ignores = none
  taken (sends_ack_again i) = none
  taken unexpected = none
  taken fails = none

  -- The `j`-th message matches, and may be taken late: it is global, or all from it on are optional.
  abbrev pub IsLate : Bool → ℕ → ℕ → Type 0
  IsLate contig n j =
      (j < n)
      × ((m : Expected) × (get_elem? messages j ≡ some m)
          × (matches j m ≡ true)
          × ((is_global m.optional ≡ true)
              ⊎ ((contig ≡ true)
                  × ((k : ℕ) (m' : Expected)
                      → j ≤ k
                      → k < n
                      → get_elem? messages k ≡ some m'
                      → is_optional m'.optional ≡ true))))

  -- The messages from `j` on below `n` are optional.
  abbrev pub AreOptional : ℕ → ℕ → Type 0
  AreOptional j n =
      (k : ℕ) (m' : Expected)
      → j ≤ k
      → k < n
      → get_elem? messages k ≡ some m'
      → is_optional m'.optional ≡ true
