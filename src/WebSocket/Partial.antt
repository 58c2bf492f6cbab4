-- ===== src/WebSocket/Partial.antt =====
-- `next` of src/websocket.cpp on a frame that is not all in.
use sipp.Base.{ℕ, suc, ◌+◌, Bool, List, if◌then◌else◌, length}
use sipp.WebSocket.Event.{Event}
use sipp.WebSocket.Frame.{length_bytes}
use sipp.WebSocket.State.{WebSocket}
use sipp.WebSocket.Parsed.{mask_bit}

-- The size of a frame, by its header.
abbrev frame_size : Bool → ℕ → ℕ
frame_size m len =
    (if m
      then suc (length (length_bytes (mask_bit m) len)) + 4
      else suc (length (length_bytes (mask_bit m) len)))
    + len
