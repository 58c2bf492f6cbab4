-- ===== src/Call/Wake.antt =====
-- When a call of src/call.cpp wakes up.
use sipp.Base.{ℕ, ◌≤◌, ◌<◌, ◌≡◌, sym, subst, refl, ◌∙◌, false, arith, ◌⊎◌, inl, inr}
use sipp.Call.{Call, earlier, wake}

-- A timer that runs out no sooner, unless it is not set.
abbrev pub Follows : ℕ → ℕ → Type 0
Follows w t = (t ≡ 0) ⊎ ((0 < w) × (w ≤ t))

earlier-Follows_fst : (t w : ℕ) → Follows (earlier t w) t
earlier-Follows_fst t w = ground arith

earlier-Follows : (t w u : ℕ) → Follows w u → Follows (earlier t w) u
earlier-Follows t w u f = ground arith

earlier-one : (t w : ℕ) → (earlier t w ≡ t) ⊎ (earlier t w ≡ w)
earlier-one t w = ground arith

-- The timers of a call.
pub data Timer : Type 0 where
  pause : Timer
  retrans : Timer
  receive : Timer
  playback : Timer

abbrev pub time : Timer → Call → ℕ
time pause c = c.paused_until
time retrans c = c.next_retrans
time receive c = c.recv_timeout
time playback c = c.rtpstream_wait_check

module _ (c : Call) where
  abbrev by_retrans : ℕ
  by_retrans = earlier c.next_retrans c.paused_until

  abbrev by_receive : ℕ
  by_receive = earlier c.recv_timeout by_retrans

  abbrev by_playback : ℕ
  by_playback = earlier c.rtpstream_wait_check by_receive

  by_playback-Follows : (x : Timer) → Follows by_playback (time x c)
  by_playback-Follows playback = earlier-Follows_fst c.rtpstream_wait_check by_receive
  by_playback-Follows receive =
      earlier-Follows c.rtpstream_wait_check by_receive c.recv_timeout
        (earlier-Follows_fst c.recv_timeout by_retrans)
  by_playback-Follows retrans = earlier-Follows c.rtpstream_wait_check by_receive c.next_retrans (
      earlier-Follows c.recv_timeout by_retrans c.next_retrans
        (earlier-Follows_fst c.next_retrans c.paused_until))
  by_playback-Follows pause = earlier-Follows c.rtpstream_wait_check by_receive c.paused_until (
      earlier-Follows c.recv_timeout by_retrans c.paused_until
        (earlier-Follows c.next_retrans c.paused_until c.paused_until (ground arith)))

  by_playback-Timer : (x : Timer) × (by_playback ≡ time x c)
  by_playback-Timer = elim (earlier-one c.rtpstream_wait_check by_receive) [
    | inl e ↦ (playback, e)
    | inr e ↦ elim (earlier-one c.recv_timeout by_retrans) [
      | inl f ↦ (receive, e ∙ f)
      | inr f ↦ elim (earlier-one c.next_retrans c.paused_until) [
        | inl g ↦ (retrans, e ∙ f ∙ g)
        | inr g ↦ (pause, e ∙ f ∙ g)
      ]
    ]
  ]

wake_lem : (c : Call) → c.zombie ≡ false → wake c ≡ by_playback c
unfolding wake
wake_lem c z = rw z refl

-- A call that is no zombie wakes up by one of its timers, and by the earliest of those that are set: if any is
-- set, the time is not 0 and not behind it.
pub wake-Follows :
    (c : Call)
    → c.zombie ≡ false
    → ((x : Timer) → Follows (wake c) (time x c)) × ((x : Timer) × (wake c ≡ time x c))
wake-Follows c z =
    subst (λ w. ((x : Timer) → Follows w (time x c)) × ((x : Timer) × (w ≡ time x c)))
      (sym (wake_lem c z)) (by_playback-Follows c, by_playback-Timer c)
