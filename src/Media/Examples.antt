-- ===== src/Media/Examples.antt =====
-- The theorems on the audio queue at two frames.
use monogo.Base.{ℕ, ◌+◌, ◌^◌, arith, ◌≤◌, ◌<◌, ◌≡◌, ◌↔◌, refl, [], ◌∷◌, true, false, length}
use monogo.Media.Queue.{AudioFrame, Fits, channel_capacity, push, duration, new_audio_queue}
use monogo.Media.Queue.Steps.{System, Reach, here, next_step, push_step, start, pushed}
use monogo.Media.Queue.Invariant.{total, IsAccounted}
use monogo.Media.Queue.Exact.{Reach-Exact}
use monogo.Media.Queue.Behaviour.{push-accepts_iff}

-- Two samples at 1000 Hz: 2 ms.
abbrev frame : ℕ → AudioFrame
frame n = record {
  data_bytes = n ∷ n ∷ n ∷ n ∷ [];
  format = record { sample_rate_hz = 1000; channels = 1 };
  captured_at = n;
}

duration_test : duration (frame 1) ≡ 2_000_000
unfolding duration
duration_test = refl

-- A limit of 5 ms: the third frame is refused.
abbrev filled : System
filled = pushed (frame 3) (pushed (frame 2) (pushed (frame 1) (start 5_000_000)))

frame-Fits : (n : ℕ) → Fits (frame n)
frame-Fits n = (omega arith, omega arith)

filled-Reach : Reach 5_000_000 filled
filled-Reach =
    next_step (next_step (next_step here (push_step _ (frame-Fits 1))) (push_step _ (frame-Fits 2)))
      (push_step _ (frame-Fits 3))

refused_test : (push (frame 3) filled.queue).0 ≡ false
unfolding push pushed start new_audio_queue duration
refused_test = refl

Reach-Exact_example :
    IsAccounted 5_000_000 filled
    × ((f : AudioFrame) → Fits f → filled.queue.queued + duration f < 2 ^ 63)
Reach-Exact_example = Reach-Exact 5_000_000 filled (omega arith) filled-Reach

push-accepts_iff_example : ((push (frame 4) filled.queue).0 ≡ true) ↔ (
    (total filled.queue.frames + duration (frame 4) ≤ 5_000_000)
    × (length filled.queue.frames < channel_capacity))
unfolding start pushed
push-accepts_iff_example =
    push-accepts_iff 5_000_000 filled (frame 4) filled-Reach refl (omega arith) (frame-Fits 4)
