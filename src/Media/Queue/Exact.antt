-- ===== src/Media/Queue/Exact.antt =====
-- The account of a queue is exact, within the 64 bits of the code.
use monogo.Base.{ℕ, ◌+◌, ◌*◌, ◌/◌, ◌^◌, ◌≤◌, ◌<◌, ◌||◌, ◌==◌, length, arith, Bool-cases, inl, inr}
use native.Mathlib.Nat.{div-le_self}
use monogo.Media.Queue.{AudioFrame, Fits, duration}
use monogo.Media.Queue.Steps.{System, Reach}
use monogo.Media.Queue.Invariant.{IsAccounted, Reach-IsAccounted}

-- The samples of a frame that fits, as nanoseconds at 1 Hz.
pub product-Fits :
    (f : AudioFrame)
    → Fits f
    → length f.data_bytes / (2 * f.format.channels) * 1_000_000_000 ≤ 2 ^ 33 * 1_000_000_000
product-Fits f h =
    let samples = div-le_self (length f.data_bytes) (2 * f.format.channels) in
    omega (arith, samples, h.0)

pub duration-Fits : (f : AudioFrame) → Fits f → duration f ≤ 2 ^ 33 * 1_000_000_000
unfolding duration
duration-Fits f h =
    elim (Bool-cases
      (f.format.sample_rate_hz == 0 || f.format.channels == 0 || length f.data_bytes == 0)) [
        | inl e ↦ rw e (omega arith)
        | inr e ↦
            let seconds =
              div-le_self (length f.data_bytes / (2 * f.format.channels) * 1_000_000_000)
                f.format.sample_rate_hz in
            rw e (omega (arith, seconds, product-Fits f h))
      ]

-- For a limit of at most 18 years and pushes of frames of less than 8 GiB, in whatever order pushes and
-- the two halves of pops run: the account is the duration of the frames in the channel and of those
-- received and not yet taken off it, so the clamp at 0 never cuts anything off; it is at most the limit;
-- the channel holds at most 256 frames; the accepted frames are the received ones followed by those in the
-- channel, so frames come out in the order they went in; and the sum that the next push of such a frame
-- computes is below 2^63, so nothing wraps.
pub Reach-Exact :
    (max_duration : ℕ) (s : System)
    → max_duration ≤ 2 ^ 59
    → Reach max_duration s
    → IsAccounted max_duration s
      × ((frame : AudioFrame) → Fits frame → s.queue.queued + duration frame < 2 ^ 63)
Reach-Exact max_duration s small r =
    let i = Reach-IsAccounted max_duration s r in
    (i, λ frame h. omega (arith, i.bounded, i.limit, small, duration-Fits frame h))
