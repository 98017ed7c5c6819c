-- ===== src/Media/Queue.antt =====
-- queue.go and `AudioFrame` of server/internal/media/session: the queue of audio frames whose length
-- is bounded in time. A pop takes the frame off the channel first and its duration off the account
-- later, under the lock; pushes and other pops run in between. A duration counts nanoseconds.
pub mod Steps
pub mod Invariant
pub mod Exact
pub mod Behaviour
use monogo.Base.{
  ℕ, ◌+◌, ◌-◌, ◌*◌, ◌/◌, ◌^◌, ◌<◌, Bool, true, false, ◌||◌, List, [], ◌∷◌, ◌++◌, Option, none, some,
  ◌==◌, ltb, leb, if◌then◌else◌, length,
}

-- A sample rate or a number of channels below 1 is 0.
pub record AudioFormat : Type 0 where
  pub sample_rate_hz : ℕ
  pub channels : ℕ

pub record AudioFrame : Type 0 where
  pub data_bytes : List ℕ
  pub format : AudioFormat
  pub captured_at : ℕ

-- A frame whose duration the code computes within 64 bits: fewer than 2^33 bytes, 8 GiB, and a number of
-- channels that an int holds twice.
abbrev pub Fits : AudioFrame → Type 0
Fits f = (length f.data_bytes < 2 ^ 33) × (f.format.channels < 2 ^ 62)

-- The int64 of the code, on frames that fit, which the theorems ask for.
unfoldable pub duration : AudioFrame → ℕ
duration f =
    if f.format.sample_rate_hz == 0 || f.format.channels == 0 || length f.data_bytes == 0
    then 0
    else length f.data_bytes / (2 * f.format.channels) * 1_000_000_000 / f.format.sample_rate_hz

-- The buffer of the channel.
abbrev pub channel_capacity : ℕ
channel_capacity = 256

pub record AudioQueue : Type 0 where
  pub frames : List AudioFrame
  pub queued : ℕ
  pub max_duration : ℕ

unfoldable pub new_audio_queue : ℕ → AudioQueue
new_audio_queue max_duration = record { frames = []; queued = 0; max_duration = max_duration }

-- `Push`: whether the frame is taken, else the overflow error.
unfoldable pub push : AudioFrame → AudioQueue → Bool × AudioQueue
push frame q =
    if ltb q.max_duration (q.queued + duration frame)
    then (false, q)
    else if leb channel_capacity (length q.frames)
    then (false, q)
    else (true, record q { frames = q.frames ++ frame ∷ []; queued = q.queued + duration frame })

-- `<-q.frames`, where a frame is there.
abbrev first_frame : List AudioFrame → AudioQueue → Option (AudioFrame × AudioQueue)
first_frame [] q = none
first_frame (f ∷ fs) q = some (f, record q { frames = fs })

unfoldable pub receive : AudioQueue → Option (AudioFrame × AudioQueue)
receive q = first_frame q.frames q

-- What a pop does under the lock. Subtraction stops at 0, as the code's clamp does.
unfoldable pub account : AudioFrame → AudioQueue → AudioQueue
account frame q = record q { queued = q.queued - duration frame }

-- The loop of `Clear` with nothing in between, over the frames that are there.
clear_frames : List AudioFrame → AudioQueue → AudioQueue
unfolding account
clear_frames [] q = record q { frames = [] }
clear_frames (f ∷ fs) q = clear_frames fs (account f q)

unfoldable pub clear : AudioQueue → AudioQueue
unfolding clear_frames
clear q = clear_frames q.frames q
