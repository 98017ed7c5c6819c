-- ===== src/Media/Queue/Behaviour.antt =====
-- Each operation on a queue that its users have brought where it is.
use monogo.Base.{ℕ, ◌+◌, ◌^◌, ◌≤◌, ◌<◌, ◌≡◌, ◌↔◌, refl, List, [], ◌∷◌, true, length, arith, ap}
use monogo.Media.Queue.{
  AudioFrame, AudioQueue, Fits, push, account, duration, channel_capacity, clear, clear_frames,
}
use monogo.Media.Queue.Steps.{System, Reach}
use monogo.Media.Queue.Invariant.{total, Reach-IsAccounted}

push-true_iff :
    (frame : AudioFrame) (q : AudioQueue)
    → ((push frame q).0 ≡ true)
      ↔ ((q.queued + duration frame ≤ q.max_duration) × (length q.frames < channel_capacity))
unfolding push
push-true_iff frame q = ground arith

-- Where no pop is between its two halves, the limit is at most 18 years and all frames are of less than
-- 8 GiB, a push takes the frame exactly if the frames in the channel
-- and the new one last no longer than the limit and the channel holds fewer than 256 frames.
pub push-accepts_iff :
    (max_duration : ℕ) (s : System) (frame : AudioFrame)
    → Reach max_duration s
    → s.pending ≡ []
    → max_duration ≤ 2 ^ 59
    → Fits frame
    → ((push frame s.queue).0 ≡ true) ↔ (
        (total s.queue.frames + duration frame ≤ max_duration)
        × (length s.queue.frames < channel_capacity))
unfolding total
push-accepts_iff max_duration s frame r e small fits =
    let i = Reach-IsAccounted max_duration s r in
    let t = push-true_iff frame s.queue in
    let none_pending = ap total e in
    (
      λ h. (omega (arith, i.balance, i.limit, none_pending, (t.0 h).0), (t.0 h).1),
      λ h. t.1 (omega (arith, i.balance, i.limit, none_pending, h.0), h.1),
    )

clear_frames-queued :
    (fs : List AudioFrame) (q : AudioQueue) (n : ℕ)
    → q.queued ≡ total fs + n
    → ((clear_frames fs q).frames ≡ []) × ((clear_frames fs q).queued ≡ n)
unfolding clear_frames account total
clear_frames-queued [] q n h = (refl, omega (arith, h))
clear_frames-queued (f ∷ fs) q n h = clear_frames-queued fs (account f q) n (omega (arith, h))

-- A clear that no other operation interrupts leaves no frame in the channel, and on the account only
-- the durations that pops under way have still to take off it: none, where no pop is under way.
pub clear-empties :
    (max_duration : ℕ) (s : System)
    → Reach max_duration s
    → ((clear s.queue).frames ≡ []) × ((clear s.queue).queued ≡ total s.pending)
unfolding clear
clear-empties max_duration s r =
    clear_frames-queued s.queue.frames s.queue (total s.pending)
      (Reach-IsAccounted max_duration s r).balance
