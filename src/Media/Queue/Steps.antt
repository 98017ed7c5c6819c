-- ===== src/Media/Queue/Steps.antt =====
-- A queue and those who use it: every order in which pushes and the two halves of pops can run.
use monogo.Base.{ℕ, ◌≡◌, List, [], ◌∷◌, ◌++◌, some, if◌then◌else◌}
use monogo.Media.Queue.{Fits, AudioFrame, AudioQueue, new_audio_queue, push, receive, account}

-- `pending` are the frames received and not yet accounted for; `accepted` and `received` are what the
-- pushes and the pops have seen so far, oldest first.
pub record System : Type 0 where
  pub queue : AudioQueue
  pub pending : List AudioFrame
  pub accepted : List AudioFrame
  pub received : List AudioFrame

unfoldable pub start : ℕ → System
start max_duration = record {
  queue = new_audio_queue max_duration;
  pending = [];
  accepted = [];
  received = [];
}

-- The system after a push.
unfoldable pub pushed : AudioFrame → System → System
pushed frame s = record s {
  queue = (push frame s.queue).1;
  accepted = if (push frame s.queue).0 then s.accepted ++ frame ∷ [] else s.accepted;
}

pub data Step (s : System) : System → Type 0 where
  push_step : (frame : AudioFrame) → Fits frame → Step s (pushed frame s)
  receive_step :
      (frame : AudioFrame) (q : AudioQueue)
      → receive s.queue ≡ some (frame, q)
      → Step s
          (record s { queue = q; pending = frame ∷ s.pending; received = s.received ++ frame ∷ [] })
  -- Any of the pops that are under way may come next.
  account_step :
      (before after : List AudioFrame) (frame : AudioFrame)
      → s.pending ≡ before ++ frame ∷ after
      → Step s (record s { queue = account frame s.queue; pending = before ++ after })

-- From a new queue.
pub data Reach (max_duration : ℕ) : System → Type 0 where
  here : Reach max_duration (start max_duration)
  next_step : {s t : System} → Reach max_duration s → Step s t → Reach max_duration t
