-- ===== src/Media/Queue/Invariant.antt =====
-- What holds of a queue however its users interleave.
use monogo.Base.{
  ℕ, ◌+◌, ◌≤◌, ◌<◌, ◌≡◌, refl, sym, subst, ap, ◌∙◌, List, [], ◌∷◌, ◌++◌, some, Bool, true, false,
  if◌then◌else◌, length, length-append, arith, inl, inr, ltb, leb, Bool-cases, ◌⊎◌, eq_of_some_eq,
}
use mathlib.Core.List.{append_assoc}
use monogo.Media.Queue.{
  AudioFrame, AudioQueue, new_audio_queue, push, receive, account, duration, channel_capacity,
  first_frame,
}
use monogo.Media.Queue.Steps.{
  System, start, pushed, Step, push_step, receive_step, account_step, Reach, here, next_step,
}

-- The duration of a list of frames.
unfoldable pub total : List AudioFrame → ℕ
total [] = 0
total (f ∷ fs) = duration f + total fs

total-append : (fs gs : List AudioFrame) → total (fs ++ gs) ≡ total fs + total gs
unfolding total
total-append [] gs = omega arith
total-append (f ∷ fs) gs = omega (arith, total-append fs gs)

pub record IsAccounted (max_duration : ℕ) (s : System) : Type 0 where
  pub limit : s.queue.max_duration ≡ max_duration
  pub balance : s.queue.queued ≡ total s.queue.frames + total s.pending
  pub bounded : s.queue.queued ≤ s.queue.max_duration
  pub in_buffer : length s.queue.frames ≤ channel_capacity
  pub in_order : s.accepted ≡ s.received ++ s.queue.frames

-- The queue with a frame at its end.
abbrev appended : AudioFrame → AudioQueue → AudioQueue
appended frame q = record q { frames = q.frames ++ frame ∷ []; queued = q.queued + duration frame }

push-cases :
    (frame : AudioFrame) (q : AudioQueue)
    → (push frame q ≡ (false, q))
      ⊎ ((push frame q ≡ (true, appended frame q))
          × (q.queued + duration frame ≤ q.max_duration)
          × (length q.frames < channel_capacity))
unfolding push
push-cases frame q = elim (Bool-cases (ltb q.max_duration (q.queued + duration frame))) [
  | inl late ↦ inl (rw late refl)
  | inr fits ↦ elim (Bool-cases (leb channel_capacity (length q.frames))) [
    | inl full ↦ inl (rw fits (rw full refl))
    | inr room ↦ inr (rw fits (rw room refl), ground arith, ground arith)
  ]
]

module _ {m : ℕ} where
  refused-IsAccounted :
      (frame : AudioFrame) (s : System) (p : Bool × AudioQueue)
      → p ≡ (false, s.queue)
      → IsAccounted m s
      → IsAccounted m (record s {
        queue = p.1;
        accepted = if p.0 then s.accepted ++ frame ∷ [] else s.accepted;
      })
  refused-IsAccounted frame s p e i = rw e i

  taken-IsAccounted :
      (frame : AudioFrame) (s : System)
      → IsAccounted m s
      → s.queue.queued + duration frame ≤ s.queue.max_duration
      → length s.queue.frames < channel_capacity
      → IsAccounted m
          (record s { queue = appended frame s.queue; accepted = s.accepted ++ frame ∷ [] })
  unfolding total
  taken-IsAccounted frame s i fits room = record {
    limit = i.limit;
    balance = rw (total-append s.queue.frames (frame ∷ [])) (omega (arith, i.balance));
    bounded = fits;
    in_buffer = rw (length-append s.queue.frames (frame ∷ [])) (omega (arith, room));
    in_order =
        ap (λ xs. xs ++ frame ∷ []) i.in_order
        ∙ append_assoc s.received s.queue.frames (frame ∷ []);
  }

  push-IsAccounted :
      (frame : AudioFrame) (s : System) → IsAccounted m s → IsAccounted m (pushed frame s)
  unfolding pushed
  push-IsAccounted frame s i = elim (push-cases frame s.queue) [
    | inl e ↦ refused-IsAccounted frame s (push frame s.queue) e i
    | inr (e, fits, room) ↦ rw e (taken-IsAccounted frame s i fits room)
  ]

  receive-IsAccounted :
      (s : System) (fs : List AudioFrame) (frame : AudioFrame) (q : AudioQueue)
      → s.queue.frames ≡ fs
      → first_frame fs s.queue ≡ some (frame, q)
      → IsAccounted m s
      → IsAccounted m
          (record s { queue = q; pending = frame ∷ s.pending; received = s.received ++ frame ∷ [] })
  unfolding total
  receive-IsAccounted s [] frame q e h i = cc
  receive-IsAccounted s (f ∷ fs) frame q e h i =
      subst
        (λ t.
          IsAccounted m (record s {
            queue = t.1;
            pending = t.0 ∷ s.pending;
            received = s.received ++ t.0 ∷ [];
          }))
        (eq_of_some_eq h)
        (record {
          limit = i.limit;
          balance = omega (arith, i.balance, ap total e);
          bounded = i.bounded;
          in_buffer = omega (arith, i.in_buffer, ap length e);
          in_order =
              i.in_order
              ∙ ap (λ xs. s.received ++ xs) e
              ∙ sym (append_assoc s.received (f ∷ []) fs);
        })

  account-IsAccounted :
      (s : System) (before after : List AudioFrame) (frame : AudioFrame)
      → s.pending ≡ before ++ frame ∷ after
      → IsAccounted m s
      → IsAccounted m (record s { queue = account frame s.queue; pending = before ++ after })
  unfolding account total
  account-IsAccounted s before after frame e i = record {
    limit = i.limit;
    balance = omega (
      arith,
      i.balance,
      ap total e,
      total-append before (frame ∷ after),
      total-append before after,
    );
    bounded = omega (arith, i.bounded);
    in_buffer = i.in_buffer;
    in_order = i.in_order;
  }

  Step-IsAccounted : {s t : System} → Step s t → IsAccounted m s → IsAccounted m t
  unfolding receive
  Step-IsAccounted (push_step frame fits) i = push-IsAccounted frame _ i
  Step-IsAccounted (receive_step frame q e) i = receive-IsAccounted _ _ frame q refl e i
  Step-IsAccounted (account_step before after frame e) i =
      account-IsAccounted _ before after frame e i

pub Reach-IsAccounted :
    (max_duration : ℕ) (s : System) → Reach max_duration s → IsAccounted max_duration s
unfolding start new_audio_queue total
Reach-IsAccounted max_duration s here = record {
  limit = refl;
  balance = refl;
  bounded = omega arith;
  in_buffer = omega arith;
  in_order = refl;
}
Reach-IsAccounted max_duration s (next_step r step) =
    Step-IsAccounted step (Reach-IsAccounted max_duration _ r)
