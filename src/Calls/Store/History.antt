-- ===== src/Calls/Store/History.antt =====
-- The events in the outbox tell the whole story: who replays them has the status of every call.
use monogo.Base.{
  ℕ, Text, true, ◌≡◌, ◌≢◌, ◌⊎◌, subst, arith, refl, sym, ap, ◌∙◌, Option, none, some, String, List,
  [], ◌∷◌, ◌++◌, Bool-cases, ◌==◌, ==_iff, inl, inr, if◌then◌else◌,
}
use mathlib.Core.List.{append-nil, append_assoc}
use monogo.Calls.Model.{
  State, MediaState, Call, initiating, ringing, answered, completed, failed, cancelled,
  is_terminal_state,
}
use monogo.Calls.Store.{
  Database, Calls, OutboxEvent, set_sip, insert, commit, write_row, Mark, may_mark, set_mark,
  is_early, mark_ringing, mark_answered, mark_active, mark_held, mark_resumed, mark_completed,
  mark_failed, mark_cancelled, outbox_event, subject,
}
use monogo.Calls.Store.Queries.{set_route, new_row}
use monogo.Calls.Store.Steps.{
  Reach, here, next_step, bound, marked, created, attributed, announcement,
}

-- The state and the media state of a call.
abbrev pub Status : Type 0
Status = State × MediaState

abbrev status_of : Option Call → Option Status
status_of none = none
status_of (some c) = some (c.state, c.media_state)

abbrev pub status : Calls → ℕ → Option Status
status calls id = status_of (calls id)

-- What a reader of the events, oldest first, takes the status of a call to be.
pub replay : ℕ → List OutboxEvent → Option Status → Option Status
replay id [] s = s
replay id (e ∷ es) s =
    replay id es
      (if id == e.aggregate_id then some (e.resource.state, e.resource.media_state) else s)

replay-append :
    (id : ℕ) (es fs : List OutboxEvent) (s : Option Status)
    → replay id (es ++ fs) s ≡ replay id fs (replay id es s)
unfolding replay
replay-append id [] fs s = refl
replay-append id (e ∷ es) fs s = replay-append id es fs _

-- A call that is not over.
abbrev pub IsGoing : State → Type 0
IsGoing s = (s ≢ completed) × (s ≢ failed) × (s ≢ cancelled)

-- What an event may say of a call after the events before it: the call appears, or takes one step of its
-- life, under the subject of that step.
pub data Change : Option Status → String → Status → Type 0 where
  placed : Change none "call.initiated" (initiating, MediaState.active)
  offered : Change none "call.ringing" (ringing, MediaState.active)
  rings : (m : MediaState) → Change (some (initiating, m)) "call.ringing" (ringing, m)
  answers :
      (s : State) (m : MediaState)
      → (s ≡ initiating) ⊎ (s ≡ ringing)
      → Change (some (s, m)) "call.answered" (answered, m)
  activates :
      (s : State) (m : MediaState)
      → (s ≡ ringing) ⊎ (s ≡ answered)
      → Change (some (s, m)) "call.active" (State.active, m)
  holds :
      (s : State)
      → (s ≡ answered) ⊎ (s ≡ State.active)
      → Change (some (s, MediaState.active)) "call.held" (s, MediaState.held)
  resumes :
      (s : State)
      → (s ≡ answered) ⊎ (s ≡ State.active)
      → Change (some (s, MediaState.held)) "call.resumed" (s, MediaState.active)
  completes :
      (s : State) (m : MediaState)
      → IsGoing s
      → Change (some (s, m)) "call.completed" (completed, m)
  fails : (s : State) (m : MediaState) → IsGoing s → Change (some (s, m)) "call.failed" (failed, m)
  cancels :
      (s : State) (m : MediaState)
      → (s ≡ initiating) ⊎ (s ≡ ringing)
      → Change (some (s, m)) "call.cancelled" (cancelled, m)

abbrev told : OutboxEvent → (ℕ → Option Status) → ℕ → Option Status
told e st id =
    if id == e.aggregate_id then some (e.resource.state, e.resource.media_state) else st id

-- Each event says what it may after those before it.
pub Story : (ℕ → Option Status) → List OutboxEvent → Type 0
Story st [] = Unit {0}
Story st (e ∷ es) =
    Change (st e.aggregate_id) e.subject (e.resource.state, e.resource.media_state)
    × Story (told e st) es

Story-append :
    (st : ℕ → Option Status) (es : List OutboxEvent) (f : OutboxEvent)
    → Story st es
    → Change
        (replay f.aggregate_id es (st f.aggregate_id))
        f.subject
        (f.resource.state, f.resource.media_state)
    → Story st (es ++ f ∷ [])
unfolding Story replay
Story-append st [] f h c = (c, tt)
Story-append st (e ∷ es) f (h, hs) c = (h, Story-append (told e st) es f hs c)

-- The second database follows from the first by the events that were added to its outbox.
pub record Recorded (d e : Database) : Type 0 where
  pub added : List OutboxEvent
  pub outbox_grows : e.outbox ≡ d.outbox ++ added
  pub lawful : Story (status d.calls) added
  pub replays : (id : ℕ) → status e.calls id ≡ replay id added (status d.calls id)

-- A row written over one of the same status.
kept-status :
    (calls : Calls) (id : ℕ) (c c' : Call) (j : ℕ)
    → calls id ≡ some c
    → (c'.state ≡ c.state) × (c'.media_state ≡ c.media_state)
    → status (insert calls id c') j ≡ status calls j
unfolding insert
kept-status calls id c c' j found e = elim (Bool-cases (j == id)) [
  | inl same ↦ rw same (rw ((==_iff j id).0 same, found, e.0, e.1))
  | inr other ↦ rw other
]

marked-status :
    (calls : Calls) (id : ℕ) (c : Call) (j : ℕ)
    → status (insert calls id c) j
      ≡ (if j == id then some (c.state, c.media_state) else status calls j)
unfolding insert
marked-status calls id c j = elim (Bool-cases (j == id)) [
  | inl same ↦ rw same
  | inr other ↦ rw other
]

-- A statement that adds no event, or one commit, past what was recorded.
keep-Recorded :
    {d e : Database} (id : ℕ) (c c' : Call)
    → e.calls id ≡ some c
    → (c'.state ≡ c.state) × (c'.media_state ≡ c.media_state)
    → Recorded d e
    → Recorded d (write_row id c' e)
unfolding write_row
keep-Recorded {e} id c c' found same before = record {
  added = before.added;
  outbox_grows = before.outbox_grows;
  lawful = before.lawful;
  replays = λ j. kept-status e.calls id c c' j found same ∙ before.replays j;
}

commit-Recorded :
    {d e : Database} (id : ℕ) (c : Call) (event_type : String) (now : ℕ)
    → Change (status e.calls id) event_type (c.state, c.media_state)
    → Recorded d e
    → Recorded d (commit id c (outbox_event event_type id c now) e)
unfolding commit outbox_event replay
commit-Recorded {d} {e} id c event_type now change before = record {
  added = before.added ++ (outbox_event event_type id c now ∷ []);
  outbox_grows = rw before.outbox_grows (append_assoc d.outbox before.added _);
  lawful =
      Story-append (status d.calls) before.added (outbox_event event_type id c now) before.lawful
        (subst (λ s. Change s event_type (c.state, c.media_state)) (before.replays id) change);
  replays = λ j.
      marked-status e.calls id c j
      ∙ ap (λ s. if j == id then some (c.state, c.media_state) else s) (before.replays j)
      ∙ sym (replay-append j before.added _ (status d.calls j));
}

mark-Change :
    (m : Mark) (c : Call) (now : ℕ) (reason : Option Text)
    → may_mark m c ≡ true
    → Change
        (some (c.state, c.media_state))
        (subject m)
        ((set_mark m now reason c).state, (set_mark m now reason c).media_state)
unfolding may_mark set_mark subject is_terminal_state
mark-Change mark_ringing c now reason h =
    let e : c.state ≡ initiating = ground arith in rw e (rings c.media_state)
mark-Change mark_answered c now reason h = answers c.state c.media_state (ground arith)
mark-Change mark_active c now reason h = activates c.state c.media_state (ground arith)
mark-Change mark_held c now reason h =
    let e : c.media_state ≡ MediaState.active = ground arith in rw e (holds c.state (ground arith))
mark-Change mark_resumed c now reason h =
    let e : c.media_state ≡ MediaState.held = ground arith in rw e (resumes c.state (ground arith))
mark-Change mark_completed c now reason h = completes c.state c.media_state (ground arith)
mark-Change mark_failed c now reason h = fails c.state c.media_state (ground arith)
mark-Change mark_cancelled c now reason h = cancels c.state c.media_state (ground arith)

new-Change : (s : State) → is_early s ≡ true → Change none (announcement s) (s, MediaState.active)
new-Change initiating h = placed
new-Change ringing h = offered
new-Change State.answered h = cc
new-Change State.active h = cc
new-Change State.completed h = cc
new-Change State.failed h = cc
new-Change State.cancelled h = cc

pub Reach-Recorded : {d e : Database} → Reach d e → Recorded d e
unfolding set_sip set_route replay Story new_row
Reach-Recorded here = record {
  added = [];
  lawful = tt;
  outbox_grows = sym (append-nil _);
  replays = λ id. refl;
}
Reach-Recorded (next_step {e} r (bound id c sip now found h)) =
    keep-Recorded id c _ found (refl, refl) (Reach-Recorded r)
Reach-Recorded (next_step {e} r (marked id c m reason now found h)) =
    commit-Recorded id _ (subject m) now (rw found (mark-Change m c now reason h))
      (Reach-Recorded r)
Reach-Recorded (next_step {e} r (created id params event_type now free early announced)) =
    commit-Recorded id _ event_type now
      (rw free (rw announced (new-Change (new_row params now).state early))) (Reach-Recorded r)
Reach-Recorded (next_step {e} r (attributed id c trunk_id trunk_endpoint_id now found)) =
    keep-Recorded id c _ found (refl, refl) (Reach-Recorded r)
