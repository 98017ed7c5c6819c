-- ===== src/Calls/Store.antt =====
-- The mutations of a call row (server/internal/database/queries/calls.sql) and the transaction that
-- commits one with its outbox event (repository.go of server/internal/telephony/calls). The JSON
-- payload of an event is kept as the row that it prints.
pub mod Queries
pub mod Steps
pub mod Settled
pub mod Safe
pub mod Progress
pub mod Valid
pub mod History
use monogo.Base.{
  ℕ, Bool, true, false, not, ◌&&◌, List, [], ◌∷◌, ◌++◌, Option, none, some, String, Text, text_eq,
  ◌==◌, if◌then◌else◌,
}
use monogo.Errors.{sentinel, wrapped, no_rows}
use monogo.Effects.{M, ◌>>=◌, ◌>>◌, fail, pure, remote, clock, map_error}
use monogo.Calls.Model.{
  State, MediaState, Call, is_terminal_state, is_outbound, initiating, ringing, answered, completed,
  failed, cancelled,
}

-- The queries named MarkCall….
pub data Mark : Type 0 where
  mark_ringing mark_answered mark_active mark_held mark_resumed : Mark
  mark_completed mark_failed mark_cancelled : Mark

-- `COALESCE(a, b)`.
abbrev pub coalesce {ℓ} : {A : Type ℓ} → Option A → Option A → Option A
coalesce none b = b
coalesce (some a) b = some a

-- `state IN ('initiating', 'ringing')`.
abbrev pub is_early : State → Bool
is_early initiating = true
is_early ringing = true
is_early _ = false

abbrev pub is_initiating : State → Bool
is_initiating initiating = true
is_initiating _ = false

-- `state IN ('answered', 'ringing')`.
abbrev pub may_activate : State → Bool
may_activate answered = true
may_activate ringing = true
may_activate _ = false

-- `state IN ('answered', 'active')`.
abbrev pub is_connected : State → Bool
is_connected answered = true
is_connected State.active = true
is_connected _ = false

abbrev pub is_held : MediaState → Bool
is_held MediaState.held = true
is_held MediaState.active = false

-- The `WHERE` clause of a mark, past the identity of the row.
unfoldable pub may_mark : Mark → Call → Bool
may_mark mark_ringing c = is_initiating c.state
may_mark mark_answered c = is_early c.state
may_mark mark_active c = may_activate c.state
may_mark mark_held c = is_connected c.state && not (is_held c.media_state)
may_mark mark_resumed c = is_connected c.state && is_held c.media_state
may_mark mark_completed c = not (is_terminal_state c.state)
may_mark mark_failed c = not (is_terminal_state c.state)
may_mark mark_cancelled c = is_early c.state

end_call : State → ℕ → Option Text → Call → Call
end_call s now reason c = record c {
  state = s;
  ended_at = coalesce c.ended_at (some now);
  hangup_reason = coalesce reason c.hangup_reason;
  updated_at = now;
}

-- The `SET` clause of a mark, at the time `now`; `reason` is the argument of those that end a call.
unfoldable pub set_mark : Mark → ℕ → Option Text → Call → Call
unfolding end_call
set_mark mark_ringing now reason c = record c { state = ringing; updated_at = now }
set_mark mark_answered now reason c = record c {
  state = answered;
  answered_at = coalesce c.answered_at (some now);
  updated_at = now;
}
set_mark mark_active now reason c = record c { state = State.active; updated_at = now }
set_mark mark_held now reason c = record c { media_state = MediaState.held; updated_at = now }
set_mark mark_resumed now reason c = record c { media_state = MediaState.active; updated_at = now }
set_mark mark_completed now reason c = end_call completed now reason c
set_mark mark_failed now reason c = end_call failed now reason c
set_mark mark_cancelled now reason c = end_call cancelled now reason c

-- The event type that the repository commits with a mark.
unfoldable pub subject : Mark → String
subject mark_ringing = "call.ringing"
subject mark_answered = "call.answered"
subject mark_active = "call.active"
subject mark_held = "call.held"
subject mark_resumed = "call.resumed"
subject mark_completed = "call.completed"
subject mark_failed = "call.failed"
subject mark_cancelled = "call.cancelled"

-- SetOutboundCallSIPCallID, past the identity of the row.
unfoldable pub may_bind_sip : Text → Call → Bool
may_bind_sip sip c =
    is_outbound c.direction && elim c.sip_call_id [ none ↦ true | some old ↦ text_eq old sip ]

-- The trigger `set_calls_updated_at` puts the time of every update into `updated_at`, over what the
-- `SET` clause says of that column.
unfoldable pub set_sip : Text → ℕ → Call → Call
set_sip sip now c = record c { sip_call_id = some sip; updated_at = now }

pub record OutboxEvent : Type 0 where
  pub subject : String
  pub aggregate_type : String
  pub aggregate_id : ℕ
  pub organization_id : ℕ
  pub resource : Call
  pub occurred_at : ℕ

-- The `calls` table by primary key, and the outbox, oldest event first.
pub record Database : Type 0 where
  pub calls : ℕ → Option Call
  pub outbox : List OutboxEvent

abbrev pub Calls : Type 0
Calls = ℕ → Option Call

unfoldable pub insert : Calls → ℕ → Call → Calls
insert calls id c j = if j == id then some c else calls j

-- A statement that runs outside `mutate` writes the row alone.
unfoldable pub write_row : ℕ → Call → Database → Database
write_row id call d = record d { calls = insert d.calls id call }

-- `UPDATE calls SET … WHERE organization_id = … AND id = … AND …  RETURNING *`; `none` is no row.
unfoldable pub update_where : ℕ → ℕ → (Call → Bool) → (Call → Call) → Calls → Option (ℕ × Call)
update_where organization_id id where_clause change calls = elim (calls id) [
  | none ↦ none
  | some c ↦
      if c.organization_id == organization_id && where_clause c then some (id, change c) else none
]

unfoldable pub outbox_event : String → ℕ → Call → ℕ → OutboxEvent
outbox_event event_type id call occurred_at = record {
  subject = event_type;
  aggregate_type = "call";
  aggregate_id = id;
  organization_id = call.organization_id;
  resource = call;
  occurred_at = occurred_at;
}

-- What the commit writes: the row and its event.
unfoldable pub commit : ℕ → Call → OutboxEvent → Database → Database
commit id call event d = record { calls = insert d.calls id call; outbox = d.outbox ++ event ∷ [] }

module _ {K : Type 0} where
  unfoldable pub returned : {A : Type 0} → Option A → M Database K A
  returned none = fail (sentinel no_rows)
  returned (some a) = pure a

  begin_transaction : M Database K (Unit {0})
  begin_transaction = map_error (wrapped "begin call transaction") (remote (λ w. (tt, w)))

  -- The mutation's query, inside the transaction.
  run_query : (Calls → ℕ → Option (ℕ × Call)) → M Database K (ℕ × Call)
  run_query mutation = do row ← remote (λ w. (mutation w.database.calls w.now, w)); returned row

  insert_event : M Database K (Unit {0})
  insert_event = map_error (wrapped "insert call outbox event") (remote (λ w. (tt, w)))

  commit_transaction : String → ℕ → Call → ℕ → M Database K (Unit {0})
  commit_transaction event_type id call occurred_at =
      map_error (wrapped "commit call transaction") (
        remote (λ w. (
          tt,
          record w {
            database = commit id call (outbox_event event_type id call occurred_at) w.database;
          },
        )))

  -- `mutate`. The row that the query returns and the event reach the database at the commit alone.
  pub mutate : String → (Calls → ℕ → Option (ℕ × Call)) → M Database K (ℕ × Call)
  mutate event_type mutation = do
    begin_transaction
    call ← run_query mutation
    occurred_at ← clock
    insert_event
    commit_transaction event_type call.0 call.1 occurred_at
    pure call

  -- `MarkRinging` and its seven siblings of the repository.
  unfoldable pub mark : Mark → ℕ → ℕ → Option Text → M Database K (ℕ × Call)
  mark m organization_id id reason =
      mutate (subject m)
        (λ calls now. update_where organization_id id (may_mark m) (set_mark m now reason) calls)
