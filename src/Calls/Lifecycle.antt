-- ===== src/Calls/Lifecycle.antt =====
-- lifecycle.go of server/internal/telephony/calls: an event of the telephony runtime, applied to the
-- call that it names.
pub mod Safe
use monogo.Base.{
  ℕ, Bool, true, false, not, ◌&&◌, ◌||◌, Option, none, some, Text, is_empty, trim_space, ◌==◌,
  if◌then◌else◌,
}
use monogo.Errors.{
  Error, is_error, no_rows, new_bad_request, new_conflict, new_internal, new_service_unavailable,
}
use monogo.Effects.{
  World, Result, ok, err, M, ◌>>=◌, ◌>>◌, fail, pure, try, ignore, guard, when, when_some, remote,
  map_error,
}
use monogo.Redis.{Redis}
use monogo.Calling.Channels.{bind_channel, delete_channel, refresh, release}
use monogo.Calls.Model.{
  Direction, State, MediaState, LifecycleEventType, LifecycleEvent, Call, is_outbound,
  is_terminal_lifecycle, is_terminal_state, validate_ids, normalize_optional_reason, initiated,
  ringing, answered, active, held, resumed, completed, failed, cancelled, unsupported,
}
use monogo.Calls.Store.{
  Mark, Database, mark, mark_ringing, mark_answered, mark_active, mark_held, mark_resumed,
  mark_completed, mark_failed, mark_cancelled, is_initiating, is_held, may_bind_sip, set_sip,
  update_where, returned,
}
use monogo.Calls.Store.Queries.{write_returned}

-- GetCallLifecycleSnapshot.
pub record Snapshot : Type 0 where
  pub organization_id : ℕ
  pub trunk_id : Option ℕ
  pub direction : Direction
  pub state : State
  pub media_state : MediaState

unfoldable pub snapshot_of : Call → Snapshot
snapshot_of c = record {
  organization_id = c.organization_id;
  trunk_id = c.trunk_id;
  direction = c.direction;
  state = c.state;
  media_state = c.media_state;
}

abbrev is_active_state : State → Bool
is_active_state State.active = true
is_active_state _ = false

abbrev is_answered_state : State → Bool
is_answered_state State.answered = true
is_answered_state _ = false

unfoldable pub lifecycle_already_applied : Snapshot → LifecycleEventType → Bool
lifecycle_already_applied s initiated = true
lifecycle_already_applied s ringing = not (is_initiating s.state)
lifecycle_already_applied s answered =
    is_answered_state s.state || is_active_state s.state || is_terminal_state s.state
lifecycle_already_applied s active = is_active_state s.state || is_terminal_state s.state
lifecycle_already_applied s held = is_held s.media_state || is_terminal_state s.state
lifecycle_already_applied s resumed = not (is_held s.media_state) || is_terminal_state s.state
lifecycle_already_applied s completed = is_terminal_state s.state
lifecycle_already_applied s failed = is_terminal_state s.state
lifecycle_already_applied s cancelled = is_terminal_state s.state
lifecycle_already_applied s (unsupported name) = false

unfoldable pub translate_mutation_error : Error → Error
translate_mutation_error e =
    if is_error no_rows e
    then new_conflict "call state transition or route attribution is not allowed"
    else new_internal "update call" e

-- The `reason` argument of a mark: the marks that do not end the call have none.
reason_of : Mark → Option Text → Option Text
reason_of mark_completed reason = normalize_optional_reason reason
reason_of mark_failed reason = normalize_optional_reason reason
reason_of mark_cancelled reason = normalize_optional_reason reason
reason_of _ reason = none

bind_sip_error : Error → Error
bind_sip_error e =
    if is_error no_rows e
    then new_conflict "outbound SIP Call-ID conflicts with existing call identity"
    else new_internal "persist outbound SIP Call-ID" e

module _ {K : Type 0} where
  checked : Result (Unit {0}) → M Database K (Unit {0})
  checked (ok a) = pure a
  checked (err e) = fail e

  -- `Service.MarkRinging` and its seven siblings, with `transition`.
  pub service_mark : Mark → ℕ → ℕ → Option Text → M Database K (Unit {0})
  service_mark m organization_id id reason = do
    checked (validate_ids organization_id id)
    call ← map_error translate_mutation_error (mark m organization_id id (reason_of m reason))
    pure tt

  pub get_lifecycle_snapshot : ℕ → M Database K Snapshot
  get_lifecycle_snapshot id = do
    row ← remote (λ w. (w.database.calls id, w))
    call ← returned row
    pure (snapshot_of call)

  -- SetOutboundCallSIPCallID.
  set_outbound_call_sip : ℕ → ℕ → Text → World Database K → Option (ℕ × Call) × World Database K
  set_outbound_call_sip organization_id id sip w =
      write_returned
        (update_where organization_id id (may_bind_sip sip) (set_sip sip w.now) w.database.calls) w

  pub bind_outbound_sip_call_id : ℕ → ℕ → Text → M Database K (Unit {0})
  bind_outbound_sip_call_id organization_id id sip = do
    row ← remote (set_outbound_call_sip organization_id id sip)
    call ← returned row
    pure tt

  bind_sip : Snapshot → LifecycleEvent → M Database K (Unit {0})
  bind_sip s event =
      let sip = trim_space event.sip_call_id in
      when (is_outbound s.direction && not (is_empty sip))
        (map_error bind_sip_error (bind_outbound_sip_call_id s.organization_id event.call_id sip))

  -- The `switch` over the event's type.
  apply_event : Snapshot → LifecycleEvent → LifecycleEventType → M Database K (Unit {0})
  apply_event s event initiated = pure tt
  apply_event s event ringing = service_mark mark_ringing s.organization_id event.call_id none
  apply_event s event answered = service_mark mark_answered s.organization_id event.call_id none
  apply_event s event active = service_mark mark_active s.organization_id event.call_id none
  apply_event s event held = service_mark mark_held s.organization_id event.call_id none
  apply_event s event resumed = service_mark mark_resumed s.organization_id event.call_id none
  apply_event s event completed =
      service_mark mark_completed s.organization_id event.call_id event.hangup_reason
  apply_event s event failed =
      service_mark mark_failed s.organization_id event.call_id event.hangup_reason
  apply_event s event cancelled =
      service_mark mark_cancelled s.organization_id event.call_id event.hangup_reason
  apply_event s event (unsupported name) = fail (new_bad_request "unsupported call lifecycle event")

module _ (r : Redis) where
  open r use {Keyspace, uuid_text}

  -- What a terminal event frees; errors are dropped.
  clean_up : Snapshot → LifecycleEvent → M Database Keyspace (Unit {0})
  clean_up s event = do
    ignore (delete_channel r event.call_id)
    when_some s.trunk_id (λ trunk_id. ignore (release r trunk_id (uuid_text event.call_id)))

  refresh_lease : Snapshot → LifecycleEvent → M Database Keyspace (Unit {0})
  refresh_lease s event = when_some s.trunk_id (λ trunk_id.
      map_error (new_service_unavailable "refresh trunk call lease")
        (refresh r trunk_id event.call_id))

  -- From the snapshot on.
  apply_lifecycle : LifecycleEvent → Snapshot → M Database Keyspace (Unit {0})
  apply_lifecycle event s = do
    bind_sip s event
    when (not (is_terminal_lifecycle event.type)) (refresh_lease s event)
    when (not (lifecycle_already_applied s event.type)) (apply_event s event event.type)
    when (is_terminal_lifecycle event.type) (clean_up s event)

  with_snapshot : LifecycleEvent → Result Snapshot → M Database Keyspace (Unit {0})
  with_snapshot event (ok s) = apply_lifecycle event s
  with_snapshot event (err e) =
      if is_error no_rows e then pure tt else fail (new_internal "resolve lifecycle call" e)

  pub observe_lifecycle : LifecycleEvent → M Database Keyspace (Unit {0})
  observe_lifecycle event = do
    guard (not (event.call_id == 0)) (new_bad_request "call lifecycle event requires call id")
    when (not (is_empty event.channel_id) && not (is_terminal_lifecycle event.type)) (
        map_error (new_internal "bind call channel")
          (bind_channel r event.call_id event.channel_id))
    found ← try (get_lifecycle_snapshot event.call_id)
    with_snapshot event found
