-- ===== src/Calls/Consumer.antt =====
-- consumer.go of server/internal/telephony/calls: the events of the runtime, handed to the service.
-- `id` is the key that the server draws for a new row.
pub mod Admitted
mod Examples
use monogo.Base.{ℕ}
use monogo.Errors.{Error, wrapped}
use monogo.Effects.{M, ◌>>=◌, ◌>>◌, pure, map_error}
use monogo.Redis.{Redis}
use monogo.Calling.Translator.{LifecycleType, LifecycleEvent}
use monogo.Calling.Translator.Inbound.{InboundEvent}
use monogo.Calls.Model.{InboundAdmissionRequest, LifecycleEventType}
use monogo.Calls.Store.{Database}
use monogo.Calls.Lifecycle.{observe_lifecycle}
use monogo.Calls.Service.{Peers}
use monogo.Calls.Service.Inbound.{admit_inbound}

unfoldable pub admission_request : InboundEvent → InboundAdmissionRequest
admission_request event = record {
  channel_id = event.channel_id;
  sip_call_id = event.sip_call_id;
  organization_id = event.organization_id;
  voice_agent_id = event.voice_agent_id;
  phone_number_id = event.phone_number_id;
  voice_agent_binding_id = event.voice_agent_binding_id;
  trunk_id = event.trunk_id;
  from_uri = event.from_uri;
  to_uri = event.to_uri;
  occurred_at = event.occurred_at;
}

-- `LifecycleEventType(event.Type)`, between constants of the same words.
unfoldable pub event_type : LifecycleType → LifecycleEventType
event_type LifecycleType.initiated = LifecycleEventType.initiated
event_type LifecycleType.ringing = LifecycleEventType.ringing
event_type LifecycleType.answered = LifecycleEventType.answered
event_type LifecycleType.active = LifecycleEventType.active
event_type LifecycleType.held = LifecycleEventType.held
event_type LifecycleType.resumed = LifecycleEventType.resumed
event_type LifecycleType.completed = LifecycleEventType.completed
event_type LifecycleType.failed = LifecycleEventType.failed
event_type LifecycleType.cancelled = LifecycleEventType.cancelled

unfoldable pub observed_event : LifecycleEvent → monogo.Calls.Model.LifecycleEvent
unfolding event_type
observed_event event = record {
  call_id = event.call_id;
  channel_id = event.channel_id;
  sip_call_id = event.sip_call_id;
  type = event_type event.type;
  occurred_at = event.occurred_at;
  hangup_reason = event.hangup_reason;
}

module _ (r : Redis) (p : Peers r.Keyspace) where
  open r use {Keyspace}

  unfoldable pub handle_inbound : ℕ → InboundEvent → M Database Keyspace (Unit {0})
  unfolding admission_request
  handle_inbound id event =
      map_error (wrapped "admit inbound call")
        (admit_inbound r p id (admission_request event) >>= λ call. pure tt)

  unfoldable pub handle_lifecycle : LifecycleEvent → M Database Keyspace (Unit {0})
  unfolding observed_event
  handle_lifecycle event =
      map_error (wrapped "handle call lifecycle event") (observe_lifecycle r (observed_event event))
