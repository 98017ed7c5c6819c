-- ===== src/Calls/Model.antt =====
-- model.go and validation.go of server/internal/telephony/calls. A uuid is a number, 0 for uuid.Nil;
-- a time of a row is a number of milliseconds, `none` for NULL, and one of an event a number of
-- microseconds. The columns `direction`, `state` and
-- `media_state` hold the values that their CHECK constraints in migrations/018_create_calls.sql allow.
use monogo.Base.{
  ℤ, ℕ, Bool, true, false, not, Option, none, some, String, Text, is_empty, trim_space, ◌==◌,
  if◌then◌else◌,
}
use monogo.Errors.{new_bad_request}
use monogo.Effects.{Result, ok, err}

pub data Direction : Type 0 where
  inbound outbound : Direction

pub data State : Type 0 where
  initiating ringing answered active completed failed cancelled : State

pub data MediaState : Type 0 where
  active held : MediaState

-- `unsupported` is a value of the Go string type that is none of the constants.
pub data LifecycleEventType : Type 0 where
  initiated ringing answered active held resumed completed failed cancelled : LifecycleEventType
  unsupported : String → LifecycleEventType

pub record LifecycleEvent : Type 0 where
  pub call_id : ℕ
  pub channel_id : Text
  pub sip_call_id : Text
  pub type : LifecycleEventType
  pub occurred_at : ℤ
  pub hangup_reason : Option Text

pub record InboundAdmissionRequest : Type 0 where
  pub channel_id : Text
  pub sip_call_id : Text
  pub organization_id : ℕ
  pub voice_agent_id : ℕ
  pub phone_number_id : ℕ
  pub voice_agent_binding_id : ℕ
  pub trunk_id : ℕ
  pub from_uri : Text
  pub to_uri : Text
  pub occurred_at : ℤ

-- A row of the table, past its primary key `id`, under which the table holds it.
pub record Call : Type 0 where
  pub organization_id : ℕ
  pub voice_agent_id : Option ℕ
  pub trunk_id : Option ℕ
  pub trunk_endpoint_id : Option ℕ
  pub direction : Direction
  pub state : State
  pub media_state : MediaState
  pub from_uri : Text
  pub to_uri : Text
  pub sip_call_id : Option Text
  pub started_at : Option ℕ
  pub answered_at : Option ℕ
  pub ended_at : Option ℕ
  pub hangup_reason : Option Text
  pub created_at : ℕ
  pub updated_at : ℕ

abbrev pub is_outbound : Direction → Bool
is_outbound outbound = true
is_outbound inbound = false

unfoldable pub is_terminal_lifecycle : LifecycleEventType → Bool
is_terminal_lifecycle completed = true
is_terminal_lifecycle failed = true
is_terminal_lifecycle cancelled = true
is_terminal_lifecycle _ = false

unfoldable pub is_terminal_state : State → Bool
is_terminal_state completed = true
is_terminal_state failed = true
is_terminal_state cancelled = true
is_terminal_state _ = false

abbrev pub require : Bool → String → Result (Unit {0})
require true message = ok tt
require false message = err (new_bad_request message)

infixl 5 ◌and_then◌
abbrev pub ◌and_then◌ : Result (Unit {0}) → Result (Unit {0}) → Result (Unit {0})
ok a and_then r = r
err e and_then r = err e

unfoldable pub validate_organization_id : ℕ → Result (Unit {0})
validate_organization_id id = require (not (id == 0)) "organization_id is required"

unfoldable pub validate_call_id : ℕ → Result (Unit {0})
validate_call_id id = require (not (id == 0)) "call id is required"

unfoldable pub validate_ids : ℕ → ℕ → Result (Unit {0})
unfolding validate_organization_id validate_call_id
validate_ids organization_id call_id =
    validate_organization_id organization_id and_then validate_call_id call_id

unfoldable pub normalize_optional_reason : Option Text → Option Text
normalize_optional_reason none = none
normalize_optional_reason (some reason) =
    let value = trim_space reason in if is_empty value then none else some value
