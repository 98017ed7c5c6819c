-- ===== src/Calls/Service/Control.antt =====
-- The control operations of service.go: what a client may do with a call, by its state.
pub mod Safe
pub mod Malformed
pub mod Performed
use monogo.Base.{ℕ, Bool, true, false, not, ◌||◌, List, [], ◌∷◌, String, Text, if◌then◌else◌}
use monogo.Errors.{Error, is_error, channel_unavailable, new_conflict, new_internal}
use monogo.Effects.{World, Result, M, ◌>>=◌, ◌>>◌, pure, fail, guard, map_error, lift}
use monogo.Redis.{Redis}
use monogo.Calling.Channels.{get_channel}
use monogo.Calling.Controller.{
  SwitchCommand, answer, hold, unhold, stop_audio, transfer, play_audio, send_dtmf, record_audio,
  send, hang_up,
}
use monogo.Calls.Model.{State, MediaState, Call, is_terminal_state, initiating, ringing, answered}
use monogo.Calls.Requests.{RecordActionRequest, normalize_text, normalize_record}
use monogo.Calls.Store.{Database, is_connected, is_held}
use monogo.Calls.Service.{Peers, service_get}

abbrev pub same_state : State → State → Bool
same_state initiating initiating = true
same_state ringing ringing = true
same_state answered answered = true
same_state State.active State.active = true
same_state State.completed State.completed = true
same_state State.failed State.failed = true
same_state State.cancelled State.cancelled = true
same_state _ _ = false

abbrev pub is_one_of : List State → State → Bool
is_one_of [] state = false
is_one_of (s ∷ states) state = same_state state s || is_one_of states state

-- The operations, with their requests.
pub data Operation : Type 0 where
  answer_call hangup_call hold_call resume_call stop_playback : Operation
  transfer_call play_file dial_digits : Text → Operation
  record_call : RecordActionRequest → Operation

channel_error : Error → Error
channel_error e =
    if is_error channel_unavailable e
    then new_conflict "call has no active media channel"
    else new_internal "resolve call channel" e

module _ (r : Redis) (p : Peers r.Keyspace) where
  open r use {Keyspace}

  pub control_context : ℕ → ℕ → M Database Keyspace (Call × Text)
  control_context organization_id id = do
    row ← service_get organization_id id
    channel_id ← map_error channel_error (get_channel r id)
    pure (row.1, channel_id)

  pub control :
      ℕ → ℕ → List State → (Text → M Database Keyspace (Unit {0})) → M Database Keyspace (Unit {0})
  control organization_id id allowed fn = do
    found ← control_context organization_id id
    guard (is_one_of allowed found.0.state)
        (new_conflict "call control is not allowed in the current state")
    map_error (new_internal "control call") (fn found.1)

  abbrev sent : String → SwitchCommand → M Database Keyspace (Unit {0})
  sent message c = send p.library p.switch message c

  answer_op : ℕ → ℕ → M Database Keyspace (Unit {0})
  answer_op organization_id id =
      control organization_id id (initiating ∷ ringing ∷ [])
        (λ channel_id. sent "answer call" (answer channel_id))

  connected_states : List State
  connected_states = answered ∷ State.active ∷ []

  hangup_found : Call × Text → M Database Keyspace (Unit {0})
  hangup_found (call, channel_id) =
      if is_terminal_state call.state
      then pure tt
      else map_error (new_internal "hangup call") (hang_up p.library p.switch channel_id)

  hangup_op : ℕ → ℕ → M Database Keyspace (Unit {0})
  hangup_op organization_id id = do found ← control_context organization_id id; hangup_found found

  transfer_op : ℕ → ℕ → Text → M Database Keyspace (Unit {0})
  transfer_op organization_id id raw = do
    destination ← lift (normalize_text "destination is required" raw)
    control organization_id id connected_states
        (λ channel_id. sent "transfer call" (transfer channel_id destination))

  hold_found : Call × Text → M Database Keyspace (Unit {0})
  hold_found (call, channel_id) = do
    guard (is_connected call.state) (new_conflict "call cannot be held in its current state")
    if is_held call.media_state
        then pure tt
        else map_error (new_internal "hold call") (sent "hold call" (hold channel_id))

  hold_op : ℕ → ℕ → M Database Keyspace (Unit {0})
  hold_op organization_id id = do found ← control_context organization_id id; hold_found found

  resume_found : Call × Text → M Database Keyspace (Unit {0})
  resume_found (call, channel_id) = do
    guard (is_connected call.state) (new_conflict "call cannot be resumed in its current state")
    if not (is_held call.media_state)
        then pure tt
        else map_error (new_internal "resume call") (sent "resume call" (unhold channel_id))

  resume_op : ℕ → ℕ → M Database Keyspace (Unit {0})
  resume_op organization_id id = do found ← control_context organization_id id; resume_found found

  play_op : ℕ → ℕ → Text → M Database Keyspace (Unit {0})
  play_op organization_id id raw = do
    path ← lift (normalize_text "path is required" raw)
    control organization_id id connected_states
        (λ channel_id. sent "play audio" (play_audio channel_id path))

  stop_op : ℕ → ℕ → M Database Keyspace (Unit {0})
  stop_op organization_id id =
      control organization_id id connected_states
        (λ channel_id. sent "stop audio" (stop_audio channel_id))

  record_op : ℕ → ℕ → RecordActionRequest → M Database Keyspace (Unit {0})
  record_op organization_id id raw = do
    req ← lift (normalize_record p.library.to_lower raw)
    control organization_id id connected_states
        (λ channel_id. sent "record call" (record_audio channel_id req.path req.action))

  dtmf_op : ℕ → ℕ → Text → M Database Keyspace (Unit {0})
  dtmf_op organization_id id raw = do
    digits ← lift (normalize_text "digits are required" raw)
    control organization_id id connected_states
        (λ channel_id. sent "send DTMF" (send_dtmf channel_id digits))

  -- The operation that a handler calls.
  pub perform : Operation → ℕ → ℕ → M Database Keyspace (Unit {0})
  perform answer_call = answer_op
  perform hangup_call = hangup_op
  perform hold_call = hold_op
  perform resume_call = resume_op
  perform stop_playback = stop_op
  perform (transfer_call destination) =
      λ organization_id id. transfer_op organization_id id destination
  perform (play_file path) = λ organization_id id. play_op organization_id id path
  perform (dial_digits digits) = λ organization_id id. dtmf_op organization_id id digits
  perform (record_call req) = λ organization_id id. record_op organization_id id req
