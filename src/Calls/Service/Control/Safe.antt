-- ===== src/Calls/Service/Control/Safe.antt =====
-- The control operations leave the calls and their events as they are.
use monogo.Base.{ℕ, List, Text}
use monogo.Effects.{M}
use monogo.Redis.{Redis}
use monogo.Calling.Channels.Quiet.{get_channel-Quiet}
use monogo.Calls.Model.{State, Call}
use monogo.Calls.Store.{Database}
use monogo.Calls.Store.Safe.{Safe, safe_rules, Quiet-Safe}
use monogo.Calls.Service.{Peers, PeersLaws}
use monogo.Calls.Service.Safe.{service_get-Safe, send-Safe, hang_up-Safe, if-Safe}
use monogo.Calls.Service.Control.{
  Operation, answer_call, hangup_call, hold_call, resume_call, stop_playback, transfer_call,
  play_file, dial_digits, record_call, perform, control_context, control, hangup_found, hold_found,
  resume_found, answer_op, hangup_op, hold_op, resume_op, stop_op, transfer_op, play_op, dtmf_op,
  record_op,
}

module _ (r : Redis) (p : Peers r.Keyspace) (laws : PeersLaws p) where
  control_context-Safe : (organization_id id : ℕ) → Safe (control_context r p organization_id id)
  unfolding control_context
  control_context-Safe organization_id id =
      search (safe_rules, service_get-Safe, Quiet-Safe, get_channel-Quiet) depth 8

  control-Safe :
      (organization_id id : ℕ) (allowed : List State) (fn : Text → M Database r.Keyspace (Unit {0}))
      → ((channel_id : Text) → Safe (fn channel_id))
      → Safe (control r p organization_id id allowed fn)
  unfolding control
  control-Safe organization_id id allowed fn h =
      search (safe_rules, control_context-Safe, h) depth 8

  found-Safe : (found : Call × Text) → Safe (hangup_found r p found)
  unfolding hangup_found
  found-Safe found = search (safe_rules, if-Safe, hang_up-Safe p laws) depth 8

  hold_found-Safe : (found : Call × Text) → Safe (hold_found r p found)
  unfolding hold_found
  hold_found-Safe found = search (safe_rules, if-Safe, send-Safe p laws) depth 8

  resume_found-Safe : (found : Call × Text) → Safe (resume_found r p found)
  unfolding resume_found
  resume_found-Safe found = search (safe_rules, if-Safe, send-Safe p laws) depth 8

  pub perform-Safe :
      (operation : Operation) (organization_id id : ℕ)
      → Safe (perform r p operation organization_id id)
  unfolding perform answer_op hangup_op hold_op resume_op stop_op transfer_op play_op dtmf_op
      record_op
  perform-Safe answer_call organization_id id =
      control-Safe _ _ _ _ (λ channel_id. send-Safe p laws _ _)
  perform-Safe hangup_call organization_id id =
      search (safe_rules, control_context-Safe, found-Safe)
  perform-Safe hold_call organization_id id =
      search (safe_rules, control_context-Safe, hold_found-Safe)
  perform-Safe resume_call organization_id id =
      search (safe_rules, control_context-Safe, resume_found-Safe)
  perform-Safe stop_playback organization_id id =
      control-Safe _ _ _ _ (λ channel_id. send-Safe p laws _ _)
  perform-Safe (transfer_call raw) organization_id id =
      search (safe_rules, control-Safe, send-Safe p laws)
  perform-Safe (play_file raw) organization_id id =
      search (safe_rules, control-Safe, send-Safe p laws)
  perform-Safe (dial_digits raw) organization_id id =
      search (safe_rules, control-Safe, send-Safe p laws)
  perform-Safe (record_call raw) organization_id id =
      search (safe_rules, control-Safe, send-Safe p laws)
