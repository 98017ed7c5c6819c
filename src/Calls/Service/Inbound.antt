-- ===== src/Calls/Service/Inbound.antt =====
-- `Service.AdmitInbound`: an inbound call that the SIP router hands over, admitted once for each SIP
-- Call-ID. `id` is the key that the server draws for a new row.
pub mod Safe
pub mod Attribution
use monogo.Base.{
  ℕ, Bool, true, false, not, ◌&&◌, ◌||◌, Option, none, some, String, Text, codes, text_eq, ◌==◌,
  if◌then◌else◌,
}
use monogo.Errors.{
  Error, is_error, no_rows, admission_cps, admission_concurrent, joined, new_conflict, new_internal,
  new_service_unavailable, new_too_many_requests,
}
use monogo.Effects.{
  World, Result, ok, err, M, ◌>>=◌, ◌>>◌, pure, fail, try, ignore, map_error, rescue, lift, when,
  when_some,
}
use monogo.Redis.{Redis}
use monogo.Calling.Channels.{acquire, bind, release, refresh, bind_channel, delete_channel}
use monogo.Calling.Controller.{hang_up, set_call_id}
use monogo.Routing.{InboundRequest, InboundDecision, resolve_inbound}
use monogo.Calls.Model.{
  Call, InboundAdmissionRequest, is_outbound, is_terminal_state, require, ◌and_then◌,
}
use monogo.Calls.Requests.{validate_inbound_admission}
use monogo.Calls.Store.{Database, mark, mark_failed}
use monogo.Calls.Store.Queries.{create_inbound, set_route_attribution, get_by_sip_call_id}
use monogo.Calls.Service.{Peers}

abbrev is_id : Option ℕ → ℕ → Bool
is_id none id = false
is_id (some a) id = a == id

-- An attribution that is there is that of the request.
abbrev may_be_id : Option ℕ → ℕ → Bool
may_be_id none id = true
may_be_id (some a) id = a == id

conflict_unless : Bool → String → Result (Unit {0})
conflict_unless true message = ok tt
conflict_unless false message = err (new_conflict message)

pub validate_existing_inbound : Call → InboundAdmissionRequest → Result (Unit {0})
unfolding conflict_unless
validate_existing_inbound call req =
    conflict_unless
      (not (is_outbound call.direction)
        && call.organization_id == req.organization_id
        && is_id call.voice_agent_id req.voice_agent_id
        && text_eq call.to_uri req.to_uri)
      "SIP Call-ID is already associated with a different call"
    and_then conflict_unless (may_be_id call.trunk_id req.trunk_id)
        "SIP Call-ID trunk attribution does not match"
    and_then conflict_unless (not (is_terminal_state call.state))
        "inbound SIP call is already terminal"

pub admission_error : Error → Error
admission_error e =
    if is_error admission_cps e
    then new_too_many_requests "trunk CPS limit exceeded"
    else if is_error admission_concurrent e
    then new_too_many_requests "trunk concurrent call limit exceeded"
    else new_service_unavailable "trunk admission service unavailable" e

inbound_request : InboundAdmissionRequest → InboundRequest
inbound_request req = record {
  organization_id = req.organization_id;
  voice_agent_id = req.voice_agent_id;
  phone_number_id = req.phone_number_id;
  voice_agent_binding_id = req.voice_agent_binding_id;
  trunk_id = req.trunk_id;
  called_number = req.to_uri;
}

module _ (r : Redis) (p : Peers r.Keyspace) where
  open r use {Keyspace, uuid_text}

  abbrev with_hangup : Error → Result (Unit {0}) → Error
  with_hangup cause (ok u) = cause
  with_hangup cause (err e) = joined cause e

  reject_inbound : {A : Type 0} → Text → Error → M Database Keyspace A
  reject_inbound channel_id cause = do
    hung_up ← try (hang_up p.library p.switch channel_id)
    fail (with_hangup cause hung_up)

  -- By the trunk that the row has.
  ensured : ℕ × Call → InboundAdmissionRequest → Option ℕ → M Database Keyspace (ℕ × Call)
  ensured existing req (some trunk_id) = pure existing
  ensured existing req none =
      map_error (new_internal "set inbound route attribution")
        (set_route_attribution req.organization_id existing.0 (some req.trunk_id) none)

  ensure_inbound_attribution : ℕ × Call → InboundAdmissionRequest → M Database Keyspace (ℕ × Call)
  ensure_inbound_attribution existing req = ensured existing req existing.1.trunk_id

  bind_inbound_channel : ℕ → Text → M Database Keyspace (Unit {0})
  bind_inbound_channel id channel_id = do
    map_error (new_internal "bind inbound call channel") (bind_channel r id channel_id)
    rescue (set_call_id p.library p.switch channel_id id) λ e. do
      ignore (delete_channel r id)
      fail (new_internal "correlate inbound FreeSWITCH channel" e)

  -- A row that the SIP Call-ID has already. `AdmitInbound` has these lines twice.
  pub reuse_inbound : ℕ × Call → InboundAdmissionRequest → M Database Keyspace (ℕ × Call)
  reuse_inbound existing req = do
    lift (validate_existing_inbound existing.1 req)
    call ← ensure_inbound_attribution existing req
    when_some call.1.trunk_id (λ trunk_id.
        map_error (new_service_unavailable "refresh inbound admission lease")
          (refresh r trunk_id call.0))
    bind_inbound_channel call.0 req.channel_id
    pure call

  -- Where CreateInbound fails: another admission may have made the row.
  raced_inbound :
      ℕ → InboundAdmissionRequest → Error → Result (ℕ × Call) → M Database Keyspace (ℕ × Call)
  raced_inbound trunk_id req e (ok existing) = do
    when (not (text_eq (uuid_text existing.0) req.channel_id))
        (ignore (release r trunk_id req.channel_id))
    reuse_inbound existing req
  raced_inbound trunk_id req e (err read_error) = do
    ignore (release r trunk_id req.channel_id)
    fail (new_internal "create inbound call" e)

  -- `call, err = s.repo.SetRouteAttribution(…)` puts the zero row into `call` where it fails, whose id
  -- is the one that MarkFailed gets.
  unattributed : ℕ → InboundAdmissionRequest → Error → M Database Keyspace (ℕ × Call)
  unattributed trunk_id req e = do
    ignore (release r trunk_id req.channel_id)
    ignore (mark mark_failed req.organization_id 0 (some (codes "inbound_attribution_failed")))
    fail (new_internal "set inbound route attribution" e)

  pub attribute_inbound : ℕ → ℕ → InboundAdmissionRequest → M Database Keyspace (ℕ × Call)
  attribute_inbound trunk_id id req =
      rescue (set_route_attribution req.organization_id id (some req.trunk_id) none)
        (unattributed trunk_id req)

  bind_inbound_lease : ℕ → ℕ → InboundAdmissionRequest → M Database Keyspace (Unit {0})
  bind_inbound_lease trunk_id id req = rescue (bind r trunk_id req.channel_id id) λ e. do
    ignore
        (mark mark_failed req.organization_id id (some (codes "inbound_admission_binding_failed")))
    ignore (release r trunk_id req.channel_id)
    fail (new_internal "bind inbound admission lease" e)

  bind_new_channel : ℕ → ℕ → InboundAdmissionRequest → M Database Keyspace (Unit {0})
  bind_new_channel trunk_id id req = rescue (bind_inbound_channel id req.channel_id) λ e. do
    ignore (release r trunk_id (uuid_text id))
    ignore (mark mark_failed req.organization_id id (some (codes "inbound_channel_binding_failed")))
    fail e

  -- From the outcome of CreateInbound on.
  after_create : ℕ → InboundAdmissionRequest → Result (ℕ × Call) → M Database Keyspace (ℕ × Call)
  after_create trunk_id req (err e) = do
    existing ← try (get_by_sip_call_id p.index req.sip_call_id)
    raced_inbound trunk_id req e existing
  after_create trunk_id req (ok created) = do
    call ← attribute_inbound trunk_id created.0 req
    bind_inbound_lease trunk_id call.0 req
    bind_new_channel trunk_id call.0 req
    pure call

  admit_new : ℕ → InboundAdmissionRequest → M Database Keyspace (ℕ × Call)
  admit_new id req = do
    decision ← resolve_inbound p.queries (inbound_request req)
    map_error admission_error (acquire r decision.trunk_id req.channel_id decision.limits)
    created ← try (create_inbound id req)
    after_create decision.trunk_id req created

  admit_found : ℕ → InboundAdmissionRequest → Result (ℕ × Call) → M Database Keyspace (ℕ × Call)
  admit_found id req (ok existing) = reuse_inbound existing req
  admit_found id req (err e) =
      if is_error no_rows e
      then admit_new id req
      else fail (new_internal "lookup inbound SIP call" e)

  -- Every error past the validation hangs the channel up.
  pub admit_inbound : ℕ → InboundAdmissionRequest → M Database Keyspace (ℕ × Call)
  admit_inbound id req = do
    lift (validate_inbound_admission req)
    found ← try (get_by_sip_call_id p.index req.sip_call_id)
    rescue (admit_found id req found) (reject_inbound req.channel_id)
