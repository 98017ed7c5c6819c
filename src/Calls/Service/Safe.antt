-- ===== src/Calls/Service/Safe.antt =====
-- What the service asks of its peers, and of the calls table, makes guarded steps on it alone.
use monogo.Base.{ℕ, String, Text, Bool, true, false, if◌then◌else◌}
use monogo.Errors.{Error}
use monogo.Effects.{M}
use monogo.Calling.Egress.{OriginateRequest}
use monogo.Calling.Controller.{SwitchCommand, originate, send, hang_up, set_call_id}
use monogo.Calling.Controller.Quiet.{originate-Quiet, send-Quiet, hang_up-Quiet, set_call_id-Quiet}
use monogo.Routing.{InboundRequest, OutboundRequest, resolve_inbound, resolve_outbound}
use monogo.Routing.Quiet.{resolve_inbound-Quiet, resolve_outbound-Quiet}
use monogo.Calls.Store.{Database}
use monogo.Calls.Store.Safe.{Safe, safe_rules, Quiet-Safe, mark-Safe}
use monogo.Calls.Store.Queries.Safe.{get_call-Safe}
use monogo.Calls.Service.{Peers, PeersLaws, fail_call, service_get}

module _ {K : Type 0} where
  pub fail_call-Safe :
      {A : Type 0} (organization_id id : ℕ) (reason : String) (e : Error)
      → Safe (fail_call {K = K} {A = A} organization_id id reason e)
  unfolding fail_call
  fail_call-Safe organization_id id reason e = search (safe_rules, mark-Safe)

  pub service_get-Safe : (organization_id id : ℕ) → Safe (service_get {K = K} organization_id id)
  unfolding service_get
  service_get-Safe organization_id id = search (safe_rules, get_call-Safe)

  pub if-Safe :
      {A : Type 0} {m k : M Database K A} (b : Bool) → Safe m → Safe k → Safe (if b then m else k)
  if-Safe true h k = h
  if-Safe false h k = k

module _ {K : Type 0} (p : Peers K) (laws : PeersLaws p) where
  pub originate-Safe : (req : OriginateRequest) → Safe (originate p.library p.switch req)
  originate-Safe req =
      Quiet-Safe
        (originate-Quiet p.library p.switch laws.originate_channel-Quiet laws.command-Quiet req)

  pub send-Safe : (message : String) (c : SwitchCommand) → Safe (send p.library p.switch message c)
  send-Safe message c =
      Quiet-Safe
        (send-Quiet p.library p.switch laws.originate_channel-Quiet laws.command-Quiet message c)

  pub hang_up-Safe : (channel_id : Text) → Safe (hang_up p.library p.switch channel_id)
  hang_up-Safe channel_id =
      Quiet-Safe (
        hang_up-Quiet p.library p.switch laws.originate_channel-Quiet laws.command-Quiet channel_id)

  pub set_call_id-Safe :
      (channel_id : Text) (id : ℕ) → Safe (set_call_id p.library p.switch channel_id id)
  set_call_id-Safe channel_id id = Quiet-Safe (
      set_call_id-Quiet p.library p.switch laws.originate_channel-Quiet laws.command-Quiet
        channel_id id)

  pub resolve_inbound-Safe : (req : InboundRequest) → Safe (resolve_inbound p.queries req)
  resolve_inbound-Safe req = Quiet-Safe (
      resolve_inbound-Quiet p.queries laws.get_binding-Quiet laws.get_inbound_limits-Quiet
        laws.get_trunk-Quiet laws.list_endpoints-Quiet req)

  pub resolve_outbound-Safe : (req : OutboundRequest) → Safe (resolve_outbound p.queries req)
  resolve_outbound-Safe req = Quiet-Safe (
      resolve_outbound-Quiet p.queries laws.get_binding-Quiet laws.get_inbound_limits-Quiet
        laws.get_trunk-Quiet laws.list_endpoints-Quiet req)
