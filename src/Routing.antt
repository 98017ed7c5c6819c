-- ===== src/Routing.antt =====
-- server/internal/telephony/routing (service.go, repository.go, validation.go and policy.go with its
-- default policy): the trunk and the limits of an inbound call, the routes of an outbound one. The
-- queries read tables that the model does not hold; they are a parameter, `Queries`.
pub mod Quiet
use monogo.Base.{
  ℕ, ◌%◌, Bool, true, false, not, ◌&&◌, ◌||◌, List, [], ◌∷◌, Option, none, some, String, Text,
  codes, is_empty, text_eq, trim_space, ◌==◌, ltb, leb, if◌then◌else◌,
}
use monogo.Errors.{
  Error, is_error, no_rows, sentinel, plain, new_bad_request, new_not_found, new_internal,
}
use monogo.Effects.{Result, ok, err, M, ◌>>=◌, ◌>>◌, pure, fail, map_error, lift}
use monogo.Calling.Channels.{Limits}
use monogo.Calls.Model.{require, ◌and_then◌}
use monogo.Calls.Failover.{OutboundRoute}

pub record InboundRequest : Type 0 where
  pub organization_id : ℕ
  pub voice_agent_id : ℕ
  pub phone_number_id : ℕ
  pub voice_agent_binding_id : ℕ
  pub trunk_id : ℕ
  pub called_number : Text

pub record InboundDecision : Type 0 where
  pub organization_id : ℕ
  pub voice_agent_id : ℕ
  pub phone_number_id : ℕ
  pub voice_agent_binding_id : ℕ
  pub trunk_id : ℕ
  pub called_number : Text
  pub limits : Limits

pub record OutboundRequest : Type 0 where
  pub organization_id : ℕ
  pub trunk_id : Option ℕ
  pub destination : Text

-- The columns that the code reads of a binding, of a trunk and of an endpoint. A port below 1 is 0.
pub record Binding : Type 0 where
  pub voice_agent_id : ℕ
  pub phone_number_id : ℕ

pub record Trunk : Type 0 where
  pub id : ℕ
  pub status : Text
  pub direction : Text
  pub limits : Limits

pub record Endpoint : Type 0 where
  pub id : ℕ
  pub host : Text
  pub port : ℕ
  pub transport : Text
  pub health_status : Text

-- GetVoiceAgentBindingByID, GetInboundCallContext, GetTrunkByID and ListActiveOutboundTrunkEndpoints;
-- the id comes first, then the organization.
pub record Queries (D K : Type 0) : Type 0 where
  pub get_binding : ℕ → ℕ → M D K Binding
  pub get_inbound_limits : InboundRequest → M D K Limits
  pub get_trunk : ℕ → ℕ → M D K Trunk
  pub list_endpoints : ℕ → ℕ → M D K (List Endpoint)

unfoldable pub normalize_inbound_request : InboundRequest → InboundRequest
normalize_inbound_request req = record req { called_number = trim_space req.called_number }

-- `DefaultPolicy.ValidateInbound`.
unfoldable pub validate_inbound_request : InboundRequest → Result (Unit {0})
validate_inbound_request req =
    require (not (req.organization_id == 0)) "organization_id is required"
    and_then require (not (req.voice_agent_id == 0)) "voice_agent_id is required"
    and_then require (not (req.phone_number_id == 0)) "phone_number_id is required"
    and_then require (not (req.voice_agent_binding_id == 0)) "voice_agent_binding_id is required"
    and_then require (not (req.trunk_id == 0)) "trunk_id is required"
    and_then require (not (is_empty req.called_number)) "called_number is required"

unfoldable pub normalize_outbound_request : OutboundRequest → OutboundRequest
normalize_outbound_request req = record req { destination = trim_space req.destination }

abbrev is_given : Option ℕ → Bool
is_given none = true
is_given (some id) = not (id == 0)

unfoldable pub validate_outbound_request : OutboundRequest → Result (Unit {0})
validate_outbound_request req =
    require (not (req.organization_id == 0)) "organization_id is required"
    and_then require (is_given req.trunk_id) "trunk_id is invalid"
    and_then require (not (is_empty req.destination)) "destination is required"

unfoldable pub may_dial_out : Trunk → Bool
may_dial_out trunk =
    text_eq trunk.status (codes "active")
    && (text_eq trunk.direction (codes "outbound")
        || text_eq trunk.direction (codes "bidirectional"))

unfoldable pub is_unhealthy : Endpoint → Bool
is_unhealthy endpoint = text_eq endpoint.health_status (codes "unhealthy")

unfoldable pub route_of : Trunk → Endpoint → OutboundRoute
route_of trunk endpoint = record {
  trunk_id = trunk.id;
  trunk_endpoint_id = endpoint.id;
  host = endpoint.host;
  port = endpoint.port % 65536;
  transport = endpoint.transport;
  limits = trunk.limits;
}

-- One round of the loop, before the routes of the endpoints that follow.
add_route : Trunk → Endpoint → Result (List OutboundRoute) → Result (List OutboundRoute)
add_route trunk endpoint (ok routes) = ok (route_of trunk endpoint ∷ routes)
add_route trunk endpoint (err e) = err e

pub routes_of : Trunk → List Endpoint → Result (List OutboundRoute)
routes_of trunk [] = ok []
routes_of trunk (endpoint ∷ endpoints) =
    let rest = routes_of trunk endpoints in
    if is_unhealthy endpoint
    then rest
    else if ltb endpoint.port 1 || ltb 65535 endpoint.port
    then err (plain "invalid trunk endpoint port")
    else add_route trunk endpoint rest

unless_empty : Result (List OutboundRoute) → Result (List OutboundRoute)
unless_empty (ok []) = err (sentinel no_rows)
unless_empty (ok (route ∷ routes)) = ok (route ∷ routes)
unless_empty (err e) = err e

-- Past the two queries.
pub byoc_routes : Trunk → List Endpoint → Result (List OutboundRoute)
byoc_routes trunk endpoints = unless_empty (routes_of trunk endpoints)

route_error : String → String → Error → Error
route_error not_found failed e =
    if is_error no_rows e then new_not_found not_found else new_internal failed e

module _ {D K : Type 0} (queries : Queries D K) where
  open queries use {get_binding, get_inbound_limits, get_trunk, list_endpoints}

  get_inbound_context : InboundRequest → M D K Limits
  get_inbound_context req = do
    binding ← get_binding req.voice_agent_binding_id req.organization_id
    lift (
        if binding.voice_agent_id == req.voice_agent_id
          && binding.phone_number_id == req.phone_number_id
        then ok tt
        else err (sentinel no_rows))
    get_inbound_limits req

  resolve_byoc_outbound : ℕ → ℕ → M D K (List OutboundRoute)
  resolve_byoc_outbound organization_id trunk_id = do
    trunk ← get_trunk trunk_id organization_id
    lift (if may_dial_out trunk then ok tt else err (sentinel no_rows))
    endpoints ← list_endpoints trunk_id organization_id
    lift (byoc_routes trunk endpoints)

  decision_of : InboundRequest → Limits → InboundDecision
  decision_of req limits = record {
    organization_id = req.organization_id;
    voice_agent_id = req.voice_agent_id;
    phone_number_id = req.phone_number_id;
    voice_agent_binding_id = req.voice_agent_binding_id;
    trunk_id = req.trunk_id;
    called_number = req.called_number;
    limits = limits;
  }

  resolve_valid_inbound : InboundRequest → M D K InboundDecision
  resolve_valid_inbound req = do
    lift (validate_inbound_request req)
    limits ←
        map_error (route_error "no eligible inbound route" "resolve inbound route")
          (get_inbound_context req)
    pure (decision_of req limits)

  pub resolve_inbound : InboundRequest → M D K InboundDecision
  resolve_inbound req = resolve_valid_inbound (normalize_inbound_request req)

  routes_for : OutboundRequest → Option ℕ → M D K (List OutboundRoute)
  routes_for req none = fail (new_bad_request "trunk_id is required for outbound calls")
  routes_for req (some trunk_id) =
      map_error (route_error "no eligible outbound route" "resolve outbound route")
        (resolve_byoc_outbound req.organization_id trunk_id)

  resolve_valid_outbound : OutboundRequest → M D K (List OutboundRoute)
  resolve_valid_outbound req = do lift (validate_outbound_request req); routes_for req req.trunk_id

  pub resolve_outbound : OutboundRequest → M D K (List OutboundRoute)
  resolve_outbound req = resolve_valid_outbound (normalize_outbound_request req)
