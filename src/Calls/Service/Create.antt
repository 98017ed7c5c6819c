-- ===== src/Calls/Service/Create.antt =====
-- `Service.Create`: an outbound call, from its row to its channel. The metrics that the plan reports to
-- are left out; `id` is the key that the server draws.
pub mod Safe
use monogo.Base.{pos, ℕ, Bool, true, false, List, [], ◌∷◌, Option, none, some}
use monogo.Errors.{Error, originate_error, internal, capacity, new_internal, new_not_found}
use monogo.Effects.{
  World, Result, ok, err, M, ◌>>=◌, ◌>>◌, fail, ignore, map_error, rescue, lift, when,
}
use monogo.Redis.{Redis}
use monogo.Calling.Channels.{acquire, release, bind_channel}
use monogo.Calling.Egress.{OriginateRequest}
use monogo.Calling.Controller.{OriginateResult, originate, hang_up}
use monogo.Routing.{resolve_outbound}
use monogo.Calls.Model.{Call, validate_organization_id}
use monogo.Calls.Requests.{CreateRequest, normalize_create_request}
use monogo.Calls.Failover.{OutboundRoute, execute_route_plan}
use monogo.Calls.Store.{Database}
use monogo.Calls.Store.Queries.{create, set_route_attribution, get_call}
use monogo.Calls.Service.{Peers, fail_call}

originate_request : ℕ → CreateRequest → OutboundRoute → OriginateRequest
originate_request id req route = record {
  call_id = id;
  destination = req.to_uri;
  caller_id = req.from_uri;
  trunk_id = route.trunk_id;
  host = route.host;
  port = route.port;
  transport = route.transport;
  privacy = req.privacy;
  dtmf_mode = req.dtmf_mode;
  media_encryption = req.media_encryption;
  max_duration_seconds = pos 0;
}

abbrev has_no_route : List OutboundRoute → Bool
has_no_route [] = true
has_no_route (route ∷ routes) = false

module _ (r : Redis) (p : Peers r.Keyspace) where
  open r use {Keyspace, uuid_text}

  -- The closure that tries one route.
  try_route : ℕ → ℕ → CreateRequest → OutboundRoute → M Database Keyspace OriginateResult
  try_route organization_id id req route = do
    call ← map_error (originate_error internal 0) (
        set_route_attribution organization_id id (some route.trunk_id)
          (some route.trunk_endpoint_id))
    map_error (originate_error capacity 0) (acquire r route.trunk_id (uuid_text id) route.limits)
    rescue (originate p.library p.switch (originate_request id req route))
        λ e. do ignore (release r route.trunk_id (uuid_text id)); fail e

  -- An attempt that fails has no channel.
  attempted :
      Result OriginateResult × World Database Keyspace
      → OriginateResult × Option Error × World Database Keyspace
  attempted (ok result, w) = (result, none, w)
  attempted (err e, w) = (record { channel_id = [] }, some e, w)

  run_plan :
      ℕ
      → ℕ
      → CreateRequest
      → List OutboundRoute
      → M Database Keyspace (OriginateResult × OutboundRoute)
  run_plan organization_id id req routes w =
      let plan =
        execute_route_plan p.context_error (λ v. v.now)
          (λ route v. attempted (try_route organization_id id req route v)) routes w in
      (plan.returned, plan.state)

  bind_call_channel : ℕ → ℕ → OriginateResult × OutboundRoute → M Database Keyspace (Unit {0})
  bind_call_channel organization_id id placed = rescue (bind_channel r id placed.0.channel_id) λ e.
      do
        ignore (hang_up p.library p.switch placed.0.channel_id)
        ignore (release r placed.1.trunk_id (uuid_text id))
        fail_call organization_id id "channel_binding_failed" (new_internal "bind call channel" e)

  -- From the created row on.
  place_call : ℕ → ℕ → CreateRequest → M Database Keyspace (ℕ × Call)
  place_call organization_id id req = do
    routes ←
        rescue
          (resolve_outbound p.queries (record {
            organization_id = organization_id;
            trunk_id = req.trunk_id;
            destination = req.to_uri;
          }))
          (fail_call organization_id id "route_resolution_failed")
    when (has_no_route routes) (
        fail_call organization_id id "route_resolution_failed"
          (new_not_found "no eligible outbound route"))
    placed ←
        rescue (run_plan organization_id id req routes)
          (λ e. fail_call organization_id id "originate_failed" (new_internal "originate call" e))
    bind_call_channel organization_id id placed
    get_call organization_id id

  pub service_create : ℕ → ℕ → CreateRequest → M Database Keyspace (ℕ × Call)
  service_create id organization_id raw = do
    lift (validate_organization_id organization_id)
    req ← lift (normalize_create_request p.library.to_lower raw)
    call ← map_error (new_internal "create call") (create id organization_id req)
    place_call organization_id call.0 req
