-- ===== src/Calls/Service/Create/Safe.antt =====
-- Placing an outbound call makes guarded steps on the database, and nothing else.
use monogo.Base.{ℕ, List}
use monogo.Effects.{World, Result, ok, err}
use monogo.Redis.{Redis}
use monogo.Calling.Channels.Quiet.{acquire-Quiet, release-Quiet, bind_channel-Quiet}
use monogo.Calling.Controller.{OriginateResult}
use monogo.Calls.Requests.{CreateRequest}
use monogo.Calls.Failover.{OutboundRoute}
use monogo.Calls.Failover.Invariant.{execute_route_plan-keeps}
use monogo.Calls.Store.{Database}
use monogo.Calls.Store.Steps.{Reach, here}
use monogo.Calls.Store.Safe.{Safe, safe_rules, Quiet-Safe, Reach-trans}
use monogo.Calls.Store.Queries.Safe.{create-Safe, set_route_attribution-Safe, get_call-Safe}
use monogo.Calls.Service.{Peers, PeersLaws}
use monogo.Calls.Service.Safe.{fail_call-Safe, originate-Safe, hang_up-Safe, resolve_outbound-Safe}
use monogo.Calls.Service.Create.{
  try_route, attempted, run_plan, bind_call_channel, place_call, service_create,
}

module _ (r : Redis) (p : Peers r.Keyspace) (laws : PeersLaws p) where
  try_route-Safe :
      (organization_id id : ℕ) (req : CreateRequest) (route : OutboundRoute)
      → Safe (try_route r p organization_id id req route)
  unfolding try_route
  try_route-Safe organization_id id req route =
      search
        (
          safe_rules,
          set_route_attribution-Safe,
          Quiet-Safe,
          acquire-Quiet,
          release-Quiet,
          originate-Safe p laws,
        )
        depth 8

  attempted-Reach :
      (w : World Database r.Keyspace) (a : Result OriginateResult × World Database r.Keyspace)
      → Reach w.database a.1.database
      → Reach w.database (attempted r p a).2.database
  unfolding attempted
  attempted-Reach w (ok result, v) h = h
  attempted-Reach w (err e, v) h = h

  run_plan-Safe :
      (organization_id id : ℕ) (req : CreateRequest) (routes : List OutboundRoute)
      → Safe (run_plan r p organization_id id req routes)
  unfolding run_plan
  run_plan-Safe organization_id id req routes = record {
    run = λ w.
        execute_route_plan-keeps p.context_error (λ v. v.now) _ (λ v. Reach w.database v.database)
          (λ route v h.
            Reach-trans h
              (attempted-Reach v _ ((try_route-Safe organization_id id req route).run v)))
          routes w here;
  }

  bind_call_channel-Safe :
      (organization_id id : ℕ) (placed : OriginateResult × OutboundRoute)
      → Safe (bind_call_channel r p organization_id id placed)
  unfolding bind_call_channel
  bind_call_channel-Safe organization_id id placed =
      search
        (
          safe_rules,
          Quiet-Safe,
          bind_channel-Quiet,
          release-Quiet,
          hang_up-Safe p laws,
          fail_call-Safe,
        )
        depth 8

  place_call-Safe :
      (organization_id id : ℕ) (req : CreateRequest) → Safe (place_call r p organization_id id req)
  unfolding place_call
  place_call-Safe organization_id id req =
      search
        (
          safe_rules,
          resolve_outbound-Safe p laws,
          fail_call-Safe,
          run_plan-Safe,
          bind_call_channel-Safe,
          get_call-Safe,
        )
        depth 8

  pub service_create-Safe :
      (id organization_id : ℕ) (req : CreateRequest)
      → Safe (service_create r p id organization_id req)
  unfolding service_create
  service_create-Safe id organization_id req =
      search (safe_rules, create-Safe, place_call-Safe) depth 8
