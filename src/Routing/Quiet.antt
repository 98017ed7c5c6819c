-- ===== src/Routing/Quiet.antt =====
-- Routing leaves the database alone where its queries do.
use monogo.Base.{ℕ, refl, Option, none, some}
use monogo.Effects.Quiet.{Quiet, quiet_rules}
use monogo.Routing.{
  Queries, InboundRequest, OutboundRequest, get_inbound_context, resolve_byoc_outbound,
  resolve_valid_inbound, resolve_inbound, routes_for, resolve_valid_outbound, resolve_outbound,
}

module _ {D K : Type 0} (queries : Queries D K)
    (bindings : (id organization_id : ℕ) → Quiet (queries.get_binding id organization_id))
    (limits : (req : InboundRequest) → Quiet (queries.get_inbound_limits req))
    (trunks : (id organization_id : ℕ) → Quiet (queries.get_trunk id organization_id))
    (endpoints : (id organization_id : ℕ) → Quiet (queries.list_endpoints id organization_id)) where
  get_inbound_context-Quiet : (req : InboundRequest) → Quiet (get_inbound_context queries req)
  unfolding get_inbound_context
  get_inbound_context-Quiet req = search (quiet_rules, bindings, limits) depth 8

  pub resolve_inbound-Quiet : (req : InboundRequest) → Quiet (resolve_inbound queries req)
  unfolding resolve_inbound resolve_valid_inbound
  resolve_inbound-Quiet req = search (quiet_rules, get_inbound_context-Quiet) depth 8

  resolve_byoc_outbound-Quiet :
      (organization_id trunk_id : ℕ)
      → Quiet (resolve_byoc_outbound queries organization_id trunk_id)
  unfolding resolve_byoc_outbound
  resolve_byoc_outbound-Quiet organization_id trunk_id =
      search (quiet_rules, trunks, endpoints) depth 8

  routes_for-Quiet :
      (req : OutboundRequest) (trunk_id : Option ℕ) → Quiet (routes_for queries req trunk_id)
  unfolding routes_for
  routes_for-Quiet req none = record { run = λ w. refl }
  routes_for-Quiet req (some trunk_id) = search (quiet_rules, resolve_byoc_outbound-Quiet)

  pub resolve_outbound-Quiet : (req : OutboundRequest) → Quiet (resolve_outbound queries req)
  unfolding resolve_outbound resolve_valid_outbound
  resolve_outbound-Quiet req = search (quiet_rules, routes_for-Quiet)
