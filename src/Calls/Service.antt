-- ===== src/Calls/Service.antt =====
-- service.go of server/internal/telephony/calls: `Peers` is what the service talks to beside the calls
-- table and Redis.
pub mod Safe
pub mod Create
pub mod Inbound
pub mod Control
pub mod Run
mod Examples
use monogo.Base.{ℕ, Option, String, Text, codes, some}
use monogo.Errors.{Error, is_error, no_rows, new_not_found, new_internal}
use monogo.Effects.{World, M, ◌>>=◌, ◌>>◌, fail, ignore, map_error, lift}
use monogo.Effects.Quiet.{Quiet}
use monogo.Base.{if◌then◌else◌}
use monogo.Calling.Egress.{Library, SwitchOriginate}
use monogo.Calling.Controller.{Switch, SwitchCommand}
use monogo.Routing.{Queries, InboundRequest}
use monogo.Calls.Model.{Call, validate_ids}
use monogo.Calls.Store.{Database, Calls, mark, mark_failed}
use monogo.Calls.Store.Queries.{get_call}

-- `index` is the table's index on `sip_call_id`; `context_error` is `ctx.Err()`.
pub record Peers (K : Type 0) : Type 0 where
  pub library : Library
  pub switch : Switch Database K
  pub queries : Queries Database K
  pub index : Calls → Text → Option ℕ
  pub context_error : World Database K → Option Error

-- FreeSWITCH and the tables of the routing queries have nothing to do with the calls and their outbox.
pub record PeersLaws {K : Type 0} (p : Peers K) : Type 0 where
  pub originate_channel-Quiet : (req : SwitchOriginate) → Quiet (p.switch.originate_channel req)
  pub command-Quiet : (c : SwitchCommand) → Quiet (p.switch.command c)
  pub get_binding-Quiet :
      (id organization_id : ℕ) → Quiet (p.queries.get_binding id organization_id)
  pub get_inbound_limits-Quiet : (req : InboundRequest) → Quiet (p.queries.get_inbound_limits req)
  pub get_trunk-Quiet : (id organization_id : ℕ) → Quiet (p.queries.get_trunk id organization_id)
  pub list_endpoints-Quiet :
      (id organization_id : ℕ) → Quiet (p.queries.list_endpoints id organization_id)

translate_read_error : Error → Error
translate_read_error e =
    if is_error no_rows e then new_not_found "call not found" else new_internal "get call" e

module _ {K : Type 0} where
  -- `_, _ = s.repo.MarkFailed(…)` before the error is returned.
  pub fail_call : {A : Type 0} → ℕ → ℕ → String → Error → M Database K A
  fail_call organization_id id reason e = do
    ignore (mark mark_failed organization_id id (some (codes reason)))
    fail e

  -- `Service.Get`.
  pub service_get : ℕ → ℕ → M Database K (ℕ × Call)
  service_get organization_id id = do
    lift (validate_ids organization_id id)
    map_error translate_read_error (get_call organization_id id)
