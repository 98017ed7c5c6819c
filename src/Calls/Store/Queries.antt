-- ===== src/Calls/Store/Queries.antt =====
-- CreateCall, SetCallRouteAttribution and the reads of server/internal/database/queries/calls.sql, with
-- the methods of repository.go that run them. The server draws the primary key of a new row: the key is
-- an argument here. A statement that a constraint or an index of the table refuses is a call of the
-- server that is lost.
pub mod Safe
use monogo.Base.{ℕ, Bool, true, false, Option, none, some, Text, text_eq, ◌==◌, if◌then◌else◌}
use monogo.Errors.{Error, is_error, sentinel, no_rows, fault}
use monogo.Effects.{World, M, ◌>>=◌, remote, map_error}
use monogo.Calls.Model.{
  Direction, State, MediaState, Call, InboundAdmissionRequest, initiating, ringing, inbound,
}
use monogo.Calls.Requests.{CreateRequest}
use monogo.Calls.Store.{Database, Calls, mutate, update_where, write_row, returned}

-- SetCallRouteAttribution, past the identity of the row.
unfoldable pub set_route : Option ℕ → Option ℕ → ℕ → Call → Call
set_route trunk_id trunk_endpoint_id now c = record c {
  trunk_id = trunk_id;
  trunk_endpoint_id = trunk_endpoint_id;
  updated_at = now;
}

pub record CreateCallParams : Type 0 where
  pub organization_id : ℕ
  pub voice_agent_id : Option ℕ
  pub direction : Direction
  pub state : Option State
  pub from_uri : Text
  pub to_uri : Text
  pub sip_call_id : Option Text

-- `COALESCE(state, 'initiating')`.
unfoldable pub initial_state : Option State → State
initial_state none = initiating
initial_state (some s) = s

-- The row that CreateCall inserts, with the defaults of the table.
unfoldable pub new_row : CreateCallParams → ℕ → Call
unfolding initial_state
new_row params now = record {
  organization_id = params.organization_id;
  voice_agent_id = params.voice_agent_id;
  trunk_id = none;
  trunk_endpoint_id = none;
  direction = params.direction;
  state = initial_state params.state;
  media_state = MediaState.active;
  from_uri = params.from_uri;
  to_uri = params.to_uri;
  sip_call_id = params.sip_call_id;
  started_at = none;
  answered_at = none;
  ended_at = none;
  hangup_reason = none;
  created_at = now;
  updated_at = now;
}

-- The insertion; `none` is a key that a row has already.
unfoldable pub insert_row : ℕ → CreateCallParams → Calls → ℕ → Option (ℕ × Call)
insert_row id params calls now = elim (calls id) [
  | none ↦ some (id, new_row params now)
  | some c ↦ none
]

-- A duplicate key is no `pgx.ErrNoRows`.
abbrev insert_error : Error → Error
insert_error e = if is_error no_rows e then sentinel fault else e

-- The parameters of `Create` and of `CreateInbound`.
unfoldable pub outbound_params : ℕ → CreateRequest → CreateCallParams
outbound_params organization_id req = record {
  organization_id = organization_id;
  voice_agent_id = req.voice_agent_id;
  direction = req.direction;
  state = none;
  from_uri = req.from_uri;
  to_uri = req.to_uri;
  sip_call_id = req.sip_call_id;
}

unfoldable pub inbound_params : InboundAdmissionRequest → CreateCallParams
inbound_params req = record {
  organization_id = req.organization_id;
  voice_agent_id = some req.voice_agent_id;
  direction = inbound;
  state = some ringing;
  from_uri = req.from_uri;
  to_uri = req.to_uri;
  sip_call_id = some req.sip_call_id;
}

abbrev has_sip : Text → Call → Bool
has_sip sip c = elim c.sip_call_id [ none ↦ false | some s ↦ text_eq s sip ]

-- The row that an index names, where the `WHERE` clause holds of it.
abbrev row_where : (Call → Bool) → Option Call → ℕ → Option (ℕ × Call)
row_where where_clause none id = none
row_where where_clause (some c) id = if where_clause c then some (id, c) else none

-- GetCall and GetCallBySIPCallIDGlobal; `index` is the table's index on `sip_call_id`.
pub select_call : ℕ → ℕ → Calls → Option (ℕ × Call)
select_call organization_id id calls =
    row_where (λ c. c.organization_id == organization_id) (calls id) id

pub select_by_sip : (Calls → Text → Option ℕ) → Text → Calls → Option (ℕ × Call)
select_by_sip index sip calls = elim (index calls sip) [
  | none ↦ none
  | some id ↦ row_where (has_sip sip) (calls id) id
]

module _ {K : Type 0} where
  -- The statement runs on its own: what it writes is there when it returns.
  unfoldable pub write_returned :
      Option (ℕ × Call) → World Database K → Option (ℕ × Call) × World Database K
  write_returned none w = (none, w)
  write_returned (some (id, call)) w =
      (some (id, call), record w { database = write_row id call w.database })

  pub create : ℕ → ℕ → CreateRequest → M Database K (ℕ × Call)
  create id organization_id req =
      map_error insert_error
        (mutate "call.initiated" (insert_row id (outbound_params organization_id req)))

  pub create_inbound : ℕ → InboundAdmissionRequest → M Database K (ℕ × Call)
  create_inbound id req =
      map_error insert_error (mutate "call.ringing" (insert_row id (inbound_params req)))

  abbrev pub write_route :
      ℕ → ℕ → Option ℕ → Option ℕ → World Database K → Option (ℕ × Call) × World Database K
  write_route organization_id id trunk_id trunk_endpoint_id w =
      write_returned
        (update_where organization_id id (λ c. true) (set_route trunk_id trunk_endpoint_id w.now)
          w.database.calls)
        w

  unfoldable pub set_route_attribution : ℕ → ℕ → Option ℕ → Option ℕ → M Database K (ℕ × Call)
  set_route_attribution organization_id id trunk_id trunk_endpoint_id = do
    row ← remote (write_route organization_id id trunk_id trunk_endpoint_id)
    returned row

  pub get_call : ℕ → ℕ → M Database K (ℕ × Call)
  get_call organization_id id = do
    row ← remote (λ w. (select_call organization_id id w.database.calls, w))
    returned row

  pub get_by_sip_call_id : (Calls → Text → Option ℕ) → Text → M Database K (ℕ × Call)
  get_by_sip_call_id index sip = do
    row ← remote (λ w. (select_by_sip index sip w.database.calls, w))
    returned row
