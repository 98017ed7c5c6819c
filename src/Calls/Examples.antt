-- ===== src/Calls/Examples.antt =====
-- The theorems on calls at concrete calls, events and routes.
use monogo.Base.{ℕ, ◌+◌, List, [], ◌∷◌, Option, none, some, codes, ◌==◌, if◌then◌else◌}
use monogo.Errors.{Error, sentinel, fault, originate_error, transport}
use monogo.Effects.{World, done, lost, unconfirmed}
use monogo.Redis.Memory.{Memory, empty_memory}
use monogo.Calls.Model.{MediaState, Call, outbound, initiating}
use monogo.Calls.Store.{Database, mutate, update_where, may_mark, set_mark, mark_ringing}
use monogo.Calls.Store.Settled.{Settled, mutate-Settled}
use monogo.Calling.Controller.{OriginateResult}
use monogo.Calls.Failover.{OutboundRoute}
use monogo.Calls.Failover.Trail.{Trail}

-- Call 7 of organization 1, just placed.
abbrev placed : Call
placed = record {
  organization_id = 1;
  voice_agent_id = some 2;
  trunk_id = some 3;
  trunk_endpoint_id = some 4;
  direction = outbound;
  state = initiating;
  media_state = MediaState.active;
  from_uri = codes "sip:a@example.org";
  to_uri = codes "sip:b@example.org";
  sip_call_id = none;
  started_at = some 100;
  answered_at = none;
  ended_at = none;
  hangup_reason = none;
  created_at = 100;
  updated_at = 100;
}

abbrev table : ℕ → Option Call
table id = if id == 7 then some placed else none

abbrev world : World Database Memory
world = record {
  database = record { calls = table; outbox = [] };
  keyspace = empty_memory;
  net = done ∷ done ∷ done ∷ unconfirmed ∷ done ∷ lost ∷ [];
  now = 200;
}

mutate-Settled_example :
    Settled "call.ringing"
      (λ calls now. update_where 1 7 (may_mark mark_ringing) (set_mark mark_ringing now none) calls)
      world.database
      200
      (mutate "call.ringing"
        (λ calls now.
          update_where 1 7 (may_mark mark_ringing) (set_mark mark_ringing now none) calls)
        world).0
      (mutate "call.ringing"
        (λ calls now.
          update_where 1 7 (may_mark mark_ringing) (set_mark mark_ringing now none) calls)
        world).1.database
mutate-Settled_example = mutate-Settled "call.ringing" _ world

abbrev route : ℕ → OutboundRoute
route n = record {
  trunk_id = n;
  trunk_endpoint_id = n;
  host = codes "sip.example.org";
  port = 5060;
  transport = codes "udp";
  limits = record { max_cps = 5; max_concurrent_calls = 10 };
}

-- The state counts the attempts; the third carrier takes the call.
abbrev try_carrier : OutboundRoute → ℕ → OriginateResult × Option Error × ℕ
try_carrier r n =
    if n == 2
    then (record { channel_id = codes "channel" }, none, 3)
    else (record { channel_id = [] }, some (originate_error transport 0 (sentinel fault)), n + 1)

abbrev routes : List OutboundRoute
routes = route 1 ∷ route 2 ∷ route 3 ∷ route 4 ∷ []
