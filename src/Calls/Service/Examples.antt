-- ===== src/Calls/Service/Examples.antt =====
-- The theorems on the call service at a concrete switch, routing table and calls.
use monogo.Base.{
  pos, ◌≡◌, refl, false, ◌&&◌, List, [], ◌∷◌, ◌++◌, none, some, codes, leb, ◌==◌, if◌then◌else◌,
  length,
}
use monogo.Errors.{Error}
use monogo.Effects.{err, World, done, lost, unconfirmed, pure}
use monogo.Redis.Memory.{Memory, memory, empty_memory}
use monogo.Calling.Egress.{Library}
use monogo.Calling.Controller.{Switch}
use monogo.Routing.{Queries}
use monogo.Calls.Model.{MediaState, Call, InboundAdmissionRequest, outbound, inbound, ringing}
use monogo.Calls.Requests.{CreateRequest}
use monogo.Calls.Store.{Database}
use monogo.Calls.Store.Progress.{Progress}
use monogo.Calls.Store.Valid.{AllValid}
use monogo.Calls.Store.History.{Recorded}
use monogo.Calls.Service.{Peers, PeersLaws}
use monogo.Calls.Service.Run.{
  Request, outbound_call, inbound_call, control_call, serve_all, serve_all-Recorded,
  serve_all-AllValid, serve_all-Progress,
}
use monogo.Calls.Service.Control.{transfer_call, hold_call, perform}
use monogo.Calls.Service.Control.Malformed.{IsMalformed}
use monogo.Calls.Service.Control.Performed.{Performed, perform-Performed}
use monogo.Calls.Service.Inbound.{attribute_inbound}
use monogo.Calls.Service.Inbound.Attribution.{SameStates, attribute_inbound-SameStates}

abbrev library : Library
library = record {
  to_lower = λ t. t;
  byte_length = length;
  is_digit = λ c. leb 48 c && leb c 57;
  itoa = λ n. n ∷ [];
  join_host_port = λ host port. host ++ codes ":" ++ port ∷ [];
  uuid_text = λ id. id ∷ [];
}

abbrev switch : Switch Database Memory
switch = record {
  originate_channel = λ req. pure (codes "channel");
  command = λ c. pure tt;
  is_deadline = λ e. false;
  is_cancelled = λ e. false;
  network_timeout = λ e. none;
}

abbrev queries : Queries Database Memory
queries = record {
  get_binding = λ id organization_id. pure (record { voice_agent_id = 2; phone_number_id = 5 });
  get_inbound_limits = λ req. pure (record { max_cps = 3; max_concurrent_calls = 4 });
  get_trunk = λ id organization_id. pure (record {
    id = 3;
    status = codes "active";
    direction = codes "outbound";
    limits = record { max_cps = 3; max_concurrent_calls = 4 };
  });
  list_endpoints = λ id organization_id. pure (
      record {
        id = 6;
        host = codes "sip.example.org";
        port = 5060;
        transport = codes "udp";
        health_status = codes "healthy";
      }
      ∷ []);
}

abbrev peers : Peers Memory
peers = record {
  library = library;
  switch = switch;
  queries = queries;
  index = λ calls sip. some 8;
  context_error = λ w. none;
}

peers-laws : PeersLaws peers
peers-laws = record {
  originate_channel-Quiet = λ req. record { run = λ w. refl };
  command-Quiet = λ c. record { run = λ w. refl };
  get_binding-Quiet = λ id organization_id. record { run = λ w. refl };
  get_inbound_limits-Quiet = λ req. record { run = λ w. refl };
  get_trunk-Quiet = λ id organization_id. record { run = λ w. refl };
  list_endpoints-Quiet = λ id organization_id. record { run = λ w. refl };
}

-- Call 9 rings.
abbrev incoming : Call
incoming = record {
  organization_id = 1;
  voice_agent_id = some 2;
  trunk_id = none;
  trunk_endpoint_id = none;
  direction = inbound;
  state = ringing;
  media_state = MediaState.active;
  from_uri = codes "+1555";
  to_uri = codes "+1666";
  sip_call_id = some (codes "sip-9");
  started_at = none;
  answered_at = none;
  ended_at = none;
  hangup_reason = none;
  created_at = 100;
  updated_at = 100;
}

abbrev world : World Database Memory
world = record {
  database = record { calls = λ id. if id == 9 then some incoming else none; outbox = [] };
  keyspace = empty_memory;
  net = done ∷ done ∷ done ∷ unconfirmed ∷ [];
  now = 200;
}

abbrev empty_world : World Database Memory
empty_world = record {
  database = record { calls = λ id. none; outbox = [] };
  keyspace = empty_memory;
  net = done ∷ done ∷ done ∷ done ∷ done ∷ done ∷ done ∷ lost ∷ [];
  now = 200;
}

abbrev place : CreateRequest
place = record {
  voice_agent_id = some 2;
  trunk_id = some 3;
  from_uri = codes "+1555";
  to_uri = codes "+1777";
  privacy = false;
  dtmf_mode = codes "info";
  media_encryption = [];
  direction = outbound;
  sip_call_id = none;
}

abbrev admit : InboundAdmissionRequest
admit = record {
  channel_id = codes "channel-8";
  sip_call_id = codes "sip-8";
  organization_id = 1;
  voice_agent_id = 2;
  phone_number_id = 5;
  voice_agent_binding_id = 6;
  trunk_id = 3;
  from_uri = codes "+1555";
  to_uri = codes "+1666";
  occurred_at = pos 200;
}

abbrev requests : List Request
requests =
    outbound_call 7 1 place
    ∷ inbound_call 8 admit
    ∷ control_call (transfer_call (codes " +1888 ")) 1 7
    ∷ control_call hold_call 1 8
    ∷ []

nothing-AllValid : AllValid empty_world.database.calls
nothing-AllValid id c h = cc

serve_all-Recorded_example :
    Recorded empty_world.database (serve_all memory peers requests empty_world).database
serve_all-Recorded_example = serve_all-Recorded memory peers peers-laws requests empty_world

serve_all-AllValid_example : AllValid (serve_all memory peers requests empty_world).database.calls
serve_all-AllValid_example =
    serve_all-AllValid memory peers peers-laws requests empty_world nothing-AllValid

serve_all-Progress_example :
    (d : Call) × ((serve_all memory peers requests world).database.calls 9 ≡ some d)
    × Progress incoming d
serve_all-Progress_example =
    serve_all-Progress memory peers peers-laws requests world 9 incoming refl

perform-Performed_example :
    Performed memory peers
      (transfer_call (codes "+1888"))
      1
      9
      world
      (perform memory peers (transfer_call (codes "+1888")) 1 9 world)
    × (IsMalformed peers.library.to_lower (transfer_call (codes "+1888"))
        → (e : Error) × (perform memory peers (transfer_call (codes "+1888")) 1 9 world
            ≡ (err e, world)))
perform-Performed_example = perform-Performed memory peers (transfer_call (codes "+1888")) 1 9 world

-- The statement that sets the trunk of call 9 is lost.
attribute_inbound-SameStates_example :
    SameStates world.database.calls
      (attribute_inbound memory peers 3 9 admit (record world { net = lost ∷ [] })).1.database.calls
attribute_inbound-SameStates_example =
    attribute_inbound-SameStates memory peers 3 9 admit (record world { net = lost ∷ [] }) refl
