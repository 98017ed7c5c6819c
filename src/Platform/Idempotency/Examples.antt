-- ===== src/Platform/Idempotency/Examples.antt =====
-- A request that arrives twice is run once.
use monogo.Base.{
  ℕ, ◌≡◌, refl, [], ◌∷◌, ◌++◌, none, some, Text, codes, All, text_eq, trim_space, subst, sym,
}
use monogo.Base.Strings.{is_space}
use monogo.Effects.{remote}
use monogo.Platform.Idempotency.{
  Request, Headers, Config, service_claim, service_complete, claim_idempotency_key,
  complete_idempotency_key,
}
use monogo.Platform.Idempotency.Middleware.{
  HttpRequest, Captured, write_header, write, set_header, capture, buffer, new_buffered, handle,
  finish, response_of, write_replay, write_buffered, mutation_method, read_idempotent_body, set_to,
}
use monogo.Platform.Idempotency.Middleware.Replays.{Agree, write_replay-Agree}
use monogo.Platform.Idempotency.Runs.{
  Run, State, In, first, entered, with_net, arrives, finishes, Reach, here, next, at_start,
}
use monogo.Platform.Idempotency.Behind.{Apart}
use monogo.Platform.Idempotency.Exclusive.{Repeated, Reach-Once}

abbrev digest : Text → Text
digest body = body

abbrev uuid_text : ℕ → Text
uuid_text id = id ∷ []

abbrev no_headers : Headers
no_headers name = []

abbrev config : Config
config = record { lock_ttl = 300000; record_ttl = 86400000 }

abbrev order : HttpRequest
order = record {
  idempotency_key = codes " k1 ";
  method = codes "POST";
  request_uri = codes "/v1/calls";
  organization_id = some 7;
  principal = none;
  body = some (codes "x");
}

abbrev order_request : Request
order_request = record {
  scope = codes "organization:" ++ 7 ∷ [];
  key = codes "k1";
  method = codes "POST";
  path = codes "/v1/calls";
  request_hash = codes "x";
}

abbrev created : Captured
created =
    capture
      (set_header (codes "Content-Type") (codes "application/json" ∷ [])
        ∷ write_header 201
        ∷ write (codes "ok")
        ∷ write_header 500
        ∷ [])
      new_buffered

created-status : created.status ≡ 201
unfolding capture buffer
created-status = refl

abbrev arrived_once : State
arrived_once =
    let s = at_start 1000 in
    let p = handle digest uuid_text no_headers config order (with_net [] s.world) in
    entered order p.0 p.1 s

abbrev first_run : Run
first_run = record { request = order_request; until = 301000; began = 1000 }

arrived_once-runs : arrived_once.runs ≡ first_run ∷ []
unfolding handle service_claim claim_idempotency_key text_eq trim_space mutation_method
    read_idempotent_body remote is_space
arrived_once-runs = refl

abbrev run_once : State
run_once = record arrived_once {
  world =
      (finish digest uuid_text no_headers order_request 301000 created
        (with_net [] arrived_once.world)).1;
  finished = (order_request, created) ∷ arrived_once.finished;
}

abbrev arrived_twice : State
arrived_twice =
    let p = handle digest uuid_text no_headers config order (with_net [] run_once.world) in
    entered order p.0 p.1 run_once

arrived_twice-replays :
    arrived_twice.replays
    ≡ (order, write_replay (set_to "Idempotency-Key" (codes "k1") no_headers) (response_of created))
      ∷ []
unfolding handle service_claim claim_idempotency_key text_eq trim_space mutation_method
    read_idempotent_body remote is_space finish service_complete complete_idempotency_key
    response_of capture buffer
arrived_twice-replays = refl

replay_run : Reach digest uuid_text no_headers config (at_start 1000) arrived_twice
replay_run =
    next
      (next (next here (arrives (at_start 1000) [] order)) (
        finishes arrived_once [] first_run created
          (subst (In first_run) (sym arrived_once-runs) first)))
      (arrives run_once [] order)

Reach-Once_example :
    Apart config arrived_twice.runs
    × All (Repeated digest uuid_text no_headers config arrived_twice.finished) arrived_twice.replays
Reach-Once_example = Reach-Once digest uuid_text no_headers config 1000 arrived_twice replay_run

write_replay-Agree_example :
    Agree no_headers created
      (write_replay no_headers (response_of created))
      (write_buffered no_headers created)
write_replay-Agree_example = write_replay-Agree no_headers created
