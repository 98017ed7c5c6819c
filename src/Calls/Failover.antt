-- ===== src/Calls/Failover.antt =====
-- failover.go of server/internal/telephony/calls: the routes of an outbound call, tried in turn.
pub mod Trail
pub mod Invariant
use monogo.Base.{
  ℕ, suc, ◌+◌, ◌-◌, Bool, true, false, not, ◌&&◌, ◌||◌, List, [], ◌∷◌, Option, none, some, String,
  Text, is_empty, leb, if◌then◌else◌, take,
}
use monogo.Errors.{
  Error, FailureClass, plain, as_originate_error, validation, transport, timeout, sip, capacity,
  internal,
}
use monogo.Effects.{Result, ok, err}
use monogo.Calling.Channels.{Limits}
use monogo.Calling.Controller.{OriginateResult}

-- `routing.OutboundRoute`.
pub record OutboundRoute : Type 0 where
  pub trunk_id : ℕ
  pub trunk_endpoint_id : ℕ
  pub host : Text
  pub port : ℕ
  pub transport : Text
  pub limits : Limits

pub data AttemptOutcome : Type 0 where
  succeeded terminal_failure retryable_failure : AttemptOutcome

-- `failure_class` is `none` for the empty string of a success.
pub record RouteAttemptOutcome : Type 0 where
  pub route : OutboundRoute
  pub attempt : ℕ
  pub outcome : AttemptOutcome
  pub failure_class : Option FailureClass
  pub sip_status : ℕ
  pub duration : ℕ
  pub error : Option Error

abbrev pub max_outbound_attempts : ℕ
max_outbound_attempts = 3

-- The condition under which another carrier may be tried.
abbrev pub is_retryable : FailureClass → ℕ → Bool
is_retryable transport status = true
is_retryable capacity status = true
is_retryable sip status = leb 500 status && leb status 599
is_retryable _ status = false

classified : Option (FailureClass × ℕ) → FailureClass × ℕ × AttemptOutcome
classified none = (internal, 0, terminal_failure)
classified (some (class, status)) =
    (class, status, if is_retryable class status then retryable_failure else terminal_failure)

unfoldable pub classify_originate_failure : Error → FailureClass × ℕ × AttemptOutcome
unfolding classified
classify_originate_failure e = classified (as_originate_error e)

-- A channel that may be up ends the plan, also where the attempt reports an error.
unfoldable pub outcome_of : OriginateResult → AttemptOutcome → AttemptOutcome
outcome_of result outcome = if is_empty result.channel_id then outcome else terminal_failure

abbrev pub is_retryable_failure : AttemptOutcome → Bool
is_retryable_failure retryable_failure = true
is_retryable_failure _ = false

-- What the plan returns, with what it handed to `observe` beside the result of each attempt, and the
-- state that the attempts left.
pub record Plan (S : Type 0) : Type 0 where
  pub returned : Result (OriginateResult × OutboundRoute)
  pub trace : List (RouteAttemptOutcome × OriginateResult)
  pub state : S

-- An attempt is a function on a state of its own, from which the context and the clock are read too.
-- It may return a result and an error at once.
module _ {S : Type 0} (ctx_err : S → Option Error) (now : S → ℕ)
    (attempt : OutboundRoute → S → OriginateResult × Option Error × S) where
  finish : Option Error → S → Plan S
  finish none s = record {
    returned = err (plain "outbound route plan is empty");
    trace = [];
    state = s;
  }
  finish (some e) s = record { returned = err e; trace = []; state = s }

  observed : RouteAttemptOutcome → OriginateResult → Plan S → Plan S
  observed entry result p = record p { trace = (entry, result) ∷ p.trace }

  failed_entry : ℕ → OutboundRoute → ℕ → OriginateResult → Error → RouteAttemptOutcome
  failed_entry index route duration result e =
      let (class, status, outcome) = classify_originate_failure e in
      record {
        route = route;
        attempt = index + 1;
        outcome = outcome_of result outcome;
        failure_class = some class;
        sip_status = status;
        duration = duration;
        error = some e;
      }

  succeeded_entry : ℕ → OutboundRoute → ℕ → RouteAttemptOutcome
  succeeded_entry index route duration = record {
    route = route;
    attempt = index + 1;
    outcome = succeeded;
    failure_class = none;
    sip_status = 0;
    duration = duration;
    error = none;
  }

  -- `ctx.Err()` at the head of a round.
  unless_cancelled : Option Error → S → Plan S → Plan S
  unless_cancelled none s p = p
  unless_cancelled (some e) s p = record { returned = err e; trace = []; state = s }

  -- A round past its attempt; `rest` is the rounds that may follow it.
  after_attempt : ℕ → OutboundRoute → ℕ → OriginateResult → Option Error → S → Plan S → Plan S
  after_attempt index route duration result none s rest =
      observed (succeeded_entry index route duration) result
        (record { returned = ok (result, route); trace = []; state = s })
  after_attempt index route duration result (some e) s rest =
      let entry = failed_entry index route duration result e in
      observed entry result (if is_retryable_failure entry.outcome then rest else finish (some e) s)

  -- The loop, at the routes that are left.
  attempt_routes : ℕ → List OutboundRoute → Option Error → S → Plan S
  attempt_routes index [] last_err s = finish last_err s
  attempt_routes index (route ∷ routes) last_err s =
      let (result, error, s') = attempt route s in
      let rest = attempt_routes (index + 1) routes error s' in
      unless_cancelled (ctx_err s) s
        (after_attempt index route (now s' - now s) result error s' rest)

  pub execute_route_plan : List OutboundRoute → S → Plan S
  execute_route_plan routes s = attempt_routes 0 (take max_outbound_attempts routes) none s
