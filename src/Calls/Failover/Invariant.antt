-- ===== src/Calls/Failover/Invariant.antt =====
-- What every attempt keeps, the plan keeps.
use monogo.Base.{ℕ, ◌+◌, Bool, true, false, List, [], ◌∷◌, Option, none, some, take, if◌then◌else◌}
use monogo.Errors.{Error}
use monogo.Calling.Controller.{OriginateResult}
use monogo.Calls.Failover.{
  OutboundRoute, Plan, finish, observed, unless_cancelled, after_attempt, attempt_routes,
  execute_route_plan, max_outbound_attempts,
}

module _ {S : Type 0} (ctx_err : S → Option Error) (now : S → ℕ)
    (attempt : OutboundRoute → S → OriginateResult × Option Error × S) (Q : S → Type 0)
    (keeps : (route : OutboundRoute) (s : S) → Q s → Q (attempt route s).2) where
  finish-keeps : (e : Option Error) (s : S) → Q s → Q (finish ctx_err now attempt e s).state
  unfolding finish
  finish-keeps none s h = h
  finish-keeps (some e) s h = h

  unless_cancelled-keeps :
      (e : Option Error) (s : S) (plan : Plan S)
      → Q s
      → Q plan.state
      → Q (unless_cancelled ctx_err now attempt e s plan).state
  unfolding unless_cancelled
  unless_cancelled-keeps none s plan h k = k
  unless_cancelled-keeps (some e) s plan h k = h

  if-keeps : (b : Bool) (p q : Plan S) → Q p.state → Q q.state → Q (if b then p else q).state
  if-keeps true p q h k = h
  if-keeps false p q h k = k

  after_attempt-keeps :
      (index : ℕ) (route : OutboundRoute) (duration : ℕ) (result : OriginateResult)
      (error : Option Error) (s : S) (rest : Plan S)
      → Q s
      → Q rest.state
      → Q (after_attempt ctx_err now attempt index route duration result error s rest).state
  unfolding after_attempt observed
  after_attempt-keeps index route duration result none s rest h k = h
  after_attempt-keeps index route duration result (some e) s rest h k =
      if-keeps _ rest _ k (finish-keeps (some e) s h)

  attempt_routes-keeps :
      (index : ℕ) (routes : List OutboundRoute) (last : Option Error) (s : S)
      → Q s
      → Q (attempt_routes ctx_err now attempt index routes last s).state
  unfolding attempt_routes
  attempt_routes-keeps index [] last s h = finish-keeps last s h
  attempt_routes-keeps index (route ∷ routes) last s h =
      let kept = keeps route s h in
      unless_cancelled-keeps (ctx_err s) s _ h (
        after_attempt-keeps index route _ _ _ _ _ kept
          (attempt_routes-keeps (index + 1) routes _ _ kept))

  pub execute_route_plan-keeps :
      (routes : List OutboundRoute) (s : S)
      → Q s
      → Q (execute_route_plan ctx_err now attempt routes s).state
  unfolding execute_route_plan
  execute_route_plan-keeps routes s =
      attempt_routes-keeps 0 (take max_outbound_attempts routes) none s
