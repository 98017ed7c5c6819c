-- ===== src/Calls/Failover/Trail.antt =====
-- What a route plan may try, and how what it tries fits what it returns.
use monogo.Base.{
  ℕ, ◌+◌, ◌≤◌, ◌≡◌, ◌≢◌, refl, ◌⊎◌, inl, inr, ◌↔◌, sym, ap, ◌∙◌, eq_of_some_eq, subst, Bool, true,
  false, List, [], ◌∷◌, Option, none, some, is_empty, arith, if◌then◌else◌, take, length,
}
use mathlib.Core.Bool.{true≢false}
use monogo.Errors.{Error, FailureClass, as_originate_error, transport, capacity, sip}
use monogo.Effects.{Result, ok, err}
use monogo.Calling.Controller.{OriginateResult}
use monogo.Calls.Failover.{
  OutboundRoute, RouteAttemptOutcome, succeeded, retryable_failure, is_retryable,
  is_retryable_failure, classify_originate_failure, classified, outcome_of, Plan, finish, observed,
  unless_cancelled, after_attempt, failed_entry, succeeded_entry, attempt_routes,
  execute_route_plan,
}

abbrev pub Trace : Type 0
Trace = List (RouteAttemptOutcome × OriginateResult)

abbrev pub Returned : Type 0
Returned = Result (OriginateResult × OutboundRoute)

-- After its last attempt a plan returns that attempt's result and route if it succeeded, else an error.
abbrev pub Ending : RouteAttemptOutcome × OriginateResult → Returned → Type 0
Ending (entry, result) r =
    ((entry.outcome ≡ succeeded) × (r ≡ ok (result, entry.route)))
    ⊎ ((entry.outcome ≢ succeeded) × ((e : Error) × (r ≡ err e)))

-- A failure after which another carrier may be tried: of the transport, for want of capacity, or by a SIP
-- status of 500 to 599, and no channel came of it.
abbrev pub Transient : RouteAttemptOutcome × OriginateResult → Type 0
Transient (entry, result) =
    ((c : FailureClass) × (entry.failure_class ≡ some c)
      × ((c ≡ transport)
          ⊎ (c ≡ capacity)
          ⊎ ((c ≡ sip) × (500 ≤ entry.sip_status) × (entry.sip_status ≤ 599))))
    × (is_empty result.channel_id ≡ true)

abbrev pub MayGoOn : RouteAttemptOutcome × OriginateResult → Type 0
MayGoOn t = (t.0.outcome ≡ retryable_failure) × Transient t

-- The attempts, numbered from `index + 1`, take the routes in order; each but the last may go on. The
-- plan ends with a success, or with an error: where the routes are used up, where no carrier may be tried
-- after the last attempt, or where the context is done, of which `Cancelled` is evidence.
abbrev pub Trail : Type 0 → ℕ → List OutboundRoute → Trace → Returned → Type 0
Trail Cancelled index routes [] r = ((e : Error) × (r ≡ err e)) × ((routes ≡ []) ⊎ Cancelled)
Trail Cancelled index [] (t ∷ ts) r = ⊥
Trail Cancelled index (route ∷ routes) (t ∷ []) r =
    (t.0.attempt ≡ index + 1)
    × (t.0.route ≡ route)
    × Ending t r
    × ((t.0.outcome ≡ succeeded) ⊎ (routes ≡ []) ⊎ (¬ Transient t) ⊎ Cancelled)
Trail Cancelled index (route ∷ routes) (t ∷ u ∷ ts) r =
    (t.0.attempt ≡ index + 1)
    × (t.0.route ≡ route)
    × MayGoOn t
    × Trail Cancelled (index + 1) routes (u ∷ ts) r

-- The condition of the code, both ways.
retryable_iff :
    (c : FailureClass) (n : ℕ)
    → (is_retryable c n ≡ true)
      ↔ ((c ≡ transport) ⊎ (c ≡ capacity) ⊎ ((c ≡ sip) × (500 ≤ n) × (n ≤ 599)))
retryable_iff c n = ground arith

retryable_class :
    (e : Error)
    → (classify_originate_failure e).2 ≡ retryable_failure
    → is_retryable (classify_originate_failure e).0 (classify_originate_failure e).1 ≡ true
unfolding classify_originate_failure
retryable_class e h = go (as_originate_error e) h
  where
    go :
        (o : Option (FailureClass × ℕ))
        → (classified o).2 ≡ retryable_failure
        → is_retryable (classified o).0 (classified o).1 ≡ true
    go none h = cc
    go (some (c, n)) h = ground arith

class_retryable :
    (e : Error)
    → is_retryable (classify_originate_failure e).0 (classify_originate_failure e).1 ≡ true
    → (classify_originate_failure e).2 ≡ retryable_failure
unfolding classify_originate_failure
class_retryable e h = go (as_originate_error e) h
  where
    go :
        (o : Option (FailureClass × ℕ))
        → is_retryable (classified o).0 (classified o).1 ≡ true
        → (classified o).2 ≡ retryable_failure
    go none h = cc
    go (some (c, n)) h = rw h refl

go_on :
    (C : Type 0) (index : ℕ) (route : OutboundRoute) (routes : List OutboundRoute)
    (t : RouteAttemptOutcome × OriginateResult) (ts : Trace) (r : Returned)
    → t.0.attempt ≡ index + 1
    → t.0.route ≡ route
    → MayGoOn t
    → Trail C (index + 1) routes ts r
    → Trail C index (route ∷ routes) (t ∷ ts) r
go_on C index route routes t [] r n m p (h, over) = (n, m, inr (λ s. cc, h), inr (stop over))
  where
    stop : (routes ≡ []) ⊎ C → (routes ≡ []) ⊎ (¬ Transient t) ⊎ C
    stop (inl e) = inl e
    stop (inr c) = inr (inr c)
go_on C index route routes t (u ∷ ts) r n m p h = (n, m, p, h)

module _ {S : Type 0} (ctx_err : S → Option Error) (now : S → ℕ)
    (attempt : OutboundRoute → S → OriginateResult × Option Error × S) where
  -- The context was done at some state of the attempts.
  abbrev pub Cancelled : Type 0
  Cancelled = (s : S) × (e : Error) × (ctx_err s ≡ some e)

  abbrev Good : ℕ → List OutboundRoute → Plan S → Type 0
  Good index routes p = Trail Cancelled index routes p.trace p.returned

  finish-Good :
      (index : ℕ) (o : Option Error) (s : S) → Good index [] (finish ctx_err now attempt o s)
  unfolding finish
  finish-Good index none s = ((_, refl), inl refl)
  finish-Good index (some e) s = ((e, refl), inl refl)

  unless_cancelled-Good :
      (index : ℕ) (routes : List OutboundRoute) (o : Option Error) (s : S) (p : Plan S)
      → ctx_err s ≡ o
      → Good index routes p
      → Good index routes (unless_cancelled ctx_err now attempt o s p)
  unfolding unless_cancelled
  unless_cancelled-Good index routes none s p c h = h
  unless_cancelled-Good index routes (some e) s p c h = ((e, refl), inr (s, e, c))

  module _ (index : ℕ) (route : OutboundRoute) (duration : ℕ) (result : OriginateResult)
      (e : Error) where
    abbrev entry : RouteAttemptOutcome
    entry = failed_entry ctx_err now attempt index route duration result e

    failed_entry-failed : entry.outcome ≢ succeeded
    unfolding failed_entry outcome_of classify_originate_failure
    failed_entry-failed h = ground arith

    failed_entry-MayGoOn : is_retryable_failure entry.outcome ≡ true → MayGoOn (entry, result)
    unfolding failed_entry outcome_of classify_originate_failure
    failed_entry-MayGoOn h = (
      ground arith,
      ((_, refl, (retryable_iff _ _).0 (retryable_class e (ground arith))), ground arith),
    )

    Transient-failed_entry : Transient (entry, result) → is_retryable_failure entry.outcome ≡ true
    unfolding failed_entry outcome_of
    Transient-failed_entry ((c, same, listed), empty) =
        let class = eq_of_some_eq same in
        let yes_retry = class_retryable e (
          subst (λ k. is_retryable k entry.sip_status ≡ true) (sym class)
            ((retryable_iff c _).1 listed)) in
        rw empty (ap is_retryable_failure yes_retry)

    chosen :
        (b : Bool) (routes : List OutboundRoute) (s : S) (rest : Plan S)
        → is_retryable_failure entry.outcome ≡ b
        → Good (index + 1) routes rest
        → Good index (route ∷ routes) (
            observed ctx_err now attempt entry result
              (if b then rest else finish ctx_err now attempt (some e) s))
    unfolding observed finish failed_entry
    chosen true routes s rest again h =
        go_on Cancelled index route routes (entry, result) rest.trace rest.returned refl refl
          (failed_entry-MayGoOn again) h
    chosen false routes s rest over h = (
      refl,
      refl,
      inr (failed_entry-failed, (e, refl)),
      inr (inr (inl (λ h. true≢false (sym (Transient-failed_entry h) ∙ over)))),
    )

    failed_then :
        (routes : List OutboundRoute) (s : S) (rest : Plan S)
        → Good (index + 1) routes rest
        → Good index
            (route ∷ routes)
            (after_attempt ctx_err now attempt index route duration result (some e) s rest)
    unfolding after_attempt
    failed_then routes s rest h = chosen _ routes s rest refl h

  after_attempt-Good :
      (index : ℕ) (route : OutboundRoute) (routes : List OutboundRoute) (duration : ℕ)
      (result : OriginateResult) (error : Option Error) (s : S) (rest : Plan S)
      → Good (index + 1) routes rest
      → Good index
          (route ∷ routes)
          (after_attempt ctx_err now attempt index route duration result error s rest)
  unfolding after_attempt succeeded_entry observed
  after_attempt-Good index route routes duration result none s rest h =
      (refl, refl, inl (refl, refl), inl refl)
  after_attempt-Good index route routes duration result (some e) s rest h =
      failed_then index route duration result e routes s rest h

  attempt_routes-Trail :
      (index : ℕ) (routes : List OutboundRoute) (last_err : Option Error) (s : S)
      → Good index routes (attempt_routes ctx_err now attempt index routes last_err s)
  unfolding attempt_routes
  attempt_routes-Trail index [] last_err s = finish-Good index last_err s
  attempt_routes-Trail index (route ∷ routes) last_err s =
      unless_cancelled-Good index (route ∷ routes) (ctx_err s) s _ refl (
        after_attempt-Good index route routes _ _ _ _ _
          (attempt_routes-Trail (index + 1) routes (attempt route s).1 (attempt route s).2))

  pub execute_route_plan-Trail :
      (routes : List OutboundRoute) (s : S)
      → Trail Cancelled 0
          (take 3 routes)
          (execute_route_plan ctx_err now attempt routes s).trace
          (execute_route_plan ctx_err now attempt routes s).returned
  unfolding execute_route_plan
  execute_route_plan-Trail routes s = attempt_routes-Trail 0 _ none s

length-Trail-le :
    (C : Type 0) (index : ℕ) (routes : List OutboundRoute) (ts : Trace) (r : Returned)
    → Trail C index routes ts r
    → length ts ≤ length routes
length-Trail-le C index routes [] r h = omega arith
length-Trail-le C index [] (t ∷ ts) r h = absurd h
length-Trail-le C index (route ∷ routes) (t ∷ []) r h = omega arith
length-Trail-le C index (route ∷ routes) (t ∷ u ∷ ts) r h =
    omega (arith, length-Trail-le C (index + 1) routes (u ∷ ts) r h.3)

-- A plan makes at most three attempts, and no more than it has routes.
pub length-execute_route_plan-le :
    {S : Type 0} (ctx_err : S → Option Error) (now : S → ℕ)
    (attempt : OutboundRoute → S → OriginateResult × Option Error × S) (routes : List OutboundRoute)
    (s : S)
    → length (execute_route_plan ctx_err now attempt routes s).trace ≤ length (take 3 routes)
length-execute_route_plan-le ctx_err now attempt routes s =
    length-Trail-le _ 0 _ _ _ (execute_route_plan-Trail ctx_err now attempt routes s)
