-- ===== src/Platform/Delivery/Round.antt =====
-- A round past its attempt, where the network does its work: the delivery and its endpoint.
use monogo.Base.{
  ℕ, ◌+◌, ◌^◌, ◌≤◌, ◌<◌, ◌≡◌, ◌≢◌, ◌↔◌, refl, ap, ◌∙◌, true, false, [], Option, none, some, arith,
  Bool-cases, ==_iff, inl, inr,
}
use monogo.Errors.{Error}
use monogo.Effects.{World, Result, ok, err, remote}
use monogo.Platform.Delivery.{
  DeliveryJobConfig, DeliveryAttempt, Delivery, succeeded, retrying, failed, Deliveries, Claim,
  Verdict, succeed, retry_after, give_up, holds, storable, statement, verdict, settle_delivery,
  replied, set_succeeded, set_retrying, set_failed, Endpoint, reset_endpoint, count_failure,
  at_endpoint, change, DeliveryStatus,
}
use monogo.Platform.Delivery.Judged.{
  Judged, row_after, endpoint_after, verdict-Judged, statement-row, statement-refused, replied_ok,
}

-- An endpoint after a delivery to it was settled.
abbrev pub Counted : DeliveryJobConfig → DeliveryStatus → Endpoint → Endpoint → Type 0
Counted c succeeded e e' =
    (e'.enabled ≡ e.enabled) × (e.enabled ≡ true → e'.consecutive_failures ≡ 0)
Counted c retrying e e' = e' ≡ e
Counted c failed e e' =
    (e'.consecutive_failures ≡ e.consecutive_failures + 1)
    × ((e'.enabled ≡ true)
        ↔ ((e.enabled ≡ true) × (e'.consecutive_failures < c.auto_disable_after)))
    × (c.auto_disable_after ≤ e'.consecutive_failures → e'.disabled_at ≢ none)
Counted c _ e e' = ⊥

row-Counted :
    (c : DeliveryJobConfig) (now : ℕ) (a : DeliveryAttempt) (v : Verdict) (d : Delivery)
    (e : Endpoint)
    → Counted c (row_after now a v d).status e (endpoint_after c now v e)
unfolding row_after endpoint_after set_succeeded set_retrying set_failed reset_endpoint
    count_failure
row-Counted c now a succeed d e = (ground arith, λ h. ground arith)
row-Counted c now a (retry_after delay) d e = refl
row-Counted c now a give_up d e = (refl, ground arith, λ h. ground arith)

changed_endpoint :
    (id : ℕ) (f : Endpoint → Endpoint) (endpoints : ℕ → Option Endpoint) (e : Endpoint)
    → endpoints id ≡ some e
    → at_endpoint id f endpoints id ≡ some (f e)
changed_endpoint id f endpoints e h = rw ((==_iff id id).1 refl) (ap (change f) h)

-- What comes of a round.
pub data Round {K : Type 0} (c : DeliveryJobConfig) (claim : Claim) (a : DeliveryAttempt)
    (w : World Deliveries K) (endpoint_id : ℕ) (ep : Endpoint)
    (out : Result (Unit {0}) × World Deliveries K) : Type 0 where
  stored :
      (e : Delivery) (ep' : Endpoint)
      → storable a ≡ true
      → out.0 ≡ ok tt
      → out.1.database.deliveries claim.id ≡ some e
      → Judged c claim.attempt_count w.now a e
      → out.1.database.endpoints endpoint_id ≡ some ep'
      → Counted c e.status ep ep'
      → Round c claim a w endpoint_id ep out
  unstored :
      (e : Error)
      → storable a ≡ false
      → out.0 ≡ err e
      → out.1.database ≡ w.database
      → Round c claim a w endpoint_id ep out

-- Where the network does its work and the worker still has its claim, a round ends in one of two ways.
-- If the table takes the response (no status or one of 100 to 599, no body or one of UTF-8 without NUL),
-- the round returns no error and takes the lock off, and the delivery has succeeded exactly if the
-- endpoint took the event (2xx, no error); else it is tried again exactly if that may help (an
-- error, no status, 408, 425, 429, 500 and above) and fewer than the maximal number of attempts were
-- made, after the base delay doubled for each attempt past the first and cut at the maximum; else it has
-- failed. A success sets the failures of an enabled endpoint to 0, a retry leaves the endpoint alone, and
-- a failure counts one more and leaves it enabled exactly if it was and the count is below the
-- threshold. If the table refuses the response, the round returns an error and changes nothing.
pub settle_delivery-Round :
    {K : Type 0} (c : DeliveryJobConfig) (claim : Claim) (a : DeliveryAttempt)
    (w : World Deliveries K) (d : Delivery) (ep : Endpoint)
    → c.retry_base_delay < 2 ^ 62
    → c.retry_max_delay ≤ 2 ^ 62
    → w.net ≡ []
    → w.database.deliveries claim.id ≡ some d
    → holds c.worker_id d ≡ true
    → w.database.endpoints d.endpoint_id ≡ some ep
    → Round c claim a w d.endpoint_id ep (settle_delivery c claim a w)
unfolding settle_delivery remote replied
settle_delivery-Round c claim a w d ep base limit calm h own found =
    let v = verdict c claim.attempt_count a in
    elim (Bool-cases (storable a)) [
      | inl good ↦
          let (reply, row, endpoints) =
            statement-row c claim.id a w.now v w.database d h own good in
          rw calm (
            rw (replied_ok c (statement c claim.id a w.now v w.database).0 _ reply) (
              stored (row_after w.now a v d) (endpoint_after c w.now v ep) good refl row
                (verdict-Judged c claim.attempt_count w.now a d base limit)
                (ap (λ t. t d.endpoint_id) endpoints
                  ∙ changed_endpoint d.endpoint_id (endpoint_after c w.now v) w.database.endpoints
                      ep found)
                (row-Counted c w.now a v d ep)))
      | inr bad ↦
          let reply = statement-refused c claim.id a w.now v w.database d h own bad in
          rw calm (rw reply (unstored _ bad refl refl))
    ]
