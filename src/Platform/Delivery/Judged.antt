-- ===== src/Platform/Delivery/Judged.antt =====
-- What becomes of one delivery after its attempt, where the network does its work.
use monogo.Base.{
  ℕ, ◌+◌, ◌-◌, ◌*◌, ◌^◌, ◌≤◌, ◌<◌, ◌≡◌, ◌≢◌, ◌↔◌, refl, sym, ap, ◌∙◌, true, false, Option, none,
  some, Text, ltb, arith, Bool-cases, eq_of_some_eq, ==_iff, ◌⊎◌, inl, inr, ◌&&◌,
}
use mathlib.Core.Bool.{true≢false}
use Prim.Native.Nat.{min}
use monogo.Effects.{World, ok}
use monogo.Platform.Retry.{retry_delay}
use monogo.Platform.Retry.Bounds.{retry_delay-min}
use monogo.Platform.Delivery.{
  DeliveryJobConfig, DeliveryAttempt, Delivery, succeeded, retrying, failed, Deliveries, Verdict,
  succeed, retry_after, give_up, holds, storable, update_row, update_locked, statement, verdict,
  replied, delivery_succeeded, retryable_delivery, set_succeeded, set_retrying, set_failed,
  Endpoint, Reply, updated, reset_endpoint, count_failure, at_endpoint, refused,
}

-- The endpoint took the event: a response of 200 to 299, read to its end.
abbrev pub Accepted : DeliveryAttempt → Type 0
Accepted a = (a.error ≡ none) × ((s : ℕ) × (a.status_code ≡ some s) × (200 ≤ s) × (s < 300))

-- Another attempt may do better.
abbrev pub Transient : DeliveryAttempt → Type 0
Transient a =
    (a.error ≢ none)
    ⊎ (a.status_code ≡ none)
    ⊎ ((s : ℕ) × (a.status_code ≡ some s) × ((s ≡ 408) ⊎ (s ≡ 425) ⊎ (s ≡ 429) ⊎ (500 ≤ s)))

succeeded_iff : (a : DeliveryAttempt) → (delivery_succeeded a ≡ true) ↔ Accepted a
unfolding delivery_succeeded
succeeded_iff a = ground arith

retryable_iff : (a : DeliveryAttempt) → (retryable_delivery a ≡ true) ↔ Transient a
unfolding retryable_delivery
retryable_iff a = ground arith

-- The row `e` after an attempt, its `n`th, at the time `now`.
pub record Judged (c : DeliveryJobConfig) (n now : ℕ) (a : DeliveryAttempt) (e : Delivery)
    : Type 0 where
  pub unlocked : e.locked_by ≡ none
  pub response_kept : e.response_status ≡ a.status_code
  pub outcome :
      ((e.status ≡ succeeded) × Accepted a)
      ⊎ ((e.status ≡ retrying)
          × (¬ Accepted a)
          × Transient a
          × (n < c.max_attempts)
          × (e.next_attempt_at ≡ now + min (c.retry_base_delay * 2 ^ (n - 1)) c.retry_max_delay))
      ⊎ ((e.status ≡ failed) × (¬ Accepted a) × (Transient a → c.max_attempts ≤ n))

unfoldable pub row_after : ℕ → DeliveryAttempt → Verdict → Delivery → Delivery
row_after now a succeed d = set_succeeded now a d
row_after now a (retry_after delay) d = set_retrying (now + delay) a d
row_after now a give_up d = set_failed a d

module _ (c : DeliveryJobConfig) (n now : ℕ) (a : DeliveryAttempt) (d : Delivery)
    (base : c.retry_base_delay < 2 ^ 62) (limit : c.retry_max_delay ≤ 2 ^ 62) where
  succeed-Judged : Accepted a → Judged c n now a (row_after now a succeed d)
  unfolding row_after set_succeeded
  succeed-Judged h = record { unlocked = refl; response_kept = refl; outcome = inl (refl, h) }

  retry-Judged :
      (¬ Accepted a)
      → Transient a
      → n < c.max_attempts
      → Judged c n now a
          (row_after now a (retry_after (retry_delay c.retry_base_delay c.retry_max_delay n)) d)
  unfolding row_after set_retrying
  retry-Judged h t k = record {
    unlocked = refl;
    response_kept = refl;
    outcome = inr (
        inl (
          refl,
          h,
          t,
          k,
          ap (λ x. now + x) (retry_delay-min c.retry_base_delay c.retry_max_delay n base limit),
        ));
  }

  give_up-Judged :
      (¬ Accepted a)
      → (Transient a → c.max_attempts ≤ n)
      → Judged c n now a (row_after now a give_up d)
  unfolding row_after set_failed
  give_up-Judged h t = record {
    unlocked = refl;
    response_kept = refl;
    outcome = inr (inr (refl, h, t));
  }

  pub verdict-Judged : Judged c n now a (row_after now a (verdict c n a) d)
  unfolding verdict
  verdict-Judged = elim (Bool-cases (delivery_succeeded a)) [
    | inl good ↦ rw good (succeed-Judged ((succeeded_iff a).0 good))
    | inr bad ↦ rw bad (elim (Bool-cases (retryable_delivery a && ltb n c.max_attempts)) [
      | inl again ↦ rw again (
          retry-Judged (λ h. true≢false (sym ((succeeded_iff a).1 h) ∙ bad))
            ((retryable_iff a).0 (ground arith)) (ground arith))
      | inr over ↦ rw over (
          give_up-Judged (λ h. true≢false (sym ((succeeded_iff a).1 h) ∙ bad))
            (λ t. spent ((retryable_iff a).1 t) over))
    ])
  ]
    where
      spent :
          retryable_delivery a ≡ true
          → (retryable_delivery a && ltb n c.max_attempts) ≡ false
          → c.max_attempts ≤ n
      spent t over = ground arith

-- What a verdict does to the endpoint of the delivery.
unfoldable pub endpoint_after : DeliveryJobConfig → ℕ → Verdict → Endpoint → Endpoint
endpoint_after c now succeed = reset_endpoint
endpoint_after c now (retry_after delay) = λ e. e
endpoint_after c now give_up = count_failure c.auto_disable_after now

-- The reply and the tables after a statement that finds the claim in place.
updated_row :
    (worker : Text) (id : ℕ) (s : DeliveryAttempt) (set : Delivery → Delivery)
    (f : Endpoint → Endpoint) (o : Option Delivery) (db : Deliveries) (d : Delivery)
    → o ≡ some d
    → holds worker d ≡ true
    → storable s ≡ true
    → ((update_row worker id s set f o db).0 ≡ updated)
      × ((update_row worker id s set f o db).1.deliveries id ≡ some (set d))
      × ((update_row worker id s set f o db).1.endpoints ≡ at_endpoint d.endpoint_id f db.endpoints)
unfolding update_row
updated_row worker id s set f none db d h own good = cc
updated_row worker id s set f (some e) db d h own good =
    let same = eq_of_some_eq h in
    rw same (rw own (rw good (refl, rw ((==_iff id id).1 refl) refl, refl)))

refused_row :
    (worker : Text) (id : ℕ) (s : DeliveryAttempt) (set : Delivery → Delivery)
    (f : Endpoint → Endpoint) (o : Option Delivery) (db : Deliveries) (d : Delivery)
    → o ≡ some d
    → holds worker d ≡ true
    → storable s ≡ false
    → update_row worker id s set f o db ≡ (refused, db)
unfolding update_row
refused_row worker id s set f none db d h own bad = cc
refused_row worker id s set f (some e) db d h own bad =
    let same = eq_of_some_eq h in rw same (rw own (rw bad refl))

module _ (c : DeliveryJobConfig) (id : ℕ) (a : DeliveryAttempt) (now : ℕ) where
  pub statement-row :
      (v : Verdict) (db : Deliveries) (d : Delivery)
      → db.deliveries id ≡ some d
      → holds c.worker_id d ≡ true
      → storable a ≡ true
      → ((statement c id a now v db).0 ≡ updated)
        × ((statement c id a now v db).1.deliveries id ≡ some (row_after now a v d))
        × ((statement c id a now v db).1.endpoints
            ≡ at_endpoint d.endpoint_id (endpoint_after c now v) db.endpoints)
  unfolding statement update_locked row_after endpoint_after
  statement-row succeed db d =
      updated_row c.worker_id id a (set_succeeded now a) reset_endpoint _ db d
  statement-row (retry_after delay) db d =
      updated_row c.worker_id id a (set_retrying (now + delay) a) (λ e. e) _ db d
  statement-row give_up db d =
      updated_row c.worker_id id a (set_failed a) (count_failure c.auto_disable_after now) _ db d

  pub statement-refused :
      (v : Verdict) (db : Deliveries) (d : Delivery)
      → db.deliveries id ≡ some d
      → holds c.worker_id d ≡ true
      → storable a ≡ false
      → statement c id a now v db ≡ (refused, db)
  unfolding statement update_locked
  statement-refused succeed db d =
      refused_row c.worker_id id a (set_succeeded now a) reset_endpoint _ db d
  statement-refused (retry_after delay) db d =
      refused_row c.worker_id id a (set_retrying (now + delay) a) (λ e. e) _ db d
  statement-refused give_up db d =
      refused_row c.worker_id id a (set_failed a) (count_failure c.auto_disable_after now) _ db d

pub replied_ok :
    {K : Type 0} (c : DeliveryJobConfig) (r : Reply) (w : World Deliveries K)
    → r ≡ updated
    → replied c r w ≡ (ok tt, w)
unfolding replied
replied_ok c r w h = rw h refl
