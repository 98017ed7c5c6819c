-- ===== src/Platform/Delivery.antt =====
-- The delivery of webhooks: jobs.go and repository.go of server/internal/platform/webhooks, and the
-- statements on deliveries in server/internal/database/queries/webhook_deliveries.sql. A body is its
-- bytes, of a message only whether there is one; times and delays count nanoseconds here.
-- `locked_at` goes with `locked_by`; `updated_at` and `last_attempt_at` are left out.
pub mod Outcome
pub mod Batch
pub mod Judged
pub mod Round
use monogo.Base.{
  ℕ, zero, suc, ◌+◌, Bool, true, false, not, ◌&&◌, ◌||◌, List, [], ◌∷◌, Option, none, some, String,
  Text, text_eq, ◌==◌, ltb, leb, if◌then◌else◌,
}
use monogo.Errors.{Error, sentinel, wrapped, no_rows, fault}
use monogo.Effects.{World, Result, ok, err, M, ◌>>=◌, ◌>>◌, pure, fail, remote, map_error, clock}
use monogo.Platform.Retry.{retry_delay}

pub record DeliveryJobConfig : Type 0 where
  pub worker_id : Text
  pub retry_base_delay : ℕ
  pub retry_max_delay : ℕ
  pub max_attempts : ℕ
  pub auto_disable_after : ℕ

pub record DeliveryAttempt : Type 0 where
  pub status_code : Option ℕ
  pub body : Option Text
  pub error : Option Error

abbrev is_none {ℓ} : {A : Type ℓ} → Option A → Bool
is_none none = true
is_none (some a) = false

unfoldable pub delivery_succeeded : DeliveryAttempt → Bool
delivery_succeeded a =
    is_none a.error && elim a.status_code [ none ↦ false | some s ↦ leb 200 s && ltb s 300 ]

unfoldable pub retryable_delivery : DeliveryAttempt → Bool
retryable_delivery a =
    not (is_none a.error)
    || elim a.status_code [ none ↦ true | some s ↦ s == 408 || s == 425 || s == 429 || leb 500 s ]

pub data DeliveryStatus : Type 0 where
  pending retrying succeeded failed canceled : DeliveryStatus

pub record Delivery : Type 0 where
  pub endpoint_id : ℕ
  pub status : DeliveryStatus
  pub attempt_count : ℕ
  pub next_attempt_at : ℕ
  pub response_status : Option ℕ
  pub response_body : Option Text
  pub last_error : Bool
  pub delivered_at : Option ℕ
  pub locked_by : Option Text

pub record Endpoint : Type 0 where
  pub enabled : Bool
  pub disabled_at : Option ℕ
  pub disabled_reason : Option String
  pub consecutive_failures : ℕ
  pub last_failure_at : Option ℕ

pub record Deliveries : Type 0 where
  pub deliveries : ℕ → Option Delivery
  pub endpoints : ℕ → Option Endpoint

abbrev pub put {ℓ} : {A : Type ℓ} → (ℕ → Option A) → ℕ → A → ℕ → Option A
put table id a j = if j == id then some a else table j

abbrev pub change {ℓ} : {A : Type ℓ} → (A → A) → Option A → Option A
change f none = none
change f (some a) = some (f a)

-- The rows of an endpoint whose delivery changed.
abbrev pub at_endpoint : ℕ → (Endpoint → Endpoint) → (ℕ → Option Endpoint) → ℕ → Option Endpoint
at_endpoint id f endpoints j = if j == id then change f (endpoints j) else endpoints j

-- `locked_by = worker_id`.
abbrev pub holds : Text → Delivery → Bool
holds worker d = elim d.locked_by [ none ↦ false | some w ↦ text_eq w worker ]

-- `response_status IS NULL OR response_status BETWEEN 100 AND 599`.
abbrev status_fits : Option ℕ → Bool
status_fits none = true
status_fits (some s) = leb 100 s && leb s 599

-- A first byte of UTF-8 but for NUL: how many bytes go on, and the bounds of the next.
abbrev lead : ℕ → Option (ℕ × ℕ × ℕ)
lead c =
    if leb 1 c && leb c 127
    then some (0, 128, 191)
    else if leb 194 c && leb c 223
    then some (1, 128, 191)
    else if c == 224
    then some (2, 160, 191)
    else if c == 237
    then some (2, 128, 159)
    else if leb 225 c && leb c 239
    then some (2, 128, 191)
    else if c == 240
    then some (3, 144, 191)
    else if leb 241 c && leb c 243
    then some (3, 128, 191)
    else if c == 244
    then some (3, 128, 143)
    else none

-- A body is its bytes, of which a TEXT of PostgreSQL takes UTF-8 without NUL. At the start `more` is 0.
unfoldable pub is_utf8 : ℕ → ℕ → ℕ → Text → Bool
is_utf8 zero low high [] = true
is_utf8 (suc more) low high [] = false
is_utf8 (suc more) low high (c ∷ s) = leb low c && leb c high && is_utf8 more 128 191 s
is_utf8 zero low high (c ∷ s) = elim (lead c) [
  | none ↦ false
  | some (more, low, high) ↦ is_utf8 more low high s
]

unfoldable body_fits : Option Text → Bool
unfolding is_utf8
body_fits none = true
body_fits (some body) = is_utf8 0 0 0 body

-- What the columns of a response take.
unfoldable pub storable : DeliveryAttempt → Bool
unfolding body_fits
storable a = status_fits a.status_code && body_fits a.body

unfoldable pub set_succeeded : ℕ → DeliveryAttempt → Delivery → Delivery
set_succeeded now a d = record d {
  status = succeeded;
  response_status = a.status_code;
  response_body = a.body;
  last_error = false;
  delivered_at = some now;
  locked_by = none;
}

unfoldable pub set_retrying : ℕ → DeliveryAttempt → Delivery → Delivery
set_retrying at a d = record d {
  status = retrying;
  next_attempt_at = at;
  response_status = a.status_code;
  response_body = a.body;
  last_error = true;
  locked_by = none;
}

unfoldable pub set_failed : DeliveryAttempt → Delivery → Delivery
set_failed a d = record d {
  status = failed;
  response_status = a.status_code;
  response_body = a.body;
  last_error = true;
  locked_by = none;
}

-- `reset_endpoint`.
unfoldable pub reset_endpoint : Endpoint → Endpoint
reset_endpoint e =
    if e.enabled && ltb 0 e.consecutive_failures
    then record e { consecutive_failures = 0; last_failure_at = none; disabled_reason = none }
    else e

abbrev or_now : Option ℕ → ℕ → ℕ
or_now none now = now
or_now (some t) now = t

-- `update_endpoint`.
unfoldable pub count_failure : ℕ → ℕ → Endpoint → Endpoint
count_failure auto_disable_after now e =
    let reached = leb auto_disable_after (e.consecutive_failures + 1) in
    record {
      enabled = if reached then false else e.enabled;
      disabled_at = if reached then some (or_now e.disabled_at now) else e.disabled_at;
      disabled_reason =
          if e.enabled && reached then some "failure_threshold" else e.disabled_reason;
      consecutive_failures = e.consecutive_failures + 1;
      last_failure_at = some now;
    }

-- What a statement says: a row, no row, or a value that the table does not take.
pub data Reply : Type 0 where
  updated no_row refused : Reply

-- A statement `UPDATE webhook_deliveries … WHERE id = … AND locked_by = …`, with what it does to the
-- endpoint of the row.
update_row :
    Text
    → ℕ
    → DeliveryAttempt
    → (Delivery → Delivery)
    → (Endpoint → Endpoint)
    → Option Delivery
    → Deliveries
    → Reply × Deliveries
update_row worker id a set endpoint none db = (no_row, db)
update_row worker id a set endpoint (some d) db =
    if holds worker d
    then if storable a
      then (
        updated,
        record {
          deliveries = put db.deliveries id (set d);
          endpoints = at_endpoint d.endpoint_id endpoint db.endpoints;
        },
      )
      else (refused, db)
    else (no_row, db)

unfoldable pub update_locked :
    Text
    → ℕ
    → DeliveryAttempt
    → (Delivery → Delivery)
    → (Endpoint → Endpoint)
    → Deliveries
    → Reply × Deliveries
unfolding update_row
update_locked worker id a set endpoint db =
    update_row worker id a set endpoint (db.deliveries id) db

-- What the job does with an attempt.
pub data Verdict : Type 0 where
  succeed : Verdict
  retry_after : ℕ → Verdict
  give_up : Verdict

unfoldable pub verdict : DeliveryJobConfig → ℕ → DeliveryAttempt → Verdict
verdict c attempt_count a =
    if delivery_succeeded a
    then succeed
    else if retryable_delivery a && ltb attempt_count c.max_attempts
    then retry_after (retry_delay c.retry_base_delay c.retry_max_delay attempt_count)
    else give_up

-- The statement of a verdict, at the time `now` of the server.
unfoldable pub statement :
    DeliveryJobConfig → ℕ → DeliveryAttempt → ℕ → Verdict → Deliveries → Reply × Deliveries
statement c id a now succeed = update_locked c.worker_id id a (set_succeeded now a) reset_endpoint
statement c id a now (retry_after delay) =
    update_locked c.worker_id id a (set_retrying (now + delay) a) (λ e. e)
statement c id a now give_up =
    update_locked c.worker_id id a (set_failed a) (count_failure c.auto_disable_after now)

-- The error that `deliverBatch` returns with.
abbrev pub error_context : Verdict → String
error_context succeed = "mark webhook delivery succeeded"
error_context (retry_after delay) = "schedule webhook delivery retry"
error_context give_up = "mark webhook delivery failed"

-- What the loop uses of a row of ClaimWebhookDeliveries.
pub record Claim : Type 0 where
  pub id : ℕ
  pub attempt_count : ℕ

module _ {K : Type 0} (c : DeliveryJobConfig) where
  pub replied : Reply → M Deliveries K (Unit {0})
  replied updated = pure tt
  replied no_row = fail (sentinel no_rows)
  replied refused = fail (sentinel fault)

  -- A round past its attempt.
  pub settle_delivery : Claim → DeliveryAttempt → M Deliveries K (Unit {0})
  settle_delivery d a =
      let v = verdict c d.attempt_count a in
      map_error (wrapped (error_context v)) (do
        reply ← remote (λ w.
            let (reply, db) = statement c d.id a w.now v w.database in
            (reply, record w { database = db }))
        replied reply)

  -- The rounds, each with the attempt of the sender, until the context is done.
  module _ (send : Claim → World Deliveries K → DeliveryAttempt)
      (done : World Deliveries K → Bool) where
    unless_done : Bool → M Deliveries K (Unit {0}) → M Deliveries K (Unit {0})
    unless_done true m = pure tt
    unless_done false m = m

    pub deliver_claimed : List Claim → M Deliveries K (Unit {0})
    deliver_claimed [] w = (ok tt, w)
    deliver_claimed (d ∷ ds) w =
        let rest = deliver_claimed ds in
        unless_done (done w) (settle_delivery d (send d w) >> rest) w
