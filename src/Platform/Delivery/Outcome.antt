-- ===== src/Platform/Delivery/Outcome.antt =====
-- What a batch leaves alone.
use monogo.Base.{
  ℕ, ◌+◌, ◌≡◌, refl, sym, ap, ◌∙◌, Bool, true, false, List, Option, none, some, Text, ◌==◌, ==_iff,
  Bool-cases, eq_of_some_eq, inl, inr,
}
use mathlib.Core.Bool.{true≢false}
use monogo.Effects.{World}
use monogo.Platform.Delivery.{
  DeliveryJobConfig, DeliveryAttempt, Delivery, Endpoint, Deliveries, Claim, Verdict, succeed,
  retry_after, give_up, holds, put, storable, update_row, update_locked, statement, reset_endpoint,
  count_failure, deliver_claimed, set_succeeded, set_retrying, set_failed,
}
use monogo.Platform.Delivery.Batch.{deliver_claimed-Holds}

-- The row of a delivery that the worker has no claim on.
abbrev pub Foreign : DeliveryJobConfig → ℕ → Delivery → Deliveries → Type 0
Foreign c id d db = (db.deliveries id ≡ some d) × (holds c.worker_id d ≡ false)

put_elsewhere :
    (table : ℕ → Option Delivery) (id j : ℕ) (d e : Delivery) (worker : Text)
    → table id ≡ some e
    → holds worker e ≡ true
    → table j ≡ some d
    → holds worker d ≡ false
    → (x : Delivery) → put table id x j ≡ some d
put_elsewhere table id j d e worker h k l n x = elim (Bool-cases (j == id)) [
  | inr other ↦ rw other l
  | inl same ↦ absurd (
      true≢false (
        sym k
        ∙ ap (holds worker) (eq_of_some_eq (sym h ∙ ap table (sym ((==_iff j id).0 same)) ∙ l))
        ∙ n))
]

update-Foreign :
    (c : DeliveryJobConfig) (j : ℕ) (d : Delivery) (id : ℕ) (s : DeliveryAttempt)
    (set : Delivery → Delivery) (f : Endpoint → Endpoint) (o : Option Delivery) (db : Deliveries)
    → db.deliveries id ≡ o
    → Foreign c j d db
    → Foreign c j d (update_row c.worker_id id s set f o db).1
unfolding update_row
update-Foreign c j d id s set f none db q h = h
update-Foreign c j d id s set f (some e) db q h = elim (Bool-cases (holds c.worker_id e)) [
  | inr foreign ↦ rw foreign h
  | inl own ↦ rw own (elim (Bool-cases (storable s)) [
    | inr bad ↦ rw bad h
    | inl good ↦
        rw good (put_elsewhere db.deliveries id j d e c.worker_id q own h.0 h.1 (set e), h.1)
  ])
]

statement-Foreign :
    (c : DeliveryJobConfig) (j : ℕ) (d : Delivery) (id : ℕ) (a : DeliveryAttempt) (now : ℕ)
    (v : Verdict) (db : Deliveries)
    → Foreign c j d db
    → Foreign c j d (statement c id a now v db).1
unfolding statement update_locked
statement-Foreign c j d id a now succeed db h =
    update-Foreign c j d id a (set_succeeded now a) reset_endpoint _ db refl h
statement-Foreign c j d id a now (retry_after delay) db h =
    update-Foreign c j d id a (set_retrying (now + delay) a) (λ e. e) _ db refl h
statement-Foreign c j d id a now give_up db h =
    update-Foreign c j d id a (set_failed a) (count_failure c.auto_disable_after now) _ db refl h

module _ {K : Type 0} (c : DeliveryJobConfig) (send : Claim → World Deliveries K → DeliveryAttempt)
    (done : World Deliveries K → Bool) where
  -- Whatever the endpoints answer and the network does, a batch leaves a delivery as it is that
  -- another worker has claimed, or that none has: a worker whose claim has been taken over changes
  -- nothing of it.
  pub deliver_claimed-Foreign :
      (ds : List Claim) (w : World Deliveries K) (id : ℕ) (d : Delivery)
      → Foreign c id d w.database
      → Foreign c id d (deliver_claimed c send done ds w).1.database
  deliver_claimed-Foreign ds w id d =
      deliver_claimed-Holds (Foreign c id d) c (record { keeps = statement-Foreign c id d }) send
        done ds w
