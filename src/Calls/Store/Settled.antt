-- ===== src/Calls/Store/Settled.antt =====
-- What `mutate` leaves in the two tables.
use monogo.Base.{
  ℕ, ◌≡◌, ◌≢◌, refl, sym, subst, false, ◌⊎◌, inl, inr, ==_iff, Bool-cases, ◌==◌, [], ◌∷◌, ◌++◌,
  Option, some, String,
}
use monogo.Errors.{Error}
use monogo.Effects.{World, Result, ok, err}
use monogo.Calls.Model.{Call}
use monogo.Calls.Store.{Database, Calls, OutboxEvent, commit, outbox_event, insert, mutate}
use monogo.Calls.Store.Steps.{Outcome, untouched, committed, mutate-Outcome}

-- The row `c` of the call `id` is in the table, every other row is as it was, and the outbox has one
-- event more, of this type and time, that carries the row.
pub record Written (event_type : String) (id : ℕ) (c : Call) (now : ℕ) (d d' : Database)
    : Type 0 where
  pub row : d'.calls id ≡ some c
  pub others : (j : ℕ) → j ≢ id → d'.calls j ≡ d.calls j
  pub event : OutboxEvent
  pub one_event : d'.outbox ≡ d.outbox ++ event ∷ []
  pub about :
      (event.subject ≡ event_type)
      × (event.aggregate_type ≡ "call")
      × (event.aggregate_id ≡ id)
      × (event.organization_id ≡ c.organization_id)
      × (event.resource ≡ c)
      × (event.occurred_at ≡ now)

pub data Settled (event_type : String) (mutation : Calls → ℕ → Option (ℕ × Call)) (d : Database)
    (now : ℕ) (r : Result (ℕ × Call)) (d' : Database) : Type 0 where
  failed : (e : Error) → r ≡ err e → d' ≡ d → Settled event_type mutation d now r d'
  done :
      (id : ℕ) (c : Call)
      → mutation d.calls now ≡ some (id, c)
      → Written event_type id c now d d'
      → (r ≡ ok (id, c)) ⊎ ((e : Error) × (r ≡ err e))
      → Settled event_type mutation d now r d'

other_key : (j id : ℕ) → j ≢ id → (j == id) ≡ false
other_key j id n = elim (Bool-cases (j == id)) [
  | inl e ↦ absurd (n ((==_iff j id).0 e))
  | inr e ↦ e
]

commit-Written :
    (event_type : String) (id : ℕ) (c : Call) (now : ℕ) (d : Database)
    → Written event_type id c now d (commit id c (outbox_event event_type id c now) d)
unfolding commit insert outbox_event
commit-Written event_type id c now d = record {
  row = rw ((==_iff id id).1 refl) refl;
  others = λ j n. rw (other_key j id n) refl;
  event = outbox_event event_type id c now;
  one_event = refl;
  about = (refl, refl, refl, refl, refl, refl);
}

Outcome-Settled :
    {event_type : String} {mutation : Calls → ℕ → Option (ℕ × Call)} {d : Database} {now : ℕ}
    {r : Result (ℕ × Call)} {d' : Database}
    → Outcome event_type mutation d now r d'
    → Settled event_type mutation d now r d'
Outcome-Settled (untouched e p q) = failed e p q
Outcome-Settled {event_type} {d} {now} (committed id c q p s) =
    done id c q
      (subst (Written event_type id c now d) (sym p) (commit-Written event_type id c now d)) s

-- Whatever the mutation and whatever the network does, a transaction either fails and leaves the
-- database as it was; or the row of the mutation, run on the table as it stood, is in the table, every
-- other row is as it was, and the outbox has exactly one event more, which carries that row, its key,
-- its organization, the event type and the time. Where it reports an error after that, only the
-- reply was lost.
pub mutate-Settled :
    {K : Type 0} (event_type : String) (mutation : Calls → ℕ → Option (ℕ × Call))
    (w : World Database K)
    → Settled event_type mutation w.database w.now
        (mutate event_type mutation w).0
        (mutate event_type mutation w).1.database
mutate-Settled event_type mutation w = Outcome-Settled (mutate-Outcome event_type mutation w)
