-- ===== src/Calls/Store/Steps.antt =====
-- What a computation can do to the database: the guarded statements as a step relation, and rules that
-- show of a computation that it makes such steps and no other.
use monogo.Base.{ℕ, ◌≡◌, refl, sym, subst, ◌⊎◌, inl, inr, true, Option, none, some, String, Text}
use monogo.Errors.{Error, wrapped}
use monogo.Effects.{World, Result, ok, err, ◌>>◌, on_error, remote, pure}
use monogo.Effects.Rules.{bind_rule, remote_rule}
use monogo.Calls.Model.{State, Call, ringing}
use monogo.Calls.Store.{
  Mark, Database, Calls, may_mark, set_mark, subject, may_bind_sip, set_sip, outbox_event,
  write_row, commit, mutate, begin_transaction, run_query, insert_event, commit_transaction,
  returned, is_early,
}
use monogo.Calls.Store.Queries.{CreateCallParams, new_row, set_route}

-- The event type under which a call appears.
abbrev pub announcement : State → String
announcement ringing = "call.ringing"
announcement _ = "call.initiated"

pub data Step (d : Database) : Database → Type 0 where
  bound :
      (id : ℕ) (c : Call) (sip : Text) (now : ℕ)
      → d.calls id ≡ some c
      → may_bind_sip sip c ≡ true
      → Step d (write_row id (set_sip sip now c) d)
  marked :
      (id : ℕ) (c : Call) (m : Mark) (reason : Option Text) (now : ℕ)
      → d.calls id ≡ some c
      → may_mark m c ≡ true
      → Step d (
          commit id
            (set_mark m now reason c)
            (outbox_event (subject m) id (set_mark m now reason c) now)
            d)
  created :
      (id : ℕ) (params : CreateCallParams) (event_type : String) (now : ℕ)
      → d.calls id ≡ none
      → is_early (new_row params now).state ≡ true
      → event_type ≡ announcement (new_row params now).state
      → Step d
          (commit id (new_row params now) (outbox_event event_type id (new_row params now) now) d)
  attributed :
      (id : ℕ) (c : Call) (trunk_id trunk_endpoint_id : Option ℕ) (now : ℕ)
      → d.calls id ≡ some c
      → Step d (write_row id (set_route trunk_id trunk_endpoint_id now c) d)

pub data Reach (d : Database) : Database → Type 0 where
  here : Reach d d
  next_step : {e f : Database} → Reach d e → Step e f → Reach d f

-- What a transaction leaves: nothing and an error, or its row and its event, committed; in the second
-- case an error says that the reply to the commit was lost.
pub data Outcome (event_type : String) (mutation : Calls → ℕ → Option (ℕ × Call)) (d : Database)
    (now : ℕ) (r : Result (ℕ × Call)) (d' : Database) : Type 0 where
  untouched : (e : Error) → r ≡ err e → d' ≡ d → Outcome event_type mutation d now r d'
  committed :
      (id : ℕ) (c : Call)
      → mutation d.calls now ≡ some (id, c)
      → d' ≡ commit id c (outbox_event event_type id c now) d
      → (r ≡ ok (id, c)) ⊎ ((e : Error) × (r ≡ err e))
      → Outcome event_type mutation d now r d'

-- Nothing has reached the database, and the clock has not moved.
abbrev Idle : {K : Type 0} → Database → ℕ → World Database K → Type 0
Idle d now w = (w.database ≡ d) × (w.now ≡ now)

module _ {K : Type 0} (d : Database) (now : ℕ) (w : World Database K) (h : Idle d now w) where
  begin-Idle : Idle d now (begin_transaction w).1
  unfolding begin_transaction
  begin-Idle = remote_rule (λ r v. Idle d now v) (λ v. (tt, v)) w h h h

  insert-Idle : Idle d now (insert_event w).1
  unfolding insert_event
  insert-Idle = remote_rule (λ r v. Idle d now v) (λ v. (tt, v)) w h h h

-- The database after the commit of a row.
abbrev target : String → Database → ℕ → ℕ × Call → Database
target event_type d now row = commit row.0 row.1 (outbox_event event_type row.0 row.1 now) d

module _ {K : Type 0} (event_type : String) (mutation : Calls → ℕ → Option (ℕ × Call))
    (d : Database) (now : ℕ) where
  abbrev Left : Result (ℕ × Call) → World Database K → Type 0
  Left r v = Outcome event_type mutation d now r v.database

  abbrev Queried : Result (ℕ × Call) → World Database K → Type 0
  Queried (ok row) w = Idle d now w × (mutation d.calls now ≡ some row)
  Queried (err e) w = Idle d now w

  abbrev Read : Result (Option (ℕ × Call)) → World Database K → Type 0
  Read (ok o) w = Idle d now w × (mutation d.calls now ≡ o)
  Read (err e) w = Idle d now w

  abbrev Ended : ℕ × Call → Result (Unit {0}) → World Database K → Type 0
  Ended row (ok a) w = w.database ≡ target event_type d now row
  Ended row (err e) w = (w.database ≡ d) ⊎ (w.database ≡ target event_type d now row)

  returned-Queried :
      (o : Option (ℕ × Call)) (w : World Database K)
      → Idle d now w
      → mutation d.calls now ≡ o
      → Queried (returned o w).0 (returned o w).1
  unfolding returned
  returned-Queried none w h e = h
  returned-Queried (some row) w h e = (h, e)

  query-Queried :
      (w : World Database K)
      → Idle d now w
      → Queried (run_query mutation w).0 (run_query mutation w).1
  unfolding run_query
  query-Queried w h =
      bind_rule Read Queried (remote (λ v. (mutation v.database.calls v.now, v))) w returned
        (remote_rule Read (λ v. (mutation v.database.calls v.now, v)) w (h, cc) h h) (λ e v i. i)
        (λ o v i. returned-Queried o v i.0 i.1)

  commit-Ended :
      (row : ℕ × Call) (w : World Database K)
      → Idle d now w
      → Ended row
          (commit_transaction event_type row.0 row.1 now w).0
          (commit_transaction event_type row.0 row.1 now w).1
  unfolding commit_transaction
  commit-Ended row w h =
      remote_rule (λ r v. Ended row (on_error (wrapped "commit call transaction") r) v) _ w (cc)
        (inl h.0) (inr (cc))

  commit-Left :
      (row : ℕ × Call) (t : ℕ) (w : World Database K)
      → now ≡ t
      → Idle d now w
      → mutation d.calls now ≡ some row
      → Left
          ((commit_transaction event_type row.0 row.1 t >> pure row) w).0
          ((commit_transaction event_type row.0 row.1 t >> pure row) w).1
  commit-Left row t w e h q =
      subst
        (λ t.
          Left ((commit_transaction event_type row.0 row.1 t >> pure row) w).0
            ((commit_transaction event_type row.0 row.1 t >> pure row) w).1)
        e
        (bind_rule (Ended row) Left (commit_transaction event_type row.0 row.1 now) w _
          (commit-Ended row w h)
          (λ e v i. elim i [
            | inl p ↦ untouched e refl p
            | inr p ↦ committed row.0 row.1 q p (inr (e, refl))
          ])
          (λ a v i. committed row.0 row.1 q i (inl refl)))

  mutate-Left :
      (w : World Database K)
      → Idle d now w
      → Left (mutate event_type mutation w).0 (mutate event_type mutation w).1
  unfolding mutate
  mutate-Left w h =
      bind_rule (λ r v. Idle d now v) Left begin_transaction w _ (begin-Idle d now w h)
        (λ e v i. untouched e refl i.0)
        (λ a v i.
          bind_rule Queried Left (run_query mutation) v _ (query-Queried v i)
            (λ e u j. untouched e refl j.0)
            (λ row u j.
              bind_rule (λ r x. Idle d now x) Left insert_event u _ (insert-Idle d now u j.0)
                (λ e x k. untouched e refl k.0)
                (λ b x k. commit-Left row u.now x (sym j.0.1) k j.1)))

-- Whatever the mutation and whatever the network does, a transaction either fails and leaves the
-- database as it was, or puts the row of the mutation, run on the table as it stood, together with one
-- event that names it; where it reports an error after that, only the reply was lost.
pub mutate-Outcome :
    {K : Type 0} (event_type : String) (mutation : Calls → ℕ → Option (ℕ × Call))
    (w : World Database K)
    → Outcome event_type mutation w.database w.now
        (mutate event_type mutation w).0
        (mutate event_type mutation w).1.database
mutate-Outcome event_type mutation w =
    mutate-Left event_type mutation w.database w.now w (refl, refl)
