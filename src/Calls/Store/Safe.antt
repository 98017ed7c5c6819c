-- ===== src/Calls/Store/Safe.antt =====
-- Of a computation: whatever the network does, all that it does to the calls and the outbox is a
-- sequence of the steps of `Steps`.
use monogo.Base.{ℕ, ◌≡◌, inl, inr, Bool, true, Option, none, some, Text, arith, Option-cases}
use monogo.Errors.{Error}
use monogo.Effects.{
  World, Result, M, ◌>>=◌, remote, pure, fail, try, ignore, guard, when, when_some, map_error,
  rescue, lift,
}
use monogo.Effects.Rules.{bind_rule, remote_rule, when_rule, rescue_rule, arrived}
use monogo.Effects.Quiet.{Quiet, guard-Quiet}
use monogo.Calls.Model.{Call}
use monogo.Calls.Store.{
  Mark, Database, Calls, may_mark, set_mark, subject, mark, update_where, returned,
}
use monogo.Calls.Store.Steps.{
  Reach, here, next_step, marked, Outcome, untouched, committed, mutate-Outcome,
}

pub Reach-trans : {d e f : Database} → Reach d e → Reach e f → Reach d f
Reach-trans p here = p
Reach-trans p (next_step q s) = next_step (Reach-trans p q) s

pub update_where-eq-some :
    (organization_id id : ℕ) (where_clause : Call → Bool) (change : Call → Call) (calls : Calls)
    (key : ℕ) (c' : Call)
    → update_where organization_id id where_clause change calls ≡ some (key, c')
    → (c : Call) × (calls id ≡ some c) × (where_clause c ≡ true) × (key ≡ id) × (c' ≡ change c)
unfolding update_where
update_where-eq-some organization_id id where_clause change calls key c' h =
    elim (Option-cases (calls id)) [
      | inl e ↦ absurd (ground arith)
      | inr (c, e) ↦ (c, e, ground arith, ground arith, ground arith)
    ]

Outcome-Reach :
    (m : Mark) (organization_id id : ℕ) (reason : Option Text) (d : Database) (now : ℕ)
    (r : Result (ℕ × Call)) (d' : Database)
    → Outcome
        (subject m)
        (λ calls t. update_where organization_id id (may_mark m) (set_mark m t reason) calls)
        d
        now
        r
        d'
    → Reach d d'
Outcome-Reach m organization_id id reason d now r d' (untouched e p q) = rw q here
Outcome-Reach m organization_id id reason d now r d' (committed key c' q p s) =
    let (c, found, allowed, k, set) =
      update_where-eq-some organization_id id (may_mark m) (set_mark m now reason) d.calls key c'
        q in
    rw (p, k, set) (next_step here (marked id c m reason now found allowed))

pub record Safe {K A : Type 0} (m : M Database K A) : Type 0 where
  pub run : (w : World Database K) → Reach w.database (m w).1.database

module _ {K : Type 0} where
  pub bind-Safe :
      {A B : Type 0} {m : M Database K A} {k : A → M Database K B}
      → Safe m
      → ((a : A) → Safe (k a))
      → Safe (m >>= k)
  bind-Safe {m} {k} hm hk = record {
    run = λ w.
        bind_rule (λ r v. Reach w.database v.database) (λ r v. Reach w.database v.database) m w k
          (hm.run w) (λ e v h. h) (λ a v h. Reach-trans h ((hk a).run v));
  }

  pub rescue-Safe :
      {A : Type 0} {m : M Database K A} {handler : Error → M Database K A}
      → Safe m
      → ((e : Error) → Safe (handler e))
      → Safe (rescue m handler)
  rescue-Safe {m} {handler} hm he = record {
    run = λ w.
        rescue_rule (λ r v. Reach w.database v.database) (λ r v. Reach w.database v.database) m w
          handler (hm.run w) (λ a v h. h) (λ e v h. Reach-trans h ((he e).run v));
  }

  pub lift-Safe : {A : Type 0} (r : Result A) → Safe {K = K} (lift r)
  lift-Safe r = record { run = λ w. here }

  pub when-Safe : {m : M Database K (Unit {0})} (b : Bool) → Safe m → Safe (when b m)
  when-Safe {m} b h = record {
    run = λ w. when_rule (λ v. Reach w.database v.database) b m w here (h.run w);
  }

  pub when_some-Safe :
      {A : Type 0} {k : A → M Database K (Unit {0})} (o : Option A)
      → ((a : A) → Safe (k a))
      → Safe (when_some o k)
  when_some-Safe none h = record { run = λ w. here }
  when_some-Safe (some a) h = record { run = λ w. (h a).run w }

  pub map_error-Safe :
      {A : Type 0} {m : M Database K A} (f : Error → Error) → Safe m → Safe (map_error f m)
  map_error-Safe f h = record { run = λ w. h.run w }

  pub ignore-Safe : {A : Type 0} {m : M Database K A} → Safe m → Safe (ignore m)
  ignore-Safe h = record { run = λ w. h.run w }

  pub try-Safe : {A : Type 0} {m : M Database K A} → Safe m → Safe (try m)
  try-Safe h = record { run = λ w. h.run w }

  pub pure-Safe : {A : Type 0} (a : A) → Safe {K = K} (pure a)
  pure-Safe a = record { run = λ w. here }

  pub fail-Safe : {A : Type 0} (e : Error) → Safe {K = K} {A = A} (fail e)
  fail-Safe e = record { run = λ w. here }

  pub Quiet-Safe : {A : Type 0} {m : M Database K A} → Quiet m → Safe m
  Quiet-Safe {m} h = record { run = λ w. rw (h.run w) here }

  pub guard-Safe : (b : Bool) (e : Error) → Safe {K = K} (guard b e)
  guard-Safe b e = Quiet-Safe (guard-Quiet b e)

  -- A call of a server that makes steps.
  pub remote-Safe :
      {A : Type 0} (f : World Database K → A × World Database K)
      → ((w : World Database K) → Reach w.database (f w).1.database)
      → Safe (remote f)
  remote-Safe f h = record {
    run = λ w.
        remote_rule (λ r v. Reach w.database v.database) f w (h (arrived w)) here (h (arrived w));
  }

  pub mark-Safe :
      (m : Mark) (organization_id id : ℕ) (reason : Option Text)
      → Safe {K = K} (mark m organization_id id reason)
  unfolding mark
  mark-Safe m organization_id id reason = record {
    run =
        λ w. Outcome-Reach m organization_id id reason w.database w.now _ _ (mutate-Outcome _ _ w);
  }

  pub returned-Safe : {A : Type 0} (o : Option A) → Safe {K = K} (returned o)
  unfolding returned
  returned-Safe none = record { run = λ w. here }
  returned-Safe (some a) = record { run = λ w. here }

pub ruleset safe_rules = (
  bind-Safe, when-Safe, when_some-Safe, map_error-Safe, ignore-Safe, try-Safe, pure-Safe, fail-Safe,
  guard-Safe, returned-Safe, rescue-Safe, lift-Safe,
)
