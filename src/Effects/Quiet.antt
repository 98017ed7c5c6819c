-- ===== src/Effects/Quiet.antt =====
-- Computations that leave the database alone.
use monogo.Base.{◌≡◌, refl, ◌∙◌, Bool, true, false, if◌then◌else◌}
use monogo.Errors.{Error}
use monogo.Effects.{World, Result, M, ◌>>=◌, pure, fail, lift, remote, guard, map_error}
use monogo.Effects.Rules.{bind_rule, remote_rule, arrived}

pub record Quiet {D K A : Type 0} (m : M D K A) : Type 0 where
  pub run : (w : World D K) → (m w).1.database ≡ w.database

module _ {D K : Type 0} where
  pub bind-Quiet :
      {A B : Type 0} {m : M D K A} {k : A → M D K B}
      → Quiet m
      → ((a : A) → Quiet (k a))
      → Quiet (m >>= k)
  bind-Quiet {m} {k} hm hk = record {
    run = λ w.
        bind_rule (λ r v. v.database ≡ w.database) (λ r v. v.database ≡ w.database) m w k (hm.run w)
          (λ e v h. h) (λ a v h. (hk a).run v ∙ h);
  }

  pub guard-Quiet : (b : Bool) (e : Error) → Quiet {D = D} {K = K} (guard b e)
  guard-Quiet true e = record { run = λ w. refl }
  guard-Quiet false e = record { run = λ w. refl }

  pub map_error-Quiet :
      {A : Type 0} {m : M D K A} (f : Error → Error) → Quiet m → Quiet (map_error f m)
  map_error-Quiet f h = record { run = λ w. h.run w }

  pub remote-Quiet :
      {A : Type 0} (f : World D K → A × World D K)
      → ((w : World D K) → (f w).1.database ≡ w.database)
      → Quiet (remote f)
  remote-Quiet f h = record {
    run =
        λ w. remote_rule (λ r v. v.database ≡ w.database) f w (h (arrived w)) refl (h (arrived w));
  }

  pub pure-Quiet : {A : Type 0} (a : A) → Quiet {D = D} {K = K} (pure a)
  pure-Quiet a = record { run = λ w. refl }

  pub fail-Quiet : {A : Type 0} (e : Error) → Quiet {D = D} {K = K} {A = A} (fail e)
  fail-Quiet e = record { run = λ w. refl }

  pub lift-Quiet : {A : Type 0} (r : Result A) → Quiet {D = D} {K = K} (lift r)
  lift-Quiet r = record { run = λ w. refl }

  pub if-Quiet :
      {A : Type 0} {m k : M D K A} (b : Bool) → Quiet m → Quiet k → Quiet (if b then m else k)
  if-Quiet true h k = h
  if-Quiet false h k = k

pub ruleset quiet_rules =
    (bind-Quiet, guard-Quiet, map_error-Quiet, pure-Quiet, fail-Quiet, lift-Quiet, if-Quiet)
