-- ===== src/Effects/Rules.antt =====
-- Rules for computations in the monad of `Effects`: what holds after a bind, a remote call, and the
-- other combinators, in terms of what holds after their parts.
use monogo.Base.{Bool, true, false}
use monogo.Errors.{Error, sentinel, fault}
use monogo.Effects.{
  World, Net, done, lost, unconfirmed, Result, ok, err, M, ◌>>=◌, continue, remote, settle, next,
  when, rescue, rescued,
}

module _ {D K : Type 0} where
  continue_rule :
      {A B : Type 0} (R : Result A → World D K → Type 0) (Q : Result B → World D K → Type 0)
      (r : Result A) (w : World D K) (k : A → M D K B)
      → R r w
      → ((e : Error) (v : World D K) → R (err e) v → Q (err e) v)
      → ((a : A) (v : World D K) → R (ok a) v → Q (k a v).0 (k a v).1)
      → Q (continue r w k).0 (continue r w k).1
  continue_rule R Q (ok a) w k h he hk = hk a w h
  continue_rule R Q (err e) w k h he hk = he e w h

  pub bind_rule :
      {A B : Type 0} (R : Result A → World D K → Type 0) (Q : Result B → World D K → Type 0)
      (m : M D K A) (w : World D K) (k : A → M D K B)
      → R (m w).0 (m w).1
      → ((e : Error) (v : World D K) → R (err e) v → Q (err e) v)
      → ((a : A) (v : World D K) → R (ok a) v → Q (k a v).0 (k a v).1)
      → Q ((m >>= k) w).0 ((m >>= k) w).1
  bind_rule R Q m w k = continue_rule R Q (m w).0 (m w).1 k

  rescued_rule :
      {A : Type 0} (R Q : Result A → World D K → Type 0) (r : Result A) (w : World D K)
      (handler : Error → M D K A)
      → R r w
      → ((a : A) (v : World D K) → R (ok a) v → Q (ok a) v)
      → ((e : Error) (v : World D K) → R (err e) v → Q (handler e v).0 (handler e v).1)
      → Q (rescued r w handler).0 (rescued r w handler).1
  rescued_rule R Q (ok a) w handler h hk he = hk a w h
  rescued_rule R Q (err e) w handler h hk he = he e w h

  pub rescue_rule :
      {A : Type 0} (R Q : Result A → World D K → Type 0) (m : M D K A) (w : World D K)
      (handler : Error → M D K A)
      → R (m w).0 (m w).1
      → ((a : A) (v : World D K) → R (ok a) v → Q (ok a) v)
      → ((e : Error) (v : World D K) → R (err e) v → Q (handler e v).0 (handler e v).1)
      → Q (rescue m handler w).0 (rescue m handler w).1
  rescue_rule R Q m w = rescued_rule R Q (m w).0 (m w).1

  settle_rule :
      {A : Type 0} (Q : Result A → World D K → Type 0) (n : Net) (r : A × World D K) (w : World D K)
      → Q (ok r.0) r.1
      → Q (err (sentinel fault)) w
      → Q (err (sentinel fault)) r.1
      → Q (settle n r w).0 (settle n r w).1
  settle_rule Q done r w h1 h2 h3 = h1
  settle_rule Q lost r w h1 h2 h3 = h2
  settle_rule Q unconfirmed r w h1 h2 h3 = h3

  -- The world that the server sees.
  abbrev pub arrived : World D K → World D K
  arrived w = record w { net = (next w.net).1 }

  pub remote_rule :
      {A : Type 0} (Q : Result A → World D K → Type 0) (f : World D K → A × World D K)
      (w : World D K)
      → Q (ok (f (arrived w)).0) (f (arrived w)).1
      → Q (err (sentinel fault)) (arrived w)
      → Q (err (sentinel fault)) (f (arrived w)).1
      → Q (remote f w).0 (remote f w).1
  unfolding remote
  remote_rule Q f w = settle_rule Q (next w.net).0 (f (arrived w)) (arrived w)

  pub when_rule :
      (Q : World D K → Type 0) (b : Bool) (m : M D K (Unit {0})) (w : World D K)
      → Q w
      → Q (m w).1
      → Q (when b m w).1
  when_rule Q true m w h hm = hm
  when_rule Q false m w h hm = h
