-- ===== src/Effects.antt =====
-- How the model runs code that talks to PostgreSQL and Redis: a state monad with errors over a world
-- that holds the database, the Redis keyspace, the clock, and the fate of each remote call to come.
pub mod Rules
pub mod Quiet
use monogo.Base.{ℕ, Bool, true, false, List, [], ◌∷◌, Option, none, some}
use monogo.Errors.{Error, sentinel, fault}

-- A remote call is done, or lost before it takes effect, or takes effect and its reply is lost.
pub data Net : Type 0 where
  done lost unconfirmed : Net

-- A remote call beyond the end of `net` is done.
pub record World (D K : Type 0) : Type 0 where
  pub database : D
  pub keyspace : K
  pub net : List Net
  pub now : ℕ

pub data Result {ℓ} (A : Type ℓ) : Type ℓ where
  ok : A → Result A
  err : Error → Result A

abbrev pub M : Type 0 → Type 0 → Type 0 → Type 0
M D K A = World D K → Result A × World D K

abbrev pub on_error : {A : Type 0} → (Error → Error) → Result A → Result A
on_error f (ok a) = ok a
on_error f (err e) = err (f e)

abbrev pub next : List Net → Net × List Net
next [] = (done, [])
next (n ∷ ns) = (n, ns)

module _ {D K : Type 0} where
  infixl 5 ◌>>=◌ ◌>>◌
  abbrev pub continue : {A B : Type 0} → Result A → World D K → (A → M D K B) → Result B × World D K
  continue (ok a) w k = k a w
  continue (err e) w k = (err e, w)

  abbrev pub ◌>>=◌ : {A B : Type 0} → M D K A → (A → M D K B) → M D K B
  ◌>>=◌ m k w = continue (m w).0 (m w).1 k

  abbrev pub ◌>>◌ : {B : Type 0} → M D K (Unit {0}) → M D K B → M D K B
  m >> k = m >>= λ _. k

  abbrev pub pure : {A : Type 0} → A → M D K A
  pure a w = (ok a, w)

  abbrev pub fail : {A : Type 0} → Error → M D K A
  fail e w = (err e, w)

  -- Run, and hand the error over as a value.
  abbrev pub try : {A : Type 0} → M D K A → M D K (Result A)
  try m w = (ok (m w).0, (m w).1)

  -- `if err != nil { … }`: the handler of an error ends in a result of its own.
  abbrev pub rescued :
      {A : Type 0} → Result A → World D K → (Error → M D K A) → Result A × World D K
  rescued (ok a) w handler = (ok a, w)
  rescued (err e) w handler = handler e w

  abbrev pub rescue : {A : Type 0} → M D K A → (Error → M D K A) → M D K A
  rescue m handler w = rescued (m w).0 (m w).1 handler

  -- A result that is computed without a server.
  abbrev pub lift : {A : Type 0} → Result A → M D K A
  lift r w = (r, w)

  -- `_ = m`.
  abbrev pub ignore : {A : Type 0} → M D K A → M D K (Unit {0})
  ignore m w = (ok tt, (m w).1)

  abbrev pub map_error : {A : Type 0} → (Error → Error) → M D K A → M D K A
  map_error f m w = (on_error f (m w).0, (m w).1)

  abbrev pub when : Bool → M D K (Unit {0}) → M D K (Unit {0})
  when true m w = m w
  when false m w = (ok tt, w)

  -- `if p != nil { m(*p) }`.
  abbrev pub when_some : {A : Type 0} → Option A → (A → M D K (Unit {0})) → M D K (Unit {0})
  when_some none k w = (ok tt, w)
  when_some (some a) k w = k a w

  abbrev pub guard : Bool → Error → M D K (Unit {0})
  guard true e w = (ok tt, w)
  guard false e w = (err e, w)

  abbrev pub clock : M D K ℕ
  clock w = (ok w.now, w)

  abbrev pub read_database : M D K D
  read_database w = (ok w.database, w)

  -- A call of a server: `f` is what it does to the world there. It fails unless it is done.
  abbrev pub settle : {A : Type 0} → Net → A × World D K → World D K → Result A × World D K
  settle done r w = (ok r.0, r.1)
  settle lost r w = (err (sentinel fault), w)
  settle unconfirmed r w = (err (sentinel fault), r.1)

  unfoldable pub remote : {A : Type 0} → (World D K → A × World D K) → M D K A
  remote f w =
      let w' : World D K = record w { net = (next w.net).1 } in settle (next w.net).0 (f w') w'
