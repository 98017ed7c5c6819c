-- ===== src/RateLimit/Window.antt =====
-- How many requests a window lets through.
use monogo.Base.{
  ℕ, zero, suc, ◌+◌, ◌-◌, ◌≡◌, ap, ◌∙◌, Bool, true, false, Text, ◌==◌, leb, arith, Bool-cases, inl,
  inr,
}
use Prim.Native.Nat.{min}
use monogo.Redis.{Redis}
use monogo.RateLimit.{window_script}

-- What the documentation of Redis says of a counter while it does not expire: INCR returns the value
-- that it leaves, one more than before, and PEXPIRE leaves the value alone. A missing key counts 0.
pub record CounterLaws (r : Redis) (counter : Text → r.Keyspace → ℕ) : Type 0 where
  pub incr-reply : (k : Text) (db : r.Keyspace) → (r.incr k db).0 ≡ counter k db + 1
  pub counter-incr : (k : Text) (db : r.Keyspace) → counter k (r.incr k db).1 ≡ counter k db + 1
  pub counter-pexpire :
      (k : Text) (ttl : ℕ) (db : r.Keyspace) → counter k (r.pexpire k (suc ttl) db) ≡ counter k db

abbrev one_if : Bool → ℕ
one_if true = 1
one_if false = 0

module _ (r : Redis) (key : Text) (limit window : ℕ) where
  -- How many of `n` requests in a row the script lets through.
  pub let_through : ℕ → r.Keyspace → ℕ
  let_through zero db = 0
  let_through (suc n) db =
      one_if (window_script r key limit window db).0
      + let_through n (window_script r key limit window db).1

module _ (r : Redis) (counter : Text → r.Keyspace → ℕ) (laws : CounterLaws r counter) (key : Text)
    (limit ttl : ℕ) where
  script-counter :
      (db : r.Keyspace)
      → counter key (window_script r key limit (suc ttl) db).1 ≡ counter key db + 1
  unfolding window_script
  script-counter db = elim (Bool-cases ((r.incr key db).0 == 1)) [
    | inl e ↦ rw e (laws.counter-pexpire key ttl _ ∙ laws.counter-incr key db)
    | inr e ↦ rw e (laws.counter-incr key db)
  ]

  script-allows :
      (db : r.Keyspace)
      → (window_script r key limit (suc ttl) db).0 ≡ leb (counter key db + 1) limit
  unfolding window_script
  script-allows db = ap (λ n. leb n limit) (laws.incr-reply key db)

  counted :
      (c n rest : ℕ)
      → rest ≡ min n (limit - (c + 1))
      → one_if (leb (c + 1) limit) + rest ≡ min (suc n) (limit - c)
  counted c n rest h = ground arith

  -- By the laws of a counter, with a positive window: of any number of requests that fall into one
  -- window exactly as many are let through as the limit has left, the first ones.
  pub let_through-min :
      (n : ℕ) (db : r.Keyspace)
      → let_through r key limit (suc ttl) n db ≡ min n (limit - counter key db)
  unfolding let_through
  let_through-min zero db = omega arith
  let_through-min (suc n) db = rw (script-allows db) (
      counted (counter key db) n _
        (let_through-min n _ ∙ ap (λ c. min n (limit - c)) (script-counter db)))
