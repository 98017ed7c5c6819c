-- ===== src/RateLimit/Examples.antt =====
-- A window of three requests at a Redis held in memory.
use monogo.Base.{ℕ, ◌-◌, ◌≡◌, refl, Text, codes, text_eq_refl}
use Prim.Native.Nat.{min}
use monogo.Redis.Memory.{Memory, memory, empty_memory}
use monogo.RateLimit.Window.{CounterLaws, let_through, let_through-min}

abbrev counter : Text → Memory → ℕ
counter key db = db.counters key

memory-CounterLaws : CounterLaws memory counter
memory-CounterLaws = record {
  incr-reply = λ k db. refl;
  counter-incr = λ k db. rw (text_eq_refl k) refl;
  counter-pexpire = λ k ttl db. refl;
}

let_through-min_example :
    let_through memory (codes "api") 3 60_000 5 empty_memory
    ≡ min 5 (3 - counter (codes "api") empty_memory)
let_through-min_example =
    let_through-min memory counter memory-CounterLaws (codes "api") 3 59_999 5 empty_memory
