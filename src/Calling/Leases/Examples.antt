-- ===== src/Calling/Leases/Examples.antt =====
-- The theorems on leases at a Redis held in memory.
use monogo.Base.{ℕ, ◌≡◌, refl, false, true, none, some, codes, ◌⊎◌, text_eq, Text}
use monogo.Redis.Memory.{Memory, memory, empty_memory}
use monogo.Redis.Memory.Laws.{memory-RedisLaws}
use monogo.Calling.Leases.{
  leases_key, acquire_script, admit, put_lease, count_attempt, bind_script, granted,
  over_concurrent,
}
use monogo.Calling.Leases.Admission.{Acquired, acquire_script-Acquired}
use monogo.Calling.Leases.Binding.{Moved, bind_script-Moved}

abbrev prefix : Text
prefix = codes "trunk"

-- At most one call at a time: `a` is in, `b` has to wait until the lease of `a` has expired.
abbrev taken : Memory
taken = (acquire_script memory prefix (codes "a") 5 1 1000 500 empty_memory).1

refused_test : (acquire_script memory prefix (codes "b") 5 1 1200 500 taken).0 ≡ over_concurrent
unfolding acquire_script admit put_lease count_attempt text_eq
refused_test = refl

granted_test : (acquire_script memory prefix (codes "b") 5 1 1500 500 taken).0 ≡ granted
unfolding acquire_script admit put_lease count_attempt text_eq
granted_test = refl

acquire_script-Acquired_example :
    Acquired memory memory-RedisLaws prefix
      (codes "b")
      1200
      500
      1
      taken
      (acquire_script memory prefix (codes "b") 5 1 1200 500 taken)
acquire_script-Acquired_example =
    acquire_script-Acquired memory memory-RedisLaws prefix (codes "b") 5 1 1200 499 taken

bind_script-Moved_example :
    ((memory.zscore (leases_key prefix) (codes "a") taken ≡ none)
      × (bind_script memory prefix (codes "a") (codes "7") taken ≡ (false, taken)))
    ⊎ ((score : ℕ) × (memory.zscore (leases_key prefix) (codes "a") taken ≡ some score)
        × ((bind_script memory prefix (codes "a") (codes "7") taken).0 ≡ true)
        × Moved memory
            (leases_key prefix)
            (codes "a")
            (codes "7")
            score
            taken
            (bind_script memory prefix (codes "a") (codes "7") taken).1)
unfolding text_eq
bind_script-Moved_example =
    bind_script-Moved memory memory-RedisLaws prefix (codes "a") (codes "7") taken refl
