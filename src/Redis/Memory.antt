-- ===== src/Redis/Memory.antt =====
-- A Redis held in memory, at which the theorems over the interface are tried.
mod Sets
pub mod Laws
use monogo.Base.{ℕ, ◌+◌, List, [], ◌∷◌, Option, none, some, Text, text_eq, if◌then◌else◌}
use monogo.Redis.{Redis}
pub use Sets.{SortedSet}
use Sets.{score, card, without, keep_above}

-- Strings, counters and sorted sets. No key expires by itself.
pub record Memory : Type 0 where
  pub strings : Text → Option Text
  pub counters : Text → ℕ
  pub sets : Text → SortedSet

abbrev pub at_key {ℓ} : {A : Type ℓ} → Text → A → (Text → A) → Text → A
at_key key a f k = if text_eq key k then a else f k

abbrev pub change_set : Text → (SortedSet → SortedSet) → Memory → Memory
change_set k f db = record db { sets = at_key k (f (db.sets k)) db.sets }

abbrev pub memory : Redis
memory = record {
  Keyspace = Memory;
  get = λ k db. db.strings k;
  set = λ k v ttl db. record db { strings = at_key k (some v) db.strings };
  del = λ k db. record db { strings = at_key k none db.strings };
  incr = λ k db.
      (db.counters k + 1, record db { counters = at_key k (db.counters k + 1) db.counters });
  pexpire = λ k ttl db. db;
  zadd = λ k s m db. change_set k (λ set. (m, s) ∷ without m set) db;
  zrem = λ k m db. change_set k (without m) db;
  zscore = λ k m db. score m (db.sets k);
  zcard = λ k db. card (db.sets k);
  zremrangebyscore = λ k bound db. change_set k (λ set. keep_above bound set set) db;
  uuid_text = λ id. id ∷ [];
}

abbrev pub empty_memory : Memory
empty_memory = record { strings = λ k. none; counters = λ k. 0; sets = λ k. [] }
