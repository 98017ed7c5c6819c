-- ===== src/Redis.antt =====
-- Redis, which the repository does not implement, as an interface: the commands that the code and its
-- Lua scripts use, each atomic at the server, and the documented behaviour that the theorems rely on.
pub mod Memory
use monogo.Base.{ℕ, suc, ◌≤◌, ◌≡◌, ◌≢◌, Option, none, some, Text, text_eq, leb, if◌then◌else◌}

-- Scores and times are milliseconds. `uuid_text` is `uuid.UUID.String`.
pub record Redis : Type 1 where
  pub Keyspace : Type 0
  pub get : Text → Keyspace → Option Text
  pub set : Text → Text → ℕ → Keyspace → Keyspace
  pub del : Text → Keyspace → Keyspace
  pub incr : Text → Keyspace → ℕ × Keyspace
  pub pexpire : Text → ℕ → Keyspace → Keyspace
  pub zadd : Text → ℕ → Text → Keyspace → Keyspace
  pub zrem : Text → Text → Keyspace → Keyspace
  pub zscore : Text → Text → Keyspace → Option ℕ
  pub zcard : Text → Keyspace → ℕ
  pub zremrangebyscore : Text → ℕ → Keyspace → Keyspace
  pub uuid_text : ℕ → Text

-- ZREMRANGEBYSCORE key -inf bound removes the scores up to the bound.
abbrev pub above : ℕ → Option ℕ → Option ℕ
above bound none = none
above bound (some score) = if leb score bound then none else some score

-- What the documentation of Redis says of sorted sets. PEXPIRE with a positive time to live, and
-- commands at other keys, leave the members of a sorted set alone.
pub record RedisLaws (r : Redis) : Type 0 where
  pub zscore-zadd :
      (k m : Text) (s : ℕ) (m' : Text) (db : r.Keyspace)
      → r.zscore k m (r.zadd k s m' db) ≡ (if text_eq m' m then some s else r.zscore k m db)
  pub zscore-zrem :
      (k m m' : Text) (db : r.Keyspace)
      → r.zscore k m (r.zrem k m' db) ≡ (if text_eq m' m then none else r.zscore k m db)
  pub zscore-prune :
      (k m : Text) (bound : ℕ) (db : r.Keyspace)
      → r.zscore k m (r.zremrangebyscore k bound db) ≡ above bound (r.zscore k m db)
  pub zscore-pexpire :
      (k m j : Text) (ttl : ℕ) (db : r.Keyspace)
      → r.zscore k m (r.pexpire j (suc ttl) db) ≡ r.zscore k m db
  pub zscore-incr :
      (k m j : Text) (db : r.Keyspace) → j ≢ k → r.zscore k m (r.incr j db).1 ≡ r.zscore k m db
  pub zcard-zadd_new :
      (k m : Text) (s : ℕ) (db : r.Keyspace)
      → r.zscore k m db ≡ none
      → r.zcard k (r.zadd k s m db) ≡ suc (r.zcard k db)
  pub zcard-zadd_old :
      (k m : Text) (s old : ℕ) (db : r.Keyspace)
      → r.zscore k m db ≡ some old
      → r.zcard k (r.zadd k s m db) ≡ r.zcard k db
  pub zcard-zrem_old :
      (k m : Text) (old : ℕ) (db : r.Keyspace)
      → r.zscore k m db ≡ some old
      → suc (r.zcard k (r.zrem k m db)) ≡ r.zcard k db
  pub zcard-zrem_new :
      (k m : Text) (db : r.Keyspace)
      → r.zscore k m db ≡ none
      → r.zcard k (r.zrem k m db) ≡ r.zcard k db
  pub zcard-prune :
      (k : Text) (bound : ℕ) (db : r.Keyspace)
      → r.zcard k (r.zremrangebyscore k bound db) ≤ r.zcard k db
  pub zcard-pexpire :
      (k j : Text) (ttl : ℕ) (db : r.Keyspace) → r.zcard k (r.pexpire j (suc ttl) db) ≡ r.zcard k db
  pub zcard-incr : (k j : Text) (db : r.Keyspace) → j ≢ k → r.zcard k (r.incr j db).1 ≡ r.zcard k db
