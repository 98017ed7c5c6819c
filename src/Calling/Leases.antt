-- ===== src/Calling/Leases.antt =====
-- The call leases of server/internal/integrations/redis/cache.go: each Lua script as a function on the
-- keyspace, which Redis runs atomically, and the client method that evaluates it. A context is never
-- nil and the client is configured. Limits and times to live that are not positive are 0 here.
pub mod Quiet
pub mod Admission
pub mod Binding
mod Examples
use monogo.Base.{
  ℕ, ◌+◌, Bool, true, false, not, ◌&&◌, ◌++◌, none, some, Text, codes, is_empty, ◌==◌, ltb, leb,
  if◌then◌else◌,
}
use monogo.Errors.{plain, wrapped}
use monogo.Effects.{M, ◌>>=◌, ◌>>◌, guard, remote, map_error}
use monogo.Redis.{Redis}

-- The reply of the acquisition script.
pub data Reply : Type 0 where
  granted over_cps over_concurrent : Reply

abbrev pub leases_key : Text → Text
leases_key prefix = prefix ++ codes ":leases"

abbrev pub cps_key : Text → Text
cps_key prefix = prefix ++ codes ":cps"

module _ (r : Redis) where
  open r use {Keyspace, incr, pexpire, zadd, zrem, zscore, zcard, zremrangebyscore}

  put_lease : Text → ℕ → ℕ → Text → Keyspace → Keyspace
  put_lease key now ttl lease_id db = pexpire key ttl (zadd key (now + ttl) lease_id db)

  -- INCR, with the expiry of a new counter.
  count_attempt : Text → Keyspace → ℕ × Keyspace
  count_attempt key db =
      let (cps, db') = incr key db in (cps, if cps == 1 then pexpire key 1000 db' else db')

  -- The script from its INCR on, where the lease is not yet held.
  admit : Text → Text → ℕ → ℕ → ℕ → ℕ → Keyspace → Reply × Keyspace
  unfolding count_attempt put_lease
  admit prefix lease_id max_cps max_concurrent now ttl db =
      let (cps, db') = count_attempt (cps_key prefix) db in
      if ltb max_cps cps
      then (over_cps, db')
      else if leb max_concurrent (zcard (leases_key prefix) db')
      then (over_concurrent, db')
      else (granted, put_lease (leases_key prefix) now ttl lease_id db')

  pub acquire_script : Text → Text → ℕ → ℕ → ℕ → ℕ → Keyspace → Reply × Keyspace
  unfolding put_lease
  acquire_script prefix lease_id max_cps max_concurrent now ttl db =
      let live = zremrangebyscore (leases_key prefix) now db in
      elim (zscore (leases_key prefix) lease_id live) [
        | some score ↦ (granted, put_lease (leases_key prefix) now ttl lease_id live)
        | none ↦ admit prefix lease_id max_cps max_concurrent now ttl live
      ]

  pub bind_script : Text → Text → Text → Keyspace → Bool × Keyspace
  bind_script prefix lease_id call_id db = elim (zscore (leases_key prefix) lease_id db) [
    | none ↦ (false, db)
    | some score ↦
        (true, zadd (leases_key prefix) score call_id (zrem (leases_key prefix) lease_id db))
  ]

  module _ {D : Type 0} where
    -- A command or a script of the server.
    pub eval : {A : Type 0} → (ℕ → Keyspace → A × Keyspace) → M D Keyspace A
    eval script =
        remote λ w. let (a, db) = script w.now w.keyspace in (a, record w { keyspace = db })

    pub acquire_call_lease : Text → Text → ℕ → ℕ → ℕ → M D Keyspace Reply
    acquire_call_lease prefix lease_id max_cps max_concurrent ttl = do
      guard (not (is_empty prefix)) (plain "redis key is required")
      guard (not (is_empty lease_id) && ltb 0 max_cps && ltb 0 max_concurrent && ltb 0 ttl)
          (plain "valid call lease context, id, limits, and TTL are required")
      map_error (wrapped "acquire Redis call lease")
          (eval (λ now. acquire_script prefix lease_id max_cps max_concurrent now ttl))

    pub bind_call_lease : Text → Text → Text → M D Keyspace (Unit {0})
    bind_call_lease prefix lease_id call_id = do
      guard (not (is_empty prefix)) (plain "redis key is required")
      guard (not (is_empty lease_id) && not (is_empty call_id))
          (plain "call lease context, lease id, and call id are required")
      bound ←
          map_error (wrapped "bind Redis call lease")
            (eval (λ now. bind_script prefix lease_id call_id))
      guard bound (plain "call lease expired before binding")

    pub release_call_lease : Text → Text → M D Keyspace (Unit {0})
    release_call_lease prefix id = do
      guard (not (is_empty prefix)) (plain "redis key is required")
      guard (not (is_empty id)) (plain "call lease context and id are required")
      map_error (wrapped "release Redis call lease")
          (eval (λ now db. (tt, zrem (leases_key prefix) id db)))

    pub refresh_call_lease : Text → Text → ℕ → M D Keyspace (Unit {0})
    refresh_call_lease prefix call_id ttl = do
      guard (not (is_empty prefix)) (plain "redis key is required")
      guard (not (is_empty call_id) && ltb 0 ttl)
          (plain "call lease context, id, and TTL are required")
      map_error (wrapped "refresh Redis call lease")
          (eval (λ now db. (tt, zadd (leases_key prefix) (now + ttl) call_id db)))
      map_error (wrapped "expire refreshed Redis call leases")
          (eval (λ now db. (tt, pexpire (leases_key prefix) ttl db)))
