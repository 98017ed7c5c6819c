-- ===== src/Calling/Channels.antt =====
-- `ChannelStore` and `AdmissionLimiter` of server/internal/runtime/calling/channel.go.
pub mod Quiet
use monogo.Base.{
  ℕ, ◌*◌, not, ◌&&◌, ◌++◌, Option, none, some, Text, codes, is_empty, trim_space, ◌==◌, ltb,
  if◌then◌else◌,
}
use monogo.Errors.{
  plain, wrapped, sentinel, channel_unavailable, admission_cps, admission_concurrent,
}
use monogo.Effects.{M, ◌>>=◌, ◌>>◌, guard, fail, pure, map_error}
use monogo.Redis.{Redis}
use monogo.Calling.Leases.{
  Reply, granted, over_cps, over_concurrent, eval, acquire_call_lease, bind_call_lease,
  release_call_lease, refresh_call_lease,
}

-- `routing.Limits`; a limit below 1 is 0.
pub record Limits : Type 0 where
  pub max_cps : ℕ
  pub max_concurrent_calls : ℕ

-- In milliseconds: 24 and 26 hours.
abbrev pub channel_ttl : ℕ
channel_ttl = 24 * 3_600_000

abbrev pub call_admission_lease_ttl : ℕ
call_admission_lease_ttl = 26 * 3_600_000

module _ (r : Redis) where
  open r use {Keyspace, uuid_text}

  channel_key : ℕ → Text
  channel_key call_id = codes "telecom:calls:channel:" ++ uuid_text call_id

  pub admission_prefix : ℕ → Text
  admission_prefix trunk_id = codes "telecom:admission:trunk:" ++ uuid_text trunk_id

  module _ {D : Type 0} where
    pub bind_channel : ℕ → Text → M D Keyspace (Unit {0})
    bind_channel call_id channel_id = do
      let channel = trim_space channel_id
      guard (not (call_id == 0) && not (is_empty channel))
          (plain "call id and channel id are required")
      eval r (λ now db. (tt, r.set (channel_key call_id) channel channel_ttl db))

    abbrev stored_channel : Option Text → M D Keyspace Text
    stored_channel none = fail (sentinel channel_unavailable)
    stored_channel (some channel_id) =
        let channel = trim_space channel_id in
        if is_empty channel then fail (sentinel channel_unavailable) else pure channel

    pub get_channel : ℕ → M D Keyspace Text
    get_channel call_id = do
      guard (not (call_id == 0)) (plain "call id is required")
      found ← eval r (λ now db. (r.get (channel_key call_id) db, db))
      stored_channel found

    pub delete_channel : ℕ → M D Keyspace (Unit {0})
    delete_channel call_id = do
      guard (not (call_id == 0)) (plain "call id is required")
      eval r (λ now db. (tt, r.del (channel_key call_id) db))

    abbrev admission_result : Reply → M D Keyspace (Unit {0})
    admission_result granted = pure tt
    admission_result over_cps = fail (sentinel admission_cps)
    admission_result over_concurrent = fail (sentinel admission_concurrent)

    pub acquire : ℕ → Text → Limits → M D Keyspace (Unit {0})
    acquire trunk_id lease_id limits = do
      guard (not (trunk_id == 0) && not (is_empty lease_id))
          (plain "trunk id and lease id are required")
      guard (ltb 0 limits.max_cps && ltb 0 limits.max_concurrent_calls)
          (plain "trunk admission limits must be positive")
      reply ← map_error (wrapped "acquire trunk call lease") (
          acquire_call_lease r (admission_prefix trunk_id) lease_id limits.max_cps
            limits.max_concurrent_calls call_admission_lease_ttl)
      admission_result reply

    pub bind : ℕ → Text → ℕ → M D Keyspace (Unit {0})
    bind trunk_id lease_id call_id = do
      guard (not (trunk_id == 0) && not (is_empty lease_id) && not (call_id == 0))
          (plain "trunk id, lease id, and call id are required")
      bind_call_lease r (admission_prefix trunk_id) lease_id (uuid_text call_id)

    pub release : ℕ → Text → M D Keyspace (Unit {0})
    release trunk_id call_or_lease_id = do
      guard (not (trunk_id == 0) && not (is_empty call_or_lease_id))
          (plain "trunk id and call or lease id are required")
      release_call_lease r (admission_prefix trunk_id) call_or_lease_id

    pub refresh : ℕ → ℕ → M D Keyspace (Unit {0})
    refresh trunk_id call_id = do
      guard (not (trunk_id == 0) && not (call_id == 0)) (plain "trunk id and call id are required")
      refresh_call_lease r (admission_prefix trunk_id) (uuid_text call_id) call_admission_lease_ttl
