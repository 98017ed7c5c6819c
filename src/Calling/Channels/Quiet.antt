-- ===== src/Calling/Channels/Quiet.antt =====
-- The channel store and the admission limiter talk to Redis alone.
use monogo.Base.{ℕ, refl, Option, none, some, Text}
use monogo.Effects.Quiet.{Quiet, quiet_rules}
use monogo.Redis.{Redis}
use monogo.Calling.Leases.Quiet.{
  eval-Quiet, acquire_call_lease-Quiet, bind_call_lease-Quiet, release_call_lease-Quiet,
  refresh_call_lease-Quiet,
}
use monogo.Calling.Leases.{Reply, granted, over_cps, over_concurrent}
use monogo.Calling.Channels.{
  Limits, bind_channel, get_channel, stored_channel, delete_channel, acquire, admission_result,
  bind, release, refresh,
}

module _ (r : Redis) {D : Type 0} where
  pub bind_channel-Quiet :
      (call_id : ℕ) (channel_id : Text) → Quiet {D = D} (bind_channel r call_id channel_id)
  unfolding bind_channel
  bind_channel-Quiet call_id channel_id = search (quiet_rules, eval-Quiet)

  pub delete_channel-Quiet : (call_id : ℕ) → Quiet {D = D} (delete_channel r call_id)
  unfolding delete_channel
  delete_channel-Quiet call_id = search (quiet_rules, eval-Quiet)

  pub release-Quiet : (trunk_id : ℕ) (id : Text) → Quiet {D = D} (release r trunk_id id)
  unfolding release
  release-Quiet trunk_id id = search (quiet_rules, release_call_lease-Quiet)

  pub refresh-Quiet : (trunk_id call_id : ℕ) → Quiet {D = D} (refresh r trunk_id call_id)
  unfolding refresh
  refresh-Quiet trunk_id call_id = search (quiet_rules, refresh_call_lease-Quiet)

  stored_channel-Quiet : (found : Option Text) → Quiet {D = D} (stored_channel r found)
  stored_channel-Quiet none = search quiet_rules
  stored_channel-Quiet (some channel_id) = search quiet_rules

  pub get_channel-Quiet : (call_id : ℕ) → Quiet {D = D} (get_channel r call_id)
  unfolding get_channel
  get_channel-Quiet call_id = search (quiet_rules, eval-Quiet, stored_channel-Quiet)

  admission_result-Quiet : (reply : Reply) → Quiet {D = D} (admission_result r reply)
  admission_result-Quiet granted = record { run = λ w. refl }
  admission_result-Quiet over_cps = record { run = λ w. refl }
  admission_result-Quiet over_concurrent = record { run = λ w. refl }

  pub acquire-Quiet :
      (trunk_id : ℕ) (lease_id : Text) (limits : Limits)
      → Quiet {D = D} (acquire r trunk_id lease_id limits)
  unfolding acquire
  acquire-Quiet trunk_id lease_id limits =
      search (quiet_rules, acquire_call_lease-Quiet, admission_result-Quiet) depth 8

  pub bind-Quiet_lem :
      (trunk_id : ℕ) (lease_id : Text) (call_id : ℕ)
      → Quiet {D = D} (bind r trunk_id lease_id call_id)
  unfolding bind
  bind-Quiet_lem trunk_id lease_id call_id = search (quiet_rules, bind_call_lease-Quiet)
