-- ===== src/Calling/Leases/Quiet.antt =====
-- The lease methods talk to Redis alone.
use monogo.Base.{ℕ, refl, Text}
use monogo.Effects.Quiet.{Quiet, remote-Quiet, quiet_rules}
use monogo.Redis.{Redis}
use monogo.Calling.Leases.{
  eval, acquire_call_lease, bind_call_lease, release_call_lease, refresh_call_lease,
}

module _ (r : Redis) {D : Type 0} where
  pub eval-Quiet :
      {A : Type 0} (script : ℕ → r.Keyspace → A × r.Keyspace) → Quiet {D = D} (eval r script)
  unfolding eval
  eval-Quiet script = remote-Quiet _ (λ w. refl)

  pub release_call_lease-Quiet : (prefix id : Text) → Quiet {D = D} (release_call_lease r prefix id)
  unfolding release_call_lease
  release_call_lease-Quiet prefix id = search (quiet_rules, eval-Quiet)

  pub refresh_call_lease-Quiet :
      (prefix call_id : Text) (ttl : ℕ) → Quiet {D = D} (refresh_call_lease r prefix call_id ttl)
  unfolding refresh_call_lease
  refresh_call_lease-Quiet prefix call_id ttl = search (quiet_rules, eval-Quiet) depth 8

  pub acquire_call_lease-Quiet :
      (prefix lease_id : Text) (max_cps max_concurrent ttl : ℕ)
      → Quiet {D = D} (acquire_call_lease r prefix lease_id max_cps max_concurrent ttl)
  unfolding acquire_call_lease
  acquire_call_lease-Quiet prefix lease_id max_cps max_concurrent ttl =
      search (quiet_rules, eval-Quiet) depth 8

  pub bind_call_lease-Quiet :
      (prefix lease_id call_id : Text) → Quiet {D = D} (bind_call_lease r prefix lease_id call_id)
  unfolding bind_call_lease
  bind_call_lease-Quiet prefix lease_id call_id = search (quiet_rules, eval-Quiet) depth 8
