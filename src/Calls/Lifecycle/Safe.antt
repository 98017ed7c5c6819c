-- ===== src/Calls/Lifecycle/Safe.antt =====
-- Handling a lifecycle event makes guarded steps on the database, and nothing else.
use monogo.Base.{ℕ, ◌≡◌, refl, Bool, true, false, Option, none, some, Text, if◌then◌else◌}
use monogo.Effects.{World, Result, ok, err, M}
use monogo.Redis.{Redis}
use monogo.Calling.Channels.Quiet.{
  bind_channel-Quiet, delete_channel-Quiet, release-Quiet, refresh-Quiet,
}
use monogo.Calls.Model.{LifecycleEventType, LifecycleEvent, Call, initiated, unsupported}
use monogo.Calls.Store.{Mark, Database, may_bind_sip, set_sip, update_where}
use monogo.Calls.Store.Steps.{Reach, here, next_step, bound}
use monogo.Calls.Store.Safe.{
  Safe, safe_rules, bind-Safe, mark-Safe, remote-Safe, Quiet-Safe, pure-Safe, fail-Safe,
  update_where-eq-some,
}
use monogo.Calls.Store.Queries.{write_returned}
use monogo.Calls.Lifecycle.{
  Snapshot, checked, service_mark, get_lifecycle_snapshot, set_outbound_call_sip,
  bind_outbound_sip_call_id, bind_sip, apply_event, clean_up, refresh_lease, apply_lifecycle,
  with_snapshot, observe_lifecycle,
}

module _ {K : Type 0} where
  checked-Safe : (r : Result (Unit {0})) → Safe {K = K} (checked r)
  unfolding checked
  checked-Safe (ok a) = pure-Safe a
  checked-Safe (err e) = fail-Safe e

  pub service_mark-Safe :
      (m : Mark) (organization_id id : ℕ) (reason : Option Text)
      → Safe {K = K} (service_mark m organization_id id reason)
  unfolding service_mark
  service_mark-Safe m organization_id id reason = search (safe_rules, checked-Safe, mark-Safe)

  get_lifecycle_snapshot-Safe : (id : ℕ) → Safe {K = K} (get_lifecycle_snapshot id)
  unfolding get_lifecycle_snapshot
  get_lifecycle_snapshot-Safe id =
      let read : Safe {K = K} _ = remote-Safe (λ w. (w.database.calls id, w)) (λ w. here) in
      search safe_rules

  written :
      (id : ℕ) (sip : Text) (w : World Database K) (o : Option (ℕ × Call))
      → ((key : ℕ) (c : Call)
          → o ≡ some (key, c)
          → (old : Call) × (w.database.calls id ≡ some old)
            × (may_bind_sip sip old ≡ true)
            × (key ≡ id)
            × (c ≡ set_sip sip w.now old))
      → Reach w.database (write_returned o w).1.database
  unfolding write_returned
  written id sip w none h = here
  written id sip w (some (key, c)) h =
      let (old, found, allowed, k, e) = h key c refl in
      rw (k, e) (next_step here (bound id old sip w.now found allowed))

  set_outbound_call_sip-Reach :
      (organization_id id : ℕ) (sip : Text) (w : World Database K)
      → Reach w.database (set_outbound_call_sip organization_id id sip w).1.database
  unfolding set_outbound_call_sip
  set_outbound_call_sip-Reach organization_id id sip w =
      written id sip w
        (update_where organization_id id (may_bind_sip sip) (set_sip sip w.now) w.database.calls)
        (update_where-eq-some organization_id id (may_bind_sip sip) (set_sip sip w.now)
          w.database.calls)

  bind_outbound_sip_call_id-Safe :
      (organization_id id : ℕ) (sip : Text)
      → Safe {K = K} (bind_outbound_sip_call_id organization_id id sip)
  unfolding bind_outbound_sip_call_id
  bind_outbound_sip_call_id-Safe organization_id id sip =
      bind-Safe
        (remote-Safe (set_outbound_call_sip organization_id id sip)
          (set_outbound_call_sip-Reach organization_id id sip))
        (λ row. search safe_rules)

  bind_sip-Safe : (s : Snapshot) (event : LifecycleEvent) → Safe {K = K} (bind_sip s event)
  unfolding bind_sip
  bind_sip-Safe s event = search (safe_rules, bind_outbound_sip_call_id-Safe)

  apply_event-Safe :
      (s : Snapshot) (event : LifecycleEvent) (type : LifecycleEventType)
      → Safe {K = K} (apply_event s event type)
  unfolding apply_event
  apply_event-Safe s event initiated = pure-Safe tt
  apply_event-Safe s event (unsupported name) = fail-Safe _
  apply_event-Safe s event _ = service_mark-Safe _ _ _ _

module _ (r : Redis) where
  clean_up-Safe : (s : Snapshot) (event : LifecycleEvent) → Safe (clean_up r s event)
  unfolding clean_up
  clean_up-Safe s event = search (safe_rules, Quiet-Safe, delete_channel-Quiet, release-Quiet)

  refresh_lease-Safe : (s : Snapshot) (event : LifecycleEvent) → Safe (refresh_lease r s event)
  unfolding refresh_lease
  refresh_lease-Safe s event = search (safe_rules, Quiet-Safe, refresh-Quiet)

  apply_lifecycle-Safe : (event : LifecycleEvent) (s : Snapshot) → Safe (apply_lifecycle r event s)
  unfolding apply_lifecycle
  apply_lifecycle-Safe event s =
      search (safe_rules, bind_sip-Safe, refresh_lease-Safe, apply_event-Safe, clean_up-Safe) depth
        8

  if-Safe :
      {A : Type 0} {m k : M Database r.Keyspace A} (b : Bool)
      → Safe m
      → Safe k
      → Safe (if b then m else k)
  if-Safe true h k = h
  if-Safe false h k = k

  with_snapshot-Safe :
      (event : LifecycleEvent) (found : Result Snapshot) → Safe (with_snapshot r event found)
  unfolding with_snapshot
  with_snapshot-Safe event (ok s) = apply_lifecycle-Safe event s
  with_snapshot-Safe event (err e) = search (safe_rules, if-Safe)

  pub observe_lifecycle-Safe : (event : LifecycleEvent) → Safe (observe_lifecycle r event)
  unfolding observe_lifecycle
  observe_lifecycle-Safe event =
      search
        (
          safe_rules, Quiet-Safe, bind_channel-Quiet, get_lifecycle_snapshot-Safe,
          with_snapshot-Safe,
        )
        depth 8
