-- ===== src/Calls/Service/Inbound/Safe.antt =====
-- Admitting an inbound call makes guarded steps on the database, and nothing else.
use monogo.Base.{ℕ, Option, none, some, Text}
use monogo.Errors.{Error}
use monogo.Effects.{Result, ok, err}
use monogo.Redis.{Redis}
use monogo.Calling.Channels.Quiet.{
  acquire-Quiet, bind-Quiet_lem, release-Quiet, refresh-Quiet, bind_channel-Quiet,
  delete_channel-Quiet,
}
use monogo.Calls.Model.{Call, InboundAdmissionRequest}
use monogo.Calls.Store.Safe.{Safe, safe_rules, Quiet-Safe, mark-Safe}
use monogo.Calls.Store.Queries.Safe.{
  create_inbound-Safe, set_route_attribution-Safe, get_by_sip_call_id-Safe,
}
use monogo.Calls.Service.{Peers, PeersLaws}
use monogo.Calls.Service.Safe.{hang_up-Safe, set_call_id-Safe, resolve_inbound-Safe, if-Safe}
use monogo.Calls.Service.Inbound.{
  reject_inbound, ensured, ensure_inbound_attribution, bind_inbound_channel, reuse_inbound,
  raced_inbound, attribute_inbound, unattributed, bind_inbound_lease, bind_new_channel,
  after_create, admit_new, admit_found, admit_inbound,
}

module _ (r : Redis) (p : Peers r.Keyspace) (laws : PeersLaws p) where
  ensured-Safe :
      (existing : ℕ × Call) (req : InboundAdmissionRequest) (trunk_id : Option ℕ)
      → Safe (ensured r p existing req trunk_id)
  unfolding ensured
  ensured-Safe existing req (some trunk_id) = search safe_rules
  ensured-Safe existing req none = search (safe_rules, set_route_attribution-Safe)

  bind_inbound_channel-Safe :
      (id : ℕ) (channel_id : Text) → Safe (bind_inbound_channel r p id channel_id)
  unfolding bind_inbound_channel
  bind_inbound_channel-Safe id channel_id =
      search
        (safe_rules, Quiet-Safe, bind_channel-Quiet, delete_channel-Quiet, set_call_id-Safe p laws)
        depth 8

  pub reuse_inbound-Safe :
      (existing : ℕ × Call) (req : InboundAdmissionRequest) → Safe (reuse_inbound r p existing req)
  unfolding reuse_inbound ensure_inbound_attribution
  reuse_inbound-Safe existing req =
      search (safe_rules, ensured-Safe, Quiet-Safe, refresh-Quiet, bind_inbound_channel-Safe) depth
        8

  raced_inbound-Safe :
      (trunk_id : ℕ) (req : InboundAdmissionRequest) (e : Error) (found : Result (ℕ × Call))
      → Safe (raced_inbound r p trunk_id req e found)
  unfolding raced_inbound
  raced_inbound-Safe trunk_id req e (ok existing) =
      search (safe_rules, Quiet-Safe, release-Quiet, reuse_inbound-Safe) depth 8
  raced_inbound-Safe trunk_id req e (err read_error) =
      search (safe_rules, Quiet-Safe, release-Quiet) depth 8

  pub attribute_inbound-Safe :
      (trunk_id id : ℕ) (req : InboundAdmissionRequest)
      → Safe (attribute_inbound r p trunk_id id req)
  unfolding attribute_inbound unattributed
  attribute_inbound-Safe trunk_id id req =
      search (safe_rules, set_route_attribution-Safe, Quiet-Safe, release-Quiet, mark-Safe) depth 8

  bind_inbound_lease-Safe :
      (trunk_id id : ℕ) (req : InboundAdmissionRequest)
      → Safe (bind_inbound_lease r p trunk_id id req)
  unfolding bind_inbound_lease
  bind_inbound_lease-Safe trunk_id id req =
      search (safe_rules, mark-Safe, Quiet-Safe, release-Quiet, bind-Quiet_lem) depth 8

  bind_new_channel-Safe :
      (trunk_id id : ℕ) (req : InboundAdmissionRequest)
      → Safe (bind_new_channel r p trunk_id id req)
  unfolding bind_new_channel
  bind_new_channel-Safe trunk_id id req =
      search (safe_rules, mark-Safe, Quiet-Safe, release-Quiet, bind_inbound_channel-Safe) depth 8

  after_create-Safe :
      (trunk_id : ℕ) (req : InboundAdmissionRequest) (created : Result (ℕ × Call))
      → Safe (after_create r p trunk_id req created)
  unfolding after_create
  after_create-Safe trunk_id req (err e) =
      search (safe_rules, get_by_sip_call_id-Safe, raced_inbound-Safe) depth 8
  after_create-Safe trunk_id req (ok created) =
      search (safe_rules, attribute_inbound-Safe, bind_inbound_lease-Safe, bind_new_channel-Safe)
        depth 8

  admit_new-Safe : (id : ℕ) (req : InboundAdmissionRequest) → Safe (admit_new r p id req)
  unfolding admit_new
  admit_new-Safe id req =
      search
        (
          safe_rules,
          resolve_inbound-Safe p laws,
          Quiet-Safe,
          acquire-Quiet,
          create_inbound-Safe,
          after_create-Safe,
        )
        depth 8

  admit_found-Safe :
      (id : ℕ) (req : InboundAdmissionRequest) (found : Result (ℕ × Call))
      → Safe (admit_found r p id req found)
  unfolding admit_found
  admit_found-Safe id req (ok existing) = reuse_inbound-Safe existing req
  admit_found-Safe id req (err e) = search (safe_rules, if-Safe, admit_new-Safe)

  pub admit_inbound-Safe :
      (id : ℕ) (req : InboundAdmissionRequest) → Safe (admit_inbound r p id req)
  unfolding admit_inbound reject_inbound
  admit_inbound-Safe id req =
      search (safe_rules, get_by_sip_call_id-Safe, admit_found-Safe, hang_up-Safe p laws) depth 8
