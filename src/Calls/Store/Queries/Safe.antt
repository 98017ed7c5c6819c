-- ===== src/Calls/Store/Queries/Safe.antt =====
-- The statements of `Queries` make guarded steps on the database, and no other.
use monogo.Base.{
  ℕ, ◌≡◌, refl, true, Option, none, some, String, Text, arith, Option-cases, inl, inr,
}
use monogo.Effects.{World, Result}
use monogo.Calls.Model.{Call, InboundAdmissionRequest}
use monogo.Calls.Requests.{CreateRequest}
use monogo.Calls.Store.{Database, Calls, is_early, mutate, update_where}
use monogo.Calls.Store.Queries.{
  CreateCallParams, new_row, insert_row, initial_state, outbound_params, inbound_params, set_route,
  write_returned, create, create_inbound, set_route_attribution, get_call, get_by_sip_call_id,
}
use monogo.Calls.Store.Steps.{
  announcement, Reach, here, next_step, created, attributed, Outcome, untouched, committed,
  mutate-Outcome,
}
use monogo.Calls.Store.Safe.{
  Safe, bind-Safe, remote-Safe, map_error-Safe, returned-Safe, update_where-eq-some,
}

pub insert_row-eq-some :
    (id : ℕ) (params : CreateCallParams) (calls : Calls) (now key : ℕ) (c : Call)
    → insert_row id params calls now ≡ some (key, c)
    → (calls id ≡ none) × (key ≡ id) × (c ≡ new_row params now)
unfolding insert_row
insert_row-eq-some id params calls now key c h = elim (Option-cases (calls id)) [
  | inl e ↦ (e, ground arith, ground arith)
  | inr (old, e) ↦ absurd (ground arith)
]

insert-Reach :
    (event_type : String) (id : ℕ) (params : CreateCallParams) (d : Database) (now : ℕ)
    (r : Result (ℕ × Call)) (d' : Database)
    → is_early (new_row params now).state ≡ true
    → event_type ≡ announcement (new_row params now).state
    → Outcome event_type (insert_row id params) d now r d'
    → Reach d d'
insert-Reach event_type id params d now r d' early named (untouched e p q) = rw q here
insert-Reach event_type id params d now r d' early named (committed key c q p s) =
    let (free, k, row) = insert_row-eq-some id params d.calls now key c q in
    rw (p, k, row) (next_step here (created id params event_type now free early named))

module _ {K : Type 0} where
  insert-Safe :
      (event_type : String) (id : ℕ) (params : CreateCallParams)
      → ((now : ℕ) → is_early (new_row params now).state ≡ true)
      → ((now : ℕ) → event_type ≡ announcement (new_row params now).state)
      → Safe {K = K} (mutate event_type (insert_row id params))
  insert-Safe event_type id params early named = record {
    run = λ w.
        insert-Reach event_type id params w.database w.now _ _ (early w.now) (named w.now)
          (mutate-Outcome event_type (insert_row id params) w);
  }

  pub create-Safe :
      (id organization_id : ℕ) (req : CreateRequest) → Safe {K = K} (create id organization_id req)
  unfolding create outbound_params new_row initial_state
  create-Safe id organization_id req =
      map_error-Safe _
        (insert-Safe _ id (outbound_params organization_id req) (λ now. refl) (λ now. refl))

  pub create_inbound-Safe :
      (id : ℕ) (req : InboundAdmissionRequest) → Safe {K = K} (create_inbound id req)
  unfolding create_inbound inbound_params new_row initial_state
  create_inbound-Safe id req =
      map_error-Safe _ (insert-Safe _ id (inbound_params req) (λ now. refl) (λ now. refl))

  attribution-Reach :
      (organization_id id : ℕ) (trunk_id trunk_endpoint_id : Option ℕ) (w : World Database K)
      (o : Option (ℕ × Call))
      → update_where organization_id id
          (λ c. true)
          (set_route trunk_id trunk_endpoint_id w.now)
          w.database.calls
        ≡ o
      → Reach w.database (write_returned o w).1.database
  unfolding write_returned
  attribution-Reach organization_id id trunk_id trunk_endpoint_id w none e = here
  attribution-Reach organization_id id trunk_id trunk_endpoint_id w (some (key, c)) e =
      let (old, found, allowed, k, set) =
        update_where-eq-some organization_id id _ _ w.database.calls key c e in
      rw (k, set) (next_step here (attributed id old trunk_id trunk_endpoint_id w.now found))

  pub set_route_attribution-Safe :
      (organization_id id : ℕ) (trunk_id trunk_endpoint_id : Option ℕ)
      → Safe {K = K} (set_route_attribution organization_id id trunk_id trunk_endpoint_id)
  unfolding set_route_attribution
  set_route_attribution-Safe organization_id id trunk_id trunk_endpoint_id =
      bind-Safe
        (remote-Safe _
          (λ w. attribution-Reach organization_id id trunk_id trunk_endpoint_id w _ refl))
        returned-Safe

  pub get_call-Safe : (organization_id id : ℕ) → Safe {K = K} (get_call organization_id id)
  unfolding get_call
  get_call-Safe organization_id id = bind-Safe (remote-Safe _ (λ w. here)) returned-Safe

  pub get_by_sip_call_id-Safe :
      (index : Calls → Text → Option ℕ) (sip : Text) → Safe {K = K} (get_by_sip_call_id index sip)
  unfolding get_by_sip_call_id
  get_by_sip_call_id-Safe index sip = bind-Safe (remote-Safe _ (λ w. here)) returned-Safe
