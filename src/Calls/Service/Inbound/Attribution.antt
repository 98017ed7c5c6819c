-- ===== src/Calls/Service/Inbound/Attribution.antt =====
-- What is left of an inbound call whose attribution fails.
use monogo.Base.{
  ℕ, ◌≡◌, refl, sym, ap, ◌∙◌, true, Option, none, some, Text, Bool-cases, ◌==◌, ==_iff, inl, inr,
}
use monogo.Effects.{World, Result, remote}
use monogo.Effects.Rules.{bind_rule, remote_rule, rescue_rule, arrived}
use monogo.Redis.{Redis}
use monogo.Calling.Channels.{release}
use monogo.Calling.Channels.Quiet.{release-Quiet}
use monogo.Calls.Model.{Call, InboundAdmissionRequest}
use monogo.Calls.Store.{
  Database, Calls, Mark, insert, write_row, mark, mark_failed, update_where, returned, may_mark,
  set_mark, subject,
}
use monogo.Calls.Store.Queries.{set_route, write_returned, write_route, set_route_attribution}
use monogo.Calls.Store.Steps.{Outcome, untouched, committed, mutate-Outcome}
use monogo.Calls.Store.Safe.{update_where-eq-some}
use monogo.Calls.Service.{Peers}
use monogo.Calls.Service.Inbound.{attribute_inbound, unattributed}

-- Every row of the first table is in the second with its state, and no other row is.
pub record SameStates (calls calls' : Calls) : Type 0 where
  pub kept :
      (id : ℕ) (c : Call)
      → calls id ≡ some c
      → (d : Call) × (calls' id ≡ some d) × (d.state ≡ c.state)
  pub absent : (id : ℕ) → calls id ≡ none → calls' id ≡ none

SameStates-refl : (calls : Calls) → SameStates calls calls
SameStates-refl calls = record { kept = λ id c h. (c, h, refl); absent = λ id h. h }

SameStates-trans : {a b c : Calls} → SameStates a b → SameStates b c → SameStates a c
SameStates-trans p q = record {
  kept = λ id c h.
      let (d, at, e) = p.kept id c h in let (d', at', e') = q.kept id d at in (d', at', e' ∙ e);
  absent = λ id h. q.absent id (p.absent id h);
}

insert-SameStates :
    (calls : Calls) (id : ℕ) (c c' : Call)
    → calls id ≡ some c
    → c'.state ≡ c.state
    → SameStates calls (insert calls id c')
unfolding insert
insert-SameStates calls id c c' found same = record {
  kept = λ j d h. elim (Bool-cases (j == id)) [
    | inl e ↦
        let met : some d ≡ some c = sym h ∙ ap calls ((==_iff j id).0 e) ∙ found in
        (c', rw e refl, cc)
    | inr e ↦ (d, rw e h, refl)
  ];
  absent = λ j h. elim (Bool-cases (j == id)) [
    | inl e ↦ let met : none ≡ some c = sym h ∙ ap calls ((==_iff j id).0 e) ∙ found in absurd (cc)
    | inr e ↦ rw e h
  ];
}

-- No row, nothing to mark.
absent-SameStates :
    (m : Mark) (organization_id id : ℕ) (reason : Option Text) (d : Database) (now : ℕ)
    (r : Result (ℕ × Call)) (d' : Database)
    → d.calls id ≡ none
    → Outcome
        (subject m)
        (λ calls t. update_where organization_id id (may_mark m) (set_mark m t reason) calls)
        d
        now
        r
        d'
    → SameStates d.calls d'.calls
absent-SameStates m organization_id id reason d now r d' h (untouched e p q) =
    rw q (SameStates-refl d.calls)
absent-SameStates m organization_id id reason d now r d' h (committed key c q p s) =
    let (old, found, allowed, k, set) =
      update_where-eq-some organization_id id (may_mark m) (set_mark m now reason) d.calls key c
        q in
    let met : none ≡ some old = sym h ∙ found in absurd (cc)

module _ {K : Type 0} where
  written-SameStates :
      (organization_id id : ℕ) (trunk_id trunk_endpoint_id : Option ℕ) (w : World Database K)
      (o : Option (ℕ × Call))
      → update_where organization_id id
          (λ c. true)
          (set_route trunk_id trunk_endpoint_id w.now)
          w.database.calls
        ≡ o
      → SameStates w.database.calls (write_returned o w).1.database.calls
  unfolding write_returned write_row set_route
  written-SameStates organization_id id trunk_id trunk_endpoint_id w none e = SameStates-refl _
  written-SameStates organization_id id trunk_id trunk_endpoint_id w (some (key, c)) e =
      let (old, found, allowed, k, set) =
        update_where-eq-some organization_id id _ _ w.database.calls key c e in
      rw (k, set) (insert-SameStates w.database.calls id old _ found refl)

  returned-SameStates :
      {calls : Calls} (o : Option (ℕ × Call)) (v : World Database K)
      → SameStates calls v.database.calls
      → SameStates calls (returned o v).1.database.calls
  unfolding returned
  returned-SameStates none v h = h
  returned-SameStates (some a) v h = h

  attribution-SameStates :
      (organization_id id : ℕ) (trunk_id trunk_endpoint_id : Option ℕ) (w : World Database K)
      → SameStates w.database.calls
          (set_route_attribution organization_id id trunk_id trunk_endpoint_id w).1.database.calls
  unfolding set_route_attribution
  attribution-SameStates organization_id id trunk_id trunk_endpoint_id w =
      let write = write_route organization_id id trunk_id trunk_endpoint_id in
      let wrote : SameStates w.database.calls (write (arrived w)).1.database.calls =
        written-SameStates organization_id id trunk_id trunk_endpoint_id (arrived w) _ refl in
      bind_rule (λ r v. SameStates w.database.calls v.database.calls)
        (λ r v. SameStates w.database.calls v.database.calls) (remote write) w returned
        (remote_rule (λ r v. SameStates w.database.calls v.database.calls) write w wrote
          (SameStates-refl _) wrote)
        (λ e v h. h) (λ o v h. returned-SameStates o v h)

  mark_absent-SameStates :
      (m : Mark) (organization_id id : ℕ) (reason : Option Text) (w : World Database K)
      → w.database.calls id ≡ none
      → SameStates w.database.calls (mark m organization_id id reason w).1.database.calls
  unfolding mark
  mark_absent-SameStates m organization_id id reason w h =
      absent-SameStates m organization_id id reason w.database w.now _ _ h (mutate-Outcome _ _ w)

module _ (r : Redis) (p : Peers r.Keyspace) where
  given_up :
      (trunk_id : ℕ) (req : InboundAdmissionRequest) (calls : Calls) (v : World Database r.Keyspace)
      → calls 0 ≡ none
      → SameStates calls v.database.calls
      → (reason : Option Text)
      → SameStates calls
          (mark mark_failed req.organization_id 0 reason
            (release r trunk_id req.channel_id v).1).1.database.calls
  given_up trunk_id req calls v h same reason =
      let quiet = (release-Quiet r trunk_id req.channel_id).run v in
      let there : SameStates calls (release r trunk_id req.channel_id v).1.database.calls =
        rw quiet same in
      SameStates-trans there
        (mark_absent-SameStates mark_failed req.organization_id 0 reason _ (there.absent 0 h))

  -- No call has the zero id. Then, whatever Redis and the network do, an inbound call whose attribution
  -- fails is never marked failed, nor is any other: every row keeps its state, and no row appears.
  pub attribute_inbound-SameStates :
      (trunk_id id : ℕ) (req : InboundAdmissionRequest) (w : World Database r.Keyspace)
      → w.database.calls 0 ≡ none
      → SameStates w.database.calls (attribute_inbound r p trunk_id id req w).1.database.calls
  unfolding attribute_inbound unattributed
  attribute_inbound-SameStates trunk_id id req w h =
      rescue_rule (λ o v. SameStates w.database.calls v.database.calls)
        (λ o v. SameStates w.database.calls v.database.calls)
        (set_route_attribution req.organization_id id (some req.trunk_id) none) w
        (unattributed r p trunk_id req)
        (attribution-SameStates req.organization_id id (some req.trunk_id) none w)
        (λ a v same. same) (λ e v same. given_up trunk_id req w.database.calls v h same _)
