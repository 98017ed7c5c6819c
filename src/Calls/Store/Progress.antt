-- ===== src/Calls/Store/Progress.antt =====
-- What the steps of the database can do to one row, and to the table as a whole.
use monogo.Base.{
  ℕ, ◌≤◌, ◌≡◌, refl, sym, ap, ◌∙◌, true, Option, none, some, Text, eq_of_text_eq, arith,
  eq_of_some_eq, Bool-cases, ◌==◌, ==_iff, inl, inr,
}
use monogo.Calls.Model.{State, Call, is_terminal_state, initiating, ringing, answered}
use monogo.Calls.Store.{
  Mark, Database, Calls, may_mark, set_mark, may_bind_sip, set_sip, insert, commit, write_row,
  mark_ringing, mark_answered, mark_active, mark_held, mark_resumed, mark_completed, mark_failed,
  mark_cancelled,
}
use monogo.Calls.Store.Queries.{set_route}
use monogo.Calls.Store.Steps.{Step, Reach, here, next_step, bound, marked, created, attributed}

-- How far a call has come.
abbrev pub rank : State → ℕ
rank initiating = 0
rank ringing = 1
rank answered = 2
rank State.active = 3
rank _ = 4

pub record Progress (c d : Call) : Type 0 where
  pub forward : rank c.state ≤ rank d.state
  pub final : is_terminal_state c.state ≡ true → d.state ≡ c.state
  pub same_end : is_terminal_state c.state ≡ true → d.ended_at ≡ c.ended_at
  pub same_reason : is_terminal_state c.state ≡ true → d.hangup_reason ≡ c.hangup_reason
  pub same_media : is_terminal_state c.state ≡ true → d.media_state ≡ c.media_state
  pub same_direction : d.direction ≡ c.direction
  pub same_organization : d.organization_id ≡ c.organization_id
  pub same_sip : (sip : Text) → c.sip_call_id ≡ some sip → d.sip_call_id ≡ some sip
  pub same_answer : (t : ℕ) → c.answered_at ≡ some t → d.answered_at ≡ some t

Progress-refl : (c : Call) → Progress c c
Progress-refl c = record {
  forward = omega arith;
  final = λ h. refl;
  same_end = λ h. refl;
  same_reason = λ h. refl;
  same_media = λ h. refl;
  same_direction = refl;
  same_organization = refl;
  same_sip = λ s h. h;
  same_answer = λ t h. h;
}

still_terminal :
    {c d : Call}
    → Progress c d
    → is_terminal_state c.state ≡ true
    → is_terminal_state d.state ≡ true
still_terminal p h = rw (p.final h) h

Progress-trans : {c d e : Call} → Progress c d → Progress d e → Progress c e
Progress-trans p q = record {
  forward = omega (arith, p.forward, q.forward);
  final = λ h. q.final (still_terminal p h) ∙ p.final h;
  same_end = λ h. q.same_end (still_terminal p h) ∙ p.same_end h;
  same_reason = λ h. q.same_reason (still_terminal p h) ∙ p.same_reason h;
  same_media = λ h. q.same_media (still_terminal p h) ∙ p.same_media h;
  same_direction = q.same_direction ∙ p.same_direction;
  same_organization = q.same_organization ∙ p.same_organization;
  same_sip = λ s h. q.same_sip s (p.same_sip s h);
  same_answer = λ t h. q.same_answer t (p.same_answer t h);
}

mark-Progress :
    (m : Mark) (now : ℕ) (reason : Option Text) (c : Call)
    → may_mark m c ≡ true
    → Progress c (set_mark m now reason c)
unfolding may_mark set_mark is_terminal_state
mark-Progress mark_ringing now reason c h = ground arith
mark-Progress mark_answered now reason c h = ground arith
mark-Progress mark_active now reason c h = ground arith
mark-Progress mark_held now reason c h = ground arith
mark-Progress mark_resumed now reason c h = ground arith
mark-Progress mark_completed now reason c h = ground arith
mark-Progress mark_failed now reason c h = ground arith
mark-Progress mark_cancelled now reason c h = ground arith

bind-Progress :
    (sip : Text) (now : ℕ) (c : Call) → may_bind_sip sip c ≡ true → Progress c (set_sip sip now c)
unfolding may_bind_sip set_sip
bind-Progress sip now c h = record {
  forward = omega arith;
  final = λ h. refl;
  same_end = λ h. refl;
  same_reason = λ h. refl;
  same_media = λ h. refl;
  same_direction = refl;
  same_organization = refl;
  same_sip = λ s e. ground (arith, eq_of_text_eq s sip);
  same_answer = λ t h. h;
}

route-Progress :
    (trunk_id trunk_endpoint_id : Option ℕ) (now : ℕ) (c : Call)
    → Progress c (set_route trunk_id trunk_endpoint_id now c)
unfolding set_route
route-Progress trunk_id trunk_endpoint_id now c = ground (arith, Progress-refl c)

-- Each row of the first table is in the second, further on or unchanged.
abbrev pub Advances : Calls → Calls → Type 0
Advances calls calls' =
    (id : ℕ) (c : Call) → calls id ≡ some c → (d : Call) × (calls' id ≡ some d) × Progress c d

insert-Advances :
    (calls : Calls) (id : ℕ) (c d : Call)
    → calls id ≡ some c
    → Progress c d
    → Advances calls (insert calls id d)
unfolding insert
insert-Advances calls id c d found p j e found' = elim (Bool-cases (j == id)) [
  | inl same ↦ (
    d,
    ground arith,
    let met : e ≡ c = eq_of_some_eq (sym found' ∙ ap calls ((==_iff j id).0 same) ∙ found) in
        rw met p,
  )
  | inr other ↦ (e, ground arith, Progress-refl e)
]

-- A row under a key that is free changes no row that is there.
insert_new-Advances :
    (calls : Calls) (id : ℕ) (d : Call) → calls id ≡ none → Advances calls (insert calls id d)
unfolding insert
insert_new-Advances calls id d free j e found = elim (Bool-cases (j == id)) [
  | inl same ↦ let met : some e ≡ none = sym found ∙ ap calls ((==_iff j id).0 same) ∙ free in cc
  | inr other ↦ (e, ground arith, Progress-refl e)
]

Step-Advances : {d e : Database} → Step d e → Advances d.calls e.calls
unfolding commit write_row
Step-Advances {d} (bound id c sip now found h) =
    insert-Advances d.calls id c _ found (bind-Progress sip now c h)
Step-Advances {d} (marked id c m reason now found h) =
    insert-Advances d.calls id c _ found (mark-Progress m now reason c h)
Step-Advances {d} (created id params event_type now free early announced) =
    insert_new-Advances d.calls id _ free
Step-Advances {d} (attributed id c trunk_id trunk_endpoint_id now found) =
    insert-Advances d.calls id c _ found (route-Progress trunk_id trunk_endpoint_id now c)

pub Reach-Advances : {d e : Database} → Reach d e → Advances d.calls e.calls
Reach-Advances here id c found = (c, found, Progress-refl c)
Reach-Advances (next_step r s) id c found =
    let (d, at, p) = Reach-Advances r id c found in
    let (e, at', q) = Step-Advances s id d at in (e, at', Progress-trans p q)
