-- ===== src/Calls/Store/Valid.antt =====
-- What every row of the table satisfies.
use monogo.Base.{
  ℕ, ◌≡◌, ◌≢◌, true, false, Option, none, some, Text, arith, Bool-cases, ◌==◌, inl, inr,
  eq_of_some_eq,
}
use monogo.Calls.Model.{State, MediaState, Call, is_terminal_state, answered, cancelled}
use monogo.Calls.Store.{
  Mark, Database, Calls, may_mark, set_mark, set_sip, insert, commit, write_row, mark_ringing,
  mark_answered, mark_active, mark_held, mark_resumed, mark_completed, mark_failed, mark_cancelled,
  is_early,
}
use monogo.Calls.Store.Queries.{CreateCallParams, new_row, set_route}
use monogo.Calls.Store.Steps.{Step, Reach, here, next_step, bound, marked, created, attributed}

-- A call has an end time exactly when it is over; an answered call has an answer time; a call on hold
-- has been connected, so it is not cancelled either.
pub record IsValid (c : Call) : Type 0 where
  pub ended : is_terminal_state c.state ≡ true → c.ended_at ≢ none
  pub running : is_terminal_state c.state ≡ false → c.ended_at ≡ none
  pub answered_once : c.state ≡ answered → c.answered_at ≢ none
  pub held_connected :
      c.media_state ≡ MediaState.held → (is_early c.state ≡ false) × (c.state ≢ cancelled)

mark-IsValid :
    (m : Mark) (now : ℕ) (reason : Option Text) (c : Call)
    → may_mark m c ≡ true
    → IsValid c
    → IsValid (set_mark m now reason c)
unfolding may_mark set_mark is_terminal_state
mark-IsValid mark_ringing now reason c h v = ground arith
mark-IsValid mark_answered now reason c h v = ground arith
mark-IsValid mark_active now reason c h v = ground arith
mark-IsValid mark_held now reason c h v = ground arith
mark-IsValid mark_resumed now reason c h v = ground arith
mark-IsValid mark_completed now reason c h v = ground arith
mark-IsValid mark_failed now reason c h v = ground arith
mark-IsValid mark_cancelled now reason c h v = ground arith

bind-IsValid : (sip : Text) (now : ℕ) (c : Call) → IsValid c → IsValid (set_sip sip now c)
unfolding set_sip
bind-IsValid sip now c v = ground arith

route-IsValid :
    (trunk_id trunk_endpoint_id : Option ℕ) (now : ℕ) (c : Call)
    → IsValid c
    → IsValid (set_route trunk_id trunk_endpoint_id now c)
unfolding set_route
route-IsValid trunk_id trunk_endpoint_id now c v = ground arith

early_running : (s : State) → is_early s ≡ true → is_terminal_state s ≡ false
unfolding is_terminal_state
early_running s h = ground arith

new_row-IsValid :
    (params : CreateCallParams) (now : ℕ)
    → is_early (new_row params now).state ≡ true
    → IsValid (new_row params now)
unfolding new_row
new_row-IsValid params now early = let running = early_running _ early in ground arith

abbrev pub AllValid : Calls → Type 0
AllValid calls = (id : ℕ) (c : Call) → calls id ≡ some c → IsValid c

insert-AllValid :
    (calls : Calls) (id : ℕ) (d : Call) → IsValid d → AllValid calls → AllValid (insert calls id d)
unfolding insert
insert-AllValid calls id d v h j c found = elim (Bool-cases (j == id)) [
  | inl same ↦ rw (← eq_of_some_eq (rw same at found)) v
  | inr other ↦ h j c (rw other at found)
]

Step-AllValid : {d e : Database} → Step d e → AllValid d.calls → AllValid e.calls
unfolding commit write_row
Step-AllValid {d} (bound id c sip now found h) v =
    insert-AllValid d.calls id _ (bind-IsValid sip now c (v id c found)) v
Step-AllValid {d} (marked id c m reason now found h) v =
    insert-AllValid d.calls id _ (mark-IsValid m now reason c h (v id c found)) v
Step-AllValid {d} (created id params event_type now free early announced) v =
    insert-AllValid d.calls id _ (new_row-IsValid params now early) v
Step-AllValid {d} (attributed id c trunk_id trunk_endpoint_id now found) v =
    insert-AllValid d.calls id _ (route-IsValid trunk_id trunk_endpoint_id now c (v id c found)) v

pub Reach-AllValid : {d e : Database} → Reach d e → AllValid d.calls → AllValid e.calls
Reach-AllValid here v = v
Reach-AllValid (next_step r s) v = Step-AllValid s (Reach-AllValid r v)
