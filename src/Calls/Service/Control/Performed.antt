-- ===== src/Calls/Service/Control/Performed.antt =====
-- What each control operation does, by the state of the call.
use monogo.Base.{
  ℕ, ◌≡◌, ◌∷◌, refl, ap, Bool, true, false, not, ◌&&◌, ◌||◌, List, [], String, Text, is_empty,
  trim_space, Bool-cases, inl, inr, arith,
}
use monogo.Errors.{Error, wrapped, new_internal}
use monogo.Effects.{World, Result, ok, err, M, continue, on_error, guard, map_error}
use monogo.Redis.{Redis}
use monogo.Calling.Controller.{
  SwitchCommand, answer, hangup, hold, unhold, stop_audio, transfer, play_audio, send_dtmf,
  record_audio, send, hang_up,
}
use monogo.Calls.Model.{
  State, MediaState, Call, is_terminal_state, initiating, ringing, answered, require,
}
use monogo.Calls.Requests.{
  RecordActionRequest, normalize_text, normalize_record, shaped_record, check_record, returning,
}
use monogo.Calls.Store.{Database, is_connected, is_held}
use monogo.Calls.Service.{Peers}
use monogo.Calls.Service.Control.Malformed.{
  IsMalformed, text_malformed, record-IsMalformed, IsMalformed-perform,
}
use monogo.Calls.Service.Control.{
  Operation, answer_call, hangup_call, hold_call, resume_call, stop_playback, transfer_call,
  play_file, dial_digits, record_call, perform, control_context, control, is_one_of,
  connected_states, hangup_found, hold_found, resume_found, answer_op, hangup_op, hold_op,
  resume_op, stop_op, transfer_op, play_op, dtmf_op, record_op,
}

-- A call that has been answered and is not over.
abbrev is_up : State → Bool
is_up answered = true
is_up State.active = true
is_up _ = false

abbrev is_pending : State → Bool
is_pending initiating = true
is_pending ringing = true
is_pending _ = false

abbrev on_hold : MediaState → Bool
on_hold MediaState.held = true
on_hold MediaState.active = false

-- The calls on which an operation has something to do.
abbrev pub has_effect : Operation → Call → Bool
has_effect answer_call c = is_pending c.state
has_effect hangup_call c = is_pending c.state || is_up c.state
has_effect hold_call c = is_up c.state && not (on_hold c.media_state)
has_effect resume_call c = is_up c.state && on_hold c.media_state
has_effect _ c = is_up c.state

-- The calls that are already as the operation wants them.
abbrev pub is_done : Operation → Call → Bool
is_done hangup_call c = not (is_pending c.state || is_up c.state)
is_done hold_call c = is_up c.state && on_hold c.media_state
is_done resume_call c = is_up c.state && not (on_hold c.media_state)
is_done _ c = false

on_error-on_error :
    {A : Type 0} (f g : Error → Error) (r : Result A)
    → on_error f (on_error g r) ≡ on_error (λ e. f (g e)) r
on_error-on_error f g (ok a) = refl
on_error-on_error f g (err e) = refl

map_error-map_error :
    {D K A : Type 0} (f g : Error → Error) (m : M D K A) (w : World D K)
    → map_error f (map_error g m) w ≡ map_error (λ e. f (g e)) m w
map_error-map_error f g m w = ap (λ r. (r, (m w).1)) (on_error-on_error f g (m w).0)

module _ (r : Redis) (p : Peers r.Keyspace) where
  -- The command that an operation stands for.
  abbrev pub command_of : Operation → Text → SwitchCommand
  command_of answer_call channel = answer channel
  command_of hangup_call channel = hangup channel
  command_of hold_call channel = hold channel
  command_of resume_call channel = unhold channel
  command_of stop_playback channel = stop_audio channel
  command_of (transfer_call destination) channel = transfer channel (trim_space destination)
  command_of (play_file path) channel = play_audio channel (trim_space path)
  command_of (dial_digits digits) channel = send_dtmf channel (trim_space digits)
  command_of (record_call req) channel =
      let shaped = shaped_record p.library.to_lower req in
      record_audio channel shaped.path shaped.action

  module _ (operation : Operation) (organization_id id : ℕ) (w : World Database r.Keyspace) where
    abbrev Found : Call → Text → World Database r.Keyspace → Type 0
    Found c channel v = control_context r p organization_id id w ≡ (ok (c, channel), v)

    -- The ways in which an operation can end.
    pub data Performed (out : Result (Unit {0}) × World Database r.Keyspace) : Type 0 where
      malformed :
          (e : Error) → IsMalformed p.library.to_lower operation → out ≡ (err e, w) → Performed out
      unreachable :
          (e : Error) (v : World Database r.Keyspace)
          → control_context r p organization_id id w ≡ (err e, v)
          → out ≡ (err e, v)
          → Performed out
      refused :
          (c : Call) (channel : Text) (v : World Database r.Keyspace) (e : Error)
          → Found c channel v
          → has_effect operation c ≡ false
          → is_done operation c ≡ false
          → out ≡ (err e, v)
          → Performed out
      nothing_to_do :
          (c : Call) (channel : Text) (v : World Database r.Keyspace)
          → Found c channel v
          → is_done operation c ≡ true
          → out ≡ (ok tt, v)
          → Performed out
      commanded :
          (c : Call) (channel : Text) (v : World Database r.Keyspace) (f : Error → Error)
          → Found c channel v
          → has_effect operation c ≡ true
          → out ≡ map_error f (p.switch.command (command_of operation channel)) v
          → Performed out

    lookup_rule :
        (x : Result (Call × Text) × World Database r.Keyspace)
        (k : Call × Text → M Database r.Keyspace (Unit {0}))
        → control_context r p organization_id id w ≡ x
        → ((c : Call) (channel : Text) (v : World Database r.Keyspace)
            → Found c channel v
            → Performed (k (c, channel) v))
        → Performed (continue x.0 x.1 k)
    lookup_rule (err e, v) k h hk = unreachable e v h refl
    lookup_rule (ok (c, channel), v) k h hk = hk c channel v h

    sent_rule :
        (c : Call) (channel : Text) (v : World Database r.Keyspace) (message : String)
        (f : Error → Error)
        → Found c channel v
        → has_effect operation c ≡ true
        → Performed (map_error f (send p.library p.switch message (command_of operation channel)) v)
    unfolding send
    sent_rule c channel v message f h effect =
        commanded c channel v (λ d. f (wrapped message d)) h effect
          (map_error-map_error f (wrapped message) (p.switch.command (command_of operation channel))
            v)

    -- Behind a guard that lets the calls through on which the operation has an effect.
    guarded :
        (b : Bool) (c : Call) (channel : Text) (v : World Database r.Keyspace) (e : Error)
        (message : String) (f : Error → Error)
        → Found c channel v
        → has_effect operation c ≡ b
        → is_done operation c ≡ false
        → Performed (
            continue
              (guard {D = Database} {K = r.Keyspace} b e v).0
              (guard b e v).1
              (λ u. map_error f (send p.library p.switch message (command_of operation channel))))
    unfolding send
    guarded true c channel v e message f h effect undone = sent_rule c channel v message f h effect
    guarded false c channel v e message f h effect undone =
        refused c channel v e h effect undone refl

    control_rule :
        (allowed : List State) (message : String)
        → ((c : Call) → has_effect operation c ≡ is_one_of allowed c.state)
        → ((c : Call) → is_done operation c ≡ false)
        → Performed (
            control r p organization_id id allowed
              (λ channel. send p.library p.switch message (command_of operation channel))
              w)
    unfolding control
    control_rule allowed message effect undone =
        lookup_rule (control_context r p organization_id id w) _ refl (λ c channel v h.
          guarded (is_one_of allowed c.state) c channel v _ message _ h (effect c) (undone c))

    -- A request that its normalization refuses, or its text goes on.
    text_rule :
        (x : Result Text) (k : Text → M Database r.Keyspace (Unit {0})) (wanted : Text)
        → ((e : Error) → x ≡ err e → IsMalformed p.library.to_lower operation)
        → ((t : Text) → x ≡ ok t → t ≡ wanted)
        → Performed (k wanted w)
        → Performed (continue x w k)
    text_rule (err e) k wanted bad h hk = malformed e (bad e refl) refl
    text_rule (ok t) k wanted bad h hk = rw (h t refl) hk

    record_rule :
        (x : Result RecordActionRequest)
        (k : RecordActionRequest → M Database r.Keyspace (Unit {0})) (wanted : RecordActionRequest)
        → ((e : Error) → x ≡ err e → IsMalformed p.library.to_lower operation)
        → ((t : RecordActionRequest) → x ≡ ok t → t ≡ wanted)
        → Performed (k wanted w)
        → Performed (continue x w k)
    record_rule (err e) k wanted bad h hk = malformed e (bad e refl) refl
    record_rule (ok t) k wanted bad h hk = rw (h t refl) hk

  returning-ok :
      {A : Type 0} (checks : Result (Unit {0})) (a b : A) → returning checks a ≡ ok b → b ≡ a
  returning-ok (ok u) a b h = cc
  returning-ok (err e) a b h = cc

  answered_effect :
      (c : Call) → has_effect answer_call c ≡ is_one_of (initiating ∷ ringing ∷ []) c.state
  answered_effect c = ground arith

  up_effect : (c : Call) → is_up c.state ≡ is_one_of (connected_states r p) c.state
  unfolding connected_states
  up_effect c = ground arith

  hangup-Performed :
      (organization_id id : ℕ) (w : World Database r.Keyspace) (c : Call) (channel : Text)
      (v : World Database r.Keyspace)
      → Found hangup_call organization_id id w c channel v
      → Performed hangup_call organization_id id w (hangup_found r p (c, channel) v)
  unfolding hangup_found is_terminal_state send hang_up
  hangup-Performed organization_id id w c channel v h =
      elim (Bool-cases (is_terminal_state c.state)) [
        | inl over ↦ rw over (nothing_to_do c channel v h (ground arith) refl)
        | inr going ↦ rw going (
            sent_rule hangup_call organization_id id w c channel v "hangup call"
              (new_internal "hangup call") h (ground arith))
      ]

  hold-Performed :
      (organization_id id : ℕ) (w : World Database r.Keyspace) (c : Call) (channel : Text)
      (v : World Database r.Keyspace)
      → Found hold_call organization_id id w c channel v
      → Performed hold_call organization_id id w (hold_found r p (c, channel) v)
  unfolding hold_found send
  hold-Performed organization_id id w c channel v h = elim (Bool-cases (is_connected c.state)) [
    | inr down ↦ rw down (refused c channel v _ h (ground arith) (ground arith) refl)
    | inl up ↦ elim (Bool-cases (is_held c.media_state)) [
      | inl on ↦ rw up (rw on (nothing_to_do c channel v h (ground arith) refl))
      | inr off ↦ rw up (
          rw off (
            sent_rule hold_call organization_id id w c channel v "hold call"
              (new_internal "hold call") h (ground arith)))
    ]
  ]

  resume-Performed :
      (organization_id id : ℕ) (w : World Database r.Keyspace) (c : Call) (channel : Text)
      (v : World Database r.Keyspace)
      → Found resume_call organization_id id w c channel v
      → Performed resume_call organization_id id w (resume_found r p (c, channel) v)
  unfolding resume_found send
  resume-Performed organization_id id w c channel v h = elim (Bool-cases (is_connected c.state)) [
    | inr down ↦ rw down (refused c channel v _ h (ground arith) (ground arith) refl)
    | inl up ↦ elim (Bool-cases (is_held c.media_state)) [
      | inr off ↦ rw up (rw off (nothing_to_do c channel v h (ground arith) refl))
      | inl on ↦ rw up (
          rw on (
            sent_rule resume_call organization_id id w c channel v "resume call"
              (new_internal "resume call") h (ground arith)))
    ]
  ]

  performed :
      (operation : Operation) (organization_id id : ℕ) (w : World Database r.Keyspace)
      → Performed operation organization_id id w (perform r p operation organization_id id w)
  unfolding perform answer_op hangup_op hold_op resume_op stop_op transfer_op play_op dtmf_op
      record_op normalize_text normalize_record
  performed answer_call organization_id id w =
      control_rule answer_call organization_id id w _ _ answered_effect (λ c. refl)
  performed hangup_call organization_id id w =
      lookup_rule hangup_call organization_id id w _ _ refl (hangup-Performed organization_id id w)
  performed hold_call organization_id id w =
      lookup_rule hold_call organization_id id w _ _ refl (hold-Performed organization_id id w)
  performed resume_call organization_id id w =
      lookup_rule resume_call organization_id id w _ _ refl (resume-Performed organization_id id w)
  performed stop_playback organization_id id w =
      control_rule stop_playback organization_id id w _ _ up_effect (λ c. refl)
  performed (transfer_call raw) organization_id id w =
      text_rule (transfer_call raw) organization_id id w
        (normalize_text "destination is required" raw)
        (λ t.
          control r p organization_id id (connected_states r p)
            (λ channel. send p.library p.switch "transfer call" (transfer channel t)))
        (trim_space raw) (text_malformed (trim_space raw) "destination is required")
        (λ t e.
          returning-ok (require (not (is_empty (trim_space raw))) "destination is required") _ t e)
        (control_rule (transfer_call raw) organization_id id w _ "transfer call" up_effect
          (λ c. refl))
  performed (play_file raw) organization_id id w =
      text_rule (play_file raw) organization_id id w (normalize_text "path is required" raw)
        (λ t.
          control r p organization_id id (connected_states r p)
            (λ channel. send p.library p.switch "play audio" (play_audio channel t)))
        (trim_space raw) (text_malformed (trim_space raw) "path is required")
        (λ t e. returning-ok (require (not (is_empty (trim_space raw))) "path is required") _ t e)
        (control_rule (play_file raw) organization_id id w _ "play audio" up_effect (λ c. refl))
  performed (dial_digits raw) organization_id id w =
      text_rule (dial_digits raw) organization_id id w (normalize_text "digits are required" raw)
        (λ t.
          control r p organization_id id (connected_states r p)
            (λ channel. send p.library p.switch "send DTMF" (send_dtmf channel t)))
        (trim_space raw) (text_malformed (trim_space raw) "digits are required")
        (λ t e.
          returning-ok (require (not (is_empty (trim_space raw))) "digits are required") _ t e)
        (control_rule (dial_digits raw) organization_id id w _ "send DTMF" up_effect (λ c. refl))
  performed (record_call raw) organization_id id w =
      record_rule (record_call raw) organization_id id w (normalize_record p.library.to_lower raw)
        (λ t.
          control r p organization_id id (connected_states r p) (λ channel.
            send p.library p.switch "record call" (record_audio channel t.path t.action)))
        (shaped_record p.library.to_lower raw) (record-IsMalformed p.library.to_lower raw)
        (λ t e. returning-ok (check_record (shaped_record p.library.to_lower raw)) _ t e)
        (control_rule (record_call raw) organization_id id w _ "record call" up_effect (λ c. refl))

  -- Whatever FreeSWITCH, Redis and the network do, a control operation ends in one of five ways: its
  -- request is malformed (no destination, path or digits past the spaces, or an action of a recording
  -- that is none of its list), which no answer, hangup, hold, resume or stop is, and nothing has
  -- happened; the call or its channel cannot be read, and nothing
  -- happens past that; the call is in a state in which the operation is refused, or has nothing to do
  -- (a call that is over for a hangup, one on hold already for a hold, one not on hold for a resume),
  -- and no command is sent; or the call is in a state in which the operation has an effect, and it is
  -- the one command that it stands for, to the channel of the call.
  -- A malformed request always ends in the first way.
  pub perform-Performed :
      (operation : Operation) (organization_id id : ℕ) (w : World Database r.Keyspace)
      → Performed operation organization_id id w (perform r p operation organization_id id w)
        × (IsMalformed p.library.to_lower operation
            → (e : Error) × (perform r p operation organization_id id w ≡ (err e, w)))
  perform-Performed operation organization_id id w = (
    performed operation organization_id id w,
    IsMalformed-perform r p operation organization_id id w,
  )
