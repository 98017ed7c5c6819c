-- ===== src/Calling/Translator.antt =====
-- translator.go of server/internal/runtime/calling: what an event of FreeSWITCH says of a call. A time
-- is a number of microseconds since 1970. An error keeps its fixed words and its sentinel, not the
-- values formatted into it.
pub mod Steps
pub mod Inbound
pub mod Kinds
pub mod Reported
pub mod Apart
pub mod Dispatch
mod Examples
use monogo.Base.{
  ℤ, pos, negsuc, ℕ, zero, suc, Bool, true, false, not, ◌&&◌, ◌||◌, List, [], ◌∷◌, Option, none,
  some, String, Text, codes, is_empty, text_eq, trim_space, ◌==◌, if◌then◌else◌,
}
use monogo.Errors.{
  Error, sentinel, plain, wrapped, unsupported_event, uncorrelated_event, not_inbound_admission,
}
use monogo.Effects.{Result, ok, err}
use monogo.Bencode.Decimal.{parse_int}
use monogo.Calling.Events.{Packages, Event, header}

pub data LifecycleType : Type 0 where
  initiated ringing answered active held resumed completed failed cancelled : LifecycleType

pub record LifecycleEvent : Type 0 where
  pub call_id : ℕ
  pub channel_id : Text
  pub sip_call_id : Text
  pub type : LifecycleType
  pub occurred_at : ℤ
  pub hangup_reason : Option Text

infixl 5 ◌>>=◌ ◌>>◌
abbrev pub ◌>>=◌ : {A B : Type 0} → Result A → (A → Result B) → Result B
ok a >>= k = k a
err e >>= k = err e

abbrev pub ◌>>◌ : {B : Type 0} → Result (Unit {0}) → Result B → Result B
m >> k = m >>= λ _. k

unfoldable pub first_non_empty : List Text → Text
first_non_empty [] = []
first_non_empty (t ∷ ts) =
    let rest = first_non_empty ts in if is_empty (trim_space t) then rest else trim_space t

unfoldable pub demand : Bool → Error → Result (Unit {0})
demand true e = ok tt
demand false e = err e

unfoldable pub some_or : {A : Type 0} → Option A → Error → Result A
some_or none e = err e
some_or (some a) e = ok a

-- A text that must not be empty.
unfoldable pub required : Text → String → Result Text
required t message = if is_empty t then err (plain message) else ok t

unfoldable pub freeswitch_events : List Text
freeswitch_events =
    codes "CHANNEL_CREATE"
    ∷ codes "CHANNEL_PROGRESS"
    ∷ codes "CHANNEL_PROGRESS_MEDIA"
    ∷ codes "CHANNEL_ANSWER"
    ∷ codes "CHANNEL_HOLD"
    ∷ codes "CHANNEL_UNHOLD"
    ∷ codes "CHANNEL_HANGUP_COMPLETE"
    ∷ []

abbrev is_above : Option ℤ → Bool
is_above none = false
is_above (some (pos zero)) = false
is_above (some (pos (suc n))) = true
is_above (some (negsuc n)) = false

-- A header that holds a number above 0.
unfoldable pub counts : Text → Bool
counts t = is_above (parse_int (trim_space t))

abbrev pub is_hangup : Event → Bool
is_hangup e = text_eq e.name (codes "CHANNEL_HANGUP_COMPLETE")

abbrev pub named : Text → Option Text
named t = if is_empty t then none else some t

module _ (p : Packages) where
  unfoldable pub call_header : Event → Text
  unfolding header
  call_header e = trim_space (header p e "variable_leamout_call_id")

  unfoldable pub hangup_cause : Event → Text
  unfolding header first_non_empty
  hangup_cause e =
      trim_space
        (first_non_empty (header p e "Hangup-Cause" ∷ header p e "variable_hangup_cause" ∷ []))

  unfoldable pub event_answered : Event → Bool
  unfolding header counts
  event_answered e =
      p.equal_fold (trim_space (header p e "Answered")) (codes "true")
      || p.equal_fold (trim_space (header p e "variable_answered")) (codes "true")
      || counts (header p e "variable_answer_epoch")
      || counts (header p e "answer_epoch")
      || counts (header p e "billmsec")
      || counts (header p e "variable_billmsec")

  unfoldable pub hangup_type : Event → LifecycleType
  unfolding event_answered hangup_cause
  hangup_type e =
      if event_answered e
      then completed
      else if text_eq (p.to_upper (hangup_cause e)) (codes "ORIGINATOR_CANCEL")
          || text_eq (p.to_upper (hangup_cause e)) (codes "NORMAL_CLEARING")
      then cancelled
      else failed

  unfoldable pub lifecycle_event_type : Event → Result LifecycleType
  lifecycle_event_type e =
      if text_eq e.name (codes "CHANNEL_CREATE")
      then ok initiated
      else if text_eq e.name (codes "CHANNEL_PROGRESS")
          || text_eq e.name (codes "CHANNEL_PROGRESS_MEDIA")
      then ok ringing
      else if text_eq e.name (codes "CHANNEL_ANSWER")
      then ok answered
      else if text_eq e.name (codes "CHANNEL_HOLD")
      then ok held
      else if text_eq e.name (codes "CHANNEL_UNHOLD")
      then ok resumed
      else if is_hangup e
      then ok (hangup_type e)
      else err (wrapped "" (sentinel unsupported_event))

  -- `now` is what the clock shows.
  unfoldable pub freeswitch_event_time : ℤ → Event → Result ℤ
  unfolding header
  freeswitch_event_time now e =
      let raw = trim_space (header p e "Event-Date-Timestamp") in
      if is_empty raw
      then ok now
      else some_or (parse_int raw) (wrapped "parse FreeSWITCH event timestamp" (plain "ParseInt"))

  unfoldable pub reason_of : Event → Option Text
  unfolding hangup_cause
  reason_of e = if is_hangup e then named (hangup_cause e) else none

  unfoldable pub translate_freeswitch_event : ℤ → Event → Result LifecycleEvent
  unfolding lifecycle_event_type freeswitch_event_time header call_header reason_of
  translate_freeswitch_event now e = do
    event_type ← lifecycle_event_type e
    call_id ←
        some_or (p.parse_uuid (call_header e))
          (wrapped "missing valid Leamout call id" (sentinel uncorrelated_event))
    channel_id ←
        required (trim_space (header p e "Unique-ID")) "FreeSWITCH call event is missing Unique-ID"
    occurred_at ← freeswitch_event_time now e
    ok (record {
      call_id = call_id;
      channel_id = channel_id;
      sip_call_id = trim_space (header p e "variable_sip_call_id");
      type = event_type;
      occurred_at = occurred_at;
      hangup_reason = reason_of e;
    })
