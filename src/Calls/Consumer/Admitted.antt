-- ===== src/Calls/Consumer/Admitted.antt =====
-- What the validation of `AdmitInbound` says of an event that was translated.
use monogo.Base.{
  ℤ, Bool, true, false, not, ◌&&◌, List, [], ◌∷◌, String, Text, ◌≡◌, ◌↔◌, refl, subst, is_empty,
  trim_space, ◌==◌, Bool-cases, inl, inr,
}
use monogo.Base.Strings.Trim.{trim_space-nothing, trim_space-twice}
use monogo.Effects.{ok}
use monogo.Calling.Events.{Packages, Event, header}
use monogo.Calling.Translator.{first_non_empty, freeswitch_event_time}
use monogo.Calling.Translator.Inbound.{
  InboundEvent, translate_inbound_freeswitch_event, from_uri_of, to_uri_of,
}
use monogo.Calling.Translator.Steps.{
  eq_of_ok_eq, err-ok, bind-ok, demand-ok, some_or-ok, required-ok,
}
use monogo.Calls.Model.{require, ◌and_then◌}
use monogo.Calls.Requests.{validate_inbound_admission}
use monogo.Calls.Consumer.{admission_request}

-- No id of the event is `uuid.Nil`.
unfoldable pub names_all : InboundEvent → Bool
names_all a =
    not (a.organization_id == 0)
    && (not (a.voice_agent_id == 0)
        && (not (a.phone_number_id == 0)
            && (not (a.voice_agent_binding_id == 0) && not (a.trunk_id == 0))))

-- The texts of the event say something past their spaces.
abbrev IsWorded : InboundEvent → Type 0
IsWorded a =
    (is_empty (trim_space a.channel_id) ≡ false)
    × (is_empty (trim_space a.sip_call_id) ≡ false)
    × (is_empty (trim_space a.from_uri) ≡ false)
    × (is_empty (trim_space a.to_uri) ≡ false)

first_non_empty-trimmed : (ts : List Text) → trim_space (first_non_empty ts) ≡ first_non_empty ts
unfolding first_non_empty
first_non_empty-trimmed [] = trim_space-nothing
first_non_empty-trimmed (t ∷ ts) = elim (Bool-cases (is_empty (trim_space t))) [
  | inl e ↦ rw e (first_non_empty-trimmed ts)
  | inr e ↦ rw e (trim_space-twice t)
]

trimmed-worded :
    (t : Text) → is_empty (trim_space t) ≡ false → is_empty (trim_space (trim_space t)) ≡ false
trimmed-worded t h = rw (trim_space-twice t) h

from_uri_of-trimmed : (p : Packages) (e : Event) → trim_space (from_uri_of p e) ≡ from_uri_of p e
unfolding from_uri_of
from_uri_of-trimmed p e = first_non_empty-trimmed (
    header p e "variable_sip_from_uri"
    ∷ header p e "Caller-Caller-ID-Number"
    ∷ header p e "Caller-ANI"
    ∷ [])

to_uri_of-trimmed : (p : Packages) (e : Event) → trim_space (to_uri_of p e) ≡ to_uri_of p e
unfolding to_uri_of
to_uri_of-trimmed p e =
    first_non_empty-trimmed
      (header p e "Caller-Destination-Number" ∷ header p e "variable_sip_to_user" ∷ [])

translate_inbound-IsWorded :
    (p : Packages) (now : ℤ) (e : Event) (a : InboundEvent)
    → translate_inbound_freeswitch_event p now e ≡ ok a
    → IsWorded a
unfolding translate_inbound_freeswitch_event
translate_inbound-IsWorded p now e a h =
    let (c1, h1) = demand-ok _ _ _ h in
    let (c2, h2) = demand-ok _ _ _ h1 in
    let (c3, h3) = demand-ok _ _ _ h2 in
    let (i1, d1, h4) = some_or-ok _ _ _ h3 in
    let (i2, d2, h5) = some_or-ok _ _ _ h4 in
    let (i3, d3, h6) = some_or-ok _ _ _ h5 in
    let (i4, d4, h7) = some_or-ok _ _ _ h6 in
    let (i5, d5, h8) = some_or-ok _ _ _ h7 in
    let (channel, h9) = required-ok _ _ _ h8 in
    let (sip, h10) = required-ok _ _ _ h9 in
    let (caller, h11) = required-ok _ _ _ h10 in
    let (called, h12) = required-ok _ _ _ h11 in
    let (at, timed, h13) = bind-ok (freeswitch_event_time p now e) _ h12 in
    subst IsWorded (eq_of_ok_eq h13) (
      trimmed-worded _ channel,
      trimmed-worded _ sip,
      trimmed-worded _ (rw (from_uri_of-trimmed p e) caller),
      trimmed-worded _ (rw (to_uri_of-trimmed p e) called),
    )

-- Five checks, and behind them two that pass.
require_all :
    (a b c d f : Bool) (k l m n o : String)
    → ((require a k
          and_then require b l
          and_then require c m
          and_then require d n
          and_then require f o
          and_then ok tt
          and_then ok tt)
        ≡ ok tt)
      ↔ ((a && (b && (c && (d && f)))) ≡ true)
require_all true true true true true k l m n o = (λ h. refl, λ h. refl)
require_all true true true true false k l m n o = (λ h. absurd (err-ok h), λ h. cc)
require_all true true true false f k l m n o = (λ h. absurd (err-ok h), λ h. cc)
require_all true true false d f k l m n o = (λ h. absurd (err-ok h), λ h. cc)
require_all true false c d f k l m n o = (λ h. absurd (err-ok h), λ h. cc)
require_all false b c d f k l m n o = (λ h. absurd (err-ok h), λ h. cc)

-- A translated inbound event passes the validation of an admission exactly if none of its ids is
-- `uuid.Nil`: the texts that the validation asks for are there.
pub translate_inbound-admissible_iff :
    (p : Packages) (now : ℤ) (e : Event) (a : InboundEvent)
    → translate_inbound_freeswitch_event p now e ≡ ok a
    → (validate_inbound_admission (admission_request a) ≡ ok tt) ↔ (names_all a ≡ true)
unfolding validate_inbound_admission admission_request names_all
translate_inbound-admissible_iff p now e a h =
    let (channel, sip, caller, called) = translate_inbound-IsWorded p now e a h in
    rw channel (
      rw sip (
        rw caller (
          rw called (
            require_all (not (a.organization_id == 0)) (not (a.voice_agent_id == 0))
              (not (a.phone_number_id == 0)) (not (a.voice_agent_binding_id == 0))
              (not (a.trunk_id == 0)) _ _ _ _ _))))
