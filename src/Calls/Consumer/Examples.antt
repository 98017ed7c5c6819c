-- ===== src/Calls/Consumer/Examples.antt =====
-- An inbound call that the proxy hands over.
use monogo.Base.{
  pos, ℕ, true, [], ◌∷◌, ◌++◌, Option, none, some, Text, ◌≡◌, ◌↔◌, refl, codes, text_eq, trim_space,
  if◌then◌else◌,
}
use monogo.Base.Strings.{is_space}
use monogo.Effects.{ok}
use monogo.Bencode.Decimal.{parse_digits, parse_int}
use monogo.Calling.Events.{Packages, Event}
use monogo.Calling.Translator.{demand, some_or, required}
use monogo.Calling.Translator.Inbound.{InboundEvent, translate_inbound_freeswitch_event}
use monogo.Calls.Requests.{validate_inbound_admission}
use monogo.Calls.Consumer.{admission_request}
use monogo.Calls.Consumer.Admitted.{names_all, translate_inbound-admissible_iff}

abbrev parse_number : Text → Option ℕ
parse_number [] = none
parse_number (c ∷ s) = parse_digits 0 (c ∷ s)

abbrev packages : Packages
packages = record {
  parse_uuid = parse_number;
  path_unescape = λ t. some t;
  to_upper = λ t. t;
  equal_fold = text_eq;
}

-- The ids are headers of the event, the rest are lines of its body.
abbrev headers : Text → Text
headers name =
    if text_eq name (codes "variable_sip_h_X-Leamout-Organization-ID")
    then codes "1"
    else if text_eq name (codes "variable_sip_h_X-Leamout-Trunk-ID")
    then codes "2"
    else if text_eq name (codes "variable_sip_h_X-Leamout-Phone-Number-ID")
    then codes "3"
    else if text_eq name (codes "variable_sip_h_X-Leamout-Voice-Agent-Binding-ID")
    then codes "4"
    else if text_eq name (codes "variable_sip_h_X-Leamout-Voice-Agent-ID")
    then codes "5"
    else []

abbrev created : Event
created = record {
  name = codes "CHANNEL_CREATE";
  headers = headers;
  body =
      codes "Unique-ID: channel"
      ++ 10 ∷ codes "variable_sip_call_id: sip"
      ++ 10 ∷ codes "Caller-ANI: 100"
      ++ 10 ∷ codes "Caller-Destination-Number:  200"
      ++ 10 ∷ codes "Event-Date-Timestamp: 12";
}

abbrev admission : InboundEvent
admission = record {
  channel_id = codes "channel";
  sip_call_id = codes "sip";
  organization_id = 1;
  voice_agent_id = 5;
  phone_number_id = 3;
  voice_agent_binding_id = 4;
  trunk_id = 2;
  from_uri = codes "100";
  to_uri = codes "200";
  occurred_at = pos 12;
}

created-admission : translate_inbound_freeswitch_event packages (pos 9) created ≡ ok admission
unfolding translate_inbound_freeswitch_event demand text_eq trim_space is_space some_or parse_digits
    required parse_int
created-admission = refl

translate_inbound-admissible_iff_example :
    (validate_inbound_admission (admission_request admission) ≡ ok tt)
    ↔ (names_all admission ≡ true)
translate_inbound-admissible_iff_example =
    translate_inbound-admissible_iff packages (pos 9) created admission created-admission
