-- ===== src/Calling/Translator/Examples.antt =====
-- Events of FreeSWITCH: the end of an answered call, and an inbound call.
use monogo.Base.{
  pos, ℕ, true, [], ◌∷◌, Option, none, some, Text, ◌≡◌, ◌⊎◌, refl, codes, text_eq, if◌then◌else◌,
}
use monogo.Errors.{not_inbound_admission, uncorrelated_event}
use monogo.Bencode.Decimal.{parse_digits}
use monogo.Calling.Events.{Packages, Event}
use monogo.Calling.Translator.{completed, LifecycleEvent, translate_freeswitch_event}
use monogo.Calling.Translator.Inbound.{translate_inbound_freeswitch_event}
use monogo.Calling.Translator.Dispatch.{AtMostOne, actions, actions-AtMostOne}
use monogo.Calling.Translator.Apart.{fails_with, translate-apart}

abbrev parse_number : Text → Option ℕ
parse_number [] = none
parse_number (c ∷ s) = parse_digits 0 (c ∷ s)

abbrev packages : Packages
packages = record {
  parse_uuid = parse_number;
  path_unescape = λ t. some t;
  to_upper = λ t. t;
  equal_fold = text_eq;
}

abbrev hangup_headers : Text → Text
hangup_headers name =
    if text_eq name (codes "variable_leamout_call_id")
    then codes " 7"
    else if text_eq name (codes "Unique-ID")
    then codes "channel"
    else if text_eq name (codes "billmsec")
    then codes "1200"
    else if text_eq name (codes "Hangup-Cause")
    then codes "NORMAL_CLEARING "
    else []

abbrev hangup : Event
hangup = record { name = codes "CHANNEL_HANGUP_COMPLETE"; headers = hangup_headers; body = [] }

abbrev ended : LifecycleEvent
ended = record {
  call_id = 7;
  channel_id = codes "channel";
  sip_call_id = [];
  type = completed;
  occurred_at = pos 9;
  hangup_reason = some (codes "NORMAL_CLEARING");
}

translate-apart_example :
    (fails_with not_inbound_admission (translate_inbound_freeswitch_event packages (pos 9) hangup)
      ≡ true)
    ⊎ (fails_with uncorrelated_event (translate_freeswitch_event packages (pos 9) hangup) ≡ true)
translate-apart_example = translate-apart packages (pos 9) hangup refl

actions-AtMostOne_example : AtMostOne (actions packages (pos 9) hangup)
actions-AtMostOne_example = actions-AtMostOne packages (pos 9) hangup refl
