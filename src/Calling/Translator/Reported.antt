-- ===== src/Calling/Translator/Reported.antt =====
-- What an event of a call's life keeps of the event of FreeSWITCH that it comes from.
use monogo.Base.{◌⊎◌, ◌↔◌, codes, true, false, some, Text, ◌≡◌, is_empty, trim_space}
use monogo.Calling.Events.{Packages, Event, header}
use monogo.Calling.Translator.{event_answered, counts, LifecycleEvent, is_hangup, call_header}
use monogo.Calling.Translator.Kinds.{IsKind}

-- A reason is a trimmed text that is not empty, at the end of a call.
abbrev pub IsReason : Event → Text → Type 0
IsReason e t = (is_hangup e ≡ true) × (is_empty t ≡ false) × (trim_space t ≡ t)

-- One of the headers says so: a flag that is `true`, or a count above 0.
abbrev pub Answered : Packages → Event → Type 0
Answered p e =
    (p.equal_fold (trim_space (header p e "Answered")) (codes "true") ≡ true)
    ⊎ (p.equal_fold (trim_space (header p e "variable_answered")) (codes "true") ≡ true)
    ⊎ (counts (header p e "variable_answer_epoch") ≡ true)
    ⊎ (counts (header p e "answer_epoch") ≡ true)
    ⊎ (counts (header p e "billmsec") ≡ true)
    ⊎ (counts (header p e "variable_billmsec") ≡ true)

abbrev pub Reports : Packages → Event → LifecycleEvent → Type 0
Reports p e r =
    (p.parse_uuid (call_header p e) ≡ some r.call_id)
    × (is_empty r.channel_id ≡ false)
    × IsKind p e r.type
    × ((event_answered p e ≡ true) ↔ Answered p e)
    × ((t : Text) → r.hangup_reason ≡ some t → IsReason e t)
