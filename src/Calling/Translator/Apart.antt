-- ===== src/Calling/Translator/Apart.antt =====
-- The two translations of one event.
use monogo.Base.{
  ℤ, Bool, true, false, [], ◌∷◌, none, Text, ◌≡◌, refl, ◌⊎◌, inl, inr, codes, is_empty, text_eq,
  Bool-cases,
}
use monogo.Errors.{Sentinel, is_error, not_inbound_admission, uncorrelated_event}
use monogo.Effects.{Result, ok, err}
use monogo.Calling.Events.{Packages, Event}
use monogo.Calling.Translator.{
  demand, some_or, call_header, lifecycle_event_type, translate_freeswitch_event,
}
use monogo.Calling.Translator.Inbound.{translate_inbound_freeswitch_event}

-- `errors.Is(err, target)` at the error of a result.
abbrev pub fails_with : {A : Type 0} → Sentinel → Result A → Bool
fails_with t (ok a) = false
fails_with t (err e) = is_error t e

-- Of any event, one translation is refused: either it is no inbound admission, or it is not correlated
-- to a call. An empty text is no uuid.
pub translate-apart :
    (p : Packages) (now : ℤ) (e : Event)
    → p.parse_uuid [] ≡ none
    → (fails_with not_inbound_admission (translate_inbound_freeswitch_event p now e) ≡ true)
      ⊎ (fails_with uncorrelated_event (translate_freeswitch_event p now e) ≡ true)
unfolding translate_inbound_freeswitch_event translate_freeswitch_event lifecycle_event_type some_or
    demand is_error
translate-apart p now e no_id = elim (Bool-cases (text_eq e.name (codes "CHANNEL_CREATE"))) [
  | inr other ↦ inl (rw other refl)
  | inl created ↦ elim (Bool-cases (is_empty (call_header p e))) [
    | inr correlated ↦ inl (rw created (rw correlated refl))
    | inl bare ↦
        let nothing : call_header p e ≡ [] = empty_text (call_header p e) bare in
        inr (rw created (rw nothing (rw no_id refl)))
  ]
]
  where
    empty_text : (t : Text) → is_empty t ≡ true → t ≡ []
    empty_text [] h = refl
    empty_text (c ∷ t) h = cc
