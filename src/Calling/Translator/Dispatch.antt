-- ===== src/Calling/Translator/Dispatch.antt =====
-- The handler of call events in server/internal/runtime/worker/consumers.go: to which handler it gives
-- an event, or which channel it hangs up. What the
-- handlers answer is only logged. A CUSTOM event, which is dropped first, has no translation.
use monogo.Base.{
  ℤ, true, ◌&&◌, List, [], ◌∷◌, ◌++◌, none, Text, ◌≡◌, refl, ◌⊎◌, inl, inr, codes, is_empty,
  text_eq, trim_space, Bool-cases, if◌then◌else◌,
}
use monogo.Errors.{is_error, not_inbound_admission}
use monogo.Effects.{Result, ok, err}
use monogo.Calling.Events.{Packages, Event, header}
use monogo.Calling.Translator.{
  LifecycleEvent, some_or, call_header, lifecycle_event_type, translate_freeswitch_event,
}
use monogo.Calling.Translator.Inbound.{InboundEvent, translate_inbound_freeswitch_event}

pub data Action : Type 0 where
  admit : InboundEvent → Action
  reject : Text → Action
  observe : LifecycleEvent → Action

abbrev pub observations : Result LifecycleEvent → List Action
observations (ok event) = observe event ∷ []
observations (err e) = []

abbrev pub rejected : Text → List Action
rejected [] = []
rejected (c ∷ channel) = reject (c ∷ channel) ∷ []

-- An error that says that the event is no inbound call, or another.
abbrev pub admitted : Text → List Action → Result InboundEvent → List Action
admitted channel later (ok event) = admit event ∷ []
admitted channel later (err e) =
    if is_error not_inbound_admission e then later else rejected channel ++ later

module _ (p : Packages) where
  unfoldable pub actions : ℤ → Event → List Action
  actions now e =
      if text_eq e.name (codes "CHANNEL_CREATE") && is_empty (call_header p e)
      then admitted (trim_space (header p e "Unique-ID"))
          (observations (translate_freeswitch_event p now e))
          (translate_inbound_freeswitch_event p now e)
      else observations (translate_freeswitch_event p now e)

abbrev pub AtMostOne : List Action → Type 0
AtMostOne actions = (actions ≡ []) ⊎ ((a : Action) × (actions ≡ a ∷ []))

observations-AtMostOne : (r : Result LifecycleEvent) → AtMostOne (observations r)
observations-AtMostOne (ok event) = inr (observe event, refl)
observations-AtMostOne (err e) = inl refl

rejected-AtMostOne : (channel : Text) → AtMostOne (rejected channel ++ [])
rejected-AtMostOne [] = inl refl
rejected-AtMostOne (c ∷ channel) = inr (reject (c ∷ channel), refl)

admitted-AtMostOne : (channel : Text) (r : Result InboundEvent) → AtMostOne (admitted channel [] r)
admitted-AtMostOne channel (ok event) = inr (admit event, refl)
admitted-AtMostOne channel (err e) = elim (Bool-cases (is_error not_inbound_admission e)) [
  | inl h ↦ rw h (inl refl)
  | inr h ↦ rw h (rejected-AtMostOne channel)
]

-- A new channel that no call names is not observations.
observations-bare :
    (p : Packages) (now : ℤ) (e : Event)
    → p.parse_uuid [] ≡ none
    → text_eq e.name (codes "CHANNEL_CREATE") ≡ true
    → call_header p e ≡ []
    → observations (translate_freeswitch_event p now e) ≡ []
unfolding translate_freeswitch_event lifecycle_event_type some_or
observations-bare p now e no_id created bare = rw created (rw bare (rw no_id refl))

empty_text : (t : Text) → is_empty t ≡ true → t ≡ []
empty_text [] h = refl
empty_text (c ∷ t) h = cc

-- For one event the worker does at most one of these: it admits an inbound call, or observes the life
-- of a call, or hangs the channel up because the inbound metadata are malformed. An empty text is no
-- uuid.
pub actions-AtMostOne :
    (p : Packages) (now : ℤ) (e : Event) → p.parse_uuid [] ≡ none → AtMostOne (actions p now e)
unfolding actions
actions-AtMostOne p now e no_id = elim (Bool-cases (text_eq e.name (codes "CHANNEL_CREATE"))) [
  | inr other ↦ rw other (observations-AtMostOne (translate_freeswitch_event p now e))
  | inl created ↦ elim (Bool-cases (is_empty (call_header p e))) [
    | inr known ↦
        rw created (rw known (observations-AtMostOne (translate_freeswitch_event p now e)))
    | inl bare ↦
        let nothing = observations-bare p now e no_id created (empty_text _ bare) in
        rw created (rw bare (rw nothing (admitted-AtMostOne _ _)))
  ]
]
