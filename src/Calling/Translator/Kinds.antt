-- ===== src/Calling/Translator/Kinds.antt =====
-- Which events a translation stands for, and what it says of the call.
use monogo.Base.{
  Bool, true, false, ◌&&◌, ◌||◌, List, [], ◌∷◌, String, Text, ◌≡◌, ◌⊎◌, inl, inr, refl, sym, subst,
  codes, text_eq, eq_of_text_eq, if◌then◌else◌,
}
use monogo.Errors.{Error, wrapped, sentinel, unsupported_event}
use monogo.Effects.{Result, ok, err}
use monogo.Calling.Translator.Steps.{err-ok, eq_of_ok_eq}
use monogo.Calling.Events.{Packages, Event}
use monogo.Calling.Translator.{
  LifecycleType, initiated, ringing, answered, held, resumed, completed, failed, cancelled,
  freeswitch_events, is_hangup, hangup_type, lifecycle_event_type, event_answered,
}

abbrev pub is_ending : LifecycleType → Bool
is_ending completed = true
is_ending failed = true
is_ending cancelled = true
is_ending _ = false

abbrev pub is_completion : LifecycleType → Bool
is_completion completed = true
is_completion _ = false

abbrev pub listed : Text → List Text → Bool
listed t [] = false
listed t (u ∷ us) = text_eq t u || listed t us

-- Whether a result is no error.
abbrev pub is_supported {ℓ} : {A : Type ℓ} → Result A → Bool
is_supported (ok a) = true
is_supported (err e) = false

support_chain :
    {A : Type 0} (a b c d f g h : Bool) (u v w x y z : A) (e : Error)
    → (a || (b || (c || (d || (f || (g || (h || false)))))))
      ≡ is_supported (
          if a
          then ok u
          else if b || c
          then ok v
          else if d
          then ok w
          else if f
          then ok x
          else if g
          then ok y
          else if h
          then ok z
          else err e)
support_chain true b c d f g h u v w x y z e = refl
support_chain false true c d f g h u v w x y z e = refl
support_chain false false true d f g h u v w x y z e = refl
support_chain false false false true f g h u v w x y z e = refl
support_chain false false false false true g h u v w x y z e = refl
support_chain false false false false false true h u v w x y z e = refl
support_chain false false false false false false true u v w x y z e = refl
support_chain false false false false false false false u v w x y z e = refl

-- The translation finds a type for an event exactly if the event's name is among those that the worker
-- subscribes to.
pub lifecycle_event_type-supports :
    (p : Packages) (e : Event)
    → is_supported (lifecycle_event_type p e) ≡ listed e.name freeswitch_events
unfolding lifecycle_event_type freeswitch_events
lifecycle_event_type-supports p e =
    let is : String → Bool = λ s. text_eq e.name (codes s) in
    sym (
      support_chain (is "CHANNEL_CREATE") (is "CHANNEL_PROGRESS") (is "CHANNEL_PROGRESS_MEDIA")
        (is "CHANNEL_ANSWER") (is "CHANNEL_HOLD") (is "CHANNEL_UNHOLD") (is_hangup e) initiated
        ringing answered held resumed (hangup_type p e) (wrapped "" (sentinel unsupported_event)))

abbrev pub IsKind : Packages → Event → LifecycleType → Type 0
IsKind p e t = (is_ending t ≡ is_hangup e) × (is_completion t ≡ (is_hangup e && event_answered p e))

apart : (name s t : Text) → text_eq s t ≡ false → text_eq name s ≡ true → text_eq name t ≡ false
apart name s t h i = subst (λ u. text_eq u t ≡ false) (sym (eq_of_text_eq name s i)) h

-- The event of a name other than that of a hangup.
early :
    (p : Packages) (e : Event) (s : Text) {x t : LifecycleType}
    → text_eq s (codes "CHANNEL_HANGUP_COMPLETE") ≡ false
    → is_ending x ≡ false
    → is_completion x ≡ false
    → text_eq e.name s ≡ true
    → ok x ≡ ok t
    → IsKind p e t
early p e s other ending completion same h =
    subst (IsKind p e) (eq_of_ok_eq h)
      (let no = apart e.name s _ other same in (rw no ending, rw no completion))

hangup_kind :
    (p : Packages) (e : Event) {t : LifecycleType}
    → is_hangup e ≡ true
    → ok (hangup_type p e) ≡ ok t
    → IsKind p e t
unfolding hangup_type event_answered
hangup_kind p e ended h = subst (IsKind p e) (eq_of_ok_eq h) (rw ended (go (event_answered p e) _))
  where
    go :
        (a b : Bool)
        → (is_ending (if a then completed else if b then cancelled else failed) ≡ true)
          × (is_completion (if a then completed else if b then cancelled else failed) ≡ a)
    go true b = (refl, refl)
    go false true = (refl, refl)
    go false false = (refl, refl)

-- A chain of tests: the first that passes tells the kind.
kind-step :
    (p : Packages) (e : Event) (b : Bool) (x : LifecycleType) (r : Result LifecycleType)
    → ((t : LifecycleType) → b ≡ true → ok x ≡ ok t → IsKind p e t)
    → ((t : LifecycleType) → b ≡ false → r ≡ ok t → IsKind p e t)
    → (t : LifecycleType) → (if b then ok x else r) ≡ ok t
    → IsKind p e t
kind-step p e true x r yes_case no_case t h = yes_case t refl h
kind-step p e false x r yes_case no_case t h = no_case t refl h

either_named : (a b : Bool) → (a || b) ≡ true → (a ≡ true) ⊎ (b ≡ true)
either_named true b h = inl refl
either_named false b h = inr h

pub lifecycle_event_type-IsKind :
    (p : Packages) (e : Event) (t : LifecycleType) → lifecycle_event_type p e ≡ ok t → IsKind p e t
unfolding lifecycle_event_type text_eq
lifecycle_event_type-IsKind p e =
    kind-step p e _ initiated _ (λ t. early p e (codes "CHANNEL_CREATE") refl refl refl)
      (λ t n.
        kind-step p e _ ringing _
          (λ t y i. elim (either_named _ _ y) [
            | inl a ↦ early p e (codes "CHANNEL_PROGRESS") refl refl refl a i
            | inr a ↦ early p e (codes "CHANNEL_PROGRESS_MEDIA") refl refl refl a i
          ])
          (λ t n.
            kind-step p e _ answered _ (λ t. early p e (codes "CHANNEL_ANSWER") refl refl refl)
              (λ t n.
                kind-step p e _ held _ (λ t. early p e (codes "CHANNEL_HOLD") refl refl refl)
                  (λ t n.
                    kind-step p e _ resumed _
                      (λ t. early p e (codes "CHANNEL_UNHOLD") refl refl refl)
                      (λ t n.
                        kind-step p e _ (hangup_type p e) _ (λ t. hangup_kind p e)
                          (λ t n i. absurd (err-ok i)) t)
                      t)
                  t)
              t)
          t)
