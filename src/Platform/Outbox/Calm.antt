-- ===== src/Platform/Outbox/Calm.antt =====
-- Publishing on a network that does its work.
use monogo.Base.{
  ℕ, ◌≤◌, ◌≡◌, refl, ap, subst, inl, inr, Bool, true, false, ◌&&◌, List, [], ◌∷◌, ◌++◌, Option,
  none, some, Text, length, ◌==◌, leb, arith, Bool-cases, All,
}
use monogo.Effects.{World, ok, remote}
use monogo.Platform.Outbox.{
  PublisherJobConfig, Content, Event, Outbox, Bus, change, mark_event_published, set_published,
  is_unpublished,
}
use monogo.Base.{is_empty, trim_space, codes}
use monogo.Base.Strings.{is_space}
use monogo.Base.Strings.Trim.{trim_space-head}
use monogo.Platform.Outbox.{
  sent, message_of, publish_with_options, publish, mark_published, publish_event, publish_events,
  event_subject, max_message_size, events_subject_prefix, has_prefix, has_forbidden,
}
use monogo.Platform.Outbox.Later.{In, first, later}

-- What the bus takes: a subject that `eventSubject` accepts and a payload of at most 64 KiB.
abbrev pub Publishable : Content → Type 0
Publishable c =
    (subject : Text) × (event_subject c.subject ≡ ok subject)
    × (length c.payload ≤ max_message_size)

abbrev pub AllPublishable : Outbox → Type 0
AllPublishable o = (id : ℕ) (e : Event) → o.rows id ≡ some e → Publishable e.content

-- Subjects start with the prefix, so no trimming leaves nothing of them.
both_true : (a b : Bool) → (a && b) ≡ true → (a ≡ true) × (b ≡ true)
both_true true b h = (refl, h)
both_true false b h = cc

prefix_head : (c d : ℕ) (p s : Text) → has_prefix (c ∷ p) (d ∷ s) ≡ true → d ≡ c
unfolding has_prefix
prefix_head c d p s h = let (a, b) = both_true (c == d) (has_prefix p s) h in ground arith

starts : (s : Text) → has_prefix events_subject_prefix s ≡ true → (t : Text) × (s ≡ 108 ∷ t)
unfolding has_prefix
starts [] h = cc
starts (d ∷ s) h = (s, ap (λ x. x ∷ s) (prefix_head 108 d (codes "eamout.event.") s h))

event_subject-starts :
    (s subject : Text) → event_subject s ≡ ok subject → (t : Text) × (subject ≡ 108 ∷ t)
unfolding event_subject
event_subject-starts s subject h = elim (Bool-cases (is_empty (trim_space s))) [
  | inl a ↦ cc (rw a at h)
  | inr a ↦ elim (Bool-cases (has_forbidden (trim_space s))) [
    | inl b ↦ cc (rw b at (rw a at h))
    | inr b ↦ elim (Bool-cases (has_prefix events_subject_prefix (trim_space s))) [
      | inl d ↦
          let same : ok (trim_space s) ≡ ok subject = rw d at (rw b at (rw a at h)) in
          let it : trim_space s ≡ subject = cc in
          subst (λ u. (t : Text) × (u ≡ 108 ∷ t)) it (starts (trim_space s) d)
      | inr d ↦
          let same : ok (events_subject_prefix ++ trim_space s) ≡ ok subject =
            rw d at (rw b at (rw a at h)) in
          let it : events_subject_prefix ++ trim_space s ≡ subject = cc in
          subst (λ u. (t : Text) × (u ≡ 108 ∷ t)) it (_, refl)
    ]
  ]
]

trimmed_first : (s : Text) → is_empty (trim_space (108 ∷ s)) ≡ false
unfolding is_space
trimmed_first s = let (t, e) = trim_space-head 108 s refl in rw e refl

module _ (uuid_text : ℕ → Text) where
  abbrev pub calm : Outbox → Bus → ℕ → World Outbox Bus
  calm o bus now = record { database = o; keyspace = bus; net = []; now = now }

  calm-publish :
      (p : ℕ × Event) (o : Outbox) (bus : Bus) (now : ℕ)
      → Publishable p.1.content
      → (bus' : Bus) × (publish uuid_text p (calm o bus now) ≡ (ok tt, calm o bus' now))
  unfolding publish publish_with_options remote
  calm-publish p o bus now (subject, e, small) =
      let (t, s) = event_subject-starts p.1.content.subject subject e in
      let whole : is_empty (trim_space subject) ≡ false = rw s (trimmed_first t) in
      let fits : leb (length p.1.content.payload) max_message_size ≡ true = ground arith in
      (
        bus ++ sent uuid_text (message_of uuid_text p.0 p.1.content subject) ∷ [],
        rw e (rw whole (rw fits refl)),
      )

  calm_event :
      (c : PublisherJobConfig) (p : ℕ × Event) (o : Outbox) (bus : Bus) (now : ℕ)
      → Publishable p.1.content
      → (bus' : Bus) × (publish_event uuid_text c p (calm o bus now)
          ≡ (ok tt, calm (mark_event_published p.0 now o) bus' now))
  unfolding publish_event mark_published remote
  calm_event c p o bus now h = let (bus', e) = calm-publish p o bus now h in (bus', rw e refl)

  -- Every row with the id is published.
  abbrev pub PublishedIf : Option Event → Type 0
  PublishedIf none = Unit {0}
  PublishedIf (some e) = is_unpublished e ≡ false

  abbrev pub Published : Outbox → ℕ → Type 0
  Published o id = PublishedIf (o.rows id)

  set-PublishedIf :
      (now : ℕ) (o : Option Event) → PublishedIf (change is_unpublished (set_published now) o)
  set-PublishedIf now none = tt
  set-PublishedIf now (some e) = elim (Bool-cases (is_unpublished e)) [
    | inl h ↦ rw h refl
    | inr h ↦ rw h h
  ]

  marked-Published : (id now : ℕ) (o : Outbox) → Published (mark_event_published id now o) id
  unfolding mark_event_published
  marked-Published id now o =
      let same : (id == id) ≡ true = ground arith in rw same (set-PublishedIf now (o.rows id))

  still-Published :
      (id now j : ℕ) (o : Outbox) → Published o j → Published (mark_event_published id now o) j
  unfolding mark_event_published
  still-Published id now j o h = elim (Bool-cases (j == id)) [
    | inl e ↦ rw e (set-PublishedIf now (o.rows j))
    | inr e ↦ rw e h
  ]

  -- The outbox past a list of events, all of them published.
  unfoldable pub mark_all : ℕ → List (ℕ × Event) → Outbox → Outbox
  mark_all now [] o = o
  mark_all now (p ∷ ps) o = mark_all now ps (mark_event_published p.0 now o)

  abbrev pub AllFit : List (ℕ × Event) → Type 0
  AllFit = All (λ p. Publishable p.1.content)

  pub calm_events :
      (c : PublisherJobConfig) (ps : List (ℕ × Event)) (o : Outbox) (bus : Bus) (now : ℕ)
      → AllFit ps
      → (bus' : Bus) × (publish_events uuid_text c ps (calm o bus now)
          ≡ (ok tt, calm (mark_all now ps o) bus' now))
  unfolding publish_events mark_all
  calm_events c [] o bus now h = (bus, refl)
  calm_events c (p ∷ ps) o bus now (h, hs) =
      let (bus1, e1) = calm_event c p o bus now h in
      let (bus2, e2) = calm_events c ps (mark_event_published p.0 now o) bus1 now hs in
      (bus2, rw e1 e2)

  pub mark_all-still :
      (now : ℕ) (ps : List (ℕ × Event)) (o : Outbox) (j : ℕ)
      → Published o j
      → Published (mark_all now ps o) j
  unfolding mark_all
  mark_all-still now [] o j h = h
  mark_all-still now (p ∷ ps) o j h =
      mark_all-still now ps (mark_event_published p.0 now o) j (still-Published p.0 now j o h)

  pub mark_all-among :
      (now : ℕ) (ps : List (ℕ × Event)) (o : Outbox) (p : ℕ × Event)
      → In p ps
      → Published (mark_all now ps o) p.0
  unfolding mark_all
  mark_all-among now [] o p i = elim i [ ]
  mark_all-among now (x ∷ ps) o p first =
      mark_all-still now ps (mark_event_published p.0 now o) p.0 (marked-Published p.0 now o)
  mark_all-among now (x ∷ ps) o p (later i) =
      mark_all-among now ps (mark_event_published x.0 now o) p i
