-- ===== src/Platform/Outbox/Delivered.antt =====
-- Whatever publishers do, what is published has reached the bus, and no event is lost.
use monogo.Base.{
  ℕ, ◌≡◌, refl, sym, subst, inl, inr, List, [], ◌∷◌, ◌++◌, Option, none, some, Text, codes, length,
  ◌==◌, leb, arith, Bool-cases, All,
}
use monogo.Errors.{Error}
use monogo.Effects.{World, Result, ok, err, M, remote, map_error, continue}
use monogo.Effects.Rules.{arrived, remote_rule}
use monogo.Platform.Outbox.{
  PublisherJobConfig, Content, Event, Outbox, Message, Bus, change, claim_pending_events,
  mark_event_published, set_published, is_unpublished,
}
use monogo.Errors.{wrapped}
use monogo.Effects.{on_error}
use monogo.Base.{not, is_empty, trim_space}
use monogo.Platform.Outbox.{
  event_headers, named_headers, set_header, sent, message_of, publish_with_options, publish,
  statement, claim_pending, mark_published, mark_failed, release_stale, after_publish,
  publish_event, event_subject, max_message_size,
}
use monogo.Platform.Outbox.Later.{
  In, In-append, In-last, NotNew, AllLater, Keeps, Later-refl, Keeps-refl, Later-trans,
  mark_event_failed-Keeps, release_stale_locks-Keeps, mark_event_published-AllLater,
}
use monogo.Platform.Outbox.Claimed.{
  HeldAs, Held, AllLater-Held, claim_pending_events-Keeps, claim_pending_events-Held,
}

abbrev W : Type 0
W = World Outbox Bus

module _ (uuid_text : ℕ → Text) where
  -- The message of an event: its key for the bus to know it again by, its payload, and its headers under
  -- which its keys and its type are set.
  abbrev pub expected : ℕ → Content → Text → Message
  expected id c subject = record {
    message_id = id;
    subject = subject;
    payload = c.payload;
    headers = named_headers uuid_text (
        set_header (codes "X-Leamout-Aggregate-ID") (uuid_text c.aggregate_id) (
          set_header (codes "X-Leamout-Aggregate-Type") c.aggregate_type
            (set_header (codes "X-Leamout-Event-ID") (uuid_text id) c.headers)));
  }

  -- The bus took that message.
  abbrev pub Sent : ℕ → Content → Bus → Type 0
  Sent id c bus =
      (subject : Text) × (event_subject c.subject ≡ ok subject)
      × In (sent uuid_text (message_of uuid_text id c subject)) bus
      × (sent uuid_text (message_of uuid_text id c subject) ≡ expected id c subject)

  sent_expected :
      (id : ℕ) (c : Content) (subject : Text)
      → sent uuid_text (message_of uuid_text id c subject) ≡ expected id c subject
  unfolding event_headers
  sent_expected id c subject = refl

  abbrev SentIf : ℕ → Bus → Option Event → Type 0
  SentIf id bus none = Unit {0}
  SentIf id bus (some e) = (t : ℕ) → e.published_at ≡ some t → Sent id e.content bus

  -- What is published was taken by the bus.
  abbrev pub AllSent : W → Type 0
  AllSent w = (id : ℕ) → SentIf id w.keyspace (w.database.rows id)

  abbrev pub Grows : Bus → Bus → Type 0
  Grows bus bus' = (m : Message) → In m bus → In m bus'

  -- Nothing is lost from `w` to `v`.
  pub record Onward (w v : W) : Type 0 where
    pub kept : AllLater w.database v.database
    pub grown : Grows w.keyspace v.keyspace
    pub published : AllSent w → AllSent v

  pub Onward-refl : (w : W) → Onward w w
  Onward-refl w = record {
    kept = λ id. Later-refl (w.database.rows id);
    grown = λ m h. h;
    published = λ h. h;
  }

  pub Onward-trans : (u v w : W) → Onward u v → Onward v w → Onward u w
  Onward-trans u v w a b = record {
    kept = λ id.
        Later-trans (u.database.rows id) (v.database.rows id) (w.database.rows id) (a.kept id)
          (b.kept id);
    grown = λ m h. b.grown m (a.grown m h);
    published = λ h. b.published (a.published h);
  }

  sent_still :
      (id : ℕ) (bus bus' : Bus) (o o' : Option Event)
      → Grows bus bus'
      → NotNew o o'
      → SentIf id bus o
      → SentIf id bus' o'
  sent_still id bus bus' o none g n h = tt
  sent_still id bus bus' none (some e) g n h = λ t k. cc
  sent_still id bus bus' (some d) (some e) g (same, n) h = λ t k.
      let (subject, s, m, same_message) = h t (n t k) in
      let at_bus : Sent id d.content bus' = (subject, s, g _ m, same_message) in
      subst (λ c. Sent id c bus') (sym same) at_bus

  grown-Onward : (w v : W) → Grows w.keyspace v.keyspace → Keeps w.database v.database → Onward w v
  grown-Onward w v g (kept, none_new) = record {
    kept = kept;
    grown = g;
    published = λ h id.
        sent_still id w.keyspace v.keyspace (w.database.rows id) (v.database.rows id) g
          (none_new id) (h id);
  }

  pub Keeps-Onward : (w v : W) → v.keyspace ≡ w.keyspace → Keeps w.database v.database → Onward w v
  Keeps-Onward w v same k = grown-Onward w v (λ m h. subst (In m) (sym same) h) k

  statement-Onward :
      (f : ℕ → Outbox → Outbox) (w : W)
      → Keeps w.database (f w.now w.database)
      → Onward w (statement uuid_text f w).1
  statement-Onward f w k =
      let there = Keeps-Onward w (record (arrived w) { database = f w.now w.database }) refl k in
      remote_rule (λ r v. Onward w v) _ w there
        (Keeps-Onward w (arrived w) refl (Keeps-refl w.database)) there

  mark_failed-Onward : (id delay : ℕ) (w : W) → Onward w (mark_failed uuid_text id delay w).1
  unfolding mark_failed
  mark_failed-Onward id delay w =
      statement-Onward _ w (mark_event_failed-Keeps id delay w.now w.database)

  pub release_stale-Onward :
      (c : PublisherJobConfig) (w : W) → Onward w (release_stale uuid_text c w).1
  unfolding release_stale
  release_stale-Onward c w = statement-Onward _ w (release_stale_locks-Keeps _ w.now w.database)

  -- What was claimed is what the rows say.
  abbrev pub ClaimedAs : W → Result (List (ℕ × Event)) → W → Type 0
  ClaimedAs w (ok events) v = Onward w v × All (Held v.database) events
  ClaimedAs w (err e) v = Onward w v

  pub claim_pending-ClaimedAs :
      (c : PublisherJobConfig) (w : W)
      → ClaimedAs w (claim_pending uuid_text c w).0 (claim_pending uuid_text c w).1
  unfolding claim_pending
  claim_pending-ClaimedAs c w =
      let o = (claim_pending_events c.worker_id c.batch_size w.now w.database).1 in
      let there =
        Keeps-Onward w (record (arrived w) { database = o }) refl
          (claim_pending_events-Keeps c.worker_id c.batch_size w.now w.database) in
      remote_rule (ClaimedAs w) _ w
        (there, claim_pending_events-Held c.worker_id c.batch_size w.now w.database)
        (Keeps-Onward w (arrived w) refl (Keeps-refl w.database)) there

  -- A publication that reports success reached the bus.
  abbrev PublishedAs : ℕ × Event → W → Result (Unit {0}) → W → Type 0
  PublishedAs p w (ok u) v = Onward w v × Sent p.0 p.1.content v.keyspace
  PublishedAs p w (err e) v = Onward w v

  abbrev send : ℕ × Event → Text → M Outbox Bus (Unit {0})
  send p subject = remote λ w. (
    tt,
    record w {
      keyspace = w.keyspace ++ sent uuid_text (message_of uuid_text p.0 p.1.content subject) ∷ [];
    },
  )

  error-PublishedAs :
      (p : ℕ × Event) (w : W) (f : Error → Error) (r : Result (Unit {0})) (v : W)
      → PublishedAs p w r v
      → PublishedAs p w (on_error f r) v
  error-PublishedAs p w f (ok u) v h = h
  error-PublishedAs p w f (err e) v h = h

  send-PublishedAs :
      (p : ℕ × Event) (subject : Text) (w : W)
      → event_subject p.1.content.subject ≡ ok subject
      → PublishedAs p w (send p subject w).0 (send p subject w).1
  send-PublishedAs p subject w e =
      let m = sent uuid_text (message_of uuid_text p.0 p.1.content subject) in
      let there =
        grown-Onward w (record (arrived w) { keyspace = w.keyspace ++ m ∷ [] })
          (λ n h. In-append w.keyspace (m ∷ []) h) (Keeps-refl w.database) in
      remote_rule (PublishedAs p w) _ w
        (there, (subject, e, In-last w.keyspace m, sent_expected p.0 p.1.content subject))
        (Keeps-Onward w (arrived w) refl (Keeps-refl w.database)) there

  options-PublishedAs :
      (p : ℕ × Event) (subject : Text) (w : W)
      → event_subject p.1.content.subject ≡ ok subject
      → PublishedAs p w
          (publish_with_options uuid_text (message_of uuid_text p.0 p.1.content subject) w).0
          (publish_with_options uuid_text (message_of uuid_text p.0 p.1.content subject) w).1
  unfolding publish_with_options
  options-PublishedAs p subject w e =
      let m = message_of uuid_text p.0 p.1.content subject in
      elim (Bool-cases (not (is_empty (trim_space subject)))) [
        | inr a ↦ rw a (Onward-refl w)
        | inl a ↦ elim (Bool-cases (leb (length p.1.content.payload) max_message_size)) [
          | inr b ↦ rw a (rw b (Onward-refl w))
          | inl b ↦ rw a (rw b (error-PublishedAs p w _ _ _ (send-PublishedAs p subject w e)))
        ]
      ]

  abbrev after_subject : ℕ × Event → Result Text → M Outbox Bus (Unit {0})
  after_subject p r w = continue r w λ subject.
      map_error (wrapped "publish outbox event")
        (publish_with_options uuid_text (message_of uuid_text p.0 p.1.content subject))

  subject-PublishedAs :
      (p : ℕ × Event) (w : W) (r : Result Text)
      → event_subject p.1.content.subject ≡ r
      → PublishedAs p w (after_subject p r w).0 (after_subject p r w).1
  subject-PublishedAs p w (err e) h = Onward-refl w
  subject-PublishedAs p w (ok subject) h =
      error-PublishedAs p w _ _ _ (options-PublishedAs p subject w h)

  publish-PublishedAs :
      (p : ℕ × Event) (w : W) → PublishedAs p w (publish uuid_text p w).0 (publish uuid_text p w).1
  unfolding publish
  publish-PublishedAs p w = subject-PublishedAs p w (event_subject p.1.content.subject) refl

  marked-Sent :
      (p : ℕ × Event) (now : ℕ) (bus : Bus) (o : Option Event)
      → HeldAs p o
      → Sent p.0 p.1.content bus
      → SentIf p.0 bus o
      → SentIf p.0 bus (change is_unpublished (set_published now) o)
  marked-Sent p now bus none h m s = tt
  marked-Sent p now bus (some d) h m s = elim (Bool-cases (is_unpublished d)) [
    | inl a ↦ rw a (λ t k. subst (λ c. Sent p.0 c bus) (sym h) m)
    | inr a ↦ rw a s
  ]

  marked-Onward :
      (p : ℕ × Event) (w : W)
      → Held w.database p
      → Sent p.0 p.1.content w.keyspace
      → Onward w (record (arrived w) { database = mark_event_published p.0 w.now w.database })
  unfolding mark_event_published
  marked-Onward p w h m = record {
    kept = mark_event_published-AllLater p.0 w.now w.database;
    grown = λ n k. k;
    published = λ s j. elim (Bool-cases (j == p.0)) [
      | inl e ↦
          let same : j ≡ p.0 = ground arith in
          rw e (rw same (marked-Sent p w.now w.keyspace (w.database.rows p.0) h m (s p.0)))
      | inr e ↦ rw e (s j)
    ];
  }

  mark_published-Onward :
      (p : ℕ × Event) (w : W)
      → Held w.database p
      → Sent p.0 p.1.content w.keyspace
      → Onward w (mark_published uuid_text p.0 w).1
  unfolding mark_published
  mark_published-Onward p w h m =
      let there = marked-Onward p w h m in
      remote_rule (λ r v. Onward w v) _ w there
        (Keeps-Onward w (arrived w) refl (Keeps-refl w.database)) there

  after_publish-Onward :
      (c : PublisherJobConfig) (p : ℕ × Event) (u : W) (r : Result (Unit {0})) (v : W)
      → Held v.database p
      → PublishedAs p u r v
      → Onward v (after_publish uuid_text c p r v).1
  after_publish-Onward c p u (ok x) v h (on, m) = mark_published-Onward p v h m
  after_publish-Onward c p u (err e) v h on = mark_failed-Onward p.0 _ v

  published-Onward :
      (p : ℕ × Event) (u : W) (r : Result (Unit {0})) (v : W) → PublishedAs p u r v → Onward u v
  published-Onward p u (ok x) v (on, m) = on
  published-Onward p u (err e) v on = on

  pub publish_event-Onward :
      (c : PublisherJobConfig) (p : ℕ × Event) (w : W)
      → Held w.database p
      → Onward w (publish_event uuid_text c p w).1
  unfolding publish_event
  publish_event-Onward c p w h =
      let r = (publish uuid_text p w).0 in
      let v = (publish uuid_text p w).1 in
      let published = publish-PublishedAs p w in
      let on = published-Onward p w r v published in
      Onward-trans w v _ on
        (after_publish-Onward c p w r v (AllLater-Held w.database v.database p on.kept h) published)
