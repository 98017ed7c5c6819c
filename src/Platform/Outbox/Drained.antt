-- ===== src/Platform/Outbox/Drained.antt =====
-- On a network that does its work a publisher that comes back publishes whatever is left.
use monogo.Base.{
  ℕ, ◌+◌, ◌≤◌, ◌≡◌, refl, sym, ap, subst, ◌∙◌, ◌⊎◌, inl, inr, Bool, true, false, ◌&&◌, List, Option,
  none, some, Text, length, leb, if◌then◌else◌, arith, Bool-cases, Option-cases, eq_of_some_eq,
}
use monogo.Effects.{World, ok, remote}
use monogo.Platform.Outbox.{
  PublisherJobConfig, Event, Outbox, Bus, change, lock, is_pending, claim_pending_events,
  release_stale_locks, is_unpublished, is_stale, unlock, stale_lock, is_none,
}
use monogo.Base.{ltb, ◌<◌, ◌*◌}
use monogo.Platform.Retry.{duration_seconds}
use monogo.Platform.Outbox.{claim_pending, release_stale, publish_batch, release_and_publish}
use monogo.Platform.Outbox.Later.{In, Later}
use monogo.Platform.Outbox.Picked.{In-claimed, claimed-none, claimed_contents}
use monogo.Platform.Outbox.Claimed.{claim_pending_events-Keeps}
use monogo.Platform.Outbox.Calm.{
  Publishable, AllPublishable, calm, PublishedIf, Published, AllFit, mark_all, calm_events,
  mark_all-still, mark_all-among,
}

module _ (uuid_text : ℕ → Text) where
  -- The claim of all that is pending.
  abbrev claimed : PublisherJobConfig → ℕ → Outbox → List (ℕ × Event) × Outbox
  claimed c now o = claim_pending_events c.worker_id c.batch_size now o

  -- Whatever is not published is pending.
  abbrev AllPending : ℕ → Outbox → Type 0
  AllPending now o =
      (id : ℕ) (e : Event) → o.rows id ≡ some e → is_unpublished e ≡ true → is_pending now e ≡ true

  abbrev pub Listed : Outbox → Type 0
  Listed o = (id : ℕ) (e : Event) → o.rows id ≡ some e → In id o.ids

  claimed-AllFit :
      (c : PublisherJobConfig) (now : ℕ) (o : Outbox)
      → AllPublishable o
      → AllFit uuid_text (claimed c now o).0
  claimed-AllFit c now o h = claimed_contents Publishable c.worker_id c.batch_size now o h

  published_time : (e : Event) → is_unpublished e ≡ false → (t : ℕ) × (e.published_at ≡ some t)
  published_time e u = elim (Option-cases e.published_at) [
    | inl h ↦ let yes_it : is_unpublished e ≡ true = rw h refl in cc
    | inr (t, h) ↦ (t, h)
  ]

  abbrev PublishedIfSome : Option Event → Type 0
  PublishedIfSome none = ⊥
  PublishedIfSome (some e) = is_unpublished e ≡ false

  Later-PublishedIf : (d e : Option Event) → Later d e → PublishedIfSome d → PublishedIf uuid_text e
  Later-PublishedIf none e l u = absurd u
  Later-PublishedIf (some d) none l u = absurd l
  Later-PublishedIf (some d) (some e) (same, k) u =
      let (t, h) = published_time d u in rw (k t h) refl

  claimed_or_Published :
      (c : PublisherJobConfig) (now : ℕ) (o : Outbox) (id : ℕ)
      → AllPending now o
      → Listed o
      → length o.ids ≤ c.batch_size
      → Published uuid_text (claimed c now o).1 id ⊎ ((e : Event) × In (id, e) (claimed c now o).0)
  claimed_or_Published c now o id all_pending listed big = elim (Option-cases (o.rows id)) [
    | inl h ↦ inl (rw (claimed-none c.worker_id c.batch_size now o id h) tt)
    | inr (e, h) ↦ elim (Bool-cases (is_unpublished e)) [
      | inl u ↦ inr (
        lock c.worker_id now e,
        In-claimed c.worker_id c.batch_size now o id e (listed id e h) h (all_pending id e h u) big,
      )
      | inr u ↦ inl (
          Later-PublishedIf (some e) ((claimed c now o).1.rows id)
            (subst (λ x. Later x ((claimed c now o).1.rows id)) h
              ((claim_pending_events-Keeps c.worker_id c.batch_size now o).0 id))
            u)
    ]
  ]

  calm_batch :
      (c : PublisherJobConfig) (o : Outbox) (bus : Bus) (now : ℕ)
      → AllPublishable o
      → AllPending now o
      → Listed o
      → length o.ids ≤ c.batch_size
      → (v : World Outbox Bus) × (publish_batch uuid_text c (calm uuid_text o bus now) ≡ (ok tt, v))
        × ((id : ℕ) → Published uuid_text v.database id)
  unfolding publish_batch claim_pending remote
  calm_batch c o bus now fit all_pending listed big =
      let o' = (claimed c now o).1 in
      let ps = (claimed c now o).0 in
      let (bus', e) = calm_events uuid_text c ps o' bus now (claimed-AllFit c now o fit) in
      (
        calm uuid_text (mark_all uuid_text now ps o') bus' now,
        e,
        λ id. elim (claimed_or_Published c now o id all_pending listed big) [
          | inl h ↦ mark_all-still uuid_text now ps o' id h
          | inr (d, i) ↦ mark_all-among uuid_text now ps o' (id, d) i
        ],
      )

  -- A row that is not published is available, and free or locked for longer than the timeout.
  abbrev pub LockOver : ℕ → ℕ → Option (ℕ × Text) → Type 0
  LockOver timeout now none = Unit {0}
  LockOver timeout now (some l) = l.0 + timeout * 1000 < now

  abbrev pub AllRecoverable : ℕ → ℕ → Outbox → Type 0
  AllRecoverable timeout now o =
      (id : ℕ) (e : Event)
      → o.rows id ≡ some e
      → is_unpublished e ≡ true
      → (e.available_at ≤ now) × LockOver timeout now e.locked

  abbrev Freed : ℕ → ℕ → Event → Event → Type 0
  Freed timeout now e d =
      (change (is_stale timeout now) unlock (some e) ≡ some d)
      × (d.content ≡ e.content)
      × (is_pending now d ≡ true)

  stays :
      (timeout now : ℕ) (e : Event) (b : Bool)
      → is_stale timeout now e ≡ b
      → change (is_stale timeout now) unlock (some e) ≡ (if b then some (unlock e) else some e)
  stays timeout now e b h = ap (λ x. if x then some (unlock e) else some e) h

  freed :
      (timeout now : ℕ) (e : Event) (l : Option (ℕ × Text))
      → e.locked ≡ l
      → is_unpublished e ≡ true
      → e.available_at ≤ now
      → LockOver timeout now l
      → (d : Event) × Freed timeout now e d
  unfolding is_pending
  freed timeout now e none k u a over =
      let available : leb e.available_at now ≡ true = ground arith in
      let test : is_stale timeout now e ≡ false =
        ap (λ x. is_unpublished e && stale_lock timeout now x) k ∙ ap (λ b. b && false) u in
      let is_free : is_none e.locked ≡ true = ap is_none k in
      (e, (stays timeout now e false test, refl, rw u (rw is_free available)))
  freed timeout now e (some l) k u a over =
      let available : leb e.available_at now ≡ true = ground arith in
      let old : ltb (l.0 + timeout * 1000) now ≡ true = ground arith in
      let test : is_stale timeout now e ≡ true =
        ap (λ x. is_unpublished e && stale_lock timeout now x) k
        ∙ ap (λ b. b && ltb (l.0 + timeout * 1000) now) u
        ∙ old in
      (unlock e, (stays timeout now e true test, refl, rw u available))

  abbrev released : PublisherJobConfig → ℕ → Outbox → Outbox
  released c now o = release_stale_locks (duration_seconds c.lock_timeout) now o

  -- A row past the release comes from one before it.
  released_from :
      (timeout now : ℕ) (o : Option Event) (d : Event)
      → change (is_stale timeout now) unlock o ≡ some d
      → (e : Event) × (o ≡ some e) × (d.content ≡ e.content) × (is_unpublished d ≡ is_unpublished e)
  released_from timeout now none d h = cc
  released_from timeout now (some e) d h = elim (Bool-cases (is_stale timeout now e)) [
    | inl t ↦
        let same : d ≡ unlock e = sym (eq_of_some_eq (sym (stays timeout now e true t) ∙ h)) in
        (e, refl, ap (λ x. x.content) same, ap is_unpublished same)
    | inr t ↦
        let same : d ≡ e = sym (eq_of_some_eq (sym (stays timeout now e false t) ∙ h)) in
        (e, refl, ap (λ x. x.content) same, ap is_unpublished same)
  ]

  released-AllPublishable :
      (c : PublisherJobConfig) (now : ℕ) (o : Outbox)
      → AllPublishable o
      → AllPublishable (released c now o)
  unfolding release_stale_locks
  released-AllPublishable c now o fit id d h =
      let (e, at, same, u) = released_from (duration_seconds c.lock_timeout) now (o.rows id) d h in
      subst Publishable (sym same) (fit id e at)

  released-Listed :
      (c : PublisherJobConfig) (now : ℕ) (o : Outbox) → Listed o → Listed (released c now o)
  unfolding release_stale_locks
  released-Listed c now o listed id d h =
      let (e, at, same, u) = released_from (duration_seconds c.lock_timeout) now (o.rows id) d h in
      listed id e at

  released-AllPending :
      (c : PublisherJobConfig) (now : ℕ) (o : Outbox)
      → AllRecoverable (duration_seconds c.lock_timeout) now o
      → AllPending now (released c now o)
  unfolding release_stale_locks
  released-AllPending c now o r id d h unpublished =
      let timeout = duration_seconds c.lock_timeout in
      let (e, at, same, u) = released_from timeout now (o.rows id) d h in
      let (a, over) = r id e at (sym u ∙ unpublished) in
      let (f, (it, content, p)) = freed timeout now e e.locked refl (sym u ∙ unpublished) a over in
      let one : f ≡ d =
        eq_of_some_eq (sym it ∙ sym (ap (change (is_stale timeout now) unlock) at) ∙ h) in
      subst (λ x. is_pending now x ≡ true) one p

  released-size :
      (c : PublisherJobConfig) (now : ℕ) (o : Outbox)
      → length o.ids ≤ c.batch_size
      → length (released c now o).ids ≤ c.batch_size
  unfolding release_stale_locks
  released-size c now o h = h

  -- On a network that does its work: where every event is one that the bus takes, and each that is not
  -- published is available and either free or locked for longer than the timeout, by a worker that is gone,
  -- and the batch has room for all: one release of stale locks and one batch return no error, and after them
  -- every event is published.
  pub release_and_publish-drains :
      (c : PublisherJobConfig) (o : Outbox) (bus : Bus) (now : ℕ)
      → AllPublishable o
      → Listed o
      → AllRecoverable (duration_seconds c.lock_timeout) now o
      → length o.ids ≤ c.batch_size
      → (v : World Outbox Bus) × (release_and_publish uuid_text c (calm uuid_text o bus now)
          ≡ (ok tt, v))
        × ((id : ℕ) → Published uuid_text v.database id)
  unfolding release_and_publish release_stale remote
  release_and_publish-drains c o bus now fit listed r big =
      calm_batch c (released c now o) bus now (released-AllPublishable c now o fit)
        (released-AllPending c now o r) (released-Listed c now o listed) (released-size c now o big)
