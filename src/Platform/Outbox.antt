-- ===== src/Platform/Outbox.antt =====
-- The publisher of the outbox: jobs.go, publisher.go and repository.go of server/internal/platform/outbox,
-- its statements (server/internal/database/queries/outbox.sql) and the client of the bus
-- (server/internal/integrations/nats/publisher.go). The table is its ids, in the order in which they were
-- inserted, and a row for each. Payloads are bytes; of an error there is only whether it is set.
-- The keyspace of the world is the stream of the bus: the messages that it took.
pub mod Later
pub mod Claimed
pub mod Delivered
pub mod Runs
pub mod Picked
pub mod Calm
pub mod Drained
mod Examples
use monogo.Base.{
  ℕ, zero, suc, ◌+◌, ◌*◌, Bool, true, false, not, ◌&&◌, ◌||◌, List, [], ◌∷◌, ◌++◌, Option, none,
  some, String, Text, codes, is_empty, text_eq, length, take, trim_space, map, ◌==◌, ltb, leb,
  if◌then◌else◌,
}
use monogo.Errors.{Error, plain, wrapped}
use monogo.Effects.{
  World, Result, ok, err, M, ◌>>=◌, ◌>>◌, pure, fail, guard, lift, remote, map_error,
}
use monogo.Platform.Retry.{retry_delay, duration_seconds}

pub record PublisherJobConfig : Type 0 where
  pub worker_id : Text
  pub batch_size : ℕ
  pub lock_timeout : ℕ
  pub retry_base_delay : ℕ
  pub retry_max_delay : ℕ

-- What an event says.
pub record Content : Type 0 where
  pub subject : Text
  pub aggregate_type : Text
  pub aggregate_id : ℕ
  pub payload : Text
  pub headers : List (Text × Text)

-- A row of `outbox_events`; `locked_at` goes with `locked_by`.
pub record Event : Type 0 where
  pub content : Content
  pub available_at : ℕ
  pub created_at : ℕ
  pub published_at : Option ℕ
  pub attempts : ℕ
  pub last_error : Bool
  pub locked : Option (ℕ × Text)

pub record Outbox : Type 0 where
  pub ids : List ℕ
  pub rows : ℕ → Option Event

pub record Message : Type 0 where
  pub message_id : ℕ
  pub subject : Text
  pub payload : Text
  pub headers : List (Text × Text)

abbrev pub Bus : Type 0
Bus = List Message

abbrev pub is_none {ℓ} : {A : Type ℓ} → Option A → Bool
is_none none = true
is_none (some a) = false

-- InsertOutboxEvent, with an id that is in no row yet and a time from which the event is available.
abbrev pub new_event : Content → ℕ → ℕ → Event
new_event content available_at now = record {
  content = content;
  available_at = available_at;
  created_at = now;
  published_at = none;
  attempts = 0;
  last_error = false;
  locked = none;
}

abbrev pub put : ℕ → Event → (ℕ → Option Event) → ℕ → Option Event
put id e rows j = if j == id then some e else rows j

unfoldable pub insert_event : ℕ → Content → ℕ → ℕ → Outbox → Outbox
insert_event id content available_at now o = record {
  ids = o.ids ++ id ∷ [];
  rows = put id (new_event content available_at now) o.rows;
}

-- `UPDATE outbox_events SET … WHERE id = … AND …`.
abbrev pub change : (Event → Bool) → (Event → Event) → Option Event → Option Event
change test f none = none
change test f (some e) = if test e then some (f e) else some e

abbrev pub update : ℕ → (Event → Bool) → (Event → Event) → Outbox → Outbox
update id test f o = record o { rows = λ j. if j == id then change test f (o.rows j) else o.rows j }

abbrev pub is_unpublished : Event → Bool
is_unpublished e = is_none e.published_at

-- The rows that ClaimPendingEvents looks for, in its order.
unfoldable pub is_pending : ℕ → Event → Bool
is_pending now e = is_unpublished e && is_none e.locked && leb e.available_at now

abbrev pub keep_pending : ℕ → ℕ → Option Event → List (ℕ × Event) → List (ℕ × Event)
keep_pending now id none rest = rest
keep_pending now id (some e) rest = if is_pending now e then (id, e) ∷ rest else rest

unfoldable pub pending : ℕ → List ℕ → (ℕ → Option Event) → List (ℕ × Event)
pending now [] rows = []
pending now (id ∷ ids) rows = keep_pending now id (rows id) (pending now ids rows)

abbrev pub earlier : Event → Event → Bool
earlier d e =
    ltb d.available_at e.available_at
    || (d.available_at == e.available_at && leb d.created_at e.created_at)

unfoldable pub insert_by : ℕ × Event → List (ℕ × Event) → List (ℕ × Event)
insert_by x [] = x ∷ []
insert_by x (y ∷ ys) = let rest = insert_by x ys in if earlier x.1 y.1 then x ∷ y ∷ ys else y ∷ rest

unfoldable pub sort_by : List (ℕ × Event) → List (ℕ × Event)
sort_by [] = []
sort_by (x ∷ xs) = insert_by x (sort_by xs)

abbrev pub lock : Text → ℕ → Event → Event
lock worker now e = record e { locked = some (now, worker); attempts = e.attempts + 1 }

abbrev pub locked_pair : Text → ℕ → ℕ × Event → ℕ × Event
locked_pair worker now p = (p.0, lock worker now p.1)

unfoldable pub lock_rows : Text → ℕ → List (ℕ × Event) → (ℕ → Option Event) → ℕ → Option Event
lock_rows worker now [] rows = rows
lock_rows worker now ((id, e) ∷ picked) rows =
    put id (lock worker now e) (lock_rows worker now picked rows)

-- ClaimPendingEvents. The rows come back in the order in which they were picked; SQL leaves it open.
unfoldable pub claim_pending_events : Text → ℕ → ℕ → Outbox → List (ℕ × Event) × Outbox
claim_pending_events worker batch_size now o =
    let picked = take batch_size (sort_by (pending now o.ids o.rows)) in
    (map (locked_pair worker now) picked, record o { rows = lock_rows worker now picked o.rows })

-- MarkEventPublished.
abbrev pub set_published : ℕ → Event → Event
set_published now e = record e { published_at = some now; locked = none; last_error = false }

unfoldable pub mark_event_published : ℕ → ℕ → Outbox → Outbox
mark_event_published id now = update id is_unpublished (set_published now)

-- MarkEventFailed: available again after the delay, in seconds.
abbrev pub set_failed : ℕ → ℕ → Event → Event
set_failed delay now e = record e {
  available_at = now + delay * 1000;
  locked = none;
  last_error = true;
}

unfoldable pub mark_event_failed : ℕ → ℕ → ℕ → Outbox → Outbox
mark_event_failed id delay now = update id is_unpublished (set_failed delay now)

-- ReleaseStaleLocks: the locks that are older than the timeout, in seconds.
abbrev pub stale_lock : ℕ → ℕ → Option (ℕ × Text) → Bool
stale_lock timeout now none = false
stale_lock timeout now (some l) = ltb (l.0 + timeout * 1000) now

abbrev pub is_stale : ℕ → ℕ → Event → Bool
is_stale timeout now e = is_unpublished e && stale_lock timeout now e.locked

abbrev pub unlock : Event → Event
unlock e = record e { locked = none }

unfoldable pub release_stale_locks : ℕ → ℕ → Outbox → Outbox
release_stale_locks timeout now o = record o {
  rows = λ j. change (is_stale timeout now) unlock (o.rows j);
}

-- `eventSubject`.
abbrev pub events_subject_prefix : Text
events_subject_prefix = codes "leamout.event."

unfoldable pub has_prefix : Text → Text → Bool
has_prefix [] s = true
has_prefix (c ∷ p) [] = false
has_prefix (c ∷ p) (d ∷ s) = c == d && has_prefix p s

-- `strings.ContainsAny(subject, " \t\r\n*>")`.
unfoldable pub has_forbidden : Text → Bool
has_forbidden [] = false
has_forbidden (c ∷ s) =
    c == 32 || c == 9 || c == 13 || c == 10 || c == 42 || c == 62 || has_forbidden s

unfoldable pub event_subject : Text → Result Text
event_subject subject =
    let trimmed = trim_space subject in
    if is_empty trimmed
    then err (plain "outbox event subject is required")
    else if has_forbidden trimmed
    then err (plain "invalid outbox event subject")
    else if has_prefix events_subject_prefix trimmed
    then ok trimmed
    else ok (events_subject_prefix ++ trimmed)

-- `headers[name] = value`.
unfoldable pub set_header : Text → Text → List (Text × Text) → List (Text × Text)
set_header name value [] = (name, value) ∷ []
set_header name value ((n, v) ∷ headers) =
    let rest = set_header name value headers in
    if text_eq n name then (name, value) ∷ headers else (n, v) ∷ rest

abbrev pub max_message_size : ℕ
max_message_size = 65536

module _ (uuid_text : ℕ → Text) where
  unfoldable pub event_headers : ℕ → Content → List (Text × Text)
  event_headers id c = set_header (codes "X-Leamout-Aggregate-ID") (uuid_text c.aggregate_id) (
      set_header (codes "X-Leamout-Aggregate-Type") c.aggregate_type
        (set_header (codes "X-Leamout-Event-ID") (uuid_text id) c.headers))

  abbrev pub message_of : ℕ → Content → Text → Message
  message_of id c subject = record {
    message_id = id;
    subject = subject;
    payload = c.payload;
    headers = event_headers id c;
  }

  -- The headers that `PublishWithOptions` sets.
  unfoldable pub named_headers : List (Text × Text) → List (Text × Text)
  named_headers [] = []
  named_headers ((n, v) ∷ headers) =
      let rest = named_headers headers in
      if is_empty (trim_space n) then rest else (trim_space n, v) ∷ rest

  abbrev pub sent : Message → Message
  sent m = record m { headers = named_headers m.headers }

  -- `PublishWithOptions`: the stream takes the message at its end.
  unfoldable pub publish_with_options : Message → M Outbox Bus (Unit {0})
  publish_with_options m = do
    guard (not (is_empty (trim_space m.subject))) (plain "NATS subject is required")
    guard (leb (length m.payload) max_message_size) (plain "NATS message payload is too large")
    map_error (wrapped "publish NATS message")
        (remote λ w. (tt, record w { keyspace = w.keyspace ++ sent m ∷ [] }))

  -- `Publisher.Publish`.
  unfoldable pub publish : ℕ × Event → M Outbox Bus (Unit {0})
  unfolding event_headers
  publish p = do
    subject ← lift (event_subject p.1.content.subject)
    map_error (wrapped "publish outbox event")
        (publish_with_options (message_of p.0 p.1.content subject))

  abbrev pub statement : (ℕ → Outbox → Outbox) → M Outbox Bus (Unit {0})
  statement f = remote λ w. (tt, record w { database = f w.now w.database })

  -- `Repository.ClaimPending`, `MarkPublished`, `MarkFailed` and `ReleaseStaleLocks`.
  unfoldable pub claim_pending : PublisherJobConfig → M Outbox Bus (List (ℕ × Event))
  claim_pending c = remote λ w.
      let (events, o) = claim_pending_events c.worker_id c.batch_size w.now w.database in
      (events, record w { database = o })

  unfoldable pub mark_published : ℕ → M Outbox Bus (Unit {0})
  mark_published id =
      map_error (wrapped "mark outbox event published") (statement (mark_event_published id))

  unfoldable pub mark_failed : ℕ → ℕ → M Outbox Bus (Unit {0})
  mark_failed id delay =
      map_error (wrapped "mark outbox event failed after publish error")
        (statement (mark_event_failed id delay))

  unfoldable pub release_stale : PublisherJobConfig → M Outbox Bus (Unit {0})
  release_stale c =
      map_error (wrapped "release stale outbox locks")
        (statement (release_stale_locks (duration_seconds c.lock_timeout)))

  -- One event of `publishBatch`.
  abbrev pub after_publish :
      PublisherJobConfig → ℕ × Event → Result (Unit {0}) → M Outbox Bus (Unit {0})
  after_publish c p (ok u) = mark_published p.0
  after_publish c p (err e) =
      mark_failed p.0
        (duration_seconds (retry_delay c.retry_base_delay c.retry_max_delay p.1.attempts))

  unfoldable pub publish_event : PublisherJobConfig → ℕ × Event → M Outbox Bus (Unit {0})
  publish_event c p w = let (r, v) = publish p w in after_publish c p r v

  unfoldable pub publish_events : PublisherJobConfig → List (ℕ × Event) → M Outbox Bus (Unit {0})
  publish_events c [] = pure tt
  publish_events c (p ∷ events) = do publish_event c p; publish_events c events

  -- `publishBatch`.
  unfoldable pub publish_batch : PublisherJobConfig → M Outbox Bus (Unit {0})
  publish_batch c = do
    events ← map_error (wrapped "claim pending outbox events") (claim_pending c)
    publish_events c events

  -- One turn of `Run` past a tick of the stale ticker.
  unfoldable pub release_and_publish : PublisherJobConfig → M Outbox Bus (Unit {0})
  release_and_publish c = do release_stale c; publish_batch c
