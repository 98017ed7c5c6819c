-- ===== src/Platform/Outbox/Examples.antt =====
-- An event from its transaction to the bus, and one whose worker is gone.
use monogo.Base.{
  ℕ, ◌≡◌, refl, sym, [], ◌∷◌, none, some, Text, codes, arith, trim_space, ◌==◌, Bool-cases, inl,
  inr, eq_of_some_eq, map,
}
use monogo.Base.Strings.{is_space}
use monogo.Effects.{World, ok, remote}
use monogo.Platform.Retry.{duration_seconds}
use monogo.Platform.Outbox.{
  PublisherJobConfig, Content, Event, Outbox, Message, Bus, put, new_event, insert_event,
  claim_pending, claim_pending_events, pending, is_pending, sort_by, insert_by, lock, publish_event,
  publish, publish_with_options, event_subject, has_prefix, has_forbidden, mark_published,
  release_and_publish,
}
use monogo.Platform.Outbox.Later.{first}
use monogo.Platform.Outbox.Runs.{State, with_net, taken}
use monogo.Platform.Outbox.Calm.{calm, Published, AllPublishable}
use monogo.Platform.Outbox.Drained.{release_and_publish-drains, AllRecoverable}

abbrev uuid_text : ℕ → Text
uuid_text id = id ∷ []

abbrev config : PublisherJobConfig
config = record {
  worker_id = codes "w1";
  batch_size = 100;
  lock_timeout = 60_000_000_000;
  retry_base_delay = 2_000_000_000;
  retry_max_delay = 300_000_000_000;
}

abbrev ringing : Content
ringing = record {
  subject = codes "call.ringing";
  aggregate_type = codes "call";
  aggregate_id = 7;
  payload = codes "{}";
  headers = [];
}

abbrev empty : State
empty = record {
  world = record {
    database = record { ids = []; rows = λ id. none };
    keyspace = [];
    net = [];
    now = 1000;
  };
  hands = [];
}

abbrev inserted : State
inserted = record empty {
  world = record empty.world { database = insert_event 1 ringing 1000 1000 empty.world.database };
}

abbrev claimed : State
claimed =
    let p = claim_pending uuid_text config (with_net [] inserted.world) in taken p.0 p.1 inserted

abbrev in_hand : ℕ × Event
in_hand = (1, lock (codes "w1") 1000 (new_event ringing 1000 1000))

abbrev published : State
published = record claimed {
  world = (publish_event uuid_text config in_hand (with_net [] claimed.world)).1;
}

published-bus : map (λ (m : Message). m.message_id) published.world.keyspace ≡ 1 ∷ []
unfolding claim_pending remote claim_pending_events pending is_pending sort_by insert_by
    insert_event publish_event publish publish_with_options event_subject has_prefix has_forbidden
    trim_space is_space mark_published
published-bus = refl

-- Its worker locked it two minutes ago.
abbrev left_over : Event
left_over = record (new_event ringing 1000 1000) { locked = some (1000, codes "w0"); attempts = 1 }

abbrev outbox : Outbox
outbox = record { ids = 1 ∷ []; rows = put 1 left_over (λ id. none) }

only : (id : ℕ) (e : Event) → outbox.rows id ≡ some e → (id ≡ 1) × (e ≡ left_over)
only id e h = elim (Bool-cases (id == 1)) [
  | inl t ↦
      let same : some left_over ≡ some e = rw t at h in (ground arith, sym (eq_of_some_eq same))
  | inr t ↦ cc (rw t at h)
]

outbox-AllPublishable : AllPublishable outbox
unfolding event_subject has_prefix has_forbidden trim_space is_space
outbox-AllPublishable id e h =
    let (i, same) = only id e h in rw same (codes "leamout.event.call.ringing", refl, omega arith)

outbox-AllRecoverable : AllRecoverable uuid_text (duration_seconds 60_000_000_000) 121000 outbox
unfolding duration_seconds
outbox-AllRecoverable id e h u = let (i, same) = only id e h in rw same (omega arith, omega arith)

release_and_publish-drains_example :
    (v : World Outbox Bus) × (release_and_publish uuid_text config (calm uuid_text outbox [] 121000)
      ≡ (ok tt, v))
    × ((id : ℕ) → Published uuid_text v.database id)
release_and_publish-drains_example =
    release_and_publish-drains uuid_text config outbox [] 121000 outbox-AllPublishable
      (λ id e h. let (i, same) = only id e h in rw i first) outbox-AllRecoverable (omega arith)
