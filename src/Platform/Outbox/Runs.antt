-- ===== src/Platform/Outbox/Runs.antt =====
-- Any number of publishers over one outbox, with the events that transactions insert: the workers claim
-- batches, publish what they have claimed, one event after the other and even long after another worker
-- has it, and release stale locks, in any order and under any network faults.
use monogo.Base.{ℕ, ◌+◌, ◌≡◌, List, ◌++◌, none, Text, All}
use monogo.Effects.{World, Net, Result, ok, err}
use monogo.Platform.Outbox.{
  PublisherJobConfig, Content, Event, Outbox, Bus, insert_event, claim_pending, publish_event,
  release_stale,
}
use monogo.Platform.Outbox.Later.{In}
use monogo.Platform.Outbox.Claimed.{Held}
use monogo.Platform.Outbox.Delivered.{Onward}

-- `hands` are the events that workers have claimed.
pub record State : Type 0 where
  pub world : World Outbox Bus
  pub hands : List (ℕ × Event)

abbrev pub with_net : List Net → World Outbox Bus → World Outbox Bus
with_net net w = record w { net = net }

abbrev pub taken : Result (List (ℕ × Event)) → World Outbox Bus → State → State
taken (ok events) v s = record { world = v; hands = events ++ s.hands }
taken (err e) v s = record s { world = v }

module _ (uuid_text : ℕ → Text) where
  pub data Step : State → State → Type 0 where
    claims :
        (s : State) (net : List Net) (c : PublisherJobConfig)
        → Step s (let p = claim_pending uuid_text c (with_net net s.world) in taken p.0 p.1 s)
    publishes :
        (s : State) (net : List Net) (c : PublisherJobConfig) (p : ℕ × Event)
        → In p s.hands
        → Step s (record s { world = (publish_event uuid_text c p (with_net net s.world)).1 })
    releases :
        (s : State) (net : List Net) (c : PublisherJobConfig)
        → Step s (record s { world = (release_stale uuid_text c (with_net net s.world)).1 })
    inserts :
        (s : State) (id : ℕ) (content : Content) (available_at : ℕ)
        → s.world.database.rows id ≡ none
        → Step s (record s {
          world = record s.world {
            database = insert_event id content available_at s.world.now s.world.database;
          };
        })
    waits :
        (s : State) (d : ℕ) → Step s (record s { world = record s.world { now = s.world.now + d } })

  pub data Reach (s : State) : State → Type 0 where
    here : Reach s s
    next : {t u : State} → Reach s t → Step t u → Reach s u

  -- The step leads onward, and what workers hold is what the rows say.
  record Led (s t : State) : Type 0 where
    onward : Onward uuid_text s.world t.world
    held : All (Held t.world.database) t.hands
