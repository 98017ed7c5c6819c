-- ===== src/Media/Manager.antt =====
-- manager.go of server/internal/media/session: the sessions of a media node. Each goroutine that works
-- on a session is a task; a step runs one task from one lock to the next, so that every interleaving of
-- the goroutines is a sequence of steps. A session is a reference into the heap of the manager, as the
-- source compares sessions by pointer. Metrics, the control channel and its events are left out.
pub mod Invariant
pub mod Tasks
pub mod Advance
pub mod Runs
pub mod Settle
mod Examples
use monogo.Base.{
  ℕ, suc, ◌+◌, Bool, true, false, not, ◌&&◌, ◌||◌, List, [], ◌∷◌, ◌++◌, Option, none, some, Text,
  ◌==◌, ltb, if◌then◌else◌, length, ◌≡◌, ◌<◌,
}
use monogo.Errors.{Error, plain, wrapped}
use monogo.Effects.{Result, ok, err}
use monogo.Media.Queue.{AudioFormat}
use monogo.Media.Config.{Config, validate, format_eq}

-- `managedSession`. `cancelled` is `ctx.Err() != nil`; `closed` says that `finishOnce` has run, and
-- `complete` that the channel of that name is closed.
pub record Session : Type 0 where
  pub config : Config
  pub has_stream : Bool
  pub attached : Bool
  pub finished : Bool
  pub closed : Bool
  pub complete : Bool
  pub armed : Bool

-- `heap` holds the sessions made so far at the references below `next`.
pub record Manager : Type 0 where
  pub engines : Text → Bool
  pub capacity : ℕ
  pub draining : Bool
  pub sessions : List (ℕ × ℕ)
  pub heap : ℕ → Session
  pub next : ℕ

-- `Connection.Metadata`.
pub record Metadata : Type 0 where
  pub session_id : ℕ
  pub call_id : ℕ
  pub channel_id : ℕ
  pub organization_id : ℕ
  pub format : AudioFormat

-- What `starter.Start` comes to within the time that it has.
pub data Starting : Type 0 where
  started : Bool → Starting
  start_failed : Error → Starting
  start_timed_out : Starting

unfoldable pub lookup : ℕ → List (ℕ × ℕ) → Option ℕ
lookup id [] = none
lookup id ((key, ref) ∷ sessions) =
    let rest = lookup id sessions in if key == id then some ref else rest

abbrev pub is_listed : Option ℕ → Bool
is_listed none = false
is_listed (some ref) = true

abbrev pub is_ref : Option ℕ → ℕ → Bool
is_ref none ref = false
is_ref (some r) ref = r == ref

-- `delete(m.sessions, id)`.
unfoldable pub delete : ℕ → List (ℕ × ℕ) → List (ℕ × ℕ)
delete id [] = []
delete id ((key, ref) ∷ sessions) =
    let rest = delete id sessions in if key == id then rest else (key, ref) ∷ rest

-- `remove`: only where the entry is this very session.
unfoldable pub remove : ℕ → ℕ → Manager → Manager
remove id ref m =
    if is_ref (lookup id m.sessions) ref then record m { sessions = delete id m.sessions } else m

unfoldable pub update : ℕ → Session → Manager → Manager
update ref s m = record m { heap = λ r. if r == ref then s else m.heap r }

-- The configuration that stands where no session has been made.
abbrev nothing : Config
nothing = record {
  id = 0;
  organization_id = 0;
  call_id = 0;
  channel_id = 0;
  engine = [];
  input_format = record { sample_rate_hz = 0; channels = 0 };
  output_format = record { sample_rate_hz = 0; channels = 0 };
  language = [];
  instructions = [];
  voice = [];
  engine_config = [];
  tools = [];
  providers = [];
}

unfoldable pub new_session : Config → Bool → Session
new_session config has_stream = record {
  config = config;
  has_stream = has_stream;
  attached = false;
  finished = false;
  closed = false;
  complete = false;
  armed = true;
}

-- The manager that `NewManager` makes of a capacity and engines that it accepts.
unfoldable pub new_manager : ℕ → (Text → Bool) → Manager
unfolding new_session
new_manager capacity engines = record {
  engines = engines;
  capacity = capacity;
  draining = false;
  sessions = [];
  heap = λ ref. new_session nothing false;
  next = 0;
}

unfoldable pub add_session : Config → Bool → Manager → Manager
unfolding new_session
add_session config has_stream m = record m {
  sessions = (config.id, m.next) ∷ m.sessions;
  heap = λ r. if r == m.next then new_session config has_stream else m.heap r;
  next = suc m.next;
}

abbrev after_start : Config → Starting → Manager → Result (Unit {0}) × Manager
after_start config (started has_stream) m = (ok tt, add_session config has_stream m)
after_start config (start_failed e) m = (err (wrapped "start media engine" e), m)
after_start config start_timed_out m = (err (plain "media provider start timed out"), m)

-- `Start`, under the manager's lock once the configuration is valid.
unfoldable pub start_locked : Config → Starting → Manager → Result (Unit {0}) × Manager
start_locked config starting m =
    if m.draining
    then (err (plain "media session manager is draining"), m)
    else if is_listed (lookup config.id m.sessions)
    then (err (plain "media session already exists"), m)
    else if not (ltb (length m.sessions) m.capacity)
    then (err (plain "media session capacity exceeded"), m)
    else if not (m.engines config.engine)
    then (err (plain "media engine is not configured"), m)
    else after_start config starting m

abbrev if_valid :
    Result (Unit {0}) → Manager → Result (Unit {0}) × Manager → Result (Unit {0}) × Manager
if_valid (ok u) m r = r
if_valid (err e) m r = (err e, m)

unfoldable pub start : (Text → Bool) → Config → Starting → Manager → Result (Unit {0}) × Manager
start is_object config starting m =
    if_valid (validate is_object config) m (start_locked config starting m)

-- What a goroutine does after it has finished a session: `Attach` completes and removes it, `Stop`
-- waits for it and removes it, the timer removes it, and a goroutine of `Drain` ends.
pub data Then : Type 0 where
  end_attachment : ℕ → Then
  await_stop : ℕ → Then
  drop_unattached : ℕ → Then
  no_more : Then

pub data Task : Type 0 where
  -- `Attach` between the manager's lock and the session's, and in `pump`.
  claiming : ℕ → ℕ → Metadata → Task
  pumping : ℕ → ℕ → Task
  -- `finish`, and `finishResources` with the value of `attached` that it was given.
  finishing : ℕ → Then → Task
  closing : ℕ → Bool → Then → Task
  -- `finishUnattached`, when the timer has fired.
  expiring : ℕ → ℕ → Task
  -- `markComplete` and `remove` at the end of `Attach`.
  completing : ℕ → ℕ → Task
  -- `Stop` at its `select`.
  waiting : ℕ → ℕ → Task
  removing : ℕ → ℕ → Task
  -- `Drain` in its second loop, at the sessions that are left, and in its third where none is.
  drain_waiting : List (ℕ × ℕ) → Task
  drain_removing : ℕ → ℕ → List (ℕ × ℕ) → Task

unfoldable pub may_attach : Metadata → Session → Bool
may_attach metadata s =
    metadata.call_id == s.config.call_id
    && metadata.channel_id == s.config.channel_id
    && metadata.organization_id == s.config.organization_id
    && format_eq metadata.format s.config.input_format
    && format_eq metadata.format s.config.output_format
    && not s.attached
    && not (s.finished || s.closed)
    && s.has_stream

unfoldable pub after_closing : ℕ → Then → List Task
after_closing ref (end_attachment id) = completing id ref ∷ []
after_closing ref (await_stop id) = waiting id ref ∷ []
after_closing ref (drop_unattached id) = removing id ref ∷ []
after_closing ref no_more = []

abbrev pub close_session : Bool → Session → Session
close_session attached s = record s { closed = true; complete = s.complete || not attached }

-- One step of a task: the tasks that take its place, or `none` where it waits.
unfoldable pub advance : Task → Manager → Option (List Task × Manager)
advance (claiming id ref metadata) m =
    if may_attach metadata (m.heap ref)
    then some
        (pumping id ref ∷ [], update ref (record (m.heap ref) { attached = true; armed = false }) m)
    else some ([], m)
advance (pumping id ref) m = some (finishing ref (end_attachment id) ∷ [], m)
advance (finishing ref k) m = some (
  closing ref (m.heap ref).attached k ∷ [],
  update ref (record (m.heap ref) { finished = true; armed = false }) m,
)
advance (closing ref attached k) m =
    if (m.heap ref).closed
    then some (after_closing ref k, m)
    else some (after_closing ref k, update ref (close_session attached (m.heap ref)) m)
advance (expiring id ref) m =
    if (m.heap ref).finished || (m.heap ref).attached
    then some ([], m)
    else some (
      closing ref false (drop_unattached id) ∷ [],
      update ref (record (m.heap ref) { finished = true }) m,
    )
advance (completing id ref) m =
    some (removing id ref ∷ [], update ref (record (m.heap ref) { complete = true }) m)
advance (waiting id ref) m = if (m.heap ref).complete then some (removing id ref ∷ [], m) else none
advance (removing id ref) m = some ([], remove id ref m)
advance (drain_waiting []) m = elim m.sessions [ [] ↦ some ([], m) | session ∷ sessions ↦ none ]
advance (drain_waiting ((id, ref) ∷ left)) m =
    if (m.heap ref).complete then some (drain_removing id ref left ∷ [], m) else none
advance (drain_removing id ref left) m = some (drain_waiting left ∷ [], remove id ref m)

-- The goroutines that `Drain` starts.
unfoldable pub finish_each : List (ℕ × ℕ) → List Task
finish_each [] = []
finish_each ((id, ref) ∷ sessions) = finishing ref no_more ∷ finish_each sessions

pub record Node : Type 0 where
  pub manager : Manager
  pub tasks : List Task

-- One task of a list, and the others.
pub data Pick (t : Task) : List Task → List Task → Type 0 where
  first : {tasks : List Task} → Pick t (t ∷ tasks) tasks
  later :
      {u : Task} {tasks others : List Task} → Pick t tasks others → Pick t (u ∷ tasks) (u ∷ others)

-- A wait that its context can end. A `select` may take the context also where the session is complete.
unfoldable pub may_give_up : Task → Bool
may_give_up (waiting id ref) = true
may_give_up (drain_waiting left) = true
may_give_up _ = false

-- `AttachTimeout` has passed for a session, whose timer runs.
unfoldable pub fire : ℕ → Manager → Manager
fire ref m = update ref (record (m.heap ref) { armed = false }) m

pub data Step (n : Node) : Node → Type 0 where
  ran :
      (t : Task) (others ts : List Task) (m : Manager)
      → Pick t n.tasks others
      → advance t n.manager ≡ some (ts, m)
      → Step n (record { manager = m; tasks = ts ++ others })
  start_called :
      (config : Config) (starting : Starting)
      → Step n (record n { manager = (start_locked config starting n.manager).1 })
  attach_called :
      (id ref : ℕ) (metadata : Metadata)
      → lookup id n.manager.sessions ≡ some ref
      → Step n (record n { tasks = claiming id ref metadata ∷ n.tasks })
  stop_called :
      (id ref : ℕ)
      → lookup id n.manager.sessions ≡ some ref
      → Step n (record n { tasks = finishing ref (await_stop id) ∷ n.tasks })
  drain_called : Step n (record {
    manager = record n.manager { draining = true };
    tasks = drain_waiting n.manager.sessions ∷ finish_each n.manager.sessions ++ n.tasks;
  })
  timer_fired :
      (ref : ℕ)
      → (n.manager.heap ref).armed ≡ true
      → ref < n.manager.next
      → Step n (record {
        manager = fire ref n.manager;
        tasks = expiring (n.manager.heap ref).config.id ref ∷ n.tasks;
      })
  gave_up :
      (t : Task) (others : List Task)
      → Pick t n.tasks others
      → may_give_up t ≡ true
      → Step n (record n { tasks = others })

pub data Reach (n : Node) : Node → Type 0 where
  here : Reach n n
  next_step : {m k : Node} → Reach n m → Step m k → Reach n k

-- A node on which no task runs yet.
unfoldable pub new_node : ℕ → (Text → Bool) → Node
unfolding new_manager
new_node capacity engines = record { manager = new_manager capacity engines; tasks = [] }

-- The tasks run on, and nothing is called.
pub data RunsTo : Node → Node → Type 0 where
  stop : {n : Node} → RunsTo n n
  and_run :
      {n k : Node} (t : Task) (others ts : List Task) (m : Manager)
      → Pick t n.tasks others
      → advance t n.manager ≡ some (ts, m)
      → RunsTo (record { manager = m; tasks = ts ++ others }) k
      → RunsTo n k
