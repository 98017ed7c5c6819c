-- ===== src/Platform/Idempotency/Runs.antt =====
-- Requests that arrive, run and are finished in any order: the middleware around its handlers, of any
-- number of servers over one table, with the job that cleans it up.
use monogo.Base.{ℕ, ◌+◌, List, [], ◌∷◌, none, Text}
use monogo.Effects.{World, Net, Result, ok, err}
use monogo.Platform.Idempotency.{Request, Headers, Config, Keys, delete_expired_keys}
use monogo.Platform.Idempotency.Middleware.{
  HttpRequest, Captured, Answer, Entry, passed, refused, answered, running, handle, finish,
}

-- A run of a handler under a lease.
pub record Run : Type 0 where
  pub request : Request
  pub until : ℕ
  pub began : ℕ

-- The runs that began, with the latest first; what handlers wrote, for which request; and the answers
-- that were sent in place of a run.
pub record State : Type 0 where
  pub world : World Keys (Unit {0})
  pub runs : List Run
  pub finished : List (Request × Captured)
  pub replays : List (HttpRequest × Answer)

pub data In {ℓ} {A : Type ℓ} (a : A) : List A → Type ℓ where
  first : {xs : List A} → In a (a ∷ xs)
  later : {x : A} {xs : List A} → In a xs → In a (x ∷ xs)

abbrev pub with_net : List Net → World Keys (Unit {0}) → World Keys (Unit {0})
with_net net w = record w { net = net }

-- What an arrival adds to the history.
abbrev pub entered : HttpRequest → Result Entry → World Keys (Unit {0}) → State → State
entered r (err e) v s = record s { world = v }
entered r (ok passed) v s = record s { world = v }
entered r (ok (refused e)) v s = record s { world = v }
entered r (ok (answered a)) v s = record s { world = v; replays = (r, a) ∷ s.replays }
entered r (ok (running q until)) v s = record s {
  world = v;
  runs = (record { request = q; until = until; began = v.now }) ∷ s.runs;
}

-- Whatever the network does to a request's calls, and however long it takes.
module _ (digest : Text → Text) (uuid_text : ℕ → Text) (h : Headers) (c : Config) where
  pub data Step : State → State → Type 0 where
    arrives :
        (s : State) (net : List Net) (r : HttpRequest)
        → Step s
            (let p = handle digest uuid_text h c r (with_net net s.world) in entered r p.0 p.1 s)
    finishes :
        (s : State) (net : List Net) (run : Run) (captured : Captured)
        → In run s.runs
        → Step s (record s {
          world =
              (finish digest uuid_text h run.request run.until captured (with_net net s.world)).1;
          finished = (run.request, captured) ∷ s.finished;
        })
    cleans :
        (s : State) (net : List Net)
        → Step s (record s { world = (delete_expired_keys (with_net net s.world)).1 })
    waits :
        (s : State) (d : ℕ) → Step s (record s { world = record s.world { now = s.world.now + d } })

  pub data Reach (s : State) : State → Type 0 where
    here : Reach s s
    next : {t u : State} → Reach s t → Step t u → Reach s u

abbrev pub at_start : ℕ → State
at_start now = record {
  world = record { database = λ s k. none; keyspace = tt; net = []; now = now };
  runs = [];
  finished = [];
  replays = [];
}
