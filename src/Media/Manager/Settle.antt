-- ===== src/Media/Manager/Settle.antt =====
-- No interleaving of a node blocks its tasks, and they come to an end.
use monogo.Base.{
  ℕ, zero, suc, ◌+◌, ◌≤◌, ◌<◌, ◌≡◌, ◌≢◌, refl, inl, inr, Bool, true, false, ◌||◌, List, [], ◌∷◌,
  ◌++◌, Option, none, some, Text, if◌then◌else◌, arith, length, Option-cases, subst,
}
use monogo.Media.Manager.{
  Manager, Task, Then, Node, Reach, here, next_step, ran, RunsTo, stop, and_run, Pick, first, later,
  lookup, advance, may_attach, after_closing, new_node, new_manager, claiming, pumping, finishing,
  closing, expiring, completing, waiting, removing, drain_waiting, drain_removing, end_attachment,
  await_stop, drop_unattached, no_more,
}
use monogo.Media.Manager.Invariant.{Coherent}
use monogo.Media.Manager.Tasks.{any, completes, finishes, Ok, AllOk}
use monogo.Media.Manager.Runs.{Sound, Reach-Sound, pending}

-- The ways in which a task can wait.
data Waits (m : Manager) : Task → Type 0 where
  for_stop : (id ref : ℕ) → (m.heap ref).complete ≡ false → Waits m (waiting id ref)
  for_drain :
      (id ref : ℕ) (left : List (ℕ × ℕ))
      → (m.heap ref).complete ≡ false
      → Waits m (drain_waiting ((id, ref) ∷ left))
  for_removals : Waits m (drain_waiting [])

some_of : {A : Type 0} (b : Bool) (x y : A) → (if b then some x else some y) ≢ none
some_of true x y h = cc
some_of false x y h = cc

false_of : {A : Type 0} (b : Bool) (x : A) → (if b then some x else none) ≡ none → b ≡ false
false_of true x h = cc
false_of false x h = refl

advance-Waits : (m : Manager) (t : Task) → advance t m ≡ none → Waits m t
unfolding advance
advance-Waits m (claiming id ref metadata) h =
    absurd (some_of (may_attach metadata (m.heap ref)) _ _ h)
advance-Waits m (pumping id ref) h = cc
advance-Waits m (finishing ref k) h = cc
advance-Waits m (closing ref attached k) h = absurd (some_of (m.heap ref).closed _ _ h)
advance-Waits m (expiring id ref) h =
    absurd (some_of ((m.heap ref).finished || (m.heap ref).attached) _ _ h)
advance-Waits m (completing id ref) h = cc
advance-Waits m (waiting id ref) h = for_stop id ref (false_of (m.heap ref).complete _ h)
advance-Waits m (removing id ref) h = cc
advance-Waits m (drain_waiting []) h = for_removals
advance-Waits m (drain_waiting ((id, ref) ∷ left)) h =
    for_drain id ref left (false_of (m.heap ref).complete _ h)
advance-Waits m (drain_removing id ref left) h = cc

abbrev AllWait : Manager → List Task → Type 0
AllWait m [] = Unit {0}
AllWait m (t ∷ ts) = Waits m t × AllWait m ts

-- Whoever waits neither completes nor finishes a session.
Waits-nothing :
    (m : Manager) (ref : ℕ) (t : Task)
    → Waits m t
    → (completes ref t ≡ false) × (finishes ref t ≡ false)
Waits-nothing m ref _ (for_stop id r h) = (refl, refl)
Waits-nothing m ref _ (for_drain id r left h) = (refl, refl)
Waits-nothing m ref _ for_removals = (refl, refl)

AllWait-nothing :
    (m : Manager) (ref : ℕ) (ts : List Task)
    → AllWait m ts
    → (any (completes ref) ts ≡ false) × (any (finishes ref) ts ≡ false)
AllWait-nothing m ref [] h = (refl, refl)
AllWait-nothing m ref (t ∷ ts) (h, hs) =
    let (c, f) = Waits-nothing m ref t h in
    let (cs, fs) = AllWait-nothing m ref ts hs in (ground arith, ground arith)

-- A `Drain` that waits for the table to be empty.
abbrev pub is_idle : Task → Bool
is_idle (drain_waiting []) = true
is_idle _ = false

abbrev pub AllIdle : List Task → Type 0
AllIdle [] = Unit {0}
AllIdle (t ∷ ts) = (is_idle t ≡ true) × AllIdle ts

Waits-idle :
    (n : Node) (t : Task)
    → Sound n
    → AllWait n.manager n.tasks
    → Waits n.manager t
    → Ok n.manager (pending n.tasks) t
    → is_idle t ≡ true
Waits-idle n _ s all (for_stop id ref h) (made, done) =
    let nobody = (AllWait-nothing n.manager ref n.tasks all).0 in
    let owed = s.owed ref made (ground arith) in absurd (ground arith)
Waits-idle n _ s all (for_drain id ref left h) (made, done, rest) =
    let (nobody, none_finishes) = AllWait-nothing n.manager ref n.tasks all in
    let ended : (n.manager.heap ref).finished ≡ true = ground arith in
    let owed = s.owed ref made (ground arith) in absurd (ground arith)
Waits-idle n _ s all for_removals h = refl

all-idle :
    (n : Node) (ts : List Task)
    → Sound n
    → AllWait n.manager n.tasks
    → AllOk n.manager (pending n.tasks) ts
    → AllWait n.manager ts
    → AllIdle ts
all-idle n [] s all oks h = tt
all-idle n (t ∷ ts) s all (ok, oks) (h, hs) =
    (Waits-idle n t s all h ok, all-idle n ts s all oks hs)

-- How many steps a task has before it at most.
abbrev weight : Task → ℕ
weight (claiming id ref metadata) = 6
weight (pumping id ref) = 5
weight (finishing ref k) = 4
weight (closing ref attached k) = 3
weight (expiring id ref) = 4
weight (completing id ref) = 2
weight (waiting id ref) = 2
weight (removing id ref) = 1
weight (drain_waiting left) = length left + length left + 1
weight (drain_removing id ref left) = length left + length left + 2

abbrev weights : List Task → ℕ
weights [] = 0
weights (t ∷ ts) = weight t + weights ts

abbrev Lighter : Task → Option (List Task × Manager) → Type 0
Lighter t none = Unit {0}
Lighter t (some (ts, m)) = weights ts < weight t

if-Lighter :
    (t : Task) (b : Bool) (o o' : Option (List Task × Manager))
    → Lighter t o
    → Lighter t o'
    → Lighter t (if b then o else o')
if-Lighter t true o o' h k = h
if-Lighter t false o o' h k = k

after_closing-light : (ref : ℕ) (k : Then) → weights (after_closing ref k) < 3
unfolding after_closing
after_closing-light ref (end_attachment id) = omega arith
after_closing-light ref (await_stop id) = omega arith
after_closing-light ref (drop_unattached id) = omega arith
after_closing-light ref no_more = omega arith

drained-Lighter :
    (m : Manager) (sessions : List (ℕ × ℕ))
    → Lighter (drain_waiting []) (elim sessions [ [] ↦ some ([], m) | s ∷ l ↦ none ])
drained-Lighter m [] = omega arith
drained-Lighter m (s ∷ l) = tt

advance-Lighter : (m : Manager) (t : Task) → Lighter t (advance t m)
unfolding advance
advance-Lighter m (claiming id ref metadata) =
    if-Lighter (claiming id ref metadata) (may_attach metadata (m.heap ref)) _ _ (omega arith)
      (omega arith)
advance-Lighter m (pumping id ref) = omega arith
advance-Lighter m (finishing ref k) = omega arith
advance-Lighter m (closing ref attached k) =
    if-Lighter (closing ref attached k) (m.heap ref).closed _ _ (after_closing-light ref k)
      (after_closing-light ref k)
advance-Lighter m (expiring id ref) =
    if-Lighter (expiring id ref) ((m.heap ref).finished || (m.heap ref).attached) _ _ (omega arith)
      (omega arith)
advance-Lighter m (completing id ref) = omega arith
advance-Lighter m (waiting id ref) =
    if-Lighter (waiting id ref) (m.heap ref).complete _ _ (omega arith) tt
advance-Lighter m (removing id ref) = omega arith
advance-Lighter m (drain_waiting []) = drained-Lighter m m.sessions
advance-Lighter m (drain_waiting ((id, ref) ∷ left)) =
    if-Lighter (drain_waiting ((id, ref) ∷ left)) (m.heap ref).complete _ _ (omega arith) tt
advance-Lighter m (drain_removing id ref left) = omega arith

data Found (m : Manager) (tasks : List Task) : Type 0 where
  can_run :
      (t : Task) (others ts : List Task) (m' : Manager)
      → Pick t tasks others
      → advance t m ≡ some (ts, m')
      → Found m tasks
  all_wait : AllWait m tasks → Found m tasks

Found-next : (m : Manager) (t : Task) (tasks : List Task) → Found m tasks → Found m (t ∷ tasks)
Found-next m t tasks (can_run u others ts m' pick e) = can_run u (t ∷ others) ts m' (later pick) e
Found-next m t tasks (all_wait h) = elim (Option-cases (advance t m)) [
  | inl e ↦ all_wait (advance-Waits m t e, h)
  | inr ((ts, m'), e) ↦ can_run t tasks ts m' first e
]

find : (m : Manager) (tasks : List Task) → Found m tasks
find m [] = all_wait tt
find m (t ∷ tasks) = Found-next m t tasks (find m tasks)

weights-append : (ts us : List Task) → weights (ts ++ us) ≡ weights ts + weights us
weights-append [] us = omega arith
weights-append (t ∷ ts) us = omega (arith, weights-append ts us)

weights-Pick :
    (t : Task) (tasks others : List Task)
    → Pick t tasks others
    → weights tasks ≡ weight t + weights others
weights-Pick t [] others k = elim k [ ]
weights-Pick t (u ∷ ts) others first = refl
weights-Pick t (u ∷ ts) (v ∷ others) (later k) = omega (arith, weights-Pick t ts others k)

record Settled (n : Node) : Type 0 where
  pub node : Node
  pub runs : RunsTo n node
  pub sound : Sound node
  pub idle : AllIdle node.tasks

lighter_than :
    (t : Task) (m m' : Manager) (ts : List Task)
    → advance t m ≡ some (ts, m')
    → weights ts < weight t
lighter_than t m m' ts e = subst (Lighter t) e (advance-Lighter m t)

settles :
    (fuel : ℕ) (n : Node) → Found n.manager n.tasks → weights n.tasks ≤ fuel → Sound n → Settled n
settles fuel n (all_wait h) le s = record {
  node = n;
  runs = stop;
  sound = s;
  idle = all-idle n n.tasks s h s.oks h;
}
settles zero n (can_run t others ts m pick e) le s =
    absurd (omega (arith, lighter_than t n.manager m ts e, weights-Pick t n.tasks others pick))
settles (suc fuel) n (can_run t others ts m pick e) le s =
    let next : Node = record { manager = m; tasks = ts ++ others } in
    let rest =
      settles fuel next (find m (ts ++ others))
        (omega (
          arith,
          lighter_than t n.manager m ts e,
          weights-Pick t n.tasks others pick,
          weights-append ts others,
        ))
        (Reach-Sound (next_step here (ran t others ts m pick e)) s) in
    record {
      node = rest.node;
      runs = and_run t others ts m pick e rest.runs;
      sound = rest.sound;
      idle = rest.idle;
    }

new_node-Sound : (capacity : ℕ) (engines : Text → Bool) → Sound (new_node capacity engines)
unfolding new_node new_manager lookup
new_node-Sound capacity engines = record {
  coherent = record {
    bounded = omega arith;
    made = λ id ref h. cc;
    entries = tt;
    fits = λ ref h. absurd (omega arith);
  };
  oks = tt;
  owed = λ ref h. absurd (omega arith);
}

idle-nothing : (ref : ℕ) (ts : List Task) → AllIdle ts → any (completes ref) ts ≡ false
idle-nothing ref [] h = refl
idle-nothing ref (drain_waiting [] ∷ ts) (h, hs) = idle-nothing ref ts hs
idle-nothing ref (drain_waiting (s ∷ l) ∷ ts) (h, hs) = cc
idle-nothing ref (claiming id r metadata ∷ ts) (h, hs) = cc
idle-nothing ref (pumping id r ∷ ts) (h, hs) = cc
idle-nothing ref (finishing r k ∷ ts) (h, hs) = cc
idle-nothing ref (closing r attached k ∷ ts) (h, hs) = cc
idle-nothing ref (expiring id r ∷ ts) (h, hs) = cc
idle-nothing ref (completing id r ∷ ts) (h, hs) = cc
idle-nothing ref (waiting id r ∷ ts) (h, hs) = cc
idle-nothing ref (removing id r ∷ ts) (h, hs) = cc
idle-nothing ref (drain_removing id r l ∷ ts) (h, hs) = cc

-- Whatever is started, attached, stopped and drained on a new node, whichever timers fire and waits are
-- given up, and however the goroutines interleave: the table holds no more sessions than the capacity,
-- a session that is not finished is found under its id, a complete one is finished, and one whose
-- resources are freed and that was never attached is complete.
pub Reach-Coherent :
    (capacity : ℕ) (engines : Text → Bool) (n : Node)
    → Reach (new_node capacity engines) n
    → Coherent n.manager
Reach-Coherent capacity engines n r = (Reach-Sound r (new_node-Sound capacity engines)).coherent

-- What a node comes to: no task is left but a `Drain` that waits for the table to be empty, and every
-- session that was attached or finished is complete.
pub record AtRest (n : Node) : Type 0 where
  pub node : Node
  pub runs : RunsTo n node
  pub idle : AllIdle node.tasks
  pub all_complete :
      (ref : ℕ)
      → ref < node.manager.next
      → ((node.manager.heap ref).finished || (node.manager.heap ref).attached) ≡ true
      → (node.manager.heap ref).complete ≡ true

-- No deadlock: from every state that a new node can reach, there is a run of its goroutines, with no
-- further call and with each pump returning, to a state of rest. There no `Stop` waits any more, nor a
-- `Drain` for a session; a `Drain` may wait for the table to be empty; and every session that was
-- attached or finished is complete.
pub Reach-AtRest :
    (capacity : ℕ) (engines : Text → Bool) (n : Node)
    → Reach (new_node capacity engines) n
    → AtRest n
Reach-AtRest capacity engines n r =
    let end =
      settles (weights n.tasks) n (find n.manager n.tasks) (omega arith)
        (Reach-Sound r (new_node-Sound capacity engines)) in
    record {
      node = end.node;
      runs = end.runs;
      idle = end.idle;
      all_complete = λ ref made h.
          let owed = end.sound.owed ref made h in
          let nobody = idle-nothing ref end.node.tasks end.idle in ground arith;
    }
