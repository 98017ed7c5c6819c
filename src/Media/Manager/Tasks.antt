-- ===== src/Media/Manager/Tasks.antt =====
-- What one step of a task keeps: what each task counts on, and that someone completes every session
-- that has been attached or finished.
use monogo.Base.{
  ℕ, ◌<◌, ◌≡◌, refl, ◌∙◌, Bool, true, false, ◌||◌, List, [], ◌∷◌, ◌==◌, ==_iff, arith, Bool-cases,
  inl, inr,
}
use monogo.Media.Manager.{
  Session, Manager, Task, update, claiming, pumping, finishing, closing, expiring, completing,
  waiting, removing, drain_waiting, drain_removing, end_attachment,
}
use monogo.Media.Manager.Invariant.{
  Changes, Later, same-Later, update-Later, Fit, Coherent, update-Coherent,
}

abbrev pub any : (Task → Bool) → List Task → Bool
any f [] = false
any f (t ∷ ts) = f t || any f ts

-- The tasks that complete a session in the end, and those that are about to mark it finished.
abbrev pub completes : ℕ → Task → Bool
completes ref (pumping id r) = r == ref
completes ref (finishing r (end_attachment id)) = r == ref
completes ref (closing r attached (end_attachment id)) = r == ref
completes ref (closing r false k) = r == ref
completes ref (completing id r) = r == ref
completes ref _ = false

abbrev pub finishes : ℕ → Task → Bool
finishes ref (finishing r k) = r == ref
finishes ref _ = false

abbrev Ended : Manager → ℕ → Type 0
Ended m ref = (ref < m.next) × ((m.heap ref).finished ≡ true)

-- The sessions that a `Drain` has before it are finished, or about to be (`p`).
abbrev pub Left : Manager → (ℕ → Bool) → List (ℕ × ℕ) → Type 0
Left m p [] = Unit {0}
Left m p ((id, ref) ∷ left) =
    (ref < m.next) × (((m.heap ref).finished || p ref) ≡ true) × Left m p left

abbrev pub Ok : Manager → (ℕ → Bool) → Task → Type 0
Ok m p (claiming id ref metadata) = ref < m.next
Ok m p (pumping id ref) = ref < m.next
Ok m p (finishing ref k) = ref < m.next
Ok m p (closing ref attached k) = Ended m ref × ((m.heap ref).attached ≡ attached)
Ok m p (expiring id ref) = ref < m.next
Ok m p (completing id ref) = Ended m ref
Ok m p (waiting id ref) = Ended m ref
Ok m p (removing id ref) = Ended m ref
Ok m p (drain_waiting left) = Left m p left
Ok m p (drain_removing id ref left) = Ended m ref × Left m p left

abbrev pub AllOk : Manager → (ℕ → Bool) → List Task → Type 0
AllOk m p [] = Unit {0}
AllOk m p (t ∷ ts) = Ok m p t × AllOk m p ts

-- From one manager and its pending finishes to the next.
abbrev pub Kept : Manager → (ℕ → Bool) → Manager → (ℕ → Bool) → Type 0
Kept m p n q =
    (ref : ℕ)
    → ref < m.next
    → ((m.heap ref).finished || p ref) ≡ true
    → ((n.heap ref).finished || q ref) ≡ true

pub Left-Later :
    (m n : Manager) (p q : ℕ → Bool) (left : List (ℕ × ℕ))
    → Later m n
    → Kept m p n q
    → Left m p left
    → Left n q left
Left-Later m n p q [] l k h = tt
Left-Later m n p q ((id, ref) ∷ left) l k (made, done, h) =
    (omega (arith, l.grown), k ref made done, Left-Later m n p q left l k h)

Ended-Later : (m n : Manager) (ref : ℕ) → Later m n → Ended m ref → Ended n ref
Ended-Later m n ref l (made, done) = (omega (arith, l.grown), (l.changes ref made).finished done)

pub Ok-Later :
    (m n : Manager) (p q : ℕ → Bool) (t : Task) → Later m n → Kept m p n q → Ok m p t → Ok n q t
Ok-Later m n p q (claiming id ref metadata) l k h = omega (arith, l.grown)
Ok-Later m n p q (pumping id ref) l k h = omega (arith, l.grown)
Ok-Later m n p q (finishing ref then_do) l k h = omega (arith, l.grown)
Ok-Later m n p q (closing ref attached then_do) l k (ended, same) =
    (Ended-Later m n ref l ended, (l.changes ref ended.0).fixed ended.1 ∙ same)
Ok-Later m n p q (expiring id ref) l k h = omega (arith, l.grown)
Ok-Later m n p q (completing id ref) l k h = Ended-Later m n ref l h
Ok-Later m n p q (waiting id ref) l k h = Ended-Later m n ref l h
Ok-Later m n p q (removing id ref) l k h = Ended-Later m n ref l h
Ok-Later m n p q (drain_waiting left) l k h = Left-Later m n p q left l k h
Ok-Later m n p q (drain_removing id ref left) l k (ended, h) =
    (Ended-Later m n ref l ended, Left-Later m n p q left l k h)

pub AllOk-Later :
    (m n : Manager) (p q : ℕ → Bool) (ts : List Task)
    → Later m n
    → Kept m p n q
    → AllOk m p ts
    → AllOk n q ts
AllOk-Later m n p q [] l k h = tt
AllOk-Later m n p q (t ∷ ts) l k (h, hs) = (Ok-Later m n p q t l k h, AllOk-Later m n p q ts l k hs)

-- A session that is attached or finished is complete, or `b`: someone completes it.
abbrev pub Owes : Session → Bool → Type 0
Owes s b = (s.finished || s.attached) ≡ true → (s.complete || b) ≡ true

pub record Advanced (m : Manager) (p : ℕ → Bool) (t : Task) (ts : List Task) (n : Manager)
    : Type 0 where
  pub coherent : Coherent n
  pub later : Later m n
  pub oks : (q : ℕ → Bool) → Kept m p n q → AllOk n q ts
  pub kept :
      (ref : ℕ)
      → ((m.heap ref).finished || finishes ref t) ≡ true
      → ((n.heap ref).finished || any (finishes ref) ts) ≡ true
  pub owes :
      (ref : ℕ) (b : Bool)
      → Owes (m.heap ref) (completes ref t || b)
      → Owes (n.heap ref) (any (completes ref) ts || b)
  pub same_next : n.next ≡ m.next

-- A step that leaves the manager alone.
pub keep-Advanced :
    (m : Manager) (p : ℕ → Bool) (t : Task) (ts : List Task)
    → Coherent m
    → ((q : ℕ → Bool) → Kept m p m q → AllOk m q ts)
    → ((ref : ℕ) → finishes ref t ≡ false)
    → ((ref : ℕ) (b : Bool)
        → Owes (m.heap ref) (completes ref t || b)
        → Owes (m.heap ref) (any (completes ref) ts || b))
    → Advanced m p t ts m
keep-Advanced m p t ts c oks f owes = record {
  coherent = c;
  later = same-Later refl refl;
  oks = oks;
  kept = λ ref h. let off = f ref in ground arith;
  owes = owes;
  same_next = refl;
}

-- A step that changes one session.
pub update-Advanced :
    (m : Manager) (p : ℕ → Bool) (t : Task) (ts : List Task) (ref : ℕ) (s : Session)
    → Coherent m
    → ref < m.next
    → Fit m.sessions ref s
    → Changes (m.heap ref) s
    → ((q : ℕ → Bool) → AllOk (update ref s m) q ts)
    → ((r : ℕ) → (r == ref) ≡ false → (finishes r t ≡ false) × (completes r t ≡ false))
    → (((m.heap ref).finished || finishes ref t) ≡ true
        → (s.finished || any (finishes ref) ts) ≡ true)
    → ((b : Bool) → Owes (m.heap ref) (completes ref t || b) → Owes s (any (completes ref) ts || b))
    → Advanced m p t ts (update ref s m)
unfolding update
update-Advanced m p t ts ref s c made fit change oks others kept owes = record {
  coherent = update-Coherent ref s m made fit c;
  later = update-Later ref s m change;
  oks = λ q k. oks q;
  kept = λ r h. elim (Bool-cases (r == ref)) [
    | inl e ↦ let at : r ≡ ref = (==_iff r ref).0 e in rw e (rw at (kept (rw at at h)))
    | inr e ↦ let off = (others r e).0 in rw e (ground arith)
  ];
  owes = λ r b h. elim (Bool-cases (r == ref)) [
    | inl e ↦ let at : r ≡ ref = (==_iff r ref).0 e in rw e (rw at (owes b (rw at at h)))
    | inr e ↦ let off = (others r e).1 in rw e (λ g. ground (arith, h))
  ];
  same_next = refl;
}
