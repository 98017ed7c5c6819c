-- ===== src/Media/Manager/Runs.antt =====
-- Every interleaving of a node: what holds all along, and that the tasks come to an end.
use monogo.Base.{
  ℕ, ◌<◌, ◌≡◌, refl, sym, ◌∙◌, subst, Bool, true, false, not, ◌||◌, List, [], ◌∷◌, ◌++◌, Option,
  none, some, ◌==◌, ==_iff, if◌then◌else◌, length, ltb, arith, Bool-cases, inl, inr, ◌⊎◌,
}
use monogo.Effects.{Result}
use monogo.Media.Config.{Config}
use monogo.Media.Manager.{
  Session, Manager, Task, Node, Step, Reach, here, next_step, Pick, first, later, Starting, started,
  start_failed, start_timed_out, after_start, start_locked, lookup, update, fire, finish_each,
  is_listed, add_session, new_session, may_give_up, ran, start_called, attach_called, stop_called,
  drain_called, timer_fired, gave_up, claiming, pumping, finishing, closing, expiring, completing,
  waiting, removing, drain_waiting, drain_removing, await_stop,
}
use monogo.Media.Manager.Invariant.{
  Later, same-Later, update-Later, add-Later, Coherent, AllMade, update-Coherent, add-Coherent,
}
use monogo.Media.Manager.Tasks.{
  any, completes, finishes, Left, Ok, AllOk, AllOk-Later, Kept, Owes, Advanced, keep-Advanced,
}
use monogo.Media.Manager.Advance.{Good, advance-Good}

any_append : (f : Task → Bool) (ts us : List Task) → any f (ts ++ us) ≡ (any f ts || any f us)
any_append f [] us = refl
any_append f (t ∷ ts) us = ground (arith, any_append f ts us)

any_of_rest :
    (f : Task → Bool) (t : Task) (ts others : List Task)
    → Pick t ts others
    → any f ts ≡ (f t || any f others)
any_of_rest f t [] others k = elim k [ ]
any_of_rest f t (u ∷ ts) others first = refl
any_of_rest f t (u ∷ ts) (v ∷ others) (later k) = ground (arith, any_of_rest f t ts others k)

AllOk-append :
    (m : Manager) (p : ℕ → Bool) (ts us : List Task)
    → AllOk m p ts
    → AllOk m p us
    → AllOk m p (ts ++ us)
AllOk-append m p [] us h k = k
AllOk-append m p (t ∷ ts) us (h, hs) k = (h, AllOk-append m p ts us hs k)

AllOk-Pick :
    (m : Manager) (p : ℕ → Bool) (t : Task) (ts others : List Task)
    → Pick t ts others
    → AllOk m p ts
    → Ok m p t × AllOk m p others
AllOk-Pick m p t [] others k h = elim k [ ]
AllOk-Pick m p t (u ∷ ts) others first (h, hs) = (h, hs)
AllOk-Pick m p t (u ∷ ts) (v ∷ others) (later k) (h, hs) =
    let (ok, oks) = AllOk-Pick m p t ts others k hs in (ok, (h, oks))

abbrev pub pending : List Task → ℕ → Bool
pending tasks ref = any (finishes ref) tasks

-- The invariant of a node.
pub record Sound (n : Node) : Type 0 where
  pub coherent : Coherent n.manager
  pub oks : AllOk n.manager (pending n.tasks) n.tasks
  pub owed :
      (ref : ℕ) → ref < n.manager.next → Owes (n.manager.heap ref) (any (completes ref) n.tasks)

ran-Sound :
    (n : Node) (t : Task) (others ts : List Task) (m : Manager)
    → Pick t n.tasks others
    → Advanced n.manager (pending n.tasks) t ts m
    → Sound n
    → Sound (record { manager = m; tasks = ts ++ others })
ran-Sound n t others ts m pick a s =
    let (ok, oks) = AllOk-Pick n.manager (pending n.tasks) t n.tasks others pick s.oks in
    let kept : Kept n.manager (pending n.tasks) m (pending (ts ++ others)) = λ ref made h.
      let split = any_of_rest (finishes ref) t n.tasks others pick in
      rw (any_append (finishes ref) ts others) (ground (arith, a.kept ref)) in
    record {
      coherent = a.coherent;
      oks =
          AllOk-append m _ ts others (a.oks _ kept)
            (AllOk-Later n.manager m _ _ others a.later kept oks);
      owed = λ ref made.
          let before = s.owed ref (omega (arith, a.same_next)) in
          let split = any_of_rest (completes ref) t n.tasks others pick in
          rw (any_append (completes ref) ts others)
            (a.owes ref (any (completes ref) others) (rw split at before));
    }

-- A task that is added: it must be as `Ok` says, and the manager may have changed along the way.
grown-Sound :
    (n : Node) (m : Manager) (ts : List Task)
    → Coherent m
    → Later n.manager m
    → AllOk m (pending (ts ++ n.tasks)) ts
    → ((ref : ℕ)
        → ref < m.next
        → ((ref < n.manager.next)
            × ((m.heap ref).complete ≡ (n.manager.heap ref).complete)
            × ((m.heap ref).finished ≡ (n.manager.heap ref).finished)
            × ((m.heap ref).attached ≡ (n.manager.heap ref).attached))
          ⊎ (((m.heap ref).finished || (m.heap ref).attached) ≡ false))
    → Sound n
    → Sound (record { manager = m; tasks = ts ++ n.tasks })
grown-Sound n m ts c l oks same s =
    let kept : Kept n.manager (pending n.tasks) m (pending (ts ++ n.tasks)) = λ ref made h.
      let done = (l.changes ref made).finished in
      rw (any_append (finishes ref) ts n.tasks) (ground arith) in
    record {
      coherent = c;
      oks = AllOk-append m _ ts n.tasks oks (AllOk-Later n.manager m _ _ n.tasks l kept s.oks);
      owed = λ ref made h. elim (same ref made) [
        | inl (old, e, f, g) ↦
            let before = s.owed ref old in
            rw (any_append (completes ref) ts n.tasks) (ground (arith, e, f, g))
        | inr fresh ↦ absurd (let clash : true ≡ false = sym h ∙ fresh in cc)
      ];
    }

same_flags :
    (n : Node) (ref : ℕ)
    → ref < n.manager.next
    → (ref < n.manager.next)
      × ((n.manager.heap ref).complete ≡ (n.manager.heap ref).complete)
      × ((n.manager.heap ref).finished ≡ (n.manager.heap ref).finished)
      × ((n.manager.heap ref).attached ≡ (n.manager.heap ref).attached)
same_flags n ref made = (made, refl, refl, refl)

add-Sound :
    (n : Node) (config : Config) (b : Bool)
    → lookup config.id n.manager.sessions ≡ none
    → length n.manager.sessions < n.manager.capacity
    → Sound n
    → Sound (record n { manager = add_session config b n.manager })
unfolding add_session new_session
add-Sound n config b free room s =
    grown-Sound n (add_session config b n.manager) []
      (add-Coherent config b n.manager free room s.coherent) (add-Later config b n.manager) tt
      (λ ref made. elim (Bool-cases (ref == n.manager.next)) [
        | inl e ↦ inr (rw e refl)
        | inr e ↦ inl ((ground arith, rw e refl, rw e refl, rw e refl))
      ])
      s

if-Sound :
    (n : Node) (b : Bool) (x y : Result (Unit {0}) × Manager)
    → (b ≡ true → Sound (record n { manager = x.1 }))
    → (b ≡ false → Sound (record n { manager = y.1 }))
    → Sound (record n { manager = (if b then x else y).1 })
if-Sound n true x y h k = h refl
if-Sound n false x y h k = k refl

unlisted : (o : Option ℕ) → is_listed o ≡ false → o ≡ none
unlisted none h = refl
unlisted (some ref) h = cc

started-Sound :
    (n : Node) (config : Config) (starting : Starting)
    → lookup config.id n.manager.sessions ≡ none
    → length n.manager.sessions < n.manager.capacity
    → Sound n
    → Sound (record n { manager = (after_start config starting n.manager).1 })
started-Sound n config (started has_stream) free room s = add-Sound n config has_stream free room s
started-Sound n config (start_failed e) free room s = s
started-Sound n config start_timed_out free room s = s

start-Sound :
    (n : Node) (config : Config) (starting : Starting)
    → Sound n
    → Sound (record n { manager = (start_locked config starting n.manager).1 })
unfolding start_locked
start-Sound n config starting s =
    if-Sound n n.manager.draining _ _ (λ e. s)
      λ e.
        if-Sound n (is_listed (lookup config.id n.manager.sessions)) _ _ (λ e. s)
          λ free.
            if-Sound n (not (ltb (length n.manager.sessions) n.manager.capacity)) _ _ (λ e. s)
              λ room.
                if-Sound n (not (n.manager.engines config.engine)) _ _ (λ e. s)
                  (λ known.
                    started-Sound n config starting
                      (unlisted (lookup config.id n.manager.sessions) free) (ground arith) s)

-- The goroutines of a `Drain` finish all sessions of its snapshot.
finish_each-AllOk :
    (m : Manager) (p : ℕ → Bool) (sessions : List (ℕ × ℕ))
    → AllMade m.next sessions
    → AllOk m p (finish_each sessions)
unfolding finish_each
finish_each-AllOk m p [] h = tt
finish_each-AllOk m p ((id, ref) ∷ sessions) (made, h) = (made, finish_each-AllOk m p sessions h)

finish_each-Left :
    (m : Manager) (p : ℕ → Bool) (sessions : List (ℕ × ℕ))
    → AllMade m.next sessions
    → ((ref : ℕ) → any (finishes ref) (finish_each sessions) ≡ true → p ref ≡ true)
    → Left m p sessions
unfolding finish_each
finish_each-Left m p [] h k = tt
finish_each-Left m p ((id, ref) ∷ sessions) (made, h) k = (
  made,
  let mine = k ref (ground (arith, (==_iff ref ref).1 refl)) in ground arith,
  finish_each-Left m p sessions h (λ r e. k r (ground arith)),
)

drain-Sound :
    (n : Node)
    → Sound n
    → Sound (record {
      manager = record n.manager { draining = true };
      tasks = drain_waiting n.manager.sessions ∷ finish_each n.manager.sessions ++ n.tasks;
    })
drain-Sound n s =
    let m : Manager = record n.manager { draining = true } in
    let spawned = drain_waiting n.manager.sessions ∷ finish_each n.manager.sessions in
    grown-Sound n m spawned
      (record {
        bounded = s.coherent.bounded;
        made = s.coherent.made;
        entries = s.coherent.entries;
        fits = s.coherent.fits;
      })
      (same-Later refl refl)
      (
        finish_each-Left m (pending (spawned ++ n.tasks)) n.manager.sessions s.coherent.entries
            (λ ref e. rw (any_append (finishes ref) spawned n.tasks) (ground arith)),
        finish_each-AllOk m _ n.manager.sessions s.coherent.entries,
      )
      (λ ref made. inl (made, refl, refl, refl)) s

fire-Sound :
    (n : Node) (ref : ℕ)
    → ref < n.manager.next
    → Sound n
    → Sound (record {
      manager = fire ref n.manager;
      tasks = expiring (n.manager.heap ref).config.id ref ∷ n.tasks;
    })
unfolding fire update
fire-Sound n ref made s =
    let fit = s.coherent.fits ref made in
    let quiet : Session = record (n.manager.heap ref) { armed = false } in
    grown-Sound n (update ref quiet n.manager) (expiring (n.manager.heap ref).config.id ref ∷ [])
      (update-Coherent ref quiet n.manager made
        (record { listed = fit.listed; completed = fit.completed; closed = fit.closed }) s.coherent)
      (update-Later ref quiet n.manager (record {
        config = refl;
        finished = λ h. h;
        attached = λ h. h;
        complete = λ h. h;
        fixed = λ h. refl;
      }))
      (made, tt)
      (λ r here_made. elim (Bool-cases (r == ref)) [
        | inl e ↦
            let at : r ≡ ref = (==_iff r ref).0 e in
            inl (here_made, rw e (rw at refl), rw e (rw at refl), rw e (rw at refl))
        | inr e ↦ inl (here_made, rw e refl, rw e refl, rw e refl)
      ])
      s

gives_up-nothing :
    (t : Task) → may_give_up t ≡ true → (r : ℕ) → (finishes r t ≡ false) × (completes r t ≡ false)
unfolding may_give_up
gives_up-nothing (waiting id ref) h r = (refl, refl)
gives_up-nothing (drain_waiting left) h r = (refl, refl)
gives_up-nothing (claiming id ref metadata) h r = cc
gives_up-nothing (pumping id ref) h r = cc
gives_up-nothing (finishing ref k) h r = cc
gives_up-nothing (closing ref attached k) h r = cc
gives_up-nothing (expiring id ref) h r = cc
gives_up-nothing (completing id ref) h r = cc
gives_up-nothing (removing id ref) h r = cc
gives_up-nothing (drain_removing id ref left) h r = cc

idle-Sound :
    (n : Node) (t : Task) (others : List Task)
    → Pick t n.tasks others
    → may_give_up t ≡ true
    → Sound n
    → Sound (record n { tasks = others })
idle-Sound n t others pick idle s =
    let none_of = gives_up-nothing t idle in
    ran-Sound n t others [] n.manager pick
      (keep-Advanced n.manager (pending n.tasks) t [] s.coherent (λ q k. tt) (λ r. (none_of r).0)
        (λ r b h g. let off = (none_of r).1 in ground (arith, h g)))
      s

Step-Sound : {n k : Node} → Step n k → Sound n → Sound k
Step-Sound {n} (ran t others ts m pick e) s =
    let (ok, oks) = AllOk-Pick n.manager (pending n.tasks) t n.tasks others pick s.oks in
    let good = advance-Good n.manager (pending n.tasks) t s.coherent ok in
    ran-Sound n t others ts m pick (subst (Good n.manager (pending n.tasks) t) e good) s
Step-Sound {n} (start_called config starting) s = start-Sound n config starting s
Step-Sound {n} (attach_called id ref metadata h) s =
    grown-Sound n n.manager (claiming id ref metadata ∷ []) s.coherent (same-Later refl refl)
      (s.coherent.made id ref h, tt) (λ r made. inl (same_flags n r made)) s
Step-Sound {n} (stop_called id ref h) s =
    grown-Sound n n.manager (finishing ref (await_stop id) ∷ []) s.coherent (same-Later refl refl)
      (s.coherent.made id ref h, tt) (λ r made. inl (same_flags n r made)) s
Step-Sound {n} drain_called s = drain-Sound n s
Step-Sound {n} (timer_fired ref armed made) s = fire-Sound n ref made s
Step-Sound {n} (gave_up t others pick idle) s = idle-Sound n t others pick idle s

pub Reach-Sound : {n k : Node} → Reach n k → Sound n → Sound k
Reach-Sound here s = s
Reach-Sound (next_step r t) s = Step-Sound t (Reach-Sound r s)
