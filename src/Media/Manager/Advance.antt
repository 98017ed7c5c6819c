-- ===== src/Media/Manager/Advance.antt =====
-- Each kind of task keeps what `Tasks` says of a step.
use monogo.Base.{
  ℕ, ◌<◌, ◌≡◌, refl, ◌∙◌, Bool, true, false, not, ◌||◌, List, [], ◌∷◌, Option, none, some, ◌==◌,
  ==_iff, if◌then◌else◌, arith, Bool-cases, inl, inr,
}
use monogo.Media.Manager.{
  Session, Manager, Task, Then, Metadata, remove, update, advance, may_attach, after_closing,
  close_session, claiming, pumping, finishing, closing, expiring, completing, waiting, removing,
  drain_waiting, drain_removing, end_attachment, await_stop, drop_unattached, no_more, is_ref,
  lookup,
}
use monogo.Media.Manager.Invariant.{Later, same-Later, Coherent, remove-Coherent}
use monogo.Media.Manager.Tasks.{
  any, completes, finishes, Left-Later, Ok, AllOk, Kept, Advanced, keep-Advanced, update-Advanced,
}

abbrev pub Good : Manager → (ℕ → Bool) → Task → Option (List Task × Manager) → Type 0
Good m p t none = Unit {0}
Good m p t (some (ts, n)) = Advanced m p t ts n

if-Good :
    (m : Manager) (p : ℕ → Bool) (t : Task) (b : Bool) (o o' : Option (List Task × Manager))
    → (b ≡ true → Good m p t o)
    → (b ≡ false → Good m p t o')
    → Good m p t (if b then o else o')
if-Good m p t true o o' h k = h refl
if-Good m p t false o o' h k = k refl

may_attach-unfinished :
    (metadata : Metadata) (s : Session) → may_attach metadata s ≡ true → s.finished ≡ false
unfolding may_attach
may_attach-unfinished metadata s h = ground arith

==_same : (a : ℕ) → (a == a) ≡ true
==_same a = (==_iff a a).1 refl

==_false_sym : (a b : ℕ) → (a == b) ≡ false → (b == a) ≡ false
==_false_sym a b h = ground arith

finishing-elsewhere :
    (r ref : ℕ) (k : Then)
    → (r == ref) ≡ false
    → (finishes r (finishing ref k) ≡ false) × (completes r (finishing ref k) ≡ false)
finishing-elsewhere r ref (end_attachment id) h = (==_false_sym r ref h, ==_false_sym r ref h)
finishing-elsewhere r ref (await_stop id) h = (==_false_sym r ref h, refl)
finishing-elsewhere r ref (drop_unattached id) h = (==_false_sym r ref h, refl)
finishing-elsewhere r ref no_more h = (==_false_sym r ref h, refl)

closing-elsewhere :
    (r ref : ℕ) (attached : Bool) (k : Then)
    → (r == ref) ≡ false
    → completes r (closing ref attached k) ≡ false
closing-elsewhere r ref attached (end_attachment id) h = ==_false_sym r ref h
closing-elsewhere r ref false (await_stop id) h = ==_false_sym r ref h
closing-elsewhere r ref false (drop_unattached id) h = ==_false_sym r ref h
closing-elsewhere r ref false no_more h = ==_false_sym r ref h
closing-elsewhere r ref true (await_stop id) h = refl
closing-elsewhere r ref true (drop_unattached id) h = refl
closing-elsewhere r ref true no_more h = refl

-- Who finishes a session that is not attached completes it; else the attachment does.
finishing-owed :
    (ref : ℕ) (k : Then) (finished attached complete b : Bool)
    → ((finished || attached) ≡ true → (complete || (completes ref (finishing ref k) || b)) ≡ true)
    → (complete || ((completes ref (closing ref attached k) || false) || b)) ≡ true
finishing-owed ref (end_attachment id) finished attached complete b h = ground (arith, ==_same ref)
finishing-owed ref (await_stop id) finished false complete b h = ground (arith, ==_same ref)
finishing-owed ref (drop_unattached id) finished false complete b h = ground (arith, ==_same ref)
finishing-owed ref no_more finished false complete b h = ground (arith, ==_same ref)
finishing-owed ref (await_stop id) finished true complete b h = ground arith
finishing-owed ref (drop_unattached id) finished true complete b h = ground arith
finishing-owed ref no_more finished true complete b h = ground arith

after-Ok :
    (m : Manager) (q : ℕ → Bool) (ref : ℕ) (k : Then)
    → ref < m.next
    → (m.heap ref).finished ≡ true
    → AllOk m q (after_closing ref k)
unfolding after_closing
after-Ok m q ref (end_attachment id) made done = ((made, done), tt)
after-Ok m q ref (await_stop id) made done = ((made, done), tt)
after-Ok m q ref (drop_unattached id) made done = ((made, done), tt)
after-Ok m q ref no_more made done = tt

-- A closed session that nothing is attached to is complete.
closed-owed :
    (r ref : ℕ) (attached : Bool) (k : Then) (complete b : Bool)
    → ((r == ref) ≡ true → attached ≡ false → complete ≡ true)
    → (complete || (completes r (closing ref attached k) || b)) ≡ true
    → (complete || (any (completes r) (after_closing ref k) || b)) ≡ true
unfolding after_closing
closed-owed r ref attached (end_attachment id) complete b e h = ground arith
closed-owed r ref true (await_stop id) complete b e h = h
closed-owed r ref true (drop_unattached id) complete b e h = h
closed-owed r ref true no_more complete b e h = h
closed-owed r ref false (await_stop id) complete b e h = ground (arith, ==_iff r ref)
closed-owed r ref false (drop_unattached id) complete b e h = ground (arith, ==_iff r ref)
closed-owed r ref false no_more complete b e h = ground (arith, ==_iff r ref)

close-owed :
    (ref : ℕ) (attached : Bool) (k : Then) (complete b : Bool)
    → (complete || (completes ref (closing ref attached k) || b)) ≡ true
    → ((complete || not attached) || (any (completes ref) (after_closing ref k) || b)) ≡ true
unfolding after_closing
close-owed ref attached (end_attachment id) complete b h = ground (arith, ==_same ref)
close-owed ref true (await_stop id) complete b h = ground arith
close-owed ref true (drop_unattached id) complete b h = ground arith
close-owed ref true no_more complete b h = ground arith
close-owed ref false k complete b h = ground arith

at-update : (ref : ℕ) (s : Session) (m : Manager) → (update ref s m).heap ref ≡ s
unfolding update
at-update ref s m = rw (==_same ref) refl

remove-next : (id ref : ℕ) (m : Manager) → (remove id ref m).next ≡ m.next
unfolding remove
remove-next id ref m = elim (Bool-cases (is_ref (lookup id m.sessions) ref)) [
  | inl e ↦ rw e refl
  | inr e ↦ rw e refl
]

remove-heap : (id ref : ℕ) (m : Manager) → (remove id ref m).heap ≡ m.heap
unfolding remove
remove-heap id ref m = elim (Bool-cases (is_ref (lookup id m.sessions) ref)) [
  | inl e ↦ rw e refl
  | inr e ↦ rw e refl
]

remove-Later : (id ref : ℕ) (m : Manager) → Later m (remove id ref m)
remove-Later id ref m = same-Later (remove-next id ref m) (remove-heap id ref m)

-- A step that removes an entry, by a task that neither finishes nor completes a session.
remove-Advanced :
    (m : Manager) (p : ℕ → Bool) (t : Task) (ts : List Task) (id ref : ℕ)
    → Coherent m
    → ref < m.next
    → (m.heap ref).finished ≡ true
    → ((q : ℕ → Bool) → Kept m p (remove id ref m) q → AllOk (remove id ref m) q ts)
    → ((r : ℕ) → (finishes r t ≡ false) × (completes r t ≡ false))
    → Advanced m p t ts (remove id ref m)
remove-Advanced m p t ts id ref c made done oks none_of = record {
  coherent = remove-Coherent id ref m made done c;
  later = remove-Later id ref m;
  oks = oks;
  kept = λ r h. let off = (none_of r).0 in rw (remove-heap id ref m) (ground arith);
  owes = λ r b h. let off = (none_of r).1 in rw (remove-heap id ref m) (λ g. ground (arith, h));
  same_next = remove-next id ref m;
}

drained-Good :
    (m : Manager) (p : ℕ → Bool) (sessions : List (ℕ × ℕ))
    → Coherent m
    → Good m p (drain_waiting []) (elim sessions [ [] ↦ some ([], m) | s ∷ l ↦ none ])
drained-Good m p [] c =
    keep-Advanced m p (drain_waiting []) [] c (λ q k. tt) (λ r. refl) (λ r b h. h)
drained-Good m p (s ∷ l) c = tt

pub advance-Good :
    (m : Manager) (p : ℕ → Bool) (t : Task) → Coherent m → Ok m p t → Good m p t (advance t m)
unfolding advance update
advance-Good m p (claiming id ref metadata) c made =
    if-Good m p (claiming id ref metadata) (may_attach metadata (m.heap ref)) _ _
      (λ e.
        let fit = c.fits ref made in
        let live = may_attach-unfinished metadata (m.heap ref) e in
        update-Advanced m p (claiming id ref metadata) (pumping id ref ∷ []) ref
          (record (m.heap ref) { attached = true; armed = false }) c made
          (record { listed = fit.listed; completed = fit.completed; closed = λ h g. cc })
          (record {
            config = refl;
            finished = λ h. h;
            attached = λ h. refl;
            complete = λ h. h;
            fixed = λ h. cc;
          })
          (λ q. (made, tt)) (λ r off. (refl, refl)) (λ h. ground arith)
          (λ b h g. ground (arith, (==_iff ref ref).1 refl)))
      (λ e. keep-Advanced m p (claiming id ref metadata) [] c (λ q k. tt) (λ r. refl) (λ r b h. h))
advance-Good m p (pumping id ref) c made =
    keep-Advanced m p (pumping id ref) (finishing ref (end_attachment id) ∷ []) c
      (λ q k. (made, tt)) (λ r. refl) (λ r b h g. ground (arith, h g))
advance-Good m p (finishing ref k) c made =
    let fit = c.fits ref made in
    let s : Session = record (m.heap ref) { finished = true; armed = false } in
    update-Advanced m p (finishing ref k) (closing ref (m.heap ref).attached k ∷ []) ref s c made
      (record { listed = λ f. cc; completed = λ h. refl; closed = fit.closed })
      (record {
        config = refl;
        finished = λ h. refl;
        attached = λ h. h;
        complete = λ h. h;
        fixed = λ h. refl;
      })
      (λ q. (((made, rw (==_same ref) refl), rw (==_same ref) refl), tt))
      (λ r off. finishing-elsewhere r ref k off) (λ h. refl)
      (λ b h g.
        finishing-owed ref k (m.heap ref).finished (m.heap ref).attached (m.heap ref).complete b h)
advance-Good m p (closing ref attached k) c ((made, done), same) =
    let fit = c.fits ref made in
    if-Good m p (closing ref attached k) (m.heap ref).closed _ _
      (λ e.
        keep-Advanced m p (closing ref attached k) (after_closing ref k) c
          (λ q j. after-Ok m q ref k made done) (λ r. refl)
          (λ r b h g.
            closed-owed r ref attached k (m.heap r).complete b
              (λ at off. rw ((==_iff r ref).0 at) (fit.closed e (same ∙ off))) (h g)))
      (λ e.
        update-Advanced m p (closing ref attached k) (after_closing ref k) ref
          (close_session attached (m.heap ref)) c made
          (record { listed = λ f. cc; completed = λ h. done; closed = λ h g. ground (arith, same) })
          (record {
            config = refl;
            finished = λ h. h;
            attached = λ h. h;
            complete = λ h. ground arith;
            fixed = λ h. refl;
          })
          (λ q.
            after-Ok (update ref (close_session attached (m.heap ref)) m) q ref k made
              (rw (==_same ref) done))
          (λ r off. (refl, closing-elsewhere r ref attached k off)) (λ h. ground arith)
          (λ b h g. close-owed ref attached k (m.heap ref).complete b (h g)))
advance-Good m p (expiring id ref) c made =
    let fit = c.fits ref made in
    if-Good m p (expiring id ref) ((m.heap ref).finished || (m.heap ref).attached) _ _
      (λ e. keep-Advanced m p (expiring id ref) [] c (λ q k. tt) (λ r. refl) (λ r b h. h))
      (λ e.
        update-Advanced m p (expiring id ref) (closing ref false (drop_unattached id) ∷ []) ref
          (record (m.heap ref) { finished = true }) c made
          (record { listed = λ f. cc; completed = λ h. refl; closed = fit.closed })
          (record {
            config = refl;
            finished = λ h. refl;
            attached = λ h. h;
            complete = λ h. h;
            fixed = λ h. refl;
          })
          (λ q. (((made, rw (==_same ref) refl), rw (==_same ref) (ground arith)), tt))
          (λ r off. (refl, refl)) (λ h. refl) (λ b h g. ground (arith, ==_same ref)))
advance-Good m p (completing id ref) c (made, done) =
    update-Advanced m p (completing id ref) (removing id ref ∷ []) ref
      (record (m.heap ref) { complete = true }) c made
      (record { listed = λ f. cc; completed = λ h. done; closed = λ h g. refl })
      (record {
        config = refl;
        finished = λ h. h;
        attached = λ h. h;
        complete = λ h. refl;
        fixed = λ h. refl;
      })
      (λ q. ((made, rw (==_same ref) done), tt)) (λ r off. (refl, ==_false_sym r ref off))
      (λ h. ground arith) (λ b h g. refl)
advance-Good m p (waiting id ref) c (made, done) =
    if-Good m p (waiting id ref) (m.heap ref).complete _ _
      (λ e.
        keep-Advanced m p (waiting id ref) (removing id ref ∷ []) c (λ q k. ((made, done), tt))
          (λ r. refl) (λ r b h. h))
      (λ e. tt)
advance-Good m p (removing id ref) c (made, done) =
    remove-Advanced m p (removing id ref) [] id ref c made done (λ q k. tt) (λ r. (refl, refl))
advance-Good m p (drain_waiting []) c h = drained-Good m p m.sessions c
advance-Good m p (drain_waiting ((id, ref) ∷ left)) c (made, done, h) =
    if-Good m p (drain_waiting ((id, ref) ∷ left)) (m.heap ref).complete _ _
      (λ e.
        keep-Advanced m p (drain_waiting ((id, ref) ∷ left)) (drain_removing id ref left ∷ []) c
          (λ q k. (
            (
              (made, (c.fits ref made).completed e),
              Left-Later m m p q left (same-Later refl refl) k h,
            ),
            tt,
          ))
          (λ r. refl) (λ r b h. h))
      (λ e. tt)
advance-Good m p (drain_removing id ref left) c ((made, done), h) =
    remove-Advanced m p (drain_removing id ref left) (drain_waiting left ∷ []) id ref c made done
      (λ q k. (Left-Later m (remove id ref m) p q left (remove-Later id ref m) k h, tt))
      (λ r. (refl, refl))
