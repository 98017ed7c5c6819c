-- ===== src/Platform/Idempotency/Exclusive.antt =====
-- What holds of every history of requests with idempotency keys.
use monogo.Base.{
  ℕ, ◌≡◌, refl, sym, ap, subst, ◌∙◌, inl, inr, Bool, true, false, ◌&&◌, some, Text, eq_of_text_eq,
  List, [], ◌∷◌, All,
}
use monogo.Effects.{World, Net, Result, ok, err}
use monogo.Effects.Rules.{arrived, remote_rule}
use monogo.Platform.Idempotency.{
  Request, Headers, Config, Row, Keys, same_request, service_complete, delete_expired_keys,
  delete_expired,
}
use monogo.Platform.Idempotency.Covered.{
  Covered, Succeeds, Taken-Succeeds, Completes-Succeeds, cleaned-Succeeds, same-Succeeds,
}
use monogo.Platform.Idempotency.Arrivals.{Asks, FromRow, Arrived, handle-Arrived, MayTake}
use monogo.Platform.Idempotency.Middleware.{set_to}
use monogo.Platform.Idempotency.Statements.{Taken}
use monogo.Platform.Idempotency.Service.{service_complete-Completes}
use monogo.Platform.Idempotency.Middleware.{
  HttpRequest, Captured, Answer, Entry, passed, refused, answered, running, finish, response_of,
  write_replay,
}
use monogo.Platform.Idempotency.Runs.{
  Run, State, In, later, with_net, entered, Step, arrives, finishes, cleans, waits, Reach, here,
  next, at_start,
}
use monogo.Platform.Idempotency.Behind.{Apart, All-Behind, All-Covered, All-later, new_Covered}
use monogo.Platform.Idempotency.Stored.{
  Stored, Taken-Stored, Completes-Stored, same-Stored, cleaned-Stored,
}

three_eq : (a b d : Bool) → (a && b && d) ≡ true → (a ≡ true) × (b ≡ true) × (d ≡ true)
three_eq true true true h = (refl, refl, refl)
three_eq true true false h = cc
three_eq true false d h = cc
three_eq false b d h = cc

same_request-eq :
    (q : Request) (row : Row)
    → same_request q row ≡ true
    → (row.method ≡ q.method) × (row.path ≡ q.path) × (row.request_hash ≡ q.request_hash)
same_request-eq q row h =
    let (a, b, d) = three_eq _ _ _ h in
    (
      eq_of_text_eq row.method q.method a,
      eq_of_text_eq row.path q.path b,
      eq_of_text_eq row.request_hash q.request_hash d,
    )

module _ (digest : Text → Text) (uuid_text : ℕ → Text) (h : Headers) (c : Config) where
  -- A request was answered with what a handler wrote for one of the same scope, key, method, path and
  -- body (by its digest).
  pub record Repeated (finished : List (Request × Captured)) (x : HttpRequest × Answer)
      : Type 0 where
    pub request : Request
    pub captured : Captured
    pub among : In (request, captured) finished
    pub asks : Asks digest uuid_text h c x.0 request
    pub sent : x.1 ≡ write_replay (set_to "Idempotency-Key" request.key h) (response_of captured)

  pub record Exclusive (s : State) : Type 0 where
    pub covered : All (Covered c s.world.now s.world.database) s.runs
    pub stored : Stored s.finished s.world.database
    pub apart : Apart c s.runs
    pub replayed : All (Repeated s.finished) s.replays

  start-Exclusive : (now : ℕ) → Exclusive (at_start now)
  start-Exclusive now = record {
    covered = tt;
    stored = λ s k row response e f. cc;
    apart = tt;
    replayed = tt;
  }

  repeated-Asks :
      (r : HttpRequest) (p q : Request) (row : Row)
      → Asks digest uuid_text h c r p
      → same_request p row ≡ true
      → same_request q row ≡ true
      → q.scope ≡ p.scope
      → q.key ≡ p.key
      → Asks digest uuid_text h c r q
  repeated-Asks r p q row (body, e, hash, key, scope, method, path) a b es ek =
      let (pm, pp, ph) = same_request-eq p row a in
      let (qm, qp, qh) = same_request-eq q row b in
      (
        body,
        e,
        sym qh ∙ ph ∙ hash,
        ek ∙ key,
        scope ∙ ap some (sym es),
        sym qm ∙ pm ∙ method,
        sym qp ∙ pp ∙ path,
      )

  row-Repeated :
      (finished : List (Request × Captured)) (keys : Keys) (r : HttpRequest) (a : Answer)
      → Stored finished keys
      → FromRow digest uuid_text h c r keys a
      → Repeated finished (r, a)
  row-Repeated finished keys r a stored f =
      let from = stored f.request.scope f.request.key f.row f.response f.there f.is_completed in
      record {
        request = from.request;
        captured = from.captured;
        among = from.among;
        asks =
            repeated-Asks r f.request from.request f.row f.asks f.asked from.asked from.in_scope
              from.under_key;
        sent =
            f.sent
            ∙ ap (λ x. write_replay (set_to "Idempotency-Key" x h) f.response) (sym from.under_key)
            ∙ ap (write_replay (set_to "Idempotency-Key" from.request.key h)) from.told;
      }

  may_succeed :
      (now : ℕ) (before after : Keys)
      → MayTake digest uuid_text h c now before after
      → Succeeds now before after
  may_succeed now before after (inl same) = same-Succeeds now before after same
  may_succeed now before after (inr (q, t)) = Taken-Succeeds c q now before after t

  may_store :
      (now : ℕ) (before after : Keys) (finished : List (Request × Captured))
      → MayTake digest uuid_text h c now before after
      → Stored finished before
      → Stored finished after
  may_store now before after finished (inl same) = same-Stored before after finished same
  may_store now before after finished (inr (q, t)) = Taken-Stored c q now before after finished t

  Covered-at :
      (now : ℕ) (before : Keys) (runs : List Run) (v : World Keys (Unit {0}))
      → v.now ≡ now
      → Succeeds now before v.database
      → All (Covered c now before) runs
      → All (Covered c v.now v.database) runs
  Covered-at now before runs v t s a =
      subst (λ n. All (Covered c n v.database) runs) (sym t)
        (All-Covered c now before v.database runs s a)

  kept-Exclusive :
      (s : State) (v : World Keys (Unit {0}))
      → v.now ≡ s.world.now
      → MayTake digest uuid_text h c s.world.now s.world.database v.database
      → Exclusive s
      → Exclusive (record s { world = v })
  kept-Exclusive s v t m x = record {
    covered =
        Covered-at s.world.now s.world.database s.runs v t
          (may_succeed s.world.now s.world.database v.database m) x.covered;
    stored = may_store s.world.now s.world.database v.database s.finished m x.stored;
    apart = x.apart;
    replayed = x.replayed;
  }

  answered-Exclusive :
      (s : State) (v : World Keys (Unit {0})) (r : HttpRequest) (a : Answer)
      → v.now ≡ s.world.now
      → v.database ≡ s.world.database
      → FromRow digest uuid_text h c r s.world.database a
      → Exclusive s
      → Exclusive (record s { world = v; replays = (r, a) ∷ s.replays })
  answered-Exclusive s v r a t d f x =
      let y = kept-Exclusive s v t (inl d) x in
      record {
        covered = y.covered;
        stored = y.stored;
        apart = y.apart;
        replayed = (row-Repeated s.finished s.world.database r a x.stored f, x.replayed);
      }

  running-Exclusive :
      (s : State) (v : World Keys (Unit {0})) (q : Request) (until : ℕ)
      → v.now ≡ s.world.now
      → Taken c q s.world.now s.world.database v.database
      → Exclusive s
      → Exclusive (record s {
        world = v;
        runs = (record { request = q; until = until; began = v.now }) ∷ s.runs;
      })
  running-Exclusive s v q until t taken x =
      let y = kept-Exclusive s v t (inr (q, taken)) x in
      let now_taken : Taken c q v.now s.world.database v.database =
        subst (λ n. Taken c q n s.world.database v.database) (sym t) taken in
      let still : All (Covered c v.now s.world.database) s.runs =
        subst (λ n. All (Covered c n s.world.database) s.runs) (sym t) x.covered in
      record {
        covered = (new_Covered c q v.now until s.world.database v.database now_taken, y.covered);
        stored = y.stored;
        apart = (
          All-Behind c q v.now until s.world.database v.database s.runs now_taken still,
          x.apart,
        );
        replayed = x.replayed;
      }

  entered-Exclusive :
      (s : State) (net : List Net) (r : HttpRequest) (e : Result Entry) (v : World Keys (Unit {0}))
      → Exclusive s
      → Arrived digest uuid_text h c r (with_net net s.world) e v
      → Exclusive (entered r e v s)
  entered-Exclusive s net r (err e) v x (t, m) = kept-Exclusive s v t m x
  entered-Exclusive s net r (ok passed) v x (t, m) = kept-Exclusive s v t m x
  entered-Exclusive s net r (ok (refused e)) v x (t, m) = kept-Exclusive s v t m x
  entered-Exclusive s net r (ok (answered a)) v x (t, (d, f)) = answered-Exclusive s v r a t d f x
  entered-Exclusive s net r (ok (running q until)) v x (t, (l, taken, asks)) =
      running-Exclusive s v q until t taken x

  All-Repeated :
      (y : Request × Captured) (finished : List (Request × Captured))
      (xs : List (HttpRequest × Answer))
      → All (Repeated finished) xs
      → All (Repeated (y ∷ finished)) xs
  All-Repeated y finished [] a = tt
  All-Repeated y finished (x ∷ xs) (a, as_before) = (
    record {
      request = a.request;
      captured = a.captured;
      among = later a.among;
      asks = a.asks;
      sent = a.sent;
    },
    All-Repeated y finished xs as_before,
  )

  finished-Exclusive :
      (s : State) (net : List Net) (q : Request) (until : ℕ) (captured : Captured)
      → Exclusive s
      → Exclusive (record s {
        world = (finish digest uuid_text h q until captured (with_net net s.world)).1;
        finished = (q, captured) ∷ s.finished;
      })
  unfolding finish
  finished-Exclusive s net q until captured x =
      let w = with_net net s.world in
      let v = (service_complete q until (response_of captured) w).1 in
      let (t, d) = service_complete-Completes q until (response_of captured) w in
      record {
        covered =
            Covered-at s.world.now s.world.database s.runs v t
              (Completes-Succeeds q (response_of captured) s.world.now s.world.database v.database
                d)
              x.covered;
        stored =
            Completes-Stored q captured s.world.now s.world.database v.database s.finished d
              x.stored;
        apart = x.apart;
        replayed = All-Repeated (q, captured) s.finished s.replays x.replayed;
      }

  Cleaned : State → World Keys (Unit {0}) → Type 0
  Cleaned s v = Exclusive (record s { world = v })

  Cleaned-Exclusive :
      (s : State) (net : List Net)
      → Exclusive s
      → Cleaned s (delete_expired_keys (with_net net s.world)).1
  unfolding delete_expired_keys Cleaned
  Cleaned-Exclusive s net x =
      let keys = delete_expired s.world.now s.world.database in
      let v = record (arrived (with_net net s.world)) { database = keys } in
      let gone : Exclusive (record s { world = v }) = record {
        covered =
            All-Covered c s.world.now s.world.database keys s.runs
              (cleaned-Succeeds s.world.now s.world.database) x.covered;
        stored = cleaned-Stored s.world.now s.world.database s.finished x.stored;
        apart = x.apart;
        replayed = x.replayed;
      } in
      let still = kept-Exclusive s (arrived (with_net net s.world)) refl (inl refl) x in
      remote_rule (λ r. Cleaned s) _ (with_net net s.world) gone still gone

  Step-Exclusive : {s t : State} → Step digest uuid_text h c s t → Exclusive s → Exclusive t
  unfolding Cleaned
  Step-Exclusive (arrives s net r) x =
      entered-Exclusive s net r _ _ x (handle-Arrived digest uuid_text h c r (with_net net s.world))
  Step-Exclusive (finishes s net run captured among) x =
      finished-Exclusive s net run.request run.until captured x
  Step-Exclusive (cleans s net) x = Cleaned-Exclusive s net x
  Step-Exclusive (waits s d) x = record {
    covered = All-later c s.world.now d s.world.database s.runs x.covered;
    stored = x.stored;
    apart = x.apart;
    replayed = x.replayed;
  }

  Reach-Exclusive :
      (now : ℕ) {s : State} → Reach digest uuid_text h c (at_start now) s → Exclusive s
  Reach-Exclusive now here = start-Exclusive now
  Reach-Exclusive now (next r st) = Step-Exclusive st (Reach-Exclusive now r)

  -- However requests with idempotency keys arrive, run and are finished, over any number of servers and
  -- under any network faults, with the table cleaned at any time: of two runs of handlers under one
  -- scope and key the later begins only when the lock of the earlier has run out, and every answer that
  -- stands in for a run is the one that a handler wrote for a request of the same scope, key, method, path
  -- and digest of the body.
  pub Reach-Once :
      (now : ℕ) (s : State)
      → Reach digest uuid_text h c (at_start now) s
      → Apart c s.runs × All (Repeated s.finished) s.replays
  Reach-Once now s r = let x = Reach-Exclusive now r in (x.apart, x.replayed)
