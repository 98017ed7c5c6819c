-- ===== src/Platform/Idempotency/Service.antt =====
-- What the service does to the table of idempotency keys, under any network faults.
use monogo.Base.{
  ℕ, ◌+◌, ◌≡◌, refl, sym, ap, ◌∙◌, ◌⊎◌, inl, inr, Bool, true, false, Option, none, some, Bool-cases,
}
use monogo.Errors.{sentinel, fault}
use monogo.Effects.{World, Result, ok, err, pure, remote}
use monogo.Effects.Rules.{arrived, bind_rule, remote_rule}
use monogo.Platform.Idempotency.{
  Request, Response, Config, Status, processing, completed, Row, Keys, same_request, Reply,
  returning, nothing, violation, claim_idempotency_key, complete_idempotency_key, Claim, replay,
  lease, claim_of, claim_result, service_claim, service_complete, after_complete, repository_claim,
  after_claim, found, get_idempotency_key, statement,
}
use monogo.Platform.Idempotency.Statements.{
  Taken, Claims, claim_idempotency_key-Claims, Completes, complete_idempotency_key-Completes,
}

-- What `Service.Claim` does, from the world `w` to the world `v`.
abbrev Unchanged : World Keys (Unit {0}) → World Keys (Unit {0}) → Type 0
Unchanged w v = v.database ≡ w.database

abbrev pub Answers :
    Config → Request → World Keys (Unit {0}) → Result Claim → World Keys (Unit {0}) → Type 0
Answers c q w (ok (lease until)) v =
    (until ≡ w.now + c.lock_ttl) × Taken c q w.now w.database v.database
Answers c q w (ok (replay response)) v =
    (row : Row) × (v.database ≡ w.database)
    × (w.database q.scope q.key ≡ some row)
    × (row.status ≡ completed response)
    × (same_request q row ≡ true)
Answers c q w (err e) v = (v.database ≡ w.database) ⊎ Taken c q w.now w.database v.database

abbrev pub Answered :
    Config → Request → World Keys (Unit {0}) → Result Claim → World Keys (Unit {0}) → Type 0
Answered c q w r v = (v.now ≡ w.now) × Answers c q w r v

-- What `Repository.Claim` does.
abbrev Found :
    Config → Request → World Keys (Unit {0}) → Result (Row × Bool) → World Keys (Unit {0}) → Type 0
Found c q w (ok (row, true)) v =
    (v.now ≡ w.now)
    × (row.locked_until ≡ w.now + c.lock_ttl)
    × Taken c q w.now w.database v.database
Found c q w (ok (row, false)) v =
    (v.now ≡ w.now) × (v.database ≡ w.database) × (w.database q.scope q.key ≡ some row)
Found c q w (err e) v =
    (v.now ≡ w.now) × ((v.database ≡ w.database) ⊎ Taken c q w.now w.database v.database)

-- The reply of the claim's statement.
abbrev Said :
    Config → Request → World Keys (Unit {0}) → Result Reply → World Keys (Unit {0}) → Type 0
Said c q w (ok (returning row)) v =
    (v.now ≡ w.now)
    × (row.locked_until ≡ w.now + c.lock_ttl)
    × Taken c q w.now w.database v.database
Said c q w (ok nothing) v = (v.now ≡ w.now) × (v.database ≡ w.database)
Said c q w (ok violation) v = (v.now ≡ w.now) × (v.database ≡ w.database)
Said c q w (err e) v =
    (v.now ≡ w.now) × ((v.database ≡ w.database) ⊎ Taken c q w.now w.database v.database)

Said-ok :
    (c : Config) (q : Request) (w v : World Keys (Unit {0})) (reply : Reply)
    → v.now ≡ w.now
    → Claims c q w.now w.database (reply, v.database)
    → Said c q w (ok reply) v
Said-ok c q w v (returning row) t (inl (new, said, locked, taken)) =
    let same : row ≡ new = cc in (t, ap (λ x. x.locked_until) same ∙ locked, taken)
Said-ok c q w v (returning row) t (inr (inl (said, same))) = cc
Said-ok c q w v (returning row) t (inr (inr (said, same))) = cc
Said-ok c q w v nothing t (inl (new, said, locked, taken)) = cc
Said-ok c q w v nothing t (inr (inl (said, same))) = (t, same)
Said-ok c q w v nothing t (inr (inr (said, same))) = (t, same)
Said-ok c q w v violation t (inl (new, said, locked, taken)) = cc
Said-ok c q w v violation t (inr (inl (said, same))) = (t, same)
Said-ok c q w v violation t (inr (inr (said, same))) = (t, same)

Said-err :
    (c : Config) (q : Request) (w v : World Keys (Unit {0})) (reply : Reply)
    → v.now ≡ w.now
    → Claims c q w.now w.database (reply, v.database)
    → Said c q w (err (sentinel fault)) v
Said-err c q w v reply t (inl (new, said, locked, taken)) = (t, inr taken)
Said-err c q w v reply t (inr (inl (said, same))) = (t, inl same)
Said-err c q w v reply t (inr (inr (said, same))) = (t, inl same)

abbrev claim_call : Config → Request → World Keys (Unit {0}) → Result Reply × World Keys (Unit {0})
claim_call c q w = statement (claim_idempotency_key q (w.now + c.lock_ttl) (w.now + c.record_ttl)) w

claim_call-Said :
    (c : Config) (q : Request) (w : World Keys (Unit {0}))
    → Said c q w (claim_call c q w).0 (claim_call c q w).1
claim_call-Said c q w =
    let claims = claim_idempotency_key-Claims c q w.now w.database in
    let p = claim_idempotency_key q (w.now + c.lock_ttl) (w.now + c.record_ttl) w.now w.database in
    let v = record (arrived w) { database = p.1 } in
    remote_rule (Said c q w) _ w (Said-ok c q w v p.0 refl claims) (refl, inl refl)
      (Said-err c q w v p.0 refl claims)

-- A row that was read.
abbrev Read : Request → World Keys (Unit {0}) → Result (Option Row) → World Keys (Unit {0}) → Type 0
Read q w (ok o) v = (v.now ≡ w.now) × (v.database ≡ w.database) × (w.database q.scope q.key ≡ o)
Read q w (err e) v = (v.now ≡ w.now) × (v.database ≡ w.database)

abbrev Got : Request → World Keys (Unit {0}) → Result Row → World Keys (Unit {0}) → Type 0
Got q w (ok row) v =
    (v.now ≡ w.now) × (v.database ≡ w.database) × (w.database q.scope q.key ≡ some row)
Got q w (err e) v = (v.now ≡ w.now) × (v.database ≡ w.database)

found-Got :
    (q : Request) (w : World Keys (Unit {0})) (o : Option Row) (v : World Keys (Unit {0}))
    → Read q w (ok o) v
    → Got q w (found o) v
found-Got q w none v (t, same, at) = (t, same)
found-Got q w (some row) v h = h

get-Found :
    (c : Config) (q : Request) (w v : World Keys (Unit {0}))
    → Said c q w (ok nothing) v
    → Found c q w (after_claim q nothing v).0 (after_claim q nothing v).1
unfolding get_idempotency_key
get-Found c q w v (t, same) =
    bind_rule (Got q w) (Found c q w) (get_idempotency_key q) v (λ row. pure (row, false))
      (bind_rule (Read q w) (Got q w) (remote (λ u. (u.database q.scope q.key, u))) v
        (λ o u. (found o, u))
        (remote_rule (Read q w) (λ u. (u.database q.scope q.key, u)) v
          (t, same, ap (λ db. db q.scope q.key) (sym same)) (t, same) (t, same))
        (λ e u h. h) (found-Got q w))
      (λ e u h. (h.0, inl h.1)) (λ row u h. h)

after_claim-Found :
    (c : Config) (q : Request) (w : World Keys (Unit {0})) (reply : Reply)
    (v : World Keys (Unit {0}))
    → Said c q w (ok reply) v
    → Found c q w (after_claim q reply v).0 (after_claim q reply v).1
after_claim-Found c q w (returning row) v h = h
after_claim-Found c q w nothing v h = get-Found c q w v h
after_claim-Found c q w violation v (t, same) = (t, inl same)

claim_of-Answered :
    (c : Config) (q : Request) (w v : World Keys (Unit {0})) (row : Row) (status : Status)
    → row.status ≡ status
    → v.now ≡ w.now
    → v.database ≡ w.database
    → w.database q.scope q.key ≡ some row
    → Answered c q w (claim_of q row status) v
claim_of-Answered c q w v row processing e t same at = (t, inl same)
claim_of-Answered c q w v row (completed response) e t same at =
    elim (Bool-cases (same_request q row)) [
      | inl f ↦ rw f (t, (row, same, at, e, f))
      | inr f ↦ rw f (t, inl same)
    ]

claim_result-Answered :
    (c : Config) (q : Request) (w v : World Keys (Unit {0})) (found : Row × Bool)
    → Found c q w (ok found) v
    → Answered c q w (claim_result q found) v
claim_result-Answered c q w v (row, true) (t, l, taken) = (t, (l, taken))
claim_result-Answered c q w v (row, false) (t, same, at) =
    claim_of-Answered c q w v row row.status refl t same at

pub service_claim-Answered :
    (c : Config) (q : Request) (w : World Keys (Unit {0}))
    → Answered c q w (service_claim c q w).0 (service_claim c q w).1
unfolding service_claim repository_claim
service_claim-Answered c q w =
    bind_rule (Found c q w) (Answered c q w)
      (repository_claim q (w.now + c.lock_ttl) (w.now + c.record_ttl)) w
      (λ found v. (claim_result q found, v))
      (bind_rule (Said c q w) (Found c q w)
        (statement (claim_idempotency_key q (w.now + c.lock_ttl) (w.now + c.record_ttl))) w
        (after_claim q) (claim_call-Said c q w) (λ e v h. h) (after_claim-Found c q w))
      (λ e v h. h) (λ found v h. claim_result-Answered c q w v found h)

abbrev Finished : Request → Response → World Keys (Unit {0}) → World Keys (Unit {0}) → Type 0
Finished q response w v = (v.now ≡ w.now) × Completes q response w.now w.database v.database

after_complete-Finished :
    (q : Request) (response : Response) (w : World Keys (Unit {0})) (reply : Reply)
    (v : World Keys (Unit {0}))
    → Finished q response w v
    → Finished q response w (after_complete reply v).1
after_complete-Finished q response w (returning row) v h = h
after_complete-Finished q response w nothing v h = h
after_complete-Finished q response w violation v h = h

pub service_complete-Completes :
    (q : Request) (until : ℕ) (response : Response) (w : World Keys (Unit {0}))
    → Finished q response w (service_complete q until response w).1
unfolding service_complete
service_complete-Completes q until response w =
    let p = complete_idempotency_key q until response w.now w.database in
    let done_so : Finished q response w (record (arrived w) { database = p.1 }) =
      (refl, complete_idempotency_key-Completes q until response w.now w.database) in
    bind_rule (λ r. Finished q response w) (λ r. Finished q response w)
      (statement (complete_idempotency_key q until response)) w after_complete
      (remote_rule (λ r. Finished q response w) _ w done_so (refl, inl refl) done_so) (λ e v h. h)
      (after_complete-Finished q response w)
