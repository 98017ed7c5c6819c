-- ===== src/Platform/Idempotency/Arrivals.antt =====
-- What the middleware does with a request that arrives.
use monogo.Base.{
  ℕ, ◌+◌, ◌≡◌, refl, length, ◌⊎◌, inl, inr, true, ◌||◌, not, Option, none, some, Text, ltb,
  Bool-cases, trim_space, is_empty,
}
use monogo.Effects.{World, Result, ok, err}
use monogo.Platform.Idempotency.{
  Request, Response, Headers, Config, completed, Row, Keys, same_request, Claim, replay, lease,
  service_claim,
}
use monogo.Platform.Idempotency.Statements.{Taken}
use monogo.Platform.Idempotency.Service.{Answered, service_claim-Answered}
use monogo.Platform.Idempotency.Middleware.{
  HttpRequest, Answer, Entry, passed, refused, answered, running, handle, write_replay,
}
use monogo.Effects.{M}
use monogo.Platform.Idempotency.Middleware.{
  idempotency_scope, entry_of, claim_entry, with_body, with_scope, read_idempotent_body,
  mutation_method, byte_length, set_to, max_idempotent_request_body,
}

module _ (digest : Text → Text) (uuid_text : ℕ → Text) (h : Headers) (c : Config) where
  -- The request is what the middleware makes of an HTTP request.
  abbrev pub Asks : HttpRequest → Request → Type 0
  Asks r q =
      (body : Text) × (r.body ≡ some body)
      × (q.request_hash ≡ digest body)
      × (q.key ≡ trim_space r.idempotency_key)
      × (idempotency_scope digest uuid_text h r ≡ some q.scope)
      × (q.method ≡ r.method)
      × (q.path ≡ r.request_uri)

  -- The answer comes from the row of the request.
  pub record FromRow (r : HttpRequest) (keys : Keys) (a : Answer) : Type 0 where
    pub request : Request
    pub row : Row
    pub response : Response
    pub asks : Asks r request
    pub there : keys request.scope request.key ≡ some row
    pub is_completed : row.status ≡ completed response
    pub asked : same_request request row ≡ true
    pub sent : a ≡ write_replay (set_to "Idempotency-Key" request.key h) response

  abbrev pub MayTake : ℕ → Keys → Keys → Type 0
  MayTake now before after = (after ≡ before) ⊎ ((q : Request) × Taken c q now before after)

  abbrev pub Arrives :
      HttpRequest → World Keys (Unit {0}) → Result Entry → World Keys (Unit {0}) → Type 0
  Arrives r w (err e) v = MayTake w.now w.database v.database
  Arrives r w (ok passed) v = MayTake w.now w.database v.database
  Arrives r w (ok (refused e)) v = MayTake w.now w.database v.database
  Arrives r w (ok (answered a)) v = (v.database ≡ w.database) × FromRow r w.database a
  Arrives r w (ok (running q until)) v =
      (until ≡ w.now + c.lock_ttl) × Taken c q w.now w.database v.database × Asks r q

  abbrev pub Arrived :
      HttpRequest → World Keys (Unit {0}) → Result Entry → World Keys (Unit {0}) → Type 0
  Arrived r w e v = (v.now ≡ w.now) × Arrives r w e v

  entry-Arrived :
      (r : HttpRequest) (q : Request) (w : World Keys (Unit {0})) (claim : Result Claim)
      (v : World Keys (Unit {0}))
      → Asks r q
      → Answered c q w claim v
      → Arrived r w (ok (entry_of digest uuid_text h q claim)) v
  entry-Arrived r q w (err e) v asks (t, inl same) = (t, inl same)
  entry-Arrived r q w (err e) v asks (t, inr taken) = (t, inr (q, taken))
  entry-Arrived r q w (ok (replay response)) v asks (t, (row, same, at, is_done, asked)) = (
    t,
    (
      same,
      record {
        request = q;
        row = row;
        response = response;
        asks = asks;
        there = at;
        is_completed = is_done;
        asked = asked;
        sent = refl;
      },
    ),
  )
  entry-Arrived r q w (ok (lease until)) v asks (t, (l, taken)) = (t, (l, taken, asks))

  claim-Arrived :
      (r : HttpRequest) (q : Request) (w : World Keys (Unit {0}))
      → Asks r q
      → Arrived r w
          (claim_entry digest uuid_text h c q w).0
          (claim_entry digest uuid_text h c q w).1
  claim-Arrived r q w asks =
      entry-Arrived r q w (service_claim c q w).0 (service_claim c q w).1 asks
        (service_claim-Answered c q w)

  abbrev Handled : HttpRequest → World Keys (Unit {0}) → M Keys (Unit {0}) Entry → Type 0
  Handled r w m = Arrived r w (m w).0 (m w).1

  body-Arrived :
      (r : HttpRequest) (scope : Text) (w : World Keys (Unit {0})) (o : Option Text)
      → r.body ≡ o
      → idempotency_scope digest uuid_text h r ≡ some scope
      → Handled r w (
          with_body digest uuid_text h c r
            (trim_space r.idempotency_key)
            scope
            (read_idempotent_body o))
  unfolding read_idempotent_body
  body-Arrived r scope w none e f = (refl, inl refl)
  body-Arrived r scope w (some body) e f =
      elim (Bool-cases (ltb max_idempotent_request_body (length body))) [
        | inl big ↦ rw big (refl, inl refl)
        | inr small ↦ rw small (claim-Arrived r _ w (body, e, refl, refl, f, refl, refl))
      ]

  scope-Arrived :
      (r : HttpRequest) (w : World Keys (Unit {0})) (o : Option Text)
      → idempotency_scope digest uuid_text h r ≡ o
      → Handled r w (with_scope digest uuid_text h c r (trim_space r.idempotency_key) o)
  scope-Arrived r w none e = (refl, inl refl)
  scope-Arrived r w (some scope) e = body-Arrived r scope w r.body refl e

  pub handle-Arrived :
      (r : HttpRequest) (w : World Keys (Unit {0}))
      → Arrived r w (handle digest uuid_text h c r w).0 (handle digest uuid_text h c r w).1
  unfolding handle
  handle-Arrived r w =
      elim (Bool-cases
        (is_empty (trim_space r.idempotency_key) || not (mutation_method r.method))) [
          | inl e ↦ rw e (refl, inl refl)
          | inr e ↦ rw e (elim (Bool-cases (ltb 255 (byte_length (trim_space r.idempotency_key)))) [
            | inl f ↦ rw f (refl, inl refl)
            | inr f ↦ rw f (scope-Arrived r w (idempotency_scope digest uuid_text h r) refl)
          ])
        ]
