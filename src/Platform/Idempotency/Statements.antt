-- ===== src/Platform/Idempotency/Statements.antt =====
-- What the statements on idempotency keys do to the table.
use monogo.Base.{
  ℕ, ◌+◌, ◌≤◌, ◌≡◌, refl, ◌⊎◌, inl, inr, Bool, true, false, ◌&&◌, Option, none, some, Text, ltb,
  leb, leb→le, arith, Bool-cases, Option-cases,
}
use monogo.Platform.Idempotency.{
  Request, Response, Config, processing, completed, Row, Keys, write_row, same_request,
  is_processing, is_sound, storable, Reply, returning, nothing, violation, store, claimed_row,
  claimable, claim_over, claim_idempotency_key, completable, complete_over,
  complete_idempotency_key,
}

pub and_true : (a b : Bool) → (a && b) ≡ true → (a ≡ true) × (b ≡ true)
and_true true b h = (refl, h)
and_true false b h = cc

-- The row may give way to another claim.
abbrev pub Lapsed : ℕ → Row → Type 0
Lapsed now row =
    (row.expires_at ≤ now) ⊎ ((is_processing row.status ≡ true) × (row.locked_until ≤ now))

abbrev pub Free : ℕ → Option Row → Type 0
Free now none = Unit {0}
Free now (some row) = Lapsed now row

-- The table has a new row for the key of the request, over one that had lapsed.
pub record Taken (c : Config) (q : Request) (now : ℕ) (before after : Keys) : Type 0 where
  pub row : Row
  pub free : Free now (before q.scope q.key)
  pub fresh : row.status ≡ processing
  pub locked : row.locked_until ≡ now + c.lock_ttl
  pub lives : row.locked_until ≤ row.expires_at
  pub written : after ≡ write_row q.scope q.key row before

abbrev StoredAt : Text → Text → Row → Keys → Reply × Keys → Type 0
StoredAt scope key row before p =
    ((p.0 ≡ returning row) × (is_sound row ≡ true) × (p.1 ≡ write_row scope key row before))
    ⊎ ((p.0 ≡ violation) × (p.1 ≡ before))

store-StoredAt :
    (scope key : Text) (row : Row) (keys : Keys)
    → StoredAt scope key row keys (store scope key row keys)
store-StoredAt scope key row keys = elim (Bool-cases (is_sound row)) [
  | inl e ↦ rw e (inl (refl, refl, refl))
  | inr e ↦ rw e (inr (refl, refl))
]

is_sound-lives : (row : Row) → is_sound row ≡ true → row.locked_until ≤ row.expires_at
is_sound-lives row h =
    let (a, b) = and_true _ (storable row.status) h in
    let (x, y) = and_true (ltb row.created_at row.expires_at) _ a in ground arith

-- What a claim's statement says and does.
abbrev pub Claims : Config → Request → ℕ → Keys → Reply × Keys → Type 0
Claims c q now before p =
    ((row : Row) × (p.0 ≡ returning row)
      × (row.locked_until ≡ now + c.lock_ttl)
      × Taken c q now before p.1)
    ⊎ ((p.0 ≡ violation) × (p.1 ≡ before))
    ⊎ ((p.0 ≡ nothing) × (p.1 ≡ before))

first_two : (a b d : Bool) → (a && b && d) ≡ true → (a ≡ true) × (b ≡ true)
first_two true true d h = (refl, refl)
first_two true false d h = cc
first_two false b d h = cc

claimable-Lapsed : (q : Request) (now : ℕ) (row : Row) → claimable q now row ≡ true → Lapsed now row
claimable-Lapsed q now row h = elim (Bool-cases (leb row.expires_at now)) [
  | inl e ↦ inl (leb→le row.expires_at now e)
  | inr e ↦
      let (a, b) =
        first_two (is_processing row.status) (leb row.locked_until now) (same_request q row)
          (rw e at h) in
      inr (a, leb→le row.locked_until now b)
]

stored-Claims :
    (c : Config) (q : Request) (now created_at : ℕ) (keys : Keys)
    → Free now (keys q.scope q.key)
    → Claims c q now keys (
        store q.scope q.key (claimed_row q (now + c.lock_ttl) (now + c.record_ttl) created_at) keys)
stored-Claims c q now created_at keys free =
    let row = claimed_row q (now + c.lock_ttl) (now + c.record_ttl) created_at in
    elim (store-StoredAt q.scope q.key row keys) [
      | inl (said, sound, written) ↦ inl (
        row,
        said,
        refl,
        record {
          row = row;
          free = free;
          fresh = refl;
          locked = refl;
          lives = is_sound-lives row sound;
          written = written;
        },
      )
      | inr (said, same) ↦ inr (inl (said, same))
    ]

pub claim_idempotency_key-Claims :
    (c : Config) (q : Request) (now : ℕ) (keys : Keys)
    → Claims c q now keys (claim_idempotency_key q (now + c.lock_ttl) (now + c.record_ttl) now keys)
unfolding claim_idempotency_key
claim_idempotency_key-Claims c q now keys = elim (Option-cases (keys q.scope q.key)) [
  | inl e ↦ rw (e, claim_over) (stored-Claims c q now now keys (rw e tt))
  | inr (row, e) ↦ elim (Bool-cases (claimable q now row)) [
    | inl f ↦
        rw (e, claim_over)
          (rw f (stored-Claims c q now row.created_at keys (rw e (claimable-Lapsed q now row f))))
    | inr f ↦ rw (e, claim_over) (rw f (inr (inr (refl, refl))))
  ]
]

-- What `Service.Complete` does to the table: nothing, or the row of the request is completed.
pub record Completed (q : Request) (response : Response) (now : ℕ) (before after : Keys)
    : Type 0 where
  pub old : Row
  pub there : before q.scope q.key ≡ some old
  pub asked : same_request q old ≡ true
  pub completes :
      after
      ≡ write_row q.scope q.key
          (record old { status = completed response; locked_until = now })
          before

abbrev pub Completes : Request → Response → ℕ → Keys → Keys → Type 0
Completes q response now before after = (after ≡ before) ⊎ Completed q response now before after

store-Completes :
    (q : Request) (response : Response) (now : ℕ) (keys : Keys) (row : Row)
    → keys q.scope q.key ≡ some row
    → same_request q row ≡ true
    → Completes q response now keys
        (store q.scope q.key
          (record row { status = completed response; locked_until = now })
          keys).1
store-Completes q response now keys row at same =
    let next_row = record row { status = completed response; locked_until = now } in
    elim (store-StoredAt q.scope q.key next_row keys) [
      | inl (said, sound, written) ↦
          inr (record { old = row; there = at; asked = same; completes = written })
      | inr (said, kept) ↦ inl kept
    ]

first_of : (a b d e : Bool) → (a && b && d && e) ≡ true → a ≡ true
first_of true b d e h = refl
first_of false b d e h = cc

pub complete_idempotency_key-Completes :
    (q : Request) (until : ℕ) (response : Response) (now : ℕ) (keys : Keys)
    → Completes q response now keys (complete_idempotency_key q until response now keys).1
unfolding complete_idempotency_key
complete_idempotency_key-Completes q until response now keys =
    elim (Option-cases (keys q.scope q.key)) [
      | inl e ↦ rw (e, complete_over) (inl refl)
      | inr (row, e) ↦ elim (Bool-cases (completable q until row)) [
        | inl f ↦
            rw (e, complete_over)
              (rw f
                (store-Completes q response now keys row e (first_of (same_request q row) _ _ _ f)))
        | inr f ↦ rw (e, complete_over) (rw f (inl refl))
      ]
    ]
