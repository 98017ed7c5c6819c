-- ===== src/Platform/Idempotency/Covered.antt =====
-- While the lock of a run lasts, its row keeps others off.
use monogo.Base.{
  ℕ, ◌+◌, ◌≤◌, ◌≡◌, refl, sym, ap, subst, ◌∙◌, ◌⊎◌, inl, inr, true, Option, none, some, Text,
  text_eq_refl, eq_of_text_eq, leb, leb→le, if◌then◌else◌, arith, Bool-cases, eq_of_some_eq,
}
use monogo.Platform.Idempotency.{
  Request, Response, Config, Row, Keys, same_key, write_row, is_processing, delete_expired,
  unexpired,
}
use monogo.Platform.Idempotency.Statements.{and_true, Lapsed, Free, Taken, Completes}
use monogo.Platform.Idempotency.Runs.{Run}

pub same_key-eq : (scope key s k : Text) → same_key scope key s k ≡ true → (scope ≡ s) × (key ≡ k)
same_key-eq scope key s k h =
    let (a, b) = and_true _ _ h in (eq_of_text_eq scope s a, eq_of_text_eq key k b)

pub write_row_same :
    (scope key : Text) (row : Row) (keys : Keys) → write_row scope key row keys scope key ≡ some row
write_row_same scope key row keys = rw (text_eq_refl scope) (rw (text_eq_refl key) refl)

-- The lock of a run is over, or its row stands and no other claim may take it before then.
abbrev pub Covered : Config → ℕ → Keys → Run → Type 0
Covered c now keys run =
    (run.began + c.lock_ttl ≤ now)
    ⊎ ((row : Row) × (keys run.request.scope run.request.key ≡ some row)
        × (run.began + c.lock_ttl ≤ row.expires_at)
        × (is_processing row.status ≡ true → run.began + c.lock_ttl ≤ row.locked_until))

-- A row in place of another keeps runs covered.
abbrev Successor : ℕ → Row → Option Row → Type 0
Successor now row none = Lapsed now row
Successor now row (some row') =
    Lapsed now row
    ⊎ ((row.expires_at ≤ row'.expires_at)
        × (is_processing row'.status ≡ true
            → (is_processing row.status ≡ true) × (row.locked_until ≤ row'.locked_until)))

abbrev pub Succeeds : ℕ → Keys → Keys → Type 0
Succeeds now before after =
    (s k : Text) (row : Row) → before s k ≡ some row → Successor now row (after s k)

pub Lapsed-over :
    (c : Config) (now began : ℕ) (row : Row)
    → began + c.lock_ttl ≤ row.expires_at
    → (is_processing row.status ≡ true → began + c.lock_ttl ≤ row.locked_until)
    → Lapsed now row
    → began + c.lock_ttl ≤ now
Lapsed-over c now began row a b (inl e) = omega arith
Lapsed-over c now began row a b (inr (p, l)) = let m = b p in omega arith

Successor-Covered :
    (c : Config) (now : ℕ) (after : Keys) (run : Run) (row : Row) (o : Option Row)
    → after run.request.scope run.request.key ≡ o
    → run.began + c.lock_ttl ≤ row.expires_at
    → (is_processing row.status ≡ true → run.began + c.lock_ttl ≤ row.locked_until)
    → Successor now row o
    → Covered c now after run
Successor-Covered c now after run row none e a b l = inl (Lapsed-over c now run.began row a b l)
Successor-Covered c now after run row (some row') e a b (inl l) =
    inl (Lapsed-over c now run.began row a b l)
Successor-Covered c now after run row (some row') e a b (inr (x, y)) =
    inr (row', e, omega arith, λ p. let (q, l) = y p in let m = b q in omega arith)

pub Succeeds-Covered :
    (c : Config) (now : ℕ) (before after : Keys) (run : Run)
    → Succeeds now before after
    → Covered c now before run
    → Covered c now after run
Succeeds-Covered c now before after run s (inl h) = inl h
Succeeds-Covered c now before after run s (inr (row, e, a, b)) =
    Successor-Covered c now after run row (after run.request.scope run.request.key) refl a b
      (s run.request.scope run.request.key row e)

same-Successor : (now : ℕ) (row : Row) (o : Option Row) → o ≡ some row → Successor now row o
same-Successor now row o e = rw e (inr (omega arith, λ p. (p, omega arith)))

pub same-Succeeds : (now : ℕ) (before after : Keys) → after ≡ before → Succeeds now before after
same-Succeeds now before after e s k row h =
    same-Successor now row (after s k) (ap (λ keys. keys s k) e ∙ h)

write-Succeeds :
    (now : ℕ) (scope key : Text) (row : Row) (before after : Keys)
    → after ≡ write_row scope key row before
    → ((old : Row) → before scope key ≡ some old → Successor now old (some row))
    → Succeeds now before after
write-Succeeds now scope key row before after e go s k old h =
    elim (Bool-cases (same_key scope key s k)) [
      | inl f ↦
          let (es, ek) = same_key-eq scope key s k f in
          let at : before scope key ≡ some old =
            ap (λ x. before x key) es ∙ ap (λ x. before s x) ek ∙ h in
          let there : after s k ≡ some row =
            ap (λ keys. keys s k) e ∙ ap (λ b. if b then some row else before s k) f in
          rw there (go old at)
      | inr f ↦
          let there : after s k ≡ before s k =
            ap (λ keys. keys s k) e ∙ ap (λ b. if b then some row else before s k) f in
          same-Successor now old (after s k) (there ∙ h)
    ]

pub Free-Lapsed :
    (now : ℕ) (o : Option Row) (row : Row) → Free now o → o ≡ some row → Lapsed now row
Free-Lapsed now none row h e = cc
Free-Lapsed now (some r) row h e = subst (Lapsed now) (eq_of_some_eq e) h

pub Taken-Succeeds :
    (c : Config) (q : Request) (now : ℕ) (before after : Keys)
    → Taken c q now before after
    → Succeeds now before after
Taken-Succeeds c q now before after t =
    write-Succeeds now q.scope q.key t.row before after t.written
      λ old e. inl (Free-Lapsed now (before q.scope q.key) old t.free e)

pub Completes-Succeeds :
    (q : Request) (response : Response) (now : ℕ) (before after : Keys)
    → Completes q response now before after
    → Succeeds now before after
Completes-Succeeds q response now before after (inl same) = same-Succeeds now before after same
Completes-Succeeds q response now before after (inr d) =
    write-Succeeds now q.scope q.key _ before after d.completes λ old e.
      let same : d.old ≡ old = eq_of_some_eq (sym d.there ∙ e) in
      inr (rw same (omega arith), λ p. cc)

unexpired-Successor : (now : ℕ) (row : Row) → Successor now row (unexpired now (some row))
unexpired-Successor now row = elim (Bool-cases (leb row.expires_at now)) [
  | inl e ↦ rw e (inl (leb→le row.expires_at now e))
  | inr e ↦ rw e (inr (omega arith, λ p. (p, omega arith)))
]

pub cleaned-Succeeds : (now : ℕ) (keys : Keys) → Succeeds now keys (delete_expired now keys)
unfolding delete_expired
cleaned-Succeeds now keys s k row e = rw e (unexpired-Successor now row)
