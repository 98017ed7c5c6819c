-- ===== src/Platform/Idempotency/Behind.antt =====
-- Runs under one key keep apart while their locks last.
use monogo.Base.{ℕ, ◌+◌, ◌≤◌, ◌≡◌, ap, ◌∙◌, inl, inr, some, arith, List, [], ◌∷◌, All}
use monogo.Platform.Idempotency.{Request, Config, Keys}
use monogo.Platform.Idempotency.Covered.{
  Covered, Succeeds, Lapsed-over, Free-Lapsed, write_row_same, Succeeds-Covered,
}
use monogo.Platform.Idempotency.Statements.{Taken}
use monogo.Platform.Idempotency.Runs.{Run}

-- Of two runs for one key the later began when the lock of the earlier was over.
abbrev pub Behind : Config → Run → Run → Type 0
Behind c new old =
    new.request.scope ≡ old.request.scope
    → new.request.key ≡ old.request.key
    → old.began + c.lock_ttl ≤ new.began

abbrev pub Apart : Config → List Run → Type 0
Apart c [] = Unit {0}
Apart c (run ∷ runs) = All (Behind c run) runs × Apart c runs

past_lock :
    (c : Config) (q : Request) (now : ℕ) (before after : Keys) (old : Run)
    → Taken c q now before after
    → q.scope ≡ old.request.scope
    → q.key ≡ old.request.key
    → Covered c now before old
    → old.began + c.lock_ttl ≤ now
past_lock c q now before after old t es ek (inl h) = h
past_lock c q now before after old t es ek (inr (row, e, a, b)) =
    let at : before q.scope q.key ≡ some row =
      ap (λ x. before x q.key) es ∙ ap (λ x. before old.request.scope x) ek ∙ e in
    Lapsed-over c now old.began row a b (Free-Lapsed now (before q.scope q.key) row t.free at)

pub All-Behind :
    (c : Config) (q : Request) (now until : ℕ) (before after : Keys) (runs : List Run)
    → Taken c q now before after
    → All (Covered c now before) runs
    → All (Behind c (record { request = q; until = until; began = now })) runs
All-Behind c q now until before after [] t h = tt
All-Behind c q now until before after (run ∷ runs) t (h, hs) = (
  λ es ek. past_lock c q now before after run t es ek h,
  All-Behind c q now until before after runs t hs,
)

pub All-Covered :
    (c : Config) (now : ℕ) (before after : Keys) (runs : List Run)
    → Succeeds now before after
    → All (Covered c now before) runs
    → All (Covered c now after) runs
All-Covered c now before after [] s h = tt
All-Covered c now before after (run ∷ runs) s (h, hs) =
    (Succeeds-Covered c now before after run s h, All-Covered c now before after runs s hs)

later_Covered :
    (c : Config) (now d : ℕ) (keys : Keys) (run : Run)
    → Covered c now keys run
    → Covered c (now + d) keys run
later_Covered c now d keys run (inl h) = inl (omega arith)
later_Covered c now d keys run (inr h) = inr h

pub All-later :
    (c : Config) (now d : ℕ) (keys : Keys) (runs : List Run)
    → All (Covered c now keys) runs
    → All (Covered c (now + d) keys) runs
All-later c now d keys [] h = tt
All-later c now d keys (run ∷ runs) (h, hs) =
    (later_Covered c now d keys run h, All-later c now d keys runs hs)

pub new_Covered :
    (c : Config) (q : Request) (now until : ℕ) (before after : Keys)
    → Taken c q now before after
    → Covered c now after (record { request = q; until = until; began = now })
new_Covered c q now until before after t =
    let there : after q.scope q.key ≡ some t.row =
      ap (λ keys. keys q.scope q.key) t.written ∙ write_row_same q.scope q.key t.row before in
    inr (t.row, there, omega (arith, t.locked, t.lives), λ p. omega (arith, t.locked))
