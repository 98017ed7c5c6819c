-- ===== src/Platform/Idempotency/Stored.antt =====
-- Where the responses in the table come from.
use monogo.Base.{
  ℕ, ◌≡◌, sym, ap, subst, ◌∙◌, inl, inr, true, Option, none, some, Text, leb, if◌then◌else◌,
  Bool-cases, List, ◌∷◌, eq_of_some_eq,
}
use monogo.Platform.Idempotency.{
  Request, Response, Config, processing, completed, Row, Keys, same_key, same_request,
  delete_expired, unexpired,
}
use monogo.Platform.Idempotency.Covered.{same_key-eq}
use monogo.Platform.Idempotency.Statements.{Taken, Completed, Completes}
use monogo.Platform.Idempotency.Middleware.{Captured, response_of}
use monogo.Platform.Idempotency.Runs.{In, first, later}

-- A response in the table was written by a handler, for the same request.
pub record Source (finished : List (Request × Captured)) (s k : Text) (row : Row)
    (response : Response) : Type 0 where
  pub request : Request
  pub captured : Captured
  pub among : In (request, captured) finished
  pub told : response ≡ response_of captured
  pub in_scope : request.scope ≡ s
  pub under_key : request.key ≡ k
  pub asked : same_request request row ≡ true

abbrev pub Stored : List (Request × Captured) → Keys → Type 0
Stored finished keys =
    (s k : Text) (row : Row) (response : Response)
    → keys s k ≡ some row
    → row.status ≡ completed response
    → Source finished s k row response

sourced_later :
    (x : Request × Captured) (finished : List (Request × Captured)) (s k : Text) (row : Row)
    (response : Response)
    → Source finished s k row response
    → Source (x ∷ finished) s k row response
sourced_later x finished s k row response a = record {
  request = a.request;
  captured = a.captured;
  among = later a.among;
  told = a.told;
  in_scope = a.in_scope;
  under_key = a.under_key;
  asked = a.asked;
}

pub Taken-Stored :
    (c : Config) (q : Request) (now : ℕ) (before after : Keys)
    (finished : List (Request × Captured))
    → Taken c q now before after
    → Stored finished before
    → Stored finished after
Taken-Stored c q now before after finished t stored s k row response at is_done =
    elim (Bool-cases (same_key q.scope q.key s k)) [
      | inl f ↦
          let here_now : after s k ≡ some t.row =
            ap (λ keys. keys s k) t.written ∙ ap (λ b. if b then some t.row else before s k) f in
          let same : t.row ≡ row = eq_of_some_eq (sym here_now ∙ at) in
          let not_done : processing ≡ completed response =
            sym t.fresh ∙ ap (λ x. x.status) same ∙ is_done in
          cc
      | inr f ↦
          let elsewhere : after s k ≡ before s k =
            ap (λ keys. keys s k) t.written ∙ ap (λ b. if b then some t.row else before s k) f in
          stored s k row response (sym elsewhere ∙ at) is_done
    ]

Completed-Stored :
    (q : Request) (captured : Captured) (now : ℕ) (before after : Keys)
    (finished : List (Request × Captured))
    → Completed q (response_of captured) now before after
    → Stored finished before
    → Stored ((q, captured) ∷ finished) after
Completed-Stored q captured now before after finished d stored s k row response at is_done =
    let row' = record d.old { status = completed (response_of captured); locked_until = now } in
    elim (Bool-cases (same_key q.scope q.key s k)) [
      | inl f ↦
          let (es, ek) = same_key-eq q.scope q.key s k f in
          let here_now : after s k ≡ some row' =
            ap (λ keys. keys s k) d.completes ∙ ap (λ b. if b then some row' else before s k) f in
          let same : row' ≡ row = eq_of_some_eq (sym here_now ∙ at) in
          let is_response : completed (response_of captured) ≡ completed response =
            ap (λ x. x.status) same ∙ is_done in
          record {
            request = q;
            captured = captured;
            among = first;
            told = cc;
            in_scope = es;
            under_key = ek;
            asked = subst (λ x. same_request q x ≡ true) same d.asked;
          }
      | inr f ↦
          let elsewhere : after s k ≡ before s k =
            ap (λ keys. keys s k) d.completes ∙ ap (λ b. if b then some row' else before s k) f in
          sourced_later (q, captured) finished s k row response
            (stored s k row response (sym elsewhere ∙ at) is_done)
    ]

pub Completes-Stored :
    (q : Request) (captured : Captured) (now : ℕ) (before after : Keys)
    (finished : List (Request × Captured))
    → Completes q (response_of captured) now before after
    → Stored finished before
    → Stored ((q, captured) ∷ finished) after
Completes-Stored q captured now before after finished (inl same) stored s k row response at
      is_done =
    sourced_later (q, captured) finished s k row response
      (stored s k row response (sym (ap (λ keys. keys s k) same) ∙ at) is_done)
Completes-Stored q captured now before after finished (inr d) stored s k row response at is_done =
    Completed-Stored q captured now before after finished d stored s k row response at is_done

pub same-Stored :
    (before after : Keys) (finished : List (Request × Captured))
    → after ≡ before
    → Stored finished before
    → Stored finished after
same-Stored before after finished e stored = subst (Stored finished) (sym e) stored

still_there : (now : ℕ) (o : Option Row) (row : Row) → unexpired now o ≡ some row → o ≡ some row
still_there now none row e = cc
still_there now (some r) row e = elim (Bool-cases (leb r.expires_at now)) [
  | inl f ↦ cc (rw f at e)
  | inr f ↦ rw f at e
]

pub cleaned-Stored :
    (now : ℕ) (keys : Keys) (finished : List (Request × Captured))
    → Stored finished keys
    → Stored finished (delete_expired now keys)
unfolding delete_expired
cleaned-Stored now keys finished stored s k row response at is_done =
    stored s k row response (still_there now (keys s k) row at) is_done
