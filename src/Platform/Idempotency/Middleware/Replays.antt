-- ===== src/Platform/Idempotency/Middleware/Replays.antt =====
-- An answer that is sent again.
use monogo.Base.{
  ℕ, ◌≡◌, ◌≢◌, ◌⊎◌, inl, inr, eq_of_text_eq, Bool-cases, refl, ap, ◌∙◌, Bool, true, false, ◌||◌, [],
  ◌∷◌, ◌++◌, Text, codes, is_empty, text_eq, if◌then◌else◌,
}
use mathlib.Core.List.{append-nil}
use monogo.Platform.Idempotency.{Headers}
use monogo.Platform.Idempotency.Middleware.{
  Captured, Answer, response_of, replay_headers, write_replay, write_buffered, excluded, header_get,
  first_value, set_to, add_all,
}

-- The two answers agree: in status and body, in all headers but those that are left out of a replay and
-- the mark of one, and in the content type where the handler set one and nothing before it did.
pub record Agree (h : Headers) (c : Captured) (again first : Answer) : Type 0 where
  pub same_status : again.status ≡ first.status
  pub same_body : again.body ≡ first.body
  pub same_headers :
      (name : Text)
      → name ≢ codes "Connection"
      → name ≢ codes "Content-Length"
      → name ≢ codes "Content-Type"
      → name ≢ codes "Set-Cookie"
      → name ≢ codes "Transfer-Encoding"
      → name ≢ codes "Idempotency-Replayed"
      → again.headers name ≡ first.headers name
  pub same_type :
      (type_char : ℕ) (rest : Text)
      → h (codes "Content-Type") ≡ []
      → c.header (codes "Content-Type") ≡ (type_char ∷ rest) ∷ []
      → again.headers (codes "Content-Type") ≡ first.headers (codes "Content-Type")
  pub left_out :
      (name : Text)
      → (name ≡ codes "Connection")
        ⊎ (name ≡ codes "Content-Length")
        ⊎ (name ≡ codes "Set-Cookie")
        ⊎ (name ≡ codes "Transfer-Encoding")
      → again.headers name ≡ h name
  pub marked : again.headers (codes "Idempotency-Replayed") ≡ codes "true" ∷ []

-- The headers of a replay, short of its mark.
abbrev typed : Text → Headers → Headers
typed content_type all =
    if is_empty content_type then all else set_to "Content-Type" content_type all

untyped :
    (content_type : Text) (all : Headers) (name : Text)
    → text_eq name (codes "Content-Type") ≡ false
    → typed content_type all name ≡ all name
untyped [] all name e = refl
untyped (t ∷ rest) all name e = rw e refl

or_false : (a b : Bool) → (a || b) ≡ false → (a ≡ false) × (b ≡ false)
or_false true b h = cc
or_false false b h = (refl, h)

excluded-type : (name : Text) → excluded name ≡ false → text_eq name (codes "Content-Type") ≡ false
excluded-type name e =
    let past_connection = or_false _ _ e in
    let past_length = or_false _ _ past_connection.1 in (or_false _ _ past_length.1).0

others-headers :
    (h : Headers) (c : Captured) (name : Text)
    → excluded name ≡ false
    → text_eq name (codes "Idempotency-Replayed") ≡ false
    → (write_replay h (response_of c)).headers name ≡ (write_buffered h c).headers name
unfolding write_replay response_of write_buffered replay_headers
others-headers h c name e n =
    ap
      (λ b.
        if b
        then codes "true" ∷ []
        else typed (header_get c.header "Content-Type") (add_all h (replay_headers c.header)) name)
      n
    ∙ untyped (header_get c.header "Content-Type") (add_all h (replay_headers c.header)) name
        (excluded-type name e)
    ∙ ap (λ b. h name ++ (if b then [] else c.header name)) e

typed_as :
    (content_type : Text) (all : Headers) (t : ℕ) (rest : Text)
    → content_type ≡ t ∷ rest
    → typed content_type all (codes "Content-Type") ≡ (t ∷ rest) ∷ []
unfolding text_eq
typed_as content_type all t rest e = rw e refl

type-headers :
    (h : Headers) (c : Captured) (t : ℕ) (rest : Text)
    → h (codes "Content-Type") ≡ []
    → c.header (codes "Content-Type") ≡ (t ∷ rest) ∷ []
    → (write_replay h (response_of c)).headers (codes "Content-Type")
      ≡ (write_buffered h c).headers (codes "Content-Type")
unfolding write_replay response_of write_buffered replay_headers text_eq
type-headers h c t rest e f =
    typed_as (header_get c.header "Content-Type") (add_all h (replay_headers c.header)) t rest
      (ap first_value f)
    ∙ rw e (rw f refl)

text_neq : (s t : Text) → s ≢ t → text_eq s t ≡ false
text_neq s t n = elim (Bool-cases (text_eq s t)) [
  | inl e ↦ absurd (n (eq_of_text_eq s t e))
  | inr e ↦ e
]

kept :
    (name : Text)
    → name ≢ codes "Connection"
    → name ≢ codes "Content-Length"
    → name ≢ codes "Content-Type"
    → name ≢ codes "Set-Cookie"
    → name ≢ codes "Transfer-Encoding"
    → excluded name ≡ false
kept name n1 n2 n3 n4 n5 = rw (text_neq name _ n1) (
    rw (text_neq name _ n2)
      (rw (text_neq name _ n3) (rw (text_neq name _ n4) (rw (text_neq name _ n5) refl))))

dropped :
    (h : Headers) (c : Captured) (name : Text)
    → excluded name ≡ true
    → text_eq name (codes "Content-Type") ≡ false
    → text_eq name (codes "Idempotency-Replayed") ≡ false
    → (write_replay h (response_of c)).headers name ≡ h name
unfolding write_replay response_of replay_headers
dropped h c name e t n =
    ap
      (λ b.
        if b
        then codes "true" ∷ []
        else typed (header_get c.header "Content-Type") (add_all h (replay_headers c.header)) name)
      n
    ∙ untyped (header_get c.header "Content-Type") (add_all h (replay_headers c.header)) name t
    ∙ ap (λ b. h name ++ (if b then [] else c.header name)) e
    ∙ append-nil (h name)

dropped-headers :
    (h : Headers) (c : Captured) (name : Text)
    → (name ≡ codes "Connection")
      ⊎ (name ≡ codes "Content-Length")
      ⊎ (name ≡ codes "Set-Cookie")
      ⊎ (name ≡ codes "Transfer-Encoding")
    → (write_replay h (response_of c)).headers name ≡ h name
unfolding text_eq
dropped-headers h c name k = elim k [
  | inl e ↦ rw e (dropped h c (codes "Connection") refl refl refl)
  | inr k ↦ elim k [
    | inl e ↦ rw e (dropped h c (codes "Content-Length") refl refl refl)
    | inr k ↦ elim k [
      | inl e ↦ rw e (dropped h c (codes "Set-Cookie") refl refl refl)
      | inr e ↦ rw e (dropped h c (codes "Transfer-Encoding") refl refl refl)
    ]
  ]
]

-- A handler's answer that is sent again agrees with the one that was sent at first, in its status, its
-- body and its headers but for Connection, Content-Length, Set-Cookie and Transfer-Encoding, of which the
-- replay brings none of its own, and it is marked as a replay; its content type stays too if it has one
-- and none was set before.
pub write_replay-Agree :
    (h : Headers) (c : Captured) → Agree h c (write_replay h (response_of c)) (write_buffered h c)
unfolding write_replay response_of write_buffered text_eq
write_replay-Agree h c = record {
  same_status = refl;
  same_body = refl;
  same_headers = λ name n1 n2 n3 n4 n5 n6.
      others-headers h c name (kept name n1 n2 n3 n4 n5) (text_neq name _ n6);
  left_out = dropped-headers h c;
  same_type = type-headers h c;
  marked = refl;
}
