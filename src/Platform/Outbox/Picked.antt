-- ===== src/Platform/Outbox/Picked.antt =====
-- A batch that is large enough is all that is pending.
use monogo.Base.{
  ℕ, suc, ◌≤◌, ◌≡◌, refl, sym, ap, subst, ◌∙◌, inl, inr, true, List, [], ◌∷◌, Option, none, some,
  Text, length, take, map, ◌==◌, arith, Bool-cases, All,
}
use monogo.Platform.Outbox.{
  Content, Event, Outbox, lock, locked_pair, lock_rows, pending, keep_pending, is_pending,
  insert_by, sort_by, claim_pending_events, earlier,
}
use monogo.Base.{zero}
use monogo.Platform.Outbox.Later.{In, first, later}
use monogo.Platform.Outbox.Claimed.{Stands, picked, picked-Stands}

length-insert_by :
    (x : ℕ × Event) (xs : List (ℕ × Event)) → length (insert_by x xs) ≡ suc (length xs)
unfolding insert_by
length-insert_by x [] = refl
length-insert_by x (y ∷ ys) = elim (Bool-cases (earlier x.1 y.1)) [
  | inl h ↦ rw h refl
  | inr h ↦ rw h (ap suc (length-insert_by x ys))
]

length-sort_by : (xs : List (ℕ × Event)) → length (sort_by xs) ≡ length xs
unfolding sort_by
length-sort_by [] = refl
length-sort_by (x ∷ xs) = length-insert_by x (sort_by xs) ∙ ap suc (length-sort_by xs)

length-keep_pending-le :
    (now id : ℕ) (o : Option Event) (rest : List (ℕ × Event))
    → length (keep_pending now id o rest) ≤ suc (length rest)
length-keep_pending-le now id none rest = omega arith
length-keep_pending-le now id (some e) rest = elim (Bool-cases (is_pending now e)) [
  | inl h ↦ rw h (omega arith)
  | inr h ↦ rw h (omega arith)
]

length-pending-le :
    (now : ℕ) (ids : List ℕ) (rows : ℕ → Option Event) → length (pending now ids rows) ≤ length ids
unfolding pending
length-pending-le now [] rows = omega arith
length-pending-le now (id ∷ ids) rows = omega (
  arith,
  length-keep_pending-le now id (rows id) (pending now ids rows),
  length-pending-le now ids rows,
)

take-whole {ℓ} : {A : Type ℓ} (n : ℕ) (xs : List A) → length xs ≤ n → take n xs ≡ xs
take-whole zero [] h = refl
take-whole (suc n) [] h = refl
take-whole zero (x ∷ xs) h = absurd (omega arith)
take-whole (suc n) (x ∷ xs) h = ap (λ t. x ∷ t) (take-whole n xs (omega arith))

inserted : (x : ℕ × Event) (xs : List (ℕ × Event)) → In x (insert_by x xs)
unfolding insert_by
inserted x [] = first
inserted x (y ∷ ys) = elim (Bool-cases (earlier x.1 y.1)) [
  | inl h ↦ rw h first
  | inr h ↦ rw h (later (inserted x ys))
]

In-insert_by : (x a : ℕ × Event) (xs : List (ℕ × Event)) → In a xs → In a (insert_by x xs)
unfolding insert_by
In-insert_by x a [] i = elim i [ ]
In-insert_by x a (y ∷ ys) first = elim (Bool-cases (earlier x.1 y.1)) [
  | inl h ↦ rw h (later first)
  | inr h ↦ rw h first
]
In-insert_by x a (y ∷ ys) (later i) = elim (Bool-cases (earlier x.1 y.1)) [
  | inl h ↦ rw h (later (later i))
  | inr h ↦ rw h (later (In-insert_by x a ys i))
]

In-sort_by : (a : ℕ × Event) (xs : List (ℕ × Event)) → In a xs → In a (sort_by xs)
unfolding sort_by
In-sort_by a [] i = elim i [ ]
In-sort_by a (x ∷ xs) first = inserted x (sort_by xs)
In-sort_by a (x ∷ xs) (later i) = In-insert_by x a (sort_by xs) (In-sort_by a xs i)

In-keep_pending :
    (now id : ℕ) (o : Option Event) (a : ℕ × Event) (rest : List (ℕ × Event))
    → In a rest
    → In a (keep_pending now id o rest)
In-keep_pending now id none a rest i = i
In-keep_pending now id (some e) a rest i = elim (Bool-cases (is_pending now e)) [
  | inl h ↦ rw h (later i)
  | inr h ↦ rw h i
]

In-pending :
    (now : ℕ) (ids : List ℕ) (rows : ℕ → Option Event) (id : ℕ) (e : Event)
    → In id ids
    → rows id ≡ some e
    → is_pending now e ≡ true
    → In (id, e) (pending now ids rows)
unfolding pending
In-pending now [] rows id e i r h = elim i [ ]
In-pending now (j ∷ ids) rows id e first r h = rw (r, keep_pending) (rw h first)
In-pending now (j ∷ ids) rows id e (later i) r h =
    In-keep_pending now j (rows j) (id, e) (pending now ids rows)
      (In-pending now ids rows id e i r h)

In-locked :
    (worker : Text) (now id : ℕ) (e : Event) (ps : List (ℕ × Event))
    → In (id, e) ps
    → In (id, lock worker now e) (map (locked_pair worker now) ps)
In-locked worker now id e [] i = elim i [ ]
In-locked worker now id e (p ∷ ps) first = first
In-locked worker now id e (p ∷ ps) (later i) = later (In-locked worker now id e ps i)

-- What a large batch has of the pending events.
pub In-claimed :
    (worker : Text) (batch_size now : ℕ) (o : Outbox) (id : ℕ) (e : Event)
    → In id o.ids
    → o.rows id ≡ some e
    → is_pending now e ≡ true
    → length o.ids ≤ batch_size
    → In (id, lock worker now e) (claim_pending_events worker batch_size now o).0
unfolding claim_pending_events
In-claimed worker batch_size now o id e i r h big =
    let all = sort_by (pending now o.ids o.rows) in
    let size : length all ≤ batch_size =
      omega
        (arith, length-sort_by (pending now o.ids o.rows), length-pending-le now o.ids o.rows) in
    In-locked worker now id e (take batch_size all) (
      subst (In (id, e)) (sym (take-whole batch_size all size))
        (In-sort_by (id, e) (pending now o.ids o.rows) (In-pending now o.ids o.rows id e i r h)))

lock_rows-none :
    (worker : Text) (now : ℕ) (ps : List (ℕ × Event)) (rows : ℕ → Option Event) (j : ℕ)
    → All (Stands rows) ps
    → rows j ≡ none
    → lock_rows worker now ps rows j ≡ none
unfolding lock_rows
lock_rows-none worker now [] rows j a h = h
lock_rows-none worker now ((id, e) ∷ ps) rows j (s, a) h = elim (Bool-cases (j == id)) [
  | inl k ↦
      let same : j ≡ id = ground arith in let clash : none ≡ some e = sym h ∙ ap rows same ∙ s in cc
  | inr k ↦ rw k (lock_rows-none worker now ps rows j a h)
]

pub claimed-none :
    (worker : Text) (batch_size now : ℕ) (o : Outbox) (id : ℕ)
    → o.rows id ≡ none
    → (claim_pending_events worker batch_size now o).1.rows id ≡ none
unfolding claim_pending_events
claimed-none worker batch_size now o id h =
    lock_rows-none worker now (picked batch_size now o) o.rows id (picked-Stands batch_size now o) h

-- A predicate on what events say goes over from the rows to what is claimed.
module _ (P : Content → Type 0) where
  locked_contents :
      (worker : Text) (now : ℕ) (rows : ℕ → Option Event) (ps : List (ℕ × Event))
      → ((id : ℕ) (e : Event) → rows id ≡ some e → P e.content)
      → All (Stands rows) ps
      → All (λ p. P p.1.content) (map (locked_pair worker now) ps)
  locked_contents worker now rows [] f a = tt
  locked_contents worker now rows ((id, e) ∷ ps) f (s, a) =
      (f id e s, locked_contents worker now rows ps f a)

  pub claimed_contents :
      (worker : Text) (batch_size now : ℕ) (o : Outbox)
      → ((id : ℕ) (e : Event) → o.rows id ≡ some e → P e.content)
      → All (λ p. P p.1.content) (claim_pending_events worker batch_size now o).0
  unfolding claim_pending_events
  claimed_contents worker batch_size now o f =
      locked_contents worker now o.rows (picked batch_size now o) f (picked-Stands batch_size now o)
