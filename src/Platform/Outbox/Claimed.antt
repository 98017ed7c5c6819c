-- ===== src/Platform/Outbox/Claimed.antt =====
-- What the claim of a batch does.
use monogo.Base.{
  ℕ, suc, ◌≡◌, refl, ap, zero, ◌∙◌, inl, inr, List, [], ◌∷◌, Option, none, some, Text, take, map,
  ◌==◌, arith, Bool-cases, All,
}
use monogo.Platform.Outbox.{
  Event, Outbox, lock, locked_pair, lock_rows, pending, keep_pending, is_pending, insert_by,
  sort_by, claim_pending_events, earlier,
}
use monogo.Platform.Outbox.Later.{Later, NotNew, AllLater, Keeps, Later-refl, NotNew-refl}

-- The row of the event still says what the event says.
abbrev pub HeldAs : ℕ × Event → Option Event → Type 0
HeldAs p none = ⊥
HeldAs p (some d) = d.content ≡ p.1.content

abbrev pub Held : Outbox → ℕ × Event → Type 0
Held o p = HeldAs p (o.rows p.0)

Later-HeldAs : (p : ℕ × Event) (d e : Option Event) → Later d e → HeldAs p d → HeldAs p e
Later-HeldAs p none e l h = absurd h
Later-HeldAs p (some d) none l h = absurd l
Later-HeldAs p (some d) (some e) l h = l.0 ∙ h

pub AllLater-Held : (o o' : Outbox) (p : ℕ × Event) → AllLater o o' → Held o p → Held o' p
AllLater-Held o o' p l = Later-HeldAs p (o.rows p.0) (o'.rows p.0) (l p.0)

pub All-Held :
    (o o' : Outbox) (ps : List (ℕ × Event)) → AllLater o o' → All (Held o) ps → All (Held o') ps
All-Held o o' [] l h = tt
All-Held o o' (p ∷ ps) l (h, hs) = (AllLater-Held o o' p l h, All-Held o o' ps l hs)

abbrev pub Stands : (ℕ → Option Event) → ℕ × Event → Type 0
Stands rows p = rows p.0 ≡ some p.1

kept-Stands :
    (now id : ℕ) (rows : ℕ → Option Event) (o : Option Event) (rest : List (ℕ × Event))
    → rows id ≡ o
    → All (Stands rows) rest
    → All (Stands rows) (keep_pending now id o rest)
kept-Stands now id rows none rest e a = a
kept-Stands now id rows (some d) rest e a = elim (Bool-cases (is_pending now d)) [
  | inl h ↦ rw h (e, a)
  | inr h ↦ rw h a
]

pending-Stands :
    (now : ℕ) (ids : List ℕ) (rows : ℕ → Option Event) → All (Stands rows) (pending now ids rows)
unfolding pending
pending-Stands now [] rows = tt
pending-Stands now (id ∷ ids) rows =
    kept-Stands now id rows (rows id) (pending now ids rows) refl (pending-Stands now ids rows)

module _ (P : ℕ × Event → Type 0) where
  insert_by-All : (x : ℕ × Event) (xs : List (ℕ × Event)) → P x → All P xs → All P (insert_by x xs)
  unfolding insert_by
  insert_by-All x [] p a = (p, tt)
  insert_by-All x (y ∷ ys) p (q, a) = elim (Bool-cases (earlier x.1 y.1)) [
    | inl h ↦ rw h (p, (q, a))
    | inr h ↦ rw h (q, insert_by-All x ys p a)
  ]

  sort_by-All : (xs : List (ℕ × Event)) → All P xs → All P (sort_by xs)
  unfolding sort_by
  sort_by-All [] a = tt
  sort_by-All (x ∷ xs) (p, a) = insert_by-All x (sort_by xs) p (sort_by-All xs a)

  take-All : (n : ℕ) (xs : List (ℕ × Event)) → All P xs → All P (take n xs)
  take-All zero xs a = tt
  take-All (suc n) [] a = tt
  take-All (suc n) (x ∷ xs) (p, a) = (p, take-All n xs a)

abbrev pub picked : ℕ → ℕ → Outbox → List (ℕ × Event)
picked batch_size now o = take batch_size (sort_by (pending now o.ids o.rows))

pub picked-Stands :
    (batch_size now : ℕ) (o : Outbox) → All (Stands o.rows) (picked batch_size now o)
picked-Stands batch_size now o =
    take-All (Stands o.rows) batch_size _
      (sort_by-All (Stands o.rows) _ (pending-Stands now o.ids o.rows))

-- A row that is locked or not is the row that it was.
lock-Later : (worker : Text) (now : ℕ) (e : Event) → Later (some e) (some (lock worker now e))
lock-Later worker now e = (refl, λ t h. h)

lock_rows-Later :
    (worker : Text) (now : ℕ) (ps : List (ℕ × Event)) (rows : ℕ → Option Event) (j : ℕ)
    → All (Stands rows) ps
    → Later (rows j) (lock_rows worker now ps rows j)
      × NotNew (rows j) (lock_rows worker now ps rows j)
unfolding lock_rows
lock_rows-Later worker now [] rows j a = (Later-refl (rows j), NotNew-refl (rows j))
lock_rows-Later worker now ((id, e) ∷ ps) rows j (h, a) = elim (Bool-cases (j == id)) [
  | inl k ↦
      let same : j ≡ id = ground arith in
      let there : rows j ≡ some e = ap rows same ∙ h in
      rw there (rw k ((refl, λ t z. z), (refl, λ t z. z)))
  | inr k ↦ rw k (lock_rows-Later worker now ps rows j a)
]

locked_pairs-Held :
    (worker : Text) (now : ℕ) (o : Outbox) (ps : List (ℕ × Event))
    → All (Stands o.rows) ps
    → All (Held o) (map (locked_pair worker now) ps)
locked_pairs-Held worker now o [] a = tt
locked_pairs-Held worker now o ((id, e) ∷ ps) (h, a) =
    (rw h refl, locked_pairs-Held worker now o ps a)

-- A claim publishes nothing, and what it hands over is what the rows say.
pub claim_pending_events-Keeps :
    (worker : Text) (batch_size now : ℕ) (o : Outbox)
    → Keeps o (claim_pending_events worker batch_size now o).1
unfolding claim_pending_events
claim_pending_events-Keeps worker batch_size now o =
    let a = picked-Stands batch_size now o in
    let ps = picked batch_size now o in
    (
      λ j. (lock_rows-Later worker now ps o.rows j a).0,
      λ j. (lock_rows-Later worker now ps o.rows j a).1,
    )

pub claim_pending_events-Held :
    (worker : Text) (batch_size now : ℕ) (o : Outbox)
    → All
        (Held (claim_pending_events worker batch_size now o).1)
        (claim_pending_events worker batch_size now o).0
unfolding claim_pending_events
claim_pending_events-Held worker batch_size now o =
    All-Held o (claim_pending_events worker batch_size now o).1 _
      (claim_pending_events-Keeps worker batch_size now o).0
      (locked_pairs-Held worker now o (picked batch_size now o) (picked-Stands batch_size now o))
