-- ===== src/Media/Manager/Invariant.antt =====
-- What holds of the sessions of a node in every interleaving: the table, and the tasks one by one.
use monogo.Base.{
  ℕ, suc, ◌≤◌, ◌<◌, ◌≡◌, ◌≢◌, refl, sym, ap, ◌∙◌, Bool, true, false, List, [], ◌∷◌, Option, none,
  some, ◌==◌, ==_iff, if◌then◌else◌, length, arith, Bool-cases, inl, inr, eq_of_some_eq,
}
use monogo.Media.Config.{Config}
use monogo.Media.Manager.{
  Session, Manager, lookup, delete, remove, update, add_session, new_session, is_ref,
}

-- What may become of a session.
pub record Changes (s t : Session) : Type 0 where
  pub config : t.config ≡ s.config
  pub finished : s.finished ≡ true → t.finished ≡ true
  pub attached : s.attached ≡ true → t.attached ≡ true
  pub complete : s.complete ≡ true → t.complete ≡ true
  pub fixed : s.finished ≡ true → t.attached ≡ s.attached

pub Changes-refl : (s : Session) → Changes s s
Changes-refl s = record {
  config = refl;
  finished = λ h. h;
  attached = λ h. h;
  complete = λ h. h;
  fixed = λ h. refl;
}

-- A later manager has the sessions of the earlier one, changed in such ways, and may have more.
pub record Later (m n : Manager) : Type 0 where
  pub grown : m.next ≤ n.next
  pub changes : (ref : ℕ) → ref < m.next → Changes (m.heap ref) (n.heap ref)

pub same-Later : {m n : Manager} → n.next ≡ m.next → n.heap ≡ m.heap → Later m n
same-Later {m} e f = record {
  grown = omega (arith, e);
  changes = λ ref h. rw f (Changes-refl (m.heap ref));
}

pub update-Later :
    (ref : ℕ) (s : Session) (m : Manager) → Changes (m.heap ref) s → Later m (update ref s m)
unfolding update
update-Later ref s m c = record {
  grown = omega arith;
  changes = λ r h. elim (Bool-cases (r == ref)) [
    | inl e ↦ rw e (rw ((==_iff r ref).0 e) c)
    | inr e ↦ rw e (Changes-refl (m.heap r))
  ];
}

pub add-Later : (config : Config) (b : Bool) (m : Manager) → Later m (add_session config b m)
unfolding add_session
add-Later config b m = record {
  grown = omega arith;
  changes = λ r h. elim (Bool-cases (r == m.next)) [
    | inl e ↦ absurd (let same : r ≡ m.next = (==_iff r m.next).0 e in omega arith)
    | inr e ↦ rw e (Changes-refl (m.heap r))
  ];
}

-- How a session under a reference fits a table.
pub record Fit (sessions : List (ℕ × ℕ)) (ref : ℕ) (s : Session) : Type 0 where
  pub listed : s.finished ≡ false → lookup s.config.id sessions ≡ some ref
  pub completed : s.complete ≡ true → s.finished ≡ true
  pub closed : s.closed ≡ true → s.attached ≡ false → s.complete ≡ true

abbrev pub AllMade : ℕ → List (ℕ × ℕ) → Type 0
AllMade next [] = Unit {0}
AllMade next ((id, ref) ∷ sessions) = (ref < next) × AllMade next sessions

-- The table and the sessions fit together.
pub record Coherent (m : Manager) : Type 0 where
  pub bounded : length m.sessions ≤ m.capacity
  pub made : (id ref : ℕ) → lookup id m.sessions ≡ some ref → ref < m.next
  pub entries : AllMade m.next m.sessions
  pub fits : (ref : ℕ) → ref < m.next → Fit m.sessions ref (m.heap ref)

length-delete-le : (id : ℕ) (l : List (ℕ × ℕ)) → length (delete id l) ≤ length l
unfolding delete
length-delete-le id [] = omega arith
length-delete-le id ((key, ref) ∷ l) = elim (Bool-cases (key == id)) [
  | inl e ↦ rw e (omega (arith, length-delete-le id l))
  | inr e ↦ rw e (omega (arith, length-delete-le id l))
]

lookup-delete_same : (id : ℕ) (l : List (ℕ × ℕ)) → lookup id (delete id l) ≡ none
unfolding lookup delete
lookup-delete_same id [] = refl
lookup-delete_same id ((key, ref) ∷ l) = elim (Bool-cases (key == id)) [
  | inl e ↦ rw e (lookup-delete_same id l)
  | inr e ↦ rw e (rw e (lookup-delete_same id l))
]

lookup-delete_other :
    (id other : ℕ) (l : List (ℕ × ℕ)) → other ≢ id → lookup other (delete id l) ≡ lookup other l
unfolding lookup delete
lookup-delete_other id other [] n = refl
lookup-delete_other id other ((key, ref) ∷ l) n = elim (Bool-cases (key == id)) [
  | inl e ↦
      let same : key ≡ id = (==_iff key id).0 e in
      let off : (key == other) ≡ false = ground (arith, same, n) in
      rw e (rw off (lookup-delete_other id other l n))
  | inr e ↦ rw e (ap (λ o. if key == other then some ref else o) (lookup-delete_other id other l n))
]

ne_of_==false : (a b : ℕ) → (a == b) ≡ false → a ≢ b
ne_of_==false a b h e = ground (arith, h, e)

lookup-delete-some :
    (id other r : ℕ) (l : List (ℕ × ℕ))
    → lookup other (delete id l) ≡ some r
    → lookup other l ≡ some r
lookup-delete-some id other r l h = elim (Bool-cases (other == id)) [
  | inl e ↦
      let gone : none ≡ some r =
        sym (lookup-delete_same id l)
        ∙ ap (λ k. lookup k (delete id l)) (sym ((==_iff other id).0 e))
        ∙ h in
      absurd (cc)
  | inr e ↦ sym (lookup-delete_other id other l (ne_of_==false other id e)) ∙ h
]

eq_of_is_ref : (o : Option ℕ) (ref : ℕ) → is_ref o ref ≡ true → o ≡ some ref
eq_of_is_ref none ref h = cc
eq_of_is_ref (some r) ref h = ap some ((==_iff r ref).0 h)

delete-AllMade : (next id : ℕ) (l : List (ℕ × ℕ)) → AllMade next l → AllMade next (delete id l)
unfolding delete
delete-AllMade next id [] h = tt
delete-AllMade next id ((key, ref) ∷ l) (made, h) = elim (Bool-cases (key == id)) [
  | inl e ↦ rw e (delete-AllMade next id l h)
  | inr e ↦ rw e (made, delete-AllMade next id l h)
]

more-AllMade : (next : ℕ) (l : List (ℕ × ℕ)) → AllMade next l → AllMade (suc next) l
more-AllMade next [] h = tt
more-AllMade next ((key, ref) ∷ l) (made, h) = (omega arith, more-AllMade next l h)

pub remove-Coherent :
    (id ref : ℕ) (m : Manager)
    → ref < m.next
    → (m.heap ref).finished ≡ true
    → Coherent m
    → Coherent (remove id ref m)
unfolding remove
remove-Coherent id ref m made done c = elim (Bool-cases (is_ref (lookup id m.sessions) ref)) [
  | inr e ↦ rw e c
  | inl e ↦ rw e (record {
    bounded = omega (arith, c.bounded, length-delete-le id m.sessions);
    made = λ other r h. c.made other r (lookup-delete-some id other r m.sessions h);
    entries = delete-AllMade m.next id m.sessions c.entries;
    fits = λ r h. record {
      completed = (c.fits r h).completed;
      closed = (c.fits r h).closed;
      listed = λ f.
          let there = (c.fits r h).listed f in
          let other : (m.heap r).config.id ≢ id = λ same.
            let met : some r ≡ some ref =
              sym there
              ∙ ap (λ k. lookup k m.sessions) same
              ∙ eq_of_is_ref (lookup id m.sessions) ref e in
            let at : r ≡ ref = eq_of_some_eq met in
            let clash : true ≡ false = sym done ∙ ap (λ k. (m.heap k).finished) (sym at) ∙ f in
            cc in
          lookup-delete_other id _ m.sessions other ∙ there;
    };
  })
]

pub if-case :
    (P : Session → Type 0) (b : Bool) (s t : Session)
    → (b ≡ true → P s)
    → (b ≡ false → P t)
    → P (if b then s else t)
if-case P true s t h k = h refl
if-case P false s t h k = k refl

-- A session changed in its flags, where it still fits.
pub update-Coherent :
    (ref : ℕ) (s : Session) (m : Manager)
    → ref < m.next
    → Fit m.sessions ref s
    → Coherent m
    → Coherent (update ref s m)
unfolding update
update-Coherent ref s m made fit c = record {
  bounded = c.bounded;
  made = c.made;
  entries = c.entries;
  fits = λ r h.
      if-case (Fit m.sessions r) (r == ref) s (m.heap r) (λ e. rw ((==_iff r ref).0 e) fit)
        (λ e. c.fits r h);
}

-- An entry for a key that was free hides none.
grown-Fit :
    (id next r : ℕ) (sessions : List (ℕ × ℕ)) (s : Session)
    → lookup id sessions ≡ none
    → Fit sessions r s
    → Fit ((id, next) ∷ sessions) r s
unfolding lookup
grown-Fit id next r sessions s free fit = record {
  completed = fit.completed;
  closed = fit.closed;
  listed = λ f. elim (Bool-cases (id == s.config.id)) [
    | inl e ↦
        let met : some r ≡ none =
          sym (fit.listed f)
          ∙ ap (λ k. lookup k sessions) (sym ((==_iff id s.config.id).0 e))
          ∙ free in
        absurd (cc)
    | inr e ↦ rw e (fit.listed f)
  ];
}

new-Fit :
    (config : Config) (b : Bool) (next : ℕ) (sessions : List (ℕ × ℕ))
    → Fit ((config.id, next) ∷ sessions) next (new_session config b)
unfolding new_session lookup
new-Fit config b next sessions = record {
  listed = λ f. rw ((==_iff config.id config.id).1 refl) refl;
  completed = λ h. cc;
  closed = λ h g. cc;
}

made_new :
    (id key ref next : ℕ) (sessions : List (ℕ × ℕ))
    → ((other r : ℕ) → lookup other sessions ≡ some r → r < next)
    → lookup id ((key, next) ∷ sessions) ≡ some ref
    → ref < suc next
unfolding lookup
made_new id key ref next sessions made h = elim (Bool-cases (key == id)) [
  | inl e ↦ let at : next ≡ ref = eq_of_some_eq (rw e at h) in omega arith
  | inr e ↦ let below = made id ref (rw e at h) in omega arith
]

pub add-Coherent :
    (config : Config) (b : Bool) (m : Manager)
    → lookup config.id m.sessions ≡ none
    → length m.sessions < m.capacity
    → Coherent m
    → Coherent (add_session config b m)
unfolding add_session
add-Coherent config b m free room c = record {
  bounded = omega (arith, room);
  made = λ id ref h. made_new id config.id ref m.next m.sessions c.made h;
  entries = (omega arith, more-AllMade m.next m.sessions c.entries);
  fits = λ r h.
      if-case (Fit ((config.id, m.next) ∷ m.sessions) r) (r == m.next) (new_session config b)
        (m.heap r) (λ e. rw ((==_iff r m.next).0 e) (new-Fit config b m.next m.sessions))
        (λ e.
          let below : r < m.next = omega (arith, ne_of_==false r m.next e, h) in
          grown-Fit config.id m.next r m.sessions (m.heap r) free (c.fits r below));
}
