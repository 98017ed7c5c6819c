-- ===== src/Platform/Outbox/Later.antt =====
-- What the outbox and the bus keep while publishers run.
use monogo.Base.{
  ℕ, ◌≡◌, ◌≢◌, refl, sym, ap, ◌∙◌, inl, inr, Bool, true, false, List, [], ◌∷◌, ◌++◌, Option, none,
  some, ◌==◌, arith, Bool-cases,
}
use monogo.Platform.Outbox.{
  Content, Event, Outbox, change, update, mark_event_published, mark_event_failed,
  release_stale_locks, set_published, set_failed, is_unpublished, is_stale, unlock, insert_event,
}

pub data In {ℓ} {A : Type ℓ} (a : A) : List A → Type ℓ where
  first : {xs : List A} → In a (a ∷ xs)
  later : {x : A} {xs : List A} → In a xs → In a (x ∷ xs)

pub In-append {ℓ} : {A : Type ℓ} {a : A} (xs ys : List A) → In a xs → In a (xs ++ ys)
In-append [] ys h = elim h [ ]
In-append (x ∷ xs) ys first = first
In-append (x ∷ xs) ys (later h) = later (In-append xs ys h)

pub In-last {ℓ} : {A : Type ℓ} (xs : List A) (a : A) → In a (xs ++ a ∷ [])
In-last [] a = first
In-last (x ∷ xs) a = later (In-last xs a)

-- A row keeps what it says, and once it is published it stays so, with its time.
abbrev pub Later : Option Event → Option Event → Type 0
Later none o = Unit {0}
Later (some d) none = ⊥
Later (some d) (some e) =
    (e.content ≡ d.content) × ((t : ℕ) → d.published_at ≡ some t → e.published_at ≡ some t)

-- What is published was published before.
abbrev pub NotNew : Option Event → Option Event → Type 0
NotNew o none = Unit {0}
NotNew none (some e) = e.published_at ≡ none
NotNew (some d) (some e) =
    (e.content ≡ d.content) × ((t : ℕ) → e.published_at ≡ some t → d.published_at ≡ some t)

abbrev pub AllLater : Outbox → Outbox → Type 0
AllLater o p = (id : ℕ) → Later (o.rows id) (p.rows id)

abbrev pub NoneNew : Outbox → Outbox → Type 0
NoneNew o p = (id : ℕ) → NotNew (o.rows id) (p.rows id)

pub Later-refl : (o : Option Event) → Later o o
Later-refl none = tt
Later-refl (some e) = (refl, λ t h. h)

pub NotNew-refl : (o : Option Event) → NotNew o o
NotNew-refl none = tt
NotNew-refl (some e) = (refl, λ t h. h)

pub Later-trans : (o p q : Option Event) → Later o p → Later p q → Later o q
Later-trans none p q a b = tt
Later-trans (some d) none q a b = absurd a
Later-trans (some d) (some e) none a b = b
Later-trans (some d) (some e) (some f) (c, k) (c', k') = (c' ∙ c, λ t h. k' t (k t h))

-- Both, for a statement that publishes nothing.
abbrev pub Keeps : Outbox → Outbox → Type 0
Keeps o p = AllLater o p × NoneNew o p

pub Keeps-refl : (o : Outbox) → Keeps o o
Keeps-refl o = (λ id. Later-refl (o.rows id), λ id. NotNew-refl (o.rows id))

change-Later :
    (test : Event → Bool) (f : Event → Event) (o : Option Event)
    → ((e : Event) → (f e).content ≡ e.content)
    → ((e : Event)
        → test e ≡ true
        → (t : ℕ) → e.published_at ≡ some t
        → (f e).published_at ≡ some t)
    → Later o (change test f o)
change-Later test f none same keep = tt
change-Later test f (some e) same keep = elim (Bool-cases (test e)) [
  | inl h ↦ rw h (same e, keep e h)
  | inr h ↦ rw h (Later-refl (some e))
]

change-NotNew :
    (test : Event → Bool) (f : Event → Event) (o : Option Event)
    → ((e : Event) → (f e).content ≡ e.content)
    → ((e : Event) → (f e).published_at ≡ e.published_at)
    → NotNew o (change test f o)
change-NotNew test f none same keep = tt
change-NotNew test f (some e) same keep = elim (Bool-cases (test e)) [
  | inl h ↦ rw h (same e, λ t k. sym (keep e) ∙ k)
  | inr h ↦ rw h (NotNew-refl (some e))
]

pub update-AllLater :
    (id : ℕ) (test : Event → Bool) (f : Event → Event) (o : Outbox)
    → ((e : Event) → (f e).content ≡ e.content)
    → ((e : Event)
        → test e ≡ true
        → (t : ℕ) → e.published_at ≡ some t
        → (f e).published_at ≡ some t)
    → AllLater o (update id test f o)
update-AllLater id test f o same keep j = elim (Bool-cases (j == id)) [
  | inl h ↦ rw h (change-Later test f (o.rows j) same keep)
  | inr h ↦ rw h (Later-refl (o.rows j))
]

update-NoneNew :
    (id : ℕ) (test : Event → Bool) (f : Event → Event) (o : Outbox)
    → ((e : Event) → (f e).content ≡ e.content)
    → ((e : Event) → (f e).published_at ≡ e.published_at)
    → NoneNew o (update id test f o)
update-NoneNew id test f o same keep j = elim (Bool-cases (j == id)) [
  | inl h ↦ rw h (change-NotNew test f (o.rows j) same keep)
  | inr h ↦ rw h (NotNew-refl (o.rows j))
]

unpublished_yet : (e : Event) (t : ℕ) → is_unpublished e ≡ true → e.published_at ≢ some t
unpublished_yet e t h k = let no : is_unpublished e ≡ false = rw k refl in cc

pub mark_event_failed-Keeps :
    (id delay now : ℕ) (o : Outbox) → Keeps o (mark_event_failed id delay now o)
unfolding mark_event_failed
mark_event_failed-Keeps id delay now o = (
  update-AllLater id is_unpublished (set_failed delay now) o (λ e. refl) (λ e h t k. k),
  update-NoneNew id is_unpublished (set_failed delay now) o (λ e. refl) (λ e. refl),
)

pub release_stale_locks-Keeps :
    (timeout now : ℕ) (o : Outbox) → Keeps o (release_stale_locks timeout now o)
unfolding release_stale_locks
release_stale_locks-Keeps timeout now o = (
  λ id. change-Later (is_stale timeout now) unlock (o.rows id) (λ e. refl) (λ e h t k. k),
  λ id. change-NotNew (is_stale timeout now) unlock (o.rows id) (λ e. refl) (λ e. refl),
)

pub mark_event_published-AllLater :
    (id now : ℕ) (o : Outbox) → AllLater o (mark_event_published id now o)
unfolding mark_event_published
mark_event_published-AllLater id now o =
    update-AllLater id is_unpublished (set_published now) o (λ e. refl)
      (λ e h t k. absurd (unpublished_yet e t h k))

pub insert_event-Keeps :
    (id : ℕ) (content : Content) (at now : ℕ) (o : Outbox)
    → o.rows id ≡ none
    → Keeps o (insert_event id content at now o)
unfolding insert_event
insert_event-Keeps id content at now o free = (
  λ j. elim (Bool-cases (j == id)) [
    | inl h ↦
        let same : j ≡ id = ground arith in
        let none_there : o.rows j ≡ none = ap o.rows same ∙ free in rw none_there tt
    | inr h ↦ rw h (Later-refl (o.rows j))
  ],
  λ j. elim (Bool-cases (j == id)) [
    | inl h ↦
        let same : j ≡ id = ground arith in
        let none_there : o.rows j ≡ none = ap o.rows same ∙ free in rw none_there (rw h refl)
    | inr h ↦ rw h (NotNew-refl (o.rows j))
  ],
)
