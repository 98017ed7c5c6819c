-- ===== src/Redis/Memory/Sets.antt =====
-- Sorted sets as lists of members with scores, of which the first entry of a member counts.
use monogo.Base.{
  ℕ, suc, ◌≤◌, ◌≡◌, refl, sym, ap, ◌∙◌, inl, inr, List, [], ◌∷◌, Option, none, some, Bool, true,
  false, Text, text_eq, text_eq_refl, eq_of_text_eq, if◌then◌else◌, arith, Bool-cases,
}
use monogo.Redis.{above}

abbrev pub SortedSet : Type 0
SortedSet = List (Text × ℕ)

abbrev pub or_no : Bool → Option ℕ → Option ℕ
or_no true o = none
or_no false o = o

abbrev pub score : Text → SortedSet → Option ℕ
score m [] = none
score m (e ∷ set) = let rest = score m set in if text_eq e.0 m then some e.1 else rest

-- An entry counts where no later one has its member.
abbrev pub count_entry : Option ℕ → ℕ → ℕ
count_entry none n = suc n
count_entry (some s) n = n

abbrev pub card : SortedSet → ℕ
card [] = 0
card (e ∷ set) = count_entry (score e.0 set) (card set)

abbrev pub is_some {ℓ} : {A : Type ℓ} → Option A → Bool
is_some none = false
is_some (some a) = true

abbrev put_if : Bool → Text × ℕ → SortedSet → SortedSet
put_if true e set = e ∷ set
put_if false e set = set

-- The entries whose member satisfies the test.
abbrev pub keep : (Text → Bool) → SortedSet → SortedSet
keep p [] = []
keep p (e ∷ set) = put_if (p e.0) e (keep p set)

abbrev pub without : Text → SortedSet → SortedSet
without m set = keep (λ k. if text_eq m k then false else true) set

abbrev pub keep_above : ℕ → SortedSet → SortedSet → SortedSet
keep_above bound whole set = keep (λ k. is_some (above bound (score k whole))) set

score-put_if :
    (b : Bool) (m : Text) (e : Text × ℕ) (set : SortedSet)
    → score m (put_if b e set) ≡ (if b then score m (e ∷ set) else score m set)
score-put_if true m e set = refl
score-put_if false m e set = refl

same_test : (p : Text → Bool) (k m : Text) → text_eq k m ≡ true → p k ≡ p m
same_test p k m h = ap p (eq_of_text_eq k m h)

same_score :
    (pe pm em : Bool) (v x rest : Option ℕ)
    → (em ≡ true → pe ≡ pm)
    → rest ≡ (if pm then x else none)
    → (if pe then if em then v else rest else rest) ≡ (if pm then if em then v else x else none)
same_score true true true v x rest h k = refl
same_score true false true v x rest h k = cc (h refl)
same_score false true true v x rest h k = cc (h refl)
same_score false false true v x rest h k = k
same_score true true false v x rest h k = k
same_score true false false v x rest h k = k
same_score false true false v x rest h k = k
same_score false false false v x rest h k = k

pub score-keep :
    (p : Text → Bool) (m : Text) (set : SortedSet)
    → score m (keep p set) ≡ (if p m then score m set else none)
score-keep p m [] = elim (Bool-cases (p m)) [ inl h ↦ rw h refl | inr h ↦ rw h refl ]
score-keep p m (e ∷ set) =
    score-put_if (p e.0) m e (keep p set)
    ∙ same_score (p e.0) (p m) (text_eq e.0 m) (some e.1) (score m set) _ (same_test p e.0 m)
        (score-keep p m set)

card-put_if :
    (b : Bool) (e : Text × ℕ) (set : SortedSet)
    → card (put_if b e set) ≡ (if b then count_entry (score e.0 set) (card set) else card set)
card-put_if true e set = refl
card-put_if false e set = refl

grown :
    (b : Bool) (o : Option ℕ) (x n : ℕ)
    → x ≤ n
    → (if b then count_entry o x else x) ≤ count_entry o n
grown true none x n h = omega (arith, h)
grown true (some s) x n h = h
grown false none x n h = omega (arith, h)
grown false (some s) x n h = h

kept_score :
    (p : Text → Bool) (m : Text) (set : SortedSet) → p m ≡ true → score m (keep p set) ≡ score m set
kept_score p m set h = score-keep p m set ∙ rw h refl

card-keep :
    (p : Text → Bool) (e : Text × ℕ) (set : SortedSet)
    → card (keep p (e ∷ set))
      ≡ (if p e.0 then count_entry (score e.0 set) (card (keep p set)) else card (keep p set))
card-keep p e set = elim (Bool-cases (p e.0)) [
  | inl h ↦ rw h (ap (λ o. count_entry o (card (keep p set))) (kept_score p e.0 set h))
  | inr h ↦ rw h refl
]

pub card-keep-le : (p : Text → Bool) (set : SortedSet) → card (keep p set) ≤ card set
card-keep-le p [] = omega arith
card-keep-le p (e ∷ set) =
    rw (card-keep p e set) (grown (p e.0) (score e.0 set) _ _ (card-keep-le p set))

-- What `without` takes off the count.
abbrev pub less : Option ℕ → ℕ → ℕ
less none n = n
less (some s) n = suc n

pub score-without :
    (m k : Text) (set : SortedSet)
    → score k (without m set) ≡ (if text_eq m k then none else score k set)
score-without m k set = score-keep _ k set ∙ flipped (text_eq m k) (score k set)
  where
    flipped :
        (b : Bool) (o : Option ℕ)
        → (if (if b then false else true) then o else none) ≡ (if b then none else o)
    flipped true o = refl
    flipped false o = refl

symmetric : (a b : Text) → text_eq a b ≡ text_eq b a
symmetric a b = elim (Bool-cases (text_eq a b)) [
  | inl h ↦ elim (Bool-cases (text_eq b a)) [
    | inl k ↦ h ∙ sym k
    | inr k ↦
        ap (λ t. text_eq a t) (sym (eq_of_text_eq a b h))
        ∙ text_eq_refl a
        ∙ sym (ap (λ t. text_eq t a) (sym (eq_of_text_eq a b h)) ∙ text_eq_refl a)
  ]
  | inr h ↦ elim (Bool-cases (text_eq b a)) [
    | inl k ↦ ap (λ t. text_eq t b) (sym (eq_of_text_eq b a k)) ∙ text_eq_refl b ∙ sym k
    | inr k ↦ h ∙ sym k
  ]
]

-- One entry of the count: `em` tells whether it is of the member that goes.
recount :
    (em : Bool) (om oe : Option ℕ) (v x n : ℕ)
    → (em ≡ true → om ≡ oe)
    → less om x ≡ n
    → less
        (if em then some v else om)
        (if (if em then false else true) then count_entry oe x else x)
      ≡ count_entry oe n
recount true none none v x n h k = omega (arith, k)
recount true (some s) none v x n h k = cc (h refl)
recount true none (some t) v x n h k = cc (h refl)
recount true (some s) (some t) v x n h k = k
recount false none none v x n h k = omega (arith, k)
recount false none (some t) v x n h k = k
recount false (some s) none v x n h k = omega (arith, k)
recount false (some s) (some t) v x n h k = k

pub card-without :
    (m : Text) (set : SortedSet) → less (score m set) (card (without m set)) ≡ card set
card-without m [] = refl
card-without m (e ∷ set) =
    ap (less (score m (e ∷ set))) (card-keep (λ x. if text_eq m x then false else true) e set)
    ∙ ap
        (λ b. less (score m (e ∷ set)) (
          if (if b then false else true)
          then count_entry (score e.0 set) (card (without m set))
          else card (without m set)))
        (symmetric m e.0)
    ∙ recount (text_eq e.0 m) (score m set) (score e.0 set) e.1 _ _
        (λ h. ap (λ k. score k set) (sym (eq_of_text_eq e.0 m h))) (card-without m set)

gone : (m : Text) (set : SortedSet) → score m (without m set) ≡ none
gone m set = score-without m m set ∙ ap (λ b. if b then none else score m set) (text_eq_refl m)

pub card-zadd :
    (m : Text) (v : ℕ) (set : SortedSet)
    → card ((m, v) ∷ without m set) ≡ suc (card (without m set))
card-zadd m v set = ap (λ o. count_entry o (card (without m set))) (gone m set)
