-- ===== src/Bencode/Total.antt =====
-- The decoder comes to an end on all data.
use monogo.Base.{
  ℕ, zero, suc, ◌+◌, ◌-◌, ◌≤◌, ◌<◌, ◌≢◌, [], ◌∷◌, Option, none, some, Text, length, ◌==◌, ltb, leb,
  arith, ℤ, pos, negsuc, Bool-cases, inl, inr, subst,
}
use monogo.Bencode.{
  Value, Fields, text, int, bool, list, dict, end, Decoded, done, refused, panicked, exhausted,
  and_then, cut, drop, put, slice, sized, text_past, int_past, int_of, kind_of, a_dict, a_list,
  an_int, a_text, as_list, as_dict, with_key, decode, decode_items, decode_fields, bdecode_map,
  whole_dict,
}
use monogo.Bencode.Decimal.{parse_int, int_limit}

-- It ended, and fewer than `n` bytes are left.
abbrev EndsWithin : {A : Type 0} → ℕ → Decoded A → Type 0
EndsWithin n (done a rest) = length rest < n
EndsWithin n (refused message) = Unit {0}
EndsWithin n panicked = Unit {0}
EndsWithin n exhausted = ⊥

and_then-EndsWithin :
    {A B : Type 0}
    → (n : ℕ) (d : Decoded A) (k : A → Text → Decoded B) → EndsWithin n d
    → ((a : A) (rest : Text) → length rest < n → EndsWithin n (k a rest))
    → EndsWithin n (and_then d k)
and_then-EndsWithin n (done a rest) k h go = go a rest h
and_then-EndsWithin n (refused message) k h go = tt
and_then-EndsWithin n panicked k h go = tt
and_then-EndsWithin n exhausted k h go = absurd h

weaker-EndsWithin :
    {A : Type 0} → (m n : ℕ) (d : Decoded A) → m ≤ n → EndsWithin m d → EndsWithin n d
weaker-EndsWithin m n (done a rest) le h = omega arith
weaker-EndsWithin m n (refused message) le h = tt
weaker-EndsWithin m n panicked le h = tt
weaker-EndsWithin m n exhausted le h = absurd h

-- What is cut is shorter.
abbrev Shorter : ℕ → Option (Text × Text) → Type 0
Shorter n none = Unit {0}
Shorter n (some (s, rest)) = length s + length rest < n

cons-Shorter :
    (c n : ℕ) (o : Option (Text × Text))
    → Shorter n o
    → Shorter (suc n) (elim o [ none ↦ none | some (s1, s2) ↦ some (c ∷ s1, s2) ])
cons-Shorter c n none h = tt
cons-Shorter c n (some (s, rest)) h = omega arith

cut-Shorter : (b : ℕ) (s : Text) → Shorter (length s) (cut b s)
unfolding cut
cut-Shorter b [] = tt
cut-Shorter b (c ∷ s) = elim (Bool-cases (c == b)) [
  | inl e ↦ rw e (omega arith)
  | inr e ↦ rw e (cons-Shorter c (length s) (cut b s) (cut-Shorter b s))
]

drop_le : (n : ℕ) (s : Text) → length (drop n s) ≤ length s
unfolding drop
drop_le zero s = omega arith
drop_le (suc n) [] = omega arith
drop_le (suc n) (c ∷ s) = let h = drop_le n s in omega arith

slice-EndsWithin : (start n m : ℕ) (s : Text) → length s < m → EndsWithin m (slice start n s)
unfolding slice
slice-EndsWithin start n m s h = elim (Bool-cases (leb int_limit (start + n))) [
  | inl e ↦ rw e tt
  | inr e ↦ elim (Bool-cases (ltb (length s) n)) [
    | inl f ↦ rw e (rw f tt)
    | inr f ↦ let less = drop_le n s in rw e (rw f (omega arith))
  ]
]

sized-EndsWithin :
    (total m : ℕ) (o : Option ℤ) (s : Text) → length s < m → EndsWithin m (sized total o s)
sized-EndsWithin total m none s h = tt
sized-EndsWithin total m (some (negsuc n)) s h = tt
sized-EndsWithin total m (some (pos n)) s h = slice-EndsWithin (total - length s) n m s h

text-EndsWithin :
    (total m : ℕ) (o : Option (Text × Text)) → Shorter m o → EndsWithin m (text_past total o)
text-EndsWithin total m none h = tt
text-EndsWithin total m (some ([], rest)) h = tt
text-EndsWithin total m (some (c ∷ s, rest)) h =
    sized-EndsWithin total m (parse_int (c ∷ s)) rest (omega arith)

int_of-EndsWithin : (m : ℕ) (o : Option ℤ) (s : Text) → length s < m → EndsWithin m (int_of o s)
int_of-EndsWithin m none s h = tt
int_of-EndsWithin m (some z) s h = h

int-EndsWithin : (m : ℕ) (o : Option (Text × Text)) → Shorter m o → EndsWithin m (int_past o)
int-EndsWithin m none h = tt
int-EndsWithin m (some (s, rest)) h = int_of-EndsWithin m (parse_int s) rest (omega arith)

key-EndsWithin :
    (n : ℕ) (key : Value) (go : Text → Decoded Fields)
    → ((k : Text) → EndsWithin n (go k))
    → EndsWithin n (with_key key go)
key-EndsWithin n (text k) go h = h k
key-EndsWithin n (int z) go h = tt
key-EndsWithin n (bool b) go h = tt
key-EndsWithin n (list xs) go h = tt
key-EndsWithin n (dict fs) go h = tt

mutual
  unfolding decode decode_items decode_fields

  decode-EndsWithin :
      (total fuel : ℕ) (s : Text)
      → length s + length s < fuel
      → EndsWithin (length s) (decode total fuel s)
  decode-EndsWithin total zero s h = absurd (omega arith)
  decode-EndsWithin total (suc fuel) [] h = tt
  decode-EndsWithin total (suc fuel) (c ∷ s) h =
      elim (kind_of c)
        as (λ k. EndsWithin (suc (length s)) (elim k [
          | a_dict ↦ as_dict (decode_fields total fuel end s)
          | a_list ↦ as_list (decode_items total fuel s)
          | an_int ↦ int_past (cut 101 s)
          | a_text ↦ text_past total (cut 58 (c ∷ s))
        ])) [
          | a_dict ↦
              and_then-EndsWithin (suc (length s)) (decode_fields total fuel end s) _
                (weaker-EndsWithin (length s) (suc (length s)) (decode_fields total fuel end s)
                  (omega arith) (fields-EndsWithin total fuel end s (omega arith)))
                (λ fs rest le. le)
          | a_list ↦
              and_then-EndsWithin (suc (length s)) (decode_items total fuel s) _
                (weaker-EndsWithin (length s) (suc (length s)) (decode_items total fuel s)
                  (omega arith) (items-EndsWithin total fuel s (omega arith)))
                (λ xs rest le. le)
          | an_int ↦
              weaker-EndsWithin (length s) (suc (length s)) (int_past (cut 101 s)) (omega arith)
                (int-EndsWithin (length s) (cut 101 s) (cut-Shorter 101 s))
          | a_text ↦
              text-EndsWithin total (suc (length s)) (cut 58 (c ∷ s)) (cut-Shorter 58 (c ∷ s))
        ]

  items-EndsWithin :
      (total fuel : ℕ) (s : Text)
      → suc (length s + length s) < fuel
      → EndsWithin (length s) (decode_items total fuel s)
  items-EndsWithin total zero s h = absurd (omega arith)
  items-EndsWithin total (suc fuel) [] h = tt
  items-EndsWithin total (suc fuel) (c ∷ s) h = elim (Bool-cases (c == 101)) [
    | inl e ↦ rw (e, decode_items) (omega arith)
    | inr e ↦
        rw (e, decode_items)
          (and_then-EndsWithin (suc (length s)) (decode total fuel (c ∷ s)) _
            (decode-EndsWithin total fuel (c ∷ s) (omega arith))
            (λ v rest le.
              and_then-EndsWithin (suc (length s)) (decode_items total fuel rest) _
                (weaker-EndsWithin (length rest) (suc (length s)) (decode_items total fuel rest)
                  (omega arith) (items-EndsWithin total fuel rest (omega arith)))
                (λ xs left lt. lt)))
  ]

  fields-EndsWithin :
      (total fuel : ℕ) (result : Fields) (s : Text)
      → suc (length s + length s) < fuel
      → EndsWithin (length s) (decode_fields total fuel result s)
  fields-EndsWithin total zero result s h = absurd (omega arith)
  fields-EndsWithin total (suc fuel) result [] h = tt
  fields-EndsWithin total (suc fuel) result (c ∷ s) h = elim (Bool-cases (c == 101)) [
    | inl e ↦ rw (e, decode_fields) (omega arith)
    | inr e ↦
        rw (e, decode_fields)
          (and_then-EndsWithin (suc (length s)) (decode total fuel (c ∷ s)) _
            (decode-EndsWithin total fuel (c ∷ s) (omega arith))
            (λ key rest le. key-EndsWithin (suc (length s)) key _ λ k.
              and_then-EndsWithin (suc (length s)) (decode total fuel rest) _
                (weaker-EndsWithin (length rest) (suc (length s)) (decode total fuel rest)
                  (omega arith) (decode-EndsWithin total fuel rest (omega arith)))
                (λ v left lt.
                  weaker-EndsWithin (length left) (suc (length s))
                    (decode_fields total fuel (put k v result) left) (omega arith)
                    (fields-EndsWithin total fuel (put k v result) left (omega arith)))))
  ]

abbrev Ended : {A : Type 0} → Decoded A → Type 0
Ended exhausted = ⊥
Ended _ = Unit {0}

whole_dict-Ended : (n : ℕ) (d : Decoded Value) → EndsWithin n d → Ended (and_then d whole_dict)
whole_dict-Ended n (done v (c ∷ rest)) h = tt
whole_dict-Ended n (done (text s) []) h = tt
whole_dict-Ended n (done (int z) []) h = tt
whole_dict-Ended n (done (bool b) []) h = tt
whole_dict-Ended n (done (list xs) []) h = tt
whole_dict-Ended n (done (dict fs) []) h = tt
whole_dict-Ended n (refused message) h = tt
whole_dict-Ended n panicked h = tt
whole_dict-Ended n exhausted h = absurd h

-- On every packet the decoder ends, with a dictionary, an error or a panic: the fuel of two calls for
-- each byte, and one more, never runs out.
pub bdecode_map-ends : (packet : Text) → bdecode_map packet ≢ exhausted
unfolding bdecode_map
bdecode_map-ends packet e =
    let n = length packet in
    let ended : EndsWithin n (decode n (suc (n + n)) packet) =
      decode-EndsWithin n (suc (n + n)) packet (omega arith) in
    subst Ended e (whole_dict-Ended n (decode n (suc (n + n)) packet) ended)
