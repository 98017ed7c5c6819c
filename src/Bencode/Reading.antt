-- ===== src/Bencode/Reading.antt =====
-- One step of the decoder on what the encoder writes.
use monogo.Base.{
  ℕ, zero, suc, ◌+◌, ◌-◌, ◌≤◌, ◌<◌, ◌≡◌, refl, ap, ◌∙◌, subst, true, false, [], ◌∷◌, ◌++◌, Option,
  some, Text, length, length-append, take, ◌==◌, ltb, leb, arith, All, ℤ, pos, negsuc,
}
use mathlib.Core.List.{append_assoc}
use monogo.Bencode.{
  Value, Fields, text, int, bool, list, dict, nil, cons, end, encode, encode_items, encode_fields,
  encode_text, done, and_then, cut, drop, put, slice, sized, text_past, int_past, int_of, kind_of,
  a_text, as_list, as_dict, with_key, decode, decode_items, decode_fields,
}
use monogo.Bencode.Decimal.{
  digits, show_int, is_digit, parse_int, int_limit, AllDigits, IsInt64, digits-AllDigits,
  digits-head, parse_int-digits, parse_int-show_int,
}

abbrev pub Without : ℕ → Text → Type 0
Without b = All (λ c. (c == b) ≡ false)

pub cut-found : (b : ℕ) (s rest : Text) → Without b s → cut b (s ++ b ∷ rest) ≡ some (s, rest)
unfolding cut
cut-found b [] rest h = let same : (b == b) ≡ true = ground arith in rw same refl
cut-found b (c ∷ s) rest (h, hs) = rw h (rw (cut-found b s rest hs) refl)

digits-Without : (b : ℕ) (s : Text) → 57 < b → AllDigits s → Without b s
digits-Without b [] big h = tt
digits-Without b (c ∷ s) big (h, hs) = (ground arith, digits-Without b s big hs)

show_int-Without : (z : ℤ) → Without 101 (show_int z)
unfolding show_int
show_int-Without (pos n) = digits-Without 101 (digits n) (omega arith) (digits-AllDigits n)
show_int-Without (negsuc n) =
    (refl, digits-Without 101 (digits (suc n)) (omega arith) (digits-AllDigits (suc n)))

take-length : (s rest : Text) → take (length s) (s ++ rest) ≡ s
take-length [] rest = refl
take-length (c ∷ s) rest = ap (λ t. c ∷ t) (take-length s rest)

drop-length : (s rest : Text) → drop (length s) (s ++ rest) ≡ rest
unfolding drop
drop-length [] rest = refl
drop-length (c ∷ s) rest = drop-length s rest

slice-whole :
    (start : ℕ) (s rest : Text)
    → start + length s < int_limit
    → slice start (length s) (s ++ rest) ≡ done (text s) rest
unfolding slice
slice-whole start s rest h =
    let whole : leb int_limit (start + length s) ≡ false = ground arith in
    let there : ltb (length (s ++ rest)) (length s) ≡ false =
      ground (arith, length-append s rest) in
    rw whole (rw there (rw (take-length s rest, drop-length s rest) refl))

digit-kind : (c : ℕ) → is_digit c ≡ true → kind_of c ≡ a_text
unfolding kind_of
digit-kind c h =
    let d : (c == 100) ≡ false = ground arith in
    let l : (c == 108) ≡ false = ground arith in
    let i : (c == 105) ≡ false = ground arith in rw d (rw l (rw i refl))

decode_text_step :
    (total fuel c : ℕ) (s : Text)
    → kind_of c ≡ a_text
    → decode total (suc fuel) (c ∷ s) ≡ text_past total (cut 58 (c ∷ s))
unfolding decode
decode_text_step total fuel c s h = rw (h, decode) refl

sized-whole :
    (total : ℕ) (o : Option ℤ) (s rest : Text)
    → o ≡ some (pos (length s))
    → (total - length (s ++ rest)) + length s < int_limit
    → sized total o (s ++ rest) ≡ done (text s) rest
sized-whole total o s rest e h = rw e (slice-whole _ s rest h)

-- A string behind a numeral for its length.
numbered :
    (total fuel c : ℕ) (t s rest : Text)
    → is_digit c ≡ true
    → Without 58 (c ∷ t)
    → parse_int (c ∷ t) ≡ some (pos (length s))
    → (total - length (s ++ rest)) + length s < int_limit
    → decode total (suc fuel) ((c ∷ t) ++ 58 ∷ (s ++ rest)) ≡ done (text s) rest
numbered total fuel c t s rest d w n h =
    decode_text_step total fuel c (t ++ 58 ∷ (s ++ rest)) (digit-kind c d)
    ∙ ap (text_past total) (cut-found 58 (c ∷ t) (s ++ rest) w)
    ∙ sized-whole total (parse_int (c ∷ t)) s rest n h

pub text-decode :
    (total fuel : ℕ) (s rest : Text)
    → length (encode_text s ++ rest) ≤ total
    → total < int_limit
    → decode total (suc fuel) (encode_text s ++ rest) ≡ done (text s) rest
unfolding encode_text
text-decode total fuel s rest h small =
    let (c, t, e, d) = digits-head (length s) in
    let size = length-append (digits (length s) ++ 58 ∷ s) rest in
    let inner = length-append (digits (length s)) (58 ∷ s) in
    let after = length-append s rest in
    let at : (digits (length s) ++ 58 ∷ s) ++ rest ≡ (c ∷ t) ++ 58 ∷ (s ++ rest) =
      append_assoc (digits (length s)) (58 ∷ s) rest ∙ ap (λ u. u ++ 58 ∷ (s ++ rest)) e in
    rw at (
      numbered total fuel c t s rest d
        (subst (Without 58) e
          (digits-Without 58 (digits (length s)) (omega arith) (digits-AllDigits (length s))))
        (subst (λ u. parse_int u ≡ some (pos (length s))) e
          (parse_int-digits (length s) (omega arith)))
        (omega arith))

pub int-decode :
    (total fuel : ℕ) (z : ℤ) (rest : Text)
    → IsInt64 z
    → decode total (suc fuel) (105 ∷ show_int z ++ 101 ∷ rest) ≡ done (int z) rest
unfolding decode kind_of
int-decode total fuel z rest h =
    ap int_past (cut-found 101 (show_int z) rest (show_int-Without z))
    ∙ ap (λ o. int_of o rest) (parse_int-show_int z h)

pub text-head : (s : Text) → (c : ℕ) × (t : Text) × (encode_text s ≡ c ∷ t) × ((c == 101) ≡ false)
unfolding encode_text
text-head s =
    let (c, t, e, d) = digits-head (length s) in
    (c, t ++ 58 ∷ s, ap (λ u. u ++ 58 ∷ s) e, ground arith)

-- No encoding starts with the byte that ends a list.
pub encode-head : (v : Value) → (c : ℕ) × (t : Text) × (encode v ≡ c ∷ t) × ((c == 101) ≡ false)
unfolding encode
encode-head (text s) = text-head s
encode-head (int z) = (105, show_int z ++ 101 ∷ [], refl, refl)
encode-head (bool true) = (105, 49 ∷ 101 ∷ [], refl, refl)
encode-head (bool false) = (105, 48 ∷ 101 ∷ [], refl, refl)
encode-head (list xs) = (108, encode_items xs ++ 101 ∷ [], refl, refl)
encode-head (dict fs) = (100, encode_fields fs ++ 101 ∷ [], refl, refl)

pub items_step :
    (total fuel c : ℕ) (s t : Text)
    → s ≡ c ∷ t
    → (c == 101) ≡ false
    → decode_items total (suc fuel) s
      ≡ and_then
          (decode total fuel s)
          (λ v rest. and_then (decode_items total fuel rest) λ xs left. done (cons v xs) left)
unfolding decode_items
items_step total fuel c s t e h = rw e (rw (h, decode_items) refl)

pub fields_step :
    (total fuel c : ℕ) (result : Fields) (s t : Text)
    → s ≡ c ∷ t
    → (c == 101) ≡ false
    → decode_fields total (suc fuel) result s
      ≡ and_then (decode total fuel s) (λ key rest. with_key key λ k.
        and_then (decode total fuel rest) λ v left. decode_fields total fuel (put k v result) left)
unfolding decode_fields
fields_step total fuel c result s t e h = rw e (rw (h, decode_fields) refl)

pub list_step :
    (total fuel : ℕ) (s : Text)
    → decode total (suc fuel) (108 ∷ s) ≡ as_list (decode_items total fuel s)
unfolding decode kind_of
list_step total fuel s = refl

pub dict_step :
    (total fuel : ℕ) (s : Text)
    → decode total (suc fuel) (100 ∷ s) ≡ as_dict (decode_fields total fuel end s)
unfolding decode kind_of
dict_step total fuel s = refl

pub items_end : (total fuel : ℕ) (s : Text) → decode_items total (suc fuel) (101 ∷ s) ≡ done nil s
unfolding decode_items
items_end total fuel s = refl

pub fields_end :
    (total fuel : ℕ) (result : Fields) (s : Text)
    → decode_fields total (suc fuel) result (101 ∷ s) ≡ done result s
unfolding decode_fields
fields_end total fuel result s = refl

pub key-decode :
    (total fuel : ℕ) (s rest : Text)
    → 0 < fuel
    → length (encode_text s ++ rest) ≤ total
    → total < int_limit
    → decode total fuel (encode_text s ++ rest) ≡ done (text s) rest
key-decode total zero s rest positive h small = absurd (omega arith)
key-decode total (suc fuel) s rest positive h small = text-decode total fuel s rest h small

pub encode_text-nonempty : (s : Text) → 0 < length (encode_text s)
encode_text-nonempty s = let (c, t, e, d) = text-head s in let size = ap length e in omega arith

pub encode-nonempty : (v : Value) → 0 < length (encode v)
encode-nonempty v = let (c, t, e, d) = encode-head v in let size = ap length e in omega arith
