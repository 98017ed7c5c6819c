-- ===== src/Bencode/RoundTrip.antt =====
-- What is encoded is decoded.
use monogo.Base.{
  ℕ, zero, suc, ◌+◌, ◌≤◌, ◌<◌, ◌≡◌, refl, sym, ap, ◌∙◌, Bool, true, false, [], ◌∷◌, ◌++◌, Text,
  length, length-append, arith, pos,
}
use mathlib.Core.List.{append_assoc, append-nil}
use monogo.Bencode.{
  Value, Items, Fields, text, int, bool, list, dict, nil, cons, end, field, encode, encode_items,
  encode_fields, encode_text, encode_bool, done, and_then, cut, put, kind_of, as_list, as_dict,
  with_key, decode, decode_items, decode_fields, bdecode_map, whole_dict,
}
use monogo.Bencode.Decimal.{show_int, parse_int, parse_digits, int_limit, IsInt64}
use monogo.Bencode.Reading.{
  text-decode, int-decode, items_step, fields_step, list_step, dict_step, items_end, fields_end,
  key-decode, encode_text-nonempty, encode-nonempty, text-head, encode-head,
}
use monogo.Bencode.Ordered.{
  AllAbove, append_fields, Before, put-end, append_fields_assoc, snoc-Before, start-Before,
  append_fields-end,
}

-- What is read back: a Boolean comes back as the number 1 or 0.
mutual
  pub normal : Value → Value
  normal (text s) = text s
  normal (int z) = int z
  normal (bool true) = int (pos 1)
  normal (bool false) = int (pos 0)
  normal (list xs) = list (normal_items xs)
  normal (dict fs) = dict (normal_fields fs)

  pub normal_items : Items → Items
  normal_items nil = nil
  normal_items (cons v xs) = cons (normal v) (normal_items xs)

  pub normal_fields : Fields → Fields
  normal_fields end = end
  normal_fields (field k v fs) = field k (normal v) (normal_fields fs)

-- The values of the program: integers are of 64 bits, and the keys of a map are distinct, in order.
unfoldable mutual
  pub Wire : Value → Type 0
  Wire (text s) = Unit {0}
  Wire (int z) = IsInt64 z
  Wire (bool b) = Unit {0}
  Wire (list xs) = WireItems xs
  Wire (dict fs) = WireFields fs

  pub WireItems : Items → Type 0
  WireItems nil = Unit {0}
  WireItems (cons v xs) = Wire v × WireItems xs

  pub WireFields : Fields → Type 0
  WireFields end = Unit {0}
  WireFields (field k v fs) = Wire v × AllAbove k fs × WireFields fs

bool-decode :
    (total fuel : ℕ) (b : Bool) (rest : Text)
    → decode total (suc fuel) (encode_bool b ++ rest) ≡ done (normal (bool b)) rest
unfolding decode kind_of cut parse_int parse_digits normal
bool-decode total fuel true rest = refl
bool-decode total fuel false rest = refl

mutual
  unfolding encode Wire normal

  encode-decode :
      (v : Value) (total fuel : ℕ) (rest : Text)
      → Wire v
      → length (encode v) ≤ fuel
      → length (encode v ++ rest) ≤ total
      → total < int_limit
      → decode total fuel (encode v ++ rest) ≡ done (normal v) rest
  encode-decode (text s) total zero rest w f h small =
      let some_byte = encode_text-nonempty s in absurd (omega arith)
  encode-decode (text s) total (suc fuel) rest w f h small = text-decode total fuel s rest h small
  encode-decode (int z) total zero rest w f h small = absurd (omega arith)
  encode-decode (int z) total (suc fuel) rest w f h small =
      ap (λ u. decode total (suc fuel) (105 ∷ u)) (append_assoc (show_int z) (101 ∷ []) rest)
      ∙ int-decode total fuel z rest w
  encode-decode (bool true) total zero rest w f h small = absurd (omega arith)
  encode-decode (bool true) total (suc fuel) rest w f h small = bool-decode total fuel true rest
  encode-decode (bool false) total zero rest w f h small = absurd (omega arith)
  encode-decode (bool false) total (suc fuel) rest w f h small = bool-decode total fuel false rest
  encode-decode (list xs) total zero rest w f h small = absurd (omega arith)
  encode-decode (list xs) total (suc fuel) rest w f h small =
      let all = append_assoc (encode_items xs) (101 ∷ []) rest in
      let same = ap length all in
      let size = length-append (encode_items xs) (101 ∷ []) in
      ap (λ u. decode total (suc fuel) (108 ∷ u)) all
      ∙ list_step total fuel (encode_items xs ++ 101 ∷ rest)
      ∙ ap as_list (items-decode xs total fuel rest w (omega arith) (omega arith) small)
  encode-decode (dict fs) total zero rest w f h small = absurd (omega arith)
  encode-decode (dict fs) total (suc fuel) rest w f h small =
      let all = append_assoc (encode_fields fs) (101 ∷ []) rest in
      let same = ap length all in
      let size = length-append (encode_fields fs) (101 ∷ []) in
      ap (λ u. decode total (suc fuel) (100 ∷ u)) all
      ∙ dict_step total fuel (encode_fields fs ++ 101 ∷ rest)
      ∙ ap as_dict (
          fields-decode fs total fuel end rest w (start-Before fs) (omega arith) (omega arith)
            small)

  items-decode :
      (xs : Items) (total fuel : ℕ) (rest : Text)
      → WireItems xs
      → length (encode_items xs) < fuel
      → length (encode_items xs ++ 101 ∷ rest) ≤ total
      → total < int_limit
      → decode_items total fuel (encode_items xs ++ 101 ∷ rest) ≡ done (normal_items xs) rest
  items-decode nil total zero rest w f h small = absurd (omega arith)
  items-decode nil total (suc fuel) rest w f h small = items_end total fuel rest
  items-decode (cons v xs) total zero rest w f h small = absurd (omega arith)
  items-decode (cons v xs) total (suc fuel) rest (w, ws) f h small =
      let more = encode_items xs ++ 101 ∷ rest in
      let all = append_assoc (encode v) (encode_items xs) (101 ∷ rest) in
      let same = ap length all in
      let size = length-append (encode v) (encode_items xs) in
      let outer = length-append (encode v) more in
      let some_byte = encode-nonempty v in
      let (c, t, e, d) = encode-head v in
      ap (decode_items total (suc fuel)) all
      ∙ items_step total fuel c (encode v ++ more) (t ++ more) (ap (λ u. u ++ more) e) d
      ∙ ap
          (λ r.
            and_then r
              λ u left. and_then (decode_items total fuel left) λ us last. done (cons u us) last)
          (encode-decode v total fuel more w (omega arith) (omega arith) small)
      ∙ ap (λ r. and_then r λ us last. done (cons (normal v) us) last)
          (items-decode xs total fuel rest ws (omega arith) (omega arith) small)

  fields-decode :
      (fs : Fields) (total fuel : ℕ) (result : Fields) (rest : Text)
      → WireFields fs
      → Before result fs
      → length (encode_fields fs) < fuel
      → length (encode_fields fs ++ 101 ∷ rest) ≤ total
      → total < int_limit
      → decode_fields total fuel result (encode_fields fs ++ 101 ∷ rest)
        ≡ done (append_fields result (normal_fields fs)) rest
  fields-decode end total zero result rest w b f h small = absurd (omega arith)
  fields-decode end total (suc fuel) result rest w b f h small =
      fields_end total fuel result rest ∙ ap (λ r. done r rest) (sym (append_fields-end result))
  fields-decode (field k v fs) total zero result rest w b f h small = absurd (omega arith)
  fields-decode (field k v fs) total (suc fuel) result rest (w, above, ws) (b, bs) f h small =
      let last = encode_fields fs ++ 101 ∷ rest in
      let more = encode v ++ last in
      let all =
        append_assoc (encode_text k) (encode v ++ encode_fields fs) (101 ∷ rest)
        ∙ ap (λ u. encode_text k ++ u) (append_assoc (encode v) (encode_fields fs) (101 ∷ rest)) in
      let same = ap length all in
      let size = length-append (encode_text k) (encode v ++ encode_fields fs) in
      let inner = length-append (encode v) (encode_fields fs) in
      let outer = length-append (encode_text k) more in
      let after = length-append (encode v) last in
      let key_byte = encode_text-nonempty k in
      let some_byte = encode-nonempty v in
      let (c, t, e, d) = text-head k in
      ap (decode_fields total (suc fuel) result) all
      ∙ fields_step total fuel c result (encode_text k ++ more) (t ++ more) (ap (λ u. u ++ more) e)
          d
      ∙ ap
          (λ r. and_then r λ key left. with_key key λ l.
            and_then (decode total fuel left)
              λ u end_of. decode_fields total fuel (put l u result) end_of)
          (key-decode total fuel k more (omega arith) (omega arith) small)
      ∙ ap (λ r. and_then r λ u end_of. decode_fields total fuel (put k u result) end_of)
          (encode-decode v total fuel last w (omega arith) (omega arith) small)
      ∙ ap (λ r. decode_fields total fuel r last) (put-end k (normal v) result b)
      ∙ fields-decode fs total fuel (append_fields result (field k (normal v) end)) rest ws
          (snoc-Before result k (normal v) fs bs above) (omega arith) (omega arith) small
      ∙ ap (λ r. done r rest)
          (append_fields_assoc result (field k (normal v) end) (normal_fields fs))

-- A map whose keys are distinct and in order, with integers of 64 bits, is encoded to less than 2^63
-- bytes: then those bytes are decoded to that map, to their end, with each Boolean in it as the number 1
-- or 0; no data is refused, nothing panics and the fuel is enough.
pub bdecode_map-encode :
    (fs : Fields)
    → WireFields fs
    → length (encode (dict fs)) < int_limit
    → bdecode_map (encode (dict fs)) ≡ done (normal_fields fs) []
unfolding bdecode_map normal Wire
bdecode_map-encode fs w small =
    let bytes = encode (dict fs) in
    let none_left = append-nil bytes in
    let same = ap length none_left in
    ap (λ u. and_then (decode (length bytes) (suc (length bytes + length bytes)) u) whole_dict)
      (sym none_left)
    ∙ ap (λ r. and_then r whole_dict)
        (encode-decode (dict fs) (length bytes) (suc (length bytes + length bytes)) [] w
          (omega arith) (omega arith) small)
