-- ===== src/Bencode.antt =====
-- server/internal/integrations/rtpengine/protocol.go: the values that are sent to RTPEngine and read from
-- it. Text is a list of bytes. A Go map is the list of its entries in the order into which
-- `sort.Strings` puts its keys; `[]string` and `[]byte` are values like `[]any` and `string`.
-- A message stands without the error that it wraps.
pub mod Decimal
pub mod Ordered
pub mod Packet
pub mod Reading
pub mod RoundTrip
pub mod Total
mod Examples
use monogo.Base.{
  ℕ, zero, suc, ◌+◌, ◌-◌, Bool, true, false, ◌&&◌, ◌||◌, List, [], ◌∷◌, ◌++◌, Option, none, some,
  String, Text, is_empty, text_eq, length, take, ◌==◌, ltb, leb, if◌then◌else◌, ℤ, pos, negsuc,
}
use Decimal.{digits, show_int, parse_int, int_limit}

mutual
  pub data Value : Type 0 where
    text : Text → Value
    int : ℤ → Value
    bool : Bool → Value
    list : Items → Value
    dict : Fields → Value

  pub data Items : Type 0 where
    nil : Items
    cons : Value → Items → Items

  pub data Fields : Type 0 where
    end : Fields
    field : Text → Value → Fields → Fields

unfoldable pub encode_text : Text → Text
encode_text s = digits (length s) ++ 58 ∷ s

abbrev pub encode_bool : Bool → Text
encode_bool true = 105 ∷ 49 ∷ 101 ∷ []
encode_bool false = 105 ∷ 48 ∷ 101 ∷ []

-- `encodeValue`.
unfoldable mutual
  pub encode : Value → Text
  encode (text s) = encode_text s
  encode (int z) = 105 ∷ show_int z ++ 101 ∷ []
  encode (bool b) = encode_bool b
  encode (list xs) = 108 ∷ encode_items xs ++ 101 ∷ []
  encode (dict fs) = 100 ∷ encode_fields fs ++ 101 ∷ []

  pub encode_items : Items → Text
  encode_items nil = []
  encode_items (cons v xs) = encode v ++ encode_items xs

  pub encode_fields : Fields → Text
  encode_fields end = []
  encode_fields (field k v fs) = encode_text k ++ (encode v ++ encode_fields fs)

-- What a decoding comes to: a value and the rest of the data, an error, a panic of the Go runtime, or
-- no fuel left.
pub data Decoded (A : Type 0) : Type 0 where
  done : A → Text → Decoded A
  refused : String → Decoded A
  panicked : Decoded A
  exhausted : Decoded A

abbrev pub and_then : {A B : Type 0} → Decoded A → (A → Text → Decoded B) → Decoded B
and_then (done a rest) k = k a rest
and_then (refused message) k = refused message
and_then panicked k = panicked
and_then exhausted k = exhausted

-- `bytes.IndexByte`: the data before the first such byte, and after it.
unfoldable pub cut : ℕ → Text → Option (Text × Text)
cut b [] = none
cut b (c ∷ s) =
    let rest = cut b s in
    if c == b then some ([], s) else elim rest [ none ↦ none | some (s1, s2) ↦ some (c ∷ s1, s2) ]

unfoldable pub drop : ℕ → Text → Text
drop zero s = s
drop (suc n) [] = []
drop (suc n) (c ∷ s) = drop n s

-- The order of `sort.Strings`.
unfoldable pub less : Text → Text → Bool
less s [] = false
less [] (d ∷ t) = true
less (c ∷ s) (d ∷ t) = ltb c d || (c == d && less s t)

-- `result[key] = value`.
unfoldable pub put : Text → Value → Fields → Fields
put k v end = field k v end
put k v (field l u fs) =
    let rest = put k v fs in
    if less l k
    then field l u rest
    else if text_eq l k
    then field k v fs
    else field k v (field l u fs)

-- The bytes of a string past its colon, of which `n` are asked for at the index `start`. The sum of the
-- two wraps to a negative number at `2 ^ 63`; the test against the length lets it pass and the slice
-- panics.
unfoldable pub slice : ℕ → ℕ → Text → Decoded Value
slice start n rest =
    if leb int_limit (start + n)
    then panicked
    else if ltb (length rest) n
    then refused "truncated bencode string"
    else done (text (take n rest)) (drop n rest)

abbrev pub sized : ℕ → Option ℤ → Text → Decoded Value
sized total none rest = refused "invalid bencode string length"
sized total (some (negsuc n)) rest = refused "invalid bencode string length"
sized total (some (pos n)) rest = slice (total - length rest) n rest

abbrev pub text_past : ℕ → Option (Text × Text) → Decoded Value
text_past total none = refused "invalid bencode string"
text_past total (some ([], rest)) = refused "invalid bencode string"
text_past total (some (c ∷ s, rest)) = sized total (parse_int (c ∷ s)) rest

abbrev pub int_of : Option ℤ → Text → Decoded Value
int_of none rest = refused "invalid bencode integer"
int_of (some z) rest = done (int z) rest

abbrev pub int_past : Option (Text × Text) → Decoded Value
int_past none = refused "unterminated bencode integer"
int_past (some (s, rest)) = int_of (parse_int s) rest

-- The `switch` on the first byte.
pub data Kind : Type 0 where
  a_dict a_list an_int a_text : Kind

unfoldable pub kind_of : ℕ → Kind
kind_of c =
    if c == 100 then a_dict else if c == 108 then a_list else if c == 105 then an_int else a_text

abbrev pub as_list : Decoded Items → Decoded Value
as_list d = and_then d (λ xs rest. done (list xs) rest)

abbrev pub as_dict : Decoded Fields → Decoded Value
as_dict d = and_then d (λ fs rest. done (dict fs) rest)

abbrev pub with_key : Value → (Text → Decoded Fields) → Decoded Fields
with_key (text k) go = go k
with_key _ go = refused "bencode dictionary key is not a string"

-- `decodeValue` at the data that is left, of `total` bytes in all, by fuel.
-- Each byte may cost two calls: one that goes into a list and one for what stands there.
unfoldable mutual
  pub decode : ℕ → ℕ → Text → Decoded Value
  decode total zero s = exhausted
  decode total (suc fuel) [] = refused "truncated bencode value"
  decode total (suc fuel) (c ∷ s) = elim (kind_of c) [
    | a_dict ↦ as_dict (decode_fields total fuel end s)
    | a_list ↦ as_list (decode_items total fuel s)
    | an_int ↦ int_past (cut 101 s)
    | a_text ↦ text_past total (cut 58 (c ∷ s))
  ]

  pub decode_items : ℕ → ℕ → Text → Decoded Items
  decode_items total zero s = exhausted
  decode_items total (suc fuel) [] = refused "unterminated bencode list"
  decode_items total (suc fuel) (c ∷ s) = elim (c == 101) [
    | true ↦ done nil s
    | false ↦
        and_then (decode total fuel (c ∷ s))
          λ v rest. and_then (decode_items total fuel rest) λ xs left. done (cons v xs) left
  ]

  pub decode_fields : ℕ → ℕ → Fields → Text → Decoded Fields
  decode_fields total zero result s = exhausted
  decode_fields total (suc fuel) result [] = refused "unterminated bencode dictionary"
  decode_fields total (suc fuel) result (c ∷ s) = elim (c == 101) [
    | true ↦ done result s
    | false ↦ and_then (decode total fuel (c ∷ s)) λ key rest. with_key key λ k.
        and_then (decode total fuel rest) λ v left. decode_fields total fuel (put k v result) left
  ]

abbrev pub whole_dict : Value → Text → Decoded Fields
whole_dict v (c ∷ rest) = refused "trailing data after bencode value"
whole_dict (dict fs) [] = done fs []
whole_dict _ [] = refused "RTPEngine response is not a dictionary"

-- `bdecodeMap`.
unfoldable pub bdecode_map : Text → Decoded Fields
bdecode_map data_bytes =
    let n = length data_bytes in and_then (decode n (suc (n + n)) data_bytes) whole_dict
