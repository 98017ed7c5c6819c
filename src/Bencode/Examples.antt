-- ===== src/Bencode/Examples.antt =====
-- Tests of the encoding.
use monogo.Base.{text_eq, ℕ, List, ◌++◌, some, codes, ◌≡◌, ◌≢◌, refl, []}
use monogo.Base.{◌∷◌, arith, length, negsuc, true, Text}
use monogo.Bencode.{
  put, drop, Fields, text, int, bool, list, dict, nil, cons, end, field, encode, bdecode_map, done,
  panicked, exhausted, less, decode, kind_of, cut, slice, encode_text,
}
use monogo.Bencode.Decimal.{digits, digits_within, show_int, parse_int, parse_digits}
use monogo.Bencode.Total.{bdecode_map-ends}
use monogo.Bencode.Packet.{
  encode_request, sent, decode_response, hex, response_of, string_value, is_ok, answered,
}
use monogo.Bencode.Packet.Reply.{
  Says, decode_response-reply, FromPacket, decode_response-FromPacket,
}
use monogo.Bencode.RoundTrip.{WireFields, Wire, normal_fields, bdecode_map-encode}

-- {"bool": true, "command": "ping", "list": [-5]}
abbrev sample : Fields
sample = field (98 ∷ []) (bool true) (
    field (99 ∷ []) (text (112 ∷ 105 ∷ 110 ∷ 103 ∷ []))
      (field (108 ∷ []) (list (cons (int (negsuc 4)) nil)) end))

sample-WireFields : WireFields sample
unfolding Wire less
sample-WireFields = (tt, (refl, (refl, tt)), (tt, (refl, tt), ((omega arith, tt), tt, tt)))

sample-size : length (encode (dict sample)) ≡ 26
unfolding encode encode_text show_int digits digits_within
sample-size = refl

bdecode_map-encode_example : bdecode_map (encode (dict sample)) ≡ done (normal_fields sample) []
bdecode_map-encode_example =
    bdecode_map-encode sample sample-WireFields (let size = sample-size in omega arith)

-- `d9223372036854775807:`: the length is read, and the slice is past all bounds.
abbrev huge_length : Text
huge_length =
    100 ∷ 57 ∷ 50 ∷ 50 ∷ 51 ∷ 51 ∷ 55 ∷ 50 ∷ 48 ∷ 51 ∷ 54 ∷ 56 ∷ 53 ∷ 52 ∷ 55 ∷ 55 ∷ 53 ∷ 56 ∷ 48
    ∷ 55 ∷ 58 ∷ []

huge_length-panics : bdecode_map huge_length ≡ panicked
unfolding bdecode_map decode kind_of cut parse_int parse_digits slice
huge_length-panics = refl

bdecode_map-ends_example : bdecode_map huge_length ≢ exhausted
bdecode_map-ends_example = bdecode_map-ends huge_length

abbrev random : List ℕ
random = 10 ∷ 255 ∷ []

sample-sent :
    encode_request (codes "ping") end (some random)
    ≡ sent
        (hex random ++ 32 ∷ encode (dict (field (codes "command") (text (codes "ping")) end)))
        (hex random)
unfolding encode_request put
sample-sent = refl

decode_response-reply_example :
    Says
      (normal_fields sample)
      (decode_response (hex random ++ 32 ∷ encode (dict sample)) (hex random))
decode_response-reply_example =
    decode_response-reply (codes "ping") end (some random) _ (hex random) sample sample-sent
      sample-WireFields (let size = sample-size in omega arith)

-- `0a d6:result2:OKe`
abbrev reply : Text
reply =
    48 ∷ 97 ∷ 32 ∷ 100 ∷ 54 ∷ 58 ∷ 114 ∷ 101 ∷ 115 ∷ 117 ∷ 108 ∷ 116 ∷ 50 ∷ 58 ∷ 79 ∷ 75 ∷ 101 ∷ []

reply-answered :
    decode_response reply (48 ∷ 97 ∷ [])
    ≡ answered (response_of (field (codes "result") (text (79 ∷ 75 ∷ [])) end))
unfolding decode_response bdecode_map decode kind_of cut parse_int parse_digits slice response_of
    string_value is_ok put drop text_eq
reply-answered = refl

decode_response-FromPacket_example :
    FromPacket reply (48 ∷ 97 ∷ []) (decode_response reply (48 ∷ 97 ∷ []))
decode_response-FromPacket_example = decode_response-FromPacket reply (48 ∷ 97 ∷ [])
