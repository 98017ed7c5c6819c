-- ===== src/Bencode/Packet.antt =====
-- server/internal/integrations/rtpengine/protocol.go: requests, responses and the cookies that pair
-- them. What `rand.Read` gives is a parameter: the bytes, or none where it fails.
pub mod Reply
use monogo.Base.{
  ℕ, ◌+◌, ◌/◌, ◌%◌, Bool, true, false, ◌&&◌, ◌||◌, List, [], ◌∷◌, ◌++◌, Option, none, some, String,
  Text, codes, is_empty, text_eq, ◌==◌, ltb, if◌then◌else◌,
}
use monogo.Bencode.{
  Value, Fields, text, int, bool, list, dict, end, field, encode, put, cut, bdecode_map, Decoded,
  done, refused, panicked, exhausted,
}

-- `newCookie`: two hexadecimal digits for each byte.
abbrev pub hex_digit : ℕ → ℕ
hex_digit n = if ltb n 10 then 48 + n else 87 + n

unfoldable pub hex : List ℕ → Text
hex [] = []
hex (b ∷ bs) = hex_digit (b / 16) ∷ hex_digit (b % 16) ∷ hex bs

-- `encodeRequest`.
pub data Request : Type 0 where
  sent : (packet cookie : Text) → Request
  unsent : String → Request

abbrev pub with_cookie : Text → Option (List ℕ) → Request
with_cookie body none = unsent "generate RTPEngine cookie"
with_cookie body (some random) = sent (hex random ++ 32 ∷ body) (hex random)

unfoldable pub encode_request : Text → Fields → Option (List ℕ) → Request
encode_request command params random =
    if is_empty command
    then unsent "RTPEngine command is required"
    else with_cookie (encode (dict (put (codes "command") (text command) params))) random

pub record Response : Type 0 where
  result : Text
  error : Text
  values : Fields

-- `values[key]`, and `stringValue` of it: nothing for a missing key or another type.
unfoldable pub string_value : Text → Fields → Text
string_value k end = []
string_value k (field l (text s) fs) =
    let rest = string_value k fs in if text_eq l k then s else rest
string_value k (field l _ fs) = let rest = string_value k fs in if text_eq l k then [] else rest

unfoldable pub response_of : Fields → Response
response_of fs = record {
  result = string_value (codes "result") fs;
  error = string_value (codes "error-reason") fs;
  values = fs;
}

-- `Response.OK`: `strings.EqualFold` takes the Kelvin sign for a `k` as well.
unfoldable pub is_ok : Text → Bool
is_ok (c ∷ k ∷ []) = (c == 111 || c == 79) && (k == 107 || k == 75)
is_ok (c ∷ x ∷ y ∷ z ∷ []) = (c == 111 || c == 79) && (x == 226 && (y == 132 && z == 170))
is_ok _ = false

-- `decodeResponse`: a response, a response with the error that the request failed, an error alone, a
-- panic, or no fuel left.
pub data Answer : Type 0 where
  answered : Response → Answer
  failed : Response → Answer
  invalid : String → Answer
  crashed : Answer
  unended : Answer

abbrev pub judged : Response → Answer
judged r = if is_ok r.result then answered r else failed r

abbrev pub answer_of : Decoded Fields → Answer
answer_of (done fs rest) = judged (response_of fs)
answer_of (refused message) = invalid "decode RTPEngine response"
answer_of panicked = crashed
answer_of exhausted = unended

abbrev pub paired : Text → Option (Text × Text) → Answer
paired cookie none = invalid "invalid RTPEngine response cookie"
paired cookie (some (own, body)) =
    if text_eq own cookie
    then answer_of (bdecode_map body)
    else invalid "invalid RTPEngine response cookie"

unfoldable pub decode_response : Text → Text → Answer
decode_response packet cookie = paired cookie (cut 32 packet)
