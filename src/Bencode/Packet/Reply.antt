-- ===== src/Bencode/Packet/Reply.antt =====
-- A response belongs to the request whose cookie it carries.
use monogo.Base.{
  ℕ, suc, ◌+◌, ◌/◌, ◌%◌, ◌<◌, ◌≡◌, refl, ap, sym, ◌≢◌, if◌then◌else◌, ◌∙◌, true, false, List, [],
  ◌∷◌, ◌++◌, Option, none, some, Text, is_empty, text_eq, codes, text_eq_refl, eq_of_text_eq,
  length, ◌==◌, arith, Bool-cases, inl, inr, subst,
}
use mathlib.Core.Bool.{true≢false}
use monogo.Bencode.{
  Value, Fields, end, field, text, int, bool, list, dict, encode, decode, and_then, whole_dict, cut,
  bdecode_map, Decoded, done, refused, panicked, exhausted,
}
use monogo.Bencode.Decimal.{int_limit}
use monogo.Bencode.Reading.{Without, cut-found}
use monogo.Bencode.Total.{bdecode_map-ends}
use monogo.Bencode.RoundTrip.{WireFields, normal_fields, bdecode_map-encode}
use monogo.Bencode.Packet.{
  hex_digit, hex, Request, sent, unsent, with_cookie, encode_request, Response, response_of, is_ok,
  string_value, Answer, answered, failed, invalid, crashed, unended, judged, answer_of, paired,
  decode_response,
}

hex_digit-Without : (n : ℕ) → (hex_digit n == 32) ≡ false
hex_digit-Without n = ground arith

hex-Without : (bs : List ℕ) → Without 32 (hex bs)
unfolding hex
hex-Without [] = tt
hex-Without (b ∷ bs) = (hex_digit-Without (b / 16), (hex_digit-Without (b % 16), hex-Without bs))

paired-own :
    (cookie body : Text) (o : Option (Text × Text))
    → o ≡ some (cookie, body)
    → paired cookie o ≡ answer_of (bdecode_map body)
paired-own cookie body o e = rw e (rw (text_eq_refl cookie) refl)

hex-reply :
    (random : List ℕ) (fs : Fields)
    → WireFields fs
    → length (encode (dict fs)) < int_limit
    → decode_response (hex random ++ 32 ∷ encode (dict fs)) (hex random)
      ≡ judged (response_of (normal_fields fs))
unfolding decode_response
hex-reply random fs w small =
    paired-own (hex random) (encode (dict fs)) _
      (cut-found 32 (hex random) (encode (dict fs)) (hex-Without random))
    ∙ ap answer_of (bdecode_map-encode fs w small)

abbrev HasCookie : Request → Type 0
HasCookie (sent packet cookie) = (random : List ℕ) × (cookie ≡ hex random)
HasCookie (unsent message) = Unit {0}

with_cookie-HasCookie : (body : Text) (o : Option (List ℕ)) → HasCookie (with_cookie body o)
with_cookie-HasCookie body none = tt
with_cookie-HasCookie body (some random) = (random, refl)

encode_request-HasCookie :
    (command : Text) (params : Fields) (o : Option (List ℕ))
    → HasCookie (encode_request command params o)
unfolding encode_request
encode_request-HasCookie command params o = elim (Bool-cases (is_empty command)) [
  | inl e ↦ rw e tt
  | inr e ↦ rw e (with_cookie-HasCookie _ o)
]

-- The value that a map holds under a key, if any: the first, of keys that differ.
pub data Lookup (k : Text) : Fields → Option Value → Type 0 where
  here : (v : Value) (fs : Fields) → Lookup k (field k v fs) (some v)
  there :
      (l : Text) (v : Value) (fs : Fields) (o : Option Value)
      → l ≢ k
      → Lookup k fs o
      → Lookup k (field l v fs) o
  missing : Lookup k end none

-- What a response takes from it: a text, or nothing where there is no text.
abbrev pub text_of : Option Value → Text
text_of (some (text s)) = s
text_of _ = []

abbrev pub Holds : Text → Fields → Text → Type 0
Holds k fs s = (o : Option Value) × Lookup k fs o × (s ≡ text_of o)

string_value-field :
    (k l : Text) (v : Value) (fs : Fields)
    → string_value k (field l v fs) ≡ (if text_eq l k then text_of (some v) else string_value k fs)
unfolding string_value
string_value-field k l (text s) fs = refl
string_value-field k l (int z) fs = refl
string_value-field k l (bool b) fs = refl
string_value-field k l (list xs) fs = refl
string_value-field k l (dict gs) fs = refl

neq_of_text_eq : (s t : Text) → text_eq s t ≡ false → s ≢ t
neq_of_text_eq s t h e = true≢false (sym (text_eq_refl t) ∙ ap (λ u. text_eq u t) (sym e) ∙ h)

string_value-Holds : (k : Text) (fs : Fields) → Holds k fs (string_value k fs)
unfolding string_value
string_value-Holds k end = (none, missing, refl)
string_value-Holds k (field l v fs) = elim (Bool-cases (text_eq l k)) [
  | inl e ↦
      subst (λ m. Holds k (field m v fs) (string_value k (field l v fs)))
        (sym (eq_of_text_eq l k e))
        (
          some v,
          here v fs,
          string_value-field k l v fs
              ∙ ap (λ b. if b then text_of (some v) else string_value k fs) e,
        )
  | inr e ↦
      let (o, at, same) = string_value-Holds k fs in
      (
        o,
        there l v fs o (neq_of_text_eq l k e) at,
        string_value-field k l v fs
            ∙ ap (λ b. if b then text_of (some v) else string_value k fs) e
            ∙ same,
      )
]

-- The response reads a map: its result and its error are the texts under these keys.
abbrev pub Reads : Fields → Response → Type 0
Reads fs r =
    (r.values ≡ fs) × Holds (codes "result") fs r.result × Holds (codes "error-reason") fs r.error

response_of-Reads : (fs : Fields) → Reads fs (response_of fs)
unfolding response_of
response_of-Reads fs =
    (refl, string_value-Holds (codes "result") fs, string_value-Holds (codes "error-reason") fs)

-- The answer to a map: a success where the result says so, else a failure.
abbrev pub Says : Fields → Answer → Type 0
Says fs (answered r) = Reads fs r × (is_ok r.result ≡ true)
Says fs (failed r) = Reads fs r × (is_ok r.result ≡ false)
Says fs (invalid message) = ⊥
Says fs crashed = ⊥
Says fs unended = ⊥

judged-Says : (fs : Fields) (r : Response) → Reads fs r → Says fs (judged r)
judged-Says fs r h = elim (Bool-cases (is_ok r.result)) [
  | inl good ↦ rw good (h, good)
  | inr bad ↦ rw bad (h, bad)
]

-- A request that was sent is answered by its cookie, a space and an encoded map, of distinct keys in
-- order, integers of 64 bits and less than 2^63 bytes: then the response holds that map, with each Boolean
-- as the number 1 or 0; its result and its error are the texts under `result` and `error-reason`, or
-- empty; and it is a success exactly if its result says ok.
pub decode_response-reply :
    (command : Text) (params : Fields) (random : Option (List ℕ)) (packet cookie : Text)
    (fs : Fields)
    → encode_request command params random ≡ sent packet cookie
    → WireFields fs
    → length (encode (dict fs)) < int_limit
    → Says (normal_fields fs) (decode_response (cookie ++ 32 ∷ encode (dict fs)) cookie)
decode_response-reply command params random packet cookie fs e w small =
    let (bytes, same) = subst HasCookie e (encode_request-HasCookie command params random) in
    subst (λ c. Says (normal_fields fs) (decode_response (c ++ 32 ∷ encode (dict fs)) c)) (sym same)
      (subst (Says (normal_fields fs)) (sym (hex-reply bytes fs w small))
        (judged-Says _ (response_of (normal_fields fs)) (response_of-Reads (normal_fields fs))))

-- Where a piece is cut off, it stands before the byte.
abbrev Joined : ℕ → Text → Option (Text × Text) → Type 0
Joined b s none = Unit {0}
Joined b s (some (front, rest)) = s ≡ front ++ b ∷ rest

cons-Joined :
    (b c : ℕ) (s : Text) (o : Option (Text × Text))
    → Joined b s o
    → Joined b (c ∷ s) (elim o [ none ↦ none | some (s1, s2) ↦ some (c ∷ s1, s2) ])
cons-Joined b c s none h = tt
cons-Joined b c s (some (front, rest)) h = ap (λ t. c ∷ t) h

cut-Joined : (b : ℕ) (s : Text) → Joined b s (cut b s)
unfolding cut
cut-Joined b [] = tt
cut-Joined b (c ∷ s) = elim (Bool-cases (c == b)) [
  | inl e ↦ let same : c ≡ b = ground arith in rw e (ap (λ d. d ∷ s) same)
  | inr e ↦ rw e (cons-Joined b c s (cut b s) (cut-Joined b s))
]

-- The packet is the cookie, a space and a body.
abbrev pub Body : Text → Text → Text → Type 0
Body packet cookie body = packet ≡ cookie ++ 32 ∷ body

-- What an answer comes from.
abbrev pub FromPacket : Text → Text → Answer → Type 0
FromPacket packet cookie (answered r) =
    (body : Text) × Body packet cookie body
    × (bdecode_map body ≡ done r.values [])
    × Says r.values (answered r)
FromPacket packet cookie (failed r) =
    (body : Text) × Body packet cookie body
    × (bdecode_map body ≡ done r.values [])
    × Says r.values (failed r)
FromPacket packet cookie (invalid message) = Unit {0}
FromPacket packet cookie crashed =
    (body : Text) × Body packet cookie body × (bdecode_map body ≡ panicked)
FromPacket packet cookie unended = ⊥

abbrev ToEnd : Decoded Fields → Type 0
ToEnd (done fs rest) = rest ≡ []
ToEnd _ = Unit {0}

whole_dict-ToEnd : (d : Decoded Value) → ToEnd (and_then d whole_dict)
whole_dict-ToEnd (done v (c ∷ rest)) = tt
whole_dict-ToEnd (done (text s) []) = tt
whole_dict-ToEnd (done (int z) []) = tt
whole_dict-ToEnd (done (bool b) []) = tt
whole_dict-ToEnd (done (list xs) []) = tt
whole_dict-ToEnd (done (dict fs) []) = refl
whole_dict-ToEnd (refused message) = tt
whole_dict-ToEnd panicked = tt
whole_dict-ToEnd exhausted = tt

bdecode_map-ToEnd : (body : Text) → ToEnd (bdecode_map body)
unfolding bdecode_map
bdecode_map-ToEnd body =
    whole_dict-ToEnd (decode (length body) (suc (length body + length body)) body)

judged-FromPacket :
    (packet cookie body : Text) (r : Response)
    → Body packet cookie body
    → bdecode_map body ≡ done r.values []
    → Reads r.values r
    → FromPacket packet cookie (judged r)
judged-FromPacket packet cookie body r e h reads = elim (Bool-cases (is_ok r.result)) [
  | inl good ↦ rw good (body, e, h, (reads, good))
  | inr bad ↦ rw bad (body, e, h, (reads, bad))
]

whole-FromPacket :
    (packet cookie body : Text) (d : Decoded Fields)
    → Body packet cookie body
    → bdecode_map body ≡ d
    → FromPacket packet cookie (answer_of d)
unfolding response_of
whole-FromPacket packet cookie body (done fs rest) e h =
    let to_end : rest ≡ [] = subst ToEnd h (bdecode_map-ToEnd body) in
    judged-FromPacket packet cookie body (response_of fs) e (h ∙ ap (done fs) to_end)
      (response_of-Reads fs)
whole-FromPacket packet cookie body (refused message) e h = tt
whole-FromPacket packet cookie body panicked e h = (body, e, h)
whole-FromPacket packet cookie body exhausted e h = absurd (bdecode_map-ends body h)

paired-FromPacket :
    (packet cookie : Text) (o : Option (Text × Text))
    → Joined 32 packet o
    → FromPacket packet cookie (paired cookie o)
paired-FromPacket packet cookie none h = tt
paired-FromPacket packet cookie (some (own, body)) h = elim (Bool-cases (text_eq own cookie)) [
  | inl e ↦
      let same = eq_of_text_eq own cookie e in
      rw e (
        whole-FromPacket packet cookie body (bdecode_map body) (h ∙ ap (λ u. u ++ 32 ∷ body) same)
          refl)
  | inr e ↦ rw e tt
]

-- Decoding a packet ends, in one of four ways. A response, a failed one too, comes only from a packet
-- that is the cookie, a space and an encoding, to the end of the packet, of the map it holds; its result
-- and its error are the texts under `result` and `error-reason` there, or empty; and it is a success
-- exactly if its result says ok. Else there is an error, or the decoder panics, which takes the cookie, a
-- space and a body at which it does.
pub decode_response-FromPacket :
    (packet cookie : Text) → FromPacket packet cookie (decode_response packet cookie)
unfolding decode_response
decode_response-FromPacket packet cookie =
    paired-FromPacket packet cookie (cut 32 packet) (cut-Joined 32 packet)
