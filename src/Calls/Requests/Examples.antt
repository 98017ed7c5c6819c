-- ===== src/Calls/Requests/Examples.antt =====
-- Normalization of a request, with the lower case of ASCII letters.
use monogo.Base.{
  ℕ, ◌+◌, ◌≡◌, refl, ◌&&◌, Bool, true, false, [], ◌∷◌, none, some, Text, codes, leb, arith,
  if◌then◌else◌, text_eq, trim_space,
}
use monogo.Base.Strings.{is_space}
use monogo.Effects.{ok}
use monogo.Calls.Model.{inbound, outbound}
use monogo.Calls.Requests.{
  CreateRequest, normalize_create_request, shaped_create, check_create, is_dtmf_mode, is_encryption,
  all_small, is_small,
}
use monogo.Calls.Requests.Stable.{Normal, normalize_create_request-Normal}

abbrev lower : ℕ → ℕ
lower c = if leb 65 c && leb c 90 then c + 32 else c

small-lower : (c : ℕ) → is_small c ≡ true → lower c ≡ c
small-lower c h = ground arith

abbrev to_lower : Text → Text
to_lower [] = []
to_lower (c ∷ s) = lower c ∷ to_lower s

first : (a b : Bool) → (a && b) ≡ true → a ≡ true
first a b h = ground arith

second : (a b : Bool) → (a && b) ≡ true → b ≡ true
second a b h = ground arith

small-to_lower : (t : Text) → all_small t ≡ true → to_lower t ≡ t
small-to_lower [] h = refl
small-to_lower (c ∷ s) h =
    cc (small-lower c (first _ _ h), small-to_lower s (second (is_small c) _ h))

abbrev asked : CreateRequest
asked = record {
  voice_agent_id = some 3;
  trunk_id = none;
  from_uri = codes " sip:a@example.org ";
  to_uri = codes "sip:b@example.org";
  privacy = false;
  dtmf_mode = codes " INFO";
  media_encryption = [];
  direction = inbound;
  sip_call_id = none;
}

abbrev shaped : CreateRequest
shaped = record asked {
  from_uri = codes "sip:a@example.org";
  dtmf_mode = codes "info";
  direction = outbound;
}

shaped_test : normalize_create_request to_lower asked ≡ ok shaped
unfolding normalize_create_request shaped_create check_create is_dtmf_mode is_encryption text_eq
    trim_space is_space
shaped_test = refl

normalize_create_request-Normal_example : Normal to_lower small-to_lower asked shaped
normalize_create_request-Normal_example =
    normalize_create_request-Normal to_lower small-to_lower asked shaped shaped_test
