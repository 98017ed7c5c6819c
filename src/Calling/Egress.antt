-- ===== src/Calling/Egress.antt =====
-- What controller.go of server/internal/runtime/calling asks of FreeSWITCH for a new channel: the
-- endpoint, the route and the variables, or why there is none. A message keeps its fixed words, not the
-- values that the source formats into it.
use monogo.Base.{
  ℤ, pos, negsuc, ℕ, suc, Bool, true, false, not, ◌&&◌, ◌||◌, List, [], ◌∷◌, ◌++◌, String, Text,
  codes, is_empty, text_eq, trim_space, ◌==◌, ltb, if◌then◌else◌,
}
use monogo.Errors.{plain}
use monogo.Effects.{Result, ok, err}

pub record OriginateRequest : Type 0 where
  pub call_id : ℕ
  pub destination : Text
  pub caller_id : Text
  pub trunk_id : ℕ
  pub host : Text
  pub port : ℕ
  pub transport : Text
  pub privacy : Bool
  pub dtmf_mode : Text
  pub media_encryption : Text
  pub max_duration_seconds : ℤ

-- What the code uses of Go's `strings.ToLower`, `len`, `unicode.IsDigit`, `strconv.Itoa`,
-- `net.JoinHostPort` and `uuid.UUID.String`.
pub record Library : Type 0 where
  pub to_lower : Text → Text
  pub byte_length : Text → ℕ
  pub is_digit : ℕ → Bool
  pub itoa : ℕ → Text
  pub join_host_port : Text → ℕ → Text
  pub uuid_text : ℕ → Text

abbrev pub Variables : Type 0
Variables = List (Text × Text)

-- `freeswitch.OriginateRequest`.
pub record SwitchOriginate : Type 0 where
  pub endpoint : Text
  pub destination : Text
  pub caller_id : Text
  pub variables : Variables

-- `strings.ContainsAny(s, " \t\r\n,{}[]")`, at one code point.
abbrev pub is_separator : ℕ → Bool
is_separator c =
    c == 0x20
    || c == 0x9
    || c == 0xd
    || c == 0xa
    || c == 0x2c
    || c == 0x7b
    || c == 0x7d
    || c == 0x5b
    || c == 0x5d

unfoldable pub has_separator : Text → Bool
has_separator [] = false
has_separator (c ∷ s) = is_separator c || has_separator s

abbrev is_transport : Text → Bool
is_transport t = text_eq t (codes "udp") || text_eq t (codes "tcp") || text_eq t (codes "tls")

pub egress_host : Text
egress_host = codes "opensips"

-- The checks of `validPSTNAddress` past its first character; `true` for a rest of digits.
module _ (lib : Library) where
  all_digits : Text → Bool
  all_digits [] = true
  all_digits (c ∷ s) = lib.is_digit c && all_digits s

  -- A plus sign at the head is passed over.
  after_plus : Text → Bool
  unfolding all_digits
  after_plus [] = false
  after_plus (c ∷ s) = if c == 0x2b then not (is_empty s) && all_digits s else all_digits (c ∷ s)

  valid_pstn_address : Text → Bool
  valid_pstn_address value = not (ltb 32 (lib.byte_length value)) && after_plus value

  endpoint_of : Text → Text
  endpoint_of destination =
      codes "sofia/internal/"
      ++ destination
      ++ codes "@"
      ++ lib.join_host_port egress_host 5060
      ++ codes ";transport=udp"

  route_uri : Text → ℕ → Text → Text
  route_uri host port transport =
      codes "sip:" ++ lib.join_host_port host port ++ codes ";transport=" ++ transport

  checked_egress : Text → ℕ → Text → Text → Text → Result (Text × Text)
  checked_egress host port transport destination caller_id =
      if is_empty host
      then err (plain "resolved route host is required")
      else if has_separator host
      then err (plain "resolved route host is invalid")
      else if port == 0
      then err (plain "resolved route port is required")
      else if not (is_transport transport)
      then err (plain "resolved route transport is invalid")
      else if not (valid_pstn_address destination)
      then err (plain "resolved route destination is invalid")
      else if not (is_empty caller_id) && not (valid_pstn_address caller_id)
      then err (plain "caller id is invalid")
      else ok (endpoint_of destination, route_uri host port transport)

  -- The endpoint and the route URI.
  pub free_switch_egress : OriginateRequest → Result (Text × Text)
  free_switch_egress req =
      checked_egress (trim_space req.host) req.port (lib.to_lower (trim_space req.transport))
        (trim_space req.destination) (trim_space req.caller_id)

  duration_variables : ℤ → Variables
  duration_variables (pos (suc n)) =
      (
        codes "execute_on_answer",
        codes "sched_hangup +" ++ lib.itoa (suc n) ++ codes " ALLOTTED_TIMEOUT",
      )
      ∷ []
  duration_variables _ = []

  abbrev is_negative : ℤ → Bool
  is_negative (pos n) = false
  is_negative (negsuc n) = true

  -- The variable of a mode, which is absent where the mode is empty.
  mode_variable : Text → (Text → Bool) → String → Text → Result Variables
  mode_variable name allowed message mode =
      if is_empty mode
      then ok []
      else if allowed mode
      then ok ((name, mode) ∷ [])
      else err (plain message)

  appended : Result Variables → Result Variables → Result Variables
  appended (ok a) (ok b) = ok (a ++ b)
  appended (ok a) (err e) = err e
  appended (err e) b = err e

  abbrev is_dtmf : Text → Bool
  is_dtmf m = text_eq m (codes "rfc2833") || text_eq m (codes "info") || text_eq m (codes "none")

  abbrev is_encrypted : Text → Bool
  is_encrypted m = text_eq m (codes "none") || text_eq m (codes "sdes_srtp")

  fixed_variables : OriginateRequest → Text → Variables
  fixed_variables req uri =
      (codes "leamout_call_id", lib.uuid_text req.call_id)
        ∷ (codes "sip_h_X-Leamout-Route-URI", uri)
        ∷ (codes "sip_h_X-Leamout-Trunk-ID", lib.uuid_text req.trunk_id)
        ∷ duration_variables req.max_duration_seconds
      ++ (if req.privacy then (codes "sip_h_X-Leamout-Privacy", codes "id") ∷ [] else [])

  pub egress_variables : OriginateRequest → Text → Result Variables
  egress_variables req uri =
      if req.call_id == 0
      then err (plain "call id is required")
      else if req.trunk_id == 0
      then err (plain "resolved trunk id is required")
      else if is_negative req.max_duration_seconds
      then err (plain "maximum duration cannot be negative")
      else appended (ok (fixed_variables req uri)) (
          appended
            (mode_variable (codes "dtmf_type") is_dtmf "DTMF mode is invalid"
              (lib.to_lower (trim_space req.dtmf_mode)))
            (mode_variable (codes "sip_h_X-Leamout-Media-Encryption") is_encrypted
              "media encryption is invalid" (lib.to_lower (trim_space req.media_encryption))))

  -- What the client is asked for, once all checks have passed.
  with_variables : OriginateRequest → Text → Result Variables → Result SwitchOriginate
  with_variables req endpoint (err e) = err e
  with_variables req endpoint (ok variables) = ok (record {
    endpoint = endpoint;
    destination = req.destination;
    caller_id = req.caller_id;
    variables = variables;
  })

  with_egress : OriginateRequest → Result (Text × Text) → Result SwitchOriginate
  with_egress req (err e) = err e
  with_egress req (ok (endpoint, uri)) = with_variables req endpoint (egress_variables req uri)

  pub switch_request : OriginateRequest → Result SwitchOriginate
  switch_request req = with_egress req (free_switch_egress req)
