-- ===== src/Calls/Requests.antt =====
-- The requests of server/internal/telephony/calls that validation.go brings into shape. Lower case is
-- a parameter, `strings.ToLower`.
pub mod Stable
mod Examples
use monogo.Base.{
  ℕ, Bool, true, false, not, ◌&&◌, ◌||◌, [], ◌∷◌, Option, none, some, String, Text, codes, is_empty,
  text_eq, trim_space, ◌==◌, leb,
}
use monogo.Errors.{Error, new_bad_request}
use monogo.Effects.{Result, ok, err}
use monogo.Calls.Model.{Direction, outbound, InboundAdmissionRequest, require, ◌and_then◌}

pub record CreateRequest : Type 0 where
  pub voice_agent_id : Option ℕ
  pub trunk_id : Option ℕ
  pub from_uri : Text
  pub to_uri : Text
  pub privacy : Bool
  pub dtmf_mode : Text
  pub media_encryption : Text
  pub direction : Direction
  pub sip_call_id : Option Text

pub record RecordActionRequest : Type 0 where
  pub path : Text
  pub action : Text

-- Go on with the request where the checks pass.
abbrev pub returning {ℓ} : {A : Type ℓ} → Result (Unit {0}) → A → Result A
returning (ok u) a = ok a
returning (err e) a = err e

-- `p == nil || *p != uuid.Nil`.
abbrev pub not_nil : Option ℕ → Bool
not_nil none = true
not_nil (some id) = not (id == 0)

unfoldable pub is_dtmf_mode : Text → Bool
is_dtmf_mode m =
    text_eq m []
    || text_eq m (codes "rfc2833")
    || text_eq m (codes "info")
    || text_eq m (codes "none")

unfoldable pub is_encryption : Text → Bool
is_encryption m = text_eq m [] || text_eq m (codes "none") || text_eq m (codes "sdes_srtp")

unfoldable pub check_create : CreateRequest → Result (Unit {0})
check_create req =
    require (not (is_empty req.from_uri)) "from_uri is required"
    and_then require (not (is_empty req.to_uri)) "to_uri is required"
    and_then require (not_nil req.voice_agent_id) "voice_agent_id is invalid"
    and_then require (not_nil req.trunk_id) "trunk_id is invalid"
    and_then require (is_dtmf_mode req.dtmf_mode) "dtmf_mode is invalid"
    and_then require (is_encryption req.media_encryption) "media_encryption is invalid"

unfoldable pub check_record : RecordActionRequest → Result (Unit {0})
check_record req =
    require (not (is_empty req.path)) "path is required"
    and_then require (text_eq req.action (codes "start") || text_eq req.action (codes "stop"))
        "action must be start or stop"

-- The default action.
abbrev pub or_start : Text → Text
or_start [] = codes "start"
or_start (c ∷ action) = c ∷ action

unfoldable pub validate_inbound_admission : InboundAdmissionRequest → Result (Unit {0})
validate_inbound_admission req =
    require (not (is_empty (trim_space req.channel_id))) "inbound channel id is required"
    and_then require (not (is_empty (trim_space req.sip_call_id))) "inbound SIP Call-ID is required"
    and_then require (not (req.organization_id == 0)) "organization_id is required"
    and_then require (not (req.voice_agent_id == 0)) "voice_agent_id is required"
    and_then require (not (req.phone_number_id == 0)) "phone_number_id is required"
    and_then require (not (req.voice_agent_binding_id == 0)) "voice_agent_binding_id is required"
    and_then require (not (req.trunk_id == 0)) "trunk_id is required"
    and_then require (not (is_empty (trim_space req.from_uri))) "from_uri is required"
    and_then require (not (is_empty (trim_space req.to_uri))) "to_uri is required"

-- `normalizeTransfer`, `normalizePlay` and `normalizeDTMF`, whose requests have one field.
unfoldable pub normalize_text : String → Text → Result Text
normalize_text message t =
    returning (require (not (is_empty (trim_space t))) message) (trim_space t)

-- ASCII small letters, digits and the underscore.
abbrev pub is_small : ℕ → Bool
is_small c = (leb 97 c && leb c 122) || (leb 48 c && leb c 57) || c == 95

abbrev pub all_small : Text → Bool
all_small [] = true
all_small (c ∷ s) = is_small c && all_small s

module _ (to_lower : Text → Text) where
  unfoldable pub shaped_create : CreateRequest → CreateRequest
  shaped_create req = record req {
    direction = outbound;
    from_uri = trim_space req.from_uri;
    to_uri = trim_space req.to_uri;
    dtmf_mode = to_lower (trim_space req.dtmf_mode);
    media_encryption = to_lower (trim_space req.media_encryption);
  }

  unfoldable pub normalize_create_request : CreateRequest → Result CreateRequest
  unfolding shaped_create check_create
  normalize_create_request req = returning (check_create (shaped_create req)) (shaped_create req)

  -- The path is looked at before the default action is filled in, which no check sees.
  unfoldable pub shaped_record : RecordActionRequest → RecordActionRequest
  shaped_record req = record {
    path = trim_space req.path;
    action = or_start (to_lower (trim_space req.action));
  }

  unfoldable pub normalize_record : RecordActionRequest → Result RecordActionRequest
  unfolding shaped_record check_record
  normalize_record req = returning (check_record (shaped_record req)) (shaped_record req)
