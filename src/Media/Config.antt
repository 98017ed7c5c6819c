-- ===== src/Media/Config.antt =====
-- The configuration of a media session and the commands to one: session.go of
-- server/internal/media/session. Strings and raw JSON are text, with nil and empty bytes alike;
-- messages are kept without the values they print. `is_object` stands for a json.Unmarshal into a map
-- that succeeds and gives no nil map.
pub mod Equality
pub mod Lookup
mod Examples
use monogo.Base.{
  ℕ, Bool, true, false, not, ◌&&◌, ◌||◌, List, [], ◌∷◌, Option, none, some, String, Text, codes,
  is_empty, text_eq, ◌==◌, if◌then◌else◌,
}
use monogo.Errors.{Error, plain, wrapped}
use monogo.Effects.{Result, ok, err}
use monogo.Media.Queue.{AudioFormat}

pub record EngineProfile : Type 0 where
  pub input_format : AudioFormat
  pub output_format : AudioFormat

pub record ProviderRuntime : Type 0 where
  pub role : Text
  pub provider : Text
  pub api_key : Text
  pub config : Text

pub record ToolDefinition : Type 0 where
  pub id : ℕ
  pub name : Text
  pub description : Text
  pub parameters : Text

pub record Config : Type 0 where
  pub id : ℕ
  pub organization_id : ℕ
  pub call_id : ℕ
  pub channel_id : ℕ
  pub engine : Text
  pub input_format : AudioFormat
  pub output_format : AudioFormat
  pub language : Text
  pub instructions : Text
  pub voice : Text
  pub engine_config : Text
  pub tools : List ToolDefinition
  pub providers : List ProviderRuntime

infixl 5 ◌then_check◌
abbrev pub ◌then_check◌ : Result (Unit {0}) → Result (Unit {0}) → Result (Unit {0})
ok a then_check r = r
err e then_check r = err e

abbrev pub require : Bool → String → Result (Unit {0})
require true message = ok tt
require false message = err (plain message)

abbrev pub in_context : String → Result (Unit {0}) → Result (Unit {0})
in_context context (ok a) = ok a
in_context context (err e) = err (wrapped context e)

-- `AudioFormat.Validate`.
unfoldable pub validate_format : AudioFormat → Result (Unit {0})
validate_format f =
    require
      (f.sample_rate_hz == 8000
        || f.sample_rate_hz == 16000
        || f.sample_rate_hz == 24000
        || f.sample_rate_hz == 48000)
      "unsupported sample rate"
    then_check require (f.channels == 1) "unsupported channel count"

abbrev pub same_format : ℕ → EngineProfile
same_format rate = record {
  input_format = record { sample_rate_hz = rate; channels = 1 };
  output_format = record { sample_rate_hz = rate; channels = 1 };
}

unfoldable pub profile_for_engine : Text → Result EngineProfile
profile_for_engine engine =
    if text_eq engine (codes "echo") || text_eq engine (codes "composable")
    then ok (same_format 16000)
    else if text_eq engine (codes "integrated")
    then ok (same_format 24000)
    else err (plain "unsupported media engine")

unfoldable pub format_eq : AudioFormat → AudioFormat → Bool
format_eq f g = f.sample_rate_hz == g.sample_rate_hz && f.channels == g.channels

unfoldable pub tool_eq : ToolDefinition → ToolDefinition → Bool
tool_eq a b =
    a.id == b.id
    && text_eq a.name b.name
    && text_eq a.description b.description
    && text_eq a.parameters b.parameters

unfoldable pub provider_eq : ProviderRuntime → ProviderRuntime → Bool
provider_eq a b =
    text_eq a.role b.role
    && text_eq a.provider b.provider
    && text_eq a.api_key b.api_key
    && text_eq a.config b.config

-- `toolDefinitionsEqual` and `providerRuntimesEqual`: the same length, and element by element.
unfoldable pub lists_equal {ℓ} : {A : Type ℓ} → (A → A → Bool) → List A → List A → Bool
lists_equal same [] [] = true
lists_equal same [] (b ∷ bs) = false
lists_equal same (a ∷ as_) [] = false
lists_equal same (a ∷ as_) (b ∷ bs) = same a b && lists_equal same as_ bs

-- `Config.Equal`.
unfoldable pub config_eq : Config → Config → Bool
config_eq c d =
    c.id == d.id
    && c.organization_id == d.organization_id
    && c.call_id == d.call_id
    && c.channel_id == d.channel_id
    && text_eq c.engine d.engine
    && format_eq c.input_format d.input_format
    && format_eq c.output_format d.output_format
    && text_eq c.language d.language
    && text_eq c.instructions d.instructions
    && text_eq c.voice d.voice
    && text_eq c.engine_config d.engine_config
    && lists_equal tool_eq c.tools d.tools
    && lists_equal provider_eq c.providers d.providers

-- A map from strings, as the keys it has.
unfoldable pub exists : Text → List Text → Bool
exists t [] = false
exists t (s ∷ ss) = text_eq s t || exists t ss

-- `Config.Provider`.
unfoldable pub find_provider : Text → List ProviderRuntime → Option ProviderRuntime
find_provider role [] = none
find_provider role (p ∷ ps) =
    let rest = find_provider role ps in if text_eq p.role role then some p else rest

module _ (is_object : Text → Bool) where
  check_provider : List Text → ProviderRuntime → Result (Unit {0})
  check_provider roles p =
      require (not (is_empty p.role || is_empty p.provider || is_empty p.api_key))
        "media provider role, provider, and api_key are required"
      then_check require (not (exists p.role roles)) "duplicate media provider role"
      then_check require (is_empty p.config || is_object p.config)
          "media provider config must be a JSON object"

  -- The loop over the providers, with the roles seen so far.
  check_providers : List Text → List ProviderRuntime → Result (Unit {0})
  check_providers roles [] = ok tt
  check_providers roles (p ∷ ps) =
      check_provider roles p then_check check_providers (p.role ∷ roles) ps

  check_tool : List Text → ToolDefinition → Result (Unit {0})
  check_tool names t =
      require (not (t.id == 0 || is_empty t.name)) "media tool id and name are required"
      then_check require (not (exists t.name names)) "duplicate media tool name"
      then_check require (is_object t.parameters) "media tool parameters must be a JSON object"

  check_tools : List Text → List ToolDefinition → Result (Unit {0})
  check_tools names [] = ok tt
  check_tools names (t ∷ ts) = check_tool names t then_check check_tools (t.name ∷ names) ts

  check_formats : Config → Result EngineProfile → Result (Unit {0})
  check_formats c (err e) = err e
  check_formats c (ok profile) =
      in_context "input format" (validate_format c.input_format)
      then_check in_context "output format" (validate_format c.output_format)
      then_check require
          (format_eq c.input_format profile.input_format
            && format_eq c.output_format profile.output_format)
          "media engine requires other formats"

  -- `Config.Validate`.
  pub validate : Config → Result (Unit {0})
  validate c =
      require (not (c.id == 0)) "session id is required"
      then_check require (not (c.organization_id == 0)) "organization id is required"
      then_check require (not (c.call_id == 0)) "call id is required"
      then_check require (not (c.channel_id == 0)) "channel id is required"
      then_check check_formats c (profile_for_engine c.engine)
      then_check require (is_empty c.engine_config || is_object c.engine_config)
          "engine config must be a JSON object"
      then_check check_providers [] c.providers
      then_check check_tools [] c.tools
