-- ===== src/Media/Frame.antt =====
-- `AudioFrame.Validate` and `Command.Validate` of server/internal/media/session/session.go.
pub mod Positive
mod Examples
use monogo.Base.{
  ℕ, ◌%◌, Bool, true, false, not, Option, none, some, String, Text, is_empty, ◌==◌, length,
  if◌then◌else◌,
}
use monogo.Errors.{plain}
use monogo.Effects.{Result, ok, err}
use monogo.Media.Queue.{AudioFrame}
use monogo.Media.Config.{require, ◌then_check◌, validate_format}

pub validate_frame : AudioFrame → Result (Unit {0})
validate_frame f =
    validate_format f.format
    then_check require (not (length f.data_bytes == 0)) "audio frame is empty"
    then_check require (length f.data_bytes % 2 == 0) "PCM16 audio frame has odd byte length"

-- The content and the flag of a result play no part.
pub record ToolResult : Type 0 where
  pub tool_call_id : Text

pub data CommandType : Type 0 where
  interrupt stop tool_result : CommandType
  unsupported : String → CommandType

pub record Command : Type 0 where
  pub type : CommandType
  pub tool_result : Option ToolResult

no_result : Option ToolResult → Result (Unit {0})
no_result none = ok tt
no_result (some r) = err (plain "media command does not accept a tool result")

some_result : Option ToolResult → Result (Unit {0})
some_result none = err (plain "tool_result is required")
some_result (some r) = require (not (is_empty r.tool_call_id)) "tool_call_id is required"

validate_typed : CommandType → Option ToolResult → Result (Unit {0})
validate_typed interrupt r = no_result r
validate_typed stop r = no_result r
validate_typed tool_result r = some_result r
validate_typed (unsupported name) r = err (plain "unsupported media command")

pub validate_command : Command → Result (Unit {0})
validate_command c = validate_typed c.type c.tool_result
