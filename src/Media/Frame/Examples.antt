-- ===== src/Media/Frame/Examples.antt =====
-- A frame and a command that pass validation.
use monogo.Base.{
  ◌*◌, ◌/◌, ◌^◌, length, arith, ◌<◌, ◌≡◌, ◌↔◌, ◌⊎◌, refl, [], ◌∷◌, none, some, codes, false,
  is_empty,
}
use monogo.Effects.{ok}
use monogo.Media.Queue.{AudioFrame, duration}
use monogo.Media.Config.{validate_format}
use monogo.Media.Frame.{
  validate_frame, Command, ToolResult, interrupt, stop, tool_result, validate_command,
}
use monogo.Media.Frame.Positive.{validate_frame-duration, validate_command-ok_iff}

abbrev sample : AudioFrame
sample = record {
  data_bytes = 1 ∷ 2 ∷ [];
  format = record { sample_rate_hz = 48000; channels = 1 };
  captured_at = 0;
}

sample-valid : validate_frame sample ≡ ok tt
unfolding validate_frame validate_format
sample-valid = refl

validate_frame-duration_example :
    (0 < duration sample)
    × (length sample.data_bytes / (2 * sample.format.channels) * 1_000_000_000 < 2 ^ 63)
validate_frame-duration_example =
    validate_frame-duration sample sample-valid (omega arith, omega arith)

abbrev answer : Command
answer = record { type = tool_result; tool_result = some (record { tool_call_id = codes "t1" }) }

validate_command-ok_iff_example : (validate_command answer ≡ ok tt) ↔ (
    (((answer.type ≡ interrupt) ⊎ (answer.type ≡ stop)) × (answer.tool_result ≡ none))
    ⊎ ((answer.type ≡ tool_result)
        × ((r : ToolResult) × (answer.tool_result ≡ some r) × (is_empty r.tool_call_id ≡ false))))
validate_command-ok_iff_example = validate_command-ok_iff answer
