-- ===== src/Media/Frame/Positive.antt =====
-- What frames and commands that pass validation are good for.
use monogo.Base.{
  ℕ, ◌*◌, ◌/◌, ◌%◌, ◌^◌, ◌<◌, ◌≡◌, ◌≢◌, ◌↔◌, refl, ◌⊎◌, Bool, true, false, not, none, some, String,
  ◌==◌, length, arith, is_empty,
}
use monogo.Effects.{ok}
use monogo.Media.Queue.{AudioFrame, AudioFormat, Fits, duration}
use monogo.Media.Queue.Exact.{product-Fits}
use monogo.Media.Config.{require, ◌then_check◌, validate_format}
use monogo.Media.Config.Lookup.{then_ok, require_ok}
use monogo.Media.Frame.{
  validate_frame, Command, ToolResult, interrupt, stop, tool_result, validate_command,
  validate_typed, no_result, some_result,
}

format_ok :
    (f : AudioFormat)
    → validate_format f ≡ ok tt
    → ((f.sample_rate_hz ≡ 8000)
        ⊎ (f.sample_rate_hz ≡ 16000)
        ⊎ (f.sample_rate_hz ≡ 24000)
        ⊎ (f.sample_rate_hz ≡ 48000))
      × (f.channels ≡ 1)
unfolding validate_format
format_ok f h = (ground arith, ground arith)

-- A frame of `n` bytes at a rate.
lasts :
    (n rate : ℕ)
    → 1 < n
    → (rate ≡ 8000) ⊎ (rate ≡ 16000) ⊎ (rate ≡ 24000) ⊎ (rate ≡ 48000)
    → 0 < n / (2 * 1) * 1_000_000_000 / rate
lasts n rate h k = ground arith

long_enough : (n : ℕ) → not (n == 0) ≡ true → (n % 2 == 0) ≡ true → 1 < n
long_enough n h k = ground arith

duration_mono :
    (f : AudioFrame)
    → f.format.sample_rate_hz ≢ 0
    → f.format.channels ≡ 1
    → 1 < length f.data_bytes
    → duration f ≡ length f.data_bytes / (2 * 1) * 1_000_000_000 / f.format.sample_rate_hz
unfolding duration
duration_mono f e k n = rw k (ground arith)

-- Every frame of less than 8 GiB that passes validation takes up time, so it counts against the limit of
-- a queue, and its duration is computed below 2^63.
pub validate_frame-duration :
    (f : AudioFrame)
    → validate_frame f ≡ ok tt
    → Fits f
    → (0 < duration f) × (length f.data_bytes / (2 * f.format.channels) * 1_000_000_000 < 2 ^ 63)
unfolding validate_frame
validate_frame-duration f h fits =
    let checks =
      then_ok
        (validate_format f.format
          then_check require (not (length f.data_bytes == 0)) "audio frame is empty")
        _ h in
    let firsts = then_ok (validate_format f.format) _ checks.0 in
    let format = format_ok f.format firsts.0 in
    let long =
      long_enough (length f.data_bytes) (require_ok (not (length f.data_bytes == 0)) _ firsts.1)
        (require_ok (length f.data_bytes % 2 == 0) _ checks.1) in
    (
      rw (duration_mono f (ground arith) format.1 long)
          (lasts (length f.data_bytes) f.format.sample_rate_hz long format.0),
      omega (arith, product-Fits f fits),
    )

require_iff : (b : Bool) (message : String) → (require b message ≡ ok tt) ↔ (b ≡ true)
require_iff true message = (λ h. refl, λ h. refl)
require_iff false message = (λ h. cc, λ h. cc)

-- A command passes exactly if it interrupts or stops and brings no tool result, or hands over a tool
-- result that names its call.
pub validate_command-ok_iff :
    (c : Command)
    → (validate_command c ≡ ok tt) ↔ (
        (((c.type ≡ interrupt) ⊎ (c.type ≡ stop)) × (c.tool_result ≡ none))
        ⊎ ((c.type ≡ tool_result)
            × ((r : ToolResult) × (c.tool_result ≡ some r) × (is_empty r.tool_call_id ≡ false))))
unfolding validate_command validate_typed no_result some_result
validate_command-ok_iff c = ground arith
