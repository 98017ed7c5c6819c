-- ===== src/Calling/Controller.antt =====
-- controller.go of server/internal/runtime/calling: the commands of a call, over the FreeSWITCH client.
pub mod Quiet
use monogo.Base.{
  ℤ, pos, ℕ, suc, Bool, true, false, not, ◌++◌, Option, none, some, String, Text, codes, is_empty,
  trim_space, ◌==◌,
}
use monogo.Errors.{
  Error, FailureClass, plain, wrapped, originate_error, validation, timeout, transport, internal,
}
use monogo.Effects.{Result, ok, err, M, ◌>>=◌, ◌>>◌, guard, fail, pure, map_error}
use monogo.Calling.Egress.{OriginateRequest, Library, SwitchOriginate, switch_request}

-- `calling.OriginateResult`.
pub record OriginateResult : Type 0 where
  pub channel_id : Text

-- The other methods of the client that the controller calls, by the channel and their arguments.
pub data SwitchCommand : Type 0 where
  answer hangup hold unhold stop_audio : Text → SwitchCommand
  transfer play_audio send_dtmf : Text → Text → SwitchCommand
  record_audio set_variable : Text → Text → Text → SwitchCommand

-- `freeswitch.Client`, and what Go says of its errors: `errors.Is` at `context.DeadlineExceeded` and at
-- `context.Canceled`, and `errors.As` at a `net.Error` with its `Timeout`.
pub record Switch (D K : Type 0) : Type 0 where
  pub originate_channel : SwitchOriginate → M D K Text
  pub command : SwitchCommand → M D K (Unit {0})
  pub is_deadline : Error → Bool
  pub is_cancelled : Error → Bool
  pub network_timeout : Error → Option Bool

classify_client_class : Bool → Bool → Option Bool → FailureClass
classify_client_class true cancelled network = timeout
classify_client_class false true network = internal
classify_client_class false false (some true) = timeout
classify_client_class false false (some false) = transport
classify_client_class false false none = internal

module _ (lib : Library) where
  module _ {D K : Type 0} (switch : Switch D K) where
    pub classify_client_originate_error : Error → Error
    classify_client_originate_error e =
        originate_error
          (classify_client_class (switch.is_deadline e) (switch.is_cancelled e)
            (switch.network_timeout e))
          0 (wrapped "originate call" e)

    originate_checked : Result SwitchOriginate → M D K OriginateResult
    originate_checked (err e) = fail (originate_error validation 0 e)
    originate_checked (ok request) = do
      channel ← map_error classify_client_originate_error (switch.originate_channel request)
      guard (not (is_empty (trim_space channel))) (plain "FreeSWITCH returned empty channel UUID")
      pure (record { channel_id = channel })

    pub originate : OriginateRequest → M D K OriginateResult
    originate req = originate_checked (switch_request lib req)

    -- `Answer`, `Transfer` (whose dialplan and context the call service leaves empty), `Hold`, `Resume`,
    -- `PlayAudio`, `StopPlayback`, `Record` and `SendDTMF` are one command each.
    unfoldable pub send : String → SwitchCommand → M D K (Unit {0})
    send message c = map_error (wrapped message) (switch.command c)

    unfoldable pub hang_up : Text → M D K (Unit {0})
    hang_up channel_id = send "hangup call" (hangup channel_id)

    pub set_max_duration : Text → ℤ → M D K (Unit {0})
    set_max_duration channel_id (pos (suc n)) = send "set maximum call duration" (
        set_variable channel_id (codes "execute_on_answer")
          (codes "sched_hangup +" ++ lib.itoa (suc n) ++ codes " ALLOTTED_TIMEOUT"))
    set_max_duration channel_id _ = fail (plain "maximum call duration must be positive")

    pub set_call_id : Text → ℕ → M D K (Unit {0})
    set_call_id channel_id call_id = do
      guard (not (call_id == 0)) (plain "call id is required")
      send "set call id" (set_variable channel_id (codes "leamout_call_id") (lib.uuid_text call_id))
