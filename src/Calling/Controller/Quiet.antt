-- ===== src/Calling/Controller/Quiet.antt =====
-- The commands of the controller leave the database alone where those of FreeSWITCH do.
use monogo.Base.{ℕ, refl, String, Text}
use monogo.Effects.{Result, ok, err}
use monogo.Effects.Quiet.{Quiet, quiet_rules}
use monogo.Calling.Egress.{Library, OriginateRequest, SwitchOriginate, switch_request}
use monogo.Calling.Controller.{
  Switch, SwitchCommand, originate, originate_checked, send, hang_up, set_call_id,
}

module _ (lib : Library) {D K : Type 0} (switch : Switch D K)
    (originates : (req : SwitchOriginate) → Quiet (switch.originate_channel req))
    (commands : (c : SwitchCommand) → Quiet (switch.command c)) where
  originate_checked-Quiet :
      (req : Result SwitchOriginate) → Quiet (originate_checked lib switch req)
  unfolding originate_checked
  originate_checked-Quiet (err e) = record { run = λ w. refl }
  originate_checked-Quiet (ok req) = search (quiet_rules, originates) depth 8

  pub originate-Quiet : (req : OriginateRequest) → Quiet (originate lib switch req)
  unfolding originate
  originate-Quiet req = originate_checked-Quiet (switch_request lib req)

  pub send-Quiet : (message : String) (c : SwitchCommand) → Quiet (send lib switch message c)
  unfolding send
  send-Quiet message c = search (quiet_rules, commands)

  pub hang_up-Quiet : (channel_id : Text) → Quiet (hang_up lib switch channel_id)
  unfolding hang_up
  hang_up-Quiet channel_id = send-Quiet _ _

  pub set_call_id-Quiet :
      (channel_id : Text) (call_id : ℕ) → Quiet (set_call_id lib switch channel_id call_id)
  unfolding set_call_id
  set_call_id-Quiet channel_id call_id = search (quiet_rules, send-Quiet)
