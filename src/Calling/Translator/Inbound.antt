-- ===== src/Calling/Translator/Inbound.antt =====
-- `TranslateInboundFreeSWITCHEvent` of server/internal/runtime/calling/translator.go: the event with
-- which the proxy hands a call from outside over.
use monogo.Base.{ℤ, ℕ, Bool, not, ◌||◌, [], ◌∷◌, String, Text, codes, is_empty, text_eq, trim_space}
use monogo.Errors.{sentinel, plain, wrapped, not_inbound_admission}
use monogo.Effects.{Result, ok}
use monogo.Calling.Events.{Packages, Event, header}
use monogo.Calling.Translator.{
  ◌>>=◌, ◌>>◌, first_non_empty, demand, some_or, required, call_header, freeswitch_event_time,
}

pub record InboundEvent : Type 0 where
  pub channel_id : Text
  pub sip_call_id : Text
  pub organization_id : ℕ
  pub voice_agent_id : ℕ
  pub phone_number_id : ℕ
  pub voice_agent_binding_id : ℕ
  pub trunk_id : ℕ
  pub from_uri : Text
  pub to_uri : Text
  pub occurred_at : ℤ

module _ (p : Packages) where
  -- `uuid.Parse(strings.TrimSpace(headers[name]))`.
  abbrev pub parse_id : Text → String → Result ℕ
  parse_id t message = some_or (p.parse_uuid (trim_space t)) (plain message)

  unfoldable pub trusted_header : Event → String → Bool
  unfolding header
  trusted_header e name = not (is_empty (trim_space (header p e name)))

  -- Whether the proxy has told anything of the call.
  unfoldable pub has_trusted_metadata : Event → Bool
  unfolding trusted_header
  has_trusted_metadata e =
      trusted_header e "variable_sip_h_X-Leamout-Organization-ID"
      || trusted_header e "variable_sip_h_X-Leamout-Trunk-ID"
      || trusted_header e "variable_sip_h_X-Leamout-Phone-Number-ID"
      || trusted_header e "variable_sip_h_X-Leamout-Voice-Agent-Binding-ID"
      || trusted_header e "variable_sip_h_X-Leamout-Voice-Agent-ID"

  unfoldable pub from_uri_of : Event → Text
  unfolding header first_non_empty
  from_uri_of e = first_non_empty (
      header p e "variable_sip_from_uri"
      ∷ header p e "Caller-Caller-ID-Number"
      ∷ header p e "Caller-ANI"
      ∷ [])

  unfoldable pub to_uri_of : Event → Text
  unfolding header first_non_empty
  to_uri_of e =
      first_non_empty
        (header p e "Caller-Destination-Number" ∷ header p e "variable_sip_to_user" ∷ [])

  unfoldable pub translate_inbound_freeswitch_event : ℤ → Event → Result InboundEvent
  unfolding header call_header has_trusted_metadata from_uri_of to_uri_of freeswitch_event_time
  translate_inbound_freeswitch_event now e = do
    demand (text_eq e.name (codes "CHANNEL_CREATE")) (wrapped "" (sentinel not_inbound_admission))
    demand (is_empty (call_header p e)) (sentinel not_inbound_admission)
    demand (has_trusted_metadata e) (sentinel not_inbound_admission)
    organization_id ←
        parse_id (header p e "variable_sip_h_X-Leamout-Organization-ID")
          "invalid inbound organization_id"
    trunk_id ← parse_id (header p e "variable_sip_h_X-Leamout-Trunk-ID") "invalid inbound trunk_id"
    phone_number_id ←
        parse_id (header p e "variable_sip_h_X-Leamout-Phone-Number-ID")
          "invalid inbound phone_number_id"
    voice_agent_binding_id ←
        parse_id (header p e "variable_sip_h_X-Leamout-Voice-Agent-Binding-ID")
          "invalid inbound voice_agent_binding_id"
    voice_agent_id ←
        parse_id (header p e "variable_sip_h_X-Leamout-Voice-Agent-ID")
          "invalid inbound voice_agent_id"
    channel_id ←
        required (trim_space (header p e "Unique-ID"))
          "FreeSWITCH inbound event is missing Unique-ID"
    sip_call_id ←
        required (trim_space (header p e "variable_sip_call_id"))
          "FreeSWITCH inbound event is missing SIP Call-ID"
    from_uri ← required (from_uri_of e) "FreeSWITCH inbound event is missing caller identity"
    to_uri ← required (to_uri_of e) "FreeSWITCH inbound event is missing called number"
    occurred_at ← freeswitch_event_time p now e
    ok (record {
      channel_id = channel_id;
      sip_call_id = sip_call_id;
      organization_id = organization_id;
      voice_agent_id = voice_agent_id;
      phone_number_id = phone_number_id;
      voice_agent_binding_id = voice_agent_binding_id;
      trunk_id = trunk_id;
      from_uri = trim_space from_uri;
      to_uri = trim_space to_uri;
      occurred_at = occurred_at;
    })
