-- ===== src/Media/Config/Examples.antt =====
-- The theorems on configurations at one with two providers.
use monogo.Base.{◌≡◌, ◌↔◌, refl, [], ◌∷◌, true, codes, some, text_eq}
use monogo.Effects.{ok}
use monogo.Media.Config.{
  Config, ProviderRuntime, config_eq, find_provider, validate, check_formats, check_providers,
  check_provider, check_tools, validate_format, profile_for_engine, format_eq, exists,
}
use monogo.Media.Config.Equality.{config_eq_iff}
use monogo.Media.Config.Lookup.{first, later, validate-find_provider}

abbrev text_model : ProviderRuntime
text_model = record {
  role = codes "llm";
  provider = codes "groq";
  api_key = codes "k";
  config = [];
}

abbrev config : Config
config = record {
  id = 1;
  organization_id = 2;
  call_id = 3;
  channel_id = 4;
  engine = codes "composable";
  input_format = record { sample_rate_hz = 16000; channels = 1 };
  output_format = record { sample_rate_hz = 16000; channels = 1 };
  language = codes "en";
  instructions = [];
  voice = [];
  engine_config = [];
  tools = [];
  providers =
      record { role = codes "stt"; provider = codes "deepgram"; api_key = codes "k"; config = [] }
      ∷ text_model
      ∷ [];
}

config_eq_iff_example : (config_eq config config ≡ true) ↔ (config ≡ config)
config_eq_iff_example = config_eq_iff config config

config-valid : validate (λ t. true) config ≡ ok tt
unfolding validate check_formats check_providers check_provider check_tools validate_format
    profile_for_engine format_eq exists text_eq
config-valid = refl

validate-find_provider_example : find_provider (codes "llm") config.providers ≡ some text_model
validate-find_provider_example =
    validate-find_provider (λ t. true) config text_model config-valid (later first)
