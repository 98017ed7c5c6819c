-- ===== src/Media/Config/Equality.antt =====
-- `Config.Equal` decides equality.
use monogo.Base.{
  ◌≡◌, ◌↔◌, refl, Bool, true, false, ◌&&◌, List, [], ◌∷◌, text_eq_refl, eq_of_text_eq, ==_iff,
  arith,
}
use monogo.Media.Queue.{AudioFormat}
use monogo.Media.Config.{
  Config, ToolDefinition, ProviderRuntime, format_eq, tool_eq, provider_eq, lists_equal, config_eq,
}

both : {a b : Bool} → (a && b) ≡ true → (a ≡ true) × (b ≡ true)
both {a = true} {b = true} h = (refl, refl)
both {a = true} {b = false} h = cc
both {a = false} h = cc

eq_of_format_eq : (f g : AudioFormat) → format_eq f g ≡ true → f ≡ g
unfolding format_eq
eq_of_format_eq f g h = grind (arith, both)

eq_of_tool_eq : (a b : ToolDefinition) → tool_eq a b ≡ true → a ≡ b
unfolding tool_eq
eq_of_tool_eq a b h = cc (
  (==_iff a.id b.id).0 (ground arith),
  eq_of_text_eq a.name b.name (ground arith),
  eq_of_text_eq a.description b.description (ground arith),
  eq_of_text_eq a.parameters b.parameters (ground arith),
)

eq_of_provider_eq : (a b : ProviderRuntime) → provider_eq a b ≡ true → a ≡ b
unfolding provider_eq
eq_of_provider_eq a b h = cc (
  eq_of_text_eq a.role b.role (ground arith),
  eq_of_text_eq a.provider b.provider (ground arith),
  eq_of_text_eq a.api_key b.api_key (ground arith),
  eq_of_text_eq a.config b.config (ground arith),
)

eq_of_lists_equal :
    {A : Type 0} (same : A → A → Bool) (sound : (a b : A) → same a b ≡ true → a ≡ b)
    (xs ys : List A)
    → lists_equal same xs ys ≡ true
    → xs ≡ ys
unfolding lists_equal
eq_of_lists_equal same sound [] [] h = refl
eq_of_lists_equal same sound [] (y ∷ ys) h = cc
eq_of_lists_equal same sound (x ∷ xs) [] h = cc
eq_of_lists_equal same sound (x ∷ xs) (y ∷ ys) h =
    cc (sound x y (ground arith), eq_of_lists_equal same sound xs ys (ground arith))

lists_equal_refl :
    {A : Type 0} (same : A → A → Bool) (r : (a : A) → same a a ≡ true) (xs : List A)
    → lists_equal same xs xs ≡ true
unfolding lists_equal
lists_equal_refl same r [] = refl
lists_equal_refl same r (x ∷ xs) = rw (r x) (lists_equal_refl same r xs)

format_eq_refl : (f : AudioFormat) → format_eq f f ≡ true
unfolding format_eq
format_eq_refl f = ground arith

tool_eq_refl : (a : ToolDefinition) → tool_eq a a ≡ true
unfolding tool_eq
tool_eq_refl a =
    ground (arith, text_eq_refl a.name, text_eq_refl a.description, text_eq_refl a.parameters)

provider_eq_refl : (a : ProviderRuntime) → provider_eq a a ≡ true
unfolding provider_eq
provider_eq_refl a = ground (
  arith,
  text_eq_refl a.role,
  text_eq_refl a.provider,
  text_eq_refl a.api_key,
  text_eq_refl a.config,
)

config_eq_refl : (c : Config) → config_eq c c ≡ true
unfolding config_eq
config_eq_refl c = ground (
  arith,
  text_eq_refl c.engine,
  format_eq_refl c.input_format,
  format_eq_refl c.output_format,
  text_eq_refl c.language,
  text_eq_refl c.instructions,
  text_eq_refl c.voice,
  text_eq_refl c.engine_config,
  lists_equal_refl tool_eq tool_eq_refl c.tools,
  lists_equal_refl provider_eq provider_eq_refl c.providers,
)

config_eq_sound : (c d : Config) → config_eq c d ≡ true → c ≡ d
unfolding config_eq
config_eq_sound c d h = cc (
  (==_iff c.id d.id).0 (ground arith),
  (==_iff c.organization_id d.organization_id).0 (ground arith),
  (==_iff c.call_id d.call_id).0 (ground arith),
  (==_iff c.channel_id d.channel_id).0 (ground arith),
  eq_of_text_eq c.engine d.engine (ground arith),
  eq_of_text_eq c.language d.language (ground arith),
  eq_of_text_eq c.instructions d.instructions (ground arith),
  eq_of_text_eq c.voice d.voice (ground arith),
  eq_of_text_eq c.engine_config d.engine_config (ground arith),
  eq_of_format_eq c.input_format d.input_format (ground arith),
  eq_of_format_eq c.output_format d.output_format (ground arith),
  eq_of_lists_equal tool_eq eq_of_tool_eq c.tools d.tools (ground arith),
  eq_of_lists_equal provider_eq eq_of_provider_eq c.providers d.providers (ground arith),
)

-- Two configurations count as equal exactly if they are: no field is left out of the comparison.
pub config_eq_iff : (c d : Config) → (config_eq c d ≡ true) ↔ (c ≡ d)
unfolding config_eq
config_eq_iff c d = (config_eq_sound c d, λ e. rw e (config_eq_refl d))
