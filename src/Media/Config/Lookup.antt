-- ===== src/Media/Config/Lookup.antt =====
-- What a configuration that passes validation has.
use monogo.Base.{
  ℕ, ◌≡◌, refl, Bool, true, false, not, ◌&&◌, ◌||◌, List, [], ◌∷◌, Option, some, Text, text_eq,
  text_eq_refl, arith, inl, inr, ◌⊎◌, if◌then◌else◌, String,
}
use monogo.Errors.{plain}
use monogo.Effects.{Result, ok, err}
use monogo.Media.Queue.{AudioFormat}
use monogo.Media.Config.{
  Config, ProviderRuntime, ◌then_check◌, require, exists, find_provider, check_provider,
  check_providers, check_formats, validate, profile_for_engine, same_format, format_eq,
}

-- Where a chain of checks passes, each of them does.
pub then_ok : (r s : Result (Unit {0})) → (r then_check s) ≡ ok tt → (r ≡ ok tt) × (s ≡ ok tt)
then_ok (ok a) s h = (refl, h)
then_ok (err e) s h = cc

pub require_ok : (b : Bool) (message : String) → require b message ≡ ok tt → b ≡ true
require_ok true message h = refl
require_ok false message h = cc

equal_formats :
    (f g : AudioFormat) (rate : ℕ)
    → (format_eq f (same_format rate).input_format && format_eq g (same_format rate).output_format)
      ≡ true
    → (f ≡ g) × (f.sample_rate_hz ≡ rate) × (f.channels ≡ 1)
unfolding format_eq
equal_formats f g rate h = (grind arith, ground arith, ground arith)

left : (a b : Bool) → (a || b) ≡ false → a ≡ false
left a b h = ground arith

right : (a b : Bool) → (a || b) ≡ false → b ≡ false
right a b h = ground arith

skipped :
    (b : Bool) (q p : ProviderRuntime) (rest : Option ProviderRuntime)
    → b ≡ false
    → rest ≡ some p
    → (if b then some q else rest) ≡ some p
skipped true q p rest h k = cc
skipped false q p rest h k = k

-- `p` is one of the providers.
pub data In (p : ProviderRuntime) : List ProviderRuntime → Type 0 where
  first : {ps : List ProviderRuntime} → In p (p ∷ ps)
  later : {q : ProviderRuntime} {ps : List ProviderRuntime} → In p ps → In p (q ∷ ps)

module _ (is_object : Text → Bool) where
  fresh_role :
      (roles : List Text) (p : ProviderRuntime)
      → check_provider is_object roles p ≡ ok tt
      → exists p.role roles ≡ false
  unfolding check_provider
  fresh_role roles p h = fresh (require_ok _ _ (then_ok _ _ (then_ok _ _ h).0).1)
    where
      fresh : {b : Bool} → not b ≡ true → b ≡ false
      fresh h = ground arith

  -- A role seen before is none of those still to come.
  not_seen :
      (roles : List Text) (ps : List ProviderRuntime) (p : ProviderRuntime)
      → check_providers is_object roles ps ≡ ok tt
      → In p ps
      → exists p.role roles ≡ false
  unfolding check_providers exists
  not_seen roles [] p h i = elim i [ ]
  not_seen roles (p ∷ ps) _ h first = fresh_role roles p (then_ok _ _ h).0
  not_seen roles (q ∷ ps) p h (later i) =
      right (text_eq q.role p.role) _ (not_seen (q.role ∷ roles) ps p (then_ok _ _ h).1 i)

  find_provider-In :
      (roles : List Text) (ps : List ProviderRuntime) (p : ProviderRuntime)
      → check_providers is_object roles ps ≡ ok tt
      → In p ps
      → find_provider p.role ps ≡ some p
  unfolding check_providers find_provider exists
  find_provider-In roles [] p h i = elim i [ ]
  find_provider-In roles (p ∷ ps) _ h first = rw (text_eq_refl p.role) refl
  find_provider-In roles (q ∷ ps) p h (later i) =
      skipped (text_eq q.role p.role) q p _
        (left _ (exists p.role roles) (not_seen (q.role ∷ roles) ps p (then_ok _ _ h).1 i))
        (find_provider-In (q.role ∷ roles) ps p (then_ok _ _ h).1 i)

  -- In a configuration that passes validation every provider is the one that the lookup of its role
  -- finds: no two share a role.
  pub validate-find_provider :
      (c : Config) (p : ProviderRuntime)
      → validate is_object c ≡ ok tt
      → In p c.providers
      → find_provider p.role c.providers ≡ some p
  unfolding validate
  validate-find_provider c p h i =
      find_provider-In [] c.providers p (then_ok _ _ (then_ok _ _ h).0).1 i

  rated :
      (c : Config) (rate : ℕ)
      → check_formats is_object c (ok (same_format rate)) ≡ ok tt
      → (c.input_format ≡ c.output_format)
        × (c.input_format.sample_rate_hz ≡ rate)
        × (c.input_format.channels ≡ 1)
  unfolding check_formats format_eq
  rated c rate h =
      equal_formats c.input_format c.output_format rate (require_ok _ _ (then_ok _ _ h).1)

  abbrev Formatted : Config → Type 0
  Formatted c =
      (c.input_format ≡ c.output_format)
      × ((c.input_format.sample_rate_hz ≡ 16000) ⊎ (c.input_format.sample_rate_hz ≡ 24000))
      × (c.input_format.channels ≡ 1)

  profiled :
      (c : Config) (b d : Bool)
      → check_formats is_object c (
          if b
          then ok (same_format 16000)
          else if d
          then ok (same_format 24000)
          else err (plain "unsupported media engine"))
        ≡ ok tt
      → Formatted c
  unfolding check_formats
  profiled c true d h = let r = rated c 16000 h in (r.0, inl r.1, r.2)
  profiled c false true h = let r = rated c 24000 h in (r.0, inr r.1, r.2)
  profiled c false false h = cc

  -- The formats of a configuration that passes validation: the output is as the input, with one
  -- channel, at 16000 Hz or 24000 Hz.
  pub validate-formats :
      (c : Config)
      → validate is_object c ≡ ok tt
      → (c.input_format ≡ c.output_format)
        × ((c.input_format.sample_rate_hz ≡ 16000) ⊎ (c.input_format.sample_rate_hz ≡ 24000))
        × (c.input_format.channels ≡ 1)
  unfolding validate profile_for_engine
  validate-formats c h =
      profiled c _ _ (then_ok _ _ (then_ok _ _ (then_ok _ _ (then_ok _ _ h).0).0).0).1
