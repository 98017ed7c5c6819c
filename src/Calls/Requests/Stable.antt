-- ===== src/Calls/Requests/Stable.antt =====
-- A request in shape stays as it is.
use monogo.Base.{
  ℕ, ◌≡◌, ◌≢◌, not, Option, none, some, is_empty, arith, refl, sym, subst, ap, ◌∙◌, ◌⊎◌, inl, inr,
  Bool, true, false, ◌||◌, [], String, Text, codes, text_eq, eq_of_text_eq, trim_space,
}
use monogo.Base.Strings.{is_space}
use monogo.Base.Strings.Trim.{trim_space-twice}
use monogo.Effects.{Result, ok, err}
use monogo.Calls.Requests.{
  CreateRequest, returning, is_dtmf_mode, is_encryption, check_create, shaped_create,
  normalize_create_request, all_small, not_nil,
}
use monogo.Calls.Model.{outbound, require, ◌and_then◌}

returned :
    {A : Type 0} (r : Result (Unit {0})) (a b : A) → returning r a ≡ ok b → (r ≡ ok tt) × (a ≡ b)
returned (ok u) a b h = (refl, cc)
returned (err e) a b h = cc

require_ok : (b : Bool) (message : String) → require b message ≡ ok tt → b ≡ true
require_ok true message h = refl
require_ok false message h = cc

then_ok : (r s : Result (Unit {0})) → (r and_then s) ≡ ok tt → (r ≡ ok tt) × (s ≡ ok tt)
then_ok (ok a) s h = (refl, h)
then_ok (err e) s h = cc

or_cases : (a b : Bool) → (a || b) ≡ true → (a ≡ true) ⊎ (b ≡ true)
or_cases true b h = inl refl
or_cases false b h = inr h

create_dtmf : (req : CreateRequest) → check_create req ≡ ok tt → is_dtmf_mode req.dtmf_mode ≡ true
unfolding check_create
create_dtmf req h = require_ok _ _ (then_ok _ _ (then_ok _ _ h).0).1

create_encryption :
    (req : CreateRequest) → check_create req ≡ ok tt → is_encryption req.media_encryption ≡ true
unfolding check_create
create_encryption req h = require_ok _ _ (then_ok _ _ h).1

passed :
    (req out : CreateRequest)
    → req ≡ out
    → check_create out ≡ ok tt
    → returning (check_create req) req ≡ ok out
passed req out e h = ap (λ x. returning (check_create x) x) e ∙ ap (λ c. returning c out) h

dtmf_modes :
    (x : Text)
    → is_dtmf_mode x ≡ true
    → (x ≡ []) ⊎ (x ≡ codes "rfc2833") ⊎ (x ≡ codes "info") ⊎ (x ≡ codes "none")
unfolding is_dtmf_mode
dtmf_modes x h = elim (or_cases _ _ h) [
  | inr e ↦ inr (inr (inr (eq_of_text_eq x _ e)))
  | inl h ↦ elim (or_cases _ _ h) [
    | inr e ↦ inr (inr (inl (eq_of_text_eq x _ e)))
    | inl h ↦ elim (or_cases _ _ h) [
      | inr e ↦ inr (inl (eq_of_text_eq x _ e))
      | inl e ↦ inl (eq_of_text_eq x _ e)
    ]
  ]
]

encryptions :
    (x : Text) → is_encryption x ≡ true → (x ≡ []) ⊎ (x ≡ codes "none") ⊎ (x ≡ codes "sdes_srtp")
unfolding is_encryption
encryptions x h = elim (or_cases _ _ h) [
  | inr e ↦ inr (inr (eq_of_text_eq x _ e))
  | inl h ↦ elim (or_cases _ _ h) [
    | inr e ↦ inr (inl (eq_of_text_eq x _ e))
    | inl e ↦ inl (eq_of_text_eq x _ e)
  ]
]

false_of_not : (b : Bool) → not b ≡ true → b ≡ false
false_of_not true h = cc
false_of_not false h = refl

named_id : (o : Option ℕ) → not_nil o ≡ true → o ≢ some 0
named_id none h e = cc
named_id (some id) h e = ground arith

-- `strings.ToLower` leaves what is in small letters, digits and underscores as it is.
module _ (to_lower : Text → Text)
    (to_lower-small : (t : Text) → all_small t ≡ true → to_lower t ≡ t) where
  fixed :
      (x k : Text)
      → all_small k ≡ true
      → trim_space k ≡ k
      → text_eq x k ≡ true
      → to_lower (trim_space x) ≡ x
  fixed x k small trimmed e =
      let same = eq_of_text_eq x k e in
      ap (λ t. to_lower (trim_space t)) same
      ∙ ap to_lower trimmed
      ∙ to_lower-small k small
      ∙ sym same

  dtmf-fixed : (x : Text) → is_dtmf_mode x ≡ true → to_lower (trim_space x) ≡ x
  unfolding is_dtmf_mode trim_space is_space
  dtmf-fixed x h = elim (or_cases _ _ h) [
    | inr e ↦ fixed x (codes "none") refl refl e
    | inl h ↦ elim (or_cases _ _ h) [
      | inr e ↦ fixed x (codes "info") refl refl e
      | inl h ↦ elim (or_cases _ _ h) [
        | inr e ↦ fixed x (codes "rfc2833") refl refl e
        | inl e ↦ fixed x [] refl refl e
      ]
    ]
  ]

  encryption-fixed : (x : Text) → is_encryption x ≡ true → to_lower (trim_space x) ≡ x
  unfolding is_encryption trim_space is_space
  encryption-fixed x h = elim (or_cases _ _ h) [
    | inr e ↦ fixed x (codes "sdes_srtp") refl refl e
    | inl h ↦ elim (or_cases _ _ h) [
      | inr e ↦ fixed x (codes "none") refl refl e
      | inl e ↦ fixed x [] refl refl e
    ]
  ]

  shaped_create-twice :
      (req : CreateRequest)
      → check_create (shaped_create to_lower req) ≡ ok tt
      → shaped_create to_lower (shaped_create to_lower req) ≡ shaped_create to_lower req
  unfolding shaped_create check_create
  shaped_create-twice req h = cc (
    trim_space-twice req.from_uri,
    trim_space-twice req.to_uri,
    dtmf-fixed (to_lower (trim_space req.dtmf_mode)) (create_dtmf (shaped_create to_lower req) h),
    encryption-fixed (to_lower (trim_space req.media_encryption))
        (create_encryption (shaped_create to_lower req) h),
  )

  -- A request in shape is left as it is.
  normalize_create_request-twice :
      (req out : CreateRequest)
      → normalize_create_request to_lower req ≡ ok out
      → normalize_create_request to_lower out ≡ ok out
  unfolding normalize_create_request
  normalize_create_request-twice req out h =
      let r = returned _ _ _ h in
      subst
        (λ x. returning (check_create (shaped_create to_lower x)) (shaped_create to_lower x) ≡ ok x)
        r.1 (passed _ _ (shaped_create-twice req r.0) r.0)

  -- What a request to create a call comes out as.
  pub record Normal (req out : CreateRequest) : Type 0 where
    pub outgoing : out.direction ≡ outbound
    pub caller : (out.from_uri ≡ trim_space req.from_uri) × (is_empty out.from_uri ≡ false)
    pub called : (out.to_uri ≡ trim_space req.to_uri) × (is_empty out.to_uri ≡ false)
    pub dtmf :
        (out.dtmf_mode ≡ [])
        ⊎ (out.dtmf_mode ≡ codes "rfc2833")
        ⊎ (out.dtmf_mode ≡ codes "info")
        ⊎ (out.dtmf_mode ≡ codes "none")
    pub encryption :
        (out.media_encryption ≡ [])
        ⊎ (out.media_encryption ≡ codes "none")
        ⊎ (out.media_encryption ≡ codes "sdes_srtp")
    pub spelled :
        (out.dtmf_mode ≡ to_lower (trim_space req.dtmf_mode))
        × (out.media_encryption ≡ to_lower (trim_space req.media_encryption))
    pub agent : (out.voice_agent_id ≡ req.voice_agent_id) × (out.voice_agent_id ≢ some 0)
    pub trunk : (out.trunk_id ≡ req.trunk_id) × (out.trunk_id ≢ some 0)
    pub rest : (out.privacy ≡ req.privacy) × (out.sip_call_id ≡ req.sip_call_id)
    pub stable : normalize_create_request to_lower out ≡ ok out

  shaped-Normal :
      (req : CreateRequest)
      → check_create (shaped_create to_lower req) ≡ ok tt
      → normalize_create_request to_lower (shaped_create to_lower req)
        ≡ ok (shaped_create to_lower req)
      → Normal req (shaped_create to_lower req)
  unfolding shaped_create check_create
  shaped-Normal req h again =
      let (h1, encryption) = then_ok _ _ h in
      let (h2, dtmf) = then_ok _ _ h1 in
      let (h3, trunk) = then_ok _ _ h2 in
      let (h4, agent) = then_ok _ _ h3 in
      let (caller, called) = then_ok _ _ h4 in
      record {
        outgoing = refl;
        caller = (refl, false_of_not (is_empty (trim_space req.from_uri)) (require_ok _ _ caller));
        called = (refl, false_of_not (is_empty (trim_space req.to_uri)) (require_ok _ _ called));
        dtmf = dtmf_modes _ (require_ok _ _ dtmf);
        encryption = encryptions _ (require_ok _ _ encryption);
        spelled = (refl, refl);
        agent = (refl, named_id req.voice_agent_id (require_ok _ _ agent));
        trunk = (refl, named_id req.trunk_id (require_ok _ _ trunk));
        rest = (refl, refl);
        stable = again;
      }

  -- Where lower-casing leaves small letters, digits and underscores as they are: a request to create a
  -- call that normalization accepts comes out as an outbound call with its URIs trimmed and not empty,
  -- a DTMF mode and an encryption in lower case from their lists, no id that is `uuid.Nil`, and the rest
  -- as it was; and a normalization leaves that as it is.
  pub normalize_create_request-Normal :
      (req out : CreateRequest) → normalize_create_request to_lower req ≡ ok out → Normal req out
  unfolding normalize_create_request
  normalize_create_request-Normal req out h =
      let r = returned _ _ _ h in
      subst (Normal req) r.1 (
        shaped-Normal req r.0 (
          subst (λ x. normalize_create_request to_lower x ≡ ok x) (sym r.1)
            (normalize_create_request-twice req out h)))
