-- ===== src/Calls/Service/Control/Malformed.antt =====
-- The requests that a control operation refuses at once.
use monogo.Base.{
  ℕ, ◌≡◌, ◌≢◌, ◌⊎◌, inl, inr, refl, Bool, true, false, not, ◌||◌, [], ◌∷◌, String, Text, codes,
  is_empty, text_eq, trim_space, Bool-cases, eq_of_text_eq,
}
use monogo.Errors.{Error}
use monogo.Effects.{World, Result, ok, err}
use monogo.Redis.{Redis}
use monogo.Calls.Model.{require, ◌and_then◌}
use monogo.Calls.Requests.{
  RecordActionRequest, normalize_text, normalize_record, shaped_record, check_record, returning,
  or_start,
}
use monogo.Calls.Store.{Database}
use monogo.Calls.Service.{Peers}
use monogo.Calls.Service.Control.{
  Operation, answer_call, hangup_call, hold_call, resume_call, stop_playback, transfer_call,
  play_file, dial_digits, record_call, perform, transfer_op, play_op, dtmf_op, record_op,
}

pub text_malformed :
    (t : Text) (message : String) (e : Error)
    → returning (require (not (is_empty t)) message) t ≡ err e
    → t ≡ []
text_malformed [] message e h = refl
text_malformed (c ∷ t) message e h = cc

and_then-err :
    (a b : Result (Unit {0})) (e : Error) → (a and_then b) ≡ err e → (a ≡ err e) ⊎ (b ≡ err e)
and_then-err (ok u) b e h = inr h
and_then-err (err d) b e h = inl h

returning-err :
    {A : Type 0} (checks : Result (Unit {0})) (a : A) (e : Error)
    → returning checks a ≡ err e
    → checks ≡ err e
returning-err (ok u) a e h = cc
returning-err (err d) a e h = cc

path_missing :
    (t : Text) (message : String) (e : Error) → require (not (is_empty t)) message ≡ err e → t ≡ []
path_missing [] message e h = refl
path_missing (c ∷ t) message e h = cc

action_unknown :
    (t : Text) (message : String) (e : Error)
    → require (text_eq (or_start t) (codes "start") || text_eq (or_start t) (codes "stop")) message
      ≡ err e
    → (t ≢ []) × (t ≢ codes "start") × (t ≢ codes "stop")
unfolding text_eq
action_unknown t message e h = (
  λ k. accepted (refl) (rw k at h),
  λ k. accepted (refl) (rw k at h),
  λ k. accepted (refl) (rw k at h),
)
  where
    accepted : {b : Bool} → b ≡ true → require b message ≡ err e → ⊥
    accepted {b} i j = ok-err (rw i at j)
      where
        ok-err : {u : Unit {0}} → ok u ≡ err e → ⊥
        ok-err k = cc

text_neq : (s t : Text) → s ≢ t → text_eq s t ≡ false
text_neq s t n = elim (Bool-cases (text_eq s t)) [
  | inl e ↦ absurd (n (eq_of_text_eq s t e))
  | inr e ↦ e
]

module _ (to_lower : Text → Text) where
  -- A request without what its operation needs: a destination, a path or digits past the spaces, or an
  -- action of a recording that is neither empty nor `start` nor `stop`.
  abbrev pub IsMalformed : Operation → Type 0
  IsMalformed (transfer_call destination) = trim_space destination ≡ []
  IsMalformed (play_file path) = trim_space path ≡ []
  IsMalformed (dial_digits digits) = trim_space digits ≡ []
  IsMalformed (record_call req) =
      (trim_space req.path ≡ [])
      ⊎ ((to_lower (trim_space req.action) ≢ [])
          × (to_lower (trim_space req.action) ≢ codes "start")
          × (to_lower (trim_space req.action) ≢ codes "stop"))
  IsMalformed _ = ⊥

  pub record-IsMalformed :
      (raw : RecordActionRequest) (e : Error)
      → returning (check_record (shaped_record to_lower raw)) (shaped_record to_lower raw) ≡ err e
      → IsMalformed (record_call raw)
  unfolding check_record shaped_record
  record-IsMalformed raw e h =
      let action = or_start (to_lower (trim_space raw.action)) in
      elim (and_then-err (require (not (is_empty (trim_space raw.path))) "path is required")
        (require (text_eq action (codes "start") || text_eq action (codes "stop"))
          "action must be start or stop")
        e (returning-err _ _ e h)) [
          | inl i ↦ inl (path_missing (trim_space raw.path) "path is required" e i)
          | inr i ↦
              inr (
                action_unknown (to_lower (trim_space raw.action)) "action must be start or stop" e
                  i)
        ]

  unlisted :
      (t : Text)
      → t ≢ []
      → t ≢ codes "start"
      → t ≢ codes "stop"
      → (text_eq (or_start t) (codes "start") || text_eq (or_start t) (codes "stop")) ≡ false
  unlisted [] n m k = absurd (n refl)
  unlisted (c ∷ t) n m k = rw (text_neq (c ∷ t) _ m) (text_neq (c ∷ t) _ k)

  IsMalformed-record :
      (raw : RecordActionRequest)
      → IsMalformed (record_call raw)
      → (e : Error) × (normalize_record to_lower raw ≡ err e)
  unfolding normalize_record check_record shaped_record
  IsMalformed-record raw h = elim h [
    | inl none_there ↦ rw none_there (_, refl)
    | inr (n, m, k) ↦
        refuse _ (not (is_empty (trim_space raw.path))) _ "path is required" _
          (unlisted (to_lower (trim_space raw.action)) n m k)
  ]
    where
      refuse :
          (x : RecordActionRequest) (a b : Bool) (m n : String)
          → b ≡ false
          → (e : Error) × (returning (require a m and_then require b n) x ≡ err e)
      refuse x true b m n h = rw h (_, refl)
      refuse x false b m n h = (_, refl)

module _ (r : Redis) (p : Peers r.Keyspace) where
  -- Such a request is refused, and nothing happens.
  pub IsMalformed-perform :
      (operation : Operation) (organization_id id : ℕ) (w : World Database r.Keyspace)
      → IsMalformed p.library.to_lower operation
      → (e : Error) × (perform r p operation organization_id id w ≡ (err e, w))
  unfolding perform transfer_op play_op dtmf_op record_op normalize_text
  IsMalformed-perform answer_call organization_id id w h = absurd h
  IsMalformed-perform hangup_call organization_id id w h = absurd h
  IsMalformed-perform hold_call organization_id id w h = absurd h
  IsMalformed-perform resume_call organization_id id w h = absurd h
  IsMalformed-perform stop_playback organization_id id w h = absurd h
  IsMalformed-perform (transfer_call t) organization_id id w h = rw h (_, refl)
  IsMalformed-perform (play_file t) organization_id id w h = rw h (_, refl)
  IsMalformed-perform (dial_digits t) organization_id id w h = rw h (_, refl)
  IsMalformed-perform (record_call raw) organization_id id w h =
      let (e, same) = IsMalformed-record p.library.to_lower raw h in rw same (e, refl)
