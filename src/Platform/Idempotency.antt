-- ===== src/Platform/Idempotency.antt =====
-- Requests that are carried out once: server/internal/platform/idempotency with its statements
-- (server/internal/database/queries/idempotency.sql) and table. A completed row has its response, as the
-- table demands. Times are those of one clock; `updated_at` and `completed_at` are left out, as are the
-- CHECKs on the texts of a request, which hold for what the middleware makes.
pub mod Middleware
pub mod Statements
pub mod Service
pub mod Runs
pub mod Covered
pub mod Arrivals
pub mod Stored
pub mod Behind
pub mod Exclusive
mod Examples
use monogo.Base.{
  ℕ, ◌+◌, Bool, true, false, ◌&&◌, ◌||◌, List, Option, none, some, Text, text_eq, ltb, leb,
  if◌then◌else◌,
}
use monogo.Errors.{Error, sentinel, no_rows, key_conflict, in_progress, fault, is_error}
use monogo.Effects.{World, Result, ok, err, M, ◌>>=◌, ◌>>◌, pure, fail, remote, map_error, clock}

pub record Request : Type 0 where
  pub scope : Text
  pub key : Text
  pub method : Text
  pub path : Text
  pub request_hash : Text

-- The values of a header, by its canonical name.
abbrev pub Headers : Type 0
Headers = Text → List Text

pub record Response : Type 0 where
  pub status : ℕ
  pub body : Text
  pub content_type : Text
  pub headers : Headers

pub record Config : Type 0 where
  pub lock_ttl : ℕ
  pub record_ttl : ℕ

pub data Status : Type 0 where
  processing : Status
  completed : Response → Status

-- A row of the table.
pub record Row : Type 0 where
  pub method : Text
  pub path : Text
  pub request_hash : Text
  pub status : Status
  pub locked_until : ℕ
  pub created_at : ℕ
  pub expires_at : ℕ

abbrev pub Keys : Type 0
Keys = Text → Text → Option Row

abbrev pub same_key : Text → Text → Text → Text → Bool
same_key scope key s k = text_eq scope s && text_eq key k

abbrev pub write_row : Text → Text → Row → Keys → Keys
write_row scope key row keys s k = if same_key scope key s k then some row else keys s k

abbrev pub same_request : Request → Row → Bool
same_request q row =
    text_eq row.method q.method
    && text_eq row.path q.path
    && text_eq row.request_hash q.request_hash

abbrev pub is_processing : Status → Bool
is_processing processing = true
is_processing (completed r) = false

abbrev pub storable : Status → Bool
storable processing = true
storable (completed r) = leb 100 r.status && leb r.status 599

-- chk_idempotency_expiration and chk_idempotency_response_status.
abbrev pub is_sound : Row → Bool
is_sound row =
    ltb row.created_at row.expires_at && leb row.locked_until row.expires_at && storable row.status

-- What a statement says: its row, no row, or a row that the table does not take.
pub data Reply : Type 0 where
  returning : Row → Reply
  nothing : Reply
  violation : Reply

abbrev pub store : Text → Text → Row → Keys → Reply × Keys
store scope key row keys =
    if is_sound row then (returning row, write_row scope key row keys) else (violation, keys)

-- ClaimIdempotencyKey: a new row, or the row of the key made new where the condition holds.
abbrev pub claimed_row : Request → ℕ → ℕ → ℕ → Row
claimed_row q locked_until expires_at created_at = record {
  method = q.method;
  path = q.path;
  request_hash = q.request_hash;
  status = processing;
  locked_until = locked_until;
  created_at = created_at;
  expires_at = expires_at;
}

abbrev pub claimable : Request → ℕ → Row → Bool
claimable q now row =
    leb row.expires_at now
    || (is_processing row.status && leb row.locked_until now && same_request q row)

abbrev pub claim_over : Request → ℕ → ℕ → ℕ → Keys → Option Row → Reply × Keys
claim_over q locked_until expires_at now keys none =
    store q.scope q.key (claimed_row q locked_until expires_at now) keys
claim_over q locked_until expires_at now keys (some row) =
    if claimable q now row
    then store q.scope q.key (claimed_row q locked_until expires_at row.created_at) keys
    else (nothing, keys)

unfoldable pub claim_idempotency_key : Request → ℕ → ℕ → ℕ → Keys → Reply × Keys
claim_idempotency_key q locked_until expires_at now keys =
    claim_over q locked_until expires_at now keys (keys q.scope q.key)

-- CompleteIdempotencyKey.
abbrev pub completable : Request → ℕ → Row → Bool
completable q until row =
    same_request q row
    && is_processing row.status
    && leb row.locked_until until
    && leb until row.locked_until

abbrev pub complete_over : Request → ℕ → Response → ℕ → Keys → Option Row → Reply × Keys
complete_over q until response now keys none = (nothing, keys)
complete_over q until response now keys (some row) =
    if completable q until row
    then store q.scope q.key (record row { status = completed response; locked_until = now }) keys
    else (nothing, keys)

unfoldable pub complete_idempotency_key : Request → ℕ → Response → ℕ → Keys → Reply × Keys
complete_idempotency_key q until response now keys =
    complete_over q until response now keys (keys q.scope q.key)

-- DeleteExpiredIdempotencyKeys.
abbrev pub unexpired : ℕ → Option Row → Option Row
unexpired now none = none
unexpired now (some row) = if leb row.expires_at now then none else some row

unfoldable pub delete_expired : ℕ → Keys → Keys
delete_expired now keys s k = unexpired now (keys s k)

-- What `Service.Claim` returns: a response to send again, or a lease to run under.
pub data Claim : Type 0 where
  replay : Response → Claim
  lease : ℕ → Claim

abbrev pub claim_of : Request → Row → Status → Result Claim
claim_of q row processing =
    err (sentinel (if same_request q row then in_progress else key_conflict))
claim_of q row (completed response) =
    if same_request q row then ok (replay response) else err (sentinel key_conflict)

abbrev pub claim_result : Request → Row × Bool → Result Claim
claim_result q (row, true) = ok (lease row.locked_until)
claim_result q (row, false) = claim_of q row row.status

abbrev pub statement : (ℕ → Keys → Reply × Keys) → M Keys (Unit {0}) Reply
statement f =
    remote λ w. let (reply, keys) = f w.now w.database in (reply, record w { database = keys })

abbrev pub found : Option Row → Result Row
found none = err (sentinel no_rows)
found (some row) = ok row

-- GetIdempotencyKey.
pub get_idempotency_key : Request → M Keys (Unit {0}) Row
get_idempotency_key q = do row ← remote λ w. (w.database q.scope q.key, w); λ w. (found row, w)

-- `Repository.Claim`: a row, and whether it was claimed.
abbrev pub after_claim : Request → Reply → M Keys (Unit {0}) (Row × Bool)
after_claim q (returning row) = pure (row, true)
after_claim q nothing = do row ← get_idempotency_key q; pure (row, false)
after_claim q violation = fail (sentinel fault)

pub repository_claim : Request → ℕ → ℕ → M Keys (Unit {0}) (Row × Bool)
unfolding get_idempotency_key
repository_claim q locked_until expires_at = do
  reply ← statement (claim_idempotency_key q locked_until expires_at)
  after_claim q reply

-- `Service.Claim`.
unfoldable pub service_claim : Config → Request → M Keys (Unit {0}) Claim
unfolding repository_claim
service_claim c q = do
  now ← clock
  found ← repository_claim q (now + c.lock_ttl) (now + c.record_ttl)
  λ w. (claim_result q found, w)

-- `Repository.Complete` and `Service.Complete`.
abbrev pub after_complete : Reply → M Keys (Unit {0}) (Unit {0})
after_complete (returning row) = pure tt
after_complete nothing = fail (sentinel in_progress)
after_complete violation = fail (sentinel fault)

unfoldable pub service_complete : Request → ℕ → Response → M Keys (Unit {0}) (Unit {0})
service_complete q until response = do
  reply ← statement (complete_idempotency_key q until response)
  after_complete reply

-- `Repository.DeleteExpired`, which the cleanup job calls at every tick.
unfoldable pub delete_expired_keys : M Keys (Unit {0}) (Unit {0})
delete_expired_keys = remote λ w. (tt, record w { database = delete_expired w.now w.database })
