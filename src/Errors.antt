-- ===== src/Errors.antt =====
-- Error values: pkg/apperror, the sentinels of the packages modelled here, and what the code uses of
-- Go's `errors.Is`, `errors.As`, `errors.Join` and of `fmt.Errorf` with `%w`.
use monogo.Base.{ℕ, Bool, true, false, ◌||◌, Option, none, some, String}

-- Values that the code compares by identity. `fault` stands for any error that the network or a
-- server makes up; no test of the code names it.
pub data Sentinel : Type 0 where
  no_rows redis_nil channel_unavailable admission_cps admission_concurrent key_conflict : Sentinel
  in_progress unsupported_event uncorrelated_event not_inbound_admission fault : Sentinel

pub Sentinel-discrete : Discrete Sentinel
Sentinel-discrete = hlevel

-- `OriginateFailureClass`.
pub data FailureClass : Type 0 where
  validation transport timeout sip capacity internal : FailureClass

pub data Error : Type 0 where
  -- `AppError` with a nil `Err`, and with one: code, message and status.
  app : String → String → ℕ → Error
  app_wrapping : String → String → ℕ → Error → Error
  -- `OriginateError`: class, SIP status, cause.
  originate_error : FailureClass → ℕ → Error → Error
  sentinel : Sentinel → Error
  plain : String → Error
  wrapped : String → Error → Error
  joined : Error → Error → Error

same_sentinel : Sentinel → Sentinel → Bool
same_sentinel no_rows no_rows = true
same_sentinel redis_nil redis_nil = true
same_sentinel channel_unavailable channel_unavailable = true
same_sentinel admission_cps admission_cps = true
same_sentinel admission_concurrent admission_concurrent = true
same_sentinel key_conflict key_conflict = true
same_sentinel in_progress in_progress = true
same_sentinel unsupported_event unsupported_event = true
same_sentinel uncorrelated_event uncorrelated_event = true
same_sentinel not_inbound_admission not_inbound_admission = true
same_sentinel fault fault = true
same_sentinel _ _ = false

-- `errors.Is(err, target)` at a sentinel, over the `Unwrap` methods.
unfoldable pub is_error : Sentinel → Error → Bool
unfolding same_sentinel
is_error t (app c m n) = false
is_error t (app_wrapping c m n e) = is_error t e
is_error t (originate_error k n e) = is_error t e
is_error t (sentinel s) = same_sentinel s t
is_error t (plain m) = false
is_error t (wrapped m e) = is_error t e
is_error t (joined d e) = is_error t d || is_error t e

abbrev or_else {ℓ} : {A : Type ℓ} → Option A → Option A → Option A
or_else none o = o
or_else (some a) o = some a

-- `errors.As(err, &originateError)`: the class and the SIP status that it finds.
unfoldable pub as_originate_error : Error → Option (FailureClass × ℕ)
as_originate_error (app c m n) = none
as_originate_error (app_wrapping c m n e) = as_originate_error e
as_originate_error (originate_error k n e) = some (k, n)
as_originate_error (sentinel s) = none
as_originate_error (plain m) = none
as_originate_error (wrapped m e) = as_originate_error e
as_originate_error (joined d e) = or_else (as_originate_error d) (as_originate_error e)

abbrev pub new_not_found : String → Error
new_not_found message = app "NOT_FOUND" message 404

abbrev pub new_unauthorized : String → Error
new_unauthorized message = app "UNAUTHORIZED" message 401

abbrev pub new_payload_too_large : String → Error
new_payload_too_large message = app "PAYLOAD_TOO_LARGE" message 413

abbrev pub new_bad_request : String → Error
new_bad_request message = app "BAD_REQUEST" message 400

abbrev pub new_conflict : String → Error
new_conflict message = app "CONFLICT" message 409

abbrev pub new_too_many_requests : String → Error
new_too_many_requests message = app "TOO_MANY_REQUESTS" message 429

abbrev pub new_internal : String → Error → Error
new_internal message err = app_wrapping "INTERNAL_ERROR" message 500 err

abbrev pub new_service_unavailable : String → Error → Error
new_service_unavailable message err = app_wrapping "SERVICE_UNAVAILABLE" message 503 err
