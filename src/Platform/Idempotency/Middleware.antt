-- ===== src/Platform/Idempotency/Middleware.antt =====
-- server/internal/platform/middleware/idempotency.go. The handler behind the middleware is a parameter
-- of the requests that it runs for: what it writes stands in `Captured`. `digest` is the hexadecimal
-- SHA-256 and `uuid_text` is `uuid.UUID.String`. An error is the one that `httputil.Error` prints.
pub mod Replays
use monogo.Base.{
  ℕ, zero, suc, ◌+◌, Bool, true, false, not, ◌&&◌, ◌||◌, List, [], ◌∷◌, ◌++◌, Option, none, some,
  String, Text, codes, is_empty, text_eq, length, trim_space, ltb, leb, if◌then◌else◌,
}
use monogo.Errors.{
  Error, sentinel, is_error, key_conflict, in_progress, new_bad_request, new_unauthorized,
  new_payload_too_large, new_conflict, new_service_unavailable,
}
use monogo.Effects.{World, Result, ok, err, M, ◌>>=◌, ◌>>◌, pure, fail, try, ignore}
use monogo.Platform.Idempotency.{
  Request, Response, Headers, Config, Keys, Claim, replay, lease, service_claim, service_complete,
}

-- What the middleware reads of an HTTP request. `body` is none where reading fails, `principal` is the
-- type and the id of a valid one.
pub record HttpRequest : Type 0 where
  pub idempotency_key : Text
  pub method : Text
  pub request_uri : Text
  pub organization_id : Option ℕ
  pub principal : Option (Text × ℕ)
  pub body : Option Text

abbrev pub is_one_of : Text → List String → Bool
is_one_of s [] = false
is_one_of s (x ∷ xs) = text_eq s (codes x) || is_one_of s xs

unfoldable pub mutation_method : Text → Bool
mutation_method method = is_one_of method ("POST" ∷ "PUT" ∷ "PATCH" ∷ "DELETE" ∷ [])

-- `len` counts the bytes of UTF-8.
abbrev pub bytes_of : ℕ → ℕ
bytes_of c = if ltb c 0x80 then 1 else if ltb c 0x800 then 2 else if ltb c 0x10000 then 3 else 4

abbrev pub byte_length : Text → ℕ
byte_length [] = 0
byte_length (c ∷ s) = bytes_of c + byte_length s

abbrev pub max_idempotent_request_body : ℕ
max_idempotent_request_body = 1048576

-- The body that `readIdempotentBody` returns is read in full: a body is a list of bytes.
unfoldable pub read_idempotent_body : Option Text → Result Text
read_idempotent_body none = err (new_bad_request "invalid request body")
read_idempotent_body (some body) =
    if ltb max_idempotent_request_body (length body)
    then err (new_payload_too_large "idempotent request body exceeds 1 MiB")
    else ok body

unfoldable pub idempotency_error : Error → Error
idempotency_error e =
    if is_error key_conflict e
    then new_conflict "idempotency key was already used for another request"
    else if is_error in_progress e
    then new_conflict "request with this idempotency key is still processing"
    else new_service_unavailable "idempotency service unavailable" e

-- `bufferedResponseWriter`: what the handler wrote. The first status that is written stays; a write of
-- a body settles it.
pub record Captured : Type 0 where
  pub status : ℕ
  pub wrote_header : Bool
  pub body : Text
  pub header : Headers

abbrev pub new_buffered : Captured
new_buffered = record { status = 200; wrote_header = false; body = []; header = λ name. [] }

pub data Write : Type 0 where
  write_header : ℕ → Write
  write : Text → Write
  set_header : Text → List Text → Write

unfoldable pub buffer : Write → Captured → Captured
buffer (write_header status) c =
    if c.wrote_header then c else record c { status = status; wrote_header = true }
buffer (write body) c = record c { body = c.body ++ body; wrote_header = true }
buffer (set_header name values) c = record c {
  header = λ n. if text_eq n name then values else c.header n;
}

unfoldable pub capture : List Write → Captured → Captured
capture [] c = c
capture (x ∷ xs) c = capture xs (buffer x c)

abbrev pub first_value : List Text → Text
first_value [] = []
first_value (v ∷ vs) = v

abbrev pub header_get : Headers → String → Text
header_get h name = first_value (h (codes name))

abbrev pub excluded : Text → Bool
excluded name =
    is_one_of name
      ("Connection" ∷ "Content-Length" ∷ "Content-Type" ∷ "Set-Cookie" ∷ "Transfer-Encoding" ∷ [])

unfoldable pub replay_headers : Headers → Headers
replay_headers h name = if excluded name then [] else h name

unfoldable pub response_of : Captured → Response
unfolding replay_headers
response_of c = record {
  status = c.status;
  body = c.body;
  content_type = header_get c.header "Content-Type";
  headers = replay_headers c.header;
}

-- What the client sees.
pub record Answer : Type 0 where
  pub status : ℕ
  pub headers : Headers
  pub body : Text

abbrev pub set_to : String → Text → Headers → Headers
set_to name value h n = if text_eq n (codes name) then value ∷ [] else h n

abbrev pub add_all : Headers → Headers → Headers
add_all h more n = h n ++ more n

-- `writeReplay`, with the headers that stand already.
unfoldable pub write_replay : Headers → Response → Answer
write_replay h r =
    let all = add_all h r.headers in
    let typed = if is_empty r.content_type then all else set_to "Content-Type" r.content_type all in
    record {
      status = r.status;
      headers = set_to "Idempotency-Replayed" (codes "true") typed;
      body = r.body;
    }

unfoldable pub write_buffered : Headers → Captured → Answer
write_buffered h c = record { status = c.status; headers = add_all h c.header; body = c.body }

-- How `Handle` goes on: the request is none of its business, is answered, or runs under a lease.
pub data Entry : Type 0 where
  passed : Entry
  refused : Error → Entry
  answered : Answer → Entry
  running : Request → ℕ → Entry

module _ (digest : Text → Text) (uuid_text : ℕ → Text) (h : Headers) where
  unfoldable pub idempotency_scope : HttpRequest → Option Text
  idempotency_scope r = elim r.organization_id [
    | some id ↦ some (codes "organization:" ++ uuid_text id)
    | none ↦ elim r.principal [ none ↦ none | some p ↦ some (p.0 ++ codes ":" ++ uuid_text p.1) ]
  ]

  abbrev pub entry_of : Request → Result Claim → Entry
  entry_of q (err e) = refused (idempotency_error e)
  entry_of q (ok (replay response)) =
      answered (write_replay (set_to "Idempotency-Key" q.key h) response)
  entry_of q (ok (lease until)) = running q until

  abbrev pub request_of : HttpRequest → Text → Text → Text → Request
  request_of r key scope body = record {
    scope = scope;
    key = key;
    method = r.method;
    path = r.request_uri;
    request_hash = digest body;
  }

  abbrev pub claim_entry : Config → Request → M Keys (Unit {0}) Entry
  claim_entry c q = do claim ← try (service_claim c q); pure (entry_of q claim)

  abbrev pub with_body : Config → HttpRequest → Text → Text → Result Text → M Keys (Unit {0}) Entry
  with_body c r key scope (err e) = pure (refused e)
  with_body c r key scope (ok body) = claim_entry c (request_of r key scope body)

  abbrev pub with_scope : Config → HttpRequest → Text → Option Text → M Keys (Unit {0}) Entry
  with_scope c r key none =
      pure (refused (new_unauthorized "authenticated idempotency scope required"))
  with_scope c r key (some scope) = with_body c r key scope (read_idempotent_body r.body)

  -- `Handle` up to the call of the handler, and past it.
  unfoldable pub handle : Config → HttpRequest → M Keys (Unit {0}) Entry
  unfolding idempotency_scope
  handle c r =
      let key = trim_space r.idempotency_key in
      if is_empty key || not (mutation_method r.method)
      then pure passed
      else if ltb 255 (byte_length key)
      then pure (refused (new_bad_request "idempotency key must not exceed 255 characters"))
      else with_scope c r key (idempotency_scope r)

  unfoldable pub finish : Request → ℕ → Captured → M Keys (Unit {0}) Answer
  finish q until captured = do
    ignore (service_complete q until (response_of captured))
    pure (write_buffered (set_to "Idempotency-Key" q.key h) captured)
