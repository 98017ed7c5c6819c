-- ===== src/Lib.antt =====
-- monogo: the call control plane of the server, a model with its theorems.
--
-- The server places and receives telephone calls. Rows of the `calls` table in PostgreSQL are the
-- record of a call; each change of state commits together with an event in the outbox, from which a
-- publisher feeds the consumers; Redis holds the channel of a call and the leases that bound the calls
-- of a trunk. Events of the telephony runtime drive the rows, an outbound call tries its routes in
-- turn, and a media node streams the audio of a call through bounded queues.
--
-- Files, and the code they model:
--   Errors              server/pkg/apperror/apperror.go, server/internal/runtime/calling/originate_error.go;
--                       `errors.Is` and `errors.As` follow the Unwrap methods.
--   Effects             how code with a database, Redis, a clock and a network runs: a state monad with
--                       errors. Children: rules for its combinators.
--   Redis               the commands the code uses, as a parameter, with their documented laws for
--                       sorted sets; Redis/Memory is an instance, for the examples alone.
--   Calling/Leases      the Lua scripts and methods for call leases of
--                       server/internal/integrations/redis/cache.go (AcquireCallLease as acquire_script
--                       and acquire_call_lease, and so on).
--   Calling/Channels    ChannelStore and AdmissionLimiter of server/internal/runtime/calling/channel.go.
--   Calls/Model         model.go and validation.go of server/internal/telephony/calls.
--   Calls/Store         the statements on a call row (server/internal/database/queries/calls.sql) and
--                       `Repository.mutate` with the Mark methods (repository.go). Children: the steps
--                       that code can make on the database, and what such steps keep.
--   Calls/Lifecycle     `Service.ObserveLifecycle` and what it calls (lifecycle.go).
--   Calls/Failover      `executeRoutePlan` (failover.go).
--   Media/Queue         `audioQueue` and `AudioFrame` (queue.go and session.go of
--                       server/internal/media/session), with every interleaving of pushes and of the
--                       two halves of pops; the theorems on durations are for frames of less than 8 GiB,
--                       where the int64 of the code does not wrap.
--   Platform/Retry      `retryDelay` and `durationSeconds` of server/internal/platform/outbox/jobs.go, of
--                       which webhooks/jobs.go has a copy of the first.
--   RateLimit           AllowFixedWindow (server/internal/integrations/redis/cache.go).
--   Media/Frame         `AudioFrame.Validate` and `Command.Validate` (session.go).
--   Calls/Requests      the requests that validation.go brings into shape, lower case as a parameter.
--   Media/Config        `Config.Validate`, `Config.Equal` and `Config.Provider` (session.go); whether bytes are a
--                       JSON object is a parameter.
--   Platform/Delivery   `DeliveryJob.deliverBatch` from its claims on, with the repository's methods and the
--                       statements they run (server/internal/platform/webhooks), which refuse a status
--                       or a body that its column does not take.
--   Security/Authz      the policy and the guards of server/internal/security/authz.
--   Calling/Egress      what controller.go of server/internal/runtime/calling asks of FreeSWITCH for a channel.
--   Calling/Controller  its commands, over the FreeSWITCH client as a parameter (`Switch`).
--   Routing             server/internal/telephony/routing, with its queries as a parameter.
--   Calls/Service       service.go of server/internal/telephony/calls: `Service.Create` (Create),
--                       `Service.AdmitInbound` (Inbound), the control operations (Control), and any
--                       sequence of requests and events (Run). `Peers` is what it talks to.
--   Media/Manager       the sessions of a node (server/internal/media/session/manager.go): `Start`,
--                       `Attach`, `Stop`, `Drain`, the attachment timer and what they call, as tasks that
--                       run from one lock to the next. A `Drain` waits in the order of the table.
--   Bencode             server/internal/integrations/rtpengine/protocol.go: `encodeValue`, `decodeValue` and
--                       `bdecodeMap`; Packet has requests, cookies and responses.
--   Platform/Idempotency  server/internal/platform/idempotency with its table and statements; Middleware is
--                       server/internal/platform/middleware/idempotency.go, `Handle` cut in two at the
--                       call of the handler; Runs has the histories of requests.
--   Platform/Outbox     the publisher of server/internal/platform/outbox, its table and statements, and the
--                       client of the bus; Runs has any number of workers, event by event.
--   Calling/Events      `Event.Header` of server/internal/integrations/freeswitch.
--   Calling/Translator  server/internal/runtime/calling/translator.go; Dispatch is the switch in
--                       server/internal/runtime/worker/consumers.go; Calls/Consumer (consumer.go of
--                       server/internal/telephony/calls) hands what it makes to the service.
--
-- How values are read: a uuid is a number, 0 for uuid.Nil; a time is a number of milliseconds and a
-- duration one of nanoseconds, unless a comment says otherwise; text is a list of code points, and the body
-- of a webhook's response one of bytes; a column
-- with a CHECK constraint is a data type of the values it allows; JSON of an outbox payload is the row
-- it prints. A signed number that the code rejects or treats as 0 when negative starts at 0 here. The
-- clock stands still while one operation runs and moves freely between operations. Contexts and clients
-- are not nil. A remote call takes effect and returns, or is lost, or takes effect and loses its
-- reply: `World.net` lists the fate of each call to come, and a call past its end is done. A transaction
-- is atomic at its commit; other transactions run before or after it, never within.
--
-- Most loops end by structural recursion on what they walk through, without fuel: a route plan on its
-- routes, a retry delay on the rounds that the attempt allows, the clearing of a queue on its frames. The
-- decoder of packets has fuel, two calls for each byte and one more, which is never used up.
--
-- Not modelled: HTTP handlers and middleware but for that of
-- idempotency, the generated queries, the integrations with telephony
-- and AI providers, identity, tenancy, storage, retention, backoffice, agents and tools, which are
-- either glue around code that is not here or parts of their own; the listing of calls; the
-- pump of a media session.
pub mod Base
pub mod Bencode
pub mod Calling
pub mod Calls
pub mod Effects
pub mod Errors
pub mod Media
pub mod Platform
pub mod RateLimit
pub mod Redis
pub mod Routing
pub mod Security
