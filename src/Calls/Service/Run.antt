-- ===== src/Calls/Service/Run.antt =====
-- What holds of the calls after any requests and lifecycle events, one after the other.
use monogo.Base.{ℕ, ◌≡◌, some, List, [], ◌∷◌}
use monogo.Effects.{World}
use monogo.Redis.{Redis}
use monogo.Calls.Model.{LifecycleEvent, InboundAdmissionRequest, Call}
use monogo.Calls.Requests.{CreateRequest}
use monogo.Calls.Store.{Database}
use monogo.Calls.Store.Steps.{Reach, here}
use monogo.Calls.Store.Safe.{Reach-trans}
use monogo.Calls.Store.Progress.{Progress, Reach-Advances}
use monogo.Calls.Store.Valid.{AllValid, Reach-AllValid}
use monogo.Calls.Store.History.{Recorded, Reach-Recorded}
use monogo.Calls.Lifecycle.{observe_lifecycle}
use monogo.Calls.Lifecycle.Safe.{observe_lifecycle-Safe}
use monogo.Calls.Service.{Peers, PeersLaws}
use monogo.Calls.Service.Create.{service_create}
use monogo.Calls.Service.Create.Safe.{service_create-Safe}
use monogo.Calls.Service.Inbound.{admit_inbound}
use monogo.Calls.Service.Inbound.Safe.{admit_inbound-Safe}
use monogo.Calls.Service.Control.{Operation, perform}
use monogo.Calls.Service.Control.Safe.{perform-Safe}

-- What reaches the service; the key that the server would draw for a new row comes with the request.
pub data Request : Type 0 where
  lifecycle : LifecycleEvent → Request
  outbound_call : ℕ → ℕ → CreateRequest → Request
  inbound_call : ℕ → InboundAdmissionRequest → Request
  control_call : Operation → ℕ → ℕ → Request

module _ (r : Redis) (p : Peers r.Keyspace) where
  pub serve : Request → World Database r.Keyspace → World Database r.Keyspace
  serve (lifecycle event) w = (observe_lifecycle r event w).1
  serve (outbound_call id organization_id req) w = (service_create r p id organization_id req w).1
  serve (inbound_call id req) w = (admit_inbound r p id req w).1
  serve (control_call operation organization_id id) w =
      (perform r p operation organization_id id w).1

  pub serve_all : List Request → World Database r.Keyspace → World Database r.Keyspace
  serve_all [] w = w
  serve_all (request ∷ requests) w = serve_all requests (serve request w)

  module _ (laws : PeersLaws p) where
    serve-Reach :
        (request : Request) (w : World Database r.Keyspace)
        → Reach w.database (serve request w).database
    unfolding serve
    serve-Reach (lifecycle event) w = (observe_lifecycle-Safe r event).run w
    serve-Reach (outbound_call id organization_id req) w =
        (service_create-Safe r p laws id organization_id req).run w
    serve-Reach (inbound_call id req) w = (admit_inbound-Safe r p laws id req).run w
    serve-Reach (control_call operation organization_id id) w =
        (perform-Safe r p laws operation organization_id id).run w

    serve_all-Reach :
        (requests : List Request) (w : World Database r.Keyspace)
        → Reach w.database (serve_all requests w).database
    unfolding serve_all
    serve_all-Reach [] w = here
    serve_all-Reach (request ∷ requests) w =
        Reach-trans (serve-Reach request w) (serve_all-Reach requests _)

    -- If the peers leave the calls alone: whatever outbound calls are placed, inbound calls admitted,
    -- control operations asked for and lifecycle events observed, in any order and under any network
    -- faults, the outbox only grows, and the events added to it tell a lawful story: each lets its call
    -- appear, or take one step of its life from where the events before it left the call, under the
    -- subject of that step. Replayed in order over the status (state and media state) that each call
    -- had, if any, they give the status that each call has, so no change of status is lost.
    pub serve_all-Recorded :
        (requests : List Request) (w : World Database r.Keyspace)
        → Recorded w.database (serve_all requests w).database
    serve_all-Recorded requests w = Reach-Recorded (serve_all-Reach requests w)

    -- If the peers leave the calls alone, and every row is valid: every row is valid after any outbound
    -- calls, inbound calls, control operations and lifecycle events, under any network faults, also
    -- the rows that those make. A call has an end time exactly when it is over, an answered one has
    -- an answer time, and one on hold is past ringing and not cancelled.
    pub serve_all-AllValid :
        (requests : List Request) (w : World Database r.Keyspace)
        → AllValid w.database.calls
        → AllValid (serve_all requests w).database.calls
    serve_all-AllValid requests w = Reach-AllValid (serve_all-Reach requests w)

    -- If the peers leave the calls alone: through any outbound calls, inbound calls, control operations
    -- and lifecycle events, under any network faults, no row disappears or is replaced by that of
    -- another call. A row's rank (initiating, ringing, answered, active, over) never falls, and once
    -- it is over its state, end time, hangup reason and media state stay; its organization and
    -- direction never change, and a SIP Call-ID or an answer time, once there, is never replaced.
    pub serve_all-Progress :
        (requests : List Request) (w : World Database r.Keyspace) (id : ℕ) (c : Call)
        → w.database.calls id ≡ some c
        → (d : Call) × ((serve_all requests w).database.calls id ≡ some d) × Progress c d
    serve_all-Progress requests w = Reach-Advances (serve_all-Reach requests w)
