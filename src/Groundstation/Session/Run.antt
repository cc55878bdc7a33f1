-- ===== src/Groundstation/Session/Run.antt =====
-- services/groundstation/src/reachy_groundstation/session/runner.py: a whole session, from the
-- connection to its outcome (`run`, `_run`, `_pump`, `_finish`).
pub mod Outcome
pub mod Settled
use reachy.Prelude.{
  ℕ, suc, ◌-◌, String, List, [], ◌∷◌, ◌++◌, Bool, true, false, Option, none, some, Result, ok, err,
}
use reachy.Link.Contract.{Capability, SessionOffer, CloseReason, going_away, protocol_error}
use reachy.Groundstation.Queue
use reachy.Groundstation.Queue.{FrameQueue, BoundError}
use reachy.Groundstation.Feed.{enter_session, leave_session}
use reachy.Groundstation.Transport.{Stop, transport_closed, raised}
use reachy.Groundstation.Registry.{CapabilityRegistry}
use reachy.Groundstation.Effects.{Shared}
use reachy.Groundstation.Pipeline.{Engine, AgreedCapability}
use reachy.Groundstation.Session.{Settings, Environment, Opening, await_offer, authenticate, agree}
use reachy.Groundstation.Session.Pumping.{
  Session, running, Turn, Reading, goes_on, ends, stops, receive_frames, drain,
}

-- What is around a session: what it shares with the service, and the counters of sessions that are
-- active and that have finished, by their reasons.
pub record World : Type 0 where
  pub shared : Shared
  pub sessions_active : ℕ
  pub sessions_total : List CloseReason

pub record SessionOutcome : Type 0 where
  pub reason : CloseReason
  pub agreed : List Capability
  pub frames_received : ℕ
  pub frames_dropped : ℕ

-- How an authenticated session leaves the `with` block: a reason or an exception, the agreed set as far
-- as it is known, and the counts.
pub record Carried : Type 0 where
  pub result : Result Stop CloseReason
  pub agreed : List Capability
  pub received : ℕ
  pub dropped : ℕ

-- An exception from awaiting the task takes the place of what the reading came to.
unfoldable pub pumped : Reading → Result Stop (Unit {0}) → Result Stop CloseReason
pumped (ends reason) (ok _) = ok reason
pumped (stops e) (ok _) = err e
pumped goes_on (ok _) = err transport_closed
pumped _ (err e) = err e

abbrev pub fresh : Shared → FrameQueue → Session
fresh s queue = record {
  shared = s;
  queue = queue;
  worker = running;
  frames_received = 0;
  frames_dropped = 0;
}

pump_on :
    Environment
    → Settings
    → Engine
    → List AgreedCapability
    → List Capability
    → List Turn
    → Shared
    → Result BoundError FrameQueue
    → Carried × Shared
unfolding pumped
pump_on env settings engine capabilities agreed turns s (err e) =
    (record { result = err (raised "ValueError"); agreed = agreed; received = 0; dropped = 0 }, s)
pump_on env settings engine capabilities agreed turns s (ok queue) =
    let (reading, p) = receive_frames env settings engine capabilities turns (fresh s queue) in
    let (drained, q) = drain engine capabilities p in
    (
      record {
        result = pumped reading drained;
        agreed = agreed;
        received = q.frames_received;
        dropped = q.frames_dropped;
      },
      q.shared,
    )

unfoldable pub pump :
    Environment
    → Settings
    → Engine
    → List AgreedCapability
    → List Capability
    → List Turn
    → Shared
    → Carried × Shared
unfolding pump_on
pump env settings engine capabilities agreed turns s =
    pump_on env settings engine capabilities agreed turns s (Queue.new settings.queue_bound)

carry_agreed :
    Environment
    → Settings
    → Engine
    → List Turn
    → Result Stop (List AgreedCapability × List Capability) × Shared
    → Carried × Shared
carry_agreed env settings engine turns (err e, s) =
    (record { result = err e; agreed = []; received = 0; dropped = 0 }, s)
carry_agreed env settings engine turns (ok (capabilities, agreed), s) =
    pump env settings engine capabilities agreed turns s

-- The block under `with self._feed.authenticated_session()`.
unfoldable pub carry :
    Environment
    → Settings
    → Engine
    → CapabilityRegistry
    → SessionOffer
    → List Turn
    → Shared
    → Carried × Shared
unfolding carry_agreed
carry env settings engine registry offer turns s =
    let (carried, t) =
      carry_agreed env settings engine turns
        (agree registry offer (record s { feed = enter_session s.feed })) in
    (carried, record t { feed = leave_session t.feed })

unfoldable pub finish : CloseReason → List Capability → ℕ → ℕ → World → SessionOutcome × World
finish reason agreed received dropped w = (
  record { reason = reason; agreed = agreed; frames_received = received; frames_dropped = dropped },
  record w { sessions_total = w.sessions_total ++ reason ∷ [] },
)

finished : SessionOutcome × World → Result Stop SessionOutcome × World
finished (outcome, w) = (ok outcome, w)

-- `except TransportClosedError`, and any other exception.
stopped : Stop → List Capability → ℕ → ℕ → World → Result Stop SessionOutcome × World
unfolding finished
stopped transport_closed agreed received dropped w =
    finished (finish going_away agreed received dropped w)
stopped (raised class) agreed received dropped w = (err (raised class), w)

after_carry : Carried → World → Result Stop SessionOutcome × World
unfolding finished stopped
after_carry c w = elim c.result [
  | ok reason ↦ finished (finish reason c.agreed c.received c.dropped w)
  | err e ↦ stopped e c.agreed c.received c.dropped w
]

run_authenticated :
    Environment
    → Settings
    → Engine
    → CapabilityRegistry
    → SessionOffer
    → List Turn
    → World
    → Result Stop Bool × Shared
    → Result Stop SessionOutcome × World
unfolding finished stopped after_carry
run_authenticated env settings engine registry offer turns w (err e, s) =
    stopped e [] 0 0 (record w { shared = s })
run_authenticated env settings engine registry offer turns w (ok false, s) =
    finished (finish CloseReason.unauthenticated [] 0 0 (record w { shared = s }))
run_authenticated env settings engine registry offer turns w (ok true, s) =
    let (carried, t) = carry env settings engine registry offer turns s in
    after_carry carried (record w { shared = t })

run_opened :
    Environment
    → Settings
    → Engine
    → CapabilityRegistry
    → List Turn
    → World
    → Result Stop (Option SessionOffer) × Shared
    → Result Stop SessionOutcome × World
unfolding finished stopped run_authenticated
run_opened env settings engine registry turns w (err e, s) =
    stopped e [] 0 0 (record w { shared = s })
run_opened env settings engine registry turns w (ok none, s) =
    finished (finish protocol_error [] 0 0 (record w { shared = s }))
run_opened env settings engine registry turns w (ok (some offer), s) =
    run_authenticated env settings engine registry offer turns w (authenticate settings offer s)

-- `_run`.
unfoldable pub run_session :
    Environment
    → Settings
    → Engine
    → CapabilityRegistry
    → Opening
    → List Turn
    → World
    → Result Stop SessionOutcome × World
unfolding run_opened
run_session env settings engine registry opening turns w =
    run_opened env settings engine registry turns w (await_offer env settings opening w.shared)

unfoldable pub run :
    Environment
    → Settings
    → Engine
    → CapabilityRegistry
    → Opening
    → List Turn
    → World
    → Result Stop SessionOutcome × World
run env settings engine registry opening turns w =
    let (outcome, v) =
      run_session env settings engine registry opening turns
        (record w { sessions_active = suc w.sessions_active }) in
    (outcome, record v { sessions_active = v.sessions_active - 1 })
