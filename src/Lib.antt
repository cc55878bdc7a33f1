-- ===== src/Lib.antt =====
-- The robot link of reachy (the messages of a session, how they are framed, the robot's client and
-- the groundstation that serves it), parts of the application on the robot, the deploy of that
-- application, and the checks of an installation. A robot opens a session with an offer that presents
-- a credential and names the capabilities it speaks; the groundstation checks the credential, answers
-- with the agreement, and from then on takes frames in and sends one reply for each agreed capability
-- back.
--
-- The parts, and how the state and the operations of the files correspond to the code:
--
--   Prelude.antt and its children: what all modules share. Boolean tests on the native numbers,
--     lists, results, texts as f-strings build them.
--   Link/Contract.antt: packages/reachy-contracts/src/reachy_contracts/session.py and values.py,
--     the messages, their validators and `negotiate`. Link/Contract/Negotiation.antt is about it.
--   Settings.antt: packages/reachy-contracts/src/reachy_contracts/settings.py, what each setting of
--     the robot accepts. Settings/Acceptance.antt is about it.
--   Link/Libraries.antt: the `json` module and pydantic's reading and writing of the models, as
--     parameters, and the `from_wire` of the models that have a validator of their own.
--   Link/Framing.antt: services/groundstation/src/reachy_groundstation/session/framing.py, and the
--     client's packages/reachy-session-client/src/reachy_session_client/framing.py, which differs
--     from it in `encode_frame` alone. Link/Framing/RoundTrip.antt is about it.
--   Groundstation/Queue.antt: services/groundstation/src/reachy_groundstation/pipeline/queue.py,
--     `FrameQueue`. Queue/Newest.antt is about `put`, and Queue/Runs.antt about every interleaving
--     of its producer, its consumer and the caller of `close`.
--   Groundstation/Feed.antt: feed.py, `FeedRegistry`. Feed/Eligibility.antt is about what is
--     retained, and Feed/Viewers.antt about what viewers are shown.
--   Groundstation/Registry.antt: capabilities/registry.py, `CapabilityRegistry`.
--   Groundstation/Transport.antt: session/transport.py. What a WebSocket does is an argument: the
--     messages that arrive, and whether each send goes through.
--   Groundstation/Effects.antt: the state a session shares with its pipeline (the connection, the
--     feed and the two counters that matter to a client), and the monad of code that changes it
--     and raises.
--   Groundstation/Pipeline.antt: pipeline/runner.py and pipeline/decode.py, one frame from its
--     payload to its replies.
--   Groundstation/Session.antt: session/auth.py and the handshake of session/runner.py.
--     Session/Pumping.antt is its reading of frames with the pipeline's task beside it, and
--     Session/Run.antt a whole session (`run`, `_run`, `_pump`, `_finish`).
--   Client.antt: packages/reachy-session-client/src/reachy_session_client/session.py, results.py,
--     clock.py and errors.py, the state of a `SessionClient` and what it makes of each message.
--     Client/Opening.antt is how it connects, submits frames, reconnects and closes;
--     Client/Life.antt is every order of those between their awaits, with one producer and one
--     consumer, where a connection that opens is none of those before. Client/Results.antt is
--     about results, Client/Handshake.antt and Client/Agreement.antt about the handshake. An attempt
--     to establish a session holds the lock from its start to its end, two steps between which the
--     producer, the caller of `aclose` before it has the lock, and the rest of the consumer go on.
--   Satellite.antt: apps/ha-satellite/src/reachy_mini_ha_satellite, the application on the robot.
--     Satellite/Motors.antt is motor_control.py: the evidence of a confirmation. Its children are
--     Motors/Coordinator.antt, the groups' state and the sections under the lock (`_record` is
--     `note`, `_promote`, `command`, `terminal`); Motors/Operation.antt, the one operation from
--     `_reserve` to the end of `_run_reserved`, cut where the code awaits, waits or releases the
--     lock, with each answer of the daemon and of a lifecycle an argument; Motors/Runs.antt, every
--     order of those sections; and Motors/Evidence.antt and Motors/Safety.antt about them.
--     Satellite/Pipeline.antt is behaviour/pipeline.py, and Pipeline/Shown.antt an abstract view of
--     it. Satellite/Gaze.antt is behaviour/tracking.py with what it uses of ports.py, where
--     Gaze/Choice.antt, Gaze/Runs.antt and Gaze/Continuity.antt are about it.
--     Satellite/DaemonLink.antt is daemon_link.py, and Satellite/Perception.antt
--     adapters/perception_source.py.
--   Reachyctl.antt: cli/reachyctl/src/reachyctl. Reachyctl/Steps.antt is steps.py, and
--     Reachyctl/Deploy.antt deploy.py, where Deploy/Verified.antt is about it;
--     Deploy/Reported.antt is its report and its exit status.
--   Checks.antt: packages/reachy-checks/src/reachy_checks, a run of the checks and what it reports.
--   Examples.antt and its children: one robot and one groundstation, at concrete values.
--
-- Code that awaits is split where it awaits: `FrameQueue.get` and `next_frame` are laps, which
-- return or say what they wait for, and a session takes turns, which are a message, the end of the
-- connection or a round of the pipeline's task, in any order. An exception is a value: a closed
-- transport, or another, by its class. The wire is the list of what was sent and closed. The
-- client's clock is read in whole ticks, and that of the application on the robot in whole
-- milliseconds. Under the coordinator's lock a request of terminal may come in from another thread
-- while the clock is read, and before a section looks again. Coordinates and confidences are whole
-- numbers of millionths, and `math.hypot` is a function from two of them to a third.
--
-- The text of an error that the client's transport raises, and the exact text about capabilities
-- that were not offered, stand for themselves: one text, and the list of them. Recursion is
-- structural. Draining takes one round for each frame that waits and one more, which is shown to
-- be enough. `decimal` takes as many digits as the number plus one. Texts are counted in
-- characters, and `message_size` in the bytes of UTF-8, as the source does. A group keeps 32
-- diagnostics, the link to the daemon counts to 9999.
--
-- Not modelled: cancellation of tasks, the awaits inside the processing of one frame, which is one
-- turn of the pipeline's task (an error report of the reader cannot come between its replies), the
-- log lines, spans and metrics (but for the counters named above), the goodbye of a client that
-- closes and the length of its delays between attempts, and the reading of JSON and of the models'
-- fields, which belong to libraries. Of the motor groups: the first confirmation at the start
-- (`initialize`), `aclose`, the waiters of producers, and what the lifecycles do with the hardware.
-- Of the application on the robot: the gaze controller, the audio, the ESPHome protocol, the web
-- interface and its own configuration (`config.py`).
pub mod Checks
pub mod Client
pub mod Examples
pub mod Groundstation
pub mod Link
pub mod Prelude
pub mod Reachyctl
pub mod Satellite
pub mod Settings
