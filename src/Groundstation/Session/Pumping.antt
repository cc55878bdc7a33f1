-- ===== src/Groundstation/Session/Pumping.antt =====
-- services/groundstation/src/reachy_groundstation/session/runner.py: the frames of a session, from the
-- agreement to the close. The reader of the connection and the pipeline's task take turns at their
-- awaits: an interleaving is a list of turns.
pub mod Messages
pub mod Accounts
pub mod Draining
pub mod Emptying
use reachy.Prelude.{
  ℕ, zero, suc, ◌+◌, String, List, [], ◌∷◌, Bool, true, false, Option, none, some, ltb, length,
  if◌then◌else◌, Result, ok, err, map_err, concat, decimal, clip,
}
use reachy.Link.Contract.{
  Bytes, FrameHeader, malformed_message, CloseReason, going_away, max_detail, new_error,
}
use reachy.Link.Libraries.{Codec, Models}
use reachy.Link.Framing.{
  MessageKind, error, close, kind_value, Raised, framing_error, escaped, decode_control,
  decode_frame,
}
use reachy.Groundstation.Queue
use reachy.Groundstation.Queue.{QueuedFrame, FrameQueue, Lap, took, raised, waits, put, get}
use reachy.Groundstation.Transport
use reachy.Groundstation.Transport.{Stop, transport_closed, error_message, invalid, close_normal}
use reachy.Groundstation.Effects.{Shared, M, ◌>>=◌, ◌>>◌, lift, deliver, count_error}
use reachy.Groundstation.Pipeline.{Engine, AgreedCapability, process}
use reachy.Groundstation.Session.{
  Settings, Environment, Incoming, text, binary, message_size, close_connection,
}

unfoldable pub report_malformed : String → M (Unit {0})
unfolding count_error
report_malformed detail = do
  count_error malformed_message
  message ← lift (map_err invalid (new_error malformed_message (clip max_detail detail) none))
  deliver error (error_message message)

not_a_client_message : MessageKind → String
not_a_client_message kind = concat "'" (concat (kind_value kind) "' is not a client message")

malformed_control : String → M (Option CloseReason)
malformed_control detail = do report_malformed detail; lift (ok none)

decoded_control : Result Raised (MessageKind × Bytes) → M (Option CloseReason)
unfolding malformed_control not_a_client_message
decoded_control (err (framing_error e)) = malformed_control e
decoded_control (err (escaped class)) = lift (err (Stop.raised class))
decoded_control (ok (close, payload)) = do
  close_connection close_normal "closing as asked"
  lift (ok (some going_away))
decoded_control (ok (kind, payload)) = malformed_control (not_a_client_message kind)

unfoldable pub handle_control : Environment → String → M (Option CloseReason)
unfolding decoded_control
handle_control env message = decoded_control (decode_control env.json message)

-- The pipeline's task: it runs, it is parked on the event of its queue, or it has ended, by returning or
-- by an exception.
pub data Worker : Type 0 where
  running parked returned : Worker
  failed : Stop → Worker

-- A session that carries frames.
pub record Session : Type 0 where
  pub shared : Shared
  pub queue : FrameQueue
  pub worker : Worker
  pub frames_received : ℕ
  pub frames_dropped : ℕ

-- What a reading of one message comes to: on with the loop, a reason to end, or an exception.
abbrev on_shared :
    Session → Result Stop (Option CloseReason) × Shared → Result Stop (Option CloseReason) × Session
on_shared p (r, s) = (r, record p { shared = s })

too_long : ℕ → ℕ → String
too_long size bound =
    concat "message of "
      (concat (decimal size) (concat " bytes exceeds the configured maximum of " (decimal bound)))

unfoldable pub accept_frame : ℕ → Session → FrameHeader → Bytes → Session
accept_frame now p header payload =
    let (queue, dropped) =
      put p.queue (record { header = header; payload = payload; received_at = now }) in
    record p {
      queue = queue;
      frames_received = suc p.frames_received;
      frames_dropped = p.frames_dropped + dropped;
    }

read_frame :
    ℕ → Session → Result Raised (FrameHeader × Bytes) → Result Stop (Option CloseReason) × Session
unfolding accept_frame malformed_control
read_frame now p (ok (header, payload)) = (ok none, accept_frame now p header payload)
read_frame now p (err (framing_error e)) = on_shared p (malformed_control e p.shared)
read_frame now p (err (escaped class)) = (err (Stop.raised class), p)

read_fitting : Environment → ℕ → Session → Incoming → Result Stop (Option CloseReason) × Session
unfolding read_frame
read_fitting env now p (text t) = on_shared p (handle_control env t p.shared)
read_fitting env now p (binary b) = read_frame now p (decode_frame env.models.header b)

-- One round of the loop of `_receive_frames`, on a message that arrived; `now` is the clock.
unfoldable pub receive_one :
    Environment → Settings → ℕ → Session → Incoming → Result Stop (Option CloseReason) × Session
unfolding too_long read_fitting malformed_control
receive_one env settings now p message =
    if ltb settings.max_message_bytes (message_size message)
    then on_shared p
        (malformed_control (too_long (message_size message) settings.max_message_bytes) p.shared)
    else read_fitting env now p message

worker_after : Result Stop (Unit {0}) → Worker
worker_after (ok _) = running
worker_after (err e) = failed e

work_lap : Engine → List AgreedCapability → Session → Lap → Session
unfolding worker_after
work_lap engine capabilities p (took frame queue) =
    let (r, s) = process engine capabilities frame p.shared in
    record p { queue = queue; shared = s; worker = worker_after r }
work_lap engine capabilities p raised = record p { worker = returned }
work_lap engine capabilities p (waits queue) = record p { queue = queue; worker = parked }

-- By whether the event is set, where the task is parked.
work_if : Worker → Bool → Engine → List AgreedCapability → Session → Session
unfolding work_lap
work_if running arrived engine capabilities p = work_lap engine capabilities p (get p.queue)
work_if parked true engine capabilities p = work_lap engine capabilities p (get p.queue)
work_if _ arrived engine capabilities p = p

-- One round of the loop of `FramePipeline.run`, in the pipeline's task, if it can run.
unfoldable pub work : Engine → List AgreedCapability → Session → Session
unfolding work_if
work engine capabilities p = work_if p.worker p.queue.arrived engine capabilities p

-- A turn: a message arrives at the clock's reading, the connection ends, or the pipeline's task runs.
pub data Turn : Type 0 where
  arrives : ℕ → Incoming → Turn
  vanishes : Turn
  works : Turn

-- How the reading ends: it does not, it ends for a reason, or by an exception.
pub data Reading : Type 0 where
  goes_on : Reading
  ends : CloseReason → Reading
  stops : Stop → Reading

reading_after : Result Stop (Option CloseReason) → Reading
reading_after (ok none) = goes_on
reading_after (ok (some reason)) = ends reason
reading_after (err e) = stops e

unfoldable pub turn :
    Environment → Settings → Engine → List AgreedCapability → Session → Turn → Reading × Session
unfolding reading_after
turn env settings engine capabilities p (arrives now message) =
    let (r, q) = receive_one env settings now p message in (reading_after r, q)
turn env settings engine capabilities p vanishes = (stops transport_closed, p)
turn env settings engine capabilities p works = (goes_on, work engine capabilities p)

abbrev turns_on : Reading × Session → (Session → Reading × Session) → Reading × Session
turns_on (goes_on, p) rest = rest p
turns_on (ends reason, p) rest = (ends reason, p)
turns_on (stops e, p) rest = (stops e, p)

-- The loop, over the turns of a connection's life: past the last of them the connection has ended.
unfoldable pub receive_frames :
    Environment
    → Settings
    → Engine
    → List AgreedCapability
    → List Turn
    → Session
    → Reading × Session
receive_frames env settings engine capabilities [] p = (stops transport_closed, p)
receive_frames env settings engine capabilities (t ∷ ts) p =
    turns_on (turn env settings engine capabilities p t)
      (λ q. receive_frames env settings engine capabilities ts q)

unfoldable pub work_laps : Engine → List AgreedCapability → ℕ → Session → Session
work_laps engine capabilities zero p = p
work_laps engine capabilities (suc n) p =
    work_laps engine capabilities n (work engine capabilities p)

-- What awaiting the pipeline's task in `_drain` comes to: `TransportClosedError` is suppressed.
drained : Worker → Result Stop (Unit {0})
drained (failed (Stop.raised class)) = err (Stop.raised class)
drained _ = ok tt

-- The `finally` of `_pump`: the queue is closed and the task runs to its end, which is one round for
-- each frame that waits and one more.
unfoldable pub drain : Engine → List AgreedCapability → Session → Result Stop (Unit {0}) × Session
unfolding drained
drain engine capabilities p =
    let q =
      work_laps engine capabilities (suc (length p.queue.items))
        (record p { queue = Queue.close p.queue }) in
    (drained q.worker, q)
