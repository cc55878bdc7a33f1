-- ===== src/Groundstation/Session/Pumping/Draining.antt =====
-- session/runner.py: how `_drain` brings a session's pipeline to its end.
use reachy.Prelude.{
  ℕ, ◌≡◌, refl, ap, ◌∙◌, ◌⊎◌, Bool, List, [], ◌∷◌, true, false, ltb, Result, ok, err, arith,
  Bool-cases, inl, inr,
}
use reachy.Link.Contract.{FrameHeader, Bytes}
use reachy.Link.Framing.{Raised, framing_error, escaped, decode_frame}
use reachy.Groundstation.Queue
use reachy.Groundstation.Queue.{
  QueuedFrame, FrameQueue, Lap, put, get, Found, oldest, ended, empty, get-Found, get-took,
  get-raised,
}
use reachy.Groundstation.Transport.{Stop}
use reachy.Groundstation.Pipeline.{Engine, AgreedCapability, process}
use reachy.Groundstation.Session.{Settings, Environment, Incoming, text, binary, message_size}
use reachy.Groundstation.Session.Pumping.{
  Session, Worker, running, parked, returned, failed, Turn, arrives, vanishes, works, Reading,
  goes_on, ends, stops, receive_one, read_frame, read_fitting, accept_frame, work, work_if,
  work_lap, worker_after, turn, turns_on, receive_frames, drain,
}
use reachy.Groundstation.Session.Pumping.Emptying.{
  processed, IsOver, is_running, is_woken, failed_still, laps-IsOver,
}

-- A session that reads: its queue is open and its task runs, is parked or has failed.
pub data IsReading (p : Session) : Type 0 where
  with_task : (p.worker ≡ running) ⊎ (p.worker ≡ parked) → p.queue.closed ≡ false → IsReading p
  without_task : (e : Stop) → p.worker ≡ failed e → p.queue.closed ≡ false → IsReading p

-- Reading a message leaves the task, and the queue open or closed, as they are.
abbrev Keeps : Session → Session → Type 0
Keeps p q = (q.worker ≡ p.worker) × (q.queue.closed ≡ p.queue.closed)

is_open : {p : Session} → IsReading p → p.queue.closed ≡ false
is_open (with_task w c) = c
is_open (without_task e w c) = c

read_frame-Keeps :
    (now : ℕ) (p : Session) (r : Result Raised (FrameHeader × Bytes))
    → Keeps p (read_frame now p r).1
unfolding read_frame accept_frame put
read_frame-Keeps now p (ok (h, payload)) = (refl, refl)
read_frame-Keeps now p (err (framing_error e)) = (refl, refl)
read_frame-Keeps now p (err (escaped class)) = (refl, refl)

read_fitting-Keeps :
    (env : Environment) (now : ℕ) (p : Session) (m : Incoming)
    → Keeps p (read_fitting env now p m).1
unfolding read_fitting
read_fitting-Keeps env now p (text t) = (refl, refl)
read_fitting-Keeps env now p (binary b) = read_frame-Keeps now p (decode_frame env.models.header b)

receive_one-Keeps :
    (env : Environment) (settings : Settings) (now : ℕ) (p : Session) (m : Incoming)
    → Keeps p (receive_one env settings now p m).1
unfolding receive_one
receive_one-Keeps env settings now p m =
    elim (Bool-cases (ltb settings.max_message_bytes (message_size m))) [
      | inl long ↦ rw long (refl, refl)
      | inr fits ↦ rw fits (read_fitting-Keeps env now p m)
    ]

Keeps-IsReading : (p q : Session) → Keeps p q → IsReading p → IsReading q
Keeps-IsReading p q k (with_task (inl w) c) = with_task (inl (k.0 ∙ w)) (k.1 ∙ c)
Keeps-IsReading p q k (with_task (inr w) c) = with_task (inr (k.0 ∙ w)) (k.1 ∙ c)
Keeps-IsReading p q k (without_task e w c) = without_task e (k.0 ∙ w) (k.1 ∙ c)

took-IsReading :
    (q : Session) (r : Result Stop (Unit {0}))
    → q.worker ≡ worker_after r
    → q.queue.closed ≡ false
    → IsReading q
unfolding worker_after
took-IsReading q (ok x) w c = with_task (inl w) c
took-IsReading q (err e) w c = without_task e w c

lap-IsReading :
    (engine : Engine) (capabilities : List AgreedCapability) (p : Session)
    → Found p.queue
    → p.queue.closed ≡ false
    → IsReading (work_lap engine capabilities p (get p.queue))
unfolding work_lap
lap-IsReading engine capabilities p (oldest f fs e lap) c =
    rw lap (took-IsReading _ (process engine capabilities f p.shared).0 refl c)
lap-IsReading engine capabilities p (ended e over lap) c = absurd (ground arith)
lap-IsReading engine capabilities p (empty e still lap) c = rw lap (with_task (inr refl) still)

work_if-IsReading :
    (engine : Engine) (capabilities : List AgreedCapability) (p : Session) (w : Worker)
    (arrived : Bool)
    → p.worker ≡ w
    → IsReading p
    → IsReading (work_if w arrived engine capabilities p)
unfolding work_if
work_if-IsReading engine capabilities p running arrived e r =
    lap-IsReading engine capabilities p (get-Found p.queue) (is_open r)
work_if-IsReading engine capabilities p parked true e r =
    lap-IsReading engine capabilities p (get-Found p.queue) (is_open r)
work_if-IsReading engine capabilities p parked false e r = r
work_if-IsReading engine capabilities p returned arrived e r = r
work_if-IsReading engine capabilities p (failed x) arrived e r = r

work-IsReading :
    (engine : Engine) (capabilities : List AgreedCapability) (p : Session)
    → IsReading p
    → IsReading (work engine capabilities p)
unfolding work
work-IsReading engine capabilities p r =
    work_if-IsReading engine capabilities p p.worker p.queue.arrived refl r

turn-IsReading :
    (env : Environment) (settings : Settings) (engine : Engine)
    (capabilities : List AgreedCapability) (p : Session) (t : Turn)
    → IsReading p
    → IsReading (turn env settings engine capabilities p t).1
unfolding turn
turn-IsReading env settings engine capabilities p (arrives now m) r =
    Keeps-IsReading p _ (receive_one-Keeps env settings now p m) r
turn-IsReading env settings engine capabilities p vanishes r = r
turn-IsReading env settings engine capabilities p works r = work-IsReading engine capabilities p r

turns_on-IsReading :
    (r : Reading × Session) (rest : Session → Reading × Session)
    → IsReading r.1
    → ((q : Session) → IsReading q → IsReading (rest q).1)
    → IsReading (turns_on r rest).1
turns_on-IsReading (goes_on, p) rest c keep = keep p c
turns_on-IsReading (ends reason, p) rest c keep = c
turns_on-IsReading (stops e, p) rest c keep = c

receive_frames-IsReading :
    (env : Environment) (settings : Settings) (engine : Engine)
    (capabilities : List AgreedCapability) (ts : List Turn) (p : Session)
    → IsReading p
    → IsReading (receive_frames env settings engine capabilities ts p).1
unfolding receive_frames
receive_frames-IsReading env settings engine capabilities [] p r = r
receive_frames-IsReading env settings engine capabilities (t ∷ ts) p r =
    turns_on-IsReading (turn env settings engine capabilities p t) _
      (turn-IsReading env settings engine capabilities p t r)
      (λ q k. receive_frames-IsReading env settings engine capabilities ts q k)

-- What draining does to a session whose task has not failed yet, or has.
pub data Drained (engine : Engine) (capabilities : List AgreedCapability) (p q : Session)
    : Type 0 where
  by_its_task :
      IsOver (processed engine capabilities p.queue.items p.shared) q
      → Drained engine capabilities p q
  already_failed :
      (e : Stop)
      → p.worker ≡ failed e
      → q.worker ≡ failed e
      → q.shared ≡ p.shared
      → Drained engine capabilities p q

drain-Drained :
    (engine : Engine) (capabilities : List AgreedCapability) (p : Session)
    → IsReading p
    → Drained engine capabilities p (drain engine capabilities p).1
unfolding drain Queue.close
drain-Drained engine capabilities p (with_task (inl w) c) =
    by_its_task (laps-IsOver p.queue.items engine capabilities _ (is_running w) refl refl)
drain-Drained engine capabilities p (with_task (inr w) c) =
    by_its_task (laps-IsOver p.queue.items engine capabilities _ (is_woken w refl) refl refl)
drain-Drained engine capabilities p (without_task e w c) =
    let still = failed_still engine capabilities _ (record p { queue = Queue.close p.queue }) e w in
    already_failed e w (ap (λ q. q.worker) still ∙ w) (ap (λ q. q.shared) still)

-- Whatever turns a session has taken since its queue was made and its pipeline started, closing the
-- queue and awaiting the pipeline's task comes to an end, also if the task was parked on the queue's
-- event: either the task had failed before, and nothing more is done; or it takes the frames that wait
-- one after the other, each processed as the pipeline does, until one of them fails, which is then how
-- the task ends; and if none fails it has taken all of them and returned.
pub drain_ends :
    (env : Environment) (settings : Settings) (engine : Engine)
    (capabilities : List AgreedCapability) (ts : List Turn) (p : Session)
    → p.worker ≡ running
    → p.queue.closed ≡ false
    → Drained engine capabilities
        (receive_frames env settings engine capabilities ts p).1
        (drain engine capabilities (receive_frames env settings engine capabilities ts p).1).1
drain_ends env settings engine capabilities ts p w c =
    drain-Drained engine capabilities _
      (receive_frames-IsReading env settings engine capabilities ts p (with_task (inl w) c))
