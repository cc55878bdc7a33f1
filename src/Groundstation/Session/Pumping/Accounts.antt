-- ===== src/Groundstation/Session/Pumping/Accounts.antt =====
-- session/runner.py: the counts of a session while it carries frames, over every order of the
-- turns.
use reachy.Prelude.{
  ℕ, zero, suc, ◌+◌, ◌≤◌, ◌≡◌, refl, ap, ◌∙◌, List, [], ◌∷◌, Option, length, ltb, Result, ok, err,
  arith, Bool, true, false, Bool-cases, inl, inr, String,
}
use reachy.Link.Contract.{FrameHeader, Bytes, CloseReason, new_error}
use reachy.Link.Framing.{
  MessageKind, close, error, Raised, framing_error, escaped, decode_control, decode_frame,
}
use reachy.Groundstation.Queue
use reachy.Groundstation.Queue.{
  QueuedFrame, FrameQueue, Lap, put, get, Found, oldest, ended, empty, get-Found,
}
use reachy.Groundstation.Queue.Newest.{IsBounded, put_keeps_newest, put_accounts}
use reachy.Groundstation.Feed.{FeedRegistry, publish}
use reachy.Groundstation.Transport.{Stop, send}
use reachy.Groundstation.Effects.{Shared, deliver, count_error}
use reachy.Groundstation.Pipeline.{Engine, AgreedCapability, process}
use reachy.Groundstation.Pipeline.Publication.{process_publishes}
use reachy.Groundstation.Session.{
  Settings, Environment, Incoming, text, binary, message_size, close_connection,
}
use reachy.Groundstation.Session.Pumping.{
  Session, Worker, running, parked, returned, failed, Turn, arrives, vanishes, works, Reading,
  goes_on, ends, stops, report_malformed, receive_one, handle_control, malformed_control,
  decoded_control, read_frame, read_fitting, accept_frame, on_shared, work, work_if, work_lap,
  work_laps, turn, turns_on, receive_frames, drain,
}

-- The sessions that the feed counts are those it counted before; the queue keeps its bound; and the
-- frames that were dropped and those that wait are among the frames received.
pub record IsCounted (sessions : ℕ) (p : Session) : Type 0 where
  pub sessions_kept : p.shared.feed.sessions ≡ sessions
  pub bounded : IsBounded p.queue
  pub counted : p.frames_dropped + length p.queue.items ≤ p.frames_received

-- A control message, or the report of a message, leaves the feed as it is.
malformed-feed : (detail : String) (s : Shared) → (malformed_control detail s).1.feed ≡ s.feed
unfolding malformed_control report_malformed deliver send new_error count_error
malformed-feed detail s = ground arith

control-feed :
    (r : Result Raised (MessageKind × Bytes)) (s : Shared) → (decoded_control r s).1.feed ≡ s.feed
unfolding decoded_control close_connection
control-feed (err (framing_error e)) s = malformed-feed e s
control-feed (err (escaped class)) s = refl
control-feed (ok (close, payload)) s = refl
control-feed (ok (MessageKind.offer, payload)) s = malformed-feed _ s
control-feed (ok (MessageKind.agreement, payload)) s = malformed-feed _ s
control-feed (ok (MessageKind.result, payload)) s = malformed-feed _ s
control-feed (ok (error, payload)) s = malformed-feed _ s

publish-sessions :
    (r : FeedRegistry) (payload : Bytes) → (publish r payload).0.sessions ≡ r.sessions
unfolding publish
publish-sessions r payload = ground arith

process-sessions :
    (engine : Engine) (capabilities : List AgreedCapability) (frame : QueuedFrame) (s : Shared)
    → (process engine capabilities frame s).1.feed.sessions ≡ s.feed.sessions
process-sessions engine capabilities frame s =
    ground
      (arith, process_publishes engine capabilities frame s, publish-sessions s.feed frame.payload)

module _ {sessions : ℕ} where
  on_shared-IsCounted :
      (p : Session) (r : Result Stop (Option CloseReason) × Shared)
      → r.1.feed ≡ p.shared.feed
      → IsCounted sessions p
      → IsCounted sessions (on_shared p r).1
  on_shared-IsCounted p r e c = ground arith

  malformed-IsCounted :
      (p : Session) (detail : String)
      → IsCounted sessions p
      → IsCounted sessions (on_shared p (malformed_control detail p.shared)).1
  malformed-IsCounted p detail c =
      on_shared-IsCounted p (malformed_control detail p.shared) (malformed-feed detail p.shared) c

  accept_frame-IsCounted :
      (now : ℕ) (p : Session) (h : FrameHeader) (payload : Bytes)
      → IsCounted sessions p
      → IsCounted sessions (accept_frame now p h payload)
  unfolding accept_frame
  accept_frame-IsCounted now p h payload c =
      let f : QueuedFrame = record { header = h; payload = payload; received_at = now } in
      record {
        sessions_kept = c.sessions_kept;
        bounded = (put_keeps_newest p.queue f c.bounded).3;
        counted = omega (arith, c, put_accounts p.queue f c.bounded);
      }

  read_frame-IsCounted :
      (now : ℕ) (p : Session) (r : Result Raised (FrameHeader × Bytes))
      → IsCounted sessions p
      → IsCounted sessions (read_frame now p r).1
  unfolding read_frame
  read_frame-IsCounted now p (ok (h, payload)) c = accept_frame-IsCounted now p h payload c
  read_frame-IsCounted now p (err (framing_error e)) c = malformed-IsCounted p e c
  read_frame-IsCounted now p (err (escaped class)) c = c

  read_fitting-IsCounted :
      (env : Environment) (now : ℕ) (p : Session) (m : Incoming)
      → IsCounted sessions p
      → IsCounted sessions (read_fitting env now p m).1
  unfolding read_fitting handle_control
  read_fitting-IsCounted env now p (text t) c =
      on_shared-IsCounted p (decoded_control (decode_control env.json t) p.shared)
        (control-feed (decode_control env.json t) p.shared) c
  read_fitting-IsCounted env now p (binary b) c =
      read_frame-IsCounted now p (decode_frame env.models.header b) c

  receive_one-IsCounted :
      (env : Environment) (settings : Settings) (now : ℕ) (p : Session) (m : Incoming)
      → IsCounted sessions p
      → IsCounted sessions (receive_one env settings now p m).1
  unfolding receive_one
  receive_one-IsCounted env settings now p m c =
      elim (Bool-cases (ltb settings.max_message_bytes (message_size m))) [
        | inl long ↦ rw long (malformed-IsCounted p _ c)
        | inr fits ↦ rw fits (read_fitting-IsCounted env now p m c)
      ]

  work_lap-IsCounted :
      (engine : Engine) (capabilities : List AgreedCapability) (p : Session)
      → Found p.queue
      → IsCounted sessions p
      → IsCounted sessions (work_lap engine capabilities p (get p.queue))
  unfolding work_lap
  work_lap-IsCounted engine capabilities p (oldest f fs e lap) c = rw lap (record {
    sessions_kept = process-sessions engine capabilities f p.shared ∙ c.sessions_kept;
    bounded = record { holds = c.bounded.holds; within = omega (arith, c, ap length e) };
    counted = omega (arith, c, ap length e);
  })
  work_lap-IsCounted engine capabilities p (ended e over lap) c =
      rw lap (record { sessions_kept = c.sessions_kept; bounded = c.bounded; counted = c.counted })
  work_lap-IsCounted engine capabilities p (empty e still lap) c = rw lap (record {
    sessions_kept = c.sessions_kept;
    bounded = record { holds = c.bounded.holds; within = c.bounded.within };
    counted = c.counted;
  })

  work_if-IsCounted :
      (w : Worker) (arrived : Bool) (engine : Engine) (capabilities : List AgreedCapability)
      (p : Session)
      → IsCounted sessions p
      → IsCounted sessions (work_if w arrived engine capabilities p)
  unfolding work_if
  work_if-IsCounted running arrived engine capabilities p c =
      work_lap-IsCounted engine capabilities p (get-Found p.queue) c
  work_if-IsCounted parked true engine capabilities p c =
      work_lap-IsCounted engine capabilities p (get-Found p.queue) c
  work_if-IsCounted parked false engine capabilities p c = c
  work_if-IsCounted returned arrived engine capabilities p c = c
  work_if-IsCounted (failed e) arrived engine capabilities p c = c

  turn-IsCounted :
      (env : Environment) (settings : Settings) (engine : Engine)
      (capabilities : List AgreedCapability) (p : Session) (t : Turn)
      → IsCounted sessions p
      → IsCounted sessions (turn env settings engine capabilities p t).1
  unfolding turn work
  turn-IsCounted env settings engine capabilities p (arrives now m) c =
      receive_one-IsCounted env settings now p m c
  turn-IsCounted env settings engine capabilities p vanishes c = c
  turn-IsCounted env settings engine capabilities p works c =
      work_if-IsCounted p.worker p.queue.arrived engine capabilities p c

  turns_on-IsCounted :
      (r : Reading × Session) (rest : Session → Reading × Session)
      → IsCounted sessions r.1
      → ((q : Session) → IsCounted sessions q → IsCounted sessions (rest q).1)
      → IsCounted sessions (turns_on r rest).1
  turns_on-IsCounted (goes_on, p) rest c keep = keep p c
  turns_on-IsCounted (ends reason, p) rest c keep = c
  turns_on-IsCounted (stops e, p) rest c keep = c

  pub receive_frames-IsCounted :
      (env : Environment) (settings : Settings) (engine : Engine)
      (capabilities : List AgreedCapability) (ts : List Turn) (p : Session)
      → IsCounted sessions p
      → IsCounted sessions (receive_frames env settings engine capabilities ts p).1
  unfolding receive_frames
  receive_frames-IsCounted env settings engine capabilities [] p c = c
  receive_frames-IsCounted env settings engine capabilities (t ∷ ts) p c =
      turns_on-IsCounted (turn env settings engine capabilities p t) _
        (turn-IsCounted env settings engine capabilities p t c)
        (λ q k. receive_frames-IsCounted env settings engine capabilities ts q k)

  work_laps-IsCounted :
      (engine : Engine) (capabilities : List AgreedCapability) (n : ℕ) (p : Session)
      → IsCounted sessions p
      → IsCounted sessions (work_laps engine capabilities n p)
  unfolding work_laps work
  work_laps-IsCounted engine capabilities zero p c = c
  work_laps-IsCounted engine capabilities (suc n) p c =
      work_laps-IsCounted engine capabilities n _
        (work_if-IsCounted p.worker p.queue.arrived engine capabilities p c)

  pub drain-IsCounted :
      (engine : Engine) (capabilities : List AgreedCapability) (p : Session)
      → IsCounted sessions p
      → IsCounted sessions (drain engine capabilities p).1
  unfolding drain Queue.close
  drain-IsCounted engine capabilities p c = work_laps-IsCounted engine capabilities _ _ (record {
    sessions_kept = c.sessions_kept;
    bounded = record { holds = c.bounded.holds; within = c.bounded.within };
    counted = c.counted;
  })
