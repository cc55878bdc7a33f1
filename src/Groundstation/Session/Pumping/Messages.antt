-- ===== src/Groundstation/Session/Pumping/Messages.antt =====
-- session/runner.py: what each message of a client does to a session.
use Prim.Native.String.{count, len}
use reachy.Prelude.{
  ℕ, suc, ◌+◌, ◌≤◌, ◌<◌, ◌≡◌, ◌≢◌, refl, ap, inl, inr, String, List, true, [], ◌∷◌, ◌++◌, Option,
  none, some, ltb, length, Result, ok, err, clip, count-clip, arith, Bool-cases,
}
use reachy.Link.Contract.{
  FrameHeader, Bytes, malformed_message, CloseReason, going_away, new_error, max_detail,
}
use reachy.Link.Libraries.{Codec}
use reachy.Link.Framing.{
  MessageKind, error, close, Raised, framing_error, escaped, decode_control, decode_frame,
}
use reachy.Groundstation.Queue.{QueuedFrame}
use reachy.Groundstation.Queue.Newest.{put_splits}
use reachy.Groundstation.Transport
use reachy.Groundstation.Transport.{sends, closes, Stop, error_message, close_normal, send}
use reachy.Groundstation.Effects.{deliver, count_error}
use reachy.Groundstation.Session.{
  Settings, Environment, Incoming, text, binary, message_size, close_connection,
}
use reachy.Groundstation.Session.Pumping.{
  Session, report_malformed, receive_one, handle_control, malformed_control, decoded_control,
  read_frame, read_fitting, accept_frame, on_shared,
}

-- The session after a message was reported: one error, for a malformed message, that names no frame,
-- and the error counted; nothing else.
pub record IsReported (p q : Session) : Type 0 where
  pub detail : String
  pub short : count detail ≤ max_detail
  pub done :
      q.shared.wire.done
      ≡ p.shared.wire.done
        ++ sends error
            (error_message (record { code = malformed_message; detail = detail; sequence = none }))
          ∷ []
  pub errors : q.shared.errors ≡ p.shared.errors ++ malformed_message ∷ []
  pub same :
      q ≡ record p { shared = record p.shared { wire = q.shared.wire; errors = q.shared.errors } }

malformed_control_lem :
    (detail : String) (p : Session)
    → p.shared.wire.link ≡ []
    → let (r, q) = on_shared p (malformed_control detail p.shared) in (r ≡ ok none) × IsReported p q
unfolding malformed_control report_malformed deliver send new_error count_error
malformed_control_lem detail p open_link =
    let short = count-clip max_detail detail in
    (
      ground arith,
      record {
        detail = clip max_detail detail;
        short = short;
        done = ground arith;
        errors = ground arith;
        same = ground arith;
      },
    )

-- The session after a frame was queued: of the frames that waited the newest are kept, the others are
-- counted as dropped, the frame waits behind them, and it is counted; nothing else.
pub record IsQueued (now : ℕ) (header : FrameHeader) (payload : Bytes) (p q : Session)
    : Type 0 where
  pub lost : List QueuedFrame
  pub kept : List QueuedFrame
  pub waited : p.queue.items ≡ lost ++ kept
  pub done : q ≡ record p {
    queue = record p.queue {
      items = kept ++ record { header = header; payload = payload; received_at = now } ∷ [];
      arrived = true;
    };
    frames_received = suc p.frames_received;
    frames_dropped = p.frames_dropped + length lost;
  }

accept_frame-IsQueued :
    (now : ℕ) (p : Session) (header : FrameHeader) (payload : Bytes)
    → IsQueued now header payload p (accept_frame now p header payload)
unfolding accept_frame
accept_frame-IsQueued now p header payload =
    let f : QueuedFrame = record { header = header; payload = payload; received_at = now } in
    let (lost, kept, e, d) = put_splits p.queue f in
    record {
      lost = lost;
      kept = kept;
      waited = e;
      done =
          ap
            (λ r. record p {
              queue = r.0;
              frames_received = suc p.frames_received;
              frames_dropped = p.frames_dropped + r.1;
            })
            d;
    }

-- Why a message is of no use.
pub data IsUseless (env : Environment) (settings : Settings) : Incoming → Type 0 where
  too_large :
      (m : Incoming) → settings.max_message_bytes < message_size m → IsUseless env settings m
  not_control :
      (t e : String)
      → decode_control env.json t ≡ err (framing_error e)
      → IsUseless env settings (text t)
  not_a_clients :
      (t : String) (kind : MessageKind) (payload : Bytes)
      → decode_control env.json t ≡ ok (kind, payload)
      → kind ≢ close
      → IsUseless env settings (text t)
  not_a_frame :
      (b : Bytes) (e : String)
      → decode_frame env.models.header b ≡ err (framing_error e)
      → IsUseless env settings (binary b)

-- What one message comes to, on a connection that holds.
pub data Received (env : Environment) (settings : Settings) (now : ℕ) (p : Session) (m : Incoming)
    (r : Result Stop (Option CloseReason) × Session) : Type 0 where
  reported :
      IsUseless env settings m → r.0 ≡ ok none → IsReported p r.1 → Received env settings now p m r
  accepted :
      (b : Bytes) (header : FrameHeader) (payload : Bytes)
      → m ≡ binary b
      → length b ≤ settings.max_message_bytes
      → decode_frame env.models.header b ≡ ok (header, payload)
      → r.0 ≡ ok none
      → IsQueued now header payload p r.1
      → Received env settings now p m r
  goodbye :
      (t : String) (payload : Bytes)
      → m ≡ text t
      → len t ≤ settings.max_message_bytes
      → decode_control env.json t ≡ ok (close, payload)
      → r ≡ (
        ok (some going_away),
        record p {
          shared = record p.shared {
            wire = record p.shared.wire {
              done = p.shared.wire.done ++ closes 1000 "closing as asked" ∷ [];
            };
          };
        },
      )
      → Received env settings now p m r
  crashed :
      (t class : String)
      → m ≡ text t
      → len t ≤ settings.max_message_bytes
      → decode_control env.json t ≡ err (escaped class)
      → r ≡ (err (Stop.raised class), p)
      → Received env settings now p m r

-- Reading a frame raises framing errors alone.
pub decode_frame-ne-escaped :
    (codec : Codec FrameHeader) (b : Bytes) (class : String)
    → decode_frame codec b ≢ err (escaped class)
unfolding decode_frame
decode_frame-ne-escaped codec b class h = ground arith

module _ (env : Environment) (settings : Settings) (now : ℕ) (p : Session)
    (open_link : p.shared.wire.link ≡ []) where
  is_reported :
      (m : Incoming) (detail : String)
      → IsUseless env settings m
      → Received env settings now p m (on_shared p (malformed_control detail p.shared))
  is_reported m detail why =
      let (e, q) = malformed_control_lem detail p open_link in reported why e q

  control_Received :
      (t : String) (r : Result Raised (MessageKind × Bytes))
      → len t ≤ settings.max_message_bytes
      → decode_control env.json t ≡ r
      → Received env settings now p (text t) (on_shared p (decoded_control r p.shared))
  unfolding decoded_control close_connection Transport.close
  control_Received t (err (framing_error e)) fits d = is_reported (text t) _ (not_control t e d)
  control_Received t (err (escaped class)) fits d = crashed t class refl fits d refl
  control_Received t (ok (close, payload)) fits d = goodbye t payload refl fits d refl
  control_Received t (ok (MessageKind.offer, payload)) fits d =
      is_reported (text t) _ (not_a_clients t MessageKind.offer payload d (λ e. cc))
  control_Received t (ok (MessageKind.agreement, payload)) fits d =
      is_reported (text t) _ (not_a_clients t MessageKind.agreement payload d (λ e. cc))
  control_Received t (ok (MessageKind.result, payload)) fits d =
      is_reported (text t) _ (not_a_clients t MessageKind.result payload d (λ e. cc))
  control_Received t (ok (error, payload)) fits d =
      is_reported (text t) _ (not_a_clients t error payload d (λ e. cc))

  frame_Received :
      (b : Bytes) (r : Result Raised (FrameHeader × Bytes))
      → length b ≤ settings.max_message_bytes
      → decode_frame env.models.header b ≡ r
      → Received env settings now p (binary b) (read_frame now p r)
  unfolding read_frame
  frame_Received b (ok (header, payload)) fits d =
      accepted b header payload refl fits d refl (accept_frame-IsQueued now p header payload)
  frame_Received b (err (framing_error e)) fits d = is_reported (binary b) e (not_a_frame b e d)
  frame_Received b (err (escaped class)) fits d =
      absurd (decode_frame-ne-escaped env.models.header b class d)

  fitting_Received :
      (m : Incoming)
      → message_size m ≤ settings.max_message_bytes
      → Received env settings now p m (read_fitting env now p m)
  unfolding read_fitting handle_control message_size
  fitting_Received (text t) fits = control_Received t (decode_control env.json t) fits refl
  fitting_Received (binary b) fits = frame_Received b (decode_frame env.models.header b) fits refl

  -- A message, on a connection that holds, comes to one of four things: it is of no use, for being over
  -- the size bound, not a control message or a frame, or a control message that is not a close, and
  -- then the client is sent one error that names no frame and the session goes on as it was; it is a
  -- frame, which is counted and waits behind the newest of those that waited, where the others are
  -- counted as dropped; it is a close, and the connection is closed and the session
  -- ends as going away; or decoding it raises an exception that is not a framing error, which then
  -- leaves the session.
  pub receive_one_cases :
      (m : Incoming) → Received env settings now p m (receive_one env settings now p m)
  unfolding receive_one
  receive_one_cases m = elim (Bool-cases (ltb settings.max_message_bytes (message_size m))) [
    | inl long ↦ rw long (is_reported m _ (too_large m (ground arith)))
    | inr fits ↦ rw fits (fitting_Received m (ground arith))
  ]
