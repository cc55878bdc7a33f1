-- ===== src/Client/Life/Untouched.antt =====
-- session.py of reachy_session_client: what leaves the connections and the flag of closing as they are.
use reachy.Prelude.{
  ℕ, ◌≡◌, String, Bool, true, false, Option, none, some, Result, ok, err, is_some, arith,
  Bool-cases, inl, inr,
}
use reachy.Link.Contract.{Bytes, FrameHeader, ResultEnvelope, PayloadClass}
use reachy.Link.Framing.{MessageKind, result, error, close, agreement, Raised, encode_frame}
use reachy.Link.Framing
use reachy.Link.Libraries.{envelope_from_wire}
use reachy.Client.{
  Environment, SessionClient, ClientError, interpret, ignored, superseded, applied, apply_envelope,
  apply, apply_class, apply_parsed, interpret_decoded, decode, agreed, capability_of, is_older,
}
use reachy.Client.Opening.{frame_dropped, submit_on, sending, finish_submit, is_held}
use reachy.Client.Life.{Life, submitted}

-- The client is as closed as it was, and nothing was done to its connections.
pub record IsAsClosed (s t : SessionClient) : Type 0 where
  pub closed : t.closed ≡ s.closed
  pub opened : t.opened ≡ s.opened
  pub transport : t.transport ≡ s.transport

module _ (env : Environment) (now : ℕ) (s : SessionClient) where
  apply_envelope-IsAsClosed : (e : ResultEnvelope) → IsAsClosed s (apply_envelope env e now s).1
  unfolding apply_envelope superseded applied
  apply_envelope-IsAsClosed e = elim (Bool-cases (is_older e.sequence s.highest_applied)) [
    | inl older ↦ rw older (ground arith)
    | inr newer ↦ rw newer (ground arith)
  ]

  apply_parsed-IsAsClosed :
      (r : Result String ResultEnvelope) → IsAsClosed s (apply_parsed env r now s).1
  unfolding apply_parsed
  apply_parsed-IsAsClosed (ok e) = apply_envelope-IsAsClosed e
  apply_parsed-IsAsClosed (err summary) = ground arith

  apply_class-IsAsClosed :
      (c : Option PayloadClass) (payload : Bytes) → IsAsClosed s (apply_class env c payload now s).1
  unfolding apply_class ignored
  apply_class-IsAsClosed none payload = ground arith
  apply_class-IsAsClosed (some c) payload =
      apply_parsed-IsAsClosed (envelope_from_wire env.models c payload)

  apply-IsAsClosed : (payload : Bytes) → IsAsClosed s (apply env payload now s).1
  unfolding apply ignored
  apply-IsAsClosed payload = elim (Bool-cases (is_some (agreed s (capability_of env payload)))) [
    | inl known ↦ rw known (apply_class-IsAsClosed _ payload)
    | inr unknown ↦ rw unknown (ground arith)
  ]

  decoded-IsAsClosed :
      (r : Result ClientError (MessageKind × Bytes))
      → IsAsClosed s (interpret_decoded env r now s).1
  unfolding interpret_decoded
  decoded-IsAsClosed (err e) = ground arith
  decoded-IsAsClosed (ok (result, payload)) = apply-IsAsClosed payload
  decoded-IsAsClosed (ok (error, payload)) = ground arith
  decoded-IsAsClosed (ok (close, payload)) = ground arith
  decoded-IsAsClosed (ok (Framing.MessageKind.offer, payload)) = ground arith
  decoded-IsAsClosed (ok (agreement, payload)) = ground arith

  pub interpret-IsAsClosed : (message : String) → IsAsClosed s (interpret env message now s).1
  unfolding interpret
  interpret-IsAsClosed message = decoded-IsAsClosed (decode env message)

  sending-IsAsClosed :
      (l : Life) (t : ℕ) (h : FrameHeader) (r : Result Raised Bytes)
      → IsAsClosed s (submitted (sending t h r, s) l).client
  unfolding submitted sending
  sending-IsAsClosed l t h (ok m) = ground arith
  sending-IsAsClosed l t h (err e) = ground arith

  pub submit_on-IsAsClosed :
      (l : Life) (payload : Bytes) (transport : Option ℕ)
      → IsAsClosed s (submitted (submit_on env now payload transport s) l).client
  unfolding submit_on submitted frame_dropped
  submit_on-IsAsClosed l payload none = ground arith
  submit_on-IsAsClosed l payload (some t) =
      sending-IsAsClosed l t _ (encode_frame env.models.header _ payload)

pub finish_submit-IsAsClosed :
    (s : SessionClient) (t : ℕ) (header : FrameHeader) (through : Bool)
    → IsAsClosed s (finish_submit t header through s).1
unfolding finish_submit frame_dropped
finish_submit-IsAsClosed s t header false = ground arith
finish_submit-IsAsClosed s t header true = elim (Bool-cases (is_held s.transport t)) [
  | inl held ↦ rw held (ground arith)
  | inr gone ↦ rw gone (ground arith)
]
