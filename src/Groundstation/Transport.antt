-- ===== src/Groundstation/Transport.antt =====
-- services/groundstation/src/reachy_groundstation/session/transport.py: one connection, as the session
-- layer sees it. What a WebSocket does is an argument: the messages that arrive, and whether a send
-- goes through.
use reachy.Prelude.{ℕ, String, List, [], ◌∷◌, ◌++◌, Bool, true, false, Result, ok, err}
use reachy.Link.Contract.{
  SessionAgreement, ResultEnvelope, SessionError, SessionClose, ValidationError,
}
use reachy.Link.Framing.{MessageKind}

-- The RFC 6455 close codes.
abbrev pub close_normal : ℕ
close_normal = 1000

abbrev pub close_protocol_error : ℕ
close_protocol_error = 1002

abbrev pub close_policy_violation : ℕ
close_policy_violation = 1008

-- A contract message on its way out.
pub data WireMessage : Type 0 where
  agreement_message : SessionAgreement → WireMessage
  result_message : ResultEnvelope → WireMessage
  error_message : SessionError → WireMessage
  close_message : SessionClose → WireMessage

-- What was done to the connection. A message stands for its `encode_control`.
pub data Action : Type 0 where
  sends : MessageKind → WireMessage → Action
  closes : ℕ → String → Action

-- `done` is what was done, in order. `link` says of the coming sends whether each goes through; past
-- its end all do.
pub record Wire : Type 0 where
  pub done : List Action
  pub link : List Bool

-- An exception that leaves a call: `TransportClosedError`, or another, of a class.
pub data Stop : Type 0 where
  transport_closed : Stop
  raised : String → Stop

-- What the construction of a message raises.
abbrev pub invalid : ValidationError → Stop
invalid e = raised "ValidationError"

abbrev pub next_link : List Bool → Bool
next_link [] = true
next_link (b ∷ bs) = b

abbrev pub later_link : List Bool → List Bool
later_link [] = []
later_link (b ∷ bs) = bs

abbrev pub act_if : Bool → Wire → Action → Result Stop (Unit {0}) × Wire
act_if true w a = (ok tt, record w { done = w.done ++ a ∷ []; link = later_link w.link })
act_if false w a = (err transport_closed, record w { link = later_link w.link })

-- `send`, of a message.
unfoldable pub send : Wire → MessageKind → WireMessage → Result Stop (Unit {0}) × Wire
send w kind message = act_if (next_link w.link) w (sends kind message)

-- `close`, which does not raise.
unfoldable pub close : Wire → ℕ → String → Wire
close w code reason = record w { done = w.done ++ closes code reason ∷ [] }
