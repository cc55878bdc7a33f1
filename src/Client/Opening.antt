-- ===== src/Client/Opening.antt =====
-- session.py: how the client opens a session, sends frames on it, and ends it.
use reachy.Prelude.{
  ℕ, suc, String, List, [], ◌∷◌, ◌++◌, Bool, true, false, not, Option, none, some, ◌==◌, any, keep,
  if◌then◌else◌, Result, ok, err, ◌>>=◌, map_err, concat, length, is_some,
}
use reachy.Link.Contract.{
  Bytes, Capability, same_capability, SessionOffer, new_offer, SessionAgreement, FrameHeader,
}
use reachy.Link.Libraries.{agreement_from_wire}
use reachy.Link.Framing.{MessageKind, close, kind_value, Raised, encode_frame}
use reachy.Link.Framing
use reachy.Client.{
  Environment, Settings, SessionClient, ClientError, connection_failed, protocol_error, unoffered,
  offer_is_not_valid, decode, refusal,
}

-- What one attempt to connect meets: the connection that opens, if one does, whether the offer goes
-- out on it, and the text that answers it, if one does.
pub record Dial : Type 0 where
  pub opens : Option ℕ
  pub sends : Bool
  pub answers : Option String

unfoldable pub not_offered : Settings → SessionAgreement → List Capability
not_offered settings a =
    keep (λ c. not (any (same_capability c) settings.capabilities)) a.capabilities

unfoldable pub offered_only : Settings → SessionAgreement → Result ClientError SessionAgreement
offered_only settings a =
    if length (not_offered settings a) == 0 then ok a else err (unoffered (not_offered settings a))

unfoldable pub answered :
    Environment
    → Settings
    → Result ClientError (MessageKind × Bytes)
    → Result ClientError SessionAgreement
unfolding offered_only
answered env settings (err e) = err e
answered env settings (ok (close, payload)) = err (refusal env payload)
answered env settings (ok (Framing.MessageKind.agreement, payload)) =
    map_err (λ summary. protocol_error (concat "the agreement did not parse: " summary))
      (agreement_from_wire env.models payload)
    >>= offered_only settings
answered env settings (ok (kind, payload)) = err (
    protocol_error
      (concat "a session opens with an agreement, not '" (concat (kind_value kind) "'")))

unfoldable pub offer : Settings → Result ClientError SessionOffer
offer settings =
    map_err (λ e. offer_is_not_valid) (new_offer settings.credential settings.capabilities)

unfoldable pub received : Environment → Option String → Result ClientError (MessageKind × Bytes)
received env none = err (connection_failed "the connection ended")
received env (some message) = decode env message

unfoldable pub exchanged :
    Environment → Settings → Bool → Option String → Result ClientError SessionAgreement
unfolding answered received
exchanged env settings false answers = err (connection_failed "the connection ended")
exchanged env settings true answers = answered env settings (received env answers)

unfoldable pub negotiate : Environment → Settings → Dial → Result ClientError SessionAgreement
unfolding exchanged
negotiate env settings dial = offer settings >>= λ o. exchanged env settings dial.sends dial.answers

unfoldable pub negotiated :
    ℕ
    → SessionClient
    → Result ClientError SessionAgreement
    → Result ClientError SessionAgreement × SessionClient
negotiated t s (err e) = (err e, record s { hung_up = s.hung_up ++ t ∷ [] })
negotiated t s (ok a) = (
  ok a,
  record s { transport = some t; agreement = some a; sequence = 0; highest_applied = none },
)

unfoldable pub establish_on :
    Environment
    → Settings
    → Dial
    → Option ℕ
    → SessionClient
    → Result ClientError SessionAgreement × SessionClient
unfolding negotiated
establish_on env settings dial none s =
    (err (connection_failed "the connection could not be opened"), s)
establish_on env settings dial (some t) s =
    negotiated t (record s { opened = s.opened ++ t ∷ [] }) (negotiate env settings dial)

-- The start of `_establish`, up to its first await.
unfoldable pub attempted : SessionClient → SessionClient
attempted s = record s {
  stats = record s.stats { connection_attempts = suc s.stats.connection_attempts };
}

-- `_establish`, from its first await to its end: nothing but the counter is changed before it.
unfoldable pub finish_establish :
    Environment
    → Settings
    → Dial
    → SessionClient
    → Result ClientError SessionAgreement × SessionClient
unfolding establish_on
finish_establish env settings dial s = establish_on env settings dial dial.opens s

unfoldable pub connect_if :
    Option SessionAgreement → SessionClient → Option SessionAgreement × SessionClient
unfolding attempted
connect_if (some a) s = (some a, s)
connect_if none s = (none, attempted (record s { closed = false }))

-- `connect`, from where it has the lock: it returns the agreement held, or goes on to establish one.
unfoldable pub begin_connect : SessionClient → Option SessionAgreement × SessionClient
unfolding connect_if
begin_connect s = connect_if s.agreement s

unfoldable pub hang_up : Option ℕ → List ℕ → List ℕ
hang_up none ts = ts
hang_up (some t) ts = ts ++ t ∷ []

-- `_discard`, and what `aclose` does under the lock: whether its goodbye goes out changes nothing.
unfoldable pub discard : SessionClient → SessionClient
unfolding hang_up
discard s = record s { transport = none; agreement = none; hung_up = hang_up s.transport s.hung_up }

-- The two halves of `aclose`: the flag is set before the lock is taken.
unfoldable pub begin_close : SessionClient → SessionClient
begin_close s = record s { closed = true }

unfoldable pub finish_close : SessionClient → SessionClient
finish_close s = discard s

unfoldable pub frame_dropped : SessionClient → SessionClient
frame_dropped s = record s {
  stats = record s.stats { frames_dropped = suc s.stats.frames_dropped };
}

-- The first half of `submit_frame`, up to the send: the frame is dropped, the framing raises, or the
-- frame goes to a connection.
pub data Submission : Type 0 where
  drops : Submission
  raises : Raised → Submission
  sends : ℕ → FrameHeader → Bytes → Submission

unfoldable pub sending : ℕ → FrameHeader → Result Raised Bytes → Submission
sending t header (err e) = raises e
sending t header (ok message) = sends t header message

unfoldable pub submit_on :
    Environment → ℕ → Bytes → Option ℕ → SessionClient → Submission × SessionClient
unfolding sending
submit_on env now payload none s = (drops, frame_dropped s)
submit_on env now payload (some t) s =
    let header : FrameHeader = record { sequence = s.sequence; captured_at = env.format now } in
    (sending t header (encode_frame env.models.header header payload), s)

unfoldable pub begin_submit : Environment → ℕ → Bytes → SessionClient → Submission × SessionClient
unfolding submit_on
begin_submit env now payload s = submit_on env now payload s.transport s

unfoldable pub is_held : Option ℕ → ℕ → Bool
is_held none t = false
is_held (some held) t = held == t

-- The second half, after the send on a connection, which went through or not.
unfoldable pub finish_submit :
    ℕ → FrameHeader → Bool → SessionClient → Option FrameHeader × SessionClient
unfolding is_held
finish_submit t header false s = (none, frame_dropped s)
finish_submit t header true s =
    if is_held s.transport t
    then (
      some header,
      record s {
        sequence = suc s.sequence;
        stats = record s.stats { frames_submitted = suc s.stats.frames_submitted };
      },
    )
    else (none, frame_dropped s)

-- How a round of `_reconnect` that establishes a session ends: by a return, by another delay, or by an
-- exception.
pub data Attempt : Type 0 where
  returns again : Attempt
  throws : ClientError → Attempt

unfoldable pub attempt_after :
    Result ClientError SessionAgreement × SessionClient → Attempt × SessionClient
attempt_after (ok a, s) =
    (returns, record s { stats = record s.stats { reconnections = suc s.stats.reconnections } })
attempt_after (err (connection_failed e), s) = (again, s)
attempt_after (err e, s) = (throws e, s)

-- A round of `_reconnect`, from where it has the lock: whether it goes on to establish a session. It
-- returns if the client is closed, or if a session is up.
unfoldable pub round_if : Bool → Bool → SessionClient → Bool × SessionClient
unfolding attempted
round_if true up s = (false, s)
round_if false true s = (false, s)
round_if false false s = (true, attempted s)

unfoldable pub begin_round : SessionClient → Bool × SessionClient
unfolding round_if
begin_round s = round_if s.closed (is_some s.transport) s

unfoldable pub finish_round :
    Environment → Settings → Dial → SessionClient → Attempt × SessionClient
unfolding attempt_after
finish_round env settings dial s = attempt_after (finish_establish env settings dial s)
