-- ===== src/Client.antt =====
-- packages/reachy-session-client/src/reachy_session_client/session.py, results.py and clock.py: the
-- client of a session. The code that awaits is split where it awaits; a connection is known by a
-- number, and a reading of the clock is a whole number of ticks.
pub mod Results
pub mod Agreement
pub mod Handshake
pub mod Opening
pub mod Life
use reachy.Prelude.{
  ℕ, suc, ◌+◌, ◌-◌, String, List, [], ◌∷◌, ◌++◌, Bool, true, false, not, ◌&&◌, Option, none, some,
  ltb, leb, ◌==◌, any, keep, str_eq, if◌then◌else◌, Result, ok, err, ◌>>=◌, map_err, concat, length,
  is_some, ℤ, sub_ℕ,
}
use reachy.Link.Contract.{
  Bytes, Capability, same_capability, SessionOffer, new_offer, SessionAgreement, FrameHeader,
  ResultEnvelope, PayloadClass, payload_class, CloseReason, going_away, SessionClose,
}
use reachy.Link.Contract
use reachy.Link.Libraries.{
  Json, text, object, Fields, end, field, JsonModule, Models, agreement_from_wire,
  envelope_from_wire,
}
use reachy.Link.Framing.{
  MessageKind, agreement, result, error, close, kind_value, Raised, framing_error, escaped,
  decode_control, encode_frame,
}

-- What the client calls that is not the repository's: besides the `json` module and the models,
-- `json.loads` of bytes that `json.dumps` wrote, and the reading and writing of floats.
pub record Environment : Type 0 where
  pub json : JsonModule
  pub models : Models
  pub loads_written : Bytes → Json
  pub format : ℕ → String
  pub parse : String → Option ℕ

pub record Settings : Type 0 where
  pub credential : String
  pub capabilities : List Capability
  pub staleness : ℕ

pub record FrameResult : Type 0 where
  pub envelope : ResultEnvelope
  pub received_at : ℕ
  pub round_trip : Option ℤ

pub record SessionStats : Type 0 where
  pub connection_attempts : ℕ
  pub reconnections : ℕ
  pub frames_submitted : ℕ
  pub frames_dropped : ℕ
  pub results_applied : ℕ
  pub results_superseded : ℕ
  pub results_ignored : ℕ
  pub errors_received : ℕ

-- The fields of a `SessionClient`, and the connections it has opened and closed, in order.
pub record SessionClient : Type 0 where
  pub transport : Option ℕ
  pub agreement : Option SessionAgreement
  pub sequence : ℕ
  pub highest_applied : Option ℕ
  pub latest_result : Option FrameResult
  pub closed : Bool
  pub stats : SessionStats
  pub opened : List ℕ
  pub hung_up : List ℕ

-- The errors of errors.py, each of a text but for the `ProtocolError` about capabilities that were not
-- offered, and the exceptions of other code, by their class.
pub data ClientError : Type 0 where
  connection_failed not_connected protocol_error : String → ClientError
  unoffered : List Capability → ClientError
  session_refused : CloseReason → String → ClientError
  offer_is_not_valid : ClientError
  other_error : String → ClientError

unfoldable pub new : SessionClient
new = record {
  transport = none;
  agreement = none;
  sequence = 0;
  highest_applied = none;
  latest_result = none;
  closed = false;
  stats = record {
    connection_attempts = 0;
    reconnections = 0;
    frames_submitted = 0;
    frames_dropped = 0;
    results_applied = 0;
    results_superseded = 0;
    results_ignored = 0;
    errors_received = 0;
  };
  opened = [];
  hung_up = [];
}

find_named : String → List Capability → Option Capability
find_named name [] = none
find_named name (c ∷ cs) =
    let rest = find_named name cs in if str_eq c.name name then some c else rest

agreed_in : Option SessionAgreement → String → Option Capability
unfolding find_named
agreed_in none name = none
agreed_in (some a) name = find_named name a.capabilities

unfoldable pub agreed : SessionClient → String → Option Capability
unfolding agreed_in
agreed s name = agreed_in s.agreement name

decode_error : Raised → ClientError
decode_error (framing_error e) =
    protocol_error (concat "the groundstation sent an unusable message: " e)
decode_error (escaped class) = other_error class

unfoldable pub decode : Environment → String → Result ClientError (MessageKind × Bytes)
unfolding decode_error
decode env message = map_err decode_error (decode_control env.json message)

closed_for : CloseReason → String → ClientError
closed_for going_away detail = connection_failed (concat "the groundstation is going away: " detail)
closed_for reason detail = session_refused reason detail

close_error : Result String SessionClose → ClientError
unfolding closed_for
close_error (err summary) = protocol_error (concat "the close message did not parse: " summary)
close_error (ok c) = closed_for c.reason c.detail

unfoldable pub refusal : Environment → Bytes → ClientError
unfolding close_error
refusal env payload = close_error (env.models.close.from_wire payload)

text_or_empty : Json → String
text_or_empty (text t) = t
text_or_empty _ = ""

capability_field : Fields → String
unfolding text_or_empty
capability_field end = ""
capability_field (field key value fields) =
    let rest = capability_field fields in
    if str_eq key "capability" then text_or_empty value else rest

capability_of_document : Json → String
unfolding capability_field
capability_of_document (object fields) = capability_field fields
capability_of_document _ = ""

unfoldable pub capability_of : Environment → Bytes → String
unfolding capability_of_document
capability_of env payload = capability_of_document (env.loads_written payload)

minus : ℕ → Option ℕ → Option ℤ
minus now none = none
minus now (some captured_at) = some (sub_ℕ now captured_at)

unfoldable pub age_of : Environment → String → ℕ → Option ℤ
unfolding minus
age_of env token now = minus now (env.parse token)

unfoldable pub ignored : SessionClient → SessionClient
ignored s = record s { stats = record s.stats { results_ignored = suc s.stats.results_ignored } }

unfoldable pub superseded : SessionClient → SessionClient
superseded s = record s {
  stats = record s.stats { results_superseded = suc s.stats.results_superseded };
}

unfoldable pub is_older : ℕ → Option ℕ → Bool
is_older sequence none = false
is_older sequence (some highest) = ltb sequence highest

unfoldable pub frame_result : Environment → ResultEnvelope → ℕ → FrameResult
frame_result env envelope now = record {
  envelope = envelope;
  received_at = now;
  round_trip = age_of env envelope.captured_at now;
}

unfoldable pub applied : Environment → ResultEnvelope → ℕ → SessionClient → SessionClient
applied env envelope now s = record s {
  highest_applied = some envelope.sequence;
  stats = record s.stats { results_applied = suc s.stats.results_applied };
  latest_result = some (frame_result env envelope now);
}

-- Whether an envelope that parsed is still worth applying.
unfoldable pub apply_envelope :
    Environment → ResultEnvelope → ℕ → SessionClient → Option FrameResult × SessionClient
apply_envelope env envelope now s =
    if is_older envelope.sequence s.highest_applied
    then (none, superseded s)
    else (some (frame_result env envelope now), applied env envelope now s)

apply_parsed :
    Environment
    → Result String ResultEnvelope
    → ℕ
    → SessionClient
    → Result ClientError (Option FrameResult) × SessionClient
apply_parsed env (err summary) now s =
    (err (protocol_error (concat "a result did not parse: " summary)), s)
apply_parsed env (ok envelope) now s = let (r, t) = apply_envelope env envelope now s in (ok r, t)

-- An answer of a capability that was agreed, for the class registered for its name.
apply_class :
    Environment
    → Option PayloadClass
    → Bytes
    → ℕ
    → SessionClient
    → Result ClientError (Option FrameResult) × SessionClient
unfolding apply_parsed
apply_class env none payload now s = (ok none, ignored s)
apply_class env (some class) payload now s =
    apply_parsed env (envelope_from_wire env.models class payload) now s

unfoldable pub apply :
    Environment
    → Bytes
    → ℕ
    → SessionClient
    → Result ClientError (Option FrameResult) × SessionClient
unfolding apply_class
apply env payload now s =
    if is_some (agreed s (capability_of env payload))
    then apply_class env (payload_class (capability_of env payload)) payload now s
    else (ok none, ignored s)

interpret_decoded :
    Environment
    → Result ClientError (MessageKind × Bytes)
    → ℕ
    → SessionClient
    → Result ClientError (Option FrameResult) × SessionClient
interpret_decoded env (err e) now s = (err e, s)
interpret_decoded env (ok (result, payload)) now s = apply env payload now s
interpret_decoded env (ok (error, payload)) now s =
    (ok none, record s { stats = record s.stats { errors_received = suc s.stats.errors_received } })
interpret_decoded env (ok (close, payload)) now s = (err (refusal env payload), s)
interpret_decoded env (ok (kind, payload)) now s = (
  err (protocol_error (concat "'" (concat (kind_value kind) "' is not a groundstation message"))),
  s,
)

unfoldable pub interpret :
    Environment
    → String
    → ℕ
    → SessionClient
    → Result ClientError (Option FrameResult) × SessionClient
unfolding interpret_decoded
interpret env message now s = interpret_decoded env (decode env message) now s

unless_stale : Settings → Option FrameResult → ℕ → Option FrameResult
unless_stale settings none now = none
unless_stale settings (some r) now =
    if leb settings.staleness (now - r.received_at) then none else some r

-- The window is positive and the clock does not go back, so that the subtraction is the source's.
unfoldable pub latest : Settings → ℕ → SessionClient → Option FrameResult
unfolding unless_stale
latest settings now s = unless_stale settings s.latest_result now
