-- ===== src/Link/Contract.antt =====
-- packages/reachy-contracts/src/reachy_contracts/session.py and values.py: the messages of a
-- session. A `str` is a `String`, `bytes` a list of numbers below 256, and a validation that fails
-- is an error value.
pub mod Negotiation
use Prim.Native.String.{count}
use reachy.Prelude.{
  ℕ, ◌≤◌, ◌<◌, ◌≡◌, String, List, [], Option, none, some, Bool, true, false, ◌&&◌, map, keep, any,
  length, distinct, str_eq, ◌==◌, ltb, if◌then◌else◌, Result, ok, err, ◌>>=◌, ℤ,
}

abbrev pub Bytes : Type 0
Bytes = List ℕ

-- A capability one side can speak, at one version.
pub record Capability : Type 0 where
  pub name : String
  pub version : ℕ

-- The equality of two values of a frozen model: field by field.
unfoldable pub same_capability : Capability → Capability → Bool
same_capability a b = str_eq a.name b.name && a.version == b.version

abbrev pub names : List Capability → List String
names = map (λ c. c.name)

pub data ValidationError : Type 0 where
  named_more_than_once : List String → ValidationError
  wrong_payload : String → ValidationError
  string_too_long : ℕ → ValidationError

unfoldable pub reject_duplicate_names : List Capability → Result ValidationError (Unit {0})
reject_duplicate_names capabilities =
    let all = names capabilities in
    if length (distinct all) == length all then ok tt else err (named_more_than_once all)

pub record SessionOffer : Type 0 where
  pub credential : String
  pub capabilities : List Capability

pub record SessionAgreement : Type 0 where
  pub capabilities : List Capability

-- The constructors of the two models, with their validator.
unfoldable pub new_offer : String → List Capability → Result ValidationError SessionOffer
new_offer credential capabilities = reject_duplicate_names capabilities >>= λ _.
    ok (record { credential = credential; capabilities = capabilities })

unfoldable pub new_agreement : List Capability → Result ValidationError SessionAgreement
new_agreement capabilities =
    reject_duplicate_names capabilities >>= λ _. ok (record { capabilities = capabilities })

unfoldable pub negotiate : SessionOffer → List Capability → Result ValidationError SessionAgreement
negotiate offer supported =
    new_agreement (keep (λ c. any (same_capability c) supported) offer.capabilities)

-- What travels with a frame's payload. `captured_at` is the opaque capture token.
pub record FrameHeader : Type 0 where
  pub sequence : ℕ
  pub captured_at : String

-- A coordinate or a confidence is a float in the source, and is only carried: here a whole number
-- of millionths.
pub record FaceDetection : Type 0 where
  pub x : ℤ
  pub y : ℤ
  pub confidence : ℤ

pub record GestureDetection : Type 0 where
  pub label : String
  pub confidence : ℤ

-- A capability's message for one frame: one of the two models that are registered, or a model of
-- another class, known by its name.
pub data Payload : Type 0 where
  faces : List FaceDetection → Payload
  gestures : List GestureDetection → Payload
  unregistered : String → Payload

pub data PayloadClass : Type 0 where
  face_detections gesture_detections : PayloadClass

abbrev pub face_capability : String
face_capability = "face"

abbrev pub gesture_capability : String
gesture_capability = "gesture"

-- `CAPABILITY_PAYLOADS.get`.
unfoldable pub payload_class : String → Option PayloadClass
payload_class name =
    if str_eq name face_capability
    then some face_detections
    else if str_eq name gesture_capability
    then some gesture_detections
    else none

unfoldable pub is_instance : Payload → PayloadClass → Bool
is_instance (faces _) face_detections = true
is_instance (gestures _) gesture_detections = true
is_instance _ _ = false

pub record ResultEnvelope : Type 0 where
  pub sequence : ℕ
  pub captured_at : String
  pub capability : String
  pub payload : Payload

payload_matches : Option PayloadClass → Payload → Bool
payload_matches none payload = true
payload_matches (some expected) payload = is_instance payload expected

-- The model's validator: a registered capability carries the payload registered for it.
unfoldable pub payload_matches_the_capability :
    ResultEnvelope → Result ValidationError ResultEnvelope
unfolding payload_class payload_matches is_instance
payload_matches_the_capability envelope =
    if payload_matches (payload_class envelope.capability) envelope.payload
    then ok envelope
    else err (wrong_payload envelope.capability)

unfoldable pub for_frame : FrameHeader → String → Payload → Result ValidationError ResultEnvelope
unfolding payload_matches_the_capability
for_frame header capability payload = payload_matches_the_capability (record {
  sequence = header.sequence;
  captured_at = header.captured_at;
  capability = capability;
  payload = payload;
})

pub data ErrorCode : Type 0 where
  unauthenticated malformed_message capability_failed internal : ErrorCode

pub record SessionError : Type 0 where
  pub code : ErrorCode
  pub detail : String
  pub sequence : Option ℕ

abbrev pub max_detail : ℕ
max_detail = 500

-- The constructor: a detail has at most 500 characters.
unfoldable pub new_error : ErrorCode → String → Option ℕ → Result ValidationError SessionError
new_error code detail sequence =
    if ltb max_detail (count detail)
    then err (string_too_long (count detail))
    else ok (record { code = code; detail = detail; sequence = sequence })

pub data CloseReason : Type 0 where
  going_away unauthenticated protocol_error : CloseReason

pub record SessionClose : Type 0 where
  pub reason : CloseReason
  pub detail : String

unfoldable pub new_close : CloseReason → String → Result ValidationError SessionClose
new_close reason detail =
    if ltb max_detail (count detail)
    then err (string_too_long (count detail))
    else ok (record { reason = reason; detail = detail })
