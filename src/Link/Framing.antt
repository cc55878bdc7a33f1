-- ===== src/Link/Framing.antt =====
-- services/groundstation/src/reachy_groundstation/session/framing.py and
-- packages/reachy-session-client/src/reachy_session_client/framing.py: how messages are packed.
pub mod RoundTrip
use reachy.Prelude.{
  ℕ, ◌+◌, ◌*◌, ◌/◌, ◌%◌, ◌^◌, String, List, [], ◌∷◌, ◌++◌, Bool, true, false, ◌&&◌, ◌||◌, Option,
  none, some, take, drop, length, ltb, ◌==◌, str_eq, if◌then◌else◌, Result, ok, err, ◌>>=◌, map_err,
  concat, decimal,
}
use reachy.Link.Contract.{Bytes, FrameHeader}
use reachy.Link.Libraries.{
  Json, text, object, Fields, end, field, JsonModule, LoadsError, json_decode_error, other_error,
  Codec,
}

pub data MessageKind : Type 0 where
  offer agreement result error close : MessageKind

unfoldable pub kind_value : MessageKind → String
kind_value offer = "offer"
kind_value agreement = "agreement"
kind_value result = "result"
kind_value error = "error"
kind_value close = "close"

-- `MessageKind(value)`: the members have distinct values, and a value that is no text has none.
unfoldable pub kind_of_value : String → Option MessageKind
kind_of_value value =
    if str_eq value "offer"
    then some offer
    else if str_eq value "agreement"
    then some agreement
    else if str_eq value "result"
    then some result
    else if str_eq value "error"
    then some error
    else if str_eq value "close"
    then some close
    else none

-- What a call of this module raises: a `FramingError`, of a text, or an exception of another class,
-- which it does not turn into one.
pub data Raised : Type 0 where
  framing_error : String → Raised
  escaped : String → Raised

loads_raised : LoadsError → Raised
loads_raised (json_decode_error message) =
    framing_error (concat "control message is not JSON: " message)
loads_raised (other_error class) = escaped class

-- An object whose keys are `kind` and `message`, in either order: the values of the two.
envelope_fields : Fields → Option (Json × Json)
envelope_fields (field a v (field b w end)) =
    if str_eq a "kind" && str_eq b "message"
    then some (v, w)
    else if str_eq a "message" && str_eq b "kind"
    then some (w, v)
    else none
envelope_fields _ = none

envelope_of : Json → Option (Json × Json)
unfolding envelope_fields
envelope_of (object fields) = envelope_fields fields
envelope_of _ = none

kind_of : Json → Option MessageKind
kind_of (text value) = kind_of_value value
kind_of _ = none

decode_envelope : JsonModule → Option (Json × Json) → Result Raised (MessageKind × Bytes)
unfolding kind_of
decode_envelope json none =
    err (framing_error "control message must be an object with 'kind' and 'message'")
decode_envelope json (some (kind_field, message)) = elim (kind_of kind_field) [
  | none ↦ err (framing_error (concat "unknown control message kind: " (json.repr kind_field)))
  | some kind ↦ map_err escaped (json.dumps message) >>= λ payload. ok (kind, payload)
]

unfoldable pub decode_control : JsonModule → String → Result Raised (MessageKind × Bytes)
unfolding loads_raised envelope_of decode_envelope
decode_control json message = map_err loads_raised (json.loads message) >>= λ document.
    decode_envelope json (envelope_of document)

-- The message's canonical text is embedded as it is.
unfoldable pub encode_control : MessageKind → String → String
unfolding kind_value
encode_control kind inner =
    concat "{\"kind\":\"" (concat (kind_value kind) (concat "\",\"message\":" (concat inner "}")))

abbrev pub max_header_bytes : ℕ
max_header_bytes = 4096

abbrev pub prefix_size : ℕ
prefix_size = 4

-- `struct.Struct("!I")`: four bytes, the highest first.
unfoldable pub pack : ℕ → Bytes
pack n = (n / 2 ^ 24 % 256) ∷ (n / 2 ^ 16 % 256) ∷ (n / 2 ^ 8 % 256) ∷ (n % 256) ∷ []

unfoldable pub unpack : Bytes → ℕ
unpack (a ∷ b ∷ c ∷ d ∷ _) = a * 2 ^ 24 + b * 2 ^ 16 + c * 2 ^ 8 + d
unpack _ = 0

header_too_long : ℕ → String
header_too_long size =
    concat "frame header is "
      (concat (decimal size) (concat " bytes, over " (decimal max_header_bytes)))

-- The groundstation's `encode_frame`.
unfoldable pub encode_any_frame : Codec FrameHeader → FrameHeader → Bytes → Result Raised Bytes
unfolding header_too_long
encode_any_frame codec header payload =
    let encoded = codec.to_wire header in
    if ltb max_header_bytes (length encoded)
    then err (framing_error (header_too_long (length encoded)))
    else ok (pack (length encoded) ++ (encoded ++ payload))

-- The client's `encode_frame`, which refuses an empty payload too.
unfoldable pub encode_frame : Codec FrameHeader → FrameHeader → Bytes → Result Raised Bytes
unfolding header_too_long
encode_frame codec header payload =
    let encoded = codec.to_wire header in
    if ltb max_header_bytes (length encoded)
    then err (framing_error (header_too_long (length encoded)))
    else if length payload == 0
    then err (framing_error "a frame message must carry a payload")
    else ok (pack (length encoded) ++ (encoded ++ payload))

too_short : ℕ → String
too_short size =
    concat "frame message is " (concat (decimal size) " bytes, too short for a header length")

out_of_range : ℕ → String
out_of_range size = concat "frame header length " (concat (decimal size) " is out of range")

not_held : ℕ → String
not_held size =
    concat "frame message declares a " (concat (decimal size) "-byte header it does not hold")

with_payload : FrameHeader → Bytes → Result Raised (FrameHeader × Bytes)
with_payload header payload =
    if length payload == 0
    then err (framing_error "frame message carries no payload")
    else ok (header, payload)

unfoldable pub decode_frame : Codec FrameHeader → Bytes → Result Raised (FrameHeader × Bytes)
unfolding too_short out_of_range not_held with_payload
decode_frame codec frame =
    let header_length = unpack frame in
    let body = drop prefix_size frame in
    if ltb (length frame) prefix_size
    then err (framing_error (too_short (length frame)))
    else if header_length == 0 || ltb max_header_bytes header_length
    then err (framing_error (out_of_range header_length))
    else if ltb (length frame) (prefix_size + header_length)
    then err (framing_error (not_held header_length))
    else map_err (λ e. framing_error (concat "frame header does not parse: " e))
        (codec.from_wire (take header_length body))
      >>= λ header. with_payload header (drop (prefix_size + header_length) frame)
