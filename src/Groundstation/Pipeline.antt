-- ===== src/Groundstation/Pipeline.antt =====
-- services/groundstation/src/reachy_groundstation/pipeline/runner.py and decode.py: one frame, one
-- decode, every agreed capability. The metrics, spans and log lines are left out but for the two
-- counters of errors and results.
pub mod Replies
pub mod Publication
use reachy.Prelude.{
  ℕ, ◌+◌, String, List, [], ◌∷◌, ◌++◌, Bool, true, false, ◌&&◌, Option, none, some, length, ◌==◌,
  if◌then◌else◌, Result, ok, err, map_err, concat, decimal,
}
use reachy.Link.Contract.{
  Bytes, FrameHeader, Payload, ResultEnvelope, for_frame, ErrorCode, capability_failed,
  malformed_message, new_error,
}
use reachy.Link.Framing.{result, error}
use reachy.Groundstation.Queue.{QueuedFrame}
use reachy.Groundstation.Feed.{publish}
use reachy.Groundstation.Transport.{result_message, error_message, invalid}
use reachy.Groundstation.Effects.{Shared, M, ◌>>=◌, ◌>>◌, lift, deliver, count_error}

-- What `cv2.imdecode` does with a buffer: an image, known by a number, nothing, or a `cv2.error`.
pub data Imdecoded : Type 0 where
  image : ℕ → Imdecoded
  nothing cv_error : Imdecoded

not_decodable : ℕ → String
not_decodable size = concat "payload of " (concat (decimal size) " bytes is not a decodable image")

imdecoded : Imdecoded → ℕ → Result String ℕ
unfolding not_decodable
imdecoded (image i) size = ok i
imdecoded nothing size = err (not_decodable size)
imdecoded cv_error size = err (not_decodable size)

-- A `DecodeError` is its text.
unfoldable pub decode_jpeg : (Bytes → Imdecoded) → Bytes → Result String ℕ
unfolding imdecoded
decode_jpeg imdecode payload =
    if length payload == 0
    then err "an empty payload is not a decodable image"
    else imdecoded (imdecode payload) (length payload)

-- Three bytes: start of image, and the first marker's own prefix.
unfoldable pub is_jpeg : Bytes → Bool
is_jpeg (a ∷ b ∷ c ∷ rest) = a == 0xff && (b == 0xd8 && c == 0xff)
is_jpeg _ = false

pub record DecodedFrame : Type 0 where
  pub header : FrameHeader
  pub image_array : ℕ

-- A capability, by its number, under the name that was agreed.
pub record AgreedCapability : Type 0 where
  pub name : String
  pub capability : ℕ

-- What a capability's `process` comes to, within its timeout: a payload, or an exception of a class,
-- `TimeoutError` among them.
pub data Processed : Type 0 where
  answers : Payload → Processed
  fails : String → Processed

-- The code that is not the service's.
pub record Engine : Type 0 where
  pub imdecode : Bytes → Imdecoded
  pub process : ℕ → DecodedFrame → Processed

count_emitted : String → M (Unit {0})
count_emitted name s = (ok tt, record s { emitted = s.emitted ++ name ∷ [] })

unfoldable pub report : ErrorCode → String → ℕ → M (Unit {0})
unfolding count_error
report code detail sequence = do
  count_error code
  message ← lift (map_err invalid (new_error code detail (some sequence)))
  deliver error (error_message message)

offer_feed : Bytes → M (Unit {0})
offer_feed payload s =
    (ok tt, record s { feed = if is_jpeg payload then (publish s.feed payload).0 else s.feed })

decoded_or_reported : Result String ℕ → QueuedFrame → M (Option DecodedFrame)
unfolding offer_feed
decoded_or_reported (ok i) frame = do
  offer_feed frame.payload
  lift (ok (some (record { header = frame.header; image_array = i })))
decoded_or_reported (err message) frame = do
  report malformed_message message frame.header.sequence
  lift (ok none)

unfoldable pub decode : Engine → QueuedFrame → M (Option DecodedFrame)
unfolding decoded_or_reported
decode engine frame = decoded_or_reported (decode_jpeg engine.imdecode frame.payload) frame

-- The guarded part of `_answer`: the envelope, or the class of what was raised. Assembling the
-- envelope raises a `ValidationError`.
answer_of : DecodedFrame → String → Processed → Result String ResultEnvelope
answer_of decoded name (answers payload) =
    map_err (λ e. "ValidationError") (for_frame decoded.header name payload)
answer_of decoded name (fails fault) = err fault

emit_or_report : Result String ResultEnvelope → ℕ → String → M (Unit {0})
unfolding count_emitted
emit_or_report (ok envelope) sequence name = do
  deliver result (result_message envelope)
  count_emitted name
emit_or_report (err fault) sequence name =
    report capability_failed (concat name (concat ": " fault)) sequence

unfoldable pub answer : Engine → DecodedFrame → AgreedCapability → M (Unit {0})
unfolding answer_of emit_or_report
answer engine decoded agreed =
    emit_or_report (answer_of decoded agreed.name (engine.process agreed.capability decoded))
      decoded.header.sequence agreed.name

unfoldable pub answer_all : Engine → DecodedFrame → List AgreedCapability → M (Unit {0})
answer_all engine decoded [] = lift (ok tt)
answer_all engine decoded (a ∷ as_agreed) = do
  answer engine decoded a
  answer_all engine decoded as_agreed

answer_decoded : Engine → List AgreedCapability → Option DecodedFrame → M (Unit {0})
answer_decoded engine capabilities none = lift (ok tt)
answer_decoded engine capabilities (some decoded) = answer_all engine decoded capabilities

unfoldable pub process : Engine → List AgreedCapability → QueuedFrame → M (Unit {0})
unfolding answer_decoded
process engine capabilities frame = do
  decoded ← decode engine frame
  answer_decoded engine capabilities decoded
