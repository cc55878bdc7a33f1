-- ===== src/Examples.antt =====
-- One robot and one groundstation to try the theorems on: a client that offers the face capability, a
-- frame that looks like a JPEG, and a service that serves it. The libraries' parts are concrete
-- functions here, which stand in for the real ones.
pub mod Wire
pub mod Service
pub mod Sessions
pub mod Robot
pub mod Motion
pub mod Looking
pub mod Operator
use reachy.Prelude.{
  ℕ, String, List, [], ◌∷◌, Option, none, some, Result, ok, err, str_eq, if◌then◌else◌,
}
use reachy.Link.Contract.{
  Bytes, Capability, FrameHeader, SessionOffer, ResultEnvelope, Payload, faces, PayloadClass,
  going_away,
}
use reachy.Link.Libraries.{
  Json, null, text, object, end, field, JsonModule, LoadsError, json_decode_error, Codec, Models,
}
use reachy.Groundstation.Feed
use reachy.Groundstation.Queue.{QueuedFrame}
use reachy.Groundstation.Registry
use reachy.Groundstation.Registry.{Factory, makes, fails, CapabilityRegistry, WarmUps}
use reachy.Groundstation.Effects.{Shared}
use reachy.Groundstation.Pipeline.{
  Engine, AgreedCapability, Imdecoded, image, Processed, answers, DecodedFrame,
}
use reachy.Groundstation.Session.{Settings, Environment, Incoming, binary}
use reachy.Groundstation.Session
use reachy.Groundstation.Session.Pumping.{Turn, works}
use reachy.Groundstation.Session.Pumping
use reachy.Groundstation.Session.Run.{World}

abbrev pub face_one : Capability
face_one = record { name = "face"; version = 1 }

abbrev pub other_one : Capability
other_one = record { name = "other"; version = 1 }

abbrev pub header_three : FrameHeader
header_three = record { sequence = 3; captured_at = "t0" }

abbrev pub jpeg : Bytes
jpeg = 255 ∷ 216 ∷ 255 ∷ 1 ∷ []

-- A header of the token "t0", in two bytes.
unfoldable pub read_header : Bytes → Result String FrameHeader
read_header (n ∷ _ ∷ []) = ok (record { sequence = n; captured_at = "t0" })
read_header _ = err "not a header"

abbrev pub headers : Codec FrameHeader
headers = record { to_wire = λ h. h.sequence ∷ 7 ∷ []; from_wire = read_header }

abbrev pub frame_bytes : Bytes
frame_bytes = 0 ∷ 0 ∷ 0 ∷ 2 ∷ 3 ∷ 7 ∷ jpeg

abbrev message_of : String → Json
message_of kind = object (field "kind" (text kind) (field "message" null end))

abbrev load : String → Result LoadsError Json
load t =
    if str_eq t "OPEN"
    then ok (message_of "offer")
    else if str_eq t "AGREE"
    then ok (message_of "agreement")
    else if str_eq t "BYE"
    then ok (message_of "close")
    else err (json_decode_error "Expecting value")

abbrev pub json : JsonModule
json = record { loads = load; dumps = λ _. ok (1 ∷ []); repr = λ _. "?" }

abbrev pub face_offer : SessionOffer
face_offer = record { credential = "secret"; capabilities = face_one ∷ [] }

abbrev no_faces : ResultEnvelope
no_faces = record { sequence = 3; captured_at = "t0"; capability = "face"; payload = faces [] }

abbrev pub models : Models
models = record {
  header = headers;
  offer = record { to_wire = λ _. 1 ∷ []; from_wire = λ _. ok face_offer };
  agreement = record {
    to_wire = λ _. 2 ∷ [];
    from_wire = λ _. ok (record { capabilities = face_one ∷ [] });
  };
  close = record {
    to_wire = λ _. 3 ∷ [];
    from_wire = λ _. ok (record { reason = going_away; detail = "" });
  };
  envelope = λ _. record { to_wire = λ _. 4 ∷ []; from_wire = λ _. ok no_faces };
}

abbrev pub env : Environment
env = record { json = json; models = models }

abbrev pub settings : Settings
settings = record { credential = "secret"; max_message_bytes = 100; queue_bound = 1 }

abbrev pub engine : Engine
engine = record { imdecode = λ b. image 1; process = λ n d. answers (faces []) }

abbrev pub agreed_face : List AgreedCapability
agreed_face = record { name = "face"; capability = 7 } ∷ []

abbrev pub warm_ups : WarmUps
warm_ups n = none

abbrev pub face_factory : Factory
face_factory = record { label = "face"; builds = makes 7 face_one }

abbrev pub broken_factory : Factory
broken_factory = record { label = "broken"; builds = fails "ImportError" }

abbrev pub registry : CapabilityRegistry
registry = Registry.warm_up warm_ups (Registry.new (face_factory ∷ []))

abbrev pub queued : ℕ → QueuedFrame
queued n = record {
  header = record { sequence = n; captured_at = "t0" };
  payload = jpeg;
  received_at = 5;
}

abbrev pub shared : Shared
shared = record {
  wire = record { done = []; link = [] };
  feed = Feed.enter_session (Feed.new 4);
  errors = [];
  emitted = [];
}

abbrev pub world : World
world = record {
  shared = record shared { feed = Feed.new 4 };
  sessions_active = 0;
  sessions_total = [];
}

-- A frame, the pipeline's turn, and the client's goodbye.
abbrev pub turns : List Turn
turns =
    Pumping.Turn.arrives 5 (binary frame_bytes)
    ∷ works
    ∷ Pumping.Turn.arrives 9 (Session.Incoming.text "BYE")
    ∷ []
