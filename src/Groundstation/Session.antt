-- ===== src/Groundstation/Session.antt =====
-- services/groundstation/src/reachy_groundstation/session/runner.py and auth.py: one session, from the
-- offer that opens it. The frames that follow are in the child Pumping.
pub mod Pumping
pub mod Handshake
pub mod Run
use Prim.Native.String.{len}
use reachy.Prelude.{
  ℕ, suc, ◌+◌, String, List, [], ◌∷◌, ◌++◌, Bool, true, false, not, ◌&&◌, Option, none, some, ltb,
  length, str_eq, if◌then◌else◌, Result, ok, err, map_err, concat, decimal, clip,
}
use reachy.Link.Contract.{
  Bytes, Capability, SessionOffer, SessionAgreement, negotiate, ErrorCode, malformed_message,
  CloseReason, going_away, protocol_error, max_detail, new_error, new_close,
}
use reachy.Link.Contract
use reachy.Link.Libraries.{JsonModule, Models, offer_from_wire}
use reachy.Link.Framing.{
  MessageKind, offer, agreement, result, error, close, kind_value, Raised, framing_error, escaped,
  decode_control,
}
use reachy.Groundstation.Transport
use reachy.Groundstation.Transport.{
  Wire, Stop, transport_closed, raised, WireMessage, agreement_message, error_message,
  close_message, invalid, send, close_protocol_error, close_policy_violation,
}
use reachy.Groundstation.Registry.{CapabilityRegistry, supported, get}
use reachy.Groundstation.Effects.{M, ◌>>=◌, ◌>>◌, lift, deliver, count_error}
use reachy.Groundstation.Pipeline.{AgreedCapability}

pub record Settings : Type 0 where
  pub credential : String
  pub max_message_bytes : ℕ
  pub queue_bound : ℕ

-- The code that is not the service's.
pub record Environment : Type 0 where
  pub json : JsonModule
  pub models : Models

-- A message as the transport hands it over.
pub data Incoming : Type 0 where
  text : String → Incoming
  binary : Bytes → Incoming

-- `len` of the native texts counts the bytes of the UTF-8.
unfoldable pub message_size : Incoming → ℕ
message_size (text t) = len t
message_size (binary b) = length b

-- What waiting for the opening message comes to: a message, the handshake timeout, or the end of the
-- connection.
pub data Opening : Type 0 where
  arrives : Incoming → Opening
  timed_out vanishes : Opening

unfoldable pub reason_value : CloseReason → String
reason_value going_away = "going_away"
reason_value CloseReason.unauthenticated = "unauthenticated"
reason_value protocol_error = "protocol_error"

unfoldable pub close_connection : ℕ → String → M (Unit {0})
close_connection code reason s = (ok tt, record s { wire = Transport.close s.wire code reason })

unfoldable pub refuse : CloseReason → ℕ → String → M (Unit {0})
unfolding close_connection reason_value
refuse reason code detail = do
  message ← lift (map_err invalid (new_close reason (clip max_detail detail)))
  deliver close (close_message message)
  close_connection code (reason_value reason)

refused_offer : String → M (Option SessionOffer)
refused_offer detail = do refuse protocol_error close_protocol_error detail; lift (ok none)

parsed_offer : Result String SessionOffer → M (Option SessionOffer)
unfolding refused_offer
parsed_offer (ok o) = lift (ok (some o))
parsed_offer (err summary) = refused_offer (concat "offer did not parse: " summary)

not_an_offer : MessageKind → String
not_an_offer kind = concat "a session opens with an offer, not '" (concat (kind_value kind) "'")

decoded_offer : Models → Result Raised (MessageKind × Bytes) → M (Option SessionOffer)
unfolding refused_offer parsed_offer not_an_offer
decoded_offer models (err (framing_error e)) =
    refused_offer (concat "opening message did not parse: " e)
decoded_offer models (err (escaped class)) = lift (err (raised class))
decoded_offer models (ok (offer, payload)) = parsed_offer (offer_from_wire models payload)
decoded_offer models (ok (kind, payload)) = refused_offer (not_an_offer kind)

opening_too_long : ℕ → ℕ → String
opening_too_long size bound =
    concat "opening message of "
      (concat (decimal size) (concat " bytes exceeds the configured maximum of " (decimal bound)))

unfoldable pub await_offer : Environment → Settings → Opening → M (Option SessionOffer)
unfolding refused_offer decoded_offer opening_too_long
await_offer env settings timed_out = refused_offer "no offer within the handshake timeout"
await_offer env settings vanishes = lift (err transport_closed)
await_offer env settings (arrives (binary b)) =
    refused_offer "a session opens with an offer, not a frame"
await_offer env settings (arrives (text t)) =
    if ltb settings.max_message_bytes (len t)
    then refused_offer (opening_too_long (len t) settings.max_message_bytes)
    else decoded_offer env.models (decode_control env.json t)

-- auth.py. `hmac.compare_digest` of two texts' bytes says whether they are the same.
unfoldable pub credential_is_valid : String → String → Bool
credential_is_valid presented expected = not (str_eq expected "") && str_eq presented expected

reject : M Bool
reject = do
  count_error ErrorCode.unauthenticated
  refuse CloseReason.unauthenticated close_policy_violation
      "the credential presented is not the configured one"
  lift (ok false)

unfoldable pub authenticate : Settings → SessionOffer → M Bool
unfolding reject
authenticate settings o =
    if credential_is_valid o.credential settings.credential then lift (ok true) else reject

routed : CapabilityRegistry → List Capability → List AgreedCapability
routed registry [] = []
routed registry (c ∷ cs) =
    let rest = routed registry cs in
    elim (get registry c.name) [
      | none ↦ rest
      | some capability ↦ record { name = c.name; capability = capability } ∷ rest
    ]

unfoldable pub agree :
    CapabilityRegistry → SessionOffer → M (List AgreedCapability × List Capability)
unfolding routed
agree registry o = do
  agreed ← lift (map_err invalid (negotiate o (supported registry)))
  deliver agreement (agreement_message agreed)
  lift (ok (routed registry agreed.capabilities, agreed.capabilities))
