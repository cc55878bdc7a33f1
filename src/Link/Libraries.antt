-- ===== src/Link/Libraries.antt =====
-- The code that the link calls and that is not the repository's: the `json` module, and pydantic's
-- reading and writing of the models of reachy_contracts. They are parameters of what uses them.
use reachy.Prelude.{String, Result, ◌>>=◌, map_err}
use reachy.Link.Contract.{
  Bytes, FrameHeader, SessionOffer, SessionAgreement, SessionClose, ResultEnvelope, PayloadClass,
  ValidationError, new_offer, new_agreement, payload_matches_the_capability,
}

-- What `json.loads` makes of a document. The fields of an object stand in the order in which their
-- keys first occur, each key once.
mutual
  pub data Json : Type 0 where
    null : Json
    boolean : String → Json
    number : String → Json
    text : String → Json
    array : Items → Json
    object : Fields → Json

  pub data Items : Type 0 where
    nil : Items
    cons : Json → Items → Items

  pub data Fields : Type 0 where
    end : Fields
    field : String → Json → Fields → Fields

-- How `json.loads` fails: with a `JSONDecodeError`, of a text, or with another exception, of a class
-- (`RecursionError`, or `ValueError` for an integer of too many digits).
pub data LoadsError : Type 0 where
  json_decode_error : String → LoadsError
  other_error : String → LoadsError

pub record JsonModule : Type 0 where
  pub loads : String → Result LoadsError Json
  -- `json.dumps` with no white space and `ensure_ascii=False`, then `encode("utf-8")`. It fails, by
  -- the class of the exception, on a text that holds a lone surrogate, which has no UTF-8.
  pub dumps : Json → Result String Bytes
  -- `repr`.
  pub repr : Json → String

-- A model's `to_wire`, and its `from_wire` as far as pydantic carries it out: the fields' own
-- validation. The error is the value-free summary that the callers make of a `ValidationError`.
pub record Codec (A : Type 0) : Type 0 where
  pub to_wire : A → Bytes
  pub from_wire : Bytes → Result String A

pub record Models : Type 0 where
  pub header : Codec FrameHeader
  pub offer : Codec SessionOffer
  pub agreement : Codec SessionAgreement
  pub close : Codec SessionClose
  -- `ResultEnvelope[payload]` for the payload class of a registered capability.
  pub envelope : PayloadClass → Codec ResultEnvelope

-- The summary of a fault that a model's own validator raises: it has no location.
abbrev validator_fault : ValidationError → String
validator_fault e = "(message): value_error"

-- `from_wire` of the models that have a validator of their own.
unfoldable pub offer_from_wire : Models → Bytes → Result String SessionOffer
offer_from_wire models payload = do
  offer ← models.offer.from_wire payload
  map_err validator_fault (new_offer offer.credential offer.capabilities)

unfoldable pub agreement_from_wire : Models → Bytes → Result String SessionAgreement
agreement_from_wire models payload = do
  agreement ← models.agreement.from_wire payload
  map_err validator_fault (new_agreement agreement.capabilities)

unfoldable pub envelope_from_wire : Models → PayloadClass → Bytes → Result String ResultEnvelope
envelope_from_wire models expected payload = do
  envelope ← (models.envelope expected).from_wire payload
  map_err validator_fault (payload_matches_the_capability envelope)
