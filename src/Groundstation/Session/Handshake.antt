-- ===== src/Groundstation/Session/Handshake.antt =====
-- session/runner.py: `_await_offer` and `_authenticate`, before any capability is spoken of.
use Prim.Native.String.{len, count}
use reachy.Prelude.{
  ℕ, ◌≤◌, ◌≡◌, ◌≢◌, ◌↔◌, ◌⊎◌, refl, inl, inr, String, [], ◌∷◌, ◌++◌, true, false, Option, none,
  some, ltb, eq_iff, Result, ok, err, clip, count-clip, arith, Bool-cases,
}
use reachy.Link.Contract.{
  SessionOffer, CloseReason, protocol_error, new_close, max_detail, Bytes, ErrorCode,
}
use reachy.Link.Libraries.{offer_from_wire}
use reachy.Link.Framing.{MessageKind, offer, close, Raised, framing_error, escaped, decode_control}
use reachy.Groundstation.Transport
use reachy.Groundstation.Transport.{
  Action, sends, closes, Stop, raised, transport_closed, close_message, send, close_protocol_error,
  close_policy_violation,
}
use reachy.Groundstation.Effects.{Shared, deliver, count_error}
use reachy.Groundstation.Session.{
  Settings, Environment, text, binary, Opening, arrives, timed_out, vanishes, refuse, reason_value,
  await_offer, authenticate, credential_is_valid, refused_offer, decoded_offer, parsed_offer,
  reject,
}

-- The connection after a refusal: one close message, and the end of the connection.
pub record IsRefused (s t : Shared) (reason : CloseReason) (code : ℕ) : Type 0 where
  pub detail : String
  pub short : count detail ≤ max_detail
  pub done :
      t.wire.done
      ≡ (s.wire.done
          ++ sends close (close_message (record { reason = reason; detail = detail })) ∷ [])
        ++ closes code (reason_value reason) ∷ []
  pub feed : t.feed ≡ s.feed
  pub open_link : t.wire.link ≡ []

refuse_lem :
    (reason : CloseReason) (code : ℕ) (detail : String) (s : Shared)
    → s.wire.link ≡ []
    → ((refuse reason code detail s).0 ≡ ok tt)
      × IsRefused s (refuse reason code detail s).1 reason code
unfolding refuse deliver send new_close Transport.close
refuse_lem reason code detail s open_link =
    let short = count-clip max_detail detail in
    (
      ground arith,
      record {
        detail = clip max_detail detail;
        short = short;
        done = ground arith;
        feed = ground arith;
        open_link = ground arith;
      },
    )

-- What waiting for the offer comes to, on a connection that holds.
pub data Opened (env : Environment) (settings : Settings) (opening : Opening) (s : Shared)
    (r : Result Stop (Option SessionOffer) × Shared) : Type 0 where
  offered :
      (t : String) (payload : Bytes) (o : SessionOffer)
      → opening ≡ arrives (text t)
      → len t ≤ settings.max_message_bytes
      → decode_control env.json t ≡ ok (offer, payload)
      → offer_from_wire env.models payload ≡ ok o
      → r ≡ (ok (some o), s)
      → Opened env settings opening s r
  refused :
      r.0 ≡ ok none
      → IsRefused s r.1 protocol_error close_protocol_error
      → Opened env settings opening s r
  gone : opening ≡ vanishes → r ≡ (err transport_closed, s) → Opened env settings opening s r
  crashed :
      (t class : String)
      → opening ≡ arrives (text t)
      → decode_control env.json t ≡ err (escaped class)
      → r ≡ (err (raised class), s)
      → Opened env settings opening s r

refused_offer_lem :
    (detail : String) (s : Shared)
    → s.wire.link ≡ []
    → ((refused_offer detail s).0 ≡ ok none)
      × IsRefused s (refused_offer detail s).1 protocol_error close_protocol_error
unfolding refused_offer
refused_offer_lem detail s open_link =
    let (done, was_refused) = refuse_lem protocol_error close_protocol_error detail s open_link in
    rw done (refl, was_refused)

module _ (env : Environment) (settings : Settings) (t : String) (s : Shared)
    (open_link : s.wire.link ≡ []) (fits : len t ≤ settings.max_message_bytes) where
  private_refusal :
      (detail : String) → Opened env settings (arrives (text t)) s (refused_offer detail s)
  private_refusal detail =
      let (e, was_refused) = refused_offer_lem detail s open_link in refused e was_refused

  parsed_Opened :
      (payload : Bytes) (r : Result String SessionOffer)
      → decode_control env.json t ≡ ok (offer, payload)
      → offer_from_wire env.models payload ≡ r
      → Opened env settings (arrives (text t)) s (parsed_offer r s)
  unfolding parsed_offer
  parsed_Opened payload (ok o) d e = offered t payload o refl fits d e refl
  parsed_Opened payload (err summary) d e = private_refusal _

  decoded_Opened :
      (r : Result Raised (MessageKind × Bytes))
      → decode_control env.json t ≡ r
      → Opened env settings (arrives (text t)) s (decoded_offer env.models r s)
  unfolding decoded_offer
  decoded_Opened (err (framing_error e)) d = private_refusal _
  decoded_Opened (err (escaped class)) d = crashed t class refl d refl
  decoded_Opened (ok (offer, payload)) d =
      parsed_Opened payload (offer_from_wire env.models payload) d refl
  decoded_Opened (ok (MessageKind.agreement, payload)) d = private_refusal _
  decoded_Opened (ok (MessageKind.result, payload)) d = private_refusal _
  decoded_Opened (ok (MessageKind.error, payload)) d = private_refusal _
  decoded_Opened (ok (MessageKind.close, payload)) d = private_refusal _

-- Waiting for the offer, on a connection that holds, ends in one of four ways: the first message is a
-- text within the size bound that decodes to a valid offer, and nothing was sent or changed; the
-- client is sent one close message for a protocol error, of at most 500 characters, and the connection
-- is closed; the client was gone; or decoding the text raised an exception that is not a framing
-- error, which then leaves the session, with nothing sent.
pub await_offer_cases :
    (env : Environment) (settings : Settings) (opening : Opening) (s : Shared)
    → s.wire.link ≡ []
    → Opened env settings opening s (await_offer env settings opening s)
unfolding await_offer
await_offer_cases env settings timed_out s open_link =
    let (e, was_refused) = refused_offer_lem _ s open_link in refused e was_refused
await_offer_cases env settings vanishes s open_link = gone refl refl
await_offer_cases env settings (arrives (binary b)) s open_link =
    let (e, was_refused) = refused_offer_lem _ s open_link in refused e was_refused
await_offer_cases env settings (arrives (text t)) s open_link =
    elim (Bool-cases (ltb settings.max_message_bytes (len t))) [
      | inl long ↦
          rw long (let (e, was_refused) = refused_offer_lem _ s open_link in refused e was_refused)
      | inr short ↦ rw short (
          decoded_Opened env settings t s open_link (ground arith) (decode_control env.json t) refl)
    ]

refuse-errors :
    (reason : CloseReason) (code : ℕ) (detail : String) (s : Shared)
    → (refuse reason code detail s).1.errors ≡ s.errors
unfolding refuse deliver send new_close Transport.close
refuse-errors reason code detail s = ground arith

reject_lem :
    (s : Shared)
    → s.wire.link ≡ []
    → ((reject s).0 ≡ ok false)
      × ((reject s).1.errors ≡ s.errors ++ ErrorCode.unauthenticated ∷ [])
      × IsRefused s (reject s).1 CloseReason.unauthenticated close_policy_violation
unfolding reject count_error
reject_lem s open_link =
    let text : String = "the credential presented is not the configured one" in
    let counted : Shared = record s { errors = s.errors ++ ErrorCode.unauthenticated ∷ [] } in
    let (e, w) =
      refuse_lem CloseReason.unauthenticated close_policy_violation text counted open_link in
    rw e (
      refl,
      refuse-errors CloseReason.unauthenticated close_policy_violation text counted,
      record {
        detail = w.detail;
        short = w.short;
        done = w.done;
        feed = w.feed;
        open_link = w.open_link;
      },
    )

pub valid_iff :
    (presented expected : String)
    → (credential_is_valid presented expected ≡ true) ↔ ((expected ≢ "") × (presented ≡ expected))
unfolding credential_is_valid
valid_iff presented expected = ground (arith, eq_iff expected "", eq_iff presented expected)

invalid_because :
    (presented expected : String)
    → credential_is_valid presented expected ≡ false
    → (expected ≡ "") ⊎ (presented ≢ expected)
unfolding credential_is_valid
invalid_because presented expected h = ground (arith, eq_iff expected "", eq_iff presented expected)

-- A session is authenticated exactly if a credential is configured and the offer presents that one;
-- then nothing is sent and nothing changes. Otherwise, on a connection that holds, the error is counted
-- and the client is sent one close message that says it is unauthenticated, with the close code of a
-- policy violation.
authenticate_cases :
    (settings : Settings) (o : SessionOffer) (s : Shared)
    → s.wire.link ≡ []
    → ((settings.credential ≢ "")
        × (o.credential ≡ settings.credential)
        × (authenticate settings o s ≡ (ok true, s)))
      ⊎ (((settings.credential ≡ "") ⊎ (o.credential ≢ settings.credential))
          × ((authenticate settings o s).0 ≡ ok false)
          × ((authenticate settings o s).1.errors ≡ s.errors ++ ErrorCode.unauthenticated ∷ [])
          × IsRefused s
              (authenticate settings o s).1
              CloseReason.unauthenticated
              close_policy_violation)
unfolding authenticate
authenticate_cases settings o s open_link =
    elim (Bool-cases (credential_is_valid o.credential settings.credential)) [
      | inl accepted ↦
          let (configured, same) = (valid_iff o.credential settings.credential).0 accepted in
          inl (configured, same, rw accepted)
      | inr denied ↦
          let (e, counted, was_refused) = reject_lem s open_link in
          inr (
            invalid_because o.credential settings.credential denied,
            rw denied e,
            rw denied counted,
            rw denied was_refused,
          )
    ]
