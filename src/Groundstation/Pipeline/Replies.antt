-- ===== src/Groundstation/Pipeline/Replies.antt =====
-- pipeline/runner.py: what a client is sent about one frame, against a description by cases of
-- what each capability did.
use Prim.Native.String.{count}
use mathlib.Core.List.{append_assoc, append-nil}
use reachy.Prelude.{
  ℕ, ◌≤◌, ◌≡◌, refl, ap, ◌∙◌, sym, String, List, [], ◌∷◌, ◌++◌, Bool, true, Option, none, some, map,
  All, if◌then◌else◌, Result, ok, err, concat, arith,
}
use reachy.Link.Contract.{
  Payload, for_frame, capability_failed, malformed_message, payload_class, is_instance,
  PayloadClass, new_error, max_detail,
}
use reachy.Link.Framing.{result, error}
use reachy.Groundstation.Queue.{QueuedFrame}
use reachy.Groundstation.Feed.{publish}
use reachy.Groundstation.Transport.{Action, sends, result_message, error_message, send}
use reachy.Groundstation.Effects.{Shared, M, ◌>>=◌, deliver}
use reachy.Groundstation.Pipeline.{
  Engine, Processed, answers, fails, AgreedCapability, DecodedFrame, decode_jpeg, is_jpeg, report,
  decode, answer, answer_all, process, answer_of, emit_or_report, decoded_or_reported,
  answer_decoded, offer_feed,
}

-- A capability's payload is its own: a registered name carries the payload registered for it.
is_own : Option PayloadClass → Payload → Bool
is_own none payload = true
is_own (some expected) payload = is_instance payload expected

failure : DecodedFrame → AgreedCapability → String → Action
failure d a fault = sends error (
    error_message (record {
      code = capability_failed;
      detail = concat a.name (concat ": " fault);
      sequence = some d.header.sequence;
    }))

success : DecodedFrame → AgreedCapability → Payload → Action
success d a payload = sends result (
    result_message (record {
      sequence = d.header.sequence;
      captured_at = d.header.captured_at;
      capability = a.name;
      payload = payload;
    }))

reply_by : DecodedFrame → AgreedCapability → Processed → Action
reply_by d a (answers payload) =
    if is_own (payload_class a.name) payload
    then success d a payload
    else failure d a "ValidationError"
reply_by d a (fails fault) = failure d a fault

-- What one capability's work on a frame is answered with.
pub reply : Engine → DecodedFrame → AgreedCapability → Action
reply engine d a = reply_by d a (engine.process a.capability d)

-- The text about a fault is short enough for an error message.
abbrev FaultFits : AgreedCapability → String → Type 0
FaultFits a fault = count (concat a.name (concat ": " fault)) ≤ max_detail

-- The texts about what a capability made of a frame are: about an answer that is not its own, and
-- about the class of what it raised.
abbrev pub Fits : AgreedCapability → Processed → Type 0
Fits a p = FaultFits a "ValidationError" × ((fault : String) → p ≡ fails fault → FaultFits a fault)

-- One more action on the wire, with the feed as it was and the link as open.
record Adds (s t : Shared) (actions : List Action) : Type 0 where
  done : t.wire.done ≡ s.wire.done ++ actions
  open_link : t.wire.link ≡ []
  feed : t.feed ≡ s.feed

replies_by :
    (d : DecodedFrame) (a : AgreedCapability) (s : Shared) (p : Processed)
    → s.wire.link ≡ []
    → Fits a p
    → let (r, t) = emit_or_report (answer_of d a.name p) d.header.sequence a.name s in
      (r ≡ ok tt) × Adds s t (reply_by d a p ∷ [])
unfolding answer_of emit_or_report reply_by is_own failure success deliver send report new_error
    for_frame
replies_by d a s (answers payload) open_link fits = ground (arith, fits.0)
replies_by d a s (fails fault) open_link fits = ground (arith, fits.1 fault refl)

Adds-trans :
    (s t u : Shared) (xs ys : List Action) → Adds s t xs → Adds t u ys → Adds s u (xs ++ ys)
Adds-trans s t u xs ys p q = record {
  done = q.done ∙ ap (λ zs. zs ++ ys) p.done ∙ append_assoc s.wire.done xs ys;
  open_link = q.open_link;
  feed = q.feed ∙ p.feed;
}

bind-Adds :
    (m k : M (Unit {0})) (s : Shared) (xs ys : List Action)
    → ((m s).0 ≡ ok tt) × Adds s (m s).1 xs
    → ((k (m s).1).0 ≡ ok tt) × Adds (m s).1 (k (m s).1).1 ys
    → (((m >>= λ _. k) s).0 ≡ ok tt) × Adds s ((m >>= λ _. k) s).1 (xs ++ ys)
bind-Adds m k s xs ys p q = rw (p.0) (q.0, Adds-trans s (m s).1 (k (m s).1).1 xs ys p.1 q.1)

answer-Adds :
    (engine : Engine) (d : DecodedFrame) (a : AgreedCapability) (s : Shared)
    → s.wire.link ≡ []
    → Fits a (engine.process a.capability d)
    → ((answer engine d a s).0 ≡ ok tt) × Adds s (answer engine d a s).1 (reply engine d a ∷ [])
unfolding answer reply
answer-Adds engine d a s = replies_by d a s (engine.process a.capability d)

answer_all-Adds :
    (engine : Engine) (d : DecodedFrame) (as_agreed : List AgreedCapability) (s : Shared)
    → s.wire.link ≡ []
    → All (λ a. Fits a (engine.process a.capability d)) as_agreed
    → ((answer_all engine d as_agreed s).0 ≡ ok tt)
      × Adds s (answer_all engine d as_agreed s).1 (map (reply engine d) as_agreed)
unfolding answer_all
answer_all-Adds engine d [] s open_link fits =
    (refl, record { done = sym (append-nil s.wire.done); open_link = open_link; feed = refl })
answer_all-Adds engine d (a ∷ as_agreed) s open_link fits =
    let one = answer-Adds engine d a s open_link fits.0 in
    bind-Adds (answer engine d a) (answer_all engine d as_agreed) s (reply engine d a ∷ [])
      (map (reply engine d) as_agreed) one
      (answer_all-Adds engine d as_agreed (answer engine d a s).1 one.1.open_link fits.1)

-- The one reply to a frame that does not decode.
pub malformed : QueuedFrame → String → Action
malformed frame message = sends error (
    error_message (record {
      code = malformed_message;
      detail = message;
      sequence = some frame.header.sequence;
    }))

pub as_decoded : QueuedFrame → ℕ → DecodedFrame
as_decoded frame i = record { header = frame.header; image_array = i }

-- What is sent about a frame, by what its decoding came to.
pub replies : Engine → List AgreedCapability → QueuedFrame → Result String ℕ → List Action
replies engine capabilities frame (err message) = malformed frame message ∷ []
replies engine capabilities frame (ok i) = map (reply engine (as_decoded frame i)) capabilities

-- The texts of the errors that a frame can be answered with are short enough for an error message.
pub record TextsFit (engine : Engine) (capabilities : List AgreedCapability) (frame : QueuedFrame)
    : Type 0 where
  pub answers_fit :
      (i : ℕ)
      → decode_jpeg engine.imdecode frame.payload ≡ ok i
      → All (λ a. Fits a (engine.process a.capability (as_decoded frame i))) capabilities
  pub decode_fits :
      (message : String)
      → decode_jpeg engine.imdecode frame.payload ≡ err message
      → count message ≤ max_detail

processed :
    (engine : Engine) (capabilities : List AgreedCapability) (frame : QueuedFrame) (s : Shared)
    (r : Result String ℕ)
    → decode_jpeg engine.imdecode frame.payload ≡ r
    → s.wire.link ≡ []
    → TextsFit engine capabilities frame
    → let (e, t) = (decoded_or_reported r frame >>= answer_decoded engine capabilities) s in
      (e ≡ ok tt) × (t.wire.done ≡ s.wire.done ++ replies engine capabilities frame r)
unfolding decoded_or_reported answer_decoded offer_feed replies as_decoded malformed
processed engine capabilities frame s (err message) e open_link fits =
    unfold report deliver send new_error in ground (arith, fits.decode_fits message e)
processed engine capabilities frame s (ok i) e open_link fits =
    let after : Shared = record s {
      feed = if is_jpeg frame.payload then (publish s.feed frame.payload).0 else s.feed;
    } in
    let (done, adds) =
      answer_all-Adds engine (record { header = frame.header; image_array = i }) capabilities after
        open_link (fits.answers_fit i e) in
    (done, adds.done)

-- On a connection that holds, processing a frame sends exactly this and nothing else, in this order:
-- if the payload does not decode, one error that names the frame; otherwise one reply for each agreed
-- capability, in the agreed order, each by that capability's own work alone: a result that carries the
-- frame's sequence number and its capture token unaltered, or, if the capability raised, overran or
-- answered with a payload that is not its own, an error that names the frame. It is assumed that the
-- texts of the errors that this frame can give rise to are of at most 500 characters.
pub process_replies :
    (engine : Engine) (capabilities : List AgreedCapability) (frame : QueuedFrame) (s : Shared)
    → s.wire.link ≡ []
    → TextsFit engine capabilities frame
    → ((process engine capabilities frame s).0 ≡ ok tt)
      × ((process engine capabilities frame s).1.wire.done
          ≡ s.wire.done
            ++ replies engine capabilities frame (decode_jpeg engine.imdecode frame.payload))
unfolding process decode
process_replies engine capabilities frame s open_link fits =
    processed engine capabilities frame s (decode_jpeg engine.imdecode frame.payload) refl open_link
      fits
