-- ===== src/Groundstation/Pipeline/Publication.antt =====
-- pipeline/runner.py: what processing a frame offers to the operator feed.
use reachy.Prelude.{
  ℕ, ◌≡◌, refl, List, [], ◌∷◌, true, false, Bool, ◌&&◌, if◌then◌else◌, Result, ok, err, String,
  arith,
}
use reachy.Groundstation.Queue.{QueuedFrame}
use reachy.Groundstation.Feed.{publish}
use reachy.Groundstation.Transport.{send}
use reachy.Groundstation.Effects.{Shared, ◌>>=◌, deliver}
use reachy.Groundstation.Pipeline.{
  Engine, AgreedCapability, DecodedFrame, decode_jpeg, is_jpeg, report, decode, answer, answer_all,
  process, emit_or_report, decoded_or_reported, answer_decoded, offer_feed,
}

abbrev pub is_decoded : Result String ℕ → Bool
is_decoded (ok i) = true
is_decoded (err e) = false

answer-feed :
    (engine : Engine) (d : DecodedFrame) (a : AgreedCapability) (s : Shared)
    → (answer engine d a s).1.feed ≡ s.feed
unfolding answer emit_or_report deliver report send
answer-feed engine d a s = ground arith

answer_all-feed :
    (engine : Engine) (d : DecodedFrame) (as_agreed : List AgreedCapability) (s : Shared)
    → (answer_all engine d as_agreed s).1.feed ≡ s.feed
unfolding answer_all
answer_all-feed engine d [] s = refl
answer_all-feed engine d (a ∷ as_agreed) s =
    ground
      (arith, answer-feed engine d a s, answer_all-feed engine d as_agreed (answer engine d a s).1)

processed-feed :
    (engine : Engine) (capabilities : List AgreedCapability) (frame : QueuedFrame) (s : Shared)
    (r : Result String ℕ)
    → ((decoded_or_reported r frame >>= answer_decoded engine capabilities) s).1.feed
      ≡ (if is_decoded r && is_jpeg frame.payload then (publish s.feed frame.payload).0 else s.feed)
unfolding decoded_or_reported answer_decoded offer_feed
processed-feed engine capabilities frame s (err message) =
    unfold report deliver send in ground arith
processed-feed engine capabilities frame s (ok i) =
    answer_all-feed engine (record { header = frame.header; image_array = i }) capabilities _

-- Whatever the connection and the capabilities do, processing a frame offers its original payload to
-- the feed exactly if the payload decodes and begins with the JPEG signature, and changes the feed in
-- no other way.
pub process_publishes :
    (engine : Engine) (capabilities : List AgreedCapability) (frame : QueuedFrame) (s : Shared)
    → (process engine capabilities frame s).1.feed ≡ (
        if is_decoded (decode_jpeg engine.imdecode frame.payload) && is_jpeg frame.payload
        then (publish s.feed frame.payload).0
        else s.feed)
unfolding process decode
process_publishes engine capabilities frame s =
    processed-feed engine capabilities frame s (decode_jpeg engine.imdecode frame.payload)
