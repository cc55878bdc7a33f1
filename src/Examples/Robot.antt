-- ===== src/Examples/Robot.antt =====
-- The client, at concrete values: it connects, sends a frame and is answered.
use reachy.Prelude.{
  ◌≡◌, refl, [], ◌∷◌, true, false, none, some, is_some, if◌then◌else◌, ◌||◌, ok, distinct,
  is_member, pos,
}
use reachy.Link.Contract.{
  FrameHeader, SessionAgreement, reject_duplicate_names, new_offer, ResultEnvelope, faces,
  same_capability,
}
use reachy.Link.Contract
use reachy.Link.Libraries.{text, object, end, field, agreement_from_wire}
use reachy.Link.Framing.{agreement, decode_control, encode_frame, kind_of_value}
use reachy.Client
use reachy.Client.{Settings, SessionClient, FrameResult, new, decode, apply, latest}
use reachy.Client.Opening
use reachy.Client.Opening.{Dial, begin_submit, offer, finish_establish, negotiate}
use reachy.Client.Results.{Applied, apply_cases}
use reachy.Client.Handshake.{Established, counted, establish_cases}
use reachy.Client.Life.Closing.{StaysClosed, closing_is_final}
use reachy.Client.Agreement.{agreement_is_accepted}
use reachy.Client.Life
use reachy.Client.Life.{Life, born, submitted, IsConsistent, is_fresh, Reach, here, next}
use reachy.Client.Life.Soundness.{client-IsConsistent}
use reachy.Examples.{json, models, face_one, face_offer, jpeg}

abbrev robot_env : Client.Environment
robot_env = record {
  json = json;
  models = models;
  loads_written = λ b. object (field "capability" (text "face") end);
  format = λ now. "t0";
  parse = λ token. some 5;
}

abbrev robot : Settings
robot = record { credential = "secret"; capabilities = face_one ∷ []; staleness = 2 }

abbrev dial : Dial
dial = record { opens = some 1; sends = true; answers = some "AGREE" }

abbrev face_agreement : SessionAgreement
face_agreement = record { capabilities = face_one ∷ [] }

robot_offers : offer robot ≡ ok face_offer
unfolding offer new_offer reject_duplicate_names distinct is_member
robot_offers = refl

service_agrees : Contract.negotiate face_offer (face_one ∷ []) ≡ ok face_agreement
unfolding Contract.negotiate Contract.new_agreement reject_duplicate_names distinct same_capability
    is_member
service_agrees = refl

robot_decodes : decode robot_env "AGREE" ≡ ok (agreement, 1 ∷ [])
unfolding decode decode_control kind_of_value
robot_decodes = refl

agreement_is_accepted_example : negotiate robot_env robot dial ≡ ok face_agreement
agreement_is_accepted_example =
    agreement_is_accepted robot_env robot (face_one ∷ []) dial face_offer face_agreement "AGREE"
      (1 ∷ []) robot_offers service_agrees refl refl robot_decodes refl

abbrev calling_life : Life
calling_life = Life.called (Opening.begin_connect born.client) born

abbrev connected_life : Life
connected_life = record calling_life {
  client = (finish_establish robot_env robot dial calling_life.client).1;
  connecting = false;
}

abbrev sending_life : Life
sending_life = submitted (begin_submit robot_env 5 jpeg connected_life.client) connected_life

lock_at_start : Life.is_free born ≡ true
unfolding Life.is_free Life.is_retrying
lock_at_start = refl

is_calling : calling_life.connecting ≡ true
unfolding Life.called Opening.begin_connect new
is_calling = refl

dial_is_fresh : is_fresh dial.opens calling_life.client.opened ≡ true
unfolding is_fresh new Life.is_in Life.called Opening.begin_connect Opening.attempted
dial_is_fresh = refl

is_idle : connected_life.pending ≡ none
unfolding Life.called Opening.begin_connect new
is_idle = refl

sending-Reach : Reach robot_env robot born sending_life
sending-Reach =
    next
      (next (next here (Life.Step.connects lock_at_start))
        (Life.Step.connected dial is_calling dial_is_fresh))
      (Life.Step.submits 5 jpeg is_idle)

client-IsConsistent_example : IsConsistent robot sending_life
client-IsConsistent_example = client-IsConsistent robot_env robot sending_life sending-Reach

abbrev header_zero : FrameHeader
header_zero = record { sequence = 0; captured_at = "t0" }

apply_cases_example :
    Applied robot_env
      (4 ∷ [])
      6
      connected_life.client
      (apply robot_env (4 ∷ []) 6 connected_life.client)
apply_cases_example = apply_cases robot_env (4 ∷ []) 6 connected_life.client

abbrev no_faces : ResultEnvelope
no_faces = record { sequence = 0; captured_at = "t0"; capability = "face"; payload = faces [] }

abbrev last_result : FrameResult
last_result = record { envelope = no_faces; received_at = 6; round_trip = some (pos 1) }

abbrev holding : SessionClient
holding = record new { latest_result = some last_result }

establish_cases_example :
    (Opening.begin_connect new ≡ (
      if is_some new.agreement
      then (new.agreement, new)
      else (none, counted (record new { closed = false }))))
    × (Opening.begin_round new
        ≡ (if new.closed || is_some new.transport then (false, new) else (true, counted new)))
    × Established robot_env robot dial new (finish_establish robot_env robot dial new)
establish_cases_example = establish_cases robot_env robot dial new new

-- The client is closed while a frame is on its way.
abbrev closed_life : Life
closed_life = record sending_life { client = Opening.begin_close sending_life.client }

abbrev left_life : Life
left_life = record closed_life { client = Opening.finish_close closed_life.client }

is_closed : closed_life.client.closed ≡ true
unfolding Opening.begin_close
is_closed = refl

lock_after_close : Life.is_free closed_life ≡ true
unfolding Life.is_free Life.is_retrying Life.called Opening.begin_connect Opening.attempted
    finish_establish begin_submit submitted new negotiate offer new_offer reject_duplicate_names
    distinct is_member decode decode_control kind_of_value agreement_from_wire
    Contract.new_agreement Opening.not_offered same_capability encode_frame
lock_after_close = refl

closed-Reach : Reach robot_env robot born closed_life
closed-Reach = next sending-Reach Life.Step.closes

closing_is_final_example : StaysClosed closed_life left_life
closing_is_final_example =
    closing_is_final robot_env robot closed_life left_life
      (next here (Life.Step.leaves lock_after_close)) closed-Reach refl is_closed
