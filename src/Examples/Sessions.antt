-- ===== src/Examples/Sessions.antt =====
-- A whole session of the service, at concrete values.
use reachy.Prelude.{◌⊎◌, refl, [], ◌∷◌, true, false}
use reachy.Groundstation.Session
use reachy.Groundstation.Session.{await_offer, authenticate}
use reachy.Groundstation.Session.Handshake.{Opened, await_offer_cases}
use reachy.Groundstation.Session.Pumping
use reachy.Groundstation.Session.Pumping.{running, receive_frames, receive_one, drain}
use reachy.Groundstation.Session.Pumping.Messages.{Received, receive_one_cases}
use reachy.Groundstation.Session.Pumping.Draining.{Drained, drain_ends}
use reachy.Groundstation.Session.Run.{run}
use reachy.Groundstation.Session.Run.Settled.{
  IsBalanced, run-IsBalanced, IsLetIn, IsTurnedAway, run_lets_in,
}
use reachy.Examples.{
  env, settings, engine, registry, agreed_face, shared, world, turns, frame_bytes, queued,
}

abbrev opening : Session.Opening
opening = Session.Opening.arrives (Session.Incoming.text "OPEN")

abbrev pumping : Pumping.Session
pumping = record {
  shared = shared;
  queue = record { bound = 1; items = queued 1 ∷ []; arrived = true; closed = false };
  worker = running;
  frames_received = 1;
  frames_dropped = 0;
}

abbrev frame : Session.Incoming
frame = Session.Incoming.binary frame_bytes

await_offer_cases_example :
    Opened env settings opening shared (await_offer env settings opening shared)
await_offer_cases_example = await_offer_cases env settings opening shared refl

receive_one_cases_example :
    Received env settings 5 pumping frame (receive_one env settings 5 pumping frame)
receive_one_cases_example = receive_one_cases env settings 5 pumping refl frame

drain_ends_example :
    Drained engine agreed_face
      (receive_frames env settings engine agreed_face turns pumping).1
      (drain engine agreed_face (receive_frames env settings engine agreed_face turns pumping).1).1
drain_ends_example = drain_ends env settings engine agreed_face turns pumping refl refl

run-IsBalanced_example : IsBalanced world (run env settings engine registry opening turns world)
run-IsBalanced_example = run-IsBalanced env settings engine registry opening turns world

run_lets_in_example :
    IsLetIn env settings opening
    ⊎ IsTurnedAway world (run env settings engine registry opening turns world)
run_lets_in_example = run_lets_in env settings engine registry opening turns world
