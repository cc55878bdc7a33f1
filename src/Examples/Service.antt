-- ===== src/Examples/Service.antt =====
-- The queue, the feed, the registry and the pipeline of the service, at concrete values.
use reachy.Prelude.{
  suc, ◌-◌, ◌<◌, ◌≡◌, ◌≢◌, ◌⊎◌, ◌↔◌, inl, refl, [], ◌∷◌, ◌++◌, true, false, is_some, ok, length,
  drop, leb, if◌then◌else◌, arith, concat, ◌&&◌,
}
use reachy.Groundstation.Queue
use reachy.Groundstation.Queue.{FrameQueue, put}
use reachy.Groundstation.Queue.Newest.{IsBounded, put_keeps_newest}
use reachy.Groundstation.Queue.Runs
use reachy.Groundstation.Queue.Runs.{
  Traffic, start, IsSound, queue_traffic-IsSound, parked, stopped, CanRun, after_lap,
  no_lost_wakeup, close_drains, laps,
}
use reachy.Groundstation.Feed
use reachy.Groundstation.Feed.{
  FeedRegistry, available, availability, publish, next_frame, waits, enter_session,
}
use reachy.Groundstation.Feed.Eligibility
use reachy.Groundstation.Feed.Eligibility.{IsEligible, feed-IsEligible}
use reachy.Groundstation.Feed.Viewers.{viewer_is_woken}
use reachy.Groundstation.Registry
use reachy.Groundstation.Registry.{supported, get, warm_up, warming_up}
use reachy.Groundstation.Registry.Serving.{
  served, descriptors, first_named, warm_up_serves, Fails, failure_is_contained,
}
use reachy.Groundstation.Pipeline.{process, decode_jpeg, is_jpeg}
use reachy.Groundstation.Pipeline.Replies.{TextsFit, replies, process_replies}
use reachy.Groundstation.Pipeline.Publication.{is_decoded, process_publishes}
use reachy.Examples.{
  jpeg, queued, warm_ups, face_factory, broken_factory, engine, agreed_face, shared,
}

abbrev full : FrameQueue
full = record { bound = 1; items = queued 1 ∷ []; arrived = true; closed = false }

abbrev fresh_queue : FrameQueue
fresh_queue = record { bound = 1; items = []; arrived = false; closed = false }

full-IsBounded : IsBounded full
full-IsBounded = record { holds = omega arith; within = omega arith }

put_keeps_newest_example :
    ((put full (queued 2)).0.items
      ≡ drop (length (full.items ++ queued 2 ∷ []) - full.bound) (full.items ++ queued 2 ∷ []))
    × ((put full (queued 2)).1 ≡ (if leb full.bound (length full.items) then 1 else 0))
    × ((put full (queued 2)).0.arrived ≡ true)
    × IsBounded (put full (queued 2)).0
put_keeps_newest_example = put_keeps_newest full (queued 2) full-IsBounded

queue_made : Queue.new 1 ≡ ok fresh_queue
unfolding Queue.new
queue_made = refl

abbrev overloaded : Traffic
overloaded = Runs.offer (Runs.offer (start fresh_queue) (queued 1)) (queued 2)

overloaded-Reach : Runs.Reach (start fresh_queue) overloaded
overloaded-Reach =
    Runs.Reach.next (Runs.Reach.next Runs.Reach.here (Runs.Step.offers (queued 1)))
      (Runs.Step.offers (queued 2))

queue_traffic-IsSound_example : IsSound overloaded
queue_traffic-IsSound_example =
    queue_traffic-IsSound 1 fresh_queue overloaded queue_made overloaded-Reach

-- The consumer finds nothing, and then a frame comes.
abbrev waiting : Traffic
waiting = Runs.offer (after_lap (start fresh_queue) (Queue.get fresh_queue)) (queued 1)

waiting-Reach : Runs.Reach (start fresh_queue) waiting
waiting-Reach =
    Runs.Reach.next (Runs.Reach.next Runs.Reach.here (Runs.Step.runs (CanRun.is_ready refl)))
      (Runs.Step.offers (queued 1))

waiting_parked : waiting.consumer ≡ parked
unfolding Runs.offer after_lap Queue.get
waiting_parked = refl

waiting_holds : waiting.queue.items ≢ []
unfolding Runs.offer after_lap Queue.get put Queue.evict
waiting_holds e = cc

no_lost_wakeup_example :
    CanRun waiting × ((after_lap waiting (Queue.get waiting.queue)).consumer ≢ parked)
no_lost_wakeup_example =
    no_lost_wakeup 1 fresh_queue waiting queue_made waiting-Reach waiting_parked (inl waiting_holds)

overloaded_goes_on : overloaded.consumer ≢ stopped
unfolding Runs.offer
overloaded_goes_on e = cc

close_drains_example :
    ((laps
        (suc (length overloaded.queue.items))
        (record overloaded { queue = Queue.close overloaded.queue })).consumer
      ≡ stopped)
    × ((laps
          (suc (length overloaded.queue.items))
          (record overloaded { queue = Queue.close overloaded.queue })).taken
        ≡ overloaded.taken ++ overloaded.queue.items)
close_drains_example = close_drains overloaded overloaded_goes_on

-- One session, which has published.
abbrev entered : FeedRegistry
entered = enter_session (Feed.new 4)

abbrev showing : FeedRegistry
showing = (publish entered jpeg).0

showing-Reach : Eligibility.Reach (Feed.new 4) showing
showing-Reach =
    Eligibility.Reach.next (Eligibility.Reach.next Eligibility.Reach.here Eligibility.Step.enters)
      (Eligibility.Step.publishes jpeg)

feed-IsEligible_example :
    IsEligible showing × ((availability showing ≡ available) ↔ (is_some showing.payload ≡ true))
feed-IsEligible_example = feed-IsEligible 4 showing showing-Reach

entered_waits : next_frame entered 0 ≡ waits 1
unfolding next_frame enter_session Feed.new
entered_waits = refl

viewer_is_woken_example : (next_frame showing 0 ≡ waits 1) ⊎ (1 < showing.changed)
viewer_is_woken_example =
    viewer_is_woken entered showing 0 1 entered_waits
      (Eligibility.Reach.next Eligibility.Reach.here (Eligibility.Step.publishes jpeg))

warm_up_serves_example :
    (supported (warm_up warm_ups (Registry.new (face_factory ∷ broken_factory ∷ [])))
      ≡ descriptors (served warm_ups (face_factory ∷ broken_factory ∷ [])))
    × (get (warm_up warm_ups (Registry.new (face_factory ∷ broken_factory ∷ []))) "face"
        ≡ first_named "face" (served warm_ups (face_factory ∷ broken_factory ∷ [])))
    × ((warm_up warm_ups (Registry.new (face_factory ∷ broken_factory ∷ []))).is_ready ≡ true)
warm_up_serves_example = warm_up_serves warm_ups (face_factory ∷ broken_factory ∷ []) "face"

failure_is_contained_example :
    (supported (warm_up warm_ups (Registry.new (broken_factory ∷ face_factory ∷ [])))
      ≡ supported (warm_up warm_ups (Registry.new (face_factory ∷ []))))
    × (get (warm_up warm_ups (Registry.new (broken_factory ∷ face_factory ∷ []))) "face"
        ≡ get (warm_up warm_ups (Registry.new (face_factory ∷ []))) "face")
failure_is_contained_example =
    failure_is_contained warm_ups [] (face_factory ∷ []) broken_factory "face"
      (Fails.did_not_build "ImportError")

process_publishes_example : (process engine agreed_face (queued 3) shared).1.feed ≡ (
    if is_decoded (decode_jpeg engine.imdecode jpeg) && is_jpeg jpeg
    then (publish shared.feed jpeg).0
    else shared.feed)
process_publishes_example = process_publishes engine agreed_face (queued 3) shared

texts-TextsFit : TextsFit engine agreed_face (queued 3)
unfolding concat decode_jpeg
texts-TextsFit = record {
  answers_fit = λ i e. ((omega arith, λ fault h. cc), tt);
  decode_fits = λ m e. cc;
}

process_replies_example :
    ((process engine agreed_face (queued 3) shared).0 ≡ ok tt)
    × ((process engine agreed_face (queued 3) shared).1.wire.done
        ≡ shared.wire.done
          ++ replies engine agreed_face (queued 3) (decode_jpeg engine.imdecode jpeg))
process_replies_example = process_replies engine agreed_face (queued 3) shared refl texts-TextsFit
