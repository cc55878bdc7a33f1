-- ===== src/Groundstation/Queue/Runs.antt =====
-- pipeline/queue.py: the queue between its producer and its one consumer, as interleavings of
-- whole steps of the event loop: a call of `put`, a call of `close`, or a stretch of the consumer
-- up to its next `await`.
use mathlib.Core.List.{Sublist, append-nil, append_assoc}
use mathlib.Core.List.Sublist
use reachy.Prelude.{
  ℕ, zero, suc, ◌+◌, ◌<◌, ◌≡◌, refl, sym, ap, ◌∙◌, subst, ◌≢◌, ◌⊎◌, true, false, Bool, List, [],
  ◌∷◌, ◌++◌, length, length-append, arith, if◌then◌else◌, ok,
}
use reachy.Groundstation.Queue.{
  QueuedFrame, FrameQueue, Lap, took, raised, waits, new, put, get, close, get_from,
}
use reachy.Groundstation.Queue.Newest.{IsBounded, put_accounts, put_keeps_newest, drop-sublist}

pub data Consumer : Type 0 where
  ready parked stopped : Consumer

-- The queue with its consumer, and the history: the frames offered and taken, and how many `put`
-- said it dropped.
pub record Traffic : Type 0 where
  pub queue : FrameQueue
  pub consumer : Consumer
  pub offered : List QueuedFrame
  pub taken : List QueuedFrame
  pub dropped : ℕ

unfoldable pub after_lap : Traffic → Lap → Traffic
after_lap t (took f q) = record t { queue = q; consumer = ready; taken = t.taken ++ f ∷ [] }
after_lap t raised = record t { consumer = stopped }
after_lap t (waits q) = record t { queue = q; consumer = parked }

-- A consumer that has not stopped runs, but one parked in `wait` only once the event is set.
pub data CanRun (t : Traffic) : Type 0 where
  is_ready : t.consumer ≡ ready → CanRun t
  is_woken : t.consumer ≡ parked → t.queue.arrived ≡ true → CanRun t

unfoldable pub offer : Traffic → QueuedFrame → Traffic
offer t f = record t {
  queue = (put t.queue f).0;
  offered = t.offered ++ f ∷ [];
  dropped = t.dropped + (put t.queue f).1;
}

pub data Step (t : Traffic) : Traffic → Type 0 where
  offers : (f : QueuedFrame) → Step t (offer t f)
  closes : Step t (record t { queue = close t.queue })
  runs : CanRun t → Step t (after_lap t (get t.queue))

pub data Reach (s : Traffic) : Traffic → Type 0 where
  here : Reach s s
  next : {t u : Traffic} → Reach s t → Step t u → Reach s u

abbrev pub start : FrameQueue → Traffic
start q = record { queue = q; consumer = ready; offered = []; taken = []; dropped = 0 }

pub record IsSound (t : Traffic) : Type 0 where
  pub bounded : IsBounded t.queue
  -- Every frame offered was taken, was dropped or waits.
  pub accounted : length t.taken + t.dropped + length t.queue.items ≡ length t.offered
  -- What was taken and what waits are frames offered, in the order of their arrival.
  pub ordered : Sublist (t.taken ++ t.queue.items) t.offered
  -- A parked consumer that nothing will wake has nothing to wake for.
  pub awake :
      t.consumer ≡ parked
      → t.queue.arrived ≡ false
      → (t.queue.items ≡ []) × (t.queue.closed ≡ false)

put-sublist :
    (q : FrameQueue) (f : QueuedFrame) → IsBounded q → Sublist (put q f).0.items (q.items ++ f ∷ [])
put-sublist q f b = rw ((put_keeps_newest q f b).0) (drop-sublist _ _)

offer-accounted :
    (t : Traffic) (f : QueuedFrame)
    → IsSound t
    → length t.taken + (t.dropped + (put t.queue f).1) + length (put t.queue f).0.items
      ≡ length (t.offered ++ f ∷ [])
offer-accounted t f s =
    omega (arith, s, put_accounts t.queue f s.bounded, length-append t.offered (f ∷ []))

offer-IsSound : (t : Traffic) (f : QueuedFrame) → IsSound t → IsSound (offer t f)
unfolding offer
offer-IsSound t f s =
    let put_lem = put_keeps_newest t.queue f s.bounded in
    record {
      bounded = put_lem.3;
      accounted = offer-accounted t f s;
      ordered =
          Sublist.trans (Sublist.append (Sublist.refl t.taken) (put-sublist t.queue f s.bounded))
            (rw (← append_assoc t.taken) (Sublist.append s.ordered (Sublist.refl (f ∷ []))));
      awake = λ p a. cc (put_lem.2);
    }

idle-IsSound :
    (t : Traffic) (c : Bool)
    → t.queue.items ≡ []
    → t.queue.closed ≡ c
    → IsSound t
    → IsSound (after_lap t (if c then raised else waits (record t.queue { arrived = false })))
unfolding after_lap
idle-IsSound t true e h s = record {
  bounded = s.bounded;
  accounted = s.accounted;
  ordered = s.ordered;
  awake = λ p. cc;
}
idle-IsSound t false e h s = record {
  bounded = record { holds = s.bounded.holds; within = s.bounded.within };
  accounted = s.accounted;
  ordered = s.ordered;
  awake = λ p a. (e, h);
}

lap-IsSound :
    (t : Traffic) (fs : List QueuedFrame)
    → t.queue.items ≡ fs
    → IsSound t
    → IsSound (after_lap t (get_from fs t.queue))
unfolding after_lap get_from
lap-IsSound t [] e s = idle-IsSound t t.queue.closed e refl s
lap-IsSound t (f ∷ fs) e s = record {
  bounded = record { holds = s.bounded.holds; within = omega (arith, s, ap length e) };
  accounted = omega (arith, s, ap length e, length-append t.taken (f ∷ []));
  ordered = rw (append_assoc t.taken) (subst (λ xs. Sublist (t.taken ++ xs) t.offered) e s.ordered);
  awake = λ p. cc;
}

Step-IsSound : {t u : Traffic} → Step t u → IsSound t → IsSound u
unfolding get close
Step-IsSound {t} (offers f) s = offer-IsSound t f s
Step-IsSound {t} closes s = record {
  bounded = record { holds = s.bounded.holds; within = s.bounded.within };
  accounted = s.accounted;
  ordered = s.ordered;
  awake = λ p a. cc;
}
Step-IsSound {t} (runs can) s = lap-IsSound t t.queue.items refl s

Reach-IsSound : {s t : Traffic} → Reach s t → IsSound s → IsSound t
Reach-IsSound here v = v
Reach-IsSound (next r st) v = Step-IsSound st (Reach-IsSound r v)

new_is_empty :
    (bound : ℕ) (q : FrameQueue)
    → new bound ≡ ok q
    → (q ≡ record { bound = bound; items = []; arrived = false; closed = false }) × (0 < bound)
unfolding new
new_is_empty bound q e = ground arith

start-IsSound : (bound : ℕ) (q : FrameQueue) → new bound ≡ ok q → IsSound (start q)
start-IsSound bound q e =
    let (made, holds) = new_is_empty bound q e in
    rw made (record {
      bounded = record { holds = holds; within = omega arith };
      accounted = omega arith;
      ordered = Sublist.refl [];
      awake = λ p. cc;
    })

-- Whatever the producer, the consumer and the caller of `close` do, in any order, from a queue that
-- the constructor made: the bound is kept; every frame offered was taken, was counted as dropped or
-- waits; what was taken and then what waits are in the order of arrival; and a consumer is parked
-- with the event unset only while no frame waits and the queue is open.
pub queue_traffic-IsSound :
    (bound : ℕ) (q : FrameQueue) (t : Traffic) → new bound ≡ ok q → Reach (start q) t → IsSound t
queue_traffic-IsSound bound q t e r = Reach-IsSound r (start-IsSound bound q e)

-- A parked consumer with a frame waiting, or with the queue closed, can run.
pub parked-CanRun :
    (t : Traffic)
    → IsSound t
    → t.consumer ≡ parked
    → ((t.queue.items ≢ []) ⊎ (t.queue.closed ≡ true))
    → CanRun t
parked-CanRun t s p h = is_woken p (ground (arith, s.awake p))

-- A reachable consumer is never parked for good over a frame that waits or a queue that was closed:
-- it can run, and then it takes the oldest frame, or stops when none is left.
pub no_lost_wakeup :
    (bound : ℕ) (q : FrameQueue) (t : Traffic)
    → new bound ≡ ok q
    → Reach (start q) t
    → t.consumer ≡ parked
    → ((t.queue.items ≢ []) ⊎ (t.queue.closed ≡ true))
    → CanRun t × ((after_lap t (get t.queue)).consumer ≢ parked)
unfolding after_lap get get_from
no_lost_wakeup bound q t e r p h =
    (parked-CanRun t (queue_traffic-IsSound bound q t e r) p h, ground arith)

-- A lap of the consumer, if it can run: it has not stopped, and is not parked with the event unset.
unfoldable pub lap_if : Consumer → Bool → Traffic → Traffic
lap_if ready arrived t = after_lap t (get t.queue)
lap_if parked true t = after_lap t (get t.queue)
lap_if parked false t = t
lap_if stopped arrived t = t

-- The consumer alone, for a number of laps.
unfoldable pub laps : ℕ → Traffic → Traffic
laps zero t = t
laps (suc n) t = laps n (lap_if t.consumer t.queue.arrived t)

lap_if-CanRun :
    (t : Traffic) → CanRun t → lap_if t.consumer t.queue.arrived t ≡ after_lap t (get t.queue)
unfolding lap_if
lap_if-CanRun t (is_ready e) = rw e refl
lap_if-CanRun t (is_woken e arrived) = rw (e, arrived) refl

-- The consumer stops, and has taken what waited.
abbrev Drains : List QueuedFrame → Traffic → Traffic → Type 0
Drains fs t u = (u.consumer ≡ stopped) × (u.taken ≡ t.taken ++ fs)

laps-Drains :
    (fs : List QueuedFrame) (t : Traffic)
    → t.queue.items ≡ fs
    → t.queue.closed ≡ true
    → CanRun t
    → Drains fs t (laps (suc (length fs)) t)
unfolding laps after_lap get get_from
laps-Drains [] t e c can = rw (lap_if-CanRun t can, e, c) (refl, sym (append-nil t.taken))
laps-Drains (f ∷ fs) t e c can =
    let after : Traffic = after_lap t (took f (record t.queue { items = fs })) in
    let step : after ≡ lap_if t.consumer t.queue.arrived t =
      sym (lap_if-CanRun t can ∙ ap (λ xs. after_lap t (get_from xs t.queue)) e) in
    let (stop, all) = laps-Drains fs after refl c (is_ready refl) in
    subst (λ u. Drains (f ∷ fs) t (laps (suc (length fs)) u)) step
      (stop, all ∙ append_assoc t.taken (f ∷ []) fs)

closed-CanRun :
    (t : Traffic) (c : Consumer)
    → t.consumer ≡ c
    → c ≢ stopped
    → CanRun (record t { queue = close t.queue })
unfolding close
closed-CanRun t ready e n = is_ready e
closed-CanRun t parked e n = is_woken e refl
closed-CanRun t stopped e n = absurd (n refl)

-- Once the queue is closed, a consumer that has not stopped comes to its stop, parked or not, in one lap
-- for each frame that waits and one more, each of which it can run only if it is not parked with the
-- event unset, and it has taken every one of those frames, in their order: none is lost by closing.
pub close_drains :
    (t : Traffic)
    → t.consumer ≢ stopped
    → let t' = laps (suc (length t.queue.items)) (record t { queue = close t.queue }) in
      (t'.consumer ≡ stopped) × (t'.taken ≡ t.taken ++ t.queue.items)
unfolding close
close_drains t n =
    laps-Drains t.queue.items (record t { queue = close t.queue }) refl refl
      (closed-CanRun t t.consumer refl n)
