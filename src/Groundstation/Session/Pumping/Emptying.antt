-- ===== src/Groundstation/Session/Pumping/Emptying.antt =====
-- session/runner.py: the rounds of the pipeline's task on a queue that was closed.
use reachy.Prelude.{
  ℕ, zero, suc, ◌≡◌, refl, sym, ap, subst, ◌∙◌, List, [], ◌∷◌, true, length, Result, ok, err, arith,
}
use reachy.Groundstation.Queue.{QueuedFrame, get, get-took, get-raised}
use reachy.Groundstation.Transport.{Stop}
use reachy.Groundstation.Effects.{Shared}
use reachy.Groundstation.Pipeline.{Engine, AgreedCapability, process}
use reachy.Groundstation.Session.Pumping.{
  Session, running, parked, returned, failed, work, work_if, work_lap, worker_after, work_laps,
}

abbrev processed_on :
    Result Stop (Unit {0}) × Shared
    → (Shared → Result Stop (Unit {0}) × Shared)
    → Result Stop (Unit {0}) × Shared
processed_on (ok x, t) rest = rest t
processed_on (err e, t) rest = (err e, t)

-- The frames, one after the other, until one of them fails.
unfoldable pub processed :
    Engine → List AgreedCapability → List QueuedFrame → Shared → Result Stop (Unit {0}) × Shared
processed engine capabilities [] s = (ok tt, s)
processed engine capabilities (f ∷ fs) s =
    processed_on (process engine capabilities f s) (λ t. processed engine capabilities fs t)

-- The task has come to its end: it returned, or failed as a frame did.
pub data IsOver (r : Result Stop (Unit {0}) × Shared) (q : Session) : Type 0 where
  by_return : r.0 ≡ ok tt → q.worker ≡ returned → q.queue.items ≡ [] → q.shared ≡ r.1 → IsOver r q
  by_failure : (e : Stop) → r.0 ≡ err e → q.worker ≡ failed e → q.shared ≡ r.1 → IsOver r q

-- The task can run: it is not parked with the event unset, and has not ended.
pub data CanWork (p : Session) : Type 0 where
  is_running : p.worker ≡ running → CanWork p
  is_woken : p.worker ≡ parked → p.queue.arrived ≡ true → CanWork p

work_can :
    (engine : Engine) (capabilities : List AgreedCapability) (p : Session)
    → CanWork p
    → work engine capabilities p ≡ work_lap engine capabilities p (get p.queue)
unfolding work work_if
work_can engine capabilities p (is_running w) = rw w refl
work_can engine capabilities p (is_woken w arrived) = rw (w, arrived) refl

work_failed :
    (engine : Engine) (capabilities : List AgreedCapability) (p : Session) (e : Stop)
    → p.worker ≡ failed e
    → work engine capabilities p ≡ p
unfolding work work_if
work_failed engine capabilities p e w = ground arith

pub failed_still :
    (engine : Engine) (capabilities : List AgreedCapability) (n : ℕ) (p : Session) (e : Stop)
    → p.worker ≡ failed e
    → work_laps engine capabilities n p ≡ p
unfolding work_laps
failed_still engine capabilities zero p e w = refl
failed_still engine capabilities (suc n) p e w =
    rw (work_failed engine capabilities p e w) (failed_still engine capabilities n p e w)

abbrev Ends : Engine → List AgreedCapability → List QueuedFrame → Shared → Session → Type 0
Ends engine capabilities fs s p =
    IsOver (processed engine capabilities fs s) (work_laps engine capabilities (suc (length fs)) p)

-- A frame that failed ends the task; after one that did not, it goes on with the others.
after_frame :
    (engine : Engine) (capabilities : List AgreedCapability) (fs : List QueuedFrame) (p : Session)
    (r : Result Stop (Unit {0}) × Shared)
    → p.worker ≡ worker_after r.0
    → p.shared ≡ r.1
    → (p.worker ≡ running → Ends engine capabilities fs p.shared p)
    → IsOver
        (processed_on r (λ t. processed engine capabilities fs t))
        (work_laps engine capabilities (suc (length fs)) p)
unfolding worker_after
after_frame engine capabilities fs p (ok x, t) w s rest =
    subst (λ u. Ends engine capabilities fs u p) s (rest w)
after_frame engine capabilities fs p (err e, t) w s rest =
    rw (failed_still engine capabilities (suc (length fs)) p e w) (by_failure e refl w s)

pub laps-IsOver :
    (fs : List QueuedFrame) (engine : Engine) (capabilities : List AgreedCapability) (p : Session)
    → CanWork p
    → p.queue.closed ≡ true
    → p.queue.items ≡ fs
    → Ends engine capabilities fs p.shared p
unfolding work_laps processed work_lap
laps-IsOver [] engine capabilities p can closed e =
    rw (work_can engine capabilities p can, get-raised p.queue e closed)
      (by_return refl refl e refl)
laps-IsOver (f ∷ fs) engine capabilities p can closed e =
    let moved =
      work_can engine capabilities p can
      ∙ ap (work_lap engine capabilities p) (get-took p.queue f fs e) in
    subst
      (λ q.
        IsOver (processed engine capabilities (f ∷ fs) p.shared)
          (work_laps engine capabilities (suc (length fs)) q))
      (sym moved)
      (after_frame engine capabilities fs _ (process engine capabilities f p.shared) refl refl
        (λ w. laps-IsOver fs engine capabilities _ (is_running w) closed refl))
