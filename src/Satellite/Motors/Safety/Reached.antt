-- ===== src/Satellite/Motors/Safety/Reached.antt =====
-- motor_control.py of ha-satellite: every state that the sections under the lock can reach.
use reachy.Prelude.{◌≡◌, refl, Bool, true, false, ◌||◌, ◌⊎◌, inl, inr, arith}
use reachy.Satellite.Motors.{MotorGroup}
use reachy.Satellite.Motors.Coordinator.{Coordinator, new, same_group, is_idle}
use reachy.Satellite.Motors.Operation.{
  Deferred, Phase, free, created, preparing, draining, asking, sampling, committing, restoring,
  refreshing, ending,
}
use reachy.Satellite.Motors.Runs.{
  System, started, Step, reserves, starts, prepares, drains, answers, samples, commits, restores,
  refreshes, ends, begins_command, ends_command, requests_terminal, observes_terminal, Steps, stays,
  goes,
}
use reachy.Satellite.Motors.Safety.{
  is_held, is_worked, is_asked, generation_of, IsBacked, IsBackedPhase, IsSafe,
}
use reachy.Satellite.Motors.Safety.Operations.{
  IsSafeSystem, same_group_refl, same_group_lem, start-IsSafe, prepare-IsSafe, drain-IsSafe,
}
use reachy.Satellite.Motors.Safety.Stages.{answer-IsSafe, sample-IsSafe}
use reachy.Satellite.Motors.Safety.Finish.{
  commit-IsSafe, restore-IsSafe, refresh-IsSafe, end-IsSafe,
}
use reachy.Satellite.Motors.Safety.Bystanders.{
  reserve-IsSafe, begin_command-IsSafe, end_command-IsSafe, request_terminal-IsSafe,
  observe_terminal-IsSafe,
}

-- The group that is at the last stage of an enable or a refresh.
unfoldable pub is_finishing : Phase → MotorGroup → Bool
is_finishing (restoring d) h = same_group d.operation.group h
is_finishing (refreshing d) h = same_group d.operation.group h
is_finishing _ h = false

pub step-IsSafe :
    (may_open : MotorGroup → Bool) (requested : Bool) (a b : System)
    → ((h : MotorGroup) → is_finishing a.0 h ≡ true → may_open h ≡ true)
    → Step a b
    → IsSafeSystem may_open requested a
    → IsSafeSystem may_open requested b
unfolding is_finishing
step-IsSafe m r _ _ may (reserves {p} {c} g said at) i = reserve-IsSafe m r p g said at c i
step-IsSafe m r _ _ may (starts {c} op) i = start-IsSafe m r op c i
step-IsSafe m r _ _ may (prepares {c} op call at) i = prepare-IsSafe m r op call at c i
step-IsSafe m r _ _ may (drains {c} op asks drained) i = drain-IsSafe m r op asks c drained i
step-IsSafe m r _ _ may (answers {c} op asks confirmation at after) i =
    answer-IsSafe m r op asks confirmation at after c i
step-IsSafe m r _ _ may (samples {c} d call at) i = sample-IsSafe m r d call at c i
step-IsSafe m r _ _ may (commits {c} d call at after last) i =
    commit-IsSafe m r d call at after last c i
step-IsSafe m r _ _ may (restores {c} d call at after last) i =
    restore-IsSafe m r d call at after last c
      (may d.operation.group (same_group_refl d.operation.group)) i
step-IsSafe m r _ _ may (refreshes {c} d call at after) i =
    refresh-IsSafe m r d call at after c (may d.operation.group (same_group_refl d.operation.group))
      i
step-IsSafe m r _ _ may (ends {c} op complete) i = end-IsSafe m r op complete c i
step-IsSafe m r _ _ may (begins_command {p} {c} wanted) i = begin_command-IsSafe m r p wanted c i
step-IsSafe m r _ _ may (ends_command {p} {c} wanted begun) i = end_command-IsSafe m r p wanted c i
step-IsSafe m r _ _ may (requests_terminal {p} {c}) i = request_terminal-IsSafe m r p c i
step-IsSafe m r _ _ may (observes_terminal {p} {c}) i = observe_terminal-IsSafe m r p c i

abbrev pub anything : MotorGroup → Bool
anything h = true

pub Steps-IsSafe :
    (requested : Bool) (a b : System)
    → Steps a b
    → IsSafeSystem anything requested a
    → IsSafeSystem anything requested b
Steps-IsSafe r a _ stays i = i
Steps-IsSafe r a c (goes {b = b} run step) i =
    step-IsSafe anything r b c (λ h f. refl) step (Steps-IsSafe r a b run i)

started-IsSafe : IsSafeSystem anything false started
unfolding new is_held is_worked is_asked generation_of IsBackedPhase is_idle
started-IsSafe = record {
  groups = λ h. record {
    confirmed = λ o. cc;
    allowed = λ o. refl;
    closed = λ o. refl;
    bounded = omega arith;
    rests = λ o r. refl;
    works = λ o w. cc;
    current = λ o r. cc;
    quiet = λ a. refl;
  };
  ended = λ o. cc;
  kept = λ o. cc;
  backed = tt;
}

-- In every order of the operation's sections, the producers' commands and the requests of terminal, each
-- group has a gate that is open only if its torque was last confirmed on, and closed once the
-- coordinator has seen terminal, which somebody then requested; it has at most 32 diagnostics; no
-- command is in flight on it while the daemon is asked about it; and until terminal is seen it is idle if
-- no operation holds it, and neither idle nor of another generation than the operation's if one does
-- that has not come to its end. What an enable or a refresh goes on with is an answer of the daemon by
-- which the torque of all the group's motors is on.
pub motors-IsSafe :
    (p : Phase) (c : Coordinator) → Steps started (p, c) → IsSafe (λ h. true) false p c
motors-IsSafe p c run = Steps-IsSafe false started (p, c) run started-IsSafe

pub record IsFinishedBy (p : Phase) (h : MotorGroup) : Type 0 where
  pub deferred : Deferred
  pub finishing : (p ≡ restoring deferred) ⊎ (p ≡ refreshing deferred)
  pub group : deferred.operation.group ≡ h
  pub backed : IsBacked deferred

finished_by :
    (p : Phase) (h : MotorGroup) → IsBackedPhase p → is_finishing p h ≡ true → IsFinishedBy p h
unfolding is_finishing IsBackedPhase
finished_by (restoring d) h b f = record {
  deferred = d;
  finishing = inl refl;
  group = same_group_lem d.operation.group h f;
  backed = b;
}
finished_by (refreshing d) h b f = record {
  deferred = d;
  finishing = inr refl;
  group = same_group_lem d.operation.group h f;
  backed = b;
}
finished_by free h b f = cc
finished_by (created op) h b f = cc
finished_by (preparing op) h b f = cc
finished_by (draining op asks) h b f = cc
finished_by (asking op asks) h b f = cc
finished_by (sampling d) h b f = cc
finished_by (committing d) h b f = cc
finished_by (ending op complete) h b f = cc

unfoldable opening : Phase → Coordinator → MotorGroup → Bool
opening p c h = (c.groups h).gate_open || is_finishing p h

narrowed-IsSafe :
    (p : Phase) (c : Coordinator) → IsSafe anything false p c → IsSafe (opening p c) false p c
unfolding opening
narrowed-IsSafe p c i = record {
  groups = λ h.
      let s = i.groups h in
      record {
        confirmed = s.confirmed;
        allowed = λ o. ground arith;
        closed = s.closed;
        bounded = s.bounded;
        rests = s.rests;
        works = s.works;
        current = s.current;
        quiet = s.quiet;
      };
  ended = i.ended;
  kept = i.kept;
  backed = i.backed;
}

-- A gate that a step opens, in any reachable state, is opened at the last stage of an enable or a
-- refresh of that group, on an answer of the daemon by which the torque of all the group's motors is on.
pub gate_opens_on_evidence :
    (p q : Phase) (c d : Coordinator) (h : MotorGroup)
    → Steps started (p, c)
    → Step (p, c) (q, d)
    → (c.groups h).gate_open ≡ false
    → (d.groups h).gate_open ≡ true
    → IsFinishedBy p h
unfolding opening
gate_opens_on_evidence p q c d h run step shut opened =
    let i = motors-IsSafe p c run in
    let j =
      step-IsSafe (opening p c) false (p, c) (q, d) (λ k f. ground arith) step
        (narrowed-IsSafe p c i) in
    let k = (j.groups h).allowed opened in finished_by p h i.backed (ground arith)
