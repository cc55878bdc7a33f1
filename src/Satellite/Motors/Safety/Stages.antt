-- ===== src/Satellite/Motors/Safety/Stages.antt =====
-- motor_control.py of ha-satellite: the daemon's answer, and what is left of an operation then.
use reachy.Prelude.{◌≡◌, refl, Bool, true, false, ◌&&◌, Option, none, some, arith, if-cases}
use reachy.Satellite.Motors.{MotorGroup, MotorConfirmation, motor_names, physical_value}
use reachy.Satellite.Motors.Coordinator.{Coordinator, Reading, is_idle}
use reachy.Satellite.Motors.Operation.{
  Operation, Deferred, Asks, sets, reads, asking, sampling, committing, refreshing, ending, Call,
  returns, raises, reread, settle, set_answer, read_answer, answer, sample,
}
use reachy.Satellite.Motors.Safety.{
  is_held, is_worked, is_asked, generation_of, IsBackedPhase, IsSafe,
}
use reachy.Satellite.Motors.Safety.Sections.{if_current-IsSafe, note-IsSafe}
use reachy.Satellite.Motors.Safety.Operations.{
  IsSafeSystem, moved, ended-IsSafe, fail-IsSafe, transit-IsSafe, reread-IsSafe, settle-IsSafe,
  close_gate-IsSafe,
}

module _ (may_open : MotorGroup → Bool) (requested : Bool) where
  -- A write that is not the enable it was meant to be.
  unmet-IsSafe :
      (op : Operation) (said : Option Bool) (confirmation : MotorConfirmation) (actual : Bool)
      (at after : Reading) (c : Coordinator)
      → IsSafe may_open requested (asking op sets) c
      → IsSafeSystem may_open requested (settle op said confirmation actual at after (reread op) c)
  unfolding is_held is_worked generation_of
  unmet-IsSafe op said confirmation actual at after c i =
      settle-IsSafe may_open requested (asking op sets) op said confirmation actual at after _ c
        record { held = λ h. refl; same = refl }
        (λ d j.
          reread-IsSafe may_open requested (asking op sets) op d
            record { held = λ h. refl; same = refl } (λ h. refl) j)
        i

  set_answer-IsSafe :
      (op : Operation) (said : Option Bool) (confirmation : MotorConfirmation) (at after : Reading)
      (value : Option Bool) (c : Coordinator)
      → physical_value confirmation (motor_names op.group) true ≡ value
      → IsSafe may_open requested (asking op sets) c
      → IsSafeSystem may_open requested (set_answer op said confirmation at after value c)
  unfolding set_answer is_idle is_held is_worked is_asked generation_of IsBackedPhase
  set_answer-IsSafe op said confirmation at after none c e i =
      reread-IsSafe may_open requested (asking op sets) op _
        record { held = λ h. refl; same = refl } (λ h. refl)
        (note-IsSafe may_open requested (asking op sets) _ _ at _
          (close_gate-IsSafe may_open requested (asking op sets) _ c i))
  set_answer-IsSafe op none confirmation at after (some actual) c e i =
      unmet-IsSafe op none confirmation actual at after c i
  set_answer-IsSafe op (some true) confirmation at after (some false) c e i =
      unmet-IsSafe op (some true) confirmation false at after c i
  set_answer-IsSafe op (some false) confirmation at after (some false) c e i =
      unmet-IsSafe op (some false) confirmation false at after c i
  set_answer-IsSafe op (some false) confirmation at after (some true) c e i =
      unmet-IsSafe op (some false) confirmation true at after c i
  set_answer-IsSafe op (some true) confirmation at after (some true) c e i =
      transit-IsSafe may_open requested (asking op sets) (sampling _) op _ _ _ c refl
        record { held = λ h. refl; same = refl } record { held = λ h. refl; same = refl } (λ h w. w)
        (λ h a. cc) record { actual = refl; allow_contradiction = true; says = e } i

  read_answer-IsSafe :
      (op : Operation) (confirmation : MotorConfirmation) (at after : Reading) (value : Option Bool)
      (c : Coordinator)
      → physical_value confirmation (motor_names op.group) false ≡ value
      → IsSafe may_open requested (asking op reads) c
      → IsSafeSystem may_open requested (read_answer op confirmation at after value c)
  unfolding read_answer is_idle is_held is_worked is_asked generation_of IsBackedPhase
  read_answer-IsSafe op confirmation at after none c e i =
      note-IsSafe may_open requested (ending op false) _ _ at _ (
        ended-IsSafe may_open requested (asking op reads) op false _
          record { held = λ h. refl; same = refl }
          (close_gate-IsSafe may_open requested (asking op reads) _ c i))
  read_answer-IsSafe op confirmation at after (some actual) c e i =
      if-cases (IsSafeSystem may_open requested) (actual && (c.groups op.group).gate_open) _ _
        (λ opens.
          moved may_open requested (asking op reads) (refreshing _) c (λ h. refl) (λ h w. w)
            (λ h a. cc) refl
            record { actual = ground arith; allow_contradiction = false; says = ground arith } i)
        (λ stays.
          settle-IsSafe may_open requested (asking op reads) op _ confirmation actual at after _ c
            record { held = λ h. refl; same = refl }
            (λ d j.
              ended-IsSafe may_open requested (asking op reads) op false d
                record { held = λ h. refl; same = refl } j)
            i)

  pub answer-IsSafe :
      (op : Operation) (asks : Asks) (confirmation : MotorConfirmation) (at after : Reading)
      (c : Coordinator)
      → IsSafe may_open requested (asking op asks) c
      → IsSafeSystem may_open requested (answer op asks confirmation at after c)
  unfolding answer is_held is_worked is_asked generation_of IsBackedPhase
  answer-IsSafe op sets confirmation at after c i =
      if_current-IsSafe may_open requested (IsSafeSystem may_open requested) (asking op sets) op _ _
        c i
        (λ d j.
          reread-IsSafe may_open requested (asking op sets) op d
            record { held = λ h. refl; same = refl } (λ h. refl) j)
        (λ live. set_answer-IsSafe op op.requested confirmation at after _ c refl i)
  answer-IsSafe op reads confirmation at after c i =
      if_current-IsSafe may_open requested (IsSafeSystem may_open requested) (asking op reads) op _
        _ c i
        (λ d j.
          ended-IsSafe may_open requested (asking op reads) op false d
            record { held = λ h. refl; same = refl } j)
        (λ live. read_answer-IsSafe op confirmation at after _ c refl i)

  pub sample-IsSafe :
      (d : Deferred) (call : Call (Unit {0})) (at : Reading) (c : Coordinator)
      → IsSafe may_open requested (sampling d) c
      → IsSafeSystem may_open requested (sample d call at c)
  unfolding sample is_held is_worked is_asked generation_of IsBackedPhase
  sample-IsSafe d raises at c i =
      fail-IsSafe may_open requested (sampling d) d.operation at c
        record { held = λ h. refl; same = refl } i
  sample-IsSafe d (returns u) at c i =
      if_current-IsSafe may_open requested (IsSafeSystem may_open requested) (sampling d)
        d.operation _ _ c i
        (λ e j.
          reread-IsSafe may_open requested (sampling d) d.operation e
            record { held = λ h. refl; same = refl } (λ h. refl) j)
        (λ live.
          moved may_open requested (sampling d) (committing d) c (λ h. refl) (λ h w. w) (λ h a. cc)
            refl i.backed i)
