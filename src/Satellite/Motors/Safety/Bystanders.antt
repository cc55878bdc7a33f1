-- ===== src/Satellite/Motors/Safety/Bystanders.antt =====
-- motor_control.py of ha-satellite: a reservation, the producers' commands and the requests of
-- terminal.
use reachy.Prelude.{◌≡◌, refl, Bool, true, false, Option, arith, if-cases}
use reachy.Satellite.Motors.{MotorGroup, head, body, antennas}
use reachy.Satellite.Motors.Coordinator.{
  Coordinator, GroupState, Reading, is_idle, admits, admits_all, reserved, begin_command,
  end_command, request_terminal, observe_terminal,
}
use reachy.Satellite.Motors.Operation.{
  Phase, free, created, preparing, draining, asking, sampling, committing, restoring, refreshing,
  ending, reserve, reserve_if, reserve_free, closes_at_once, close_if,
}
use reachy.Satellite.Motors.Safety.{
  is_held, is_worked, is_asked, generation_of, IsBackedPhase, IsSafe,
}
use reachy.Satellite.Motors.Safety.Sections.{set_group, observed-IsSafe, note-IsSafe}
use reachy.Satellite.Motors.Safety.Operations.{same_group_refl, take_group, IsSafeSystem}

asked_worked : (p : Phase) (h : MotorGroup) → is_asked p h ≡ true → is_worked p h ≡ true
unfolding is_asked is_worked is_held
asked_worked (asking op asks) h a = a
asked_worked free h a = cc
asked_worked (created op) h a = cc
asked_worked (preparing op) h a = cc
asked_worked (draining op asks) h a = cc
asked_worked (sampling d) h a = cc
asked_worked (committing d) h a = cc
asked_worked (restoring d) h a = cc
asked_worked (refreshing d) h a = cc
asked_worked (ending op b) h a = cc

pub admitted_each :
    (wanted : MotorGroup → Bool) (groups : MotorGroup → GroupState)
    → admits_all wanted groups ≡ true
    → (h : MotorGroup) → admits wanted h (groups h) ≡ true
unfolding admits_all
admitted_each wanted groups e head = ground arith
admitted_each wanted groups e body = ground arith
admitted_each wanted groups e antennas = ground arith

module _ (may_open : MotorGroup → Bool) (requested : Bool) where
  reserve_free-IsSafe :
      (g : MotorGroup) (said : Option Bool) (at : Reading) (c : Coordinator)
      → IsSafe may_open requested free c
      → IsSafeSystem may_open requested (reserve_free g said at c)
  unfolding reserve_free is_held is_worked is_asked generation_of IsBackedPhase is_idle
  reserve_free-IsSafe g said at c i =
      if-cases (IsSafeSystem may_open requested) (is_idle (c.groups g).transition) _ _
        (λ calm.
          take_group may_open requested free (created _) g _ c
            (let t = i.groups g in
              record {
                confirmed = λ o. t.confirmed (ground arith);
                allowed = λ o. t.allowed (ground arith);
                closed = λ o. let e = t.closed o in ground arith;
                bounded = t.bounded;
                rests = λ o r. ground (arith, same_group_refl g);
                works = λ o w. refl;
                current = λ o r. refl;
                quiet = λ a. cc;
              })
            (λ h other.
              let t = i.groups h in
              record {
                confirmed = t.confirmed;
                allowed = t.allowed;
                closed = t.closed;
                bounded = t.bounded;
                rests = λ o r. t.rests o refl;
                works = λ o w. cc;
                current = λ o r. cc;
                quiet = λ a. cc;
              })
            tt i)
        (λ busy. note-IsSafe may_open requested free g _ at c i)

  close_if-IsSafe :
      (b : Bool) (p : Phase) (g : MotorGroup) (c : Coordinator)
      → IsSafe may_open requested p c
      → IsSafe may_open requested p (close_if b g c)
  unfolding close_if
  close_if-IsSafe b p g c i =
      let t = i.groups g in
      set_group may_open requested p g _ c i record {
        confirmed = λ o. t.confirmed (ground arith);
        allowed = λ o. t.allowed (ground arith);
        closed = λ o. let e = t.closed o in ground arith;
        bounded = t.bounded;
        rests = t.rests;
        works = t.works;
        current = t.current;
        quiet = t.quiet;
      }

  reserve_if-IsSafe :
      (p : Phase) (g : MotorGroup) (said : Option Bool) (at : Reading) (c : Coordinator)
      → IsSafe may_open requested p c
      → IsSafeSystem may_open requested (reserve_if p g said at c)
  unfolding reserve_if
  reserve_if-IsSafe free g said at c i = reserve_free-IsSafe g said at c i
  reserve_if-IsSafe (created op) g said at c i =
      note-IsSafe may_open requested (created op) g _ at c i
  reserve_if-IsSafe (preparing op) g said at c i =
      note-IsSafe may_open requested (preparing op) g _ at c i
  reserve_if-IsSafe (draining op asks) g said at c i =
      note-IsSafe may_open requested (draining op asks) g _ at c i
  reserve_if-IsSafe (asking op asks) g said at c i =
      note-IsSafe may_open requested (asking op asks) g _ at c i
  reserve_if-IsSafe (sampling d) g said at c i =
      note-IsSafe may_open requested (sampling d) g _ at c i
  reserve_if-IsSafe (committing d) g said at c i =
      note-IsSafe may_open requested (committing d) g _ at c i
  reserve_if-IsSafe (restoring d) g said at c i =
      note-IsSafe may_open requested (restoring d) g _ at c i
  reserve_if-IsSafe (refreshing d) g said at c i =
      note-IsSafe may_open requested (refreshing d) g _ at c i
  reserve_if-IsSafe (ending op b) g said at c i =
      note-IsSafe may_open requested (ending op b) g _ at c i

  pub reserve-IsSafe :
      (p : Phase) (g : MotorGroup) (said : Option Bool) (at : Reading) (c : Coordinator)
      → IsSafe may_open requested p c
      → IsSafeSystem may_open requested (reserve p g said at c)
  unfolding reserve
  reserve-IsSafe p g said at c i =
      let j = close_if-IsSafe (closes_at_once said) p g c i in
      observed-IsSafe may_open requested (IsSafeSystem may_open requested) p _ _ _ j (λ d over k. k)
        (λ live calm. reserve_if-IsSafe p g said at _ j)

  reserved-IsSafe :
      (p : Phase) (wanted : MotorGroup → Bool) (c : Coordinator)
      → c.is_terminal ≡ false
      → admits_all wanted c.groups ≡ true
      → IsSafe may_open requested p c
      → IsSafe may_open requested p (reserved wanted c)
  unfolding reserved admits
  reserved-IsSafe p wanted c live admitted i = record {
    groups = λ h.
        let s = i.groups h in
        record {
          confirmed = s.confirmed;
          allowed = s.allowed;
          closed = s.closed;
          bounded = s.bounded;
          rests = s.rests;
          works = s.works;
          current = s.current;
          quiet = λ a.
              let empty = s.quiet a in
              let busy = s.works live (asked_worked p h a) in
              let ok = admitted_each wanted c.groups admitted h in ground arith;
        };
    ended = i.ended;
    kept = i.kept;
    backed = i.backed;
  }

  pub begin_command-IsSafe :
      (p : Phase) (wanted : MotorGroup → Bool) (c : Coordinator)
      → IsSafe may_open requested p c
      → IsSafe may_open requested p (begin_command wanted c).1
  unfolding begin_command
  begin_command-IsSafe p wanted c i =
      observed-IsSafe may_open requested
        (λ (r : Bool × Coordinator). IsSafe may_open requested p r.1) p _ _ c i (λ d over j. j)
        (λ live calm.
          if-cases (λ (r : Bool × Coordinator). IsSafe may_open requested p r.1)
            (admits_all wanted c.groups) _ _
            (λ admitted. reserved-IsSafe p wanted c live admitted i) (λ refused. i))

  pub end_command-IsSafe :
      (p : Phase) (wanted : MotorGroup → Bool) (c : Coordinator)
      → IsSafe may_open requested p c
      → IsSafe may_open requested p (end_command wanted c)
  unfolding end_command
  end_command-IsSafe p wanted c i = record {
    groups = λ h.
        let s = i.groups h in
        record {
          confirmed = s.confirmed;
          allowed = s.allowed;
          closed = s.closed;
          bounded = s.bounded;
          rests = s.rests;
          works = s.works;
          current = s.current;
          quiet = λ a. let empty = s.quiet a in omega arith;
        };
    ended = i.ended;
    kept = i.kept;
    backed = i.backed;
  }

  pub request_terminal-IsSafe :
      (p : Phase) (c : Coordinator)
      → IsSafe may_open requested p c
      → IsSafe may_open requested p (request_terminal c)
  unfolding request_terminal
  request_terminal-IsSafe p c i = record {
    groups = i.groups;
    ended = λ o. refl;
    kept = λ o. refl;
    backed = i.backed;
  }

  pub observe_terminal-IsSafe :
      (p : Phase) (c : Coordinator)
      → IsSafe may_open requested p c
      → IsSafe may_open requested p (observe_terminal c)
  unfolding observe_terminal
  observe_terminal-IsSafe p c i =
      observed-IsSafe may_open requested (IsSafe may_open requested p) p _ _ c i (λ d over j. j)
        (λ live calm. i)
