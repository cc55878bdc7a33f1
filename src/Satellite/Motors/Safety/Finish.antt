-- ===== src/Satellite/Motors/Safety/Finish.antt =====
-- motor_control.py of ha-satellite: the last stages of an operation.
use reachy.Prelude.{◌≡◌, refl, Bool, true, false, Option, none, some, ◌==◌, arith, if-cases}
use reachy.Satellite.Motors.{MotorGroup}
use reachy.Satellite.Motors.Coordinator.{Coordinator, Reading, is_idle}
use reachy.Satellite.Motors.Operation.{
  Operation, Deferred, Phase, free, committing, restoring, refreshing, ending, Call, returns,
  raises, fail, fail_enable, finalize, commit, restore, refresh, end,
}
use reachy.Satellite.Motors.Safety.{
  is_held, is_worked, is_asked, generation_of, IsBackedPhase, IsSafe,
}
use reachy.Satellite.Motors.Safety.Sections.{
  observed-IsSafe, if_current-IsSafe, note-IsSafe, promote-IsSafe,
}
use reachy.Satellite.Motors.Safety.Operations.{
  IsOf, same_group_refl, take_group, fail-Ends, IsSafeSystem, moved, quieted-IsSafe, ended-IsSafe,
  fail-IsSafe,
}

module _ (may_open : MotorGroup → Bool) (requested : Bool) where
  fail_enable-IsSafe :
      (p : Phase) (d : Deferred) (at after last : Reading) (c : Coordinator)
      → IsOf d.operation p
      → IsSafe may_open requested p c
      → IsSafeSystem may_open requested (fail_enable d at after last c)
  unfolding fail_enable
  fail_enable-IsSafe p d at after last c o i =
      if_current-IsSafe may_open requested (IsSafeSystem may_open requested) p d.operation _ _ c i
        (λ e j. ended-IsSafe may_open requested p d.operation false e o j)
        (λ live.
          promote-IsSafe may_open requested (IsSafeSystem may_open requested) p d.operation.group
            d.actual false at _ _ c (λ g. cc) i
            (λ e j. fail-IsSafe may_open requested p d.operation last e o j)
            (λ e live j.
              fail-IsSafe may_open requested p d.operation last _ o
                (note-IsSafe may_open requested p d.operation.group _ after e j)))

  pub commit-IsSafe :
      (d : Deferred) (call : Call (Unit {0})) (at after last : Reading) (c : Coordinator)
      → IsSafe may_open requested (committing d) c
      → IsSafeSystem may_open requested (commit d call at after last c)
  unfolding commit is_held is_worked is_asked generation_of IsBackedPhase
  commit-IsSafe d raises at after last c i =
      if_current-IsSafe may_open requested (IsSafeSystem may_open requested) (committing d)
        d.operation _ _ c i
        (λ e j.
          ended-IsSafe may_open requested (committing d) d.operation false e
            record { held = λ h. refl; same = refl } j)
        (λ live.
          fail_enable-IsSafe (committing d) d at after last c
            record { held = λ h. refl; same = refl } i)
  commit-IsSafe d (returns u) at after last c i =
      if_current-IsSafe may_open requested (IsSafeSystem may_open requested) (committing d)
        d.operation _ _ c i
        (λ e j.
          ended-IsSafe may_open requested (committing d) d.operation false e
            record { held = λ h. refl; same = refl } j)
        (λ live.
          if_current-IsSafe may_open requested (IsSafeSystem may_open requested) (committing d)
            d.operation _ _ c i
            (λ e j.
              ended-IsSafe may_open requested (committing d) d.operation false e
                record { held = λ h. refl; same = refl } j)
            (λ live.
              moved may_open requested (committing d) (restoring d) c (λ h. refl) (λ h w. w)
                (λ h a. cc) refl i.backed i))

  finalize-IsSafe :
      (p : Phase) (d : Deferred) (said : Option Bool) (at after : Reading) (c : Coordinator)
      → IsOf d.operation p
      → d.actual ≡ true
      → may_open d.operation.group ≡ true
      → IsSafe may_open requested p c
      → IsSafeSystem may_open requested (finalize d said at after c)
  unfolding finalize
  finalize-IsSafe p d said at after c o on may i =
      if_current-IsSafe may_open requested (IsSafeSystem may_open requested) p d.operation _ _ c i
        (λ e j. ended-IsSafe may_open requested p d.operation false e o j)
        (λ live.
          promote-IsSafe may_open requested (IsSafeSystem may_open requested) p d.operation.group
            d.actual true at _ _ c (λ g. (on, may)) i
            (λ e j. ended-IsSafe may_open requested p d.operation false e o j)
            (λ e live j.
              note-IsSafe may_open requested (ending d.operation true) d.operation.group _ after _ (
                quieted-IsSafe may_open requested d.operation true _ e (λ g. g) refl refl refl
                  (ended-IsSafe may_open requested p d.operation true e o j))))

  pub restore-IsSafe :
      (d : Deferred) (call : Call (Call (Unit {0}))) (at after last : Reading) (c : Coordinator)
      → may_open d.operation.group ≡ true
      → IsSafe may_open requested (restoring d) c
      → IsSafeSystem may_open requested (restore d call at after last c)
  unfolding restore is_held is_worked is_asked generation_of IsBackedPhase
  restore-IsSafe d raises at after last c may i =
      fail_enable-IsSafe (restoring d) d at after last c record { held = λ h. refl; same = refl } i
  restore-IsSafe d (returns raises) at after last c may i =
      if_current-IsSafe may_open requested (IsSafeSystem may_open requested) (restoring d)
        d.operation _ _ c i
        (λ e j.
          ended-IsSafe may_open requested (restoring d) d.operation false e
            record { held = λ h. refl; same = refl } j)
        (λ live.
          fail_enable-IsSafe (restoring d) d at after last c
            record { held = λ h. refl; same = refl } i)
  restore-IsSafe d (returns (returns u)) at after last c may i =
      if_current-IsSafe may_open requested (IsSafeSystem may_open requested) (restoring d)
        d.operation _ _ c i
        (λ e j.
          ended-IsSafe may_open requested (restoring d) d.operation false e
            record { held = λ h. refl; same = refl } j)
        (λ live.
          finalize-IsSafe (restoring d) d (some true) at after c
            record { held = λ h. refl; same = refl } i.backed.actual may i)

  pub refresh-IsSafe :
      (d : Deferred) (call : Call (Call (Unit {0}))) (at after : Reading) (c : Coordinator)
      → may_open d.operation.group ≡ true
      → IsSafe may_open requested (refreshing d) c
      → IsSafeSystem may_open requested (refresh d call at after c)
  unfolding refresh is_held is_worked is_asked generation_of IsBackedPhase
  refresh-IsSafe d raises at after c may i =
      fail-Ends may_open requested
        (λ s. IsSafeSystem may_open requested (fail d.operation after s.1)) (refreshing d)
        d.operation at c
        (λ e j.
          fail-IsSafe may_open requested (ending d.operation false) d.operation after e
            record { held = λ h. refl; same = refl } j)
        record { held = λ h. refl; same = refl } i
  refresh-IsSafe d (returns raises) at after c may i =
      if_current-IsSafe may_open requested (IsSafeSystem may_open requested) (refreshing d)
        d.operation _ _ c i
        (λ e j.
          ended-IsSafe may_open requested (refreshing d) d.operation false e
            record { held = λ h. refl; same = refl } j)
        (λ live.
          fail-IsSafe may_open requested (refreshing d) d.operation at c
            record { held = λ h. refl; same = refl } i)
  refresh-IsSafe d (returns (returns u)) at after c may i =
      if_current-IsSafe may_open requested (IsSafeSystem may_open requested) (refreshing d)
        d.operation _ _ c i
        (λ e j.
          ended-IsSafe may_open requested (refreshing d) d.operation false e
            record { held = λ h. refl; same = refl } j)
        (λ live.
          finalize-IsSafe (refreshing d) d none at after c record { held = λ h. refl; same = refl }
            i.backed.actual may i)

  freed-IsSafe :
      (op : Operation) (complete : Bool) (c : Coordinator)
      → c.is_terminal ≡ true
      → IsSafe may_open requested (ending op complete) c
      → IsSafe may_open requested free c
  unfolding is_held is_worked is_asked generation_of IsBackedPhase
  freed-IsSafe op complete c over i = record {
    groups = λ h.
        let s = i.groups h in
        record {
          confirmed = s.confirmed;
          allowed = s.allowed;
          closed = s.closed;
          bounded = s.bounded;
          rests = λ o r. cc;
          works = λ o w. cc;
          current = λ o r. cc;
          quiet = λ a. cc;
        };
    ended = i.ended;
    kept = i.kept;
    backed = tt;
  }

  pub end-IsSafe :
      (op : Operation) (complete : Bool) (c : Coordinator)
      → IsSafe may_open requested (ending op complete) c
      → IsSafeSystem may_open requested (end op c)
  unfolding end is_held is_worked is_asked generation_of IsBackedPhase is_idle
  end-IsSafe op complete c i =
      observed-IsSafe may_open requested (IsSafeSystem may_open requested) (ending op complete) _ _
        c i (λ d over j. freed-IsSafe op complete d over j)
        (λ live calm.
          let t = i.groups op.group in
          if-cases (IsSafe may_open requested free)
            ((c.groups op.group).generation == op.generation) _ _
            (λ same.
              take_group may_open requested (ending op complete) free op.group _ c
                record {
                  confirmed = t.confirmed;
                  allowed = t.allowed;
                  closed = t.closed;
                  bounded = t.bounded;
                  rests = λ o r. refl;
                  works = λ o w. cc;
                  current = λ o r. cc;
                  quiet = λ a. cc;
                }
                (λ h other.
                  let s = i.groups h in
                  record {
                    confirmed = s.confirmed;
                    allowed = s.allowed;
                    closed = s.closed;
                    bounded = s.bounded;
                    rests = λ o r. s.rests o other;
                    works = λ o w. cc;
                    current = λ o r. cc;
                    quiet = λ a. cc;
                  })
                tt i)
            (λ other. let e = t.current live (same_group_refl op.group) in ground arith))
