-- ===== src/Satellite/Motors/Safety/Operations.antt =====
-- motor_control.py of ha-satellite: the sections of an operation, of the producers' commands and of
-- those who request terminal.
use reachy.Prelude.{◌≡◌, refl, sym, subst, ◌∙◌, ◌⊎◌, Bool, true, false, Option, arith, if-cases}
use reachy.Satellite.Motors.{MotorGroup, head, body, antennas, MotorConfirmation}
use reachy.Satellite.Motors.Coordinator.{
  Coordinator, GroupState, MotorTransition, Reading, refusal, is_idle, same_group, with_group,
}
use reachy.Satellite.Motors.Operation.{
  Operation, Asks, reads, Phase, created, preparing, draining, asking, ending, Call, returns,
  raises, fail, start, prepare, drain, reread, settle, close_gate,
}
use reachy.Satellite.Motors.Runs.{System}
use reachy.Satellite.Motors.Safety.{
  is_held, is_worked, is_asked, generation_of, IsBackedPhase, IsSafeGroup, IsSafe,
}
use reachy.Satellite.Motors.Safety.Sections.{
  set_group, observed-IsSafe, if_current-IsSafe, note-IsSafe, promote-IsSafe,
}

pub same_group_refl : (g : MotorGroup) → same_group g g ≡ true
unfolding same_group
same_group_refl head = refl
same_group_refl body = refl
same_group_refl antennas = refl

pub same_group_lem : (g h : MotorGroup) → same_group g h ≡ true → g ≡ h
unfolding same_group
same_group_lem head head e = refl
same_group_lem head body e = cc
same_group_lem head antennas e = cc
same_group_lem body head e = cc
same_group_lem body body e = refl
same_group_lem body antennas e = cc
same_group_lem antennas head e = cc
same_group_lem antennas body e = cc
same_group_lem antennas antennas e = refl

-- The phase is one of the operation.
pub record IsOf (op : Operation) (p : Phase) : Type 0 where
  pub held : (h : MotorGroup) → is_held p h ≡ same_group op.group h
  pub same : generation_of p ≡ op.generation

module _ (may_open : MotorGroup → Bool) (requested : Bool) where
  abbrev pub IsSafeSystem : System → Type 0
  IsSafeSystem (p, c) = IsSafe may_open requested p c

  -- The same groups are held, no more are worked on, and none asked about has commands in flight.
  pub moved :
      (p q : Phase) (c : Coordinator)
      → ((h : MotorGroup) → is_held q h ≡ is_held p h)
      → ((h : MotorGroup) → is_worked q h ≡ true → is_worked p h ≡ true)
      → ((h : MotorGroup) → is_asked q h ≡ true → (c.groups h).commands_inflight ≡ 0)
      → generation_of q ≡ generation_of p
      → IsBackedPhase q
      → IsSafe may_open requested p c
      → IsSafe may_open requested q c
  moved p q c held worked asked same backed i = record {
    groups = λ h.
        let s = i.groups h in
        record {
          confirmed = s.confirmed;
          allowed = s.allowed;
          closed = s.closed;
          bounded = s.bounded;
          rests = λ o r. s.rests o (ground (arith, held h));
          works = λ o w. s.works o (worked h w);
          current = λ o r. let e = s.current o (ground (arith, held h)) in cc;
          quiet = asked h;
        };
    ended = i.ended;
    kept = i.kept;
    backed = backed;
  }

  -- A change of the group that leaves its gate no more open than before, in a group that is held and
  -- not worked on.
  pub quieted-IsSafe :
      (op : Operation) (b : Bool) (s : GroupState) (c : Coordinator)
      → (s.gate_open ≡ true → (c.groups op.group).gate_open ≡ true)
      → s.last_confirmed ≡ (c.groups op.group).last_confirmed
      → s.diagnostics ≡ (c.groups op.group).diagnostics
      → s.generation ≡ (c.groups op.group).generation
      → IsSafe may_open requested (ending op b) c
      → IsSafe may_open requested (ending op b) (with_group op.group s c)
  unfolding is_held is_worked is_asked generation_of same_group
  quieted-IsSafe op b s c gate last diagnostics generation i =
      let t = i.groups op.group in
      set_group may_open requested (ending op b) op.group s c i record {
        confirmed = λ o. let e = t.confirmed (gate o) in cc;
        allowed = λ o. t.allowed (gate o);
        closed = λ o. let e = t.closed o in ground arith;
        bounded = let e = t.bounded in rw diagnostics e;
        rests = λ o r. ground (arith, same_group_refl op.group);
        works = λ o w. cc;
        current = λ o r. let e = t.current o r in cc;
        quiet = λ a. cc;
      }

  -- The operation comes to its end.
  pub ended-IsSafe :
      (p : Phase) (op : Operation) (b : Bool) (c : Coordinator)
      → IsOf op p
      → IsSafe may_open requested p c
      → IsSafe may_open requested (ending op b) c
  unfolding is_held is_worked is_asked generation_of IsBackedPhase
  ended-IsSafe p op b c o i =
      moved p (ending op b) c (λ h. sym (o.held h)) (λ h w. cc) (λ h a. cc) (sym o.same) tt i

  -- Whatever is asked of the operation's end holds once it has failed.
  pub fail-Ends :
      (Q : System → Type 0) (p : Phase) (op : Operation) (at : Reading) (c : Coordinator)
      → ((d : Coordinator) → IsSafe may_open requested (ending op false) d → Q (ending op false, d))
      → IsOf op p
      → IsSafe may_open requested p c
      → Q (fail op at c)
  unfolding fail
  fail-Ends Q p op at c q o i =
      if_current-IsSafe may_open requested Q p op _ _ c i
        (λ d j. q d (ended-IsSafe p op false d o j))
        (λ live. q _ (
          note-IsSafe may_open requested (ending op false) op.group (refusal op.requested) at _
            (quieted-IsSafe op false _ c (λ g. cc) refl refl refl (ended-IsSafe p op false c o i))))

  pub fail-IsSafe :
      (p : Phase) (op : Operation) (at : Reading) (c : Coordinator)
      → IsOf op p
      → IsSafe may_open requested p c
      → IsSafeSystem (fail op at c)
  fail-IsSafe p op at c o i = fail-Ends IsSafeSystem p op at c (λ d j. j) o i

  -- The group changes hands.
  pub take_group :
      (p q : Phase) (g : MotorGroup) (s : GroupState) (c : Coordinator)
      → IsSafeGroup (may_open g) q c.is_terminal g s
      → ((h : MotorGroup)
          → same_group g h ≡ false
          → IsSafeGroup (may_open h) q c.is_terminal h (c.groups h))
      → IsBackedPhase q
      → IsSafe may_open requested p c
      → IsSafe may_open requested q (with_group g s c)
  unfolding with_group
  take_group p q g s c new old backed i = record {
    groups = λ h.
        if-cases (IsSafeGroup (may_open h) q c.is_terminal h) (same_group g h) s (c.groups h)
          (λ same.
            subst (λ k. IsSafeGroup (may_open k) q c.is_terminal k s) (same_group_lem g h same) new)
          (old h);
    ended = i.ended;
    kept = i.kept;
    backed = backed;
  }

  -- An operation that is not at its end gives its group a transition that is not idle.
  pub transit-IsSafe :
      (p q : Phase) (op : Operation) (policy : Option Bool) (pending : Bool)
      (transition : MotorTransition) (c : Coordinator)
      → is_idle transition ≡ false
      → IsOf op p
      → IsOf op q
      → ((h : MotorGroup) → is_worked q h ≡ true → is_worked p h ≡ true)
      → ((h : MotorGroup) → is_asked q h ≡ true → (c.groups h).commands_inflight ≡ 0)
      → IsBackedPhase q
      → IsSafe may_open requested p c
      → IsSafe may_open requested q (
          with_group op.group
            (record (c.groups op.group) {
              body_policy = policy;
              policy_capture_pending = pending;
              transition = transition;
            })
            c)
  transit-IsSafe p q op policy pending transition c busy o r worked asked backed i =
      let j =
        moved p q c (λ h. r.held h ∙ sym (o.held h)) worked asked (r.same ∙ sym o.same) backed i in
      let t = j.groups op.group in
      set_group may_open requested q op.group _ c j record {
        confirmed = t.confirmed;
        allowed = t.allowed;
        closed = t.closed;
        bounded = t.bounded;
        rests = λ live out. let e = r.held op.group in ground (arith, same_group_refl op.group);
        works = λ live w. busy;
        current = t.current;
        quiet = t.quiet;
      }

  pub start-IsSafe :
      (op : Operation) (c : Coordinator)
      → IsSafe may_open requested (created op) c
      → IsSafeSystem (start op c)
  unfolding start is_held is_worked is_asked generation_of IsBackedPhase
  start-IsSafe op c i =
      if_current-IsSafe may_open requested IsSafeSystem (created op) op _ _ c i
        (λ d j. ended-IsSafe (created op) op false d record { held = λ h. refl; same = refl } j)
        (λ live. moved (created op) (preparing op) c (λ h. refl) (λ h w. w) (λ h a. cc) refl tt i)

  pub prepare-IsSafe :
      (op : Operation) (call : Call (Call (Option Bool))) (at : Reading) (c : Coordinator)
      → IsSafe may_open requested (preparing op) c
      → IsSafeSystem (prepare op call at c)
  unfolding prepare is_idle is_held is_worked is_asked generation_of IsBackedPhase
  prepare-IsSafe op raises at c i =
      fail-IsSafe (preparing op) op at c record { held = λ h. refl; same = refl } i
  prepare-IsSafe op (returns raises) at c i =
      if_current-IsSafe may_open requested IsSafeSystem (preparing op) op _ _ c i
        (λ d j. ended-IsSafe (preparing op) op false d record { held = λ h. refl; same = refl } j)
        (λ live. fail-IsSafe (preparing op) op at c record { held = λ h. refl; same = refl } i)
  prepare-IsSafe op (returns (returns captured)) at c i =
      if_current-IsSafe may_open requested IsSafeSystem (preparing op) op _ _ c i
        (λ d j. ended-IsSafe (preparing op) op false d record { held = λ h. refl; same = refl } j)
        (λ live.
          transit-IsSafe (preparing op) (draining op _) op _ _ _ c refl
            record { held = λ h. refl; same = refl } record { held = λ h. refl; same = refl }
            (λ h w. w) (λ h a. cc) tt i)

  pub drain-IsSafe :
      (op : Operation) (asks : Asks) (c : Coordinator)
      → ((c.groups op.group).commands_inflight ≡ 0) ⊎ (c.terminal_requested ≡ true)
      → IsSafe may_open requested (draining op asks) c
      → IsSafeSystem (drain op asks c)
  unfolding drain is_held is_worked is_asked generation_of IsBackedPhase
  drain-IsSafe op asks c drained i =
      observed-IsSafe may_open requested IsSafeSystem (draining op asks) _ _ c i
        (λ d t j.
          ended-IsSafe (draining op asks) op false d record { held = λ h. refl; same = refl } j)
        (λ live calm.
          moved (draining op asks) (asking op asks) c (λ h. refl) (λ h w. w)
            (λ h a.
              subst (λ g. (c.groups g).commands_inflight ≡ 0) (same_group_lem op.group h a)
                (ground arith))
            refl tt i)

  pub reread-IsSafe :
      (p : Phase) (op : Operation) (c : Coordinator)
      → IsOf op p
      → ((h : MotorGroup) → is_worked p h ≡ same_group op.group h)
      → IsSafe may_open requested p c
      → IsSafeSystem (reread op c)
  unfolding reread is_held is_worked is_asked generation_of IsBackedPhase
  reread-IsSafe p op c o worked i =
      if-cases IsSafeSystem c.terminal_requested _ _ (λ t. ended-IsSafe p op false c o i)
        (λ f.
          moved p (draining op reads) c (λ h. sym (o.held h)) (λ h w. worked h ∙ w) (λ h a. cc)
            (sym o.same) tt i)

  pub settle-IsSafe :
      (p : Phase) (op : Operation) (said : Option Bool) (confirmation : MotorConfirmation)
      (actual : Bool) (at after : Reading) (lost : Coordinator → System) (c : Coordinator)
      → IsOf op p
      → ((d : Coordinator) → IsSafe may_open requested p d → IsSafeSystem (lost d))
      → IsSafe may_open requested p c
      → IsSafeSystem (settle op said confirmation actual at after lost c)
  unfolding settle
  settle-IsSafe p op said confirmation actual at after lost c o x i =
      promote-IsSafe may_open requested IsSafeSystem p op.group actual false at _ _ c (λ g. cc) i x
        (λ d live j.
          note-IsSafe may_open requested (ending op true) op.group _ after d
            (ended-IsSafe p op true d o j))

  pub close_gate-IsSafe :
      (p : Phase) (g : MotorGroup) (c : Coordinator)
      → IsSafe may_open requested p c
      → IsSafe may_open requested p (close_gate g c)
  unfolding close_gate
  close_gate-IsSafe p g c i =
      let s = i.groups g in
      set_group may_open requested p g _ c i record {
        confirmed = λ o. cc;
        allowed = λ o. cc;
        closed = λ o. refl;
        bounded = s.bounded;
        rests = s.rests;
        works = s.works;
        current = s.current;
        quiet = s.quiet;
      }
