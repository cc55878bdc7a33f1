-- ===== src/Satellite/Motors/Safety/Promises.antt =====
-- motor_control.py of ha-satellite: what its callers can count on.
use reachy.Prelude.{ℕ, suc, ◌≡◌, refl, subst, ap, ◌∙◌, Bool, true, false, Option, arith, if-cases}
use reachy.Satellite.Motors.{MotorGroup, head, body, antennas}
use reachy.Satellite.Motors.Coordinator.{
  Coordinator, Reading, same_group, with_group, is_idle, closed_down, observed, gate_is_open,
  begin_command, admits, admits_all,
}
use reachy.Satellite.Motors.Operation.{
  Operation, Asks, Phase, free, created, asking, reserve, reserve_if, reserve_free, close_if,
  closes_at_once,
}
use reachy.Satellite.Motors.Runs.{System, started, Steps}
use reachy.Satellite.Motors.Safety.{is_held, is_worked, is_asked, IsSafe}
use reachy.Satellite.Motors.Safety.Operations.{same_group_refl}
use reachy.Satellite.Motors.Safety.Bystanders.{admitted_each}
use reachy.Satellite.Motors.Safety.Reached.{anything, Steps-IsSafe, motors-IsSafe}

IsRefused : Bool × Coordinator → Type 0
IsRefused r = r.0 ≡ false

refused :
    (c : Coordinator) (h : MotorGroup) (wanted : MotorGroup → Bool)
    → (c.is_terminal ≡ false → is_idle (c.groups h).transition ≡ false)
    → wanted h ≡ true
    → (begin_command wanted c).0 ≡ false
unfolding begin_command observed admits IsRefused
refused c h wanted busy wants =
    if-cases IsRefused c.is_terminal _ _ (λ over. refl)
      (λ live.
        if-cases IsRefused c.terminal_requested _ _ (λ asked. refl)
          (λ calm.
            if-cases IsRefused (admits_all wanted c.groups) _ _
              (λ admitted.
                let e = busy live in
                let f = admitted_each wanted c.groups admitted h in ground arith)
              (λ turned_away. refl)))

-- While the daemon is asked to set or to read the torque of a group, in any reachable state, no command
-- of a producer is in flight on that group, and none that wants the group is admitted.
pub quiet_while_asked :
    (op : Operation) (asks : Asks) (c : Coordinator) (wanted : MotorGroup → Bool)
    → Steps started (asking op asks, c)
    → wanted op.group ≡ true
    → ((c.groups op.group).commands_inflight ≡ 0) × ((begin_command wanted c).0 ≡ false)
unfolding is_asked is_worked is_held
quiet_while_asked op asks c wanted run wants =
    let s = (motors-IsSafe (asking op asks) c run).groups op.group in
    (
      s.quiet (same_group_refl op.group),
      refused c op.group wanted (λ live. s.works live (same_group_refl op.group)) wants,
    )

-- What a request of terminal leaves to the producers.
pub record IsFinal (c : Coordinator) : Type 0 where
  pub requested : c.terminal_requested ≡ true
  pub refuses : (wanted : MotorGroup → Bool) → (begin_command wanted c).0 ≡ false
  pub shuts : (h : MotorGroup) → (gate_is_open h c).0 ≡ false
  pub is_shut : (h : MotorGroup) → ((gate_is_open h c).1.groups h).gate_open ≡ false

IsShut : MotorGroup → Bool × Coordinator → Type 0
IsShut h r = (r.1.groups h).gate_open ≡ false

final :
    (c : Coordinator)
    → c.terminal_requested ≡ true
    → (c.is_terminal ≡ true → (h : MotorGroup) → (c.groups h).gate_open ≡ false)
    → IsFinal c
unfolding begin_command gate_is_open observed closed_down IsShut
final c asked shut = record {
  requested = asked;
  refuses = λ w. ground arith;
  shuts = λ h. ground arith;
  is_shut = λ h.
      if-cases (IsShut h) c.is_terminal _ _ (λ over. shut over h)
        (λ live.
          if-cases (IsShut h) c.terminal_requested _ _ (λ seen. refl) (λ calm. ground arith));
}

kept_from :
    {a : System}
    → IsSafe anything false a.0 a.1
    → a.1.terminal_requested ≡ true
    → IsSafe anything true a.0 a.1
kept_from i asked = record {
  groups = i.groups;
  ended = i.ended;
  kept = λ o. asked;
  backed = i.backed;
}

-- Once terminal has been requested, in any reachable state, it stays so whatever happens, and from then
-- on no command of a producer is admitted, every gate reads closed and is closed once it is read.
pub terminal-IsFinal :
    (a b : System) → Steps started a → a.1.terminal_requested ≡ true → Steps a b → IsFinal b.1
terminal-IsFinal a b before asked after =
    let i = motors-IsSafe a.0 a.1 before in
    let j = Steps-IsSafe true a b after (kept_from i asked) in
    final b.1 (j.kept refl) (λ over h. (j.groups h).closed over)

unfoldable IsAccepted : MotorGroup → Option Bool → ℕ → Phase × Coordinator → Type 0
IsAccepted g requested n r =
    r.0 ≡ created (record { group = g; requested = requested; generation = suc n })

close_if_lem :
    (b : Bool) (g : MotorGroup) (c : Coordinator)
    → (((close_if b g c).groups g).transition ≡ (c.groups g).transition)
      × (((close_if b g c).groups g).generation ≡ (c.groups g).generation)
unfolding close_if with_group same_group
close_if_lem b head c = (refl, refl)
close_if_lem b body c = (refl, refl)
close_if_lem b antennas c = (refl, refl)

free_accepts :
    (c : Coordinator) (g : MotorGroup) (requested : Option Bool) (at : Reading)
    → is_idle (c.groups g).transition ≡ true
    → IsAccepted g requested (c.groups g).generation (reserve_free g requested at c)
unfolding reserve_free IsAccepted
free_accepts c g requested at idles =
    if-cases (IsAccepted g requested (c.groups g).generation) (is_idle (c.groups g).transition) _ _
      (λ idles. refl) (λ busy. ground arith)

-- In any reachable state where no operation is held and terminal is not requested, a transition or a
-- refresh of any group is accepted, whatever has failed before.
pub reserve_is_accepted :
    (c : Coordinator) (g : MotorGroup) (requested : Option Bool) (at : Reading)
    → Steps started (free, c)
    → c.terminal_requested ≡ false
    → (reserve free g requested at c).0
      ≡ created
          (record { group = g; requested = requested; generation = suc (c.groups g).generation })
unfolding reserve reserve_if observed is_held close_if with_group IsAccepted
reserve_is_accepted c g requested at run calm =
    let i = motors-IsSafe free c run in
    let d = close_if (closes_at_once requested) g c in
    let (transition, generation) = close_if_lem (closes_at_once requested) g c in
    if-cases (IsAccepted g requested (c.groups g).generation) c.is_terminal _ _
      (λ over. let e = i.ended over in ground arith)
      (λ live.
        if-cases (IsAccepted g requested (c.groups g).generation) c.terminal_requested _ _
          (λ asked. ground arith)
          (λ calm.
            subst (λ n. IsAccepted g requested n (reserve_free g requested at d)) generation
              (free_accepts d g requested at
                (ap is_idle transition ∙ (i.groups g).rests live refl))))
