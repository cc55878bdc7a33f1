-- ===== src/Satellite/Motors/Coordinator.antt =====
-- motor_control.py of ha-satellite: the state of a `MotorGroupCoordinator`, and the sections of it that
-- run under its lock. A reading of the clock is a whole number of ticks.
use reachy.Prelude.{
  ℕ, ◌+◌, ◌-◌, String, List, [], ◌∷◌, ◌++◌, Bool, true, false, not, ◌&&◌, ◌||◌, Option, none, some,
  length, drop, if◌then◌else◌,
}
use reachy.Satellite.Motors.{
  MotorGroup, head, body, antennas, MotorConfirmation, MotorConfirmationOutcome, confirmed,
  contradicted, partial, failed, unavailable, failed_confirmation,
}

pub data MotorTransition : Type 0 where
  idle quiescing confirming reseeding terminal : MotorTransition

-- One entry of the diagnostics.
pub record Diagnostic : Type 0 where
  pub requested : Option Bool
  pub acknowledged : Bool
  pub readback : String
  pub fresh : Bool
  pub changed : Bool
  pub confirmation_age : Option ℕ

pub record GroupState : Type 0 where
  pub last_confirmed : Option Bool
  pub confirmed_at : Option ℕ
  pub gate_open : Bool
  pub commands_inflight : ℕ
  pub transition : MotorTransition
  pub body_policy : Option Bool
  pub policy_capture_pending : Bool
  pub generation : ℕ
  pub diagnostics : List Diagnostic

abbrev pub initial_group : GroupState
initial_group = record {
  last_confirmed = none;
  confirmed_at = none;
  gate_open = false;
  commands_inflight = 0;
  transition = idle;
  body_policy = none;
  policy_capture_pending = false;
  generation = 0;
  diagnostics = [];
}

-- `terminal_requested` is the event, and `is_terminal` the flag that a section under the lock sets once
-- it sees the event.
pub record Coordinator : Type 0 where
  pub groups : MotorGroup → GroupState
  pub terminal_requested : Bool
  pub is_terminal : Bool

unfoldable pub new : Coordinator
new = record { groups = λ g. initial_group; terminal_requested = false; is_terminal = false }

unfoldable pub same_group : MotorGroup → MotorGroup → Bool
same_group head head = true
same_group body body = true
same_group antennas antennas = true
same_group _ _ = false

unfoldable pub with_group : MotorGroup → GroupState → Coordinator → Coordinator
with_group g s c = record c { groups = λ h. if same_group g h then s else c.groups h }

unfoldable pub is_idle : MotorTransition → Bool
is_idle idle = true
is_idle _ = false

unfoldable pub closed_down : Coordinator → Coordinator
closed_down c = record c {
  is_terminal = true;
  groups = λ h. record (c.groups h) { gate_open = false; transition = terminal };
}

-- `_terminal_observed`, and what comes after it if terminal has won and if it has not.
unfoldable pub observed : {A : Type 0} → (Coordinator → A) → (Coordinator → A) → Coordinator → A
observed over still c =
    if c.is_terminal then over c else if c.terminal_requested then over (closed_down c) else still c

-- A reading of the clock, whether a terminal request comes in while it is read, and whether one comes
-- in from another thread before the section has looked again.
pub record Reading : Type 0 where
  pub now : ℕ
  pub interrupts : Bool
  pub races : Bool

unfoldable pub request_if : Bool → Coordinator → Coordinator
request_if b c = record c { terminal_requested = c.terminal_requested || b }

unfoldable pub diagnostic_capacity : ℕ
diagnostic_capacity = 32

-- `deque.append`, with the capacity.
unfoldable pub append_bounded : {A : Type 0} → List A → A → List A
unfolding diagnostic_capacity
append_bounded xs x = drop (length (xs ++ x ∷ []) - diagnostic_capacity) (xs ++ x ∷ [])

outcome_value : MotorConfirmationOutcome → String
outcome_value confirmed = "incomplete"
outcome_value contradicted = "incomplete"
outcome_value partial = "partial"
outcome_value failed = "failed"
outcome_value unavailable = "unavailable"

readback : Option Bool → MotorConfirmationOutcome → String
unfolding outcome_value
readback (some true) outcome = "enabled"
readback (some false) outcome = "disabled"
readback none outcome = outcome_value outcome

age : Option ℕ → ℕ → Option ℕ
age none now = none
age (some at) now = some (now - at)

pub record Report : Type 0 where
  pub requested : Option Bool
  pub confirmation : MotorConfirmation
  pub actual : Option Bool
  pub fresh : Bool
  pub changed : Bool

-- What is recorded of an operation that failed or was refused.
unfoldable pub refusal : Option Bool → Report
refusal requested = record {
  requested = requested;
  confirmation = failed_confirmation;
  actual = none;
  fresh = false;
  changed = false;
}

unfoldable pub diagnostic : GroupState → Report → ℕ → Diagnostic
unfolding readback age
diagnostic s r now = record {
  requested = r.requested;
  acknowledged = r.confirmation.acknowledged;
  readback = readback r.actual r.confirmation.outcome;
  fresh = r.fresh;
  changed = r.changed;
  confirmation_age = age s.confirmed_at now;
}

unfoldable pub appended : MotorGroup → Report → ℕ → Coordinator → Coordinator
unfolding diagnostic
appended g r now c =
    with_group g
      (record (c.groups g) {
        diagnostics = append_bounded (c.groups g).diagnostics (diagnostic (c.groups g) r now);
      })
      c

-- `_record`.
unfoldable pub note : MotorGroup → Report → Reading → Coordinator → Coordinator
note g r at c =
    observed (λ d. d)
      (λ d. observed (λ e. e) (λ e. appended g r at.now e) (request_if at.interrupts d)) c

unfoldable pub promoted : MotorGroup → Bool → Bool → ℕ → Coordinator → Coordinator
promoted g actual gate now c =
    with_group g
      (record (c.groups g) {
        last_confirmed = some actual;
        confirmed_at = some now;
        gate_open = gate;
      })
      c

-- What terminal leaves of a promotion that it overtook.
unfoldable pub demoted : MotorGroup → GroupState → Coordinator → Coordinator
demoted g before c =
    with_group g
      (record (c.groups g) {
        last_confirmed = before.last_confirmed;
        confirmed_at = before.confirmed_at;
        gate_open = false;
      })
      c

-- `_promote`, and what comes after it if it fails and if it does not.
unfoldable pub promote :
    {A : Type 0}
    → MotorGroup
    → Bool
    → Bool
    → Reading
    → (Coordinator → A)
    → (Coordinator → A)
    → Coordinator
    → A
promote g actual gate at fails done c =
    observed fails
      (λ d.
        observed fails
          (λ e.
            observed (λ f. fails (demoted g (e.groups g) f)) done
              (request_if at.races (promoted g actual gate at.now e)))
          (request_if at.interrupts d))
      c

-- A producer's command: it is admitted only if the gate of every group it wants is open and nothing
-- happens to the group.
unfoldable pub admits : (MotorGroup → Bool) → MotorGroup → GroupState → Bool
admits wanted g s = not (wanted g) || (s.gate_open && is_idle s.transition)

unfoldable pub admits_all : (MotorGroup → Bool) → (MotorGroup → GroupState) → Bool
admits_all wanted groups =
    admits wanted head (groups head)
    && (admits wanted body (groups body) && admits wanted antennas (groups antennas))

unfoldable pub reserved : (MotorGroup → Bool) → Coordinator → Coordinator
reserved wanted c = record c {
  groups = λ h. record (c.groups h) {
    commands_inflight = (c.groups h).commands_inflight + (if wanted h then 1 else 0);
  };
}

-- `command`, up to the action: whether the action is called.
unfoldable pub begin_command : (MotorGroup → Bool) → Coordinator → Bool × Coordinator
begin_command wanted c =
    observed (λ d. (false, d))
      (λ d. if admits_all wanted d.groups then (true, reserved wanted d) else (false, d)) c

-- `command`, after the action.
unfoldable pub end_command : (MotorGroup → Bool) → Coordinator → Coordinator
end_command wanted c = record c {
  groups = λ h. record (c.groups h) {
    commands_inflight = (c.groups h).commands_inflight - (if wanted h then 1 else 0);
  };
}

-- `gate_open`.
unfoldable pub gate_is_open : MotorGroup → Coordinator → Bool × Coordinator
gate_is_open g c = observed (λ d. (false, d)) (λ d. ((d.groups g).gate_open, d)) c

-- `terminal`: the request, and then the section.
unfoldable pub request_terminal : Coordinator → Coordinator
request_terminal c = record c { terminal_requested = true }

unfoldable pub observe_terminal : Coordinator → Coordinator
observe_terminal c = observed (λ d. d) (λ d. d) c
