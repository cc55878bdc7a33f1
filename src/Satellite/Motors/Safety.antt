-- ===== src/Satellite/Motors/Safety.antt =====
-- motor_control.py of ha-satellite: what is kept of the gates, the transitions and the commands.
mod Sections
mod Operations
mod Stages
mod Finish
mod Bystanders
pub mod Reached
pub mod Promises
use reachy.Prelude.{ℕ, ◌≤◌, ◌≡◌, refl, Bool, true, false, Option, none, some, ◌==◌, arith, length}
use reachy.Satellite.Motors.{MotorGroup, head, body, antennas, physical_value, motor_names}
use reachy.Satellite.Motors.Coordinator.{Coordinator, GroupState, is_idle, same_group}
use reachy.Satellite.Motors.Operation.{
  Operation, Deferred, Asks, Phase, free, created, preparing, draining, asking, sampling,
  committing, restoring, refreshing, ending,
}

-- Whether an operation holds the group.
unfoldable pub is_held : Phase → MotorGroup → Bool
is_held free h = false
is_held (created op) h = same_group op.group h
is_held (preparing op) h = same_group op.group h
is_held (draining op asks) h = same_group op.group h
is_held (asking op asks) h = same_group op.group h
is_held (sampling d) h = same_group d.operation.group h
is_held (committing d) h = same_group d.operation.group h
is_held (restoring d) h = same_group d.operation.group h
is_held (refreshing d) h = same_group d.operation.group h
is_held (ending op complete) h = same_group op.group h

-- Whether an operation that has not come to its end holds the group.
unfoldable pub is_worked : Phase → MotorGroup → Bool
unfolding is_held
is_worked (ending op complete) h = false
is_worked p h = is_held p h

-- Whether the daemon is being asked about the group.
unfoldable pub is_asked : Phase → MotorGroup → Bool
is_asked (asking op asks) h = same_group op.group h
is_asked _ h = false

unfoldable pub generation_of : Phase → ℕ
generation_of free = 0
generation_of (created op) = op.generation
generation_of (preparing op) = op.generation
generation_of (draining op asks) = op.generation
generation_of (asking op asks) = op.generation
generation_of (sampling d) = d.operation.generation
generation_of (committing d) = d.operation.generation
generation_of (restoring d) = d.operation.generation
generation_of (refreshing d) = d.operation.generation
generation_of (ending op complete) = op.generation

-- What was deferred rests on an answer of the daemon that says the torque is on.
pub record IsBacked (d : Deferred) : Type 0 where
  pub actual : d.actual ≡ true
  pub allow_contradiction : Bool
  pub says :
      physical_value d.confirmation (motor_names d.operation.group) allow_contradiction ≡ some true

unfoldable pub IsBackedPhase : Phase → Type 0
IsBackedPhase (sampling d) = IsBacked d
IsBackedPhase (committing d) = IsBacked d
IsBackedPhase (restoring d) = IsBacked d
IsBackedPhase (refreshing d) = IsBacked d
IsBackedPhase _ = Unit

-- One group: `may_open` bounds its gate, `over` is the coordinator's flag.
pub record IsSafeGroup (may_open : Bool) (p : Phase) (over : Bool) (h : MotorGroup) (s : GroupState)
    : Type 0 where
  pub confirmed : s.gate_open ≡ true → s.last_confirmed ≡ some true
  pub allowed : s.gate_open ≡ true → may_open ≡ true
  pub closed : over ≡ true → s.gate_open ≡ false
  pub bounded : length s.diagnostics ≤ 32
  pub rests : over ≡ false → is_held p h ≡ false → is_idle s.transition ≡ true
  pub works : over ≡ false → is_worked p h ≡ true → is_idle s.transition ≡ false
  pub current : over ≡ false → is_held p h ≡ true → s.generation ≡ generation_of p
  pub quiet : is_asked p h ≡ true → s.commands_inflight ≡ 0

-- `may_open` bounds the gates that are open, and `requested` the request of terminal from below.
pub record IsSafe (may_open : MotorGroup → Bool) (requested : Bool) (p : Phase) (c : Coordinator)
    : Type 0 where
  pub groups : (h : MotorGroup) → IsSafeGroup (may_open h) p c.is_terminal h (c.groups h)
  pub ended : c.is_terminal ≡ true → c.terminal_requested ≡ true
  pub kept : requested ≡ true → c.terminal_requested ≡ true
  pub backed : IsBackedPhase p
