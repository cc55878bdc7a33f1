-- ===== src/Satellite/Motors/Runs.antt =====
-- motor_control.py of ha-satellite: every order in which the sections under the lock can run, for the
-- sole operation, for the producers' commands and for those who request terminal.
use reachy.Prelude.{◌<◌, ◌≡◌, Bool, true, Option, ◌⊎◌}
use reachy.Satellite.Motors.{MotorGroup, MotorConfirmation}
use reachy.Satellite.Motors.Coordinator.{
  Coordinator, Reading, new, begin_command, end_command, request_terminal, observe_terminal,
}
use reachy.Satellite.Motors.Operation.{
  Operation, Deferred, Asks, Phase, free, created, preparing, draining, asking, sampling,
  committing, restoring, refreshing, ending, Call, reserve, start, prepare, drain, answer, sample,
  commit, restore, refresh, end,
}

abbrev pub System : Type 0
System = Phase × Coordinator

abbrev pub started : System
started = (free, new)

-- A producer's command ends only if one on its groups has begun. The worker's wait ends once no command
-- is in flight on the group, or terminal was requested.
pub data Step : System → System → Type 0 where
  reserves :
      {p : Phase} {c : Coordinator} (g : MotorGroup) (requested : Option Bool) (at : Reading)
      → Step (p, c) (reserve p g requested at c)
  starts : {c : Coordinator} (op : Operation) → Step (created op, c) (start op c)
  prepares :
      {c : Coordinator} (op : Operation) (call : Call (Call (Option Bool))) (at : Reading)
      → Step (preparing op, c) (prepare op call at c)
  drains :
      {c : Coordinator} (op : Operation) (asks : Asks)
      → ((c.groups op.group).commands_inflight ≡ 0) ⊎ (c.terminal_requested ≡ true)
      → Step (draining op asks, c) (drain op asks c)
  answers :
      {c : Coordinator} (op : Operation) (asks : Asks) (confirmation : MotorConfirmation)
      (at after : Reading)
      → Step (asking op asks, c) (answer op asks confirmation at after c)
  samples :
      {c : Coordinator} (d : Deferred) (call : Call (Unit {0})) (at : Reading)
      → Step (sampling d, c) (sample d call at c)
  commits :
      {c : Coordinator} (d : Deferred) (call : Call (Unit {0})) (at after last : Reading)
      → Step (committing d, c) (commit d call at after last c)
  restores :
      {c : Coordinator} (d : Deferred) (call : Call (Call (Unit {0}))) (at after last : Reading)
      → Step (restoring d, c) (restore d call at after last c)
  refreshes :
      {c : Coordinator} (d : Deferred) (call : Call (Call (Unit {0}))) (at after : Reading)
      → Step (refreshing d, c) (refresh d call at after c)
  ends :
      {c : Coordinator} (op : Operation) (complete : Bool) → Step (ending op complete, c) (end op c)
  begins_command :
      {p : Phase} {c : Coordinator} (wanted : MotorGroup → Bool)
      → Step (p, c) (p, (begin_command wanted c).1)
  ends_command :
      {p : Phase} {c : Coordinator} (wanted : MotorGroup → Bool)
      → ((h : MotorGroup) → wanted h ≡ true → 0 < (c.groups h).commands_inflight)
      → Step (p, c) (p, end_command wanted c)
  requests_terminal : {p : Phase} {c : Coordinator} → Step (p, c) (p, request_terminal c)
  observes_terminal : {p : Phase} {c : Coordinator} → Step (p, c) (p, observe_terminal c)

pub data Steps : System → System → Type 0 where
  stays : {a : System} → Steps a a
  goes : {a b c : System} → Steps a b → Step b c → Steps a c
