-- ===== src/Satellite/Motors/Operation.antt =====
-- motor_control.py of ha-satellite: one operation on a group, from `_reserve` to the end of
-- `_run_reserved`. It is cut at the places where the code awaits, waits or releases the lock.
use reachy.Prelude.{
  ℕ, suc, Bool, true, false, not, ◌&&◌, Option, none, some, ◌==◌, is_none, if◌then◌else◌,
}
use reachy.Satellite.Motors.{MotorGroup, MotorConfirmation, motor_names, physical_value}
use reachy.Satellite.Motors.Coordinator.{
  Coordinator, idle, quiescing, confirming, reseeding, Reading, Report, refusal, with_group,
  is_idle, observed, note, promote,
}

-- `requested` is none for a refresh.
pub record Operation : Type 0 where
  pub group : MotorGroup
  pub requested : Option Bool
  pub generation : ℕ

-- `_DeferredEnable` and `_DeferredRefresh`.
pub record Deferred : Type 0 where
  pub operation : Operation
  pub actual : Bool
  pub confirmation : MotorConfirmation
  pub changed : Bool

pub data Asks : Type 0 where
  sets reads : Asks

-- Where the sole operation is: there is none; its task has been created; its preparation runs; the
-- worker waits for commands to drain; the daemon has been asked; the worker samples; the task is about
-- to commit the sample; a policy is being restored, after an enable or a refresh; the task is about to
-- end, with what its outcome was.
pub data Phase : Type 0 where
  free : Phase
  created preparing : Operation → Phase
  draining asking : Operation → Asks → Phase
  sampling committing restoring refreshing : Deferred → Phase
  ending : Operation → Bool → Phase

unfoldable pub is_free : Phase → Bool
is_free free = true
is_free _ = false

-- `_reserve`. The mutex is held exactly while there is an operation.
unfoldable pub reserve_free : MotorGroup → Option Bool → Reading → Coordinator → Phase × Coordinator
reserve_free g requested at c =
    if is_idle (c.groups g).transition
    then (
      created
          (record { group = g; requested = requested; generation = suc (c.groups g).generation }),
      with_group g
          (record (c.groups g) {
            gate_open = is_none requested && (c.groups g).gate_open;
            generation = suc (c.groups g).generation;
            transition = quiescing;
          })
          c,
    )
    else (free, note g (refusal requested) at c)

unfoldable pub closes_at_once : Option Bool → Bool
closes_at_once (some false) = true
closes_at_once _ = false

unfoldable pub close_if : Bool → MotorGroup → Coordinator → Coordinator
close_if b g c =
    with_group g (record (c.groups g) { gate_open = not b && (c.groups g).gate_open }) c

unfoldable pub reserve_if :
    Phase → MotorGroup → Option Bool → Reading → Coordinator → Phase × Coordinator
unfolding reserve_free
reserve_if free g requested at c = reserve_free g requested at c
reserve_if p g requested at c = (p, note g (refusal requested) at c)

unfoldable pub reserve :
    Phase → MotorGroup → Option Bool → Reading → Coordinator → Phase × Coordinator
unfolding reserve_if close_if
reserve p g requested at c =
    observed (λ d. (p, d)) (λ d. reserve_if p g requested at d)
      (close_if (closes_at_once requested) g c)

-- `_current`, and what comes after it if the operation is not and if it is.
unfoldable pub if_current :
    {A : Type 0} → Operation → (Coordinator → A) → (Coordinator → A) → Coordinator → A
if_current op stale fresh c =
    observed stale
      (λ d. if (d.groups op.group).generation == op.generation then fresh d else stale d) c

abbrev pub ends : Operation → Bool → Coordinator → Phase × Coordinator
ends op complete c = (ending op complete, c)

-- `_fail_operation`, and the end of the operation.
unfoldable pub fail : Operation → Reading → Coordinator → Phase × Coordinator
fail op at c =
    if_current op (ends op false)
      (λ d. ends op false (
        note op.group (refusal op.requested) at (
          with_group op.group
            (record (d.groups op.group) {
              gate_open = false;
              policy_capture_pending = false;
              transition = idle;
            })
            d)))
      c

-- How a call of a lifecycle's method ends: it returns, or it raises.
pub data Call (A : Type 0) : Type 0 where
  returns : A → Call A
  raises : Call A

-- The start of `_run_reserved`, up to the preparation.
unfoldable pub start : Operation → Coordinator → Phase × Coordinator
start op c = if_current op (ends op false) (λ d. (preparing op, d)) c

unfoldable pub policy_or : Option Bool → Option Bool → Option Bool
policy_or none captured = captured
policy_or (some p) captured = some p

unfoldable pub asks_first : Option Bool → Asks
asks_first none = reads
asks_first (some _) = sets

-- After the preparation, with the policy that it captured: `prepare_loop` may raise too. The worker
-- looks at the terminal request first; then it waits for commands. A request of terminal between the
-- look before `prepare_loop` and the section after it leaves the same state as one before the first or
-- after the last of them, since nothing in between reads or changes what the coordinator keeps.
unfoldable pub prepare :
    Operation → Call (Call (Option Bool)) → Reading → Coordinator → Phase × Coordinator
unfolding policy_or asks_first
prepare op raises at c = fail op at c
prepare op (returns adopted) at c =
    if_current op (ends op false)
      (λ d. elim adopted [
        | raises ↦ fail op at d
        | returns captured ↦ (
          draining op (asks_first op.requested),
          with_group op.group
              (record (d.groups op.group) {
                body_policy = policy_or (d.groups op.group).body_policy captured;
                policy_capture_pending = false;
                transition = confirming;
              })
              d,
        )
      ])
      c

-- `_wait_for_commands`, once no command is in flight or terminal was requested.
unfoldable pub drain : Operation → Asks → Coordinator → Phase × Coordinator
drain op asks c = observed (ends op false) (λ d. (asking op asks, d)) c

-- The worker's way on after a transition that came to nothing: a refresh, unless terminal was
-- requested.
unfoldable pub reread : Operation → Coordinator → Phase × Coordinator
reread op c = if c.terminal_requested then ends op false c else (draining op reads, c)

abbrev pub is_changed : Option Bool → Bool → Bool
is_changed none actual = true
is_changed (some true) actual = not actual
is_changed (some false) actual = actual

unfoldable pub fresh_report : Option Bool → MotorConfirmation → Bool → Bool → Report
fresh_report requested confirmation actual changed = record {
  requested = requested;
  confirmation = confirmation;
  actual = some actual;
  fresh = true;
  changed = changed;
}

unfoldable pub stale_report : Option Bool → MotorConfirmation → Report
stale_report requested confirmation = record {
  requested = requested;
  confirmation = confirmation;
  actual = none;
  fresh = false;
  changed = false;
}

unfoldable pub close_gate : MotorGroup → Coordinator → Coordinator
close_gate g c = with_group g (record (c.groups g) { gate_open = false }) c

-- Closed, on fresh evidence.
unfoldable pub settle :
    Operation
    → Option Bool
    → MotorConfirmation
    → Bool
    → Reading
    → Reading
    → (Coordinator → Phase × Coordinator)
    → Coordinator
    → Phase × Coordinator
settle op requested confirmation actual at after lost c =
    promote op.group actual false at lost
      (λ d. ends op true (
        note op.group
          (fresh_report requested confirmation actual
            (is_changed (c.groups op.group).last_confirmed actual))
          after d))
      c

unfoldable pub set_answer :
    Operation
    → Option Bool
    → MotorConfirmation
    → Reading
    → Reading
    → Option Bool
    → Coordinator
    → Phase × Coordinator
unfolding settle close_gate
set_answer op requested confirmation at after none c =
    reread op (note op.group (stale_report requested confirmation) at (close_gate op.group c))
set_answer op (some true) confirmation at after (some true) c = (
  sampling (record {
    operation = op;
    actual = true;
    confirmation = confirmation;
    changed = is_changed (c.groups op.group).last_confirmed true;
  }),
  with_group op.group (record (c.groups op.group) { transition = reseeding }) c,
)
set_answer op requested confirmation at after (some actual) c =
    settle op requested confirmation actual at after (reread op) c

unfoldable pub read_answer :
    Operation
    → MotorConfirmation
    → Reading
    → Reading
    → Option Bool
    → Coordinator
    → Phase × Coordinator
unfolding settle close_gate
read_answer op confirmation at after none c =
    ends op false (note op.group (stale_report none confirmation) at (close_gate op.group c))
read_answer op confirmation at after (some actual) c =
    if actual && (c.groups op.group).gate_open
    then (
      refreshing (record {
        operation = op;
        actual = actual;
        confirmation = confirmation;
        changed = is_changed (c.groups op.group).last_confirmed actual;
      }),
      c,
    )
    else settle op none confirmation actual at after (ends op false) c

-- The daemon's answer: after a write in `_transition_reserved`, and after a read in
-- `_refresh_reserved`.
unfoldable pub answer :
    Operation → Asks → MotorConfirmation → Reading → Reading → Coordinator → Phase × Coordinator
unfolding set_answer read_answer
answer op sets confirmation at after c =
    if_current op (reread op)
      (set_answer op op.requested confirmation at after
        (physical_value confirmation (motor_names op.group) true))
      c
answer op reads confirmation at after c =
    if_current op (ends op false)
      (read_answer op confirmation at after
        (physical_value confirmation (motor_names op.group) false))
      c

-- The end of `sample_worker`.
unfoldable pub sample : Deferred → Call (Unit {0}) → Reading → Coordinator → Phase × Coordinator
sample d raises at c = fail d.operation at c
sample d (returns _) at c = if_current d.operation (reread d.operation) (λ e. (committing d, e)) c

-- `_promote_failed_enable`, and then `_fail_operation`.
unfoldable pub fail_enable :
    Deferred → Reading → Reading → Reading → Coordinator → Phase × Coordinator
fail_enable d at after last c =
    if_current d.operation (ends d.operation false)
      (λ e.
        promote d.operation.group d.actual false at (fail d.operation last)
          (λ f. fail d.operation last (
            note d.operation.group (fresh_report (some true) d.confirmation d.actual d.changed)
              after f))
          e)
      c

-- `sample_loop`, up to the restoration.
unfoldable pub commit :
    Deferred → Call (Unit {0}) → Reading → Reading → Reading → Coordinator → Phase × Coordinator
commit d call at after last c =
    if_current d.operation (ends d.operation false)
      (λ e. elim call [
        | raises ↦ fail_enable d at after last e
        | returns _ ↦ if_current d.operation (ends d.operation false) (λ f. (restoring d, f)) e
      ])
      c

-- The last section of `_finalize_enable` and of `_finalize_refresh`.
unfoldable pub finalize :
    Deferred → Option Bool → Reading → Reading → Coordinator → Phase × Coordinator
finalize d requested at after c =
    if_current d.operation (ends d.operation false)
      (λ e.
        promote d.operation.group d.actual true at (ends d.operation false)
          (λ f. ends d.operation true (
            note d.operation.group (fresh_report requested d.confirmation d.actual d.changed) after
              (with_group d.operation.group
                (record (f.groups d.operation.group) { body_policy = none; transition = idle }) f)))
          e)
      c

-- After the restoration of an enable. `restore_loop` may raise too.
unfoldable pub restore :
    Deferred
    → Call (Call (Unit {0}))
    → Reading
    → Reading
    → Reading
    → Coordinator
    → Phase × Coordinator
unfolding finalize
restore d raises at after last c = fail_enable d at after last c
restore d (returns adopted) at after last c =
    if_current d.operation (ends d.operation false)
      (λ e. elim adopted [
        | raises ↦ fail_enable d at after last e
        | returns _ ↦ finalize d (some true) at after e
      ])
      c

-- After the restoration of a refresh.
unfoldable pub refresh :
    Deferred → Call (Call (Unit {0})) → Reading → Reading → Coordinator → Phase × Coordinator
unfolding finalize
refresh d raises at after c = fail d.operation after (fail d.operation at c).1
refresh d (returns adopted) at after c =
    if_current d.operation (ends d.operation false)
      (λ e. elim adopted [
        | raises ↦ fail d.operation at e
        | returns _ ↦ finalize d none at after e
      ])
      c

-- The `finally` of `_run_reserved`.
unfoldable pub end : Operation → Coordinator → Phase × Coordinator
end op c =
    observed (λ d. (free, d))
      (λ d. (
        free,
        if (d.groups op.group).generation == op.generation
            then with_group op.group
                (record (d.groups op.group) { policy_capture_pending = false; transition = idle }) d
            else d,
      ))
      c
