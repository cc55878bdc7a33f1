-- ===== src/Satellite/Pipeline/Shown.antt =====
-- pipeline.py of ha-satellite: what the robot is to show, by two facts and an exchange: the microphone
-- is off, Home Assistant is gone, and what the exchange has come to, which nobody sees behind them.
use reachy.Prelude.{
  ℕ, ◌-◌, ◌≡◌, refl, List, [], ◌∷◌, Bool, true, false, not, ◌&&◌, ltb, arith, if◌then◌else◌,
}
use reachy.Satellite.Pipeline.{
  PipelineEvent, PipelineState, PipelineMachine, error_seconds, next_state, honoured_while_muted,
  is_muted, is_disconnected, is_error, same_state, new, elapsed, underneath, moved_to, moved,
  handle, tick,
}

-- `exchange` is neither muted nor disconnected; `since` is when what is shown last changed.
pub record Facts : Type 0 where
  pub off : Bool
  pub gone : Bool
  pub exchange : PipelineState
  pub since : ℕ

unfoldable pub shown : Facts → PipelineState
shown f =
    if f.gone then PipelineState.disconnected else if f.off then PipelineState.muted else f.exchange

-- What an event says of the exchange, unless the microphone is off.
unfoldable pub exchanged : Bool → PipelineEvent → PipelineState → PipelineState
exchanged true event exchange = exchange
exchanged false event exchange = next_state event

unfoldable pub told : PipelineEvent → Facts → Facts
told PipelineEvent.muted f = record f { off = true; gone = false }
told PipelineEvent.unmuted f = record f { off = false; gone = false; exchange = PipelineState.idle }
told PipelineEvent.disconnected f = record f { gone = true }
told event f = record f { gone = false; exchange = exchanged f.off event f.exchange }

-- An error that has been shown for `error_seconds` is over.
unfoldable pub passed : ℕ → Facts → Facts
passed now f =
    if is_error (shown f) && not (ltb (now - f.since) error_seconds)
    then record f { exchange = PipelineState.idle }
    else f

-- The time of what is shown.
unfoldable pub dated : ℕ → Facts → Facts → Facts
dated now before after =
    if same_state (shown after) (shown before) then after else record after { since = now }

pub data Input : Type 0 where
  handles : PipelineEvent → Input
  ticks : Input

unfoldable pub fact_step : ℕ → Input → Facts → Facts
fact_step now (handles event) f = dated now f (told event f)
fact_step now ticks f = dated now f (passed now f)

unfoldable pub machine_step : ℕ → Input → PipelineMachine → PipelineMachine
machine_step now (handles event) m = (handle event now m).1
machine_step now ticks m = (tick now m).1

-- The inputs, each with the clock's reading.
unfoldable pub fact_run : List (ℕ × Input) → Facts → Facts
fact_run [] f = f
fact_run ((now, input) ∷ inputs) f = fact_run inputs (fact_step now input f)

unfoldable pub machine_run : List (ℕ × Input) → PipelineMachine → PipelineMachine
machine_run [] m = m
machine_run ((now, input) ∷ inputs) m = machine_run inputs (machine_step now input m)

abbrev pub no_facts : ℕ → Facts
no_facts now = record { off = false; gone = false; exchange = PipelineState.idle; since = now }

-- The machine is in the state that the facts show.
pub record Shows (m : PipelineMachine) (f : Facts) : Type 0 where
  pub state : m.state ≡ shown f
  pub entered_at : m.entered_at ≡ f.since
  pub covered : f.gone ≡ true → m.muted_underneath ≡ f.off
  pub kept : m.muted_underneath ≡ true → f.off ≡ true
  pub seen : (is_muted f.exchange ≡ false) × (is_disconnected f.exchange ≡ false)

handle-Shows :
    (event : PipelineEvent) (now : ℕ) (m : PipelineMachine) (f : Facts)
    → Shows m f
    → Shows (handle event now m).1 (dated now f (told event f))
unfolding handle moved moved_to underneath shown told dated exchanged next_state
    honoured_while_muted is_muted is_disconnected same_state
handle-Shows event now m f s =
    let state = s.state in
    let at = s.entered_at in
    let covered = s.covered in
    let kept = s.kept in
    let (muted, gone) = s.seen in
    record {
      state = ground arith;
      entered_at = ground arith;
      covered = λ g. ground arith;
      kept = λ u. ground arith;
      seen = (ground arith, ground arith);
    }

tick-Shows :
    (now : ℕ) (m : PipelineMachine) (f : Facts)
    → Shows m f
    → Shows (tick now m).1 (dated now f (passed now f))
unfolding tick elapsed error_seconds shown passed dated is_error is_muted is_disconnected same_state
tick-Shows now m f s =
    let state = s.state in
    let at = s.entered_at in
    let covered = s.covered in
    let kept = s.kept in
    let (muted, gone) = s.seen in
    record {
      state = ground arith;
      entered_at = ground arith;
      covered = λ g. ground arith;
      kept = λ u. ground arith;
      seen = (ground arith, ground arith);
    }

step-Shows :
    (now : ℕ) (input : Input) (m : PipelineMachine) (f : Facts)
    → Shows m f
    → Shows (machine_step now input m) (fact_step now input f)
unfolding machine_step fact_step
step-Shows now (handles event) m f s = handle-Shows event now m f s
step-Shows now ticks m f s = tick-Shows now m f s

run-Shows :
    (inputs : List (ℕ × Input)) (m : PipelineMachine) (f : Facts)
    → Shows m f
    → Shows (machine_run inputs m) (fact_run inputs f)
unfolding machine_run fact_run
run-Shows [] m f s = s
run-Shows ((now, input) ∷ inputs) m f s = run-Shows inputs _ _ (step-Shows now input m f s)

new-Shows : (now : ℕ) → Shows (new now) (no_facts now)
unfolding new shown is_muted is_disconnected
new-Shows now = record {
  state = refl;
  entered_at = refl;
  covered = λ g. cc;
  kept = λ u. cc;
  seen = (refl, refl);
}

-- After any events and ticks, at any readings of the clock, the machine is in the state that the facts
-- show, and entered it when what they show last changed: disconnected from when Home Assistant went away
-- until the next event, otherwise muted from when the microphone was switched off until it is switched
-- on, whether or not Home Assistant went away meanwhile, and otherwise what the last event with the
-- microphone on says, where a tick ends an error that has been shown for `error_seconds`.
pub pipeline_refines :
    (inputs : List (ℕ × Input)) (start : ℕ)
    → ((machine_run inputs (new start)).state ≡ shown (fact_run inputs (no_facts start)))
      × ((machine_run inputs (new start)).entered_at ≡ (fact_run inputs (no_facts start)).since)
pipeline_refines inputs start =
    let s = run-Shows inputs (new start) (no_facts start) (new-Shows start) in
    (s.state, s.entered_at)
