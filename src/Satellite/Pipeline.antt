-- ===== src/Satellite/Pipeline.antt =====
-- apps/ha-satellite/src/reachy_mini_ha_satellite/behaviour/pipeline.py: the voice pipeline as a state
-- machine. A reading of the caller's clock is a whole number of milliseconds.
pub mod Shown
use reachy.Prelude.{
  ℕ, ◌-◌, Bool, true, false, not, ◌&&◌, ◌||◌, Option, none, some, ltb, if◌then◌else◌,
}

-- `ERROR_SECONDS`.
unfoldable pub error_seconds : ℕ
error_seconds = 1500

pub data PipelineEvent : Type 0 where
  wake_word_detected listening processing responding response_finished error idle muted unmuted
        disconnected :
      PipelineEvent

pub data PipelineState : Type 0 where
  idle listening processing responding error muted disconnected : PipelineState

-- `_NEXT_STATE`.
unfoldable pub next_state : PipelineEvent → PipelineState
next_state PipelineEvent.wake_word_detected = PipelineState.listening
next_state PipelineEvent.listening = PipelineState.listening
next_state PipelineEvent.processing = PipelineState.processing
next_state PipelineEvent.responding = PipelineState.responding
next_state PipelineEvent.response_finished = PipelineState.idle
next_state PipelineEvent.error = PipelineState.error
next_state PipelineEvent.idle = PipelineState.idle
next_state PipelineEvent.muted = PipelineState.muted
next_state PipelineEvent.unmuted = PipelineState.idle
next_state PipelineEvent.disconnected = PipelineState.disconnected

-- `_HONOURED_WHILE_MUTED`.
unfoldable pub honoured_while_muted : PipelineEvent → Bool
honoured_while_muted PipelineEvent.unmuted = true
honoured_while_muted PipelineEvent.disconnected = true
honoured_while_muted _ = false

unfoldable pub is_muted : PipelineState → Bool
is_muted PipelineState.muted = true
is_muted _ = false

unfoldable pub is_disconnected : PipelineState → Bool
is_disconnected PipelineState.disconnected = true
is_disconnected _ = false

unfoldable pub is_error : PipelineState → Bool
is_error PipelineState.error = true
is_error _ = false

-- `is`, on the states.
unfoldable pub same_state : PipelineState → PipelineState → Bool
same_state PipelineState.idle PipelineState.idle = true
same_state PipelineState.listening PipelineState.listening = true
same_state PipelineState.processing PipelineState.processing = true
same_state PipelineState.responding PipelineState.responding = true
same_state PipelineState.error PipelineState.error = true
same_state PipelineState.muted PipelineState.muted = true
same_state PipelineState.disconnected PipelineState.disconnected = true
same_state _ _ = false

pub record Transition : Type 0 where
  pub previous : PipelineState
  pub current : PipelineState
  pub changed : Bool
  pub ignored : Bool

pub record PipelineMachine : Type 0 where
  pub state : PipelineState
  pub entered_at : ℕ
  pub muted_underneath : Bool

unfoldable pub new : ℕ → PipelineMachine
new now = record { state = PipelineState.idle; entered_at = now; muted_underneath = false }

unfoldable pub elapsed : ℕ → PipelineMachine → ℕ
elapsed now m = now - m.entered_at

-- What the event leaves of the mute underneath.
unfoldable pub underneath : PipelineEvent → PipelineMachine → Bool
underneath PipelineEvent.unmuted m = false
underneath PipelineEvent.disconnected m = is_muted m.state || m.muted_underneath
underneath _ m = m.muted_underneath

unfoldable pub moved_to : PipelineState → Bool → PipelineEvent → PipelineState
moved_to previous mute event =
    if is_disconnected previous && (mute && not (is_disconnected (next_state event)))
    then PipelineState.muted
    else next_state event

unfoldable pub moved : PipelineState → Bool → ℕ → PipelineMachine → Transition × PipelineMachine
moved current mute now m = (
  record {
    previous = m.state;
    current = current;
    changed = not (same_state current m.state);
    ignored = false;
  },
  if same_state current m.state
      then record m { muted_underneath = mute }
      else record { state = current; entered_at = now; muted_underneath = mute },
)

unfoldable pub handle : PipelineEvent → ℕ → PipelineMachine → Transition × PipelineMachine
handle event now m =
    if is_muted m.state && not (honoured_while_muted event)
    then (record { previous = m.state; current = m.state; changed = false; ignored = true }, m)
    else moved (moved_to m.state (underneath event m) event) (underneath event m) now m

unfoldable pub tick : ℕ → PipelineMachine → Option Transition × PipelineMachine
tick now m =
    if not (is_error m.state)
    then (none, m)
    else if ltb (elapsed now m) error_seconds
    then (none, m)
    else (
      some (record {
        previous = m.state;
        current = PipelineState.idle;
        changed = true;
        ignored = false;
      }),
      record m { state = PipelineState.idle; entered_at = now },
    )
