-- ===== src/Satellite/Perception.antt =====
-- apps/ha-satellite/src/reachy_mini_ha_satellite/adapters/perception_source.py: which detector answers.
-- What the two sources do is an argument: whether the session is up, and how each of their calls ends.
pub mod Fallback
use reachy.Prelude.{
  ℕ, ◌-◌, String, List, [], ◌∷◌, ◌++◌, Bool, true, false, not, Option, none, some, Result, ok, err,
  ltb, if◌then◌else◌,
}

unfoldable pub default_recovery_seconds : ℕ
default_recovery_seconds = 5000

-- A call of a source.
pub data SourceCall : Type 0 where
  start_remote start_local close_remote close_local : SourceCall

-- `calls` is what has been called of the sources, in order.
pub record FallbackPerception : Type 0 where
  pub recovery_seconds : ℕ
  pub local_running : Bool
  pub connected_since : Option ℕ
  pub watch : Bool
  pub calls : List SourceCall

unfoldable pub new : ℕ → FallbackPerception
new recovery_seconds = record {
  recovery_seconds = recovery_seconds;
  local_running = false;
  connected_since = none;
  watch = false;
  calls = [];
}

-- How a call of a source ends.
pub data Call : Type 0 where
  returns : Call
  raises : String → Call

-- A method that may raise.
abbrev pub Done : Type 0
Done = Result String (Unit {0}) × FallbackPerception

unfoldable pub called : SourceCall → FallbackPerception → FallbackPerception
called call p = record p { calls = p.calls ++ call ∷ [] }

unfoldable pub start_after : Call → FallbackPerception → Done
start_after returns p = (ok tt, record p { watch = true })
start_after (raises e) p = (err e, p)

unfoldable pub start : Call → FallbackPerception → Done
start remote p = if p.watch then (ok tt, p) else start_after remote (called start_remote p)

unfoldable pub latest : {A : Type 0} → Bool → A → A → A
latest connected remote local = if connected then remote else local

-- `aclose`, with the ends of the two closings.
unfoldable pub close_local_after : Call → FallbackPerception → Done
close_local_after returns p = (ok tt, p)
close_local_after (raises e) p = (err e, p)

unfoldable pub aclose_after : Call → Call → FallbackPerception → Done
aclose_after (raises e) local p = (err e, p)
aclose_after returns local p =
    if p.local_running
    then close_local_after local (called close_local (record p { local_running = false }))
    else (ok tt, p)

unfoldable pub aclose : Call → Call → FallbackPerception → Done
aclose remote local p = aclose_after remote local (called close_remote (record p { watch = false }))

-- `check`, with the session's state, the two readings of the clock, and the end of the call of the local
-- detector that it makes, if any.
unfoldable pub start_local_after : Call → FallbackPerception → Done
start_local_after returns p = (ok tt, record p { local_running = true })
start_local_after (raises e) p = (err e, p)

unfoldable pub check_lost : Call → FallbackPerception → Done
check_lost local p =
    if p.local_running then (ok tt, p) else start_local_after local (called start_local p)

unfoldable pub since_or : ℕ → Option ℕ → ℕ
since_or now none = now
since_or now (some since) = since

unfoldable pub check_recovered : ℕ → ℕ → Call → FallbackPerception → Done
check_recovered now since local p =
    if not p.local_running
    then (ok tt, p)
    else if ltb (now - since) p.recovery_seconds
    then (ok tt, p)
    else close_local_after local (called close_local (record p { local_running = false }))

unfoldable pub check : Bool → ℕ → ℕ → Call → FallbackPerception → Done
check connected first now local p =
    if not connected
    then check_lost local (record p { connected_since = none })
    else check_recovered now (since_or first p.connected_since) local
        (record p { connected_since = some (since_or first p.connected_since) })

-- A turn of `_supervise`, which logs a failure and goes on.
unfoldable pub turn : Bool → ℕ → ℕ → Call → FallbackPerception → FallbackPerception
turn connected first now local p = (check connected first now local p).1

pub data SourceSelection : Type 0 where
  remote local remote_with_local_fallback : SourceSelection

pub data Perception (A : Type 0) : Type 0 where
  only : A → Perception A
  fallback : A → A → Perception A

pub data Missing : Type 0 where
  needs_local needs_groundstation : Missing

unfoldable pub build_local : {A : Type 0} → Option A → Result Missing (Perception A)
build_local none = err needs_local
build_local (some l) = ok (only l)

unfoldable pub build_remote :
    {A : Type 0} → SourceSelection → Option A → Option A → Result Missing (Perception A)
build_remote selection none l = err needs_groundstation
build_remote SourceSelection.remote (some r) l = ok (only r)
build_remote _ (some r) none = err needs_local
build_remote _ (some r) (some l) = ok (fallback r l)

unfoldable pub build_perception :
    {A : Type 0} → SourceSelection → Option A → Option A → Result Missing (Perception A)
build_perception SourceSelection.local r l = build_local l
build_perception selection r l = build_remote selection r l
