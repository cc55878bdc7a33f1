-- ===== src/Satellite/DaemonLink.antt =====
-- apps/ha-satellite/src/reachy_mini_ha_satellite/daemon_link.py: whether the daemon takes commands.
pub mod Counts
use reachy.Prelude.{ℕ, ◌+◌, String, Bool, true, false, Result, ok, err, leb, if◌then◌else◌}

unfoldable pub counter_limit : ℕ
counter_limit = 9999

pub data DaemonLinkState : Type 0 where
  up down : DaemonLinkState

pub record DaemonLink : Type 0 where
  pub state : DaemonLinkState
  pub outages : ℕ
  pub refused_calls : ℕ

unfoldable pub new : DaemonLink
new = record { state = up; outages = 0; refused_calls = 0 }

unfoldable pub is_down : DaemonLinkState → Bool
is_down up = false
is_down down = true

-- `min(... + 1, COUNTER_LIMIT)`.
unfoldable pub count_one : ℕ → ℕ
count_one n = if leb (n + 1) counter_limit then n + 1 else counter_limit

-- Whether the call brought the link back.
unfoldable pub record_success : DaemonLink → Bool × DaemonLink
record_success link = (is_down link.state, record link { state = up })

unfoldable pub outages_after : DaemonLinkState → ℕ → ℕ
outages_after up n = count_one n
outages_after down n = n

-- Whether the call took the link down.
unfoldable pub record_failure : DaemonLink → Bool × DaemonLink
record_failure link = (
  (if is_down link.state then false else true),
  record {
    state = down;
    outages = outages_after link.state link.outages;
    refused_calls = count_one link.refused_calls;
  },
)

-- What a call of the daemon does: it returns, it raises one of `DAEMON_LINK_ERRORS`, or it raises
-- another exception.
pub data DaemonCall (A : Type 0) : Type 0 where
  returns : A → DaemonCall A
  refuses : String → DaemonCall A
  raises : String → DaemonCall A

unfoldable pub attempt_daemon_call :
    DaemonCall (Unit {0}) → DaemonLink → Result String Bool × DaemonLink
attempt_daemon_call (returns _) link = (ok true, (record_success link).1)
attempt_daemon_call (refuses _) link = (ok false, (record_failure link).1)
attempt_daemon_call (raises e) link = (err e, link)

unfoldable pub report_daemon_call :
    {A : Type 0} → DaemonCall A → DaemonLink → Result String A × DaemonLink
report_daemon_call (returns a) link = (ok a, (record_success link).1)
report_daemon_call (refuses e) link = (err e, (record_failure link).1)
report_daemon_call (raises e) link = (err e, link)
