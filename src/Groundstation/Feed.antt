-- ===== src/Groundstation/Feed.antt =====
-- services/groundstation/src/reachy_groundstation/feed.py: the one live frame of the operator stream.
pub mod Eligibility
pub mod Viewers
use reachy.Prelude.{
  ℕ, suc, ◌-◌, ◌+◌, Bool, true, false, ◌||◌, not, Option, none, some, ltb, leb, ◌==◌, if◌then◌else◌,
  is_none,
}
use reachy.Link.Contract.{Bytes}

abbrev pub max_viewers : ℕ
max_viewers = 4

pub data FeedAvailability : Type 0 where
  available no_eligible_session ambiguous_sessions : FeedAvailability

pub record FeedFrame : Type 0 where
  pub payload : Bytes
  pub revision : ℕ

-- `changed` numbers the event that waiting viewers hold: setting it and putting a new one in its
-- place is one more.
pub record FeedRegistry : Type 0 where
  pub viewer_limit : ℕ
  pub sessions : ℕ
  pub viewers : ℕ
  pub payload : Option Bytes
  pub revision : ℕ
  pub closed : Bool
  pub changed : ℕ

unfoldable pub new : ℕ → FeedRegistry
new limit = record {
  viewer_limit = limit;
  sessions = 0;
  viewers = 0;
  payload = none;
  revision = 0;
  closed = false;
  changed = 0;
}

unfoldable pub wake : FeedRegistry → FeedRegistry
wake r = record r { changed = suc r.changed }

unfoldable pub settle : FeedRegistry → FeedRegistry
unfolding wake
settle r = wake (record r { payload = if r.sessions == 1 then r.payload else none })

-- The two halves of the context manager `authenticated_session`.
unfoldable pub enter_session : FeedRegistry → FeedRegistry
unfolding settle
enter_session r = settle (record r { sessions = suc r.sessions })

unfoldable pub leave_session : FeedRegistry → FeedRegistry
unfolding settle
leave_session r = settle (record r { sessions = r.sessions - 1 })

unfoldable pub publish : FeedRegistry → Bytes → FeedRegistry × Bool
unfolding wake
publish r payload =
    if r.closed || not (r.sessions == 1)
    then (r, false)
    else (wake (record r { revision = suc r.revision; payload = some payload }), true)

unfoldable pub availability : FeedRegistry → FeedAvailability
availability r =
    if ltb 1 r.sessions
    then ambiguous_sessions
    else if r.closed || (not (r.sessions == 1) || is_none r.payload)
    then no_eligible_session
    else available

unfoldable pub at_capacity : FeedRegistry → Bool
at_capacity r = leb r.viewer_limit r.viewers

unfoldable pub reserve_viewer : FeedRegistry → FeedRegistry × Bool
unfolding at_capacity
reserve_viewer r =
    if at_capacity r then (r, false) else (record r { viewers = suc r.viewers }, true)

-- Called once for each slot that was taken.
unfoldable pub release_viewer : FeedRegistry → FeedRegistry
release_viewer r = record r { viewers = r.viewers - 1 }

-- One lap of the loop of `next_frame`: it returns, or it waits on the event of a number.
pub data Lap : Type 0 where
  finished : Lap
  shows : FeedFrame → Lap
  waits : ℕ → Lap

newer : Option Bytes → FeedRegistry → ℕ → Lap
newer none r after = waits r.changed
newer (some payload) r after =
    if ltb after r.revision
    then shows (record { payload = payload; revision = r.revision })
    else waits r.changed

unfoldable pub next_frame : FeedRegistry → ℕ → Lap
unfolding newer
next_frame r after = if r.closed || not (r.sessions == 1) then finished else newer r.payload r after

unfoldable pub close : FeedRegistry → FeedRegistry
unfolding wake
close r = wake (record r { closed = true; payload = none })
