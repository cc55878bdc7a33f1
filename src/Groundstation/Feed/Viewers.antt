-- ===== src/Groundstation/Feed/Viewers.antt =====
-- feed.py: what a viewer is shown, and what it waits for.
use reachy.Prelude.{ℕ, suc, ◌≤◌, ◌<◌, ◌≡◌, ◌⊎◌, inl, inr, ◌∙◌, true, false, some, arith}
use reachy.Link.Contract.{Bytes}
use reachy.Groundstation.Feed.{
  FeedRegistry, FeedFrame, shows, waits, enter_session, leave_session, publish, reserve_viewer,
  release_viewer, close, next_frame,
}
use reachy.Groundstation.Feed.Eligibility.{
  Step, enters, leaves, publishes, reserves, releases, closes, Reach, here, next,
}

-- What an answer to a viewer is made from.
record IsSame (r s : FeedRegistry) : Type 0 where
  sessions : s.sessions ≡ r.sessions
  payload : s.payload ≡ r.payload
  revision : s.revision ≡ r.revision
  closed : s.closed ≡ r.closed
  changed : s.changed ≡ r.changed

Step-changed : {r s : FeedRegistry} → Step r s → (r.changed < s.changed) ⊎ IsSame r s
unfolding enter_session leave_session publish reserve_viewer release_viewer close
Step-changed enters = ground arith
Step-changed (leaves h) = ground arith
Step-changed (publishes p) = ground arith
Step-changed reserves = ground arith
Step-changed (releases h) = ground arith
Step-changed closes = ground arith

Reach-changed : {r s : FeedRegistry} → Reach r s → (r.changed < s.changed) ⊎ IsSame r s
Reach-changed here = inr (ground arith)
Reach-changed (next p st) = ground (arith, Reach-changed p, Step-changed st)

next_frame-same :
    (r s : FeedRegistry) (after : ℕ) → IsSame r s → next_frame s after ≡ next_frame r after
unfolding next_frame
next_frame-same r s after same = ground arith

waits-changed : (r : FeedRegistry) (after g : ℕ) → next_frame r after ≡ waits g → g ≡ r.changed
unfolding next_frame
waits-changed r after g h = ground arith

-- A viewer that waits holds an event that is set by the time there is anything else to answer it:
-- wherever the feed goes from there, it either still has nothing for that viewer, with that very
-- event in place, or has moved on to a later event and so has set this one.
pub viewer_is_woken :
    (r s : FeedRegistry) (after event : ℕ)
    → next_frame r after ≡ waits event
    → Reach r s
    → (next_frame s after ≡ waits event) ⊎ (event < s.changed)
viewer_is_woken r s after event h p = elim (Reach-changed p) [
  | inl later ↦ inr (omega (arith, waits-changed r after event h))
  | inr same ↦ inl (next_frame-same r s after same ∙ h)
]

-- A frame that is shown is the payload retained, newer than the last one that viewer was sent, and
-- shown only while exactly one session is active and the feed is open.
shown_is_newest :
    (r : FeedRegistry) (after : ℕ) (f : FeedFrame)
    → next_frame r after ≡ shows f
    → (r.payload ≡ some f.payload)
      × (f.revision ≡ r.revision)
      × (after < f.revision)
      × (r.sessions ≡ 1)
      × (r.closed ≡ false)
unfolding next_frame
shown_is_newest r after f h = ground arith

-- A publication that is accepted is what every viewer that had seen nothing newer is shown next, under
-- the next revision, and then that viewer waits for another.
publication_is_shown :
    (r : FeedRegistry) (after : ℕ) (payload : Bytes)
    → (publish r payload).1 ≡ true
    → after ≤ r.revision
    → (next_frame (publish r payload).0 after
        ≡ shows (record { payload = payload; revision = suc r.revision }))
      × (next_frame (publish r payload).0 (suc r.revision) ≡ waits (suc r.changed))
unfolding next_frame publish
publication_is_shown r after payload h k = (ground arith, ground arith)
