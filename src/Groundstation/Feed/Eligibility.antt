-- ===== src/Groundstation/Feed/Eligibility.antt =====
-- feed.py: when the feed retains a payload, over every order of the calls of sessions, pipelines
-- and viewers.
use reachy.Prelude.{ℕ, ◌≤◌, ◌<◌, ◌≡◌, ◌≢◌, ◌↔◌, ◌⊎◌, true, false, none, arith, is_some}
use reachy.Link.Contract.{Bytes}
use reachy.Groundstation.Feed.{
  FeedRegistry, available, new, enter_session, leave_session, publish, availability, reserve_viewer,
  release_viewer, close,
}

-- A session leaves that entered, and a slot is given back that was taken.
pub data Step (r : FeedRegistry) : FeedRegistry → Type 0 where
  enters : Step r (enter_session r)
  leaves : 0 < r.sessions → Step r (leave_session r)
  publishes : (payload : Bytes) → Step r (publish r payload).0
  reserves : Step r (reserve_viewer r).0
  releases : 0 < r.viewers → Step r (release_viewer r)
  closes : Step r (close r)

pub data Reach (r : FeedRegistry) : FeedRegistry → Type 0 where
  here : Reach r r
  next : {s t : FeedRegistry} → Reach r s → Step s t → Reach r t

pub record IsEligible (r : FeedRegistry) : Type 0 where
  pub sole : is_some r.payload ≡ true → r.sessions ≡ 1
  pub serving : is_some r.payload ≡ true → r.closed ≡ false
  pub counted : is_some r.payload ≡ true → 0 < r.revision
  pub bounded : r.viewers ≤ r.viewer_limit

pub Step-IsEligible : {r s : FeedRegistry} → Step r s → IsEligible r → IsEligible s
unfolding enter_session leave_session publish reserve_viewer release_viewer close
Step-IsEligible enters v = ground arith
Step-IsEligible (leaves h) v = ground arith
Step-IsEligible (publishes p) v = ground arith
Step-IsEligible reserves v = ground arith
Step-IsEligible (releases h) v = ground arith
Step-IsEligible closes v = ground arith

Reach-IsEligible : {r s : FeedRegistry} → Reach r s → IsEligible r → IsEligible s
Reach-IsEligible here v = v
Reach-IsEligible (next p st) v = Step-IsEligible st (Reach-IsEligible p v)

new-IsEligible : (limit : ℕ) → IsEligible (new limit)
unfolding new
new-IsEligible limit = ground arith

-- Whatever sessions, pipelines and viewers do, in any order: a payload is retained only while exactly
-- one authenticated session is active, the feed is not closed and a publication was counted; no more
-- viewers hold a slot than the limit; and the feed answers that it is available exactly when a
-- payload is retained.
pub feed-IsEligible :
    (limit : ℕ) (r : FeedRegistry)
    → Reach (new limit) r
    → IsEligible r × ((availability r ≡ available) ↔ (is_some r.payload ≡ true))
unfolding availability
feed-IsEligible limit r p = let v = Reach-IsEligible p (new-IsEligible limit) in (v, ground arith)

-- Whenever a session begins or ends, in any reachable state, the payload is gone afterwards and the
-- feed is not available: a session shows only what it supplies itself once it is alone.
pub session_change_forgets :
    (limit : ℕ) (r s : FeedRegistry)
    → Reach (new limit) r
    → ((s ≡ enter_session r) ⊎ ((0 < r.sessions) × (s ≡ leave_session r)))
    → (s.payload ≡ none) × (availability s ≢ available)
unfolding availability enter_session leave_session
session_change_forgets limit r s p h =
    let v = Reach-IsEligible p (new-IsEligible limit) in ground arith
