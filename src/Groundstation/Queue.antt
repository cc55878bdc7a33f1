-- ===== src/Groundstation/Queue.antt =====
-- services/groundstation/src/reachy_groundstation/pipeline/queue.py: the bounded queue of a session.
pub mod Newest
pub mod Runs
use reachy.Prelude.{
  ℕ, suc, Bool, true, false, List, [], ◌∷◌, ◌++◌, length, ltb, leb, if◌then◌else◌, Result, ok, err,
  ◌≡◌, refl, inl, inr, Bool-cases, arith,
}
use reachy.Link.Contract.{Bytes, FrameHeader}

-- One frame waiting to be processed. `received_at` is a reading of the local monotonic clock.
pub record QueuedFrame : Type 0 where
  pub header : FrameHeader
  pub payload : Bytes
  pub received_at : ℕ

pub record FrameQueue : Type 0 where
  pub bound : ℕ
  pub items : List QueuedFrame
  pub arrived : Bool
  pub closed : Bool

-- `ValueError`: a bound below one would hold nothing.
pub data BoundError : Type 0 where
  would_hold_nothing : ℕ → BoundError

unfoldable pub new : ℕ → Result BoundError FrameQueue
new bound =
    if ltb bound 1
    then err (would_hold_nothing bound)
    else ok (record { bound = bound; items = []; arrived = false; closed = false })

-- The loop of `put`: drop the oldest while there is no room, counting what was dropped.
unfoldable pub evict : ℕ → List QueuedFrame → ℕ → List QueuedFrame × ℕ
evict bound [] dropped = ([], dropped)
evict bound (f ∷ fs) dropped =
    let rest = evict bound fs (suc dropped) in
    if leb bound (length (f ∷ fs)) then rest else (f ∷ fs, dropped)

unfoldable pub put : FrameQueue → QueuedFrame → FrameQueue × ℕ
put q frame =
    let (kept, dropped) = evict q.bound q.items 0 in
    (record q { items = kept ++ frame ∷ []; arrived = true }, dropped)

-- One lap of the loop of `get`, up to its `return`, its `raise` or its `await`.
pub data Lap : Type 0 where
  took : QueuedFrame → FrameQueue → Lap
  raised : Lap
  waits : FrameQueue → Lap

get_from : List QueuedFrame → FrameQueue → Lap
get_from (f ∷ fs) q = took f (record q { items = fs })
get_from [] q = if q.closed then raised else waits (record q { arrived = false })

unfoldable pub get : FrameQueue → Lap
unfolding get_from
get q = get_from q.items q

unfoldable pub close : FrameQueue → FrameQueue
close q = record q { closed = true; arrived = true }

-- What a lap finds.
pub data Found (q : FrameQueue) : Type 0 where
  oldest :
      (f : QueuedFrame) (fs : List QueuedFrame)
      → q.items ≡ f ∷ fs
      → get q ≡ took f (record q { items = fs })
      → Found q
  ended : q.items ≡ [] → q.closed ≡ true → get q ≡ raised → Found q
  empty : q.items ≡ [] → q.closed ≡ false → get q ≡ waits (record q { arrived = false }) → Found q

in-Found : (q : FrameQueue) (fs : List QueuedFrame) → q.items ≡ fs → Found q
unfolding get
in-Found q [] e = elim (Bool-cases q.closed) [
  | inl over ↦ ended e over (ground arith)
  | inr still ↦ empty e still (ground arith)
]
in-Found q (f ∷ fs) e = oldest f fs e (rw (e, get_from))

pub get-Found : (q : FrameQueue) → Found q
get-Found q = in-Found q q.items refl

pub get-took :
    (q : FrameQueue) (f : QueuedFrame) (fs : List QueuedFrame)
    → q.items ≡ f ∷ fs
    → get q ≡ took f (record q { items = fs })
unfolding get
get-took q f fs e = rw (e, get_from) refl

pub get-raised : (q : FrameQueue) → q.items ≡ [] → q.closed ≡ true → get q ≡ raised
unfolding get
get-raised q e over = ground arith
