-- ===== src/Groundstation/Queue/Newest.antt =====
-- pipeline/queue.py: what `put` keeps and what it drops.
use mathlib.Core.List.{Sublist}
use mathlib.Core.List.Sublist
use reachy.Prelude.{
  ℕ, zero, suc, ◌+◌, ◌-◌, ◌≤◌, ◌<◌, ◌≡◌, refl, ap, List, [], ◌∷◌, ◌++◌, length, length-append,
  length-drop, drop, arith, leb, if◌then◌else◌, true, if-cases, Bool-cases, inl, inr, true,
}
use reachy.Groundstation.Queue.{QueuedFrame, FrameQueue, evict, put}

-- A queue as `put` finds it: its bound holds at least one frame and is not exceeded.
pub record IsBounded (q : FrameQueue) : Type 0 where
  pub holds : 0 < q.bound
  pub within : length q.items ≤ q.bound

module _ {ℓ} {A : Type ℓ} where
  drop_none : (n : ℕ) (xs : List A) → n ≡ 0 → drop n xs ≡ xs
  drop_none zero xs h = refl
  drop_none (suc n) xs h = absurd (omega arith)

  drop_one_more : (m n : ℕ) (x : A) (xs : List A) → m ≡ suc n → drop m (x ∷ xs) ≡ drop n xs
  drop_one_more m n x xs h = rw h

  drop-append_within :
      (n : ℕ) (xs ys : List A) → n ≤ length xs → drop n xs ++ ys ≡ drop n (xs ++ ys)
  drop-append_within zero xs ys h = refl
  drop-append_within (suc n) [] ys h = absurd (omega arith)
  drop-append_within (suc n) (x ∷ xs) ys h = drop-append_within n xs ys (omega arith)

  pub drop-sublist : (n : ℕ) (xs : List A) → Sublist (drop n xs) xs
  drop-sublist zero xs = Sublist.refl xs
  drop-sublist (suc n) [] = Sublist.refl []
  drop-sublist (suc n) (x ∷ xs) = Sublist.cons x (drop-sublist n xs)

-- The loop leaves the newest `bound - 1` frames and adds the others to its count.
evict-drop :
    (bound : ℕ) (fs : List QueuedFrame) (d : ℕ)
    → 0 < bound
    → evict bound fs d ≡ (drop (suc (length fs) - bound) fs, d + (suc (length fs) - bound))
unfolding evict
evict-drop bound [] d h = let none_out : 1 - bound ≡ 0 = omega arith in rw none_out (ground arith)
evict-drop bound (f ∷ fs) d h = elim (Bool-cases (leb bound (suc (length fs)))) [
  | inl full ↦
      let left : suc (suc (length fs)) - bound ≡ suc (suc (length fs) - bound) = ground arith in
      rw (full, left, evict-drop bound fs (suc d) h) (ground arith)
  | inr room ↦
      let left : suc (suc (length fs)) - bound ≡ 0 = ground arith in rw (room, left) (ground arith)
]

-- The loop splits what waited: the oldest, which it counts, and those that it leaves.
evict_splits :
    (bound : ℕ) (fs : List QueuedFrame) (d : ℕ)
    → (lost : List QueuedFrame) × (fs ≡ lost ++ (evict bound fs d).0)
      × ((evict bound fs d).1 ≡ d + length lost)
unfolding evict
evict_splits bound [] d = ([], refl, omega arith)
evict_splits bound (f ∷ fs) d =
    let (lost, e, n) = evict_splits bound fs (suc d) in
    if-cases (λ r. (lost : List QueuedFrame) × (f ∷ fs ≡ lost ++ r.0) × (r.1 ≡ d + length lost))
      (leb bound (suc (length fs))) (evict bound fs (suc d)) (f ∷ fs, d)
      (λ t. (f ∷ lost, ap (λ xs. f ∷ xs) e, omega (arith, n))) (λ t. ([], refl, omega arith))

-- `put` leaves the newest of those that waited, counts the others, and adds the frame behind.
pub put_splits :
    (q : FrameQueue) (f : QueuedFrame)
    → (lost : List QueuedFrame) × (kept : List QueuedFrame) × (q.items ≡ lost ++ kept)
      × (put q f ≡ (record q { items = kept ++ f ∷ []; arrived = true }, length lost))
unfolding put
put_splits q f =
    let (lost, e, n) = evict_splits q.bound q.items 0 in
    let kept = (evict q.bound q.items 0).0 in
    let counted : (evict q.bound q.items 0).1 ≡ length lost = omega (arith, n) in
    (lost, kept, e, ap (λ d. (record q { items = kept ++ f ∷ []; arrived = true }, d)) counted)

-- `put` on a queue within its bound of at least one leaves the newest `bound` frames of those that
-- waited with the new one behind them, in their order, and returns how many it dropped, which is
-- one if the queue was at its bound and zero otherwise. The event is set, and the bound still
-- holds.
pub put_keeps_newest :
    (q : FrameQueue) (f : QueuedFrame)
    → IsBounded q
    → ((put q f).0.items ≡ drop (length (q.items ++ f ∷ []) - q.bound) (q.items ++ f ∷ []))
      × ((put q f).1 ≡ (if leb q.bound (length q.items) then 1 else 0))
      × ((put q f).0.arrived ≡ true)
      × IsBounded (put q f).0
unfolding put
put_keeps_newest q f b =
    let over : ℕ = suc (length q.items) - q.bound in
    let same : length (q.items ++ f ∷ []) - q.bound ≡ over =
      omega (arith, length-append q.items (f ∷ [])) in
    let fewer : over ≤ length q.items = omega (arith, b) in
    let kept = drop-append_within over q.items (f ∷ []) fewer in
    let count = length-append (drop over q.items) (f ∷ []) in
    let size = length-drop over q.items in
    rw (evict-drop q.bound q.items 0 b.holds, same)
      (kept, ground arith, refl, record { holds = b.holds; within = ground arith })

-- What `put` says it dropped and what it leaves are all that waited and the new frame.
pub put_accounts :
    (q : FrameQueue) (f : QueuedFrame)
    → IsBounded q
    → (put q f).1 + length (put q f).0.items ≡ suc (length q.items)
unfolding put
put_accounts q f b =
    let over : ℕ = suc (length q.items) - q.bound in
    let count = length-append (drop over q.items) (f ∷ []) in
    let size = length-drop over q.items in rw (evict-drop q.bound q.items 0 b.holds) (ground arith)
