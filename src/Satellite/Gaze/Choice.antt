-- ===== src/Satellite/Gaze/Choice.antt =====
-- tracking.py of ha-satellite: the choice of a face, whatever the order in which the detector lists them.
use reachy.Prelude.{
  ℕ, ◌+◌, ◌≡◌, refl, sym, ap, subst, All, ℤ, pos, negsuc, pos_part, neg_part, List, [], ◌∷◌, Bool,
  true, false, not, ◌&&◌, ◌||◌, Option, none, some, ◌==◌, ltb, arith, if◌then◌else◌,
}
use mathlib.Core.List.{Memᴰ}
use reachy.Link.Contract.{FaceDetection}
use reachy.Satellite.Gaze.{
  Detections, GazeSelector, Identity, identity, accept, face_of, is_behind, is_at, is_elsewhere,
  is_stale, current_or_unknown, select_stale, select_fresh, select_known, select_as, selected,
  select, Key, lt_ℤ, eq_ℤ, lt_key, least, min, Hypot, initial_key, choose_face, distance,
  associated_key, associated_face, association_limit,
}

-- On the parts of integers: no less than, in a rising and in a falling order.
rising_parts :
    (p p' q q' r r' : ℕ) (a b c : Bool)
    → (a ≡ false → b ≡ false → c ≡ false)
    → (ltb (p + q') (q + p') || (p + q' == q + p' && a)) ≡ false
    → (ltb (q + r') (r + q') || (q + r' == r + q' && b)) ≡ false
    → (ltb (p + r') (r + p') || (p + r' == r + p' && c)) ≡ false
rising_parts p p' q q' r r' a b c rest x y = ground arith

falling_parts :
    (p p' q q' r r' : ℕ) (a b c : Bool)
    → (a ≡ false → b ≡ false → c ≡ false)
    → (ltb (q + p') (p + q') || (p + q' == q + p' && a)) ≡ false
    → (ltb (r + q') (q + r') || (q + r' == r + q' && b)) ≡ false
    → (ltb (r + p') (p + r') || (p + r' == r + p' && c)) ≡ false
falling_parts p p' q q' r r' a b c rest x y = ground arith

eq_ℤ_lem : (a b : ℤ) → pos_part a + neg_part b ≡ pos_part b + neg_part a → a ≡ b
eq_ℤ_lem (pos m) (pos n) e = ap pos (omega arith)
eq_ℤ_lem (pos m) (negsuc n) e = ground arith
eq_ℤ_lem (negsuc m) (pos n) e = ground arith
eq_ℤ_lem (negsuc m) (negsuc n) e = ap negsuc (omega arith)

rising_ℕ :
    (m n o : ℕ) (a b c : Bool)
    → (a ≡ false → b ≡ false → c ≡ false)
    → (ltb m n || (m == n && a)) ≡ false
    → (ltb n o || (n == o && b)) ≡ false
    → (ltb m o || (m == o && c)) ≡ false
rising_ℕ m n o a b c rest p q = ground arith

rising_ℤ :
    (x y z : ℤ) (a b c : Bool)
    → (a ≡ false → b ≡ false → c ≡ false)
    → (lt_ℤ x y || (eq_ℤ x y && a)) ≡ false
    → (lt_ℤ y z || (eq_ℤ y z && b)) ≡ false
    → (lt_ℤ x z || (eq_ℤ x z && c)) ≡ false
unfolding lt_ℤ eq_ℤ
rising_ℤ x y z =
    rising_parts (pos_part x) (neg_part x) (pos_part y) (neg_part y) (pos_part z) (neg_part z)

falling_ℤ :
    (x y z : ℤ) (a b c : Bool)
    → (a ≡ false → b ≡ false → c ≡ false)
    → (lt_ℤ y x || (eq_ℤ x y && a)) ≡ false
    → (lt_ℤ z y || (eq_ℤ y z && b)) ≡ false
    → (lt_ℤ z x || (eq_ℤ x z && c)) ≡ false
unfolding lt_ℤ eq_ℤ
falling_ℤ x y z =
    falling_parts (pos_part x) (neg_part x) (pos_part y) (neg_part y) (pos_part z) (neg_part z)

rising_last : (x y z : ℤ) → lt_ℤ x y ≡ false → lt_ℤ y z ≡ false → lt_ℤ x z ≡ false
unfolding lt_ℤ
rising_last x y z p q = ground arith

-- What comes no earlier than one that comes no earlier than another.
no_less_trans : (a b c : Key) → lt_key a b ≡ false → lt_key b c ≡ false → lt_key a c ≡ false
unfolding lt_key
no_less_trans a b c = rising_ℕ a.distance b.distance c.distance _ _ _ (
    falling_ℤ a.confidence b.confidence c.confidence _ _ _ (
      rising_ℕ a.radius b.radius c.radius _ _ _
        (rising_ℤ a.x b.x c.x _ _ _ (rising_last a.y b.y c.y))))

lt_key_asym : (a b : Key) → lt_key a b ≡ true → lt_key b a ≡ false
unfolding lt_key lt_ℤ eq_ℤ
lt_key_asym a b p = ground arith

lt_key_irrefl : (a : Key) → lt_key a a ≡ false
unfolding lt_key lt_ℤ eq_ℤ
lt_key_irrefl a = ground arith

-- Two keys of which neither comes first.
lt_key_total :
    (a b : Key)
    → lt_key a b ≡ false
    → lt_key b a ≡ false
    → (a.confidence ≡ b.confidence) × (a.x ≡ b.x) × (a.y ≡ b.y)
unfolding lt_key lt_ℤ eq_ℤ
lt_key_total a b p q = (
  eq_ℤ_lem a.confidence b.confidence (ground arith),
  eq_ℤ_lem a.x b.x (ground arith),
  eq_ℤ_lem a.y b.y (ground arith),
)

from_All :
    (P : FaceDetection → Type 0) (f : FaceDetection) (fs : List FaceDetection)
    → All P fs
    → Memᴰ f fs
    → P f
from_All P f [] every m = elim m [ ]
from_All P f (g ∷ fs) (first, rest) (Memᴰ.head e) = subst P (sym e) first
from_All P f (g ∷ fs) (first, rest) (Memᴰ.tail m) = from_All P f fs rest m

module _ (key : FaceDetection → Key) where
  -- `h` does not come before `f`.
  abbrev IsNoLess : FaceDetection → FaceDetection → Type 0
  IsNoLess f h = lt_key (key h) (key f) ≡ false

  -- The lesser of two comes from the same list as both.
  lesser-Mem :
      (b : Bool) (f g : FaceDetection) (gs : List FaceDetection) (h : FaceDetection)
      → Memᴰ h ((if b then g else f) ∷ gs)
      → Memᴰ h (f ∷ g ∷ gs)
  lesser-Mem true f g gs h m = Memᴰ.tail m
  lesser-Mem false f g gs h (Memᴰ.head e) = Memᴰ.head e
  lesser-Mem false f g gs h (Memᴰ.tail m) = Memᴰ.tail (Memᴰ.tail m)

  least-Mem : (fs : List FaceDetection) (f : FaceDetection) → Memᴰ (least key f fs) (f ∷ fs)
  unfolding least
  least-Mem [] f = Memᴰ.head refl
  least-Mem (g ∷ gs) f = lesser-Mem (lt_key (key g) (key f)) f g gs _ (least-Mem gs _)

  both-IsNoLess :
      (b : Bool) (f g l : FaceDetection)
      → lt_key (key g) (key f) ≡ b
      → IsNoLess l (if b then g else f)
      → IsNoLess l f × IsNoLess l g
  both-IsNoLess true f g l e n =
      (no_less_trans (key f) (key g) (key l) (lt_key_asym (key g) (key f) e) n, n)
  both-IsNoLess false f g l e n = (n, no_less_trans (key g) (key f) (key l) e n)

  least-IsNoLess :
      (fs : List FaceDetection) (f : FaceDetection) → All (IsNoLess (least key f fs)) (f ∷ fs)
  unfolding least
  least-IsNoLess [] f = (lt_key_irrefl (key f), tt)
  least-IsNoLess (g ∷ gs) f =
      let (chosen, rest) = least-IsNoLess gs (if lt_key (key g) (key f) then g else f) in
      let (first, second) = both-IsNoLess (lt_key (key g) (key f)) f g _ refl chosen in
      (first, (second, rest))

  module _ (told : (f g : FaceDetection) → IsNoLess f g → IsNoLess g f → f ≡ g) where
    pub min-Same :
        (xs ys : List FaceDetection)
        → ((f : FaceDetection) → Memᴰ f xs → Memᴰ f ys)
        → ((f : FaceDetection) → Memᴰ f ys → Memᴰ f xs)
        → min key xs ≡ min key ys
    unfolding min
    min-Same [] [] there back = refl
    min-Same [] (y ∷ ys) there back = elim (back y (Memᴰ.head refl)) [ ]
    min-Same (x ∷ xs) [] there back = elim (there x (Memᴰ.head refl)) [ ]
    min-Same (x ∷ xs) (y ∷ ys) there back = ap some (
        told _ _
          (from_All (IsNoLess (least key x xs)) _ (x ∷ xs) (least-IsNoLess xs x)
            (back _ (least-Mem ys y)))
          (from_All (IsNoLess (least key y ys)) _ (y ∷ ys) (least-IsNoLess ys y)
            (there _ (least-Mem xs x))))

same_face : (f g : FaceDetection) → f.confidence ≡ g.confidence → f.x ≡ g.x → f.y ≡ g.y → f ≡ g
same_face f g c x y = λ i. record { x = x i; y = y i; confidence = c i }

associated_face-Same :
    (hypot : Hypot) (xs ys : List FaceDetection) (previous : FaceDetection)
    → ((f : FaceDetection) → Memᴰ f xs → Memᴰ f ys)
    → ((f : FaceDetection) → Memᴰ f ys → Memᴰ f xs)
    → associated_face hypot xs previous ≡ associated_face hypot ys previous
unfolding associated_face associated_key
associated_face-Same hypot xs ys previous there back =
    ap
      (λ o. elim o as (λ x. Option FaceDetection × Bool) [
        | none ↦ (none, false)
        | some f ↦ (some f, not (ltb association_limit (distance hypot f previous)))
      ])
      (min-Same (associated_key hypot previous)
        (λ f g a b. let (c, x, y) = lt_key_total _ _ b a in same_face f g c x y) xs ys there back)

selected-Same :
    (hypot : Hypot) (xs ys : List FaceDetection) (previous : Option FaceDetection)
    → ((f : FaceDetection) → Memᴰ f xs → Memᴰ f ys)
    → ((f : FaceDetection) → Memᴰ f ys → Memᴰ f xs)
    → selected hypot xs previous ≡ selected hypot ys previous
unfolding selected choose_face initial_key
selected-Same hypot xs ys none there back =
    ap (λ o. (o, false))
      (min-Same (initial_key hypot)
        (λ f g a b. let (c, x, y) = lt_key_total _ _ b a in same_face f g c x y) xs ys there back)
selected-Same hypot xs ys (some previous) there back =
    associated_face-Same hypot xs ys previous there back

module _ (hypot : Hypot) (d : Detections) (s : GazeSelector) (xs ys : List FaceDetection)
    (there : (f : FaceDetection) → Memᴰ f xs → Memᴰ f ys)
    (back : (f : FaceDetection) → Memᴰ f ys → Memᴰ f xs) where
  select_fresh-Same :
      (i : Identity) (captured_at received_at : Option ℕ)
      → select_fresh hypot i (record d { faces = xs }) captured_at received_at s
        ≡ select_fresh hypot i (record d { faces = ys }) captured_at received_at s
  unfolding select_fresh accept
  select_fresh-Same i none received_at = refl
  select_fresh-Same i (some captured_at) none = refl
  select_fresh-Same i (some captured_at) (some received_at) =
      ap (λ found. accept i [] captured_at received_at found s)
        (selected-Same hypot xs ys (face_of s.current) there back)

  select_known-Same :
      (i : Identity)
      → select_known hypot i (record d { faces = xs }) s
        ≡ select_known hypot i (record d { faces = ys }) s
  unfolding select_known select_stale
  select_known-Same i =
      ap
        (λ fresh.
          if is_behind i (s.watermarks i.source)
          then (current_or_unknown s, s)
          else if not d.fresh
          then (if is_elsewhere i.source s.current || is_stale s.current
              then (current_or_unknown s, s)
              else select_stale i d s)
          else if is_at i (s.watermarks i.source)
          then (current_or_unknown s, s)
          else fresh)
        (select_fresh-Same i d.captured_at d.received_at)

  select_as-Same :
      (i : Option Identity)
      → select_as hypot i (record d { faces = xs }) s
        ≡ select_as hypot i (record d { faces = ys }) s
  unfolding select_as
  select_as-Same none = refl
  select_as-Same (some i) = select_known-Same i

-- The directive and the selector's next state are the same for any two lists of the same faces, in any
-- order and with any repetitions, whatever the other fields of the detections are.
pub select_ignores_order :
    (hypot : Hypot) (d : Detections) (s : GazeSelector) (xs ys : List FaceDetection)
    → ((f : FaceDetection) → Memᴰ f xs → Memᴰ f ys)
    → ((f : FaceDetection) → Memᴰ f ys → Memᴰ f xs)
    → select hypot (record d { faces = xs }) s ≡ select hypot (record d { faces = ys }) s
unfolding select
select_ignores_order hypot d s xs ys there back =
    select_as-Same hypot d s xs ys there back (identity d.source d.generation d.sequence)
