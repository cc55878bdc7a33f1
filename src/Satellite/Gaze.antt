-- ===== src/Satellite/Gaze.antt =====
-- apps/ha-satellite/src/reachy_mini_ha_satellite/behaviour/tracking.py, with the detections and the
-- directives of its ports.py: which face to look at. Coordinates and confidences are the contracts'
-- whole numbers of millionths, a reading of the clock is a whole number of milliseconds, and
-- `math.hypot` is a parameter.
pub mod Choice
pub mod Runs
pub mod Continuity
use reachy.Prelude.{
  ℕ, suc, ◌+◌, ◌-◌, ℤ, pos_part, neg_part, ◌-ℤ◌, List, [], ◌∷◌, Bool, true, false, not, ◌&&◌, ◌||◌,
  Option, none, some, ◌==◌, ltb, is_some, if◌then◌else◌,
}
use reachy.Link.Contract.{FaceDetection}

-- `_ASSOCIATION_LIMIT`.
unfoldable pub association_limit : ℕ
association_limit = 600000

unfoldable pub default_maximum_gap : ℕ
default_maximum_gap = 500

pub data DetectionSource : Type 0 where
  remote local : DetectionSource

unfoldable pub same_source : DetectionSource → DetectionSource → Bool
same_source remote remote = true
same_source local local = true
same_source _ _ = false

pub record Identity : Type 0 where
  pub source : DetectionSource
  pub generation : ℕ
  pub sequence : ℕ

pub record Detections : Type 0 where
  pub faces : List FaceDetection
  pub fresh : Bool
  pub source : Option DetectionSource
  pub generation : Option ℕ
  pub sequence : Option ℕ
  pub captured_at : Option ℕ
  pub received_at : Option ℕ

pub data GazeOutcome : Type 0 where
  tracking nobody stale unknown : GazeOutcome

pub record GazeDirective : Type 0 where
  pub outcome : GazeOutcome
  pub source : Option DetectionSource
  pub generation : Option ℕ
  pub sequence : Option ℕ
  pub captured_at : Option ℕ
  pub received_at : Option ℕ
  pub face : Option FaceDetection
  pub target_epoch : ℕ

-- The property `identity`, of detections and of directives alike.
unfoldable pub identity : Option DetectionSource → Option ℕ → Option ℕ → Option Identity
identity (some source) (some generation) (some sequence) =
    some (record { source = source; generation = generation; sequence = sequence })
identity _ _ _ = none

-- The sort key of a face; without a preceding target the distance is none.
pub record Key : Type 0 where
  pub distance : ℕ
  pub confidence : ℤ
  pub radius : ℕ
  pub x : ℤ
  pub y : ℤ

unfoldable pub lt_ℤ : ℤ → ℤ → Bool
lt_ℤ a b = ltb (pos_part a + neg_part b) (pos_part b + neg_part a)

unfoldable pub eq_ℤ : ℤ → ℤ → Bool
eq_ℤ a b = pos_part a + neg_part b == pos_part b + neg_part a

-- `<`, on the keys: a higher confidence comes first.
unfoldable pub lt_key : Key → Key → Bool
lt_key a b =
    ltb a.distance b.distance
    || (a.distance == b.distance
        && (lt_ℤ b.confidence a.confidence
            || (eq_ℤ a.confidence b.confidence
                && (ltb a.radius b.radius
                    || (a.radius == b.radius
                        && (lt_ℤ a.x b.x || (eq_ℤ a.x b.x && lt_ℤ a.y b.y)))))))

-- `min`, with a key: the first of the least.
unfoldable pub least : (FaceDetection → Key) → FaceDetection → List FaceDetection → FaceDetection
least key f [] = f
least key f (g ∷ gs) = least key (if lt_key (key g) (key f) then g else f) gs

unfoldable pub min : (FaceDetection → Key) → List FaceDetection → Option FaceDetection
min key [] = none
min key (f ∷ fs) = some (least key f fs)

abbrev pub Hypot : Type 0
Hypot = ℤ → ℤ → ℕ

unfoldable pub initial_key : Hypot → FaceDetection → Key
initial_key hypot f = record {
  distance = 0;
  confidence = f.confidence;
  radius = hypot f.x f.y;
  x = f.x;
  y = f.y;
}

unfoldable pub choose_face : Hypot → List FaceDetection → Option FaceDetection
choose_face hypot faces = min (initial_key hypot) faces

unfoldable pub distance : Hypot → FaceDetection → FaceDetection → ℕ
distance hypot f previous = hypot (f.x -ℤ previous.x) (f.y -ℤ previous.y)

unfoldable pub associated_key : Hypot → FaceDetection → FaceDetection → Key
associated_key hypot previous f = record {
  distance = distance hypot f previous;
  confidence = f.confidence;
  radius = hypot f.x f.y;
  x = f.x;
  y = f.y;
}

-- `_associated_face`: the candidate, and whether it is near enough.
unfoldable pub associated_face :
    Hypot → List FaceDetection → FaceDetection → Option FaceDetection × Bool
associated_face hypot faces previous = elim (min (associated_key hypot previous) faces) [
  | none ↦ (none, false)
  | some f ↦ (some f, not (ltb association_limit (distance hypot f previous)))
]

pub record GazeSelector : Type 0 where
  pub maximum_gap : ℕ
  pub epoch : ℕ
  pub current : Option GazeDirective
  pub watermarks : DetectionSource → Option (ℕ × ℕ)

unfoldable pub new : ℕ → GazeSelector
new maximum_gap = record {
  maximum_gap = maximum_gap;
  epoch = 0;
  current = none;
  watermarks = λ s. none;
}

-- `GazeDirective(GazeOutcome.UNKNOWN, target_epoch=...)`.
unfoldable pub unknown_directive : ℕ → GazeDirective
unknown_directive epoch = record {
  outcome = unknown;
  source = none;
  generation = none;
  sequence = none;
  captured_at = none;
  received_at = none;
  face = none;
  target_epoch = epoch;
}

unfoldable pub current_or_unknown : GazeSelector → GazeDirective
current_or_unknown s = elim s.current [ none ↦ unknown_directive s.epoch | some d ↦ d ]

-- `_break_continuity`, on a condition.
unfoldable pub epoch_after : Bool → GazeSelector → ℕ
epoch_after b s = if b then suc s.epoch else s.epoch

-- `<` and `==` of the generation and sequence with the watermark.
unfoldable pub is_behind : Identity → Option (ℕ × ℕ) → Bool
is_behind i none = false
is_behind i (some (generation, sequence)) =
    ltb i.generation generation || (i.generation == generation && ltb i.sequence sequence)

unfoldable pub is_at : Identity → Option (ℕ × ℕ) → Bool
is_at i none = false
is_at i (some (generation, sequence)) = i.generation == generation && i.sequence == sequence

-- Whether the current directive is of another source.
unfoldable pub is_elsewhere : DetectionSource → Option GazeDirective → Bool
is_elsewhere source none = false
is_elsewhere source (some d) = elim d.source [ none ↦ true | some t ↦ not (same_source t source) ]

unfoldable pub is_stale : Option GazeDirective → Bool
is_stale none = false
is_stale (some d) = elim d.outcome [ stale ↦ true | _ ↦ false ]

unfoldable pub is_lost : Option GazeDirective → Bool
is_lost none = false
is_lost (some d) = elim d.outcome [ nobody ↦ true | stale ↦ true | _ ↦ false ]

unfoldable pub face_of : Option GazeDirective → Option FaceDetection
face_of none = none
face_of (some d) = d.face

-- `captured_at - current.captured_at > self._maximum_gap`, where it is known.
unfoldable pub has_gap : ℕ → ℕ → Option ℕ → Bool
has_gap maximum captured_at none = false
has_gap maximum captured_at (some before) = ltb maximum (captured_at - before)

unfoldable pub is_cut_off : Identity → ℕ → ℕ → Option Identity → Option ℕ → Bool
is_cut_off i captured_at maximum none before = false
is_cut_off i captured_at maximum (some c) before =
    not (same_source i.source c.source && i.generation == c.generation)
    || has_gap maximum captured_at before

unfoldable pub is_discontinued : Identity → ℕ → ℕ → Option GazeDirective → Bool
is_discontinued i captured_at maximum none = false
is_discontinued i captured_at maximum (some d) =
    is_cut_off i captured_at maximum (identity d.source d.generation d.sequence) d.captured_at

unfoldable pub selected :
    Hypot → List FaceDetection → Option FaceDetection → Option FaceDetection × Bool
selected hypot faces none = (choose_face hypot faces, false)
selected hypot faces (some previous) = associated_face hypot faces previous

-- `discontinuity`, once the face is selected.
unfoldable pub breaks : Option FaceDetection × Bool → Option FaceDetection → Bool → Bool → Bool
breaks (none, associated) previous lost discontinued = is_some previous
breaks (some f, associated) previous lost discontinued =
    (is_some previous && not associated || lost) || discontinued

unfoldable pub outcome_of : Option FaceDetection → GazeOutcome
outcome_of none = nobody
outcome_of (some f) = tracking

abbrev pub Selection : Type 0
Selection = GazeDirective × GazeSelector

unfoldable pub becomes : GazeDirective → GazeSelector → Selection
becomes d s = (d, record s { epoch = d.target_epoch; current = some d })

-- The directive of a result that is accepted.
unfoldable pub accept :
    Identity → List FaceDetection → ℕ → ℕ → Option FaceDetection × Bool → GazeSelector → Selection
accept i faces captured_at received_at found s =
    becomes
      (record {
        outcome = outcome_of found.0;
        source = some i.source;
        generation = some i.generation;
        sequence = some i.sequence;
        captured_at = some captured_at;
        received_at = some received_at;
        face = found.0;
        target_epoch =
            epoch_after
              (breaks found (face_of s.current) (is_lost s.current)
                (is_discontinued i captured_at s.maximum_gap s.current))
              s;
      })
      (record s {
        watermarks =
            λ t. if same_source i.source t then some (i.generation, i.sequence) else s.watermarks t;
      })

unfoldable pub select_fresh :
    Hypot → Identity → Detections → Option ℕ → Option ℕ → GazeSelector → Selection
select_fresh hypot i d (some captured_at) (some received_at) s =
    accept i d.faces captured_at received_at (selected hypot d.faces (face_of s.current)) s
select_fresh hypot i d _ _ s = (unknown_directive s.epoch, s)

unfoldable pub select_stale : Identity → Detections → GazeSelector → Selection
select_stale i d s =
    becomes
      (record {
        outcome = stale;
        source = some i.source;
        generation = some i.generation;
        sequence = some i.sequence;
        captured_at = d.captured_at;
        received_at = d.received_at;
        face = none;
        target_epoch = epoch_after true s;
      })
      s

unfoldable pub select_known : Hypot → Identity → Detections → GazeSelector → Selection
select_known hypot i d s =
    if is_behind i (s.watermarks i.source)
    then (current_or_unknown s, s)
    else if not d.fresh
    then (if is_elsewhere i.source s.current || is_stale s.current
        then (current_or_unknown s, s)
        else select_stale i d s)
    else if is_at i (s.watermarks i.source)
    then (current_or_unknown s, s)
    else select_fresh hypot i d d.captured_at d.received_at s

unfoldable pub select_as : Hypot → Option Identity → Detections → GazeSelector → Selection
select_as hypot none d s = (unknown_directive s.epoch, s)
select_as hypot (some i) d s = select_known hypot i d s

unfoldable pub select : Hypot → Detections → GazeSelector → Selection
select hypot d s = select_as hypot (identity d.source d.generation d.sequence) d s

unfoldable pub stand_down : GazeSelector → Selection
stand_down s = becomes (unknown_directive (epoch_after (is_some (face_of s.current)) s)) s
