-- ===== src/Satellite/Gaze/Runs.antt =====
-- tracking.py of ha-satellite: what the selector keeps of its last directive.
use reachy.Prelude.{
  ℕ, ◌≡◌, refl, ◌∙◌, List, [], ◌∷◌, Bool, true, not, ◌||◌, Option, none, some, is_some, if-cases,
}
use reachy.Link.Contract.{FaceDetection}
use reachy.Satellite.Gaze.{
  Identity, Detections, GazeDirective, identity, Hypot, GazeSelector, unknown_directive, is_behind,
  is_at, is_elsewhere, is_stale, Selection, becomes, accept, select_fresh, select_stale,
  select_known, select_as, select, stand_down,
}

pub data Input : Type 0 where
  selects : Detections → Input
  stands_down : Input

unfoldable pub step : Hypot → Input → GazeSelector → Selection
step hypot (selects d) s = select hypot d s
step hypot stands_down s = stand_down s

unfoldable pub run : Hypot → List Input → GazeSelector → GazeSelector
run hypot [] s = s
run hypot (input ∷ inputs) s = run hypot inputs (step hypot input s).1

-- A directive with a face carries all that a later result is compared with.
pub record IsWhole (s : GazeSelector) (d : GazeDirective) : Type 0 where
  pub epoch : d.target_epoch ≡ s.epoch
  pub identity : is_some d.face ≡ true → is_some (identity d.source d.generation d.sequence) ≡ true
  pub captured_at : is_some d.face ≡ true → is_some d.captured_at ≡ true

unfoldable pub IsWholeOption : GazeSelector → Option GazeDirective → Type 0
IsWholeOption s none = Unit
IsWholeOption s (some d) = IsWhole s d

accept-IsWhole :
    (i : Identity) (faces : List FaceDetection) (captured_at received_at : ℕ)
    (found : Option FaceDetection × Bool) (s : GazeSelector)
    → IsWholeOption
        (accept i faces captured_at received_at found s).1
        (accept i faces captured_at received_at found s).1.current
unfolding accept becomes IsWholeOption identity
accept-IsWhole i faces captured_at received_at found s = record {
  epoch = refl;
  identity = λ f. refl;
  captured_at = λ f. refl;
}

abbrev IsWholeAfter : Selection → Type 0
IsWholeAfter r = IsWholeOption r.1 r.1.current

select_fresh-IsWhole :
    (hypot : Hypot) (i : Identity) (d : Detections) (captured_at received_at : Option ℕ)
    (s : GazeSelector)
    → IsWholeOption s s.current
    → IsWholeAfter (select_fresh hypot i d captured_at received_at s)
unfolding select_fresh
select_fresh-IsWhole hypot i d none received_at s w = w
select_fresh-IsWhole hypot i d (some captured_at) none s w = w
select_fresh-IsWhole hypot i d (some captured_at) (some received_at) s w =
    accept-IsWhole i d.faces captured_at received_at _ s

select_stale-IsWhole :
    (i : Identity) (d : Detections) (s : GazeSelector) → IsWholeAfter (select_stale i d s)
unfolding select_stale becomes IsWholeOption
select_stale-IsWhole i d s = record { epoch = refl; identity = λ f. cc; captured_at = λ f. cc }

select_known-IsWhole :
    (hypot : Hypot) (i : Identity) (d : Detections) (s : GazeSelector)
    → IsWholeOption s s.current
    → IsWholeOption (select_known hypot i d s).1 (select_known hypot i d s).1.current
unfolding select_known
select_known-IsWhole hypot i d s w =
    if-cases IsWholeAfter (is_behind i (s.watermarks i.source)) _ _ (λ behind. w)
      (λ ahead.
        if-cases IsWholeAfter (not d.fresh) _ _
          (λ old.
            if-cases IsWholeAfter (is_elsewhere i.source s.current || is_stale s.current) _ _
              (λ kept. w) (λ first. select_stale-IsWhole i d s))
          (λ fresh.
            if-cases IsWholeAfter (is_at i (s.watermarks i.source)) _ _ (λ again. w)
              (λ next. select_fresh-IsWhole hypot i d d.captured_at d.received_at s w)))

select_as-IsWhole :
    (hypot : Hypot) (i : Option Identity) (d : Detections) (s : GazeSelector)
    → IsWholeOption s s.current
    → IsWholeAfter (select_as hypot i d s)
unfolding select_as
select_as-IsWhole hypot none d s w = w
select_as-IsWhole hypot (some i) d s w = select_known-IsWhole hypot i d s w

step-IsWhole :
    (hypot : Hypot) (input : Input) (s : GazeSelector)
    → IsWholeOption s s.current
    → IsWholeAfter (step hypot input s)
unfolding step select stand_down becomes unknown_directive IsWholeOption
step-IsWhole hypot (selects d) s w =
    select_as-IsWhole hypot (identity d.source d.generation d.sequence) d s w
step-IsWhole hypot stands_down s w = record {
  epoch = refl;
  identity = λ f. cc;
  captured_at = λ f. cc;
}

pub run-IsWhole :
    (hypot : Hypot) (inputs : List Input) (s : GazeSelector)
    → IsWholeOption s s.current
    → IsWholeOption (run hypot inputs s) (run hypot inputs s).current
unfolding run
run-IsWhole hypot [] s w = w
run-IsWhole hypot (input ∷ inputs) s w = run-IsWhole hypot inputs _ (step-IsWhole hypot input s w)

abbrev KeepsGap : ℕ → Selection → Type 0
KeepsGap n r = r.1.maximum_gap ≡ n

select_fresh-gap :
    (hypot : Hypot) (i : Identity) (d : Detections) (captured_at received_at : Option ℕ)
    (s : GazeSelector)
    → KeepsGap s.maximum_gap (select_fresh hypot i d captured_at received_at s)
unfolding select_fresh accept becomes
select_fresh-gap hypot i d none received_at s = refl
select_fresh-gap hypot i d (some captured_at) none s = refl
select_fresh-gap hypot i d (some captured_at) (some received_at) s = refl

select_as-gap :
    (hypot : Hypot) (i : Option Identity) (d : Detections) (s : GazeSelector)
    → KeepsGap s.maximum_gap (select_as hypot i d s)
unfolding select_as select_known select_stale becomes
select_as-gap hypot none d s = refl
select_as-gap hypot (some i) d s =
    if-cases (KeepsGap s.maximum_gap) (is_behind i (s.watermarks i.source)) _ _ (λ behind. refl)
      (λ ahead.
        if-cases (KeepsGap s.maximum_gap) (not d.fresh) _ _
          (λ old.
            if-cases (KeepsGap s.maximum_gap)
              (is_elsewhere i.source s.current || is_stale s.current) _ _ (λ kept. refl)
              (λ first. refl))
          (λ fresh.
            if-cases (KeepsGap s.maximum_gap) (is_at i (s.watermarks i.source)) _ _ (λ again. refl)
              (λ next. select_fresh-gap hypot i d d.captured_at d.received_at s)))

step-gap :
    (hypot : Hypot) (input : Input) (s : GazeSelector) → KeepsGap s.maximum_gap (step hypot input s)
unfolding step select stand_down becomes
step-gap hypot (selects d) s = select_as-gap hypot (identity d.source d.generation d.sequence) d s
step-gap hypot stands_down s = refl

pub run-gap :
    (hypot : Hypot) (inputs : List Input) (s : GazeSelector)
    → (run hypot inputs s).maximum_gap ≡ s.maximum_gap
unfolding run
run-gap hypot [] s = refl
run-gap hypot (input ∷ inputs) s = run-gap hypot inputs _ ∙ step-gap hypot input s
