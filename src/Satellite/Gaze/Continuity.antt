-- ===== src/Satellite/Gaze/Continuity.antt =====
-- tracking.py of ha-satellite: what the target epoch says of two faces that follow one another.
use reachy.Prelude.{
  ℕ, ◌+◌, ◌≤◌, ◌≡◌, refl, sym, ap, subst, ◌∙◌, List, Bool, true, false, not, ◌||◌, Option, none,
  some, ltb, is_some, arith, if-cases, ◌⊎◌, inl, inr,
}
use reachy.Link.Contract.{FaceDetection}
use reachy.Satellite.Gaze.{
  association_limit, DetectionSource, remote, local, same_source, Identity, Detections, GazeOutcome,
  GazeDirective, identity, Hypot, distance, min, associated_key, associated_face, GazeSelector, new,
  unknown_directive, current_or_unknown, epoch_after, is_behind, is_at, is_elsewhere, is_stale,
  is_lost, face_of, has_gap, is_cut_off, is_discontinued, selected, breaks, Selection, becomes,
  accept, select_fresh, select_stale, select_known, select_as, select,
}
use reachy.Satellite.Gaze.Runs.{Input, run, IsWhole, IsWholeOption, run-IsWhole, run-gap}

-- The later directive follows the earlier one's target.
pub record Continues (hypot : Hypot) (maximum_gap : ℕ) (c d : GazeDirective) (f g : FaceDetection)
    : Type 0 where
  pub source : DetectionSource
  pub generation : ℕ
  pub earlier : ℕ
  pub later : ℕ
  pub of_source : (c.source ≡ some source) × (d.source ≡ some source)
  pub of_generation : (c.generation ≡ some generation) × (d.generation ≡ some generation)
  pub captured_at : (c.captured_at ≡ some earlier) × (d.captured_at ≡ some later)
  pub soon : later ≤ earlier + maximum_gap
  pub near : distance hypot g f ≤ association_limit

associated_near :
    (hypot : Hypot) (faces : List FaceDetection) (f g : FaceDetection)
    → (associated_face hypot faces f).0 ≡ some g
    → (associated_face hypot faces f).1 ≡ true
    → distance hypot g f ≤ association_limit
unfolding associated_face association_limit
associated_near hypot faces f g e a = near (min (associated_key hypot f) faces) e a
  where
    near :
        (o : Option FaceDetection)
        → (elim o as (λ x. Option FaceDetection × Bool) [
          | none ↦ (none, false)
          | some h ↦ (some h, not (ltb 600000 (distance hypot h f)))
        ]).0
          ≡ some g
        → (elim o as (λ x. Option FaceDetection × Bool) [
          | none ↦ (none, false)
          | some h ↦ (some h, not (ltb 600000 (distance hypot h f)))
        ]).1
          ≡ true
        → distance hypot g f ≤ 600000
    near none e a = cc
    near (some h) e a =
        let same : h ≡ g = cc in subst (λ k. distance hypot k f ≤ 600000) same (ground arith)

breaks_lem :
    (found : Option FaceDetection × Bool) (f g : FaceDetection) (lost discontinued : Bool)
    → breaks found (some f) lost discontinued ≡ false
    → found.0 ≡ some g
    → (found.1 ≡ true) × (discontinued ≡ false)
unfolding breaks
breaks_lem (none, a) f g lost discontinued b e = cc
breaks_lem (some h, a) f g lost discontinued b e = (ground arith, ground arith)

epoch_after_lem : (b : Bool) (s : GazeSelector) → epoch_after b s ≡ s.epoch → b ≡ false
unfolding epoch_after
epoch_after_lem true s e = ground arith
epoch_after_lem false s e = refl

same_source_lem : (a b : DetectionSource) → same_source a b ≡ true → b ≡ a
unfolding same_source
same_source_lem remote remote e = refl
same_source_lem remote local e = cc
same_source_lem local remote e = cc
same_source_lem local local e = refl

-- The earlier directive has the identity of a result that is not cut off from it.
record IsLinked (i : Identity) (captured_at maximum : ℕ) (c : GazeDirective) : Type 0 where
  source : c.source ≡ some i.source
  generation : c.generation ≡ some i.generation
  earlier : ℕ
  captured : c.captured_at ≡ some earlier
  soon : captured_at ≤ earlier + maximum

linked :
    (i : Identity) (captured_at maximum : ℕ) (outcome : GazeOutcome)
    (source : Option DetectionSource) (generation sequence before received_at : Option ℕ)
    (face : Option FaceDetection) (target_epoch : ℕ)
    → is_cut_off i captured_at maximum (identity source generation sequence) before ≡ false
    → is_some (identity source generation sequence) ≡ true
    → is_some before ≡ true
    → IsLinked i captured_at maximum (record {
      outcome = outcome;
      source = source;
      generation = generation;
      sequence = sequence;
      captured_at = before;
      received_at = received_at;
      face = face;
      target_epoch = target_epoch;
    })
unfolding is_cut_off identity has_gap
linked i t m o none n q b r f e x y z = cc
linked i t m o (some s) none q b r f e x y z = cc
linked i t m o (some s) (some n) none b r f e x y z = cc
linked i t m o (some s) (some n) (some q) none r f e x y z = cc
linked i t m o (some s) (some n) (some q) (some b) r f e x y z = record {
  source = ap some (same_source_lem i.source s (ground arith));
  generation = ap some (ground arith);
  earlier = b;
  captured = refl;
  soon = ground arith;
}

followed :
    (hypot : Hypot) (faces : List FaceDetection) (f g : FaceDetection) (lost discontinued : Bool)
    → breaks (selected hypot faces (some f)) (some f) lost discontinued ≡ false
    → (selected hypot faces (some f)).0 ≡ some g
    → (distance hypot g f ≤ association_limit) × (discontinued ≡ false)
unfolding selected
followed hypot faces f g lost discontinued b e =
    let (associated, calm) = breaks_lem _ f g lost discontinued b e in
    (associated_near hypot faces f g e associated, calm)

accept-Continues :
    (hypot : Hypot) (i : Identity) (faces : List FaceDetection) (captured_at received_at : ℕ)
    (s : GazeSelector) (c : GazeDirective) (f g : FaceDetection)
    → s.current ≡ some c
    → c.face ≡ some f
    → IsWhole s c
    → (accept i faces captured_at received_at (selected hypot faces (face_of s.current)) s).0.face
      ≡ some g
    → (accept i faces captured_at received_at
        (selected hypot faces (face_of s.current))
        s).0.target_epoch
      ≡ c.target_epoch
    → Continues hypot s.maximum_gap c
        (accept i faces captured_at received_at (selected hypot faces (face_of s.current)) s).0
        f
        g
unfolding accept becomes face_of is_discontinued
accept-Continues hypot i faces captured_at received_at s c f g current face w e same =
    let calm = epoch_after_lem _ s (same ∙ w.epoch) in
    let (near, linked_on) =
      subst
        (λ p.
          breaks (selected hypot faces p) p (is_lost s.current)
              (is_discontinued i captured_at s.maximum_gap s.current)
            ≡ false
          → (selected hypot faces p).0 ≡ some g
          → (distance hypot g f ≤ association_limit)
            × (is_discontinued i captured_at s.maximum_gap s.current ≡ false))
        (sym (ap face_of current ∙ face)) (followed hypot faces f g _ _) calm e in
    let link =
      linked i captured_at s.maximum_gap c.outcome c.source c.generation c.sequence c.captured_at
        c.received_at c.face c.target_epoch
        (subst (λ o. is_discontinued i captured_at s.maximum_gap o ≡ false) current linked_on)
        (w.identity (ap is_some face)) (w.captured_at (ap is_some face)) in
    record {
      source = i.source;
      generation = i.generation;
      earlier = link.earlier;
      later = captured_at;
      of_source = (link.source, refl);
      of_generation = (link.generation, refl);
      captured_at = (link.captured, refl);
      soon = link.soon;
      near = near;
    }

module _ (hypot : Hypot) (d : Detections) (s : GazeSelector) (c : GazeDirective)
    (f g : FaceDetection) (current : s.current ≡ some c) (face : c.face ≡ some f)
    (w : IsWhole s c) where
  -- The directive, if it shows a face under the same epoch, is the current one or goes on from it.
  abbrev GoesOn : Selection → Type 0
  GoesOn r =
      r.0.face ≡ some g
      → r.0.target_epoch ≡ c.target_epoch
      → (r.0 ≡ c) ⊎ Continues hypot s.maximum_gap c r.0 f g

  kept-GoesOn : GoesOn (current_or_unknown s, s)
  unfolding current_or_unknown
  kept-GoesOn e same = inl (
      ap (λ o. elim o as (λ x. GazeDirective) [ none ↦ unknown_directive s.epoch | some k ↦ k ])
        current)

  select_fresh-GoesOn :
      (i : Identity) (captured_at received_at : Option ℕ)
      → GoesOn (select_fresh hypot i d captured_at received_at s)
  unfolding select_fresh unknown_directive
  select_fresh-GoesOn i none received_at e same = cc
  select_fresh-GoesOn i (some captured_at) none e same = cc
  select_fresh-GoesOn i (some captured_at) (some received_at) e same =
      inr (accept-Continues hypot i d.faces captured_at received_at s c f g current face w e same)

  select_known-GoesOn : (i : Identity) → GoesOn (select_known hypot i d s)
  unfolding select_known select_stale becomes
  select_known-GoesOn i =
      if-cases GoesOn (is_behind i (s.watermarks i.source)) _ _ (λ behind. kept-GoesOn)
        (λ ahead.
          if-cases GoesOn (not d.fresh) _ _
            (λ old.
              if-cases GoesOn (is_elsewhere i.source s.current || is_stale s.current) _ _
                (λ kept. kept-GoesOn) (λ first e same. cc))
            (λ fresh.
              if-cases GoesOn (is_at i (s.watermarks i.source)) _ _ (λ again. kept-GoesOn)
                (λ next. select_fresh-GoesOn i d.captured_at d.received_at)))

  select_as-GoesOn : (i : Option Identity) → GoesOn (select_as hypot i d s)
  unfolding select_as unknown_directive
  select_as-GoesOn none e same = cc
  select_as-GoesOn (some i) e same = select_known-GoesOn i e same

-- Whatever has been selected before, with the tracking disabled in between or not: if the current
-- directive shows a face, and the next selection shows one under the same target epoch, then it is the
-- current directive still, or both are of the same source and generation, the new one was captured at
-- most the maximum gap after the other, or before it, and the new face is no further from the old one than the association limit.
pub same_epoch_is_continuous :
    (hypot : Hypot) (maximum_gap : ℕ) (inputs : List Input) (d : Detections) (c : GazeDirective)
    (f g : FaceDetection)
    → (run hypot inputs (new maximum_gap)).current ≡ some c
    → c.face ≡ some f
    → (select hypot d (run hypot inputs (new maximum_gap))).0.face ≡ some g
    → (select hypot d (run hypot inputs (new maximum_gap))).0.target_epoch ≡ c.target_epoch
    → ((select hypot d (run hypot inputs (new maximum_gap))).0 ≡ c)
      ⊎ Continues hypot maximum_gap c (select hypot d (run hypot inputs (new maximum_gap))).0 f g
unfolding select new IsWholeOption
same_epoch_is_continuous hypot maximum_gap inputs d c f g current face e same =
    let s = run hypot inputs (new maximum_gap) in
    let w = run-IsWhole hypot inputs (new maximum_gap) tt in
    let goes_on =
      select_as-GoesOn hypot d s c f g current face (subst (IsWholeOption s) current w)
        (identity d.source d.generation d.sequence) in
    subst (λ n. ((select hypot d s).0 ≡ c) ⊎ Continues hypot n c (select hypot d s).0 f g)
      (run-gap hypot inputs (new maximum_gap)) (goes_on e same)
