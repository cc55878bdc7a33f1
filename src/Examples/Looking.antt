-- ===== src/Examples/Looking.antt =====
-- The robot application: a voice pipeline that is muted while Home Assistant is gone, and two faces.
use reachy.Prelude.{
  ℕ, ◌+◌, ◌-ℤ◌, ◌≡◌, refl, ◌⊎◌, ℤ, pos, pos_part, neg_part, List, [], ◌∷◌, true, some,
}
use mathlib.Core.List.{Memᴰ}
use reachy.Link.Contract.{FaceDetection}
use reachy.Satellite.Pipeline.{PipelineEvent}
use reachy.Satellite.Pipeline
use reachy.Satellite.Pipeline.Shown.{
  Input, handles, ticks, machine_run, fact_run, shown, no_facts, pipeline_refines,
}
use reachy.Satellite.Gaze.{
  Hypot, Detections, DetectionSource, remote, GazeDirective, GazeSelector, select, new, select_as,
  select_known, select_fresh, accept, becomes, selected, choose_face, associated_face, min, least,
  lt_key, lt_ℤ, eq_ℤ, initial_key, associated_key, distance, identity, is_behind, is_at,
  is_elsewhere, is_stale, is_lost, face_of, is_discontinued, is_cut_off, has_gap, same_source,
  breaks, outcome_of, epoch_after, association_limit,
}
use reachy.Satellite.Gaze
use reachy.Satellite.Gaze.Choice.{select_ignores_order}
use reachy.Satellite.Gaze.Runs.{run, selects, step}
use reachy.Satellite.Gaze.Continuity.{Continues, same_epoch_is_continuous}

abbrev evening : List (ℕ × Input)
evening =
    (10, handles PipelineEvent.error)
    ∷ (2000, ticks)
    ∷ (2100, handles PipelineEvent.muted)
    ∷ (2200, handles PipelineEvent.disconnected)
    ∷ (2300, handles PipelineEvent.idle)
    ∷ []

pipeline_refines_example :
    ((machine_run evening (Pipeline.new 0)).state ≡ shown (fact_run evening (no_facts 0)))
    × ((machine_run evening (Pipeline.new 0)).entered_at ≡ (fact_run evening (no_facts 0)).since)
pipeline_refines_example = pipeline_refines evening 0

abbrev size : ℤ → ℕ
size z = pos_part z + neg_part z

-- It stands in for `math.hypot`.
abbrev taxi : Hypot
taxi x y = size x + size y

abbrev left : FaceDetection
left = record { x = pos 100; y = pos 0; confidence = pos 900000 }

abbrev right : FaceDetection
right = record { x = pos 300; y = pos 0; confidence = pos 800000 }

abbrev seen : ℕ → List FaceDetection → Detections
seen n faces = record {
  faces = faces;
  fresh = true;
  source = some remote;
  generation = some 1;
  sequence = some n;
  captured_at = some n;
  received_at = some n;
}

abbrev selector : GazeSelector
selector = run taxi (selects (seen 1 (left ∷ right ∷ [])) ∷ []) (Gaze.new 500)

turned : (f : FaceDetection) → Memᴰ f (left ∷ right ∷ []) → Memᴰ f (right ∷ left ∷ [])
turned f (Memᴰ.head e) = Memᴰ.tail (Memᴰ.head e)
turned f (Memᴰ.tail (Memᴰ.head e)) = Memᴰ.head e
turned f (Memᴰ.tail (Memᴰ.tail m)) = elim m [ ]

turned_back : (f : FaceDetection) → Memᴰ f (right ∷ left ∷ []) → Memᴰ f (left ∷ right ∷ [])
turned_back f (Memᴰ.head e) = Memᴰ.tail (Memᴰ.head e)
turned_back f (Memᴰ.tail (Memᴰ.head e)) = Memᴰ.head e
turned_back f (Memᴰ.tail (Memᴰ.tail m)) = elim m [ ]

select_ignores_order_example :
    select taxi (seen 2 (left ∷ right ∷ [])) selector
    ≡ select taxi (seen 2 (right ∷ left ∷ [])) selector
select_ignores_order_example =
    select_ignores_order taxi (seen 2 []) selector (left ∷ right ∷ []) (right ∷ left ∷ []) turned
      turned_back

abbrev looks : GazeDirective
looks = (select taxi (seen 1 (left ∷ right ∷ [])) (Gaze.new 500)).0

current_looks : selector.current ≡ some looks
unfolding run step select select_as select_known select_fresh accept becomes selected choose_face
    associated_face min least lt_key lt_ℤ eq_ℤ initial_key associated_key distance identity
    is_behind is_at is_elsewhere is_stale is_lost face_of is_discontinued is_cut_off has_gap
    same_source breaks outcome_of epoch_after new association_limit ◌-ℤ◌
current_looks = refl

looks_left : looks.face ≡ some left
unfolding run step select select_as select_known select_fresh accept becomes selected choose_face
    associated_face min least lt_key lt_ℤ eq_ℤ initial_key associated_key distance identity
    is_behind is_at is_elsewhere is_stale is_lost face_of is_discontinued is_cut_off has_gap
    same_source breaks outcome_of epoch_after new association_limit ◌-ℤ◌
looks_left = refl

looks_on : (select taxi (seen 2 (right ∷ left ∷ [])) selector).0.face ≡ some left
unfolding run step select select_as select_known select_fresh accept becomes selected choose_face
    associated_face min least lt_key lt_ℤ eq_ℤ initial_key associated_key distance identity
    is_behind is_at is_elsewhere is_stale is_lost face_of is_discontinued is_cut_off has_gap
    same_source breaks outcome_of epoch_after new association_limit ◌-ℤ◌
looks_on = refl

keeps_epoch :
    (select taxi (seen 2 (right ∷ left ∷ [])) selector).0.target_epoch ≡ looks.target_epoch
unfolding run step select select_as select_known select_fresh accept becomes selected choose_face
    associated_face min least lt_key lt_ℤ eq_ℤ initial_key associated_key distance identity
    is_behind is_at is_elsewhere is_stale is_lost face_of is_discontinued is_cut_off has_gap
    same_source breaks outcome_of epoch_after new association_limit ◌-ℤ◌
keeps_epoch = refl

same_epoch_is_continuous_example :
    ((select taxi (seen 2 (right ∷ left ∷ [])) selector).0 ≡ looks)
    ⊎ Continues taxi 500 looks (select taxi (seen 2 (right ∷ left ∷ [])) selector).0 left left
same_epoch_is_continuous_example =
    same_epoch_is_continuous taxi 500 (selects (seen 1 (left ∷ right ∷ [])) ∷ [])
      (seen 2 (right ∷ left ∷ [])) looks left left current_looks looks_left looks_on keeps_epoch
