-- ===== src/Reachyctl/Deploy/Reported.antt =====
-- deploy.py of reachyctl: the report of a deploy and its exit status, with the `Report` of output.py, the
-- `rows` of steps.py and the statuses of exits.py. How the report is rendered is left out.
use reachy.Prelude.{
  ℕ, ◌≡◌, refl, sym, ap, subst, ◌∙◌, String, List, [], ◌∷◌, ◌++◌, map, Bool, true, false, not, ◌||◌,
  Option, none, some, Result, ok, err, concat, str_eq, if◌then◌else◌, if-cases, All, arith,
}
use reachy.Reachyctl.Steps.{
  StepResult, StepOutcome, done, planned, skipped, warned, failed, outcome_value, is_failed,
  any_failed, is_ok,
}
use reachy.Reachyctl.Deploy.{
  Robot, RobotCall, DeployPlan, DeployOutcome, is_good, run_deploy, has_failed, version_of,
}
use reachy.Reachyctl.Deploy.Verified.{Verified, good_deploy-Verified}

pub data ExitCode : Type 0 where
  succeeded failure usage configuration unreachable : ExitCode

pub record Row : Type 0 where
  pub step : String
  pub status : String
  pub detail : String

unfoldable pub row : StepResult → Row
row r = record { step = r.name; status = outcome_value r.outcome; detail = r.detail }

-- `data` of the report.
pub record ReportData : Type 0 where
  pub robot : String
  pub preview : Bool
  pub application : Option String
  pub version : Option String
  pub wheel_bytes : Option ℕ
  pub running_version : Option String

pub record Report : Type 0 where
  pub command : String
  pub is_ok : Bool
  pub summary : String
  pub values : ReportData
  pub columns : List String
  pub rows : List Row

-- `text or None`.
unfoldable pub or_none : String → Option String
or_none text = if str_eq text "" then none else some text

unfoldable pub first_failed : List StepResult → Option StepResult
first_failed [] = none
first_failed (r ∷ rs) = let rest = first_failed rs in if is_failed r.outcome then some r else rest

-- What the summary adds of the version that the robot runs.
unfoldable pub running_text : String → DeployOutcome → String
running_text name o =
    if str_eq name "verify" || str_eq o.running_version ""
    then ""
    else concat "; the robot is running " o.running_version

-- `_summary`, of the first step that failed.
unfoldable pub summary_of : Option StepResult → DeployOutcome → String
summary_of (some first) o =
    concat "the deploy failed at "
      (concat first.name (concat ": " (concat first.detail (running_text first.name o))))
summary_of none o =
    if o.preview
    then "nothing was changed: this was a preview"
    else concat "the robot is running "
        (concat o.application (concat " " (concat o.wheel.version ", verified after the restart")))

unfoldable pub report_for : String → DeployOutcome → Report
report_for robot o = record {
  command = "deploy";
  is_ok = is_good o;
  summary = summary_of (first_failed o.steps.results) o;
  values = record {
    robot = robot;
    preview = o.preview;
    application = or_none o.application;
    version = some o.wheel.version;
    wheel_bytes = some o.wheel.size_bytes;
    running_version = or_none o.running_version;
  };
  columns = "step" ∷ "status" ∷ "detail" ∷ [];
  rows = map row o.steps.results;
}

-- The status that `emit` returns.
unfoldable pub emitted : Report → ExitCode
emitted report = if report.is_ok then succeeded else failure

unfoldable pub executed : String → Result String DeployOutcome → Result String (Report × ExitCode)
executed name (ok o) = ok (report_for name o, emitted (report_for name o))
executed name (err e) = err e

unfoldable pub execute : DeployPlan → Robot → String → Result String (Report × ExitCode)
execute plan robot name = executed name (run_deploy plan robot).0

-- A row of a step that did not fail.
abbrev pub HasPassed : Row → Type 0
HasPassed r = str_eq r.status "failed" ≡ false

-- What a script learns from the exit status and the report.
pub data Told (robot : Robot) (report : Report) : ExitCode → Type 0 where
  failed_at :
      (before after : List Row) (r : Row) (rest : String)
      → report.rows ≡ before ++ r ∷ after
      → All HasPassed before
      → r.status ≡ "failed"
      → report.summary
        ≡ concat "the deploy failed at " (concat r.step (concat ": " (concat r.detail rest)))
      → Told robot report failure
  went_well :
      All HasPassed report.rows
      → report.values.version ≡ some (version_of robot.installed_after.detail)
      → report.values.running_version ≡ or_none (version_of robot.installed_after.detail)
      → has_failed robot.running_after ≡ false
      → Told robot report succeeded

data FirstOf (xs : List StepResult) : Option StepResult → Type 0 where
  found :
      (before after : List Row) (r : StepResult)
      → map row xs ≡ before ++ row r ∷ after
      → All HasPassed before
      → is_failed r.outcome ≡ true
      → any_failed xs ≡ true
      → FirstOf xs (some r)
  absent : All HasPassed (map row xs) → any_failed xs ≡ false → FirstOf xs none

passed_outcome : (o : StepOutcome) → is_failed o ≡ false → str_eq (outcome_value o) "failed" ≡ false
unfolding outcome_value is_failed
passed_outcome done f = refl
passed_outcome planned f = refl
passed_outcome skipped f = refl
passed_outcome warned f = refl
passed_outcome failed f = cc

passed_row : (r : StepResult) → is_failed r.outcome ≡ false → HasPassed (row r)
unfolding row
passed_row r f = passed_outcome r.outcome f

failed_row : (o : StepOutcome) → is_failed o ≡ true → outcome_value o ≡ "failed"
unfolding is_failed outcome_value
failed_row done e = cc
failed_row planned e = cc
failed_row skipped e = cc
failed_row warned e = cc
failed_row failed e = refl

first_after :
    (x : StepResult) (xs : List StepResult) (o : Option StepResult)
    → is_failed x.outcome ≡ false
    → FirstOf xs o
    → FirstOf (x ∷ xs) o
unfolding any_failed
first_after x xs _ f (found before after r e past bad any) =
    found (row x ∷ before) after r (ap (λ rs. row x ∷ rs) e) (passed_row x f, past) bad
      (ground arith)
first_after x xs _ f (absent past none_bad) = absent (passed_row x f, past) (ground arith)

first_failed-FirstOf : (xs : List StepResult) → FirstOf xs (first_failed xs)
unfolding first_failed any_failed
first_failed-FirstOf [] = absent tt refl
first_failed-FirstOf (x ∷ xs) =
    if-cases (FirstOf (x ∷ xs)) (is_failed x.outcome) _ _
      (λ t. found [] (map row xs) x refl tt t (ground arith))
      (λ f. first_after x xs _ f (first_failed-FirstOf xs))

report-Told :
    (robot : Robot) (name : String) (o : DeployOutcome) (first : Option StepResult)
    → first_failed o.steps.results ≡ first
    → FirstOf o.steps.results first
    → (is_good o ≡ true
        → (o.running_version ≡ o.wheel.version)
          × (o.running_version ≡ version_of robot.installed_after.detail)
          × (has_failed robot.running_after ≡ false))
    → Told robot (report_for name o) (emitted (report_for name o))
unfolding report_for emitted is_good is_ok summary_of row
report-Told robot name o _ e (found before after r at past bad any) verified = rw any (
    failed_at before after (row r) (running_text r.name o) at past (failed_row r.outcome bad)
      (ap (λ f. summary_of f o) e))
report-Told robot name o _ e (absent past good) verified =
    let (same, read, runs) = verified (ap not good) in
    rw good (went_well past (ap some (sym same ∙ read)) (ap or_none read) runs)

executed-Told :
    (robot : Robot) (name : String) (report : Report) (code : ExitCode)
    (r : Result String DeployOutcome) (calls : List RobotCall)
    → ((o : DeployOutcome) → r ≡ ok o → is_good o ≡ true → Verified robot o calls)
    → executed name r ≡ ok (report, code)
    → Told robot report code
unfolding executed
executed-Told robot name report code (err e) calls verified h = cc
executed-Told robot name report code (ok o) calls verified h =
    let told =
      report-Told robot name o _ refl (first_failed-FirstOf o.steps.results)
        (λ good. let v = verified o refl good in (v.version, v.reported, v.is_running)) in
    subst (λ x. Shown x) h told
  where
    Shown : Result String (Report × ExitCode) → Type 0
    Shown (ok x) = Told robot x.0 x.1
    Shown (err e) = Unit

-- A deploy that is no preview and returns exits with success or failure. With failure, the report has a
-- row of a step that failed, none above it failed, and its summary names that step and what it says.
-- With success, no row is of a step that failed, the robot, asked after the restart, reported the
-- wheel's version, which the report gives as the version it runs, and the application as running.
pub execute_tells :
    (plan : DeployPlan) (robot : Robot) (name : String) (report : Report) (code : ExitCode)
    → plan.preview ≡ false
    → execute plan robot name ≡ ok (report, code)
    → Told robot report code
unfolding execute executed
execute_tells plan robot name report code p e =
    executed-Told robot name report code (run_deploy plan robot).0 (run_deploy plan robot).1
      (λ o r good. good_deploy-Verified plan robot o p r good) e
