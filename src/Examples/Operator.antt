-- ===== src/Examples/Operator.antt =====
-- The robot application's link to its daemon, its detectors, and a run of the checks.
use reachy.Prelude.{
  str_eq, is_member, if◌then◌else◌, refl, Result, ok, err, All, ℕ, ◌≡◌, String, List, [], ◌∷◌, Bool,
  true, false, none, some,
}
use reachy.Satellite.DaemonLink.{returns, refuses, raises, up}
use reachy.Satellite.DaemonLink
use reachy.Satellite.DaemonLink.Counts.{
  Use, attempts, reports, run, refusals, falls, last_state, saturated, link_counts,
}
use reachy.Satellite.Perception
use reachy.Satellite.Perception.Fallback.{Turn, Switches, fallback-Switches}
use reachy.Checks.{
  CheckResult, Outcome, failed, is_outcome, CheckContext, Check, Requirement, daemon, models,
  passed, measured, Probed, found, raised, Observer, run_checks,
}
use reachy.Reachyctl.Steps
use reachy.Reachyctl.Steps.{step, begins, say, any_failed, is_failed, is_ok}
use reachy.Reachyctl.Deploy
use reachy.Reachyctl.Deploy.{
  Wheel, Robot, Commanded, DeployPlan, DeployOutcome, is_good, run_deploy, obtained, asked,
  connected, has_failed, reached, transfer, install_and_discard, installed, restarted, after_start,
  verify, judged, version_of, version_in, application_of, interrupting,
}
use reachy.Reachyctl.Deploy.Verified.{
  is_reading, preview_changes_nothing, Verified, good_deploy-Verified,
}
use reachy.Reachyctl.Deploy.Reported.{
  ExitCode, Report, report_for, emitted, executed, execute, Told, execute_tells,
}
use reachy.Settings.{
  Library, Setting, boolean, validate, validate_kind, validate_boolean, true_names,
}
use reachy.Settings.Acceptance.{KeepsBooleans, validate_is_stable}
use reachy.Checks.Reports.{IsReport, run_checks-IsReport}

abbrev day : List Use
day =
    attempts (returns tt)
    ∷ attempts (refuses "Lost connection")
    ∷ reports (refuses "timed out")
    ∷ reports (raises "ValueError")
    ∷ []

link_counts_example :
    ((run day DaemonLink.new).state ≡ last_state day up)
    × ((run day DaemonLink.new).refused_calls ≡ saturated (refusals day))
    × ((run day DaemonLink.new).outages ≡ saturated (falls day up))
link_counts_example = link_counts day

abbrev turn_at : Bool → ℕ → Turn
turn_at connected n = record {
  connected = connected;
  first = n;
  now = n;
  local = Perception.returns;
}

fallback-Switches_example :
    Switches 5000
      (turn_at true 9000)
      (turn_at true 4000 ∷ turn_at true 1000 ∷ turn_at false 500 ∷ [])
fallback-Switches_example =
    fallback-Switches 5000 (turn_at true 9000)
      (turn_at true 4000 ∷ turn_at true 1000 ∷ turn_at false 500 ∷ [])

abbrev check_of : String → List Requirement → Probed → Check
check_of name requires ends = record {
  identifier = name;
  description = name;
  requires = requires;
  remediation = record { explanation = "restart it"; command = "" };
  probe = λ c. ends;
}

abbrev context : CheckContext
context = record { supplied = λ r. elim r [ daemon ↦ true | _ ↦ false ]; unavailable = λ r. none }

abbrev checks : List Check
checks =
    check_of "daemon" (daemon ∷ [])
      (found (record { outcome = passed; summary = "it answers"; detail = measured [] }))
    ∷ check_of "application" (daemon ∷ [])
        (raised (record { class_name = "OSError"; text = "gone" }))
    ∷ check_of "models" (models ∷ []) (raised (record { class_name = "OSError"; text = "gone" }))
    ∷ []

abbrev observer : Observer
observer r = some (record { class_name = "ValueError"; text = "no terminal" })

run_checks-IsReport_example : IsReport context checks (run_checks context checks (some observer))
run_checks-IsReport_example = run_checks-IsReport context checks (some observer)

abbrev checked : Outcome → CheckResult
checked o = record {
  identifier = "application-installed";
  description = "";
  outcome = o;
  summary = "it answers";
  remediation = none;
  detail = measured (("application_version", "1.2.0") ∷ []);
}

abbrev carried_out : Commanded
carried_out = record { is_ok = true; complaint = "" }

abbrev robot : Robot
robot = record {
  daemon_unit = "reachy-mini-daemon.service";
  connect = Deploy.returns tt;
  guard_secrets = Deploy.returns tt;
  reachable = checked passed;
  installed_before = checked failed;
  running_before = checked failed;
  stage = Deploy.returns "/tmp/wheel";
  install = Deploy.returns carried_out;
  discard = Deploy.returns tt;
  restart = Deploy.returns carried_out;
  start = Deploy.returns carried_out;
  installed_after = checked passed;
  running_after = checked passed;
}

abbrev wheel : Wheel
wheel = record {
  distribution = "reachy-mini-ha-satellite";
  version = "1.2.0";
  file_name = "satellite.whl";
  size_bytes = 12;
  described = "satellite 1.2.0";
}

abbrev plan_of : Bool → DeployPlan
plan_of preview = record {
  obtain = Deploy.returns wheel;
  origin = "from the workspace";
  application = none;
  preview = preview;
}

preview_changes_nothing_example : All (λ c. is_reading c ≡ true) (run_deploy (plan_of true) robot).1
preview_changes_nothing_example = preview_changes_nothing (plan_of true) robot refl

abbrev deployed : Result String DeployOutcome → DeployOutcome
deployed (ok o) = o
deployed (err e) = record {
  steps = Steps.new;
  wheel = wheel;
  application = "";
  running_version = "";
  preview = true;
}

abbrev outcome : DeployOutcome
outcome = deployed (run_deploy (plan_of false) robot).0

returns_outcome : (run_deploy (plan_of false) robot).0 ≡ ok outcome
unfolding run_deploy obtained asked connected has_failed is_outcome reached transfer
    install_and_discard installed restarted after_start verify judged version_of version_in
    application_of interrupting step begins say any_failed is_failed is_ok is_good
returns_outcome = refl

ends_well : is_good outcome ≡ true
unfolding run_deploy obtained asked connected has_failed is_outcome reached transfer
    install_and_discard installed restarted after_start verify judged version_of version_in
    application_of interrupting step begins say any_failed is_failed is_ok is_good Steps.new
ends_well = refl

good_deploy-Verified_example : Verified robot outcome (run_deploy (plan_of false) robot).1
good_deploy-Verified_example =
    good_deploy-Verified (plan_of false) robot outcome refl returns_outcome ends_well

abbrev emitted_by : Result String (Report × ExitCode) → Report
emitted_by (ok x) = x.0
emitted_by (err e) = report_for "reachy.local" outcome

abbrev emitted_report : Report
emitted_report = emitted_by (execute (plan_of false) robot "reachy.local")

exits_well : execute (plan_of false) robot "reachy.local" ≡ ok (emitted_report, ExitCode.succeeded)
unfolding execute executed emitted report_for run_deploy obtained asked connected has_failed
    is_outcome reached transfer install_and_discard installed restarted after_start verify judged
    version_of version_in application_of interrupting step begins say any_failed is_failed is_ok
    is_good Steps.new
exits_well = refl

execute_tells_example : Told robot emitted_report ExitCode.succeeded
execute_tells_example =
    execute_tells (plan_of false) robot "reachy.local" emitted_report ExitCode.succeeded refl
      exits_well

-- It stands in for the library of Python.
abbrev library : Library ℕ
library = record {
  has_control = λ v. str_eq v "bell";
  fullmatch = λ p v. true;
  casefold = λ v. if str_eq v "YES" then "yes" else v;
  int = λ v. none;
  float = λ v. none;
  is_finite = λ n. true;
  less = λ m n. false;
  tenths = λ n. n;
  text = λ n. "?";
}

abbrev switch : Setting ℕ
switch = record {
  name = "REACHY_SWITCH";
  kind = boolean;
  description = "A switch.";
  pattern = "";
  maximum_length = none;
  minimum = none;
  maximum = none;
  choices = [];
  secret = false;
}

library-KeepsBooleans : KeepsBooleans library
library-KeepsBooleans = record {
  true_is_plain = refl;
  false_is_plain = refl;
  true_is_folded = refl;
  false_is_folded = refl;
}

switched_on : validate library switch "YES" ≡ ok "true"
unfolding validate validate_kind validate_boolean true_names is_member
switched_on = refl

validate_is_stable_example :
    (validate library switch "true" ≡ ok "true") × (library.has_control "true" ≡ false)
validate_is_stable_example =
    validate_is_stable library switch "YES" "true" library-KeepsBooleans switched_on
