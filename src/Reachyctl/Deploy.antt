-- ===== src/Reachyctl/Deploy.antt =====
-- cli/reachyctl/src/reachyctl/deploy.py: a deploy, from the wheel to the verification. What the robot
-- answers to each call is an argument, and `calls` is what is asked of it, in order.
pub mod Verified
pub mod Reported
use reachy.Prelude.{
  ℕ, String, List, [], ◌∷◌, ◌++◌, Bool, true, false, not, ◌&&◌, Option, none, some, Result, ok, err,
  concat, decimal, str_eq, if◌then◌else◌,
}
use reachy.Checks.{CheckResult, Outcome, Detail, measured, missing_requirements}
use reachy.Checks
use reachy.Reachyctl.Steps.{
  StepLog, StepOutcome, done, planned, skipped, warned, failed, begins, say, step, is_ok,
}
use reachy.Reachyctl.Steps

-- `described` is what its `describe` says.
pub record Wheel : Type 0 where
  pub distribution : String
  pub version : String
  pub file_name : String
  pub size_bytes : ℕ
  pub described : String

-- A call that returns, or raises a `CommandError`.
pub data Answer (A : Type 0) : Type 0 where
  returns : A → Answer A
  raises : String → Answer A

-- What a command on the robot came to.
pub record Commanded : Type 0 where
  pub is_ok : Bool
  pub complaint : String

-- What the robot answers; the checks are asked twice, before and after.
pub record Robot : Type 0 where
  pub daemon_unit : String
  pub connect : Answer (Unit {0})
  pub guard_secrets : Answer (Unit {0})
  pub reachable : CheckResult
  pub installed_before : CheckResult
  pub running_before : CheckResult
  pub stage : Answer String
  pub install : Answer Commanded
  pub discard : Answer (Unit {0})
  pub restart : Answer Commanded
  pub start : Answer Commanded
  pub installed_after : CheckResult
  pub running_after : CheckResult

pub data RobotCall : Type 0 where
  connects guards checks stages installs discards restarts starts : RobotCall

pub record DeployPlan : Type 0 where
  pub obtain : Answer Wheel
  pub origin : String
  pub application : Option String
  pub preview : Bool

pub record DeployOutcome : Type 0 where
  pub steps : StepLog
  pub wheel : Wheel
  pub application : String
  pub running_version : String
  pub preview : Bool

unfoldable pub is_good : DeployOutcome → Bool
is_good o = is_ok o.steps

abbrev pub Deploy : Type 0
Deploy = Result String DeployOutcome × List RobotCall

-- A call of the robot, and what comes after it.
unfoldable pub asked :
    {A : Type 0} → RobotCall → Answer A → List RobotCall → (A → List RobotCall → Deploy) → Deploy
asked call (returns a) calls next = next a (calls ++ call ∷ [])
asked call (raises e) calls next = (err e, calls ++ call ∷ [])

unfoldable pub has_failed : CheckResult → Bool
has_failed r = Checks.is_outcome r.outcome Outcome.failed

unfoldable pub version_in : List (String × String) → String
version_in [] = ""
version_in ((key, value) ∷ rest) =
    let later = version_in rest in if str_eq key "application_version" then value else later

-- `_version_of`.
unfoldable pub version_of : Detail → String
version_of (measured values) = version_in values
version_of (missing_requirements rs) = ""

unfoldable pub or_text : String → String → String
or_text text other = if str_eq text "" then other else text

unfoldable pub restart_warning : String
restart_warning =
    "the daemon is about to be restarted, which interrupts whatever the robot is doing — including a conversation in progress"

-- `_preview`.
unfoldable pub previewed : Wheel → String → String → StepLog → StepLog
previewed wheel application installed steps =
    step planned "verify"
      (concat "would then require the robot to report " (concat wheel.version " running"))
      (step planned "start" (concat "would start " application) (
        step planned "restart" (concat "would restart the daemon — " restart_warning) (
          step planned "install"
            (concat "would install " (
              concat application (
                concat " " (concat wheel.version (concat " over " (or_text installed "nothing"))))))
            (step planned "transfer"
              (concat "would send " (concat (decimal wheel.size_bytes) " bytes to the robot"))
              steps))))

unfoldable pub judged : Wheel → String → CheckResult → CheckResult → StepLog → StepLog
judged wheel application after running steps =
    let version = version_of after.detail in
    if has_failed after
    then step failed "verify" after.summary steps
    else if not (str_eq version wheel.version)
    then step failed "verify"
        (concat "the robot is running " (
          concat application (
            concat " " (
              concat (or_text version "an unnamed build") (
                concat ", not the " (
                  concat wheel.version
                    " that was just installed; the install went somewhere the daemon is not reading"))))))
        steps
    else if has_failed running
    then step failed "verify"
        (concat application (
          concat " "
            (concat version (concat " is installed but is not running: " running.summary))))
        steps
    else step done "verify"
        (concat "the robot is running " (concat application (concat " " version))) steps

-- `_verify`.
unfoldable pub verify : Robot → Wheel → String → StepLog → List RobotCall → Deploy
verify robot wheel application steps calls = (
  ok (record {
    steps =
        judged wheel application robot.installed_after robot.running_after
          (begins "verify" "asking the robot what version it is running now" steps);
    wheel = wheel;
    application = application;
    running_version = version_of robot.installed_after.detail;
    preview = false;
  }),
  calls ++ checks ∷ checks ∷ [],
)

unfoldable pub after_start : Commanded → StepLog → StepLog
after_start started steps =
    if started.is_ok
    then step done "start" "the daemon accepted the start" steps
    else step warned "start" started.complaint steps

unfoldable pub restarted : Robot → Wheel → String → StepLog → Commanded → List RobotCall → Deploy
restarted robot wheel application steps r calls =
    if r.is_ok
    then asked starts robot.start calls (λ s done_calls.
      verify robot wheel application
        (after_start s (
          begins "start" (concat "asking the daemon to start " application)
            (step done "restart" "the daemon restarted" steps)))
        done_calls)
    else verify robot wheel application
        (step skipped "start" "the daemon did not restart, so there is nothing to start"
          (step failed "restart" r.complaint steps))
        calls

unfoldable pub installed : Robot → Wheel → String → StepLog → Commanded → List RobotCall → Deploy
installed robot wheel application steps i calls =
    if i.is_ok
    then asked restarts robot.restart calls (
        restarted robot wheel application (
          begins "restart" (concat "restarting " robot.daemon_unit) (
            say restart_warning (
              step done "install" "the install reported success, which proves nothing yet" steps))))
    else verify robot wheel application
        (step skipped "start" "nothing new was installed to start" (
          step skipped "restart"
            "the install failed, so restarting would interrupt the robot for nothing"
            (step failed "install" i.complaint steps)))
        calls

-- `install_wheel`, with `discard` in the `finally`.
unfoldable pub install_and_discard :
    Robot → Wheel → String → StepLog → Answer Commanded → List RobotCall → Deploy
install_and_discard robot wheel application steps (returns i) calls =
    asked discards robot.discard (calls ++ installs ∷ [])
      (λ u. installed robot wheel application steps i)
install_and_discard robot wheel application steps (raises e) calls =
    asked discards robot.discard (calls ++ installs ∷ []) (λ u done_calls. (err e, done_calls))

unfoldable pub transfer : Robot → Wheel → String → StepLog → List RobotCall → Deploy
transfer robot wheel application steps calls = asked stages robot.stage calls (λ staged.
    install_and_discard robot wheel application
      (begins "install" "installing into the environment the daemon runs applications from" (
        step done "transfer" (concat "the wheel is at " staged) (
          begins "transfer"
            (concat "sending " (concat (decimal wheel.size_bytes) " bytes to the robot")) steps)))
      robot.install)

unfoldable pub interrupting : CheckResult → StepLog → StepLog
interrupting running steps =
    if has_failed running
    then steps
    else say
        (concat "the application is running on the robot ("
          (concat running.summary "); deploying will interrupt it"))
        steps

unfoldable pub reached : Bool → Robot → Wheel → String → StepLog → List RobotCall → Deploy
reached preview robot wheel application steps calls =
    if preview
    then (
      ok (record {
        steps = previewed wheel application (version_of robot.installed_before.detail) steps;
        wheel = wheel;
        application = application;
        running_version = version_of robot.installed_before.detail;
        preview = true;
      }),
      calls ++ checks ∷ checks ∷ [],
    )
    else transfer robot wheel application steps (calls ++ checks ∷ checks ∷ [])

unfoldable pub connected : Bool → Robot → Wheel → String → StepLog → List RobotCall → Deploy
connected preview robot wheel application steps calls =
    if has_failed robot.reachable
    then (
      ok (record {
        steps = step failed "reach" robot.reachable.summary steps;
        wheel = wheel;
        application = application;
        running_version = "";
        preview = preview;
      }),
      calls ++ checks ∷ [],
    )
    else reached preview robot wheel application
        (interrupting robot.running_before (step done "reach" robot.reachable.summary steps))
        (calls ++ checks ∷ [])

-- `plan.application or wheel.distribution`.
unfoldable pub application_of : Option String → Wheel → String
application_of none wheel = wheel.distribution
application_of (some name) wheel = or_text name wheel.distribution

unfoldable pub obtained : DeployPlan → Robot → StepLog → Answer Wheel → Deploy
obtained plan robot steps (raises e) = (err e, [])
obtained plan robot steps (returns wheel) =
    let application = application_of plan.application wheel in
    asked connects robot.connect [] (λ u calls. asked guards robot.guard_secrets calls (λ v.
      connected plan.preview robot wheel application (
        begins "reach" "asking the robot whether its daemon is answering"
          (step done "build" wheel.described steps))))

unfoldable pub run_deploy : DeployPlan → Robot → Deploy
run_deploy plan robot =
    obtained plan robot (begins "build" (concat "obtaining the wheel " plan.origin) Steps.new)
      plan.obtain
