-- ===== src/Reachyctl/Deploy/Verified.antt =====
-- deploy.py of reachyctl: what a deploy does to the robot, and what its verdict rests on.
use reachy.Prelude.{
  ◌≡◌, refl, subst, String, List, [], ◌∷◌, ◌++◌, Bool, true, false, not, ok, err, str_eq, eq_iff,
  if-cases, All, arith,
}
use reachy.Checks.{CheckResult}
use reachy.Reachyctl.Steps.{
  StepLog, StepResult, StepOutcome, done, skipped, failed, is_failed, begins, say, step, any_failed,
  is_ok,
}
use reachy.Reachyctl.Deploy.{
  Wheel, Answer, returns, raises, Commanded, Robot, RobotCall, connects, guards, checks, stages,
  installs, discards, restarts, starts, DeployPlan, DeployOutcome, is_good, Deploy, asked,
  has_failed, version_of, judged, verify, restarted, installed, install_and_discard, transfer,
  reached, connected, obtained, run_deploy,
}

asked-cases :
    {A : Type 0} (Q : Deploy → Type 0) (call : RobotCall) (answer : Answer A)
    (calls : List RobotCall) (next : A → List RobotCall → Deploy)
    → ((e : String) → Q (err e, calls ++ call ∷ []))
    → ((a : A) → Q (next a (calls ++ call ∷ [])))
    → Q (asked call answer calls next)
unfolding asked
asked-cases Q call (returns a) calls next x y = y a
asked-cases Q call (raises e) calls next x y = x e

-- A call that leaves the robot as it is.
unfoldable pub is_reading : RobotCall → Bool
is_reading connects = true
is_reading guards = true
is_reading checks = true
is_reading _ = false

abbrev IsReading : RobotCall → Type 0
IsReading c = is_reading c ≡ true

abbrev Reads : Deploy → Type 0
Reads r = All IsReading r.1

connected-Reads :
    (preview : Bool) (robot : Robot) (wheel : Wheel) (application : String) (steps : StepLog)
    → preview ≡ true
    → Reads (connected preview robot wheel application steps (connects ∷ guards ∷ []))
unfolding connected reached is_reading
connected-Reads false robot wheel application steps e = cc
connected-Reads true robot wheel application steps e =
    if-cases Reads (has_failed robot.reachable) _ _ (λ lost. (refl, (refl, (refl, tt))))
      (λ there. (refl, (refl, (refl, (refl, (refl, tt))))))

obtained-Reads :
    (plan : DeployPlan) (robot : Robot) (steps : StepLog) (answer : Answer Wheel)
    → plan.preview ≡ true
    → Reads (obtained plan robot steps answer)
unfolding obtained is_reading
obtained-Reads plan robot steps (raises e) p = tt
obtained-Reads plan robot steps (returns wheel) p =
    asked-cases Reads connects robot.connect [] _ (λ e. (refl, tt))
      (λ u.
        asked-cases Reads guards robot.guard_secrets (connects ∷ []) _ (λ e. (refl, (refl, tt)))
          (λ v. connected-Reads plan.preview robot wheel _ _ p))

-- A preview, whatever the robot answers, calls nothing but what reads: it stages, installs, discards,
-- restarts and starts nothing.
pub preview_changes_nothing :
    (plan : DeployPlan) (robot : Robot)
    → plan.preview ≡ true
    → All (λ c. is_reading c ≡ true) (run_deploy plan robot).1
unfolding run_deploy
preview_changes_nothing plan robot p = obtained-Reads plan robot _ plan.obtain p

failed-stays : (xs ys : List StepResult) → any_failed xs ≡ true → any_failed (xs ++ ys) ≡ true
unfolding any_failed
failed-stays [] ys e = cc
failed-stays (x ∷ xs) ys e = ground (arith, failed-stays xs ys)

failed-last :
    (xs : List StepResult) (r : StepResult)
    → is_failed r.outcome ≡ true
    → any_failed (xs ++ r ∷ []) ≡ true
unfolding any_failed
failed-last [] r e = ground arith
failed-last (x ∷ xs) r e = ground (arith, failed-last xs r e)

-- What a deploy that ends well rests on.
pub record Verified (robot : Robot) (o : DeployOutcome) (calls : List RobotCall) : Type 0 where
  pub version : o.running_version ≡ o.wheel.version
  pub reported : o.running_version ≡ version_of robot.installed_after.detail
  pub is_installed : has_failed robot.installed_after ≡ false
  pub is_running : has_failed robot.running_after ≡ false
  pub asked :
      calls
      ≡ connects ∷ guards ∷ checks ∷ checks ∷ checks ∷ stages ∷ installs ∷ discards ∷ restarts
        ∷ starts ∷ checks ∷ checks ∷ []

unfoldable IsVerified : Robot → Deploy → Type 0
IsVerified robot (ok o, calls) = is_good o ≡ true → Verified robot o calls
IsVerified robot (err e, calls) = Unit

-- A failed step fails the log, and so it stays.
step_fails :
    (log : StepLog) (name detail : String) → any_failed (step failed name detail log).results ≡ true
unfolding step say is_failed
step_fails log name detail = failed-last log.results _ refl

step_stays :
    (log : StepLog) (outcome : StepOutcome) (name detail : String)
    → any_failed log.results ≡ true
    → any_failed (step outcome name detail log).results ≡ true
unfolding step say
step_stays log outcome name detail bad = failed-stays log.results _ bad

not_good :
    (log : StepLog) (name detail : String) (A : Type 0)
    → is_ok (step failed name detail log) ≡ true
    → A
unfolding is_ok step say is_failed
not_good log name detail A e =
    let f =
      failed-last log.results (record { name = name; outcome = failed; detail = detail }) refl in
    ground arith

still_bad :
    (log : StepLog) (outcome : StepOutcome) (name detail : String) (A : Type 0)
    → any_failed log.results ≡ true
    → is_ok (step outcome name detail log) ≡ true
    → A
unfolding is_ok step say
still_bad log outcome name detail A bad e =
    let f =
      failed-stays log.results (record { name = name; outcome = outcome; detail = detail } ∷ [])
        bad in
    ground arith

-- The step that the verification adds cannot make good what failed before.
judged_bad :
    (wheel : Wheel) (application : String) (after running : CheckResult) (log : StepLog)
    (A : Type 0)
    → any_failed log.results ≡ true
    → is_ok (judged wheel application after running log) ≡ true
    → A
unfolding judged
judged_bad wheel application after running log A bad =
    if-cases (λ l. is_ok l ≡ true → A) (has_failed after) _ _
      (λ t e. still_bad log failed "verify" _ A bad e)
      (λ f.
        if-cases (λ l. is_ok l ≡ true → A) (not (str_eq (version_of after.detail) wheel.version)) _
          _ (λ t e. still_bad log failed "verify" _ A bad e)
          (λ f.
            if-cases (λ l. is_ok l ≡ true → A) (has_failed running) _ _
              (λ t e. still_bad log failed "verify" _ A bad e)
              (λ f e. still_bad log done "verify" _ A bad e)))

-- All that a deploy without a preview asks of the robot when nothing fails.
abbrev whole : List RobotCall
whole =
    connects ∷ guards ∷ checks ∷ checks ∷ checks ∷ stages ∷ installs ∷ discards ∷ restarts ∷ starts
    ∷ checks ∷ checks ∷ []

abbrev Judges : Robot → Wheel → String → StepLog → Type 0
Judges robot wheel application log =
    is_ok log ≡ true
    → Verified robot
        (record {
          steps = log;
          wheel = wheel;
          application = application;
          running_version = version_of robot.installed_after.detail;
          preview = false;
        })
        whole

judged-Judges :
    (robot : Robot) (wheel : Wheel) (application : String) (steps : StepLog)
    → Judges robot wheel application
        (judged wheel application robot.installed_after robot.running_after steps)
unfolding judged
judged-Judges robot wheel application steps =
    if-cases (Judges robot wheel application) (has_failed robot.installed_after) _ _
      (λ t e. not_good _ "verify" _ _ e)
      (λ there.
        if-cases (Judges robot wheel application)
          (not (str_eq (version_of robot.installed_after.detail) wheel.version)) _ _
          (λ t e. not_good _ "verify" _ _ e)
          (λ same.
            if-cases (Judges robot wheel application) (has_failed robot.running_after) _ _
              (λ t e. not_good _ "verify" _ _ e)
              (λ runs e. record {
                version = (eq_iff _ wheel.version).0 (ground arith);
                reported = refl;
                is_installed = there;
                is_running = runs;
                asked = refl;
              })))

module _ (robot : Robot) (wheel : Wheel) (application : String) where
  abbrev Fine : Deploy → Type 0
  Fine r = IsVerified robot r

  -- A verification after a failure is not good, whatever it finds.
  verify-bad :
      (steps : StepLog) (calls : List RobotCall)
      → any_failed steps.results ≡ true
      → Fine (verify robot wheel application steps calls)
  unfolding verify IsVerified is_good begins say
  verify-bad steps calls bad =
      judged_bad wheel application robot.installed_after robot.running_after _ _ bad

  verify-Fine :
      (steps : StepLog)
      → Fine (
          verify robot wheel application steps (
            connects ∷ guards ∷ checks ∷ checks ∷ checks ∷ stages ∷ installs ∷ discards ∷ restarts
            ∷ starts ∷ []))
  unfolding verify IsVerified is_good
  verify-Fine steps = judged-Judges robot wheel application _

  restarted-Fine :
      (steps : StepLog) (r : Commanded)
      → Fine (
          restarted robot wheel application steps r (
            connects ∷ guards ∷ checks ∷ checks ∷ checks ∷ stages ∷ installs ∷ discards ∷ restarts
            ∷ []))
  unfolding restarted IsVerified
  restarted-Fine steps r =
      if-cases Fine r.is_ok _ _
        (λ t. asked-cases Fine starts robot.start _ _ (λ e. tt) (λ s. verify-Fine _))
        (λ f. verify-bad _ _ (
          step_stays (step failed "restart" r.complaint steps) skipped "start" _
            (step_fails steps "restart" r.complaint)))

  installed-Fine :
      (steps : StepLog) (i : Commanded)
      → Fine (
          installed robot wheel application steps i
            (connects ∷ guards ∷ checks ∷ checks ∷ checks ∷ stages ∷ installs ∷ discards ∷ []))
  unfolding installed IsVerified
  installed-Fine steps i =
      if-cases Fine i.is_ok _ _
        (λ t. asked-cases Fine restarts robot.restart _ _ (λ e. tt) (λ r. restarted-Fine _ r))
        (λ f. verify-bad _ _ (
          step_stays _ skipped "start" _ (
            step_stays (step failed "install" i.complaint steps) skipped "restart" _
              (step_fails steps "install" i.complaint))))

  discarded-Fine :
      (steps : StepLog) (answer : Answer Commanded)
      → Fine (
          install_and_discard robot wheel application steps answer
            (connects ∷ guards ∷ checks ∷ checks ∷ checks ∷ stages ∷ []))
  unfolding install_and_discard IsVerified
  discarded-Fine steps (returns i) =
      asked-cases Fine discards robot.discard _ _ (λ e. tt) (λ u. installed-Fine steps i)
  discarded-Fine steps (raises e) = asked-cases Fine discards robot.discard _ _ (λ e. tt) (λ u. tt)

  transfer-Fine :
      (steps : StepLog)
      → Fine (
          transfer robot wheel application steps
            (connects ∷ guards ∷ checks ∷ checks ∷ checks ∷ []))
  unfolding transfer IsVerified
  transfer-Fine steps =
      asked-cases Fine stages robot.stage _ _ (λ e. tt) (λ staged. discarded-Fine _ robot.install)

  connected-Fine :
      (preview : Bool) (steps : StepLog)
      → preview ≡ false
      → Fine (connected preview robot wheel application steps (connects ∷ guards ∷ []))
  unfolding connected reached IsVerified is_good
  connected-Fine true steps p = cc
  connected-Fine false steps p =
      if-cases Fine (has_failed robot.reachable) _ _ (λ t e. not_good _ "reach" _ _ e)
        (λ f. transfer-Fine _)

obtained-IsVerified :
    (plan : DeployPlan) (robot : Robot) (steps : StepLog) (answer : Answer Wheel)
    → plan.preview ≡ false
    → IsVerified robot (obtained plan robot steps answer)
unfolding obtained IsVerified
obtained-IsVerified plan robot steps (raises e) p = tt
obtained-IsVerified plan robot steps (returns wheel) p =
    asked-cases (IsVerified robot) connects robot.connect [] _ (λ e. tt)
      (λ u.
        asked-cases (IsVerified robot) guards robot.guard_secrets (connects ∷ []) _ (λ e. tt)
          (λ v. connected-Fine robot wheel _ plan.preview _ p))

-- A deploy that is no preview and ends well, by its own report, rests on the robot: asked after the
-- restart it reports the wheel's version as installed, and the application as running; and the wheel was
-- staged, installed and discarded, and the daemon restarted and asked to start it, in that order.
pub good_deploy-Verified :
    (plan : DeployPlan) (robot : Robot) (o : DeployOutcome)
    → plan.preview ≡ false
    → (run_deploy plan robot).0 ≡ ok o
    → is_good o ≡ true
    → Verified robot o (run_deploy plan robot).1
unfolding run_deploy IsVerified
good_deploy-Verified plan robot o p e good =
    subst (λ r. IsVerified robot (r, (run_deploy plan robot).1)) e
      (obtained-IsVerified plan robot _ plan.obtain p) good
