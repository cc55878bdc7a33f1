-- ===== src/Checks.antt =====
-- packages/reachy-checks/src/reachy_checks: outcomes.py, context.py, runner.py and the `Check` of
-- registry.py, the checks of an installation and what a run of them reports. What a probe finds and what
-- the caller's observer does are arguments; of a resource only its presence matters here.
pub mod Reports
use reachy.Prelude.{
  ℕ, suc, ◌+◌, String, List, [], ◌∷◌, ◌++◌, map, length, Bool, true, false, not, Option, none, some,
  concat, decimal, str_eq, if◌then◌else◌,
}

pub data Outcome : Type 0 where
  passed failed skipped : Outcome

pub record Remediation : Type 0 where
  pub explanation : String
  pub command : String

unfoldable pub render : Remediation → String
render r =
    if str_eq r.command "" then r.explanation else concat r.explanation (concat " Run: " r.command)

pub data Requirement : Type 0 where
  daemon groundstation models intent : Requirement

unfoldable pub absent : Requirement → String
absent daemon = "no connection to the robot's daemon was supplied"
absent groundstation = "no groundstation endpoint and credential were supplied"
absent models = "no model directory was supplied"
absent intent = "nothing declares what this robot is supposed to be"

-- The measured values: of a probe, by their names and texts, or the requirements that were not met.
pub data Detail : Type 0 where
  measured : List (String × String) → Detail
  missing_requirements : List Requirement → Detail

pub record Finding : Type 0 where
  pub outcome : Outcome
  pub summary : String
  pub detail : Detail

pub record CheckResult : Type 0 where
  pub identifier : String
  pub description : String
  pub outcome : Outcome
  pub summary : String
  pub remediation : Option Remediation
  pub detail : Detail

-- Which resources were supplied, and why one was not.
pub record CheckContext : Type 0 where
  pub supplied : Requirement → Bool
  pub unavailable : Requirement → Option String

unfoldable pub missing : CheckContext → List Requirement → List Requirement
missing context [] = []
missing context (r ∷ rs) =
    let rest = missing context rs in if context.supplied r then rest else r ∷ rest

unfoldable pub reason : CheckContext → Requirement → String
reason context r = elim (context.unavailable r) [ none ↦ absent r | some text ↦ text ]

-- "; ".join, of the reasons.
unfoldable pub explain : CheckContext → List Requirement → String
explain context [] = ""
explain context (r ∷ []) = reason context r
explain context (r ∷ s ∷ rs) = concat (reason context r) (concat "; " (explain context (s ∷ rs)))

-- An exception, by its class and its text.
pub record Raised : Type 0 where
  pub class_name : String
  pub text : String

pub data Probed : Type 0 where
  found : Finding → Probed
  raised : Raised → Probed

pub record Check : Type 0 where
  pub identifier : String
  pub description : String
  pub requires : List Requirement
  pub remediation : Remediation
  pub probe : CheckContext → Probed

unfoldable pub told : Raised → String
told e = concat e.class_name (concat ": " e.text)

unfoldable pub remedy_for : Outcome → Remediation → Option Remediation
remedy_for failed r = some r
remedy_for _ r = none

unfoldable pub probed : Check → Probed → CheckResult
probed check (raised e) = record {
  identifier = check.identifier;
  description = check.description;
  outcome = failed;
  summary = concat "the check itself failed: " (told e);
  remediation = some check.remediation;
  detail = measured [];
}
probed check (found f) = record {
  identifier = check.identifier;
  description = check.description;
  outcome = f.outcome;
  summary = f.summary;
  remediation = remedy_for f.outcome check.remediation;
  detail = f.detail;
}

unfoldable pub run_unless : CheckContext → Check → List Requirement → CheckResult
run_unless context check [] = probed check (check.probe context)
run_unless context check (r ∷ rs) = record {
  identifier = check.identifier;
  description = check.description;
  outcome = skipped;
  summary = explain context (r ∷ rs);
  remediation = none;
  detail = missing_requirements (r ∷ rs);
}

unfoldable pub run_check : CheckContext → Check → CheckResult
run_check context check = run_unless context check (missing context check.requires)

pub record CheckRun : Type 0 where
  pub results : List CheckResult
  pub observer_failures : List String

-- What an observer does with a result: none if it returns.
abbrev pub Observer : Type 0
Observer = CheckResult → Option Raised

unfoldable pub observed : Check → Option Raised → CheckRun → CheckRun
observed check none run = run
observed check (some e) run = record run {
  observer_failures = run.observer_failures ++ concat check.identifier (concat ": " (told e)) ∷ [];
}

unfoldable pub shown_to : Option Observer → Check → CheckResult → CheckRun → CheckRun
shown_to none check result run = run
shown_to (some observer) check result run = observed check (observer result) run

unfoldable pub checking : CheckContext → Option Observer → List Check → CheckRun → CheckRun
checking context observer [] run = run
checking context observer (check ∷ checks) run = checking context observer checks (
    shown_to observer check (run_check context check)
      (record run { results = run.results ++ run_check context check ∷ [] }))

unfoldable pub run_checks : CheckContext → List Check → Option Observer → CheckRun
run_checks context checks observer =
    checking context observer checks (record { results = []; observer_failures = [] })

unfoldable pub is_outcome : Outcome → Outcome → Bool
is_outcome passed passed = true
is_outcome failed failed = true
is_outcome skipped skipped = true
is_outcome _ _ = false

-- `CheckRun.passed`, `failures` and `skipped`.
unfoldable pub ended : Outcome → List CheckResult → List CheckResult
ended o [] = []
ended o (r ∷ rs) = let rest = ended o rs in if is_outcome r.outcome o then r ∷ rest else rest

unfoldable pub is_empty : {A : Type 0} → List A → Bool
is_empty [] = true
is_empty (x ∷ xs) = false

unfoldable pub first : {A : Type 0} → List A → Option A
first [] = none
first (x ∷ xs) = some x

-- `CheckRun.ok`.
unfoldable pub is_ok : CheckRun → Bool
is_ok run = is_empty (ended failed run.results)

unfoldable pub first_failure : CheckRun → Option CheckResult
first_failure run = first (ended failed run.results)

unfoldable pub counts_text : List CheckResult → String
counts_text rs = concat (decimal (length (ended passed rs))) (
    concat " passed, " (
      concat (decimal (length (ended failed rs)))
        (concat " failed, " (concat (decimal (length (ended skipped rs))) " skipped"))))

unfoldable pub aside : List String → String
aside [] = ""
aside (f ∷ fs) =
    concat "; progress reporting itself failed " (concat (decimal (length (f ∷ fs))) " time(s)")

unfoldable pub summary_of : Option CheckResult → Bool → String → String
summary_of (some broken) all counts = concat "the first broken link is " (
    concat broken.identifier
      (concat ": " (concat broken.summary (concat " (" (concat counts ")")))))
summary_of none false counts =
    concat "nothing failed, but not everything was checked (" (concat counts ")")
summary_of none true counts = concat "every link is healthy (" (concat counts ")")

unfoldable pub summary : CheckRun → String
summary run =
    concat
      (summary_of (first_failure run) (is_empty (ended skipped run.results))
        (counts_text run.results))
      (aside run.observer_failures)

-- The tally by outcome: passed, failed, skipped.
pub record Counts : Type 0 where
  pub passed_count : ℕ
  pub failed_count : ℕ
  pub skipped_count : ℕ

unfoldable pub tallied : Outcome → Counts → Counts
tallied passed c = record c { passed_count = suc c.passed_count }
tallied failed c = record c { failed_count = suc c.failed_count }
tallied skipped c = record c { skipped_count = suc c.skipped_count }

unfoldable pub tally : List CheckResult → Counts → Counts
tally [] c = c
tally (r ∷ rs) c = tally rs (tallied r.outcome c)

unfoldable pub counts_of : List CheckResult → Counts
counts_of rs = tally rs (record { passed_count = 0; failed_count = 0; skipped_count = 0 })
