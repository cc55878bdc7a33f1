-- ===== src/Checks/Reports.antt =====
-- packages/reachy-checks: what a run reports of each check, whatever the others and the observer do.
use reachy.Prelude.{
  ◌+◌, ◌≡◌, ◌≢◌, refl, sym, ap, ◌∙◌, subst, List, [], ◌∷◌, ◌++◌, map, length, Bool, true, false,
  Option, none, some, All, arith, if◌then◌else◌, if-cases,
}
use mathlib.Core.List.{append-nil, append_assoc}
use reachy.Checks.{
  Outcome, passed, failed, skipped, Remediation, Requirement, Finding, CheckResult, CheckContext,
  missing, Raised, Probed, found, raised, Check, remedy_for, probed, run_unless, run_check,
  CheckRun, Observer, observed, shown_to, checking, run_checks, is_outcome, ended, is_empty, first,
  is_ok, first_failure, Counts, tallied, tally, counts_of,
}

-- A remediation is there exactly if the outcome is a failure.
pub data Remedied (o : Outcome) (r : Remediation) (given : Option Remediation) : Type 0 where
  fixable : o ≡ failed → given ≡ some r → Remedied o r given
  nothing_broken : o ≢ failed → given ≡ none → Remedied o r given

remedy_for-Remedied : (o : Outcome) (r : Remediation) → Remedied o r (remedy_for o r)
unfolding remedy_for
remedy_for-Remedied passed r = nothing_broken (λ e. cc) refl
remedy_for-Remedied failed r = fixable refl refl
remedy_for-Remedied skipped r = nothing_broken (λ e. cc) refl

-- One of the requirements was not supplied.
pub data Unmet (context : CheckContext) : List Requirement → Type 0 where
  first_unmet :
      {r : Requirement} {rs : List Requirement}
      → context.supplied r ≡ false
      → Unmet context (r ∷ rs)
  later_unmet :
      {r : Requirement} {rs : List Requirement} → Unmet context rs → Unmet context (r ∷ rs)

missing-Unmet :
    (context : CheckContext) (q : Requirement) (qs rs : List Requirement)
    → missing context rs ≡ q ∷ qs
    → Unmet context rs
unfolding missing
missing-Unmet context q qs [] = λ e. cc
missing-Unmet context q qs (r ∷ rs) =
    if-cases (λ xs. xs ≡ q ∷ qs → Unmet context (r ∷ rs)) (context.supplied r) _ _
      (λ here e. later_unmet (missing-Unmet context q qs rs e)) (λ lacking e. first_unmet lacking)

missing-All :
    (context : CheckContext) (rs : List Requirement)
    → missing context rs ≡ []
    → All (λ r. context.supplied r ≡ true) rs
unfolding missing
missing-All context [] = λ e. tt
missing-All context (r ∷ rs) =
    if-cases (λ xs. xs ≡ [] → All (λ q. context.supplied q ≡ true) (r ∷ rs)) (context.supplied r) _
      _ (λ here e. (here, missing-All context rs e)) (λ lacking e. cc)

-- How a check ends, by what it requires and what its probe does.
pub data Verdict (context : CheckContext) (check : Check) (result : CheckResult) : Type 0 where
  lacks :
      Unmet context check.requires
      → result.outcome ≡ skipped
      → result.remediation ≡ none
      → Verdict context check result
  broke :
      (e : Raised)
      → All (λ r. context.supplied r ≡ true) check.requires
      → check.probe context ≡ raised e
      → result.outcome ≡ failed
      → result.remediation ≡ some check.remediation
      → Verdict context check result
  finds :
      (f : Finding)
      → All (λ r. context.supplied r ≡ true) check.requires
      → check.probe context ≡ found f
      → result.outcome ≡ f.outcome
      → Remedied f.outcome check.remediation result.remediation
      → Verdict context check result

-- The results are those of the checks, in order.
pub data Reports (context : CheckContext) : List Check → List CheckResult → Type 0 where
  done : Reports context [] []
  next :
      {check : Check} {checks : List Check} {result : CheckResult} {results : List CheckResult}
      → result.identifier ≡ check.identifier
      → Verdict context check result
      → Reports context checks results
      → Reports context (check ∷ checks) (result ∷ results)

probed-Verdict :
    (context : CheckContext) (check : Check) (p : Probed)
    → check.probe context ≡ p
    → missing context check.requires ≡ []
    → Verdict context check (probed check p)
unfolding probed
probed-Verdict context check (found f) e m =
    finds f (missing-All context check.requires m) e refl
      (remedy_for-Remedied f.outcome check.remediation)
probed-Verdict context check (raised x) e m =
    broke x (missing-All context check.requires m) e refl refl

run_unless-Verdict :
    (context : CheckContext) (check : Check) (rs : List Requirement)
    → missing context check.requires ≡ rs
    → Verdict context check (run_unless context check rs)
unfolding run_unless
run_unless-Verdict context check [] m = probed-Verdict context check (check.probe context) refl m
run_unless-Verdict context check (r ∷ rs) m =
    lacks (missing-Unmet context r rs check.requires m) refl refl

named :
    (context : CheckContext) (check : Check) (rs : List Requirement) (p : Probed)
    → check.probe context ≡ p
    → (run_unless context check rs).identifier ≡ check.identifier
unfolding run_unless probed
named context check [] p e = by p e
  where
    by :
        (p : Probed)
        → check.probe context ≡ p
        → (probed check (check.probe context)).identifier ≡ check.identifier
    by (found f) e = ap (λ q. (probed check q).identifier) e
    by (raised x) e = ap (λ q. (probed check q).identifier) e
named context check (r ∷ rs) p e = refl

map-Reports :
    (context : CheckContext) (checks : List Check)
    → Reports context checks (map (run_check context) checks)
unfolding run_check
map-Reports context [] = done
map-Reports context (check ∷ checks) =
    next (named context check _ (check.probe context) refl)
      (run_unless-Verdict context check (missing context check.requires) refl)
      (map-Reports context checks)

observed-results :
    (o : Option Raised) (check : Check) (run : CheckRun)
    → (observed check o run).results ≡ run.results
unfolding observed
observed-results none check run = refl
observed-results (some e) check run = refl

shown_to-results :
    (observer : Option Observer) (check : Check) (result : CheckResult) (run : CheckRun)
    → (shown_to observer check result run).results ≡ run.results
unfolding shown_to
shown_to-results none check result run = refl
shown_to-results (some observer) check result run = observed-results (observer result) check run

checking-results :
    (context : CheckContext) (observer : Option Observer) (checks : List Check) (run : CheckRun)
    → (checking context observer checks run).results ≡ run.results ++ map (run_check context) checks
unfolding checking
checking-results context observer [] run = sym (append-nil run.results)
checking-results context observer (check ∷ checks) run =
    checking-results context observer checks _
    ∙ ap (λ rs. rs ++ map (run_check context) checks)
        (shown_to-results observer check (run_check context check) _)
    ∙ append_assoc run.results (run_check context check ∷ []) (map (run_check context) checks)

count-step :
    (o : Outcome) (wanted : Outcome) (r : CheckResult) (rs : List CheckResult)
    → r.outcome ≡ o
    → length (ended wanted (r ∷ rs))
      ≡ (if is_outcome o wanted then 1 else 0) + length (ended wanted rs)
unfolding ended
count-step o wanted r rs e =
    subst
      (λ q.
        length (ended wanted (r ∷ rs))
        ≡ (if is_outcome q wanted then 1 else 0) + length (ended wanted rs))
      e
      (if-cases
        (λ xs.
          length xs ≡ (if is_outcome r.outcome wanted then 1 else 0) + length (ended wanted rs))
        (is_outcome r.outcome wanted) (r ∷ ended wanted rs) (ended wanted rs) (λ t. ground arith)
        (λ f. ground arith))

-- The numbers that the tally ends with.
record Tallies (rs : List CheckResult) (c d : Counts) : Type 0 where
  of_passed : d.passed_count ≡ length (ended passed rs) + c.passed_count
  of_failed : d.failed_count ≡ length (ended failed rs) + c.failed_count
  of_skipped : d.skipped_count ≡ length (ended skipped rs) + c.skipped_count
  of_all :
      length (ended passed rs) + length (ended failed rs) + length (ended skipped rs) ≡ length rs

tally-step :
    (o : Outcome) (r : CheckResult) (rs : List CheckResult) (c d : Counts)
    → r.outcome ≡ o
    → Tallies rs (tallied o c) d
    → Tallies (r ∷ rs) c d
unfolding tallied is_outcome
tally-step o r rs c d e t =
    let p = count-step o passed r rs e in
    let f = count-step o failed r rs e in
    let s = count-step o skipped r rs e in
    let tp = t.of_passed in
    let tf = t.of_failed in
    let ts = t.of_skipped in
    let ta = t.of_all in
    record {
      of_passed = ground arith;
      of_failed = ground arith;
      of_skipped = ground arith;
      of_all = ground arith;
    }

tally-Tallies : (rs : List CheckResult) (c : Counts) → Tallies rs c (tally rs c)
unfolding tally ended
tally-Tallies [] c = record {
  of_passed = omega arith;
  of_failed = omega arith;
  of_skipped = omega arith;
  of_all = omega arith;
}
tally-Tallies (r ∷ rs) c =
    tally-step r.outcome r rs c _ refl (tally-Tallies rs (tallied r.outcome c))

-- The earliest broken link.
pub data FirstFailed (r : CheckResult) : List CheckResult → Type 0 where
  here : {rs : List CheckResult} → r.outcome ≡ failed → FirstFailed r (r ∷ rs)
  later :
      {q : CheckResult} {rs : List CheckResult}
      → q.outcome ≢ failed
      → FirstFailed r rs
      → FirstFailed r (q ∷ rs)

-- What is said of the first failure, and whether the run is ok.
pub data Diagnosis (rs : List CheckResult) : Option CheckResult → Bool → Type 0 where
  healthy : All (λ r. r.outcome ≢ failed) rs → Diagnosis rs none true
  broken : (r : CheckResult) → FirstFailed r rs → Diagnosis rs (some r) false

diagnosed-after :
    (q : CheckResult) (rs : List CheckResult) (o : Option CheckResult) (b : Bool)
    → q.outcome ≢ failed
    → Diagnosis rs o b
    → Diagnosis (q ∷ rs) o b
diagnosed-after q rs _ _ n (healthy every) = healthy (n, every)
diagnosed-after q rs _ _ n (broken r f) = broken r (later n f)

diagnosed :
    (rs : List CheckResult) → Diagnosis rs (first (ended failed rs)) (is_empty (ended failed rs))
unfolding ended first is_empty is_outcome
diagnosed [] = healthy tt
diagnosed (q ∷ rs) =
    if-cases (λ xs. Diagnosis (q ∷ rs) (first xs) (is_empty xs)) (is_outcome q.outcome failed) _ _
      (λ t. broken q (here (is_outcome_lem q.outcome t)))
      (λ f. diagnosed-after q rs _ _ (is_not q.outcome f) (diagnosed rs))
  where
    is_outcome_lem : (o : Outcome) → is_outcome o failed ≡ true → o ≡ failed
    is_outcome_lem passed e = cc
    is_outcome_lem failed e = refl
    is_outcome_lem skipped e = cc

    is_not : (o : Outcome) → is_outcome o failed ≡ false → o ≢ failed
    is_not passed e = λ h. cc
    is_not failed e = cc
    is_not skipped e = λ h. cc

-- What a run says.
pub record IsReport (context : CheckContext) (checks : List Check) (run : CheckRun) : Type 0 where
  pub reports : Reports context checks run.results
  pub diagnosis : Diagnosis run.results (first_failure run) (is_ok run)
  pub of_passed : (counts_of run.results).passed_count ≡ length (ended passed run.results)
  pub of_failed : (counts_of run.results).failed_count ≡ length (ended failed run.results)
  pub of_skipped : (counts_of run.results).skipped_count ≡ length (ended skipped run.results)
  pub of_all :
      length (ended passed run.results)
        + length (ended failed run.results)
        + length (ended skipped run.results)
      ≡ length run.results

-- Whatever the probes and the observer do, a run has one result for each check, in order: skipped if a
-- requirement of its was not supplied, failed with the check's remediation if its probe raises, and otherwise
-- as its probe finds, with the remediation exactly if that is a failure. The run is ok if no result is
-- a failure, and otherwise names the first; the counts are those of the results that ended so, and add
-- up to all of them.
pub run_checks-IsReport :
    (context : CheckContext) (checks : List Check) (observer : Option Observer)
    → IsReport context checks (run_checks context checks observer)
unfolding run_checks first_failure is_ok counts_of is_outcome
run_checks-IsReport context checks observer =
    let run = run_checks context checks observer in
    let t =
      tally-Tallies run.results
        (record { passed_count = 0; failed_count = 0; skipped_count = 0 }) in
    let p = t.of_passed in
    let f = t.of_failed in
    let s = t.of_skipped in
    record {
      reports =
          subst (Reports context checks) (sym (checking-results context observer checks _))
            (map-Reports context checks);
      diagnosis = diagnosed run.results;
      of_passed = ground arith;
      of_failed = ground arith;
      of_skipped = ground arith;
      of_all = t.of_all;
    }
