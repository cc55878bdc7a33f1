-- ===== src/Reachyctl/Steps.antt =====
-- cli/reachyctl/src/reachyctl/steps.py: the steps of one run, recorded as they happen.
use reachy.Prelude.{String, List, [], ◌∷◌, ◌++◌, Bool, true, false, not, ◌||◌, concat}

pub data StepOutcome : Type 0 where
  done planned skipped warned failed : StepOutcome

unfoldable pub outcome_value : StepOutcome → String
outcome_value done = "done"
outcome_value planned = "planned"
outcome_value skipped = "skipped"
outcome_value warned = "warned"
outcome_value failed = "failed"

pub record StepResult : Type 0 where
  pub name : String
  pub outcome : StepOutcome
  pub detail : String

unfoldable pub is_failed : StepOutcome → Bool
is_failed failed = true
is_failed _ = false

-- `notes` are the lines that the reporter was given.
pub record StepLog : Type 0 where
  pub notes : List String
  pub results : List StepResult

unfoldable pub new : StepLog
new = record { notes = []; results = [] }

unfoldable pub say : String → StepLog → StepLog
say line log = record log { notes = log.notes ++ line ∷ [] }

-- `begin`.
unfoldable pub begins : String → String → StepLog → StepLog
begins name detail log = say (concat name (concat ": " detail)) log

-- `_record`, for `done`, `planned`, `skipped`, `warned` and `failed`.
unfoldable pub step : StepOutcome → String → String → StepLog → StepLog
step outcome name detail log =
    say (concat name (concat ": " (concat (outcome_value outcome) (concat " — " detail))))
      (record log {
        results = log.results ++ record { name = name; outcome = outcome; detail = detail } ∷ [];
      })

unfoldable pub any_failed : List StepResult → Bool
any_failed [] = false
any_failed (r ∷ rs) = let rest = any_failed rs in is_failed r.outcome || rest

unfoldable pub is_ok : StepLog → Bool
is_ok log = not (any_failed log.results)
