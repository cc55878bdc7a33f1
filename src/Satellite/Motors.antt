-- ===== src/Satellite/Motors.antt =====
-- apps/ha-satellite/src/reachy_mini_ha_satellite/motor_control.py: what the daemon confirms about the
-- torque of a group of motors.
pub mod Evidence
pub mod Coordinator
pub mod Operation
pub mod Runs
pub mod Safety
use reachy.Prelude.{
  ℕ, String, List, [], ◌∷◌, Bool, true, false, not, ◌&&◌, ◌||◌, Option, none, some, map, ◌==◌,
  is_some, is_none, is_member, is_unique, str_eq, if◌then◌else◌,
}

pub data MotorGroup : Type 0 where
  head body antennas : MotorGroup

-- `MOTOR_GROUPS`.
unfoldable pub motor_names : MotorGroup → List String
motor_names head =
    "stewart_1" ∷ "stewart_2" ∷ "stewart_3" ∷ "stewart_4" ∷ "stewart_5" ∷ "stewart_6" ∷ []
motor_names body = "body_rotation" ∷ []
motor_names antennas = "right_antenna" ∷ "left_antenna" ∷ []

-- `MOTOR_IDENTIFIERS.get`.
unfoldable pub motor_identifier : String → Option ℕ
motor_identifier name =
    if str_eq name "body_rotation"
    then some 10
    else if str_eq name "stewart_1"
    then some 11
    else if str_eq name "stewart_2"
    then some 12
    else if str_eq name "stewart_3"
    then some 13
    else if str_eq name "stewart_4"
    then some 14
    else if str_eq name "stewart_5"
    then some 15
    else if str_eq name "stewart_6"
    then some 16
    else if str_eq name "right_antenna"
    then some 17
    else if str_eq name "left_antenna"
    then some 18
    else none

pub data MotorConfirmationOutcome : Type 0 where
  confirmed contradicted partial failed unavailable : MotorConfirmationOutcome

pub data MotorEvidenceError : Type 0 where
  invalid_request duplicate_motor unknown_motor write_failed read_failed invalid_register_value :
      MotorEvidenceError

-- Its constructor sees to it that exactly one of `enabled` and `error` is there.
pub record MotorEvidence : Type 0 where
  pub name : String
  pub motor_id : Option ℕ
  pub enabled : Option Bool
  pub error : Option MotorEvidenceError

pub record MotorConfirmation : Type 0 where
  pub acknowledged : Bool
  pub outcome : MotorConfirmationOutcome
  pub evidence : List MotorEvidence

unfoldable pub failed_confirmation : MotorConfirmation
failed_confirmation = record { acknowledged = false; outcome = failed; evidence = [] }

unfoldable pub is_allowed : Bool → MotorConfirmationOutcome → Bool
is_allowed allow_contradiction confirmed = true
is_allowed allow_contradiction contradicted = allow_contradiction
is_allowed allow_contradiction _ = false

unfoldable pub all_members : List String → List String → Bool
all_members [] ys = true
all_members (x ∷ xs) ys = let rest = all_members xs ys in is_member x ys && rest

abbrev pub evidence_names : List MotorEvidence → List String
evidence_names evidence = map (λ e. e.name) evidence

-- The names of the evidence are the expected ones, each once.
unfoldable pub is_complete : List String → List MotorEvidence → Bool
is_complete expected evidence =
    is_unique (evidence_names evidence)
    && (all_members (evidence_names evidence) expected
        && (all_members expected (evidence_names evidence) && is_unique expected))

-- Whether each, or none, has an identifier.
unfoldable pub all_identified : Bool → List MotorEvidence → Bool
all_identified b [] = true
all_identified b (e ∷ es) =
    let rest = all_identified b es in (if is_some e.motor_id then b else not b) && rest

unfoldable pub ids_agree : List MotorEvidence → Bool
ids_agree [] = false
ids_agree (e ∷ es) = all_identified (is_some e.motor_id) es

-- `by_name[name]`, where the names are distinct.
unfoldable pub by_name : String → List MotorEvidence → Option MotorEvidence
by_name name [] = none
by_name name (e ∷ es) = let rest = by_name name es in if str_eq e.name name then some e else rest

fits_identifier : Option ℕ → Option ℕ → Bool
fits_identifier none motor_id = false
fits_identifier (some expected) none = true
fits_identifier (some expected) (some motor_id) = motor_id == expected

-- What one motor's evidence says, if it has no error and no other motor's identifier.
unfoldable pub says : String → Option MotorEvidence → Option Bool
unfolding fits_identifier
says name none = none
says name (some e) =
    if is_none e.error && fits_identifier (motor_identifier name) e.motor_id
    then e.enabled
    else none

join : Bool → Option Bool → Option Bool
join v none = none
join true (some true) = some true
join false (some false) = some false
join _ (some _) = none

unfoldable pub joined : Option Bool → Option Bool → Option Bool
unfolding join
joined none rest = none
joined (some v) rest = join v rest

-- The one value of all the expected motors.
unfoldable pub agreed_value : List MotorEvidence → List String → Option Bool
unfolding joined
agreed_value evidence [] = none
agreed_value evidence (name ∷ []) = says name (by_name name evidence)
agreed_value evidence (name ∷ next ∷ names) =
    let rest = agreed_value evidence (next ∷ names) in
    joined (says name (by_name name evidence)) rest

unfoldable pub physical_value : MotorConfirmation → List String → Bool → Option Bool
physical_value c expected allow_contradiction =
    if c.acknowledged
      && (is_allowed allow_contradiction c.outcome
          && (is_complete expected c.evidence && ids_agree c.evidence))
    then agreed_value c.evidence expected
    else none
