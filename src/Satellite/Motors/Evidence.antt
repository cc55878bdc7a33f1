-- ===== src/Satellite/Motors/Evidence.antt =====
-- motor_control.py of ha-satellite: what `physical_value` takes as evidence.
use reachy.Prelude.{
  ◌≡◌, refl, sym, subst, ◌⊎◌, String, List, [], ◌∷◌, Bool, true, false, Option, none, some, is_some,
  str_eq, eq_iff, is_member, is_unique, ◌↔◌, Bool-cases, true-prop, if◌then◌else◌, All, arith, inl,
  inr,
}
use mathlib.Core.List.{Mem, mem-cons, not-mem-nil, Mem-prop}
use mathlib.Core.Logic.Or
use reachy.Satellite.Motors.{
  MotorConfirmation, confirmed, contradicted, MotorEvidence, motor_identifier, is_allowed,
  is_complete, all_members, evidence_names, by_name, says, fits_identifier, joined, join,
  agreed_value, physical_value,
}

-- The names of the evidence are the expected ones, and neither has a name twice.
pub record Names (expected : List String) (evidence : List MotorEvidence) : Type 0 where
  pub once : is_unique (evidence_names evidence) ≡ true
  pub expected_once : is_unique expected ≡ true
  pub same : (name : String) → Mem name (evidence_names evidence) ↔ Mem name expected

is_member-Mem : (x : String) (ys : List String) → (is_member x ys ≡ true) ↔ Mem x ys
unfolding is_member
is_member-Mem x [] = (λ e. cc, λ m. absurd (not-mem-nil m))
is_member-Mem x (y ∷ ys) = elim (Bool-cases (str_eq x y)) [
  | inl same ↦ rw same (λ _. mem-cons.1 (Or.inl ((eq_iff x y).0 same)), λ _. refl)
  | inr other ↦ rw other (
    λ h. mem-cons.1 (Or.inr ((is_member-Mem x ys).0 h)),
    λ m.
        Or.elim (true-prop _) (mem-cons.0 m) (λ e. cc (other, (eq_iff x y).1 e))
          (is_member-Mem x ys).1,
  )
]

all_members-Mem :
    (x : String) (xs ys : List String) → all_members xs ys ≡ true → Mem x xs → Mem x ys
unfolding all_members
all_members-Mem x [] ys h m = absurd (not-mem-nil m)
all_members-Mem x (z ∷ zs) ys h m =
    Or.elim Mem-prop (mem-cons.0 m)
      (λ e. subst (λ n. Mem n ys) (sym e) ((is_member-Mem z ys).0 (ground arith)))
      (all_members-Mem x zs ys (ground arith))

is_complete-Names :
    (expected : List String) (evidence : List MotorEvidence)
    → is_complete expected evidence ≡ true
    → Names expected evidence
unfolding is_complete
is_complete-Names expected evidence h = record {
  once = ground arith;
  expected_once = ground arith;
  same = λ name. (
    all_members-Mem name (evidence_names evidence) expected (ground arith),
    all_members-Mem name expected (evidence_names evidence) (ground arith),
  );
}

-- A motor's own evidence that its torque is as said.
pub record IsEvidence (evidence : List MotorEvidence) (value : Bool) (name : String) : Type 0 where
  pub item : MotorEvidence
  pub given : Mem item evidence
  pub named : item.name ≡ name
  pub enabled : item.enabled ≡ some value
  pub no_error : item.error ≡ none
  pub is_known : is_some (motor_identifier name) ≡ true

chosen :
    {A : Type 0} (b : Bool) (x y : A) (rest : Option A)
    → (if b then some x else rest) ≡ some y
    → ((b ≡ true) × (x ≡ y)) ⊎ (rest ≡ some y)
chosen true x y rest h = inl (refl, cc)
chosen false x y rest h = inr h

by_name_lem :
    (name : String) (es : List MotorEvidence) (e : MotorEvidence)
    → by_name name es ≡ some e
    → Mem e es × (e.name ≡ name)
unfolding by_name
by_name_lem name [] e h = cc
by_name_lem name (d ∷ es) e h = elim (chosen (str_eq d.name name) d e (by_name name es) h) [
  | inl (same, it) ↦
      (mem-cons.1 (Or.inl (sym it)), subst (λ x. x.name ≡ name) it ((eq_iff d.name name).0 same))
  | inr rest ↦ let (given, named) = by_name_lem name es e rest in (mem-cons.1 (Or.inr given), named)
]

said :
    (evidence : List MotorEvidence) (name : String) (found : Option MotorEvidence) (value : Bool)
    → by_name name evidence ≡ found
    → says name found ≡ some value
    → IsEvidence evidence value name
unfolding says fits_identifier
said evidence name none value f h = cc
said evidence name (some e) value f h =
    let (given, named) = by_name_lem name evidence e f in
    record {
      item = e;
      given = given;
      named = named;
      enabled = ground arith;
      no_error = ground arith;
      is_known = ground arith;
    }

joined_lem :
    (a b : Option Bool) (value : Bool)
    → joined a b ≡ some value
    → (a ≡ some value) × (b ≡ some value)
unfolding joined join
joined_lem none b value h = cc
joined_lem (some true) none value h = cc
joined_lem (some true) (some true) value h = (h, h)
joined_lem (some true) (some false) value h = cc
joined_lem (some false) none value h = cc
joined_lem (some false) (some true) value h = cc
joined_lem (some false) (some false) value h = (h, h)

agreed_value_lem :
    (evidence : List MotorEvidence) (value : Bool) (names : List String)
    → agreed_value evidence names ≡ some value
    → All (IsEvidence evidence value) names
unfolding agreed_value
agreed_value_lem evidence value [] h = cc
agreed_value_lem evidence value (name ∷ []) h = (said evidence name _ value refl h, tt)
agreed_value_lem evidence value (name ∷ next ∷ names) h =
    let (first, rest) = joined_lem _ _ value h in
    (said evidence name _ value refl first, agreed_value_lem evidence value (next ∷ names) rest)

passed :
    (b : Bool) (v : Option Bool) (value : Bool)
    → (if b then v else none) ≡ some value
    → (b ≡ true) × (v ≡ some value)
passed true v value h = (refl, h)
passed false v value h = cc

-- A physical value is taken only from a confirmation that was acknowledged, was confirmed (or
-- contradicted, where that is allowed), and whose evidence names exactly the expected motors, each
-- once; and then every one of them has evidence of its own, with no error, that its torque is of that
-- value.
pub physical_value_lem :
    (c : MotorConfirmation) (expected : List String) (allow_contradiction value : Bool)
    → physical_value c expected allow_contradiction ≡ some value
    → (c.acknowledged ≡ true)
      × ((c.outcome ≡ confirmed) ⊎ ((allow_contradiction ≡ true) × (c.outcome ≡ contradicted)))
      × Names expected c.evidence
      × All (IsEvidence c.evidence value) expected
unfolding physical_value is_allowed
physical_value_lem c expected allow_contradiction value h =
    let (checks, agreed) = passed _ (agreed_value c.evidence expected) value h in
    (
      ground arith,
      ground arith,
      is_complete-Names expected c.evidence (ground arith),
      agreed_value_lem c.evidence value expected agreed,
    )
