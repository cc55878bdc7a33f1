-- ===== src/Settings/Acceptance.antt =====
-- settings.py of reachy_contracts: the validation of settings, and of what it wrote before.
use reachy.Prelude.{
  ◌≡◌, refl, sym, ap, subst, ◌∙◌, String, List, [], ◌∷◌, ◌++◌, Bool, true, false, not, ◌&&◌, Option,
  none, some, Result, ok, err, str_eq, is_member, if◌then◌else◌, if-cases, All, All-append,
}
use mathlib.Core.List.{append-nil, append_assoc}
use reachy.Settings.{
  Library, SettingKind, text, integer, number, boolean, choice, Setting, true_names, false_names,
  validate_text, too_long, too_low, too_high, validate_bounds, validate_boolean, validate_kind,
  validate, find_setting, robot_settings, validate_found, validate_setting, validated, validate_all,
  settled, validate_settings,
}

-- What the library does with the two texts that a Boolean setting is written as.
pub record KeepsBooleans {N : Type 0} (lib : Library N) : Type 0 where
  pub true_is_plain : lib.has_control "true" ≡ false
  pub false_is_plain : lib.has_control "false" ≡ false
  pub true_is_folded : lib.casefold "true" ≡ "true"
  pub false_is_folded : lib.casefold "false" ≡ "false"

module _ {N : Type 0} (lib : Library N) where
  -- A value that comes out of a validation: it is what was given, or what a Boolean is written as.
  data Comes (kind : SettingKind) (value written : String) : Type 0 where
    same : written ≡ value → Comes kind value written
    as_true : kind ≡ boolean → written ≡ "true" → Comes kind value written
    as_false : kind ≡ boolean → written ≡ "false" → Comes kind value written

  data ComesFrom (kind : SettingKind) (value : String) : Result String String → Type 0 where
    comes : {written : String} → Comes kind value written → ComesFrom kind value (ok written)
    refused : {e : String} → ComesFrom kind value (err e)

  given_by :
      {kind : SettingKind} {value written : String}
      → ComesFrom kind value (ok written)
      → Comes kind value written
  given_by (comes c) = c

  text-Comes : (s : Setting N) (value : String) → ComesFrom text value (validate_text lib s value)
  unfolding validate_text
  text-Comes s value =
      if-cases (ComesFrom text value)
        (not (str_eq s.pattern "") && not (lib.fullmatch s.pattern value)) _ _ (λ t. refused)
        (λ f.
          if-cases (ComesFrom text value) (too_long lib s.maximum_length value) _ _ (λ t. refused)
            (λ f. comes (same refl)))

  bounds-Comes :
      (kind : SettingKind) (s : Setting N) (value : String) (n : Option N)
      → ComesFrom kind value (validate_bounds lib s value n)
  unfolding validate_bounds
  bounds-Comes kind s value none = refused
  bounds-Comes kind s value (some n) =
      if-cases (ComesFrom kind value) (too_low lib s.minimum n) _ _ (λ t. refused)
        (λ f.
          if-cases (ComesFrom kind value) (too_high lib s.maximum n) _ _ (λ t. refused)
            (λ f. comes (same refl)))

  boolean-Comes :
      (s : Setting N) (value : String) → ComesFrom boolean value (validate_boolean lib s value)
  unfolding validate_boolean
  boolean-Comes s value =
      if-cases (ComesFrom boolean value) (is_member (lib.casefold value) true_names) _ _
        (λ t. comes (as_true refl refl))
        (λ f.
          if-cases (ComesFrom boolean value) (is_member (lib.casefold value) false_names) _ _
            (λ t. comes (as_false refl refl)) (λ f. refused))

  kind-Comes :
      (kind : SettingKind) (s : Setting N) (value : String)
      → ComesFrom kind value (validate_kind lib kind s value)
  unfolding validate_kind
  kind-Comes text s value = text-Comes s value
  kind-Comes choice s value =
      if-cases (ComesFrom choice value) (is_member value s.choices) _ _ (λ t. comes (same refl))
        (λ f. refused)
  kind-Comes boolean s value = boolean-Comes s value
  kind-Comes integer s value = bounds-Comes integer s value _
  kind-Comes number s value = bounds-Comes number s value _

  validate-Comes : (s : Setting N) (value : String) → ComesFrom s.kind value (validate lib s value)
  unfolding validate
  validate-Comes s value =
      if-cases (ComesFrom s.kind value) (lib.has_control value) _ _ (λ t. refused)
        (λ f. kind-Comes s.kind s value)

  -- Both texts of a Boolean setting are accepted as they are.
  module _ (keeps : KeepsBooleans lib) where
    true-named : is_member (lib.casefold "true") true_names ≡ true
    unfolding true_names is_member
    true-named = subst (λ c. is_member c true_names ≡ true) (sym keeps.true_is_folded) refl

    false-unnamed : is_member (lib.casefold "false") true_names ≡ false
    unfolding true_names is_member
    false-unnamed = subst (λ c. is_member c true_names ≡ false) (sym keeps.false_is_folded) refl

    false-named : is_member (lib.casefold "false") false_names ≡ true
    unfolding false_names is_member
    false-named = subst (λ c. is_member c false_names ≡ true) (sym keeps.false_is_folded) refl

    as_true-again : (s : Setting N) → s.kind ≡ boolean → validate lib s "true" ≡ ok "true"
    unfolding validate validate_kind validate_boolean
    as_true-again s k = rw (keeps.true_is_plain, k, true-named) refl

    as_false-again : (s : Setting N) → s.kind ≡ boolean → validate lib s "false" ≡ ok "false"
    unfolding validate validate_kind validate_boolean
    as_false-again s k = rw (keeps.false_is_plain, k, false-unnamed, false-named) refl

    again :
        (s : Setting N) (value written : String)
        → validate lib s value ≡ ok written
        → Comes s.kind value written
        → validate lib s written ≡ ok written
    again s value written e (same w) = subst (λ v. validate lib s v ≡ ok written) (sym w) e
    again s value written e (as_true k w) =
        subst (λ v. validate lib s v ≡ ok v) (sym w) (as_true-again s k)
    again s value written e (as_false k w) =
        subst (λ v. validate lib s v ≡ ok v) (sym w) (as_false-again s k)

    validate_again :
        (s : Setting N) (value written : String)
        → validate lib s value ≡ ok written
        → validate lib s written ≡ ok written
    validate_again s value written e =
        again s value written e
          (given_by (subst (ComesFrom s.kind value) e (validate-Comes s value)))

    found-again :
        (shown : String) (s : Option (Setting N)) (value written : String)
        → validate_found lib shown s value ≡ ok written
        → validate_found lib shown s written ≡ ok written
    unfolding validate_found
    found-again shown none value written e = cc
    found-again shown (some s) value written e = validate_again s value written e

    module _ (repr : String → String) where
      setting-again :
          (name value written : String)
          → validate_setting lib repr name value ≡ ok written
          → validate_setting lib repr name written ≡ ok written
      unfolding validate_setting
      setting-again name value written e =
          found-again (repr name) (find_setting lib name (robot_settings lib)) value written e

      -- Each value that is accepted is accepted again, as it is.
      abbrev Stays : List (String × String) → Type 0
      Stays xs = All (λ x. validate_setting lib repr x.0 x.1 ≡ ok x.1) xs

      validated-Stays :
          (name value : String) (r : Result String String) (accepted : List (String × String))
          (problems : List String)
          → validate_setting lib repr name value ≡ r
          → Stays accepted
          → Stays (validated lib name r (accepted, problems)).0
      unfolding validated
      validated-Stays name value (ok written) accepted problems e i =
          All-append _ accepted _ i (setting-again name value written e, tt)
      validated-Stays name value (err p) accepted problems e i = i

      all-Stays :
          (declared accepted : List (String × String)) (problems : List String)
          → Stays accepted
          → Stays (validate_all lib repr declared (accepted, problems)).0
      unfolding validate_all
      all-Stays [] accepted problems i = i
      all-Stays ((name, value) ∷ declared) accepted problems i =
          all-Stays declared _ _ (validated-Stays name value _ accepted problems refl i)

      -- What stays is taken as it is, and nothing is complained of.
      validate_all_lem :
          (declared accepted : List (String × String))
          → Stays declared
          → validate_all lib repr declared (accepted, []) ≡ (accepted ++ declared, [])
      unfolding validate_all validated
      validate_all_lem [] accepted s = ap (λ xs. (xs, [])) (sym (append-nil accepted))
      validate_all_lem ((name, value) ∷ declared) accepted (e, s) =
          ap (λ r. validate_all lib repr declared (validated lib name r (accepted, []))) e
          ∙ validate_all_lem declared (accepted ++ (name, value) ∷ []) s
          ∙ ap (λ xs. (xs, [])) (append_assoc accepted ((name, value) ∷ []) declared)

      settled_lem :
          (found : List (String × String) × List String) (accepted : List (String × String))
          → settled lib found ≡ ok accepted
          → found.0 ≡ accepted
      unfolding settled
      settled_lem (xs, []) accepted e = cc
      settled_lem (xs, problem ∷ problems) accepted e = cc

-- A declaration that is accepted is written in such a way that it is accepted again, unchanged, if the
-- texts "true" and "false" are their own case folding and have no control character.
validate_settings_is_stable :
    {N : Type 0} (lib : Library N) (repr : String → String)
    (declared accepted : List (String × String))
    → KeepsBooleans lib
    → validate_settings lib repr declared ≡ ok accepted
    → validate_settings lib repr accepted ≡ ok accepted
unfolding validate_settings settled
validate_settings_is_stable lib repr declared accepted keeps e =
    let found = settled_lem lib keeps repr (validate_all lib repr declared ([], [])) accepted e in
    let stays = all-Stays lib keeps repr declared [] [] tt in
    ap (settled lib) (
      validate_all_lem lib keeps repr accepted []
        (subst (All (λ x. validate_setting lib repr x.0 x.1 ≡ ok x.1)) found stays))

let_through :
    (b : Bool) (e : String) (r : Result String String) (written : String)
    → (if b then err e else r) ≡ ok written
    → b ≡ false
let_through true e r written h = cc
let_through false e r written h = refl

written_plain :
    {N : Type 0} (lib : Library N) (kind : SettingKind) (value written : String)
    → KeepsBooleans lib
    → lib.has_control value ≡ false
    → Comes lib kind value written
    → lib.has_control written ≡ false
written_plain lib kind value written keeps plain (same w) = ap lib.has_control w ∙ plain
written_plain lib kind value written keeps plain (as_true k w) =
    ap lib.has_control w ∙ keeps.true_is_plain
written_plain lib kind value written keeps plain (as_false k w) =
    ap lib.has_control w ∙ keeps.false_is_plain

-- What the validation of a setting of any kind writes has no control character and is accepted again,
-- unchanged, if the texts "true" and "false" are their own case folding and have no control character.
pub validate_is_stable :
    {N : Type 0} (lib : Library N) (s : Setting N) (value written : String)
    → KeepsBooleans lib
    → validate lib s value ≡ ok written
    → (validate lib s written ≡ ok written) × (lib.has_control written ≡ false)
unfolding validate
validate_is_stable lib s value written keeps e = (
  validate_again lib keeps s value written e,
  written_plain lib s.kind value written keeps (let_through _ _ _ written e)
      (given_by lib (subst (ComesFrom lib s.kind value) e (validate-Comes lib s value))),
)
