-- ===== src/Settings.antt =====
-- packages/reachy-contracts/src/reachy_contracts/settings.py: the robot's settings and what each will
-- accept. The regular expressions, `str.casefold` and the reading and printing of numbers are the
-- library's, and so are the numbers.
pub mod Acceptance
use reachy.Prelude.{
  ℕ, suc, String, List, [], ◌∷◌, ◌++◌, map, length, Bool, true, false, not, ◌&&◌, ◌||◌, Option,
  none, some, Result, ok, err, concat, decimal, str_eq, is_member, ltb, if◌then◌else◌,
}
use Prim.Native.String.{count}

-- `N` are the numbers that `int` and `float` read, which is none if they raise. `has_control` is the search
-- for `_CONTROL_CHARACTERS`, `less` is `<`, `tenths` the number that so many tenths make, and `text` the
-- text of a bound.
pub record Library (N : Type 0) : Type 0 where
  pub has_control : String → Bool
  pub fullmatch : String → String → Bool
  pub casefold : String → String
  pub int : String → Option N
  pub float : String → Option N
  pub is_finite : N → Bool
  pub less : N → N → Bool
  pub tenths : ℕ → N
  pub text : N → String

pub data SettingKind : Type 0 where
  text integer number boolean choice : SettingKind

unfoldable pub true_names : List String
true_names = "1" ∷ "on" ∷ "true" ∷ "yes" ∷ []

unfoldable pub false_names : List String
false_names = "0" ∷ "false" ∷ "no" ∷ "off" ∷ []

unfoldable pub session_url_max_length : ℕ
session_url_max_length = 255

pub record Setting (N : Type 0) : Type 0 where
  pub name : String
  pub kind : SettingKind
  pub description : String
  pub pattern : String
  pub maximum_length : Option ℕ
  pub minimum : Option N
  pub maximum : Option N
  pub choices : List String
  pub secret : Bool

-- ", ".join and "; ".join.
unfoldable pub join : String → List String → String
join separator [] = ""
join separator (x ∷ []) = x
join separator (x ∷ y ∷ xs) = concat x (concat separator (join separator (y ∷ xs)))

unfoldable pub numbered : ℕ → List String → List String
numbered n [] = []
numbered n (line ∷ lines) =
    concat "(" (concat (decimal n) (concat ") " line)) ∷ numbered (suc n) lines

-- `_joined`.
unfoldable pub joined : List String → String
joined [] = "0 settings were refused: "
joined (line ∷ []) = line
joined (a ∷ b ∷ lines) =
    concat (decimal (length (a ∷ b ∷ lines)))
      (concat " settings were refused: " (join "; " (numbered 1 (a ∷ b ∷ lines))))

module _ {N : Type 0} (lib : Library N) where
  unfoldable pub bounds : Option N → Option N → String
  bounds none none = ""
  bounds (some low) none = concat " of at least " (lib.text low)
  bounds none (some high) = concat " of at most " (lib.text high)
  bounds (some low) (some high) =
      concat " from " (concat (lib.text low) (concat " to " (lib.text high)))

  unfoldable pub length_text : Option ℕ → String
  length_text none = ""
  length_text (some n) = concat " of at most " (concat (decimal n) " characters")

  unfoldable pub constraint_of : SettingKind → Setting N → String
  constraint_of choice s = concat "one of " (join ", " s.choices)
  constraint_of boolean s = concat (join ", " true_names) (concat " or " (join ", " false_names))
  constraint_of text s =
      concat (if str_eq s.pattern "" then "any text" else concat "text matching " s.pattern)
        (concat " with no control characters" (length_text s.maximum_length))
  constraint_of integer s = concat "a whole number" (bounds s.minimum s.maximum)
  constraint_of number s = concat "a number" (bounds s.minimum s.maximum)

  unfoldable pub constraint : Setting N → String
  constraint s = constraint_of s.kind s

  unfoldable pub refusal : Setting N → String
  refusal s = concat s.name (concat " does not accept that value; it takes " (constraint s))

  unfoldable pub too_long : Option ℕ → String → Bool
  too_long none value = false
  too_long (some n) value = ltb n (count value)

  unfoldable pub validate_text : Setting N → String → Result String String
  validate_text s value =
      if not (str_eq s.pattern "") && not (lib.fullmatch s.pattern value)
      then err (refusal s)
      else if too_long s.maximum_length value
      then err (refusal s)
      else ok value

  unfoldable pub too_low : Option N → N → Bool
  too_low none n = false
  too_low (some low) n = lib.less n low

  unfoldable pub too_high : Option N → N → Bool
  too_high none n = false
  too_high (some high) n = lib.less high n

  unfoldable pub validate_bounds : Setting N → String → Option N → Result String String
  validate_bounds s value none = err (refusal s)
  validate_bounds s value (some n) =
      if too_low s.minimum n
      then err (refusal s)
      else if too_high s.maximum n
      then err (refusal s)
      else ok value

  unfoldable pub finite : Option N → Option N
  finite none = none
  finite (some n) = if lib.is_finite n then some n else none

  unfoldable pub validate_boolean : Setting N → String → Result String String
  validate_boolean s value =
      if is_member (lib.casefold value) true_names
      then ok "true"
      else if is_member (lib.casefold value) false_names
      then ok "false"
      else err (refusal s)

  unfoldable pub validate_kind : SettingKind → Setting N → String → Result String String
  validate_kind text s value = validate_text s value
  validate_kind choice s value = if is_member value s.choices then ok value else err (refusal s)
  validate_kind boolean s value = validate_boolean s value
  validate_kind integer s value = validate_bounds s value (lib.int value)
  validate_kind number s value = validate_bounds s value (finite (lib.float value))

  unfoldable pub validate : Setting N → String → Result String String
  validate s value =
      if lib.has_control value
      then err (
          concat s.name (
            concat " carries a control character, which a systemd environment line cannot hold; "
              (constraint s)))
      else validate_kind s.kind s value

  abbrev plain : String → SettingKind → String → Setting N
  plain name kind description = record {
    name = name;
    kind = kind;
    description = description;
    pattern = "";
    maximum_length = none;
    minimum = none;
    maximum = none;
    choices = [];
    secret = false;
  }

  unfoldable pub robot_settings : List (Setting N)
  robot_settings =
      record (plain "REACHY_GROUNDSTATION_URL" text
        "The groundstation's session endpoint the robot opens.") {
          pattern = "wss?://\\S+";
          maximum_length = some session_url_max_length;
        }
      ∷ record (plain "REACHY_GROUNDSTATION_CREDENTIAL" text
          "The shared secret the robot presents to the groundstation.") {
            pattern = "\\S+";
            secret = true;
          }
      ∷ record (plain "REACHY_HOME_ASSISTANT_IDENTITY" text
          "The device identity the satellite announces to Home Assistant. Changing it makes Home Assistant register a second device.") {
            pattern = "[A-Za-z0-9][A-Za-z0-9 ._-]{0,63}";
          }
      ∷ record (plain "REACHY_SATELLITE_LOG_LEVEL" choice
          "How much the satellite writes to the robot's journal.") {
            choices = "debug" ∷ "info" ∷ "warning" ∷ "error" ∷ "critical" ∷ [];
          }
      ∷ record (plain "REACHY_SATELLITE_FRAME_INTERVAL_MS" integer
          "How long the satellite waits between camera frames.") {
            minimum = some (lib.tenths 200);
            maximum = some (lib.tenths 10000);
          }
      ∷ record (plain "REACHY_SATELLITE_JPEG_QUALITY" integer
          "How hard the satellite compresses a frame before sending it.") {
            minimum = some (lib.tenths 10);
            maximum = some (lib.tenths 1000);
          }
      ∷ record (plain "REACHY_SATELLITE_RESULT_STALENESS_SECONDS" number
          "How old a perception result may be before it is ignored.") {
            minimum = some (lib.tenths 1);
            maximum = some (lib.tenths 100);
          }
      ∷ []

  -- `_BY_NAME[name]`.
  unfoldable pub find_setting : String → List (Setting N) → Option (Setting N)
  find_setting name [] = none
  find_setting name (s ∷ ss) =
      let rest = find_setting name ss in if str_eq s.name name then some s else rest

  unfoldable pub setting_names : List String
  setting_names = map (λ s. s.name) robot_settings

  -- With the text that `repr` gives the name.
  unfoldable pub validate_found : String → Option (Setting N) → String → Result String String
  validate_found shown none value = err (
      concat "no setting named "
        (concat shown (concat " is declared; declared: " (join ", " setting_names))))
  validate_found shown (some s) value = validate s value

  unfoldable pub validate_setting : (String → String) → String → String → Result String String
  validate_setting repr name value =
      validate_found (repr name) (find_setting name robot_settings) value

  -- The declaration, in name order; what is accepted of it, and the problems.
  unfoldable pub validated :
      String
      → Result String String
      → List (String × String) × List String
      → List (String × String) × List String
  validated name (ok value) (accepted, problems) = (accepted ++ (name, value) ∷ [], problems)
  validated name (err problem) (accepted, problems) = (accepted, problems ++ problem ∷ [])

  unfoldable pub validate_all :
      (String → String)
      → List (String × String)
      → List (String × String) × List String
      → List (String × String) × List String
  validate_all repr [] found = found
  validate_all repr ((name, value) ∷ declared) found =
      validate_all repr declared (validated name (validate_setting repr name value) found)

  unfoldable pub settled :
      List (String × String) × List String → Result String (List (String × String))
  settled (accepted, []) = ok accepted
  settled (accepted, problem ∷ problems) = err (joined (problem ∷ problems))

  unfoldable pub validate_settings :
      (String → String) → List (String × String) → Result String (List (String × String))
  validate_settings repr declared = settled (validate_all repr declared ([], []))
