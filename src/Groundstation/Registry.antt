-- ===== src/Groundstation/Registry.antt =====
-- services/groundstation/src/reachy_groundstation/capabilities/registry.py: what is registered, what
-- warmed up, and what is offered. A capability is third-party code behind a port: it is known by a
-- number, and what its factory and its warm-up do is an argument.
pub mod Serving
use reachy.Prelude.{
  ℕ, zero, suc, String, List, [], ◌∷◌, Bool, true, false, ◌&&◌, Option, none, some, map, length,
  str_eq, if◌then◌else◌,
}
use reachy.Link.Contract.{Capability}

-- What calling a factory and reading the descriptor of what it returns comes to: a capability and its
-- descriptor, a `CapabilityDisabledError` of a name, or another exception, of a class.
pub data Built : Type 0 where
  makes : ℕ → Capability → Built
  disables : String → Built
  fails : String → Built

pub record Factory : Type 0 where
  pub label : String
  pub builds : Built

pub data CapabilityState : Type 0 where
  warming ready disabled unhealthy : CapabilityState

pub record Entry : Type 0 where
  pub name : String
  pub capability : Option ℕ
  pub descriptor : Option Capability
  pub state : CapabilityState
  pub detail : String

pub record CapabilityHealth : Type 0 where
  pub name : String
  pub version : Option ℕ
  pub state : CapabilityState
  pub detail : String

descriptor_version : Option Capability → Option ℕ
descriptor_version none = none
descriptor_version (some c) = some c.version

unfoldable pub entry_health : Entry → CapabilityHealth
unfolding descriptor_version
entry_health e = record {
  name = e.name;
  version = descriptor_version e.descriptor;
  state = e.state;
  detail = e.detail;
}

pub record CapabilityRegistry : Type 0 where
  pub entries : List Entry
  pub is_ready : Bool

entry_built : String → Built → Entry
entry_built label (makes handle descriptor) = record {
  name = descriptor.name;
  capability = some handle;
  descriptor = some descriptor;
  state = warming;
  detail = "";
}
entry_built label (disables name) = record {
  name = name;
  capability = none;
  descriptor = none;
  state = disabled;
  detail = "";
}
entry_built label (fails fault) = record {
  name = label;
  capability = none;
  descriptor = none;
  state = unhealthy;
  detail = fault;
}

unfoldable pub build : Factory → Entry
unfolding entry_built
build factory = entry_built factory.label factory.builds

-- The constructor.
unfoldable pub new : List Factory → CapabilityRegistry
unfolding build
new factories = record { entries = map build factories; is_ready = false }

-- What a capability's `warm_up` comes to, within its timeout: `none` is a return, and `some` an
-- exception of a class, `TimeoutError` among them.
abbrev pub WarmUps : Type 0
WarmUps = ℕ → Option String

after_warm_up : Entry → Option String → Entry
after_warm_up e none = record e { state = ready }
after_warm_up e (some fault) = record e { state = unhealthy; detail = fault }

warm_capability : WarmUps → Entry → Option ℕ → Entry
unfolding after_warm_up
warm_capability warm_ups e none = e
warm_capability warm_ups e (some handle) = after_warm_up e (warm_ups handle)

-- One round of the loop of `warm_up`.
unfoldable pub warm_entry : WarmUps → Entry → Entry
unfolding warm_capability
warm_entry warm_ups e = warm_capability warm_ups e e.capability

-- The loop after a number of rounds: what other tasks see while a warm-up is awaited.
unfoldable pub warm_entries : WarmUps → ℕ → List Entry → List Entry
warm_entries warm_ups zero es = es
warm_entries warm_ups (suc n) [] = []
warm_entries warm_ups (suc n) (e ∷ es) = warm_entry warm_ups e ∷ warm_entries warm_ups n es

unfoldable pub warming_up : WarmUps → ℕ → CapabilityRegistry → CapabilityRegistry
unfolding warm_entries
warming_up warm_ups n r = record r { entries = warm_entries warm_ups n r.entries }

unfoldable pub warm_up : WarmUps → CapabilityRegistry → CapabilityRegistry
unfolding warming_up
warm_up warm_ups r = record (warming_up warm_ups (length r.entries) r) { is_ready = true }

abbrev pub is_state_ready : CapabilityState → Bool
is_state_ready ready = true
is_state_ready _ = false

descriptor_of : Option Capability → CapabilityState → List Capability → List Capability
descriptor_of none state rest = rest
descriptor_of (some descriptor) state rest =
    if is_state_ready state then descriptor ∷ rest else rest

supported_entries : List Entry → List Capability
unfolding descriptor_of
supported_entries [] = []
supported_entries (e ∷ es) = descriptor_of e.descriptor e.state (supported_entries es)

unfoldable pub supported : CapabilityRegistry → List Capability
unfolding supported_entries
supported r = supported_entries r.entries

capability_or : Option ℕ → Bool → Option ℕ → Option ℕ
capability_or none fits rest = rest
capability_or (some handle) fits rest = if fits then some handle else rest

get_entry : String → List Entry → Option ℕ
unfolding capability_or
get_entry name [] = none
get_entry name (e ∷ es) =
    capability_or e.capability (is_state_ready e.state && str_eq e.name name) (get_entry name es)

unfoldable pub get : CapabilityRegistry → String → Option ℕ
unfolding get_entry
get r name = get_entry name r.entries

unfoldable pub health : CapabilityRegistry → List CapabilityHealth
unfolding entry_health
health r = map entry_health r.entries

capabilities_of : List Entry → List ℕ
capabilities_of [] = []
capabilities_of (e ∷ es) =
    let rest = capabilities_of es in elim e.capability [ none ↦ rest | some handle ↦ handle ∷ rest ]

-- The capabilities that `aclose` closes, in order: what one of them raises is logged and passed over.
unfoldable pub aclose : CapabilityRegistry → List ℕ
unfolding capabilities_of
aclose r = capabilities_of r.entries
