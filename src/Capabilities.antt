-- ===== src/Capabilities.antt =====
-- argus/capability/registry.py, capability.py: CapabilityRegistry. The arguments have the classes
-- that their annotations say. `capability_metadata` is left out, since nothing here reads it.
pub mod Names
use argus_os.Prelude.{
  ℕ, String, Bool, true, false, not, ◌≡◌, refl, ap, sym, ◌∙◌, arith, Option, none, some, List, [],
  ◌∷◌, Exec, pure, raise, gets, modify, guard, or_raise, ◌>>=◌, ◌>>◌, ◌&&◌, ◌||◌, is_empty,
  string_eq, ◌==◌, if◌then◌else◌, Eq, eqb, eqb_iff,
}
use argus_os.Prelude.Lists.{is_in, select}
use argus_os.Prelude.Dict.{Dict, lookup, insert, erase, contains, values}
use argus_os.Events.{EventType, Event, Payload, text}
use argus_os.Planner.{IntentType}

-- The place of a member in the enumeration, and the member at a place.
abbrev place_of : IntentType → ℕ
place_of IntentType.question = 0
place_of IntentType.command = 1
place_of IntentType.memory = 2
place_of IntentType.schedule = 3
place_of IntentType.unknown = 4

abbrev member_at : ℕ → IntentType
member_at n =
    if eqb n 0
    then IntentType.question
    else if eqb n 1
    then IntentType.command
    else if eqb n 2
    then IntentType.memory
    else if eqb n 3
    then IntentType.schedule
    else IntentType.unknown

pub member_at-place_of : (t : IntentType) → member_at (place_of t) ≡ t
member_at-place_of IntentType.question = refl
member_at-place_of IntentType.command = refl
member_at-place_of IntentType.memory = refl
member_at-place_of IntentType.schedule = refl
member_at-place_of IntentType.unknown = refl

-- Members of the enumeration are equal where their places are.
instance abbrev pub intent_type_eq : Eq IntentType
intent_type_eq = record {
  beq = λ s t. eqb (place_of s) (place_of t);
  beq_iff = λ s t. (
    λ h.
        sym (member_at-place_of s)
        ∙ ap member_at ((eqb_iff (place_of s) (place_of t)).0 h)
        ∙ member_at-place_of t,
    λ e. (eqb_iff (place_of s) (place_of t)).1 (ap place_of e),
  );
}

pub record Capability : Type 0 where
  pub name : String
  pub description : String
  pub intent_types : List IntentType
  pub action_kind : String
  pub id : String
  pub workflow_id : Option String
  pub enabled : Bool
  pub version : String
  pub metadata : Payload

pub record CapabilityRegistry : Type 0 where
  pub capabilities : Dict String Capability
  pub published : List Event

pub data CapabilityError : Type 0 where
  invalid_capability duplicate_capability capability_not_found : CapabilityError

abbrev pub Method : Type 0 → Type 0
Method A = Exec CapabilityError CapabilityRegistry A

unfoldable pub publish : EventType → Payload → Method Unit
publish type payload = modify (λ r. record r {
  published =
      record { type = type; source = "capability_registry"; payload = payload } ∷ r.published;
})

abbrev is_nil : List IntentType → Bool
is_nil [] = true
is_nil (t ∷ ts) = false

-- `not capability.workflow_id`
unfoldable pub is_blank : Option String → Bool
is_blank none = true
is_blank (some id) = is_empty id

unfoldable pub validate_capability : Capability → Method Unit
validate_capability c = do
  guard (not (is_empty c.id)) invalid_capability
  guard (not (is_empty c.name)) invalid_capability
  guard (not (is_nil c.intent_types)) invalid_capability
  guard (not (is_empty c.action_kind)) invalid_capability
  guard (not (c.action_kind == "workflow" && is_blank c.workflow_id)) invalid_capability

-- The loop of `register`: some capability has the name.
unfoldable pub name_taken : String → Dict String Capability → Bool
name_taken name [] = false
name_taken name ((k, c) ∷ d) = c.name == name || name_taken name d

unfoldable pub register : Capability → Method Unit
unfolding validate_capability name_taken publish
register c = do
  validate_capability c
  taken ← gets (λ r. contains c.id r.capabilities)
  guard (not taken) duplicate_capability
  named ← gets (λ r. name_taken c.name r.capabilities)
  guard (not named) duplicate_capability
  modify (λ r. record r { capabilities = insert c.id c r.capabilities })
  publish EventType.capability_registered
      (("capability_id", text c.id) ∷ ("name", text c.name) ∷ [])

unfoldable pub require_capability : String → Method Capability
require_capability id = do
  found ← gets (λ r. lookup id r.capabilities)
  or_raise found capability_not_found

unfoldable pub unregister : String → Method Unit
unfolding require_capability publish
unregister id = do
  c ← require_capability id
  modify (λ r. record r { capabilities = erase id r.capabilities })
  publish EventType.capability_unregistered
      (("capability_id", text c.id) ∷ ("name", text c.name) ∷ [])

get : String → Method Capability
get = require_capability

-- The loop of `get_by_name`.
unfoldable pub first_named : String → Dict String Capability → Option Capability
first_named name [] = none
first_named name ((k, c) ∷ d) = if c.name == name then some c else first_named name d

unfoldable pub get_by_name : String → Method Capability
unfolding first_named
get_by_name name = do
  found ← gets (λ r. first_named name r.capabilities)
  or_raise found capability_not_found

unfoldable pub find_by_intent_type : IntentType → CapabilityRegistry → List Capability
find_by_intent_type type r = select (λ c. is_in type c.intent_types) (values r.capabilities)

list_capabilities : CapabilityRegistry → List Capability
list_capabilities r = values r.capabilities

has_capability : String → CapabilityRegistry → Bool
has_capability id r = contains id r.capabilities
