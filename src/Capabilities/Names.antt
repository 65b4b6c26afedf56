-- ===== src/Capabilities/Names.antt =====
-- argus/capability/registry.py: what every registry keeps, and the lookup by name.
use argus_os.Prelude.{
  String, ◌≡◌, refl, true, false, none, some, List, [], ◌∷◌, arith, ok, ◌&&◌, ◌||◌, string_eq,
  eq_iff, ◌==◌,
}
use argus_os.Prelude.Dict.{Dict, lookup, insert, erase}
use argus_os.Prelude.Entries.{Has, Has-insert, Has-erase}
use argus_os.Capabilities.{
  Capability, CapabilityRegistry, is_blank, name_taken, first_named, get_by_name,
  validate_capability,
}
use argus_os.Capabilities

-- No two entries have the same name.
abbrev pub UniqueNames : Dict String Capability → Type 0
UniqueNames [] = Unit
UniqueNames ((k, c) ∷ d) = (name_taken c.name d ≡ false) × UniqueNames d

name_taken-insert :
    (name k : String) (c : Capability) (d : Dict String Capability)
    → lookup k d ≡ none
    → name_taken name (insert k c d) ≡ (c.name == name || name_taken name d)
unfolding name_taken lookup insert
name_taken-insert name k c [] h = refl
name_taken-insert name k c ((j, e) ∷ d) h = ground (arith, name_taken-insert name k c d)

UniqueNames-insert :
    (k : String) (c : Capability) (d : Dict String Capability)
    → lookup k d ≡ none
    → name_taken c.name d ≡ false
    → UniqueNames d
    → UniqueNames (insert k c d)
unfolding name_taken lookup insert
UniqueNames-insert k c [] h t u = (refl, tt)
UniqueNames-insert k c ((j, e) ∷ d) h t u = ground (
  arith,
  UniqueNames-insert k c d,
  name_taken-insert e.name k c d,
  eq_iff c.name e.name,
  eq_iff e.name c.name,
)

name_taken-erase :
    (name k : String) (d : Dict String Capability)
    → name_taken name d ≡ false
    → name_taken name (erase k d) ≡ false
unfolding name_taken erase
name_taken-erase name k [] h = refl
name_taken-erase name k ((j, e) ∷ d) h = ground (arith, name_taken-erase name k d)

UniqueNames-erase :
    (k : String) (d : Dict String Capability) → UniqueNames d → UniqueNames (erase k d)
unfolding erase
UniqueNames-erase k [] u = tt
UniqueNames-erase k ((j, e) ∷ d) u =
    ground (arith, UniqueNames-erase k d u.1, name_taken-erase e.name k d u.0)

-- No two capabilities have one name, and each that runs a workflow names one.
pub record IsNamed (r : CapabilityRegistry) : Type 0 where
  pub unique : UniqueNames r.capabilities
  pub runnable :
      (k : String) (c : Capability)
      → Has k c r.capabilities
      → (c.action_kind == "workflow" && is_blank c.workflow_id) ≡ false

pub data Call : Type 0 where
  register : Capability → Call
  unregister : String → Call

unfoldable pub call : Call → CapabilityRegistry → CapabilityRegistry
call (Call.register c) r = (Capabilities.register c r).1
call (Call.unregister id) r = (Capabilities.unregister id r).1

unfoldable pub run : List Call → CapabilityRegistry → CapabilityRegistry
run [] r = r
run (c ∷ cs) r = run cs (call c r)

register-IsNamed :
    (c : Capability) (r : CapabilityRegistry) → IsNamed r → IsNamed (Capabilities.register c r).1
unfolding Capabilities.register validate_capability
register-IsNamed c r h = record {
  unique = ground (arith, h.unique, UniqueNames-insert c.id c r.capabilities);
  runnable = λ k x m. ground (arith, h.runnable k x, Has-insert c.id c k x r.capabilities);
}

unregister-IsNamed :
    (id : String) (r : CapabilityRegistry) → IsNamed r → IsNamed (Capabilities.unregister id r).1
unfolding Capabilities.unregister
unregister-IsNamed id r h = record {
  unique = ground (arith, h.unique, UniqueNames-erase id r.capabilities h.unique);
  runnable = λ k x m. ground (arith, h.runnable k x, Has-erase id k x r.capabilities);
}

pub run-IsNamed : (cs : List Call) (r : CapabilityRegistry) → IsNamed r → IsNamed (run cs r)
unfolding run call
run-IsNamed [] r h = h
run-IsNamed (Call.register c ∷ cs) r h = run-IsNamed cs _ (register-IsNamed c r h)
run-IsNamed (Call.unregister id ∷ cs) r h = run-IsNamed cs _ (unregister-IsNamed id r h)

name_taken-lookup :
    (k : String) (c : Capability) (d : Dict String Capability)
    → lookup k d ≡ some c
    → name_taken c.name d ≡ true
unfolding name_taken lookup
name_taken-lookup k c [] h = cc
name_taken-lookup k c ((j, e) ∷ d) h = ground (arith, name_taken-lookup k c d, eq_iff e.name c.name)

first_named-lookup :
    (k : String) (c : Capability) (d : Dict String Capability)
    → UniqueNames d
    → lookup k d ≡ some c
    → first_named c.name d ≡ some c
unfolding first_named lookup
first_named-lookup k c [] u h = cc
first_named-lookup k c ((j, e) ∷ d) u h =
    ground (arith, first_named-lookup k c d u.1, name_taken-lookup k c d, eq_iff e.name c.name, u.0)

-- After any calls, refused or not, on a registry without two capabilities of one name: whatever is
-- registered under an id is found by its name.
pub get_by_name_lem :
    (cs : List Call) (r : CapabilityRegistry) (id : String) (c : Capability)
    → IsNamed r
    → lookup id (run cs r).capabilities ≡ some c
    → get_by_name c.name (run cs r) ≡ (ok c, run cs r)
unfolding get_by_name
get_by_name_lem cs r id c h found =
    ground
      (arith, first_named-lookup id c (run cs r).capabilities (run-IsNamed cs r h).unique found)
