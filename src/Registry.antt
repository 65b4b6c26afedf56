-- ===== src/Registry.antt =====
-- argus/services/service_registry.py, service_descriptor.py: InMemoryServiceRegistry. The instances
-- that it holds are of any type `I`, and an interface is given by its name.
pub mod View
mod Tests
use argus_os.Prelude.{
  String, Bool, not, Option, none, some, List, Exec, pure, raise, gets, modify, guard, or_raise,
  ◌>>=◌, ◌>>◌, is_some, is_empty, string_eq,
}
use argus_os.Prelude.Dict.{Dict, lookup, insert, erase, contains, values}
use argus_os.Events.{Payload}

pub record ServiceDescriptor (I : Type 0) : Type 0 where
  pub name : String
  pub instance_object : I
  pub interface : String
  pub version : String
  pub metadata : Payload

abbrev pub ServiceRegistry : Type 0 → Type 0
ServiceRegistry I = Dict String (ServiceDescriptor I)

pub data RegistryError : Type 0 where
  service_registration_error service_not_found : RegistryError

abbrev pub Method : Type 0 → Type 0 → Type 0
Method I A = Exec RegistryError (ServiceRegistry I) A

module _ {I : Type 0} where
  unfoldable pub register : ServiceDescriptor I → Method I Unit
  register descriptor = do
    guard (not (is_empty descriptor.name)) service_registration_error
    taken ← gets (λ r. contains descriptor.name r)
    guard (not taken) service_registration_error
    modify (λ r. insert descriptor.name descriptor r)

  unfoldable pub unregister : String → Method I Unit
  unregister name = do
    present ← gets (λ r. contains name r)
    guard present service_not_found
    modify (λ r. erase name r)

  unfoldable pub resolve : String → Method I I
  resolve name = do
    found ← gets (λ r. lookup name r)
    descriptor ← or_raise found service_not_found
    pure descriptor.instance_object

  unfoldable pub has_service : String → Method I Bool
  has_service name = gets (λ r. contains name r)

  list_services : Method I (List (ServiceDescriptor I))
  list_services = gets (λ r. values r)
