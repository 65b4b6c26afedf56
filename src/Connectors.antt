-- ===== src/Connectors.antt =====
-- argus/connectors/manager.py, connector.py: ConnectorManager and MockConnector. What stands behind
-- a connector is any object with the operations of IConnector, which may raise and may change it. The
-- arguments have the classes that their annotations say, an implementation is given, and a payload of None is the empty one.
pub mod Paired
mod Tests
use argus_os.Prelude.{
  String, Bool, true, false, not, refl, Option, none, some, List, [], ◌∷◌, Result, ok, err, Exec,
  pure, raise, gets, modify, guard, or_raise, ◌>>=◌, ◌>>◌, is_empty, string_eq, is_some,
}
use argus_os.Prelude.Dict.{Dict, lookup, insert, erase, contains, values}
use argus_os.Lifecycle.{LifecycleState, same_state}
use argus_os.Events.{EventType, Event, Payload, Value, text}

pub record Connector : Type 0 where
  pub name : String
  pub description : String
  pub version : String
  pub id : String
  pub enabled : Bool
  pub capabilities : List String
  pub metadata : Payload

pub data ConnectorError : Type 0 where
  connector_error invalid_connector duplicate_connector connector_not_found : ConnectorError
  connector_disabled invalid_connector_state connector_invocation key_error : ConnectorError

-- A value of what a connector answers: a value of a payload, or a dict of them.
pub data Answer : Type 0 where
  plain : Value → Answer
  mapping : Payload → Answer

abbrev pub Reply : Type 0
Reply = Dict String Answer

-- The operations of IConnector that the manager uses, on objects of a type. An error is the text
-- that the event of the failure carries.
pub record IConnector (I : Type 0) : Type 0 where
  pub connect : Exec String I Unit
  pub invoke : (operation : String) → Payload → Exec String I Reply

-- MockConnector.
pub record MockConnector : Type 0 where
  pub connected : Bool
  pub response : Reply

unfoldable pub mock_connect : Exec String MockConnector Unit
mock_connect = modify (λ m. record m { connected = true })

unfoldable pub mock_disconnect : Exec String MockConnector Unit
mock_disconnect = modify (λ m. record m { connected = false })

unfoldable pub mock_invoke : String → Payload → Exec String MockConnector Reply
mock_invoke operation payload = do
  connected ← gets (λ m. m.connected)
  guard connected "MockConnector is not connected; call connect() first."
  gets (λ m.
      insert "payload" (mapping payload) (insert "operation" (plain (text operation)) m.response))

mock_health_check : Exec String MockConnector Bool
mock_health_check = gets (λ m. m.connected)

abbrev pub mock_connector : IConnector MockConnector
mock_connector = record { connect = mock_connect; invoke = mock_invoke }

pub record ConnectorManager (I : Type 0) : Type 0 where
  pub connectors : Dict String Connector
  pub implementations : Dict String I
  pub state : LifecycleState
  pub published : List Event

module _ (I : Type 0) (behind : IConnector I) where
  abbrev pub Method : Type 0 → Type 0
  Method A = Exec ConnectorError (ConnectorManager I) A

  unfoldable pub publish : EventType → Payload → Method Unit
  publish type payload = modify (λ m. record m {
    published =
        record { type = type; source = "connector_manager"; payload = payload } ∷ m.published;
  })

  unfoldable pub require_connector : String → Method Connector
  require_connector id = do
    guard (not (is_empty id)) invalid_connector
    found ← gets (λ m. lookup id m.connectors)
    or_raise found connector_not_found

  unfoldable pub register_connector : Connector → I → Method Unit
  unfolding publish
  register_connector c implementation = do
    guard (not (is_empty c.id)) invalid_connector
    guard (not (is_empty c.name)) invalid_connector
    guard (not (is_empty c.version)) invalid_connector
    taken ← gets (λ m. contains c.id m.connectors)
    guard (not taken) duplicate_connector
    modify (λ m. record m { connectors = insert c.id c m.connectors })
    modify (λ m. record m { implementations = insert c.id implementation m.implementations })
    publish EventType.connector_registered (("connector_id", text c.id) ∷ [])

  unfoldable pub unregister_connector : String → Method Unit
  unfolding require_connector
  unregister_connector id = do
    require_connector id
    modify (λ m. record m { connectors = erase id m.connectors })
    there ← gets (λ m. contains id m.implementations)
    guard there key_error
    modify (λ m. record m { implementations = erase id m.implementations })

  get_connector : String → Method Connector
  get_connector = require_connector

  list_connectors : ConnectorManager I → List Connector
  list_connectors m = values m.connectors

  unfoldable pub enable_connector : String → Method Connector
  unfolding require_connector publish
  enable_connector id = do
    c ← require_connector id
    let updated : Connector = record c { enabled = true }
    modify (λ m. record m { connectors = insert id updated m.connectors })
    publish EventType.connector_enabled (("connector_id", text id) ∷ [])
    pure updated

  unfoldable pub disable_connector : String → Method Connector
  unfolding require_connector publish
  disable_connector id = do
    c ← require_connector id
    let updated : Connector = record c { enabled = false }
    modify (λ m. record m { connectors = insert id updated m.connectors })
    publish EventType.connector_disabled (("connector_id", text id) ∷ [])
    pure updated

  -- `implementation.connect()` and `implementation.invoke(operation, payload=payload)`
  unfoldable pub use_connector : String → Payload → Exec String I Reply
  use_connector operation payload = do behind.connect; behind.invoke operation payload

  unfoldable pub note_outcome : (id operation : String) → Result String Reply → Method Reply
  unfolding publish
  note_outcome id operation (ok result) = do
    publish EventType.connector_invoked
        (("connector_id", text id) ∷ ("operation", text operation) ∷ [])
    pure result
  note_outcome id operation (err error) = do
    publish EventType.connector_failed
        (("connector_id", text id) ∷ ("operation", text operation) ∷ ("error", text error) ∷ [])
    raise connector_invocation

  unfoldable pub invoke : (id operation : String) → Payload → Method Reply
  unfolding require_connector note_outcome use_connector
  invoke id operation payload = do
    state ← gets (λ m. m.state)
    guard (same_state state LifecycleState.running) invalid_connector_state
    c ← require_connector id
    guard c.enabled connector_disabled
    guard (not (is_empty operation)) invalid_connector
    found ← gets (λ m. lookup id m.implementations)
    implementation ← or_raise found key_error
    let (result, after) = use_connector operation payload implementation
    modify (λ m. record m { implementations = insert id after m.implementations })
    note_outcome id operation result

  unfoldable pub assign : (required next : LifecycleState) → Method Unit
  assign required next = do
    state ← gets (λ m. m.state)
    guard (same_state state required) connector_error
    modify (λ m. record m { state = next })

  unfoldable pub initialize : Method Unit
  unfolding assign
  initialize = assign LifecycleState.created LifecycleState.initializing

  unfoldable pub start : Method Unit
  unfolding assign
  start = assign LifecycleState.initializing LifecycleState.running

  unfoldable pub stop : Method Unit
  unfolding assign
  stop = assign LifecycleState.running LifecycleState.stopped
