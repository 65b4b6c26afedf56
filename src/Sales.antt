-- ===== src/Sales.antt =====
-- argus/modules/sales: the events of the sales module (events.py).
pub mod WorkQueue
pub mod Rows
pub mod Records
pub mod Importer
use argus_os.Prelude.{
  String, Bool, List, [], ◌∷◌, ◌||◌, Option, none, some, if◌then◌else◌, is_empty,
}
use argus_os.Prelude.Dict.{insert}
use argus_os.Prelude.{string_eq}
use argus_os.Events.{EventType, Event, Payload, Value, text}

-- `payload.update(extra)`
unfoldable pub update : Payload → Payload → Payload
update payload [] = payload
update payload ((k, v) ∷ extra) = update (insert k v payload) extra

-- The event that `publish_sales_event` publishes, or none where it raises ValueError.
unfoldable pub sales_event : (event_name entity_type entity_id : String) → Payload → Option Event
unfolding is_empty update
sales_event event_name entity_type entity_id extra =
    if is_empty event_name || (is_empty entity_type || is_empty entity_id)
    then none
    else some (record {
      type = EventType.sales_module_event;
      source = "sales_module";
      payload =
          update
            (("event_name", text event_name)
              ∷ ("entity_type", text entity_type)
              ∷ ("entity_id", text entity_id)
              ∷ [])
            extra;
    })
