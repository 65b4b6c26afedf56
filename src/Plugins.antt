-- ===== src/Plugins.antt =====
-- argus/plugins/manager.py, plugin.py: PluginManager. The arguments have the classes that their
-- annotations say.
mod Exports
use argus_os.Prelude.{
  String, Bool, true, false, not, Option, none, some, List, [], ◌∷◌, ◌++◌, Exec, pure, raise, gets,
  modify, guard, or_raise, ◌>>=◌, ◌>>◌, is_empty, string_eq,
}
use argus_os.Prelude.Dict.{Dict, lookup, insert, erase, contains, values}
use argus_os.Events.{EventType, Event, Payload, text}
use argus_os.Capabilities.{Capability}

pub record Plugin : Type 0 where
  pub name : String
  pub version : String
  pub author : String
  pub description : String
  pub id : String
  pub enabled : Bool
  pub exported_capabilities : List Capability
  pub metadata : Payload

pub data PluginError : Type 0 where
  invalid_plugin duplicate_plugin plugin_not_found : PluginError

pub record PluginManager : Type 0 where
  pub plugins : Dict String Plugin
  pub published : List Event

abbrev pub Method : Type 0 → Type 0
Method A = Exec PluginError PluginManager A

-- The events carry the id and the name of a plugin.
unfoldable pub publish : EventType → Plugin → Method Unit
publish type p = modify (λ m. record m {
  published =
      record {
        type = type;
        source = "plugin_manager";
        payload = ("plugin_id", text p.id) ∷ ("name", text p.name) ∷ [];
      }
      ∷ m.published;
})

unfoldable pub validate_plugin : Plugin → Method Unit
validate_plugin p = do
  guard (not (is_empty p.id)) invalid_plugin
  guard (not (is_empty p.name)) invalid_plugin
  guard (not (is_empty p.version)) invalid_plugin
  guard (not (is_empty p.author)) invalid_plugin

unfoldable pub require_plugin : String → Method Plugin
require_plugin id = do found ← gets (λ m. lookup id m.plugins); or_raise found plugin_not_found

unfoldable pub register : Plugin → Method Unit
unfolding validate_plugin publish
register p = do
  validate_plugin p
  taken ← gets (λ m. contains p.id m.plugins)
  guard (not taken) duplicate_plugin
  modify (λ m. record m { plugins = insert p.id p m.plugins })
  publish EventType.plugin_registered p

unfoldable pub unregister : String → Method Unit
unfolding require_plugin publish
unregister id = do
  p ← require_plugin id
  modify (λ m. record m { plugins = erase id m.plugins })
  publish EventType.plugin_unregistered p

abbrev pub switched : Bool → Plugin → Plugin
switched on p = record p { enabled = on }

unfoldable pub enable : String → Method Unit
unfolding require_plugin publish
enable id = do
  p ← require_plugin id
  modify (λ m. record m { plugins = insert id (switched true p) m.plugins })
  publish EventType.plugin_enabled p

unfoldable pub disable : String → Method Unit
unfolding require_plugin publish
disable id = do
  p ← require_plugin id
  modify (λ m. record m { plugins = insert id (switched false p) m.plugins })
  publish EventType.plugin_disabled p

get : String → Method Plugin
get = require_plugin

list_plugins : PluginManager → List Plugin
list_plugins m = values m.plugins

unfoldable pub exports_of : List Plugin → List Capability
exports_of [] = []
exports_of (p ∷ ps) = p.exported_capabilities ++ exports_of ps

unfoldable pub list_exported_capabilities : PluginManager → List Capability
list_exported_capabilities m = exports_of (values m.plugins)

has_plugin : String → PluginManager → Bool
has_plugin id m = contains id m.plugins
