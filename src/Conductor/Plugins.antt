-- ===== src/Conductor/Plugins.antt =====
-- iotronic/conductor/endpoints.py: plugins, and the create, update and destroy methods of
-- services and fleets. pickle.dumps(code, 0).decode() is a parameter.
use stack4things_openstack_i.Action.{
  Action, Exception, catch, except_module, pure, raise, ◌>>=◌, ◌>>◌,
}
use stack4things_openstack_i.Base.{
  Bool, List, Option, String, [], any, if◌then◌else◌, none, not, some, str_eq, ◌∷◌,
}
use stack4things_openstack_i.Conductor.Requests.{execute_on_board, manage_result}
use stack4things_openstack_i.Db.Engine.{Engine}
use stack4things_openstack_i.Db.Fleets.{get_fleet_by_uuid}
use stack4things_openstack_i.Db.Plugins.{get_plugin_by_uuid}
use stack4things_openstack_i.Db.Schema.{Column, Value, Values}
use stack4things_openstack_i.Db.Services.{get_service_by_uuid}
use stack4things_openstack_i.Objects.{Object, get_board, is_online, load, new_object, set_attr}
use stack4things_openstack_i.Objects.Kinds.{
  create_fleet_object, create_injection_plugin_object, create_plugin_object, create_service_object,
  destroy_fleet_object, destroy_injection_plugin_object, destroy_plugin_object,
  destroy_service_object, get_injection_plugin, get_plugin, save_fleet, save_injection_plugin,
  save_plugin, save_service,
}

-- objects/plugin.py
unfoldable pub is_valid_action : String → Bool
unfolding any
is_valid_action action =
    any (str_eq action)
      ("PluginCall" ∷ "PluginStop" ∷ "PluginStart" ∷ "PluginStatus" ∷ "PluginReboot" ∷ [])

unfoldable want_params : String → Bool
want_params action = not (str_eq action "PluginStatus")

unfoldable injection_values : Value → Value → Value → Values
injection_values board_uuid plugin_uuid onboot =
    (Column.board_uuid, board_uuid)
    ∷ (Column.plugin_uuid, plugin_uuid)
    ∷ (Column.onboot, onboot)
    ∷ (Column.status, Value.str "injected")
    ∷ []

-- try: m except Exception: None
abbrev pub found_or_none : {A : Type 0} → Action A → Action (Option A)
found_or_none m = catch (do a ← m; pure (some a)) (λ _. pure none)

-- the `params` of a call, for the actions that want them
unfoldable plugin_args : String → Value → Value → List Value
unfolding want_params
plugin_args action uuid params = if want_params action then uuid ∷ params ∷ [] else uuid ∷ []

module _ ⦃E : Engine⦄ where
  unfoldable pub create_plugin_endpoint : (Value → Value) → Object → Action Object
  unfolding create_plugin_object
  create_plugin_endpoint dumps new_plugin =
      create_plugin_object (set_attr new_plugin Column.code (dumps (new_plugin.row Column.code)))

  unfoldable pub update_plugin_endpoint : Object → Action Object
  unfolding save_plugin
  update_plugin_endpoint plugin = save_plugin plugin

  unfoldable pub destroy_plugin_endpoint : Value → Action (Unit {0})
  unfolding load get_plugin_by_uuid destroy_plugin_object
  destroy_plugin_endpoint plugin_id = do
    plugin ← load (get_plugin_by_uuid plugin_id)
    destroy_plugin_object plugin

  -- an injection that is there is marked as updated, else there is a new one
  unfoldable pub record_injection : Value → Value → Value → Option Object → Action (Unit {0})
  unfolding save_injection_plugin create_injection_plugin_object new_object injection_values
  record_injection board_uuid plugin_uuid onboot (some injection) = do
    save_injection_plugin (set_attr injection Column.status (Value.str "updated"))
    pure tt
  record_injection board_uuid plugin_uuid onboot none = do
    create_injection_plugin_object (new_object (injection_values board_uuid plugin_uuid onboot))
    pure tt

  unfoldable pub inject_plugin : Value → Value → Value → Action Value
  unfolding get_plugin execute_on_board get_injection_plugin record_injection manage_result
  inject_plugin plugin_uuid board_uuid onboot = do
    plugin ← get_plugin plugin_uuid
    result ← except_module (
        execute_on_board board_uuid "PluginInject" (plugin.row Column.uuid ∷ onboot ∷ [])
          Value.null)
    injection ← found_or_none (get_injection_plugin board_uuid plugin_uuid)
    record_injection board_uuid plugin_uuid onboot injection
    manage_result result board_uuid

  unfoldable pub remove_plugin : Value → Value → Action Value
  unfolding load get_plugin_by_uuid get_injection_plugin execute_on_board manage_result
      destroy_injection_plugin_object
  remove_plugin plugin_uuid board_uuid = do
    plugin ← load (get_plugin_by_uuid plugin_uuid)
    injection ← get_injection_plugin board_uuid plugin_uuid
    res ←
        except_module
          (execute_on_board board_uuid "PluginRemove" (plugin.row Column.uuid ∷ []) Value.null)
    result ← manage_result res board_uuid
    destroy_injection_plugin_object injection
    pure result

  unfoldable pub action_plugin : Value → Value → String → Value → Action Value
  unfolding get_plugin is_valid_action execute_on_board plugin_args manage_result
  action_plugin plugin_uuid board_uuid action params = do
    plugin ← get_plugin plugin_uuid
    (if is_valid_action action
        then pure tt
        else raise (Exception.invalid_plugin_action (Value.str action)))
    result ← except_module (
        execute_on_board board_uuid action (plugin_args action (plugin.row Column.uuid) params)
          Value.null)
    manage_result result board_uuid

  -- services and fleets
  unfoldable pub create_service_endpoint : Object → Action Object
  unfolding create_service_object
  create_service_endpoint new_service = create_service_object new_service

  unfoldable pub update_service_endpoint : Object → Action Object
  unfolding save_service
  update_service_endpoint service = save_service service

  unfoldable pub destroy_service_endpoint : Value → Action (Unit {0})
  unfolding load get_service_by_uuid destroy_service_object
  destroy_service_endpoint service_id = do
    service ← load (get_service_by_uuid service_id)
    destroy_service_object service

  unfoldable pub create_fleet_endpoint : Object → Action Object
  unfolding create_fleet_object
  create_fleet_endpoint new_fleet = create_fleet_object new_fleet

  unfoldable pub update_fleet_endpoint : Object → Action Object
  unfolding save_fleet
  update_fleet_endpoint fleet = save_fleet fleet

  unfoldable pub destroy_fleet_endpoint : Value → Action (Unit {0})
  unfolding load get_fleet_by_uuid destroy_fleet_object
  destroy_fleet_endpoint fleet_id = do
    fleet ← load (get_fleet_by_uuid fleet_id)
    destroy_fleet_object fleet

  -- the states of the services, asked of an online board
  unfoldable pub status_services_on_board : Value → Action Value
  unfolding get_board is_online execute_on_board manage_result
  status_services_on_board board_uuid = do
    board ← get_board board_uuid
    (if is_online board
        then pure tt
        else raise (Exception.board_not_connected (board.row Column.uuid)))
    result ← except_module (execute_on_board board_uuid "ServicesStatus" [] Value.null)
    manage_result result board_uuid
