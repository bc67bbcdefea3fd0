-- ===== src/Objects/Kinds.antt =====
-- iotronic/objects: the classes of plugins, services, web services, fleets, ports, locations and
-- agents. `create` writes the changed fields, `save` and `destroy` go by the uuid or by the id.
use stack4things_openstack_i.Action.{Action, Exception, pure, raise, ◌>>=◌, ◌>>◌}
use stack4things_openstack_i.Base.{List, if◌then◌else◌, map, none, some}
use stack4things_openstack_i.Db.Boards.{get_board_id_by_uuid, get_locations_by_board_id}
use stack4things_openstack_i.Db.Engine.{Engine, whole}
use stack4things_openstack_i.Db.Fleets.{
  create_enabled_webservice, create_fleet, create_webservice, destroy_enabled_webservice,
  destroy_fleet, destroy_webservice, get_enabled_webservice_by_board_uuid, update_fleet,
}
use stack4things_openstack_i.Db.Plugins.{
  create_injection_plugin, create_plugin, destroy_injection_plugin, destroy_plugin,
  get_injection_plugin_by_uuids, get_plugin_by_id, get_plugin_by_uuid, update_injection_plugin,
  update_plugin,
}
use stack4things_openstack_i.Db.Schema.{Column, Row, Value}
use stack4things_openstack_i.Db.Services.{
  create_exposed_service, create_port, create_service, destroy_exposed_service, destroy_port,
  destroy_service, get_exposed_service_by_uuids, update_service,
}
use stack4things_openstack_i.Objects.{Object, from_db_object, load, obj_get_changes}

module _ ⦃E : Engine⦄ where
  -- get(ctx, ident): an id or a uuid
  unfoldable pub get_by : (Value → Action Row) → (Value → Action Row) → Value → Action Object
  unfolding load
  get_by by_id by_uuid (Value.int z) = load (by_id (Value.int z))
  get_by by_id by_uuid (Value.str s) = elim (E.int_like s) [
    | some z ↦ load (by_id (Value.int z))
    | none ↦
        if E.is_uuid_like s
        then load (by_uuid (Value.str s))
        else raise (Exception.invalid_identity (Value.str s))
  ]
  get_by by_id by_uuid v = raise (Exception.invalid_identity v)

  -- plugins
  unfoldable pub get_plugin : Value → Action Object
  unfolding get_by get_plugin_by_id get_plugin_by_uuid
  get_plugin = get_by get_plugin_by_id get_plugin_by_uuid

  unfoldable pub create_plugin_object : Object → Action Object
  unfolding load create_plugin obj_get_changes
  create_plugin_object o = load (create_plugin (obj_get_changes o))

  unfoldable pub save_plugin : Object → Action Object
  unfolding update_plugin obj_get_changes
  save_plugin o = do
    update_plugin (o.row Column.uuid) (obj_get_changes o)
    pure (from_db_object o.row)

  unfoldable pub destroy_plugin_object : Object → Action (Unit {0})
  unfolding destroy_plugin
  destroy_plugin_object o = destroy_plugin (o.row Column.uuid)

  -- plugins injected into boards
  unfoldable pub get_injection_plugin : Value → Value → Action Object
  unfolding load get_injection_plugin_by_uuids
  get_injection_plugin board_uuid plugin_uuid =
      load (get_injection_plugin_by_uuids board_uuid plugin_uuid)

  unfoldable pub create_injection_plugin_object : Object → Action Object
  unfolding load create_injection_plugin obj_get_changes
  create_injection_plugin_object o = load (create_injection_plugin (obj_get_changes o))

  unfoldable pub save_injection_plugin : Object → Action Object
  unfolding update_injection_plugin obj_get_changes
  save_injection_plugin o = do
    update_injection_plugin (o.row Column.id) (obj_get_changes o)
    pure (from_db_object o.row)

  unfoldable pub destroy_injection_plugin_object : Object → Action (Unit {0})
  unfolding destroy_injection_plugin
  destroy_injection_plugin_object o = destroy_injection_plugin (o.row Column.id)

  -- services, and those exposed on boards
  unfoldable pub create_service_object : Object → Action Object
  unfolding load create_service obj_get_changes
  create_service_object o = load (create_service (obj_get_changes o))

  unfoldable pub save_service : Object → Action Object
  unfolding update_service obj_get_changes
  save_service o = do
    update_service (o.row Column.uuid) (obj_get_changes o)
    pure (from_db_object o.row)

  unfoldable pub destroy_service_object : Object → Action (Unit {0})
  unfolding destroy_service
  destroy_service_object o = destroy_service (o.row Column.uuid)

  unfoldable pub get_exposed_service : Value → Value → Action Object
  unfolding load get_exposed_service_by_uuids
  get_exposed_service board_uuid service_uuid =
      load (get_exposed_service_by_uuids board_uuid service_uuid)

  unfoldable pub create_exposed_service_object : Object → Action Object
  unfolding load create_exposed_service obj_get_changes
  create_exposed_service_object o = load (create_exposed_service (obj_get_changes o))

  unfoldable pub destroy_exposed_service_object : Object → Action (Unit {0})
  unfolding destroy_exposed_service
  destroy_exposed_service_object o = destroy_exposed_service (o.row Column.id)

  -- fleets
  unfoldable pub create_fleet_object : Object → Action Object
  unfolding load create_fleet obj_get_changes
  create_fleet_object o = load (create_fleet (obj_get_changes o))

  unfoldable pub save_fleet : Object → Action Object
  unfolding update_fleet obj_get_changes
  save_fleet o = do
    update_fleet (o.row Column.uuid) (obj_get_changes o)
    pure (from_db_object o.row)

  unfoldable pub destroy_fleet_object : Object → Action (Unit {0})
  unfolding destroy_fleet
  destroy_fleet_object o = destroy_fleet (o.row Column.uuid)

  -- web services, and the boards where they are enabled
  unfoldable pub create_webservice_object : Object → Action Object
  unfolding load create_webservice obj_get_changes
  create_webservice_object o = load (create_webservice (obj_get_changes o))

  unfoldable pub destroy_webservice_object : Object → Action (Unit {0})
  unfolding destroy_webservice
  destroy_webservice_object o = destroy_webservice (o.row Column.uuid)

  unfoldable pub get_enabled_webservice : Value → Action Object
  unfolding load get_enabled_webservice_by_board_uuid
  get_enabled_webservice board_uuid = load (get_enabled_webservice_by_board_uuid board_uuid)

  unfoldable pub create_enabled_webservice_object : Object → Action Object
  unfolding load create_enabled_webservice obj_get_changes
  create_enabled_webservice_object o = load (create_enabled_webservice (obj_get_changes o))

  unfoldable pub destroy_enabled_webservice_object : Object → Action (Unit {0})
  unfolding destroy_enabled_webservice
  destroy_enabled_webservice_object o = destroy_enabled_webservice (o.row Column.id)

  -- network ports
  unfoldable pub create_port_object : Object → Action Object
  unfolding load create_port obj_get_changes
  create_port_object o = load (create_port (obj_get_changes o))

  unfoldable pub destroy_port_object : Object → Action (Unit {0})
  unfolding destroy_port
  destroy_port_object o = destroy_port (o.row Column.uuid)

  -- locations of a board: the id comes first, in a query of its own
  unfoldable pub list_locations : Value → Action (List Object)
  unfolding get_board_id_by_uuid get_locations_by_board_id
  list_locations board_uuid = do
    board_id ← get_board_id_by_uuid board_uuid
    rows ← get_locations_by_board_id board_id whole
    pure (map from_db_object rows)
