-- ===== src/Conductor/Keeping.antt =====
-- The handlers of iotronic/conductor/endpoints.py for boards, plugins, services and fleets keep at
-- most one valid session of each board.
use stack4things_openstack_i.Action.{Action, Exception, WampMessage, except_module}
use stack4things_openstack_i.Action.Keeps.{
  Keeps, call-Keeps, catch-Keeps, keeps_rules, or_not_found-Keeps, pure-Keeps, raise-Keeps,
}
use stack4things_openstack_i.Base.{Option, String, none, some}
use stack4things_openstack_i.Conductor.Boards.{
  action_board, close_exposed, create_board_endpoint, destroy_board_endpoint, factory_reset,
  reset_result, update_board_endpoint,
}
use stack4things_openstack_i.Conductor.Plugins.{
  status_services_on_board, action_plugin, create_fleet_endpoint, create_plugin_endpoint,
  create_service_endpoint, destroy_fleet_endpoint, destroy_plugin_endpoint,
  destroy_service_endpoint, inject_plugin, record_injection, remove_plugin, update_fleet_endpoint,
  update_plugin_endpoint, update_service_endpoint,
}
use stack4things_openstack_i.Conductor.Requests.Keeping.{
  execute_on_board-Keeps, manage_result-Keeps,
}
use stack4things_openstack_i.Db.Boards.{get_board_by_id, get_board_by_uuid}
use stack4things_openstack_i.Db.Engine.{Engine}
use stack4things_openstack_i.Db.Fleets.{get_fleet_by_uuid}
use stack4things_openstack_i.Db.Keeping.{all-Keeps, one-Keeps}
use stack4things_openstack_i.Db.Plugins.{get_plugin_by_id, get_plugin_by_uuid}
use stack4things_openstack_i.Db.Schema.{Model, Row, Tables, Value}
use stack4things_openstack_i.Db.Services.{get_exposed_services_by_board_uuid, get_service_by_uuid}
use stack4things_openstack_i.Objects.{Object, get_board}
use stack4things_openstack_i.Objects.Keeping.{
  create_board-Keeps, create_fleet_object-Keeps, create_injection_plugin_object-Keeps,
  create_location-Keeps, create_plugin_object-Keeps, create_service_object-Keeps,
  destroy_board-Keeps, destroy_fleet_object-Keeps, destroy_injection_plugin_object-Keeps,
  destroy_plugin_object-Keeps, destroy_service_object-Keeps, exists_by_name-Keeps, get_by-Keeps,
  get_injection_plugin-Keeps, save_fleet-Keeps, save_injection_plugin-Keeps, save_plugin-Keeps,
  save_service-Keeps,
}
use stack4things_openstack_i.Objects.Kinds.{get_by, get_plugin}
use stack4things_openstack_i.Wamp.Sessions.Keeping.{
  Single, for_each-Keeps, get_board_by_uuid-Keeps, load-Keeps, save_board-Keeps,
}

module _ ⦃E : Engine⦄ where
  pub except_module-Keeps :
      {P : Tables → Type 0} {A : Type 0} (m : Action A) → Keeps P m → Keeps P (except_module m)
  except_module-Keeps m km = catch-Keeps m _ km (λ e. raise-Keeps Exception.type_error)

  get_board_by_id-Keeps : {P : Tables → Type 0} (v : Value) → Keeps P (get_board_by_id v)
  unfolding get_board_by_id
  get_board_by_id-Keeps v = or_not_found-Keeps _ _ (one-Keeps Model.board _)

  pub get_board-Keeps : {P : Tables → Type 0} (i : Value) → Keeps P (get_board i)
  unfolding get_board get_by
  get_board-Keeps i =
      get_by-Keeps get_board_by_id get_board_by_uuid i get_board_by_id-Keeps get_board_by_uuid-Keeps

  pub update_board_endpoint-Keeps : (a : Object) → Keeps Single (update_board_endpoint a)
  unfolding update_board_endpoint
  update_board_endpoint-Keeps a = search (keeps_rules, save_board-Keeps) depth 40

  pub create_board_endpoint-Keeps :
      (a : Object) (b : Object) → Keeps Single (create_board_endpoint a b)
  unfolding create_board_endpoint
  create_board_endpoint-Keeps a b =
      search
        (keeps_rules, load-Keeps, exists_by_name-Keeps, create_board-Keeps, create_location-Keeps)
        depth 40

  close_exposed-Keeps : (a : Object) (b : Value) (c : Row) → Keeps Single (close_exposed a b c)
  unfolding close_exposed
  close_exposed-Keeps a b c = search (keeps_rules, call-Keeps) depth 40

  factory_reset-Keeps : (a : Object) (b : Value) → Keeps Single (factory_reset a b)
  unfolding factory_reset
  factory_reset-Keeps a b =
      search (keeps_rules, except_module-Keeps, execute_on_board-Keeps) depth 40

  reset_result-Keeps : (r : Option WampMessage) (i : Value) → Keeps Single (reset_result r i)
  reset_result-Keeps none i = pure-Keeps Value.null
  reset_result-Keeps (some m) i = manage_result-Keeps m i

  pub destroy_board_endpoint-Keeps : (a : Value) → Keeps Single (destroy_board_endpoint a)
  unfolding destroy_board_endpoint get_exposed_services_by_board_uuid
  destroy_board_endpoint-Keeps a =
      search
        (
          keeps_rules, load-Keeps, get_board_by_uuid-Keeps, factory_reset-Keeps, all-Keeps,
          for_each-Keeps, close_exposed-Keeps, destroy_board-Keeps, reset_result-Keeps,
        )
        depth 40

  pub action_board-Keeps : (a : Value) (b : String) (c : Value) → Keeps Single (action_board a b c)
  unfolding action_board
  action_board-Keeps a b c =
      search
        (
          keeps_rules, get_board-Keeps, except_module-Keeps, execute_on_board-Keeps,
          manage_result-Keeps,
        )
        depth 40

  get_plugin_by_id-Keeps : (v : Value) → Keeps Single (get_plugin_by_id v)
  unfolding get_plugin_by_id
  get_plugin_by_id-Keeps v = or_not_found-Keeps _ _ (one-Keeps Model.plugin _)

  get_plugin_by_uuid-Keeps : (v : Value) → Keeps Single (get_plugin_by_uuid v)
  unfolding get_plugin_by_uuid
  get_plugin_by_uuid-Keeps v = or_not_found-Keeps _ _ (one-Keeps Model.plugin _)

  get_plugin-Keeps : (i : Value) → Keeps Single (get_plugin i)
  unfolding get_plugin
  get_plugin-Keeps i =
      get_by-Keeps get_plugin_by_id get_plugin_by_uuid i get_plugin_by_id-Keeps
        get_plugin_by_uuid-Keeps

  record_injection-Keeps :
      (b p v : Value) (o : Option Object) → Keeps Single (record_injection b p v o)
  unfolding record_injection
  record_injection-Keeps b p v none =
      search (keeps_rules, create_injection_plugin_object-Keeps) depth 40
  record_injection-Keeps b p v (some o) = search (keeps_rules, save_injection_plugin-Keeps) depth 40

  pub inject_plugin-Keeps : (a : Value) (b : Value) (c : Value) → Keeps Single (inject_plugin a b c)
  unfolding inject_plugin
  inject_plugin-Keeps a b c =
      search
        (
          keeps_rules, get_plugin-Keeps, except_module-Keeps, execute_on_board-Keeps,
          get_injection_plugin-Keeps, record_injection-Keeps, manage_result-Keeps,
        )
        depth 40

  pub remove_plugin-Keeps : (a : Value) (b : Value) → Keeps Single (remove_plugin a b)
  unfolding remove_plugin get_plugin_by_uuid
  remove_plugin-Keeps a b =
      search
        (
          keeps_rules, load-Keeps, one-Keeps, get_injection_plugin-Keeps, except_module-Keeps,
          execute_on_board-Keeps, manage_result-Keeps, destroy_injection_plugin_object-Keeps,
        )
        depth 40

  pub action_plugin-Keeps :
      (a : Value) (b : Value) (c : String) (d : Value) → Keeps Single (action_plugin a b c d)
  unfolding action_plugin
  action_plugin-Keeps a b c d =
      search
        (
          keeps_rules, get_plugin-Keeps, except_module-Keeps, execute_on_board-Keeps,
          manage_result-Keeps,
        )
        depth 40

  pub create_plugin_endpoint-Keeps :
      (a : (Value → Value)) (b : Object) → Keeps Single (create_plugin_endpoint a b)
  unfolding create_plugin_endpoint
  create_plugin_endpoint-Keeps a b = search (keeps_rules, create_plugin_object-Keeps) depth 40

  pub update_plugin_endpoint-Keeps : (a : Object) → Keeps Single (update_plugin_endpoint a)
  unfolding update_plugin_endpoint
  update_plugin_endpoint-Keeps a = search (keeps_rules, save_plugin-Keeps) depth 40

  pub destroy_plugin_endpoint-Keeps : (a : Value) → Keeps Single (destroy_plugin_endpoint a)
  unfolding destroy_plugin_endpoint get_plugin_by_uuid
  destroy_plugin_endpoint-Keeps a =
      search (keeps_rules, load-Keeps, one-Keeps, destroy_plugin_object-Keeps) depth 40

  pub create_service_endpoint-Keeps : (a : Object) → Keeps Single (create_service_endpoint a)
  unfolding create_service_endpoint
  create_service_endpoint-Keeps a = search (keeps_rules, create_service_object-Keeps) depth 40

  pub update_service_endpoint-Keeps : (a : Object) → Keeps Single (update_service_endpoint a)
  unfolding update_service_endpoint
  update_service_endpoint-Keeps a = search (keeps_rules, save_service-Keeps) depth 40

  pub destroy_service_endpoint-Keeps : (a : Value) → Keeps Single (destroy_service_endpoint a)
  unfolding destroy_service_endpoint get_service_by_uuid
  destroy_service_endpoint-Keeps a =
      search (keeps_rules, load-Keeps, one-Keeps, destroy_service_object-Keeps) depth 40

  pub create_fleet_endpoint-Keeps : (a : Object) → Keeps Single (create_fleet_endpoint a)
  unfolding create_fleet_endpoint
  create_fleet_endpoint-Keeps a = search (keeps_rules, create_fleet_object-Keeps) depth 40

  pub update_fleet_endpoint-Keeps : (a : Object) → Keeps Single (update_fleet_endpoint a)
  unfolding update_fleet_endpoint
  update_fleet_endpoint-Keeps a = search (keeps_rules, save_fleet-Keeps) depth 40

  pub destroy_fleet_endpoint-Keeps : (a : Value) → Keeps Single (destroy_fleet_endpoint a)
  unfolding destroy_fleet_endpoint get_fleet_by_uuid
  destroy_fleet_endpoint-Keeps a =
      search (keeps_rules, load-Keeps, one-Keeps, destroy_fleet_object-Keeps) depth 40

  pub status_services_on_board-Keeps : (a : Value) → Keeps Single (status_services_on_board a)
  unfolding status_services_on_board
  status_services_on_board-Keeps a =
      search
        (
          keeps_rules, get_board-Keeps, except_module-Keeps, execute_on_board-Keeps,
          manage_result-Keeps,
        )
        depth 40
