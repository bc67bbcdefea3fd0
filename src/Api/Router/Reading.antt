-- ===== src/Api/Router/Reading.antt =====
-- The reads of the REST API, and what it makes of the objects it gets, leave the tables alone.
pub mod Showing
use stack4things_openstack_i.Action.{Action}
use stack4things_openstack_i.Action.Keeps.{
  Keeps, bind-Keeps, if-Keeps, keeps_rules, lift-Keeps, or_not_found-Keeps, pure-Keeps, raise-Keeps,
}
use stack4things_openstack_i.Api.Boards.{first_location}
use stack4things_openstack_i.Api.Listing.{
  Query, allow, allow_owner, find_marker, get_page, no_marker, show, show_board, show_boards,
  show_list, unchecked_limit,
}
use stack4things_openstack_i.Api.Resources.{Kind}
use stack4things_openstack_i.Api.Resources.Boards.{
  agent_address, cached_ip, config_of, convert_board, convert_boards, locations_of, remember_ip,
  session_of, wstun_ip,
}
use stack4things_openstack_i.Api.Utils.{
  ApiConf, Context, check_if_online, get_rpc, get_rpc_board, get_rpc_fleet, get_rpc_plugin,
  get_rpc_port, get_rpc_service, get_rpc_webservice, want, want_name,
}
use stack4things_openstack_i.Base.{List, Option, String, [], negsuc, none, pos, some, ℕ, ℤ, ◌∷◌}
use stack4things_openstack_i.Common.Policy.{Credentials, Enforcer}
use stack4things_openstack_i.Db.Agents.{get_registration_wampagent, get_wampagent}
use stack4things_openstack_i.Db.Boards.{
  get_board_by_name, get_board_by_uuid, get_board_id_by_uuid, get_board_list,
  get_locations_by_board_id,
}
use stack4things_openstack_i.Db.Engine.{Engine, Page}
use stack4things_openstack_i.Db.Filters.{Filters}
use stack4things_openstack_i.Db.Fleets.{
  get_enabled_webservice_by_id, get_enabled_webservice_list, get_fleet_by_name, get_fleet_by_uuid,
  get_fleet_list, get_webservice_by_uuid, get_webservice_list,
}
use stack4things_openstack_i.Db.Keeping.{all-Keeps, one-Keeps, paginate_query-Keeps}
use stack4things_openstack_i.Db.Plugins.{
  get_injection_plugin_list, get_plugin_by_name, get_plugin_by_uuid, get_plugin_list,
}
use stack4things_openstack_i.Db.Requests.{get_request_by_uuid, get_request_list, get_result_list}
use stack4things_openstack_i.Db.Schema.{Row, Tables, Value, Values}
use stack4things_openstack_i.Db.Services.{
  get_exposed_service_list, get_port_by_name, get_port_by_uuid, get_port_list, get_service_by_name,
  get_service_by_uuid, get_service_list,
}
use stack4things_openstack_i.Db.Sessions.{get_session_by_board_uuid}
use stack4things_openstack_i.Objects.{Object}
use stack4things_openstack_i.Objects.Kinds.{list_locations}
use stack4things_openstack_i.Objects.Listing.{
  list_boards, list_enabled_webservices, list_exposed_services, list_fleets, list_injection_plugins,
  list_plugins, list_ports, list_requests, list_results, list_services, list_webservices, load_all,
}
use stack4things_openstack_i.Objects.Registry.{
  found_object, get_registration_agent, get_wampagent_object,
}
use stack4things_openstack_i.Wamp.Sessions.Keeping.{get_board_by_uuid-Keeps, load-Keeps}

module _ ⦃E : Engine⦄ {P : Tables → Type 0} where
  pub get_board_by_name-Keeps : (v : Value) → Keeps P (get_board_by_name v)
  unfolding get_board_by_name
  get_board_by_name-Keeps v = search (or_not_found-Keeps, one-Keeps)

  pub get_plugin_by_uuid-Keeps : (v : Value) → Keeps P (get_plugin_by_uuid v)
  unfolding get_plugin_by_uuid
  get_plugin_by_uuid-Keeps v = search (or_not_found-Keeps, one-Keeps)

  pub get_plugin_by_name-Keeps : (v : Value) → Keeps P (get_plugin_by_name v)
  unfolding get_plugin_by_name
  get_plugin_by_name-Keeps v = search (or_not_found-Keeps, one-Keeps)

  pub get_service_by_uuid-Keeps : (v : Value) → Keeps P (get_service_by_uuid v)
  unfolding get_service_by_uuid
  get_service_by_uuid-Keeps v = search (or_not_found-Keeps, one-Keeps)

  pub get_service_by_name-Keeps : (v : Value) → Keeps P (get_service_by_name v)
  unfolding get_service_by_name
  get_service_by_name-Keeps v = search (or_not_found-Keeps, one-Keeps)

  pub get_port_by_uuid-Keeps : (v : Value) → Keeps P (get_port_by_uuid v)
  unfolding get_port_by_uuid
  get_port_by_uuid-Keeps v = search (or_not_found-Keeps, one-Keeps)

  pub get_port_by_name-Keeps : (v : Value) → Keeps P (get_port_by_name v)
  unfolding get_port_by_name
  get_port_by_name-Keeps v = search (or_not_found-Keeps, one-Keeps)

  pub get_fleet_by_uuid-Keeps : (v : Value) → Keeps P (get_fleet_by_uuid v)
  unfolding get_fleet_by_uuid
  get_fleet_by_uuid-Keeps v = search (or_not_found-Keeps, one-Keeps)

  pub get_fleet_by_name-Keeps : (v : Value) → Keeps P (get_fleet_by_name v)
  unfolding get_fleet_by_name
  get_fleet_by_name-Keeps v = search (or_not_found-Keeps, one-Keeps)

  pub get_webservice_by_uuid-Keeps : (v : Value) → Keeps P (get_webservice_by_uuid v)
  unfolding get_webservice_by_uuid
  get_webservice_by_uuid-Keeps v = search (or_not_found-Keeps, one-Keeps)

  pub get_enabled_webservice_by_id-Keeps : (v : Value) → Keeps P (get_enabled_webservice_by_id v)
  unfolding get_enabled_webservice_by_id
  get_enabled_webservice_by_id-Keeps v = search (or_not_found-Keeps, one-Keeps)

  pub get_request_by_uuid-Keeps : (v : Value) → Keeps P (get_request_by_uuid v)
  unfolding get_request_by_uuid
  get_request_by_uuid-Keeps v = search (or_not_found-Keeps, one-Keeps)

  pub get_wampagent-Keeps : (v : Value) → Keeps P (get_wampagent v)
  unfolding get_wampagent
  get_wampagent-Keeps v = search (or_not_found-Keeps, one-Keeps)

  pub get_rpc-Keeps :
      (f g : Value → Action Row) (s : String)
      → ((v : Value) → Keeps P (f v))
      → ((v : Value) → Keeps P (g v))
      → Keeps P (get_rpc f g s)
  unfolding get_rpc
  get_rpc-Keeps f g s kf kg =
      if-Keeps (E.is_uuid_like s) _ _ (load-Keeps _ (kf _)) (load-Keeps _ (kg _))

  pub get_rpc_board-Keeps : (s : String) → Keeps P (get_rpc_board s)
  unfolding get_rpc_board
  get_rpc_board-Keeps s =
      get_rpc-Keeps get_board_by_uuid get_board_by_name s get_board_by_uuid-Keeps
        get_board_by_name-Keeps

  pub get_rpc_plugin-Keeps : (s : String) → Keeps P (get_rpc_plugin s)
  unfolding get_rpc_plugin
  get_rpc_plugin-Keeps s =
      get_rpc-Keeps get_plugin_by_uuid get_plugin_by_name s get_plugin_by_uuid-Keeps
        get_plugin_by_name-Keeps

  pub get_rpc_service-Keeps : (s : String) → Keeps P (get_rpc_service s)
  unfolding get_rpc_service
  get_rpc_service-Keeps s =
      get_rpc-Keeps get_service_by_uuid get_service_by_name s get_service_by_uuid-Keeps
        get_service_by_name-Keeps

  pub get_rpc_port-Keeps : (s : String) → Keeps P (get_rpc_port s)
  unfolding get_rpc_port
  get_rpc_port-Keeps s =
      get_rpc-Keeps get_port_by_uuid get_port_by_name s get_port_by_uuid-Keeps
        get_port_by_name-Keeps

  pub get_rpc_fleet-Keeps : (s : String) → Keeps P (get_rpc_fleet s)
  unfolding get_rpc_fleet
  get_rpc_fleet-Keeps s =
      get_rpc-Keeps get_fleet_by_uuid get_fleet_by_name s get_fleet_by_uuid-Keeps
        get_fleet_by_name-Keeps

  pub get_rpc_webservice-Keeps : (s : String) → Keeps P (get_rpc_webservice s)
  unfolding get_rpc_webservice
  get_rpc_webservice-Keeps s =
      if-Keeps (E.is_uuid_like s) _ _ (load-Keeps _ (get_webservice_by_uuid-Keeps _))
        (raise-Keeps _)

  pub load_all-Keeps : (m : Action (List Row)) → Keeps P m → Keeps P (load_all m)
  unfolding load_all
  load_all-Keeps m km = bind-Keeps m _ km (λ r. pure-Keeps _)

  pub list_boards-Keeps : (f : Filters) (g : Page) → Keeps P (list_boards f g)
  unfolding list_boards get_board_list
  list_boards-Keeps f g = load_all-Keeps (get_board_list f g) (record { at = λ w h. h })

  pub list_plugins-Keeps : (f : Filters) (g : Page) → Keeps P (list_plugins f g)
  unfolding list_plugins get_plugin_list
  list_plugins-Keeps f g = load_all-Keeps (get_plugin_list f g) (record { at = λ w h. h })

  pub list_services-Keeps : (f : Filters) (g : Page) → Keeps P (list_services f g)
  unfolding list_services get_service_list
  list_services-Keeps f g = load_all-Keeps (get_service_list f g) (record { at = λ w h. h })

  pub list_ports-Keeps : (f : Filters) (g : Page) → Keeps P (list_ports f g)
  unfolding list_ports get_port_list
  list_ports-Keeps f g = load_all-Keeps (get_port_list f g) (record { at = λ w h. h })

  pub list_fleets-Keeps : (f : Filters) (g : Page) → Keeps P (list_fleets f g)
  unfolding list_fleets get_fleet_list
  list_fleets-Keeps f g = load_all-Keeps (get_fleet_list f g) (record { at = λ w h. h })

  pub list_webservices-Keeps : (f : Filters) (g : Page) → Keeps P (list_webservices f g)
  unfolding list_webservices get_webservice_list
  list_webservices-Keeps f g = load_all-Keeps (get_webservice_list f g) (record { at = λ w h. h })

  pub list_enabled_webservices-Keeps :
      (f : Filters) (g : Page) → Keeps P (list_enabled_webservices f g)
  unfolding list_enabled_webservices get_enabled_webservice_list
  list_enabled_webservices-Keeps f g =
      load_all-Keeps (get_enabled_webservice_list f g) (record { at = λ w h. h })

  pub list_requests-Keeps : (f : Filters) (g : Page) → Keeps P (list_requests f g)
  unfolding list_requests get_request_list
  list_requests-Keeps f g = load_all-Keeps (get_request_list f g) (record { at = λ w h. h })

  pub list_results-Keeps : (f : Filters) (g : Page) → Keeps P (list_results f g)
  unfolding list_results get_result_list
  list_results-Keeps f g = load_all-Keeps (get_result_list f g) (record { at = λ w h. h })

  pub list_injection_plugins-Keeps : (v : Value) → Keeps P (list_injection_plugins v)
  unfolding list_injection_plugins get_injection_plugin_list
  list_injection_plugins-Keeps v = search (load_all-Keeps, all-Keeps)

  pub list_exposed_services-Keeps : (v : Value) → Keeps P (list_exposed_services v)
  unfolding list_exposed_services get_exposed_service_list
  list_exposed_services-Keeps v = search (load_all-Keeps, all-Keeps, if-Keeps)
