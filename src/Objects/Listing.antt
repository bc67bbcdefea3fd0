-- ===== src/Objects/Listing.antt =====
-- iotronic/objects: the class methods get_by_uuid, get_by_name, get_by_id and list, which the REST
-- API reads with.
use stack4things_openstack_i.Action.{Action, pure, ◌>>=◌}
use stack4things_openstack_i.Base.{List, map}
use stack4things_openstack_i.Db.Boards.{get_board_list}
use stack4things_openstack_i.Db.Engine.{Engine, Page}
use stack4things_openstack_i.Db.Filters.{Filters}
use stack4things_openstack_i.Db.Fleets.{
  get_enabled_webservice_list, get_fleet_list, get_webservice_list,
}
use stack4things_openstack_i.Db.Plugins.{get_injection_plugin_list, get_plugin_list}
use stack4things_openstack_i.Db.Requests.{get_request_list, get_result_list}
use stack4things_openstack_i.Db.Schema.{Row, Value}
use stack4things_openstack_i.Db.Services.{get_exposed_service_list, get_port_list, get_service_list}
use stack4things_openstack_i.Objects.{Object, from_db_object}

module _ ⦃E : Engine⦄ where
  -- [Class._from_db_object(cls(context), obj) for obj in …]
  unfoldable pub load_all : Action (List Row) → Action (List Object)
  load_all m = do rows ← m; pure (map from_db_object rows)

  unfoldable pub list_boards : Filters → Page → Action (List Object)
  unfolding load_all get_board_list
  list_boards filters page = load_all (get_board_list filters page)

  unfoldable pub list_plugins : Filters → Page → Action (List Object)
  unfolding load_all get_plugin_list
  list_plugins filters page = load_all (get_plugin_list filters page)

  unfoldable pub list_injection_plugins : Value → Action (List Object)
  unfolding load_all get_injection_plugin_list
  list_injection_plugins board_uuid = load_all (get_injection_plugin_list board_uuid)

  unfoldable pub list_services : Filters → Page → Action (List Object)
  unfolding load_all get_service_list
  list_services filters page = load_all (get_service_list filters page)

  unfoldable pub list_exposed_services : Value → Action (List Object)
  unfolding load_all get_exposed_service_list
  list_exposed_services board_uuid = load_all (get_exposed_service_list board_uuid)

  unfoldable pub list_ports : Filters → Page → Action (List Object)
  unfolding load_all get_port_list
  list_ports filters page = load_all (get_port_list filters page)

  unfoldable pub list_fleets : Filters → Page → Action (List Object)
  unfolding load_all get_fleet_list
  list_fleets filters page = load_all (get_fleet_list filters page)

  unfoldable pub list_webservices : Filters → Page → Action (List Object)
  unfolding load_all get_webservice_list
  list_webservices filters page = load_all (get_webservice_list filters page)

  unfoldable pub list_enabled_webservices : Filters → Page → Action (List Object)
  unfolding load_all get_enabled_webservice_list
  list_enabled_webservices filters page = load_all (get_enabled_webservice_list filters page)

  unfoldable pub list_requests : Filters → Page → Action (List Object)
  unfolding load_all get_request_list
  list_requests filters page = load_all (get_request_list filters page)

  unfoldable pub list_results : Filters → Page → Action (List Object)
  unfolding load_all get_result_list
  list_results filters page = load_all (get_result_list filters page)
