-- ===== src/Api/Router/Routes.antt =====
-- iotronic/api/controllers/v1: the requests of the REST API, one constructor for each handler, with
-- the texts of the path, the arguments and the body.
use stack4things_openstack_i.Api.Boards.{BoardBody}
use stack4things_openstack_i.Api.Listing.{Query}
use stack4things_openstack_i.Base.{Bool, List, Option, String}
use stack4things_openstack_i.Db.Schema.{Value, Values}

pub data Request : Type 0 where
  get_board_one : String → Option (List String) → Request
  get_board_all : Option Value → Query → Option Value → Request
  detail_boards : String → Option Value → Query → Option Value → Request
  post_board : BoardBody → Request
  delete_board : String → Request
  patch_board : String → Values → Request
  post_board_action : String → String → Value → Request
  get_board_plugins : String → Request
  post_board_plugin : String → String → String → Value → Request
  put_board_plugin : String → String → Value → Request
  delete_board_plugin : String → String → Request
  get_board_services : String → Request
  post_service_action : String → String → String → Request
  restore_board_services : String → Request
  get_services_status : String → Request
  get_board_webservices : String → Query → Request
  put_board_webservice : String → Values → Request
  enable_board_webservices : String → String → String → String → Request
  disable_board_webservices : String → Request
  renew_board_webservices : String → Request
  put_board_port : String → Value → Value → List Value → Request
  delete_board_port : String → String → Request
  get_board_ports : String → Request
  get_board_port : String → String → Request
  get_public_plugins : Query → Request
  get_plugin_one : String → Option (List String) → Request
  get_plugin_all : Query → Bool → Bool → Request
  detail_plugins : String → Query → Bool → Bool → Request
  post_plugin : Values → Request
  delete_plugin : String → Request
  patch_plugin : String → Values → Request
  get_public_services : Query → Request
  get_service_one : String → Option (List String) → Request
  get_service_all : Query → Bool → Bool → Request
  detail_services : String → Query → Bool → Bool → Request
  post_service : Values → Request
  delete_service : String → Request
  patch_service : String → Values → Request
  get_fleet_boards : String → Query → Request
  get_fleet_one : String → Option (List String) → Request
  get_fleet_all : Query → Request
  post_fleet : Values → Request
  delete_fleet : String → Request
  patch_fleet : String → Values → Request
  detail_fleets : String → Query → Request
  get_webservice_one : String → Option (List String) → Request
  get_webservice_all : Query → Request
  delete_webservice : String → Request
  detail_webservices : String → Query → Request
  get_enabled_all : Query → Request
  get_port_all : Query → Request
  get_port_one : String → Option (List String) → Request
  delete_port_one : String → Request
  get_request_results : String → Query → Request
  get_request_one : String → Option (List String) → Request
  get_request_all : Query → Request
  detail_requests : String → Query → Request
