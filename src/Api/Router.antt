-- ===== src/Api/Router.antt =====
-- iotronic/api/controllers/v1: which handler serves a request. pecan routes the path to a
-- controller's method, and BoardsController._lookup to the controllers of a board.
pub mod Routes
pub mod Reading
pub mod Serving
pub mod Sessions
pub mod Strangers
pub mod Reconnecting
use stack4things_openstack_i.Api.Router.Routes.{Request}
use stack4things_openstack_i.Action.{Action}
use stack4things_openstack_i.Api.Boards.{
  delete_board, detail_boards, get_board_all, get_board_one, patch_board, post_board,
  post_board_action,
}
use stack4things_openstack_i.Api.Boards.Parts.{
  delete_board_plugin, get_board_plugins, get_board_services, get_services_status,
  post_board_plugin, post_service_action, put_board_plugin, restore_board_services,
}
use stack4things_openstack_i.Api.Boards.Parts.Webservices.{
  disable_board_webservices, enable_board_webservices, get_board_webservices, put_board_webservice,
  renew_board_webservices,
}
use stack4things_openstack_i.Api.Boards.Parts.Ports.{
  delete_board_port, get_board_port, get_board_ports, put_board_port,
}
use stack4things_openstack_i.Api.Fleets.{
  delete_fleet, detail_fleets, get_fleet_all, get_fleet_boards, get_fleet_one, patch_fleet,
  post_fleet,
}
use stack4things_openstack_i.Api.Listing.{Answered}
use stack4things_openstack_i.Api.Plugins.{
  delete_plugin, detail_plugins, get_plugin_all, get_plugin_one, get_public_plugins, patch_plugin,
  post_plugin,
}
use stack4things_openstack_i.Api.Ports.{delete_port_one, get_port_all, get_port_one}
use stack4things_openstack_i.Api.Requests.{
  detail_requests, get_request_all, get_request_one, get_request_results,
}
use stack4things_openstack_i.Api.Services.{
  delete_service, detail_services, get_public_services, get_service_all, get_service_one,
  patch_service, post_service,
}
use stack4things_openstack_i.Api.Utils.{ApiConf, Context}
use stack4things_openstack_i.Api.Webservices.{
  delete_webservice, detail_webservices, get_enabled_all, get_webservice_all, get_webservice_one,
}
use stack4things_openstack_i.Common.Policy.{Enforcer}
use stack4things_openstack_i.Db.Engine.{Engine}

module _ ⦃E : Engine⦄ ⦃F : Enforcer⦄ (conf : ApiConf) (ctx : Context) where
  unfoldable pub handle : Request → Action Answered
  handle (Request.get_board_one a b) = get_board_one conf ctx a b
  handle (Request.get_board_all a b c) = get_board_all conf ctx a b c
  handle (Request.detail_boards a b c d) = detail_boards conf ctx a b c d
  handle (Request.post_board a) = post_board conf ctx a
  handle (Request.delete_board a) = delete_board conf ctx a
  handle (Request.patch_board a b) = patch_board conf ctx a b
  handle (Request.post_board_action a b c) = post_board_action conf ctx a b c
  handle (Request.get_board_plugins a) = get_board_plugins conf ctx a
  handle (Request.post_board_plugin a b c d) = post_board_plugin conf ctx a b c d
  handle (Request.put_board_plugin a b c) = put_board_plugin conf ctx a b c
  handle (Request.delete_board_plugin a b) = delete_board_plugin conf ctx a b
  handle (Request.get_board_services a) = get_board_services conf ctx a
  handle (Request.post_service_action a b c) = post_service_action conf ctx a b c
  handle (Request.restore_board_services a) = restore_board_services conf ctx a
  handle (Request.get_services_status a) = get_services_status conf ctx a
  handle (Request.get_board_webservices a b) = get_board_webservices conf ctx a b
  handle (Request.put_board_webservice a b) = put_board_webservice conf ctx a b
  handle (Request.enable_board_webservices a b c d) = enable_board_webservices conf ctx a b c d
  handle (Request.disable_board_webservices a) = disable_board_webservices conf ctx a
  handle (Request.renew_board_webservices a) = renew_board_webservices conf ctx a
  handle (Request.put_board_port a b c d) = put_board_port conf ctx a b c d
  handle (Request.delete_board_port a b) = delete_board_port conf ctx a b
  handle (Request.get_board_ports a) = get_board_ports conf ctx a
  handle (Request.get_board_port a b) = get_board_port conf ctx a b
  handle (Request.get_public_plugins a) = get_public_plugins conf ctx a
  handle (Request.get_plugin_one a b) = get_plugin_one conf ctx a b
  handle (Request.get_plugin_all a b c) = get_plugin_all conf ctx a b c
  handle (Request.detail_plugins a b c d) = detail_plugins conf ctx a b c d
  handle (Request.post_plugin a) = post_plugin conf ctx a
  handle (Request.delete_plugin a) = delete_plugin conf ctx a
  handle (Request.patch_plugin a b) = patch_plugin conf ctx a b
  handle (Request.get_public_services a) = get_public_services conf ctx a
  handle (Request.get_service_one a b) = get_service_one conf ctx a b
  handle (Request.get_service_all a b c) = get_service_all conf ctx a b c
  handle (Request.detail_services a b c d) = detail_services conf ctx a b c d
  handle (Request.post_service a) = post_service conf ctx a
  handle (Request.delete_service a) = delete_service conf ctx a
  handle (Request.patch_service a b) = patch_service conf ctx a b
  handle (Request.get_fleet_boards a b) = get_fleet_boards conf ctx a b
  handle (Request.get_fleet_one a b) = get_fleet_one conf ctx a b
  handle (Request.get_fleet_all a) = get_fleet_all conf ctx a
  handle (Request.post_fleet a) = post_fleet conf ctx a
  handle (Request.delete_fleet a) = delete_fleet conf ctx a
  handle (Request.patch_fleet a b) = patch_fleet conf ctx a b
  handle (Request.detail_fleets a b) = detail_fleets conf ctx a b
  handle (Request.get_webservice_one a b) = get_webservice_one conf ctx a b
  handle (Request.get_webservice_all a) = get_webservice_all conf ctx a
  handle (Request.delete_webservice a) = delete_webservice conf ctx a
  handle (Request.detail_webservices a b) = detail_webservices conf ctx a b
  handle (Request.get_enabled_all a) = get_enabled_all conf ctx a
  handle (Request.get_port_all a) = get_port_all conf ctx a
  handle (Request.get_port_one a b) = get_port_one conf a b
  handle (Request.delete_port_one a) = delete_port_one conf a
  handle (Request.get_request_results a b) = get_request_results conf ctx a b
  handle (Request.get_request_one a b) = get_request_one conf ctx a b
  handle (Request.get_request_all a) = get_request_all conf ctx a
  handle (Request.detail_requests a b) = detail_requests conf ctx a b
