-- ===== src/Api/Router/Strangers/Anyone.antt =====
-- What the API does for anyone.
use stack4things_openstack_i.Api.Router.Routes.{Request}
use stack4things_openstack_i.Action.{World}
use stack4things_openstack_i.Api.Boards.Parts.{get_services_status}
use stack4things_openstack_i.Api.Boards.Parts.Webservices.{
  disable_board_webservices, enable_board_webservices, renew_board_webservices,
}
use stack4things_openstack_i.Api.Boards.Parts.Ports.{delete_board_port, put_board_port}
use stack4things_openstack_i.Api.Router.{handle}
use stack4things_openstack_i.Api.Router.Strangers.Refusing.{is_guarded}
use stack4things_openstack_i.Api.Utils.{ApiConf, Context}
use stack4things_openstack_i.Base.{Bool, false, not, refl, true, ◌≡◌}
use stack4things_openstack_i.Common.Policy.{Enforcer}
use stack4things_openstack_i.Db.Engine.{Engine}

-- the handlers that authorize nobody
abbrev pub asks_nobody : Request → Bool
asks_nobody (Request.get_plugin_one a b) = false
asks_nobody q = not (is_guarded q)

module _ ⦃E : Engine⦄ (conf : ApiConf) (w : World) where
  -- The handlers that never authorize answer all users alike, and under any policy: the state of a
  -- board's services, enabling, disabling and renewing its web services, adding and removing its
  -- network ports, and showing or deleting a port.
  pub handle_alike :
      (F G : Enforcer) (ctx other : Context) (q : Request)
      → asks_nobody q ≡ true
      → handle ⦃F = F⦄ conf ctx q w ≡ handle ⦃F = G⦄ conf other q w
  unfolding handle get_services_status enable_board_webservices disable_board_webservices
      renew_board_webservices put_board_port delete_board_port
  handle_alike F G ctx other (Request.get_board_one a b) h = cc
  handle_alike F G ctx other (Request.get_board_all a b c) h = cc
  handle_alike F G ctx other (Request.detail_boards a b c d) h = cc
  handle_alike F G ctx other (Request.post_board a) h = cc
  handle_alike F G ctx other (Request.delete_board a) h = cc
  handle_alike F G ctx other (Request.patch_board a b) h = cc
  handle_alike F G ctx other (Request.post_board_action a b c) h = cc
  handle_alike F G ctx other (Request.get_board_plugins a) h = cc
  handle_alike F G ctx other (Request.post_board_plugin a b c d) h = cc
  handle_alike F G ctx other (Request.put_board_plugin a b c) h = cc
  handle_alike F G ctx other (Request.delete_board_plugin a b) h = cc
  handle_alike F G ctx other (Request.get_board_services a) h = cc
  handle_alike F G ctx other (Request.post_service_action a b c) h = cc
  handle_alike F G ctx other (Request.restore_board_services a) h = cc
  handle_alike F G ctx other (Request.get_services_status a) h = refl
  handle_alike F G ctx other (Request.get_board_webservices a b) h = cc
  handle_alike F G ctx other (Request.put_board_webservice a b) h = cc
  handle_alike F G ctx other (Request.enable_board_webservices a b c d) h = refl
  handle_alike F G ctx other (Request.disable_board_webservices a) h = refl
  handle_alike F G ctx other (Request.renew_board_webservices a) h = refl
  handle_alike F G ctx other (Request.put_board_port a b c d) h = refl
  handle_alike F G ctx other (Request.delete_board_port a b) h = refl
  handle_alike F G ctx other (Request.get_board_ports a) h = cc
  handle_alike F G ctx other (Request.get_board_port a b) h = cc
  handle_alike F G ctx other (Request.get_public_plugins a) h = cc
  handle_alike F G ctx other (Request.get_plugin_one a b) h = cc
  handle_alike F G ctx other (Request.get_plugin_all a b c) h = cc
  handle_alike F G ctx other (Request.detail_plugins a b c d) h = cc
  handle_alike F G ctx other (Request.post_plugin a) h = cc
  handle_alike F G ctx other (Request.delete_plugin a) h = cc
  handle_alike F G ctx other (Request.patch_plugin a b) h = cc
  handle_alike F G ctx other (Request.get_public_services a) h = cc
  handle_alike F G ctx other (Request.get_service_one a b) h = cc
  handle_alike F G ctx other (Request.get_service_all a b c) h = cc
  handle_alike F G ctx other (Request.detail_services a b c d) h = cc
  handle_alike F G ctx other (Request.post_service a) h = cc
  handle_alike F G ctx other (Request.delete_service a) h = cc
  handle_alike F G ctx other (Request.patch_service a b) h = cc
  handle_alike F G ctx other (Request.get_fleet_boards a b) h = cc
  handle_alike F G ctx other (Request.get_fleet_one a b) h = cc
  handle_alike F G ctx other (Request.get_fleet_all a) h = cc
  handle_alike F G ctx other (Request.post_fleet a) h = cc
  handle_alike F G ctx other (Request.delete_fleet a) h = cc
  handle_alike F G ctx other (Request.patch_fleet a b) h = cc
  handle_alike F G ctx other (Request.detail_fleets a b) h = cc
  handle_alike F G ctx other (Request.get_webservice_one a b) h = cc
  handle_alike F G ctx other (Request.get_webservice_all a) h = cc
  handle_alike F G ctx other (Request.delete_webservice a) h = cc
  handle_alike F G ctx other (Request.detail_webservices a b) h = cc
  handle_alike F G ctx other (Request.get_enabled_all a) h = cc
  handle_alike F G ctx other (Request.get_port_all a) h = cc
  handle_alike F G ctx other (Request.get_port_one a b) h = refl
  handle_alike F G ctx other (Request.delete_port_one a) h = refl
  handle_alike F G ctx other (Request.get_request_results a b) h = cc
  handle_alike F G ctx other (Request.get_request_one a b) h = cc
  handle_alike F G ctx other (Request.get_request_all a) h = cc
  handle_alike F G ctx other (Request.detail_requests a b) h = cc
