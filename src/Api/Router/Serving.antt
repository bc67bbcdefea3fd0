-- ===== src/Api/Router/Serving.antt =====
-- The REST API changes the tables through the conductor's messages only.
use stack4things_openstack_i.Api.Router.Routes.{Request}
use stack4things_openstack_i.Conductor.RpcApi.Messages.{Message}
use stack4things_openstack_i.Action.Keeps.{Keeps, keeps_rules}
use stack4things_openstack_i.Api.Boards.{
  delete_board, detail_boards, get_board_all, get_board_one, get_boards_collection, patch_board,
  post_board, post_board_action,
}
use stack4things_openstack_i.Api.Boards.Parts.{
  allow_both, delete_board_plugin, get_board_plugins, get_board_services, get_services_status,
  post_board_plugin, post_service_action, put_board_plugin, restore_board_services, show_exposed,
}
use stack4things_openstack_i.Api.Boards.Parts.Webservices.{
  disable_board_webservices, enable_board_webservices, get_board_webservices, put_board_webservice,
  renew_board_webservices,
}
use stack4things_openstack_i.Api.Boards.Parts.Ports.{
  delete_board_port, get_board_port, get_board_ports, put_board_port,
}
use stack4things_openstack_i.Api.Fleets.{
  delete_fleet, detail_fleets, get_fleet_all, get_fleet_boards, get_fleet_one,
  get_fleets_collection, patch_fleet, post_fleet,
}
use stack4things_openstack_i.Api.Listing.{allow, allow_owner, rpc, rpc_return, rpc_show, rpc_silent}
use stack4things_openstack_i.Api.Plugins.{
  delete_plugin, detail_plugins, get_plugin_all, get_plugin_one, get_plugins_collection,
  get_public_plugins, patch_plugin, post_plugin,
}
use stack4things_openstack_i.Api.Ports.{
  delete_port_one, get_port_all, get_port_one, get_ports_collection,
}
use stack4things_openstack_i.Api.Requests.{
  detail_requests, get_request_all, get_request_one, get_request_results, get_requests_collection,
}
use stack4things_openstack_i.Api.Resources.{Kind}
use stack4things_openstack_i.Api.Router.{handle}
use stack4things_openstack_i.Api.Router.Reading.{
  get_enabled_webservice_by_id-Keeps, get_fleet_by_uuid-Keeps, get_plugin_by_uuid-Keeps,
  get_port_by_uuid-Keeps, get_request_by_uuid-Keeps, get_rpc_board-Keeps, get_rpc_fleet-Keeps,
  get_rpc_plugin-Keeps, get_rpc_port-Keeps, get_rpc_service-Keeps, get_rpc_webservice-Keeps,
  get_service_by_uuid-Keeps, get_webservice_by_uuid-Keeps, list_boards-Keeps,
  list_enabled_webservices-Keeps, list_exposed_services-Keeps, list_fleets-Keeps,
  list_injection_plugins-Keeps, list_plugins-Keeps, list_ports-Keeps, list_requests-Keeps,
  list_results-Keeps, list_services-Keeps, list_webservices-Keeps,
}
use stack4things_openstack_i.Api.Router.Reading.Showing.{
  get_page-Keeps, show-Keeps, show_board-Keeps, show_boards-Keeps, show_list-Keeps, allow-Keeps,
  allow_owner-Keeps, check_if_online-Keeps, first_location-Keeps, no_marker-Keeps,
  unchecked_limit-Keeps, want-Keeps, want_name-Keeps,
}
use stack4things_openstack_i.Api.Services.{
  delete_service, detail_services, get_public_services, get_service_all, get_service_one,
  get_services_collection, patch_service, post_service,
}
use stack4things_openstack_i.Api.Utils.{ApiConf, Context}
use stack4things_openstack_i.Api.Webservices.{
  delete_webservice, detail_webservices, get_enabled_all, get_webservice_all, get_webservice_one,
  get_webservices_collection,
}
use stack4things_openstack_i.Base.{String}
use stack4things_openstack_i.Common.Policy.{Enforcer}
use stack4things_openstack_i.Conductor.Keeping.{except_module-Keeps}
use stack4things_openstack_i.Conductor.RpcApi.{dispatch}
use stack4things_openstack_i.Db.Engine.{Engine}
use stack4things_openstack_i.Db.Schema.{Tables}
use stack4things_openstack_i.Objects.{Object}
use stack4things_openstack_i.Wamp.Sessions.Keeping.{get_board_by_uuid-Keeps, load-Keeps}

module _ ⦃E : Engine⦄ ⦃F : Enforcer⦄ (conf : ApiConf) (ctx : Context) {P : Tables → Type 0}
    (kept : (m : Message) → Keeps P (dispatch conf.conductor m)) where
  rpc-Keeps : (m : Message) → Keeps P (rpc conf m)
  unfolding rpc
  rpc-Keeps m = kept m

  rpc_show-Keeps : (k : Kind) (m : Message) → Keeps P (rpc_show conf k m)
  unfolding rpc_show rpc
  rpc_show-Keeps k m = search (keeps_rules, show-Keeps) depth 40

  rpc_return-Keeps : (m : Message) → Keeps P (rpc_return conf m)
  unfolding rpc_return rpc
  rpc_return-Keeps m = search (keeps_rules)

  rpc_silent-Keeps : (m : Message) → Keeps P (rpc_silent conf m)
  unfolding rpc_silent rpc
  rpc_silent-Keeps m = search (keeps_rules)

  allow_both-Keeps : (i n : String) (b p : Object) → Keeps P (allow_both conf ctx i n b p)
  unfolding allow_both allow_owner allow
  allow_both-Keeps i n b p = search (keeps_rules, except_module-Keeps) depth 40

  ruleset serving_rules = (
    keeps_rules, except_module-Keeps, rpc-Keeps, rpc_show-Keeps, rpc_return-Keeps, rpc_silent-Keeps,
    allow_both-Keeps, get_rpc_board-Keeps, get_rpc_plugin-Keeps, get_rpc_service-Keeps,
    get_rpc_port-Keeps, get_rpc_fleet-Keeps, get_rpc_webservice-Keeps, list_boards-Keeps,
    list_plugins-Keeps, list_services-Keeps, list_ports-Keeps, list_fleets-Keeps,
    list_webservices-Keeps, list_enabled_webservices-Keeps, list_requests-Keeps, list_results-Keeps,
    list_injection_plugins-Keeps, list_exposed_services-Keeps, allow-Keeps, allow_owner-Keeps,
    want-Keeps, want_name-Keeps, check_if_online-Keeps, unchecked_limit-Keeps, no_marker-Keeps,
    first_location-Keeps, get_page-Keeps, show_list-Keeps, show-Keeps, show_board-Keeps,
    show_boards-Keeps, get_board_by_uuid-Keeps, get_plugin_by_uuid-Keeps, get_service_by_uuid-Keeps,
    get_port_by_uuid-Keeps, get_fleet_by_uuid-Keeps, get_webservice_by_uuid-Keeps,
    get_enabled_webservice_by_id-Keeps, get_request_by_uuid-Keeps, load-Keeps,
  )

  -- Whatever property of the tables the conductor's messages keep, each request of the API keeps,
  -- whether it is answered or refused.
  pub handle-Keeps : (q : Request) → Keeps P (handle conf ctx q)
  unfolding handle get_board_one get_board_all detail_boards post_board delete_board patch_board
      post_board_action get_board_plugins post_board_plugin put_board_plugin delete_board_plugin
      get_board_services post_service_action restore_board_services get_services_status
      get_board_webservices put_board_webservice enable_board_webservices disable_board_webservices
      renew_board_webservices put_board_port delete_board_port get_board_ports get_board_port
      get_public_plugins get_plugin_one get_plugin_all detail_plugins post_plugin delete_plugin
      patch_plugin get_public_services get_service_one get_service_all detail_services post_service
      delete_service patch_service get_fleet_boards get_fleet_one get_fleet_all post_fleet
      delete_fleet patch_fleet detail_fleets get_webservice_one get_webservice_all delete_webservice
      detail_webservices get_enabled_all get_port_all get_port_one delete_port_one
      get_request_results get_request_one get_request_all detail_requests get_boards_collection
      get_plugins_collection get_services_collection get_fleets_collection
      get_webservices_collection get_ports_collection get_requests_collection show_exposed
  handle-Keeps (Request.get_board_one a b) = search (serving_rules) depth 40 fits 5000
  handle-Keeps (Request.get_board_all a b c) = search (serving_rules) depth 40 fits 5000
  handle-Keeps (Request.detail_boards a b c d) = search (serving_rules) depth 40 fits 5000
  handle-Keeps (Request.post_board a) = search (serving_rules) depth 40 fits 5000
  handle-Keeps (Request.delete_board a) = search (serving_rules) depth 40 fits 5000
  handle-Keeps (Request.patch_board a b) = search (serving_rules) depth 40 fits 5000
  handle-Keeps (Request.post_board_action a b c) = search (serving_rules) depth 40 fits 5000
  handle-Keeps (Request.get_board_plugins a) = search (serving_rules) depth 40 fits 5000
  handle-Keeps (Request.post_board_plugin a b c d) = search (serving_rules) depth 40 fits 5000
  handle-Keeps (Request.put_board_plugin a b c) = search (serving_rules) depth 40 fits 5000
  handle-Keeps (Request.delete_board_plugin a b) = search (serving_rules) depth 40 fits 5000
  handle-Keeps (Request.get_board_services a) = search (serving_rules) depth 40 fits 5000
  handle-Keeps (Request.post_service_action a b c) = search (serving_rules) depth 40 fits 5000
  handle-Keeps (Request.restore_board_services a) = search (serving_rules) depth 40 fits 5000
  handle-Keeps (Request.get_services_status a) = search (serving_rules) depth 40 fits 5000
  handle-Keeps (Request.get_board_webservices a b) = search (serving_rules) depth 40 fits 5000
  handle-Keeps (Request.put_board_webservice a b) = search (serving_rules) depth 40 fits 5000
  handle-Keeps (Request.enable_board_webservices a b c d) =
      search (serving_rules) depth 40 fits 5000
  handle-Keeps (Request.disable_board_webservices a) = search (serving_rules) depth 40 fits 5000
  handle-Keeps (Request.renew_board_webservices a) = search (serving_rules) depth 40 fits 5000
  handle-Keeps (Request.put_board_port a b c d) = search (serving_rules) depth 40 fits 5000
  handle-Keeps (Request.delete_board_port a b) = search (serving_rules) depth 40 fits 5000
  handle-Keeps (Request.get_board_ports a) = search (serving_rules) depth 40 fits 5000
  handle-Keeps (Request.get_board_port a b) = search (serving_rules) depth 40 fits 5000
  handle-Keeps (Request.get_public_plugins a) = search (serving_rules) depth 40 fits 5000
  handle-Keeps (Request.get_plugin_one a b) = search (serving_rules) depth 40 fits 5000
  handle-Keeps (Request.get_plugin_all a b c) = search (serving_rules) depth 40 fits 5000
  handle-Keeps (Request.detail_plugins a b c d) = search (serving_rules) depth 40 fits 5000
  handle-Keeps (Request.post_plugin a) = search (serving_rules) depth 40 fits 5000
  handle-Keeps (Request.delete_plugin a) = search (serving_rules) depth 40 fits 5000
  handle-Keeps (Request.patch_plugin a b) = search (serving_rules) depth 40 fits 5000
  handle-Keeps (Request.get_public_services a) = search (serving_rules) depth 40 fits 5000
  handle-Keeps (Request.get_service_one a b) = search (serving_rules) depth 40 fits 5000
  handle-Keeps (Request.get_service_all a b c) = search (serving_rules) depth 40 fits 5000
  handle-Keeps (Request.detail_services a b c d) = search (serving_rules) depth 40 fits 5000
  handle-Keeps (Request.post_service a) = search (serving_rules) depth 40 fits 5000
  handle-Keeps (Request.delete_service a) = search (serving_rules) depth 40 fits 5000
  handle-Keeps (Request.patch_service a b) = search (serving_rules) depth 40 fits 5000
  handle-Keeps (Request.get_fleet_boards a b) = search (serving_rules) depth 40 fits 5000
  handle-Keeps (Request.get_fleet_one a b) = search (serving_rules) depth 40 fits 5000
  handle-Keeps (Request.get_fleet_all a) = search (serving_rules) depth 40 fits 5000
  handle-Keeps (Request.post_fleet a) = search (serving_rules) depth 40 fits 5000
  handle-Keeps (Request.delete_fleet a) = search (serving_rules) depth 40 fits 5000
  handle-Keeps (Request.patch_fleet a b) = search (serving_rules) depth 40 fits 5000
  handle-Keeps (Request.detail_fleets a b) = search (serving_rules) depth 40 fits 5000
  handle-Keeps (Request.get_webservice_one a b) = search (serving_rules) depth 40 fits 5000
  handle-Keeps (Request.get_webservice_all a) = search (serving_rules) depth 40 fits 5000
  handle-Keeps (Request.delete_webservice a) = search (serving_rules) depth 40 fits 5000
  handle-Keeps (Request.detail_webservices a b) = search (serving_rules) depth 40 fits 5000
  handle-Keeps (Request.get_enabled_all a) = search (serving_rules) depth 40 fits 5000
  handle-Keeps (Request.get_port_all a) = search (serving_rules) depth 40 fits 5000
  handle-Keeps (Request.get_port_one a b) = search (serving_rules) depth 40 fits 5000
  handle-Keeps (Request.delete_port_one a) = search (serving_rules) depth 40 fits 5000
  handle-Keeps (Request.get_request_results a b) = search (serving_rules) depth 40 fits 5000
  handle-Keeps (Request.get_request_one a b) = search (serving_rules) depth 40 fits 5000
  handle-Keeps (Request.get_request_all a) = search (serving_rules) depth 40 fits 5000
  handle-Keeps (Request.detail_requests a b) = search (serving_rules) depth 40 fits 5000
