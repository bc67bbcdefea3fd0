-- ===== src/Conductor/RpcApi.antt =====
-- iotronic/conductor/rpcapi.py: the endpoint of conductor/endpoints.py that oslo.messaging calls
-- for each message of ConductorAPI: the one of that name, or none. A call waits for the endpoint,
-- and brings back what it returns or raises.
pub mod Messages
pub mod Steps
use stack4things_openstack_i.Conductor.RpcApi.Messages.{Message}
use stack4things_openstack_i.Action.{Action, Exception, WampMessage, pure, raise, ◌>>=◌}
use stack4things_openstack_i.Base.{String, ℕ}
use stack4things_openstack_i.Conductor.Boards.{
  action_board, create_board_endpoint, destroy_board_endpoint, update_board_endpoint,
}
use stack4things_openstack_i.Conductor.Plugins.{
  action_plugin, create_fleet_endpoint, create_plugin_endpoint, create_service_endpoint,
  destroy_fleet_endpoint, destroy_plugin_endpoint, destroy_service_endpoint, inject_plugin,
  remove_plugin, status_services_on_board, update_fleet_endpoint, update_plugin_endpoint,
  update_service_endpoint,
}
use stack4things_openstack_i.Conductor.Ports.{PortConfig}
use stack4things_openstack_i.Conductor.Registration.{registration}
use stack4things_openstack_i.Conductor.Requests.{execute_on_board}
use stack4things_openstack_i.Conductor.Services.{Answer, action_service, restore_services_on_board}
use stack4things_openstack_i.Conductor.Vifs.{Vif, create_port_on_board, remove_vif_from_board}
use stack4things_openstack_i.Conductor.Webservices.{
  Response, create_webservice_endpoint, destroy_webservice_endpoint, renew_webservice,
}
use stack4things_openstack_i.Conductor.Webservices.Disabling.{disable_webservice}
use stack4things_openstack_i.Conductor.Webservices.Enabling.{enable_webservice}
use stack4things_openstack_i.Db.Engine.{Engine}
use stack4things_openstack_i.Db.Schema.{Row, Value}
use stack4things_openstack_i.Objects.{Object}

-- what an endpoint gives back
pub data Returned : Type 0 where
  nothing : Returned
  value : Value → Returned
  object : Object → Returned
  wamp : WampMessage → Returned
  response : Response → Returned
  answer : Answer → Returned
  vif : Vif → Returned
  count : ℕ → Returned

unfoldable pub returns : {A : Type 0} → (A → Returned) → Action A → Action Returned
returns g m = do a ← m; pure (g a)

-- What the endpoints need: the port range, the wamp agent's stamp and address, json.dumps, and the
-- draws of create_port_on_board before it gives up here.
pub record ConductorConf : Type 0 where
  pub ports : PortConfig
  pub stamp : Row → String → Value
  pub url : Value
  pub dumps : Value → Value
  pub fuel : ℕ

module _ ⦃E : Engine⦄ (conf : ConductorConf) where
  unfoldable pub dispatch : Message → Action Returned
  dispatch (Message.registration code session) =
      returns Returned.wamp (registration conf.stamp conf.url code session)
  dispatch (Message.connection uuid session) = raise Exception.no_such_method
  dispatch (Message.create_board board location) =
      returns Returned.object (create_board_endpoint board location)
  dispatch (Message.update_board board) = returns Returned.object (update_board_endpoint board)
  dispatch (Message.destroy_board board_id) =
      returns Returned.value (destroy_board_endpoint board_id)
  dispatch (Message.execute_on_board board_uuid rpc args) =
      returns Returned.wamp (execute_on_board board_uuid rpc args Value.null)
  dispatch (Message.action_board board_uuid action params) =
      returns Returned.value (action_board board_uuid action params)
  dispatch (Message.create_plugin plugin) =
      returns Returned.object (create_plugin_endpoint conf.dumps plugin)
  dispatch (Message.update_plugin plugin) = returns Returned.object (update_plugin_endpoint plugin)
  dispatch (Message.destroy_plugin plugin_id) =
      returns (λ _. Returned.nothing) (destroy_plugin_endpoint plugin_id)
  dispatch (Message.inject_plugin plugin_uuid board_uuid onboot) =
      returns Returned.value (inject_plugin plugin_uuid board_uuid onboot)
  dispatch (Message.remove_plugin plugin_uuid board_uuid) =
      returns Returned.value (remove_plugin plugin_uuid board_uuid)
  dispatch (Message.action_plugin plugin_uuid board_uuid action params) =
      returns Returned.value (action_plugin plugin_uuid board_uuid action params)
  dispatch (Message.create_service service) =
      returns Returned.object (create_service_endpoint service)
  dispatch (Message.update_service service) =
      returns Returned.object (update_service_endpoint service)
  dispatch (Message.destroy_service service_id) =
      returns (λ _. Returned.nothing) (destroy_service_endpoint service_id)
  dispatch (Message.action_service service_uuid board_uuid action) =
      returns Returned.answer (action_service conf.ports service_uuid board_uuid action)
  dispatch (Message.restore_services_on_board board_uuid) =
      returns Returned.count (restore_services_on_board conf.ports board_uuid)
  dispatch (Message.status_services_on_board board_uuid) =
      returns Returned.value (status_services_on_board board_uuid)
  dispatch (Message.create_port_on_board board_uuid network subnet groups) =
      returns Returned.vif (create_port_on_board conf.fuel board_uuid network subnet groups)
  dispatch (Message.remove_vif_from_board board_uuid port_uuid) =
      returns Returned.vif (remove_vif_from_board board_uuid port_uuid)
  dispatch (Message.create_fleet fleet) = returns Returned.object (create_fleet_endpoint fleet)
  dispatch (Message.update_fleet fleet) = returns Returned.object (update_fleet_endpoint fleet)
  dispatch (Message.destroy_fleet fleet_id) =
      returns (λ _. Returned.nothing) (destroy_fleet_endpoint fleet_id)
  dispatch (Message.create_webservice webservice) =
      returns Returned.response (create_webservice_endpoint webservice)
  dispatch (Message.destroy_webservice webservice_id) =
      returns (λ _. Returned.nothing) (destroy_webservice_endpoint webservice_id)
  dispatch (Message.enable_webservice dns zone email board_uuid) =
      returns Returned.response (enable_webservice conf.ports dns zone email board_uuid)
  dispatch (Message.disable_webservice board_uuid) =
      returns (λ _. Returned.nothing) (disable_webservice board_uuid)
  dispatch (Message.renew_webservice board_uuid) =
      returns Returned.response (renew_webservice board_uuid)
