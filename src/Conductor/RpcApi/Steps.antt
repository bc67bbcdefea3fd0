-- ===== src/Conductor/RpcApi/Steps.antt =====
-- A call of ConductorAPI does to the world what the endpoint of its name does.
use stack4things_openstack_i.Conductor.RpcApi.Messages.{Message}
use stack4things_openstack_i.Action.{Action, Result, World, continue, ok, pure, raised}
use stack4things_openstack_i.Base.{refl}
use stack4things_openstack_i.Conductor.Calls.{Step}
use stack4things_openstack_i.Conductor.RpcApi.{ConductorConf, Returned, dispatch, returns}
use stack4things_openstack_i.Db.Engine.{Engine}
use stack4things_openstack_i.Db.Schema.{Value}

module _ ⦃E : Engine⦄ (conf : ConductorConf) where
  abbrev pub Steps : World → World → Type 0
  Steps = Step conf.ports conf.stamp conf.url conf.dumps

  continue-Step :
      {A : Type 0} (g : A → Returned) (r : Result A) (w v : World)
      → Steps w v
      → Steps w (continue r (λ a. pure (g a)) v).1
  continue-Step g (ok a) w v s = s
  continue-Step g (raised e) w v s = s

  returns-Step :
      {A : Type 0} (g : A → Returned) (m : Action A) (w : World)
      → Steps w (m w).1
      → Steps w (returns g m w).1
  unfolding returns
  returns-Step g m w s = continue-Step g (m w).0 w (m w).1 s

  -- Every message of ConductorAPI is one step of the conductor, whether it returns or raises.
  pub dispatch-Step : (m : Message) (w : World) → Steps w (dispatch conf m w).1
  unfolding dispatch
  dispatch-Step (Message.registration code session) w =
      returns-Step _ _ w (Step.registers code session)
  dispatch-Step (Message.connection uuid session) w = Step.elapses refl
  dispatch-Step (Message.create_board board location) w =
      returns-Step _ _ w (Step.creates_board board location)
  dispatch-Step (Message.update_board board) w = returns-Step _ _ w (Step.updates_board board)
  dispatch-Step (Message.destroy_board board_id) w =
      returns-Step _ _ w (Step.destroys_board board_id)
  dispatch-Step (Message.execute_on_board board_uuid rpc args) w =
      returns-Step _ _ w (Step.executes board_uuid rpc args Value.null)
  dispatch-Step (Message.action_board board_uuid action params) w =
      returns-Step _ _ w (Step.acts_on_board board_uuid action params)
  dispatch-Step (Message.create_plugin plugin) w = returns-Step _ _ w (Step.creates_plugin plugin)
  dispatch-Step (Message.update_plugin plugin) w = returns-Step _ _ w (Step.updates_plugin plugin)
  dispatch-Step (Message.destroy_plugin plugin_id) w =
      returns-Step _ _ w (Step.destroys_plugin plugin_id)
  dispatch-Step (Message.inject_plugin plugin_uuid board_uuid onboot) w =
      returns-Step _ _ w (Step.injects_plugin plugin_uuid board_uuid onboot)
  dispatch-Step (Message.remove_plugin plugin_uuid board_uuid) w =
      returns-Step _ _ w (Step.removes_plugin plugin_uuid board_uuid)
  dispatch-Step (Message.action_plugin plugin_uuid board_uuid action params) w =
      returns-Step _ _ w (Step.acts_on_plugin plugin_uuid board_uuid action params)
  dispatch-Step (Message.create_service service) w =
      returns-Step _ _ w (Step.creates_service service)
  dispatch-Step (Message.update_service service) w =
      returns-Step _ _ w (Step.updates_service service)
  dispatch-Step (Message.destroy_service service_id) w =
      returns-Step _ _ w (Step.destroys_service service_id)
  dispatch-Step (Message.action_service service_uuid board_uuid action) w =
      returns-Step _ _ w (Step.acts_on_service service_uuid board_uuid action)
  dispatch-Step (Message.restore_services_on_board board_uuid) w =
      returns-Step _ _ w (Step.restores_services board_uuid)
  dispatch-Step (Message.status_services_on_board board_uuid) w =
      returns-Step _ _ w (Step.asks_status board_uuid)
  dispatch-Step (Message.create_port_on_board board_uuid network subnet groups) w =
      returns-Step _ _ w (Step.creates_port conf.fuel board_uuid network subnet groups)
  dispatch-Step (Message.remove_vif_from_board board_uuid port_uuid) w =
      returns-Step _ _ w (Step.removes_port board_uuid port_uuid)
  dispatch-Step (Message.create_fleet fleet) w = returns-Step _ _ w (Step.creates_fleet fleet)
  dispatch-Step (Message.update_fleet fleet) w = returns-Step _ _ w (Step.updates_fleet fleet)
  dispatch-Step (Message.destroy_fleet fleet_id) w =
      returns-Step _ _ w (Step.destroys_fleet fleet_id)
  dispatch-Step (Message.create_webservice webservice) w =
      returns-Step _ _ w (Step.creates_webservice webservice)
  dispatch-Step (Message.destroy_webservice webservice_id) w =
      returns-Step _ _ w (Step.destroys_webservice webservice_id)
  dispatch-Step (Message.enable_webservice dns zone email board_uuid) w =
      returns-Step _ _ w (Step.enables_webservice dns zone email board_uuid)
  dispatch-Step (Message.disable_webservice board_uuid) w =
      returns-Step _ _ w (Step.disables_webservice board_uuid)
  dispatch-Step (Message.renew_webservice board_uuid) w =
      returns-Step _ _ w (Step.renews_webservice board_uuid)
