-- ===== src/Conductor/Calls.antt =====
-- The calls that the conductor and the WAMP agent handle, one after the other: iotronic's handlers
-- of conductor/endpoints.py and wamp/functions.py as steps. A handler runs to its end before the
-- next call.
pub mod Sessions
use stack4things_openstack_i.Action.{WampMessage, World}
use stack4things_openstack_i.Base.{List, String, ℕ, ◌≡◌}
use stack4things_openstack_i.Conductor.Boards.{
  action_board, create_board_endpoint, destroy_board_endpoint, update_board_endpoint,
}
use stack4things_openstack_i.Conductor.Plugins.{
  action_plugin, create_fleet_endpoint, create_plugin_endpoint, create_service_endpoint,
  destroy_fleet_endpoint, destroy_plugin_endpoint, destroy_service_endpoint, inject_plugin,
  remove_plugin, status_services_on_board, update_fleet_endpoint, update_plugin_endpoint,
  update_service_endpoint,
}
use stack4things_openstack_i.Conductor.Ports.{PortConfig}
use stack4things_openstack_i.Conductor.Registration.{registration}
use stack4things_openstack_i.Conductor.Requests.{execute_on_board, notify_result}
use stack4things_openstack_i.Conductor.Services.{action_service, restore_services_on_board}
use stack4things_openstack_i.Conductor.Vifs.{create_port_on_board, remove_vif_from_board}
use stack4things_openstack_i.Conductor.Webservices.{
  create_webservice_endpoint, destroy_webservice_endpoint, renew_webservice,
}
use stack4things_openstack_i.Conductor.Webservices.Disabling.{disable_webservice}
use stack4things_openstack_i.Conductor.Webservices.Enabling.{enable_webservice}
use stack4things_openstack_i.Db.Engine.{Engine}
use stack4things_openstack_i.Db.Schema.{Row, Value}
use stack4things_openstack_i.Objects.{Object}
use stack4things_openstack_i.Wamp.Sessions.{Info, board_on_leave, connection, update_sessions}

module _ ⦃E : Engine⦄ (conf : PortConfig) (stamp : Row → String → Value) (url : Value)
    (dumps : Value → Value) where
  -- what one call does to the world; in between, the other services and the clock move on
  pub data Step : World → World → Type 0 where
    elapses : {w v : World} → v.tables ≡ w.tables → Step w v
    registers :
        {w : World} (code session : Value) → Step w (registration stamp url code session w).1
    connects :
        {w : World} (uuid session : Value) (info : Info) → Step w (connection uuid session info w).1
    leaves : {w : World} (session : Value) → Step w (board_on_leave session w).1
    checks :
        {w : World} (sessions : List Value) (agent : Value)
        → Step w (update_sessions sessions agent w).1
    notifies : {w : World} (board : Value) (m : WampMessage) → Step w (notify_result board m w).1
    executes :
        {w : World} (board : Value) (rpc : String) (args : List Value) (main_req : Value)
        → Step w (execute_on_board board rpc args main_req w).1
    creates_board :
        {w : World} (board location : Object) → Step w (create_board_endpoint board location w).1
    updates_board : {w : World} (board : Object) → Step w (update_board_endpoint board w).1
    destroys_board : {w : World} (board : Value) → Step w (destroy_board_endpoint board w).1
    acts_on_board :
        {w : World} (board : Value) (action : String) (params : Value)
        → Step w (action_board board action params w).1
    creates_plugin :
        {w : World} (plugin : Object) → Step w (create_plugin_endpoint dumps plugin w).1
    updates_plugin : {w : World} (plugin : Object) → Step w (update_plugin_endpoint plugin w).1
    destroys_plugin : {w : World} (plugin : Value) → Step w (destroy_plugin_endpoint plugin w).1
    injects_plugin :
        {w : World} (plugin board onboot : Value) → Step w (inject_plugin plugin board onboot w).1
    removes_plugin : {w : World} (plugin board : Value) → Step w (remove_plugin plugin board w).1
    acts_on_plugin :
        {w : World} (plugin board : Value) (action : String) (params : Value)
        → Step w (action_plugin plugin board action params w).1
    creates_service : {w : World} (service : Object) → Step w (create_service_endpoint service w).1
    updates_service : {w : World} (service : Object) → Step w (update_service_endpoint service w).1
    destroys_service : {w : World} (service : Value) → Step w (destroy_service_endpoint service w).1
    acts_on_service :
        {w : World} (service board : Value) (action : String)
        → Step w (action_service conf service board action w).1
    restores_services :
        {w : World} (board : Value) → Step w (restore_services_on_board conf board w).1
    creates_fleet : {w : World} (fleet : Object) → Step w (create_fleet_endpoint fleet w).1
    updates_fleet : {w : World} (fleet : Object) → Step w (update_fleet_endpoint fleet w).1
    destroys_fleet : {w : World} (fleet : Value) → Step w (destroy_fleet_endpoint fleet w).1
    creates_webservice :
        {w : World} (service : Object) → Step w (create_webservice_endpoint service w).1
    destroys_webservice :
        {w : World} (service : Value) → Step w (destroy_webservice_endpoint service w).1
    enables_webservice :
        {w : World} (dns zone : String) (email board : Value)
        → Step w (enable_webservice conf dns zone email board w).1
    disables_webservice : {w : World} (board : Value) → Step w (disable_webservice board w).1
    renews_webservice : {w : World} (board : Value) → Step w (renew_webservice board w).1
    creates_port :
        {w : World} (fuel : ℕ) (board network subnet : Value) (groups : List Value)
        → Step w (create_port_on_board fuel board network subnet groups w).1
    removes_port : {w : World} (board port : Value) → Step w (remove_vif_from_board board port w).1
    asks_status : {w : World} (board : Value) → Step w (status_services_on_board board w).1

  -- any number of steps
  pub data Reach : World → World → Type 0 where
    stays : {w : World} → Reach w w
    goes_on : {w v u : World} → Reach w v → Step v u → Reach w u
