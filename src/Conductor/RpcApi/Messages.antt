-- ===== src/Conductor/RpcApi/Messages.antt =====
-- iotronic/conductor/rpcapi.py: the messages that ConductorAPI sends, one constructor for each
-- method with the keyword arguments of the call.
use stack4things_openstack_i.Base.{List, String}
use stack4things_openstack_i.Db.Schema.{Value}
use stack4things_openstack_i.Objects.{Object}

pub data Message : Type 0 where
  registration : (code session_num : Value) → Message
  connection : (uuid session_num : Value) → Message
  create_board : (board_obj location_obj : Object) → Message
  update_board : (board_obj : Object) → Message
  destroy_board : (board_id : Value) → Message
  execute_on_board :
      (board_uuid : Value) (wamp_rpc_call : String) (wamp_rpc_args : List Value) → Message
  action_board : (board_uuid : Value) (action : String) (params : Value) → Message
  create_plugin update_plugin : (plugin_obj : Object) → Message
  destroy_plugin : (plugin_id : Value) → Message
  inject_plugin : (plugin_uuid board_uuid onboot : Value) → Message
  remove_plugin : (plugin_uuid board_uuid : Value) → Message
  action_plugin : (plugin_uuid board_uuid : Value) (action : String) (params : Value) → Message
  create_service update_service : (service_obj : Object) → Message
  destroy_service : (service_id : Value) → Message
  action_service : (service_uuid board_uuid : Value) (action : String) → Message
  restore_services_on_board status_services_on_board : (board_uuid : Value) → Message
  create_port_on_board :
      (board_uuid network_uuid subnet_uuid : Value) (security_groups : List Value) → Message
  remove_vif_from_board : (board_uuid port_uuid : Value) → Message
  create_fleet update_fleet : (fleet_obj : Object) → Message
  destroy_fleet : (fleet_id : Value) → Message
  create_webservice : (webservice_obj : Object) → Message
  destroy_webservice : (webservice_id : Value) → Message
  enable_webservice : (dns zone : String) (email board_uuid : Value) → Message
  disable_webservice renew_webservice : (board_uuid : Value) → Message
