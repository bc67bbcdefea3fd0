-- ===== src/Api/Ports.antt =====
-- iotronic/api/controllers/v1/port.py: PortsController.
use stack4things_openstack_i.Conductor.RpcApi.Messages.{Message}
use stack4things_openstack_i.Action.{Action, ◌>>=◌, ◌>>◌}
use stack4things_openstack_i.Api.Listing.{
  Answered, Query, allow, fields_or, get_page, rpc_silent, show, show_list,
}
use stack4things_openstack_i.Api.Resources.Kinds.{port_kind}
use stack4things_openstack_i.Api.Utils.{ApiConf, Context, get_rpc_port}
use stack4things_openstack_i.Base.{List, Option, String, [], ◌∷◌}
use stack4things_openstack_i.Common.Policy.{Enforcer}
use stack4things_openstack_i.Db.Engine.{Engine}
use stack4things_openstack_i.Db.Schema.{Column}
use stack4things_openstack_i.Db.Services.{get_port_by_uuid}
use stack4things_openstack_i.Objects.Listing.{list_ports}

abbrev port_return_fields : List String
port_return_fields = "uuid" ∷ "board_uuid" ∷ "MAC_add" ∷ "VIF_name" ∷ "network" ∷ "ip" ∷ []

module _ ⦃E : Engine⦄ ⦃F : Enforcer⦄ (conf : ApiConf) (ctx : Context) where
  unfoldable pub get_ports_collection : Query → Option (List String) → Action Answered
  unfolding get_page list_ports show_list
  get_ports_collection q fields = do
    page ← get_page conf get_port_by_uuid ("extra" ∷ "location" ∷ []) q
    ports ← list_ports [] page
    show_list conf port_kind fields page.limit q.sort_key q.sort_dir ports

  unfoldable pub get_port_all : Query → Action Answered
  unfolding allow get_ports_collection
  get_port_all q = do
    allow "iot:port_on_board:get" ctx.policy_values
    get_ports_collection q (fields_or port_return_fields q.fields)

module _ ⦃E : Engine⦄ (conf : ApiConf) where
  unfoldable pub get_port_one : String → Option (List String) → Action Answered
  unfolding get_rpc_port show
  get_port_one port_ident fields = do
    rpc_port ← get_rpc_port port_ident
    show conf port_kind fields rpc_port

  unfoldable pub delete_port_one : String → Action Answered
  unfolding get_rpc_port rpc_silent
  delete_port_one port_ident = do
    rpc_port ← get_rpc_port port_ident
    rpc_silent conf
        (Message.remove_vif_from_board (rpc_port.row Column.board_uuid) (rpc_port.row Column.uuid))
