-- ===== src/Api/Boards/Parts/Ports.antt =====
-- iotronic/api/controllers/v1/board.py: the network ports of a board.
use stack4things_openstack_i.Conductor.RpcApi.Messages.{Message}
use stack4things_openstack_i.Action.{Action, pure, ◌>>=◌, ◌>>◌}
use stack4things_openstack_i.Api.Listing.{Answered, allow_owner, rpc_return, show_parts}
use stack4things_openstack_i.Api.Resources.Boards.{network_port_part}
use stack4things_openstack_i.Api.Utils.{
  ApiConf, Context, check_if_online, get_rpc_board, get_rpc_port, want,
}
use stack4things_openstack_i.Base.{List, String, [], if◌then◌else◌, ◌∷◌}
use stack4things_openstack_i.Common.Policy.{Enforcer}
use stack4things_openstack_i.Db.Engine.{Engine, whole}
use stack4things_openstack_i.Db.Filters.{Filters}
use stack4things_openstack_i.Db.Schema.{Column, Value, eq_value}
use stack4things_openstack_i.Objects.{Object}
use stack4things_openstack_i.Objects.Listing.{list_ports}

module _ ⦃E : Engine⦄ ⦃F : Enforcer⦄ (conf : ApiConf) (ctx : Context) (board_ident : String) where
  -- BoardPortsController; the network, subnet and groups are JSON values of the body
  unfoldable pub put_board_port : Value → Value → List Value → Action Answered
  unfolding want get_rpc_board check_if_online rpc_return
  put_board_port network subnet security_groups = do
    want network
    rpc_board ← get_rpc_board board_ident
    check_if_online rpc_board
    rpc_return conf
        (Message.create_port_on_board (rpc_board.row Column.uuid) network subnet security_groups)

  unfoldable pub delete_board_port : String → Action Answered
  unfolding want get_rpc_board get_rpc_port check_if_online rpc_return
  delete_board_port port = do
    want (Value.str port)
    rpc_board ← get_rpc_board board_ident
    rpc_port ← get_rpc_port port
    check_if_online rpc_board
    rpc_return conf
        (Message.remove_vif_from_board (rpc_board.row Column.uuid) (rpc_port.row Column.uuid))

  abbrev on_board : Value → Filters
  on_board board_uuid = ("board_uuid", board_uuid) ∷ []

  unfoldable pub get_board_ports : Action Answered
  unfolding get_rpc_board allow_owner list_ports network_port_part
  get_board_ports = do
    rpc_board ← get_rpc_board board_ident
    allow_owner "iot:port_on_board:get" ctx (rpc_board.row Column.owner)
    ports ← list_ports (on_board (rpc_board.row Column.uuid)) whole
    show_parts conf (network_port_part conf) ports

  -- the first port of that uuid: an answer without a body where there is none
  unfoldable pub find_port : String → List Object → Answered
  unfolding eq_value network_port_part
  find_port port_uuid [] = Answered.no_content
  find_port port_uuid (p ∷ ps) =
      if eq_value (p.row Column.uuid) (Value.str port_uuid)
      then Answered.shown (network_port_part conf p)
      else find_port port_uuid ps

  -- the filter gets the board itself, and is not looked at
  unfoldable pub get_board_port : String → Action Answered
  unfolding get_rpc_board allow_owner list_ports find_port
  get_board_port port_ident = do
    rpc_board ← get_rpc_board board_ident
    allow_owner "iot:port_on_board:get" ctx (rpc_board.row Column.owner)
    ports ← list_ports (on_board Value.null) whole
    pure (find_port port_ident ports)
