-- ===== src/Api/Boards/Parts/Webservices.antt =====
-- iotronic/api/controllers/v1/board.py: the web services of a board.
use stack4things_openstack_i.Api.Boards.Parts.{webservice_return_fields}
use stack4things_openstack_i.Conductor.RpcApi.Messages.{Message}
use stack4things_openstack_i.Action.{lift, Action, ◌>>=◌, ◌>>◌}
use stack4things_openstack_i.Api.Listing.{
  Answered, Query, allow, fields_or, get_page, rpc_show, rpc_silent, show_list,
}
use stack4things_openstack_i.Api.Resources.Kinds.{enabled_webservice_kind, webservice_kind}
use stack4things_openstack_i.Api.Utils.{
  ApiConf, Context, check_if_online, get_rpc_board, want, want_name,
}
use stack4things_openstack_i.Base.{String, [], ◌∷◌}
use stack4things_openstack_i.Common.Policy.{Enforcer}
use stack4things_openstack_i.Db.Engine.{Engine}
use stack4things_openstack_i.Db.Fleets.{get_webservice_by_uuid}
use stack4things_openstack_i.Db.Schema.{Column, Value, Values, value_of}
use stack4things_openstack_i.Objects.{field_values, new_object, set_attr}
use stack4things_openstack_i.Objects.Listing.{list_webservices}

module _ ⦃E : Engine⦄ ⦃F : Enforcer⦄ (conf : ApiConf) (ctx : Context) (board_ident : String) where
  -- BoardWebservicesController
  unfoldable pub get_board_webservices : Query → Action Answered
  unfolding allow get_rpc_board get_page list_webservices show_list
  get_board_webservices q = do
    allow "iot:webservice:get" ctx.policy_values
    rpc_board ← get_rpc_board board_ident
    page ← get_page conf get_webservice_by_uuid ("extra" ∷ []) q
    webservices ← list_webservices (("board_uuid", rpc_board.row Column.uuid) ∷ []) page
    show_list conf webservice_kind (fields_or webservice_return_fields q.fields) page.limit
        q.sort_key q.sort_dir webservices

  unfoldable pub put_board_webservice : Values → Action Answered
  unfolding allow want want_name get_rpc_board new_object field_values rpc_show
  put_board_webservice values = do
    allow "iot:webservice:create" ctx.policy_values
    want (value_of Column.name values)
    want_name (value_of Column.name values)
    rpc_board ← get_rpc_board board_ident
    typed ← lift (field_values values)
    rpc_show conf webservice_kind (
        Message.create_webservice
          (set_attr (new_object typed) Column.board_uuid (rpc_board.row Column.uuid)))

  unfoldable pub enable_board_webservices : String → String → String → Action Answered
  unfolding want get_rpc_board rpc_show
  enable_board_webservices dns zone email = do
    want (Value.str dns)
    want (Value.str zone)
    want (Value.str email)
    rpc_board ← get_rpc_board board_ident
    rpc_show conf enabled_webservice_kind
        (Message.enable_webservice dns zone (Value.str email) (rpc_board.row Column.uuid))

  unfoldable pub disable_board_webservices : Action Answered
  unfolding get_rpc_board rpc_silent
  disable_board_webservices = do
    rpc_board ← get_rpc_board board_ident
    rpc_silent conf (Message.disable_webservice (rpc_board.row Column.uuid))

  unfoldable pub renew_board_webservices : Action Answered
  unfolding get_rpc_board check_if_online rpc_silent
  renew_board_webservices = do
    rpc_board ← get_rpc_board board_ident
    check_if_online rpc_board
    rpc_silent conf (Message.renew_webservice (rpc_board.row Column.uuid))
