-- ===== src/Api/Boards/Parts.antt =====
-- iotronic/api/controllers/v1/board.py: the controllers of the plugins and services of a board, which
-- `_lookup` makes with the board's uuid or name, and below those of its web services and ports.
pub mod Ports
pub mod Webservices
use stack4things_openstack_i.Conductor.RpcApi.Messages.{Message}
use stack4things_openstack_i.Action.{
  Action, Exception, Result, except_module, lift, ok, pure, raised, ◌>>=◌, ◌>>◌,
}
use stack4things_openstack_i.Api.Listing.{
  Answered, Query, allow, allow_owner, fields_or, get_page, rpc, rpc_return, rpc_show, rpc_silent,
  show_list, show_parts,
}
use stack4things_openstack_i.Api.Resources.Kinds.{enabled_webservice_kind, webservice_kind}
use stack4things_openstack_i.Api.Resources.Boards.{exposed_part, injection_part, network_port_part}
use stack4things_openstack_i.Api.Utils.{
  ApiConf, Context, check_if_online, get_rpc_board, get_rpc_plugin, get_rpc_port, get_rpc_service,
  want, want_name,
}
use stack4things_openstack_i.Base.{
  Bool, List, String, [], any, codes, false, if◌then◌else◌, none, some, str_eq, true, ◌&&◌, ◌∷◌,
}
use stack4things_openstack_i.Common.Policy.{Enforcer, set_item}
use stack4things_openstack_i.Conductor.Dns.{get_field}
use stack4things_openstack_i.Conductor.Version.{contains_text}
use stack4things_openstack_i.Db.Engine.{Engine, whole}
use stack4things_openstack_i.Db.Filters.{Filters}
use stack4things_openstack_i.Db.Fleets.{get_webservice_by_uuid}
use stack4things_openstack_i.Db.Schema.{Column, Fields, Value, Values, eq_value, truthy, value_of}
use stack4things_openstack_i.Objects.{Object, new_object, set_attr}
use stack4things_openstack_i.Objects.Listing.{
  list_exposed_services, list_injection_plugins, list_ports, list_webservices,
}

-- objects/plugin.py: CUSTOM_PARAMS
unfoldable pub want_customs_params : String → Bool
unfolding any
want_customs_params action =
    any (str_eq action) ("PluginCall" ∷ "PluginStart" ∷ "PluginReboot" ∷ [])

-- all(k in parameters for k in valid)
unfoldable pub has_all : Fields → Fields → Bool
unfolding get_field
has_all given Fields.end = true
has_all given (Fields.field k v valid) = elim (get_field k given) [
  | none ↦ false
  | some u ↦ has_all given valid
]

-- the same for a text, where `in` looks for a part
unfoldable pub has_all_parts : String → Fields → Bool
unfolding contains_text
has_all_parts given Fields.end = true
has_all_parts given (Fields.field k v valid) =
    contains_text (codes k) (codes given) && has_all_parts given valid

unfoldable pub check_parameters : Value → Value → Result (Unit {0})
unfolding has_all has_all_parts
check_parameters (Value.dict valid) (Value.dict given) =
    if has_all given valid then ok tt else raised Exception.invalid_parameter_value
check_parameters (Value.dict valid) (Value.str given) =
    if has_all_parts given valid then ok tt else raised Exception.invalid_parameter_value
check_parameters (Value.dict Fields.end) v = ok tt
check_parameters (Value.dict valid) v = raised Exception.type_error
check_parameters v given = raised Exception.attribute_error

abbrev pub or_empty : Value → Value
or_empty v = if truthy v then v else Value.dict Fields.end

abbrev pub webservice_return_fields : List String
webservice_return_fields = "name" ∷ "uuid" ∷ "port" ∷ "board_uuid" ∷ "extra" ∷ []

module _ ⦃E : Engine⦄ ⦃F : Enforcer⦄ (conf : ApiConf) (ctx : Context) (board_ident : String) where
  -- BoardPluginsController
  unfoldable pub get_board_plugins : Action Answered
  unfolding get_rpc_board allow_owner list_injection_plugins injection_part
  get_board_plugins = do
    rpc_board ← get_rpc_board board_ident
    allow_owner "iot:plugin_on_board:get" ctx (rpc_board.row Column.owner)
    injections ← list_injection_plugins (rpc_board.row Column.uuid)
    show_parts conf (injection_part conf) injections

  -- the owner of the board, and of a plugin that is not public; inside `except exception`
  unfoldable pub allow_both : String → Object → Object → Action (Unit {0})
  unfolding allow_owner truthy
  allow_both name rpc_board rpc_plugin = except_module do
    allow_owner name ctx (rpc_board.row Column.owner)
    (if truthy (rpc_plugin.row Column.public)
        then pure tt
        else allow_owner name ctx (rpc_plugin.row Column.owner))

  unfoldable pub post_board_plugin : String → String → Value → Action Answered
  unfolding want get_rpc_board get_rpc_plugin allow_both check_if_online want_customs_params
      check_parameters rpc_return
  post_board_plugin plugin_ident action given = do
    want (Value.str action)
    let parameters = or_empty given
    rpc_board ← get_rpc_board board_ident
    rpc_plugin ← get_rpc_plugin plugin_ident
    allow_both "iot:plugin_action:post" rpc_board rpc_plugin
    check_if_online rpc_board
    (if want_customs_params action
        then lift (check_parameters (rpc_plugin.row Column.parameters) parameters)
        else pure tt)
    rpc_return conf (
        Message.action_plugin (rpc_plugin.row Column.uuid) (rpc_board.row Column.uuid) action
          parameters)

  -- if not Injection.onboot: False
  abbrev or_false : Value → Value
  or_false v = if truthy v then v else Value.bool false

  unfoldable pub put_board_plugin : String → Value → Action Answered
  unfolding want get_rpc_board get_rpc_plugin allow_both check_if_online rpc_return truthy
  put_board_plugin plugin onboot = do
    want (Value.str plugin)
    rpc_board ← get_rpc_board board_ident
    rpc_plugin ← get_rpc_plugin plugin
    allow_both "iot:plugin_inject:put" rpc_board rpc_plugin
    check_if_online rpc_board
    rpc_return conf (
        Message.inject_plugin (rpc_plugin.row Column.uuid) (rpc_board.row Column.uuid)
          (or_false onboot))

  unfoldable pub delete_board_plugin : String → Action Answered
  unfolding get_rpc_board get_rpc_plugin allow_owner check_if_online rpc_return
  delete_board_plugin plugin_uuid = do
    rpc_board ← get_rpc_board board_ident
    allow_owner "iot:plugin_remove:delete" ctx (rpc_board.row Column.owner)
    check_if_online rpc_board
    rpc_plugin ← get_rpc_plugin plugin_uuid
    rpc_return conf (Message.remove_plugin (rpc_plugin.row Column.uuid) (rpc_board.row Column.uuid))

  -- BoardServicesController
  unfoldable pub show_exposed : Value → Action Answered
  unfolding list_exposed_services exposed_part
  show_exposed board_uuid = do
    services ← list_exposed_services board_uuid
    show_parts conf (exposed_part conf) services

  unfoldable pub get_board_services : Action Answered
  unfolding get_rpc_board allow set_item show_exposed
  get_board_services = do
    rpc_board ← get_rpc_board board_ident
    allow "iot:service_on_board:get"
        (set_item ctx.policy_values "project_id" (rpc_board.row Column.project))
    show_exposed (rpc_board.row Column.uuid)

  unfoldable pub post_service_action : String → String → Action Answered
  unfolding want get_rpc_board get_rpc_service allow_owner check_if_online rpc_return
  post_service_action service_ident action = do
    want (Value.str action)
    rpc_board ← get_rpc_board board_ident
    rpc_service ← get_rpc_service service_ident
    except_module (allow_owner "iot:service_action:post" ctx (rpc_board.row Column.owner))
    check_if_online rpc_board
    rpc_return conf
        (Message.action_service (rpc_service.row Column.uuid) (rpc_board.row Column.uuid) action)

  unfoldable pub restore_board_services : Action Answered
  unfolding get_rpc_board allow_owner check_if_online rpc show_exposed
  restore_board_services = do
    rpc_board ← get_rpc_board board_ident
    except_module (allow_owner "iot:service_action:post" ctx (rpc_board.row Column.owner))
    check_if_online rpc_board
    rpc conf (Message.restore_services_on_board (rpc_board.row Column.uuid))
    show_exposed (rpc_board.row Column.uuid)

  unfoldable pub get_services_status : Action Answered
  unfolding get_rpc_board check_if_online rpc_return
  get_services_status = do
    rpc_board ← get_rpc_board board_ident
    check_if_online rpc_board
    rpc_return conf (Message.status_services_on_board (rpc_board.row Column.uuid))
