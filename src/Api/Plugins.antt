-- ===== src/Api/Plugins.antt =====
-- iotronic/api/controllers/v1/plugin.py: PluginsController and PublicPluginsController.
use stack4things_openstack_i.Conductor.RpcApi.Messages.{Message}
use stack4things_openstack_i.Action.{Action, Exception, Result, lift, ok, pure, raised, ◌>>=◌, ◌>>◌}
use stack4things_openstack_i.Api.Boards.{want_collection}
use stack4things_openstack_i.Api.Listing.{
  Answered, Query, allow, allow_owner, fields_or, get_page, rpc_show, rpc_silent, show, show_list,
}
use stack4things_openstack_i.Api.Resources.Kinds.{plugin_kind}
use stack4things_openstack_i.Api.Utils.{ApiConf, Context, get_rpc_plugin, set_all, want, want_name}
use stack4things_openstack_i.Base.{
  Bool, List, Option, String, [], if◌then◌else◌, not, true, ◌&&◌, ◌∷◌,
}
use stack4things_openstack_i.Common.Policy.{Enforcer, get_item}
use stack4things_openstack_i.Db.Engine.{Engine}
use stack4things_openstack_i.Db.Filters.{Filters}
use stack4things_openstack_i.Db.Plugins.{get_plugin_by_uuid}
use stack4things_openstack_i.Db.Schema.{Column, Value, Values, truthy, value_of}
use stack4things_openstack_i.Objects.{field_values, new_object, set_attr}
use stack4things_openstack_i.Objects.Listing.{list_plugins}

abbrev plugin_return_fields : List String
plugin_return_fields = "name" ∷ "uuid" ∷ "owner" ∷ "public" ∷ "callable" ∷ []

abbrev plugin_sort_refused : List String
plugin_sort_refused = "extra" ∷ "location" ∷ []

-- the plugins of the user, and the public ones on demand; all of them for the administrator
unfoldable pub plugin_filters : Context → Bool → Bool → Result Filters
plugin_filters ctx with_public all_plugins =
    if all_plugins && not ctx.is_admin
    then raised Exception.client_side_error
    else if all_plugins
    then ok []
    else if with_public
    then ok (("owner", ctx.user_id) ∷ ("with_public", Value.bool true) ∷ [])
    else ok (("owner", ctx.user_id) ∷ [])

module _ ⦃E : Engine⦄ ⦃F : Enforcer⦄ (conf : ApiConf) (ctx : Context) where
  unfoldable pub get_plugins_collection :
      Query → Option (List String) → Bool → Bool → Action Answered
  unfolding get_page plugin_filters list_plugins show_list
  get_plugins_collection q fields with_public all_plugins = do
    page ← get_page conf get_plugin_by_uuid plugin_sort_refused q
    filters ← lift (plugin_filters ctx with_public all_plugins)
    plugins ← list_plugins filters page
    show_list conf plugin_kind fields page.limit q.sort_key q.sort_dir plugins

  unfoldable pub get_public_plugins : Query → Action Answered
  unfolding allow get_page list_plugins show_list
  get_public_plugins q = do
    allow "iot:plugin:get" ctx.policy_values
    page ← get_page conf get_plugin_by_uuid plugin_sort_refused q
    plugins ← list_plugins (("public", Value.bool true) ∷ []) page
    show_list conf plugin_kind (fields_or plugin_return_fields q.fields) page.limit q.sort_key
        q.sort_dir plugins

  unfoldable pub get_plugin_one : String → Option (List String) → Action Answered
  unfolding get_rpc_plugin allow_owner show truthy
  get_plugin_one plugin_ident fields = do
    rpc_plugin ← get_rpc_plugin plugin_ident
    (if truthy (rpc_plugin.row Column.public)
        then pure tt
        else allow_owner "iot:plugin:get_one" ctx (rpc_plugin.row Column.owner))
    show conf plugin_kind fields rpc_plugin

  unfoldable pub get_plugin_all : Query → Bool → Bool → Action Answered
  unfolding allow get_plugins_collection
  get_plugin_all q with_public all_plugins = do
    allow "iot:plugin:get" ctx.policy_values
    get_plugins_collection q (fields_or plugin_return_fields q.fields) with_public all_plugins

  unfoldable pub detail_plugins : String → Query → Bool → Bool → Action Answered
  unfolding allow get_plugins_collection
  detail_plugins parent q with_public all_plugins = do
    allow "iot:plugin:get" ctx.policy_values
    want_collection "plugins" parent
    get_plugins_collection q q.fields with_public all_plugins

  unfoldable pub post_plugin : Values → Action Answered
  unfolding allow want want_name new_object field_values rpc_show get_item
  post_plugin values = do
    allow "iot:plugin:create" ctx.policy_values
    want (value_of Column.name values)
    want_name (value_of Column.name values)
    typed ← lift (field_values values)
    user ← lift (get_item ctx.policy_values "user")
    rpc_show conf plugin_kind
        (Message.create_plugin (set_attr (new_object typed) Column.owner user))

  unfoldable pub delete_plugin : String → Action Answered
  unfolding allow get_rpc_plugin rpc_silent
  delete_plugin plugin_ident = do
    allow "iot:plugin:delete" ctx.policy_values
    rpc_plugin ← get_rpc_plugin plugin_ident
    rpc_silent conf (Message.destroy_plugin (rpc_plugin.row Column.uuid))

  unfoldable pub patch_plugin : String → Values → Action Answered
  unfolding allow_owner get_rpc_plugin set_all rpc_show
  patch_plugin plugin_ident values = do
    rpc_plugin ← get_rpc_plugin plugin_ident
    allow_owner "iot:plugin:update" ctx (rpc_plugin.row Column.owner)
    rpc_show conf plugin_kind (Message.update_plugin (set_all rpc_plugin values))
