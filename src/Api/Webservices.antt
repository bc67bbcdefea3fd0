-- ===== src/Api/Webservices.antt =====
-- iotronic/api/controllers/v1/webservice.py and enabledwebservice.py.
use stack4things_openstack_i.Conductor.RpcApi.Messages.{Message}
use stack4things_openstack_i.Action.{Action, Exception, raise, ◌>>=◌, ◌>>◌}
use stack4things_openstack_i.Api.Boards.{want_collection}
use stack4things_openstack_i.Api.Boards.Parts.{webservice_return_fields}
use stack4things_openstack_i.Api.Listing.{
  Answered, Query, allow, fields_or, get_page, rpc_silent, show, show_list,
}
use stack4things_openstack_i.Api.Resources.Kinds.{enabled_webservice_kind, webservice_kind}
use stack4things_openstack_i.Api.Utils.{ApiConf, Context, get_rpc_webservice}
use stack4things_openstack_i.Base.{List, Option, String, [], ◌∷◌}
use stack4things_openstack_i.Common.Policy.{Enforcer}
use stack4things_openstack_i.Db.Engine.{Engine}
use stack4things_openstack_i.Db.Fleets.{get_enabled_webservice_by_id, get_webservice_by_uuid}
use stack4things_openstack_i.Db.Schema.{Column}
use stack4things_openstack_i.Objects.Listing.{list_enabled_webservices, list_webservices}

abbrev enabled_return_fields : List String
enabled_return_fields = "board_uuid" ∷ "http_port" ∷ "https_port" ∷ "dns" ∷ "zone" ∷ "extra" ∷ []

module _ ⦃E : Engine⦄ ⦃F : Enforcer⦄ (conf : ApiConf) (ctx : Context) where
  unfoldable pub get_webservices_collection : Query → Option (List String) → Action Answered
  unfolding get_page list_webservices show_list
  get_webservices_collection q fields = do
    page ← get_page conf get_webservice_by_uuid ("extra" ∷ []) q
    webservices ← list_webservices (("project_id", ctx.project_id) ∷ []) page
    show_list conf webservice_kind fields page.limit q.sort_key q.sort_dir webservices

  unfoldable pub get_webservice_one : String → Option (List String) → Action Answered
  unfolding get_rpc_webservice allow show
  get_webservice_one webservice_ident fields = do
    rpc_webservice ← get_rpc_webservice webservice_ident
    allow "iot:webservice:get_one" ctx.policy_values
    show conf webservice_kind fields rpc_webservice

  unfoldable pub get_webservice_all : Query → Action Answered
  unfolding allow get_webservices_collection
  get_webservice_all q = do
    allow "iot:webservice:get" ctx.policy_values
    get_webservices_collection q (fields_or webservice_return_fields q.fields)

  unfoldable pub delete_webservice : String → Action Answered
  unfolding allow get_rpc_webservice rpc_silent
  delete_webservice webservice_ident = do
    allow "iot:webservice:delete" ctx.policy_values
    rpc_webservice ← get_rpc_webservice webservice_ident
    rpc_silent conf (Message.destroy_webservice (rpc_webservice.row Column.uuid))

  -- The collection is asked with arguments that its method does not have: TypeError.
  unfoldable pub detail_webservices : String → Query → Action Answered
  unfolding allow
  detail_webservices parent q = do
    allow "iot:webservice:get" ctx.policy_values
    want_collection "webservices" parent
    raise Exception.type_error

  -- EnabledWebservicesController: the marker is the id of a row
  unfoldable pub get_enabled_all : Query → Action Answered
  unfolding allow get_page list_enabled_webservices show_list
  get_enabled_all q = do
    allow "iot:enabledwebservice:get" ctx.policy_values
    page ← get_page conf get_enabled_webservice_by_id ("extra" ∷ []) q
    enabled ← list_enabled_webservices (("project_id", ctx.project_id) ∷ []) page
    show_list conf enabled_webservice_kind (fields_or enabled_return_fields q.fields) page.limit
        q.sort_key q.sort_dir enabled
