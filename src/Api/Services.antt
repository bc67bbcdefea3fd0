-- ===== src/Api/Services.antt =====
-- iotronic/api/controllers/v1/service.py: ServicesController and PublicServicesController.
use stack4things_openstack_i.Conductor.RpcApi.Messages.{Message}
use stack4things_openstack_i.Action.{Action, Exception, Result, lift, ok, raised, ◌>>=◌, ◌>>◌}
use stack4things_openstack_i.Api.Boards.{want_collection}
use stack4things_openstack_i.Api.Listing.{
  Answered, Query, allow, fields_or, get_page, rpc_show, rpc_silent, show, show_list,
}
use stack4things_openstack_i.Api.Resources.Kinds.{service_kind}
use stack4things_openstack_i.Api.Utils.{ApiConf, Context, get_rpc_service, set_all, want, want_name}
use stack4things_openstack_i.Base.{
  Bool, List, Option, String, [], if◌then◌else◌, not, true, ◌&&◌, ◌∷◌,
}
use stack4things_openstack_i.Common.Policy.{Enforcer, get_item, set_item}
use stack4things_openstack_i.Db.Engine.{Engine}
use stack4things_openstack_i.Db.Filters.{Filters}
use stack4things_openstack_i.Db.Schema.{Column, Value, Values, value_of}
use stack4things_openstack_i.Db.Services.{get_service_by_uuid}
use stack4things_openstack_i.Objects.{field_values, new_object, set_attr}
use stack4things_openstack_i.Objects.Listing.{list_services}

abbrev service_return_fields : List String
service_return_fields = "name" ∷ "uuid" ∷ "project" ∷ "port" ∷ "protocol" ∷ "extra" ∷ []

-- filters['project'] is the user; the listing of services looks at no such filter
unfoldable pub service_filters : Context → Bool → Bool → Result Filters
service_filters ctx with_public all_services =
    if all_services && not ctx.is_admin
    then raised Exception.client_side_error
    else if all_services
    then ok []
    else if with_public
    then ok (("project", ctx.user_id) ∷ ("with_public", Value.bool true) ∷ [])
    else ok (("project", ctx.user_id) ∷ [])

module _ ⦃E : Engine⦄ ⦃F : Enforcer⦄ (conf : ApiConf) (ctx : Context) where
  unfoldable pub get_services_collection :
      Query → Option (List String) → Bool → Bool → Action Answered
  unfolding get_page service_filters list_services show_list
  get_services_collection q fields with_public all_services = do
    page ← get_page conf get_service_by_uuid ("extra" ∷ []) q
    filters ← lift (service_filters ctx with_public all_services)
    services ← list_services filters page
    show_list conf service_kind fields page.limit q.sort_key q.sort_dir services

  unfoldable pub get_public_services : Query → Action Answered
  unfolding allow get_page list_services show_list
  get_public_services q = do
    allow "iot:service:get" ctx.policy_values
    page ← get_page conf get_service_by_uuid ("extra" ∷ "location" ∷ []) q
    services ← list_services (("public", Value.bool true) ∷ []) page
    show_list conf service_kind (fields_or service_return_fields q.fields) page.limit q.sort_key
        q.sort_dir services

  unfoldable pub get_service_one : String → Option (List String) → Action Answered
  unfolding get_rpc_service allow set_item show
  get_service_one service_ident fields = do
    rpc_service ← get_rpc_service service_ident
    allow "iot:service:get_one"
        (set_item ctx.policy_values "project" (rpc_service.row Column.project))
    show conf service_kind fields rpc_service

  unfoldable pub get_service_all : Query → Bool → Bool → Action Answered
  unfolding allow get_services_collection
  get_service_all q with_public all_services = do
    allow "iot:service:get" ctx.policy_values
    get_services_collection q (fields_or service_return_fields q.fields) with_public all_services

  unfoldable pub detail_services : String → Query → Bool → Bool → Action Answered
  unfolding allow get_services_collection
  detail_services parent q with_public all_services = do
    allow "iot:service:get" ctx.policy_values
    want_collection "services" parent
    get_services_collection q q.fields with_public all_services

  unfoldable pub post_service : Values → Action Answered
  unfolding allow want want_name new_object field_values rpc_show get_item
  post_service values = do
    allow "iot:service:create" ctx.policy_values
    want (value_of Column.name values)
    want_name (value_of Column.name values)
    typed ← lift (field_values values)
    project ← lift (get_item ctx.policy_values "project_id")
    rpc_show conf service_kind
        (Message.create_service (set_attr (new_object typed) Column.project project))

  unfoldable pub delete_service : String → Action Answered
  unfolding allow get_rpc_service rpc_silent
  delete_service service_ident = do
    allow "iot:service:delete" ctx.policy_values
    rpc_service ← get_rpc_service service_ident
    rpc_silent conf (Message.destroy_service (rpc_service.row Column.uuid))

  unfoldable pub patch_service : String → Values → Action Answered
  unfolding allow set_item get_rpc_service set_all rpc_show
  patch_service service_ident values = do
    rpc_service ← get_rpc_service service_ident
    allow "iot:service:update"
        (set_item ctx.policy_values "project" (rpc_service.row Column.project))
    rpc_show conf service_kind (Message.update_service (set_all rpc_service values))
