-- ===== src/Api/Fleets.antt =====
-- iotronic/api/controllers/v1/fleet.py: FleetsController and FleetBoardsController.
use stack4things_openstack_i.Conductor.RpcApi.Messages.{Message}
use stack4things_openstack_i.Action.{Action, Exception, lift, raise, ◌>>=◌, ◌>>◌}
use stack4things_openstack_i.Api.Boards.{board_return_fields, want_collection}
use stack4things_openstack_i.Api.Listing.{
  Answered, Query, allow, fields_or, get_page, no_marker, rpc_show, rpc_silent, show, show_boards,
  show_list, unchecked_limit,
}
use stack4things_openstack_i.Api.Resources.Kinds.{fleet_kind}
use stack4things_openstack_i.Api.Utils.{ApiConf, Context, get_rpc_fleet, set_all, want, want_name}
use stack4things_openstack_i.Base.{List, Option, String, [], if◌then◌else◌, none, some, ◌&&◌, ◌∷◌}
use stack4things_openstack_i.Common.Policy.{Enforcer, get_item, set_item}
use stack4things_openstack_i.Db.Engine.{Engine}
use stack4things_openstack_i.Db.Filters.{Filters}
use stack4things_openstack_i.Db.Fleets.{get_fleet_by_uuid}
use stack4things_openstack_i.Db.Schema.{Column, Value, Values, truthy, value_of}
use stack4things_openstack_i.Objects.{field_values, new_object, set_attr}
use stack4things_openstack_i.Objects.Listing.{list_boards, list_fleets}

abbrev fleet_return_fields : List String
fleet_return_fields = "name" ∷ "uuid" ∷ "project" ∷ "description" ∷ "extra" ∷ []

-- if project: if context.is_admin: filters['project_id'] = project
unfoldable pub admin_project : Context → Value → Filters
unfolding truthy
admin_project ctx project =
    if truthy project && ctx.is_admin then ("project_id", project) ∷ [] else []

module _ ⦃E : Engine⦄ ⦃F : Enforcer⦄ (conf : ApiConf) (ctx : Context) where
  unfoldable pub get_fleets_collection : Query → Value → Option (List String) → Action Answered
  unfolding get_page admin_project list_fleets show_list
  get_fleets_collection q project fields = do
    page ← get_page conf get_fleet_by_uuid ("extra" ∷ []) q
    fleets ← list_fleets (admin_project ctx project) page
    show_list conf fleet_kind fields page.limit q.sort_key q.sort_dir fleets

  -- FleetBoardsController.get_all
  unfoldable pub get_fleet_boards : String → Query → Action Answered
  unfolding allow unchecked_limit no_marker list_boards show_boards
  get_fleet_boards fleet_ident q = do
    allow "iot:board:get" ctx.policy_values
    limit ← unchecked_limit q.limit
    boards ← list_boards (("fleet", Value.str fleet_ident) ∷ []) (record {
      limit = limit;
      marker = none;
      sort_key = some q.sort_key;
      sort_dir = some q.sort_dir;
    })
    no_marker q.marker
    show_boards conf (fields_or board_return_fields q.fields) limit q.sort_key q.sort_dir boards

  unfoldable pub get_fleet_one : String → Option (List String) → Action Answered
  unfolding get_rpc_fleet allow set_item show
  get_fleet_one fleet_ident fields = do
    rpc_fleet ← get_rpc_fleet fleet_ident
    allow "iot:fleet:get_one"
        (set_item ctx.policy_values "project_id" (rpc_fleet.row Column.project))
    show conf fleet_kind fields rpc_fleet

  unfoldable pub get_fleet_all : Query → Action Answered
  unfolding allow get_item get_fleets_collection
  get_fleet_all q = do
    allow "iot:fleet:get" ctx.policy_values
    project ← lift (get_item ctx.policy_values "project_id")
    get_fleets_collection q project (fields_or fleet_return_fields q.fields)

  unfoldable pub post_fleet : Values → Action Answered
  unfolding allow want want_name new_object field_values rpc_show get_item
  post_fleet values = do
    allow "iot:fleet:create" ctx.policy_values
    want (value_of Column.name values)
    want_name (value_of Column.name values)
    typed ← lift (field_values values)
    project ← lift (get_item ctx.policy_values "project_id")
    rpc_show conf fleet_kind
        (Message.create_fleet (set_attr (new_object typed) Column.project project))

  unfoldable pub delete_fleet : String → Action Answered
  unfolding allow get_rpc_fleet rpc_silent
  delete_fleet fleet_ident = do
    allow "iot:fleet:delete" ctx.policy_values
    rpc_fleet ← get_rpc_fleet fleet_ident
    rpc_silent conf (Message.destroy_fleet (rpc_fleet.row Column.uuid))

  unfoldable pub patch_fleet : String → Values → Action Answered
  unfolding allow set_item get_rpc_fleet set_all rpc_show
  patch_fleet fleet_ident values = do
    rpc_fleet ← get_rpc_fleet fleet_ident
    allow "iot:fleet:update" (set_item ctx.policy_values "project" (rpc_fleet.row Column.project))
    rpc_show conf fleet_kind (Message.update_fleet (set_all rpc_fleet values))

  -- The collection is asked with arguments that its method does not have: TypeError.
  unfoldable pub detail_fleets : String → Query → Action Answered
  unfolding allow
  detail_fleets parent q = do
    allow "iot:fleet:get" ctx.policy_values
    want_collection "fleets" parent
    raise Exception.type_error
