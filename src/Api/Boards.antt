-- ===== src/Api/Boards.antt =====
-- iotronic/api/controllers/v1/board.py: BoardsController.
pub mod Parts
pub mod Creating
pub mod Patching
use stack4things_openstack_i.Conductor.RpcApi.Messages.{Message}
use stack4things_openstack_i.Action.{
  Action, Exception, Result, lift, ok, pure, raise, raised, ◌>>=◌, ◌>>◌,
}
use stack4things_openstack_i.Api.Listing.{
  Answered, Query, allow, as_object, fields_or, get_page, rpc, rpc_return, rpc_silent, show_board,
  show_boards,
}
use stack4things_openstack_i.Api.Resources.Boards.{wstun_ip}
use stack4things_openstack_i.Api.Utils.{ApiConf, Context, get_rpc_board, set_all, want, want_name}
use stack4things_openstack_i.Base.{List, Option, String, [], if◌then◌else◌, none, some, str_eq, ◌∷◌}
use stack4things_openstack_i.Common.Policy.{Enforcer}
use stack4things_openstack_i.Db.Boards.{get_board_by_uuid}
use stack4things_openstack_i.Db.Engine.{Engine}
use stack4things_openstack_i.Db.Filters.{Filters}
use stack4things_openstack_i.Db.Schema.{Column, Fields, Value, Values, truthy, value_of}
use stack4things_openstack_i.Objects.{Object, field_values, new_object, set_attr}
use stack4things_openstack_i.Objects.Laws.{updated}
use stack4things_openstack_i.Objects.Listing.{list_boards}

-- the body of a POST or a PATCH: the attributes that are set, and the locations
pub record BoardBody : Type 0 where
  pub values : Values
  pub location : List Values

abbrev pub board_return_fields : List String
board_return_fields =
    "name" ∷ "code" ∷ "status" ∷ "uuid" ∷ "session" ∷ "type" ∷ "fleet" ∷ "lr_version"
    ∷ "connectivity" ∷ "agent" ∷ "wstun_ip" ∷ []

-- the project of a listing: only the administrator asks for another
unfoldable pub project_filter : Context → Option Value → Result Value
unfolding truthy
project_filter ctx none = ok ctx.project_id
project_filter ctx (some p) =
    if truthy p
    then if ctx.is_admin then ok p else raised Exception.client_side_error
    else ok ctx.project_id

-- if status: filters['status'] = status
abbrev status_filter : Option Value → Filters
status_filter none = []
status_filter (some s) = if truthy s then ("status", s) ∷ [] else []

-- pecan.request.path.split('/')[:-1][-1] against the name of the collection
abbrev pub want_collection : String → String → Action (Unit {0})
want_collection name parent = if str_eq parent name then pure tt else raise Exception.http_not_found

-- Board.location[0]
abbrev pub first_location : List Values → Action Values
first_location [] = raise Exception.missing_parameter_value
first_location (l ∷ ls) = pure l

module _ ⦃E : Engine⦄ ⦃F : Enforcer⦄ (conf : ApiConf) (ctx : Context) where
  unfoldable pub get_boards_collection :
      Option Value → Query → Option Value → Option (List String) → Action Answered
  unfolding get_page project_filter list_boards show_boards
  get_boards_collection status q project fields = do
    page ← get_page conf get_board_by_uuid ("extra" ∷ "location" ∷ []) q
    p ← lift (project_filter ctx project)
    boards ← list_boards (("project_id", p) ∷ status_filter status) page
    show_boards conf fields page.limit q.sort_key q.sort_dir boards

  unfoldable pub get_board_one : String → Option (List String) → Action Answered
  unfolding allow get_rpc_board show_board
  get_board_one board_ident fields = do
    allow "iot:board:get" ctx.policy_values
    rpc_board ← get_rpc_board board_ident
    show_board conf fields rpc_board

  unfoldable pub get_board_all : Option Value → Query → Option Value → Action Answered
  unfolding allow get_boards_collection
  get_board_all status q project = do
    allow "iot:board:get" ctx.policy_values
    get_boards_collection status q project (fields_or board_return_fields q.fields)

  unfoldable pub detail_boards : String → Option Value → Query → Option Value → Action Answered
  unfolding allow get_boards_collection
  detail_boards parent status q project = do
    allow "iot:board:get" ctx.policy_values
    want_collection "boards" parent
    get_boards_collection status q project q.fields

  -- the object of the body, with the owner and the project of the request
  unfoldable pub new_board : Values → Object
  unfolding new_object
  new_board values =
      set_attr (set_attr (new_object values) Column.owner ctx.user_id) Column.project ctx.project_id

  unfoldable pub post_board : BoardBody → Action Answered
  unfolding allow want want_name new_object field_values new_board rpc as_object show_board
  post_board body = do
    allow "iot:board:create" ctx.policy_values
    want (value_of Column.name body.values)
    want (value_of Column.code body.values)
    location ← first_location body.location
    want_name (value_of Column.name body.values)
    typed ← lift (field_values body.values)
    place ← lift (field_values location)
    r ← rpc conf (Message.create_board (new_board typed) (new_object place))
    created ← lift (as_object r)
    show_board conf none created

  unfoldable pub delete_board : String → Action Answered
  unfolding allow get_rpc_board rpc_silent
  delete_board board_ident = do
    allow "iot:board:delete" ctx.policy_values
    rpc_board ← get_rpc_board board_ident
    rpc_silent conf (Message.destroy_board (rpc_board.row Column.uuid))

  unfoldable pub patch_board : String → Values → Action Answered
  unfolding allow get_rpc_board set_all rpc as_object show_board
  patch_board board_ident values = do
    allow "iot:board:update" ctx.policy_values
    board ← get_rpc_board board_ident
    r ← rpc conf (Message.update_board (set_all board values))
    updated ← lift (as_object r)
    show_board conf none updated

  -- if not BoardAction.parameters: {}
  abbrev parameters_or : Value → Value
  parameters_or v = if truthy v then v else Value.dict Fields.end

  unfoldable pub post_board_action : String → String → Value → Action Answered
  unfolding allow get_rpc_board rpc_return truthy
  post_board_action board_ident action parameters = do
    allow "iot:board_action:post" ctx.policy_values
    rpc_board ← get_rpc_board board_ident
    rpc_return conf
        (Message.action_board (rpc_board.row Column.uuid) action (parameters_or parameters))
