-- ===== src/Conductor/Boards.antt =====
-- iotronic/conductor/endpoints.py: boards are created, updated, destroyed and sent actions.
use stack4things_openstack_i.Action.{
  Action, Exception, WampMessage, call, except_module, pure, raise, ◌>>=◌, ◌>>◌,
}
use stack4things_openstack_i.Base.{
  Bool, List, Option, String, [], any, if◌then◌else◌, none, some, str_eq, ◌∷◌,
}
use stack4things_openstack_i.Conductor.Requests.{execute_on_board, manage_result}
use stack4things_openstack_i.Conductor.Services.{allowlist_call}
use stack4things_openstack_i.Db.Boards.{
  create_board, create_location, destroy_board, get_board_by_uuid,
}
use stack4things_openstack_i.Db.Engine.{Engine}
use stack4things_openstack_i.Db.Schema.{Column, Row, Value}
use stack4things_openstack_i.Db.Services.{get_exposed_services_by_board_uuid}
use stack4things_openstack_i.Objects.{
  Object, exists_by_name, get_board, is_online, load, obj_get_changes, save_board, set_attr,
}
use stack4things_openstack_i.Wamp.Sessions.{for_each}

-- objects/board.py: ACTIONS
abbrev actions : List String
actions =
    "DevicePing" ∷ "DeviceReboot" ∷ "DeviceRestartLR" ∷ "DeviceNetConfig" ∷ "DeviceEcho"
    ∷ "DeviceUpgradeLR" ∷ "DevicePkgOperation" ∷ "DeviceRestSubmit" ∷ []

unfoldable pub is_valid_action : String → Bool
unfolding any
is_valid_action action = any (str_eq action) actions

module _ ⦃E : Engine⦄ where
  -- board.save() of a board that came with its changed fields
  unfoldable pub update_board_endpoint : Object → Action Object
  unfolding save_board
  update_board_endpoint board = save_board board

  -- a board and its location, unless the name is taken
  unfoldable pub create_board_endpoint : Object → Object → Action Object
  unfolding exists_by_name load create_board create_location obj_get_changes
  create_board_endpoint new_board new_location = do
    board_exists ← exists_by_name (new_board.row Column.name)
    (if board_exists
        then raise (Exception.board_name_already_exists (new_board.row Column.name))
        else (do
          created ← load (create_board (obj_get_changes new_board))
          create_location
              (obj_get_changes (set_attr new_location Column.board_id (created.row Column.id)))
          pure created))

  -- the ports of the board's services are taken from the agent's allow list
  unfoldable pub close_exposed : Object → Value → Row → Action (Unit {0})
  unfolding call
  close_exposed board board_id exposed = do
    call (
        allowlist_call (board.row Column.agent) "remove_from_allowlist" board_id
          (exposed Column.public_port))
    pure tt

  -- if result: manage_result(…)
  abbrev pub reset_result : Option WampMessage → Value → Action Value
  reset_result none board_id = pure Value.null
  reset_result (some m) board_id = manage_result m board_id

  -- an online board is reset first
  unfoldable pub factory_reset : Object → Value → Action (Option WampMessage)
  unfolding is_online execute_on_board
  factory_reset board board_id =
      if is_online board
      then (do
        m ← except_module (execute_on_board board_id "DeviceFactoryReset" [] Value.null)
        pure (some m))
      else pure none

  unfoldable pub destroy_board_endpoint : Value → Action Value
  unfolding load get_board_by_uuid factory_reset get_exposed_services_by_board_uuid close_exposed
      destroy_board manage_result
  destroy_board_endpoint board_id = do
    board ← load (get_board_by_uuid board_id)
    result ← factory_reset board board_id
    exposed_list ← get_exposed_services_by_board_uuid board_id
    for_each exposed_list (close_exposed board board_id)
    destroy_board (board.row Column.uuid)
    reset_result result board_id

  unfoldable pub action_board : Value → String → Value → Action Value
  unfolding get_board is_online is_valid_action execute_on_board manage_result
  action_board board_uuid action params = do
    board ← get_board board_uuid
    (if is_online board
        then pure tt
        else raise (Exception.board_not_connected (board.row Column.uuid)))
    (if is_valid_action action
        then pure tt
        else raise (Exception.invalid_board_action (Value.str action)))
    result ← except_module (execute_on_board board_uuid action (params ∷ []) Value.null)
    manage_result result board_uuid
