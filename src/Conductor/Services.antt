-- ===== src/Conductor/Services.antt =====
-- iotronic/conductor/endpoints.py: services exposed on boards (action_service and
-- restore_services_on_board).
pub mod Keeping
use stack4things_openstack_i.Action.{
  Action, Call, Exception, Result, call, ok, pure, raise, raised, ◌>>=◌, ◌>>◌,
}
use stack4things_openstack_i.Base.{
  Bool, Option, String, [], if◌then◌else◌, none, pos, some, str_eq, suc, zero, ℕ, ◌++◌, ◌||◌, ◌∷◌,
}
use stack4things_openstack_i.Conductor.Ports.{PortConfig, random_public_port}
use stack4things_openstack_i.Conductor.Requests.{execute_on_board, manage_result}
use stack4things_openstack_i.Db.Boards.{get_board_by_uuid}
use stack4things_openstack_i.Db.Engine.{Engine}
use stack4things_openstack_i.Db.Schema.{Column, Row, Value, Values}
use stack4things_openstack_i.Db.Services.{
  create_exposed_service, destroy_exposed_service, get_exposed_service_by_uuids,
  get_exposed_services_by_board_uuid, get_service_by_id, get_service_by_uuid,
}
use stack4things_openstack_i.Objects.{Object, is_online, load}
use stack4things_openstack_i.Wamp.Sessions.{for_each}

-- What a method gives back: a result, or an exception object that it returns and does not raise.
pub data Answer : Type 0 where
  value : Value → Answer
  exception : Exception → Answer

-- objects/service.py: ACTIONS
unfoldable pub is_valid_action : String → Bool
is_valid_action action =
    str_eq action "ServiceEnable"
    || str_eq action "ServiceDisable"
    || str_eq action "ServiceRestore"

-- cctx.call(ctx, method, device=board_uuid, port=…) on the wamp agent of the board
abbrev pub allowlist_call : Value → String → Value → Value → Call
allowlist_call agent method device port = record {
  server = agent;
  method = method;
  args = device ∷ port ∷ [];
}

abbrev pub port_value : ℕ → Value
port_value n = Value.int (pos n)

unfoldable pub exposed_values : Value → Value → Value → Values
exposed_values board_uuid service_uuid public_port =
    (Column.board_uuid, board_uuid)
    ∷ (Column.service_uuid, service_uuid)
    ∷ (Column.public_port, public_port)
    ∷ []

-- SERVICE_PORT_LIST.append(port), for a port that the database holds as a number
unfoldable pub release_port : Value → Action (Unit {0})
release_port (Value.int (pos n)) w = (ok tt, record w { free_ports = w.free_ports ++ n ∷ [] })
release_port v w = (ok tt, w)

module _ ⦃E : Engine⦄ (conf : PortConfig) where
  -- the handler of `except Exception` in ServiceEnable, once there is a port
  unfoldable pub expose_on : Object → Object → Value → Value → ℕ → Action Answer
  unfolding call execute_on_board manage_result create_exposed_service exposed_values
  expose_on board service board_uuid service_uuid public_port = do
    call (
        allowlist_call (board.row Column.agent) "addin_allowlist" board_uuid
          (port_value public_port))
    res ←
        execute_on_board board_uuid "ServiceEnable"
          (service.row Column.uuid ∷ port_value public_port ∷ []) Value.null
    result ← manage_result res board_uuid
    create_exposed_service (exposed_values board_uuid service_uuid (port_value public_port))
    pure (value result)

  abbrev pub expose_port : Object → Object → Value → Value → Option ℕ → Action Answer
  expose_port board service board_uuid service_uuid none =
      pure (exception Exception.not_enough_port_for_service)
  expose_port board service board_uuid service_uuid (some zero) =
      pure (exception Exception.not_enough_port_for_service)
  expose_port board service board_uuid service_uuid (some (suc n)) =
      expose_on board service board_uuid service_uuid (suc n)

  -- a service that is exposed already: the exception is the value that the method returns
  abbrev pub unless_exposed : Value → Action Answer → Result Row → Action Answer
  unless_exposed service_uuid m (ok r) =
      pure (exception (Exception.service_already_exposed service_uuid))
  unless_exposed service_uuid m (raised e) = m

  unfoldable pub enable_service : Object → Object → Value → Value → Action Answer
  unfolding get_exposed_service_by_uuids random_public_port expose_on
  enable_service board service board_uuid service_uuid w =
      let (found, v) = get_exposed_service_by_uuids board_uuid service_uuid w in
      unless_exposed service_uuid
        (do
          public_port ← random_public_port conf
          expose_port board service board_uuid service_uuid public_port)
        found v

  unfoldable pub disable_service : Object → Object → Value → Value → Action Answer
  unfolding get_exposed_service_by_uuids execute_on_board manage_result release_port
      destroy_exposed_service call
  disable_service board service board_uuid service_uuid = do
    exposed ← get_exposed_service_by_uuids board_uuid service_uuid
    res ← execute_on_board board_uuid "ServiceDisable" (service.row Column.uuid ∷ []) Value.null
    result ← manage_result res board_uuid
    release_port (exposed Column.public_port)
    destroy_exposed_service (exposed Column.id)
    call (
        allowlist_call (board.row Column.agent) "remove_from_allowlist" board_uuid
          (exposed Column.public_port))
    pure (value result)

  unfoldable pub restore_service : Object → Value → Value → Action Answer
  unfolding get_exposed_service_by_uuids execute_on_board manage_result
  restore_service service board_uuid service_uuid = do
    exposed ← get_exposed_service_by_uuids board_uuid service_uuid
    res ←
        execute_on_board board_uuid "ServiceRestore"
          (service.row Column.uuid ∷ exposed Column.public_port ∷ []) Value.null
    result ← manage_result res board_uuid
    pure (value result)

  abbrev pub choose_action : String → Object → Object → Value → Value → Action Answer
  choose_action action board service board_uuid service_uuid =
      if str_eq action "ServiceEnable"
      then enable_service board service board_uuid service_uuid
      else if str_eq action "ServiceDisable"
      then disable_service board service board_uuid service_uuid
      else restore_service service board_uuid service_uuid

  unfoldable pub get_service : Value → Action Object
  unfolding load get_service_by_id get_service_by_uuid
  get_service (Value.int z) = load (get_service_by_id (Value.int z))
  get_service (Value.str s) = elim (E.int_like s) [
    | some z ↦ load (get_service_by_id (Value.int z))
    | none ↦
        if E.is_uuid_like s
        then load (get_service_by_uuid (Value.str s))
        else raise (Exception.invalid_identity (Value.str s))
  ]
  get_service v = raise (Exception.invalid_identity v)

  unfoldable pub action_service : Value → Value → String → Action Answer
  unfolding get_service is_valid_action load get_board_by_uuid is_online enable_service
      disable_service restore_service
  action_service service_uuid board_uuid action = do
    service ← get_service service_uuid
    (if is_valid_action action
        then pure tt
        else raise (Exception.invalid_service_action (Value.str action)))
    board ← load (get_board_by_uuid board_uuid)
    (if is_online board
        then pure tt
        else raise (Exception.board_not_connected (board.row Column.uuid)))
    choose_action action board service board_uuid service_uuid

  unfoldable pub restore_exposed : Value → Row → Action (Unit {0})
  unfolding load get_service_by_uuid execute_on_board
  restore_exposed board_uuid exposed = do
    service ← load (get_service_by_uuid (exposed Column.service_uuid))
    execute_on_board board_uuid "ServiceRestore"
        (service.row Column.uuid ∷ exposed Column.public_port ∷ []) Value.null
    pure tt

  unfoldable pub restore_services_on_board : Value → Action ℕ
  unfolding get_exposed_services_by_board_uuid restore_exposed
  restore_services_on_board board_uuid = do
    exposed_list ← get_exposed_services_by_board_uuid board_uuid
    for_each exposed_list (restore_exposed board_uuid)
    pure 0
