-- ===== src/Conductor/Guards.antt =====
-- What the conductor's endpoints refuse before they do anything.
use stack4things_openstack_i.Conductor.Boards.{is_valid_action}
use stack4things_openstack_i.Action.{Exception, World, ok, raised}
use stack4things_openstack_i.Base.{
  Bool-cases, String, [], arith, false, filter, inl, inr, ◌&&◌, ◌∷◌, ◌≡◌,
}
use stack4things_openstack_i.Conductor.Boards.{action_board, create_board_endpoint}
use stack4things_openstack_i.Conductor.Ports.{PortConfig}
use stack4things_openstack_i.Conductor.Services.{
  Answer, disable_service, enable_service, restore_service,
}
use stack4things_openstack_i.Db.Boards.{get_board_by_name}
use stack4things_openstack_i.Db.Engine.{Engine}
use stack4things_openstack_i.Db.Laws.{one_found, one_missing}
use stack4things_openstack_i.Db.Query.{both, has}
use stack4things_openstack_i.Db.Schema.{Column, Model, Row, Value}
use stack4things_openstack_i.Objects.{Object, exists_by_name, from_db_object, get_board, is_online}
use stack4things_openstack_i.Objects.Laws.{IsUuid, get_board_by_uuid_found}

module _ ⦃E : Engine⦄ (w : World) where
  -- An action on a known board that is not online, or an action that is not in the list, raises:
  -- no message is sent and nothing changes.
  pub action_board_refused :
      (u : Value) (b : Row) (action : String) (params : Value)
      → IsUuid u
      → filter (has Column.uuid u) (w.tables Model.board) ≡ b ∷ []
      → (is_online (from_db_object b) && is_valid_action action) ≡ false
      → (e : Exception) × (action_board u action params w ≡ (raised e, w))
  unfolding action_board get_board
  action_board_refused (Value.str s) b action params i known barred =
      elim (Bool-cases (is_online (from_db_object b))) [
        | inr off ↦ (
          Exception.board_not_connected (b Column.uuid),
          ground (arith, i.0, i.1, off, get_board_by_uuid_found w (Value.str s) b known),
        )
        | inl on ↦ (
          Exception.invalid_board_action (Value.str action),
          ground (arith, i.0, i.1, on, barred, get_board_by_uuid_found w (Value.str s) b known),
        )
      ]
  action_board_refused Value.null b action params i known barred = absurd i
  action_board_refused (Value.bool x) b action params i known barred = absurd i
  action_board_refused (Value.int z) b action params i known barred = absurd i
  action_board_refused (Value.dict f) b action params i known barred = absurd i

  -- A board whose name is taken is not created: the call raises, and neither a board nor a
  -- location is added.
  pub create_board_endpoint_taken :
      (new_board new_location : Object) (b : Row)
      → filter (has Column.name (new_board.row Column.name)) (w.tables Model.board) ≡ b ∷ []
      → create_board_endpoint new_board new_location w
        ≡ (raised (Exception.board_name_already_exists (new_board.row Column.name)), w)
  unfolding create_board_endpoint exists_by_name get_board_by_name
  create_board_endpoint_taken new_board new_location b taken =
      ground (arith, one_found w Model.board (has Column.name (new_board.row Column.name)) b taken)

  -- A service that is exposed on a board is not exposed again: no port is taken, no message is
  -- sent, nothing changes, and the exception is what the call returns.
  pub enable_service_exposed :
      (conf : PortConfig) (board service : Object) (board_uuid service_uuid : Value) (r : Row)
      → filter
          (both (has Column.board_uuid board_uuid) (has Column.service_uuid service_uuid))
          (w.tables Model.exposed_service)
        ≡ r ∷ []
      → enable_service conf board service board_uuid service_uuid w
        ≡ (ok (Answer.exception (Exception.service_already_exposed service_uuid)), w)
  unfolding enable_service
  enable_service_exposed conf board service board_uuid service_uuid r there = ground (
    arith,
    one_found w Model.exposed_service
        (both (has Column.board_uuid board_uuid) (has Column.service_uuid service_uuid)) r there,
  )

  -- A service that is not exposed on a board is neither disabled nor restored there: both raise,
  -- with no message sent and nothing changed.
  pub disable_service_missing :
      (conf : PortConfig) (board service : Object) (board_uuid service_uuid : Value)
      → filter
          (both (has Column.board_uuid board_uuid) (has Column.service_uuid service_uuid))
          (w.tables Model.exposed_service)
        ≡ []
      → (disable_service conf board service board_uuid service_uuid w
          ≡ (raised (Exception.exposed_service_not_found service_uuid), w))
        × (restore_service conf service board_uuid service_uuid w
            ≡ (raised (Exception.exposed_service_not_found service_uuid), w))
  unfolding disable_service restore_service
  disable_service_missing conf board service board_uuid service_uuid none_there =
      let gone =
        one_missing w Model.exposed_service
          (both (has Column.board_uuid board_uuid) (has Column.service_uuid service_uuid))
          none_there in
      (ground (arith, gone), ground (arith, gone))
