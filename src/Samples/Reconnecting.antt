-- ===== src/Samples/Reconnecting.antt =====
-- A board that connects after requests and calls have been served, on the engine in memory.
use stack4things_openstack_i.Api.Router.Routes.{Request}
use stack4things_openstack_i.Samples.Memory.{memory}
use stack4things_openstack_i.Action.{World, ok}
use stack4things_openstack_i.Api.Boards.Parts.{get_services_status}
use stack4things_openstack_i.Api.Router.{handle}
use stack4things_openstack_i.Api.Router.Reconnecting.{board_connects}
use stack4things_openstack_i.Api.Router.Sessions.{ApiStep, Runs}
use stack4things_openstack_i.Base.{List, [], filter, refl, ◌++◌, ◌∷◌, ◌≡◌}
use stack4things_openstack_i.Conductor.Calls.{Step}
use stack4things_openstack_i.Conductor.Plugins.{status_services_on_board}
use stack4things_openstack_i.Conductor.RpcApi.{returns}
use stack4things_openstack_i.Db.Engine.{new_row}
use stack4things_openstack_i.Db.Query.{add_identity_filter, has}
use stack4things_openstack_i.Db.Schema.{
  Column, Model, Row, Tables, Value, assign, conflict, eq_value, set_rows, truthy,
}
use stack4things_openstack_i.Samples.Api.{conf, one_board, stranger}
use stack4things_openstack_i.Samples.Memory.{memory_id, memory_insert, memory_uuid_like}
use stack4things_openstack_i.Samples.Policies.{keystone_rules}
use stack4things_openstack_i.Samples.Runs.{board_row, u1}
use stack4things_openstack_i.Objects.{from_db_object, set_attr, str_or_none}
use stack4things_openstack_i.Wamp.Sessions.{with_info, connection, wamp_success}
use stack4things_openstack_i.Wamp.Sessions.Joining.{marked, online, session_values, valid_of}

-- a stranger asks for the services of the board, and the board connects
abbrev first_run : (w : World) × Runs ⦃F = keystone_rules⦄ conf one_board w
first_run = (
  _,
  Runs.goes_on
      (Runs.goes_on Runs.stays (ApiStep.serves stranger (Request.get_services_status "u1")))
      (ApiStep.calls (Step.connects u1 (Value.str "7") [])),
)

abbrev reached : World
reached = first_run.0

abbrev online_row : Row
online_row = assign ((Column.status, online) ∷ []) board_row

abbrev olds : List Row
olds = filter (valid_of u1) (reached.tables Model.session)

abbrev opened_row : Row
opened_row =
    new_row memory_id (marked reached.tables olds) Model.session
      (session_values online_row (Value.str "9"))

abbrev opened_tables : Tables
opened_tables =
    set_rows (marked reached.tables olds) Model.session
      (marked reached.tables olds Model.session ++ opened_row ∷ [])

board_connects_example :
    ((connection u1 (Value.str "9") [] reached).0 ≡ ok (wamp_success (Value.str "")))
    × (filter (valid_of u1) ((connection u1 (Value.str "9") [] reached).1.tables Model.session)
        ≡ opened_row ∷ [])
    × (opened_row Column.session_id ≡ Value.str "9")
    × ((after : Row) × (filter
            (has Column.uuid u1)
            ((connection u1 (Value.str "9") [] reached).1.tables Model.board)
          ≡ after ∷ [])
        × (after Column.status ≡ online))
unfolding filter has eq_value memory_uuid_like truthy memory_insert conflict memory_id connection
    handle get_services_status returns status_services_on_board add_identity_filter with_info
    str_or_none
board_connects_example =
    board_connects ⦃F = keystone_rules⦄ conf one_board reached refl first_run.1 "u1" online_row
      (refl, refl) refl tt (Value.str "9") []
      (set_attr (from_db_object online_row) Column.status online) opened_row opened_tables refl refl
