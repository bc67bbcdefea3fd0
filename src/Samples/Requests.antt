-- ===== src/Samples/Requests.antt =====
-- The theorems about requests and their results, at runs on the engine in memory.
use stack4things_openstack_i.Samples.Memory.{memory}
use stack4things_openstack_i.Action.{Exception, Reply, WampMessage, World, ok, raised}
use stack4things_openstack_i.Base.{
  [], eq_ℤ, filter, if◌then◌else◌, none, pos, pred_ℤ, refl, ◌∷◌, ◌≡◌,
}
use stack4things_openstack_i.Conductor.Requests.{
  completed, execute_on_board, finish, request_values, result_values, settle_main, wamp_name,
}
use stack4things_openstack_i.Conductor.Requests.Closing.{
  CanFinish, IsRequest, counted, settle_main_counts,
}
use stack4things_openstack_i.Conductor.Requests.Executing.{
  CanRun, execute_on_board_offline, execute_on_board_running, request_row_values, sent,
}
use stack4things_openstack_i.Conductor.Version.{
  compare_lists, is_freedom, parse_int, version_compare, version_parts,
}
use stack4things_openstack_i.Db.Engine.{new_row}
use stack4things_openstack_i.Db.Query.{has}
use stack4things_openstack_i.Db.Schema.{
  Column, Model, Row, Tables, Value, assign, conflict, eq_value, set_column, set_rows, truthy,
}
use stack4things_openstack_i.Objects.{Object, from_db_object, is_online, text_of}
use stack4things_openstack_i.Samples.Memory.{memory_id, memory_insert, memory_uuid_like}
use stack4things_openstack_i.Samples.Runs.{
  board_row, connected, no_rows, null_row, session_row, u1, world_of,
}

-- request rows: a main one with two requests pending, and one that belongs to it
abbrev pub main_row : Row
main_row =
    assign
      ((Column.id, Value.int (pos 0))
        ∷ (Column.uuid, Value.str "um")
        ∷ (Column.status, Value.str "PENDING")
        ∷ (Column.pending_requests, Value.int (pos 2))
        ∷ [])
      null_row

abbrev pub part_row : Row
part_row =
    assign
      ((Column.id, Value.int (pos 1))
        ∷ (Column.uuid, Value.str "up")
        ∷ (Column.status, Value.str "PENDING")
        ∷ (Column.main_request_uuid, Value.str "um")
        ∷ [])
      null_row

abbrev pub result_row : Row
result_row =
    assign
      ((Column.id, Value.int (pos 0))
        ∷ (Column.board_uuid, Value.str "u1")
        ∷ (Column.request_uuid, Value.str "up")
        ∷ (Column.result, Value.str "RUNNING")
        ∷ [])
      null_row

abbrev pub waiting : World
waiting = world_of (
    set_rows (set_rows no_rows Model.request (main_row ∷ part_row ∷ [])) Model.result
      (result_row ∷ []))

abbrev pub success : WampMessage
success = record { message = Value.str "done"; result = "SUCCESS"; req_id = none }

pub main_IsRequest : IsRequest waiting.tables (Value.str "um") main_row
unfolding filter has eq_value memory_uuid_like
main_IsRequest = record { uuid = (refl, refl); same_uuid = refl; key = tt; only = refl }

part_IsRequest : IsRequest waiting.tables (Value.str "up") part_row
unfolding filter has eq_value memory_uuid_like
part_IsRequest = record { uuid = (refl, refl); same_uuid = refl; key = tt; only = refl }

abbrev part : Object
part = from_db_object part_row

settle_main_counts_example :
    ((settle_main part waiting).0 ≡ ok tt)
    × (filter (has Column.uuid (Value.str "um")) ((settle_main part waiting).1.tables Model.request)
        ≡ assign (counted (pos 2)) main_row ∷ [])
    × (assign (counted (pos 2)) main_row Column.pending_requests ≡ Value.int (pred_ℤ (pos 2)))
    × (assign (counted (pos 2)) main_row Column.status
        ≡ (if eq_ℤ (pred_ℤ (pos 2)) (pos 0) then completed else main_row Column.status))
unfolding truthy
settle_main_counts_example =
    settle_main_counts waiting part (Value.str "um") main_row (pos 2) refl refl main_IsRequest refl

pub part_CanFinish : CanFinish waiting result_row part_row (Value.str "up")
unfolding filter has eq_value
part_CanFinish = record { result_key = tt; one_result = refl; request = part_IsRequest }

abbrev finish_world : World
finish_world = (finish (from_db_object result_row) part success waiting).1

-- a board that has left
abbrev offline_row : Row
offline_row = set_column board_row Column.status (Value.str "offline")

abbrev offline_world : World
offline_world = world_of (set_rows no_rows Model.board (offline_row ∷ []))

execute_on_board_offline_example :
    (e : Exception) × (execute_on_board u1 "Ping" [] Value.null offline_world
      ≡ (raised e, offline_world))
unfolding filter has eq_value is_online
execute_on_board_offline_example =
    execute_on_board_offline offline_world u1 offline_row refl "Ping" [] Value.null refl

abbrev answering : WampMessage → World
answering m = record (world_of connected) { inbox = Reply.replies m ∷ [] }

abbrev made_request : Row
made_request =
    new_row memory_id connected Model.request
      (request_row_values (answering success) board_row "Ping")

abbrev with_request : Tables
with_request = set_rows connected Model.request (made_request ∷ [])

abbrev made_result : Row
made_result =
    new_row memory_id with_request Model.result
      (result_values (from_db_object board_row) (made_request Column.uuid))

abbrev with_result : Tables
with_result = set_rows with_request Model.result (made_result ∷ [])

abbrev still_running : WampMessage
still_running = record { message = Value.str ""; result = "RUNNING"; req_id = none }

can_run :
    (m : WampMessage)
    → CanRun
        (answering m)
        u1
        board_row
        session_row
        made_request
        made_result
        "Ping"
        "iotronic.7.u1.Ping"
        []
        (pos 1)
        m
        []
        with_request
        with_result
unfolding filter has eq_value memory_insert conflict wamp_name version_compare is_freedom
    version_parts compare_lists parse_int truthy request_values result_values text_of is_online
can_run m = record {
  known = refl;
  in_session = refl;
  named = refl;
  online = refl;
  request_made = refl;
  result_made = refl;
  version = refl;
  answer = refl;
}

execute_on_board_running_example :
    execute_on_board u1 "Ping" [] Value.null (answering still_running) ≡ (
      ok still_running,
      record (answering still_running) {
        tables = with_result;
        uuids = 1;
        inbox = [];
        calls = sent board_row made_request "iotronic.7.u1.Ping" [] (pos 1) ∷ [];
      },
    )
execute_on_board_running_example =
    execute_on_board_running (answering still_running) u1 board_row session_row made_request
      made_result "Ping" "iotronic.7.u1.Ping" [] (pos 1) still_running [] with_request with_result
      (can_run still_running) refl

abbrev final_run : World
final_run = (execute_on_board u1 "Ping" [] Value.null (answering success)).1

abbrev asked_world : World
asked_world = record (answering success) {
  tables = with_result;
  uuids = 1;
  inbox = [];
  calls = sent board_row made_request "iotronic.7.u1.Ping" [] (pos 1) ∷ [];
}
