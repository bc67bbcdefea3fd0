-- ===== src/Samples/Runs.antt =====
-- The theorems about boards and their sessions, at runs on the engine in memory.

use stack4things_openstack_i.Samples.Memory.{memory}
use stack4things_openstack_i.Action.{Exception, World, ok, raised}
use stack4things_openstack_i.Base.{[], arith, false, filter, pos, refl, true, ◌++◌, ◌∷◌, ◌≡◌}
use stack4things_openstack_i.Db.Boards.{get_board_by_uuid, update_board}
use stack4things_openstack_i.Db.Engine.{new_row, stored}
use stack4things_openstack_i.Db.Query.{has}
use stack4things_openstack_i.Db.Schema.{
  Column, Model, Row, Tables, Value, assign, conflict, eq_value, set_column, set_rows, truthy,
}
use stack4things_openstack_i.Db.Updating.{get_board_by_uuid-update_board}
use stack4things_openstack_i.Samples.Memory.{memory_id, memory_insert, memory_uuid_like}
use stack4things_openstack_i.Objects.{dict_or_none}
use stack4things_openstack_i.Wamp.Sessions.Joining.{connection_rejected}
use stack4things_openstack_i.Wamp.Sessions.{
  Info, with_info, board_on_leave, connection, wamp_success,
}
use stack4things_openstack_i.Objects.{
  Object, from_db_object, number_text, obj_get_changes, set_attr, str_or_none,
}
use stack4things_openstack_i.Wamp.Sessions.Joining.{online}
use stack4things_openstack_i.Wamp.Sessions.Joining.{
  IsKnown, connection_opens, marked, session_values, valid_of,
}
use stack4things_openstack_i.Wamp.Sessions.Leaving.{IsOpen, board_on_leave_open}
use stack4things_openstack_i.Wamp.Sessions.Retrying.{connection_retried}

abbrev pub null_row : Row
null_row c = Value.null

-- a board with uuid u1 and session number 7
abbrev pub board_row : Row
board_row =
    assign
      ((Column.id, Value.int (pos 0))
        ∷ (Column.uuid, Value.str "u1")
        ∷ (Column.code, Value.str "c1")
        ∷ (Column.status, Value.str "online")
        ∷ (Column.agent, Value.str "host")
        ∷ (Column.lr_version, Value.str "0.5.0")
        ∷ [])
      null_row

abbrev pub session_row : Row
session_row =
    assign
      ((Column.id, Value.int (pos 0))
        ∷ (Column.board_id, Value.int (pos 0))
        ∷ (Column.board_uuid, Value.str "u1")
        ∷ (Column.session_id, Value.str "7")
        ∷ (Column.valid, Value.bool true)
        ∷ [])
      null_row

abbrev pub no_rows : Tables
no_rows m = []

abbrev pub connected : Tables
connected =
    set_rows (set_rows no_rows Model.board (board_row ∷ [])) Model.session (session_row ∷ [])

abbrev pub world_of : Tables → World
world_of t = record {
  tables = t;
  free_ports = [];
  vif_ports = [];
  agent_ips = [];
  now = 0;
  uuids = 0;
  draws = [];
  inbox = [];
  calls = [];
}

abbrev pub u1 : Value
u1 = Value.str "u1"

unfoldable pub session_open : IsOpen (world_of connected) (Value.str "7") session_row board_row
unfolding filter has eq_value memory_uuid_like truthy number_text
session_open = record {
  number = "7";
  numbered = refl;
  listed = refl;
  valid = refl;
  session_key = tt;
  one_session = refl;
  uuid = (refl, refl);
  one_board = refl;
  same_uuid = refl;
  board_key = tt;
}

pub board-IsKnown : IsKnown (world_of connected) u1 board_row (session_row ∷ [])
unfolding filter has eq_value memory_uuid_like truthy
board-IsKnown = record {
  uuid = (refl, refl);
  one_board = refl;
  same_uuid = refl;
  board_key = tt;
  valid_sessions = refl;
  at_most_one = omega arith;
  session_keys = ((tt, refl), tt);
}

abbrev left : World
left = (board_on_leave (Value.str "7") (world_of connected)).1

board_on_leave_open_example :
    ((board_on_leave (Value.str "7") (world_of connected)).0 ≡ ok tt)
    × (filter (has Column.session_id (Value.str "7")) (left.tables Model.session)
        ≡ set_column session_row Column.valid (Value.bool false) ∷ [])
    × (filter (has Column.uuid u1) (left.tables Model.board)
        ≡ set_column board_row Column.status (Value.str "offline") ∷ [])
    × (left ≡ record (world_of connected) {
      tables =
          set_rows
            (set_rows connected Model.session (left.tables Model.session))
            Model.board
            (left.tables Model.board);
    })
unfolding session_open
board_on_leave_open_example =
    board_on_leave_open (world_of connected) (Value.str "7") session_row board_row session_open

-- the session that a board with uuid u1 opens next
abbrev pub next_row : Row
next_row =
    new_row memory_id (marked connected (session_row ∷ [])) Model.session
      (session_values board_row (Value.str "9"))

abbrev pub next_tables : Tables
next_tables =
    set_rows (marked connected (session_row ∷ [])) Model.session
      (marked connected (session_row ∷ []) Model.session ++ next_row ∷ [])

pub next_stored :
    memory_insert
      (marked connected (session_row ∷ []))
      Model.session
      (session_values board_row (Value.str "9"))
    ≡ stored next_row next_tables
unfolding memory_insert conflict has eq_value memory_id str_or_none
next_stored = refl

-- the board as it is saved
abbrev pub online_board : Object
online_board = set_attr (from_db_object board_row) Column.status online

abbrev joined : World
joined = (connection u1 (Value.str "9") [] (world_of connected)).1

connection_opens_example :
    ((connection u1 (Value.str "9") [] (world_of connected)).0 ≡ ok (wamp_success (Value.str "")))
    × (filter (valid_of u1) (joined.tables Model.session) ≡ next_row ∷ [])
    × (next_row Column.session_id ≡ Value.str "9")
    × (next_row Column.board_id ≡ board_row Column.id)
    × (filter (has Column.uuid u1) (joined.tables Model.board)
        ≡ assign ((Column.status, online) ∷ []) board_row ∷ [])
    × (assign ((Column.status, online) ∷ []) board_row Column.status ≡ Value.str "online")
unfolding with_info obj_get_changes str_or_none
connection_opens_example =
    connection_opens (world_of connected) u1 board_row (session_row ∷ []) board-IsKnown
      (Value.str "9") [] next_row next_tables next_stored online_board refl

-- a connectivity that is a number
abbrev number_info : Info
number_info = ("connectivity", Value.int (pos 5)) ∷ []

connection_rejected_example :
    ((connection u1 (Value.str "9") number_info (world_of connected)).0
      ≡ raised Exception.type_error)
    × (filter
          (valid_of u1)
          ((connection u1 (Value.str "9") number_info (world_of connected)).1.tables Model.session)
        ≡ next_row ∷ [])
    × ((connection u1 (Value.str "9") number_info (world_of connected)).1.tables Model.board
        ≡ connected Model.board)
unfolding with_info dict_or_none
connection_rejected_example =
    connection_rejected (world_of connected) u1 board_row (session_row ∷ []) board-IsKnown
      (Value.str "9") number_info next_row next_tables next_stored Exception.type_error refl

abbrev retried : World
retried = (connection u1 (Value.str "7") [] (world_of connected)).1

connection_retried_example :
    ((e : Exception) × ((connection u1 (Value.str "7") [] (world_of connected)).0 ≡ raised e))
    × (filter (valid_of u1) (retried.tables Model.session) ≡ [])
    × (retried.tables Model.board ≡ connected Model.board)
unfolding filter has eq_value
connection_retried_example =
    connection_retried (world_of connected) u1 board_row (session_row ∷ []) board-IsKnown "7" []
      session_row [] refl

get_board_by_uuid-update_board_example :
    ((update_board u1 ((Column.name, Value.str "x") ∷ []) (world_of connected)).0
      ≡ ok (assign ((Column.name, Value.str "x") ∷ []) board_row))
    × (get_board_by_uuid u1
          (update_board u1 ((Column.name, Value.str "x") ∷ []) (world_of connected)).1
        ≡ (
          ok (assign ((Column.name, Value.str "x") ∷ []) board_row),
          (update_board u1 ((Column.name, Value.str "x") ∷ []) (world_of connected)).1,
        ))
unfolding filter has eq_value memory_uuid_like
get_board_by_uuid-update_board_example =
    get_board_by_uuid-update_board (world_of connected) u1 ((Column.name, Value.str "x") ∷ [])
      board_row 1
      (set_rows connected Model.board (assign ((Column.name, Value.str "x") ∷ []) board_row ∷ []))
      (refl, refl) refl tt refl refl
