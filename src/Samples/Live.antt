-- ===== src/Samples/Live.antt =====
-- The theorems about the live sessions of boards, at runs on the engine in memory.
use stack4things_openstack_i.Samples.Memory.{memory}
use stack4things_openstack_i.Base.Counting.{length-filter}
use stack4things_openstack_i.Base.{[], eq_ℤ, filter, refl, ◌∷◌, ◌≡◌}
use stack4things_openstack_i.Db.Query.{has}
use stack4things_openstack_i.Db.Schema.{Column, Model, Value, eq_value}
use stack4things_openstack_i.Samples.Runs.{
  online_board, board-IsKnown, board_row, connected, next_row, next_stored, next_tables,
  session_open, session_row, u1, world_of,
}
use stack4things_openstack_i.Objects.{obj_get_changes, str_or_none}
use stack4things_openstack_i.Wamp.Sessions.{with_info, board_on_leave, connection}
use stack4things_openstack_i.Wamp.Sessions.Joining.{valid_of}
use stack4things_openstack_i.Wamp.Sessions.Refining.{
  board_on_leave_refines, connection_refines, join, leave, live,
}
use stack4things_openstack_i.Wamp.Sessions.Single.{IsSingle}

connection_refines_example :
    live (connection u1 (Value.str "9") [] (world_of connected)).1.tables "u1"
    ≡ join "u1" (Value.str "9") (live connected) "u1"
unfolding with_info obj_get_changes str_or_none
connection_refines_example =
    connection_refines (world_of connected) "u1" board_row (session_row ∷ []) board-IsKnown
      (Value.str "9") [] next_row next_tables next_stored online_board refl "u1"

connected-IsSingle : IsSingle (connected Model.session)
unfolding has filter eq_value eq_ℤ
connected-IsSingle = record {
  one_valid = λ u. length-filter (valid_of (Value.str u)) (session_row ∷ []);
  numbers = (tt, tt);
  one_key = λ z. length-filter (has Column.id (Value.int z)) (session_row ∷ []);
}

board_on_leave_refines_example :
    live (board_on_leave (Value.str "7") (world_of connected)).1.tables "u1"
    ≡ leave "u1" (live connected) "u1"
board_on_leave_refines_example =
    board_on_leave_refines (world_of connected) (Value.str "7") "u1" session_row board_row
      session_open connected-IsSingle refl refl "u1"
