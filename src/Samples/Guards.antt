-- ===== src/Samples/Guards.antt =====
-- Refusals, notifications and lost sessions, at runs on the engine in memory.
use stack4things_openstack_i.Samples.Memory.{memory}
use stack4things_openstack_i.Action.{WampMessage, World}
use stack4things_openstack_i.Base.{[], pos, some, ◌∷◌}
use stack4things_openstack_i.Db.Schema.{Column, Model, Row, Value, assign, set_column, set_rows}
use stack4things_openstack_i.Objects.{Object, from_db_object, new_object}
use stack4things_openstack_i.Samples.Runs.{board_row, connected, no_rows, u1, world_of}
use stack4things_openstack_i.Samples.Services.{exposed_row}
use stack4things_openstack_i.Base.{pos}

abbrev u1_world : World
u1_world = world_of connected

abbrev named_row : Row
named_row = set_column board_row Column.name (Value.str "n")

abbrev named_world : World
named_world = world_of (set_rows no_rows Model.board (named_row ∷ []))

abbrev new_one : Object
new_one = from_db_object named_row

abbrev shown_row : Row
shown_row =
    assign ((Column.board_uuid, u1) ∷ (Column.service_uuid, Value.str "us") ∷ []) exposed_row

abbrev shown_world : World
shown_world = world_of (set_rows connected Model.exposed_service (shown_row ∷ []))

abbrev board : Object
board = from_db_object board_row

abbrev service : Object
service = new_object ((Column.uuid, Value.str "us") ∷ [])

-- the message by which board u1 reports the result of request up
abbrev report : WampMessage
report = record { message = Value.str "done"; result = "SUCCESS"; req_id = some "up" }

-- the same board reports that the request goes on
abbrev going_on : WampMessage
going_on = record { message = Value.str "half"; result = "RUNNING"; req_id = some "up" }
