-- ===== src/Wamp/Sessions/Entering.antt =====
-- `connection` of iotronic/wamp/functions.py and `registration` of iotronic/conductor/endpoints.py
-- keep at most one valid session of each board.
use stack4things_openstack_i.Action.{
  Action, Exception, Result, WampMessage, lift, ok, pure, raised, ◌>>◌,
}
use stack4things_openstack_i.Action.Keeps.{
  Keeps, bind-Keeps, if-Keeps, keeps_rules, lift-Keeps, or_not_found-Keeps, pure-Keeps, raise-Keeps,
}
use stack4things_openstack_i.Base.{String}
use stack4things_openstack_i.Conductor.Registration.{
  first_config, get_best_agent, register_board, registration, send_config,
}
use stack4things_openstack_i.Db.Agents.{get_wampagent, get_wampagent_list}
use stack4things_openstack_i.Db.Boards.{
  get_board_by_code, get_board_by_uuid, get_board_id_by_uuid, get_locations_by_board_id,
}
use stack4things_openstack_i.Db.Engine.{Engine}
use stack4things_openstack_i.Db.Keeping.{one-Keeps, paginate_query-Keeps}
use stack4things_openstack_i.Db.Schema.{Column, Model, Row, Tables, Value}
use stack4things_openstack_i.Objects.{Object, from_db_object, save_board, set_attr, text_of}
use stack4things_openstack_i.Objects.Kinds.{list_locations}
use stack4things_openstack_i.Wamp.Sessions.{
  Info, board_error, connect_board, connection, found_or_error, wamp_success, with_info,
}
use stack4things_openstack_i.Action.{◌>>=◌}
use stack4things_openstack_i.Wamp.Sessions.Joining.{online}
use stack4things_openstack_i.Wamp.Sessions.Keeping.{
  Single, get_board_by_uuid-Keeps, load-Keeps, save_board-Keeps,
}
use stack4things_openstack_i.Wamp.Sessions.Replacing.{replace_session-Keeps}

module _ ⦃E : Engine⦄ where
  board_error-Keeps : {P : Tables → Type 0} (v : Value) (e : Exception) → Keeps P (board_error v e)
  unfolding board_error
  board_error-Keeps v (Exception.board_not_found u) =
      bind-Keeps (lift (text_of v)) _ (lift-Keeps (text_of v)) (λ s. pure-Keeps _)
  board_error-Keeps v e = raise-Keeps Exception.attribute_error

  found_or_error-Keeps :
      (v : Value) (f : Object → Action WampMessage) (r : Result Row)
      → ((b : Row) → Keeps Single (f (from_db_object b)))
      → Keeps Single (found_or_error v f r)
  found_or_error-Keeps v f (ok b) k = k b
  found_or_error-Keeps v f (raised e) k = board_error-Keeps v e

  connect_board-Keeps :
      (b : Row) (s : Value) (info : Info) → Keeps Single (connect_board (from_db_object b) s info)
  unfolding connect_board
  connect_board-Keeps b s info =
      let board = set_attr (from_db_object b) Column.status online in
      let done = wamp_success (Value.str "") in
      replace_session-Keeps b s
        (lift (with_info info board) >>= (λ updated. save_board updated >> pure done))
        (bind-Keeps (lift (with_info info board)) _ (lift-Keeps (with_info info board)) (λ updated.
          bind-Keeps (save_board updated) _ (save_board-Keeps updated) (λ _. pure-Keeps done)))

  pub connection-Keeps : (u s : Value) (info : Info) → Keeps Single (connection u s info)
  unfolding connection
  connection-Keeps u s info = record {
    at = λ w h.
        (found_or_error-Keeps u (λ o. connect_board o s info) (get_board_by_uuid u w).0
            (λ b. connect_board-Keeps b s info)).at
          (get_board_by_uuid u w).1 ((get_board_by_uuid-Keeps {P = Single} u).at w h);
  }

  send_config-Keeps : (o : Object) → Keeps Single (send_config o)
  unfolding send_config
  send_config-Keeps o =
      let board = set_attr o Column.status (Value.str "offline") in
      bind-Keeps (save_board board) _ (save_board-Keeps board)
        (λ _. pure-Keeps (wamp_success (o.row Column.config)))

  get_best_agent-Keeps : {P : Tables → Type 0} → Keeps P get_best_agent
  unfolding get_best_agent get_wampagent_list
  get_best_agent-Keeps = search (keeps_rules, paginate_query-Keeps)

  get_board_by_code-Keeps : {P : Tables → Type 0} (c : Value) → Keeps P (get_board_by_code c)
  unfolding get_board_by_code
  get_board_by_code-Keeps c = or_not_found-Keeps _ _ (one-Keeps Model.board _)

  pub get_wampagent-Keeps : {P : Tables → Type 0} (h : Value) → Keeps P (get_wampagent h)
  unfolding get_wampagent
  get_wampagent-Keeps h = or_not_found-Keeps _ _ (one-Keeps Model.wamp_agent _)

  list_locations-Keeps : {P : Tables → Type 0} (u : Value) → Keeps P (list_locations u)
  unfolding list_locations get_board_id_by_uuid get_locations_by_board_id
  list_locations-Keeps u = search (keeps_rules, get_board_by_uuid-Keeps, paginate_query-Keeps)

  module _ (stamp : Row → String → Value) (url : Value) where
    first_config-Keeps : {P : Tables → Type 0} (o : Object) → Keeps P (first_config stamp url o)
    unfolding first_config
    first_config-Keeps o =
        search
          (keeps_rules, get_best_agent-Keeps, get_wampagent-Keeps, list_locations-Keeps, load-Keeps)
          depth 30

    register_board-Keeps :
        (b : Row) (s : Value) → Keeps Single (register_board stamp url (from_db_object b) s)
    unfolding register_board
    register_board-Keeps b s =
        replace_session-Keeps b s _
          (search (if-Keeps, bind-Keeps, first_config-Keeps, send_config-Keeps))

    pub registration-Keeps : (c s : Value) → Keeps Single (registration stamp url c s)
    unfolding registration
    registration-Keeps c s = record {
      at = λ w h.
          (found_or_error-Keeps c (λ o. register_board stamp url o s) (get_board_by_code c w).0
              (λ b. register_board-Keeps b s)).at
            (get_board_by_code c w).1 ((get_board_by_code-Keeps {P = Single} c).at w h);
    }
