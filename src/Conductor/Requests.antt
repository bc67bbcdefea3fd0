-- ===== src/Conductor/Requests.antt =====
-- iotronic/conductor/endpoints.py: requests to boards and their results, and notify_result of
-- iotronic/wamp/functions.py, by which a board reports a result later. During a remote call no
-- other handler runs here: the board answers, and its own calls come before or after.
pub mod Closing
pub mod Executing
pub mod Notifying
pub mod Keeping
use stack4things_openstack_i.Action.{
  Action, Exception, Result, WampMessage, call, lift, ok, pure, raise, raised, ◌>>=◌, ◌>>◌,
}
use stack4things_openstack_i.Base.{
  List, Option, String, [], codes, concat, false, if◌then◌else◌, length, negsuc, none, pos, pred_ℤ,
  some, str_eq, true, ℕ, ℤ, ◌==◌, ◌∷◌,
}
use stack4things_openstack_i.Conductor.Version.{version_compare}
use stack4things_openstack_i.Db.Boards.{get_board_by_uuid}
use stack4things_openstack_i.Db.Engine.{Engine, whole}
use stack4things_openstack_i.Db.Filters.{Filters}
use stack4things_openstack_i.Db.Requests.{get_request_by_uuid, get_result, get_result_list}
use stack4things_openstack_i.Db.Schema.{Column, Value, Values, eq_value, truthy}
use stack4things_openstack_i.Db.Sessions.{get_session_by_board_uuid}
use stack4things_openstack_i.Objects.{
  Object, create_request_object, create_result_object, is_online, load, new_object, save_request,
  save_result, set_attr, text_of,
}
use stack4things_openstack_i.Wamp.Sessions.{wamp_success}

-- the statuses of objects/request.py
abbrev pub pending : Value
pending = Value.str "PENDING"

abbrev pub completed : Value
completed = Value.str "COMPLETED"

abbrev board_request : Value
board_request = Value.int (pos 0)

-- if main_req: req_data['main_request_uuid'] = main_req
abbrev main_values : Value → Values
main_values main_req = if truthy main_req then (Column.main_request_uuid, main_req) ∷ [] else []

unfoldable pub request_values : Object → String → Value → ℕ → Values
request_values board action main_req pending_requests =
    (Column.destination_uuid, board.row Column.uuid)
    ∷ (Column.type, board_request)
    ∷ (Column.status, pending)
    ∷ (Column.action, Value.str action)
    ∷ (Column.project, board.row Column.project)
    ∷ (Column.pending_requests, Value.int (pos pending_requests))
    ∷ main_values main_req

unfoldable pub result_values : Object → Value → Values
result_values board req_uuid =
    (Column.board_uuid, board.row Column.uuid)
    ∷ (Column.request_uuid, req_uuid)
    ∷ (Column.result, Value.str "RUNNING")
    ∷ (Column.message, Value.str "")
    ∷ []

-- what the caller of a remote method gets
unfoldable pub manage_result : WampMessage → Value → Action Value
manage_result res board_uuid =
    if str_eq res.result "SUCCESS"
    then pure res.message
    else if str_eq res.result "WARNING"
    then pure res.message
    else if str_eq res.result "ERROR"
    then raise (Exception.error_execution_on_board board_uuid)
    else pure res.message

-- value - 1, and value == 0
unfoldable pub decrement : Value → Result Value
decrement (Value.int z) = ok (Value.int (pred_ℤ z))
decrement (Value.bool true) = ok (Value.int (pos 0))
decrement (Value.bool false) = ok (Value.int (negsuc 0))
decrement v = raised Exception.type_error

-- the main request after one of its requests is done
unfoldable pub count_down : Object → Value → Object
count_down mreq left =
    let counted = set_attr mreq Column.pending_requests left in
    if eq_value left (Value.int (pos 0)) then set_attr counted Column.status completed else counted

-- 'iotronic.' + session_id + "." + uuid + "." + call
unfoldable pub wamp_name : Object → Object → String → Result String
wamp_name session board rpc =
    name_of (text_of (session.row Column.session_id)) (text_of (board.row Column.uuid))
  where
    name_of : Result String → Result String → Result String
    name_of (ok s) (ok u) =
        ok (concat "iotronic." (concat s (concat "." (concat u (concat "." rpc)))))
    name_of (ok s) (raised e) = raised e
    name_of (raised e) r = raised e

-- "freedom" in v1 and v1.split want a text
abbrev pub lr_compare : Result String → Result ℤ
lr_compare (ok v) = version_compare (codes v) (codes "0.4.9")
lr_compare (raised e) = raised e

module _ ⦃E : Engine⦄ where
  unfoldable pub new_req : Object → String → Value → ℕ → Action Object
  unfolding new_object create_request_object request_values
  new_req board action main_req pending_requests =
      create_request_object (new_object (request_values board action main_req pending_requests))

  unfoldable pub new_res : Object → Value → Action Object
  unfolding new_object create_result_object result_values
  new_res board req_uuid = create_result_object (new_object (result_values board req_uuid))

  -- if req.main_request_uuid: …
  unfoldable pub settle_main : Object → Action (Unit {0})
  unfolding load get_request_by_uuid decrement count_down save_request
  settle_main req =
      if truthy (req.row Column.main_request_uuid)
      then (do
        mreq ← load (get_request_by_uuid (req.row Column.main_request_uuid))
        left ← lift (decrement (mreq.row Column.pending_requests))
        save_request (count_down mreq left)
        pure tt)
      else pure tt

  -- the response of the board is final: the result and the request are closed
  unfoldable pub finish : Object → Object → WampMessage → Action (Unit {0})
  unfolding save_result save_request settle_main
  finish res req response = do
    save_result (
        set_attr (set_attr res Column.result (Value.str response.result)) Column.message
          response.message)
    save_request (set_attr req Column.status completed)
    settle_main req

  -- the remote call; boards before version 0.4.9 are not sent the request
  unfoldable pub invoke : Object → String → Object → List Value → Action WampMessage
  unfolding call text_of version_compare
  invoke board full req args = do
    old ← lift (lr_compare (text_of (board.row Column.lr_version)))
    call (record {
      server = board.row Column.agent;
      method = "s4t_invoke_wamp";
      args =
          Value.str full
          ∷ (if eq_value (Value.int old) (Value.int (negsuc 0))
              then args
              else req.row Column.uuid ∷ args);
    })

  -- the part of execute_on_board after the guards
  unfoldable pub run_on_board : Object → String → String → List Value → Value → Action WampMessage
  unfolding new_req new_res invoke finish
  run_on_board board full rpc args main_req = do
    req ← new_req board rpc main_req 0
    res ← new_res board (req.row Column.uuid)
    response ← invoke board full req args
    (if str_eq response.result "RUNNING" then pure tt else finish res req response)
    pure response

  unfoldable pub execute_on_board : Value → String → List Value → Value → Action WampMessage
  unfolding load get_board_by_uuid get_session_by_board_uuid wamp_name is_online run_on_board
  execute_on_board board_uuid rpc args main_req = do
    board ← load (get_board_by_uuid board_uuid)
    session ← load (get_session_by_board_uuid board_uuid true)
    full ← lift (wamp_name session board rpc)
    (if is_online board
        then run_on_board board full rpc args main_req
        else raise (Exception.board_not_connected (board.row Column.uuid)))

  -- the request of a result that was the last one running
  unfoldable pub complete_request : Value → Action (Unit {0})
  unfolding load get_request_by_uuid save_request settle_main
  complete_request req_id = do
    req ← load (get_request_by_uuid req_id)
    save_request (set_attr req Column.status completed)
    settle_main req

  abbrev pub running_of : Value → Filters
  running_of req_id = ("result", Value.str "RUNNING") ∷ ("request_uuid", req_id) ∷ []

  -- wmsg.req_id: AttributeError where the message has none
  abbrev req_id_of : Option String → Result Value
  req_id_of none = raised Exception.attribute_error
  req_id_of (some s) = ok (Value.str s)

  unfoldable pub notify_result : Value → WampMessage → Action WampMessage
  unfolding load get_result save_result get_result_list complete_request wamp_success
  notify_result board_uuid wmsg = do
    req_id ← lift (req_id_of wmsg.req_id)
    res ← load (get_result board_uuid req_id)
    save_result
        (set_attr (set_attr res Column.result (Value.str wmsg.result)) Column.message wmsg.message)
    running ← get_result_list (running_of req_id) whole
    (if length running == 0 then complete_request req_id else pure tt)
    pure (wamp_success (Value.str "notification_received"))
