-- ===== src/Conductor/Requests/Keeping.antt =====
-- Requests to boards and their results keep at most one valid session of each board.
use stack4things_openstack_i.Action.{WampMessage}
use stack4things_openstack_i.Action.Keeps.{Keeps, keeps_rules}
use stack4things_openstack_i.Base.{Bool, List, String, ℕ}
use stack4things_openstack_i.Conductor.Requests.{
  complete_request, execute_on_board, finish, invoke, manage_result, new_req, new_res,
  notify_result, run_on_board, settle_main,
}
use stack4things_openstack_i.Db.Engine.{Engine, Page}
use stack4things_openstack_i.Db.Filters.{Filters}
use stack4things_openstack_i.Db.Keeping.{
  do_update-Keeps, ensure_uuid-Keeps, insert_row-Keeps, one-Keeps,
}
use stack4things_openstack_i.Db.Requests.{
  create_request, create_result, do_update_request, get_request_by_uuid, get_result,
  get_result_list, update_request, update_result,
}
use stack4things_openstack_i.Db.Schema.{Model, Value, Values}
use stack4things_openstack_i.Db.Sessions.{get_session_by_board_uuid}
use stack4things_openstack_i.Objects.{
  Object, create_request_object, create_result_object, save_request, save_result,
}
use stack4things_openstack_i.Wamp.Sessions.Keeping.{Single, get_board_by_uuid-Keeps, load-Keeps}
use stack4things_openstack_i.Wamp.Sessions.Single.{IsSingle}

module _ ⦃E : Engine⦄ where
  create_request-Keeps : (a : Values) → Keeps Single (create_request a)
  unfolding create_request
  create_request-Keeps a =
      search (keeps_rules, insert_row-Keeps Model.session IsSingle, ensure_uuid-Keeps) depth 40

  update_request-Keeps : (a : Value) (b : Values) → Keeps Single (update_request a b)
  unfolding update_request do_update_request
  update_request-Keeps a b = search (keeps_rules, do_update-Keeps Model.session IsSingle) depth 40

  create_result-Keeps : (a : Values) → Keeps Single (create_result a)
  unfolding create_result
  create_result-Keeps a = search (keeps_rules, insert_row-Keeps Model.session IsSingle) depth 40

  update_result-Keeps : (a : Value) (b : Values) → Keeps Single (update_result a b)
  unfolding update_result
  update_result-Keeps a b = search (keeps_rules, do_update-Keeps Model.session IsSingle) depth 40

  get_request_by_uuid-Keeps : (a : Value) → Keeps Single (get_request_by_uuid a)
  unfolding get_request_by_uuid
  get_request_by_uuid-Keeps a = search (keeps_rules, one-Keeps) depth 40

  get_result-Keeps : (a : Value) (b : Value) → Keeps Single (get_result a b)
  unfolding get_result
  get_result-Keeps a b = search (keeps_rules, one-Keeps) depth 40

  get_result_list-Keeps : (a : Filters) (b : Page) → Keeps Single (get_result_list a b)
  unfolding get_result_list
  get_result_list-Keeps a b = search (keeps_rules) depth 40

  get_session_by_board_uuid-Keeps :
      (a : Value) (b : Bool) → Keeps Single (get_session_by_board_uuid a b)
  unfolding get_session_by_board_uuid
  get_session_by_board_uuid-Keeps a b = search (keeps_rules, one-Keeps) depth 40

  create_request_object-Keeps : (a : Object) → Keeps Single (create_request_object a)
  unfolding create_request_object
  create_request_object-Keeps a = search (keeps_rules, create_request-Keeps, load-Keeps) depth 40

  pub save_request-Keeps : (a : Object) → Keeps Single (save_request a)
  unfolding save_request
  save_request-Keeps a = search (keeps_rules, update_request-Keeps) depth 40

  create_result_object-Keeps : (a : Object) → Keeps Single (create_result_object a)
  unfolding create_result_object
  create_result_object-Keeps a = search (keeps_rules, create_result-Keeps, load-Keeps) depth 40

  pub save_result-Keeps : (a : Object) → Keeps Single (save_result a)
  unfolding save_result
  save_result-Keeps a = search (keeps_rules, update_result-Keeps) depth 40

  pub new_req-Keeps : (a : Object) (b : String) (c : Value) (d : ℕ) → Keeps Single (new_req a b c d)
  unfolding new_req
  new_req-Keeps a b c d = search (keeps_rules, create_request_object-Keeps) depth 40

  pub new_res-Keeps : (a : Object) (b : Value) → Keeps Single (new_res a b)
  unfolding new_res
  new_res-Keeps a b = search (keeps_rules, create_result_object-Keeps) depth 40

  settle_main-Keeps : (a : Object) → Keeps Single (settle_main a)
  unfolding settle_main
  settle_main-Keeps a =
      search (keeps_rules, load-Keeps, get_request_by_uuid-Keeps, save_request-Keeps) depth 40

  finish-Keeps : (a : Object) (b : Object) (c : WampMessage) → Keeps Single (finish a b c)
  unfolding finish
  finish-Keeps a b c =
      search (keeps_rules, save_result-Keeps, save_request-Keeps, settle_main-Keeps) depth 40

  invoke-Keeps :
      (a : Object) (b : String) (c : Object) (d : List Value) → Keeps Single (invoke a b c d)
  unfolding invoke
  invoke-Keeps a b c d = search (keeps_rules) depth 40

  run_on_board-Keeps :
      (a : Object) (b : String) (c : String) (d : List Value) (e : Value)
      → Keeps Single (run_on_board a b c d e)
  unfolding run_on_board
  run_on_board-Keeps a b c d e =
      search (keeps_rules, new_req-Keeps, new_res-Keeps, invoke-Keeps, finish-Keeps) depth 40

  pub execute_on_board-Keeps :
      (a : Value) (b : String) (c : List Value) (d : Value)
      → Keeps Single (execute_on_board a b c d)
  unfolding execute_on_board
  execute_on_board-Keeps a b c d =
      search
        (
          keeps_rules, load-Keeps, get_board_by_uuid-Keeps, get_session_by_board_uuid-Keeps,
          run_on_board-Keeps,
        )
        depth 40

  complete_request-Keeps : (a : Value) → Keeps Single (complete_request a)
  unfolding complete_request
  complete_request-Keeps a =
      search
        (keeps_rules, load-Keeps, get_request_by_uuid-Keeps, save_request-Keeps, settle_main-Keeps)
        depth 40

  pub notify_result-Keeps : (a : Value) (b : WampMessage) → Keeps Single (notify_result a b)
  unfolding notify_result
  notify_result-Keeps a b =
      search
        (
          keeps_rules, load-Keeps, get_result-Keeps, save_result-Keeps, get_result_list-Keeps,
          complete_request-Keeps,
        )
        depth 40

  pub manage_result-Keeps : (a : WampMessage) (b : Value) → Keeps Single (manage_result a b)
  unfolding manage_result
  manage_result-Keeps a b = search (keeps_rules) depth 40
