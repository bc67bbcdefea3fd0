-- ===== src/Conductor/Requests/Executing.antt =====
-- What execute_on_board does, on its branches.
use stack4things_openstack_i.Action.{Call, Exception, Reply, Result, WampMessage, World, ok, raised}
use stack4things_openstack_i.Base.{
  List, String, [], arith, false, filter, if◌then◌else◌, negsuc, refl, str_eq, suc, true, ℤ, ◌++◌,
  ◌∙◌, ◌∷◌, ◌≡◌,
}
use stack4things_openstack_i.Conductor.Requests.{
  execute_on_board, invoke, lr_compare, new_req, new_res, request_values, result_values,
  run_on_board, wamp_name,
}
use stack4things_openstack_i.Db.Engine.{Engine, stored}
use stack4things_openstack_i.Db.Query.{has, one}
use stack4things_openstack_i.Db.Schema.{Column, Model, Row, Tables, Value, Values, eq_value}
use stack4things_openstack_i.Db.Sessions.{get_session_by_board_uuid}
use stack4things_openstack_i.Objects.{changes_of, from_db_object, is_online, text_of}
use stack4things_openstack_i.Objects.Laws.{get_board_by_uuid_found}
use stack4things_openstack_i.Wamp.Sessions.Joining.{valid_of}

module _ ⦃E : Engine⦄ (w : World) (u : Value) (b : Row)
    (known : filter (has Column.uuid u) (w.tables Model.board) ≡ b ∷ []) (rpc : String)
    (args : List Value) (main_req : Value) where
  -- A call on a board that is not online raises, whatever its sessions: no request or result is
  -- made, no message is sent, and nothing else changes.
  pub execute_on_board_offline :
      is_online (from_db_object b) ≡ false
      → (e : Exception) × (execute_on_board u rpc args main_req w ≡ (raised e, w))
  unfolding execute_on_board get_session_by_board_uuid one
  execute_on_board_offline off = by_sessions (filter (valid_of u) (w.tables Model.session)) refl
    where
      by_name :
          (r : Row) (n : Result String)
          → wamp_name (from_db_object r) (from_db_object b) rpc ≡ n
          → filter (valid_of u) (w.tables Model.session) ≡ r ∷ []
          → (e : Exception) × (execute_on_board u rpc args main_req w ≡ (raised e, w))
      by_name r (ok s) n h = (
        Exception.board_not_connected (b Column.uuid),
        ground (
          arith,
          get_board_by_uuid_found w u b known,
          E.select_lem w.tables Model.session (valid_of u),
          h,
          n,
        ),
      )
      by_name r (raised e) n h = (
        e,
        ground (
          arith,
          get_board_by_uuid_found w u b known,
          E.select_lem w.tables Model.session (valid_of u),
          h,
          n,
        ),
      )

      by_sessions :
          (rows : List Row)
          → filter (valid_of u) (w.tables Model.session) ≡ rows
          → (e : Exception) × (execute_on_board u rpc args main_req w ≡ (raised e, w))
      by_sessions [] h = (
        Exception.board_not_connected u,
        ground (
          arith,
          get_board_by_uuid_found w u b known,
          E.select_lem w.tables Model.session (valid_of u),
          h,
        ),
      )
      by_sessions (r ∷ []) h = by_name r _ refl h
      by_sessions (r ∷ q ∷ rows) h = (
        Exception.multiple_results_found,
        ground (
          arith,
          get_board_by_uuid_found w u b known,
          E.select_lem w.tables Model.session (valid_of u),
          h,
        ),
      )

module _ ⦃E : Engine⦄ where
  abbrev pub request_row_values : World → Row → String → Values
  request_row_values w b rpc =
      request_values (from_db_object b) rpc Value.null 0
      ++ (Column.uuid, Value.str (E.generate_uuid w.uuids)) ∷ []

  -- An online board with one valid session, and a database that takes the new request `q` and the
  -- new result `r`; the next reply is the message `m`.
  pub record CanRun (w : World) (u : Value) (b s q r : Row) (rpc full : String) (args : List Value)
      (old : ℤ) (m : WampMessage) (rest : List Reply) (t1 t2 : Tables) : Type 0 where
    pub known : filter (has Column.uuid u) (w.tables Model.board) ≡ b ∷ []
    pub in_session : filter (valid_of u) (w.tables Model.session) ≡ s ∷ []
    pub named : wamp_name (from_db_object s) (from_db_object b) rpc ≡ ok full
    pub online : is_online (from_db_object b) ≡ true
    pub request_made : E.insert w.tables Model.request (request_row_values w b rpc) ≡ stored q t1
    pub result_made :
        E.insert t1 Model.result (result_values (from_db_object b) (q Column.uuid)) ≡ stored r t2
    pub version : lr_compare (text_of (b Column.lr_version)) ≡ ok old
    pub answer : w.inbox ≡ Reply.replies m ∷ rest

  -- The message sent: to the board's agent, with the request's uuid unless the board is too old.
  abbrev pub sent : Row → Row → String → List Value → ℤ → Call
  sent b q full args old = record {
    server = b Column.agent;
    method = "s4t_invoke_wamp";
    args =
        Value.str full
        ∷ (if eq_value (Value.int old) (Value.int (negsuc 0)) then args else q Column.uuid ∷ args);
  }

  module _ (w : World) (u : Value) (b s q r : Row) (rpc full : String) (args : List Value) (old : ℤ)
      (m : WampMessage) (rest : List Reply) (t1 t2 : Tables)
      (c : CanRun w u b s q r rpc full args old m rest t1 t2) where
    abbrev made : World
    made = record w { tables = t1; uuids = suc w.uuids }

    new_req_lem : new_req (from_db_object b) rpc Value.null 0 w ≡ (ok (from_db_object q), made)
    unfolding new_req request_values changes_of
    new_req_lem = ground (arith, c.request_made)

    new_res_lem :
        new_res (from_db_object b) (q Column.uuid) made
        ≡ (ok (from_db_object r), record made { tables = t2 })
    unfolding new_res result_values changes_of
    new_res_lem = ground (arith, c.result_made)

    abbrev asked : World
    asked = record w {
      tables = t2;
      uuids = suc w.uuids;
      inbox = rest;
      calls = sent b q full args old ∷ w.calls;
    }

    invoke_lem :
        invoke (from_db_object b) full (from_db_object q) args (record made { tables = t2 })
        ≡ (ok m, asked)
    unfolding invoke
    invoke_lem = ground (arith, c.version, c.answer)

    prepared :
        execute_on_board u rpc args Value.null w
        ≡ run_on_board (from_db_object b) full rpc args Value.null w
    unfolding execute_on_board get_session_by_board_uuid one
    prepared = ground (
      arith,
      get_board_by_uuid_found w u b c.known,
      E.select_lem w.tables Model.session (valid_of u),
      c.in_session,
      c.named,
      c.online,
    )

    -- The board answers that it is still working: exactly the request and the result are new, the
    -- request stays as it was made (PENDING), and one message was sent.
    pub execute_on_board_running :
        str_eq m.result "RUNNING" ≡ true → execute_on_board u rpc args Value.null w ≡ (ok m, asked)
    unfolding run_on_board
    execute_on_board_running still = prepared ∙ ground (arith, new_req_lem, new_res_lem, invoke_lem)
