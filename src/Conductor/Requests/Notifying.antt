-- ===== src/Conductor/Requests/Notifying.antt =====
-- What a board's later result does to its request.
use stack4things_openstack_i.Action.{WampMessage, World}
use stack4things_openstack_i.Base.{List, String, [], filter, some, ◌∷◌, ◌≡◌}
use stack4things_openstack_i.Conductor.Requests.{running_of}
use stack4things_openstack_i.Conductor.Requests.Closing.{CanFinish, after_result}
use stack4things_openstack_i.Db.Engine.{Engine}
use stack4things_openstack_i.Db.Filters.{add_result_filters}
use stack4things_openstack_i.Db.Query.{both, every, has}
use stack4things_openstack_i.Db.Schema.{Column, Model, Row, Value}

module _ ⦃E : Engine⦄ (w : World) (r q : Row) (s : String) (m : WampMessage) (board_uuid : Value)
    (named : m.req_id ≡ some s) (c : CanFinish w r q (Value.str s))
    (mine : filter
        (both (has Column.board_uuid board_uuid) (has Column.request_uuid (Value.str s)))
        (w.tables Model.result)
      ≡ r ∷ []) where
  -- the results of the request that are still running once this one is saved
  abbrev pub running_left : List Row
  running_left =
      filter
        (add_result_filters (after_result w r q (Value.str s) m c).tables (running_of (Value.str s))
          every)
        ((after_result w r q (Value.str s) m c).tables Model.result)
