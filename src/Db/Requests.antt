-- ===== src/Db/Requests.antt =====
-- db/sqlalchemy/api.py: requests to boards, and their results.
use stack4things_openstack_i.Base.{List, if◌then◌else◌}
use stack4things_openstack_i.Db.Schema.{Value, Model, Column, Row, Values, assigns}
use stack4things_openstack_i.Db.Engine.{Engine, Page}
use stack4things_openstack_i.Db.Query.{
  has, both, every, one, insert_row, paginate_query, ensure_uuid, do_update,
}
use stack4things_openstack_i.Db.Filters.{Filters, add_requests_filters, add_result_filters}
use stack4things_openstack_i.Action.{Exception, Action, ◌>>=◌, raise, or_not_found}

module _ ⦃E : Engine⦄ where
  unfoldable pub get_request_by_id : Value → Action Row
  unfolding one
  get_request_by_id request_id =
      or_not_found (one Model.request (has Column.id request_id))
        (Exception.request_not_found request_id)

  unfoldable pub get_request_by_uuid : Value → Action Row
  unfolding one
  get_request_by_uuid request_uuid =
      or_not_found (one Model.request (has Column.uuid request_uuid))
        (Exception.request_not_found request_uuid)

  unfoldable pub create_request : Values → Action Row
  unfolding ensure_uuid insert_row
  create_request values = do vs ← ensure_uuid values; insert_row Model.request vs

  unfoldable pub do_update_request : Value → Values → Action Row
  unfolding do_update
  do_update_request = do_update Model.request Exception.request_not_found

  unfoldable pub update_request : Value → Values → Action Row
  unfolding do_update_request
  update_request request_id vs =
      if assigns Column.uuid vs
      then raise Exception.invalid_parameter_value
      else do_update_request request_id vs

  unfoldable pub get_request_list : Filters → Page → Action (List Row)
  unfolding paginate_query add_requests_filters
  get_request_list fs page = paginate_query Model.request page (add_requests_filters fs every)

  -- results
  unfoldable pub create_result : Values → Action Row
  unfolding insert_row
  create_result = insert_row Model.result

  unfoldable pub get_result : Value → Value → Action Row
  unfolding one
  get_result board_uuid request_uuid =
      or_not_found
        (one Model.result
          (both (has Column.board_uuid board_uuid) (has Column.request_uuid request_uuid)))
        Exception.result_not_found

  unfoldable pub update_result : Value → Values → Action Row
  unfolding do_update
  update_result = do_update Model.result (λ _. Exception.result_not_found)

  unfoldable pub get_result_list : Filters → Page → Action (List Row)
  unfolding paginate_query add_result_filters
  get_result_list fs page w =
      paginate_query Model.result page (add_result_filters w.tables fs every) w
