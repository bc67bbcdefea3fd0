-- ===== src/Api/Requests.antt =====
-- iotronic/api/controllers/v1/request.py: RequestsController and ResultsRequestController.
use stack4things_openstack_i.Action.{Action, Exception, lift, raise, ◌>>=◌, ◌>>◌}
use stack4things_openstack_i.Api.Boards.{want_collection}
use stack4things_openstack_i.Api.Fleets.{admin_project}
use stack4things_openstack_i.Api.Listing.{
  Answered, Query, allow, fields_or, get_page, no_marker, show, show_list, unchecked_limit,
}
use stack4things_openstack_i.Api.Resources.Kinds.{request_kind, result_kind}
use stack4things_openstack_i.Api.Utils.{ApiConf, Context}
use stack4things_openstack_i.Base.{List, Option, String, [], none, some, ◌∷◌}
use stack4things_openstack_i.Common.Policy.{Enforcer, get_item}
use stack4things_openstack_i.Db.Engine.{Engine}
use stack4things_openstack_i.Db.Requests.{get_request_by_uuid}
use stack4things_openstack_i.Db.Schema.{Value}
use stack4things_openstack_i.Objects.{load}
use stack4things_openstack_i.Objects.Listing.{list_requests, list_results}

abbrev request_return_fields : List String
request_return_fields =
    "uuid" ∷ "destination_uuid" ∷ "main_request_uuid" ∷ "pending_requests" ∷ "status" ∷ "type"
    ∷ "action" ∷ []

abbrev result_return_fields : List String
result_return_fields = "board_uuid" ∷ "request_uuid" ∷ "result" ∷ "message" ∷ []

module _ ⦃E : Engine⦄ ⦃F : Enforcer⦄ (conf : ApiConf) (ctx : Context) where
  -- ResultsRequestController.get_all
  unfoldable pub get_request_results : String → Query → Action Answered
  unfolding allow unchecked_limit no_marker list_results show_list
  get_request_results request_ident q = do
    allow "iot:result:get" ctx.policy_values
    limit ← unchecked_limit q.limit
    results ← list_results (("request_uuid", Value.str request_ident) ∷ []) (record {
      limit = limit;
      marker = none;
      sort_key = some q.sort_key;
      sort_dir = some q.sort_dir;
    })
    no_marker q.marker
    show_list conf result_kind (fields_or result_return_fields q.fields) limit q.sort_key q.sort_dir
        results

  unfoldable pub get_requests_collection : Query → Value → Option (List String) → Action Answered
  unfolding get_page admin_project list_requests show_list
  get_requests_collection q project fields = do
    page ← get_page conf get_request_by_uuid ("extra" ∷ []) q
    requests ← list_requests (admin_project ctx project) page
    show_list conf request_kind fields page.limit q.sort_key q.sort_dir requests

  unfoldable pub get_request_one : String → Option (List String) → Action Answered
  unfolding allow load get_request_by_uuid show
  get_request_one request_ident fields = do
    allow "iot:request:get_one" ctx.policy_values
    rpc_request ← load (get_request_by_uuid (Value.str request_ident))
    show conf request_kind fields rpc_request

  unfoldable pub get_request_all : Query → Action Answered
  unfolding allow get_item get_requests_collection
  get_request_all q = do
    allow "iot:request:get" ctx.policy_values
    project ← lift (get_item ctx.policy_values "project_id")
    get_requests_collection q project (fields_or request_return_fields q.fields)

  -- The collection is asked with arguments that its method does not have: TypeError.
  unfoldable pub detail_requests : String → Query → Action Answered
  unfolding allow
  detail_requests parent q = do
    allow "iot:request:get" ctx.policy_values
    want_collection "requests" parent
    raise Exception.type_error
