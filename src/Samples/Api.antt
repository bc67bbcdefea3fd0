-- ===== src/Samples/Api.antt =====
-- The theorems about the REST API, at requests to the engine in memory.
use stack4things_openstack_i.Api.Router.Routes.{Request}
use stack4things_openstack_i.Samples.Memory.{memory}
use stack4things_openstack_i.Api.Router.Sessions.{dispatch-Keeps}
use stack4things_openstack_i.Wamp.Sessions.Keeping.{Single}
use stack4things_openstack_i.Action.{Exception, World, raised, ◌>>=◌}
use stack4things_openstack_i.Action.Keeps.{Keeps}
use stack4things_openstack_i.Api.Boards.{BoardBody, patch_board, post_board}
use stack4things_openstack_i.Api.Boards.Creating.{is_well_formed, post_board_refused}
use stack4things_openstack_i.Api.Boards.Patching.{patch_board_uuid}
use stack4things_openstack_i.Api.Listing.{Query, find_marker, get_page}
use stack4things_openstack_i.Api.Listing.Pages.{get_page_bounds}
use stack4things_openstack_i.Api.Resources.{ApiObject, self_links}
use stack4things_openstack_i.Api.Router.{handle}
use stack4things_openstack_i.Api.Router.Serving.{handle-Keeps}
use stack4things_openstack_i.Api.Router.Sessions.{ApiStep, Runs, api_valid_sessions_at_most_one}
use stack4things_openstack_i.Api.Router.Strangers.{Refuses}
use stack4things_openstack_i.Api.Router.Strangers.Anyone.{handle_alike}
use stack4things_openstack_i.Api.Router.Strangers.Refusing.{IsStranger, handle_refused}
use stack4things_openstack_i.Api.Utils.{ApiConf, Context, validate_limit, validate_sort_dir}
use stack4things_openstack_i.Base.{
  String, [], any, arith, false, filter, length, none, pos, refl, some, str_eq, ℕ, ◌<◌, ◌∷◌, ◌≡◌,
  ◌≤◌, ◌⊎◌,
}
use stack4things_openstack_i.Common.Policy.{Credentials, authorize}
use stack4things_openstack_i.Common.Policy.Rules.{find_rule, list_policies}
use stack4things_openstack_i.Conductor.Calls.{Step}
use stack4things_openstack_i.Conductor.Ports.{default_ports}
use stack4things_openstack_i.Conductor.RpcApi.{ConductorConf}
use stack4things_openstack_i.Db.Engine.{Page}
use stack4things_openstack_i.Db.Plugins.{get_plugin_by_uuid}
use stack4things_openstack_i.Db.Schema.{Column, Model, Value, assign, set_rows, truthy}
use stack4things_openstack_i.Objects.{Object, from_db_object}
use stack4things_openstack_i.Samples.Policies.{
  admin_values, keystone_default, keystone_rules, stranger-IsOutsider, stranger_values,
}
use stack4things_openstack_i.Samples.Runs.{board_row, no_rows, null_row, u1, world_of}
use stack4things_openstack_i.Wamp.Sessions.Joining.{valid_of}

abbrev conductor_conf : ConductorConf
conductor_conf = record {
  ports = default_ports;
  stamp = λ r k. Value.null;
  url = Value.null;
  dumps = λ v. v;
  fuel = 5;
}

abbrev pub conf : ApiConf
conf = record {
  max_limit = 1000;
  public_url = "http://host";
  timestamps = λ r. [];
  unset_text = "Unset";
  unset_address = raised Exception.db_error;
  conductor = conductor_conf;
}

abbrev context_of : String → Credentials → Context
context_of user values = record {
  user_id = Value.str user;
  project_id = Value.str "p";
  is_admin = false;
  policy_values = values;
}

abbrev pub stranger : Context
stranger = context_of "uz" stranger_values

abbrev admin : Context
admin = context_of "ua" admin_values

abbrev pub one_board : World
one_board = world_of (set_rows no_rows Model.board (board_row ∷ []))

-- the board connects, anyone reads its services, the administrator deletes it
abbrev requests_served : (w : World) × Runs ⦃F = keystone_rules⦄ conf one_board w
requests_served = (
  _,
  Runs.goes_on
      (Runs.goes_on (Runs.goes_on Runs.stays (ApiStep.calls (Step.connects u1 (Value.str "7") [])))
        (ApiStep.serves stranger (Request.get_services_status "u1")))
      (ApiStep.serves admin (Request.delete_board "u1")),
)

api_valid_sessions_at_most_one_example :
    length (filter (valid_of u1) (requests_served.0.tables Model.session)) ≤ 1
api_valid_sessions_at_most_one_example =
    api_valid_sessions_at_most_one ⦃F = keystone_rules⦄ conf one_board requests_served.0 refl
      requests_served.1 "u1"

handle-Keeps_example :
    Keeps Single (handle ⦃F = keystone_rules⦄ conf admin (Request.delete_board "u1"))
handle-Keeps_example =
    handle-Keeps ⦃F = keystone_rules⦄ conf admin (dispatch-Keeps ⦃F = keystone_rules⦄ conf)
      (Request.delete_board "u1")

user-IsStranger : IsStranger stranger_values (Value.str "uz")
user-IsStranger = record { outsider = stranger-IsOutsider; named = refl; ownerless = refl }

handle_refused_example :
    Refuses one_board (handle ⦃F = keystone_rules⦄ conf stranger (Request.delete_board "u1"))
unfolding keystone_default
handle_refused_example =
    handle_refused ⦃F = keystone_rules⦄ keystone_default conf stranger (Value.str "uz")
      user-IsStranger one_board (refl, tt) tt (Request.delete_board "u1") refl

handle_alike_example :
    handle ⦃F = keystone_rules⦄ conf stranger (Request.delete_board_port "u1" "up") one_board
    ≡ handle ⦃F = keystone_rules⦄ conf admin (Request.delete_board_port "u1" "up") one_board
handle_alike_example =
    handle_alike conf one_board keystone_rules keystone_rules stranger admin
      (Request.delete_board_port "u1" "up") refl

abbrev body : BoardBody
body = record {
  values = (Column.name, Value.str "b") ∷ (Column.code, Value.str "c2") ∷ [];
  location = ((Column.longitude, Value.str "1") ∷ []) ∷ [];
}

abbrev placeless : BoardBody
placeless = record body { location = [] }

post_board_refused_example :
    (e : Exception) × (post_board ⦃F = keystone_rules⦄ conf admin placeless one_board
      ≡ (raised e, one_board))
unfolding authorize find_rule list_policies any is_well_formed truthy
post_board_refused_example =
    post_board_refused ⦃F = keystone_rules⦄ conf admin placeless one_board refl refl

patch_board_uuid_example :
    (e : Exception) × (patch_board ⦃F = keystone_rules⦄ conf admin "u1"
        ((Column.uuid, Value.str "u2") ∷ [])
        one_board
      ≡ (raised e, one_board))
patch_board_uuid_example =
    patch_board_uuid ⦃F = keystone_rules⦄ conf admin "u1" ((Column.uuid, Value.str "u2") ∷ [])
      one_board refl

abbrev plugin : Object
plugin = from_db_object (assign ((Column.uuid, u1) ∷ (Column.name, Value.str "p") ∷ []) null_row)

abbrev plugin_shown : ApiObject
plugin_shown = record {
  attributes = ("uuid", u1) ∷ ("name", Value.str "p") ∷ [];
  extras = [];
  locations = [];
  links = self_links conf "plugins" plugin.row;
}

abbrev query : Query
query = record {
  marker = none;
  limit = some (pos 5000);
  sort_key = "id";
  sort_dir = "desc";
  fields = none;
}

abbrev page : Page
page = record { limit = some 1000; marker = none; sort_key = some "id"; sort_dir = some "desc" }

get_page_bounds_example :
    ((n : ℕ) × (page.limit ≡ some n) × (0 < n) × (n ≤ 1000))
    × (page.sort_key ≡ some "id")
    × (any (str_eq "id") ("extra" ∷ []) ≡ false)
    × ((page.sort_dir ≡ some "asc") ⊎ (page.sort_dir ≡ some "desc"))
unfolding get_page validate_limit validate_sort_dir find_marker any
get_page_bounds_example =
    get_page_bounds conf get_plugin_by_uuid ("extra" ∷ []) query one_board one_board page refl
      (omega arith)
