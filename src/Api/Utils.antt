-- ===== src/Api/Utils.antt =====
-- iotronic/api/controllers/v1/utils.py, and what a request carries: the context that api/hooks.py
-- attaches to it, and the configuration that the controllers read.
pub mod Laws
use stack4things_openstack_i.Action.{Action, Exception, Result, ok, pure, raise, raised}
use stack4things_openstack_i.Base.{
  Bool, List, Option, String, [], false, if◌then◌else◌, leb, negsuc, none, not, pos, some, str_eq,
  suc, true, zero, ℕ, ℤ, ◌||◌, ◌∷◌,
}
use stack4things_openstack_i.Common.Policy.{Credentials}
use stack4things_openstack_i.Conductor.RpcApi.{ConductorConf}
use stack4things_openstack_i.Db.Boards.{get_board_by_name, get_board_by_uuid}
use stack4things_openstack_i.Db.Engine.{Engine}
use stack4things_openstack_i.Db.Fleets.{
  get_fleet_by_name, get_fleet_by_uuid, get_webservice_by_uuid,
}
use stack4things_openstack_i.Db.Plugins.{get_plugin_by_name, get_plugin_by_uuid}
use stack4things_openstack_i.Db.Query.{is_uuid_like}
use stack4things_openstack_i.Db.Schema.{Column, Row, Value, Values, truthy}
use stack4things_openstack_i.Db.Services.{
  get_port_by_name, get_port_by_uuid, get_service_by_name, get_service_by_uuid,
}
use stack4things_openstack_i.Objects.{Object, field_type, is_online, load, set_attr}

-- pecan.request.context
pub record Context : Type 0 where
  pub user_id : Value
  pub project_id : Value
  pub is_admin : Bool
  -- to_policy_values()
  pub policy_values : Credentials

pub record ApiConf : Type 0 where
  -- CONF.api.max_limit
  pub max_limit : ℕ
  -- pecan.request.public_url
  pub public_url : String
  -- created_at and updated_at, which TimestampMixin writes, as a serialised row has them
  pub timestamps : Row → List (String × Value)
  -- '%s' of wsme.Unset
  pub unset_text : String
  -- the address of the agent whose hostname is wsme.Unset, an argument that no query is made for: what
  -- the driver of the database makes of it
  pub unset_address : Result String
  pub conductor : ConductorConf

abbrev is_positive : ℤ → Bool
is_positive (pos zero) = false
is_positive (pos (suc n)) = true
is_positive (negsuc n) = false

-- min(a, b) for a bound and a positive limit
abbrev min_of : ℕ → ℤ → ℕ
min_of a (pos b) = if leb a b then a else b
min_of a (negsuc b) = a

unfoldable pub validate_limit : ℕ → Option ℤ → Result ℕ
validate_limit max_limit none = ok max_limit
validate_limit max_limit (some z) =
    if is_positive z then ok (min_of max_limit z) else raised Exception.client_side_error

unfoldable pub validate_sort_dir : String → Result String
validate_sort_dir sort_dir =
    if str_eq sort_dir "asc" || str_eq sort_dir "desc"
    then ok sort_dir
    else raised Exception.client_side_error

-- a key of a dictionary
unfoldable pub has_key : List (String × Value) → String → Bool
has_key [] k = false
has_key ((j, v) ∷ d) k = str_eq k j || has_key d k

-- some field is not a key
unfoldable pub has_invalid : List (String × Value) → List String → Bool
unfolding has_key
has_invalid d [] = false
has_invalid d (f ∷ fs) = not (has_key d f) || has_invalid d fs

unfoldable pub check_for_invalid_fields : List String → List (String × Value) → Result (Unit {0})
unfolding has_invalid
check_for_invalid_fields fields object_fields =
    if has_invalid object_fields fields then raised Exception.invalid_parameter_value else ok tt

-- if not value: raise MissingParameterValue
unfoldable pub want : Value → Action (Unit {0})
unfolding truthy
want v = if truthy v then pure tt else raise Exception.missing_parameter_value

module _ ⦃E : Engine⦄ where
  -- a uuid is looked up as one, and any other text as a name
  unfoldable pub get_rpc : (Value → Action Row) → (Value → Action Row) → String → Action Object
  unfolding load
  get_rpc by_uuid by_name ident =
      if E.is_uuid_like ident
      then load (by_uuid (Value.str ident))
      else load (by_name (Value.str ident))

  unfoldable pub get_rpc_board : String → Action Object
  unfolding get_rpc
  get_rpc_board = get_rpc get_board_by_uuid get_board_by_name

  unfoldable pub get_rpc_plugin : String → Action Object
  unfolding get_rpc
  get_rpc_plugin = get_rpc get_plugin_by_uuid get_plugin_by_name

  unfoldable pub get_rpc_service : String → Action Object
  unfolding get_rpc
  get_rpc_service = get_rpc get_service_by_uuid get_service_by_name

  -- names of web services are refused
  unfoldable pub get_rpc_webservice : String → Action Object
  unfolding load get_webservice_by_uuid
  get_rpc_webservice ident =
      if E.is_uuid_like ident
      then load (get_webservice_by_uuid (Value.str ident))
      else raise (Exception.invalid_uuid_or_name (Value.str ident))

  unfoldable pub get_rpc_port : String → Action Object
  unfolding get_rpc
  get_rpc_port = get_rpc get_port_by_uuid get_port_by_name

  unfoldable pub get_rpc_fleet : String → Action Object
  unfolding get_rpc
  get_rpc_fleet = get_rpc get_fleet_by_uuid get_fleet_by_name

  -- is_valid_board_name and is_valid_name: a name is not a uuid
  unfoldable pub is_valid_name : Value → Bool
  is_valid_name name = not (is_uuid_like name)

  -- if not is_valid_name(name): raise ClientSideError
  unfoldable pub want_name : Value → Action (Unit {0})
  unfolding is_valid_name
  want_name name = if is_valid_name name then pure tt else raise Exception.client_side_error

-- the setter of a field under try: it marks the field as changed before the type function raises
abbrev pub set_typed : Object → Column → Result Value → Object
set_typed o c (ok v) = set_attr o c v
set_typed o c (raised e) = record o { changed = c ∷ o.changed }

-- for key in values: try: target[key] = values[key]
unfoldable pub set_all : ⦃E : Engine⦄ → Object → Values → Object
unfolding field_type
set_all o [] = o
set_all o ((c, v) ∷ vs) = set_all (set_typed o c (field_type c v)) vs

-- objects/board.py: check_if_online
unfoldable pub check_if_online : Object → Action (Unit {0})
unfolding is_online
check_if_online board =
    if is_online board
    then pure tt
    else raise (Exception.board_not_connected (board.row Column.uuid))
