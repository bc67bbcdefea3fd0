-- ===== src/Objects.antt =====
-- iotronic/objects: an object is a row of attributes and the fields changed since it was loaded;
-- save writes the changed columns only.
pub mod Laws
pub mod Kinds
pub mod Registry
pub mod Listing
pub mod Keeping
use stack4things_openstack_i.Action.{
  Action, Exception, Result, catch, ok, pure, raise, raised, ◌>>=◌, ◌>>◌,
}
use stack4things_openstack_i.Base.{
  Bool, List, Option, String, [], false, if◌then◌else◌, map, none, some, true, ◌∷◌,
}
use stack4things_openstack_i.Db.Boards.{
  get_board_by_id, get_board_by_name, get_board_by_uuid, update_board,
}
use stack4things_openstack_i.Db.Engine.{Engine}
use stack4things_openstack_i.Db.Fleets.{
  get_enabled_webservice_by_board_uuid, get_enabled_webservice_by_name,
}
use stack4things_openstack_i.Db.Requests.{
  create_request, create_result, update_request, update_result,
}
use stack4things_openstack_i.Base.{integer_text}
use stack4things_openstack_i.Db.Query.{contains_column, is_uuid_like}
use stack4things_openstack_i.Db.Schema.{
  Column, Fields, Row, Value, Values, eq_value, same_column, set_column, truthy,
}
use stack4things_openstack_i.Db.Services.{get_exposed_service_list}
use stack4things_openstack_i.Db.Sessions.{
  create_session, get_session_by_board_uuid, get_session_by_id, update_session,
}

pub record Object : Type 0 where
  pub row : Row
  -- _changed_fields
  pub changed : List Column

-- _from_db_object
abbrev pub from_db_object : Row → Object
from_db_object r = record { row = r; changed = [] }

-- The setter of a field, from the value that its type function returns. A caller whose value may be
-- of another type applies that function first, str_or_none or dict_or_none below, with its errors;
-- or field_type for what the API was sent; elsewhere the value is one of the type already.
abbrev pub set_attr : Object → Column → Value → Object
set_attr o c v = record { row = set_column o.row c v; changed = c ∷ o.changed }

unfoldable pub changes_of : List Column → Row → Values
changes_of [] r = []
changes_of (c ∷ cs) r = (c, r c) ∷ changes_of cs r

unfoldable pub obj_get_changes : Object → Values
unfolding changes_of
obj_get_changes o = changes_of o.changed o.row

-- Class(ctx, **kwargs)
unfoldable pub new_object : Values → Object
new_object [] = record { row = λ _. Value.null; changed = [] }
new_object ((c, v) ∷ vs) = let o = new_object vs in set_attr o c v

-- text + text, for values: TypeError on anything else
unfoldable pub text_of : Value → Result String
text_of (Value.str s) = ok s
text_of v = raised Exception.type_error

-- board.status == states.ONLINE
unfoldable pub is_online : Object → Bool
is_online board = eq_value (board.row Column.status) (Value.str "online")

unfoldable pub load : Action Row → Action Object
load m = do r ← m; pure (from_db_object r)

module _ ⦃E : Engine⦄ where
  -- boards
  unfoldable pub get_board : Value → Action Object
  unfolding load get_board_by_id get_board_by_uuid
  get_board (Value.int z) = load (get_board_by_id (Value.int z))
  get_board (Value.str s) = elim (E.int_like s) [
    | some z ↦ load (get_board_by_id (Value.int z))
    | none ↦
        if E.is_uuid_like s
        then load (get_board_by_uuid (Value.str s))
        else raise (Exception.invalid_identity (Value.str s))
  ]
  get_board v = raise (Exception.invalid_identity v)

  -- except BoardNotFound: False
  abbrev pub missing_board : Exception → Action Bool
  missing_board (Exception.board_not_found v) = pure false
  missing_board e = raise e

  unfoldable pub exists_by_name : Value → Action Bool
  unfolding get_board_by_name
  exists_by_name name = catch (do get_board_by_name name; pure true) missing_board

  unfoldable pub save_board : Object → Action Object
  unfolding update_board obj_get_changes
  save_board o = do
    update_board (o.row Column.uuid) (obj_get_changes o)
    pure (from_db_object o.row)

  -- objects/utils.py: the types of fields, for the values that callers bring
  unfoldable pub str_or_none : Value → Value
  unfolding integer_text
  str_or_none Value.null = Value.null
  str_or_none (Value.str s) = Value.str s
  str_or_none (Value.int z) = Value.str (integer_text z)
  str_or_none (Value.bool true) = Value.str "True"
  str_or_none (Value.bool false) = Value.str "False"
  str_or_none (Value.dict f) = Value.str (E.dict_text f)

  unfoldable pub dict_or_none : Value → Result Value
  dict_or_none Value.null = ok (Value.dict Fields.end)
  dict_or_none (Value.str s) = elim (E.literal_dict s) [
    | some f ↦ ok (Value.dict f)
    | none ↦ raised Exception.value_error
  ]
  dict_or_none (Value.dict f) = ok (Value.dict f)
  dict_or_none v = raised Exception.type_error

  -- bool(value)
  abbrev bool_of : Value → Value
  bool_of v = Value.bool (truthy v)

  -- int(value), for a number or nothing
  abbrev number_of : Value → Result Value
  number_of Value.null = raised Exception.type_error
  number_of v = ok v

  -- The type function of a field, at a value that the type of the API's attribute of the same name
  -- lets through: a document may be any JSON there, and anything may be null.
  unfoldable pub field_type : Column → Value → Result Value
  unfolding dict_or_none
  field_type c v =
      if contains_column c
        (Column.connectivity ∷ Column.config ∷ Column.extra ∷ Column.parameters ∷ [])
      then dict_or_none v
      else if contains_column c
          (Column.mobile ∷ Column.public ∷ Column.callable ∷ Column.secure ∷ [])
      then ok (bool_of v)
      else if same_column c Column.port
      then number_of v
      else ok v

  abbrev and_value : Column → Result Value → Result Values → Result Values
  and_value c (ok v) (ok vs) = ok ((c, v) ∷ vs)
  and_value c (ok v) (raised e) = raised e
  and_value c (raised e) rest = raised e

  -- the values that Class(ctx, **values) gives its fields, setter by setter
  unfoldable pub field_values : Values → Result Values
  unfolding field_type
  field_values [] = ok []
  field_values ((c, v) ∷ vs) = and_value c (field_type c v) (field_values vs)

  -- sessions; SessionWP.get_by_id looks for the session number, and fails on None with TypeError
  abbrev pub session_object : Option Row → Action Object
  session_object none = raise Exception.type_error
  session_object (some r) = pure (from_db_object r)

  -- what is_int_like takes for a number: its text, which the column session_id is compared with
  unfoldable pub number_text : Value → Option String
  unfolding integer_text
  number_text (Value.int z) = some (integer_text z)
  number_text (Value.str s) = elim (E.int_like s) [ some z ↦ some s | none ↦ none ]
  number_text v = none

  -- SessionWP.get: a session number, or the uuid of a board with a valid session
  unfoldable pub get_session : Value → Action Object
  unfolding number_text get_session_by_id load get_session_by_board_uuid
  get_session session_or_board_uuid = elim (number_text session_or_board_uuid) [
    | some n ↦ (do found ← get_session_by_id (Value.str n); session_object found)
    | none ↦
        if is_uuid_like session_or_board_uuid
        then load (get_session_by_board_uuid session_or_board_uuid true)
        else raise (Exception.invalid_identity session_or_board_uuid)
  ]

  unfoldable pub save_session : Object → Action Object
  unfolding update_session obj_get_changes
  save_session o = do
    update_session (o.row Column.id) (obj_get_changes o)
    pure (from_db_object o.row)

  unfoldable pub create_session_object : Object → Action Object
  unfolding load create_session obj_get_changes
  create_session_object o = load (create_session (obj_get_changes o))

  -- requests and results
  unfoldable pub create_request_object : Object → Action Object
  unfolding load create_request obj_get_changes
  create_request_object o = load (create_request (obj_get_changes o))

  unfoldable pub save_request : Object → Action Object
  unfolding update_request obj_get_changes
  save_request o = do
    update_request (o.row Column.uuid) (obj_get_changes o)
    pure (from_db_object o.row)

  unfoldable pub create_result_object : Object → Action Object
  unfolding load create_result obj_get_changes
  create_result_object o = load (create_result (obj_get_changes o))

  unfoldable pub save_result : Object → Action Object
  unfolding update_result obj_get_changes
  save_result o = do
    update_result (o.row Column.id) (obj_get_changes o)
    pure (from_db_object o.row)

  -- ExposedService.get_all_ports: the public ports of all exposed services
  unfoldable pub get_all_ports : Action (List Value)
  unfolding get_exposed_service_list
  get_all_ports = do
    rows ← get_exposed_service_list Value.null
    pure (map (λ r. r Column.public_port) rows)

  -- EnabledWebservice.isWebserviceEnabled: except EnabledWebserviceNotFound: False
  abbrev pub not_enabled : Exception → Action Bool
  not_enabled (Exception.enabled_webservice_not_found v) = pure false
  not_enabled e = raise e

  unfoldable pub is_webservice_enabled : Value → Action Bool
  unfolding get_enabled_webservice_by_board_uuid
  is_webservice_enabled uuid =
      catch (do get_enabled_webservice_by_board_uuid uuid; pure true) not_enabled

  unfoldable pub check_dns_available : Value → Action Bool
  unfolding get_enabled_webservice_by_name
  check_dns_available dns = do
    found ← get_enabled_webservice_by_name dns
    pure (elim found [ none ↦ true | some r ↦ false ])
