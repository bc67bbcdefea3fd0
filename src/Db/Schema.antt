-- ===== src/Db/Schema.antt =====
-- iotronic/db/sqlalchemy/models.py: the tables, their columns, defaults and unique constraints.
-- A row is the function that gives the value of each column, NULL (`null`) where it has none.
-- `created_at` and the automatic `updated_at` of oslo.db's TimestampMixin are not modelled; the
-- explicit writes of `updated_at` in api.py are.
use stack4things_openstack_i.Base.{
  ℕ, String, Bool, true, false, ◌&&◌, ◌||◌, not, Option, none, some, List, [], ◌∷◌, ℤ, pos, eq_ℤ,
  str_eq, ◌==◌, if◌then◌else◌, any,
}

-- The values of a column, and of the JSON documents kept in some columns.
mutual
  pub data Value : Type 0 where
    null : Value
    bool : Bool → Value
    int : ℤ → Value
    str : String → Value
    dict : Fields → Value

  pub data Fields : Type 0 where
    end : Fields
    field : String → Value → Fields → Fields

-- The tables, one for each class that inherits from Base.
pub data Model : Type 0 where
  conductor wamp_agent board location session plugin injection_plugin service exposed_service :
      Model
  port fleet webservice enabled_webservice request result : Model

-- The columns of all tables.
pub data Column : Type 0 where
  id uuid code status name type agent owner project fleet lr_version connectivity mobile : Column
  config extra hostname online wsurl ragent updated_at longitude latitude altitude : Column
  board_id valid session_id board_uuid public callable parameters plugin_uuid onboot port : Column
  protocol service_uuid public_port vif_name mac_add ip network description secure : Column
  http_port https_port dns zone main_request_uuid destination_uuid pending_requests action : Column
  request_uuid result message : Column

-- A number for each column and table, to tell them apart.
abbrev column_index : Column → ℕ
column_index Column.id = 0
column_index Column.uuid = 1
column_index Column.code = 2
column_index Column.status = 3
column_index Column.name = 4
column_index Column.type = 5
column_index Column.agent = 6
column_index Column.owner = 7
column_index Column.project = 8
column_index Column.fleet = 9
column_index Column.lr_version = 10
column_index Column.connectivity = 11
column_index Column.mobile = 12
column_index Column.config = 13
column_index Column.extra = 14
column_index Column.hostname = 15
column_index Column.online = 16
column_index Column.wsurl = 17
column_index Column.ragent = 18
column_index Column.updated_at = 19
column_index Column.longitude = 20
column_index Column.latitude = 21
column_index Column.altitude = 22
column_index Column.board_id = 23
column_index Column.valid = 24
column_index Column.session_id = 25
column_index Column.board_uuid = 26
column_index Column.public = 27
column_index Column.callable = 28
column_index Column.parameters = 29
column_index Column.plugin_uuid = 30
column_index Column.onboot = 31
column_index Column.port = 32
column_index Column.protocol = 33
column_index Column.service_uuid = 34
column_index Column.public_port = 35
column_index Column.vif_name = 36
column_index Column.mac_add = 37
column_index Column.ip = 38
column_index Column.network = 39
column_index Column.description = 40
column_index Column.secure = 41
column_index Column.http_port = 42
column_index Column.https_port = 43
column_index Column.dns = 44
column_index Column.zone = 45
column_index Column.main_request_uuid = 46
column_index Column.destination_uuid = 47
column_index Column.pending_requests = 48
column_index Column.action = 49
column_index Column.request_uuid = 50
column_index Column.result = 51
column_index Column.message = 52

abbrev pub model_index : Model → ℕ
model_index Model.conductor = 0
model_index Model.wamp_agent = 1
model_index Model.board = 2
model_index Model.location = 3
model_index Model.session = 4
model_index Model.plugin = 5
model_index Model.injection_plugin = 6
model_index Model.service = 7
model_index Model.exposed_service = 8
model_index Model.port = 9
model_index Model.fleet = 10
model_index Model.webservice = 11
model_index Model.enabled_webservice = 12
model_index Model.request = 13
model_index Model.result = 14

abbrev pub same_column : Column → Column → Bool
same_column a b = column_index a == column_index b

abbrev pub same_model : Model → Model → Bool
same_model a b = model_index a == model_index b

abbrev pub Row : Type 0
Row = Column → Value

abbrev pub Tables : Type 0
Tables = Model → List Row

-- The keyword arguments of an INSERT or an UPDATE.
abbrev pub Values : Type 0
Values = List (Column × Value)

abbrev pub set_column : Row → Column → Value → Row
set_column r c v = λ d. if same_column c d then v else r d

abbrev pub set_rows : Tables → Model → List Row → Tables
set_rows t m rs = λ n. if same_model m n then rs else t n

-- ModelBase.update(values), setattr by setattr
abbrev pub assign : Values → Row → Row
assign [] r = r
assign ((c, v) ∷ vs) r = assign vs (set_column r c v)

-- 'column' in values
abbrev pub assigns : Column → Values → Bool
assigns c [] = false
assigns c ((d, v) ∷ vs) = same_column c d || assigns c vs

-- values['column']
abbrev pub value_of : Column → Values → Value
value_of c [] = Value.null
value_of c ((d, v) ∷ vs) =
    if assigns c vs then value_of c vs else if same_column c d then v else Value.null

unfoldable pub bool_int : Bool → ℤ
bool_int true = pos 1
bool_int false = pos 0

-- Equality of scalars in a query and in Python: a boolean is the number 0 or 1. Documents are
-- never compared.
unfoldable pub eq_value : Value → Value → Bool
unfolding eq_ℤ bool_int
eq_value Value.null Value.null = true
eq_value (Value.bool a) (Value.bool b) = eq_ℤ (bool_int a) (bool_int b)
eq_value (Value.bool a) (Value.int z) = eq_ℤ (bool_int a) z
eq_value (Value.int z) (Value.bool b) = eq_ℤ z (bool_int b)
eq_value (Value.int y) (Value.int z) = eq_ℤ y z
eq_value (Value.str s) (Value.str u) = str_eq s u
eq_value _ _ = false

-- The truth of a value in a Python condition.
unfoldable pub truthy : Value → Bool
unfolding eq_ℤ
truthy Value.null = false
truthy (Value.bool b) = b
truthy (Value.int z) = not (eq_ℤ z (pos 0))
truthy (Value.str s) = not (str_eq s "")
truthy (Value.dict Fields.end) = false
truthy (Value.dict (Fields.field k v f)) = true

-- The column defaults; JSONEncodedDict stores an absent document as an empty one.
abbrev pub defaults : Model → Row
defaults Model.conductor Column.online = Value.bool true
defaults Model.wamp_agent Column.online = Value.bool true
defaults Model.wamp_agent Column.ragent = Value.bool false
defaults Model.board Column.mobile = Value.bool false
defaults Model.board Column.connectivity = Value.dict Fields.end
defaults Model.board Column.config = Value.dict Fields.end
defaults Model.board Column.extra = Value.dict Fields.end
defaults Model.session Column.valid = Value.bool true
defaults Model.plugin Column.public = Value.bool false
defaults Model.plugin Column.parameters = Value.dict Fields.end
defaults Model.plugin Column.extra = Value.dict Fields.end
defaults Model.injection_plugin Column.onboot = Value.bool false
defaults Model.service Column.extra = Value.dict Fields.end
defaults Model.fleet Column.extra = Value.dict Fields.end
defaults Model.webservice Column.secure = Value.bool true
defaults Model.webservice Column.extra = Value.dict Fields.end
defaults Model.enabled_webservice Column.extra = Value.dict Fields.end
defaults Model.request Column.pending_requests = Value.int (pos 0)
defaults m c = Value.null

-- The UniqueConstraints, each a list of columns. The primary key `id` is the database's own.
abbrev pub unique : Model → List (List Column)
unique Model.conductor = (Column.hostname ∷ []) ∷ []
unique Model.wamp_agent = (Column.hostname ∷ []) ∷ []
unique Model.board = (Column.uuid ∷ []) ∷ (Column.code ∷ []) ∷ []
unique Model.session = (Column.session_id ∷ Column.board_uuid ∷ []) ∷ []
unique Model.plugin = (Column.uuid ∷ []) ∷ []
unique Model.service = (Column.uuid ∷ []) ∷ []
unique Model.fleet = (Column.uuid ∷ []) ∷ []
unique Model.webservice =
    (Column.uuid ∷ [])
    ∷ (Column.board_uuid ∷ Column.port ∷ Column.name ∷ [])
    ∷ (Column.port ∷ Column.board_uuid ∷ [])
    ∷ []
unique Model.request = (Column.uuid ∷ []) ∷ []
unique Model.result = (Column.board_uuid ∷ Column.request_uuid ∷ []) ∷ []
unique m = []

unfoldable pub is_null : Value → Bool
is_null Value.null = true
is_null _ = false

-- Two rows agree on a constraint's columns; a NULL agrees with nothing.
unfoldable pub same_key : List Column → Row → Row → Bool
unfolding is_null
same_key [] r s = true
same_key (c ∷ cs) r s = not (is_null (r c)) && eq_value (r c) (s c) && same_key cs r s

-- The columns of the first constraint that the new row would break.
unfoldable pub conflict : List (List Column) → Row → List Row → Option (List Column)
unfolding same_key any
conflict [] r rows = none
conflict (k ∷ ks) r rows = if any (same_key k r) rows then some k else conflict ks r rows

-- The columns of unique constraints, of foreign keys and of the keys that they refer to.
abbrev is_key : Column → Bool
is_key Column.id = true
is_key Column.uuid = true
is_key Column.code = true
is_key Column.hostname = true
is_key Column.fleet = true
is_key Column.board_id = true
is_key Column.session_id = true
is_key Column.board_uuid = true
is_key Column.plugin_uuid = true
is_key Column.service_uuid = true
is_key Column.port = true
is_key Column.name = true
is_key Column.main_request_uuid = true
is_key Column.request_uuid = true
is_key c = false

-- An update of these columns can break no constraint.
abbrev pub keyless : Values → Bool
keyless [] = true
keyless ((c, v) ∷ vs) = not (is_key c) && keyless vs
